-- ===== src/KeyUser/Operators.antt =====
-- KeyUser.h: the operators that compare a key with characters and control keys, and its text.
use processing_common.Common.{
  ℕ, ◌≡◌, inl, inr, refl, arith, Bool, true, false, not, ◌&&◌, ◌||◌, ltb, leb, ◌==◌, ◌%◌,
  if◌then◌else◌, List, [], ◌∷◌, ◌++◌, Option, none, some, Bool-cases,
}
use processing_common.MailSending.{digits}
use processing_common.KeyUser.{KeyUser, char32, eq_char, ne_char, lt_char, gt_char}
use processing_common.KeyUser.Utf8.{utf8}

unfoldable pub ge_char : KeyUser → ℕ → Bool
ge_char k other = if not k.is_print then false else leb (char32 other) k.print

unfoldable pub le_char : KeyUser → ℕ → Bool
le_char k other = if not k.is_print then false else leb k.print (char32 other)

-- Against a char32_t, which is in range.
unfoldable pub eq_char32 : KeyUser → ℕ → Bool
eq_char32 k other = if not k.is_print then false else k.print == other

unfoldable pub ne_char32 : KeyUser → ℕ → Bool
ne_char32 k other = if not k.is_print then true else not (k.print == other)

unfoldable pub gt_char32 : KeyUser → ℕ → Bool
gt_char32 k other = if not k.is_print then false else ltb other k.print

unfoldable pub lt_char32 : KeyUser → ℕ → Bool
lt_char32 k other = if not k.is_print then false else ltb k.print other

unfoldable pub gt_ctrl : KeyUser → ℕ → Bool
gt_ctrl k other = if not k.is_ctrl then false else ltb other k.ctrl

unfoldable pub lt_ctrl : KeyUser → ℕ → Bool
lt_ctrl k other = if not k.is_ctrl then false else ltb k.ctrl other

unfoldable pub assign_char32 : KeyUser → ℕ → KeyUser
assign_char32 k key = record k { print = key; is_print = true; is_ctrl = false }

-- The cast to a char, as the number of its byte.
abbrev pub to_char : KeyUser → ℕ
to_char k = k.print % 256

abbrev mark : Bool → ℕ → ℕ
mark on c = if on then c else b'-'

abbrev around : List ℕ → Option (List ℕ) → List ℕ → Option (List ℕ)
around front none rest = none
around front (some utf) rest = some (front ++ (utf ++ rest))

unfoldable pub str : KeyUser → Option (List ℕ)
unfolding utf8 digits
str k =
    around
      ((mark k.mod_ctrl b'C' ∷ mark k.mod_alt b'A' ∷ mark k.mod_shift b'S' ∷ b' ' ∷ [])
        ++ (if k.is_print then b'P' ∷ b' ' ∷ [] else []))
      (if k.is_print then utf8 k else some [])
      (if k.is_ctrl then b'C' ∷ b' ' ∷ digits 10 k.ctrl [] else [])

-- How the operators against a character hang together.
pub record IsOrdered (k : KeyUser) (c : ℕ) : Type 0 where
  pub ge : ge_char k c ≡ (k.is_print && not (lt_char k c))
  pub le : le_char k c ≡ (k.is_print && not (gt_char k c))
  pub ne : ne_char k c ≡ not (eq_char k c)
  pub total : (lt_char k c || eq_char k c || gt_char k c) ≡ k.is_print
  pub apart : (lt_char k c && gt_char k c) ≡ false

-- The operators against a character are one order: each is the opposite of another for a key that is
-- printable, all but != are false for one that is not, and a printable key is in one of the three
-- relations, never both smaller and greater.
pub char-IsOrdered : (k : KeyUser) (c : ℕ) → IsOrdered k c
unfolding ge_char le_char lt_char gt_char eq_char ne_char
char-IsOrdered k c = elim (Bool-cases k.is_print) [
  | inl printable ↦ record {
    ge = rw printable (ground arith);
    le = rw printable (ground arith);
    ne = rw printable refl;
    total = rw printable (ground arith);
    apart = rw printable (ground arith);
  }
  | inr control ↦ record {
    ge = rw control refl;
    le = rw control refl;
    ne = rw control refl;
    total = rw control refl;
    apart = rw control refl;
  }
]
