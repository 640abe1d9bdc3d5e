-- ===== src/KeyUser/Utf8.antt =====
-- KeyUser.cpp: `strToUtf`, `utfToStr` and `utfStrAdd`, with `std::codecvt_utf8<char32_t>` written
-- out. A text is a list of bytes or of code points. `none` is the `std::range_error` that
-- `wstring_convert` throws. UTF-8 has no surrogates, no overlong forms and nothing above 0x10ffff.
pub mod Roundtrip
use processing_common.Common.{
  ℕ, ◌+◌, ◌-◌, ◌*◌, ◌/◌, ◌%◌, Bool, ◌&&◌, ◌||◌, not, ltb, leb, ◌==◌, if◌then◌else◌, List, [], ◌∷◌,
  ◌++◌, Option, none, some,
}
use mathlib.Core.Option
use processing_common.KeyUser.{KeyUser}

-- A code point outside the surrogates and up to 0x10ffff.
unfoldable pub is_scalar : ℕ → Bool
is_scalar c = ltb c 0x110000 && not (leb 0xd800 c && ltb c 0xe000)

unfoldable pub encode : ℕ → List ℕ
encode c =
    if ltb c 0x80
    then c ∷ []
    else if ltb c 0x800
    then (0xc0 + c / 64) ∷ (0x80 + c % 64) ∷ []
    else if ltb c 0x10000
    then (0xe0 + c / 4096) ∷ (0x80 + c / 64 % 64) ∷ (0x80 + c % 64) ∷ []
    else (0xf0 + c / 262144) ∷ (0x80 + c / 4096 % 64) ∷ (0x80 + c / 64 % 64) ∷ (0x80 + c % 64) ∷ []

-- converter.to_bytes
unfoldable pub utf_to_str : List ℕ → Option (List ℕ)
unfolding encode is_scalar
utf_to_str [] = some []
utf_to_str (c ∷ ustr) =
    let rest = utf_to_str ustr in
    if is_scalar c then Option.map (λ str. encode c ++ str) rest else none

-- A sequence under way: the bytes that are due, the bits so far, the least code point that may
-- be written at this length.
pub record Partial : Type 0 where
  pub due : ℕ
  pub bits : ℕ
  pub least : ℕ

abbrev pub between : Partial
between = record { due = 0; bits = 0; least = 0 }

abbrev lead : ℕ → ℕ → ℕ → Option (Partial × List ℕ)
lead due bits least = some (record { due = due; bits = bits; least = least }, [])

decode_lead : ℕ → Option (Partial × List ℕ)
decode_lead b =
    if ltb b 0x80
    then some (between, b ∷ [])
    else if ltb b 0xc0
    then none
    else if ltb b 0xe0
    then lead 1 (b - 0xc0) 0x80
    else if ltb b 0xf0
    then lead 2 (b - 0xe0) 0x800
    else if ltb b 0xf8
    then lead 3 (b - 0xf0) 0x10000
    else none

decode_more : Partial → ℕ → Option (Partial × List ℕ)
unfolding is_scalar
decode_more p b =
    let bits = p.bits * 64 + (b - 0x80) in
    if ltb b 0x80 || leb 0xc0 b
    then none
    else if not (p.due == 1)
    then some (record p { due = p.due - 1; bits = bits }, [])
    else if leb p.least bits && is_scalar bits
    then some (between, bits ∷ [])
    else none

unfoldable pub decode_byte : Partial → ℕ → Option (Partial × List ℕ)
unfolding decode_lead decode_more
decode_byte p b = if p.due == 0 then decode_lead b else decode_more p b

unfoldable pub decode_from : Partial → List ℕ → Option (List ℕ)
decode_from p [] = if p.due == 0 then some [] else none
decode_from p (b ∷ str) = elim (decode_byte p b) [
  | none ↦ none
  | some (q, out) ↦ Option.map (λ rest. out ++ rest) (decode_from q str)
]

-- converter.from_bytes
unfoldable pub str_to_utf : List ℕ → Option (List ℕ)
unfolding decode_from decode_byte
str_to_utf str = decode_from between str

unfoldable pub utf_str_add : List ℕ → List ℕ → Option (List ℕ)
unfolding str_to_utf
utf_str_add ustr str = Option.map (λ tmp. ustr ++ tmp) (str_to_utf str)

-- KeyUser::utf8()
unfoldable pub utf8 : KeyUser → Option (List ℕ)
unfolding utf_to_str
utf8 key = if key.is_ctrl then some [] else utf_to_str (key.print ∷ [])
