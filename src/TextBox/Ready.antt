-- ===== src/TextBox/Ready.antt =====
-- A text box that is ready for keys, and what copying and replacing the selection make of it.
use processing_common.Common.{
  ℕ, ◌≡◌, refl, arith, Bool, true, false, ltb, if◌then◌else◌, sub32, List, [], ◌++◌, take, drop,
  Option, some, length, substr,
}
use processing_common.KeyUser.Utf8.{str_to_utf}
use processing_common.KeyUser.Utf8.Roundtrip.{
  AllScalar, AllScalar-append, AllScalar-take, AllScalar-drop, str_to_utf-utf_to_str,
}
use processing_common.ListIdx.{ListIdx}
use processing_common.ListIdx
use processing_common.TextBox.{TextBox, dirty_set, clipboard_set, selection_replace}
use processing_common.TextBox.Consistent.{IsConsistent}
use processing_common.TextBox.Selection.{
  low, high, kept, fitting, left_idx, replaced, high-le-length, selection_replace-replaced,
  replaced_lem,
}
use processing_common.TextBox.Keys.{remove_selection}

-- A text box with the focus: consistent indices over a text of valid code points.
pub record IsReady (t : TextBox) : Type 0 where
  pub consistent : IsConsistent t
  pub unicode : AllScalar t.ustr_work
  pub focused : t.focus ≡ true

-- A call that does not throw and leaves the text box ready.
abbrev pub Leads : Option (TextBox × Bool) → Type 0
Leads r = (t' : TextBox) × (taken : Bool) × (r ≡ some (t', taken)) × IsReady t'

pub Leads-if :
    (b : Bool) (x y : Option (TextBox × Bool)) → Leads x → Leads y → Leads (if b then x else y)
Leads-if true x y p q = p
Leads-if false x y p q = q

-- The two flags of a text box that nothing here depends on.
pub IsReady-flags :
    (t : TextBox) (clip : List ℕ) (flag : Bool)
    → IsReady t
    → IsReady (record t { clipboard = clip; dirty = flag })
IsReady-flags t clip flag r = record {
  consistent = record {
    front_over = r.consistent.front_over;
    back_over = r.consistent.back_over;
    fits = r.consistent.fits;
    small = r.consistent.small;
  };
  unicode = r.unicode;
  focused = r.focused;
}

pub clipboard_set_lem :
    (t : TextBox)
    → IsReady t
    → (clip : List ℕ) × (clipboard_set t ≡ some (record t { clipboard = clip }))
unfolding clipboard_set substr
clipboard_set_lem t r =
    let n = sub32 (high t) (low t) in
    let chosen = take n (drop (low t) t.ustr_work) in
    let (str, wrote, _) = str_to_utf-utf_to_str chosen (
      AllScalar-take n (drop (low t) t.ustr_work) (AllScalar-drop (low t) t.ustr_work r.unicode)) in
    let inside : ltb (length t.ustr_work) (low t) ≡ false =
      ground (arith, high-le-length t r.consistent) in
    (str, simp (r.focused, inside, wrote))

pub replaced-IsReady :
    (t : TextBox) (str ustr : List ℕ)
    → IsReady t
    → str_to_utf str ≡ some ustr
    → AllScalar ustr
    → (t' : TextBox) × (selection_replace t str ≡ some t') × IsReady t'
replaced-IsReady t str ustr r e u =
    let pos = ListIdx.cursor_abs (left_idx t) in
    let rest : AllScalar (kept t) =
      AllScalar-append (take (low t) t.ustr_work) (drop (high t) t.ustr_work)
        (AllScalar-take (low t) t.ustr_work r.unicode)
        (AllScalar-drop (high t) t.ustr_work r.unicode) in
    (
      replaced t ustr,
      selection_replace-replaced t str ustr r.consistent e,
      record {
        consistent = (replaced_lem t ustr r.consistent).0;
        unicode =
            AllScalar-append (take pos (kept t)) (fitting t ustr ++ drop pos (kept t))
              (AllScalar-take pos (kept t) rest)
              (AllScalar-append (fitting t ustr) (drop pos (kept t)) (AllScalar-take _ ustr u)
                (AllScalar-drop pos (kept t) rest));
        focused = r.focused;
      },
    )

pub nothing : str_to_utf [] ≡ some []
unfolding str_to_utf
nothing = refl

pub remove_selection-Leads : (t : TextBox) → IsReady t → Leads (remove_selection t)
unfolding remove_selection dirty_set
remove_selection-Leads t r =
    let (t', e, r') = replaced-IsReady t [] [] r nothing tt in
    (record t' { dirty = true }, true, rw e, IsReady-flags t' t'.clipboard true r')
