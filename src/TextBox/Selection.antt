-- ===== src/TextBox/Selection.antt =====
-- `selectionReplace`: where the new text goes and where the cursor stands then.
use processing_common.Common.{
  ℕ, ◌+◌, ◌-◌, ◌^◌, ◌<◌, ◌≤◌, ◌≡◌, ◌⊎◌, ◌∙◌, refl, ap, min, arith, u32, sub32, List, ◌++◌, length,
  take, drop, some, str_erase, str_erase_lem, str_insert_lem, length-inserted, drop-drop, take-min,
  length-take, length-append, take-append_of_eq, drop-append_of_eq, length-drop,
}
use processing_common.KeyUser.Utf8.{str_to_utf}
use processing_common.ListIdx.{ListIdx}
use processing_common.ListIdx
use processing_common.ListIdx.Resize.{size_set_cursor, size_set_drift}
use processing_common.TextBox.{TextBox, inserts, room, idx_low, idx_high, selection_replace}
use processing_common.TextBox.Consistent.{
  IsOver, IsConsistent, IsOver-cursor, size_set-IsOver, inserts_lem,
}

-- The ends of the selection, as positions in the text.
abbrev pub low : TextBox → ℕ
low t = ListIdx.cursor_abs (idx_low t)

abbrev pub high : TextBox → ℕ
high t = ListIdx.cursor_abs (idx_high t)

-- The text without the selection, and the index that is left.
abbrev pub kept : TextBox → List ℕ
kept t = take (low t) t.ustr_work ++ drop (high t) t.ustr_work

abbrev pub left_idx : TextBox → ListIdx
left_idx t = ListIdx.size_set (idx_low t) (u32 (length (kept t) + 1))

low-le-high : (t : TextBox) → low t ≤ high t
unfolding idx_low idx_high
low-le-high t = ground arith

low-IsOver : (t : TextBox) → IsConsistent t → IsOver (length t.ustr_work) (idx_low t)
unfolding idx_low
low-IsOver t c = grind arith

high-IsOver : (t : TextBox) → IsConsistent t → IsOver (length t.ustr_work) (idx_high t)
unfolding idx_high
high-IsOver t c = grind arith

pub high-le-length :
    (t : TextBox) → IsConsistent t → (low t ≤ high t) × (high t ≤ length t.ustr_work)
high-le-length t c =
    (low-le-high t, IsOver-cursor (length t.ustr_work) (idx_high t) (high-IsOver t c))

pub length-kept :
    (t : TextBox) → IsConsistent t → length (kept t) + high t ≡ length t.ustr_work + low t
length-kept t c = omega (
  arith,
  high-le-length t c,
  length-append (take (low t) t.ustr_work) (drop (high t) t.ustr_work),
  length-take (low t) t.ustr_work,
  length-drop (high t) t.ustr_work,
)

pub left_idx-IsOver : (t : TextBox) → IsConsistent t → IsOver (length (kept t)) (left_idx t)
left_idx-IsOver t c =
    size_set-IsOver (length t.ustr_work) (length (kept t)) (idx_low t) (low-IsOver t c)
      (omega (arith, length-kept t c, high-le-length t c))

room_lem :
    (len_max kept n : ℕ)
    → kept ≤ len_max
    → len_max < 2 ^ 16
    → room len_max kept n ≡ min n (len_max - kept)
unfolding room
room_lem m k n h l = ground arith

erase_selection :
    (t : TextBox)
    → IsConsistent t
    → str_erase t.ustr_work (low t) (sub32 (high t) (low t)) ≡ some (kept t)
erase_selection t c =
    let n = sub32 (high t) (low t) in
    str_erase_lem t.ustr_work (low t) n (omega (arith, high-le-length t c))
    ∙ ap (λ (r : List ℕ). some (take (low t) t.ustr_work ++ r))
        (drop-drop (low t) n (high t) t.ustr_work (omega (arith, high-le-length t c)))

-- The part of the new text that there is room for.
abbrev pub fitting : TextBox → List ℕ → List ℕ
fitting t ustr = take (t.len_max - length (kept t)) ustr

-- The text box with `ustr` put in at the position of the index that is left.
abbrev pub replaced : TextBox → List ℕ → TextBox
replaced t ustr =
    let pos = ListIdx.cursor_abs (left_idx t) in
    let idx = inserts (length (fitting t ustr)) (left_idx t) in
    record t {
      ustr_work = take pos (kept t) ++ (fitting t ustr ++ drop pos (kept t));
      front = idx;
      back = idx;
    }

-- `selectionReplace` never throws over UTF-8: it removes the selection and puts in what there is
-- room for, at the position of the index that is left.
pub selection_replace-replaced :
    (t : TextBox) (str ustr : List ℕ)
    → IsConsistent t
    → str_to_utf str ≡ some ustr
    → selection_replace t str ≡ some (replaced t ustr)
unfolding selection_replace
selection_replace-replaced t str ustr c e =
    let k = length (kept t) in
    let spare : room t.len_max k (length ustr) ≡ min (length ustr) (t.len_max - k) =
      room_lem t.len_max k (length ustr) (omega (arith, length-kept t c, high-le-length t c))
        c.small in
    let same : length (fitting t ustr) ≡ min (length ustr) (t.len_max - k) =
      omega (arith, length-take (t.len_max - k) ustr) in
    let place = IsOver-cursor k (left_idx t) (left_idx-IsOver t c) in
    rw (erase_selection t c) (
      rw e (
        rw spare (
          rw (str_insert_lem (kept t) (ListIdx.cursor_abs (left_idx t)) _ place)
            (rw (take-min (t.len_max - k) ustr) (rw same refl)))))

-- The index that is left stands at the lower end of the selection, if it was at the top of the text
-- or the text that is left fills the window.
left_idx_stays :
    (t : TextBox)
    → IsConsistent t
    → ((idx_low t).offset ≡ 0) ⊎ ((idx_low t).win ≤ length (kept t) + 1)
    → ListIdx.cursor_abs (left_idx t) ≡ low t
left_idx_stays t c calm =
    let o = low-IsOver t c in
    let n = u32 (length (kept t) + 1) in
    let bounds = high-le-length t c in
    let size = length-kept t c in
    let calm' : ((idx_low t).offset ≡ 0) ⊎ ((idx_low t).win ≤ n) = ground arith in
    let r =
      size_set_cursor (idx_low t) n o.valid o.open_win (omega arith) (omega arith) calm'
        (omega arith) in
    omega (arith, r.0)

pub replaced_lem :
    (t : TextBox) (ustr : List ℕ)
    → IsConsistent t
    → IsConsistent (replaced t ustr)
      × (ListIdx.cursor_abs (replaced t ustr).front
          ≡ ListIdx.cursor_abs (left_idx t) + length (fitting t ustr))
replaced_lem t ustr c =
    let k = length (kept t) in
    let pos = ListIdx.cursor_abs (left_idx t) in
    let over = left_idx-IsOver t c in
    let len = length-inserted (kept t) pos (fitting t ustr) (IsOver-cursor k (left_idx t) over) in
    let spare = length-take (t.len_max - k) ustr in
    let shorter = length-kept t c in
    let bounds = high-le-length t c in
    let (over', moved) =
      inserts_lem (length (fitting t ustr)) k (length (replaced t ustr).ustr_work) (left_idx t) over
        (omega arith) (omega arith) in
    (record { front_over = over'; back_over = over'; fits = omega arith; small = c.small }, moved)

-- In a consistent text box, and for any new text in UTF-8, `selectionReplace` does not throw and
-- leaves a consistent text box whose selection is empty; the focus stays.
pub selection_replace-IsConsistent :
    (t : TextBox) (str ustr : List ℕ)
    → IsConsistent t
    → str_to_utf str ≡ some ustr
    → (t' : TextBox) × (selection_replace t str ≡ some t')
      × IsConsistent t'
      × (t'.back ≡ t'.front)
      × (t'.focus ≡ t.focus)
selection_replace-IsConsistent t str ustr c e = (
  replaced t ustr,
  selection_replace-replaced t str ustr c e,
  (replaced_lem t ustr c).0,
  refl,
  refl,
)

-- In a consistent text box where the lower end of the selection has a window at the top of the
-- text, or the text that is left fills the window, `selectionReplace` does not throw for a text in
-- UTF-8: the new text stands in the place of the selection, cut to what there is room for, and the
-- cursor stands behind it.
pub selection_replace_in_place :
    (t : TextBox) (str ustr : List ℕ)
    → IsConsistent t
    → str_to_utf str ≡ some ustr
    → ((idx_low t).offset ≡ 0) ⊎ ((idx_low t).win ≤ length (kept t) + 1)
    → (t' : TextBox) × (selection_replace t str ≡ some t')
      × (t'.ustr_work ≡ take (low t) t.ustr_work ++ (fitting t ustr ++ drop (high t) t.ustr_work))
      × (ListIdx.cursor_abs t'.front ≡ low t + length (fitting t ustr))
selection_replace_in_place t str ustr c e calm = (
  replaced t ustr,
  selection_replace-replaced t str ustr c e,
  rw (left_idx_stays t c calm) (
      rw (take-append_of_eq (low t) (take (low t) t.ustr_work) _ start)
        (rw (drop-append_of_eq (low t) (take (low t) t.ustr_work) _ start) refl)),
  (replaced_lem t ustr c).1 ∙ ap (λ (n : ℕ). n + length (fitting t ustr)) (left_idx_stays t c calm),
)
  where
    start : low t ≡ length (take (low t) t.ustr_work)
    start = omega (arith, length-take (low t) t.ustr_work, high-le-length t c)

-- In a consistent text box where the lower end of the selection has a window that was scrolled down
-- and is larger than what is left of the text, and with text behind the selection,
-- `selectionReplace` does not throw for a text in UTF-8, but leaves the cursor behind the place
-- where the new text should end.
pub selection_replace_drifts :
    (t : TextBox) (str ustr : List ℕ)
    → IsConsistent t
    → str_to_utf str ≡ some ustr
    → 0 < (idx_low t).offset
    → length (kept t) + 1 < (idx_low t).win
    → high t < length t.ustr_work
    → (t' : TextBox) × (selection_replace t str ≡ some t')
      × (low t + length (fitting t ustr) < ListIdx.cursor_abs t'.front)
selection_replace_drifts t str ustr c e o w more =
    let v = low-IsOver t c in
    let n = u32 (length (kept t) + 1) in
    let bounds = high-le-length t c in
    let shorter = length-kept t c in
    let drift =
      size_set_drift (idx_low t) n v.valid v.open_win (omega arith) (omega arith) o (omega arith) in
    (
      replaced t ustr,
      selection_replace-replaced t str ustr c e,
      omega (arith, (replaced_lem t ustr c).1),
    )
