-- ===== src/TextBox/Typing.antt =====
-- Typing and deleting single characters where nothing is selected.
use processing_common.Common.{
  ℕ, ◌+◌, ◌-◌, ◌<◌, ◌≤◌, ◌≡◌, refl, ap, ◌∙◌, arith, true, false, leb, ◌==◌, ◌&&◌, ◌||◌, sub32, List,
  [], ◌∷◌, ◌++◌, take, drop, some, length, str_erase, str_erase_lem, str_insert_lem, length-erased,
  length-inserted, drop-drop, take-append-drop, length-take, take-append_of_eq, drop-append_of_eq,
}
use processing_common.KeyUser.{KeyUser, lt_char, gt_char}
use processing_common.ListIdx.{ListIdx}
use processing_common.ListIdx
use processing_common.ListIdx.Bounds.{insert-IsValid, prev_erase-IsValid, curr_erase-IsValid}
use processing_common.ListIdx.Resize.{insert_lem, prev_erase_lem, prev_erase_start, curr_erase_lem}
use processing_common.TextBox.{TextBox, dirty_set}
use processing_common.TextBox.Consistent.{IsOver, IsConsistent, IsOver-cursor}
use processing_common.TextBox.Keys.{is_selection, backspace_key, delete_key, print_key}

-- The position of the cursor in the text.
abbrev pub place : TextBox → ℕ
place t = ListIdx.cursor_abs t.front

-- The text box with another text and the same index at both ends, marked for redrawing.
abbrev pub edited : TextBox → List ℕ → ListIdx → TextBox
edited t ustr idx = record t { ustr_work = ustr; front = idx; back = idx; dirty = true }

abbrev pub Accepts : TextBox → KeyUser → Type 0
Accepts t key =
    (key.is_print ≡ true) × ((t.numbers_only && (lt_char key b'0' || gt_char key b'9')) ≡ false)

-- In a consistent text box with no selection and with room, a printable key that is allowed is
-- taken: its character stands at the place of the cursor, the cursor behind it, the text box is
-- consistent, and nothing is selected.
pub print_key_lem :
    (t : TextBox) (key : KeyUser)
    → IsConsistent t
    → Accepts t key
    → is_selection t ≡ false
    → length t.ustr_work < t.len_max
    → (t' : TextBox) × (print_key t key ≡ some (t', true))
      × IsConsistent t'
      × (t'.ustr_work
          ≡ take (place t) t.ustr_work ++ ((key.print ∷ []) ++ drop (place t) t.ustr_work))
      × (place t' ≡ place t + 1)
      × (is_selection t' ≡ false)
      × (t'.focus ≡ t.focus)
unfolding print_key dirty_set
print_key_lem t key c allowed none_sel room =
    let o = c.front_over in
    let p = IsOver-cursor (length t.ustr_work) t.front o in
    let work = take (place t) t.ustr_work ++ ((key.print ∷ []) ++ drop (place t) t.ustr_work) in
    let len = length-inserted t.ustr_work (place t) (key.print ∷ []) p in
    let moved = insert_lem t.front o.valid o.open_win (omega arith) (omega arith) in
    let o' : IsOver (length work) (ListIdx.insert t.front) = record {
      valid = insert-IsValid t.front o.valid;
      all = omega arith;
      open_win = omega arith;
      small_win = omega arith;
    } in
    let full : leb t.len_max (length t.ustr_work) ≡ false = ground arith in
    (
      edited t work (ListIdx.insert t.front),
      simp (
        allowed.0,
        allowed.1,
        none_sel,
        full,
        str_insert_lem t.ustr_work (place t) (key.print ∷ []) p,
      ),
      record { front_over = o'; back_over = o'; fits = omega arith; small = c.small },
      refl,
      omega arith,
      unfold is_selection in ground arith,
      refl,
    )

-- In a consistent text box with no selection and the cursor behind the start, backspace is taken:
-- it removes the character before the cursor, the cursor goes one back, the text box is consistent,
-- and nothing is selected.
pub backspace_key_lem :
    (t : TextBox)
    → IsConsistent t
    → is_selection t ≡ false
    → 0 < place t
    → (t' : TextBox) × (backspace_key t ≡ some (t', true))
      × IsConsistent t'
      × (t'.ustr_work ≡ take (place t - 1) t.ustr_work ++ drop (place t) t.ustr_work)
      × (place t' ≡ place t - 1)
      × (is_selection t' ≡ false)
      × (t'.focus ≡ t.focus)
unfolding backspace_key dirty_set
backspace_key_lem t c none_sel pos =
    let o = c.front_over in
    let idx = (ListIdx.prev_erase t.front).0 in
    let at = IsOver-cursor (length t.ustr_work) t.front o in
    let moved = prev_erase_lem t.front o.valid o.open_win in
    let work = take (place t - 1) t.ustr_work ++ drop (place t) t.ustr_work in
    let cut : take (place t - 1) t.ustr_work ++ drop 1 (drop (place t - 1) t.ustr_work) ≡ work =
      ap (◌++◌ (take (place t - 1) t.ustr_work))
        (drop-drop (place t - 1) 1 (place t) t.ustr_work (omega arith)) in
    let len : length work ≡ length t.ustr_work - 1 =
      rw (← cut) (length-erased t.ustr_work (place t - 1) 1 (omega arith)) in
    let o' : IsOver (length work) idx = record {
      valid = prev_erase-IsValid t.front o.valid;
      all = ground arith;
      open_win = omega arith;
      small_win = omega arith;
    } in
    let erased : str_erase t.ustr_work (ListIdx.cursor_abs idx) 1 ≡ some work =
      rw moved.1 (str_erase_lem t.ustr_work (place t - 1) 1 (omega arith) ∙ ap some cut) in
    let took : (ListIdx.prev_erase t.front).1 ≡ true = ground arith in
    (
      edited t work idx,
      simp (none_sel, took, erased),
      record { front_over = o'; back_over = o'; fits = omega arith; small = c.small },
      refl,
      omega arith,
      unfold is_selection in ground arith,
      refl,
    )

-- At the start of the text backspace does nothing and is not taken.
pub backspace_key_start :
    (t : TextBox)
    → IsConsistent t
    → is_selection t ≡ false
    → place t ≡ 0
    → backspace_key t ≡ some (t, false)
unfolding backspace_key
backspace_key_start t c none_sel pos = simp (none_sel, prev_erase_start t.front pos)

-- In a consistent text box with no selection and the cursor before the end, delete is taken: it
-- removes the character at the cursor, the cursor stays in its place, the text box is consistent,
-- and nothing is selected.
pub delete_key_lem :
    (t : TextBox)
    → IsConsistent t
    → is_selection t ≡ false
    → place t < length t.ustr_work
    → (t' : TextBox) × (delete_key t ≡ some (t', true))
      × IsConsistent t'
      × (t'.ustr_work ≡ take (place t) t.ustr_work ++ drop (place t + 1) t.ustr_work)
      × (place t' ≡ place t)
      × (is_selection t' ≡ false)
      × (t'.focus ≡ t.focus)
unfolding delete_key dirty_set
delete_key_lem t c none_sel pos =
    let o = c.front_over in
    let idx = (ListIdx.curr_erase t.front).0 in
    let moved = curr_erase_lem t.front o.valid o.open_win in
    let work = take (place t) t.ustr_work ++ drop (place t + 1) t.ustr_work in
    let cut : take (place t) t.ustr_work ++ drop 1 (drop (place t) t.ustr_work) ≡ work =
      ap (◌++◌ (take (place t) t.ustr_work))
        (drop-drop (place t) 1 (place t + 1) t.ustr_work refl) in
    let len : length work ≡ length t.ustr_work - 1 =
      rw (← cut) (length-erased t.ustr_work (place t) 1 (omega arith)) in
    let o' : IsOver (length work) idx = record {
      valid = curr_erase-IsValid t.front o.valid;
      all = omega arith;
      open_win = omega arith;
      small_win = omega arith;
    } in
    let erased : str_erase t.ustr_work (place t) 1 ≡ some work =
      str_erase_lem t.ustr_work (place t) 1 (omega arith) ∙ ap some cut in
    let took : (ListIdx.curr_erase t.front).1 ≡ true = ground arith in
    let inside : (place t == sub32 t.front.size 1) ≡ false = ground arith in
    (
      edited t work idx,
      simp (none_sel, took, inside, erased),
      record { front_over = o'; back_over = o'; fits = omega arith; small = c.small },
      refl,
      omega arith,
      unfold is_selection in ground arith,
      refl,
    )

-- Behind the text delete does nothing and is not taken.
pub delete_key_end :
    (t : TextBox)
    → IsConsistent t
    → is_selection t ≡ false
    → place t ≡ length t.ustr_work
    → delete_key t ≡ some (t, false)
unfolding delete_key
delete_key_end t c none_sel pos =
    let o = c.front_over in
    let at_end : (place t == sub32 t.front.size 1) ≡ true = ground arith in simp (none_sel, at_end)

erase_inserted :
    (p : ℕ) (w : List ℕ) (x : ℕ)
    → p ≤ length w
    → let v = take p w ++ ((x ∷ []) ++ drop p w) in take p v ++ drop (p + 1) v ≡ w
erase_inserted p w x h =
    let start : p ≡ length (take p w) = omega (arith, length-take p w) in
    rw (take-append_of_eq p (take p w) ((x ∷ []) ++ drop p w) start) (
      rw (← drop-drop p 1 (p + 1) (take p w ++ ((x ∷ []) ++ drop p w)) refl)
        (rw (drop-append_of_eq p (take p w) ((x ∷ []) ++ drop p w) start) (take-append-drop p w)))

-- In a consistent text box with no selection and with room, backspace after a printable key that is
-- allowed brings the text and the place of the cursor back.
pub backspace-print_key :
    (t : TextBox) (key : KeyUser)
    → IsConsistent t
    → Accepts t key
    → is_selection t ≡ false
    → length t.ustr_work < t.len_max
    → (t' t'' : TextBox) × (print_key t key ≡ some (t', true))
      × (backspace_key t' ≡ some (t'', true))
      × (t''.ustr_work ≡ t.ustr_work)
      × (place t'' ≡ place t)
backspace-print_key t key c allowed none_sel room =
    let (t', typed, c', work', place', none_sel', _) =
      print_key_lem t key c allowed none_sel room in
    let (t'', erased, _, work'', place'', _, _) = backspace_key_lem t' c' none_sel' (omega arith) in
    let back : place t' - 1 ≡ place t = omega arith in
    (
      t',
      t'',
      typed,
      erased,
      work''
          ∙ rw (back, place', work')
              (erase_inserted (place t) t.ustr_work key.print
                (IsOver-cursor (length t.ustr_work) t.front c.front_over)),
      omega arith,
    )
