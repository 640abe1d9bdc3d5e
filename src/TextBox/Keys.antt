-- ===== src/TextBox/Keys.antt =====
-- TextBox.cpp: `keyProcess`. Its list of ignored keys is not used.
use processing_common.Common.{
  Bool, true, false, not, ◌&&◌, ◌||◌, leb, ◌==◌, if◌then◌else◌, sub32, [], ◌∷◌, Option, some,
  length, str_erase, str_insert,
}
use processing_common.KeyUser.{
  KeyUser, eq_ctrl, lt_char, gt_char, key_ctrl_a, key_ctrl_c, key_ctrl_x, key_delete,
}
use processing_common.KeyUser.Checks.{key_is_backspace}
use processing_common.KeyUser.Utf8.{utf8}
use processing_common.ListIdx.{ListIdx}
use processing_common.ListIdx
use processing_common.TextBox.{TextBox, ◌>>=◌, dirty_set, clipboard_set, selection_replace}
use processing_common.TextBox.Jump.{navigate}

unfoldable pub is_selection : TextBox → Bool
is_selection t = not (ListIdx.cursor_abs t.front == ListIdx.cursor_abs t.back)

-- Ctrl-X
unfoldable pub cut_key : TextBox → Option (TextBox × Bool)
cut_key t = do
  t' ← clipboard_set t
  t'' ← (if not t'.focus then some (record t' { ustr_current = [] }) else selection_replace t' [])
  some (dirty_set t'')

-- Ctrl-A, which leaves the flags of both moves in `mDirty`
unfoldable pub select_all_key : TextBox → Option (TextBox × Bool)
select_all_key t =
    let back = ListIdx.reset t.back in
    let front = ListIdx.cursor_end_set t.front in
    some (record t { back = back.0; front = front.0; dirty = t.dirty || back.1 || front.1 }, true)

-- The removal of the selection, by either key.
unfoldable pub remove_selection : TextBox → Option (TextBox × Bool)
remove_selection t = do t' ← selection_replace t []; some (dirty_set t')

unfoldable pub backspace_key : TextBox → Option (TextBox × Bool)
backspace_key t =
    let r = ListIdx.prev_erase t.front in
    let erase : Option (TextBox × Bool) = do
      work ← str_erase t.ustr_work (ListIdx.cursor_abs r.0) 1
      some (dirty_set (record t { front = r.0; back = r.0; ustr_work = work }))
    in if is_selection t
      then remove_selection t
      else if not r.1
      then some (record t { front = r.0 }, false)
      else erase

unfoldable pub delete_key : TextBox → Option (TextBox × Bool)
delete_key t =
    let r = ListIdx.curr_erase t.front in
    let erase : Option (TextBox × Bool) = do
      work ← str_erase t.ustr_work (ListIdx.cursor_abs t.front) 1
      some (dirty_set (record t { front = r.0; back = r.0; ustr_work = work }))
    in if is_selection t
      then remove_selection t
      else if ListIdx.cursor_abs t.front == sub32 t.front.size 1
      then some (t, false)
      else if not r.1
      then some (record t { front = r.0 }, false)
      else erase

unfoldable pub print_key : TextBox → KeyUser → Option (TextBox × Bool)
print_key t key =
    let replace : Option (TextBox × Bool) = do
      str ← utf8 key
      t' ← selection_replace t str
      some (dirty_set t')
    in let front = ListIdx.insert t.front in
      let insert : Option (TextBox × Bool) = do
        work ← str_insert t.ustr_work (ListIdx.cursor_abs t.front) (key.print ∷ [])
        some (dirty_set (record t { ustr_work = work; front = front; back = front }))
      in if not key.is_print
        then some (t, false)
        else if t.numbers_only && (lt_char key b'0' || gt_char key b'9')
        then some (t, false)
        else if is_selection t
        then replace
        else if leb t.len_max (length t.ustr_work)
        then some (t, false)
        else insert

-- What follows the navigation: removal, then insertion.
unfoldable pub edit_key : TextBox → KeyUser → Option (TextBox × Bool)
edit_key t key =
    if key_is_backspace key
    then backspace_key t
    else if eq_ctrl key key_delete
    then delete_key t
    else print_key t key

-- Navigation and the keys behind it, in the state that the navigation leaves.
unfoldable pub focused_key : TextBox → KeyUser → Option (TextBox × Bool)
focused_key t key = do
  (t', changed) ← navigate t key
  if changed then some (dirty_set t') else edit_key t' key

unfoldable pub key_process : TextBox → KeyUser → Option (TextBox × Bool)
key_process t key =
    let t₀ = record t { dirty = false } in
    let copy : Option (TextBox × Bool) = (do t' ← clipboard_set t₀; some (t', true)) in
    if eq_ctrl key key_ctrl_x
    then cut_key t₀
    else if eq_ctrl key key_ctrl_c
    then copy
    else if not t.focus
    then some (t₀, false)
    else if eq_ctrl key key_ctrl_a
    then select_all_key t₀
    else focused_key t₀ key
