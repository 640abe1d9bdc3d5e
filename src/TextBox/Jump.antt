-- ===== src/TextBox/Jump.antt =====
-- TextBox.cpp: `cursorJump` and `navigate`.
pub mod Words
pub mod Moves
use processing_common.Common.{
  ℕ, zero, suc, ◌+◌, ◌-◌, Bool, true, false, not, ◌&&◌, ◌||◌, ◌==◌, if◌then◌else◌, u16, List,
  Option, none, some, length, get_or,
}
use processing_common.KeyUser.{
  KeyUser, eq_ctrl, of_char32, key_home, key_end, key_left, key_right, key_up, key_down, key_pg_up,
  key_pg_dn,
}
use processing_common.KeyUser.Checks.{key_is_boundary}
use processing_common.ListIdx.{ListIdx}
use processing_common.ListIdx
use processing_common.ListIdx.Keys.{key_process}
use processing_common.TextBox.{TextBox, ◌>>=◌}

-- keyIsBoundary(ustr[p]); the character behind the text is the terminating 0.
unfoldable pub boundary_at : List ℕ → ℕ → Bool
boundary_at ustr p = key_is_boundary (of_char32 (get_or ustr p 0))

-- To the right the character before the place must be none of the boundaries and the one at it must
-- be one; to the left the other way round.
unfoldable pub stops_at : Bool → List ℕ → ℕ → ℕ → Bool
stops_at true ustr prev pos = not (boundary_at ustr prev) && boundary_at ustr pos
stops_at false ustr prev pos = boundary_at ustr prev && not (boundary_at ustr pos)

-- The loop. `idx` is the uint16_t position, `pos` the place of `pCursor` and `prev` that of `pPrev`.
-- `none` means that the fuel ran out; a text of less than 2 ^ 16 characters is read in range.
unfoldable pub jump_loop :
    ℕ → Bool → List ℕ → ℕ → ℕ → ℕ → Option ℕ → ListIdx → Bool → Option (ListIdx × Bool)
jump_loop zero right ustr stop idx pos prev front changed = none
jump_loop (suc fuel) right ustr stop idx pos prev front changed =
    let front' = (if right then ListIdx.inc front else ListIdx.dec front).0 in
    let pos' = if right then pos + 1 else pos - 1 in
    let idx' = if right then u16 (idx + 1) else u16 (idx + 65535) in
    let prev' = if not (idx' == 0) then some (pos' - 1) else prev in
    let rest = jump_loop fuel right ustr stop idx' pos' prev' front' true in
    if idx == stop then some (front, changed) else elim prev' [
      | none ↦ rest
      | some q ↦ if stops_at right ustr q pos' then some (front', true) else rest
    ]

-- The position is 16 bits wide and changes by one, so 2 ^ 16 rounds reach the end.
unfoldable pub cursor_jump : TextBox → KeyUser → Option (TextBox × Bool)
cursor_jump t key =
    let right = eq_ctrl key key_right in
    let idx = u16 (ListIdx.cursor_abs t.front) in
    let stop = if right then u16 (length t.ustr_work) else 0 in
    if length t.ustr_work == 0 then some (t, false) else do
      (front, changed) ← jump_loop 65537 right t.ustr_work stop idx idx none t.front false
      some (record t { front = front }, changed)

-- A move of the front end and whether it changed anything; the last component tells whether the
-- key was taken.
move_front : TextBox → ListIdx × Bool → Option (TextBox × Bool × Bool)
move_front t r = some (record t { front = r.0 }, r.1, true)

jump_front : TextBox → KeyUser → Option (TextBox × Bool × Bool)
jump_front t key = do (t', changed) ← cursor_jump t key; some (t', changed, true)

unfoldable pub navigate_front : TextBox → KeyUser → Option (TextBox × Bool × Bool)
unfolding move_front jump_front
navigate_front t key =
    if eq_ctrl key key_home
    then move_front t (ListIdx.reset t.front)
    else if eq_ctrl key key_end
    then move_front t (ListIdx.cursor_end_set t.front)
    else if (eq_ctrl key key_left || eq_ctrl key key_right) && key.mod_ctrl
    then jump_front t key
    else if eq_ctrl key key_left || eq_ctrl key key_up
    then move_front t (ListIdx.dec t.front)
    else if eq_ctrl key key_right || eq_ctrl key key_down
    then move_front t (ListIdx.inc t.front)
    else if eq_ctrl key key_pg_up || eq_ctrl key key_pg_dn
    then move_front t (key_process t.front key List.[])
    else some (t, false, false)

-- Without shift the selection collapses, and the key counts as a change.
unfoldable pub navigate : TextBox → KeyUser → Option (TextBox × Bool)
navigate t key = do
  (t', changed, processed) ← navigate_front t key
  some (
      if processed && not key.mod_shift
      then (record t' { back = t'.front }, true)
      else (t', changed))
