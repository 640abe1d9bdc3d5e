-- ===== src/ListIdx/Resize.antt =====
-- What becomes of the cursor when the list or the window changes.
use processing_common.Common.{
  ℕ, ◌+◌, ◌-◌, ◌^◌, ◌<◌, ◌≤◌, ◌≡◌, ◌⊎◌, min, arith, false, not, u32, sub32, ◌==◌, if◌then◌else◌,
}
use processing_common.ListIdx.{
  ListIdx, size_set, cursor_abs, end_reached, dec, dec_offset, inc_cursor, insert, curr_erase,
  prev_erase,
}
use processing_common.ListIdx.Bounds.{IsValid, size_set-IsValid}
use processing_common.ListIdx.Moves.{inc_lem, inc-Keeps}

pub size_set-Keeps :
    (l : ListIdx) (size : ℕ) → ((size_set l size).size ≡ size) × ((size_set l size).win ≡ l.win)
unfolding size_set
size_set-Keeps l size = (ground arith, ground arith)

-- In a valid index with a window that is not empty, a new size that is not 0 keeps the cursor on
-- its entry, or takes it to the last one, if the window was at the top of the list or the new list
-- still fills the window; size and window together stay within 32 bits.
pub size_set_cursor :
    (l : ListIdx) (size : ℕ)
    → IsValid l
    → 0 < l.win
    → 0 < size
    → l.size + l.win < 2 ^ 32
    → (l.offset ≡ 0) ⊎ (l.win ≤ size)
    → size < 2 ^ 32
    → (cursor_abs (size_set l size) ≡ min (cursor_abs l) (size - 1))
      × ((size_set l size).size ≡ size)
      × ((size_set l size).win ≡ l.win)
unfolding size_set cursor_abs
size_set_cursor l size v w s fits calm h = ground arith

-- In a valid index with a window that is not empty, where the list becomes shorter than a window
-- that was scrolled down, but not empty, the cursor goes down by what is missing in the window, at
-- most to the last entry; the old size and the window together stay within 32 bits.
pub size_set_drift :
    (l : ListIdx) (size : ℕ)
    → IsValid l
    → 0 < l.win
    → 0 < size
    → l.size + l.win < 2 ^ 32
    → 0 < l.offset
    → size < l.win
    → cursor_abs (size_set l size) ≡ min (cursor_abs l + (l.win - size)) (size - 1)
unfolding size_set cursor_abs
size_set_drift l size v w s fits o h = ground arith

-- Where nothing of the window lies behind the new end, the offset stays.
size_set_calm :
    (l : ListIdx) (size : ℕ)
    → l.offset + l.win < 2 ^ 32
    → (l.offset ≡ 0) ⊎ (l.offset + l.win ≤ size)
    → ((size_set l size).offset ≡ l.offset)
      × ((size_set l size).cursor ≡ min l.cursor (min l.win size - 1))
      × ((size_set l size).size ≡ size)
      × ((size_set l size).win ≡ l.win)
unfolding size_set
size_set_calm l size h calm = ground arith

-- In a valid index whose window and list are not empty, and whose size can grow within 32 bits,
-- `insert` makes the list one longer, keeps the window, and takes the cursor one down.
pub insert_lem :
    (l : ListIdx)
    → IsValid l
    → 0 < l.win
    → 0 < l.size
    → l.size + 1 < 2 ^ 32
    → (cursor_abs (insert l) ≡ cursor_abs l + 1)
      × ((insert l).size ≡ l.size + 1)
      × ((insert l).win ≡ l.win)
unfolding insert cursor_abs
insert_lem l v w s h =
    let l' = size_set l (u32 (l.size + 1)) in
    let v' : IsValid l' = size_set-IsValid l _ (omega arith) v in
    ground (arith, size_set_calm l (u32 (l.size + 1)), inc_lem l' v', inc-Keeps l')

-- In a valid index with a window that is not empty, `prevErase` takes an entry off before the
-- cursor: unless the cursor is on the first, where nothing changes and the result is false, it goes
-- one up and the list is one shorter. The window stays.
pub prev_erase_lem :
    (l : ListIdx)
    → IsValid l
    → 0 < l.win
    → ((prev_erase l).1 ≡ not (cursor_abs l == 0))
      × (cursor_abs (prev_erase l).0 ≡ cursor_abs l - 1)
      × ((prev_erase l).0.size ≡ (if cursor_abs l == 0 then l.size else l.size - 1))
      × ((prev_erase l).0.win ≡ l.win)
unfolding prev_erase dec dec_offset cursor_abs end_reached
prev_erase_lem l v w = ground (
  arith,
  size_set_calm (dec_offset l).0 (sub32 (dec_offset l).0.size 1),
  size_set_calm (dec l).0 (sub32 (dec l).0.size 1),
)

-- In a valid index with a window that is not empty, `currErase` takes the entry under the cursor
-- off: the cursor stays at its position, or goes to the last entry that is left, and the window
-- stays. On the empty list the result is false.
pub curr_erase_lem :
    (l : ListIdx)
    → IsValid l
    → 0 < l.win
    → ((curr_erase l).1 ≡ not (l.size == 0))
      × (cursor_abs (curr_erase l).0 ≡ min (cursor_abs l) (l.size - 2))
      × ((curr_erase l).0.size ≡ l.size - 1)
      × ((curr_erase l).0.win ≡ l.win)
unfolding curr_erase inc_cursor dec_offset cursor_abs end_reached
curr_erase_lem l v w = ground (
  arith,
  size_set_calm (inc_cursor (dec_offset l).0).0 ((inc_cursor (dec_offset l).0).0.size - 1),
  size_set_calm l (l.size - 1),
)

-- On the first entry `prevErase` does nothing.
pub prev_erase_start : (l : ListIdx) → cursor_abs l ≡ 0 → prev_erase l ≡ (l, false)
unfolding prev_erase
prev_erase_start l h = rw h
