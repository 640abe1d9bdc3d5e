-- ===== src/ListIdx/Bounds.antt =====
-- The invariant of a list index, and that every operation keeps it.
use processing_common.Common.{ℕ, zero, suc, ◌||◌, ◌+◌, ◌-◌, ◌^◌, ◌<◌, ◌≤◌, ◌≡◌, arith, Bool, false}
use processing_common.ListIdx.{
  ListIdx, sanity_check, win_set, size_set, cursor_bound_set, reset, cursor_end_set, inc_offset,
  dec_offset, inc_cursor, dec_cursor, inc, dec, inc_jump, dec_jump, insert, curr_erase, prev_erase,
  repeat_move,
}

pub record IsValid (l : ListIdx) : Type 0 where
  pub cursor_in_win : l.cursor ≤ l.win - 1
  pub cursor_in_list : l.cursor ≤ l.size - 1
  pub offset_fits : 0 < l.offset → l.offset + l.win ≤ l.size
  pub lbound_in_win : l.cursor_lbound ≤ l.win - 1
  pub ubound_in_win : l.cursor_ubound ≤ l.win - 1
  pub jump_positive : 0 < l.size_jump
  pub jump_fits : l.size_jump < 2 ^ 16
  pub win_fits : l.win < 2 ^ 32
  pub size_fits : l.size < 2 ^ 32

-- What `sanityCheck` establishes and what it leaves alone.
pub record IsChecked (old l : ListIdx) : Type 0 where
  pub cursor_in_win : l.cursor ≤ l.win - 1
  pub cursor_in_list : l.cursor ≤ l.size - 1
  pub offset_fits : 0 < l.offset → l.offset + l.win ≤ l.size
  pub same_win : l.win ≡ old.win
  pub same_size : l.size ≡ old.size
  pub same_jump : l.size_jump ≡ old.size_jump

-- `sanityCheck` brings cursor and offset in order, whatever cursor and offset it meets.
pub sanity_check-IsChecked :
    (l : ListIdx) → l.offset + l.win < 2 ^ 32 → IsChecked l (sanity_check l)
unfolding sanity_check
sanity_check-IsChecked l h = ground arith

pub size_set-IsValid :
    (l : ListIdx) (size : ℕ) → size < 2 ^ 32 → IsValid l → IsValid (size_set l size)
unfolding size_set
size_set-IsValid l size h v = ground arith

pub win_set-IsValid :
    (l : ListIdx) (win : ℕ) → l.offset + win < 2 ^ 32 → IsValid l → IsValid (win_set l win)
unfolding win_set
win_set-IsValid l win h v = ground (arith, sanity_check-IsChecked (record l { win = win }) h)

pub cursor_bound_set-IsValid :
    (l : ListIdx) (bnd : ℕ) → IsValid l → IsValid (cursor_bound_set l bnd)
unfolding cursor_bound_set
cursor_bound_set-IsValid l bnd v = ground arith

pub inc_offset-IsValid : (l : ListIdx) → IsValid l → IsValid (inc_offset l).0
unfolding inc_offset
inc_offset-IsValid l v = ground arith

pub dec_offset-IsValid : (l : ListIdx) → IsValid l → IsValid (dec_offset l).0
unfolding dec_offset
dec_offset-IsValid l v = ground arith

pub inc_cursor-IsValid : (l : ListIdx) → IsValid l → IsValid (inc_cursor l).0
unfolding inc_cursor
inc_cursor-IsValid l v = ground arith

pub dec_cursor-IsValid : (l : ListIdx) → IsValid l → IsValid (dec_cursor l).0
unfolding dec_cursor
dec_cursor-IsValid l v = ground arith

pub inc-IsValid : (l : ListIdx) → IsValid l → IsValid (inc l).0
unfolding inc
inc-IsValid l v = ground arith

pub dec-IsValid : (l : ListIdx) → IsValid l → IsValid (dec l).0
unfolding dec
dec-IsValid l v = ground arith

pub cursor_end_set-IsValid : (l : ListIdx) → IsValid l → IsValid (cursor_end_set l).0
unfolding cursor_end_set
cursor_end_set-IsValid l v = ground arith

pub repeat_move-IsValid :
    (move : ListIdx → ListIdx × Bool)
    → ((l : ListIdx) → IsValid l → IsValid (move l).0)
    → (n : ℕ) (l : ListIdx) (changed : Bool) → IsValid l
    → IsValid (repeat_move move n l changed).0
unfolding repeat_move
repeat_move-IsValid move keep zero l changed v = v
repeat_move-IsValid move keep (suc n) l changed v =
    repeat_move-IsValid move keep n (move l).0 (changed || (move l).1) (keep l v)

pub inc_jump-IsValid : (l : ListIdx) → IsValid l → IsValid (inc_jump l).0
unfolding inc_jump
inc_jump-IsValid l v = repeat_move-IsValid inc inc-IsValid l.size_jump l false v

pub dec_jump-IsValid : (l : ListIdx) → IsValid l → IsValid (dec_jump l).0
unfolding dec_jump
dec_jump-IsValid l v = repeat_move-IsValid dec dec-IsValid l.size_jump l false v

pub reset-IsValid : (l : ListIdx) → IsValid l → IsValid (reset l).0
unfolding reset
reset-IsValid l v = ground arith

pub insert-IsValid : (l : ListIdx) → IsValid l → IsValid (insert l)
unfolding insert
insert-IsValid l v = inc-IsValid _ (size_set-IsValid l _ (omega arith) v)

pub curr_erase-IsValid : (l : ListIdx) → IsValid l → IsValid (curr_erase l).0
unfolding curr_erase
curr_erase-IsValid l v = grind (arith, size_set-IsValid, inc_cursor-IsValid, dec_offset-IsValid)

pub prev_erase-IsValid : (l : ListIdx) → IsValid l → IsValid (prev_erase l).0
unfolding prev_erase
prev_erase-IsValid l v = grind (arith, size_set-IsValid, dec-IsValid, dec_offset-IsValid)
