-- ===== src/ListIdx.antt =====
-- ListIdx.h and ListIdx.cpp: a cursor in a window over a list of `size` entries. All numbers are
-- uint32_t and wrap around. A method returns the new object, with its `bool` result where it has
-- one. Where a guard shows that both operands are in order, `-` stands for the C++ subtraction.
pub mod Keys
pub mod Bounds
pub mod Moves
pub mod Resize
pub mod Print
pub mod History
pub mod Tests
use processing_common.Common.{
  ℕ, zero, suc, ◌+◌, ◌-◌, ◌*◌, ◌/◌, ◌%◌, Bool, true, false, not, ◌&&◌, ◌||◌, ltb, leb, ◌==◌,
  if◌then◌else◌, u32, sub32, List, [], ◌∷◌, ◌++◌, replicate, length,
}

pub record ListIdx : Type 0 where
  pub win : ℕ
  pub size : ℕ
  pub size_jump : ℕ
  pub cursor : ℕ
  pub offset : ℕ
  pub cursor_lbound : ℕ
  pub cursor_ubound : ℕ

abbrev pub min_size_jump : ℕ
min_size_jump = 1

abbrev pub default_size_jump : ℕ
default_size_jump = 3

-- (mWin < mSize ? mWin : mSize) - 1, where neither is 0.
abbrev pub hard_ubound : ListIdx → ℕ
hard_ubound l = (if ltb l.win l.size then l.win else l.size) - 1

-- mSize > mWin ? mSize - mWin : 0
abbrev pub last_offset : ListIdx → ℕ
last_offset l = if ltb l.win l.size then l.size - l.win else 0

-- ListIdx()
unfoldable pub empty : ListIdx
empty = record {
  win = 0;
  size = 0;
  size_jump = default_size_jump;
  cursor = 0;
  offset = 0;
  cursor_lbound = 0;
  cursor_ubound = 0;
}

-- The first `if` of `sanityCheck`: an offset that leaves room behind the list is taken back, and
-- the cursor moves the other way.
offset_check : ListIdx → ListIdx
offset_check l =
    if not (l.offset == 0) && ltb l.size (u32 (l.offset + l.win))
    then record l {
      cursor = u32 (l.cursor + (u32 (l.offset + l.win) - l.size));
      offset = last_offset l;
    }
    else l

-- The rest of `sanityCheck`.
cursor_check : ListIdx → ListIdx
cursor_check l =
    let bound = if l.win == 0 || l.size == 0 then 0 else hard_ubound l in
    if ltb bound l.cursor then record l { cursor = bound } else l

unfoldable pub sanity_check : ListIdx → ListIdx
unfolding offset_check cursor_check
sanity_check l = cursor_check (offset_check l)

-- The value that both bound setters store.
abbrev clip_bound : ListIdx → ℕ → ℕ
clip_bound l bnd = if ltb bnd l.win then bnd else if not (l.win == 0) then l.win - 1 else 0

unfoldable pub cursor_lbound_set : ListIdx → ℕ → ListIdx
cursor_lbound_set l bnd = record l { cursor_lbound = clip_bound l bnd }

unfoldable pub cursor_ubound_set : ListIdx → ℕ → ListIdx
cursor_ubound_set l bnd = record l { cursor_ubound = clip_bound l bnd }

unfoldable pub win_set : ListIdx → ℕ → ListIdx
unfolding cursor_lbound_set cursor_ubound_set
win_set l win =
    let l' = sanity_check (record l { win = win }) in
    let bnd = if win % 2 == 0 then sub32 (win / 2) 1 else win / 2 in
    cursor_ubound_set (cursor_lbound_set l' bnd) (win / 2)

-- ListIdx(win)
unfoldable pub of_win : ℕ → ListIdx
unfolding win_set empty sanity_check
of_win win = win_set empty win

-- sizeSet, and the assignment of a size
unfoldable pub size_set : ListIdx → ℕ → ListIdx
unfolding sanity_check
size_set l size = sanity_check (record l { size = size })

unfoldable pub size_jump_set : ListIdx → ℕ → ListIdx
size_jump_set l size = record l {
  size_jump = if ltb size min_size_jump then min_size_jump else size;
}

unfoldable pub cursor_bound_set : ListIdx → ℕ → ListIdx
unfolding cursor_lbound_set cursor_ubound_set
cursor_bound_set l bnd =
    let b = if ltb l.win (u32 (bnd + 1)) then l.win - 1 else bnd in
    if l.win == 0 then l else cursor_ubound_set (cursor_lbound_set l b) (sub32 (l.win - 1) b)

unfoldable pub text_mode_set : ListIdx → ListIdx
unfolding cursor_lbound_set cursor_ubound_set
text_mode_set l = cursor_ubound_set (cursor_lbound_set l l.win) 0

unfoldable pub cursor_abs : ListIdx → ℕ
cursor_abs l = u32 (l.offset + l.cursor)

unfoldable pub end_reached : ListIdx → Bool
end_reached l = leb l.size (u32 (l.offset + l.win))

unfoldable pub reset : ListIdx → ListIdx × Bool
reset l = (record l { cursor = 0; offset = 0 }, not (l.cursor == 0) || not (l.offset == 0))

unfoldable pub cursor_end_set : ListIdx → ListIdx × Bool
unfolding end_reached
cursor_end_set l = if l.win == 0 || l.size == 0 then (l, false) else (
  record l { cursor = hard_ubound l; offset = last_offset l },
  not (l.cursor == hard_ubound l) || not (end_reached l),
)

unfoldable pub inc_offset : ListIdx → ListIdx × Bool
unfolding end_reached
inc_offset l =
    if end_reached l then (l, false) else (record l { offset = u32 (l.offset + 1) }, true)

unfoldable pub dec_offset : ListIdx → ListIdx × Bool
dec_offset l = if l.offset == 0 then (l, false) else (record l { offset = l.offset - 1 }, true)

unfoldable pub inc_cursor : ListIdx → ListIdx × Bool
inc_cursor l =
    if l.win == 0 || l.size == 0
    then (l, false)
    else if l.cursor == hard_ubound l
    then (l, false)
    else (record l { cursor = u32 (l.cursor + 1) }, true)

unfoldable pub dec_cursor : ListIdx → ListIdx × Bool
dec_cursor l = if l.cursor == 0 then (l, false) else (record l { cursor = l.cursor - 1 }, true)

unfoldable pub inc : ListIdx → ListIdx × Bool
unfolding end_reached
inc l =
    if l.win == 0 || l.size == 0
    then (l, false)
    else if leb l.cursor_ubound l.cursor && not (end_reached l)
    then (record l { offset = u32 (l.offset + 1) }, true)
    else if ltb l.cursor (hard_ubound l)
    then (record l { cursor = u32 (l.cursor + 1) }, true)
    else (l, false)

unfoldable pub dec : ListIdx → ListIdx × Bool
dec l =
    if leb l.cursor l.cursor_lbound && not (l.offset == 0)
    then (record l { offset = l.offset - 1 }, true)
    else if not (l.cursor == 0)
    then (record l { cursor = l.cursor - 1 }, true)
    else (l, false)

-- The loops of `incJump` and `decJump`: the rounds left, and `changed` so far.
unfoldable pub repeat_move : (ListIdx → ListIdx × Bool) → ℕ → ListIdx → Bool → ListIdx × Bool
repeat_move move zero l changed = (l, changed)
repeat_move move (suc n) l changed = repeat_move move n (move l).0 (changed || (move l).1)

unfoldable pub inc_jump : ListIdx → ListIdx × Bool
inc_jump l = repeat_move inc l.size_jump l false

unfoldable pub dec_jump : ListIdx → ListIdx × Bool
dec_jump l = repeat_move dec l.size_jump l false

unfoldable pub insert : ListIdx → ListIdx
insert l = (inc (size_set l (u32 (l.size + 1)))).0

-- operator+=; operator++ adds 1
unfoldable pub add_size : ListIdx → ℕ → ListIdx
add_size l num = size_set l (u32 (l.size + num))

-- operator-=; operator-- takes off 1
unfoldable pub sub_size : ListIdx → ℕ → ListIdx
sub_size l num = size_set l (l.size - (if ltb l.size num then l.size else num))

unfoldable pub curr_erase : ListIdx → ListIdx × Bool
curr_erase l =
    let l' = if end_reached l && ltb l.win l.size then (inc_cursor (dec_offset l).0).0 else l in
    if l.size == 0 then (l, false) else (size_set l' (l'.size - 1), true)

unfoldable pub prev_erase : ListIdx → ListIdx × Bool
prev_erase l =
    let l' = if end_reached l && ltb l.win l.size then (dec_offset l).0 else (dec l).0 in
    if cursor_abs l == 0 then (l, false) else (size_set l' (sub32 l'.size 1), true)
