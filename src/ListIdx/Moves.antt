-- ===== src/ListIdx/Moves.antt =====
-- Where the moves take the cursor, as a position in the whole list.
use processing_common.Common.{
  ℕ, zero, suc, ◌+◌, ◌-◌, ◌<◌, ◌≡◌, ◌↔◌, min, arith, Bool, true, false, not, ltb, ◌==◌, ◌||◌, ◌&&◌,
  if◌then◌else◌,
}
use processing_common.ListIdx.{
  ListIdx, cursor_abs, end_reached, reset, cursor_end_set, inc, dec, repeat_move, inc_jump,
  dec_jump,
}
use processing_common.ListIdx.Bounds.{IsValid, inc-IsValid, dec-IsValid}

-- In a window that is not empty the position is an entry of the list, and no sum wraps around.
pub cursor_abs-lt-size : (l : ListIdx) → IsValid l → 0 < l.win → 0 < l.size → cursor_abs l < l.size
unfolding cursor_abs
cursor_abs-lt-size l v w s = ground arith

pub cursor_abs_lem : (l : ListIdx) → IsValid l → 0 < l.win → cursor_abs l ≡ l.offset + l.cursor
unfolding cursor_abs
cursor_abs_lem l v w = ground arith

-- A move that changes nothing but the position and the offset of the window.
pub record Keeps (old l : ListIdx) : Type 0 where
  pub same_win : l.win ≡ old.win
  pub same_size : l.size ≡ old.size
  pub same_jump : l.size_jump ≡ old.size_jump

-- In a valid index with a window that is not empty, `inc` goes one entry down if there is one, and
-- its result tells whether it did.
pub inc_lem :
    (l : ListIdx)
    → IsValid l
    → 0 < l.win
    → (cursor_abs (inc l).0
        ≡ (if ltb (cursor_abs l + 1) l.size then cursor_abs l + 1 else cursor_abs l))
      × ((inc l).1 ≡ ltb (cursor_abs l + 1) l.size)
unfolding inc cursor_abs
inc_lem l v w = (ground arith, ground arith)

pub inc-Keeps : (l : ListIdx) → Keeps l (inc l).0
unfolding inc
inc-Keeps l = ground arith

-- In a valid index with a window that is not empty, `dec` goes one entry up unless it stands on the
-- first, and its result tells whether it did.
pub dec_lem :
    (l : ListIdx)
    → IsValid l
    → 0 < l.win
    → (cursor_abs (dec l).0 ≡ cursor_abs l - 1) × ((dec l).1 ≡ not (cursor_abs l == 0))
unfolding dec cursor_abs
dec_lem l v w = (ground arith, ground arith)

pub dec-Keeps : (l : ListIdx) → Keeps l (dec l).0
unfolding dec
dec-Keeps l = ground arith

pub repeat_inc :
    (n : ℕ) (l : ListIdx) (changed : Bool)
    → IsValid l
    → 0 < l.win
    → 0 < l.size
    → (cursor_abs (repeat_move inc n l changed).0 ≡ min (cursor_abs l + n) (l.size - 1))
      × ((repeat_move inc n l changed).1
          ≡ (changed || (not (n == 0) && ltb (cursor_abs l + 1) l.size)))
unfolding repeat_move
repeat_inc zero l changed v w s = ground (arith, cursor_abs-lt-size l v w s)
repeat_inc (suc n) l changed v w s = ground (
  arith,
  inc_lem l v w,
  inc-Keeps l,
  repeat_inc n (inc l).0 (changed || (inc l).1) (inc-IsValid l v),
  cursor_abs-lt-size l v w s,
)

pub repeat_dec :
    (n : ℕ) (l : ListIdx) (changed : Bool)
    → IsValid l
    → 0 < l.win
    → (cursor_abs (repeat_move dec n l changed).0 ≡ cursor_abs l - n)
      × ((repeat_move dec n l changed).1 ≡ (changed || not (n == 0 || cursor_abs l == 0)))
unfolding repeat_move
repeat_dec zero l changed v w = ground arith
repeat_dec (suc n) l changed v w = ground (
  arith,
  dec_lem l v w,
  dec-Keeps l,
  repeat_dec n (dec l).0 (changed || (dec l).1) (dec-IsValid l v),
)

-- In a valid index whose window and list are not empty, `incJump` goes down by the size of a jump,
-- at most to the last entry, and its result tells whether there was an entry below.
pub inc_jump_lem :
    (l : ListIdx)
    → IsValid l
    → 0 < l.win
    → 0 < l.size
    → (cursor_abs (inc_jump l).0 ≡ min (cursor_abs l + l.size_jump) (l.size - 1))
      × ((inc_jump l).1 ≡ ltb (cursor_abs l + 1) l.size)
unfolding inc_jump
inc_jump_lem l v w s = ground (arith, repeat_inc l.size_jump l false v w s)

-- In a valid index with a window that is not empty, `decJump` goes up by the size of a jump, at
-- most to the first entry, and its result tells whether there was an entry above.
pub dec_jump_lem :
    (l : ListIdx)
    → IsValid l
    → 0 < l.win
    → (cursor_abs (dec_jump l).0 ≡ cursor_abs l - l.size_jump)
      × ((dec_jump l).1 ≡ not (cursor_abs l == 0))
unfolding dec_jump
dec_jump_lem l v w = ground (arith, repeat_dec l.size_jump l false v w)

-- In a valid index whose window and list are not empty, `reset` goes to the first entry and tells
-- whether it was not there; `cursorEndSet` goes to the last entry, where the window has reached the
-- end, and its result is false exactly if nothing changed.
pub ends_lem :
    (l : ListIdx)
    → IsValid l
    → 0 < l.win
    → 0 < l.size
    → (cursor_abs (reset l).0 ≡ 0)
      × ((reset l).1 ≡ not (cursor_abs l == 0))
      × (cursor_abs (cursor_end_set l).0 ≡ l.size - 1)
      × (end_reached (cursor_end_set l).0 ≡ true)
      × (((cursor_end_set l).1 ≡ false) ↔ ((cursor_end_set l).0 ≡ l))
unfolding reset cursor_end_set cursor_abs
ends_lem l v w s =
    (ground arith, ground arith, ground arith, ground arith, (λ h. ground arith, λ h. ground arith))
