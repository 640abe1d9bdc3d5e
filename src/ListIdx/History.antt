-- ===== src/ListIdx/History.antt =====
-- What holds of a list index after any sequence of calls.
use processing_common.Common.{ℕ, ◌+◌, ◌^◌, ◌<◌, List, [], ◌∷◌, arith}
use processing_common.KeyUser.{KeyUser}
use processing_common.ListIdx.{
  ListIdx, empty, win_set, size_set, size_jump_set, cursor_lbound_set, cursor_ubound_set,
  cursor_bound_set, text_mode_set, reset, cursor_end_set, inc_offset, dec_offset, inc_cursor,
  dec_cursor, inc, dec, inc_jump, dec_jump, insert, add_size, sub_size, curr_erase, prev_erase,
}
use processing_common.ListIdx.Keys.{key_process, key_process-IsValid}
use processing_common.ListIdx.Bounds.{
  IsValid, size_set-IsValid, win_set-IsValid, cursor_bound_set-IsValid, inc_offset-IsValid,
  dec_offset-IsValid, inc_cursor-IsValid, dec_cursor-IsValid, inc-IsValid, dec-IsValid,
  cursor_end_set-IsValid, reset-IsValid, inc_jump-IsValid, dec_jump-IsValid, insert-IsValid,
  curr_erase-IsValid, prev_erase-IsValid,
}

-- The public methods that change the object.
pub data Call : Type 0 where
  wins sizes jumps lbounds ubounds bounds adds subs : ℕ → Call
  text_mode resets ends incs_offset decs_offset incs_cursor decs_cursor : Call
  incs decs incs_jump decs_jump inserts erases_curr erases_prev : Call
  key_processes : KeyUser → List ℕ → Call

unfoldable pub apply : ListIdx → Call → ListIdx
apply l (wins n) = win_set l n
apply l (sizes n) = size_set l n
apply l (jumps n) = size_jump_set l n
apply l (lbounds n) = cursor_lbound_set l n
apply l (ubounds n) = cursor_ubound_set l n
apply l (bounds n) = cursor_bound_set l n
apply l (adds n) = add_size l n
apply l (subs n) = sub_size l n
apply l text_mode = text_mode_set l
apply l resets = (reset l).0
apply l ends = (cursor_end_set l).0
apply l incs_offset = (inc_offset l).0
apply l decs_offset = (dec_offset l).0
apply l incs_cursor = (inc_cursor l).0
apply l decs_cursor = (dec_cursor l).0
apply l incs = (inc l).0
apply l decs = (dec l).0
apply l incs_jump = (inc_jump l).0
apply l decs_jump = (dec_jump l).0
apply l inserts = insert l
apply l erases_curr = (curr_erase l).0
apply l erases_prev = (prev_erase l).0
apply l (key_processes key ks) = (key_process l key ks).0

-- An argument is in the range of its type, and a new window ends within 32 bits.
abbrev pub Fits : ListIdx → Call → Type 0
Fits l (wins n) = l.offset + n < 2 ^ 32
Fits l (sizes n) = n < 2 ^ 32
Fits l (jumps n) = n < 2 ^ 16
Fits l _ = Unit {0}

pub apply-IsValid : (l : ListIdx) (c : Call) → Fits l c → IsValid l → IsValid (apply l c)
unfolding apply
apply-IsValid l (wins n) h v = win_set-IsValid l n h v
apply-IsValid l (sizes n) h v = size_set-IsValid l n h v
apply-IsValid l (jumps n) h v = unfold size_jump_set in ground arith
apply-IsValid l (lbounds n) h v = unfold cursor_lbound_set in ground arith
apply-IsValid l (ubounds n) h v = unfold cursor_ubound_set in ground arith
apply-IsValid l (bounds n) h v = cursor_bound_set-IsValid l n v
apply-IsValid l (adds n) h v = unfold add_size in size_set-IsValid l _ (omega arith) v
apply-IsValid l (subs n) h v = unfold sub_size in size_set-IsValid l _ (ground arith) v
apply-IsValid l text_mode h v = unfold text_mode_set in ground arith
apply-IsValid l resets h v = reset-IsValid l v
apply-IsValid l ends h v = cursor_end_set-IsValid l v
apply-IsValid l incs_offset h v = inc_offset-IsValid l v
apply-IsValid l decs_offset h v = dec_offset-IsValid l v
apply-IsValid l incs_cursor h v = inc_cursor-IsValid l v
apply-IsValid l decs_cursor h v = dec_cursor-IsValid l v
apply-IsValid l incs h v = inc-IsValid l v
apply-IsValid l decs h v = dec-IsValid l v
apply-IsValid l incs_jump h v = inc_jump-IsValid l v
apply-IsValid l decs_jump h v = dec_jump-IsValid l v
apply-IsValid l inserts h v = insert-IsValid l v
apply-IsValid l erases_curr h v = curr_erase-IsValid l v
apply-IsValid l erases_prev h v = prev_erase-IsValid l v
apply-IsValid l (key_processes key ks) h v = key_process-IsValid l key ks v

unfoldable pub run : ListIdx → List Call → ListIdx
run l [] = l
run l (c ∷ cs) = run (apply l c) cs

abbrev pub AllFit : ListIdx → List Call → Type 0
AllFit l [] = Unit {0}
AllFit l (c ∷ cs) = Fits l c × AllFit (apply l c) cs

run-IsValid : (l : ListIdx) (cs : List Call) → AllFit l cs → IsValid l → IsValid (run l cs)
unfolding run
run-IsValid l [] h v = v
run-IsValid l (c ∷ cs) h v = run-IsValid (apply l c) cs h.1 (apply-IsValid l c h.0 v)

pub empty-IsValid : IsValid empty
unfolding empty
empty-IsValid = omega arith

-- After any sequence of calls on a new index, with arguments in the range of their types and
-- windows that end within 32 bits, the index is valid.
pub run-empty-IsValid : (cs : List Call) → AllFit empty cs → IsValid (run empty cs)
run-empty-IsValid cs h = run-IsValid empty cs h empty-IsValid
