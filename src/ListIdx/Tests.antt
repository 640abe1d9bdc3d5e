-- ===== src/ListIdx/Tests.antt =====
-- Examples of the theorems about ListIdx.cpp.
use processing_common.Common.{ℕ, ◌≡◌, refl, arith, true, List, [], ◌∷◌, some}
use processing_common.KeyUser.{of_char32}
use processing_common.ListIdx.{ListIdx, empty, cursor_end_set, size_set}
use processing_common.ListIdx.Bounds.{IsValid}
use processing_common.ListIdx.Print.{win_end_print}
use processing_common.ListIdx.History.{
  Call, apply, wins, sizes, incs, ends, erases_prev, key_processes, run, run-empty-IsValid,
}

-- A window of four rows, one row down, over a list of six entries, with the cursor on its second row.
abbrev scrolled : ListIdx
scrolled = record {
  win = 4;
  size = 6;
  size_jump = 3;
  cursor = 1;
  offset = 1;
  cursor_lbound = 1;
  cursor_ubound = 2;
}

scrolled-IsValid : IsValid scrolled
scrolled-IsValid = omega arith

abbrev row : List ℕ
row = b'|' ∷ b'-' ∷ b'-' ∷ b'-' ∷ b' ' ∷ 13 ∷ 10 ∷ []

printed : win_end_print scrolled [] 0 1 (b'|' ∷ []) [] 4 ≡ some (row, true)
unfolding win_end_print
printed = refl

abbrev calls : List Call
calls = sizes 5 ∷ ends ∷ wins 3 ∷ incs ∷ key_processes (of_char32 b'j') [] ∷ erases_prev ∷ []

run-empty_example : IsValid (run empty calls)
unfolding apply size_set cursor_end_set empty
run-empty_example = run-empty-IsValid calls (omega arith, (tt, (omega arith, (tt, (tt, (tt, tt))))))
