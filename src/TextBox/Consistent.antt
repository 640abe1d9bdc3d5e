-- ===== src/TextBox/Consistent.antt =====
-- The invariant of a text box that has the focus: both indices run over the text and the place
-- behind it, in the same window.
use processing_common.Common.{ℕ, zero, suc, ◌+◌, ◌^◌, ◌<◌, ◌≤◌, ◌≡◌, subst, arith, u32, length}
use processing_common.ListIdx.{ListIdx}
use processing_common.ListIdx
use processing_common.ListIdx.Bounds.{IsValid, size_set-IsValid, insert-IsValid}
use processing_common.ListIdx.Moves.{Keeps, cursor_abs-lt-size}
use processing_common.ListIdx.Resize.{size_set-Keeps, insert_lem}
use processing_common.TextBox.{TextBox, inserts}

-- An index over a text of `n` characters and the place behind it.
pub record IsOver (n : ℕ) (l : ListIdx) : Type 0 where
  pub valid : IsValid l
  pub all : l.size ≡ n + 1
  pub open_win : 0 < l.win
  pub small_win : l.win < 2 ^ 16

pub record IsConsistent (t : TextBox) : Type 0 where
  pub front_over : IsOver (length t.ustr_work) t.front
  pub back_over : IsOver (length t.ustr_work) t.back
  pub fits : length t.ustr_work ≤ t.len_max
  pub small : t.len_max < 2 ^ 16

-- The position is one in the text or the one behind it.
pub IsOver-cursor : (n : ℕ) (l : ListIdx) → IsOver n l → ListIdx.cursor_abs l ≤ n
IsOver-cursor n l o = omega (arith, cursor_abs-lt-size l o.valid)

-- A move changes neither the size nor the window.
pub Keeps-IsOver : (n : ℕ) (l l' : ListIdx) → IsOver n l → Keeps l l' → IsValid l' → IsOver n l'
Keeps-IsOver n l l' o k v = record {
  valid = v;
  all = omega arith;
  open_win = omega arith;
  small_win = omega arith;
}

pub size_set-IsOver :
    (n m : ℕ) (l : ListIdx) → IsOver n l → m < 2 ^ 16 → IsOver m (ListIdx.size_set l (u32 (m + 1)))
size_set-IsOver n m l o h =
    let k = size_set-Keeps l (u32 (m + 1)) in
    record {
      valid = size_set-IsValid l (u32 (m + 1)) (omega arith) o.valid;
      all = omega arith;
      open_win = omega arith;
      small_win = omega arith;
    }

insert-IsOver :
    (n : ℕ) (l : ListIdx) → IsOver n l → n + 1 < 2 ^ 16 → IsOver (n + 1) (ListIdx.insert l)
insert-IsOver n l o h =
    let k = insert_lem l o.valid o.open_win (omega arith) (omega arith) in
    record {
      valid = insert-IsValid l o.valid;
      all = omega arith;
      open_win = omega arith;
      small_win = omega arith;
    }

-- Inserting `k` characters takes the index `k` down, over a text that is `k` longer.
pub inserts_lem :
    (k n m : ℕ) (l : ListIdx)
    → IsOver n l
    → n + k ≡ m
    → m < 2 ^ 16
    → IsOver m (inserts k l) × (ListIdx.cursor_abs (inserts k l) ≡ ListIdx.cursor_abs l + k)
unfolding inserts
inserts_lem zero n m l o e h =
    let e' : n ≡ m = omega arith in (subst (λ i. IsOver i l) e' o, omega arith)
inserts_lem (suc k) n m l o e h =
    let (o', moved) =
      inserts_lem k (n + 1) m (ListIdx.insert l) (insert-IsOver n l o (omega arith)) (omega arith)
        h in
    (o', omega (arith, insert_lem l o.valid o.open_win (omega arith) (omega arith)))
