-- ===== src/LibFilesys/Tests.antt =====
-- Runs of LibFilesys.cpp on small inputs.
use processing_common.Common.{ℕ, ◌≡◌, refl, Bool, true, List, [], ◌∷◌, same_str}
use processing_common.LibFilesys.{
  has, pending, taken, Locks, sys_flags_int_lock, sys_flags_int_unlock,
}
use processing_common.LibFilesys.Content.{
  Files, content, written, Access, file_exists, streams_copy, file_copy,
}
use processing_common.LibFilesys.Content.Copies.{IsCopied, file_copy-IsCopied}
use processing_common.LibFilesys.Flags.{sys_flags_int_lock_excludes, sys_flags_int_unlock_skips}

abbrev path : List ℕ
path = b'a' ∷ b'/' ∷ b'b' ∷ []

abbrev always : List ℕ → Bool
always name = true

abbrev first : List ℕ
first = b'x' ∷ []

abbrev second : List ℕ
second = b'y' ∷ []

abbrev unlocked : Locks
unlocked = record { user_locks = []; global_locks = []; flags = [] }

abbrev other : Locks
other = record unlocked { flags = second ∷ first ∷ [] }

sys_flags_int_lock_excludes_example :
    sys_flags_int_lock true always taken (second ∷ []) other ≡ (other, pending)
unfolding sys_flags_int_lock has same_str
sys_flags_int_lock_excludes_example =
    sys_flags_int_lock_excludes always always (first ∷ second ∷ []) (second ∷ []) unlocked other
      second (λ n. refl) refl refl refl refl

abbrev both : Locks
both = record {
  user_locks = first ∷ second ∷ [];
  global_locks = first ∷ second ∷ [];
  flags = first ∷ second ∷ [];
}

sys_flags_int_unlock_skips_example :
    let l' = (sys_flags_int_unlock true both).0 in
    (l'.user_locks ≡ second ∷ [])
    × (sys_flags_int_lock true always taken (second ∷ []) l' ≡ (l', pending))
unfolding has same_str
sys_flags_int_unlock_skips_example =
    sys_flags_int_unlock_skips always first second both refl refl refl

abbrev all_open : Access
all_open = record { read = λ path. true; write = λ path. true }

abbrev name_a : List ℕ
name_a = b'a' ∷ []

abbrev name_b : List ℕ
name_b = b'b' ∷ []

abbrev one_file : Files
one_file = (name_a, b'x' ∷ []) ∷ []

copied_file :
    file_copy all_open name_a name_b one_file
    ≡ ((name_a, b'x' ∷ []) ∷ (name_b, b'x' ∷ []) ∷ [], true)
unfolding file_copy file_exists streams_copy content written same_str
copied_file = refl

file_copy-IsCopied_example :
    IsCopied
      (file_exists all_open name_b one_file)
      true
      name_b
      name_a
      one_file
      (file_copy all_open name_b name_a one_file)
file_copy-IsCopied_example = file_copy-IsCopied all_open name_b name_a one_file
