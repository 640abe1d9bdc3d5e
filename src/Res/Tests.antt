-- ===== src/Res/Tests.antt =====
-- Runs of Res.cpp on a small table.
use processing_common.Common.{
  ℕ, ◌==◌, refl, arith, if◌then◌else◌, [], ◌∷◌, none, some, same_str, ◌≡◌,
}
use processing_common.Res.{Resource, no_table, resource_table_add, find_from, resource_find}
use processing_common.Res.Lookup.{IsFirst, resource_find-IsFirst}

abbrev named : ℕ → Resource
named c = record { name = c ∷ []; src = []; size = 0 }

abbrev memory : ℕ → Resource
memory i = if i == 8 then named b'b' else named b'a'

second_found :
    resource_find memory (b'b' ∷ []) (resource_table_add (some 7) (some 9) no_table).0 ≡ some 8
unfolding resource_find resource_table_add find_from same_str
second_found = refl

resource_find-IsFirst_example : IsFirst memory (b'b' ∷ []) 7 9 (
    resource_find memory
      (b'b' ∷ [])
      (resource_table_add (some 1) none (resource_table_add (some 7) (some 9) no_table).0).0)
resource_find-IsFirst_example =
    resource_find-IsFirst memory (b'b' ∷ []) 7 9 (some 1) none (omega arith)
