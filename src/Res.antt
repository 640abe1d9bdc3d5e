-- ===== src/Res.antt =====
-- Res.cpp: a table of resources. The table starts and ends at addresses; `none` is NULL.
pub mod Lookup
pub mod Tests
use processing_common.Common.{
  ℕ, zero, suc, ◌+◌, ◌-◌, Bool, true, false, not, ◌||◌, leb, if◌then◌else◌, same_str, List, [], ◌∷◌,
  Option, none, some,
}

-- A resource, with the texts that its pointers lead to.
pub record Resource : Type 0 where
  pub name : List ℕ
  pub src : List ℕ
  pub size : ℕ

-- The static variables. Addresses count resources.
pub record Tables : Type 0 where
  pub start : Option ℕ
  pub end : Option ℕ

abbrev pub no_table : Tables
no_table = record { start = none; end = none }

abbrev pub is_null : Option ℕ → Bool
is_null none = true
is_null (some address) = false

abbrev pub not_before : Option ℕ → Option ℕ → Bool
not_before none end = true
not_before (some start) none = true
not_before (some start) (some end) = leb end start

unfoldable pub resource_table_add : Option ℕ → Option ℕ → Tables → Tables × Bool
resource_table_add start end t =
    if is_null start || is_null end
    then (t, false)
    else if not_before start end
    then (t, false)
    else if not (is_null t.start) || not (is_null t.end)
    then (t, false)
    else (record { start = start; end = end }, true)

-- The loop over the `n` resources from an address on, in a memory.
unfoldable pub find_from : (ℕ → Resource) → List ℕ → ℕ → ℕ → Option ℕ
find_from memory name zero address = none
find_from memory name (suc n) address =
    let rest = find_from memory name n (suc address) in
    if same_str (memory address).name name then some address else rest

-- The address of the resource.
unfoldable pub resource_find : (ℕ → Resource) → List ℕ → Tables → Option ℕ
unfolding find_from
resource_find memory name t = elim t.start [
  | none ↦ none
  | some start ↦ elim t.end [ none ↦ none | some end ↦ find_from memory name (end - start) start ]
]
