-- ===== src/Res/Lookup.antt =====
-- What is found in the table of Res.cpp.
use processing_common.Common.{
  ℕ, zero, suc, ◌+◌, ◌-◌, ◌≤◌, ◌<◌, ◌≡◌, ◌∙◌, inl, inr, refl, sym, ap, subst, arith, Bool, true,
  false, ◌||◌, leb, if◌then◌else◌, same_str, same_str_eq, List, Option, none, some, Bool-cases,
}
use processing_common.Res.{
  Resource, Tables, no_table, is_null, not_before, resource_table_add, find_from, resource_find,
}

-- The first resource with a name in a part of a memory, or none.
pub data IsFirst (memory : ℕ → Resource) (name : List ℕ) (start end : ℕ) (o : Option ℕ)
    : Type 0 where
  found :
      (address : ℕ)
      → o ≡ some address
      → start ≤ address
      → address < end
      → (memory address).name ≡ name
      → ((i : ℕ) → start ≤ i → i < address → same_str (memory i).name name ≡ false)
      → IsFirst memory name start end o
  missing :
      o ≡ none
      → ((i : ℕ) → start ≤ i → i < end → same_str (memory i).name name ≡ false)
      → IsFirst memory name start end o

-- The bound of a search that goes on.
from_next :
    (memory : ℕ → Resource) (name : List ℕ) (start i : ℕ)
    → same_str (memory start).name name ≡ false
    → (suc start ≤ i → same_str (memory i).name name ≡ false)
    → start ≤ i
    → same_str (memory i).name name ≡ false
from_next memory name start i first rest low = elim (Bool-cases (leb (suc start) i)) [
  | inl more ↦ rest (ground arith)
  | inr here ↦
      let eq : i ≡ start = ground arith in ap (λ j. same_str (memory j).name name) eq ∙ first
]

next-IsFirst :
    (memory : ℕ → Resource) (name : List ℕ) (start end : ℕ) (o : Option ℕ)
    → same_str (memory start).name name ≡ false
    → IsFirst memory name (suc start) end o
    → IsFirst memory name start end o
next-IsFirst memory name start end o first (found address e low high eq before) =
    found address e (omega arith) high eq
      (λ i a b. from_next memory name start i first (λ c. before i c b) a)
next-IsFirst memory name start end o first (missing e all) =
    missing e (λ i a b. from_next memory name start i first (λ c. all i c b) a)

find_from-IsFirst :
    (memory : ℕ → Resource) (name : List ℕ) (n start end : ℕ)
    → end ≡ start + n
    → IsFirst memory name start end (find_from memory name n start)
unfolding find_from
find_from-IsFirst memory name zero start end e = missing refl (λ i a b. absurd (omega arith))
find_from-IsFirst memory name (suc n) start end e =
    elim (Bool-cases (same_str (memory start).name name)) [
      | inl same ↦
          found start (ap (λ b. if b then some start else find_from memory name n (suc start)) same)
            (omega arith) (omega arith) (same_str_eq (memory start).name name same)
            (λ i a b. absurd (omega arith))
      | inr other ↦ rw other (
          next-IsFirst memory name start end (find_from memory name n (suc start)) other
            (find_from-IsFirst memory name n (suc start) end (omega arith)))
    ]

either_table :
    (a b : Bool) (t : Tables)
    → (if◌then◌else◌ {A = Tables × Bool} a (t, false) (if b then (t, false) else (t, false))).0 ≡ t
either_table true b t = refl
either_table false true t = refl
either_table false false t = refl

-- Once a table that is not empty has been added, whatever is tried to be added behind it,
-- resourceFind gives the first resource of that table with the name, and NULL if there is none.
pub resource_find-IsFirst :
    (memory : ℕ → Resource) (name : List ℕ) (start end : ℕ) (start' end' : Option ℕ)
    → start < end
    → IsFirst memory name start end (
        resource_find memory name
          (resource_table_add start' end'
            (resource_table_add (some start) (some end) no_table).0).0)
unfolding resource_find resource_table_add
resource_find-IsFirst memory name start end start' end' h =
    let fits : leb end start ≡ false = ground arith in
    let t : Tables = record { start = some start; end = some end } in
    let kept : (resource_table_add start' end' t).0 ≡ t =
      either_table (is_null start' || is_null end') (not_before start' end') t in
    rw fits (
      subst (λ u. IsFirst memory name start end (resource_find memory name u)) (sym kept)
        (find_from-IsFirst memory name (end - start) start end (omega arith)))
