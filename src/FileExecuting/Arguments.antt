-- ===== src/FileExecuting/Arguments.antt =====
-- FileExecuting.cpp: the copies of the argument lists for a child. A block of the heap is named by
-- the number of its allocation; `alloc` says which allocations succeed.
pub mod Copies
use processing_common.Common.{
  ℕ, zero, suc, ◌+◌, ◌-◌, ◌^◌, Bool, true, false, not, ltb, ◌||◌, ◌==◌, if◌then◌else◌, u32, List,
  [], ◌∷◌, Option, none, some, length, replicate,
}

-- The blocks in use, the last first, and whether a block was freed that was not in use.
pub record Heap : Type 0 where
  pub next : ℕ
  pub blocks : List ℕ
  pub fault : Bool

abbrev pub allocated : Heap → Heap
allocated h = record h { next = suc h.next; blocks = h.next ∷ h.blocks }

abbrev pub refused : Heap → Heap
refused h = record h { next = suc h.next }

unfoldable pub in_use : ℕ → List ℕ → Bool
in_use block [] = false
in_use block (b ∷ blocks) = (b == block) || in_use block blocks

unfoldable pub without : ℕ → List ℕ → List ℕ
without block [] = []
without block (b ∷ blocks) = if b == block then blocks else b ∷ without block blocks

unfoldable pub free : ℕ → Heap → Heap
unfolding in_use without
free block h = record h {
  blocks = without block h.blocks;
  fault = h.fault || not (in_use block h.blocks);
}

-- The copy of a text: its block and its bytes.
abbrev pub Element : Type 0
Element = ℕ × List ℕ

-- The pointers in a block of their own; none is NULL.
pub record CharList : Type 0 where
  pub block : ℕ
  pub elements : List (Option Element)

-- The conversion of a size to int; a negative number, at which a loop ends at once, is 0 here.
abbrev pub int_of : ℕ → ℕ
int_of n = if ltb (u32 n) (2 ^ 31) then u32 n else 0

-- The loop of ptrListFree over `cnt` elements; a read behind the block is a fault.
unfoldable pub elements_free : ℕ → List (Option Element) → Heap → Heap
unfolding free
elements_free zero elements h = h
elements_free (suc cnt) [] h = record h { fault = true }
elements_free (suc cnt) (none ∷ elements) h = elements_free cnt elements h
elements_free (suc cnt) (some (block, str) ∷ elements) h = elements_free cnt elements (free block h)

unfoldable pub ptr_list_free : ℕ → Option CharList → Heap → Heap
unfolding elements_free free
ptr_list_free cnt none h = h
ptr_list_free cnt (some lst) h = free lst.block (elements_free cnt lst.elements h)

-- The loop that copies the texts: those copied so far, the last first.
unfoldable pub elements_copy :
    (ℕ → Bool) → List (List ℕ) → List Element → Heap → Heap × List Element × Bool
elements_copy alloc [] done h = (h, done, true)
elements_copy alloc (str ∷ strs) done h =
    let rest = elements_copy alloc strs ((h.next, str) ∷ done) (allocated h) in
    if alloc h.next then rest else (refused h, done, false)

-- The elements in their order, from those copied last first.
abbrev pub in_order : List Element → List (Option Element) → List (Option Element)
in_order [] elements = elements
in_order (e ∷ done) elements = in_order done (some e ∷ elements)

-- The block of `cnt` + 1 pointers, which are NULL at first, with those copied.
abbrev pub char_list : ℕ → ℕ → List Element → CharList
char_list cnt block done = record {
  block = block;
  elements = in_order done (replicate (cnt + 1 - length done) none);
}

-- The list of pointers; where a copy has failed, the others are freed.
unfoldable pub list_made : ℕ → ℕ → Heap × List Element × Bool → Heap × Option CharList
unfolding ptr_list_free
list_made cnt block (h, done, true) = (h, some (char_list cnt block done))
list_made cnt block (h, done, false) =
    (ptr_list_free (int_of cnt) (some (char_list cnt block done)) h, none)

unfoldable pub vec_const_char_to_char_list :
    (ℕ → Bool) → List (List ℕ) → Heap → Heap × Option CharList
unfolding elements_copy list_made
vec_const_char_to_char_list alloc strs h =
    if not (alloc h.next)
    then (refused h, none)
    else (list_made (length strs) h.next (elements_copy alloc strs [] (allocated h)))
