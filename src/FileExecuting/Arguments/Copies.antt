-- ===== src/FileExecuting/Arguments/Copies.antt =====
-- The copies of the argument lists are complete, and all of their blocks are freed.
use processing_common.Common.{
  ℕ, zero, suc, ◌+◌, ◌-◌, ◌^◌, ◌<◌, ◌≤◌, ◌≡◌, ◌∙◌, inl, inr, refl, ap, subst, arith, Bool, true,
  false, ◌==◌, if◌then◌else◌, List, [], ◌∷◌, Option, none, some, Bool-cases, length, replicate,
}
use processing_common.FileExecuting.Arguments.{
  Heap, allocated, in_use, without, free, Element, CharList, int_of, elements_free, ptr_list_free,
  elements_copy, in_order, char_list, list_made, vec_const_char_to_char_list,
}

abbrev one : ℕ → ℕ → ℕ
one block i = if block == i then 1 else 0

abbrev pub count : ℕ → List ℕ → ℕ
count i [] = 0
count i (b ∷ blocks) = one b i + count i blocks

abbrev done_blocks : ℕ → List Element → ℕ
done_blocks i [] = 0
done_blocks i ((b, str) ∷ done) = one b i + done_blocks i done

abbrev element_blocks : ℕ → List (Option Element) → ℕ
element_blocks i [] = 0
element_blocks i (none ∷ es) = element_blocks i es
element_blocks i (some (b, str) ∷ es) = one b i + element_blocks i es

-- The texts behind the pointers, where none is NULL.
abbrev pub texts : List (Option Element) → List (Option (List ℕ))
texts [] = []
texts (none ∷ es) = none ∷ texts es
texts (some (b, str) ∷ es) = some str ∷ texts es

-- Texts in their order, and one NULL behind them.
abbrev pub with_null : List (List ℕ) → List (Option (List ℕ))
with_null [] = none ∷ []
with_null (str ∷ strs) = some str ∷ with_null strs

abbrev back : List Element → List (Option (List ℕ)) → List (Option (List ℕ))
back [] strs = strs
back ((b, str) ∷ done) strs = back done (some str ∷ strs)

-- Whether there are `n` elements, and nothing but NULL behind them.
abbrev within : ℕ → List (Option Element) → Bool
within zero [] = true
within zero (none ∷ es) = within zero es
within zero (some e ∷ es) = false
within (suc n) [] = false
within (suc n) (e ∷ es) = within n es

within-replicate : (n k : ℕ) → n ≤ k → within n (replicate k none) ≡ true
within-replicate zero zero h = refl
within-replicate zero (suc k) h = within-replicate zero k (omega arith)
within-replicate (suc n) zero h = absurd (omega arith)
within-replicate (suc n) (suc k) h = within-replicate n k (omega arith)

within-in_order :
    (done : List Element) (es : List (Option Element)) (n : ℕ)
    → within n es ≡ true
    → within (length done + n) (in_order done es) ≡ true
within-in_order [] es n h = let eq : 0 + n ≡ n = omega arith in ap (λ i. within i es) eq ∙ h
within-in_order (e ∷ done) es n h =
    let eq : length (e ∷ done) + n ≡ length done + suc n = omega arith in
    ap (λ i. within i (in_order done (some e ∷ es))) eq
    ∙ within-in_order done (some e ∷ es) (suc n) h

no_blocks : (i : ℕ) (es : List (Option Element)) → within 0 es ≡ true → element_blocks i es ≡ 0
no_blocks i [] h = refl
no_blocks i (none ∷ es) h = no_blocks i es h
no_blocks i (some e ∷ es) h = absurd cc

nulls : (i k : ℕ) → element_blocks i (replicate k none) ≡ 0
nulls i k = no_blocks i (replicate k none) (within-replicate 0 k (omega arith))

-- A heap without faults whose blocks are those of `base` in number.
pub record Holds (base : ℕ → ℕ) (h : Heap) : Type 0 where
  pub fault : h.fault ≡ false
  pub blocks : (i : ℕ) → count i h.blocks ≡ base i

in_use-count : (b : ℕ) (blocks : List ℕ) → 0 < count b blocks → in_use b blocks ≡ true
unfolding in_use
in_use-count b [] h = absurd (omega arith)
in_use-count b (c ∷ blocks) h = elim (Bool-cases (c == b)) [
  | inl here ↦ ground arith
  | inr there ↦ let rest = in_use-count b blocks (ground arith) in ground (arith, rest)
]

count-without :
    (i b : ℕ) (blocks : List ℕ)
    → 0 < count b blocks
    → count i (without b blocks) + one b i ≡ count i blocks
unfolding without
count-without i b [] h = absurd (omega arith)
count-without i b (c ∷ blocks) h = elim (Bool-cases (c == b)) [
  | inl here ↦ rw here (ground arith)
  | inr there ↦ let rest = count-without i b blocks (ground arith) in rw there (omega (arith, rest))
]

free-Holds :
    (base : ℕ → ℕ) (b : ℕ) (h : Heap) → Holds (λ i. base i + one b i) h → Holds base (free b h)
unfolding free
free-Holds base b h k =
    let some_block : 0 < count b h.blocks = let at = k.blocks b in ground (arith, at) in
    let used = in_use-count b h.blocks some_block in
    record {
      fault = rw (k.fault, used) refl;
      blocks = λ i. omega (arith, count-without i b h.blocks some_block, k.blocks i);
    }

elements_free-Holds :
    (base : ℕ → ℕ) (cnt : ℕ) (es : List (Option Element)) (h : Heap)
    → within cnt es ≡ true
    → Holds (λ i. base i + element_blocks i es) h
    → Holds base (elements_free cnt es h)
unfolding elements_free
elements_free-Holds base zero es h w k = record {
  fault = k.fault;
  blocks = λ i. omega (arith, k.blocks i, no_blocks i es w);
}
elements_free-Holds base (suc cnt) [] h w k = absurd cc
elements_free-Holds base (suc cnt) (none ∷ es) h w k = elements_free-Holds base cnt es h w k
elements_free-Holds base (suc cnt) (some (b, str) ∷ es) h w k =
    elements_free-Holds base cnt es (free b h) w (
      free-Holds (λ i. base i + element_blocks i es) b h
        (record { fault = k.fault; blocks = λ i. omega (arith, k.blocks i) }))

ptr_list_free-Holds :
    (base : ℕ → ℕ) (cnt : ℕ) (lst : CharList) (h : Heap)
    → within cnt lst.elements ≡ true
    → Holds (λ i. base i + (one lst.block i + element_blocks i lst.elements)) h
    → Holds base (ptr_list_free cnt (some lst) h)
unfolding ptr_list_free
ptr_list_free-Holds base cnt lst h w k =
    free-Holds base lst.block (elements_free cnt lst.elements h) (
      elements_free-Holds (λ i. base i + one lst.block i) cnt lst.elements h w
        (record { fault = k.fault; blocks = λ i. omega (arith, k.blocks i) }))

int_of_fits : (n : ℕ) → n < 2 ^ 31 → int_of n ≡ n
int_of_fits n h = ground arith

element_blocks-in_order :
    (i : ℕ) (done : List Element) (es : List (Option Element))
    → element_blocks i (in_order done es) ≡ done_blocks i done + element_blocks i es
element_blocks-in_order i [] es = omega arith
element_blocks-in_order i ((b, str) ∷ done) es =
    omega (arith, element_blocks-in_order i done (some (b, str) ∷ es))

texts-in_order :
    (done : List Element) (es : List (Option Element))
    → texts (in_order done es) ≡ back done (texts es)
texts-in_order [] es = refl
texts-in_order ((b, str) ∷ done) es = texts-in_order done (some (b, str) ∷ es)

-- The copies so far belong to the heap, and are all texts where none has failed.
pub record Copied (base : ℕ → ℕ) (strs : List (List ℕ)) (done : List Element)
    (r : Heap × List Element × Bool) : Type 0 where
  pub holds : Holds (λ i. base i + done_blocks i r.1) r.0
  pub no_more : length r.1 ≤ length done + length strs
  pub all :
      r.2 ≡ true
      → (length r.1 ≡ length done + length strs)
        × (back r.1 (none ∷ []) ≡ back done (with_null strs))

elements_copy-Copied :
    (base : ℕ → ℕ) (alloc : ℕ → Bool) (strs : List (List ℕ)) (done : List Element) (h : Heap)
    → Holds (λ i. base i + done_blocks i done) h
    → Copied base strs done (elements_copy alloc strs done h)
unfolding elements_copy
elements_copy-Copied base alloc [] done h k = record {
  holds = k;
  no_more = omega arith;
  all = λ ok. (omega arith, refl);
}
elements_copy-Copied base alloc (str ∷ strs) done h k =
    let rest =
      elements_copy-Copied base alloc strs ((h.next, str) ∷ done) (allocated h)
        (record { fault = k.fault; blocks = λ i. omega (arith, k.blocks i) }) in
    elim (Bool-cases (alloc h.next)) [
      | inl ok ↦ rw ok (record {
        holds = rest.holds;
        no_more = omega (arith, rest.no_more);
        all = λ yes. let (n, t) = rest.all yes in (omega (arith, n), t);
      })
      | inr failed ↦ rw failed (record {
        holds = record { fault = k.fault; blocks = k.blocks };
        no_more = omega arith;
        all = λ no. absurd cc;
      })
    ]

-- What a conversion gives: nothing, with the heap as before, or all texts and NULL, in blocks that
-- ptrListFree frees.
abbrev pub IsCopied : List (List ℕ) → (ℕ → ℕ) → Heap × Option CharList → Type 0
IsCopied strs base (h, none) = Holds base h
IsCopied strs base (h, some lst) =
    (texts lst.elements ≡ with_null strs)
    × Holds base (ptr_list_free (int_of (length strs)) (some lst) h)

-- ptrListFree frees a list with some of the copies.
char_list_freed :
    (base : ℕ → ℕ) (cnt block : ℕ) (done : List Element) (h : Heap)
    → cnt < 2 ^ 31
    → length done ≤ cnt
    → Holds (λ i. (base i + one block i) + done_blocks i done) h
    → Holds base (ptr_list_free (int_of cnt) (some (char_list cnt block done)) h)
char_list_freed base cnt block done h fits few k =
    let rest : List (Option Element) = replicate (cnt + 1 - length done) none in
    let eq : length done + (cnt - length done) ≡ int_of cnt = omega (arith, int_of_fits cnt fits) in
    let w : within (length done + (cnt - length done)) (in_order done rest) ≡ true =
      within-in_order done rest (cnt - length done)
        (within-replicate (cnt - length done) (cnt + 1 - length done) (omega arith)) in
    ptr_list_free-Holds base (int_of cnt) (char_list cnt block done) h
      (subst (λ n. within n (in_order done rest) ≡ true) eq w)
      (record {
        fault = k.fault;
        blocks = λ i. omega (
          arith,
          k.blocks i,
          element_blocks-in_order i done rest,
          nulls i (cnt + 1 - length done),
        );
      })

list_made-IsCopied :
    (base : ℕ → ℕ) (strs : List (List ℕ)) (block : ℕ) (r : Heap × List Element × Bool)
    → length strs < 2 ^ 31
    → Copied (λ i. base i + one block i) strs [] r
    → IsCopied strs base (list_made (length strs) block r)
unfolding list_made
list_made-IsCopied base strs block (h, done, true) fits c =
    let (n, t) = c.all refl in
    let eq : length strs + 1 - length done ≡ 1 = omega (arith, n) in
    let freed =
      char_list_freed base (length strs) block done h fits (omega (arith, c.no_more)) c.holds in
    (
      ap (λ k. texts (in_order done (replicate k none))) eq ∙ texts-in_order done (none ∷ []) ∙ t,
      freed,
    )
list_made-IsCopied base strs block (h, done, false) fits c =
    char_list_freed base (length strs) block done h fits (omega (arith, c.no_more)) c.holds

-- Whichever allocations fail, on a heap without faults and for fewer than 2 ^ 31 texts,
-- vecConstCharToCharList gives either nothing, and all blocks are as many as before, or a list of
-- all texts in their order and one NULL behind them, and ptrListFree with the number of the texts
-- then leaves as many blocks as before; no block is freed that is not in use, and no pointer is
-- read behind a list.
pub vec_const_char_to_char_list-IsCopied :
    (alloc : ℕ → Bool) (strs : List (List ℕ)) (h : Heap)
    → h.fault ≡ false
    → length strs < 2 ^ 31
    → IsCopied strs (λ i. count i h.blocks) (vec_const_char_to_char_list alloc strs h)
unfolding vec_const_char_to_char_list
vec_const_char_to_char_list-IsCopied alloc strs h clean fits =
    let base : ℕ → ℕ = λ i. count i h.blocks in
    let made =
      list_made-IsCopied base strs h.next (elements_copy alloc strs [] (allocated h)) fits (
        elements_copy-Copied (λ i. base i + one h.next i) alloc strs [] (allocated h)
          (record { fault = clean; blocks = λ i. omega arith })) in
    elim (Bool-cases (alloc h.next)) [
      | inl ok ↦ rw ok made
      | inr failed ↦ rw failed (record { fault = clean; blocks = λ i. refl })
    ]
