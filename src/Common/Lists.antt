-- ===== src/Common/Lists.antt =====
-- Lists measured and cut by native numbers, under the library's names, and the operations of
-- `std::basic_string` that the code uses.
use Prim.Native.Nat.{ℕ, zero, suc, ◌+◌, ◌-◌, ◌≤◌, min}
use mathlib.Core.Path.{◌≡◌, ◌∙◌, refl, sym, ap}
use mathlib.Core.List.{List, [], ◌∷◌, ◌++◌}
use mathlib.Core.Option.{Option, none, some}
use native.Mathlib.Omega.{arith}
use native.Mathlib.Decide.{dec_le}
use processing_common.Common.Tests.{ltb, if◌then◌else◌}

module _ {ℓ} {A : Type ℓ} where
  abbrev pub length : List A → ℕ
  length [] = 0
  length (x ∷ xs) = suc (length xs)

  abbrev pub get_elem? : List A → ℕ → Option A
  get_elem? [] i = none
  get_elem? (x ∷ xs) zero = some x
  get_elem? (x ∷ xs) (suc i) = get_elem? xs i

  abbrev pub get_or : List A → ℕ → A → A
  get_or [] i d = d
  get_or (x ∷ xs) zero d = x
  get_or (x ∷ xs) (suc i) d = get_or xs i d

  abbrev pub set : List A → ℕ → A → List A
  set [] i v = []
  set (x ∷ xs) zero v = v ∷ xs
  set (x ∷ xs) (suc i) v = x ∷ set xs i v

  abbrev pub take : ℕ → List A → List A
  take zero xs = []
  take (suc n) [] = []
  take (suc n) (x ∷ xs) = x ∷ take n xs

  abbrev pub drop : ℕ → List A → List A
  drop zero xs = xs
  drop (suc n) [] = []
  drop (suc n) (x ∷ xs) = drop n xs

  abbrev pub replicate : ℕ → A → List A
  replicate zero a = []
  replicate (suc n) a = a ∷ replicate n a

  pub length-append : (xs ys : List A) → length (xs ++ ys) ≡ length xs + length ys
  length-append [] ys = omega arith
  length-append (x ∷ xs) ys = omega (arith, length-append xs ys)

  pub take-append-drop : (n : ℕ) (xs : List A) → take n xs ++ drop n xs ≡ xs
  take-append-drop zero xs = refl
  take-append-drop (suc n) [] = refl
  take-append-drop (suc n) (x ∷ xs) = rw (take-append-drop n xs)

  pub length-take : (n : ℕ) (xs : List A) → length (take n xs) ≡ min n (length xs)
  length-take zero xs = omega arith
  length-take (suc n) [] = omega arith
  length-take (suc n) (x ∷ xs) = omega (arith, length-take n xs)

  pub length-drop : (n : ℕ) (xs : List A) → length (drop n xs) ≡ length xs - n
  length-drop zero xs = omega arith
  length-drop (suc n) [] = omega arith
  length-drop (suc n) (x ∷ xs) = omega (arith, length-drop n xs)

  pub length-replicate : (n : ℕ) (a : A) → length (replicate n a) ≡ n
  length-replicate zero a = refl
  length-replicate (suc n) a = ap suc (length-replicate n a)

module _ {ℓ} {A : Type ℓ} where
  pub take-append : (xs ys : List A) → take (length xs) (xs ++ ys) ≡ xs
  take-append [] ys = refl
  take-append (x ∷ xs) ys = rw (take-append xs ys)

  pub drop-append : (xs ys : List A) → drop (length xs) (xs ++ ys) ≡ ys
  drop-append [] ys = refl
  drop-append (x ∷ xs) ys = drop-append xs ys

  -- A cut behind the end keeps all.
  pub take_of_length-le : (n : ℕ) (xs : List A) → length xs ≤ n → take n xs ≡ xs
  take_of_length-le zero [] h = refl
  take_of_length-le zero (x ∷ xs) h = absurd (omega arith)
  take_of_length-le (suc n) [] h = refl
  take_of_length-le (suc n) (x ∷ xs) h = rw (take_of_length-le n xs (omega arith))

  pub drop_of_length-le : (n : ℕ) (xs : List A) → length xs ≤ n → drop n xs ≡ []
  drop_of_length-le zero [] h = refl
  drop_of_length-le zero (x ∷ xs) h = absurd (omega arith)
  drop_of_length-le (suc n) [] h = refl
  drop_of_length-le (suc n) (x ∷ xs) h = drop_of_length-le n xs (omega arith)

-- `std::basic_string`: `none` is the exception `std::out_of_range`, thrown when the position is
-- behind the end; a count that is too large is cut.
module _ {ℓ} {A : Type ℓ} where
  unfoldable pub substr : List A → ℕ → ℕ → Option (List A)
  substr xs pos n = if ltb (length xs) pos then none else some (take n (drop pos xs))

  unfoldable pub str_erase : List A → ℕ → ℕ → Option (List A)
  str_erase xs pos n =
      if ltb (length xs) pos then none else some (take pos xs ++ drop n (drop pos xs))

  unfoldable pub str_insert : List A → ℕ → List A → Option (List A)
  str_insert xs pos ys =
      if ltb (length xs) pos then none else some (take pos xs ++ (ys ++ drop pos xs))

  pub str_erase_lem :
      (xs : List A) (pos n : ℕ)
      → pos ≤ length xs
      → str_erase xs pos n ≡ some (take pos xs ++ drop n (drop pos xs))
  unfolding str_erase
  str_erase_lem xs pos n h = ground arith

  pub str_insert_lem :
      (xs : List A) (pos : ℕ) (ys : List A)
      → pos ≤ length xs
      → str_insert xs pos ys ≡ some (take pos xs ++ (ys ++ drop pos xs))
  unfolding str_insert
  str_insert_lem xs pos ys h = ground arith

  pub length-erased :
      (xs : List A) (pos n : ℕ)
      → pos + n ≤ length xs
      → length (take pos xs ++ drop n (drop pos xs)) ≡ length xs - n
  length-erased xs pos n h = omega (
    arith,
    length-append (take pos xs) (drop n (drop pos xs)),
    length-take pos xs,
    length-drop n (drop pos xs),
    length-drop pos xs,
  )

  pub length-inserted :
      (xs : List A) (pos : ℕ) (ys : List A)
      → pos ≤ length xs
      → length (take pos xs ++ (ys ++ drop pos xs)) ≡ length xs + length ys
  length-inserted xs pos ys h = omega (
    arith,
    length-append (take pos xs) (ys ++ drop pos xs),
    length-append ys (drop pos xs),
    length-take pos xs,
    length-drop pos xs,
  )

  pub drop-drop : (m n k : ℕ) (xs : List A) → m + n ≡ k → drop n (drop m xs) ≡ drop k xs
  drop-drop zero n k xs e = let e' : n ≡ k = omega arith in rw e'
  drop-drop (suc m) zero zero xs e = absurd (omega arith)
  drop-drop (suc m) (suc n) zero xs e = absurd (omega arith)
  drop-drop (suc m) zero (suc k) [] e = refl
  drop-drop (suc m) (suc n) (suc k) [] e = refl
  drop-drop (suc m) n (suc k) (x ∷ xs) e = drop-drop m n k xs (omega arith)

  pub take-min : (n : ℕ) (xs : List A) → take (min (length xs) n) xs ≡ take n xs
  take-min n xs = elim (dec_le (length xs) n) [
    | yes h ↦
        let e : min (length xs) n ≡ length xs = omega arith in
        rw e (take_of_length-le (length xs) xs (omega arith) ∙ sym (take_of_length-le n xs h))
    | no h ↦ let e : min (length xs) n ≡ n = omega arith in rw e
  ]

  pub take-append_of_eq : (n : ℕ) (xs ys : List A) → n ≡ length xs → take n (xs ++ ys) ≡ xs
  take-append_of_eq n xs ys h = rw h (take-append xs ys)

  pub drop-append_of_eq : (n : ℕ) (xs ys : List A) → n ≡ length xs → drop n (xs ++ ys) ≡ ys
  drop-append_of_eq n xs ys h = rw h (drop-append xs ys)

  pub take_split :
      (m n k : ℕ) (xs : List A) → m + n ≡ k → take k xs ≡ take m xs ++ take n (drop m xs)
  take_split zero n k xs e = let e' : k ≡ n = omega arith in rw e'
  take_split (suc m) n zero xs e = absurd (omega arith)
  take_split (suc m) zero (suc k) [] e = refl
  take_split (suc m) (suc n) (suc k) [] e = refl
  take_split (suc m) n (suc k) (x ∷ xs) e = rw (take_split m n k xs (omega arith))

  pub take-take-drop : (n k : ℕ) (xs : List A) → take n xs ++ take k (drop n xs) ≡ take (n + k) xs
  take-take-drop n k xs = sym (take_split n k (n + k) xs refl)
