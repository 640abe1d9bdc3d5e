-- ===== src/LibFilesys/Flags.antt =====
-- What the locking of flags promises, and what the unlocking keeps.
use processing_common.Common.{
  ℕ, ◌≡◌, ◌∙◌, refl, sym, ap, Bool, true, false, ◌||◌, if◌then◌else◌, same_str, same_str_self,
  same_str_eq, List, [], ◌∷◌, Bool-cases, inl, inr,
}
use processing_common.LibFilesys.{
  has, without, pending, positive, taken, Locks, any_flag, all_free, files_made, flags_lock,
  sys_flags_int_lock, unlock_loop, sys_flags_int_unlock,
}

or_true : (b : Bool) → b || true ≡ true
or_true true = refl
or_true false = refl

files_made-old :
    (create : List ℕ → Bool) (names flags : List (List ℕ)) (name : List ℕ)
    → has name flags ≡ true
    → has name (files_made create names flags) ≡ true
unfolding files_made has
files_made-old create [] flags name h = h
files_made-old create (n ∷ names) flags name h =
    files_made-old create names (if create n then n ∷ flags else flags) name
      (elim (Bool-cases (create n)) [
        | inl made ↦ rw made (rw h (or_true (same_str n name)))
        | inr failed ↦ rw failed h
      ])

files_made-new :
    (create : List ℕ → Bool) (names flags : List (List ℕ)) (name : List ℕ)
    → ((n : List ℕ) → create n ≡ true)
    → has name names ≡ true
    → has name (files_made create names flags) ≡ true
unfolding files_made has
files_made-new create [] flags name all h = absurd cc
files_made-new create (n ∷ names) flags name all h = elim (Bool-cases (same_str n name)) [
  | inl same ↦
      files_made-old create names (if create n then n ∷ flags else flags) name
        (rw (all n) (rw same refl))
  | inr other ↦
      files_made-new create names (if create n then n ∷ flags else flags) name all
        (sym (ap (λ b. b || has name names) other) ∙ h)
]

any_flag-has :
    (names flags : List (List ℕ)) (name : List ℕ)
    → has name names ≡ true
    → has name flags ≡ true
    → any_flag names flags ≡ true
unfolding any_flag has
any_flag-has [] flags name h there = absurd cc
any_flag-has (n ∷ names) flags name h there = elim (Bool-cases (same_str n name)) [
  | inl same ↦
      let now : has n flags ≡ true = ap (λ x. has x flags) (same_str_eq n name same) ∙ there in
      rw now refl
  | inr other ↦
      rw (any_flag-has names flags name (sym (ap (λ b. b || has name names) other) ∙ h) there)
        (or_true (has n flags))
]

busy_lem :
    (create : List ℕ → Bool) (names : List (List ℕ)) (l : Locks) (name : List ℕ)
    → has name names ≡ true
    → has name l.flags ≡ true
    → sys_flags_int_lock true create taken names l ≡ (l, pending)
unfolding sys_flags_int_lock flags_lock all_free
busy_lem create names l name h there = rw (any_flag-has names l.flags name h there) refl

locked_flags :
    (create : List ℕ → Bool) (names : List (List ℕ)) (l : Locks)
    → (sys_flags_int_lock true create taken names l).1 ≡ positive
    → (sys_flags_int_lock true create taken names l).0.flags ≡ files_made create names l.flags
unfolding sys_flags_int_lock flags_lock
locked_flags create names l h = elim (Bool-cases (all_free names l.flags)) [
  | inl free ↦ simp free
  | inr busy ↦ let no : pending ≡ positive = simp busy at h in absurd cc
]

-- Where a lock of flags has succeeded and all their files could be created, another client that
-- sees these files and asks for one of the flags is told to wait, and nothing of its state changes.
pub sys_flags_int_lock_excludes :
    (create create' : List ℕ → Bool) (names names' : List (List ℕ)) (l other : Locks)
    (name : List ℕ)
    → ((n : List ℕ) → create n ≡ true)
    → (sys_flags_int_lock true create taken names l).1 ≡ positive
    → other.flags ≡ (sys_flags_int_lock true create taken names l).0.flags
    → has name names ≡ true
    → has name names' ≡ true
    → sys_flags_int_lock true create' taken names' other ≡ (other, pending)
sys_flags_int_lock_excludes create create' names names' l other name all ok shared h h' =
    busy_lem create' names' other name h' (
      ap (has name) (shared ∙ locked_flags create names l ok)
      ∙ files_made-new create names l.flags name all h)

without-other :
    (name name' : List ℕ) (names : List (List ℕ))
    → same_str name name' ≡ false
    → has name' names ≡ true
    → has name' (without name names) ≡ true
unfolding without has
without-other name name' [] ne h = h
without-other name name' (n ∷ names) ne h = elim (Bool-cases (same_str n name)) [
  | inl same ↦
      let ne' : same_str n name' ≡ false =
        ap (λ x. same_str x name') (same_str_eq n name same) ∙ ne in
      let rest = without-other name name' names ne (sym (ap (λ b. b || has name' names) ne') ∙ h) in
      simp same rest
  | inr other ↦ elim (Bool-cases (same_str n name')) [
    | inl this ↦ simp (other, this) refl
    | inr next ↦
        simp (other, next)
          (without-other name name' names ne (sym (ap (λ b. b || has name' names) next) ∙ h))
  ]
]

has_self : (name : List ℕ) → has name (name ∷ []) ≡ true
unfolding has
has_self name = rw (same_str_self name) refl

unlock_two :
    (l : Locks) (first second : List ℕ)
    → l.user_locks ≡ first ∷ second ∷ []
    → unlock_loop l.user_locks l.flags ≡ (second ∷ [], without first l.flags, true)
unfolding unlock_loop
unlock_two l first second held = ap (λ ls. unlock_loop ls l.flags) held

-- Unlocking two different flags leaves the second: it stays in the client's list and its file
-- exists, so that a new lock of it has to wait.
pub sys_flags_int_unlock_skips :
    (create : List ℕ → Bool) (first second : List ℕ) (l : Locks)
    → l.user_locks ≡ first ∷ second ∷ []
    → same_str first second ≡ false
    → has second l.flags ≡ true
    → let l' = (sys_flags_int_unlock true l).0 in
      (l'.user_locks ≡ second ∷ [])
      × (sys_flags_int_lock true create taken (second ∷ []) l' ≡ (l', pending))
unfolding sys_flags_int_unlock
sys_flags_int_unlock_skips create first second l held ne there =
    let two = unlock_two l first second held in
    let l' : Locks = (sys_flags_int_unlock true l).0 in
    (
      ap (λ (r : List (List ℕ) × List (List ℕ) × Bool). r.0) two,
      busy_lem create (second ∷ []) l' second (has_self second) (
          ap (λ (r : List (List ℕ) × List (List ℕ) × Bool). has second r.1) two
          ∙ without-other first second l.flags ne there),
    )
