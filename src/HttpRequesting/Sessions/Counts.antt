-- ===== src/HttpRequesting/Sessions/Counts.antt =====
-- The list of sessions: what makes it well formed, and how its counters change with a node.
use processing_common.Common.{
  ℕ, suc, ◌+◌, ◌≤◌, ◌<◌, ◌≡◌, ◌∙◌, inl, inr, refl, sym, ap, arith, false, ◌==◌, if◌then◌else◌, List,
  [], ◌∷◌, none, some, length, Bool-cases,
}
use processing_common.HttpRequesting.Sessions.{
  HttpSession, is_for, session_find, changed, erased, session_at, shared_data_mtx_list_delete,
}

-- Sessions named below `n`: each has references and all its mutexes, and no other one its name or
-- its host and port.
abbrev pub AllSound : ℕ → List HttpSession → Type 0
AllSound n [] = Unit {0}
AllSound n (s ∷ ss) =
    (s.id < n)
    × (0 < s.num_references)
    × (s.num_references ≤ s.max_references)
    × (shared_data_mtx_list_delete s.shared_data_mtxs ≡ 4)
    × (session_find s.address s.port ss ≡ none)
    × (session_at s.id ss ≡ none)
    × AllSound n ss

-- The references of the sessions with a name.
abbrev pub refs_of : ℕ → List HttpSession → ℕ
refs_of id [] = 0
refs_of id (s ∷ ss) = (if s.id == id then s.num_references else 0) + refs_of id ss

pub AllSound-suc : (n : ℕ) (ss : List HttpSession) → AllSound n ss → AllSound (suc n) ss
AllSound-suc n [] h = tt
AllSound-suc n (s ∷ ss) (low, some_ref, most, whole, only, named, h) =
    (omega arith, some_ref, most, whole, only, named, AllSound-suc n ss h)

pub session_at-fresh : (n : ℕ) (ss : List HttpSession) → AllSound n ss → session_at n ss ≡ none
unfolding session_at
session_at-fresh n [] h = refl
session_at-fresh n (s ∷ ss) (low, some_ref, most, whole, only, named, h) =
    let other : (s.id == n) ≡ false = ground arith in rw other (session_at-fresh n ss h)

pub session_find-at :
    (address : List ℕ) (port id : ℕ) (ss : List HttpSession)
    → session_find address port ss ≡ some id
    → (s : HttpSession) × (session_at id ss ≡ some s)
unfolding session_find session_at
session_find-at address port id [] h = absurd cc
session_find-at address port id (s ∷ ss) h = elim (Bool-cases (s.id == id)) [
  | inl here ↦ (s, ap (λ b. if b then some s else session_at id ss) here)
  | inr there ↦
      let (t, at) = session_find-at address port id ss (ground (arith, h)) in
      (t, ap (λ b. if b then some s else session_at id ss) there ∙ at)
]

pub session_at-referenced :
    (id : ℕ) (ss : List HttpSession)
    → 0 < refs_of id ss
    → (s : HttpSession) × (session_at id ss ≡ some s)
unfolding session_at
session_at-referenced id [] h = absurd (omega arith)
session_at-referenced id (s ∷ ss) h = elim (Bool-cases (s.id == id)) [
  | inl here ↦ (s, ap (λ b. if b then some s else session_at id ss) here)
  | inr there ↦
      let (t, at) = session_at-referenced id ss (ground arith) in
      (t, ap (λ b. if b then some s else session_at id ss) there ∙ at)
]

-- What a session of a well-formed list has.
abbrev pub Referenced : ℕ → List HttpSession → HttpSession → Type 0
Referenced id ss s =
    (0 < s.num_references)
    × (s.num_references ≤ s.max_references)
    × (shared_data_mtx_list_delete s.shared_data_mtxs ≡ 4)
    × (s.num_references ≤ refs_of id ss)

pub session_at-Referenced :
    (n id : ℕ) (ss : List HttpSession) (s : HttpSession)
    → AllSound n ss
    → session_at id ss ≡ some s
    → Referenced id ss s
unfolding session_at
session_at-Referenced n id [] s h at = absurd cc
session_at-Referenced n id (t ∷ ss) s (low, some_ref, most, whole, only, named, h) at =
    elim (Bool-cases (t.id == id)) [
      | inl here ↦ ground arith
      | inr there ↦
          let (a, b, c, d) = session_at-Referenced n id ss s h (ground arith) in
          (a, b, c, ground arith)
    ]

-- A change that keeps the name, the host, the port and the mutexes of a session.
abbrev pub Keeps : (HttpSession → HttpSession) → Type 0
Keeps f =
    (s : HttpSession)
    → ((f s).id ≡ s.id)
      × ((f s).address ≡ s.address)
      × ((f s).port ≡ s.port)
      × ((f s).shared_data_mtxs ≡ s.shared_data_mtxs)

module _ (f : HttpSession → HttpSession) (keeps : Keeps f) where
  session_find-changed :
      (address : List ℕ) (port id : ℕ) (ss : List HttpSession)
      → session_find address port (changed f id ss) ≡ session_find address port ss
  unfolding session_find changed
  session_find-changed address port id [] = refl
  session_find-changed address port id (s ∷ ss) =
      let (i, a, p, m) = keeps s in
      elim (Bool-cases (s.id == id)) [
        | inl here ↦ simp (here, i, a, p)
        | inr there ↦ simp (there, session_find-changed address port id ss)
      ]

  session_at-changed :
      (i id : ℕ) (ss : List HttpSession)
      → session_at i ss ≡ none
      → session_at i (changed f id ss) ≡ none
  unfolding session_at changed
  session_at-changed i id [] h = refl
  session_at-changed i id (s ∷ ss) h =
      let (e, a, p, m) = keeps s in
      elim (Bool-cases (s.id == id)) [
        | inl here ↦ rw here (ground (arith, h))
        | inr there ↦ elim (Bool-cases (s.id == i)) [
          | inl found ↦ absurd (ground arith)
          | inr other ↦ simp (there, other, session_at-changed i id ss (ground arith))
        ]
      ]

  pub changed-AllSound :
      (n id : ℕ) (ss : List HttpSession) (s : HttpSession)
      → session_at id ss ≡ some s
      → 0 < (f s).num_references
      → (f s).num_references ≤ (f s).max_references
      → AllSound n ss
      → AllSound n (changed f id ss)
  unfolding session_at changed
  changed-AllSound n id [] s at some_ref' most' h = tt
  changed-AllSound n id (t ∷ ss) s at some_ref' most' (low, some_ref, most, whole, only, named, h) =
      let (i, a, p, m) = keeps t in
      elim (Bool-cases (t.id == id)) [
        | inl here ↦
            let same : t ≡ s = ground arith in
            rw here (
              omega arith,
              ground arith,
              ground arith,
              ap shared_data_mtx_list_delete m ∙ whole,
              simp (a, p) only,
              simp i named,
              h,
            )
        | inr there ↦ rw there (
          low,
          some_ref,
          most,
          whole,
          session_find-changed t.address t.port id ss ∙ only,
          session_at-changed t.id id ss named,
          changed-AllSound n id ss s (ground arith) some_ref' most' h,
        )
      ]

  pub refs_of-changed :
      (i id : ℕ) (ss : List HttpSession) (s : HttpSession)
      → session_at id ss ≡ some s
      → refs_of i (changed f id ss) + (if id == i then s.num_references else 0)
        ≡ (refs_of i ss + (if id == i then (f s).num_references else 0))
  unfolding session_at changed
  refs_of-changed i id [] s at = absurd cc
  refs_of-changed i id (t ∷ ss) s at =
      let (e, a, p, m) = keeps t in
      elim (Bool-cases (t.id == id)) [
        | inl here ↦ let same : t ≡ s = ground arith in rw here (ground arith)
        | inr there ↦
            let ih = refs_of-changed i id ss s (ground arith) in rw there (ground (arith, ih))
      ]

  pub length-changed : (id : ℕ) (ss : List HttpSession) → length (changed f id ss) ≡ length ss
  unfolding changed
  length-changed id [] = refl
  length-changed id (s ∷ ss) = ground (arith, length-changed id ss)

session_find-erased :
    (address : List ℕ) (port id : ℕ) (ss : List HttpSession)
    → session_find address port ss ≡ none
    → session_find address port (erased id ss) ≡ none
unfolding session_find erased
session_find-erased address port id [] h = refl
session_find-erased address port id (s ∷ ss) h = elim (Bool-cases (is_for address port s)) [
  | inl found ↦
      let no = sym (ap (λ b. if b then some s.id else session_find address port ss) found) ∙ h in
      absurd cc
  | inr other ↦
      let h' = sym (ap (λ b. if b then some s.id else session_find address port ss) other) ∙ h in
      let rest = session_find-erased address port id ss h' in
      elim (Bool-cases (s.id == id)) [
        | inl here ↦ rw here h'
        | inr there ↦ rw there (simp other rest)
      ]
]

session_at-erased :
    (i id : ℕ) (ss : List HttpSession) → session_at i ss ≡ none → session_at i (erased id ss) ≡ none
unfolding session_at erased
session_at-erased i id [] h = refl
session_at-erased i id (s ∷ ss) h = elim (Bool-cases (s.id == i)) [
  | inl found ↦ absurd (ground arith)
  | inr other ↦
      let h' : session_at i ss ≡ none = ground arith in ground (arith, session_at-erased i id ss h')
]

pub erased-AllSound : (n id : ℕ) (ss : List HttpSession) → AllSound n ss → AllSound n (erased id ss)
unfolding erased
erased-AllSound n id [] h = tt
erased-AllSound n id (s ∷ ss) (low, some_ref, most, whole, only, named, h) =
    elim (Bool-cases (s.id == id)) [
      | inl here ↦ rw here h
      | inr there ↦ rw there (
        low,
        some_ref,
        most,
        whole,
        session_find-erased s.address s.port id ss only,
        session_at-erased s.id id ss named,
        erased-AllSound n id ss h,
      )
    ]

pub refs_of-erased :
    (i id : ℕ) (ss : List HttpSession) (s : HttpSession)
    → session_at id ss ≡ some s
    → refs_of i (erased id ss) + (if id == i then s.num_references else 0) ≡ refs_of i ss
unfolding session_at erased
refs_of-erased i id [] s at = absurd cc
refs_of-erased i id (t ∷ ss) s at = elim (Bool-cases (t.id == id)) [
  | inl here ↦ let same : t ≡ s = ground arith in rw here (ground arith)
  | inr there ↦ let ih = refs_of-erased i id ss s (ground arith) in rw there (ground (arith, ih))
]

pub length-erased_node :
    (id : ℕ) (ss : List HttpSession) (s : HttpSession)
    → session_at id ss ≡ some s
    → suc (length (erased id ss)) ≡ length ss
unfolding session_at erased
length-erased_node id [] s at = absurd cc
length-erased_node id (t ∷ ss) s at = elim (Bool-cases (t.id == id)) [
  | inl here ↦ rw here refl
  | inr there ↦ rw there (ap suc (length-erased_node id ss s (ground arith)))
]
