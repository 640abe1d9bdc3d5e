-- ===== src/HttpRequesting/Configure/Versions.antt =====
-- The versions of TLS that HttpRequesting.cpp knows, by their names.
use processing_common.Common.{
  ℕ, ◌≡◌, ◌≢◌, ◌∙◌, ◌⊎◌, inl, inr, refl, sym, ap, true, false, same_str, same_str_eq, same_str_self,
  Bool-cases, List, [], ◌∷◌, none, some,
}
use processing_common.HttpRequesting.Configure.{
  TlsVersion, sslv2, sslv3, tlsv1, tlsv1_0, tlsv1_1, tlsv1_2, tlsv1_3, tls_version,
}

-- The names of the versions.
abbrev pub versions : List (List ℕ × TlsVersion)
versions =
    (b'S' ∷ b'S' ∷ b'L' ∷ b'v' ∷ b'2' ∷ [], sslv2)
    ∷ (b'S' ∷ b'S' ∷ b'L' ∷ b'v' ∷ b'3' ∷ [], sslv3)
    ∷ (b'T' ∷ b'L' ∷ b'S' ∷ b'v' ∷ b'1' ∷ [], tlsv1)
    ∷ (b'T' ∷ b'L' ∷ b'S' ∷ b'v' ∷ b'1' ∷ b'.' ∷ b'0' ∷ [], tlsv1_0)
    ∷ (b'T' ∷ b'L' ∷ b'S' ∷ b'v' ∷ b'1' ∷ b'.' ∷ b'1' ∷ [], tlsv1_1)
    ∷ (b'T' ∷ b'L' ∷ b'S' ∷ b'v' ∷ b'1' ∷ b'.' ∷ b'2' ∷ [], tlsv1_2)
    ∷ (b'T' ∷ b'L' ∷ b'S' ∷ b'v' ∷ b'1' ∷ b'.' ∷ b'3' ∷ [], tlsv1_3)
    ∷ []

abbrev pub IsNamed : List ℕ → TlsVersion → List (List ℕ × TlsVersion) → Type 0
IsNamed str v [] = ⊥
IsNamed str v ((name, v') ∷ vs) = ((str ≡ name) × (v ≡ v')) ⊎ IsNamed str v vs

abbrev pub IsUnknown : List ℕ → List (List ℕ × TlsVersion) → Type 0
IsUnknown str [] = Unit {0}
IsUnknown str ((name, v') ∷ vs) = (str ≢ name) × IsUnknown str vs

abbrev AllRight : List (List ℕ × TlsVersion) → Type 0
AllRight [] = Unit {0}
AllRight ((name, v) ∷ vs) = (tls_version name ≡ some v) × AllRight vs

pub same_str-cases : (str str' : List ℕ) → (str ≡ str') ⊎ (str ≢ str')
same_str-cases str str' = elim (Bool-cases (same_str str str')) [
  | inl same ↦ inl (same_str_eq str str' same)
  | inr other ↦ inr (λ eq.
      let self : same_str str str' ≡ true = ap (λ x. same_str x str') eq ∙ same_str_self str' in
      absurd cc)
]

same_str_ne : (str str' : List ℕ) → str ≢ str' → same_str str str' ≡ false
same_str_ne str str' ne = elim (Bool-cases (same_str str str')) [
  | inl same ↦ absurd (ne (same_str_eq str str' same))
  | inr other ↦ other
]

pub IsNamed-cases :
    (str : List ℕ) (vs : List (List ℕ × TlsVersion))
    → ((v : TlsVersion) × IsNamed str v vs) ⊎ IsUnknown str vs
IsNamed-cases str [] = inr tt
IsNamed-cases str ((name, v') ∷ vs) = elim (same_str-cases str name) [
  | inl same ↦ inl (v', inl (same, refl))
  | inr other ↦ elim (IsNamed-cases str vs) [
    | inl (v, named) ↦ inl (v, inr named)
    | inr unknown ↦ inr (other, unknown)
  ]
]

named_right :
    (str : List ℕ) (v : TlsVersion) (vs : List (List ℕ × TlsVersion))
    → AllRight vs
    → IsNamed str v vs
    → tls_version str ≡ some v
named_right str v [] rights named = absurd named
named_right str v ((name, v') ∷ vs) (right, rights) (inl (same, eq)) =
    ap tls_version same ∙ right ∙ ap some (sym eq)
named_right str v ((name, v') ∷ vs) (right, rights) (inr named) = named_right str v vs rights named

pub tls_version-IsNamed :
    (str : List ℕ) (v : TlsVersion) → IsNamed str v versions → tls_version str ≡ some v
unfolding tls_version same_str
tls_version-IsNamed str v named =
    named_right str v versions (refl, (refl, (refl, (refl, (refl, (refl, (refl, tt))))))) named

pub tls_version-IsUnknown : (str : List ℕ) → IsUnknown str versions → tls_version str ≡ none
unfolding tls_version
tls_version-IsUnknown str (n1, (n2, (n3, (n4, (n5, (n6, (n7, u))))))) =
    rw
      (
        same_str_ne str _ n1,
        same_str_ne str _ n2,
        same_str_ne str _ n3,
        same_str_ne str _ n4,
        same_str_ne str _ n5,
        same_str_ne str _ n6,
        same_str_ne str _ n7,
      )
      refl
