-- ===== src/KeyUser/Utf8/Roundtrip.antt =====
-- What `utfToStr` writes, `strToUtf` reads back.
use processing_common.Common.{
  zero, suc, take, drop, replicate, ℕ, ◌+◌, ◌*◌, ◌/◌, ◌%◌, ◌<◌, ◌≤◌, ◌≡◌, refl, inl, inr, true,
  List, [], ◌∷◌, ◌++◌, some, arith, Option-cases, ◌∙◌, ap,
}
use mathlib.Core.Option
use native.Mathlib.Decide.{dec_lt}
use processing_common.KeyUser.Utf8.{
  is_scalar, encode, utf_to_str, Partial, between, decode_byte, decode_from, str_to_utf,
}

abbrev partial : ℕ → ℕ → ℕ → Partial
partial due bits least = record { due = due; bits = bits; least = least }

decode_from-mute :
    (p q : Partial) (b : ℕ) (str : List ℕ)
    → decode_byte p b ≡ some (q, [])
    → decode_from p (b ∷ str) ≡ decode_from q str
unfolding decode_from
decode_from-mute p q b str h = elim (Option-cases (decode_from q str)) [
  | inl e ↦ rw (h, decode_from) (rw e)
  | inr (r, e) ↦ rw (h, decode_from) (rw e)
]

decode_from-emit :
    (p q : Partial) (b c : ℕ) (str : List ℕ)
    → decode_byte p b ≡ some (q, c ∷ [])
    → decode_from p (b ∷ str) ≡ Option.map (λ rest. c ∷ rest) (decode_from q str)
unfolding decode_from
decode_from-emit p q b c str h = rw (h, decode_from)

decode_lead_two : (x : ℕ) → x < 32 → decode_byte between (0xc0 + x) ≡ some (partial 1 x 0x80, [])
unfolding decode_byte
decode_lead_two x h = ground arith

decode_lead_three : (x : ℕ) → x < 16 → decode_byte between (0xe0 + x) ≡ some (partial 2 x 0x800, [])
unfolding decode_byte
decode_lead_three x h = ground arith

decode_lead_four : (x : ℕ) → x < 8 → decode_byte between (0xf0 + x) ≡ some (partial 3 x 0x10000, [])
unfolding decode_byte
decode_lead_four x h = ground arith

decode_more_due :
    (n x y least : ℕ)
    → y < 64
    → decode_byte (partial (n + 2) x least) (0x80 + y)
      ≡ some (partial (n + 1) (x * 64 + y) least, [])
unfolding decode_byte
decode_more_due n x y least h = ground arith

decode_more_last :
    (x y least c : ℕ)
    → y < 64
    → x * 64 + y ≡ c
    → least ≤ c
    → is_scalar c ≡ true
    → decode_byte (partial 1 x least) (0x80 + y) ≡ some (between, c ∷ [])
unfolding decode_byte
decode_more_last x y least c h e l s = ground arith

abbrev Decodes : ℕ → Type 0
Decodes c =
    (str : List ℕ)
    → decode_from between (encode c ++ str)
      ≡ Option.map (λ rest. c ∷ rest) (decode_from between str)

decode_one : (c : ℕ) → c < 0x80 → Decodes c
unfolding encode decode_byte
decode_one c h str =
    let e : encode c ≡ c ∷ [] = ground arith in
    rw e (decode_from-emit between between c c str (ground arith))

decode_two : (c : ℕ) → 0x80 ≤ c → c < 0x800 → is_scalar c ≡ true → Decodes c
unfolding encode
decode_two c h k s str =
    let e : encode c ≡ (0xc0 + c / 64) ∷ (0x80 + c % 64) ∷ [] = ground arith in
    rw e (
      decode_from-mute between (partial 1 (c / 64) 0x80) _ _
        (decode_lead_two (c / 64) (omega arith))
      ∙ decode_from-emit _ between _ c str
          (decode_more_last (c / 64) (c % 64) 0x80 c (omega arith) (omega arith) h s))

decode_three : (c : ℕ) → 0x800 ≤ c → c < 0x10000 → is_scalar c ≡ true → Decodes c
unfolding encode
decode_three c h k s str =
    let x = c / 4096 in
    let y = c / 64 % 64 in
    let e : encode c ≡ (0xe0 + x) ∷ (0x80 + y) ∷ (0x80 + c % 64) ∷ [] = ground arith in
    rw e (
      decode_from-mute between (partial 2 x 0x800) _ _ (decode_lead_three x (omega arith))
      ∙ decode_from-mute _ (partial 1 (x * 64 + y) 0x800) _ _
          (decode_more_due 0 x y 0x800 (omega arith))
      ∙ decode_from-emit _ between _ c str
          (decode_more_last (x * 64 + y) (c % 64) 0x800 c (omega arith) (omega arith) h s))

decode_four : (c : ℕ) → 0x10000 ≤ c → c < 0x110000 → is_scalar c ≡ true → Decodes c
unfolding encode
decode_four c h k s str =
    let x = c / 262144 in
    let y = c / 4096 % 64 in
    let z = c / 64 % 64 in
    let e : encode c ≡ (0xf0 + x) ∷ (0x80 + y) ∷ (0x80 + z) ∷ (0x80 + c % 64) ∷ [] = ground arith in
    rw e (
      decode_from-mute between (partial 3 x 0x10000) _ _ (decode_lead_four x (omega arith))
      ∙ decode_from-mute _ (partial 2 (x * 64 + y) 0x10000) _ _
          (decode_more_due 1 x y 0x10000 (omega arith))
      ∙ decode_from-mute _ (partial 1 ((x * 64 + y) * 64 + z) 0x10000) _ _
          (decode_more_due 0 (x * 64 + y) z 0x10000 (omega arith))
      ∙ decode_from-emit _ between _ c str (
          decode_more_last ((x * 64 + y) * 64 + z) (c % 64) 0x10000 c (omega arith) (omega arith) h
            s))

is_scalar-lt : (c : ℕ) → is_scalar c ≡ true → c < 0x110000
unfolding is_scalar
is_scalar-lt c h = ground arith

decode_from-encode : (c : ℕ) → is_scalar c ≡ true → Decodes c
decode_from-encode c s = elim (dec_lt c 0x80) [
  | yes h ↦ decode_one c h
  | no g ↦ elim (dec_lt c 0x800) [
    | yes h ↦ decode_two c (omega arith) h s
    | no g₂ ↦ elim (dec_lt c 0x10000) [
      | yes h ↦ decode_three c (omega arith) h s
      | no g₃ ↦ decode_four c (omega arith) (is_scalar-lt c s) s
    ]
  ]
]

abbrev pub AllScalar : List ℕ → Type 0
AllScalar [] = Unit {0}
AllScalar (c ∷ ustr) = (is_scalar c ≡ true) × AllScalar ustr

pub AllScalar-append : (us vs : List ℕ) → AllScalar us → AllScalar vs → AllScalar (us ++ vs)
AllScalar-append [] vs h k = k
AllScalar-append (u ∷ us) vs h k = (h.0, AllScalar-append us vs h.1 k)

pub AllScalar-take : (n : ℕ) (us : List ℕ) → AllScalar us → AllScalar (take n us)
AllScalar-take zero us h = tt
AllScalar-take (suc n) [] h = tt
AllScalar-take (suc n) (u ∷ us) h = (h.0, AllScalar-take n us h.1)

pub AllScalar-replicate : (n c : ℕ) → is_scalar c ≡ true → AllScalar (replicate n c)
AllScalar-replicate zero c h = tt
AllScalar-replicate (suc n) c h = (h, AllScalar-replicate n c h)

pub AllScalar-drop : (n : ℕ) (us : List ℕ) → AllScalar us → AllScalar (drop n us)
AllScalar-drop zero us h = h
AllScalar-drop (suc n) [] h = tt
AllScalar-drop (suc n) (u ∷ us) h = AllScalar-drop n us h.1

pub to_bytes : List ℕ → List ℕ
to_bytes [] = []
to_bytes (c ∷ ustr) = encode c ++ to_bytes ustr

-- Every text of valid code points is written, as the encodings of its code points in order.
pub utf_to_str-to_bytes : (ustr : List ℕ) → AllScalar ustr → utf_to_str ustr ≡ some (to_bytes ustr)
unfolding utf_to_str to_bytes
utf_to_str-to_bytes [] h = refl
utf_to_str-to_bytes (c ∷ ustr) h = rw (h.0, utf_to_str-to_bytes ustr h.1)

decode_from-to_bytes :
    (ustr : List ℕ) → AllScalar ustr → decode_from between (to_bytes ustr) ≡ some ustr
unfolding to_bytes
decode_from-to_bytes [] h = unfold decode_from in refl
decode_from-to_bytes (c ∷ ustr) h =
    decode_from-encode c h.0 (to_bytes ustr)
    ∙ ap (Option.map (λ rest. c ∷ rest)) (decode_from-to_bytes ustr h.1)

-- `utfToStr` writes every text of valid code points without an exception, and `strToUtf` reads the
-- same text back.
pub str_to_utf-utf_to_str :
    (ustr : List ℕ)
    → AllScalar ustr
    → (str : List ℕ) × (utf_to_str ustr ≡ some str) × (str_to_utf str ≡ some ustr)
unfolding str_to_utf
str_to_utf-utf_to_str ustr h =
    (to_bytes ustr, utf_to_str-to_bytes ustr h, decode_from-to_bytes ustr h)
