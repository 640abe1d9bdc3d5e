-- ===== src/LibDspc/Url/Parts.antt =====
-- A URL of all five parts is taken apart into these.
use processing_common.Common.{
  ℕ, zero, suc, ◌+◌, ◌<◌, ◌≤◌, ◌^◌, ◌≡◌, ◌∙◌, refl, sym, ap, arith, true, false, ltb, ◌==◌, u16,
  sub64, List, [], ◌∷◌, ◌++◌, append_assoc, none, some, length, take, drop, get_or, find_last_of,
  find_last_of-append, length-append, take-append_of_eq, drop-append_of_eq,
}
use processing_common.LibDspc.Strings.{find, is_prefix}
use processing_common.LibDspc.Strings.Split.{Lacks}
use processing_common.LibDspc.Url.{
  UrlParts, before, substr, scheme, shifted, last_colon, url_to_parts,
}

Lacks-append : (ch : ℕ) (xs ys : List ℕ) → Lacks ch xs → Lacks ch ys → Lacks ch (xs ++ ys)
Lacks-append ch [] ys l l' = l'
Lacks-append ch (x ∷ xs) ys (now, l) l' = (now, Lacks-append ch xs ys l l')

pub find-scheme :
    (p rest : List ℕ) → Lacks b':' p → find scheme (p ++ (scheme ++ rest)) ≡ some (length p)
unfolding find is_prefix
find-scheme [] rest l = refl
find-scheme (c ∷ p) rest (now, l) =
    let ne : (b':' == c) ≡ false = ground arith in rw (ne, find-scheme p rest l) refl

find-char :
    (ch : ℕ) (xs rest : List ℕ)
    → Lacks ch xs
    → find (ch ∷ []) (xs ++ (ch ∷ rest)) ≡ some (length xs)
unfolding find is_prefix
find-char ch [] rest l = let eq : (ch == ch) ≡ true = ground arith in rw eq refl
find-char ch (c ∷ xs) rest (now, l) =
    let ne : (ch == c) ≡ false = ground arith in rw (ne, find-char ch xs rest l) refl

last-none : (ch : ℕ) (str : List ℕ) → Lacks ch str → find_last_of ch str ≡ none
unfolding find_last_of
last-none ch [] l = refl
last-none ch (c ∷ str) (now, l) = rw (last-none ch str l, now) refl

last_here : (ch : ℕ) (str : List ℕ) → Lacks ch str → find_last_of ch (ch ∷ str) ≡ some 0
unfolding find_last_of
last_here ch str l = let eq : (ch == ch) ≡ true = ground arith in rw (last-none ch str l, eq) refl

pub substr_lem :
    (front mid back url : List ℕ) (pos len : ℕ)
    → url ≡ front ++ (mid ++ back)
    → pos ≡ length front
    → len ≡ length mid
    → substr pos len url ≡ mid
substr_lem front mid back url pos len h at size =
    ap (substr pos len) h
    ∙ ap (take len) (drop-append_of_eq pos front (mid ++ back) at)
    ∙ take-append_of_eq len mid back size

Lacks-at :
    (ch : ℕ) (q back : List ℕ) (i : ℕ)
    → i < length q
    → Lacks ch q
    → (get_or (q ++ back) i 0 == ch) ≡ false
Lacks-at ch [] back i h l = absurd (omega arith)
Lacks-at ch (c ∷ q) back zero h (now, l) = now
Lacks-at ch (c ∷ q) back (suc i) h (now, l) = Lacks-at ch q back i (omega arith) l

get_or-front :
    (front ys : List ℕ) (i j : ℕ) → i ≡ length front + j → get_or (front ++ ys) i 0 ≡ get_or ys j 0
get_or-front [] ys i j h = let eq : i ≡ j = omega arith in ap (λ k. get_or ys k 0) eq
get_or-front (x ∷ front) ys zero j h = absurd (omega arith)
get_or-front (x ∷ front) ys (suc i) j h = get_or-front front ys i j (omega arith)

last_colon_lem :
    (front q back : List ℕ) (left i j : ℕ)
    → left < length front
    → i ≡ length front + j
    → j ≤ length q
    → Lacks b':' q
    → last_colon (front ++ (b':' ∷ (q ++ back))) left i ≡ some (length front)
unfolding last_colon
last_colon_lem front q back left zero j low at inside l = absurd (omega arith)
last_colon_lem front q back left (suc i) zero low at inside l =
    let over : ltb left (suc i) ≡ true = ground arith in
    let here : get_or (front ++ (b':' ∷ (q ++ back))) (suc i) 0 ≡ b':' =
      get_or-front front (b':' ∷ (q ++ back)) (suc i) 0 at in
    let same : suc i ≡ length front = omega arith in simp (over, here) (ap some same)
last_colon_lem front q back left (suc i) (suc j) low at inside l =
    let over : ltb left (suc i) ≡ true = ground arith in
    let other : (get_or (front ++ (b':' ∷ (q ++ back))) (suc i) 0 == b':') ≡ false =
      ap (λ c. c == b':') (get_or-front front (b':' ∷ (q ++ back)) (suc i) (suc j) at)
      ∙ Lacks-at b':' q back j (omega arith) l in
    simp (over, other) (last_colon_lem front q back left i j low (omega arith) (omega arith) l)

pub before_lem : (n m : ℕ) → n ≡ suc m → before n ≡ m
before_lem zero m h = absurd (omega arith)
before_lem (suc n) m h = omega arith

pub sub_lem : (r f n : ℕ) → r ≡ f + n → r < 2 ^ 64 → sub64 r f ≡ n
sub_lem r f n h fits = omega arith

-- The parts, by the four positions.
abbrev pub parts_at : (List ℕ → ℕ) → List ℕ → ℕ → ℕ → ℕ → ℕ → UrlParts
parts_at atoi url f₁ f₂ f₃ f₄ = record {
  protocol = take f₁ url;
  host = substr (f₁ + 3) (sub64 (before f₄ + 1) (f₁ + 3)) url;
  port = u16 (atoi (substr (f₄ + 1) (sub64 (before f₃) f₄) url));
  path = substr (f₃ + 1) (sub64 (before f₂) f₃) url;
  queries = substr (f₂ + 1) (sub64 (before (length url)) f₂) url;
}

pub found_parts :
    (atoi : List ℕ → ℕ) (url : List ℕ) (f₁ f₂ f₃ f₄ : ℕ)
    → find scheme url ≡ some f₁
    → find_last_of b'?' url ≡ some f₂
    → shifted (f₁ + 3) (find (b'/' ∷ []) (drop (f₁ + 3) url)) ≡ some f₃
    → last_colon url (f₁ + 3) (before f₃) ≡ some f₄
    → url_to_parts atoi url ≡ parts_at atoi url f₁ f₂ f₃ f₄
unfolding url_to_parts
found_parts atoi url f₁ f₂ f₃ f₄ e₁ e₂ e₃ e₄ = simp (e₁, e₂, e₃, e₄)

pub same_parts :
    (atoi : List ℕ → ℕ) (r : UrlParts) (p h q a s : List ℕ)
    → r.protocol ≡ p
    → r.host ≡ h
    → r.port ≡ u16 (atoi q)
    → r.path ≡ a
    → r.queries ≡ s
    → r ≡ record { protocol = p; host = h; port = u16 (atoi q); path = a; queries = s }
same_parts atoi r p h q a s e₁ e₂ e₃ e₄ e₅ = rw (← e₁, ← e₂, ← e₃, ← e₄, ← e₅) refl

abbrev pub url_of : List ℕ → List ℕ → List ℕ → List ℕ → List ℕ → List ℕ
url_of p h q a s = p ++ (scheme ++ (h ++ (b':' ∷ (q ++ (b'/' ∷ (a ++ (b'?' ∷ s)))))))

module _ (p h q a s : List ℕ) where
  pub at_query :
      Lacks b'?' s
      → find_last_of b'?' (url_of p h q a s)
        ≡ some (length p + (3 + (length h + (1 + (length q + (1 + (length a + 0)))))))
  at_query l = find_last_of-append b'?' p _ _ (
      find_last_of-append b'?' scheme _ _ (
        find_last_of-append b'?' h _ _ (
          find_last_of-append b'?' (b':' ∷ []) _ _ (
            find_last_of-append b'?' q _ _ (
              find_last_of-append b'?' (b'/' ∷ []) _ _
                (find_last_of-append b'?' a _ _ (last_here b'?' s l)))))))

  pub length-url_of :
      length (url_of p h q a s)
      ≡ length p + (3 + (length h + (1 + (length q + (1 + (length a + (1 + length s)))))))
  length-url_of = simp length-append (omega arith)

  pub at_path :
      Lacks b'/' h
      → Lacks b'/' q
      → shifted (length p + 3) (find (b'/' ∷ []) (drop (length p + 3) (url_of p h q a s)))
        ≡ some (length p + 3 + length (h ++ (b':' ∷ q)))
  at_path l l' =
      let rest = h ++ (b':' ∷ (q ++ (b'/' ∷ (a ++ (b'?' ∷ s))))) in
      let tail = b'/' ∷ (a ++ (b'?' ∷ s)) in
      let whole : url_of p h q a s ≡ (p ++ scheme) ++ rest = sym (append_assoc p scheme rest) in
      let joined : rest ≡ (h ++ (b':' ∷ q)) ++ tail = sym (append_assoc h (b':' ∷ q) tail) in
      let dropped : drop (length p + 3) (url_of p h q a s) ≡ rest =
        ap (drop (length p + 3)) whole
        ∙ drop-append_of_eq (length p + 3) (p ++ scheme) rest
            (omega (arith, length-append p scheme)) in
      ap (λ r. shifted (length p + 3) (find (b'/' ∷ []) r)) (dropped ∙ joined)
      ∙ ap (shifted (length p + 3)) (
          find-char b'/' (h ++ (b':' ∷ q)) (a ++ (b'?' ∷ s))
            (Lacks-append b'/' h (b':' ∷ q) l (refl, l')))

  pub at_port :
      0 < length h
      → Lacks b':' q
      → last_colon
          (url_of p h q a s)
          (length p + 3)
          (before (length p + 3 + length (h ++ (b':' ∷ q))))
        ≡ some (length ((p ++ scheme) ++ h))
  at_port some_host l =
      let front = (p ++ scheme) ++ h in
      let back = b'/' ∷ (a ++ (b'?' ∷ s)) in
      let whole : url_of p h q a s ≡ front ++ (b':' ∷ (q ++ back)) =
        sym (append_assoc p scheme (h ++ (b':' ∷ (q ++ back))))
        ∙ sym (append_assoc (p ++ scheme) h (b':' ∷ (q ++ back))) in
      let size : length front ≡ length p + 3 + length h =
        omega (arith, length-append (p ++ scheme) h, length-append p scheme) in
      let last : before (length p + 3 + length (h ++ (b':' ∷ q))) ≡ length front + length q =
        before_lem (length p + 3 + length (h ++ (b':' ∷ q))) (length front + length q)
          (omega (arith, length-append h (b':' ∷ q))) in
      ap (λ u. last_colon u (length p + 3) (before (length p + 3 + length (h ++ (b':' ∷ q))))) whole
      ∙ last_colon_lem front q back (length p + 3)
          (before (length p + 3 + length (h ++ (b':' ∷ q)))) (length q) (omega arith) last
          (omega arith) l
