-- ===== src/LibDspc/Url/Roundtrip.antt =====
-- A URL of all five parts is taken apart into these.
use processing_common.Common.{
  ℕ, ◌+◌, ◌<◌, ◌^◌, ◌≡◌, ◌∙◌, ap, arith, u16, sub64, List, [], ◌∷◌, ◌++◌, append_assoc, append-nil,
  length, length-append, take-append,
}
use processing_common.LibDspc.Strings.Split.{Lacks}
use processing_common.LibDspc.Url.{url_to_parts, before, scheme, substr}
use processing_common.LibDspc.Url.Parts.{
  url_of, parts_at, find-scheme, at_query, at_path, at_port, length-url_of, found_parts, same_parts,
  substr_lem, before_lem, sub_lem,
}

abbrev query_at : List ℕ → List ℕ → List ℕ → List ℕ → ℕ
query_at p h q a = length p + (3 + (length h + (1 + (length q + (1 + (length a + 0))))))

abbrev path_at : List ℕ → List ℕ → List ℕ → ℕ
path_at p h q = length p + 3 + length (h ++ (b':' ∷ q))

abbrev port_at : List ℕ → List ℕ → ℕ
port_at p h = length ((p ++ scheme) ++ h)

module _ (p h q a s : List ℕ) (fits : length (url_of p h q a s) < 2 ^ 64) where
  size : length (url_of p h q a s) ≡ query_at p h q a + 1 + length s
  size = omega (arith, length-url_of p h q a s)

  path_size : path_at p h q ≡ length p + 3 + length h + 1 + length q
  path_size = omega (arith, length-append h (b':' ∷ q))

  port_size : port_at p h ≡ length p + 3 + length h
  port_size = omega (arith, length-append (p ++ scheme) h, length-append p scheme)

  host_part :
      substr (length p + 3) (sub64 (before (port_at p h) + 1) (length p + 3)) (url_of p h q a s) ≡ h
  host_part =
      let last : before (port_at p h) ≡ length p + 2 + length h =
        before_lem (port_at p h) (length p + 2 + length h) (omega (arith, port_size)) in
      substr_lem (p ++ scheme) h (b':' ∷ (q ++ (b'/' ∷ (a ++ (b'?' ∷ s))))) (url_of p h q a s)
        (length p + 3) (sub64 (before (port_at p h) + 1) (length p + 3)) (simp append_assoc)
        (omega (arith, length-append p scheme))
        (sub_lem (before (port_at p h) + 1) (length p + 3) (length h) (omega (arith, last))
          (omega (arith, size, fits, last)))

  port_part :
      substr (port_at p h + 1) (sub64 (before (path_at p h q)) (port_at p h)) (url_of p h q a s) ≡ q
  port_part =
      let last : before (path_at p h q) ≡ length p + 3 + length h + length q =
        before_lem (path_at p h q) (length p + 3 + length h + length q)
          (omega (arith, path_size)) in
      let front = ((p ++ scheme) ++ h) ++ (b':' ∷ []) in
      substr_lem front q (b'/' ∷ (a ++ (b'?' ∷ s))) (url_of p h q a s) (port_at p h + 1)
        (sub64 (before (path_at p h q)) (port_at p h)) (simp append_assoc)
        (omega (arith, length-append ((p ++ scheme) ++ h) (b':' ∷ [])))
        (sub_lem (before (path_at p h q)) (port_at p h) (length q) (omega (arith, last, port_size))
          (omega (arith, size, fits, last)))

  path_part :
      substr
        (path_at p h q + 1)
        (sub64 (before (query_at p h q a)) (path_at p h q))
        (url_of p h q a s)
      ≡ a
  path_part =
      let last : before (query_at p h q a) ≡ length p + 3 + length h + 1 + length q + length a =
        before_lem (query_at p h q a) (length p + 3 + length h + 1 + length q + length a)
          (omega arith) in
      let front = (p ++ scheme) ++ ((h ++ (b':' ∷ q)) ++ (b'/' ∷ [])) in
      substr_lem front a (b'?' ∷ s) (url_of p h q a s) (path_at p h q + 1)
        (sub64 (before (query_at p h q a)) (path_at p h q)) (simp append_assoc)
        (omega (
          arith,
          length-append (p ++ scheme) ((h ++ (b':' ∷ q)) ++ (b'/' ∷ [])),
          length-append p scheme,
          length-append (h ++ (b':' ∷ q)) (b'/' ∷ []),
        ))
        (sub_lem (before (query_at p h q a)) (path_at p h q) (length a)
          (omega (arith, last, path_size)) (omega (arith, size, fits, last)))

  query_part :
      substr
        (query_at p h q a + 1)
        (sub64 (before (length (url_of p h q a s))) (query_at p h q a))
        (url_of p h q a s)
      ≡ s
  query_part =
      let last : before (length (url_of p h q a s)) ≡ query_at p h q a + length s =
        before_lem (length (url_of p h q a s)) (query_at p h q a + length s)
          (omega (arith, size)) in
      let front = (p ++ scheme) ++ ((h ++ (b':' ∷ q)) ++ ((b'/' ∷ a) ++ (b'?' ∷ []))) in
      substr_lem front s [] (url_of p h q a s) (query_at p h q a + 1)
        (sub64 (before (length (url_of p h q a s))) (query_at p h q a))
        (simp (append_assoc, append-nil)) (simp length-append (omega arith))
        (sub_lem (before (length (url_of p h q a s))) (query_at p h q a) (length s) last
          (omega (arith, size, fits, last)))

-- `urlToParts` of a URL with all five parts gives these parts back, the port as a number of 16
-- bits: for a protocol and a port without ':', a host that is not empty, host and port without '/',
-- queries without '?', any path, and a size that fits in 64 bits.
pub url_to_parts-url_of :
    (atoi : List ℕ → ℕ) (p h q a s : List ℕ)
    → Lacks b':' p
    → 0 < length h
    → Lacks b'/' h
    → Lacks b'/' q
    → Lacks b':' q
    → Lacks b'?' s
    → length (url_of p h q a s) < 2 ^ 64
    → url_to_parts atoi (url_of p h q a s)
      ≡ record { protocol = p; host = h; port = u16 (atoi q); path = a; queries = s }
url_to_parts-url_of atoi p h q a s lp some_host lh lq lq' ls fits =
    let r =
      parts_at atoi (url_of p h q a s) (length p) (query_at p h q a) (path_at p h q)
        (port_at p h) in
    found_parts atoi (url_of p h q a s) (length p) (query_at p h q a) (path_at p h q) (port_at p h)
      (find-scheme p (h ++ (b':' ∷ (q ++ (b'/' ∷ (a ++ (b'?' ∷ s)))))) lp) (at_query p h q a s ls)
      (at_path p h q a s lh lq) (at_port p h q a s some_host lq')
    ∙ same_parts atoi r p h q a s
        (take-append p (scheme ++ (h ++ (b':' ∷ (q ++ (b'/' ∷ (a ++ (b'?' ∷ s))))))))
        (host_part p h q a s fits) (ap (λ t. u16 (atoi t)) (port_part p h q a s fits))
        (path_part p h q a s fits) (query_part p h q a s fits)
