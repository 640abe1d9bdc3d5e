-- ===== src/HttpRequesting/Configure/Options.antt =====
-- What the configuration of a request makes of its TLS version and its method.
use processing_common.Common.{
  ℕ, ◌≡◌, ◌≢◌, ◌∙◌, ◌⊎◌, inl, inr, refl, ap, Bool, true, false, if◌then◌else◌, same_str, List, [],
  ◌∷◌, ◌++◌, Option, none, some,
}
use processing_common.MailSending.{Success, positive, negative}
use processing_common.HttpRequesting.{HttpRequesting, https}
use processing_common.HttpRequesting.Configure.{
  CurlOption, ssl_verify_peer, ssl_verify_host, ssl_options, sslversion, TlsVersion, tlsv1_2, live,
  freed, Easy, destroyed, tls_wanted, tls_version, tls_options, is_post, target_options,
  headers_from, resolv_list, request_options, Lists, configured_in, configured_as,
  easy_handle_curl_configure,
}
use processing_common.HttpRequesting.Configure.Versions.{
  versions, IsNamed, IsUnknown, same_str-cases, IsNamed-cases, tls_version-IsNamed,
  tls_version-IsUnknown,
}

-- A new handle of a request.
abbrev pub fresh : Easy
fresh = record { handle = live; options = []; list_header = []; list_resolv = [] }

-- A handle with the options of TLS among those of the request.
abbrev pub ready : Lists → HttpRequesting → List CurlOption → Easy
ready lists r tls =
    let headers = headers_from lists.header 0 r.hdrs in
    let resolv = resolv_list lists.resolv r in
    record {
      handle = live;
      options = target_options r ++ (tls ++ request_options headers resolv r);
      list_header = headers;
      list_resolv = resolv;
    }

abbrev pub http : List ℕ
http = (b'h' ∷ b't' ∷ b't' ∷ b'p' ∷ [])

abbrev tls_default : List ℕ
tls_default = (b'T' ∷ b'L' ∷ b'S' ∷ b'v' ∷ b'1' ∷ b'.' ∷ b'2' ∷ [])

-- The options of a version of TLS.
abbrev pub tls_set : TlsVersion → List CurlOption
tls_set v = ssl_verify_peer 1 ∷ ssl_verify_host 0 ∷ ssl_options ∷ sslversion v ∷ []

-- The handle of a request that is configured with some options of TLS.
abbrev configured_with : Lists → HttpRequesting → Easy → List CurlOption → Easy
configured_with lists r e tls =
    let headers = headers_from lists.header 0 r.hdrs in
    let resolv = resolv_list lists.resolv r in
    record e {
      options = e.options ++ (target_options r ++ (tls ++ request_options headers resolv r));
      list_header = headers;
      list_resolv = resolv;
    }

-- The options of a configuration with a known version, or with none.
pub record IsAccepted (lists : Lists) (r : HttpRequesting) (e : Easy) (o : Option (Easy × Success))
    : Type 0 where
  pub tls : List CurlOption
  pub chosen :
      ((tls_wanted r ≡ []) × (tls ≡ []))
      ⊎ ((v : TlsVersion) × IsNamed (tls_wanted r) v versions × (tls ≡ tls_set v))
  pub result : o ≡ some (configured_with lists r e tls, positive)

-- A request whose version is neither empty nor known: its lists are freed, but it keeps the handle
-- that is freed too, and its destructor frees it once more.
pub record IsDangling (r : HttpRequesting) (o : Option (Easy × Success)) : Type 0 where
  pub some_version : tls_wanted r ≢ []
  pub unknown : IsUnknown (tls_wanted r) versions
  pub easy : Easy
  pub result : o ≡ some (easy, negative)
  pub handle : easy.handle ≡ freed
  pub list_header : easy.list_header ≡ []
  pub list_resolv : easy.list_resolv ≡ []
  pub undefined : destroyed easy ≡ none

tls_options-some :
    (str : List ℕ) (v : TlsVersion)
    → str ≢ []
    → tls_version str ≡ some v
    → tls_options str ≡ some (tls_set v)
unfolding tls_options
tls_options-some [] v some_str h = absurd (some_str refl)
tls_options-some (c ∷ str) v some_str h = rw (h, tls_options) refl

tls_options-none : (str : List ℕ) → str ≢ [] → tls_version str ≡ none → tls_options str ≡ none
unfolding tls_options
tls_options-none [] some_str h = absurd (some_str refl)
tls_options-none (c ∷ str) some_str h = rw (h, tls_options) refl

tls_options-empty : tls_options [] ≡ some []
unfolding tls_options
tls_options-empty = refl

configure_live :
    (lists : Lists) (r : HttpRequesting) (e : Easy) (o : Option (List CurlOption))
    → e.handle ≡ live
    → tls_options (tls_wanted r) ≡ o
    → easy_handle_curl_configure lists r e ≡ some (configured_as lists r e o)
unfolding easy_handle_curl_configure
configure_live lists r e o at eq =
    ap (λ h. configured_in h lists r e) at ∙ ap (λ o. some (configured_as lists r e o)) eq

configured_as-some :
    (lists : Lists) (r : HttpRequesting) (e : Easy) (tls : List CurlOption)
    → configured_as lists r e (some tls) ≡ (configured_with lists r e tls, positive)
unfolding configured_as
configured_as-some lists r e tls = refl

dangling :
    (lists : Lists) (r : HttpRequesting) (e : Easy)
    → e.handle ≡ live
    → tls_wanted r ≢ []
    → IsUnknown (tls_wanted r) versions
    → IsDangling r (easy_handle_curl_configure lists r e)
unfolding configured_as destroyed
dangling lists r e at some_version unknown = record {
  some_version = some_version;
  unknown = unknown;
  easy = (configured_as lists r e none).0;
  result =
      configure_live lists r e none at (
        tls_options-none (tls_wanted r) some_version
          (tls_version-IsUnknown (tls_wanted r) unknown));
  handle = refl;
  list_header = refl;
  list_resolv = refl;
  undefined = refl;
}

accepted :
    (lists : Lists) (r : HttpRequesting) (e : Easy) (v : TlsVersion)
    → e.handle ≡ live
    → tls_wanted r ≢ []
    → IsNamed (tls_wanted r) v versions
    → IsAccepted lists r e (easy_handle_curl_configure lists r e)
accepted lists r e v at some_version named = record {
  tls = tls_set v;
  chosen = inr (v, named, refl);
  result =
      configure_live lists r e (some (tls_set v)) at (
        tls_options-some (tls_wanted r) v some_version (tls_version-IsNamed (tls_wanted r) v named))
      ∙ ap some (configured_as-some lists r e (tls_set v));
}

-- With a live handle, whatever options and lists it has, the configuration of a request either
-- succeeds, with no version of TLS asked for and no option of TLS, or with one of the seven names
-- of a version and its options; or the version is neither empty nor one of these names, and the
-- configuration fails, with both lists freed, but the request keeps its freed handle, so that its
-- destructor frees it once more.
pub easy_handle_curl_configure-IsAccepted :
    (lists : Lists) (r : HttpRequesting) (e : Easy)
    → e.handle ≡ live
    → IsAccepted lists r e (easy_handle_curl_configure lists r e)
      ⊎ IsDangling r (easy_handle_curl_configure lists r e)
easy_handle_curl_configure-IsAccepted lists r e at = elim (same_str-cases (tls_wanted r) []) [
  | inl bare ↦ inl (record {
    tls = [];
    chosen = inl (bare, refl);
    result =
        configure_live lists r e (some []) at (ap tls_options bare ∙ tls_options-empty)
        ∙ ap some (configured_as-some lists r e []);
  })
  | inr some_version ↦ elim (IsNamed-cases (tls_wanted r) versions) [
    | inl (v, named) ↦ inl (accepted lists r e v at some_version named)
    | inr unknown ↦ inr (dangling lists r e at some_version unknown)
  ]
]

configured_as-method :
    (lists : Lists) (r : HttpRequesting) (method method' : List ℕ) (o : Option (List CurlOption))
    → is_post method ≡ is_post method'
    → configured_as lists (record r { method = method }) fresh o
      ≡ (configured_as lists (record r { method = method' }) fresh o)
unfolding configured_as request_options headers_from resolv_list
configured_as-method lists r method method' none same = refl
configured_as-method lists r method method' (some tls) same = simp same

-- Two methods that are both "post" or "put", or neither, give the same configuration: "put" is sent
-- as "post" is, and all others alike.
pub configure_method :
    (lists : Lists) (r : HttpRequesting) (method method' : List ℕ)
    → is_post method ≡ is_post method'
    → easy_handle_curl_configure lists (record r { method = method }) fresh
      ≡ (easy_handle_curl_configure lists (record r { method = method' }) fresh)
unfolding easy_handle_curl_configure
configure_method lists r method method' same =
    ap some (configured_as-method lists r method method' (tls_options (tls_wanted r)) same)

tls_options-https : tls_options tls_default ≡ some (tls_set tlsv1_2)
unfolding tls_options tls_version same_str
tls_options-https = refl

-- With a new handle and no TLS version given, a URL that starts with "https:" is configured with
-- TLS 1.2 and the check of the peer but not of the host, and one that starts with "http:" without
-- any option of TLS; both get all options of the target and of the request, and end with success.
pub configure_scheme :
    (lists : Lists) (r : HttpRequesting) (secure : Bool) (rest : List ℕ)
    → r.version_tls ≡ []
    → r.url ≡ (if secure then https else http) ++ (b':' ∷ rest)
    → easy_handle_curl_configure lists r fresh
      ≡ some (ready lists r (if secure then tls_set tlsv1_2 else []), positive)
unfolding easy_handle_curl_configure configured_as
configure_scheme lists r true rest default url =
    let wanted : tls_wanted r ≡ tls_default = rw default (rw url refl) in
    ap (λ str. some (configured_as lists r fresh (tls_options str))) wanted
    ∙ ap (λ o. some (configured_as lists r fresh o)) tls_options-https
configure_scheme lists r false rest default url =
    let wanted : tls_wanted r ≡ [] = rw default (rw url refl) in
    ap (λ str. some (configured_as lists r fresh (tls_options str))) wanted
    ∙ ap (λ o. some (configured_as lists r fresh o)) tls_options-empty
