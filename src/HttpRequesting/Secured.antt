-- ===== src/HttpRequesting/Secured.antt =====
-- From the URL of a request to the options of TLS that libcurl gets.
use processing_common.Common.{
  ℕ, ◌<◌, ◌^◌, ◌≡◌, ◌∙◌, ap, Bool, true, if◌then◌else◌, List, [], ◌∷◌, ◌++◌, some, length,
}
use processing_common.LibDspc.Strings.Split.{Lacks}
use processing_common.LibDspc.Url.Parts.{url_of}
use processing_common.MailSending.{Success, positive}
use processing_common.HttpRequesting.{start, HttpRequesting, Libc, kept, https, behind, Tick, run}
use processing_common.HttpRequesting.Runs.{IsReAssembled, run-IsReAssembled}
use processing_common.HttpRequesting.Configure.{Lists, tlsv1_2, easy_handle_curl_configure}
use processing_common.HttpRequesting.Configure.Options.{
  http, fresh, ready, tls_set, configure_scheme,
}

reassembled-secured :
    (libc : Libc) (old : HttpRequesting) (r : HttpRequesting × Success) (lists : Lists)
    (secure : Bool) (p h q a s : List ℕ)
    → IsReAssembled libc old p h q a s r
    → old.version_tls ≡ []
    → kept https p ≡ (if secure then https else http)
    → easy_handle_curl_configure lists r.0 fresh
      ≡ some (ready lists r.0 (if secure then tls_set tlsv1_2 else []), positive)
reassembled-secured libc old r lists secure p h q a s k default protocol =
    let rest = b'/' ∷ b'/' ∷ (h ++ (behind b'/' a ++ behind b'?' s)) in
    configure_scheme lists r.0 secure rest (k.version_tls ∙ default)
      (k.url ∙ ap (λ x. x ++ (b':' ∷ rest)) protocol)

-- A request at its start with a handle, the address of its host, no TLS version and a URL of five
-- parts (as for its reassembly), whose protocol is "https" or missing, is configured after two
-- calls of process with TLS 1.2, the check of the peer but not of the host; one with the protocol
-- "http" is configured without any option of TLS. Both get all options of the target and of the
-- request, and end with success.
pub run-configured :
    (libc : Libc) (t t' : Tick) (r : HttpRequesting) (lists : Lists) (secure : Bool)
    (p h q a s : List ℕ)
    → r.state ≡ start
    → r.curl ≡ true
    → r.url ≡ url_of p h q a s
    → 0 < length r.addr_host
    → Lacks b':' p
    → 0 < length h
    → Lacks b'/' h
    → Lacks b'/' q
    → Lacks b':' q
    → Lacks b'?' s
    → length (url_of p h q a s) < 2 ^ 64
    → r.version_tls ≡ []
    → kept https p ≡ (if secure then https else http)
    → easy_handle_curl_configure lists (run libc (t ∷ t' ∷ []) r).0 fresh
      ≡ some (
        ready lists (run libc (t ∷ t' ∷ []) r).0 (if secure then tls_set tlsv1_2 else []),
        positive,
      )
run-configured libc t t' r lists secure p h q a s state curl url some_addr lp some_host lh lq lq' ls
      fits default protocol =
    reassembled-secured libc r (run libc (t ∷ t' ∷ []) r) lists secure p h q a s
      (run-IsReAssembled libc t t' r p h q a s state curl url some_addr lp some_host lh lq lq' ls
        fits)
      default protocol
