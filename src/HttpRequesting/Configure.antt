-- ===== src/HttpRequesting/Configure.antt =====
-- HttpRequesting.cpp: what easyHandleCurlConfigure hands over to libcurl, and the life of the easy
-- handle, as they are compiled without ENABLE_CURL_SHARE. A handle of libcurl is named by its state,
-- and its options are those set, in their order.
pub mod Versions
pub mod Options
use processing_common.Common.{
  ℕ, suc, Bool, true, false, not, ◌&&◌, ◌||◌, ◌==◌, if◌then◌else◌, same_str, List, [], ◌∷◌, ◌++◌,
  Option, none, some, length, get_or,
}
use processing_common.LibDspc.Url.{AddrFamily, af_unspec, af_inet, af_inet6}
use processing_common.MailSending.{Success, positive, negative, digits}
use processing_common.HttpRequesting.{HttpRequesting, kept}

pub data TlsVersion : Type 0 where
  sslv2 sslv3 tlsv1 tlsv1_0 tlsv1_1 tlsv1_2 tlsv1_3 : TlsVersion

pub data HttpVersion : Type 0 where
  http_1_0 http_1_1 http_2_0 : HttpVersion

-- The calls of curl_easy_setopt.
pub data CurlOption : Type 0 where
  url : List ℕ → CurlOption
  port : ℕ → CurlOption
  httpauth_digest : CurlOption
  ssl_verify_peer ssl_verify_host : ℕ → CurlOption
  ssl_options : CurlOption
  sslversion : TlsVersion → CurlOption
  http_version : HttpVersion → CurlOption
  http_header resolve : List (List ℕ) → CurlOption
  post_fields : List ℕ → CurlOption
  post_field_size : ℕ → CurlOption
  userpwd : List ℕ → CurlOption
  header_function write_function : CurlOption
  header_data write_data private : ℕ → CurlOption
  debug_function verbose : CurlOption

-- What mpCurl points to.
pub data Handle : Type 0 where
  unset live freed : Handle

pub record Easy : Type 0 where
  pub handle : Handle
  pub options : List CurlOption
  pub list_header : List (List ℕ)
  pub list_resolv : List (List ℕ)

-- The destructor. curl_easy_cleanup() of a handle that is freed already is undefined, here none.
unfoldable pub destroyed : Easy → Option Easy
destroyed e = elim e.handle [
  | unset ↦ some e
  | live ↦ some (record e { handle = unset })
  | freed ↦ none
]

-- The version of TLS that the URL or the caller asks for. A character behind the end is NUL.
abbrev pub tls_wanted : HttpRequesting → List ℕ
tls_wanted r =
    kept
      (if get_or r.url 4 0 == b's'
        then (b'T' ∷ b'L' ∷ b'S' ∷ b'v' ∷ b'1' ∷ b'.' ∷ b'2' ∷ [])
        else [])
      r.version_tls

unfoldable pub tls_version : List ℕ → Option TlsVersion
tls_version str =
    if same_str str (b'S' ∷ b'S' ∷ b'L' ∷ b'v' ∷ b'2' ∷ [])
    then some sslv2
    else if same_str str (b'S' ∷ b'S' ∷ b'L' ∷ b'v' ∷ b'3' ∷ [])
    then some sslv3
    else if same_str str (b'T' ∷ b'L' ∷ b'S' ∷ b'v' ∷ b'1' ∷ [])
    then some tlsv1
    else if same_str str (b'T' ∷ b'L' ∷ b'S' ∷ b'v' ∷ b'1' ∷ b'.' ∷ b'0' ∷ [])
    then some tlsv1_0
    else if same_str str (b'T' ∷ b'L' ∷ b'S' ∷ b'v' ∷ b'1' ∷ b'.' ∷ b'1' ∷ [])
    then some tlsv1_1
    else if same_str str (b'T' ∷ b'L' ∷ b'S' ∷ b'v' ∷ b'1' ∷ b'.' ∷ b'2' ∷ [])
    then some tlsv1_2
    else if same_str str (b'T' ∷ b'L' ∷ b'S' ∷ b'v' ∷ b'1' ∷ b'.' ∷ b'3' ∷ [])
    then some tlsv1_3
    else none

-- The options of TLS, or none for an unknown version.
unfoldable pub tls_options : List ℕ → Option (List CurlOption)
unfolding tls_version
tls_options [] = some []
tls_options (c ∷ str) = elim (tls_version (c ∷ str)) [
  | none ↦ none
  | some v ↦ some (ssl_verify_peer 1 ∷ ssl_verify_host 0 ∷ ssl_options ∷ sslversion v ∷ [])
]

abbrev pub http_options : List ℕ → List CurlOption
http_options str =
    if same_str str (b'H' ∷ b'T' ∷ b'T' ∷ b'P' ∷ b'/' ∷ b'1' ∷ b'.' ∷ b'0' ∷ [])
    then http_version http_1_0 ∷ []
    else if same_str str (b'H' ∷ b'T' ∷ b'T' ∷ b'P' ∷ b'/' ∷ b'1' ∷ b'.' ∷ b'1' ∷ [])
    then http_version http_1_1 ∷ []
    else if same_str str (b'H' ∷ b'T' ∷ b'T' ∷ b'P' ∷ b'/' ∷ b'2' ∷ [])
    then http_version http_2_0 ∷ []
    else []

-- The header lines that curl_slist_append() takes, up to the first failure.
unfoldable pub headers_from : (ℕ → Bool) → ℕ → List (List ℕ) → List (List ℕ)
headers_from append i [] = []
headers_from append i (hdr ∷ hdrs) =
    let rest = headers_from append (suc i) hdrs in if append i then hdr ∷ rest else []

abbrev pub list_option : (List (List ℕ) → CurlOption) → List (List ℕ) → List CurlOption
list_option option [] = []
list_option option (x ∷ xs) = option (x ∷ xs) ∷ []

abbrev pub text_option : (List ℕ → CurlOption) → List ℕ → List CurlOption
text_option option [] = []
text_option option (c ∷ str) = option (c ∷ str) ∷ []

abbrev is_unspec : AddrFamily → Bool
is_unspec af_unspec = true
is_unspec af_inet = false
is_unspec af_inet6 = false

-- The entry of the host's address, where the host is a name, the address known and the entry made.
unfoldable pub resolv_list : Bool → HttpRequesting → List (List ℕ)
unfolding digits
resolv_list appended r =
    if is_unspec r.type_name_host && not (length r.addr_host == 0) && appended
    then (r.name_host ++ ((b':' ∷ []) ++ (digits 5 r.port [] ++ ((b':' ∷ []) ++ r.addr_host)))) ∷ []
    else []

abbrev pub is_post : List ℕ → Bool
is_post method =
    same_str method (b'p' ∷ b'o' ∷ b's' ∷ b't' ∷ []) || same_str method (b'p' ∷ b'u' ∷ b't' ∷ [])

abbrev pub post_options : HttpRequesting → List CurlOption
post_options r =
    if is_post r.method
    then post_fields r.data_req ∷ post_field_size (length r.data_req) ∷ []
    else []

abbrev pub callback_options : HttpRequesting → List CurlOption
callback_options r =
    header_function ∷ header_data r.id ∷ write_function ∷ write_data r.id ∷ private r.id ∷ []

-- The options that are set in front of the version of TLS.
abbrev pub target_options : HttpRequesting → List CurlOption
target_options r =
    (url r.url ∷ [])
    ++ ((if r.port == 0 then [] else port r.port ∷ [])
        ++ (if same_str r.auth_method (b'd' ∷ b'i' ∷ b'g' ∷ b'e' ∷ b's' ∷ b't' ∷ [])
            then httpauth_digest ∷ []
            else []))

-- And those behind it, with the lists.
unfoldable pub request_options : List (List ℕ) → List (List ℕ) → HttpRequesting → List CurlOption
request_options headers resolv r =
    http_options r.version_http
    ++ (list_option http_header headers
        ++ (list_option resolve resolv
            ++ (post_options r
                ++ (text_option userpwd r.user_pw
                    ++ (callback_options r
                        ++ (if r.mode_debug then debug_function ∷ verbose ∷ [] else []))))))

-- What curl_slist_append() answers: for the header with an index, and for the entry of the host.
pub record Lists : Type 0 where
  pub header : ℕ → Bool
  pub resolv : Bool

-- curlListFree of each list, and curl_easy_cleanup, which leaves the pointer as it is.
abbrev pub header_freed : Easy → Easy
header_freed e = record e { list_header = [] }

abbrev pub resolv_freed : Easy → Easy
resolv_freed e = record e { list_resolv = [] }

abbrev pub cleaned_up : Easy → Easy
cleaned_up e = record e { handle = freed; options = [] }

-- The handle with its options, or the error path, which frees lists and handle.
unfoldable pub configured_as :
    Lists → HttpRequesting → Easy → Option (List CurlOption) → Easy × Success
unfolding headers_from resolv_list request_options
configured_as lists r e none = (cleaned_up (resolv_freed (header_freed e)), negative)
configured_as lists r e (some tls) =
    let headers = headers_from lists.header 0 r.hdrs in
    let resolv = resolv_list lists.resolv r in
    (
      record e {
        options = e.options ++ (target_options r ++ (tls ++ request_options headers resolv r));
        list_header = headers;
        list_resolv = resolv;
      },
      positive,
    )

-- By the state of the handle; none where it is freed already.
abbrev pub configured_in : Handle → Lists → HttpRequesting → Easy → Option (Easy × Success)
configured_in unset lists r e = some (e, negative)
configured_in live lists r e = some (configured_as lists r e (tls_options (tls_wanted r)))
configured_in freed lists r e = none

unfoldable pub easy_handle_curl_configure : Lists → HttpRequesting → Easy → Option (Easy × Success)
unfolding configured_as tls_options
easy_handle_curl_configure lists r e = configured_in e.handle lists r e
