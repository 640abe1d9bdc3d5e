-- ===== src/HttpRequesting.antt =====
-- HttpRequesting.cpp: an HTTP request with libcurl, whose host name is resolved first. What libcurl,
-- the resolver and the C library answer is an argument.
pub mod Configure
pub mod Runs
pub mod Sessions
pub mod Secured
pub mod Multi
pub mod Tests
use processing_common.Common.{
  ℕ, zero, suc, ◌+◌, Bool, true, false, not, ◌&&◌, ◌||◌, ◌==◌, if◌then◌else◌, same_str, List, [],
  ◌∷◌, ◌++◌, Option, none, some, length,
}
use processing_common.LibDspc.Url.{
  UrlParts, AddrFamily, af_unspec, af_inet, af_inet6, url_to_parts, type_ip, scheme,
}
use processing_common.MailSending.{Success, pending, positive, negative, CurlMsg}

pub data ProcState : Type 0 where
  start dns_resolv_start dns_resolv_done_wait url_re_asm easy_init easy_bind req_start
        req_done_wait :
      ProcState

-- `id` is the address of the object, `curl` whether mpCurl is set, `lists` whether libcurl's lists are.
pub record HttpRequesting : Type 0 where
  pub id : ℕ
  pub state : ProcState
  pub url : List ℕ
  pub protocol : List ℕ
  pub name_host : List ℕ
  pub addr_host : List ℕ
  pub type_name_host : AddrFamily
  pub port : ℕ
  pub path : List ℕ
  pub queries : List ℕ
  pub method : List ℕ
  pub user_pw : List ℕ
  pub hdrs : List (List ℕ)
  pub data_req : List ℕ
  pub auth_method : List ℕ
  pub version_tls : List ℕ
  pub version_http : List ℕ
  pub mode_debug : Bool
  pub resolving : Bool
  pub curl : Bool
  pub curl_bound : Bool
  pub lists : Bool
  pub curl_res : ℕ
  pub resp_code : ℕ
  pub resp_hdr : List ℕ
  pub resp_data : List ℕ
  pub done_curl : Bool

-- `curl` is whether curl_easy_init() has given a handle.
abbrev pub new_request : ℕ → Bool → HttpRequesting
new_request id curl = record {
  id = id;
  state = start;
  url = [];
  protocol = [];
  name_host = [];
  addr_host = [];
  type_name_host = af_unspec;
  port = 0;
  path = [];
  queries = [];
  method = b'g' ∷ b'e' ∷ b't' ∷ [];
  user_pw = [];
  hdrs = [];
  data_req = [];
  auth_method = b'b' ∷ b'a' ∷ b's' ∷ b'i' ∷ b'c' ∷ [];
  version_tls = [];
  version_http = b'H' ∷ b'T' ∷ b'T' ∷ b'P' ∷ b'/' ∷ b'2' ∷ [];
  mode_debug = false;
  resolving = false;
  curl = curl;
  curl_bound = false;
  lists = false;
  curl_res = 0;
  resp_code = 0;
  resp_hdr = [];
  resp_data = [];
  done_curl = false;
}

-- A new value, unless it is empty.
abbrev pub kept : List ℕ → List ℕ → List ℕ
kept old [] = old
kept old (c ∷ str) = c ∷ str

abbrev pub url_set : List ℕ → HttpRequesting → HttpRequesting
url_set url r = record r { url = kept r.url url }

abbrev pub addr_host_add : List ℕ → HttpRequesting → HttpRequesting
addr_host_add addr r = record r { addr_host = kept r.addr_host addr }

abbrev pub method_set : List ℕ → HttpRequesting → HttpRequesting
method_set method r = record r { method = kept r.method method }

abbrev pub user_pw_set : List ℕ → HttpRequesting → HttpRequesting
user_pw_set user_pw r = record r { user_pw = kept r.user_pw user_pw }

abbrev pub hdr_add : List ℕ → HttpRequesting → HttpRequesting
hdr_add hdr r = record r { hdrs = r.hdrs ++ (hdr ∷ []) }

abbrev pub data_set : List ℕ → HttpRequesting → HttpRequesting
data_set str r = record r { data_req = str }

abbrev pub auth_method_set : List ℕ → HttpRequesting → HttpRequesting
auth_method_set auth r = record r { auth_method = kept r.auth_method auth }

abbrev pub version_tls_set : List ℕ → HttpRequesting → HttpRequesting
version_tls_set version r = record r { version_tls = kept r.version_tls version }

abbrev pub version_http_set : List ℕ → HttpRequesting → HttpRequesting
version_http_set version r = record r { version_http = kept r.version_http version }

abbrev pub mode_debug_set : Bool → HttpRequesting → HttpRequesting
mode_debug_set en r = record r { mode_debug = en }

-- inet_pton() of both families, and atoi().
pub record Libc : Type 0 where
  pub valid4 : List ℕ → Bool
  pub valid6 : List ℕ → Bool
  pub atoi : List ℕ → ℕ

abbrev pub https : List ℕ
https = b'h' ∷ b't' ∷ b't' ∷ b'p' ∷ b's' ∷ []

unfoldable pub is_unresolved : HttpRequesting → Bool
is_unresolved r = elim r.type_name_host [
  | af_unspec ↦ length r.addr_host == 0
  | af_inet ↦ false
  | af_inet6 ↦ false
]

-- The URL in its parts, with the defaults.
unfoldable pub parts_set : Libc → HttpRequesting → HttpRequesting
unfolding url_to_parts type_ip
parts_set libc r =
    let parts = url_to_parts libc.atoi r.url in
    let protocol = kept https parts.protocol in
    record r {
      protocol = protocol;
      name_host = parts.host;
      type_name_host = type_ip libc.valid4 libc.valid6 parts.host;
      port = if parts.port == 0 then (if same_str protocol https then 443 else 80) else parts.port;
      path = parts.path;
      queries = parts.queries;
    }

unfoldable pub started : Libc → HttpRequesting → HttpRequesting × Success
unfolding parts_set is_unresolved
started libc r =
    let r' = parts_set libc r in
    if not r.curl
    then (r, negative)
    else if length r.url == 0
    then (r, negative)
    else if is_unresolved r'
    then (record r' { state = dns_resolv_start }, pending)
    else (record r' { state = url_re_asm }, pending)

abbrev first_addr : List ℕ → List (List ℕ) → List ℕ
first_addr old [] = old
first_addr old (addr ∷ addrs) = addr

-- The result of the resolver, with its IPv4 addresses.
unfoldable pub resolved : Success → List (List ℕ) → HttpRequesting → HttpRequesting × Success
resolved pending addrs r = (r, pending)
resolved positive addrs r = (
  record r { addr_host = first_addr r.addr_host addrs; resolving = false; state = url_re_asm },
  pending,
)
resolved negative addrs r = (record r { resolving = false; state = url_re_asm }, pending)

-- A part behind its separator, if it is not empty.
abbrev pub behind : ℕ → List ℕ → List ℕ
behind ch [] = []
behind ch (c ∷ str) = ch ∷ c ∷ str

unfoldable pub re_assembled : HttpRequesting → List ℕ
re_assembled r =
    r.protocol ++ (scheme ++ (r.name_host ++ (behind b'/' r.path ++ behind b'?' r.queries)))

abbrev pub finished : CurlMsg → HttpRequesting → HttpRequesting
finished msg r = record r {
  curl_res = msg.result;
  resp_code = msg.response_code;
  curl_bound = false;
  lists = false;
  curl = false;
  done_curl = true;
}

-- multiProcess, as one of the objects sees it
unfoldable pub multi_process : List CurlMsg → HttpRequesting → HttpRequesting
multi_process [] r = r
multi_process (msg ∷ msgs) r =
    if not msg.is_done
    then multi_process msgs r
    else if msg.request == r.id
    then multi_process msgs (finished msg r)
    else multi_process msgs r

-- What a call of `process` meets.
pub record Tick : Type 0 where
  pub resolver_made : Bool
  pub resolver : Success
  pub addrs : List (List ℕ)
  pub configured : Bool
  pub bound : Bool
  pub msgs : List CurlMsg

unfoldable pub waited : HttpRequesting → HttpRequesting × Success
waited r =
    if not r.done_curl
    then (r, pending)
    else if r.curl_res == 0
    then (r, positive)
    else (r, negative)

unfoldable pub process_in : ProcState → Libc → Tick → HttpRequesting → HttpRequesting × Success
unfolding started resolved re_assembled multi_process waited
process_in start libc t r = started libc r
process_in dns_resolv_start libc t r =
    if t.resolver_made
    then (record r { resolving = true; state = dns_resolv_done_wait }, pending)
    else (r, negative)
process_in dns_resolv_done_wait libc t r = resolved t.resolver t.addrs r
process_in url_re_asm libc t r = (record r { url = re_assembled r; state = easy_init }, pending)
process_in easy_init libc t r =
    if r.curl && t.configured
    then (record r { lists = true; state = easy_bind }, pending)
    else (r, negative)
process_in easy_bind libc t r =
    if t.bound then (record r { curl_bound = true; state = req_start }, pending) else (r, negative)
process_in req_start libc t r = (record (multi_process t.msgs r) { state = req_done_wait }, pending)
process_in req_done_wait libc t r = waited (multi_process t.msgs r)

unfoldable pub process : Libc → Tick → HttpRequesting → HttpRequesting × Success
unfolding process_in
process libc t r = process_in r.state libc t r

-- easyHandleCurlUnbind and curlListFree
unfoldable pub shutdown : HttpRequesting → HttpRequesting × Success
shutdown r = (record r { curl_bound = false; lists = false }, positive)

-- The callbacks that append what libcurl has received.
abbrev pub curl_data_to_byte_vec_write : List ℕ → HttpRequesting → HttpRequesting
curl_data_to_byte_vec_write str r = record r { resp_data = r.resp_data ++ str }

unfoldable pub next :
    HttpRequesting × Success
    → (HttpRequesting → HttpRequesting × Success)
    → HttpRequesting × Success
next (r, pending) f = f r
next (r, positive) f = (r, positive)
next (r, negative) f = (r, negative)

unfoldable pub run : Libc → List Tick → HttpRequesting → HttpRequesting × Success
unfolding process next
run libc [] r = (r, pending)
run libc (t ∷ ts) r = next (process libc t r) (run libc ts)
