-- ===== src/HttpRequesting/Multi.antt =====
-- HttpRequesting.cpp: the multi handle that all requests share. A handle in it is named by its
-- request; what libcurl answers is an argument.
pub mod Bindings
use processing_common.Common.{
  ℕ, suc, Bool, true, false, not, ◌||◌, ◌==◌, if◌then◌else◌, List, [], ◌∷◌, ◌++◌,
}
use processing_common.MailSending.{Success, positive, negative, CurlMsg}
use processing_common.HttpRequesting.{HttpRequesting, finished}

-- pCurlMulti: whether it is set, the handles in it, and how often its destructor is registered.
pub record Multi : Type 0 where
  pub created : Bool
  pub handles : List ℕ
  pub registered : ℕ

abbrev pub no_multi : Multi
no_multi = record { created = false; handles = []; registered = 0 }

unfoldable pub multi_handle_curl_init : Bool → Multi → Multi
multi_handle_curl_init init m = record m { created = init; registered = suc m.registered }

unfoldable pub with_multi : Bool → Multi → Multi
unfolding multi_handle_curl_init
with_multi init m = if m.created then m else multi_handle_curl_init init m

-- `init` and `added` are whether curl_multi_init() and curl_multi_add_handle() succeed.
unfoldable pub easy_handle_curl_bind :
    Bool → Bool → Multi → HttpRequesting → Multi × HttpRequesting × Success
unfolding with_multi
easy_handle_curl_bind init added m r =
    let m' = with_multi init m in
    if not m'.created
    then (m', r, negative)
    else if not added
    then (m', r, negative)
    else (record m' { handles = r.id ∷ m'.handles }, record r { curl_bound = true }, positive)

unfoldable pub without : ℕ → List ℕ → List ℕ
without id [] = []
without id (i ∷ ids) = let rest = without id ids in if i == id then rest else i ∷ rest

-- The handle of a request is in the multi handle, and is removed.
unfoldable pub easy_handle_curl_unbind : Multi → HttpRequesting → Multi × HttpRequesting
unfolding without
easy_handle_curl_unbind m r =
    if not r.curl_bound
    then (m, r)
    else (record m { handles = without r.id m.handles }, record r { curl_bound = false })

-- One message of multiProcess about a request that is done.
unfoldable pub message_take : CurlMsg → Multi → HttpRequesting → Multi × HttpRequesting
unfolding without
message_take msg m r = (record m { handles = without r.id m.handles }, finished msg r)

unfoldable pub curl_multi_de_init : Multi → Multi
curl_multi_de_init m = if not m.created then m else record m { created = false; handles = [] }

-- The callback that appends a part of the header.
abbrev pub curl_data_to_string_write : List ℕ → HttpRequesting → HttpRequesting
curl_data_to_string_write str r = record r { resp_hdr = r.resp_hdr ++ str }
