-- ===== src/HttpRequesting/Multi/Bindings.antt =====
-- Requests know whether their handles are in the multi handle.
use processing_common.Common.{ℕ, ◌≡◌, Bool, false, ◌||◌, ◌==◌, if◌then◌else◌, List, [], ◌∷◌}
use processing_common.MailSending.{CurlMsg}
use processing_common.HttpRequesting.{HttpRequesting}
use processing_common.HttpRequesting.Multi.{
  Multi, easy_handle_curl_bind, easy_handle_curl_unbind, message_take,
}

abbrev pub is_in : ℕ → List ℕ → Bool
is_in id [] = false
is_in id (i ∷ ids) = (i == id) || is_in id ids

-- All requests, by their addresses, and the multi handle.
pub record World : Type 0 where
  pub multi : Multi
  pub requests : ℕ → HttpRequesting

abbrev pub updated : ℕ → HttpRequesting → (ℕ → HttpRequesting) → ℕ → HttpRequesting
updated id r requests i = if id == i then r else requests i

abbrev pub with_request : World → ℕ → Multi × HttpRequesting → World
with_request w id r = record { multi = r.0; requests = updated id r.1 w.requests }

-- A request that is not bound is bound, one is unbound, or a message of libcurl about one comes.
pub data Step (w w' : World) : Type 0 where
  binds :
      (id : ℕ) (init added : Bool)
      → (w.requests id).curl_bound ≡ false
      → w'
        ≡ with_request w id
            (let r = easy_handle_curl_bind init added w.multi (w.requests id) in (r.0, r.1))
      → Step w w'
  unbinds :
      (id : ℕ)
      → w' ≡ with_request w id (easy_handle_curl_unbind w.multi (w.requests id))
      → Step w w'
  done :
      (id : ℕ) (msg : CurlMsg)
      → w' ≡ with_request w id (message_take msg w.multi (w.requests id))
      → Step w w'

pub data Reach (w : World) : World → Type 0 where
  here : Reach w w
  later : {w₁ w₂ : World} → Reach w w₁ → Step w₁ w₂ → Reach w w₂

-- A request is at its address, and is marked as bound if and only if its handle is in the multi
-- handle.
pub record IsMarked (w : World) : Type 0 where
  pub address : (i : ℕ) → (w.requests i).id ≡ i
  pub bound : (i : ℕ) → (w.requests i).curl_bound ≡ is_in i w.multi.handles
