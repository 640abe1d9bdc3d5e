-- ===== src/FileExecuting/Results.antt =====
-- FileExecuting.cpp: `boolRet`, `intRet` and `sigSend`. A signed index below zero is `none`.
pub mod Chains
use processing_common.Common.{
  ℕ, zero, suc, ◌+◌, ◌-◌, ◌<◌, ◌≡◌, ◌↔◌, ◌∙◌, refl, sym, ap, subst, arith, Bool, true, false, not,
  leb, ◌==◌, if◌then◌else◌, List, [], ◌∷◌, ◌++◌, map, Option, none, some, length, get_elem?, get_or,
}
use processing_common.FileExecuting.{FeResult, Exec}
use processing_common.FileExecuting.Config.{Container}

-- The bool at an offset from childStopped, and the int at one from idChild, whose -1 is `none`.
unfoldable pub flag_at : ℕ → FeResult → Bool
flag_at offs r =
    if offs == 0
    then r.child_stopped
    else if offs == 1
    then r.child_terminated
    else if offs == 2
    then r.child_terminated_by_sig
    else r.core_dumped

unfoldable pub int_at : ℕ → FeResult → Option ℕ
int_at offs r =
    if offs == 0 then r.id_child else if offs == 1 then some r.code_sig else some r.code_ret

pub results : List Exec → List FeResult
results es = map (λ (e : Exec). e.result) es

-- One of the commands.
unfoldable pub bool_ret_at : Container → ℕ → ℕ → Bool
unfolding results
bool_ret_at c offs idx =
    if not c.config_closed
    then false
    else if leb (length c.internals) idx
    then false
    else get_or (map (flag_at offs) (results c.internals)) idx false

abbrev xor : Bool → Bool → Bool
xor a b = if a then not b else b

-- The loop over the results from the i-th on, of which `left` are left.
unfoldable pub bool_loop : Container → ℕ → Bool → ℕ → ℕ → Bool
unfolding bool_ret_at
bool_loop c offs is_and zero i = is_and
bool_loop c offs is_and (suc left) i =
    let rest = bool_loop c offs is_and left (i + 1) in
    let check = bool_ret_at c offs i in if xor is_and check then check else rest

unfoldable pub bool_ret : Container → Option ℕ → ℕ → Bool → Bool
unfolding bool_loop
bool_ret c (some idx) offs is_and = bool_ret_at c offs idx
bool_ret c none offs is_and =
    if not c.config_closed then false else bool_loop c offs is_and (length c.internals) 0

-- `none` is the -1 of an error, and of an idChild that is not set; a configuration that is not
-- closed gives `false`, which is 0.
unfoldable pub int_ret_at : Container → ℕ → ℕ → Option ℕ
unfolding results int_at
int_ret_at c offs idx =
    if not c.config_closed
    then some 0
    else get_or (map (int_at offs) (results c.internals)) idx none

unfoldable pub int_ret : Container → Option ℕ → ℕ → Option ℕ
unfolding int_ret_at
int_ret c (some idx) offs = int_ret_at c offs idx
int_ret c none offs =
    if not c.config_closed
    then some 0
    else if length c.internals == 0
    then none
    else int_ret_at c offs (length c.internals - 1)

-- kill() of a process, and whether it succeeds; `sent` are the processes that have been signaled.
unfoldable pub killed : (ℕ → Bool) → List ℕ → Option ℕ → List ℕ × Bool
killed kill sent none = (sent, false)
killed kill sent (some id) = if kill id then (sent ++ (id ∷ []), true) else (sent, false)

abbrev pub int_sig_send : (ℕ → Bool) → Exec → List ℕ → List ℕ × Bool
int_sig_send kill e sent = killed kill sent e.result.id_child

unfoldable pub sig_send_next : List ℕ × Bool → (List ℕ → List ℕ × Bool) → List ℕ × Bool
sig_send_next (sent, false) next = (sent, false)
sig_send_next (sent, true) next = next sent

-- The loop over the commands.
unfoldable pub sig_send_all : (ℕ → Bool) → List Exec → List ℕ → List ℕ × Bool
unfolding killed sig_send_next
sig_send_all kill [] sent = (sent, true)
sig_send_all kill (e ∷ es) sent = sig_send_next (int_sig_send kill e sent) (sig_send_all kill es)

unfoldable pub sig_send_some : (ℕ → Bool) → List Exec → List ℕ × Bool
unfolding sig_send_all
sig_send_some kill [] = ([], false)
sig_send_some kill (e ∷ es) = sig_send_all kill (e ∷ es) []

unfoldable pub sig_send : (ℕ → Bool) → Container → Option ℕ → List ℕ × Bool
unfolding sig_send_some
sig_send kill c (some idx) = elim (get_elem? c.internals idx) [
  | none ↦ ([], false)
  | some e ↦ int_sig_send kill e []
]
sig_send kill c none = sig_send_some kill c.internals
