-- ===== src/FileExecuting/Results/Chains.antt =====
-- What the results and signals of a container are about.
use processing_common.Common.{
  ℕ, zero, suc, ◌+◌, ◌<◌, ◌≤◌, ◌≡◌, ◌↔◌, ◌∙◌, refl, sym, ap, subst, arith, Bool, true, false, not,
  if◌then◌else◌, List, [], ◌∷◌, ◌++◌, append_assoc, append-nil, none, some, length,
}
use native.Mathlib.Decide.{dec_lt}
use processing_common.FileExecuting.{Exec}
use processing_common.FileExecuting.Config.{Container}
use processing_common.FileExecuting.Results.{
  bool_ret_at, bool_loop, bool_ret, killed, int_sig_send, sig_send_next, sig_send_all,
  sig_send_some, sig_send,
}

choice_from :
    (is_and check rest : Bool)
    → (if (if is_and then not check else check) then check else rest) ≡ is_and
    → (check ≡ is_and) × (rest ≡ is_and)
choice_from true true rest h = (refl, h)
choice_from true false rest h = absurd cc
choice_from false true rest h = absurd cc
choice_from false false rest h = (refl, h)

choice_to :
    (is_and check rest : Bool)
    → check ≡ is_and
    → rest ≡ is_and
    → (if (if is_and then not check else check) then check else rest) ≡ is_and
choice_to true true rest h p = p
choice_to true false rest h p = absurd cc
choice_to false true rest h p = absurd cc
choice_to false false rest h p = p

bool_loop_from :
    (c : Container) (offs : ℕ) (is_and : Bool) (left i : ℕ)
    → bool_loop c offs is_and left i ≡ is_and
    → (j : ℕ) → i ≤ j
    → j < i + left
    → bool_ret_at c offs j ≡ is_and
unfolding bool_loop
bool_loop_from c offs is_and zero i h j low high = absurd (omega arith)
bool_loop_from c offs is_and (suc left) i h j low high =
    let (first, rest) =
      choice_from is_and (bool_ret_at c offs i) (bool_loop c offs is_and left (i + 1)) h in
    elim (dec_lt i j) [
      | yes later ↦ bool_loop_from c offs is_and left (i + 1) rest j (omega arith) (omega arith)
      | no now ↦ let eq : i ≡ j = omega arith in subst (λ k. bool_ret_at c offs k ≡ is_and) eq first
    ]

bool_loop_to :
    (c : Container) (offs : ℕ) (is_and : Bool) (left i : ℕ)
    → ((j : ℕ) → i ≤ j → j < i + left → bool_ret_at c offs j ≡ is_and)
    → bool_loop c offs is_and left i ≡ is_and
unfolding bool_loop
bool_loop_to c offs is_and zero i h = refl
bool_loop_to c offs is_and (suc left) i h =
    choice_to is_and (bool_ret_at c offs i) (bool_loop c offs is_and left (i + 1))
      (h i (omega arith) (omega arith))
      (bool_loop_to c offs is_and left (i + 1) (λ j low high. h j (omega arith) (omega arith)))

-- With a closed configuration, `boolRet` over all commands gives `isAnd` exactly if it gives
-- `isAnd` for each of them: all for `true`, none for `false`.
pub bool_ret_iff :
    (c : Container) (offs : ℕ) (is_and : Bool)
    → c.config_closed ≡ true
    → (bool_ret c none offs is_and ≡ is_and)
      ↔ ((idx : ℕ) → idx < length c.internals → bool_ret c (some idx) offs false ≡ is_and)
unfolding bool_ret
bool_ret_iff c offs is_and closed =
    let eq : bool_ret c none offs is_and ≡ bool_loop c offs is_and (length c.internals) 0 =
      simp closed in
    (
      λ h idx high.
          bool_loop_from c offs is_and (length c.internals) 0 (sym eq ∙ h) idx (omega arith)
            (omega arith),
      λ h. eq ∙ bool_loop_to c offs is_and (length c.internals) 0 (λ j low high. h j (omega arith)),
    )

-- The commands have the processes `ids`, and all of these can be signaled.
abbrev pub AreAlive : (ℕ → Bool) → List Exec → List ℕ → Type 0
AreAlive kill [] [] = Unit {0}
AreAlive kill (e ∷ es) (id ∷ ids) =
    (e.result.id_child ≡ some id) × (kill id ≡ true) × AreAlive kill es ids
AreAlive kill es ids = ⊥

int_sig_send_alive :
    (kill : ℕ → Bool) (e : Exec) (id : ℕ) (sent : List ℕ)
    → e.result.id_child ≡ some id
    → kill id ≡ true
    → int_sig_send kill e sent ≡ (sent ++ (id ∷ []), true)
unfolding killed
int_sig_send_alive kill e id sent now ok = ap (killed kill sent) now ∙ simp ok

int_sig_send_gone :
    (kill : ℕ → Bool) (e : Exec) (sent : List ℕ)
    → e.result.id_child ≡ none
    → int_sig_send kill e sent ≡ (sent, false)
unfolding killed
int_sig_send_gone kill e sent gone = ap (killed kill sent) gone

sig_send_alive :
    (kill : ℕ → Bool) (es es' : List Exec) (ids sent : List ℕ)
    → AreAlive kill es ids
    → sig_send_all kill (es ++ es') sent ≡ sig_send_all kill es' (sent ++ ids)
unfolding sig_send_all sig_send_next
sig_send_alive kill [] es' [] sent a = ap (sig_send_all kill es') (sym (append-nil sent))
sig_send_alive kill (e ∷ es) es' (id ∷ ids) sent (now, ok, later) =
    ap (λ r. sig_send_next r (sig_send_all kill (es ++ es')))
      (int_sig_send_alive kill e id sent now ok)
    ∙ (sig_send_alive kill es es' ids (sent ++ (id ∷ [])) later
        ∙ ap (sig_send_all kill es') (append_assoc sent (id ∷ []) ids))
sig_send_alive kill [] es' (id ∷ ids) sent a = absurd a
sig_send_alive kill (e ∷ es) es' [] sent a = absurd a

sig_send_some-append :
    (kill : ℕ → Bool) (es es' : List Exec) (e : Exec)
    → sig_send_some kill (es ++ (e ∷ es')) ≡ sig_send_all kill (es ++ (e ∷ es')) []
unfolding sig_send_some
sig_send_some-append kill [] es' e = refl
sig_send_some-append kill (e' ∷ es) es' e = refl

sig_send_gone :
    (kill : ℕ → Bool) (e : Exec) (es : List Exec) (sent : List ℕ)
    → e.result.id_child ≡ none
    → sig_send_all kill (e ∷ es) sent ≡ (sent, false)
unfolding sig_send_all sig_send_next
sig_send_gone kill e es sent gone =
    ap (λ r. sig_send_next r (sig_send_all kill es)) (int_sig_send_gone kill e sent gone)

-- Where the commands before one that has ended are alive and can be signaled, `sigSend` to all
-- signals exactly these and reports an error: the commands behind it get no signal.
pub sig_send_stops :
    (kill : ℕ → Bool) (c : Container) (before after : List Exec) (e : Exec) (ids : List ℕ)
    → c.internals ≡ before ++ (e ∷ after)
    → AreAlive kill before ids
    → e.result.id_child ≡ none
    → sig_send kill c none ≡ (ids, false)
unfolding sig_send
sig_send_stops kill c before after e ids chain alive gone =
    ap (sig_send_some kill) chain
    ∙ sig_send_some-append kill before after e
    ∙ sig_send_alive kill before (e ∷ after) ids [] alive
    ∙ sig_send_gone kill e after ids gone

sig_send_some_alive :
    (kill : ℕ → Bool) (es : List Exec) (ids : List ℕ)
    → 0 < length es
    → AreAlive kill es ids
    → sig_send_some kill es ≡ (ids, true)
unfolding sig_send_some sig_send_all
sig_send_some_alive kill [] ids some_cmds alive = absurd (omega arith)
sig_send_some_alive kill (e ∷ es) ids some_cmds alive =
    ap (λ l. sig_send_all kill l []) (sym (append-nil (e ∷ es)))
    ∙ sig_send_alive kill (e ∷ es) [] ids [] alive

-- Where all commands are alive and can be signaled, each of them gets the signal once.
sig_send_whole :
    (kill : ℕ → Bool) (c : Container) (ids : List ℕ)
    → 0 < length c.internals
    → AreAlive kill c.internals ids
    → sig_send kill c none ≡ (ids, true)
unfolding sig_send
sig_send_whole kill c ids some_cmds alive = sig_send_some_alive kill c.internals ids some_cmds alive
