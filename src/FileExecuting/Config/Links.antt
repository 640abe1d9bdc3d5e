-- ===== src/FileExecuting/Config/Links.antt =====
-- The chain of commands that the configuration builds.
use processing_common.Common.{
  ℕ, ◌≡◌, ◌∙◌, refl, sym, ap, subst, arith, Bool, true, false, ◌||◌, ◌==◌, if◌then◌else◌, List, [],
  ◌∷◌, ◌++◌, append-nil, append_assoc, map, none, some,
}
use processing_common.FileExecuting.{Transfer, Node, Exec}
use processing_common.FileExecuting.Config.{
  Container, new_container, Call, ms_timeout_set, source_enable, source_set_buffer,
  source_set_string, source_set_fd, source_set_transfer, cmd_add, env_set, sink_enable,
  sink_add_buffer, sink_add_string, sink_add_fd, sink_add_transfer, err_redirect, change_last,
  sink_changed, new_transfer, new_fd, command, with_source, on_last, linked_to, with_command,
  int_cmd_add, configured, configure, configure_all,
}

pub has_transfer : ℕ → List Transfer → Bool
has_transfer id [] = false
has_transfer id (t ∷ ts) = (t.id == id) || has_transfer id ts

-- What `e` writes is sent to `e'`.
pub record LinkTo (e e' : Exec) : Type 0 where
  pub to_next : has_transfer e'.id e.node_out.transfers ≡ true
  pub auto_sink : e.node_out.auto_enabled ≡ true
  pub manual_source : e'.node_in.manual_enabled ≡ true

abbrev pub IsLinked : List Exec → Type 0
IsLinked [] = Unit {0}
IsLinked (e ∷ []) = Unit {0}
IsLinked (e ∷ e' ∷ es) = LinkTo e e' × IsLinked (e' ∷ es)

-- A change of a command that the one before it does not notice.
record IsKept (f : Exec → Exec) : Type 0 where
  id : (e : Exec) → (f e).id ≡ e.id
  source : (e : Exec) → (f e).node_in.manual_enabled ≡ e.node_in.manual_enabled
  args : (e : Exec) → (f e).args ≡ e.args

kept-LinkTo : (f : Exec → Exec) (e e' : Exec) → IsKept f → LinkTo e e' → LinkTo e (f e')
kept-LinkTo f e e' k l = record {
  to_next = ap (λ id. has_transfer id e.node_out.transfers) (k.id e') ∙ l.to_next;
  auto_sink = l.auto_sink;
  manual_source = k.source e' ∙ l.manual_source;
}

change_last-IsLinked :
    (f : Exec → Exec) (es : List Exec) → IsKept f → IsLinked es → IsLinked (change_last f es)
unfolding change_last
change_last-IsLinked f [] k l = l
change_last-IsLinked f (e ∷ []) k l = l
change_last-IsLinked f (e ∷ e' ∷ []) k l = (kept-LinkTo f e e' k l.0, l.1)
change_last-IsLinked f (e ∷ e' ∷ e'' ∷ es) k l = (l.0, change_last-IsLinked f (e' ∷ e'' ∷ es) k l.1)

abbrev pub argvs : List Exec → List (List (List ℕ))
argvs es = map (λ (e : Exec). e.args) es

argvs-change_last :
    (f : Exec → Exec) (es : List Exec) → IsKept f → argvs (change_last f es) ≡ argvs es
unfolding change_last
argvs-change_last f [] k = refl
argvs-change_last f (e ∷ []) k = ap (λ l. l ∷ []) (k.args e)
argvs-change_last f (e ∷ e' ∷ es) k = ap (λ l. e.args ∷ l) (argvs-change_last f (e' ∷ es) k)

or_true : (b : Bool) → b || true ≡ true
or_true true = refl
or_true false = refl

has_transfer-append :
    (id : ℕ) (ts : List Transfer) → has_transfer id (ts ++ (new_transfer id ∷ [])) ≡ true
unfolding has_transfer
has_transfer-append id [] = let eq : (id == id) ≡ true = ground arith in rw eq refl
has_transfer-append id (t ∷ ts) = rw (has_transfer-append id ts) (or_true (t.id == id))

linked_to-IsKept : (id : ℕ) → IsKept (linked_to id)
unfolding linked_to
linked_to-IsKept id = record { id = λ e. refl; source = λ e. refl; args = λ e. refl }

linked_to-LinkTo : (e e' : Exec) → e'.node_in.manual_enabled ≡ true → LinkTo (linked_to e'.id e) e'
unfolding linked_to
linked_to-LinkTo e e' on = record {
  to_next = has_transfer-append e'.id e.node_out.transfers;
  auto_sink = refl;
  manual_source = on;
}

IsLinked-append :
    (es : List Exec) (e e' : Exec)
    → IsLinked (e ∷ es)
    → e'.node_in.manual_enabled ≡ true
    → IsLinked (change_last (linked_to e'.id) (e ∷ es) ++ (e' ∷ []))
unfolding change_last
IsLinked-append [] e e' l on = (linked_to-LinkTo e e' on, tt)
IsLinked-append (f ∷ []) e e' l on =
    (kept-LinkTo (linked_to e'.id) e f (linked_to-IsKept e'.id) l.0, IsLinked-append [] f e' l.1 on)
IsLinked-append (f ∷ g ∷ es) e e' l on = (l.0, IsLinked-append (g ∷ es) f e' l.1 on)

with_command-IsLinked : (es : List Exec) (e : Exec) → IsLinked es → IsLinked (with_command es e)
unfolding with_command
with_command-IsLinked [] e l = tt
with_command-IsLinked (e' ∷ es) e l = IsLinked-append es e' (with_source e) l refl

argvs-append : (es : List Exec) (e : Exec) → argvs (es ++ (e ∷ [])) ≡ argvs es ++ (e.args ∷ [])
argvs-append [] e = refl
argvs-append (e' ∷ es) e = ap (λ l. e'.args ∷ l) (argvs-append es e)

argvs-with_command :
    (es : List Exec) (e : Exec) → argvs (with_command es e) ≡ argvs es ++ (e.args ∷ [])
unfolding with_command
argvs-with_command [] e = refl
argvs-with_command (e' ∷ es) e =
    argvs-append (change_last (linked_to e.id) (e' ∷ es)) (with_source e)
    ∙ ap (λ l. l ++ (e.args ∷ []))
        (argvs-change_last (linked_to e.id) (e' ∷ es) (linked_to-IsKept e.id))

-- The command that a call adds, as the client sees it.
pub wanted : Call → List (List (List ℕ))
wanted (cmd_add ((ch ∷ cmd) ∷ argv) (some id)) = ((ch ∷ cmd) ∷ argv) ∷ []
wanted call = []

pub wanted_all : List Call → List (List (List ℕ))
wanted_all [] = []
wanted_all (call ∷ calls) = wanted call ++ wanted_all calls

-- A container that runs `cmds` as one chain.
pub record IsChain (cmds : List (List (List ℕ))) (c : Container) : Type 0 where
  pub linked : IsLinked c.internals
  pub commands : argvs c.internals ≡ cmds
  pub config_open : c.config_closed ≡ false

same-IsChain :
    (cmds : List (List (List ℕ))) (c c' : Container)
    → c'.internals ≡ c.internals
    → c'.config_closed ≡ c.config_closed
    → IsChain cmds c
    → IsChain (cmds ++ []) c'
same-IsChain cmds c c' es cl i = record {
  linked = subst IsLinked (sym es) i.linked;
  commands = ap argvs es ∙ i.commands ∙ sym (append-nil cmds);
  config_open = cl ∙ i.config_open;
}

on_last-IsChain :
    (cmds : List (List (List ℕ))) (f : Exec → Exec) (c : Container)
    → IsKept f
    → IsChain cmds c
    → IsChain (cmds ++ []) (on_last f c)
on_last-IsChain cmds f c k i = record {
  linked = change_last-IsLinked f c.internals k i.linked;
  commands = argvs-change_last f c.internals k ∙ i.commands ∙ sym (append-nil cmds);
  config_open = i.config_open;
}

sink_changed-IsKept : (is_out : Bool) (f : Node → Node) → IsKept (sink_changed is_out f)
sink_changed-IsKept true f = record { id = λ e. refl; source = λ e. refl; args = λ e. refl }
sink_changed-IsKept false f = record { id = λ e. refl; source = λ e. refl; args = λ e. refl }

sunk-IsChain :
    (cmds : List (List (List ℕ))) (is_out : Bool) (f : Node → Node) (c : Container)
    → IsChain cmds c
    → IsChain (cmds ++ []) (on_last (sink_changed is_out f) c)
sunk-IsChain cmds is_out f c i =
    on_last-IsChain cmds (sink_changed is_out f) c (sink_changed-IsKept is_out f) i

configured-IsChain :
    (environ : List (List ℕ)) (call : Call) (cmds : List (List (List ℕ))) (c : Container)
    → IsChain cmds c
    → IsChain (cmds ++ wanted call) (configured environ call c)
unfolding configured int_cmd_add wanted
configured-IsChain environ (ms_timeout_set ms) cmds c i =
    same-IsChain cmds c (configured environ (ms_timeout_set ms) c) refl refl i
configured-IsChain environ source_enable cmds c i =
    same-IsChain cmds c (configured environ source_enable c) refl refl i
configured-IsChain environ (source_set_buffer none len) cmds c i = same-IsChain cmds c c refl refl i
configured-IsChain environ (source_set_buffer (some str) len) cmds c i =
    same-IsChain cmds c (configured environ (source_set_buffer (some str) len) c) refl refl i
configured-IsChain environ (source_set_string none) cmds c i = same-IsChain cmds c c refl refl i
configured-IsChain environ (source_set_string (some str)) cmds c i =
    same-IsChain cmds c (configured environ (source_set_string (some str)) c) refl refl i
configured-IsChain environ (source_set_fd none auto_close) cmds c i =
    same-IsChain cmds c c refl refl i
configured-IsChain environ (source_set_fd (some fd) auto_close) cmds c i =
    same-IsChain cmds c (configured environ (source_set_fd (some fd) auto_close) c) refl refl i
configured-IsChain environ (source_set_transfer none) cmds c i = same-IsChain cmds c c refl refl i
configured-IsChain environ (source_set_transfer (some id)) cmds c i =
    same-IsChain cmds c (configured environ (source_set_transfer (some id)) c) refl refl i
configured-IsChain environ (cmd_add [] made) cmds c i = same-IsChain cmds c c refl refl i
configured-IsChain environ (cmd_add ([] ∷ argv) none) cmds c i = same-IsChain cmds c c refl refl i
configured-IsChain environ (cmd_add ((ch ∷ cmd) ∷ argv) none) cmds c i =
    same-IsChain cmds c c refl refl i
configured-IsChain environ (cmd_add ([] ∷ argv) (some id)) cmds c i =
    same-IsChain cmds c c refl refl i
configured-IsChain environ (cmd_add ((ch ∷ cmd) ∷ argv) (some id)) cmds c i =
    let e = command id (ch ∷ cmd) argv in
    record {
      linked = with_command-IsLinked c.internals e i.linked;
      commands = argvs-with_command c.internals e ∙ ap (λ l. l ++ (e.args ∷ [])) i.commands;
      config_open = i.config_open;
    }
configured-IsChain environ (env_set envv drop_old) cmds c i =
    on_last-IsChain cmds
      (λ e. record e {
        env = e.env ++ (if drop_old then envv else environ ++ envv);
        user_env = true;
      })
      c (record { id = λ e. refl; source = λ e. refl; args = λ e. refl }) i
configured-IsChain environ (sink_enable is_out) cmds c i =
    sunk-IsChain cmds is_out (λ node. record node { manual_enabled = true }) c i
configured-IsChain environ (sink_add_buffer is_out none) cmds c i =
    same-IsChain cmds c c refl refl i
configured-IsChain environ (sink_add_buffer is_out (some len)) cmds c i =
    sunk-IsChain cmds is_out
      (λ node. record node {
        dests = node.dests ++ (record { len = len; filled = [] } ∷ []);
        auto_enabled = true;
      })
      c i
configured-IsChain environ (sink_add_string none is_out) cmds c i =
    same-IsChain cmds c c refl refl i
configured-IsChain environ (sink_add_string (some str) is_out) cmds c i =
    sunk-IsChain cmds is_out
      (λ node. record node { strings = node.strings ++ (str ∷ []); auto_enabled = true }) c i
configured-IsChain environ (sink_add_fd none auto_close is_out) cmds c i =
    same-IsChain cmds c c refl refl i
configured-IsChain environ (sink_add_fd (some fd) auto_close is_out) cmds c i =
    sunk-IsChain cmds is_out
      (λ node. record node { fds = node.fds ++ (new_fd fd auto_close ∷ []); auto_enabled = true }) c
      i
configured-IsChain environ (sink_add_transfer none is_out) cmds c i =
    same-IsChain cmds c c refl refl i
configured-IsChain environ (sink_add_transfer (some id) is_out) cmds c i =
    sunk-IsChain cmds is_out
      (λ node. record node {
        transfers = node.transfers ++ (new_transfer id ∷ []);
        auto_enabled = true;
      })
      c i
configured-IsChain environ err_redirect cmds c i =
    on_last-IsChain cmds (λ e. record e { node_err = record e.node_err { redirect = true } }) c
      (record { id = λ e. refl; source = λ e. refl; args = λ e. refl }) i

configure_all-from :
    (environ : List (List ℕ)) (calls : List Call) (cmds : List (List (List ℕ))) (c : Container)
    → IsChain cmds c
    → IsChain (cmds ++ wanted_all calls) (configure_all environ calls c)
unfolding configure_all configure wanted_all
configure_all-from environ [] cmds c i = rw (append-nil cmds) i
configure_all-from environ (call ∷ calls) cmds c i =
    let rest =
      configure_all-from environ calls (cmds ++ wanted call) (configured environ call c)
        (configured-IsChain environ call cmds c i) in
    simp i.config_open (
      subst (λ l. IsChain l (configure_all environ calls (configured environ call c)))
        (append_assoc cmds (wanted call) (wanted_all calls)) rest)

-- After any sequence of configuring calls of a new container, its commands are those that the calls
-- ask for, in their order; each command but the last sends its output to the one behind it, and the
-- configuration is still open.
pub configure_all-IsChain :
    (environ : List (List ℕ)) (calls : List Call)
    → IsChain (wanted_all calls) (configure_all environ calls new_container)
configure_all-IsChain environ calls =
    configure_all-from environ calls [] new_container
      (record { linked = tt; commands = refl; config_open = refl })
