-- ===== src/FileExecuting/Config.antt =====
-- FileExecuting.cpp: the functions that configure a container, and its `process`. The results that
-- mResults of a container has are those of its `Exec`s, whose mpResult points to them.
pub mod Links
use processing_common.Common.{
  ℕ, zero, suc, Bool, true, false, not, ◌&&◌, ◌||◌, ◌==◌, if◌then◌else◌, List, [], ◌∷◌, ◌++◌,
  Option, none, some, length, take, map,
}
use processing_common.FileExecuting.Child.{Success, pending, positive}
use processing_common.FileExecuting.{
  Source, Dest, FdSetting, Transfer, Node, new_node, Exec, new_exec, new_result,
}

pub data ContainerState : Type 0 where
  cs_start container_start internals_supervise sd_container_start sd_container sd_internals_free :
      ContainerState

pub record Container : Type 0 where
  pub state : ContainerState
  pub internals : List Exec
  pub node_in : Node
  pub ms_timeout : ℕ
  pub config_closed : Bool
  pub internals_started : Bool
  pub send_ready : Bool
  pub read_ready : Bool
  pub done : Bool

abbrev pub new_container : Container
new_container = record {
  state = cs_start;
  internals = [];
  node_in = new_node;
  ms_timeout = 0;
  config_closed = false;
  internals_started = false;
  send_ready = false;
  read_ready = false;
  done = false;
}

-- strlen() of what is at a pointer, applied
unfoldable pub c_str : List ℕ → List ℕ
c_str [] = []
c_str (b ∷ str) = let rest = c_str str in if b == 0 then [] else b ∷ rest

-- What is behind the last '/' or '\\' of a command.
unfoldable pub base_from : List ℕ → List ℕ → List ℕ
base_from [] base = base
base_from (c ∷ cmd) base = if (c == 47) || (c == 92) then base_from cmd cmd else base_from cmd base

abbrev pub cmd_base_of : List ℕ → List ℕ
cmd_base_of cmd = base_from cmd cmd

-- mLstExec.back(), changed
unfoldable pub change_last : (Exec → Exec) → List Exec → List Exec
change_last f [] = []
change_last f (e ∷ []) = f e ∷ []
change_last f (e ∷ e' ∷ es) = e ∷ change_last f (e' ∷ es)

-- The calls of the configuration. A null pointer and an invalid descriptor are `none`; an added
-- command has the number of its new object, if there is one; `is_out` is `fdSel == STDOUT_FILENO`.
pub data Call : Type 0 where
  ms_timeout_set : ℕ → Call
  source_enable : Call
  source_set_buffer : Option (List ℕ) → ℕ → Call
  source_set_string : Option (List ℕ) → Call
  source_set_fd : Option ℕ → Bool → Call
  source_set_transfer : Option ℕ → Call
  cmd_add : List (List ℕ) → Option ℕ → Call
  env_set : List (List ℕ) → Bool → Call
  sink_enable : Bool → Call
  sink_add_buffer : Bool → Option ℕ → Call
  sink_add_string : Option (List ℕ) → Bool → Call
  sink_add_fd : Option ℕ → Bool → Bool → Call
  sink_add_transfer : Option ℕ → Bool → Call
  err_redirect : Call

-- The node of the last command, changed.
abbrev pub sink_changed : Bool → (Node → Node) → Exec → Exec
sink_changed is_out f e =
    if is_out then record e { node_out = f e.node_out } else record e { node_err = f e.node_err }

abbrev pub new_transfer : ℕ → Transfer
new_transfer id = record { id = id; sent = []; is_done = false }

abbrev pub new_fd : ℕ → Bool → FdSetting
new_fd fd auto_close = record { fd = some fd; auto_close = auto_close; written = [] }

abbrev pub on_last : (Exec → Exec) → Container → Container
on_last f c = record c { internals = change_last f c.internals }

abbrev source_node : Node → List ℕ → Node
source_node node str = record node {
  sources = record { src = str; processed = 0 } ∷ [];
  auto_enabled = true;
}

-- The nodes and commands behind one call.
abbrev sink_enabled : Node → Node
sink_enabled node = record node { manual_enabled = true }

abbrev buffer_added : ℕ → Node → Node
buffer_added len node = record node {
  dests = node.dests ++ (record { len = len; filled = [] } ∷ []);
  auto_enabled = true;
}

abbrev string_added : List ℕ → Node → Node
string_added str node = record node { strings = node.strings ++ (str ∷ []); auto_enabled = true }

abbrev fd_added : ℕ → Bool → Node → Node
fd_added fd auto_close node = record node {
  fds = node.fds ++ (new_fd fd auto_close ∷ []);
  auto_enabled = true;
}

abbrev transfer_added : ℕ → Node → Node
transfer_added id node = record node {
  transfers = node.transfers ++ (new_transfer id ∷ []);
  auto_enabled = true;
}

abbrev env_added : List (List ℕ) → Exec → Exec
env_added envv e = record e { env = e.env ++ envv; user_env = true }

abbrev err_redirected : Exec → Exec
err_redirected e = record e { node_err = record e.node_err { redirect = true } }

abbrev source_fd : ℕ → Bool → Node → Node
source_fd fd auto_close node = record node { fds = new_fd fd auto_close ∷ []; auto_enabled = true }

abbrev source_transfer : ℕ → Node → Node
source_transfer id node = record node { transfers = new_transfer id ∷ []; auto_enabled = true }

abbrev pub command : ℕ → List ℕ → List (List ℕ) → Exec
command id cmd argv = record (new_exec id) {
  cmd = cmd;
  cmd_base = cmd_base_of cmd;
  args = cmd ∷ argv;
}

abbrev pub with_source : Exec → Exec
with_source e = record e { node_in = record e.node_in { manual_enabled = true } }

-- The command that stands before gets the new one as a transfer.
unfoldable pub linked_to : ℕ → Exec → Exec
linked_to id e = record e {
  node_out = record e.node_out {
    transfers = e.node_out.transfers ++ (new_transfer id ∷ []);
    auto_enabled = true;
  };
}

-- The list with a new command.
unfoldable pub with_command : List Exec → Exec → List Exec
unfolding change_last linked_to
with_command [] e = e ∷ []
with_command (e' ∷ es) e = change_last (linked_to e.id) (e' ∷ es) ++ (with_source e ∷ [])

unfoldable pub int_cmd_add : List ℕ → List (List ℕ) → Option ℕ → Container → Container
unfolding with_command
int_cmd_add cmd argv none c = c
int_cmd_add [] argv (some id) c = c
int_cmd_add (ch ∷ cmd) argv (some id) c = record c {
  internals = with_command c.internals (command id (ch ∷ cmd) argv);
}

-- A call while the configuration is open; `environ` is the environment of the program.
unfoldable pub configured : List (List ℕ) → Call → Container → Container
unfolding change_last int_cmd_add c_str
configured environ (ms_timeout_set ms) c = record c { ms_timeout = ms }
configured environ source_enable c = record c {
  node_in = record c.node_in { manual_enabled = true };
}
configured environ (source_set_buffer none len) c = c
configured environ (source_set_buffer (some str) len) c = record c {
  node_in = source_node c.node_in (if len == 0 then c_str str else take len str);
}
configured environ (source_set_string none) c = c
configured environ (source_set_string (some str)) c = record c {
  node_in = source_node c.node_in str;
}
configured environ (source_set_fd none auto_close) c = c
configured environ (source_set_fd (some fd) auto_close) c = record c {
  node_in = source_fd fd auto_close c.node_in;
}
configured environ (source_set_transfer none) c = c
configured environ (source_set_transfer (some id)) c = record c {
  node_in = source_transfer id c.node_in;
}
configured environ (cmd_add [] made) c = c
configured environ (cmd_add (cmd ∷ argv) made) c = int_cmd_add cmd argv made c
configured environ (env_set envv drop_old) c =
    on_last (env_added (if drop_old then envv else environ ++ envv)) c
configured environ (sink_enable is_out) c = on_last (sink_changed is_out sink_enabled) c
configured environ (sink_add_buffer is_out none) c = c
configured environ (sink_add_buffer is_out (some len)) c =
    on_last (sink_changed is_out (buffer_added len)) c
configured environ (sink_add_string none is_out) c = c
configured environ (sink_add_string (some str) is_out) c =
    on_last (sink_changed is_out (string_added str)) c
configured environ (sink_add_fd none auto_close is_out) c = c
configured environ (sink_add_fd (some fd) auto_close is_out) c =
    on_last (sink_changed is_out (fd_added fd auto_close)) c
configured environ (sink_add_transfer none is_out) c = c
configured environ (sink_add_transfer (some id) is_out) c =
    on_last (sink_changed is_out (transfer_added id)) c
configured environ err_redirect c = on_last err_redirected c

unfoldable pub configure : List (List ℕ) → Call → Container → Container
unfolding configured
configure environ call c = if c.config_closed then c else configured environ call c

unfoldable pub configure_all : List (List ℕ) → List Call → Container → Container
unfolding configure
configure_all environ [] c = c
configure_all environ (call ∷ calls) c = configure_all environ calls (configure environ call c)

-- mLstExec.front()
abbrev change_first : (Exec → Exec) → List Exec → List Exec
change_first f [] = []
change_first f (e ∷ es) = f e ∷ es

abbrev fresh : Exec → Exec
fresh e = record e { result = new_result }

abbrev first_ready : List Exec → Bool
first_ready [] = false
first_ready (e ∷ es) = e.send_ready

last_ready : List Exec → Bool
last_ready [] = false
last_ready (e ∷ []) = e.read_ready
last_ready (e ∷ e' ∷ es) = last_ready (e' ∷ es)

abbrev done_first : Bool → List Exec → List Exec
done_first done es = if done then change_first (λ e. record e { done = true }) es else es

abbrev started : Container → Container
started c = record c {
  state = container_start;
  internals = map fresh (change_first (λ e. record e { node_in = c.node_in }) c.internals);
  config_closed = true;
  internals_started = true;
}

-- `process` of a container; `children` is childrenSuccess().
unfoldable pub container_process_in : ContainerState → Container → Success → Container × Success
unfolding last_ready
container_process_in cs_start c children =
    if length c.internals == 0
    then (record c { config_closed = true }, positive)
    else (started c, pending)
container_process_in container_start c children =
    (record c { state = internals_supervise }, pending)
container_process_in internals_supervise c children = (
  record c {
    send_ready = c.send_ready || first_ready c.internals;
    read_ready = c.read_ready || last_ready c.internals;
    internals = done_first c.done c.internals;
  },
  children,
)
container_process_in sd_container_start c children = (c, pending)
container_process_in sd_container c children = (c, pending)
container_process_in sd_internals_free c children = (c, pending)

unfoldable pub container_process : Container → Success → Container × Success
unfolding container_process_in
container_process c children = container_process_in c.state c children

-- `shutdown` of a container, which deletes the commands that have not been started.
unfoldable pub container_shutdown : Container → Container × Success
container_shutdown c = elim c.state [
  | sd_container_start ↦ (record c { state = sd_container }, pending)
  | sd_container ↦ (record c { state = sd_internals_free }, pending)
  | sd_internals_free ↦ (if c.internals_started then c else record c { internals = [] }, positive)
  | cs_start ↦ (record c { state = sd_container_start }, pending)
  | container_start ↦ (record c { state = sd_container_start }, pending)
  | internals_supervise ↦ (record c { state = sd_container_start }, pending)
]
