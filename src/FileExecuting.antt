-- ===== src/FileExecuting.antt =====
-- FileExecuting.h and FileExecuting.cpp: chains of child processes with pipes between them. An
-- object with `mIsInternal` is an `Exec` here, which runs one child; one without is a `Container`
-- of such (FileExecuting/Config.antt). Data are lists of bytes. A file descriptor is an option, and
-- `none` is -1. What the operating system answers to a call is an argument.
pub mod Io
pub mod Arguments
pub mod Auto
pub mod Child
pub mod Config
pub mod Results
pub mod Tests
use processing_common.Common.{ℕ, Bool, true, false, List, [], Option, none}

-- ssize_t of a call that sends: the number of bytes, or a negative code.
pub data Ssize : Type 0 where
  count : ℕ → Ssize
  err : ℕ → Ssize

-- The result of a call that reads: the bytes in the buffer, none of them for 0, or a negative code.
pub data Received : Type 0 where
  received : List ℕ → Received
  read_err : ℕ → Received

-- What read() answers; no bytes are the end of the file, and `again` is EAGAIN or EWOULDBLOCK.
pub data Reply : Type 0 where
  bytes : List ℕ → Reply
  again failed : Reply

-- What write() answers.
pub data Written : Type 0 where
  wrote : ℕ → Written
  write_failed : Written

-- FeNodeBuffer as a source and as a sink, whose `filled` are the bytes at pDest so far.
pub record Source : Type 0 where
  pub src : List ℕ
  pub processed : ℕ

pub record Dest : Type 0 where
  pub len : ℕ
  pub filled : List ℕ

-- FeFileDescSetting; `written` are the bytes given to write() so far.
pub record FdSetting : Type 0 where
  pub fd : Option ℕ
  pub auto_close : Bool
  pub written : List ℕ

-- A `Transfering` by its number; `sent` are the bytes given to its send() so far, `is_done` whether
-- doneSet() has been called.
pub record Transfer : Type 0 where
  pub id : ℕ
  pub sent : List ℕ
  pub is_done : Bool

pub record Node : Type 0 where
  pub fd_read : Option ℕ
  pub fd_write : Option ℕ
  pub sources : List Source
  pub dests : List Dest
  pub strings : List (List ℕ)
  pub fds : List FdSetting
  pub transfers : List Transfer
  pub manual_enabled : Bool
  pub auto_enabled : Bool
  pub auto_done : Bool
  pub redirect : Bool

-- FeNode(), with its pipe behind `pipeInit`
abbrev pub new_node : Node
new_node = record {
  fd_read = none;
  fd_write = none;
  sources = [];
  dests = [];
  strings = [];
  fds = [];
  transfers = [];
  manual_enabled = false;
  auto_enabled = false;
  auto_done = false;
  redirect = false;
}

-- The fields up to `code_ret` of FeResult; an idChild of -1 is `none`. `coreDumped`, which the code
-- never sets, keeps its value.
pub record FeResult : Type 0 where
  pub child_stopped : Bool
  pub child_terminated : Bool
  pub child_terminated_by_sig : Bool
  pub core_dumped : Bool
  pub id_child : Option ℕ
  pub code_sig : ℕ
  pub code_ret : ℕ

abbrev pub new_result : FeResult
new_result = record {
  child_stopped = false;
  child_terminated = false;
  child_terminated_by_sig = false;
  core_dumped = false;
  id_child = none;
  code_sig = 0;
  code_ret = 0;
}

pub data ExecState : Type 0 where
  start internal_start pipes_create fork parent_start sinks_ready_wait child_supervise : ExecState
  sd_start sd_internals sd_pipes_close : ExecState

-- `id` is its number as a `Transfering`; `piped` are the bytes that write() has taken for the child's standard input so far.
pub record Exec : Type 0 where
  pub id : ℕ
  pub state : ExecState
  pub cmd : List ℕ
  pub cmd_base : List ℕ
  pub args : List (List ℕ)
  pub env : List (List ℕ)
  pub user_env : Bool
  pub result : FeResult
  pub bytes_read : ℕ  -- uint32_t
  pub bytes_sent : ℕ  -- uint32_t
  pub node_in : Node
  pub node_out : Node
  pub node_err : Node
  pub send_ready : Bool
  pub read_ready : Bool
  pub done : Bool
  pub done_ack : Bool
  pub piped : List ℕ

abbrev pub new_exec : ℕ → Exec
new_exec id = record {
  id = id;
  state = start;
  cmd = [];
  cmd_base = [];
  args = [];
  env = [];
  user_env = false;
  result = new_result;
  bytes_read = 0;
  bytes_sent = 0;
  node_in = new_node;
  node_out = new_node;
  node_err = new_node;
  send_ready = false;
  read_ready = false;
  done = false;
  done_ack = false;
  piped = [];
}
