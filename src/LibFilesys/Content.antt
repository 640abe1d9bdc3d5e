-- ===== src/LibFilesys/Content.antt =====
-- LibFilesys.cpp: the functions on whole files and on descriptors. A file is a path and its bytes;
-- which paths can be opened, and how much is written, is an argument.
pub mod Copies
use processing_common.Common.{
  ℕ, zero, suc, ◌≤◌, ◌≡◌, ◌≢◌, ◌∙◌, inl, inr, refl, sym, ap, arith, Bool, true, false, not, ◌&&◌,
  ◌||◌, ◌==◌, if◌then◌else◌, same_str, same_str_self, same_str_eq, List, [], ◌∷◌, Option, none,
  some, length, take, take_of_length-le, Bool-cases,
}

abbrev pub Files : Type 0
Files = List (List ℕ × List ℕ)

unfoldable pub content : List ℕ → Files → Option (List ℕ)
content path [] = none
content path ((name, str) ∷ fs) = if same_str name path then some str else content path fs

-- A file with new bytes, put in front if it is new.
unfoldable pub written : List ℕ → List ℕ → Files → Files
written path str [] = (path, str) ∷ []
written path str ((name, old) ∷ fs) =
    if same_str name path then (name, str) ∷ fs else (name, old) ∷ written path str fs

-- Whether the permissions let a path be opened for reading and for writing.
pub record Access : Type 0 where
  pub read : List ℕ → Bool
  pub write : List ℕ → Bool

abbrev pub is_some : Option (List ℕ) → Bool
is_some none = false
is_some (some str) = true

unfoldable pub file_exists : Access → List ℕ → Files → Bool
unfolding content
file_exists a path fs = is_some (content path fs) && a.read path

-- fopen() with "w" empties a file that exists.
unfoldable pub file_create : Access → List ℕ → Files → Files × Bool
unfolding written
file_create a path fs = if a.write path then (written path [] fs, true) else (fs, false)

-- `len_written` is what fwrite() answers.
unfoldable pub str_to_file : Access → ℕ → List ℕ → List ℕ → Files → Files × Bool
unfolding written
str_to_file a len_written str path fs =
    if not (a.write path)
    then (fs, false)
    else (written path (take len_written str) fs, len_written == length str)

-- The bytes of the source once both streams are open.
abbrev pub copied : List ℕ → Option (List ℕ) → Files → Files
copied path none fs = fs
copied path (some str) fs = written path str fs

-- Both streams are opened, which empties the destination, before either is tested; the source is
-- read after that. The last write is not tested, and is taken as complete here.
unfoldable pub streams_copy : Bool → Bool → List ℕ → List ℕ → Files → Files × Bool
unfolding content written
streams_copy src false path_src path_dst fs = (fs, false)
streams_copy false true path_src path_dst fs = (written path_dst [] fs, false)
streams_copy true true path_src path_dst fs =
    let fs' = written path_dst [] fs in (copied path_dst (content path_src fs') fs', true)

unfoldable pub file_copy : Access → List ℕ → List ℕ → Files → Files × Bool
unfolding file_exists streams_copy
file_copy a path_src path_dst fs =
    streams_copy (file_exists a path_src fs) (a.write path_dst) path_src path_dst fs

-- What stat() answers, as far as it is looked at: whether the path is there, and is a directory.
abbrev pub dir_exists : Bool → Bool → Bool
dir_exists found is_dir = found && is_dir

-- The flags of a descriptor. `get` and `set` are whether both calls of fcntl() succeed.
pub record FdFlags : Type 0 where
  pub non_block : Bool
  pub others : ℕ

abbrev pub file_non_blocking_set : Bool → Bool → FdFlags → FdFlags × Bool
file_non_blocking_set get set flags =
    if not get
    then (flags, false)
    else if not set
    then (flags, false)
    else (record flags { non_block = true }, true)

-- A pipe, whose ends are none where they are closed.
pub record PairFd : Type 0 where
  pub fd_read : Option ℕ
  pub fd_write : Option ℕ

abbrev pub pipe_init : PairFd
pipe_init = record { fd_read = none; fd_write = none }
