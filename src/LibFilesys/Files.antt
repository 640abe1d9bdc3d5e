-- ===== src/LibFilesys/Files.antt =====
-- LibFilesys.cpp: `fdCreate`, `fdClose` and `lockDirDefaultOpen`. A descriptor
-- below zero is `none`.
use processing_common.Common.{
  ℕ, ◌≡◌, refl, Bool, true, false, not, ◌&&◌, ◌||◌, ◌==◌, if◌then◌else◌, same_str, List, [], ◌∷◌,
  ◌++◌, Option, none, some, length,
}

-- The flags of open(), by their names.
pub data Access : Type 0 where
  read_only write_only read_write : Access

pub record OpenFlags : Type 0 where
  pub access : Access
  pub trunc : Bool
  pub append : Bool
  pub close_on_exec : Bool

abbrev flags_of : Access → Bool → Bool → Bool → OpenFlags
flags_of access trunc append close_on_exec = record {
  access = access;
  trunc = trunc;
  append = append;
  close_on_exec = close_on_exec;
}

-- The flags of a mode, and whether the file is created where it is missing; an unknown mode has the
-- flags 0.
unfoldable pub mode_flags : List ℕ → Bool → OpenFlags × Bool
mode_flags mode exec =
    if same_str mode (b'r' ∷ [])
    then (flags_of read_only false false exec, false)
    else if same_str mode (b'r' ∷ b'+' ∷ [])
    then (flags_of read_write false false exec, false)
    else if same_str mode (b'w' ∷ [])
    then (flags_of write_only true false exec, true)
    else if same_str mode (b'w' ∷ b'+' ∷ [])
    then (flags_of read_write true false exec, true)
    else if same_str mode (b'a' ∷ [])
    then (flags_of write_only false true exec, true)
    else if same_str mode (b'a' ∷ b'+' ∷ [])
    then (flags_of read_write false true exec, true)
    else (flags_of read_only false false exec, true)

-- What the file system answers about one path.
pub record PathOs : Type 0 where
  pub file_exists : Bool
  pub file_create : Bool
  pub open_file : OpenFlags → Option ℕ

unfoldable pub fd_create : List ℕ → List ℕ → Bool → PathOs → Option ℕ
unfolding mode_flags
fd_create path mode close_on_exec os =
    let r = mode_flags mode close_on_exec in
    if (length path == 0) || (length mode == 0)
    then none
    else if r.1 && (not os.file_exists && not os.file_create)
    then none
    else os.open_file r.0

-- The descriptor behind fdClose.
unfoldable pub fd_close : Option ℕ → Bool → Option ℕ
fd_close none de_init = none
fd_close (some fd) de_init = if de_init then none else some fd

-- The static variables of the locks' directory; a descriptor of 0 stands for none that is open.
pub record LockDir : Type 0 where
  pub fd_lock : Option ℕ
  pub dir_base : List ℕ

abbrev pub new_lock_dir : LockDir
new_lock_dir = record { fd_lock = some 0; dir_base = [] }

-- The path with a '/' at its end.
unfoldable pub with_slash : List ℕ → List ℕ
with_slash [] = []
with_slash (c ∷ []) = if c == b'/' then c ∷ [] else c ∷ b'/' ∷ []
with_slash (c ∷ c' ∷ path) = c ∷ with_slash (c' ∷ path)

abbrev opened : Option ℕ → List ℕ → LockDir → LockDir × Bool
opened none dir d = (record d { fd_lock = none }, false)
opened (some fd) dir d = (record { fd_lock = some fd; dir_base = dir }, true)

-- `open_file` answers for the file ".lock" in the directory.
unfoldable pub lock_dir_default_open : (List ℕ → Option ℕ) → List ℕ → LockDir → LockDir × Bool
unfolding with_slash
lock_dir_default_open open_file dir d = elim d.fd_lock [
  | none ↦ (d, false)
  | some fd ↦
      if not (fd == 0)
      then (d, false)
      else if length dir == 0
      then (d, false)
      else opened (open_file (with_slash dir ++ (b'.' ∷ b'l' ∷ b'o' ∷ b'c' ∷ b'k' ∷ [])))
          (with_slash dir) d
]

-- Behind an open that has failed, each later one fails and changes nothing.
pub lock_dir_default_open_lem :
    (open_file : List ℕ → Option ℕ) (dir : List ℕ) (d : LockDir)
    → d.fd_lock ≡ none
    → lock_dir_default_open open_file dir d ≡ (d, false)
unfolding lock_dir_default_open
lock_dir_default_open_lem open_file dir d failed = rw failed refl
