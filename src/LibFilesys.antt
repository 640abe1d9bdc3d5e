-- ===== src/LibFilesys.antt =====
-- LibFilesys.cpp: descriptors, directories, and the flags that processes lock. What the operating
-- system answers is an argument; its files are the lists of the names that exist.
pub mod Dirs
pub mod Flags
pub mod Files
pub mod Content
pub mod Tests
use processing_common.Common.{
  ℕ, zero, suc, ◌+◌, Bool, true, false, not, ◌&&◌, ◌||◌, ◌==◌, if◌then◌else◌, same_str, List, [],
  ◌∷◌, ◌++◌, map, Option, none, some, length,
}

pub has : List ℕ → List (List ℕ) → Bool
has name [] = false
has name (n ∷ names) = same_str n name || has name names

pub without : List ℕ → List (List ℕ) → List (List ℕ)
without name [] = []
without name (n ∷ names) = if same_str n name then without name names else n ∷ without name names

-- One node of a path: the directories that exist, and whether the loop goes on.
unfoldable pub node_create : (List ℕ → Bool) → List ℕ → List (List ℕ) → List (List ℕ) × Bool
unfolding has
node_create mkdir [] dirs = (dirs, false)
node_create mkdir (c ∷ node) dirs =
    if has (c ∷ node) dirs
    then (dirs, true)
    else if mkdir (c ∷ node)
    then ((c ∷ node) ∷ dirs, true)
    else (dirs, false)

unfoldable pub node_next :
    List (List ℕ) × Bool → (List (List ℕ) → List (List ℕ) × Bool) → List (List ℕ) × Bool
node_next (dirs, false) next = (dirs, false)
node_next (dirs, true) next = next dirs

-- The loop of `dirCreate`, with what is in front of and behind its position.
unfoldable pub dirs_from : (List ℕ → Bool) → List ℕ → List ℕ → List (List ℕ) → List (List ℕ) × Bool
unfolding node_create node_next
dirs_from mkdir front [] dirs = node_create mkdir front dirs
dirs_from mkdir front (c ∷ path) dirs =
    if c == b'/'
    then node_next (node_create mkdir front dirs) (dirs_from mkdir (front ++ (c ∷ [])) path)
    else dirs_from mkdir (front ++ (c ∷ [])) path dirs

unfoldable pub dir_create : (List ℕ → Bool) → List ℕ → List (List ℕ) → List (List ℕ) × Bool
unfolding dirs_from
dir_create mkdir path dirs = dirs_from mkdir [] path dirs

pub data Success : Type 0 where
  pending positive negative : Success

-- What flock() answers.
pub data FileLock : Type 0 where
  taken would_block lock_failed : FileLock

-- A client's locks, and the flags that exist as files in the directory of the locks.
pub record Locks : Type 0 where
  pub user_locks : List (List ℕ)
  pub global_locks : List (List ℕ)
  pub flags : List (List ℕ)

pub any_flag : List (List ℕ) → List (List ℕ) → Bool
unfolding has
any_flag [] flags = false
any_flag (name ∷ names) flags = has name flags || any_flag names flags

unfoldable pub all_free : List (List ℕ) → List (List ℕ) → Bool
unfolding any_flag
all_free names flags = not (any_flag names flags)

-- The files that fileCreate makes, whose result is not looked at.
unfoldable pub files_made : (List ℕ → Bool) → List (List ℕ) → List (List ℕ) → List (List ℕ)
files_made create [] flags = flags
files_made create (name ∷ names) flags =
    files_made create names (if create name then name ∷ flags else flags)

-- Behind flock(), with fdLockDefault not below zero.
unfoldable pub flags_lock : (List ℕ → Bool) → FileLock → List (List ℕ) → Locks → Locks × Success
unfolding all_free files_made
flags_lock create would_block names l = (l, pending)
flags_lock create lock_failed names l = (l, negative)
flags_lock create taken names l = if not (all_free names l.flags) then (l, pending) else (
  record l {
    user_locks = l.user_locks ++ names;
    global_locks = names ++ l.global_locks;
    flags = files_made create names l.flags;
  },
  positive,
)

unfoldable pub sys_flags_int_lock :
    Bool → (List ℕ → Bool) → FileLock → List (List ℕ) → Locks → Locks × Success
unfolding flags_lock
sys_flags_int_lock dir_open create file_lock names l =
    if not dir_open then (l, negative) else flags_lock create file_lock names l

pub without_all : List (List ℕ) → List (List ℕ) → List (List ℕ)
unfolding without
without_all [] names = names
without_all (name ∷ more) names = without_all more (without name names)

-- The second loop of the unlocking: erase() gives the next position, and the loop moves on from
-- there. The locks that are left, the flags, and whether all moves are defined, which one behind the
-- end is not.
unfoldable pub unlock_loop : List (List ℕ) → List (List ℕ) → List (List ℕ) × List (List ℕ) × Bool
unfolding without
unlock_loop [] flags = ([], flags, true)
unlock_loop (name ∷ []) flags = ([], without name flags, false)
unlock_loop (name ∷ skipped ∷ locks) flags =
    let rest = unlock_loop locks (without name flags) in (skipped ∷ rest.0, rest.1, rest.2)

unfoldable pub sys_flags_int_unlock : Bool → Locks → Locks × Bool
unfolding without_all unlock_loop
sys_flags_int_unlock dir_open l =
    let r = unlock_loop l.user_locks l.flags in
    if not dir_open then (l, true) else (
      record {
        user_locks = r.0;
        global_locks = without_all l.user_locks l.global_locks;
        flags = r.1;
      },
      r.2,
    )
