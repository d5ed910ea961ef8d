-- ===== src/Store/Directory.antt =====
-- The directory of the search store, in sys-agent/source/search_store.c: `searchStoreHasFreeSpace`,
-- `searchStorePrepareDirectory` and `searchStoreClearDirectory`. What the system answers is an argument.
use sys_agent.Prelude.{
  ℕ, ◌-◌, ◌*◌, ◌%◌, Bool, true, false, not, ◌&&◌, Option, none, some, List, [], ◌∷◌, ◌++◌, Bytes,
  length, leb, ◌==◌, if◌then◌else◌,
}
use sys_agent.Prelude.Word.{u64_mod, u64_max, add_u64}
use sys_agent.Store.Writer.{path_max}

-- `searchStoreHasFreeSpace`, by the free blocks and their size, if the system tells them: whether there is the space,
-- and the free bytes.
unfoldable pub has_free_space : Option (ℕ × ℕ) → ℕ → ℕ → Bool × Option ℕ
has_free_space none required reserve = (false, none)
has_free_space (some (blocks, size)) required reserve =
    let free = blocks * size % u64_mod in
    (leb required (u64_max - reserve) && leb (add_u64 required reserve) free, some free)

-- The loop over the bytes of a path, behind those in front: the directory of each slash is made. It gives whether all
-- were made or there, and the directories that were tried.
unfoldable pub make_parents : (Bytes → Bool) → Bytes → Bytes → Bool × List Bytes
make_parents make front [] = (true, [])
make_parents make front (c ∷ path) =
    let (ok, tried) = make_parents make (front ++ c ∷ []) path in
    if not (c == b'/')
    then (ok, tried)
    else if make front
    then (ok, front ∷ tried)
    else (false, front ∷ [])

-- What stands behind the first `:/`, and what in front of that.
unfoldable pub split_device : Bytes → Option (Bytes × Bytes)
split_device (c ∷ s ∷ path) =
    let rest = split_device (s ∷ path) in
    if c == b':' && s == b'/'
    then some (c ∷ s ∷ [], path)
    else elim rest [ none ↦ none | some (front, behind) ↦ some (c ∷ front, behind) ]
split_device path = none

-- Where the loop starts: behind the device, or behind the first byte.
unfoldable pub split_start : Bytes → Bytes × Bytes
unfolding split_device
split_start [] = ([], [])
split_start (c ∷ path) = elim (split_device (c ∷ path)) [
  | none ↦ (c ∷ [], path)
  | some parts ↦ parts
]

-- `searchStorePrepareDirectory` for a path that is not empty, where `make` tells whether a directory was made or is
-- there: whether the directory can be used, and the directories that were tried, in order.
unfoldable pub prepare_directory : (Bytes → Bool) → Bytes → Bool × List Bytes
unfolding make_parents split_start
prepare_directory make path =
    let (front, rest) = split_start path in
    let (ok, tried) = make_parents make front rest in
    if leb path_max (length path)
    then (false, [])
    else if ok
    then (make path, tried ++ path ∷ [])
    else (false, tried)

-- The path of an entry.
abbrev pub child : Bytes → Bytes → Bytes
child path name = path ++ b'/' ∷ name

-- `.` and `..`
unfoldable pub is_dot_name : Bytes → Bool
is_dot_name (a ∷ []) = a == b'.'
is_dot_name (a ∷ b ∷ []) = a == b'.' && b == b'.'
is_dot_name name = false

-- The loop over the entries: whether all were removed, and which were tried.
unfoldable pub remove_entries : (Bytes → Bool) → Bytes → List Bytes → Bool × List Bytes
unfolding is_dot_name
remove_entries remove path [] = (true, [])
remove_entries remove path (name ∷ names) =
    let (ok, tried) = remove_entries remove path names in
    if is_dot_name name
    then (ok, tried)
    else if leb path_max (length (child path name))
    then (false, tried)
    else (remove (child path name) && ok, child path name ∷ tried)

-- `searchStoreClearDirectory`, by the names in the directory, or whether it is missing if it does not open.
unfoldable pub clear_directory :
    (Bytes → Bool) → Bytes → Option (List Bytes) → Bool → Bool × List Bytes
unfolding remove_entries
clear_directory remove path none missing = (missing, [])
clear_directory remove path (some names) missing = remove_entries remove path names
