-- ===== src/Store/Commit.antt =====
-- `searchStoreCommit` of sys-agent/source/search_store.c: a new file takes the place of the current one, which is kept
-- as a backup until then. The three names are different.
use sys_agent.Prelude.{
  ◌≡◌, ◌⊎◌, arith, Bool, true, false, not, ◌&&◌, Option, none, some, Bytes, if◌then◌else◌,
}

-- What is stored under the three names.
pub record Names : Type 0 where
  pub temporary : Option Bytes
  pub current : Option Bytes
  pub backup : Option Bytes

-- What the system answers to each call: whether the old backup is removed, the current file renamed, the new one
-- renamed, the old one renamed back, and the backup removed.
pub record Answers : Type 0 where
  pub removed : Bool
  pub saved : Bool
  pub replaced : Bool
  pub restored : Bool
  pub cleaned : Bool

-- Whether something is stored.
unfoldable pub is_stored : Option Bytes → Bool
is_stored none = false
is_stored (some content) = true

-- `remove(backup)`
unfoldable pub remove_backup : Bool → Names → Names
remove_backup answer n = if answer then record n { backup = none } else n

-- `rename(current, backup)`; a file that is not there cannot be renamed.
unfoldable pub rename_to_backup : Bool → Names → Bool × Names
rename_to_backup answer n =
    if answer && is_stored n.current
    then (true, record n { current = none; backup = n.current })
    else (false, n)

-- `rename(temporary, current)`
unfoldable pub rename_to_current : Bool → Names → Bool × Names
rename_to_current answer n =
    if answer && is_stored n.temporary
    then (true, record n { temporary = none; current = n.temporary })
    else (false, n)

-- `rename(backup, current)`
unfoldable pub rename_back : Bool → Names → Names
rename_back answer n =
    if answer && is_stored n.backup then record n { current = n.backup; backup = none } else n

-- `searchStoreCommit`
unfoldable pub commit : Answers → Bool → Names → Bool × Names
unfolding remove_backup rename_to_backup rename_to_current rename_back is_stored
commit a current_exists n =
    let cleared = remove_backup a.removed n in
    let (saved, kept) = rename_to_backup a.saved cleared in
    let before = if current_exists then kept else cleared in
    let (replaced, after) = rename_to_current a.replaced before in
    if current_exists && not saved
    then (false, kept)
    else if not replaced
    then (false, if current_exists then rename_back a.restored before else before)
    else (true, if current_exists then remove_backup a.cleaned after else after)

-- What a commit leaves: either the new file is the current one, or the new file is where it was and the old one is
-- current, or it is the backup since the system refused to rename it back.
abbrev pub Committed : Answers → Names → Bool × Names → Type 0
Committed a n (true, after) =
    (is_stored n.temporary ≡ true) × (after.current ≡ n.temporary) × (after.temporary ≡ none)
Committed a n (false, after) =
    (after.temporary ≡ n.temporary)
    × ((after.current ≡ n.current) ⊎ ((a.restored ≡ false) × (after.backup ≡ n.current)))

-- Whatever the system answers, where the caller says rightly whether there is a current file: if the commit succeeds,
-- there was a new file, which is the current one and its temporary name is free; if it fails, the new file is still under its
-- temporary name, and the old one is still current or, only if the system refuses to rename it back, the backup.
pub commit-Committed : (a : Answers) (n : Names) → Committed a n (commit a (is_stored n.current) n)
unfolding commit
commit-Committed a n = ground arith
