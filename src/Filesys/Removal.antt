-- ===== src/Filesys/Removal.antt =====
-- What dir_remove() of filesys/directory.c comes to.
use pint_os_assignment.Common.{
  ℕ, ◌<◌, ◌≤◌, ◌≡◌, ◌≢◌, Bool, true, false, List, length, ◌==◌, if◌then◌else◌, Result, ok,
}
use pint_os_assignment.Bitmap.Set.{bit}
use pint_os_assignment.OpenInodes.{FileSystem}
use pint_os_assignment.OpenInodes.Table.{owns, IsOpen, IsSound, new_inode, IsFresh}
use pint_os_assignment.Directory.{Dir, inode_sector}
use pint_os_assignment.Directory.Slots.{slots, slot, entry_is, Agree}

-- The sector that an entry names.
abbrev pub target : FileSystem → Dir → ℕ → ℕ
target fs dir k = inode_sector (slot fs.device (fs.inodes dir.inode) k)

-- No inode of the sector is open.
abbrev pub Unopened : FileSystem → ℕ → Type 0
Unopened fs sector = (c : ℕ) → IsOpen fs c → ((fs.inodes c).sector == sector) ≡ false

-- What dir_remove() finds in the entry: another inode than the directory's own, which is open or can
-- be opened with the memory `a`.
pub record IsTarget (fs : FileSystem) (dir : Dir) (a k : ℕ) : Type 0 where
  pub other : target fs dir k ≢ (fs.inodes dir.inode).sector
  pub fresh : Unopened fs (target fs dir k) → IsFresh fs (target fs dir k) a

-- An entry that is removed: it is the first that has the name, its name is gone from it and no byte
-- of another entry changes; an inode that someone
-- else has open is marked and keeps its sectors, one that nobody has open loses just its sectors.
pub record IsRemoved (fs fs' : FileSystem) (dir : Dir) (name : List ℕ) (k : ℕ) : Type 0 where
  pub sound : IsSound fs'
  pub inside : k < slots (fs.inodes dir.inode)
  pub named : entry_is name (slot fs.device (fs.inodes dir.inode) k) ≡ true
  pub first : (j : ℕ) → j < k → entry_is name (slot fs.device (fs.inodes dir.inode) j) ≡ false
  pub kept :
      (j : ℕ)
      → j ≢ k
      → Agree (slot fs'.device (fs.inodes dir.inode) j) (slot fs.device (fs.inodes dir.inode) j)
  pub names :
      (other : List ℕ) (j : ℕ)
      → length other ≤ 14
      → entry_is other (slot fs'.device (fs.inodes dir.inode) j)
        ≡ (if j == k then false else entry_is other (slot fs.device (fs.inodes dir.inode) j))
  pub deferred :
      (c : ℕ)
      → IsOpen fs c
      → (fs.inodes c).sector ≡ target fs dir k
      → ((fs'.inodes c).removed ≡ true)
        × ((fs'.inodes c).open_cnt ≡ (fs.inodes c).open_cnt)
        × ((s : ℕ) → bit fs'.free_map s ≡ bit fs.free_map s)
  pub released :
      Unopened fs (target fs dir k)
      → (s : ℕ)
      → bit fs'.free_map s
        ≡ (if owns (new_inode fs (target fs dir k)) s then false else bit fs.free_map s)

pub data Removal (fs : FileSystem) (dir : Dir) (name : List ℕ) (r : Result (Bool × FileSystem))
    : Type 0 where
  absent :
      r ≡ ok (false, fs)
      → ((j : ℕ)
          → j < slots (fs.inodes dir.inode)
          → entry_is name (slot fs.device (fs.inodes dir.inode) j) ≡ false)
      → Removal fs dir name r
  removed :
      (k : ℕ) (fs' : FileSystem)
      → r ≡ ok (true, fs')
      → IsRemoved fs fs' dir name k
      → Removal fs dir name r
