-- ===== src/Filesys.antt =====
-- filesys/filesys.c, and the operations of filesys/directory.c that open and close inodes. `e` is
-- what an entry on the stack holds before; the outcomes of the allocations are arguments.
pub mod Frame
pub mod Outcome
pub mod Creation
pub mod Create
pub mod Remove
pub mod Removal
use pint_os_assignment.Common.{
  ℕ, Bool, true, false, not, ◌&&◌, Option, none, some, List, ◌==◌, if◌then◌else◌, update, Result,
  ok, ◌>>=◌, ◌*◌,
}
use pint_os_assignment.Block.{Bytes}
use pint_os_assignment.Inode.{inode_write_at}
use pint_os_assignment.FreeMap.{root_dir_sector, free_map_allocate, free_map_release}
use pint_os_assignment.OpenInodes.{
  FileSystem, inode_create, inode_open, inode_reopen, inode_close, inode_remove,
}
use pint_os_assignment.File.{File, close_inode, file_open}
use pint_os_assignment.Directory.{Dir, entry_size, in_use_ofs, inode_sector, lookup, dir_add}

-- What calloc() and malloc() return: for a directory, for the root directory's inode, for another
-- inode, for an inode to be written, for a bounce buffer, and for a file.
pub record Memory : Type 0 where
  pub dir : Bool
  pub root : Option ℕ
  pub inode : Option ℕ
  pub disk : Bool
  pub bounce : Bool
  pub file : Bool

unfoldable pub dir_open : Bool → FileSystem → Option ℕ → Result (Option Dir × FileSystem)
dir_open true fs (some a) = ok (some (record { inode = a; pos = 0 }), fs)
dir_open true fs none = ok (none, fs)
dir_open false fs inode = do fs' ← close_inode fs inode; ok (none, fs')

unfoldable pub dir_open_root : Memory → FileSystem → Result (Option Dir × FileSystem)
dir_open_root m fs = do
  (inode, fs') ← inode_open m.root fs root_dir_sector
  dir_open m.dir fs' inode

unfoldable pub dir_reopen : Memory → FileSystem → Dir → Result (Option Dir × FileSystem)
dir_reopen m fs dir = dir_open m.dir (inode_reopen fs dir.inode) (some dir.inode)

unfoldable pub dir_close : FileSystem → Option Dir → Result FileSystem
dir_close fs none = ok fs
dir_close fs (some dir) = inode_close fs dir.inode

unfoldable pub dir_create : Memory → Bool → FileSystem → ℕ → ℕ → Result (Bool × FileSystem)
dir_create m writes fs sector entry_cnt =
    inode_create m.disk writes fs sector (entry_cnt * entry_size)

-- dir_lookup() with what lookup() found, and the whole.
unfoldable pub open_found :
    Memory → FileSystem → Option (Bytes × ℕ) → Result (Option ℕ × FileSystem)
open_found m fs none = ok (none, fs)
open_found m fs (some (e, ofs)) = inode_open m.inode fs (inode_sector e)

unfoldable pub dir_lookup :
    Memory → FileSystem → Dir → Bytes → List ℕ → Result (Option ℕ × FileSystem)
dir_lookup m fs dir e name = do
  found ← lookup m.bounce fs.device (fs.inodes dir.inode) e name
  open_found m fs found

-- dir_remove() from the opened inode on, from what lookup() found on, and the whole.
unfoldable pub remove_opened :
    Memory → FileSystem → Dir → Bytes → ℕ → Option ℕ → Result (Bool × FileSystem)
remove_opened m fs dir e ofs none = ok (false, fs)
remove_opened m fs dir e ofs (some a) = do
  (n, b) ←
      inode_write_at m.bounce fs.device (fs.inodes dir.inode) (update e in_use_ofs 0) entry_size ofs
  let erased : FileSystem = record fs { device = b }
  fs' ← inode_close (if n == entry_size then inode_remove erased a else erased) a
  ok (n == entry_size, fs')

unfoldable pub remove_found :
    Memory → FileSystem → Dir → Option (Bytes × ℕ) → Result (Bool × FileSystem)
remove_found m fs dir none = ok (false, fs)
remove_found m fs dir (some (e, ofs)) = do
  (inode, fs') ← inode_open m.inode fs (inode_sector e)
  remove_opened m fs' dir e ofs inode

unfoldable pub dir_remove : Memory → FileSystem → Dir → Bytes → List ℕ → Result (Bool × FileSystem)
dir_remove m fs dir e name = do
  found ← lookup m.bounce fs.device (fs.inodes dir.inode) e name
  remove_found m fs dir found

-- filesys_create() with an inode made or not, with a sector allocated or not, with a directory or
-- not, and the whole. `writes` tells of each allocation whether the free map can be written.
unfoldable pub add_made :
    Memory → FileSystem → Dir → Bytes → List ℕ → ℕ → Bool → Result (Bool × FileSystem)
add_made m fs dir e name sector false = ok (false, fs)
add_made m fs dir e name sector true = do
  (added, b) ← dir_add m.bounce fs.device (fs.inodes dir.inode) e name sector
  ok (added, record fs { device = b })

-- The sector of a file that could not be created is released.
unfoldable pub release_failed : FileSystem → ℕ → Bool → Result FileSystem
release_failed fs sector success =
    let released = (do
      map ← free_map_release fs.free_map sector 1
      ok (record fs { free_map = map })) in
    if not success && not (sector == 0) then released else ok fs

unfoldable pub create_at_sector :
    Memory → Bool → FileSystem → Dir → Bytes → List ℕ → ℕ → Option ℕ → Result (Bool × FileSystem)
create_at_sector m writes fs dir e name size none = do
  fs' ← dir_close fs (some dir)
  ok (false, fs')
create_at_sector m writes fs dir e name size (some sector) = do
  (made, fs₁) ← inode_create m.disk writes fs sector size
  (success, fs₂) ← add_made m fs₁ dir e name sector made
  fs₃ ← release_failed fs₂ sector success
  fs₄ ← dir_close fs₃ (some dir)
  ok (success, fs₄)

unfoldable pub create_in :
    Memory → (ℕ → Bool) → FileSystem → Bytes → List ℕ → ℕ → Option Dir → Result (Bool × FileSystem)
create_in m writes fs e name size none = ok (false, fs)
create_in m writes fs e name size (some dir) = do
  (sector, map) ← free_map_allocate fs.has_map_file (writes 0) fs.free_map 1
  create_at_sector m (writes 1) (record fs { free_map = map }) dir e name size sector

unfoldable pub filesys_create :
    Memory → (ℕ → Bool) → FileSystem → Bytes → List ℕ → ℕ → Result (Bool × FileSystem)
filesys_create m writes fs e name size = do
  (dir, fs') ← dir_open_root m fs
  create_in m writes fs' e name size dir

-- filesys_open() with a directory or not, and the whole.
unfoldable pub open_in :
    Memory → FileSystem → Bytes → List ℕ → Option Dir → Result (Option File × FileSystem)
open_in m fs e name none = file_open m.file fs none
open_in m fs e name (some dir) = do
  (inode, fs₁) ← dir_lookup m fs dir e name
  fs₂ ← dir_close fs₁ (some dir)
  file_open m.file fs₂ inode

unfoldable pub filesys_open :
    Memory → FileSystem → Bytes → List ℕ → Result (Option File × FileSystem)
filesys_open m fs e name = do (dir, fs') ← dir_open_root m fs; open_in m fs' e name dir

unfoldable pub remove_in :
    Memory → FileSystem → Bytes → List ℕ → Option Dir → Result (Bool × FileSystem)
remove_in m fs e name none = ok (false, fs)
remove_in m fs e name (some dir) = do
  (success, fs₁) ← dir_remove m fs dir e name
  fs₂ ← dir_close fs₁ (some dir)
  ok (success, fs₂)

unfoldable pub filesys_remove : Memory → FileSystem → Bytes → List ℕ → Result (Bool × FileSystem)
filesys_remove m fs e name = do (dir, fs') ← dir_open_root m fs; remove_in m fs' e name dir
