-- ===== src/File.antt =====
-- filesys/file.c: open files, which share the inodes of filesys/inode.c. `memory` says whether
-- calloc() or malloc() gives memory.
pub mod Denials
pub mod Position
pub mod Accounts
use pint_os_assignment.Common.{
  ℕ, ◌+◌, Bool, true, false, not, Option, none, some, if◌then◌else◌, Result, ok, ◌>>=◌,
}
use pint_os_assignment.Block.{Bytes, Block}
use pint_os_assignment.Inode.{inode_length, inode_read_at, inode_write_at}
use pint_os_assignment.OpenInodes.{
  FileSystem, inode_reopen, inode_close, inode_deny_write, inode_allow_write,
}

-- `struct file`
pub record File : Type 0 where
  pub inode : ℕ
  pub pos : ℕ
  pub deny_write : Bool

-- inode_close() of an inode that may be the null pointer.
unfoldable pub close_inode : FileSystem → Option ℕ → Result FileSystem
close_inode fs none = ok fs
close_inode fs (some a) = inode_close fs a

unfoldable pub file_open : Bool → FileSystem → Option ℕ → Result (Option File × FileSystem)
file_open true fs (some a) = ok (some (record { inode = a; pos = 0; deny_write = false }), fs)
file_open true fs none = ok (none, fs)
file_open false fs inode = do fs' ← close_inode fs inode; ok (none, fs')

unfoldable pub file_reopen : Bool → FileSystem → File → Result (Option File × FileSystem)
file_reopen memory fs file = file_open memory (inode_reopen fs file.inode) (some file.inode)

unfoldable pub file_read : Bool → FileSystem → File → Bytes → ℕ → Result (ℕ × Bytes × File)
file_read memory fs file buffer size = do
  (n, buffer') ← inode_read_at memory fs.device (fs.inodes file.inode) buffer size file.pos
  ok (n, buffer', record file { pos = file.pos + n })

unfoldable pub file_read_at : Bool → FileSystem → File → Bytes → ℕ → ℕ → Result (ℕ × Bytes)
file_read_at memory fs file buffer size file_ofs =
    inode_read_at memory fs.device (fs.inodes file.inode) buffer size file_ofs

unfoldable pub file_write_at : Bool → FileSystem → File → Bytes → ℕ → ℕ → Result (ℕ × FileSystem)
file_write_at memory fs file buffer size file_ofs = do
  (n, b) ← inode_write_at memory fs.device (fs.inodes file.inode) buffer size file_ofs
  ok (n, record fs { device = b })

unfoldable pub file_write : Bool → FileSystem → File → Bytes → ℕ → Result (ℕ × File × FileSystem)
file_write memory fs file buffer size = do
  (n, b) ← inode_write_at memory fs.device (fs.inodes file.inode) buffer size file.pos
  ok (n, record file { pos = file.pos + n }, record fs { device = b })

unfoldable pub file_deny_write : FileSystem → File → Result (File × FileSystem)
file_deny_write fs file =
    let deny = (do
      fs' ← inode_deny_write fs file.inode
      ok (record file { deny_write = true }, fs')) in
    if not file.deny_write then deny else ok (file, fs)

unfoldable pub file_allow_write : FileSystem → File → Result (File × FileSystem)
file_allow_write fs file =
    let allow = (do
      fs' ← inode_allow_write fs file.inode
      ok (record file { deny_write = false }, fs')) in
    if file.deny_write then allow else ok (file, fs)

unfoldable pub file_close : FileSystem → File → Result FileSystem
file_close fs file = do (file', fs') ← file_allow_write fs file; inode_close fs' file'.inode

abbrev pub file_length : FileSystem → File → ℕ
file_length fs file = inode_length (fs.inodes file.inode)

-- To a position that is not negative.
unfoldable pub file_seek : File → ℕ → File
file_seek file new_pos = record file { pos = new_pos }

abbrev pub file_tell : File → ℕ
file_tell file = file.pos
