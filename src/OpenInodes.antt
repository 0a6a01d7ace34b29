-- ===== src/OpenInodes.antt =====
-- filesys/inode.c: inodes on the device, and the inodes that are open, which all openers of a sector
-- share. What malloc() and bitmap_write() return are arguments.
pub mod Image
pub mod Table
pub mod Open
pub mod Create
pub mod Close
use pint_os_assignment.Common.{
  ℕ, zero, suc, ◌+◌, ◌-◌, ◌*◌, ◌/◌, ◌%◌, Bool, true, false, not, Option, none, some, List, [], ◌∷◌,
  ltb, leb, ◌==◌, if◌then◌else◌, update, Result, ok, ◌>>=◌, ◌>>◌, assert,
}
use pint_os_assignment.KernelList.{list_push_front, list_remove}
use pint_os_assignment.Bitmap.{Bitmap}
use pint_os_assignment.Block.{Bytes, Block, block_read, block_write}
use pint_os_assignment.Inode.{InodeDisk, Inode, bytes_to_sectors}
use pint_os_assignment.FreeMap.{free_map_allocate, free_map_release}

abbrev pub inode_magic : ℕ
inode_magic = 0x494e4f44

pub record FileSystem : Type 0 where
  pub device : Block
  pub free_map : Bitmap
  pub has_map_file : Bool
  pub open_inodes : List ℕ
  pub inodes : ℕ → Inode

-- The bytes of a 32-bit number, the lowest first, and the number.
abbrev pub byte_of : ℕ → ℕ → ℕ
byte_of w k =
    if k == 0
    then w % 256
    else if k == 1
    then w / 256 % 256
    else if k == 2
    then w / 65536 % 256
    else w / 16777216 % 256

abbrev pub word_at : Bytes → ℕ → ℕ
word_at b i = b i + 256 * b (i + 1) + 65536 * b (i + 2) + 16777216 * b (i + 3)

-- `struct inode_disk` as it stands in a sector.
unfoldable pub to_bytes : InodeDisk → Bytes
to_bytes d i =
    if ltb i 4
    then byte_of d.start i
    else if ltb i 8
    then byte_of d.length (i - 4)
    else if ltb i 12
    then byte_of d.magic (i - 8)
    else 0

unfoldable pub of_bytes : Bytes → InodeDisk
of_bytes b = record { start = word_at b 0; length = word_at b 4; magic = word_at b 8 }

abbrev pub set_inode : FileSystem → ℕ → Inode → FileSystem
set_inode fs a inode = record fs { inodes = update fs.inodes a inode }

-- Writes zeros to `n` sectors from `sector` on.
unfoldable pub write_zeros : Block → ℕ → ℕ → Result Block
write_zeros b sector zero = ok b
write_zeros b sector (suc n) = do b' ← block_write b sector (λ i. 0); write_zeros b' (sector + 1) n

-- inode_create() with the sectors that the free map gave.
unfoldable pub create_at : FileSystem → ℕ → ℕ → Option ℕ → Result (Bool × FileSystem)
create_at fs sector length none = ok (false, fs)
create_at fs sector length (some start) = do
  let disk_inode : InodeDisk = record { start = start; length = length; magic = inode_magic }
  b ← block_write fs.device sector (to_bytes disk_inode)
  b' ← write_zeros b start (bytes_to_sectors length)
  ok (true, record fs { device = b' })

unfoldable pub inode_create : Bool → Bool → FileSystem → ℕ → ℕ → Result (Bool × FileSystem)
inode_create memory writes fs sector length =
    let made = (do
      (start, map) ← free_map_allocate fs.has_map_file writes fs.free_map (bytes_to_sectors length)
      create_at (record fs { free_map = map }) sector length start) in
    if memory then made else ok (false, fs)

-- The search of inode_open() through the open inodes.
unfoldable pub find_open : FileSystem → List ℕ → ℕ → Option ℕ
find_open fs [] sector = none
find_open fs (a ∷ l) sector =
    if (fs.inodes a).sector == sector then some a else find_open fs l sector

unfoldable pub inode_reopen : FileSystem → ℕ → FileSystem
inode_reopen fs a = set_inode fs a (record (fs.inodes a) { open_cnt = (fs.inodes a).open_cnt + 1 })

-- `memory` is the address that malloc() returns, if it does.
unfoldable pub open_new : Option ℕ → FileSystem → ℕ → Result (Option ℕ × FileSystem)
open_new none fs sector = ok (none, fs)
open_new (some a) fs sector = do
  bytes ← block_read fs.device sector
  let inode : Inode = record {
    sector = sector;
    open_cnt = 1;
    deny_write_cnt = 0;
    removed = false;
    content = of_bytes bytes;
  }
  ok (some a, record (set_inode fs a inode) { open_inodes = list_push_front fs.open_inodes a })

unfoldable pub inode_open : Option ℕ → FileSystem → ℕ → Result (Option ℕ × FileSystem)
inode_open memory fs sector = elim (find_open fs fs.open_inodes sector) [
  | some a ↦ ok (some a, inode_reopen fs a)
  | none ↦ open_new memory fs sector
]

-- The sectors of a removed inode are released.
unfoldable pub release_blocks : FileSystem → ℕ → Result FileSystem
release_blocks fs a = do
  let d = (fs.inodes a).content
  map ← free_map_release fs.free_map (fs.inodes a).sector 1
  map' ← free_map_release map d.start (bytes_to_sectors d.length)
  ok (record fs { free_map = map' })

unfoldable pub inode_close : FileSystem → ℕ → Result FileSystem
inode_close fs a =
    let fewer = set_inode fs a (record (fs.inodes a) { open_cnt = (fs.inodes a).open_cnt - 1 }) in
    let closed = record fewer { open_inodes = list_remove fewer.open_inodes a } in
    let released = release_blocks closed a in
    if (fs.inodes a).open_cnt == 1
    then if (fewer.inodes a).removed then released else ok closed
    else ok fewer

unfoldable pub inode_remove : FileSystem → ℕ → FileSystem
inode_remove fs a = set_inode fs a (record (fs.inodes a) { removed = true })

unfoldable pub inode_deny_write : FileSystem → ℕ → Result FileSystem
inode_deny_write fs a = do
  let inode = record (fs.inodes a) { deny_write_cnt = (fs.inodes a).deny_write_cnt + 1 }
  assert (leb inode.deny_write_cnt inode.open_cnt)
  ok (set_inode fs a inode)

unfoldable pub inode_allow_write : FileSystem → ℕ → Result FileSystem
inode_allow_write fs a = do
  assert (ltb 0 (fs.inodes a).deny_write_cnt)
  assert (leb (fs.inodes a).deny_write_cnt (fs.inodes a).open_cnt)
  ok (set_inode fs a (record (fs.inodes a) { deny_write_cnt = (fs.inodes a).deny_write_cnt - 1 }))
