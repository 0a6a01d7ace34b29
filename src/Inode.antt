-- ===== src/Inode.antt =====
-- filesys/inode.c: the bytes of a file in its sectors. Sizes and offsets are not negative, and a
-- file is shorter than 2 GB. `memory` says whether malloc() gives a bounce buffer.
pub mod Read
pub mod Write
pub mod Files
use pint_os_assignment.Common.{
  ℕ, zero, suc, ◌+◌, ◌-◌, ◌*◌, ◌/◌, ◌%◌, ◌^◌, Bool, not, ◌&&◌, ◌||◌, ltb, ◌==◌, if◌then◌else◌,
  Result, ok, no_fuel, ◌>>=◌,
}
use pint_os_assignment.Block.{
  block_sector_size, Bytes, Block, block_read, block_write, memcpy, zeroed,
}

-- `struct inode_disk`
pub record InodeDisk : Type 0 where
  pub start : ℕ
  pub length : ℕ
  pub magic : ℕ

-- `struct inode`
pub record Inode : Type 0 where
  pub sector : ℕ
  pub open_cnt : ℕ
  pub removed : Bool
  pub deny_write_cnt : ℕ
  pub content : InodeDisk

abbrev pub bytes_to_sectors : ℕ → ℕ
bytes_to_sectors size = (size + block_sector_size - 1) / block_sector_size

abbrev pub inode_length : Inode → ℕ
inode_length inode = inode.content.length

abbrev pub byte_to_sector : Inode → ℕ → ℕ
byte_to_sector inode pos =
    if ltb pos inode.content.length
    then inode.content.start + pos / block_sector_size
    else 2 ^ 32 - 1

-- The bytes to copy in one round: what is asked for, what is left of the inode, of the sector.
abbrev pub min_of : ℕ → ℕ → ℕ
min_of a b = if ltb a b then a else b

abbrev pub chunk_size : Inode → ℕ → ℕ → ℕ
chunk_size inode size offset =
    let sector_left = block_sector_size - offset % block_sector_size in
    min_of size (min_of (inode_length inode - offset) sector_left)

-- The loop of inode_read_at(). Every round reads a byte at least, so that `size` rounds are enough.
unfoldable pub read_loop : ℕ → Bool → Block → Inode → Bytes → ℕ → ℕ → ℕ → Result (ℕ × Bytes)
read_loop zero memory b inode buffer size offset bytes_read =
    if size == 0 then ok (bytes_read, buffer) else no_fuel
read_loop (suc f) memory b inode buffer size offset bytes_read =
    let sector_idx = byte_to_sector inode offset in
    let sector_ofs = offset % block_sector_size in
    let chunk = chunk_size inode size offset in
    let whole = (do
      bytes ← block_read b sector_idx
      read_loop f memory b inode (memcpy buffer bytes_read bytes 0 block_sector_size) (size - chunk)
          (offset + chunk) (bytes_read + chunk)) in
    let part = (do
      bounce ← block_read b sector_idx
      read_loop f memory b inode (memcpy buffer bytes_read bounce sector_ofs chunk) (size - chunk)
          (offset + chunk) (bytes_read + chunk)) in
    if size == 0 || chunk == 0
    then ok (bytes_read, buffer)
    else if sector_ofs == 0 && chunk == block_sector_size
    then whole
    else if memory
    then part
    else ok (bytes_read, buffer)

unfoldable pub inode_read_at : Bool → Block → Inode → Bytes → ℕ → ℕ → Result (ℕ × Bytes)
inode_read_at memory b inode buffer size offset = read_loop size memory b inode buffer size offset 0

-- A sector that is written in part: the rest of it is read first, if there is a rest.
unfoldable pub write_part : Block → ℕ → Bytes → ℕ → ℕ → ℕ → Result Block
write_part b sector_idx buffer bytes_written sector_ofs chunk =
    let reads = (do
      bounce ← block_read b sector_idx
      block_write b sector_idx (memcpy bounce sector_ofs buffer bytes_written chunk)) in
    if ltb 0 sector_ofs || ltb chunk (block_sector_size - sector_ofs)
    then reads
    else block_write b sector_idx
        (memcpy (zeroed (λ i. 0) block_sector_size) sector_ofs buffer bytes_written chunk)

-- The loop of inode_write_at().
unfoldable pub write_loop : ℕ → Bool → Block → Inode → Bytes → ℕ → ℕ → ℕ → Result (ℕ × Block)
write_loop zero memory b inode buffer size offset bytes_written =
    if size == 0 then ok (bytes_written, b) else no_fuel
write_loop (suc f) memory b inode buffer size offset bytes_written =
    let sector_idx = byte_to_sector inode offset in
    let sector_ofs = offset % block_sector_size in
    let chunk = chunk_size inode size offset in
    let whole = (do
      b' ← block_write b sector_idx (λ i. buffer (bytes_written + i))
      write_loop f memory b' inode buffer (size - chunk) (offset + chunk)
          (bytes_written + chunk)) in
    let part = (do
      b' ← write_part b sector_idx buffer bytes_written sector_ofs chunk
      write_loop f memory b' inode buffer (size - chunk) (offset + chunk)
          (bytes_written + chunk)) in
    if size == 0 || chunk == 0
    then ok (bytes_written, b)
    else if sector_ofs == 0 && chunk == block_sector_size
    then whole
    else if memory
    then part
    else ok (bytes_written, b)

unfoldable pub inode_write_at : Bool → Block → Inode → Bytes → ℕ → ℕ → Result (ℕ × Block)
inode_write_at memory b inode buffer size offset =
    let written = write_loop size memory b inode buffer size offset 0 in
    if inode.deny_write_cnt == 0 then written else ok (0, b)
