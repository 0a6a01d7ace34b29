-- ===== src/Block.antt =====
-- devices/block.c: reading and writing sectors of a block device, whose driver keeps what is
-- written. The counters of accesses are left out.
use pint_os_assignment.Common.{
  ℕ, ◌+◌, ◌-◌, Bool, not, ◌&&◌, ltb, leb, if◌then◌else◌, update, Result, ok, ◌>>◌, assert,
}

abbrev pub block_sector_size : ℕ
block_sector_size = 512

-- The contents of a sector, or of a buffer, by the offset of the byte.
abbrev pub Bytes : Type 0
Bytes = ℕ → ℕ

-- `struct block`, by its size and its sectors; `foreign` tells BLOCK_FOREIGN from the other types.
pub record Block : Type 0 where
  pub size : ℕ
  pub sectors : ℕ → Bytes
  pub foreign : Bool

unfoldable pub block_read : Block → ℕ → Result Bytes
block_read b sector = do assert (ltb sector b.size); ok (b.sectors sector)

abbrev pub set_sector : Block → ℕ → Bytes → Block
set_sector b sector buffer = record b { sectors = update b.sectors sector buffer }

unfoldable pub block_write : Block → ℕ → Bytes → Result Block
block_write b sector buffer = do
  assert (ltb sector b.size)
  assert (not b.foreign)
  ok (set_sector b sector buffer)

-- memcpy(dst + to, src + from, n).
abbrev pub memcpy : Bytes → ℕ → Bytes → ℕ → ℕ → Bytes
memcpy dst to src from n i = if leb to i && ltb i (to + n) then src (from + (i - to)) else dst i

-- memset(dst, 0, n).
abbrev pub zeroed : Bytes → ℕ → Bytes
zeroed dst n i = if ltb i n then 0 else dst i
