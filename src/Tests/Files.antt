-- ===== src/Tests/Files.antt =====
-- A device with a directory, and runs of filesys/ on it.
use pint_os_assignment.Common.{
  ℕ, ◌+◌, ◌<◌, ◌≡◌, refl, true, false, not, ◌&&◌, [], ◌∷◌, arith, ltb, leb, ◌==◌, if◌then◌else◌, ok,
}
use pint_os_assignment.Block.{Bytes, Block}
use pint_os_assignment.Inode.{Inode, inode_write_at}
use pint_os_assignment.Inode.Read.{byte_at, available}
use pint_os_assignment.Inode.Write.{IsWritable}
use pint_os_assignment.Inode.Files.{Apart, inode_write_at_refines}
use pint_os_assignment.FreeMap.{free_map_allocate}
use pint_os_assignment.FreeMap.Laws.{Allocated, free_map_allocate_gives}
use pint_os_assignment.OpenInodes.{FileSystem, inode_close}
use pint_os_assignment.OpenInodes.Table.{IsOpen, IsStored, IsSound}
use pint_os_assignment.OpenInodes.Close.{IsClosed, inode_close_closes}
use pint_os_assignment.File.{
  File, file_close, file_deny_write, file_read, file_write, file_seek, file_tell,
}
use pint_os_assignment.File.Accounts.{IsAccounted}
use pint_os_assignment.File.Denials.{IsSwitched, file_close_accounts, file_deny_write_accounts}
use pint_os_assignment.File.Position.{file_read-file_write}
use pint_os_assignment.Directory.{lookup}
use pint_os_assignment.Directory.Lookup.{LookedUp, lookup_finds}

-- Sector 2 has the entries of the directory: one is in use, with the name `a` and sector 5.
abbrev disk : Block
disk = record {
  size = 8;
  sectors = λ s i.
      if not (s == 2)
      then 0
      else if i == 0
      then 5
      else if i == 4
      then 97
      else if i == 19
      then 1
      else 0;
  foreign = false;
}

-- The inode of the directory, in sector 1, with two openers of which one denies writes.
abbrev dir_inode : ℕ → Inode
dir_inode denied = record {
  sector = 1;
  open_cnt = 2;
  removed = true;
  deny_write_cnt = denied;
  content = record { start = 2; length = 40; magic = 0x494e4f44 };
}

abbrev fs : FileSystem
fs = record {
  device = disk;
  free_map = record { bit_cnt = 8; bits = λ w k. w == 0 && ltb k 4 };
  has_map_file = true;
  open_inodes = 10 ∷ [];
  inodes = λ a. dir_inode 1;
}

disk-IsWritable : (d : ℕ) → IsWritable disk (dir_inode d)
disk-IsWritable d = record { on_disk = record { fits = omega arith }; own = refl }

only_open : (a : ℕ) → IsOpen fs a → a ≡ 10
only_open a h = ground arith

dir-IsStored : IsStored fs.free_map (dir_inode 1)
dir-IsStored = record {
  sector_in = omega arith;
  blocks_in = omega arith;
  in_use = λ s h. ground arith;
  self = refl;
}

fs-IsSound : IsSound fs
fs-IsSound = record {
  once = λ a. ground arith;
  opened = λ a h. omega arith;
  denied = λ a h. omega arith;
  stored = λ a h. dir-IsStored;
  apart = λ a c s p q r t. omega (arith, only_open a p, only_open c q);
  small = omega arith;
}

inode_write_at_refines_example :
    (b' : Block) × (inode_write_at true disk (dir_inode 0) (λ i. 7) 30 25
      ≡ ok (available (dir_inode 0) 30 25, b'))
    × ((pos : ℕ)
        → byte_at b' (dir_inode 0) pos ≡ (
            if leb 25 pos && ltb pos (25 + available (dir_inode 0) 30 25)
            then 7
            else byte_at disk (dir_inode 0) pos))
    × ((c : Inode) (pos : ℕ)
        → Apart (dir_inode 0) c
        → pos < c.content.length
        → byte_at b' c pos ≡ byte_at disk c pos)
inode_write_at_refines_example =
    inode_write_at_refines disk (dir_inode 0) (λ i. 7) 30 25 (disk-IsWritable 0) refl

abbrev writable_fs : FileSystem
writable_fs = record fs { inodes = λ a. dir_inode 0 }

abbrev reader : File
reader = record { inode = 10; pos = 25; deny_write = false }

file_read-file_write_example :
    let n = available (dir_inode 0) 30 25 in
    (fs' : FileSystem) × (file' file'' : File) × (target' : Bytes) × (file_write true writable_fs
        reader
        (λ i. 7)
        30
      ≡ ok (n, file', fs'))
    × (file_read true fs' (file_seek file' (file_tell reader)) (λ i. 0) 30
        ≡ ok (n, target', file''))
    × (file_tell file' ≡ 25 + n)
    × (file_tell file'' ≡ 25 + n)
    × ((i : ℕ) → i < n → target' i ≡ 7)
file_read-file_write_example =
    file_read-file_write writable_fs reader (λ i. 7) (λ i. 0) 30 (disk-IsWritable 0) refl

free_map_allocate_gives_example :
    Allocated fs.free_map 2 (free_map_allocate true true fs.free_map 2)
free_map_allocate_gives_example = free_map_allocate_gives true true fs.free_map 2 (omega arith)

inode_close_closes_example : (fs' : FileSystem) × (inode_close fs 10 ≡ ok fs') × IsClosed fs fs' 10
inode_close_closes_example = inode_close_closes fs 10 fs-IsSound (omega arith) (omega arith)

-- One file denies writes, the other does not.
abbrev denier : File
denier = record { inode = 10; pos = 0; deny_write = true }

fs-IsAccounted :
    (f g : File)
    → f.inode ≡ 10
    → g.inode ≡ 10
    → f.deny_write ≡ not g.deny_write
    → IsAccounted fs (f ∷ g ∷ []) (λ a. 0)
fs-IsAccounted f g p q r = record {
  sound = fs-IsSound;
  denied = λ a h. ground (arith, only_open a h);
  opened = λ a h. ground (arith, only_open a h);
  live = λ a h. ground arith;
}

file_close_accounts_example :
    (fs' : FileSystem) × (file_close fs denier ≡ ok fs') × IsAccounted fs' (reader ∷ []) (λ a. 0)
file_close_accounts_example =
    file_close_accounts fs denier (reader ∷ []) (λ a. 0)
      (fs-IsAccounted denier reader refl refl refl)

file_deny_write_accounts_example :
    (f' : File) × (fs' : FileSystem) × (file_deny_write fs reader ≡ ok (f', fs'))
    × IsSwitched fs fs' reader f' (denier ∷ []) (λ a. 0) true
file_deny_write_accounts_example =
    file_deny_write_accounts fs reader (denier ∷ []) (λ a. 0)
      (fs-IsAccounted reader denier refl refl refl)

lookup_finds_example :
    LookedUp disk (dir_inode 0) (97 ∷ []) (lookup true disk (dir_inode 0) (λ i. 0) (97 ∷ []))
lookup_finds_example =
    lookup_finds disk (dir_inode 0) (λ i. 0) (97 ∷ []) (disk-IsWritable 0).on_disk (omega arith)
