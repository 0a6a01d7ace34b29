-- ===== src/OpenInodes/Create.antt =====
-- inode_create() of filesys/inode.c: a new inode and its zeros on the device.
use pint_os_assignment.Common.{
  ℕ, zero, suc, ◌+◌, ◌<◌, ◌≤◌, ◌≡◌, refl, sym, ap, ◌∙◌, subst, Bool, true, false, not, some, arith,
  ltb, ◌==◌, if◌then◌else◌, Result, ok, ◌>>=◌, bind-eq, assert_ok, inl, inr, Bool-cases, if_of_true,
  if_of_false,
}
use pint_os_assignment.Bitmap.{Bitmap, bitmap_error}
use pint_os_assignment.Bitmap.Set.{bit, in_range, IsSetTo}
use pint_os_assignment.Bitmap.Scan.{AllBits}
use pint_os_assignment.Block.{Bytes, Block, block_write, set_sector}
use pint_os_assignment.Inode.{InodeDisk, bytes_to_sectors}
use pint_os_assignment.FreeMap.{free_map_allocate}
use pint_os_assignment.FreeMap.Laws.{Allocated, given, refused, free_map_allocate_gives}
use pint_os_assignment.OpenInodes.{
  FileSystem, inode_magic, to_bytes, write_zeros, create_at, inode_create,
}

pub block_write_sets :
    (b : Block) (s : ℕ) (bytes : Bytes)
    → s < b.size
    → b.foreign ≡ false
    → block_write b s bytes ≡ ok (set_sector b s bytes)
unfolding block_write
block_write_sets b s bytes h f =
    assert_ok (ltb s b.size) _ (ground arith) ∙ assert_ok (not b.foreign) _ (ground arith)

-- A stretch of sectors that is zero, and all others as before.
record IsZeroed (b b' : Block) (sector n : ℕ) : Type 0 where
  size : b'.size ≡ b.size
  foreign : b'.foreign ≡ b.foreign
  sectors : (s i : ℕ) → b'.sectors s i ≡ (if in_range sector n s then 0 else b.sectors s i)

write_zeros-IsZeroed :
    (n : ℕ) (b : Block) (sector : ℕ)
    → sector + n ≤ b.size
    → b.foreign ≡ false
    → (b' : Block) × (write_zeros b sector n ≡ ok b') × IsZeroed b b' sector n
unfolding write_zeros
write_zeros-IsZeroed zero b sector h f =
    (b, refl, record { size = refl; foreign = refl; sectors = λ s i. ground arith })
write_zeros-IsZeroed (suc n) b sector h f =
    let b₁ = set_sector b sector (λ i. 0) in
    let (b', e, z) = write_zeros-IsZeroed n b₁ (sector + 1) (omega arith) f in
    (
      b',
      bind-eq _ (block_write_sets b sector _ (omega arith) f) ∙ e,
      record {
        size = z.size;
        foreign = z.foreign;
        sectors = λ s i. elim (Bool-cases (sector == s)) [
          | inl q ↦
              z.sectors s i
              ∙ ap (λ x. if in_range (sector + 1) n s then 0 else x)
                  (ap (λ y. y i) (if_of_true (sector == s) (λ j. 0) (b.sectors s) q))
              ∙ ground arith
          | inr q ↦
              z.sectors s i
              ∙ ap (λ x. if in_range (sector + 1) n s then 0 else x)
                  (ap (λ y. y i) (if_of_false (sector == s) (λ j. 0) (b.sectors s) q))
              ∙ ground arith
        ];
      },
    )

-- The inode that is written.
abbrev pub disk_inode : ℕ → ℕ → InodeDisk
disk_inode start length = record { start = start; length = length; magic = inode_magic }

-- What inode_create() comes to.
pub data Created (fs : FileSystem) (sector length : ℕ) (r : Result (Bool × FileSystem))
    : Type 0 where
  failed :
      (m : Bitmap)
      → r ≡ ok (false, record fs { free_map = m })
      → m.bit_cnt ≡ fs.free_map.bit_cnt
      → ((s : ℕ) → bit m s ≡ bit fs.free_map s)
      → Created fs sector length r
  created :
      (start : ℕ) (m : Bitmap) (b : Block)
      → r ≡ ok (true, record fs { free_map = m; device = b })
      → start + bytes_to_sectors length ≤ fs.free_map.bit_cnt
      → AllBits fs.free_map start (bytes_to_sectors length) false
      → IsSetTo fs.free_map m start (bytes_to_sectors length) true
      → b.size ≡ fs.device.size
      → b.foreign ≡ fs.device.foreign
      → ((s i : ℕ)
          → b.sectors s i ≡ (
              if in_range start (bytes_to_sectors length) s
              then 0
              else if sector == s
              then to_bytes (disk_inode start length) i
              else fs.device.sectors s i))
      → Created fs sector length r

create_given :
    (fs : FileSystem) (sector length start : ℕ) (m : Bitmap)
    → sector < fs.device.size
    → fs.device.foreign ≡ false
    → fs.free_map.bit_cnt ≤ fs.device.size
    → start + bytes_to_sectors length ≤ fs.free_map.bit_cnt
    → AllBits fs.free_map start (bytes_to_sectors length) false
    → IsSetTo fs.free_map m start (bytes_to_sectors length) true
    → Created fs sector length (create_at (record fs { free_map = m }) sector length (some start))
unfolding create_at
create_given fs sector length start m p q r h a t =
    let n = bytes_to_sectors length in
    let b₁ = set_sector fs.device sector (to_bytes (disk_inode start length)) in
    let (b, e, z) = write_zeros-IsZeroed n b₁ start (omega arith) q in
    created start m b (bind-eq _ (block_write_sets fs.device sector _ p q) ∙ bind-eq _ e) h a t
      z.size z.foreign
      (λ s i. z.sectors s i ∙ ap (λ x. if in_range start n s then 0 else x) (placed s i))
  where
    placed :
        (s i : ℕ)
        → (set_sector fs.device sector (to_bytes (disk_inode start length))).sectors s i
          ≡ (if sector == s then to_bytes (disk_inode start length) i else fs.device.sectors s i)
    placed s i = elim (Bool-cases (sector == s)) [
      | inl c ↦
          ap (λ y. y i) (if_of_true (sector == s) _ (fs.device.sectors s) c)
          ∙ sym (if_of_true (sector == s) _ _ c)
      | inr c ↦
          ap (λ y. y i) (if_of_false (sector == s) (to_bytes (disk_inode start length)) _ c)
          ∙ sym (if_of_false (sector == s) _ _ c)
    ]

-- inode_create at a sector of the device, with a free map of no more sectors than the device has,
-- fails no assertion. It writes the inode and zeros in the first free sectors in a row that are as
-- many as the length needs, which are in use then, and no other sector; or it changes neither the
-- device nor a bit of the free map.
pub inode_create_creates :
    (memory writes : Bool) (fs : FileSystem) (sector length : ℕ)
    → sector < fs.device.size
    → fs.device.foreign ≡ false
    → fs.free_map.bit_cnt ≤ fs.device.size
    → fs.free_map.bit_cnt < bitmap_error
    → Created fs sector length (inode_create memory writes fs sector length)
unfolding inode_create create_at
inode_create_creates memory writes fs sector length p q r w = elim (Bool-cases memory) [
  | inr c ↦ failed fs.free_map (if_of_false memory _ _ c) refl (λ s. refl)
  | inl c ↦
      allocated
        (free_map_allocate_gives fs.has_map_file writes fs.free_map (bytes_to_sectors length) w)
        (if_of_true memory _ _ c)
]
  where
    allocated :
        {r : Result (Bool × FileSystem)}
        → Allocated fs.free_map
            (bytes_to_sectors length)
            (free_map_allocate fs.has_map_file writes fs.free_map (bytes_to_sectors length))
        → r ≡ (
            free_map_allocate fs.has_map_file writes fs.free_map (bytes_to_sectors length)
            >>= λ (start, m). create_at (record fs { free_map = m }) sector length start)
        → Created fs sector length r
    allocated (given start m e h a first t) run =
        subst (Created fs sector length) (sym (run ∙ bind-eq _ e))
          (create_given fs sector length start m p q r h a t)
    allocated (refused m e size bits) run = failed m (run ∙ bind-eq _ e) size bits
