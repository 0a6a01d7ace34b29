-- ===== src/Inode/Files.antt =====
-- Files on one device: what is written is read back, and files with sectors of their own do not
-- disturb one another.
use pint_os_assignment.Common.{
  ℕ, ◌+◌, ◌-◌, ◌*◌, ◌/◌, ◌%◌, ◌<◌, ◌≤◌, ◌≡◌, ◌⊎◌, ap, ◌∙◌, true, ◌&&◌, arith, ltb, leb,
  if◌then◌else◌, ok, inl, inr, if_of_true, if_of_false,
}
use pint_os_assignment.Block.{Bytes, Block}
use pint_os_assignment.Inode.{Inode, bytes_to_sectors, inode_read_at, inode_write_at}
use pint_os_assignment.Inode.Read.{byte_at, available, inode_read_at_reads}
use pint_os_assignment.Inode.Write.{IsWritable, IsWritten, in_file, inode_write_at_writes}

-- The files have no sector in common.
abbrev pub Apart : Inode → Inode → Type 0
Apart a c =
    (a.content.start + bytes_to_sectors a.content.length ≤ c.content.start)
    ⊎ (c.content.start + bytes_to_sectors c.content.length ≤ a.content.start)

-- The bytes of the file itself after a write.
byte_at-written :
    (b b' : Block) (inode : Inode) (buffer : Bytes) (offset n pos : ℕ)
    → IsWritten b b' inode buffer offset 0 n
    → byte_at b' inode pos ≡ (
        if leb offset pos && ltb pos (offset + n)
        then buffer (pos - offset)
        else byte_at b inode pos)
byte_at-written b b' inode buffer offset n pos w =
    w.bytes (inode.content.start + pos / 512) (pos % 512) (omega arith) ∙ placed
  where
    placed :
        (if in_file inode offset n (inode.content.start + pos / 512) (pos % 512)
          then buffer (
              0
              + ((inode.content.start + pos / 512 - inode.content.start) * 512
                  + pos % 512
                  - offset))
          else byte_at b inode pos)
        ≡ (if leb offset pos && ltb pos (offset + n)
            then buffer (pos - offset)
            else byte_at b inode pos)
    placed = ground arith

-- The bytes of a file apart from it.
byte_at-Apart :
    (b b' : Block) (a c : Inode) (buffer : Bytes) (offset n pos : ℕ)
    → IsWritten b b' a buffer offset 0 n
    → n ≤ a.content.length - offset
    → Apart a c
    → pos < c.content.length
    → byte_at b' c pos ≡ byte_at b c pos
byte_at-Apart b b' a c buffer offset n pos w h (inl d) p =
    w.bytes (c.content.start + pos / 512) (pos % 512) (omega arith)
    ∙ if_of_false (in_file a offset n (c.content.start + pos / 512) (pos % 512)) _ _ (ground arith)
byte_at-Apart b b' a c buffer offset n pos w h (inr d) p =
    w.bytes (c.content.start + pos / 512) (pos % 512) (omega arith)
    ∙ if_of_false (in_file a offset n (c.content.start + pos / 512) (pos % 512)) _ _ (ground arith)

-- A write refines the overwriting of a stretch of an array of bytes: with a file on a device of its
-- own, writes not denied and memory for a bounce buffer, it ends without a panic, and afterwards
-- the file has the buffer's bytes in the stretch, as far as the file goes, and its own elsewhere;
-- the bytes of every file that has no sector in common with it are as before.
pub inode_write_at_refines :
    (b : Block) (inode : Inode) (buffer : Bytes) (size offset : ℕ)
    → IsWritable b inode
    → inode.deny_write_cnt ≡ 0
    → let n = available inode size offset in
      (b' : Block) × (inode_write_at true b inode buffer size offset ≡ ok (n, b'))
      × ((pos : ℕ)
          → byte_at b' inode pos ≡ (
              if leb offset pos && ltb pos (offset + n)
              then buffer (pos - offset)
              else byte_at b inode pos))
      × ((c : Inode) (pos : ℕ)
          → Apart inode c
          → pos < c.content.length
          → byte_at b' c pos ≡ byte_at b c pos)
inode_write_at_refines b inode buffer size offset v d =
    let n = available inode size offset in
    let (b', e, w) = inode_write_at_writes b inode buffer size offset v d in
    (
      b',
      e,
      λ pos. byte_at-written b b' inode buffer offset n pos w,
      λ c pos a h. byte_at-Apart b b' inode c buffer offset n pos w (ground arith) a h,
    )

-- With memory for a bounce buffer, what inode_write_at wrote, inode_read_at reads back at the same
-- offset.
pub read_at-write_at :
    (b : Block) (inode : Inode) (buffer target : Bytes) (size offset : ℕ)
    → IsWritable b inode
    → inode.deny_write_cnt ≡ 0
    → let n = available inode size offset in
      (b' : Block) × (target' : Bytes) × (inode_write_at true b inode buffer size offset
        ≡ ok (n, b'))
      × (inode_read_at true b' inode target size offset ≡ ok (n, target'))
      × ((i : ℕ) → i < n → target' i ≡ buffer i)
read_at-write_at b inode buffer target size offset v d =
    let n = available inode size offset in
    let (b', e, w) = inode_write_at_writes b inode buffer size offset v d in
    let (target', f, r) =
      inode_read_at_reads b' inode target size offset
        (record { fits = rw w.size v.on_disk.fits }) in
    (
      b',
      target',
      e,
      f,
      λ i h.
          r i
          ∙ if_of_true (ltb i n) _ _ (ground arith)
          ∙ byte_at-written b b' inode buffer offset n (offset + i) w
          ∙ if_of_true (leb offset (offset + i) && ltb (offset + i) (offset + n)) _ _ (ground arith)
          ∙ ap buffer (omega arith),
    )
