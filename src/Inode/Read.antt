-- ===== src/Inode/Read.antt =====
-- inode_read_at() of filesys/inode.c against the bytes of the file.
use pint_os_assignment.Common.{
  ℕ, zero, suc, ◌+◌, ◌-◌, ◌/◌, ◌%◌, ◌<◌, ◌≤◌, ◌≡◌, refl, sym, ap, ap₂, ◌∙◌, true, ◌&&◌, ◌||◌, arith,
  ltb, leb, ◌==◌, if◌then◌else◌, ok, bind-eq, assert_ok, inl, inr, Bool-cases, if_of_true,
  if_of_false,
}
use pint_os_assignment.Block.{Bytes, Block, block_read, memcpy}
use pint_os_assignment.Inode.{
  Inode, bytes_to_sectors, byte_to_sector, chunk_size, min_of, read_loop, inode_read_at,
}

-- The sectors of the inode are on the device.
pub record IsOnDisk (b : Block) (inode : Inode) : Type 0 where
  pub fits : inode.content.start + bytes_to_sectors inode.content.length ≤ b.size

-- The byte at a position of the file.
abbrev pub byte_at : Block → Inode → ℕ → ℕ
byte_at b inode pos = b.sectors (inode.content.start + pos / 512) (pos % 512)

-- The number of bytes that a read or write of `size` bytes at `offset` comes to.
abbrev pub available : Inode → ℕ → ℕ → ℕ
available inode size offset = min_of size (inode.content.length - offset)

pub block_read_ok : (b : Block) (s : ℕ) → s < b.size → block_read b s ≡ ok (b.sectors s)
unfolding block_read
block_read_ok b s h = assert_ok (ltb s b.size) _ (ground arith)

-- What the loop has put into the buffer when `n` bytes of it are filled from `done` on.
pub record IsRead (b : Block) (inode : Inode) (buffer buffer' : Bytes) (offset done n : ℕ)
    : Type 0 where
  pub filled : (i : ℕ) → i < n → buffer' (done + i) ≡ byte_at b inode (offset + i)
  pub before : (i : ℕ) → i < done → buffer' i ≡ buffer i
  pub behind : (i : ℕ) → done + n ≤ i → buffer' i ≡ buffer i

IsRead-trans :
    (b : Block) (inode : Inode) (buffer b₁ b₂ : Bytes) (offset done c m : ℕ)
    → IsRead b inode buffer b₁ offset done c
    → IsRead b inode b₁ b₂ (offset + c) (done + c) m
    → IsRead b inode buffer b₂ offset done (c + m)
IsRead-trans b inode buffer b₁ b₂ offset done c m r s = record {
  filled = λ i h. elim (Bool-cases (ltb i c)) [
    | inl e ↦ s.before (done + i) (ground arith) ∙ r.filled i (ground arith)
    | inr e ↦
        let j = i - c in
        ap b₂ (ground arith) ∙ s.filled j (ground arith) ∙ ap (byte_at b inode) (ground arith)
  ];
  before = λ i h. s.before i (omega arith) ∙ r.before i h;
  behind = λ i h. s.behind i (omega arith) ∙ r.behind i (omega arith);
}

-- One chunk copied out of its sector.
IsRead-chunk :
    (b : Block) (inode : Inode) (buffer : Bytes) (offset done c : ℕ)
    → offset % 512 + c ≤ 512
    → IsRead b inode buffer
        (memcpy buffer done (b.sectors (inode.content.start + offset / 512)) (offset % 512) c)
        offset
        done
        c
IsRead-chunk b inode buffer offset done c h = record {
  filled = λ i p.
      if_of_true (leb done (done + i) && ltb (done + i) (done + c)) _ _ (ground arith)
      ∙ ap₂ b.sectors (omega arith) (omega arith);
  before = λ i p. ground arith;
  behind = λ i p. ground arith;
}

-- The chunk lies in its sector, in the file, and in what is asked for; it is empty only at the end.
pub chunk_bounds :
    (inode : Inode) (size offset : ℕ)
    → let c = chunk_size inode size offset in
      (c ≤ size)
      × (offset % 512 + c ≤ 512)
      × (c ≤ inode.content.length - offset)
      × ((c == 0) ≡ (size == 0 || leb inode.content.length offset))
chunk_bounds inode size offset = (ground arith, ground arith, ground arith, ground arith)

pub sector_ok :
    (b : Block) (inode : Inode) (offset : ℕ)
    → IsOnDisk b inode
    → offset < inode.content.length
    → (byte_to_sector inode offset ≡ inode.content.start + offset / 512)
      × (inode.content.start + offset / 512 < b.size)
sector_ok b inode offset v h = (ground arith, omega (arith, v.fits))

-- One round of the loop: the two ways to read a chunk come to the same.
read_round :
    (f size offset done : ℕ) (b : Block) (inode : Inode) (buffer : Bytes)
    → IsOnDisk b inode
    → 0 < size
    → offset < inode.content.length
    → let c = chunk_size inode size offset in
      read_loop (suc f) true b inode buffer size offset done
      ≡ read_loop f true b inode
          (memcpy buffer done (b.sectors (inode.content.start + offset / 512)) (offset % 512) c)
          (size - c)
          (offset + c)
          (done + c)
unfolding read_loop
read_round f size offset done b inode buffer v p q =
    let c = chunk_size inode size offset in
    let (e, h) = sector_ok b inode offset v q in
    let (c₁, c₂, c₃, c₄) = chunk_bounds inode size offset in
    let read : block_read b (byte_to_sector inode offset)
        ≡ ok (b.sectors (inode.content.start + offset / 512)) =
      ap (block_read b) e ∙ block_read_ok b (inode.content.start + offset / 512) h in
    if_of_false (size == 0 || c == 0) _ _ (ground (arith, c₄))
    ∙ elim (Bool-cases (offset % 512 == 0 && c == 512)) [
      | inl w ↦
          if_of_true (offset % 512 == 0 && c == 512) _ _ w
          ∙ bind-eq _ read
          ∙ ap₂
              (λ x y.
                read_loop f true b inode
                  (memcpy buffer done (b.sectors (inode.content.start + offset / 512)) x y)
                  (size - c) (offset + c) (done + c))
              (ground arith) (ground arith)
      | inr w ↦ if_of_false (offset % 512 == 0 && c == 512) _ _ w ∙ bind-eq _ read
    ]

read_end :
    (f size offset done : ℕ) (b : Block) (inode : Inode) (buffer : Bytes)
    → size ≤ f
    → (size == 0 || leb inode.content.length offset) ≡ true
    → read_loop f true b inode buffer size offset done ≡ ok (done, buffer)
unfolding read_loop
read_end zero size offset done b inode buffer h e = ground arith
read_end (suc f) size offset done b inode buffer h e =
    let (c₁, c₂, c₃, c₄) = chunk_bounds inode size offset in
    if_of_true (size == 0 || chunk_size inode size offset == 0) _ _ (ground (arith, c₄))

-- What the loop comes to: how much it reads, and into what.
abbrev ReadTo : ℕ → Block → Inode → Bytes → ℕ → ℕ → ℕ → Type 0
ReadTo f b inode buffer size offset done =
    (buffer' : Bytes) × (read_loop f true b inode buffer size offset done
      ≡ ok (done + available inode size offset, buffer'))
    × IsRead b inode buffer buffer' offset done (available inode size offset)

read_none :
    (f size offset done : ℕ) (b : Block) (inode : Inode) (buffer : Bytes)
    → size ≤ f
    → (size == 0 || leb inode.content.length offset) ≡ true
    → ReadTo f b inode buffer size offset done
read_none f size offset done b inode buffer h e =
    let none_left : available inode size offset ≡ 0 = ground arith in
    (
      buffer,
      read_end f size offset done b inode buffer h e
          ∙ ap (λ n. ok (n, buffer)) (omega (arith, none_left)),
      record {
        filled = λ i p. absurd (omega (arith, none_left));
        before = λ i p. refl;
        behind = λ i p. refl;
      },
    )

read_some :
    (f size offset done : ℕ) (b : Block) (inode : Inode) (buffer : Bytes)
    → IsOnDisk b inode
    → 0 < size
    → offset < inode.content.length
    → let c = chunk_size inode size offset in
      let buffer₁ =
        memcpy buffer done (b.sectors (inode.content.start + offset / 512)) (offset % 512) c in
      ReadTo f b inode buffer₁ (size - c) (offset + c) (done + c)
      → ReadTo (suc f) b inode buffer size offset done
read_some f size offset done b inode buffer v p q (buffer', e, r) =
    let c = chunk_size inode size offset in
    let (c₁, c₂, c₃, c₄) = chunk_bounds inode size offset in
    let total : c + available inode (size - c) (offset + c) ≡ available inode size offset =
      ground (arith, c₁, c₃) in
    (
      buffer',
      read_round f size offset done b inode buffer v p q
          ∙ e
          ∙ ap (λ n. ok (n, buffer')) (omega (arith, total)),
      rw (sym total) (
          IsRead-trans b inode buffer _ buffer' offset done c _
            (IsRead-chunk b inode buffer offset done c c₂) r),
    )

read_loop_ok :
    (f size offset done : ℕ) (b : Block) (inode : Inode) (buffer : Bytes)
    → IsOnDisk b inode
    → size ≤ f
    → ReadTo f b inode buffer size offset done
read_loop_ok zero size offset done b inode buffer v h =
    read_none zero size offset done b inode buffer h (ground arith)
read_loop_ok (suc f) size offset done b inode buffer v h =
    let c = chunk_size inode size offset in
    let (c₁, c₂, c₃, c₄) = chunk_bounds inode size offset in
    elim (Bool-cases (size == 0 || leb inode.content.length offset)) [
      | inl e ↦ read_none (suc f) size offset done b inode buffer h e
      | inr e ↦
          read_some f size offset done b inode buffer v (ground arith) (ground arith)
            (read_loop_ok f (size - c) (offset + c) (done + c) b inode _ v (ground (arith, c₄)))
    ]

-- A read of a file that is on the device, with memory for a bounce buffer, panics at no sector,
-- ends, returns the number of bytes that were asked for and are there, and puts just these bytes of
-- the file at the start of the buffer.
pub inode_read_at_reads :
    (b : Block) (inode : Inode) (buffer : Bytes) (size offset : ℕ)
    → IsOnDisk b inode
    → let n = available inode size offset in
      (buffer' : Bytes) × (inode_read_at true b inode buffer size offset ≡ ok (n, buffer'))
      × ((i : ℕ) → buffer' i ≡ (if ltb i n then byte_at b inode (offset + i) else buffer i))
unfolding inode_read_at
inode_read_at_reads b inode buffer size offset v =
    let (buffer', e, r) = read_loop_ok size size offset 0 b inode buffer v (omega arith) in
    let n = available inode size offset in
    (
      buffer',
      e ∙ ap (λ m. ok (m, buffer')) (omega arith),
      λ i. elim (Bool-cases (ltb i n)) [
        | inl h ↦
            ap buffer' (omega arith) ∙ r.filled i (ground arith) ∙ sym (if_of_true (ltb i n) _ _ h)
        | inr h ↦ r.behind i (ground arith) ∙ sym (if_of_false (ltb i n) _ _ h)
      ],
    )
