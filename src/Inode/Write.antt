-- ===== src/Inode/Write.antt =====
-- inode_write_at() of filesys/inode.c against the bytes of the device.
use pint_os_assignment.Common.{
  ℕ, zero, suc, ◌+◌, ◌-◌, ◌*◌, ◌/◌, ◌%◌, ◌<◌, ◌≤◌, ◌≡◌, refl, sym, ap, ◌∙◌, Bool, true, false, ◌&&◌,
  ◌||◌, not, arith, ltb, leb, ◌==◌, if◌then◌else◌, ok, bind-eq, assert_ok, inl, inr, Bool-cases,
  if_of_true, if_of_false,
}
use pint_os_assignment.Block.{Bytes, Block, block_write, set_sector, memcpy}
use pint_os_assignment.Inode.{Inode, chunk_size, write_part, write_loop, inode_write_at}
use pint_os_assignment.Inode.Read.{IsOnDisk, available, block_read_ok, chunk_bounds, sector_ok}

-- The device takes writes.
pub record IsWritable (b : Block) (inode : Inode) : Type 0 where
  pub on_disk : IsOnDisk b inode
  pub own : b.foreign ≡ false

-- Whether the byte `o` of sector `s` is one of the `n` bytes of the file from `offset` on.
abbrev pub in_file : Inode → ℕ → ℕ → ℕ → ℕ → Bool
in_file inode offset n s o =
    leb inode.content.start s
    && (leb offset ((s - inode.content.start) * 512 + o)
        && ltb ((s - inode.content.start) * 512 + o) (offset + n))

-- `b'` is `b` with `n` bytes of the buffer, from `done` on, in the file at `offset`.
pub record IsWritten (b b' : Block) (inode : Inode) (buffer : Bytes) (offset done n : ℕ)
    : Type 0 where
  pub size : b'.size ≡ b.size
  pub foreign : b'.foreign ≡ b.foreign
  pub bytes :
      (s o : ℕ)
      → o < 512
      → b'.sectors s o ≡ (
          if in_file inode offset n s o
          then buffer (done + ((s - inode.content.start) * 512 + o - offset))
          else b.sectors s o)

IsWritten-none :
    (b : Block) (inode : Inode) (buffer : Bytes) (offset done n : ℕ)
    → n ≡ 0
    → IsWritten b b inode buffer offset done n
IsWritten-none b inode buffer offset done n e = record {
  size = refl;
  foreign = refl;
  bytes = λ s o h. ground arith;
}

IsWritten-trans :
    (b b₁ b₂ : Block) (inode : Inode) (buffer : Bytes) (offset done c m : ℕ)
    → IsWritten b b₁ inode buffer offset done c
    → IsWritten b₁ b₂ inode buffer (offset + c) (done + c) m
    → IsWritten b b₂ inode buffer offset done (c + m)
IsWritten-trans b b₁ b₂ inode buffer offset done c m r w = record {
  size = w.size ∙ r.size;
  foreign = w.foreign ∙ r.foreign;
  bytes = λ s o h. ground (arith, w.bytes s o h, r.bytes s o h);
}

block_write_ok :
    (b : Block) (s : ℕ) (bytes : Bytes)
    → s < b.size
    → b.foreign ≡ false
    → block_write b s bytes ≡ ok (set_sector b s bytes)
unfolding block_write
block_write_ok b s bytes h e =
    assert_ok (ltb s b.size) _ (ground arith) ∙ assert_ok (not b.foreign) _ (ground arith)

-- A sector written with a chunk of the buffer at its place, and the rest as before.
IsWritten-sector :
    (b : Block) (inode : Inode) (buffer bytes : Bytes) (offset done c : ℕ)
    → offset % 512 + c ≤ 512
    → ((o : ℕ)
        → o < 512
        → bytes o
          ≡ memcpy (b.sectors (inode.content.start + offset / 512)) (offset % 512) buffer done c o)
    → IsWritten b
        (set_sector b (inode.content.start + offset / 512) bytes)
        inode
        buffer
        offset
        done
        c
IsWritten-sector b inode buffer bytes offset done c h e = record {
  size = refl;
  foreign = refl;
  bytes = λ s o p. elim (Bool-cases (inode.content.start + offset / 512 == s)) [
    | inl q ↦ ground (arith, e o p)
    | inr q ↦ ground arith
  ];
}

write_part_ok :
    (b : Block) (sector : ℕ) (buffer : Bytes) (done ofs c : ℕ)
    → sector < b.size
    → b.foreign ≡ false
    → ofs + c ≤ 512
    → (ofs == 0 && c == 512) ≡ false
    → write_part b sector buffer done ofs c
      ≡ ok (set_sector b sector (memcpy (b.sectors sector) ofs buffer done c))
unfolding write_part
write_part_ok b sector buffer done ofs c h e m w =
    if_of_true (ltb 0 ofs || ltb c (512 - ofs)) _ _ (ground arith)
    ∙ bind-eq _ (block_read_ok b sector h)
    ∙ block_write_ok b sector _ h e

-- One round of the loop: a chunk is written, either way, and the loop goes on.
write_round :
    (f size offset done : ℕ) (b : Block) (inode : Inode) (buffer : Bytes)
    → IsWritable b inode
    → 0 < size
    → offset < inode.content.length
    → let c = chunk_size inode size offset in
      (b₁ : Block) × (write_loop (suc f) true b inode buffer size offset done
        ≡ write_loop f true b₁ inode buffer (size - c) (offset + c) (done + c))
      × IsWritten b b₁ inode buffer offset done c
unfolding write_loop
write_round f size offset done b inode buffer v p q =
    let c = chunk_size inode size offset in
    let sector = inode.content.start + offset / 512 in
    let (e, h) = sector_ok b inode offset v.on_disk q in
    let (c₁, c₂, c₃, c₄) = chunk_bounds inode size offset in
    let more : (size == 0 || c == 0) ≡ false = ground (arith, c₄) in
    elim (Bool-cases (offset % 512 == 0 && c == 512)) [
      | inl w ↦ (
        set_sector b sector (λ i. buffer (done + i)),
        if_of_false (size == 0 || c == 0) _ _ more
            ∙ if_of_true (offset % 512 == 0 && c == 512) _ _ w
            ∙ bind-eq _ (
                ap (λ s. block_write b s (λ i. buffer (done + i))) e
                ∙ block_write_ok b sector (λ i. buffer (done + i)) h v.own),
        IsWritten-sector b inode buffer (λ i. buffer (done + i)) offset done c c₂
            (λ o i. ground arith),
      )
      | inr w ↦ (
        set_sector b sector (memcpy (b.sectors sector) (offset % 512) buffer done c),
        if_of_false (size == 0 || c == 0) _ _ more
            ∙ if_of_false (offset % 512 == 0 && c == 512) _ _ w
            ∙ bind-eq _ (
                ap (λ s. write_part b s buffer done (offset % 512) c) e
                ∙ write_part_ok b sector buffer done (offset % 512) c h v.own c₂ w),
        IsWritten-sector b inode buffer _ offset done c c₂ (λ o i. refl),
      )
    ]

abbrev WriteTo : ℕ → Block → Inode → Bytes → ℕ → ℕ → ℕ → Type 0
WriteTo f b inode buffer size offset done =
    (b' : Block) × (write_loop f true b inode buffer size offset done
      ≡ ok (done + available inode size offset, b'))
    × IsWritten b b' inode buffer offset done (available inode size offset)

write_end :
    (f size offset done : ℕ) (b : Block) (inode : Inode) (buffer : Bytes)
    → size ≤ f
    → (size == 0 || leb inode.content.length offset) ≡ true
    → write_loop f true b inode buffer size offset done ≡ ok (done, b)
unfolding write_loop
write_end zero size offset done b inode buffer h e = ground arith
write_end (suc f) size offset done b inode buffer h e =
    let (c₁, c₂, c₃, c₄) = chunk_bounds inode size offset in
    if_of_true (size == 0 || chunk_size inode size offset == 0) _ _ (ground (arith, c₄))

write_none :
    (f size offset done : ℕ) (b : Block) (inode : Inode) (buffer : Bytes)
    → size ≤ f
    → (size == 0 || leb inode.content.length offset) ≡ true
    → WriteTo f b inode buffer size offset done
write_none f size offset done b inode buffer h e =
    let none_left : available inode size offset ≡ 0 = ground arith in
    (
      b,
      write_end f size offset done b inode buffer h e
          ∙ ap (λ n. ok (n, b)) (omega (arith, none_left)),
      IsWritten-none b inode buffer offset done _ none_left,
    )

written-IsWritable :
    {b b' : Block} {inode : Inode} {buffer : Bytes} {offset done n : ℕ}
    → IsWritable b inode
    → IsWritten b b' inode buffer offset done n
    → IsWritable b' inode
written-IsWritable v w = record {
  on_disk = record { fits = rw w.size v.on_disk.fits };
  own = w.foreign ∙ v.own;
}

write_some :
    (f size offset done : ℕ) (b b₁ : Block) (inode : Inode) (buffer : Bytes)
    → 0 < size
    → offset < inode.content.length
    → let c = chunk_size inode size offset in
      (write_loop (suc f) true b inode buffer size offset done
        ≡ write_loop f true b₁ inode buffer (size - c) (offset + c) (done + c))
      → IsWritten b b₁ inode buffer offset done c
      → WriteTo f b₁ inode buffer (size - c) (offset + c) (done + c)
      → WriteTo (suc f) b inode buffer size offset done
write_some f size offset done b b₁ inode buffer p q g w (b', g', w') =
    let c = chunk_size inode size offset in
    let (c₁, c₂, c₃, c₄) = chunk_bounds inode size offset in
    let total : c + available inode (size - c) (offset + c) ≡ available inode size offset =
      ground (arith, c₁, c₃) in
    (
      b',
      g ∙ g' ∙ ap (λ n. ok (n, b')) (omega (arith, total)),
      rw (sym total) (IsWritten-trans b b₁ b' inode buffer offset done c _ w w'),
    )

write_loop_ok :
    (f size offset done : ℕ) (b : Block) (inode : Inode) (buffer : Bytes)
    → IsWritable b inode
    → size ≤ f
    → WriteTo f b inode buffer size offset done
write_loop_ok zero size offset done b inode buffer v h =
    write_none zero size offset done b inode buffer h (ground arith)
write_loop_ok (suc f) size offset done b inode buffer v h =
    let c = chunk_size inode size offset in
    let (c₁, c₂, c₃, c₄) = chunk_bounds inode size offset in
    elim (Bool-cases (size == 0 || leb inode.content.length offset)) [
      | inl e ↦ write_none (suc f) size offset done b inode buffer h e
      | inr e ↦
          let (b₁, g, w) =
            write_round f size offset done b inode buffer v (ground arith) (ground arith) in
          write_some f size offset done b b₁ inode buffer (ground arith) (ground arith) g w (
            write_loop_ok f (size - c) (offset + c) (done + c) b₁ inode buffer
              (written-IsWritable v w) (ground (arith, c₄)))
    ]

-- A write to a file that is on a device of its own, and not denied, panics at no sector, ends, and
-- returns the number of bytes that the file has room for; these bytes of the device are the
-- buffer's, and all others, of this file and of others, are as before.
pub inode_write_at_writes :
    (b : Block) (inode : Inode) (buffer : Bytes) (size offset : ℕ)
    → IsWritable b inode
    → inode.deny_write_cnt ≡ 0
    → (b' : Block) × (inode_write_at true b inode buffer size offset
        ≡ ok (available inode size offset, b'))
      × IsWritten b b' inode buffer offset 0 (available inode size offset)
unfolding inode_write_at
inode_write_at_writes b inode buffer size offset v d =
    let (b', e, w) = write_loop_ok size size offset 0 b inode buffer v (omega arith) in
    (
      b',
      if_of_true (inode.deny_write_cnt == 0) _ _ (ground arith)
          ∙ e
          ∙ ap (λ m. ok (m, b')) (omega arith),
      w,
    )
