-- ===== src/Filesys/Creation.antt =====
-- filesys_create() of filesys/filesys.c, with the root directory open.
use pint_os_assignment.Common.{
  ℕ, ◌+◌, ◌/◌, ◌%◌, ◌^◌, ◌<◌, ◌≤◌, ◌≡◌, sym, ap, ap₂, ◌∙◌, subst, Bool, true, false, false≢true,
  not, ◌||◌, some, List, arith, ltb, ◌==◌, ==_iff, if◌then◌else◌, Result, ok, ◌>>=◌, bind-eq, inl,
  inr, Bool-cases, if_of_true, if_of_false,
}
use pint_os_assignment.Bitmap.{Bitmap}
use pint_os_assignment.Bitmap.Set.{bit, in_range, IsSetTo}
use pint_os_assignment.Bitmap.Scan.{AllBits}
use pint_os_assignment.Block.{Bytes, Block}
use pint_os_assignment.Inode.{Inode, bytes_to_sectors}
use pint_os_assignment.Inode.Read.{byte_at}
use pint_os_assignment.Inode.Write.{IsWritable}
use pint_os_assignment.Inode.Files.{Apart}
use pint_os_assignment.OpenInodes.{FileSystem, to_bytes}
use pint_os_assignment.OpenInodes.Create.{disk_inode}
use pint_os_assignment.Directory.{Dir, inode_sector, dir_add}
use pint_os_assignment.Directory.Strings.{IsName}
use pint_os_assignment.Directory.Slots.{slot, entry_is, entry_is-Agree}
use pint_os_assignment.Directory.Add.{IsAdded, Added, bad_name, taken, full, added, dir_add_adds}
use pint_os_assignment.Filesys.{Memory, dir_close, add_made, release_failed}
use pint_os_assignment.Filesys.Frame.{with_map, IsReady, IsDone, dir_close-IsDone, slot_kept}
use pint_os_assignment.Filesys.Outcome.{
  at_start, IsMade, Outcome, made, leaked, Unaddable, bad_length, present, no_room, dir-IsStored,
  dir_used, finish, finish_releases,
}

module _ (fs : FileSystem) (dir : Dir) (v : IsReady fs dir) (m₀ : Bitmap) (sector : ℕ)
    (inside : sector + 1 ≤ fs.free_map.bit_cnt) (sector_free : bit fs.free_map sector ≡ false)
    (set₀ : IsSetTo fs.free_map m₀ sector 1 true) where
  abbrev root : Inode
  root = fs.inodes dir.inode

  used :
      (s : ℕ)
      → in_range root.content.start (bytes_to_sectors root.content.length) s ≡ true
      → bit fs.free_map s ≡ true
  used = dir_used fs dir v m₀ sector inside sector_free set₀

  -- Free sectors are none of the directory's.
  free-Apart :
      (c : Inode)
      → 0 < bytes_to_sectors root.content.length
      → 0 < bytes_to_sectors c.content.length
      → AllBits fs.free_map c.content.start (bytes_to_sectors c.content.length) false
      → Apart root c
  free-Apart c h h' a = elim (Bool-cases (ltb root.content.start c.content.start)) [
    | inl p ↦
        elim (Bool-cases
          (ltb c.content.start (root.content.start + bytes_to_sectors root.content.length))) [
            | inl q ↦ absurd (
                false≢true (
                  sym (a c.content.start (omega arith) (omega arith))
                  ∙ used c.content.start (ground arith)))
            | inr q ↦ inl (ground arith)
          ]
    | inr p ↦
        elim (Bool-cases
          (ltb root.content.start (c.content.start + bytes_to_sectors c.content.length))) [
            | inl q ↦ absurd (
                false≢true (
                  sym (a root.content.start (ground arith) (ground arith))
                  ∙ used root.content.start (ground arith)))
            | inr q ↦ inr (ground arith)
          ]
  ]

  module _ (m₁ : Bitmap) (b : Block) (start size : ℕ)
      (blocks_in : start + bytes_to_sectors size ≤ m₀.bit_cnt)
      (free₀ : AllBits m₀ start (bytes_to_sectors size) false)
      (set₁ : IsSetTo m₀ m₁ start (bytes_to_sectors size) true) (b_size : b.size ≡ fs.device.size)
      (b_foreign : b.foreign ≡ fs.device.foreign)
      (b_sectors : (s i : ℕ)
        → b.sectors s i ≡ (
            if in_range start (bytes_to_sectors size) s
            then 0
            else if sector == s
            then to_bytes (disk_inode start size) i
            else fs.device.sectors s i)) where
    blocks_free : AllBits fs.free_map start (bytes_to_sectors size) false
    blocks_free s p q = ground (arith, free₀ s p q, set₀.bits s)

    sector_apart : in_range start (bytes_to_sectors size) sector ≡ false
    sector_apart = elim (Bool-cases (in_range start (bytes_to_sectors size) sector)) [
      | inl c ↦ absurd (ground (arith, free₀ sector, set₀.bits sector))
      | inr c ↦ c
    ]

    bits₁ :
        (s : ℕ)
        → bit m₁ s ≡ (
            if sector == s || in_range start (bytes_to_sectors size) s
            then true
            else bit fs.free_map s)
    bits₁ s = ground (arith, set₁.bits s, set₀.bits s)

    root_kept :
        (s o : ℕ)
        → in_range root.content.start (bytes_to_sectors root.content.length) s ≡ true
        → b.sectors s o ≡ fs.device.sectors s o
    root_kept s o h =
        b_sectors s o
        ∙ if_of_false (in_range start (bytes_to_sectors size) s) _ _ (not_block (used s h))
        ∙ if_of_false (sector == s) _ _ (not_sector (used s h))
      where
        not_block : bit fs.free_map s ≡ true → in_range start (bytes_to_sectors size) s ≡ false
        not_block u = elim (Bool-cases (in_range start (bytes_to_sectors size) s)) [
          | inl c ↦ absurd (ground (arith, blocks_free s))
          | inr c ↦ c
        ]

        not_sector : bit fs.free_map s ≡ true → (sector == s) ≡ false
        not_sector u = elim (Bool-cases (sector == s)) [
          | inl c ↦ absurd (
              false≢true (
                sym sector_free
                ∙ subst (λ t. bit fs.free_map t ≡ true) (sym ((==_iff sector s).0 c)) u))
          | inr c ↦ c
        ]

    root-IsWritable : IsWritable b root
    root-IsWritable =
        let w = dir-IsStored fs dir v m₀ sector inside sector_free set₀ in
        record {
          on_disk = record { fits = omega (arith, w.blocks_in, v.fits) };
          own = b_foreign ∙ v.own;
        }

    added-IsMade :
        (fs' : FileSystem) (b' : Block) (name : List ℕ) (k : ℕ)
        → IsAdded b b' root name sector k
        → IsDone fs fs' m₁ b'
        → IsMade fs fs' dir name size sector start k
    added-IsMade fs' b' name k w d = record {
      sound = d.sound;
      sector_free = sector_free;
      blocks_free = blocks_free;
      apart = sector_apart;
      bits = λ s. d.bits s ∙ bits₁ s;
      stored = λ i h.
          ap (λ x. x.sectors sector i) d.device
          ∙ ap₂ b'.sectors (omega arith) (omega arith)
          ∙ w.files_kept (at_start sector 512) i
              (free-Apart (at_start sector 512) (omega (arith, w.inside)) (omega arith) (λ s p q.
                subst (λ t. bit fs.free_map t ≡ false) {x = sector} {y = s} (omega arith)
                  sector_free))
              h
          ∙ ap₂ b.sectors (omega arith) (omega arith)
          ∙ b_sectors sector i
          ∙ if_of_false (in_range start (bytes_to_sectors size) sector) _ _ sector_apart
          ∙ if_of_true (sector == sector) _ _ (ground arith);
      zeros = λ pos h.
          ap (λ x. byte_at x (at_start start size) pos) d.device
          ∙ w.files_kept (at_start start size) pos
              (free-Apart (at_start start size) (omega (arith, w.inside)) (omega arith) blocks_free)
              h
          ∙ b_sectors (start + pos / 512) (pos % 512)
          ∙ if_of_true (in_range start (bytes_to_sectors size) (start + pos / 512)) _ _
              (ground arith);
      entry_free = (
        w.inside,
        ap (λ x. not (x == 0))
              (sym (slot_kept fs.device b root k w.inside root_kept 19 (omega arith)))
            ∙ w.was_free,
      );
      named = ap (λ x. entry_is name (slot x root k)) d.device ∙ w.named;
      at_sector = ap (λ x. inode_sector (slot x root k)) d.device ∙ w.at_sector;
      names_kept = λ other j h x l n.
          ap (λ y. entry_is other (slot y root j)) d.device
          ∙ w.names_kept other j x l n
          ∙ entry_is-Agree other _ _ l (slot_kept fs.device b root j h root_kept);
    }

    -- Without a name the blocks stay in use.
    leak :
        (b' : Block) (name : List ℕ)
        → Unaddable fs.device root name
        → {r : Result (Bool × FileSystem)}
        → r ≡ finish fs dir v m₀ sector inside sector_free set₀ (with_map fs m₁ b')
        → Outcome fs dir name size r
    leak b' name why e =
        let (fs', f, sound, bits) =
          finish_releases fs dir v m₀ sector inside sector_free set₀ m₁ b'
            (in_range start (bytes_to_sectors size)) (set₁.size ∙ set₀.size) (λ s. set₁.bits s)
            sector_apart in
        leaked start fs' (e ∙ f) why sound blocks_free bits

    pub add-Outcome :
        (m : Memory) (e : Bytes) (name : List ℕ)
        → m.bounce ≡ true
        → IsName name
        → sector < 2 ^ 32
        → Outcome fs dir name size (
            add_made m (with_map fs m₁ b) dir e name sector true >>= λ (success, fs₂).
            release_failed fs₂ sector success >>= λ fs₃.
            dir_close fs₃ (some dir) >>= λ fs₄. ok (success, fs₄))
    unfolding add_made release_failed
    add-Outcome m e name h named q = by_case (
        subst (λ x. Added b root name sector (dir_add x b root e name sector)) (sym h)
          (dir_add_adds b root e name sector root-IsWritable v.writable v.whole named q))
      where
        by_case :
            Added b root name sector (dir_add m.bounce b root e name sector)
            → Outcome fs dir name size (
                add_made m (with_map fs m₁ b) dir e name sector true >>= λ (success, fs₂).
                release_failed fs₂ sector success >>= λ fs₃.
                dir_close fs₃ (some dir) >>= λ fs₄. ok (success, fs₄))
        by_case (bad_name c r) = leak b name (bad_length c) (bind-eq _ (bind-eq _ r))
        by_case (taken k c l t r) =
            leak b name
              (present k c
                (sym (entry_is-Agree name _ _ l (slot_kept fs.device b root k c root_kept)) ∙ t))
              (bind-eq _ (bind-eq _ r))
        by_case (full b' a r c t) =
            leak b' name
              (no_room (λ j p.
                ap (λ x. not (x == 0))
                  (sym (slot_kept fs.device b root j p root_kept 19 (omega arith)))
                ∙ c j p))
              (bind-eq _ (bind-eq _ r))
        by_case (added k b' r w) =
            let (fs', f, d) =
              dir_close-IsDone fs dir m₁ b' v
                (set₁.size ∙ set₀.size, λ s c. ground (arith, bits₁ s)) in
            made sector start k fs' (bind-eq _ (bind-eq _ r) ∙ bind-eq _ f)
              (added-IsMade fs' b' name k w d)
