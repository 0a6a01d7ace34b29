-- ===== src/OpenInodes/Close.antt =====
-- inode_close() of filesys/inode.c: the last closing of a removed inode releases its sectors.
use pint_os_assignment.Common.{
  ℕ, ◌+◌, ◌-◌, ◌<◌, ◌≤◌, ◌≡◌, ◌≢◌, refl, sym, ap, subst, ◌∙◌, Bool, true, false, ◌&&◌, false≢true,
  arith, count, ◌==◌, ==_iff, if◌then◌else◌, ok, bind-eq, inl, inr, Bool-cases, if_of_true,
  if_of_false,
}
use pint_os_assignment.KernelList.{list_remove}
use pint_os_assignment.KernelList.Count.{count-remove}
use pint_os_assignment.Bitmap.{Bitmap, bitmap_error}
use pint_os_assignment.Bitmap.Set.{bit, in_range}
use pint_os_assignment.Inode.{Inode, bytes_to_sectors}
use pint_os_assignment.FreeMap.Laws.{free_map_release_ok}
use pint_os_assignment.OpenInodes.{FileSystem, set_inode, release_blocks, inode_close}
use pint_os_assignment.OpenInodes.Table.{
  owns, owns_own, owns-like, IsOpen, IsStored, IsStored-like, IsSound, IsLike, set_inode-IsLike,
  set_inode-IsSound,
}

-- `m` is the map with the sectors of the inode cleared, if they are released.
pub record IsCleared (m m' : Bitmap) (i : Inode) (released : Bool) : Type 0 where
  pub size : m'.bit_cnt ≡ m.bit_cnt
  pub bits : (s : ℕ) → bit m' s ≡ (if released && owns i s then false else bit m s)

-- Clearing the inode's own sector leaves its blocks in use.
still_in_use :
    (m m' : Bitmap) (i : Inode) (k : ℕ)
    → IsStored m i
    → bit m' k ≡ (if in_range i.sector 1 k then false else bit m k)
    → in_range i.content.start (bytes_to_sectors i.content.length) k ≡ true
    → bit m' k ≡ true
still_in_use m m' i k v e h = elim (Bool-cases (i.sector == k)) [
  | inl p ↦ absurd (
      false≢true (
        sym v.self
        ∙ subst (λ s. in_range i.content.start (bytes_to_sectors i.content.length) s ≡ true)
            (sym ((==_iff i.sector k).0 p)) h))
  | inr p ↦ e ∙ if_of_false (in_range i.sector 1 k) _ _ (ground arith) ∙ v.in_use k (ground arith)
]

release_blocks_ok :
    (fs : FileSystem) (a : ℕ)
    → IsStored fs.free_map (fs.inodes a)
    → fs.free_map.bit_cnt < bitmap_error
    → (m : Bitmap) × (release_blocks fs a ≡ ok (record fs { free_map = m }))
      × IsCleared fs.free_map m (fs.inodes a) true
unfolding release_blocks
release_blocks_ok fs a v w =
    let i = fs.inodes a in
    let n = bytes_to_sectors i.content.length in
    let (m, e, s) =
      free_map_release_ok fs.free_map i.sector 1 (omega (arith, v.sector_in)) w
        (λ k p q. v.in_use k (owns_own i k (omega arith))) in
    let (m', e', s') =
      free_map_release_ok m i.content.start n (omega (arith, v.blocks_in, s.size))
        (omega (arith, s.size))
        (λ k p q. still_in_use fs.free_map m i k v (s.bits k) (ground arith)) in
    (
      m',
      bind-eq _ e ∙ bind-eq _ e',
      record { size = s'.size ∙ s.size; bits = λ k. cleared m m' k (s.bits k) (s'.bits k) },
    )
  where
    cleared :
        (m m' : Bitmap) (k : ℕ)
        → bit m k ≡ (if in_range (fs.inodes a).sector 1 k then false else bit fs.free_map k)
        → bit m' k ≡ (
            if in_range
              (fs.inodes a).content.start
              (bytes_to_sectors (fs.inodes a).content.length)
              k
            then false
            else bit m k)
        → bit m' k ≡ (if owns (fs.inodes a) k then false else bit fs.free_map k)
    cleared m m' k e e' = ground arith

-- The inode with one opener less.
abbrev fewer : FileSystem → ℕ → FileSystem
fewer fs a = set_inode fs a (record (fs.inodes a) { open_cnt = (fs.inodes a).open_cnt - 1 })

-- The file system after the last closing, with the free map that it has then.
abbrev closed : FileSystem → ℕ → Bitmap → FileSystem
closed fs a m = record (fewer fs a) { open_inodes = list_remove fs.open_inodes a; free_map = m }

fewer-IsLike : (fs : FileSystem) (a c : ℕ) → IsLike (fs.inodes c) ((fewer fs a).inodes c)
fewer-IsLike fs a c = set_inode-IsLike fs a c _ (record { sector = refl; content = refl })

-- An inode that is open after the last closing of another one.
other-IsOpen :
    (fs : FileSystem) (a c : ℕ) (m : Bitmap)
    → IsSound fs
    → IsOpen (closed fs a m) c
    → (a ≢ c) × IsOpen fs c × ((fewer fs a).inodes c ≡ fs.inodes c)
other-IsOpen fs a c m v o = elim (Bool-cases (a == c)) [
  | inl e ↦ absurd (ground (arith, count-remove fs.open_inodes a c, v.once c))
  | inr e ↦
      (ground arith, ground (arith, count-remove fs.open_inodes a c), if_of_false (a == c) _ _ e)
]

closed-IsSound :
    (fs : FileSystem) (a : ℕ) (m : Bitmap) (released : Bool)
    → IsSound fs
    → IsOpen fs a
    → IsCleared fs.free_map m (fs.inodes a) released
    → IsSound (closed fs a m)
closed-IsSound fs a m released v o d = record {
  once = λ c. ground (arith, count-remove fs.open_inodes a c, v.once c);
  opened = λ c p.
      let (n, q, e) = other-IsOpen fs a c m v p in
      subst (λ i. 0 < i.open_cnt) (sym e) (v.opened c q);
  denied = λ c p.
      let (n, q, e) = other-IsOpen fs a c m v p in
      subst (λ i. i.deny_write_cnt ≤ i.open_cnt) (sym e) (v.denied c q);
  stored = λ c p.
      let (n, q, e) = other-IsOpen fs a c m v p in
      subst (IsStored m) (sym e) (kept c n q (v.stored c q));
  apart = λ c c' s p p' h h'.
      let (n, q, e) = other-IsOpen fs a c m v p in
      let (n', q', e') = other-IsOpen fs a c' m v p' in
      v.apart c c' s q q' (sym (ap (λ i. owns i s) e) ∙ h) (sym (ap (λ i. owns i s) e') ∙ h');
  small = omega (arith, d.size, v.small);
}
  where
    kept :
        (c : ℕ)
        → a ≢ c
        → IsOpen fs c
        → IsStored fs.free_map (fs.inodes c)
        → IsStored m (fs.inodes c)
    kept c n q w = record {
      sector_in = omega (arith, d.size, w.sector_in);
      blocks_in = omega (arith, d.size, w.blocks_in);
      in_use = λ s h. d.bits s ∙ elim (Bool-cases (owns (fs.inodes a) s)) [
        | inl r ↦ absurd (n (v.apart a c s o q r h))
        | inr r ↦ if_of_false (released && owns (fs.inodes a) s) _ _ (ground arith) ∙ w.in_use s h
      ];
      self = w.self;
    }

-- What a closing comes to. The sectors are released when the last opener closes a removed inode.
abbrev releases : Inode → Bool
releases i = i.open_cnt == 1 && i.removed

pub record IsClosed (fs fs' : FileSystem) (a : ℕ) : Type 0 where
  pub sound : IsSound fs'
  pub openers : 1 < (fs.inodes a).open_cnt → (fs'.inodes a).open_cnt + 1 ≡ (fs.inodes a).open_cnt
  pub device_kept : fs'.device ≡ fs.device
  pub removed_kept : (fs'.inodes a).removed ≡ (fs.inodes a).removed
  pub deny_kept : (fs'.inodes a).deny_write_cnt ≡ (fs.inodes a).deny_write_cnt
  pub listed :
      (c : ℕ)
      → count c fs'.open_inodes
        ≡ (if c == a && (fs.inodes a).open_cnt == 1 then 0 else count c fs.open_inodes)
  pub others : (c : ℕ) → c ≢ a → fs'.inodes c ≡ fs.inodes c
  pub cleared : IsCleared fs.free_map fs'.free_map (fs.inodes a) (releases (fs.inodes a))

closed-IsClosed :
    (fs : FileSystem) (a : ℕ) (m : Bitmap)
    → IsSound fs
    → IsOpen fs a
    → (fs.inodes a).open_cnt ≡ 1
    → IsCleared fs.free_map m (fs.inodes a) (releases (fs.inodes a))
    → IsClosed fs (closed fs a m) a
closed-IsClosed fs a m v o e d = record {
  sound = closed-IsSound fs a m (releases (fs.inodes a)) v o d;
  openers = λ h. absurd (omega arith);
  device_kept = refl;
  removed_kept = ground arith;
  deny_kept = ground arith;
  listed = λ c. count-remove fs.open_inodes a c ∙ gone c (v.once c);
  others = λ c n. if_of_false (a == c) _ _ (ground (arith, n));
  cleared = d;
}
  where
    gone :
        (c : ℕ)
        → count c fs.open_inodes ≤ 1
        → count c fs.open_inodes - (if a == c then 1 else 0)
          ≡ (if c == a && (fs.inodes a).open_cnt == 1 then 0 else count c fs.open_inodes)
    gone c h = ground arith

-- inode_close() of an open inode in a sound table, of which another opener's denial of writes may
-- stay but not that of the one who closes, fails no assertion. It takes one opener away; the last
-- takes the inode off the list and, if it is removed, clears exactly its own sector and its blocks
-- in the free map. Every other inode stays as it is, and the table stays sound.
pub inode_close_closes :
    (fs : FileSystem) (a : ℕ)
    → IsSound fs
    → IsOpen fs a
    → (fs.inodes a).deny_write_cnt < (fs.inodes a).open_cnt
    → (fs' : FileSystem) × (inode_close fs a ≡ ok fs') × IsClosed fs fs' a
unfolding inode_close
inode_close_closes fs a v o d = elim (Bool-cases ((fs.inodes a).open_cnt == 1)) [
  | inl e ↦ elim (Bool-cases (fs.inodes a).removed) [
    | inl r ↦
        let (m, q, c) =
          release_blocks_ok (closed fs a fs.free_map) a
            (IsStored-like fs.free_map _ _ (fewer-IsLike fs a a) (v.stored a o)) v.small in
        (
          closed fs a m,
          if_of_true ((fs.inodes a).open_cnt == 1) _ _ e
              ∙ if_of_true ((fewer fs a).inodes a).removed _ _ (ground arith)
              ∙ q,
          closed-IsClosed fs a m v o ((==_iff _ _).0 e) (record {
            size = c.size;
            bits = λ s.
                c.bits s
                ∙ ap (λ h. if h then false else bit fs.free_map s)
                    (sym (owns-like _ _ s (fewer-IsLike fs a a)) ∙ ground arith);
          }),
        )
    | inr r ↦ (
      closed fs a fs.free_map,
      if_of_true ((fs.inodes a).open_cnt == 1) _ _ e
          ∙ if_of_false ((fewer fs a).inodes a).removed _ _ (ground arith),
      closed-IsClosed fs a fs.free_map v o ((==_iff _ _).0 e)
          (record { size = refl; bits = λ s. ground arith }),
    )
  ]
  | inr e ↦ (
    fewer fs a,
    if_of_false ((fs.inodes a).open_cnt == 1) _ _ e,
    record {
      sound =
          set_inode-IsSound fs a _ v (record { sector = refl; content = refl })
            (λ _. ground (arith, v.opened a o)) (omega arith);
      openers = λ h. ground arith;
      device_kept = refl;
      removed_kept = ground arith;
      deny_kept = ground arith;
      listed = λ c. ground arith;
      others = λ c n. if_of_false (a == c) _ _ (ground (arith, n));
      cleared = record { size = refl; bits = λ s. ground arith };
    },
  )
]
