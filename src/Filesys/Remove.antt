-- ===== src/Filesys/Remove.antt =====
-- dir_remove() of filesys/directory.c: the entry, and the inode that it named.
use pint_os_assignment.Common.{
  ℕ, ◌+◌, ◌*◌, ◌<◌, ◌≤◌, ◌≡◌, ◌≢◌, refl, sym, ap, ◌∙◌, subst, Bool, true, false, ◌&&◌, Option, some,
  List, length, arith, ltb, count, ◌==◌, ==_iff, if◌then◌else◌, update, Result, ok, bind-eq, inl,
  inr, Bool-cases, if_of_true, if_of_false,
}
use pint_os_assignment.Bitmap.Set.{bit}
use pint_os_assignment.Block.{Bytes, Block}
use pint_os_assignment.Inode.{Inode, inode_write_at}
use pint_os_assignment.Inode.Read.{available}
use pint_os_assignment.Inode.Write.{IsWritable}
use pint_os_assignment.Inode.Files.{inode_write_at_refines}
use pint_os_assignment.OpenInodes.{FileSystem, set_inode, inode_open, inode_close, inode_remove}
use pint_os_assignment.OpenInodes.Table.{owns, IsOpen, new_inode, set_inode-IsSound}
use pint_os_assignment.OpenInodes.Open.{IsOpened, inode_open_shares}
use pint_os_assignment.OpenInodes.Close.{IsClosed, inode_close_closes}
use pint_os_assignment.Directory.{Dir, inode_sector, lookup}
use pint_os_assignment.Directory.Slots.{slots, slot, entry_is, Agree, entry_is-Agree}
use pint_os_assignment.Directory.Lookup.{LookedUp, entry, no_entry, lookup_finds}
use pint_os_assignment.Directory.Add.{SlotWritten, slot_new, slot_other}
use pint_os_assignment.Filesys.{Memory, remove_opened, remove_found, dir_remove}
use pint_os_assignment.Filesys.Frame.{with_map-IsSound, IsReady}
use pint_os_assignment.Filesys.Removal.{
  target, Unopened, IsTarget, IsRemoved, Removal, absent, removed,
}

abbrev with_removed : Inode → Inode
with_removed i = record i { removed = true }

module _ (fs : FileSystem) (dir : Dir) (v : IsReady fs dir) (k : ℕ)
    (inside : k < slots (fs.inodes dir.inode)) where
  abbrev root : Inode
  root = fs.inodes dir.inode

  root-IsWritable : IsWritable fs.device root
  root-IsWritable = record {
    on_disk = record {
      fits = omega (arith, (v.sound.stored dir.inode v.opened).blocks_in, v.fits);
    };
    own = v.own;
  }

  -- The entries with one of them erased.
  erased_names :
      (b' : Block) (e : Bytes) (other : List ℕ) (j : ℕ)
      → SlotWritten fs.device b' root (update e 19 0) k
      → length other ≤ 14
      → entry_is other (slot b' root j)
        ≡ (if j == k then false else entry_is other (slot fs.device root j))
  erased_names b' e other j w l = elim (Bool-cases (j == k)) [
    | inl c ↦
        subst (λ i. entry_is other (slot b' root i) ≡ false) (sym ((==_iff j k).0 c))
          (entry_is-Agree other _ (update e 19 0) l
              (slot_new fs.device b' root (update e 19 0) k inside w)
            ∙ ground arith)
        ∙ sym (if_of_true (j == k) _ _ c)
    | inr c ↦
        entry_is-Agree other _ _ l
          (slot_other fs.device b' root (update e 19 0) k w j (ground arith))
        ∙ sym (if_of_false (j == k) _ _ c)
  ]

  -- The inode of the entry is marked, and closed.
  abbrev marked : FileSystem → Block → ℕ → FileSystem
  marked fs₁ b a = set_inode (record fs₁ { device = b }) a (with_removed (fs₁.inodes a))

  marked_closes :
      (fs₁ : FileSystem) (b : Block) (a : ℕ)
      → IsOpened fs fs₁ (target fs dir k) a
      → (fs' : FileSystem) × (inode_close (marked fs₁ b a) a ≡ ok fs')
        × IsClosed (marked fs₁ b a) fs' a
  marked_closes fs₁ b a o =
      inode_close_closes (marked fs₁ b a) a
        (set_inode-IsSound (record fs₁ { device = b }) a _
          (with_map-IsSound fs₁ fs₁.free_map b o.sound (refl, λ s h. h))
          (record { sector = refl; content = refl }) (λ h. o.sound.opened a h)
          (omega (arith, o.undenied)))
        o.opened (ground (arith, o.undenied))

  closed-IsRemoved :
      (fs₁ fs' : FileSystem) (b : Block) (e : Bytes) (name : List ℕ) (a : ℕ)
      → IsOpened fs fs₁ (target fs dir k) a
      → SlotWritten fs.device b root (update e 19 0) k
      → entry_is name (slot fs.device root k) ≡ true
      → ((j : ℕ) → j < k → entry_is name (slot fs.device root j) ≡ false)
      → IsClosed (marked fs₁ b a) fs' a
      → IsRemoved fs fs' dir name k
  closed-IsRemoved fs₁ fs' b e name a o w t f c = record {
    sound = c.sound;
    inside = inside;
    named = t;
    first = f;
    kept = λ j n i p.
        ap (λ d. slot d root j i) c.device_kept
        ∙ slot_other fs.device b root (update e 19 0) k w j n i p;
    names = λ other j l.
        ap (λ d. entry_is other (slot d root j)) c.device_kept ∙ erased_names b e other j w l;
    deferred = λ x p q.
        let d = o.shared x p q in
        let p' = subst (IsOpen fs) d p in
        let more : (fs₁.inodes a).open_cnt ≡ (fs.inodes a).open_cnt + 1 =
          o.openers ∙ if_of_true (ltb 0 (count a fs.open_inodes)) _ _ (ground arith) in
        let pos = v.sound.opened a p' in
        (
          ap (λ y. (fs'.inodes y).removed) d ∙ c.removed_kept ∙ ap (λ i. i.removed) mark,
          ap (λ y. (fs'.inodes y).open_cnt) d
              ∙ fewer more pos (c.openers (omega (arith, ap (λ i. i.open_cnt) mark, more, pos)))
              ∙ ap (λ y. (fs.inodes y).open_cnt) (sym d),
          λ s.
              c.cleared.bits s
              ∙ if_of_false (releasing s) _ _ (many s more pos)
              ∙ ap (λ m. bit m s) o.map_kept,
        );
    released = λ u s.
        let z = nobody u in
        c.cleared.bits s
        ∙ ap (λ i. if (i.open_cnt == 1 && i.removed) && owns i s then false else bit fs₁.free_map s)
            (mark ∙ ap with_removed (o.read z))
        ∙ ap (λ m. if owns (new_inode fs (target fs dir k)) s then false else bit m s) o.map_kept;
  }
    where
      mark : (marked fs₁ b a).inodes a ≡ with_removed (fs₁.inodes a)
      mark = if_of_true (a == a) _ _ (ground arith)

      releasing : ℕ → Bool
      releasing s =
          (((marked fs₁ b a).inodes a).open_cnt == 1 && ((marked fs₁ b a).inodes a).removed)
          && owns ((marked fs₁ b a).inodes a) s

      fewer :
          (fs₁.inodes a).open_cnt ≡ (fs.inodes a).open_cnt + 1
          → 0 < (fs.inodes a).open_cnt
          → (fs'.inodes a).open_cnt + 1 ≡ ((marked fs₁ b a).inodes a).open_cnt
          → (fs'.inodes a).open_cnt ≡ (fs.inodes a).open_cnt
      fewer more pos r = omega (arith, ap (λ i. i.open_cnt) mark)

      many :
          (s : ℕ)
          → (fs₁.inodes a).open_cnt ≡ (fs.inodes a).open_cnt + 1
          → 0 < (fs.inodes a).open_cnt
          → releasing s ≡ false
      many s more pos = ground (arith, ap (λ i. i.open_cnt) mark)

      nobody : Unopened fs (target fs dir k) → count a fs.open_inodes ≡ 0
      nobody u = elim (Bool-cases (ltb 0 (count a fs.open_inodes))) [
        | inl y ↦ absurd (ground (arith, u a (ground arith), o.was (ground arith)))
        | inr y ↦ ground arith
      ]

  -- dir_remove() from the entry on.
  opened_removes :
      (m : Memory) (e : Bytes) (name : List ℕ) (a : ℕ) (fs₁ : FileSystem)
      → m.bounce ≡ true
      → target fs dir k ≢ root.sector
      → entry_is name (slot fs.device root k) ≡ true
      → ((j : ℕ) → j < k → entry_is name (slot fs.device root j) ≡ false)
      → IsOpened fs fs₁ (target fs dir k) a
      → Removal fs dir name (remove_opened m fs₁ dir e (20 * k) (some a))
  unfolding remove_opened inode_remove
  opened_removes m e name a fs₁ h n t z o =
      let (b, w, bytes, others) =
        inode_write_at_refines fs.device root (update e 19 0) 20 (20 * k) root-IsWritable
          v.writable in
      let (fs', f, c) = marked_closes fs₁ b a o in
      removed k fs'
        (bind-eq _ (write b w)
          ∙ bind-eq _ (
              ap (λ x. inode_close x a)
                (if_of_true (available root 20 (20 * k) == 20) _ _ (ground arith))
              ∙ f)
          ∙ ap (λ x. ok (x, fs')) (ground arith))
        (closed-IsRemoved fs₁ fs' b e name a o bytes t z c)
    where
      root_kept : fs₁.inodes dir.inode ≡ root
      root_kept = o.others dir.inode (λ d. n (
          sym (
            subst (λ x. (fs.inodes x).sector ≡ target fs dir k) (sym d)
              (o.was (subst (IsOpen fs) d v.opened)))))

      write :
          (b : Block)
          → inode_write_at true fs.device root (update e 19 0) 20 (20 * k)
            ≡ ok (available root 20 (20 * k), b)
          → inode_write_at m.bounce fs₁.device (fs₁.inodes dir.inode) (update e 19 0) 20 (20 * k)
            ≡ ok (available root 20 (20 * k), b)
      write b w =
          ap (λ x. inode_write_at x fs₁.device (fs₁.inodes dir.inode) (update e 19 0) 20 (20 * k)) h
          ∙ ap (λ d. inode_write_at true d (fs₁.inodes dir.inode) (update e 19 0) 20 (20 * k))
              o.device_kept
          ∙ ap (λ i. inode_write_at true fs.device i (update e 19 0) 20 (20 * k)) root_kept
          ∙ w

found_removes :
    (fs : FileSystem) (dir : Dir) (m : Memory) (e : Bytes) (name : List ℕ) (a k : ℕ)
    → IsReady fs dir
    → m.bounce ≡ true
    → m.inode ≡ some a
    → IsTarget fs dir a k
    → k < slots (fs.inodes dir.inode)
    → entry_is name (slot fs.device (fs.inodes dir.inode) k) ≡ true
    → ((j : ℕ) → j < k → entry_is name (slot fs.device (fs.inodes dir.inode) j) ≡ false)
    → Agree e (slot fs.device (fs.inodes dir.inode) k)
    → Removal fs dir name (remove_found m fs dir (some (e, 20 * k)))
unfolding remove_found
found_removes fs dir m e name a k v bounce memory g inside t z agree =
    let (a', fs₁, r, o) = inode_open_shares fs (target fs dir k) a v.sound g.fresh in
    subst (Removal fs dir name) (sym (bind-eq _ (opens r)))
      (opened_removes fs dir v k inside m e name a' fs₁ bounce g.other t z o)
  where
    same_sector : inode_sector e ≡ target fs dir k
    same_sector = omega (
      arith,
      agree 0 (omega arith),
      agree 1 (omega arith),
      agree 2 (omega arith),
      agree 3 (omega arith),
    )

    opens :
        {r : Result (Option ℕ × FileSystem)}
        → inode_open (some a) fs (target fs dir k) ≡ r
        → inode_open m.inode fs (inode_sector e) ≡ r
    opens r =
        ap (λ x. inode_open x fs (inode_sector e)) memory
        ∙ ap (inode_open (some a) fs) same_sector
        ∙ r

-- dir_remove of a name of at most 14 bytes from a directory that is ready, with memory, whose
-- entries of that name are of other inodes that are open or can be opened, fails no assertion and
-- keeps the table sound. If no entry in use has the name nothing changes; otherwise the first that
-- has it is erased and no byte of another entry changes, and its inode is marked while someone has
-- it open, or else its sectors, and no others, are free then.
pub dir_remove_removes :
    (fs : FileSystem) (dir : Dir) (m : Memory) (e : Bytes) (name : List ℕ) (a : ℕ)
    → IsReady fs dir
    → m.bounce ≡ true
    → m.inode ≡ some a
    → length name ≤ 14
    → ((k : ℕ)
        → k < slots (fs.inodes dir.inode)
        → entry_is name (slot fs.device (fs.inodes dir.inode) k) ≡ true
        → IsTarget fs dir a k)
    → Removal fs dir name (dir_remove m fs dir e name)
unfolding dir_remove remove_found
dir_remove_removes fs dir m e name a v bounce memory short targets = looked (
    lookup_finds fs.device (fs.inodes dir.inode) e name
      (record { fits = omega (arith, (v.sound.stored dir.inode v.opened).blocks_in, v.fits) })
      short)
  where
    start :
        {r : Result (Option (Bytes × ℕ))}
        → lookup true fs.device (fs.inodes dir.inode) e name ≡ r
        → lookup m.bounce fs.device (fs.inodes dir.inode) e name ≡ r
    start r = ap (λ x. lookup x fs.device (fs.inodes dir.inode) e name) bounce ∙ r

    looked :
        LookedUp fs.device
          (fs.inodes dir.inode)
          name
          (lookup true fs.device (fs.inodes dir.inode) e name)
        → Removal fs dir name (dir_remove m fs dir e name)
    looked (no_entry r f) = absent (bind-eq _ (start r)) f
    looked (entry k e' r p t f agree) =
        subst (Removal fs dir name) (sym (bind-eq _ (start r)))
          (found_removes fs dir m e' name a k v bounce memory (targets k p t) p t f agree)
