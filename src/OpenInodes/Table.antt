-- ===== src/OpenInodes/Table.antt =====
-- The open inodes of filesys/inode.c: every sector belongs to one of them at most.
use pint_os_assignment.Common.{
  ℕ, ◌+◌, ◌<◌, ◌≤◌, ◌≡◌, refl, sym, ap₂, subst, ◌∙◌, Bool, true, false, ◌||◌, Option, none, some,
  List, [], ◌∷◌, arith, count, ◌==◌, ==_iff, inl, inr, Bool-cases, if_of_true, if_of_false,
}
use pint_os_assignment.Bitmap.{Bitmap, bitmap_error}
use pint_os_assignment.Bitmap.Set.{bit, in_range}
use pint_os_assignment.Inode.{Inode, bytes_to_sectors}
use pint_os_assignment.OpenInodes.{FileSystem, of_bytes, set_inode, find_open}

-- The sectors of an inode: its own, and those of the data.
abbrev pub owns : Inode → ℕ → Bool
owns i s = i.sector == s || in_range i.content.start (bytes_to_sectors i.content.length) s

abbrev pub IsOpen : FileSystem → ℕ → Type 0
IsOpen fs a = 0 < count a fs.open_inodes

-- The sectors of an inode are on the device, in use, and not twice its own.
pub record IsStored (m : Bitmap) (i : Inode) : Type 0 where
  pub sector_in : i.sector < m.bit_cnt
  pub blocks_in : i.content.start + bytes_to_sectors i.content.length ≤ m.bit_cnt
  pub in_use : (s : ℕ) → owns i s ≡ true → bit m s ≡ true
  pub self : in_range i.content.start (bytes_to_sectors i.content.length) i.sector ≡ false

pub record IsSound (fs : FileSystem) : Type 0 where
  pub once : (a : ℕ) → count a fs.open_inodes ≤ 1
  pub opened : (a : ℕ) → IsOpen fs a → 0 < (fs.inodes a).open_cnt
  pub denied : (a : ℕ) → IsOpen fs a → (fs.inodes a).deny_write_cnt ≤ (fs.inodes a).open_cnt
  pub stored : (a : ℕ) → IsOpen fs a → IsStored fs.free_map (fs.inodes a)
  pub apart :
      (a c s : ℕ)
      → IsOpen fs a
      → IsOpen fs c
      → owns (fs.inodes a) s ≡ true
      → owns (fs.inodes c) s ≡ true
      → a ≡ c
  pub small : fs.free_map.bit_cnt < bitmap_error

-- What the search comes to.
pub data Searched (fs : FileSystem) (l : List ℕ) (sector : ℕ) (r : Option ℕ) : Type 0 where
  present :
      (a : ℕ) → r ≡ some a → 0 < count a l → (fs.inodes a).sector ≡ sector → Searched fs l sector r
  missing :
      r ≡ none
      → ((a : ℕ) → 0 < count a l → ((fs.inodes a).sector == sector) ≡ false)
      → Searched fs l sector r

Searched-cons :
    (fs : FileSystem) (l : List ℕ) (sector x : ℕ)
    → ((fs.inodes x).sector == sector) ≡ false
    → Searched fs l sector (find_open fs l sector)
    → Searched fs (x ∷ l) sector (find_open fs (x ∷ l) sector)
unfolding find_open
Searched-cons fs l sector x e (present a r h q) =
    present a (if_of_false _ _ _ e ∙ r) (ground arith) q
Searched-cons fs l sector x e (missing r h) = missing (if_of_false _ _ _ e ∙ r) (λ a p.
    elim (Bool-cases (x == a)) [
      | inl q ↦ rw (sym ((==_iff x a).0 q)) e
      | inr q ↦ h a (ground arith)
    ])

pub find_open-Searched :
    (fs : FileSystem) (l : List ℕ) (sector : ℕ) → Searched fs l sector (find_open fs l sector)
unfolding find_open
find_open-Searched fs [] sector = missing refl (λ a h. absurd (omega arith))
find_open-Searched fs (x ∷ l) sector = elim (Bool-cases ((fs.inodes x).sector == sector)) [
  | inl e ↦ present x (if_of_true _ _ _ e) (ground arith) ((==_iff _ _).0 e)
  | inr e ↦ Searched-cons fs l sector x e (find_open-Searched fs l sector)
]

-- An inode read from the device, by the address that it gets.
abbrev pub new_inode : FileSystem → ℕ → Inode
new_inode fs sector = record {
  sector = sector;
  open_cnt = 1;
  deny_write_cnt = 0;
  removed = false;
  content = of_bytes (fs.device.sectors sector);
}

-- What an opening of a sector that is not open finds: an inode on the device whose sectors are in
-- use and are no other inode's, and memory that is no other inode's.
pub record IsFresh (fs : FileSystem) (sector m : ℕ) : Type 0 where
  pub on_device : sector < fs.device.size
  pub memory : count m fs.open_inodes ≡ 0
  pub stored : IsStored fs.free_map (new_inode fs sector)
  pub apart :
      (a s : ℕ) → IsOpen fs a → owns (fs.inodes a) s ≡ true → owns (new_inode fs sector) s ≡ false

-- The same inode, but for its counters.
pub record IsLike (i j : Inode) : Type 0 where
  pub sector : i.sector ≡ j.sector
  pub content : i.content ≡ j.content

pub owns_own : (i : Inode) (s : ℕ) → i.sector ≡ s → owns i s ≡ true
owns_own i s e = ground arith

pub owns-like : (i j : Inode) (s : ℕ) → IsLike i j → owns i s ≡ owns j s
owns-like i j s h =
    ap₂ (λ p d. p == s || in_range d.start (bytes_to_sectors d.length) s) h.sector h.content

pub IsStored-like : (m : Bitmap) (i j : Inode) → IsLike i j → IsStored m i → IsStored m j
IsStored-like m i j h v = record {
  sector_in = subst (λ p. p < m.bit_cnt) h.sector v.sector_in;
  blocks_in = subst (λ d. d.start + bytes_to_sectors d.length ≤ m.bit_cnt) h.content v.blocks_in;
  in_use = λ s e. v.in_use s (owns-like i j s h ∙ e);
  self =
      sym (ap₂ (λ p d. in_range d.start (bytes_to_sectors d.length) p) h.sector h.content) ∙ v.self;
}

-- Changing the counters of an inode.
pub set_inode-IsLike :
    (fs : FileSystem) (a c : ℕ) (i : Inode)
    → IsLike (fs.inodes a) i
    → IsLike (fs.inodes c) ((set_inode fs a i).inodes c)
set_inode-IsLike fs a c i h = elim (Bool-cases (a == c)) [
  | inl e ↦
      subst (λ j. IsLike (fs.inodes c) j) (sym (if_of_true (a == c) i (fs.inodes c) e))
        (subst (λ x. IsLike (fs.inodes x) i) ((==_iff a c).0 e) h)
  | inr e ↦
      subst (λ j. IsLike (fs.inodes c) j) (sym (if_of_false (a == c) i (fs.inodes c) e))
        (record { sector = refl; content = refl })
]

pub set_inode-IsSound :
    (fs : FileSystem) (a : ℕ) (i : Inode)
    → IsSound fs
    → IsLike (fs.inodes a) i
    → (IsOpen fs a → 0 < i.open_cnt)
    → i.deny_write_cnt ≤ i.open_cnt
    → IsSound (set_inode fs a i)
set_inode-IsSound fs a i v h p q = record {
  once = v.once;
  opened = λ c o. ground (arith, v.opened c o, p);
  denied = λ c o. ground (arith, v.denied c o);
  stored = λ c o. IsStored-like fs.free_map _ _ (set_inode-IsLike fs a c i h) (v.stored c o);
  apart = λ c d s o o' e e'.
      v.apart c d s o o' (owns-like _ _ s (set_inode-IsLike fs a c i h) ∙ e)
        (owns-like _ _ s (set_inode-IsLike fs a d i h) ∙ e');
  small = v.small;
}
