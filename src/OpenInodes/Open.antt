-- ===== src/OpenInodes/Open.antt =====
-- inode_open() of filesys/inode.c: an open inode is shared, another one is read from the device.
use pint_os_assignment.Common.{
  ℕ, ◌+◌, ◌<◌, ◌≤◌, ◌≡◌, ◌≢◌, ◌⊎◌, false≢true, refl, sym, ap, subst, ◌∙◌, true, false, Option, none,
  some, arith, ltb, count, ◌==◌, ==_iff, if◌then◌else◌, ok, bind-eq, inl, inr, Bool-cases,
  if_of_true, if_of_false,
}
use pint_os_assignment.KernelList.{list_push_front}
use pint_os_assignment.Inode.{Inode}
use pint_os_assignment.Inode.Read.{block_read_ok}
use pint_os_assignment.OpenInodes.{
  FileSystem, set_inode, find_open, inode_reopen, open_new, inode_open,
}
use pint_os_assignment.OpenInodes.Table.{
  owns, IsOpen, IsStored, IsSound, present, missing, find_open-Searched, new_inode, IsFresh,
  owns_own, set_inode-IsSound,
}

-- What an opening of a sector comes to.
pub record IsOpened (fs fs' : FileSystem) (sector a : ℕ) : Type 0 where
  pub sound : IsSound fs'
  pub opened : IsOpen fs' a
  pub device_kept : fs'.device ≡ fs.device
  pub map_kept : fs'.free_map ≡ fs.free_map
  pub undenied : (fs'.inodes a).deny_write_cnt < (fs'.inodes a).open_cnt
  pub at_sector : (fs'.inodes a).sector ≡ sector
  pub openers :
      (fs'.inodes a).open_cnt
      ≡ (if ltb 0 (count a fs.open_inodes) then (fs.inodes a).open_cnt + 1 else 1)
  pub was : IsOpen fs a → (fs.inodes a).sector ≡ sector
  pub read : count a fs.open_inodes ≡ 0 → fs'.inodes a ≡ new_inode fs sector
  pub shared : (c : ℕ) → IsOpen fs c → (fs.inodes c).sector ≡ sector → c ≡ a
  pub others : (c : ℕ) → c ≢ a → fs'.inodes c ≡ fs.inodes c

reopen-IsOpened :
    (fs : FileSystem) (sector a : ℕ)
    → IsSound fs
    → IsOpen fs a
    → (fs.inodes a).sector ≡ sector
    → IsOpened fs (inode_reopen fs a) sector a
unfolding inode_reopen
reopen-IsOpened fs sector a v o e = record {
  sound =
      set_inode-IsSound fs a _ v (record { sector = refl; content = refl }) (λ _. omega arith)
        (omega (arith, v.denied a o));
  opened = o;
  device_kept = refl;
  map_kept = refl;
  undenied = ground (arith, v.denied a o);
  at_sector = ground arith;
  openers = ground arith;
  was = λ p. e;
  read = λ z. absurd (omega (arith, o));
  shared =
      λ c p q. v.apart c a sector p o (owns_own (fs.inodes c) _ q) (owns_own (fs.inodes a) _ e);
  others = λ c n. if_of_false (a == c) _ _ (ground (arith, n));
}

-- The file system with the new inode.
abbrev with_new : FileSystem → ℕ → ℕ → FileSystem
with_new fs sector m = record (set_inode fs m (new_inode fs sector)) {
  open_inodes = list_push_front fs.open_inodes m;
}

new_or_old :
    (fs : FileSystem) (sector m c : ℕ)
    → IsOpen (with_new fs sector m) c
    → ((m ≡ c) × ((with_new fs sector m).inodes c ≡ new_inode fs sector))
      ⊎ (IsOpen fs c × ((with_new fs sector m).inodes c ≡ fs.inodes c))
unfolding list_push_front
new_or_old fs sector m c o = elim (Bool-cases (m == c)) [
  | inl e ↦ inl ((==_iff m c).0 e, if_of_true (m == c) _ _ e)
  | inr e ↦ inr (ground arith, if_of_false (m == c) _ _ e)
]

with_new-apart :
    (fs : FileSystem) (sector m : ℕ)
    → IsSound fs
    → IsFresh fs sector m
    → (a c s : ℕ) → IsOpen (with_new fs sector m) a
    → IsOpen (with_new fs sector m) c
    → owns ((with_new fs sector m).inodes a) s ≡ true
    → owns ((with_new fs sector m).inodes c) s ≡ true
    → a ≡ c
with_new-apart fs sector m v f a c s o o' e e' = elim (new_or_old fs sector m a o) [
  | inl (p, q) ↦ elim (new_or_old fs sector m c o') [
    | inl (p', q') ↦ sym p ∙ p'
    | inr (p', q') ↦ absurd (clash c q q' p' e e')
  ]
  | inr (p, q) ↦ elim (new_or_old fs sector m c o') [
    | inl (p', q') ↦ absurd (clash a q' q p e' e)
    | inr (p', q') ↦
        v.apart a c s p p' (sym (ap (λ i. owns i s) q) ∙ e) (sym (ap (λ i. owns i s) q') ∙ e')
  ]
]
  where
    clash :
        (c : ℕ)
        → {i j : Inode} → i ≡ new_inode fs sector
        → j ≡ fs.inodes c
        → IsOpen fs c
        → owns i s ≡ true
        → owns j s ≡ true
        → ⊥
    clash c q q' p e e' =
        false≢true
          (sym (f.apart c s p (sym (ap (λ i. owns i s) q') ∙ e')) ∙ sym (ap (λ i. owns i s) q) ∙ e)

with_new-IsSound :
    (fs : FileSystem) (sector m : ℕ)
    → IsSound fs
    → IsFresh fs sector m
    → IsSound (with_new fs sector m)
unfolding list_push_front
with_new-IsSound fs sector m v f = record {
  once = λ a. elim (Bool-cases (m == a)) [
    | inl e ↦ rw (sym ((==_iff m a).0 e)) (ground (arith, f.memory))
    | inr e ↦ ground (arith, v.once a)
  ];
  opened = λ a o. each (λ i. 0 < i.open_cnt) (omega arith) v.opened a o;
  denied = λ a o. each (λ i. i.deny_write_cnt ≤ i.open_cnt) (omega arith) v.denied a o;
  stored = λ a o. each (IsStored fs.free_map) f.stored v.stored a o;
  apart = with_new-apart fs sector m v f;
  small = v.small;
}
  where
    each :
        (P : Inode → Type 0)
        → P (new_inode fs sector)
        → ((a : ℕ) → IsOpen fs a → P (fs.inodes a))
        → (a : ℕ) → IsOpen (with_new fs sector m) a
        → P ((with_new fs sector m).inodes a)
    each P p h a o = elim (new_or_old fs sector m a o) [
      | inl (q, e) ↦ subst P (sym e) p
      | inr (q, e) ↦ subst P (sym e) (h a q)
    ]

new-IsOpened :
    (fs : FileSystem) (sector m : ℕ)
    → IsSound fs
    → IsFresh fs sector m
    → ((c : ℕ) → IsOpen fs c → ((fs.inodes c).sector == sector) ≡ false)
    → IsOpened fs (with_new fs sector m) sector m
unfolding list_push_front
new-IsOpened fs sector m v f none_open = record {
  sound = with_new-IsSound fs sector m v f;
  opened = ground arith;
  device_kept = refl;
  map_kept = refl;
  undenied = ground arith;
  at_sector = ground arith;
  openers = ground (arith, f.memory);
  was = λ p. absurd (omega (arith, f.memory));
  read = λ z. if_of_true (m == m) _ _ (ground arith);
  shared = λ c o e. absurd (ground (arith, none_open c o));
  others = λ c n. if_of_false (m == c) _ _ (ground (arith, n));
}

pub inode_open_shares :
    (fs : FileSystem) (sector m : ℕ)
    → IsSound fs
    → (((c : ℕ) → IsOpen fs c → ((fs.inodes c).sector == sector) ≡ false) → IsFresh fs sector m)
    → (a : ℕ) × (fs' : FileSystem) × (inode_open (some m) fs sector ≡ ok (some a, fs'))
      × IsOpened fs fs' sector a
unfolding inode_open open_new
inode_open_shares fs sector m v f = elim (find_open-Searched fs fs.open_inodes sector) [
  | present a r o e ↦ (a, inode_reopen fs a, of_search r, reopen-IsOpened fs sector a v o e)
  | missing r h ↦ (
    m,
    with_new fs sector m,
    of_search r ∙ bind-eq _ (block_read_ok fs.device sector (f h).on_device),
    new-IsOpened fs sector m v (f h) h,
  )
]
  where
    of_search :
        {r : Option ℕ}
        → find_open fs fs.open_inodes sector ≡ r
        → inode_open (some m) fs sector ≡ (elim r [
          | some a ↦ ok (some a, inode_reopen fs a)
          | none ↦ open_new (some m) fs sector
        ])
    of_search e =
        ap
          (λ r. elim r [
            | some a ↦ ok (some a, inode_reopen fs a)
            | none ↦ open_new (some m) fs sector
          ])
          e
