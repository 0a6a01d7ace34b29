-- ===== src/File/Accounts.antt =====
-- The open files of filesys/file.c and those that deny writes, against the counters of the inodes.
use pint_os_assignment.Common.{
  ℕ, ◌+◌, ◌<◌, ◌≤◌, ◌≡◌, refl, sym, ap, ◌∙◌, ◌&&◌, List, [], ◌∷◌, arith, ◌==◌, ==_iff,
  if◌then◌else◌, inl, inr, Bool-cases, if_of_true, if_of_false,
}
use pint_os_assignment.Inode.{Inode}
use pint_os_assignment.OpenInodes.{FileSystem, set_inode}
use pint_os_assignment.OpenInodes.Table.{IsOpen, IsSound, set_inode-IsSound}
use pint_os_assignment.File.{File}

-- The files that have an inode open, and those of them that deny writes.
abbrev pub openers : ℕ → List File → ℕ
openers a [] = 0
openers a (f ∷ l) = openers a l + (if f.inode == a then 1 else 0)

abbrev pub denials : ℕ → List File → ℕ
denials a [] = 0
denials a (f ∷ l) = denials a l + (if f.inode == a && f.deny_write then 1 else 0)

pub denials_le_openers : (a : ℕ) (l : List File) → denials a l ≤ openers a l
denials_le_openers a [] = omega arith
denials_le_openers a (f ∷ l) = ground (arith, denials_le_openers a l)

-- The counters of the inodes are those of the open files, with `dirs` openers that are no files.
pub record IsAccounted (fs : FileSystem) (files : List File) (dirs : ℕ → ℕ) : Type 0 where
  pub sound : IsSound fs
  pub denied : (a : ℕ) → IsOpen fs a → (fs.inodes a).deny_write_cnt ≡ denials a files
  pub opened : (a : ℕ) → IsOpen fs a → (fs.inodes a).open_cnt ≡ openers a files + dirs a
  pub live : (a : ℕ) → 0 < openers a files → IsOpen fs a

-- The inode with another number of denials.
abbrev pub denied_by : FileSystem → ℕ → ℕ → FileSystem
denied_by fs a n = set_inode fs a (record (fs.inodes a) { deny_write_cnt = n })

pub denied_by-IsAccounted :
    (fs : FileSystem) (f f' : File) (files : List File) (dirs : ℕ → ℕ) (n : ℕ)
    → IsAccounted fs (f ∷ files) dirs
    → f'.inode ≡ f.inode
    → n ≡ denials f.inode (f' ∷ files)
    → IsAccounted (denied_by fs f.inode n) (f' ∷ files) dirs
denied_by-IsAccounted fs f f' files dirs n v e d = record {
  sound =
      set_inode-IsSound fs f.inode _ v.sound (record { sector = refl; content = refl })
        (v.sound.opened f.inode)
        (omega (
          arith,
          here,
          v.opened f.inode (v.live f.inode here),
          denials_le_openers f.inode (f' ∷ files),
          same f.inode,
        ));
  denied = λ a o. elim (Bool-cases (f.inode == a)) [
    | inl q ↦
        ap (λ i. i.deny_write_cnt) (if_of_true (f.inode == a) changed (fs.inodes a) q)
        ∙ d
        ∙ ap (λ x. denials x (f' ∷ files)) ((==_iff f.inode a).0 q)
    | inr q ↦
        ap (λ i. i.deny_write_cnt) (if_of_false (f.inode == a) changed (fs.inodes a) q)
        ∙ v.denied a o
        ∙ ground arith
  ];
  opened = λ a o. elim (Bool-cases (f.inode == a)) [
    | inl q ↦
        ap (λ i. i.open_cnt) (if_of_true (f.inode == a) changed (fs.inodes a) q)
        ∙ ap (λ x. (fs.inodes x).open_cnt) ((==_iff f.inode a).0 q)
        ∙ v.opened a o
        ∙ omega (arith, same a)
    | inr q ↦
        ap (λ i. i.open_cnt) (if_of_false (f.inode == a) changed (fs.inodes a) q)
        ∙ v.opened a o
        ∙ omega (arith, same a)
  ];
  live = λ a h. v.live a (omega (arith, same a));
}
  where
    changed : Inode
    changed = record (fs.inodes f.inode) { deny_write_cnt = n }

    here : 0 < openers f.inode (f ∷ files)
    here = ground arith

    same : (a : ℕ) → openers a (f' ∷ files) ≡ openers a (f ∷ files)
    same a = ground arith

pub denied_by_only :
    (fs : FileSystem) (a n : ℕ)
    → (denied_by fs a n).inodes a
      ≡ record (fs.inodes a) { deny_write_cnt = ((denied_by fs a n).inodes a).deny_write_cnt }
denied_by_only fs a n =
    let e =
      if_of_true (a == a) (record (fs.inodes a) { deny_write_cnt = n }) (fs.inodes a)
        (ground arith) in
    e ∙ ap (λ m. record (fs.inodes a) { deny_write_cnt = m }) (sym (ap (λ i. i.deny_write_cnt) e))
