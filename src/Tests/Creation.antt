-- ===== src/Tests/Creation.antt =====
-- A file created in a root directory with one free entry.
use pint_os_assignment.Common.{
  ℕ, ◌<◌, ◌≡◌, refl, sym, subst, true, false, false≢true, not, ◌&&◌, none, some, [], ◌∷◌, arith,
  ltb, ◌==◌, ==_iff, inl, inr, Bool-cases, if◌then◌else◌, ok,
}
use pint_os_assignment.Inode.{Inode}
use pint_os_assignment.OpenInodes.{of_bytes, FileSystem, find_open, inode_open, inode_reopen}
use pint_os_assignment.OpenInodes.Table.{IsOpen, IsSound, set_inode-IsSound}
use pint_os_assignment.Directory.{strcmp_same, Dir}
use pint_os_assignment.Filesys.{dir_remove, Memory, dir_open, dir_open_root, filesys_create}
use pint_os_assignment.Filesys.Frame.{IsReady}
use pint_os_assignment.Filesys.Outcome.{Outcome}
use pint_os_assignment.Filesys.Removal.{IsTarget, Removal}
use pint_os_assignment.Filesys.Remove.{dir_remove_removes}
use pint_os_assignment.Directory.Slots.{slots, slot, entry_is}
use pint_os_assignment.Filesys.Create.{filesys_create_creates}

abbrev root_inode : Inode
root_inode = record {
  sector = 1;
  open_cnt = 1;
  removed = false;
  deny_write_cnt = 0;
  content = record { start = 2; length = 40; magic = 0x494e4f44 };
}

-- The name `a` is in the first entry, with sector 3.
abbrev root_fs : FileSystem
root_fs = record {
  device = record {
    size = 8;
    sectors = λ s i.
        if not (s == 2)
        then 0
        else if i == 0
        then 3
        else if i == 4
        then 97
        else if i == 19
        then 1
        else 0;
    foreign = false;
  };
  free_map = record { bit_cnt = 8; bits = λ w k. w == 0 && ltb k 4 };
  has_map_file = true;
  open_inodes = 10 ∷ [];
  inodes = λ a. root_inode;
}

abbrev memory : Memory
memory = record {
  dir = true;
  root = none;
  inode = some 20;
  disk = true;
  bounce = true;
  file = true;
}

only_root : (a : ℕ) → IsOpen root_fs a → a ≡ 10
only_root a h = ground arith

root_fs-IsSound : IsSound root_fs
root_fs-IsSound = record {
  once = λ a. ground arith;
  opened = λ a h. omega arith;
  denied = λ a h. omega arith;
  stored = λ a h. record {
    sector_in = omega arith;
    blocks_in = omega arith;
    in_use = λ s r. ground arith;
    self = refl;
  };
  apart = λ a c s p q r t. omega (arith, only_root a p, only_root c q);
  small = omega arith;
}

abbrev root_dir : Dir
root_dir = record { inode = 10; pos = 0 }

root_opens : dir_open_root memory root_fs ≡ ok (some root_dir, inode_reopen root_fs 10)
unfolding dir_open_root dir_open inode_open find_open
root_opens = refl

root-IsReady : IsReady (inode_reopen root_fs 10) root_dir
unfolding inode_reopen
root-IsReady = record {
  sound =
      set_inode-IsSound root_fs 10 (record root_inode { open_cnt = 2 }) root_fs-IsSound
        (record { sector = refl; content = refl }) (λ h. omega arith) (omega arith);
  opened = omega arith;
  writable = refl;
  stays = refl;
  whole = refl;
  own = refl;
  fits = omega arith;
  first_used = refl;
}

filesys_create_creates_example :
    Outcome
      (inode_reopen root_fs 10)
      root_dir
      (98 ∷ [])
      600
      (filesys_create memory (λ n. true) root_fs (λ i. 0) (98 ∷ []) 600)
filesys_create_creates_example =
    filesys_create_creates root_fs (inode_reopen root_fs 10) root_dir memory (λ n. true) (λ i. 0)
      (98 ∷ []) 600 root_opens root-IsReady refl (λ e. absurd (omega arith), tt)

root_fs-IsReady : IsReady root_fs root_dir
root_fs-IsReady = record {
  sound = root_fs-IsSound;
  opened = omega arith;
  writable = refl;
  stays = refl;
  whole = refl;
  own = refl;
  fits = omega arith;
  first_used = refl;
}

-- The inode of the first entry is not open; sector 3 has an inode without data.
sector_3-IsTarget : IsTarget root_fs root_dir 20 0
unfolding of_bytes
sector_3-IsTarget = record {
  other = λ e. absurd (omega arith);
  fresh = λ u. record {
    on_device = omega arith;
    memory = refl;
    stored = record {
      sector_in = omega arith;
      blocks_in = omega arith;
      in_use = λ s h. ground arith;
      self = refl;
    };
    apart = λ a s p h. ground arith;
  };
}

only_entry :
    (k : ℕ)
    → k < slots root_inode
    → entry_is (97 ∷ []) (slot root_fs.device root_inode k) ≡ true
    → IsTarget root_fs root_dir 20 k
unfolding strcmp_same
only_entry k p t = elim (Bool-cases (k == 0)) [
  | inl c ↦ subst (IsTarget root_fs root_dir 20) (sym ((==_iff k 0).0 c)) sector_3-IsTarget
  | inr c ↦ absurd (
      false≢true (
        subst (λ j. entry_is (97 ∷ []) (slot root_fs.device root_inode j) ≡ true) {x = k} {y = 1}
          (ground arith) t))
]

dir_remove_removes_example :
    Removal root_fs root_dir (97 ∷ []) (dir_remove memory root_fs root_dir (λ i. 0) (97 ∷ []))
dir_remove_removes_example =
    dir_remove_removes root_fs root_dir memory (λ i. 0) (97 ∷ []) 20 root_fs-IsReady refl refl
      (omega arith) only_entry
