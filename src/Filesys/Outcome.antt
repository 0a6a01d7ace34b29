-- ===== src/Filesys/Outcome.antt =====
-- What filesys_create() of filesys/filesys.c comes to, and its end when no name was added.
use pint_os_assignment.Common.{
  ℕ, ◌+◌, ◌<◌, ◌≤◌, ◌≡◌, ◌≢◌, ◌⊎◌, sym, ap, ◌∙◌, subst, Bool, true, false, false≢true, ◌||◌, some,
  List, length, arith, ◌==◌, ==_iff, if◌then◌else◌, Result, ok, ◌>>=◌, bind-eq, inl, inr,
  Bool-cases, if_of_true, if_of_false,
}
use pint_os_assignment.Bitmap.{Bitmap}
use pint_os_assignment.Bitmap.Set.{bit, in_range, IsSetTo}
use pint_os_assignment.Bitmap.Scan.{AllBits}
use pint_os_assignment.Block.{Block}
use pint_os_assignment.Inode.{Inode, bytes_to_sectors}
use pint_os_assignment.Inode.Read.{byte_at}
use pint_os_assignment.OpenInodes.{FileSystem, to_bytes}
use pint_os_assignment.OpenInodes.Create.{disk_inode}
use pint_os_assignment.OpenInodes.Table.{IsStored, IsSound}
use pint_os_assignment.Directory.{Dir, in_use, inode_sector}
use pint_os_assignment.Directory.Strings.{IsName}
use pint_os_assignment.Directory.Slots.{slots, slot, entry_is}
use pint_os_assignment.Filesys.{dir_close, release_failed}
use pint_os_assignment.Filesys.Frame.{with_map, IsReady, dir_close-IsDone, release_failed_clears}

-- An inode that is not open, by where its bytes are.
abbrev pub at_start : ℕ → ℕ → Inode
at_start start length = record {
  sector = 0;
  open_cnt = 0;
  removed = false;
  deny_write_cnt = 0;
  content = disk_inode start length;
}

-- A file that was created: its inode is in a sector that was free, its bytes are zero and in sectors
-- that were free, its name is in an entry with that sector, and the other names are where they were.
pub record IsMade (fs fs' : FileSystem) (dir : Dir) (name : List ℕ) (size sector start k : ℕ)
    : Type 0 where
  pub sound : IsSound fs'
  pub sector_free : bit fs.free_map sector ≡ false
  pub blocks_free : AllBits fs.free_map start (bytes_to_sectors size) false
  pub apart : in_range start (bytes_to_sectors size) sector ≡ false
  pub bits :
      (s : ℕ)
      → bit fs'.free_map s ≡ (
          if sector == s || in_range start (bytes_to_sectors size) s
          then true
          else bit fs.free_map s)
  pub stored : (i : ℕ) → i < 512 → fs'.device.sectors sector i ≡ to_bytes (disk_inode start size) i
  pub zeros : (pos : ℕ) → pos < size → byte_at fs'.device (at_start start size) pos ≡ 0
  pub entry_free :
      (k < slots (fs.inodes dir.inode)) × (in_use (slot fs.device (fs.inodes dir.inode) k) ≡ false)
  pub named : entry_is name (slot fs'.device (fs.inodes dir.inode) k) ≡ true
  pub at_sector : inode_sector (slot fs'.device (fs.inodes dir.inode) k) ≡ sector
  pub names_kept :
      (other : List ℕ) (j : ℕ)
      → j < slots (fs.inodes dir.inode)
      → IsName other
      → length other ≤ 14
      → other ≢ name
      → entry_is other (slot fs'.device (fs.inodes dir.inode) j)
        ≡ entry_is other (slot fs.device (fs.inodes dir.inode) j)

-- Why a name cannot be added.
pub data Unaddable (b : Block) (i : Inode) (name : List ℕ) : Type 0 where
  bad_length : (length name ≡ 0) ⊎ (14 < length name) → Unaddable b i name
  present : (j : ℕ) → j < slots i → entry_is name (slot b i j) ≡ true → Unaddable b i name
  no_room : ((j : ℕ) → j < slots i → in_use (slot b i j) ≡ true) → Unaddable b i name

-- What filesys_create() comes to.
pub data Outcome (fs : FileSystem) (dir : Dir) (name : List ℕ) (size : ℕ)
    (r : Result (Bool × FileSystem)) : Type 0 where
  made :
      (sector start k : ℕ) (fs' : FileSystem)
      → r ≡ ok (true, fs')
      → IsMade fs fs' dir name size sector start k
      → Outcome fs dir name size r
  unmade :
      (fs' : FileSystem)
      → r ≡ ok (false, fs')
      → IsSound fs'
      → ((s : ℕ) → bit fs'.free_map s ≡ bit fs.free_map s)
      → Outcome fs dir name size r
  leaked :
      (start : ℕ) (fs' : FileSystem)
      → r ≡ ok (false, fs')
      → Unaddable fs.device (fs.inodes dir.inode) name
      → IsSound fs'
      → AllBits fs.free_map start (bytes_to_sectors size) false
      → ((s : ℕ)
          → bit fs'.free_map s
            ≡ (if in_range start (bytes_to_sectors size) s then true else bit fs.free_map s))
      → Outcome fs dir name size r

module _ (fs : FileSystem) (dir : Dir) (v : IsReady fs dir) (m₀ : Bitmap) (sector : ℕ)
    (inside : sector + 1 ≤ fs.free_map.bit_cnt) (sector_free : bit fs.free_map sector ≡ false)
    (set₀ : IsSetTo fs.free_map m₀ sector 1 true) where
  abbrev pub dir_inode : Inode
  dir_inode = fs.inodes dir.inode

  pub dir-IsStored : IsStored fs.free_map dir_inode
  dir-IsStored = v.sound.stored dir.inode v.opened

  not_first : sector ≢ 0
  not_first h =
      false≢true (sym (subst (λ s. bit fs.free_map s ≡ false) h sector_free) ∙ v.first_used)

  -- The sectors of the directory are in use.
  pub dir_used :
      (s : ℕ)
      → in_range dir_inode.content.start (bytes_to_sectors dir_inode.content.length) s ≡ true
      → bit fs.free_map s ≡ true
  dir_used s h = dir-IsStored.in_use s (ground arith)

  -- The sector is released and the directory closed, when no name was added.
  abbrev pub finish : FileSystem → Result (Bool × FileSystem)
  finish fs₂ =
      release_failed fs₂ sector false >>= λ fs₃. dir_close fs₃ (some dir) >>= λ fs₄. ok (false, fs₄)

  pub finish_releases :
      (m : Bitmap) (b : Block) (extra : ℕ → Bool)
      → m.bit_cnt ≡ fs.free_map.bit_cnt
      → ((s : ℕ) → bit m s ≡ (if extra s then true else bit m₀ s))
      → extra sector ≡ false
      → (fs' : FileSystem) × (finish (with_map fs m b) ≡ ok (false, fs'))
        × IsSound fs'
        × ((s : ℕ) → bit fs'.free_map s ≡ (if extra s then true else bit fs.free_map s))
  finish_releases m b extra size bits free =
      let (m₂, e, size₂, bits₂) =
        release_failed_clears (with_map fs m b) sector not_first (omega arith)
          (omega (arith, v.sound.small)) (ground (arith, bits sector, set₀.bits sector)) in
      let now : (s : ℕ) → bit m₂ s ≡ (if extra s then true else bit fs.free_map s) =
        λ s. after m₂ s (bits₂ s) in
      let (fs', f, d) =
        dir_close-IsDone fs dir m₂ b v (size₂ ∙ size, λ s h. ground (arith, now s)) in
      (fs', bind-eq _ e ∙ bind-eq _ f, d.sound, λ s. d.bits s ∙ now s)
    where
      after :
          (m₂ : Bitmap) (s : ℕ)
          → bit m₂ s ≡ (if sector == s then false else bit m s)
          → bit m₂ s ≡ (if extra s then true else bit fs.free_map s)
      after m₂ s e = elim (Bool-cases (sector == s)) [
        | inl c ↦
            e
            ∙ if_of_true (sector == s) _ _ c
            ∙ subst (λ t. false ≡ (if extra t then true else bit fs.free_map t))
                ((==_iff sector s).0 c) (ground arith)
        | inr c ↦
            e
            ∙ if_of_false (sector == s) _ _ c
            ∙ bits s
            ∙ ap (λ x. if extra s then true else x)
                (set₀.bits s ∙ if_of_false (in_range sector 1 s) _ _ (ground arith))
      ]
