-- ===== src/Filesys/Create.antt =====
-- filesys_create() of filesys/filesys.c on every branch.
use pint_os_assignment.Common.{
  ℕ, ◌+◌, ◌≤◌, ◌≡◌, refl, sym, ◌∙◌, subst, Bool, true, false, some, List, arith, ok, bind-eq,
}
use pint_os_assignment.Bitmap.{Bitmap}
use pint_os_assignment.Bitmap.Set.{bit, IsSetTo}
use pint_os_assignment.Block.{Bytes}
use pint_os_assignment.FreeMap.{free_map_allocate}
use pint_os_assignment.FreeMap.Laws.{Allocated, given, refused, free_map_allocate_gives}
use pint_os_assignment.OpenInodes.{FileSystem, inode_create}
use pint_os_assignment.OpenInodes.Create.{Created, failed, created, inode_create_creates}
use pint_os_assignment.Directory.{Dir}
use pint_os_assignment.Directory.Strings.{IsName}
use pint_os_assignment.Filesys.{Memory, add_made, create_at_sector, create_in}
use pint_os_assignment.Filesys.Frame.{IsReady, dir_close-IsDone}
use pint_os_assignment.Filesys.Outcome.{Outcome, unmade, finish_releases}
use pint_os_assignment.Filesys.{dir_open_root, filesys_create}
use pint_os_assignment.Filesys.Creation.{add-Outcome}

module _ (fs : FileSystem) (dir : Dir) (v : IsReady fs dir) (m : Memory) (writes : ℕ → Bool)
    (e : Bytes) (name : List ℕ) (size : ℕ) (bounce : m.bounce ≡ true) (named : IsName name) where
  at_sector-Outcome :
      (m₀ : Bitmap) (sector : ℕ)
      → sector + 1 ≤ fs.free_map.bit_cnt
      → bit fs.free_map sector ≡ false
      → IsSetTo fs.free_map m₀ sector 1 true
      → Outcome fs dir name size (
          create_at_sector m (writes 1) (record fs { free_map = m₀ }) dir e name size (some sector))
  unfolding create_at_sector add_made
  at_sector-Outcome m₀ sector inside free set₀ = by_case (
      inode_create_creates m.disk (writes 1) (record fs { free_map = m₀ }) sector size
        (omega (arith, v.fits)) v.own (omega (arith, v.fits, set₀.size))
        (omega (arith, v.sound.small, set₀.size)))
    where
      by_case :
          Created
            (record fs { free_map = m₀ })
            sector
            size
            (inode_create m.disk (writes 1) (record fs { free_map = m₀ }) sector size)
          → Outcome fs dir name size (
              create_at_sector m
                (writes 1)
                (record fs { free_map = m₀ })
                dir
                e
                name
                size
                (some sector))
      by_case (failed m₁ r count bits) =
          let (fs', f, sound, now) =
            finish_releases fs dir v m₀ sector inside free set₀ m₁ fs.device (λ s. false)
              (count ∙ set₀.size) bits refl in
          unmade fs' (bind-eq _ r ∙ f) sound now
      by_case (created start m₁ b r h a set₁ b_size b_foreign b_sectors) =
          subst (Outcome fs dir name size) (sym (bind-eq _ r)) (
            add-Outcome fs dir v m₀ sector inside free set₀ m₁ b start size h a set₁ b_size
              b_foreign b_sectors m e name bounce named (omega (arith, v.sound.small)))

  create_in-Outcome : Outcome fs dir name size (create_in m writes fs e name size (some dir))
  unfolding create_in create_at_sector
  create_in-Outcome =
      by_case (free_map_allocate_gives fs.has_map_file (writes 0) fs.free_map 1 v.sound.small)
    where
      by_case :
          Allocated fs.free_map 1 (free_map_allocate fs.has_map_file (writes 0) fs.free_map 1)
          → Outcome fs dir name size (create_in m writes fs e name size (some dir))
      by_case (given sector m₀ r inside a first set₀) =
          subst (Outcome fs dir name size) (sym (bind-eq _ r))
            (at_sector-Outcome m₀ sector inside (a sector (omega arith) (omega arith)) set₀)
      by_case (refused m₀ r count bits) =
          let (fs', f, d) = dir_close-IsDone fs dir m₀ fs.device v (count, λ s h. bits s ∙ h) in
          unmade fs' (bind-eq _ r ∙ bind-eq _ f) d.sound (λ s. d.bits s ∙ bits s)

-- When the root directory opens, in a sound table, without denials of writes and with the free
-- map's sectors on the device, and there is memory for a bounce buffer, filesys_create fails no
-- assertion and leaves the table sound. Either the file is made: its inode in a free sector, its
-- bytes zero and in free sectors, all of them in use then, its name in an entry with the inode's
-- sector and the other names where they were. Or it fails and no bit of the free map is changed; or
-- it fails after the inode was made because the name cannot be added, and the sectors of the data,
-- which were free, stay in use.
pub filesys_create_creates :
    (fs fs₁ : FileSystem) (dir : Dir) (m : Memory) (writes : ℕ → Bool) (e : Bytes) (name : List ℕ)
    (size : ℕ)
    → dir_open_root m fs ≡ ok (some dir, fs₁)
    → IsReady fs₁ dir
    → m.bounce ≡ true
    → IsName name
    → Outcome fs₁ dir name size (filesys_create m writes fs e name size)
unfolding filesys_create
filesys_create_creates fs fs₁ dir m writes e name size r v bounce named =
    subst (Outcome fs₁ dir name size) (sym (bind-eq _ r))
      (create_in-Outcome fs₁ dir v m writes e name size bounce named)
