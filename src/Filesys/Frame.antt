-- ===== src/Filesys/Frame.antt =====
-- What filesys_create() of filesys/filesys.c leaves as it is.
use pint_os_assignment.Common.{
  ℕ, ◌+◌, ◌*◌, ◌/◌, ◌%◌, ◌<◌, ◌≤◌, ◌≡◌, ◌≢◌, ◌∙◌, subst, true, false, not, ◌&&◌, some, arith, ◌==◌,
  if◌then◌else◌, ok, bind-eq, if_of_true,
}
use pint_os_assignment.Bitmap.{Bitmap, bitmap_error}
use pint_os_assignment.Bitmap.Set.{bit, in_range}
use pint_os_assignment.Block.{Block}
use pint_os_assignment.Inode.{Inode, bytes_to_sectors}
use pint_os_assignment.FreeMap.Laws.{free_map_release_ok}
use pint_os_assignment.OpenInodes.{FileSystem}
use pint_os_assignment.OpenInodes.Table.{IsOpen, IsStored, IsSound}
use pint_os_assignment.OpenInodes.Close.{inode_close_closes}
use pint_os_assignment.Directory.{Dir}
use pint_os_assignment.Directory.Slots.{slots, slot, Agree}
use pint_os_assignment.Filesys.{dir_close, release_failed}

-- The file system with another free map and another device.
abbrev pub with_map : FileSystem → Bitmap → Block → FileSystem
with_map fs m b = record fs { free_map = m; device = b }

-- No bit is cleared.
abbrev pub Keeps : Bitmap → Bitmap → Type 0
Keeps m m' = (m'.bit_cnt ≡ m.bit_cnt) × ((s : ℕ) → bit m s ≡ true → bit m' s ≡ true)

IsStored-Keeps : (m m' : Bitmap) (i : Inode) → Keeps m m' → IsStored m i → IsStored m' i
IsStored-Keeps m m' i k v = record {
  sector_in = omega (arith, v.sector_in, k.0);
  blocks_in = omega (arith, v.blocks_in, k.0);
  in_use = λ s h. k.1 s (v.in_use s h);
  self = v.self;
}

pub with_map-IsSound :
    (fs : FileSystem) (m : Bitmap) (b : Block)
    → IsSound fs
    → Keeps fs.free_map m
    → IsSound (with_map fs m b)
with_map-IsSound fs m b v k = record {
  once = v.once;
  opened = v.opened;
  denied = v.denied;
  stored = λ a o. IsStored-Keeps fs.free_map m _ k (v.stored a o);
  apart = v.apart;
  small = omega (arith, v.small, k.0);
}

-- An open directory to which a file can be added: writes are not denied and it is not removed, its
-- length is a number of entries, and the device has the sectors of the free map, of which the first
-- is in use.
pub record IsReady (fs : FileSystem) (dir : Dir) : Type 0 where
  pub sound : IsSound fs
  pub opened : IsOpen fs dir.inode
  pub writable : (fs.inodes dir.inode).deny_write_cnt ≡ 0
  pub stays : (fs.inodes dir.inode).removed ≡ false
  pub whole : (fs.inodes dir.inode).content.length % 20 ≡ 0
  pub own : fs.device.foreign ≡ false
  pub fits : fs.free_map.bit_cnt ≤ fs.device.size
  pub first_used : bit fs.free_map 0 ≡ true

-- The end of filesys_create().
pub record IsDone (fs fs' : FileSystem) (m : Bitmap) (b : Block) : Type 0 where
  pub sound : IsSound fs'
  pub device : fs'.device ≡ b
  pub bits : (s : ℕ) → bit fs'.free_map s ≡ bit m s

pub dir_close-IsDone :
    (fs : FileSystem) (dir : Dir) (m : Bitmap) (b : Block)
    → IsReady fs dir
    → Keeps fs.free_map m
    → (fs' : FileSystem) × (dir_close (with_map fs m b) (some dir) ≡ ok fs') × IsDone fs fs' m b
unfolding dir_close
dir_close-IsDone fs dir m b v k =
    let (fs', e, c) =
      inode_close_closes (with_map fs m b) dir.inode (with_map-IsSound fs m b v.sound k) v.opened
        (omega (arith, v.writable, v.sound.opened dir.inode v.opened)) in
    (
      fs',
      e,
      record {
        sound = c.sound;
        device = c.device_kept;
        bits = λ s. ground (arith, c.cleared.bits s, v.stays);
      },
    )

-- The release of one sector that is in use.
pub release_failed_clears :
    (fs : FileSystem) (sector : ℕ)
    → sector ≢ 0
    → sector < fs.free_map.bit_cnt
    → fs.free_map.bit_cnt < bitmap_error
    → bit fs.free_map sector ≡ true
    → (m : Bitmap) × (release_failed fs sector false ≡ ok (record fs { free_map = m }))
      × (m.bit_cnt ≡ fs.free_map.bit_cnt)
      × ((s : ℕ) → bit m s ≡ (if sector == s then false else bit fs.free_map s))
unfolding release_failed
release_failed_clears fs sector n h w u =
    let (m, e, t) =
      free_map_release_ok fs.free_map sector 1 (omega arith) w
        (λ i p q. subst (λ j. bit fs.free_map j ≡ true) {x = sector} {y = i} (omega arith) u) in
    (
      m,
      if_of_true (not false && not (sector == 0)) _ _ (ground (arith, n)) ∙ bind-eq _ e,
      t.size,
      λ s. ground (arith, t.bits s),
    )

-- A directory whose sectors are as before has its entries.
pub slot_kept :
    (b b' : Block) (i : Inode) (k : ℕ)
    → k < slots i
    → ((s o : ℕ)
        → in_range i.content.start (bytes_to_sectors i.content.length) s ≡ true
        → b'.sectors s o ≡ b.sectors s o)
    → Agree (slot b' i k) (slot b i k)
slot_kept b b' i k h same o p =
    same (i.content.start + (20 * k + o) / 512) ((20 * k + o) % 512) (ground arith)
