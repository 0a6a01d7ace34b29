-- ===== src/FreeMap.antt =====
-- filesys/free-map.c: which sectors are in use. `has_file` says whether the free map's own file is
-- open, and `writes` whether bitmap_write() to that file succeeds.
pub mod Laws
use pint_os_assignment.Common.{
  ℕ, Bool, true, false, not, ◌&&◌, Option, none, some, ◌==◌, if◌then◌else◌, Result, ok, ◌>>=◌, ◌>>◌,
  assert,
}
use pint_os_assignment.Bitmap.{
  Bitmap, bitmap_error, bitmap_mark, bitmap_set_all, bitmap_all, bitmap_set_multiple,
  bitmap_scan_and_flip,
}

abbrev pub free_map_sector : ℕ
free_map_sector = 0

abbrev pub root_dir_sector : ℕ
root_dir_sector = 1

-- `map` is the bitmap that bitmap_create() gives for the size of the device.
unfoldable pub free_map_init : Bitmap → Bitmap
free_map_init map = bitmap_mark (bitmap_mark map free_map_sector) root_dir_sector

-- The first of the allocated sectors.
unfoldable pub free_map_allocate : Bool → Bool → Bitmap → ℕ → Result (Option ℕ × Bitmap)
free_map_allocate has_file writes map cnt = do
  (sector, map') ← bitmap_scan_and_flip map 0 cnt false
  let undone = (do back ← bitmap_set_multiple map' sector cnt false; ok (none, back))
  if sector == bitmap_error
      then ok (none, map')
      else if has_file && not writes
      then undone
      else ok (some sector, map')

unfoldable pub free_map_release : Bitmap → ℕ → ℕ → Result Bitmap
free_map_release map sector cnt = do
  used ← bitmap_all map sector cnt
  assert used
  bitmap_set_multiple map sector cnt false
