-- ===== src/Palloc.antt =====
-- threads/palloc.c: pages from the kernel's and the users' pool. The contents of pages, and the lock
-- that is held around the search of a pool, are left out.
pub mod Pages
pub mod Free
use pint_os_assignment.Common.{
  ℕ, ◌+◌, ◌-◌, ◌*◌, ◌/◌, ◌%◌, ◌^◌, Bool, true, false, ◌&&◌, ◌||◌, Option, none, some, ltb, leb,
  ◌==◌, if◌then◌else◌, Result, ok, panic, ◌>>=◌, ◌>>◌, assert,
}
use pint_os_assignment.Bitmap.{
  Bitmap, bitmap_error, bitmap_size, bitmap_all, bitmap_set_multiple, bitmap_scan_and_flip,
}

abbrev pub pgsize : ℕ
pgsize = 4096

abbrev pub pg_no : ℕ → ℕ
pg_no va = va / pgsize

abbrev pub pg_ofs : ℕ → ℕ
pg_ofs va = va % pgsize

-- `struct pool`, by the address of its first page.
pub record Pool : Type 0 where
  pub used_map : Bitmap
  pub base : ℕ

pub record Pools : Type 0 where
  pub kernel_pool : Pool
  pub user_pool : Pool

-- PAL_USER and PAL_ASSERT of `enum palloc_flags`.
pub record Flags : Type 0 where
  pub user : Bool
  pub asserts : Bool

abbrev pub pool_of : Pools → Bool → Pool
pool_of ps user = if user then ps.user_pool else ps.kernel_pool

-- The pool with a new map.
abbrev pub set_map : Pools → Bool → Bitmap → Pools
set_map ps true map = record ps { user_pool = record ps.user_pool { used_map = map } }
set_map ps false map = record ps { kernel_pool = record ps.kernel_pool { used_map = map } }

-- `none` is the null pointer.
unfoldable pub palloc_get_multiple : Pools → Flags → ℕ → Result (Option ℕ × Pools)
palloc_get_multiple ps flags page_cnt =
    let pool = pool_of ps flags.user in
    if page_cnt == 0 then ok (none, ps) else do
      (page_idx, map) ← bitmap_scan_and_flip pool.used_map 0 page_cnt false
      let ps' = set_map ps flags.user map
      let failed = if flags.asserts then panic else ok (none, ps')
      if page_idx == bitmap_error
          then failed
          else ok (some ((pool.base + pgsize * page_idx) % 2 ^ 32), ps')

abbrev pub page_from_pool : Pool → ℕ → Bool
page_from_pool pool page =
    let start_page = pg_no pool.base in
    leb start_page (pg_no page) && ltb (pg_no page) (start_page + bitmap_size pool.used_map)

unfoldable pub free_in_pool : Pools → Bool → ℕ → ℕ → Result Pools
free_in_pool ps user pages page_cnt =
    let pool = pool_of ps user in
    let page_idx = pg_no pages - pg_no pool.base in
    do
      used ← bitmap_all pool.used_map page_idx page_cnt
      assert used
      map ← bitmap_set_multiple pool.used_map page_idx page_cnt false
      ok (set_map ps user map)

unfoldable pub palloc_free_multiple : Pools → ℕ → ℕ → Result Pools
palloc_free_multiple ps pages page_cnt = do
  assert (pg_ofs pages == 0)
  let kernel_page = page_from_pool ps.kernel_pool pages
  let user_page = page_from_pool ps.user_pool pages
  let in_kernel = free_in_pool ps false pages page_cnt
  let in_user = free_in_pool ps true pages page_cnt
  if (pages == 0) || (page_cnt == 0)
      then ok ps
      else (if kernel_page then in_kernel else (if user_page then in_user else panic))
