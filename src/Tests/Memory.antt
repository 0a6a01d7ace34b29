-- ===== src/Tests/Memory.antt =====
-- Runs of threads/palloc.c on two pools of four pages each.
use pint_os_assignment.Common.{
  ℕ, ◌*◌, ◌≡◌, refl, true, false, Option, some, arith, ◌==◌, Result, ok, panic, no_fuel,
}
use pint_os_assignment.Bitmap.{
  Bitmap, bitmap_scan_and_flip, bitmap_scan, scan_from, bitmap_contains, check_range, find_bit,
  bitmap_test, bitmap_set_multiple, set_bits, bitmap_set, bitmap_mark, bitmap_reset,
}
use pint_os_assignment.Bitmap.Set.{bit}
use pint_os_assignment.Palloc.{
  Pools, Flags, set_map, pool_of, palloc_get_multiple, palloc_free_multiple,
}
use pint_os_assignment.Palloc.Pages.{IsPaged, Got, palloc_get_multiple_takes}
use pint_os_assignment.Palloc.Free.{free-get_multiple}

-- The first page of each pool is in use.
abbrev four : Bitmap
four = record { bit_cnt = 4; bits = λ i j. j == 0 }

abbrev pools : Pools
pools = record {
  kernel_pool = record { used_map = four; base = 8 * 4096 };
  user_pool = record { used_map = four; base = 12 * 4096 };
}

pools-IsPaged : IsPaged pools
pools-IsPaged = record {
  kernel_aligned = omega arith;
  user_aligned = omega arith;
  kernel_start = omega arith;
  kernel_size = omega arith;
  user_size = omega arith;
  apart = omega arith;
  in_memory = omega arith;
}

abbrev users : Flags
users = record { user = true; asserts = false }

palloc_get_multiple_takes_example : Got pools users 2 (palloc_get_multiple pools users 2)
palloc_get_multiple_takes_example = palloc_get_multiple_takes pools users 2 pools-IsPaged

abbrev pools_of : Result (Option ℕ × Pools) → Pools
pools_of (ok (page, ps)) = ps
pools_of panic = pools
pools_of no_fuel = pools

two_pages :
    palloc_get_multiple pools users 2
    ≡ ok (some (13 * 4096), pools_of (palloc_get_multiple pools users 2))
unfolding palloc_get_multiple bitmap_scan_and_flip bitmap_scan scan_from bitmap_contains check_range
    find_bit bitmap_test bitmap_set_multiple set_bits bitmap_set bitmap_mark bitmap_reset
two_pages = refl

free-get_multiple_example :
    (map' : Bitmap) × (palloc_free_multiple
        (pools_of (palloc_get_multiple pools users 2))
        (13 * 4096)
        2
      ≡ ok (set_map pools users.user map'))
    × ((i : ℕ) → bit map' i ≡ bit (pool_of pools users.user).used_map i)
free-get_multiple_example =
    free-get_multiple pools (pools_of (palloc_get_multiple pools users 2)) users 2 (13 * 4096)
      pools-IsPaged (omega arith) two_pages
