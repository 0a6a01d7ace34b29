-- ===== src/Bitmap/Release.antt =====
-- Ranges of lib/kernel/bitmap.c that are tested to be set, and then cleared.
use pint_os_assignment.Common.{
  ℕ, ◌+◌, ◌≤◌, ◌<◌, ◌≡◌, Bool, true, false, not, arith, ok, ◌>>=◌, bind-eq,
}
use pint_os_assignment.Bitmap.{Bitmap, bitmap_error, bitmap_all, bitmap_contains}
use pint_os_assignment.Bitmap.Scan.{AllBits, Found, found, bitmap_contains_correct}

-- bitmap_all on a range that is set.
pub bitmap_all_ok :
    (b : Bitmap) (start cnt : ℕ)
    → start + cnt ≤ b.bit_cnt
    → b.bit_cnt < bitmap_error
    → AllBits b start cnt true
    → bitmap_all b start cnt ≡ ok true
unfolding bitmap_all
bitmap_all_ok b start cnt h w a = go (bitmap_contains_correct b start cnt false h (omega arith))
  where
    go :
        (r : Bool) × (bitmap_contains b start cnt false ≡ ok r) × Found b start cnt false r
        → (bitmap_contains b start cnt false >>= λ r. ok (not r)) ≡ ok true
    go (false, e, f) = bind-eq _ e
    go (true, e, found i p q v) = absurd (ground (arith, a i p q))
