-- ===== src/Tests/Bits.antt =====
-- Runs of lib/kernel/bitmap.c on a bitmap of 40 bits, of which the odd ones are set.
use pint_os_assignment.Common.{ℕ, ◌%◌, ◌≡◌, ◌≢◌, false, not, arith, ◌==◌, ok}
use pint_os_assignment.Bitmap.{Bitmap, bitmap_error, bitmap_scan_and_flip}
use pint_os_assignment.Bitmap.Set.{IsSetTo}
use pint_os_assignment.Bitmap.Scan.{Scanned}
use pint_os_assignment.Bitmap.Flip.{bitmap_scan_and_flip_correct}

abbrev size_of_none : ℕ
size_of_none = 0

abbrev odds : Bitmap
odds = record { bit_cnt = 40; bits = λ i j. j % 2 == 1 }

bitmap_scan_and_flip_correct_example :
    (idx : ℕ) × (b' : Bitmap) × (bitmap_scan_and_flip odds 2 1 false ≡ ok (idx, b'))
    × Scanned odds 2 1 false idx
    × (idx ≡ bitmap_error → b' ≡ odds)
    × (idx ≢ bitmap_error → IsSetTo odds b' idx 1 (not false))
    × (1 ≡ size_of_none → idx ≡ 2)
bitmap_scan_and_flip_correct_example =
    bitmap_scan_and_flip_correct odds 2 1 false (omega arith) (omega arith)
