-- ===== src/Bitmap.antt =====
-- lib/kernel/bitmap.c: arrays of bits in 32-bit elements. An element is the function from the
-- positions of its bits to their values. Storage is the caller's, as for bitmap_create_in_buf().
pub mod Set
pub mod Scan
pub mod Flip
pub mod Release
use pint_os_assignment.Common.{
  ℕ, zero, suc, ◌+◌, ◌-◌, ◌*◌, ◌/◌, ◌%◌, ◌^◌, Bool, true, false, not, ◌&&◌, ◌||◌, ltb, leb, ◌==◌,
  if◌then◌else◌, update, Result, ok, ◌>>=◌, ◌>>◌, assert,
}

-- `size_t`
abbrev pub size_mod : ℕ
size_mod = 2 ^ 32

abbrev pub bitmap_error : ℕ
bitmap_error = 2 ^ 32 - 1

abbrev pub elem_bits : ℕ
elem_bits = 32

abbrev pub Elem : Type 0
Elem = ℕ → Bool

-- `struct bitmap`, with the elements by their index.
pub record Bitmap : Type 0 where
  pub bit_cnt : ℕ
  pub bits : ℕ → Elem

abbrev pub elem_idx : ℕ → ℕ
elem_idx bit_idx = bit_idx / elem_bits

abbrev pub bit_mask : ℕ → Elem
bit_mask bit_idx j = bit_idx % elem_bits == j

abbrev pub elem_cnt : ℕ → ℕ
elem_cnt bit_cnt = (bit_cnt + elem_bits - 1) / elem_bits

abbrev pub same : Bool → Bool → Bool
same true v = v
same false v = not v

abbrev pub bitmap_size : Bitmap → ℕ
bitmap_size b = b.bit_cnt

unfoldable pub bitmap_mark : Bitmap → ℕ → Bitmap
bitmap_mark b bit_idx =
    let idx = elem_idx bit_idx in
    record b { bits = update b.bits idx (λ j. b.bits idx j || bit_mask bit_idx j) }

unfoldable pub bitmap_reset : Bitmap → ℕ → Bitmap
bitmap_reset b bit_idx =
    let idx = elem_idx bit_idx in
    record b { bits = update b.bits idx (λ j. b.bits idx j && not (bit_mask bit_idx j)) }

unfoldable pub bitmap_flip : Bitmap → ℕ → Bitmap
bitmap_flip b bit_idx =
    let idx = elem_idx bit_idx in
    record b { bits = update b.bits idx (λ j. not (same (b.bits idx j) (bit_mask bit_idx j))) }

unfoldable pub bitmap_set : Bitmap → ℕ → Bool → Result Bitmap
bitmap_set b idx value = do
  assert (ltb idx b.bit_cnt)
  ok (if value then bitmap_mark b idx else bitmap_reset b idx)

-- A bit of the element is not zero under the mask only at the mask's one position.
unfoldable pub bitmap_test : Bitmap → ℕ → Result Bool
bitmap_test b idx = do assert (ltb idx b.bit_cnt); ok (b.bits (elem_idx idx) (idx % elem_bits))

-- The assertions on a range. The sum may wrap around.
unfoldable pub check_range : Bitmap → ℕ → ℕ → Result (Unit {0})
check_range b start cnt = do
  assert (leb start b.bit_cnt)
  assert (leb ((start + cnt) % size_mod) b.bit_cnt)

-- The loops over a range, from `idx` on for `n` bits.
unfoldable pub set_bits : Bitmap → ℕ → ℕ → Bool → Result Bitmap
set_bits b idx zero value = ok b
set_bits b idx (suc n) value = do b' ← bitmap_set b idx value; set_bits b' (idx + 1) n value

unfoldable pub bitmap_set_multiple : Bitmap → ℕ → ℕ → Bool → Result Bitmap
bitmap_set_multiple b start cnt value = do check_range b start cnt; set_bits b start cnt value

unfoldable pub bitmap_set_all : Bitmap → Bool → Result Bitmap
bitmap_set_all b value = bitmap_set_multiple b 0 (bitmap_size b) value

unfoldable pub bitmap_create_in_buf : ℕ → (ℕ → Elem) → Result Bitmap
bitmap_create_in_buf bit_cnt block =
    bitmap_set_all (record { bit_cnt = bit_cnt; bits = block }) false

unfoldable pub count_bits : Bitmap → ℕ → ℕ → Bool → ℕ → Result ℕ
count_bits b idx zero value value_cnt = ok value_cnt
count_bits b idx (suc n) value value_cnt = do
  v ← bitmap_test b idx
  count_bits b (idx + 1) n value (if same v value then value_cnt + 1 else value_cnt)

unfoldable pub bitmap_count : Bitmap → ℕ → ℕ → Bool → Result ℕ
bitmap_count b start cnt value = do check_range b start cnt; count_bits b start cnt value 0

unfoldable pub find_bit : Bitmap → ℕ → ℕ → Bool → Result Bool
find_bit b idx zero value = ok false
find_bit b idx (suc n) value = do
  v ← bitmap_test b idx
  let rest = find_bit b (idx + 1) n value
  if same v value then ok true else rest

unfoldable pub bitmap_contains : Bitmap → ℕ → ℕ → Bool → Result Bool
bitmap_contains b start cnt value = do check_range b start cnt; find_bit b start cnt value

unfoldable pub bitmap_any : Bitmap → ℕ → ℕ → Result Bool
bitmap_any b start cnt = bitmap_contains b start cnt true

unfoldable pub bitmap_none : Bitmap → ℕ → ℕ → Result Bool
bitmap_none b start cnt = do r ← bitmap_contains b start cnt true; ok (not r)

unfoldable pub bitmap_all : Bitmap → ℕ → ℕ → Result Bool
bitmap_all b start cnt = do r ← bitmap_contains b start cnt false; ok (not r)

-- The loop of bitmap_scan(), for the `n` indices from `i` to the last.
unfoldable pub scan_from : Bitmap → ℕ → ℕ → ℕ → Bool → Result ℕ
scan_from b i zero cnt value = ok bitmap_error
scan_from b i (suc n) cnt value = do
  r ← bitmap_contains b i cnt (not value)
  let rest = scan_from b (i + 1) n cnt value
  if r then rest else ok i

unfoldable pub bitmap_scan : Bitmap → ℕ → ℕ → Bool → Result ℕ
bitmap_scan b start cnt value = do
  assert (leb start b.bit_cnt)
  let last = b.bit_cnt - cnt
  let found = scan_from b start (last + 1 - start) cnt value
  if leb cnt b.bit_cnt then found else ok bitmap_error

unfoldable pub bitmap_scan_and_flip : Bitmap → ℕ → ℕ → Bool → Result (ℕ × Bitmap)
bitmap_scan_and_flip b start cnt value = do
  idx ← bitmap_scan b start cnt value
  let flipped = bitmap_set_multiple b idx cnt (not value)
  if idx == bitmap_error then ok (idx, b) else (do b' ← flipped; ok (idx, b'))
