-- ===== src/FreeMap/Laws.antt =====
-- Sectors of filesys/free-map.c that are allocated and released.
use pint_os_assignment.Common.{
  ℕ, ◌+◌, ◌<◌, ◌≤◌, ◌≡◌, ◌≢◌, ap, ◌∙◌, Bool, true, false, not, ◌&&◌, Option, none, some, arith,
  ◌==◌, Result, ok, bind-eq, inl, inr, Bool-cases, if_of_true, if_of_false,
}
use pint_os_assignment.Bitmap.{Bitmap, bitmap_error, bitmap_set_multiple, bitmap_scan_and_flip}
use pint_os_assignment.Bitmap.Set.{bit, IsSetTo, bitmap_set_multiple_correct}
use pint_os_assignment.Bitmap.Scan.{AllBits, Scanned, group, no_group}
use pint_os_assignment.Bitmap.Flip.{bitmap_scan_and_flip_correct}
use pint_os_assignment.Bitmap.Release.{bitmap_all_ok}
use pint_os_assignment.FreeMap.{free_map_allocate, free_map_release}

-- Releasing sectors that are in use.
pub free_map_release_ok :
    (map : Bitmap) (sector cnt : ℕ)
    → sector + cnt ≤ map.bit_cnt
    → map.bit_cnt < bitmap_error
    → AllBits map sector cnt true
    → (map' : Bitmap) × (free_map_release map sector cnt ≡ ok map')
      × IsSetTo map map' sector cnt false
unfolding free_map_release
free_map_release_ok map sector cnt h w a =
    let (map', e, s) = bitmap_set_multiple_correct map sector cnt false h (omega (arith, w)) in
    (map', bind-eq _ (bitmap_all_ok map sector cnt h w a) ∙ e, s)

-- What an allocation comes to: the first sectors in a row that are free, or none, and then every bit
-- is as before; it fails if there are no such sectors or the free map cannot be written.
pub data Allocated (map : Bitmap) (cnt : ℕ) (r : Result (Option ℕ × Bitmap)) : Type 0 where
  given :
      (sector : ℕ) (map' : Bitmap)
      → r ≡ ok (some sector, map')
      → sector + cnt ≤ map.bit_cnt
      → AllBits map sector cnt false
      → ((i : ℕ) → i < sector → ¬ AllBits map i cnt false)
      → IsSetTo map map' sector cnt true
      → Allocated map cnt r
  refused :
      (map' : Bitmap)
      → r ≡ ok (none, map')
      → map'.bit_cnt ≡ map.bit_cnt
      → ((i : ℕ) → bit map' i ≡ bit map i)
      → Allocated map cnt r

-- An allocation that cannot be written is taken back.
take_back :
    (map map' : Bitmap) (sector cnt : ℕ)
    → sector + cnt ≤ map.bit_cnt
    → map.bit_cnt < bitmap_error
    → AllBits map sector cnt false
    → IsSetTo map map' sector cnt true
    → (back : Bitmap) × (bitmap_set_multiple map' sector cnt false ≡ ok back)
      × (back.bit_cnt ≡ map.bit_cnt)
      × ((i : ℕ) → bit back i ≡ bit map i)
take_back map map' sector cnt h w a s =
    let (back, e, t) =
      bitmap_set_multiple_correct map' sector cnt false (omega (arith, s.size))
        (omega (arith, s.size, w)) in
    (back, e, t.size ∙ s.size, λ i. ground (arith, t.bits i, s.bits i, a i))

allocate-Scanned :
    (has_file writes : Bool) (map map' : Bitmap) (cnt sector : ℕ)
    → map.bit_cnt < bitmap_error
    → bitmap_scan_and_flip map 0 cnt false ≡ ok (sector, map')
    → Scanned map 0 cnt false sector
    → (sector ≡ bitmap_error → map' ≡ map)
    → (sector ≢ bitmap_error → IsSetTo map map' sector cnt true)
    → Allocated map cnt (free_map_allocate has_file writes map cnt)
unfolding free_map_allocate
allocate-Scanned has_file writes map map' cnt sector w e (no_group p u) same set =
    refused map' (bind-eq _ e ∙ if_of_true (sector == bitmap_error) _ _ (ground (arith, p)))
      (ap (λ m. m.bit_cnt) (same p)) (λ i. ap (λ m. bit m i) (same p))
allocate-Scanned has_file writes map map' cnt sector w e (group p q a first) same set =
    let ne : sector ≢ bitmap_error = λ h. omega arith in
    let s = set ne in
    let go = bind-eq _ e ∙ if_of_false (sector == bitmap_error) _ _ (ground (arith, ne)) in
    elim (Bool-cases (has_file && not writes)) [
      | inl h ↦
          let (back, f, size, bits) = take_back map map' sector cnt q w a s in
          refused back (go ∙ if_of_true (has_file && not writes) _ _ h ∙ bind-eq _ f) size bits
      | inr h ↦
          given sector map' (go ∙ if_of_false (has_file && not writes) _ _ h) q a
            (λ i b. first i (omega arith) b) s
    ]

-- On a map of less than 2^32 - 1 sectors free_map_allocate fails no assertion: it gives the first
-- free sectors in a row and marks just these, or leaves every bit as it was.
pub free_map_allocate_gives :
    (has_file writes : Bool) (map : Bitmap) (cnt : ℕ)
    → map.bit_cnt < bitmap_error
    → Allocated map cnt (free_map_allocate has_file writes map cnt)
free_map_allocate_gives has_file writes map cnt w =
    let (sector, map', e, s, same, set, start) =
      bitmap_scan_and_flip_correct map 0 cnt false (omega arith) w in
    allocate-Scanned has_file writes map map' cnt sector w e s same set
