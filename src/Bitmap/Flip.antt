-- ===== src/Bitmap/Flip.antt =====
-- bitmap_scan_and_flip() of lib/kernel/bitmap.c, with which pages, swap slots and sectors are
-- allocated.
use pint_os_assignment.Common.{
  ℕ, ◌+◌, ◌<◌, ◌≤◌, ◌≡◌, ◌≢◌, ◌⊎◌, refl, ◌∙◌, Bool, true, false, not, arith, ltb, ◌==◌, ok, bind-eq,
  inl, inr, Bool-cases, ==_iff, if_of_true, if_of_false,
}
use pint_os_assignment.Bitmap.{bitmap_error, Bitmap, bitmap_scan, bitmap_scan_and_flip}
use pint_os_assignment.Bitmap.Set.{IsSetTo, bitmap_set_multiple_correct}
use pint_os_assignment.Bitmap.Scan.{Scanned, group, no_group, bitmap_scan_first}

-- An empty group stands everywhere.
Scanned-nil :
    (b : Bitmap) (start cnt idx : ℕ) (value : Bool)
    → start ≤ b.bit_cnt
    → Scanned b start cnt value idx
    → cnt ≡ 0
    → idx ≡ start
Scanned-nil b start cnt idx value h (group p q a first) e = elim (Bool-cases (ltb start idx)) [
  | inl c ↦ absurd (first start (omega arith) (ground arith) (λ i r s. absurd (omega arith)))
  | inr c ↦ ground arith
]
Scanned-nil b start cnt idx value h (no_group p none) e =
    absurd (none start (omega arith) (omega arith) (λ i r s. absurd (omega arith)))

Scanned-in :
    (b : Bitmap) (start cnt idx : ℕ) (value : Bool)
    → Scanned b start cnt value idx
    → idx ≢ bitmap_error
    → idx + cnt ≤ b.bit_cnt
Scanned-in b start cnt idx value (group p q a first) h = q
Scanned-in b start cnt idx value (no_group p none) h = absurd (h p)

flip_found :
    (b : Bitmap) (start cnt idx : ℕ) (value : Bool)
    → start ≤ b.bit_cnt
    → b.bit_cnt < bitmap_error
    → bitmap_scan b start cnt value ≡ ok idx
    → Scanned b start cnt value idx
    → ((idx == bitmap_error) ≡ true) ⊎ ((idx == bitmap_error) ≡ false)
    → (idx : ℕ) × (b' : Bitmap) × (bitmap_scan_and_flip b start cnt value ≡ ok (idx, b'))
      × Scanned b start cnt value idx
      × (idx ≡ bitmap_error → b' ≡ b)
      × (idx ≢ bitmap_error → IsSetTo b b' idx cnt (not value))
      × (cnt ≡ 0 → idx ≡ start)
unfolding bitmap_scan_and_flip
flip_found b start cnt idx value h w e s (inl c) = (
  idx,
  b,
  bind-eq _ e ∙ if_of_true _ _ _ c,
  s,
  λ q. refl,
  λ q. absurd (q ((==_iff idx bitmap_error).0 c)),
  Scanned-nil b start cnt idx value h s,
)
flip_found b start cnt idx value h w e s (inr c) =
    let ne : idx ≢ bitmap_error = λ q. ground (arith, c, q) in
    let (b', e', v) =
      bitmap_set_multiple_correct b idx cnt (not value) (Scanned-in b start cnt idx value s ne)
        (omega arith) in
    (
      idx,
      b',
      bind-eq _ e ∙ if_of_false _ _ _ c ∙ bind-eq _ e',
      s,
      λ q. absurd (ne q),
      λ q. v,
      Scanned-nil b start cnt idx value h s,
    )

-- bitmap_scan_and_flip sets the group that the scan finds to the other value and leaves the other
-- bits; if the scan finds none it leaves the bitmap. It returns what the scan does, which for an
-- empty group is the start.
pub bitmap_scan_and_flip_correct :
    (b : Bitmap) (start cnt : ℕ) (value : Bool)
    → start ≤ b.bit_cnt
    → b.bit_cnt < bitmap_error
    → (idx : ℕ) × (b' : Bitmap) × (bitmap_scan_and_flip b start cnt value ≡ ok (idx, b'))
      × Scanned b start cnt value idx
      × (idx ≡ bitmap_error → b' ≡ b)
      × (idx ≢ bitmap_error → IsSetTo b b' idx cnt (not value))
      × (cnt ≡ 0 → idx ≡ start)
unfolding bitmap_scan_and_flip
bitmap_scan_and_flip_correct b start cnt value h w =
    let (idx, e, s) = bitmap_scan_first b start cnt value h (omega arith) in
    flip_found b start cnt idx value h w e s (Bool-cases (idx == bitmap_error))
