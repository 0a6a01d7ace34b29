-- ===== src/Bitmap/Scan.antt =====
-- Searching a bitmap of lib/kernel/bitmap.c.
use pint_os_assignment.Common.{
  ℕ, zero, suc, ◌+◌, ◌-◌, ◌<◌, ◌≤◌, ◌≡◌, refl, ◌∙◌, Bool, true, false, not, arith, ltb, leb, ◌==◌,
  if◌then◌else◌, ok, assert_ok, bind-eq, inl, inr, Bool-cases, ==_iff, subst, if_of_true,
  if_of_false,
}
use pint_os_assignment.Bitmap.{
  size_mod, bitmap_error, Bitmap, same, bitmap_test, find_bit, bitmap_contains, scan_from,
  bitmap_scan,
}
use pint_os_assignment.Bitmap.Set.{bit, check_range_ok}

-- The bits of a range all have a value.
abbrev pub AllBits : Bitmap → ℕ → ℕ → Bool → Type 0
AllBits b start cnt value = (i : ℕ) → start ≤ i → i < start + cnt → bit b i ≡ value

-- What a search for a bit with the value finds.
pub data Found (b : Bitmap) (start cnt : ℕ) (value : Bool) : Bool → Type 0 where
  found : (i : ℕ) → start ≤ i → i < start + cnt → bit b i ≡ value → Found b start cnt value true
  absent : AllBits b start cnt (not value) → Found b start cnt value false

bitmap_test_ok : (b : Bitmap) (i : ℕ) → i < b.bit_cnt → bitmap_test b i ≡ ok (bit b i)
unfolding bitmap_test
bitmap_test_ok b i h = assert_ok (ltb i b.bit_cnt) _ (ground arith)

same_true : (v w : Bool) → same v w ≡ true → v ≡ w
same_true v w h = ground arith

same_false : (v w : Bool) → same v w ≡ false → v ≡ not w
same_false v w h = ground arith

Found-cons :
    (b : Bitmap) (idx n : ℕ) (value r : Bool)
    → bit b idx ≡ not value
    → Found b (idx + 1) n value r
    → Found b idx (suc n) value r
Found-cons b idx n value true h (found i p q e) = found i (omega arith) (omega arith) e
Found-cons b idx n value false h (absent a) = absent (λ i p q. elim (Bool-cases (idx == i)) [
  | inl e ↦ ground (arith, h)
  | inr e ↦ a i (ground arith) (omega arith)
])

find_bit_ok :
    (b : Bitmap) (idx n : ℕ) (value : Bool)
    → idx + n ≤ b.bit_cnt
    → (r : Bool) × (find_bit b idx n value ≡ ok r) × Found b idx n value r
unfolding find_bit
find_bit_ok b idx zero value h = (false, refl, absent (λ i p q. absurd (omega arith)))
find_bit_ok b idx (suc n) value h =
    let (r, e, f) = find_bit_ok b (idx + 1) n value (omega arith) in
    let t =
      bind-eq (λ v. if same v value then ok true else find_bit b (idx + 1) n value)
        (bitmap_test_ok b idx (omega arith)) in
    elim (Bool-cases (same (bit b idx) value)) [
      | inl s ↦ (
        true,
        t ∙ if_of_true _ _ _ s,
        found idx (omega arith) (omega arith) (same_true (bit b idx) value s),
      )
      | inr s ↦ (
        r,
        t ∙ if_of_false _ _ _ s ∙ e,
        Found-cons b idx n value r (same_false (bit b idx) value s) f,
      )
    ]

-- For a range inside the bitmap, bitmap_contains fails no assertion and says whether a bit of the
-- range has the value: with such a bit, or with all the others the other way.
pub bitmap_contains_correct :
    (b : Bitmap) (start cnt : ℕ) (value : Bool)
    → start + cnt ≤ b.bit_cnt
    → b.bit_cnt < size_mod
    → (r : Bool) × (bitmap_contains b start cnt value ≡ ok r) × Found b start cnt value r
unfolding bitmap_contains
bitmap_contains_correct b start cnt value h w =
    let (r, e, f) = find_bit_ok b start cnt value h in
    (r, bind-eq _ (check_range_ok b start cnt h w) ∙ e, f)

-- What a scan from `start` for `cnt` bits of a value finds: the first place where they stand, or
-- the error value if they stand nowhere in the bitmap from there on.
pub data Scanned (b : Bitmap) (start cnt : ℕ) (value : Bool) (idx : ℕ) : Type 0 where
  group :
      start ≤ idx
      → idx + cnt ≤ b.bit_cnt
      → AllBits b idx cnt value
      → ((i : ℕ) → start ≤ i → i < idx → ¬ AllBits b i cnt value)
      → Scanned b start cnt value idx
  no_group :
      idx ≡ bitmap_error
      → ((i : ℕ) → start ≤ i → i + cnt ≤ b.bit_cnt → ¬ AllBits b i cnt value)
      → Scanned b start cnt value idx

-- A bit that is the other way.
Found-not-all :
    (b : Bitmap) (i cnt : ℕ) (value : Bool)
    → Found b i cnt (not value) true
    → ¬ AllBits b i cnt value
Found-not-all b i cnt true (found j p q e) = λ a. ground (arith, a j p q, e)
Found-not-all b i cnt false (found j p q e) = λ a. ground (arith, a j p q, e)

Found-all :
    (b : Bitmap) (i cnt : ℕ) (value : Bool)
    → Found b i cnt (not value) false
    → AllBits b i cnt value
Found-all b i cnt true (absent a) = a
Found-all b i cnt false (absent a) = a

Scanned-cons :
    (b : Bitmap) (start cnt idx : ℕ) (value : Bool)
    → ¬ AllBits b start cnt value
    → Scanned b (start + 1) cnt value idx
    → Scanned b start cnt value idx
Scanned-cons b start cnt idx value h (group p q a first) = group (omega arith) q a (λ i r s.
    elim (Bool-cases (start == i)) [
      | inl e ↦ subst (λ j. ¬ AllBits b j cnt value) ((==_iff start i).0 e) h
      | inr e ↦ first i (ground arith) s
    ])
Scanned-cons b start cnt idx value h (no_group p none) = no_group p (λ i r s.
    elim (Bool-cases (start == i)) [
      | inl e ↦ subst (λ j. ¬ AllBits b j cnt value) ((==_iff start i).0 e) h
      | inr e ↦ none i (ground arith) s
    ])

-- One round of the scan, by what bitmap_contains finds at `i`.
scan_step :
    (b : Bitmap) (i n cnt idx : ℕ) (value : Bool)
    → i + cnt ≤ b.bit_cnt
    → scan_from b (i + 1) n cnt value ≡ ok idx
    → Scanned b (i + 1) cnt value idx
    → (r : Bool) × (bitmap_contains b i cnt (not value) ≡ ok r) × Found b i cnt (not value) r
    → (idx : ℕ) × (scan_from b i (suc n) cnt value ≡ ok idx) × Scanned b i cnt value idx
unfolding scan_from
scan_step b i n cnt idx value h e s (true, c, f) =
    (idx, bind-eq _ c ∙ e, Scanned-cons b i cnt idx value (Found-not-all b i cnt value f) s)
scan_step b i n cnt idx value h e s (false, c, f) = (
  i,
  bind-eq _ c,
  group (omega arith) h (Found-all b i cnt value f) (λ j p q. absurd (omega arith)),
)

scan_from_ok :
    (b : Bitmap) (i n cnt : ℕ) (value : Bool)
    → b.bit_cnt < size_mod
    → cnt ≤ b.bit_cnt
    → n ≡ b.bit_cnt - cnt + 1 - i
    → (idx : ℕ) × (scan_from b i n cnt value ≡ ok idx) × Scanned b i cnt value idx
unfolding scan_from
scan_from_ok b i zero cnt value w h m =
    (bitmap_error, refl, no_group refl (λ j p q. absurd (omega arith)))
scan_from_ok b i (suc n) cnt value w h m =
    let (idx, e, s) = scan_from_ok b (i + 1) n cnt value w h (omega arith) in
    scan_step b i n cnt idx value (omega arith) e s
      (bitmap_contains_correct b i cnt (not value) (omega arith) w)

-- From a start inside it, bitmap_scan on a bitmap fails no assertion and finds the first group of
-- bits with the value, if there is one.
pub bitmap_scan_first :
    (b : Bitmap) (start cnt : ℕ) (value : Bool)
    → start ≤ b.bit_cnt
    → b.bit_cnt < size_mod
    → (idx : ℕ) × (bitmap_scan b start cnt value ≡ ok idx) × Scanned b start cnt value idx
unfolding bitmap_scan
bitmap_scan_first b start cnt value h w = elim (Bool-cases (leb cnt b.bit_cnt)) [
  | inl c ↦
      let (idx, e, s) =
        scan_from_ok b start (b.bit_cnt - cnt + 1 - start) cnt value w (ground arith) refl in
      (idx, assert_ok (leb start b.bit_cnt) _ (ground arith) ∙ if_of_true _ _ _ c ∙ e, s)
  | inr c ↦ (
    bitmap_error,
    assert_ok (leb start b.bit_cnt) _ (ground arith) ∙ if_of_false _ _ _ c,
    no_group refl (λ i p q. absurd (ground arith)),
  )
]
