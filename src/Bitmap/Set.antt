-- ===== src/Bitmap/Set.antt =====
-- Single bits and ranges of lib/kernel/bitmap.c against an array of bits.
use pint_os_assignment.Common.{
  ℕ, zero, suc, ◌+◌, ◌/◌, ◌%◌, ◌<◌, ◌≤◌, ◌≡◌, refl, ◌∙◌, Bool, true, false, not, ◌&&◌, arith, ltb,
  leb, ◌==◌, if◌then◌else◌, ok, assert_ok, bind-eq,
}
use pint_os_assignment.Bitmap.{
  size_mod, Bitmap, bitmap_mark, bitmap_reset, bitmap_flip, bitmap_set, check_range, set_bits,
  bitmap_set_multiple,
}

-- The bit with this number.
abbrev pub bit : Bitmap → ℕ → Bool
bit b i = b.bits (i / 32) (i % 32)

pub bit-mark : (b : Bitmap) (j i : ℕ) → bit (bitmap_mark b j) i ≡ (if j == i then true else bit b i)
unfolding bitmap_mark
bit-mark b j i = ground arith

pub bit-reset :
    (b : Bitmap) (j i : ℕ) → bit (bitmap_reset b j) i ≡ (if j == i then false else bit b i)
unfolding bitmap_reset
bit-reset b j i = ground arith

-- Marking, resetting and flipping a bit change just that bit: the elements do not get mixed up.
bitmap_flip_correct :
    (b : Bitmap) (j i : ℕ)
    → (bit (bitmap_mark b j) i ≡ (if j == i then true else bit b i))
      × (bit (bitmap_reset b j) i ≡ (if j == i then false else bit b i))
      × (bit (bitmap_flip b j) i ≡ (if j == i then not (bit b i) else bit b i))
unfolding bitmap_flip
bitmap_flip_correct b j i = (bit-mark b j i, bit-reset b j i, ground arith)

pub check_range_ok :
    (b : Bitmap) (start cnt : ℕ)
    → start + cnt ≤ b.bit_cnt
    → b.bit_cnt < size_mod
    → check_range b start cnt ≡ ok tt
unfolding check_range
check_range_ok b start cnt h w = ground arith

abbrev pub in_range : ℕ → ℕ → ℕ → Bool
in_range start cnt i = leb start i && ltb i (start + cnt)

-- `b'` is `b` with the bits of a range set to a value.
pub record IsSetTo (b b' : Bitmap) (start cnt : ℕ) (value : Bool) : Type 0 where
  pub size : b'.bit_cnt ≡ b.bit_cnt
  pub bits : (i : ℕ) → bit b' i ≡ (if in_range start cnt i then value else bit b i)

bitmap_set_ok :
    (b : Bitmap) (idx : ℕ) (value : Bool)
    → idx < b.bit_cnt
    → (b' : Bitmap) × (bitmap_set b idx value ≡ ok b') × IsSetTo b b' idx 1 value
unfolding bitmap_set bitmap_mark bitmap_reset
bitmap_set_ok b idx true h = (
  bitmap_mark b idx,
  assert_ok (ltb idx b.bit_cnt) _ (ground arith),
  record { size = refl; bits = λ i. ground (arith, bit-mark b idx i) },
)
bitmap_set_ok b idx false h = (
  bitmap_reset b idx,
  assert_ok (ltb idx b.bit_cnt) _ (ground arith),
  record { size = refl; bits = λ i. ground (arith, bit-reset b idx i) },
)

set_bits_ok :
    (b : Bitmap) (idx n : ℕ) (value : Bool)
    → idx + n ≤ b.bit_cnt
    → (b' : Bitmap) × (set_bits b idx n value ≡ ok b') × IsSetTo b b' idx n value
unfolding set_bits
set_bits_ok b idx zero value h = (b, refl, record { size = refl; bits = λ i. ground arith })
set_bits_ok b idx (suc n) value h =
    let (b₁, e₁, s₁) = bitmap_set_ok b idx value (omega arith) in
    let (b₂, e₂, s₂) = set_bits_ok b₁ (idx + 1) n value (omega (arith, s₁.size)) in
    (
      b₂,
      bind-eq _ e₁ ∙ e₂,
      record { size = s₂.size ∙ s₁.size; bits = λ i. ground (arith, s₁.bits i, s₂.bits i) },
    )

-- For a range inside the bitmap, bitmap_set_multiple fails no assertion, sets the bits of the range
-- to the value, and leaves the others.
pub bitmap_set_multiple_correct :
    (b : Bitmap) (start cnt : ℕ) (value : Bool)
    → start + cnt ≤ b.bit_cnt
    → b.bit_cnt < size_mod
    → (b' : Bitmap) × (bitmap_set_multiple b start cnt value ≡ ok b') × IsSetTo b b' start cnt value
unfolding bitmap_set_multiple
bitmap_set_multiple_correct b start cnt value h w =
    let (b', e, s) = set_bits_ok b start cnt value h in
    (b', bind-eq _ (check_range_ok b start cnt h w) ∙ e, s)
