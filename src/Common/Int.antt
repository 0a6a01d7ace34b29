-- ===== src/Common/Int.antt =====
-- Signed integers over the native numbers, and the arithmetic of C's `int`.
use pint_os_assignment.Common.{
  ℕ, suc, ◌+◌, ◌-◌, ◌*◌, ◌/◌, ◌%◌, ◌^◌, ◌≤◌, ◌<◌, ◌≡◌, ◌⊎◌, inl, inr, refl, Bool, ltb, leb,
  if◌then◌else◌, arith,
}

-- `negsuc n` is -(n + 1).
pub data ℤ : Type 0 where
  pos : ℕ → ℤ
  negsuc : ℕ → ℤ

abbrev pub pos_part : ℤ → ℕ
pos_part (pos n) = n
pos_part (negsuc n) = 0

abbrev pub neg_part : ℤ → ℕ
neg_part (pos n) = 0
neg_part (negsuc n) = suc n

-- a - b, as an integer.
abbrev pub sub_ℕ : ℕ → ℕ → ℤ
sub_ℕ a b = if leb b a then pos (a - b) else negsuc (b - a - 1)

infixl 65 ◌+ℤ◌ ◌-ℤ◌
infixl 70 ◌*ℤ◌ ◌/ℤ◌
infix 50 ◌≤ℤ◌
unfoldable pub ◌+ℤ◌ : ℤ → ℤ → ℤ
a +ℤ b = sub_ℕ (pos_part a + pos_part b) (neg_part a + neg_part b)

unfoldable pub ◌-ℤ◌ : ℤ → ℤ → ℤ
a -ℤ b = sub_ℕ (pos_part a + neg_part b) (neg_part a + pos_part b)

unfoldable pub ◌*ℤ◌ : ℤ → ℤ → ℤ
a *ℤ b =
    sub_ℕ (pos_part a * pos_part b + neg_part a * neg_part b)
      (pos_part a * neg_part b + neg_part a * pos_part b)

-- The quotient of C, rounded towards zero.
unfoldable pub ◌/ℤ◌ : ℤ → ℤ → ℤ
pos a /ℤ pos b = pos (a / b)
pos a /ℤ negsuc b = sub_ℕ 0 (a / suc b)
negsuc a /ℤ pos b = sub_ℕ 0 (suc a / b)
negsuc a /ℤ negsuc b = pos (suc a / suc b)

abbrev pub ◌≤ℤ◌ : ℤ → ℤ → Type 0
a ≤ℤ b = pos_part a + neg_part b ≤ pos_part b + neg_part a

abbrev pub ltb_ℤ : ℤ → ℤ → Bool
ltb_ℤ a b = ltb (pos_part a + neg_part b) (pos_part b + neg_part a)

pub +ℤ_parts :
    (a b : ℤ)
    → pos_part (a +ℤ b) + neg_part a + neg_part b ≡ neg_part (a +ℤ b) + pos_part a + pos_part b
unfolding ◌+ℤ◌
+ℤ_parts a b = ground arith

pub -ℤ_parts :
    (a b : ℤ)
    → pos_part (a -ℤ b) + neg_part a + pos_part b ≡ neg_part (a -ℤ b) + pos_part a + neg_part b
unfolding ◌-ℤ◌
-ℤ_parts a b = ground arith

pub eq_of_parts : (a b : ℤ) → pos_part a + neg_part b ≡ pos_part b + neg_part a → a ≡ b
eq_of_parts a b h = ground arith

-- A product by a number, and a quotient by a positive number.
pub *ℤ-pos_parts :
    (a : ℤ) (b : ℕ)
    → (pos_part (a *ℤ pos b) ≡ pos_part a * b) × (neg_part (a *ℤ pos b) ≡ neg_part a * b)
unfolding ◌*ℤ◌
*ℤ-pos_parts (pos a) b = grind arith
*ℤ-pos_parts (negsuc a) b = grind arith

pub /ℤ-pos_parts :
    (a : ℤ) (b : ℕ)
    → (pos_part (a /ℤ pos b) ≡ pos_part a / b) × (neg_part (a /ℤ pos b) ≡ neg_part a / b)
unfolding ◌/ℤ◌
/ℤ-pos_parts (pos a) b = (refl, omega arith)
/ℤ-pos_parts (negsuc a) b = let e : 0 / b ≡ 0 = omega arith in ground (arith, e)

-- The value of the low 32 bits read as an `int`, which is what a conversion to `int` keeps.
abbrev pub low32 : ℤ → ℕ
low32 (pos n) = n % 2 ^ 32
low32 (negsuc n) = 2 ^ 32 - 1 - n % 2 ^ 32

unfoldable pub to_int : ℤ → ℤ
to_int a = if ltb (low32 a) (2 ^ 31) then pos (low32 a) else negsuc (2 ^ 32 - low32 a - 1)

-- A value in the range of `int` is kept.
pub to_int_fits : (a : ℤ) → pos_part a < 2 ^ 31 → neg_part a ≤ 2 ^ 31 → to_int a ≡ a
unfolding to_int
to_int_fits (pos n) h k = ground arith
to_int_fits (negsuc n) h k = ground arith

-- One of the two parts is zero.
pub one_part : (a : ℤ) → (pos_part a ≡ 0) ⊎ (neg_part a ≡ 0)
one_part (pos n) = inr refl
one_part (negsuc n) = inl refl

pub pos-*ℤ-pos : (a b : ℕ) → pos a *ℤ pos b ≡ pos (a * b)
unfolding ◌*ℤ◌
pos-*ℤ-pos a b = grind arith

pub pos-+ℤ-pos : (a b : ℕ) → pos a +ℤ pos b ≡ pos (a + b)
unfolding ◌+ℤ◌
pos-+ℤ-pos a b = ground arith

-- A quotient by 4 or by 2 ^ 16 grows with the dividend.
pub quot_mono : (a b : ℤ) → a ≤ℤ b → (a /ℤ pos 4 ≤ℤ b /ℤ pos 4) × (a /ℤ pos 65536 ≤ℤ b /ℤ pos 65536)
quot_mono a b h = (
  omega (arith, /ℤ-pos_parts a 4, /ℤ-pos_parts b 4, one_part a, one_part b),
  omega (arith, /ℤ-pos_parts a 65536, /ℤ-pos_parts b 65536, one_part a, one_part b),
)
