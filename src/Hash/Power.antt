-- ===== src/Hash/Power.antt =====
-- The number of buckets in lib/kernel/hash.c, a power of two.
use Prim.Native.Nat.{bit_and, bit_and-bitwise, digits, min}
use native.Mathlib.Nat.{pow-suc, one-le-pow}
use pint_os_assignment.Common.{
  ℕ, zero, suc, ◌+◌, ◌-◌, ◌*◌, ◌/◌, ◌%◌, ◌^◌, ◌<◌, ◌≤◌, ◌≡◌, refl, sym, ap, ap₂, subst, ◌∙◌, true,
  arith, ltb, ◌==◌, ==_iff, if◌then◌else◌, inl, inr, Bool-cases, if_of_true, if_of_false,
}
use pint_os_assignment.Hash.{turn_off_least_1bit, is_power_of_2, shrink, ideal_bucket_cnt}

-- Bitwise `and` digit by digit, with any number of digits that is large enough.
abbrev and_digits : ℕ → ℕ → ℕ → ℕ
and_digits n a b = digits (λ y. 0) min n a b

enough : (n a b : ℕ) → a ≤ n → and_digits (suc n) a b ≡ and_digits n a b
enough zero zero b h = refl
enough zero (suc a) b h = absurd (omega arith)
enough (suc n) zero b h = refl
enough (suc n) (suc a) b h =
    ap (λ r. r * 2 + min (suc a % 2) (b % 2)) (enough n (suc a / 2) (b / 2) (omega arith))

more : (n a b : ℕ) → a ≤ n → and_digits n a b ≡ bit_and a b
more zero zero b h = sym (bit_and-bitwise 0 b)
more zero (suc a) b h = absurd (omega arith)
more (suc n) a b h = elim (Bool-cases (a == suc n)) [
  | inl e ↦
      subst (λ m. and_digits m a b ≡ bit_and a b) ((==_iff a (suc n)).0 e)
        (sym (bit_and-bitwise a b))
  | inr e ↦ enough n a b (ground arith) ∙ more n a b (ground arith)
]

and_zero : (b : ℕ) → bit_and 0 b ≡ 0
and_zero b = bit_and-bitwise 0 b

-- The lowest digit, and the others.
and_step : (a b : ℕ) → bit_and a b ≡ bit_and (a / 2) (b / 2) * 2 + min (a % 2) (b % 2)
and_step zero b = omega (arith, and_zero b, and_zero (b / 2))
and_step (suc a) b =
    bit_and-bitwise (suc a) b
    ∙ ap (λ r. r * 2 + min (suc a % 2) (b % 2)) (more a (suc a / 2) (b / 2) (omega arith))

pub bit_and_le : (n a b : ℕ) → a ≤ n → bit_and a b ≤ b
bit_and_le zero zero b h = omega (arith, and_zero b)
bit_and_le zero (suc a) b h = absurd (omega arith)
bit_and_le (suc n) zero b h = omega (arith, and_zero b)
bit_and_le (suc n) (suc a) b h =
    omega (arith, and_step (suc a) b, bit_and_le n (suc a / 2) (b / 2) (omega arith))

and_self : (n a : ℕ) → a ≤ n → bit_and a a ≡ a
and_self zero zero h = and_zero 0
and_self zero (suc a) h = absurd (omega arith)
and_self (suc n) zero h = and_zero 0
and_self (suc n) (suc a) h =
    omega (arith, and_step (suc a) (suc a), and_self n (suc a / 2) (omega arith))

-- A number with its lowest digit 1 made 0.
abbrev low : ℕ → ℕ
low x = bit_and x (x - 1)

same_and : (a b c d : ℕ) → a ≡ c → b ≡ d → bit_and a b ≡ bit_and c d
same_and a b c d p q = ap₂ bit_and p q

low-even : (y : ℕ) → 0 < y → low (2 * y) ≡ 2 * low y
low-even y h = omega (
  arith,
  and_step (2 * y) (2 * y - 1),
  same_and (2 * y / 2) ((2 * y - 1) / 2) y (y - 1) (omega arith) (omega arith),
)

low-odd : (y : ℕ) → low (2 * y + 1) ≡ 2 * y
low-odd y = omega (
  arith,
  and_step (2 * y + 1) (2 * y + 1 - 1),
  and_self y y (omega arith),
  same_and ((2 * y + 1) / 2) ((2 * y + 1 - 1) / 2) y (y) (omega arith) (omega arith),
)

-- The highest digit stays, and the number gets less.
low-between : (k x : ℕ) → 2 ^ k < x → x < 2 ^ (suc k) → (2 ^ k ≤ low x) × (low x < x)
low-between zero x p q = absurd (omega arith)
low-between (suc k) x p q = elim (Bool-cases (x % 2 == 0)) [
  | inl e ↦
      let (a, b) =
        low-between k (x / 2) (ground (arith, pow-suc 2 k))
          (ground (arith, pow-suc 2 k, pow-suc 2 (suc k))) in
      let t =
        subst (λ y. low y ≡ 2 * low (x / 2)) {x = 2 * (x / 2)} {y = x} (ground arith)
          (low-even (x / 2) (omega (arith, pow-suc 2 k))) in
      (omega (arith, pow-suc 2 k), ground arith)
  | inr e ↦
      let t =
        subst (λ y. low y ≡ 2 * (x / 2)) {x = 2 * (x / 2) + 1} {y = x} (ground arith)
          (low-odd (x / 2)) in
      (ground (arith, pow-suc 2 k), ground arith)
]

low-power : (k : ℕ) → low (2 ^ k) ≡ 0
low-power zero = and_step 1 0 ∙ omega (arith, and_zero 0)
low-power (suc k) =
    subst (λ y. low y ≡ 2 * low (2 ^ k)) {x = 2 * 2 ^ k} {y = 2 ^ suc k}
      (omega (arith, pow-suc 2 k)) (low-even (2 ^ k) (one-le-pow k 2 (omega arith)))
    ∙ omega (arith, low-power k)

turn_off_low : (x : ℕ) → 0 < x → x < 2 ^ 32 → turn_off_least_1bit x ≡ low x
unfolding turn_off_least_1bit
turn_off_low x p q = ap (bit_and x) (omega arith)

-- The loop ends at the highest digit.
shrink_power : (f k x : ℕ) → 2 ^ k ≤ x → x < 2 ^ suc k → x < 2 ^ 32 → x ≤ f → shrink f x ≡ 2 ^ k
unfolding shrink is_power_of_2
shrink_power zero k x p q r h = absurd (omega (arith, one-le-pow k 2))
shrink_power (suc f) k x p q r h = elim (Bool-cases (x == 2 ^ k)) [
  | inl e ↦
      if_of_true (is_power_of_2 x) _ _ (ground (arith, one-le-pow k 2, turn_off_low x, at_power e))
      ∙ (==_iff x (2 ^ k)).0 e
  | inr e ↦
      let (a, b) = low-between k x (ground arith) q in
      let t = turn_off_low x (omega (arith, one-le-pow k 2)) r in
      if_of_false (is_power_of_2 x) _ _ (ground (arith, one-le-pow k 2))
      ∙ shrink_power f k (turn_off_least_1bit x) (omega arith) (omega arith) (omega arith)
          (omega arith)
]
  where
    at_power : (x == 2 ^ k) ≡ true → low x ≡ 0
    at_power e = subst (λ y. low y ≡ 0) (sym ((==_iff x (2 ^ k)).0 e)) (low-power k)

highest_digit : (x : ℕ) → 0 < x → (k : ℕ) × (2 ^ k ≤ x) × (x < 2 ^ suc k)
highest_digit zero h = absurd (omega arith)
highest_digit (suc zero) h = (0, omega arith, omega arith)
highest_digit (suc (suc x)) h =
    let (k, p, q) = highest_digit (suc x) (omega arith) in
    elim (Bool-cases (ltb (suc (suc x)) (2 ^ suc k))) [
      | inl e ↦ (k, omega arith, ground arith)
      | inr e ↦
          (suc k, ground arith, ground (arith, pow-suc 2 (suc k), one-le-pow k 2, pow-suc 2 k))
    ]

-- The number of buckets that the ideal is rounded from.
abbrev pub wanted : ℕ → ℕ
wanted elem_cnt = if ltb (elem_cnt / 2) 4 then 4 else elem_cnt / 2

-- For fewer than 2^32 elements the loop of rehash() ends at the greatest power of two that is not
-- above half the number of elements, or four if that is more.
pub ideal_bucket_cnt_power :
    (elem_cnt : ℕ)
    → elem_cnt < 2 ^ 32
    → (k : ℕ) × (ideal_bucket_cnt elem_cnt ≡ 2 ^ k)
      × (2 ^ k ≤ wanted elem_cnt)
      × (wanted elem_cnt < 2 ^ suc k)
unfolding ideal_bucket_cnt
ideal_bucket_cnt_power elem_cnt h =
    let (k, p, q) = highest_digit (wanted elem_cnt) (ground arith) in
    (k, shrink_power (wanted elem_cnt) k (wanted elem_cnt) p q (ground arith) (omega arith), p, q)
