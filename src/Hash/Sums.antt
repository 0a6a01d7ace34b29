-- ===== src/Hash/Sums.antt =====
-- Sums over the buckets of lib/kernel/hash.c.
use pint_os_assignment.Common.{
  ℕ, zero, suc, ◌+◌, ◌<◌, ◌≤◌, ◌≡◌, ◌≢◌, refl, ap, List, [], ◌∷◌, ◌++◌, arith, length, count, ◌==◌,
  ==_iff, inl, inr, Bool-cases,
}
use pint_os_assignment.KernelList.{list_remove}

-- `f i + … + f (i + n - 1)`
unfoldable pub sum : (ℕ → ℕ) → ℕ → ℕ → ℕ
sum f zero i = 0
sum f (suc n) i = f i + sum f n (suc i)

pub sum-same :
    (f g : ℕ → ℕ) (n i : ℕ) → ((k : ℕ) → i ≤ k → k < i + n → g k ≡ f k) → sum g n i ≡ sum f n i
unfolding sum
sum-same f g zero i h = refl
sum-same f g (suc n) i h = omega (
  arith,
  h i (omega arith) (omega arith),
  sum-same f g n (suc i) (λ k p q. h k (omega arith) (omega arith)),
)

-- One term is changed.
pub sum-change :
    (f g : ℕ → ℕ) (n i p : ℕ)
    → i ≤ p
    → p < i + n
    → ((k : ℕ) → i ≤ k → k < i + n → k ≢ p → g k ≡ f k)
    → sum g n i + f p ≡ sum f n i + g p
unfolding sum
sum-change f g zero i p a b h = absurd (omega arith)
sum-change f g (suc n) i p a b h = elim (Bool-cases (i == p)) [
  | inl e ↦
      let q : i ≡ p = (==_iff i p).0 e in
      omega (
        arith,
        ap f q,
        ap g q,
        sum-same f g n (suc i) (λ k c d. h k (omega arith) (omega arith) (omega arith)),
      )
  | inr e ↦ omega (
    arith,
    h i (omega arith) (omega arith) (ground arith),
    sum-change f g n (suc i) p (ground arith) (omega arith)
        (λ k c d. h k (omega arith) (omega arith)),
  )
]

pub sum-zero : (f : ℕ → ℕ) (n i : ℕ) → ((k : ℕ) → i ≤ k → k < i + n → f k ≡ 0) → sum f n i ≡ 0
unfolding sum
sum-zero f zero i h = refl
sum-zero f (suc n) i h = omega (
  arith,
  h i (omega arith) (omega arith),
  sum-zero f n (suc i) (λ k p q. h k (omega arith) (omega arith)),
)

-- All terms but one are zero.
pub sum-single :
    (f : ℕ → ℕ) (n i p : ℕ)
    → i ≤ p
    → p < i + n
    → ((k : ℕ) → i ≤ k → k < i + n → k ≢ p → f k ≡ 0)
    → sum f n i ≡ f p
unfolding sum
sum-single f zero i p a b h = absurd (omega arith)
sum-single f (suc n) i p a b h = elim (Bool-cases (i == p)) [
  | inl e ↦
      let q : i ≡ p = (==_iff i p).0 e in
      omega (
        arith,
        ap f q,
        sum-zero f n (suc i) (λ k c d. h k (omega arith) (omega arith) (omega arith)),
      )
  | inr e ↦ omega (
    arith,
    h i (omega arith) (omega arith) (ground arith),
    sum-single f n (suc i) p (ground arith) (omega arith)
        (λ k c d. h k (omega arith) (omega arith)),
  )
]

pub length-remove : (l : List ℕ) (e : ℕ) → 0 < count e l → length (list_remove l e) + 1 ≡ length l
unfolding list_remove
length-remove [] e h = absurd (omega arith)
length-remove (x ∷ l) e h = ground (arith, length-remove l e)

pub remove-absent : (l : List ℕ) (e : ℕ) → count e l ≡ 0 → list_remove l e ≡ l
unfolding list_remove
remove-absent [] e h = refl
remove-absent (x ∷ l) e h = ground (arith, remove-absent l e)

pub count-append : (x : ℕ) (l m : List ℕ) → count x (l ++ m) ≡ count x l + count x m
count-append x [] m = omega arith
count-append x (y ∷ l) m = omega (arith, count-append x l m)

pub count_le_length : (x : ℕ) (l : List ℕ) → count x l ≤ length l
count_le_length x [] = omega arith
count_le_length x (y ∷ l) = ground (arith, count_le_length x l)
