-- ===== src/KernelList/Order.antt =====
-- What list.c needs of the comparison that it is given, and the number of descents of a list.
use pint_os_assignment.Common.{
  ℕ, suc, ◌+◌, ◌≤◌, ◌≡◌, refl, Bool, true, false, not, ◌&&◌, ◌++◌, List, [], ◌∷◌, arith, ltb,
  if◌then◌else◌, keep,
}

-- The comparison is a strict weak order.
pub record IsOrder {ℓ} {A : Type ℓ} (less : A → A → Bool) : Type ℓ where
  pub asym : (x y : A) → less x y ≡ true → less y x ≡ false
  pub negtrans : (x y z : A) → less x y ≡ false → less y z ≡ false → less x z ≡ false

-- `All P l`: every element of `l` meets `P`.
abbrev pub All {ℓ κ} : {A : Type ℓ} → (A → Type κ) → List A → Type κ
All P [] = Unit
All P (x ∷ xs) = P x × All P xs

module _ {ℓ} {A : Type ℓ} (less : A → A → Bool) where
  -- Neither is less than the other.
  abbrev pub equiv : A → A → Bool
  equiv x y = not (less x y) && not (less y x)

  -- The number of places after `x` where an element is less than the one before it.
  abbrev pub descents : A → List A → ℕ
  descents x [] = 0
  descents x (y ∷ ys) = (if less y x then 1 else 0) + descents y ys

  -- The number of runs: maximal stretches with no descent.
  abbrev pub runs : List A → ℕ
  runs [] = 0
  runs (x ∷ xs) = suc (descents x xs)

  pub descents-le-runs : (x : A) (ys : List A) → descents x ys ≤ runs ys
  descents-le-runs x [] = omega arith
  descents-le-runs x (y ∷ ys) = ground arith

  pub descents-append : (x : A) (xs ys : List A) → descents x (xs ++ ys) ≤ descents x xs + runs ys
  descents-append x [] ys = omega (arith, descents-le-runs x ys)
  descents-append x (z ∷ xs) ys = ground (arith, descents-append z xs ys)

  pub runs-append : (xs ys : List A) → runs (xs ++ ys) ≤ runs xs + runs ys
  runs-append [] ys = omega arith
  runs-append (x ∷ xs) ys = omega (arith, descents-append x xs ys)

module _ {ℓ} {A : Type ℓ} {less : A → A → Bool} (o : IsOrder less) where
  -- In a list with no descent, the first element is a least one.
  pub All-of_descents :
      (z x : A) (xs : List A)
      → less x z ≡ false
      → descents less x xs ≡ 0
      → All (λ y. less y z ≡ false) (x ∷ xs)
  All-of_descents z x [] h d = (h, tt)
  All-of_descents z x (y ∷ ys) h d =
      (h, All-of_descents z y ys (o.negtrans y x z (ground arith) h) (ground arith))

  -- An element before which `y` comes strictly is not equivalent to anything equivalent to `y`.
  pub equiv_apart :
      (a x y z : A)
      → less y x ≡ true
      → less z x ≡ false
      → equiv less a y ≡ true
      → equiv less a z ≡ false
  equiv_apart a x y z h k e = ground (arith, o.negtrans y a z, o.negtrans y z x)

-- An order by a number, the largest first.
pub greater-IsOrder {ℓ} : {A : Type ℓ} (key : A → ℕ) → IsOrder (λ (x y : A). ltb (key y) (key x))
greater-IsOrder key = record { asym = λ x y h. ground arith; negtrans = λ x y z h k. ground arith }

-- An order by a number, the smallest first.
pub smaller-IsOrder {ℓ} : {A : Type ℓ} (key : A → ℕ) → IsOrder (λ (x y : A). ltb (key x) (key y))
smaller-IsOrder key = record { asym = λ x y h. ground arith; negtrans = λ x y z h k. ground arith }

-- Nothing is kept where the test fails throughout.
pub keep-All-false {ℓ} :
    {A : Type ℓ} (p : A → Bool) (l : List A) → All (λ x. p x ≡ false) l → keep p l ≡ []
keep-All-false p [] h = refl
keep-All-false p (x ∷ xs) h = ground (arith, keep-All-false p xs h.1)

pub All-false-keep {ℓ} :
    {A : Type ℓ} (p : A → Bool) (l : List A) → keep p l ≡ [] → All (λ x. p x ≡ false) l
All-false-keep p [] h = tt
All-false-keep p (x ∷ xs) h = ground (arith, All-false-keep p xs)
