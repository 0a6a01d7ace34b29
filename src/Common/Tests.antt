-- ===== src/Common/Tests.antt =====
-- Boolean tests on the native numbers, the conditional, and case splits that keep an equation.
use Prim.Native.Nat.{ℕ, ◌<◌, compare, Ordering}
use mathlib.Core.Path.{◌≡◌, refl}
use mathlib.Core.Logic.{◌↔◌, ◌⊎◌, inl, inr}
use mathlib.Core.Bool.{Bool, true, false}
use mathlib.Core.Option.{Option, none, some}
use native.Mathlib.Omega.{arith}

abbrev pub ltb : ℕ → ℕ → Bool
ltb a b = elim (compare a b) [ Ordering.lt ↦ true | _ ↦ false ]

abbrev pub leb : ℕ → ℕ → Bool
leb a b = elim (compare a b) [ Ordering.gt ↦ false | _ ↦ true ]

infix 50 ◌==◌
abbrev pub ◌==◌ : ℕ → ℕ → Bool
a == b = elim (compare a b) [ Ordering.eq ↦ true | _ ↦ false ]

infix 1 if◌then◌else◌
abbrev pub if◌then◌else◌ {ℓ} : {A : Type ℓ} → Bool → A → A → A
if true then x else y = x
if false then x else y = y

pub ltb→lt : (a b : ℕ) → ltb a b ≡ true → a < b
ltb→lt a b h = ground arith

pub lt→ltb : (a b : ℕ) → a < b → ltb a b ≡ true
lt→ltb a b h = ground arith

pub ==_iff : (a b : ℕ) → ((a == b) ≡ true) ↔ (a ≡ b)
==_iff a b = ground arith

pub ==_refl : (a : ℕ) → (a == a) ≡ true
==_refl a = ground arith

pub Bool-cases : (b : Bool) → (b ≡ true) ⊎ (b ≡ false)
Bool-cases true = inl refl
Bool-cases false = inr refl

pub Option-cases {ℓ} : {A : Type ℓ} (o : Option A) → (o ≡ none) ⊎ ((a : A) × (o ≡ some a))
Option-cases none = inl refl
Option-cases (some a) = inr (a, refl)

-- A map from addresses to objects, with one object written.
abbrev pub update {ℓ} : {A : Type ℓ} → (ℕ → A) → ℕ → A → ℕ → A
update f i a j = if i == j then a else f j

-- What a kernel function comes to: a value, or a failed assertion, PANIC or fault, or the end of
-- the fuel that a model of a loop is given.
pub data Result {ℓ} (A : Type ℓ) : Type ℓ where
  ok : A → Result A
  panic : Result A
  no_fuel : Result A

infixl 5 ◌>>=◌ ◌>>◌
abbrev pub ◌>>=◌ {ℓ κ} : {A : Type ℓ} {B : Type κ} → Result A → (A → Result B) → Result B
ok a >>= f = f a
panic >>= f = panic
no_fuel >>= f = no_fuel

abbrev pub ◌>>◌ {ℓ} : {B : Type ℓ} → Result (Unit {0}) → Result B → Result B
m >> k = m >>= λ _. k

-- The macro ASSERT of lib/debug.h.
abbrev pub assert : Bool → Result (Unit {0})
assert true = ok tt
assert false = panic

-- What an assertion of list.c makes of a missing element.
abbrev pub need {ℓ} : {A : Type ℓ} → Option A → Result A
need none = panic
need (some a) = ok a

pub assert_ok {ℓ} : {A : Type ℓ} (b : Bool) (r : Result A) → b ≡ true → (assert b >> r) ≡ r
assert_ok true r h = refl
assert_ok false r h = cc

-- Inversion of a successful bind.
pub >>=-eq-ok {ℓ κ} :
    {A : Type ℓ} {B : Type κ} (r : Result A) (g : A → Result B) {y : B}
    → (r >>= g) ≡ ok y
    → (x : A) × (r ≡ ok x) × (g x ≡ ok y)
>>=-eq-ok panic g e = cc
>>=-eq-ok no_fuel g e = cc
>>=-eq-ok (ok x) g e = (x, refl, e)

pub if_of_false {ℓ} : {A : Type ℓ} (b : Bool) (x y : A) → b ≡ false → (if b then x else y) ≡ y
if_of_false true x y h = cc
if_of_false false x y h = refl

pub if_of_true {ℓ} : {A : Type ℓ} (b : Bool) (x y : A) → b ≡ true → (if b then x else y) ≡ x
if_of_true true x y h = refl
if_of_true false x y h = cc

pub bind-eq {ℓ κ} :
    {A : Type ℓ} {B : Type κ} {m : Result A} {a : A} (f : A → Result B) → m ≡ ok a → (m >>= f) ≡ f a
bind-eq f e = rw e refl

pub ok_inj {ℓ} : {A : Type ℓ} (a b : A) → ok a ≡ ok b → a ≡ b
ok_inj a b e = cc

pub ok_pair {ℓ κ} :
    {A : Type ℓ} {B : Type κ} (a a' : A) (b b' : B)
    → ◌≡◌ {A = Result (A × B)} (ok (a, b)) (ok (a', b'))
    → (a ≡ a') × (b ≡ b')
ok_pair a a' b b' e = (cc, cc)
