-- ===== src/Hash/Find.antt =====
-- hash_find() of lib/kernel/hash.c.
use pint_os_assignment.Common.{
  ℕ, ◌<◌, ◌≡◌, refl, sym, ap, ◌∙◌, subst, true, false, false≢true, Option, none, some, List, [],
  ◌∷◌, arith, count, ◌==◌, ==_iff, inl, inr, Bool-cases, if_of_true, if_of_false,
}
use pint_os_assignment.Hash.{Hash, find_bucket, same, find_elem, hash_find}
use pint_os_assignment.Hash.Sound.{IsKeyed, IsSound, occurs}

-- What a search comes to.
pub data Looked (h : Hash) (e : ℕ) : Option ℕ → Type 0 where
  got : (x : ℕ) → 0 < occurs h x → same h x e ≡ true → Looked h e (some x)
  nothing : ((x : ℕ) → 0 < occurs h x → same h x e ≡ false) → Looked h e none

data InBucket (h : Hash) (l : List ℕ) (e : ℕ) (r : Option ℕ) : Type 0 where
  met : (x : ℕ) → r ≡ some x → 0 < count x l → same h x e ≡ true → InBucket h l e r
  unmet : r ≡ none → ((x : ℕ) → 0 < count x l → same h x e ≡ false) → InBucket h l e r

InBucket-cons :
    (h : Hash) (hi : ℕ) (l : List ℕ) (e : ℕ)
    → same h hi e ≡ false
    → InBucket h l e (find_elem h l e)
    → InBucket h (hi ∷ l) e (find_elem h (hi ∷ l) e)
unfolding find_elem
InBucket-cons h hi l e n (met x r c s) =
    met x (if_of_false (same h hi e) _ _ n ∙ r) (ground arith) s
InBucket-cons h hi l e n (unmet r f) = unmet (if_of_false (same h hi e) _ _ n ∙ r) (λ x c.
    elim (Bool-cases (hi == x)) [
      | inl p ↦ subst (λ y. same h y e ≡ false) ((==_iff hi x).0 p) n
      | inr p ↦ f x (ground arith)
    ])

find_elem-InBucket : (h : Hash) (l : List ℕ) (e : ℕ) → InBucket h l e (find_elem h l e)
unfolding find_elem
find_elem-InBucket h [] e = unmet refl (λ x c. absurd (omega arith))
find_elem-InBucket h (hi ∷ l) e = elim (Bool-cases (same h hi e)) [
  | inl s ↦ met hi (if_of_true (same h hi e) _ _ s) (ground arith) s
  | inr s ↦ InBucket-cons h hi l e s (find_elem-InBucket h l e)
]

-- Elements that are the same belong in one bucket.
pub same_bucket :
    (h : Hash) (x e : ℕ) → IsKeyed h → same h x e ≡ true → find_bucket h x ≡ find_bucket h e
unfolding find_bucket
same_bucket h x e k s = rw (k.hash_same x e s)

-- hash_find finds an element that is the same as the one asked for, or there is none in the table.
pub hash_find_correct : (h : Hash) (e : ℕ) → IsKeyed h → Looked h e (hash_find h e)
unfolding hash_find
hash_find_correct h e k = go (find_elem-InBucket h (h.buckets (find_bucket h e)) e)
  where
    go : {r : Option ℕ} → InBucket h (h.buckets (find_bucket h e)) e r → Looked h e r
    go (met x q c s) =
        subst (Looked h e) (sym q)
          (got x (subst (λ b. 0 < count x (h.buckets b)) (sym (same_bucket h x e k s)) c) s)
    go (unmet q f) = subst (Looked h e) (sym q) (
        nothing (λ x o. elim (Bool-cases (same h x e)) [
          | inl s ↦ absurd (
              false≢true
                (sym (f x (subst (λ b. 0 < count x (h.buckets b)) (same_bucket h x e k s) o)) ∙ s))
          | inr s ↦ s
        ]))

-- An element in the table is found by any that is the same.
pub hash_find_in : (h : Hash) (x : ℕ) → IsSound h → 0 < occurs h x → hash_find h x ≡ some x
hash_find_in h x v o = go (hash_find_correct h x v.keyed)
  where
    go : {r : Option ℕ} → Looked h x r → r ≡ some x
    go (got y p s) = ap some (v.distinct y x p o s)
    go (nothing f) = absurd (ground (arith, f x o, v.keyed.irreflexive x))

pub hash_find_absent :
    (h : Hash) (e : ℕ)
    → IsKeyed h
    → ((x : ℕ) → 0 < occurs h x → same h x e ≡ false)
    → hash_find h e ≡ none
hash_find_absent h e k f = go (hash_find_correct h e k)
  where
    go : {r : Option ℕ} → Looked h e r → r ≡ none
    go (got y p s) = absurd (false≢true (sym (f y p) ∙ s))
    go (nothing g) = refl
