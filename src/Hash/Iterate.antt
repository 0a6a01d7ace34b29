-- ===== src/Hash/Iterate.antt =====
-- hash_apply(), hash_first(), hash_next() and hash_clear() of lib/kernel/hash.c: every element is
-- visited once.
use pint_os_assignment.Common.{
  ℕ, zero, suc, ◌+◌, ◌-◌, ◌^◌, ◌<◌, ◌≤◌, ◌≡◌, refl, sym, ap, ◌∙◌, subst, Bool, true, false, Option,
  none, some, List, [], ◌∷◌, ◌++◌, arith, ltb, leb, count, length, get_elem?, inl, inr, Bool-cases,
  if_of_true, if_of_false,
}
use pint_os_assignment.Hash.{
  Hash, HashIterator, find_bucket, visit_buckets, hash_apply, hash_clear, hash_init, hash_first,
  next_from, hash_next,
}
use pint_os_assignment.Hash.Sums.{sum, sum-zero, count-append}
use pint_os_assignment.Hash.Sound.{IsKeyed, IsSound, occurs, find_bucket_in}
use pint_os_assignment.Hash.Moves.{sum-occurs}

-- What an iterator has not come to.
abbrev remaining : Hash → ℕ → List ℕ → List ℕ
remaining h bucket rest = rest ++ visit_buckets h.buckets (h.bucket_cnt - suc bucket) (suc bucket)

data Next (h : Hash) (left : List ℕ) (i : HashIterator) : Type 0 where
  further :
      (x : ℕ) (l : List ℕ)
      → left ≡ x ∷ l
      → i.elem ≡ some x
      → remaining h i.bucket i.rest ≡ l
      → i.bucket < h.bucket_cnt
      → Next h left i
  finished : left ≡ [] → i.elem ≡ none → Next h left i

visit-suc :
    (buckets : ℕ → List ℕ) (n i : ℕ)
    → 0 < n
    → visit_buckets buckets n i ≡ buckets i ++ visit_buckets buckets (n - 1) (suc i)
unfolding visit_buckets
visit-suc buckets zero i h = absurd (omega arith)
visit-suc buckets (suc n) i h = ap (λ m. buckets i ++ visit_buckets buckets m (suc i)) (omega arith)

visit-zero : (buckets : ℕ → List ℕ) (n i : ℕ) → n ≡ 0 → visit_buckets buckets n i ≡ []
unfolding visit_buckets
visit-zero buckets zero i h = refl
visit-zero buckets (suc n) i h = absurd (omega arith)

next_from-Next :
    (f : ℕ) (h : Hash) (bucket : ℕ) (l : List ℕ)
    → bucket < h.bucket_cnt
    → h.bucket_cnt ≤ f + suc bucket
    → Next h (remaining h bucket l) (next_from f h bucket l)
unfolding next_from
next_from-Next f h bucket (e ∷ l) p q = further e _ refl refl refl p
next_from-Next zero h bucket [] p q = finished (visit-zero _ _ _ (omega arith)) refl
next_from-Next (suc f) h bucket [] p q = elim (Bool-cases (leb h.bucket_cnt (suc bucket))) [
  | inl c ↦
      subst (Next h _) (sym (if_of_true (leb h.bucket_cnt (suc bucket)) _ _ c))
        (finished (visit-zero _ _ _ (ground arith)) refl)
  | inr c ↦ subst (Next h _) (sym (if_of_false (leb h.bucket_cnt (suc bucket)) _ _ c)) (
      subst (λ l. Next h l (next_from f h (suc bucket) (h.buckets (suc bucket))))
        (sym (
          visit-suc h.buckets (h.bucket_cnt - suc bucket) (suc bucket) (ground arith)
          ∙ ap (λ m. h.buckets (suc bucket) ++ visit_buckets h.buckets m (suc (suc bucket)))
              (omega arith)))
        (next_from-Next f h (suc bucket) (h.buckets (suc bucket)) (ground arith) (omega arith)))
]

-- The element after `n + 1` calls of hash_next().
abbrev pub element_after : Hash → ℕ → HashIterator → Option ℕ
element_after h zero i = (hash_next h i).elem
element_after h (suc n) i = element_after h n (hash_next h i)

Next-elem :
    (h : Hash) (left : List ℕ) (i : HashIterator) → Next h left i → i.elem ≡ get_elem? left 0
Next-elem h left i (further x l e a b c) = a ∙ ap (λ m. get_elem? m 0) (sym e)
Next-elem h left i (finished e a) = a ∙ ap (λ m. get_elem? m 0) (sym e)

later_elem :
    (h : Hash) (n : ℕ) (left : List ℕ) (i : HashIterator)
    → Next h left i
    → suc n ≤ length left
    → (i.bucket < h.bucket_cnt
        → n ≤ length (remaining h i.bucket i.rest)
        → element_after h n i ≡ get_elem? (remaining h i.bucket i.rest) n)
    → element_after h n i ≡ get_elem? left (suc n)
later_elem h n left i (further x l e a b c) q ih =
    ih c (omega (arith, ap length e, ap length b))
    ∙ ap (λ m. get_elem? m n) b
    ∙ ap (λ m. get_elem? m (suc n)) (sym e)
later_elem h n left i (finished e a) q ih = absurd (omega (arith, ap length e))

after-remaining :
    (h : Hash) (n : ℕ) (i : HashIterator)
    → i.bucket < h.bucket_cnt
    → n ≤ length (remaining h i.bucket i.rest)
    → element_after h n i ≡ get_elem? (remaining h i.bucket i.rest) n
unfolding hash_next
after-remaining h zero i p q =
    Next-elem h _ _ (next_from-Next h.bucket_cnt h i.bucket i.rest p (omega arith))
after-remaining h (suc n) i p q =
    later_elem h n _ (hash_next h i) (next_from-Next h.bucket_cnt h i.bucket i.rest p (omega arith))
      q (after-remaining h n (hash_next h i))

count-visit :
    (buckets : ℕ → List ℕ) (n i x : ℕ)
    → count x (visit_buckets buckets n i) ≡ sum (λ k. count x (buckets k)) n i
unfolding visit_buckets sum
count-visit buckets zero i x = refl
count-visit buckets (suc n) i x =
    count-append x (buckets i) (visit_buckets buckets n (suc i))
    ∙ omega (arith, count-visit buckets n (suc i) x)

-- On a table in order, hash_apply calls the action just once on every element of the table and on
-- nothing else, and hash_first and repeated hash_next give the same elements in the same order, and
-- then none.
pub hash_next-hash_apply :
    (h : Hash)
    → IsSound h
    → ((x : ℕ) → count x (hash_apply h) ≡ occurs h x)
      × ((n : ℕ)
          → n ≤ length (hash_apply h)
          → element_after h n (hash_first h) ≡ get_elem? (hash_apply h) n)
unfolding hash_apply hash_first
hash_next-hash_apply h v = (
  λ x. count-visit h.buckets h.bucket_cnt 0 x ∙ sum-occurs h x v,
  λ n p.
      let e = visit-suc h.buckets h.bucket_cnt 0 v.some_bucket in
      after-remaining h n (hash_first h) v.some_bucket (omega (arith, ap length e))
      ∙ ap (λ l. get_elem? l n) (sym e),
)

-- A table in order without elements.
pub record IsEmptied (h : Hash) : Type 0 where
  pub sound : IsSound h
  pub empty : (x : ℕ) → occurs h x ≡ 0

hash_clear-IsEmptied :
    (destructor : Bool) (h : Hash)
    → IsKeyed h
    → 0 < h.bucket_cnt
    → h.bucket_cnt < 2 ^ 32
    → IsEmptied (hash_clear destructor h).1
unfolding hash_clear find_bucket
hash_clear-IsEmptied destructor h k p q =
    let nothing_at = λ (x : ℕ).
      if_of_true (ltb (find_bucket h x) h.bucket_cnt) [] (h.buckets (find_bucket h x))
        (ground (arith, find_bucket_in h x p q)) in
    record {
      sound = record {
        keyed = record {
          irreflexive = k.irreflexive;
          same_trans = k.same_trans;
          hash_same = k.hash_same;
        };
        some_bucket = p;
        bucket_small = q;
        placed = λ i x r s. absurd (ground arith);
        once = λ x. omega (arith, ap (count x) (nothing_at x));
        distinct = λ x y r s. absurd (omega (arith, ap (count x) (nothing_at x)));
        counted = sym (sum-zero _ h.bucket_cnt 0 (λ i r s. ground arith));
        small = omega arith;
      };
      empty = λ x. ap (count x) (nothing_at x);
    }

-- hash_init, when it gets memory, makes a table in order without elements, whatever the memory of
-- the buckets held; hash_clear makes a table in order such a table again, and calls the destructor,
-- if there is one, just once on every element.
pub hash_init-hash_clear :
    (garbage : ℕ → List ℕ) (hash : ℕ → ℕ) (less : ℕ → ℕ → Bool)
    → IsKeyed (hash_init false garbage hash less).1
    → IsEmptied (hash_init true garbage hash less).1
      × ((destructor : Bool) (h : Hash)
          → IsSound h
          → IsEmptied (hash_clear destructor h).1
            × ((x : ℕ) → count x (hash_clear true h).0 ≡ occurs h x))
unfolding hash_init hash_clear hash_apply
hash_init-hash_clear garbage hash less k = (
  hash_clear-IsEmptied false _ k (omega arith) (omega arith),
  λ destructor h v. (
    hash_clear-IsEmptied destructor h v.keyed v.some_bucket v.bucket_small,
    λ x. (hash_next-hash_apply h v).0 x,
  ),
)
