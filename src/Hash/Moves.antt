-- ===== src/Hash/Moves.antt =====
-- rehash() of lib/kernel/hash.c: every element is moved to its new bucket.
use native.Mathlib.Nat.{one-le-pow}
use pint_os_assignment.Common.{
  ℕ, zero, suc, ◌+◌, ◌^◌, ◌<◌, ◌≤◌, ◌≡◌, refl, sym, ap, ◌∙◌, subst, Bool, false, not, List, [], ◌∷◌,
  arith, length, count, ◌==◌, ==_iff, if◌then◌else◌, update, inl, inr, Bool-cases, if_of_true,
  if_of_false,
}
use pint_os_assignment.KernelList.{list_push_front}
use pint_os_assignment.Hash.{Hash, find_bucket, ideal_bucket_cnt, move_bucket, move_buckets, rehash}
use pint_os_assignment.Hash.Power.{wanted, ideal_bucket_cnt_power}
use pint_os_assignment.Hash.Sums.{sum, sum-change, sum-single, sum-zero}
use pint_os_assignment.Hash.Sound.{IsSound, occurs, find_bucket_in}

count-move_bucket :
    (h : Hash) (nb : ℕ → List ℕ) (l : List ℕ) (y j : ℕ)
    → count y (move_bucket h nb l j)
      ≡ count y (nb j) + (if find_bucket h y == j then count y l else 0)
unfolding move_bucket list_push_front
count-move_bucket h nb [] y j = ground arith
count-move_bucket h nb (e ∷ l) y j =
    count-move_bucket h (update nb (find_bucket h e) (e ∷ nb (find_bucket h e))) l y j
    ∙ elim (Bool-cases (e == y)) [
      | inl q ↦
          subst
            (λ x.
              count y (update nb (find_bucket h x) (x ∷ nb (find_bucket h x)) j)
                + (if find_bucket h y == j then count y l else 0)
              ≡ count y (nb j) + (if find_bucket h y == j then count y (x ∷ l) else 0))
            (sym ((==_iff e y).0 q)) here
      | inr q ↦ elsewhere q
    ]
  where
    here :
        count y (update nb (find_bucket h y) (y ∷ nb (find_bucket h y)) j)
          + (if find_bucket h y == j then count y l else 0)
        ≡ count y (nb j) + (if find_bucket h y == j then count y (y ∷ l) else 0)
    here = ground arith

    elsewhere :
        (e == y) ≡ false
        → count y (update nb (find_bucket h e) (e ∷ nb (find_bucket h e)) j)
            + (if find_bucket h y == j then count y l else 0)
          ≡ count y (nb j) + (if find_bucket h y == j then count y (e ∷ l) else 0)
    elsewhere q = ground arith

count-move_buckets :
    (h : Hash) (old nb : ℕ → List ℕ) (n i y j : ℕ)
    → count y (move_buckets h old nb n i j)
      ≡ count y (nb j) + (if find_bucket h y == j then sum (λ k. count y (old k)) n i else 0)
unfolding move_buckets sum
count-move_buckets h old nb zero i y j = ground arith
count-move_buckets h old nb (suc n) i y j = ground (
  arith,
  count-move_buckets h old (move_bucket h nb (old i)) n (suc i) y j,
  count-move_bucket h nb (old i) y j,
)

module _ (h : Hash) (inside : (x : ℕ) → find_bucket h x < h.bucket_cnt) where
  length-move_bucket :
      (nb : ℕ → List ℕ) (l : List ℕ)
      → sum (λ j. length (move_bucket h nb l j)) h.bucket_cnt 0
        ≡ sum (λ j. length (nb j)) h.bucket_cnt 0 + length l
  unfolding move_bucket list_push_front
  length-move_bucket nb [] = omega arith
  length-move_bucket nb (e ∷ l) =
      let b = find_bucket h e in
      let next = update nb b (e ∷ nb b) in
      omega (
        arith,
        length-move_bucket next l,
        sum-change (λ j. length (nb j)) (λ j. length (next j)) h.bucket_cnt 0 b (omega arith)
            (omega (arith, inside e)) (λ k c d n. ground arith),
        ap length (if_of_true (b == b) (e ∷ nb b) (nb b) (ground arith)),
      )

  length-move_buckets :
      (old nb : ℕ → List ℕ) (n i : ℕ)
      → sum (λ j. length (move_buckets h old nb n i j)) h.bucket_cnt 0
        ≡ sum (λ j. length (nb j)) h.bucket_cnt 0 + sum (λ k. length (old k)) n i
  unfolding move_buckets sum
  length-move_buckets old nb zero i = omega arith
  length-move_buckets old nb (suc n) i = omega (
    arith,
    length-move_buckets old (move_bucket h nb (old i)) n (suc i),
    length-move_bucket nb (old i),
  )

-- What stands in all old buckets stands in its own.
pub sum-occurs :
    (h : Hash) (x : ℕ) → IsSound h → sum (λ k. count x (h.buckets k)) h.bucket_cnt 0 ≡ occurs h x
sum-occurs h x v =
    sum-single (λ k. count x (h.buckets k)) h.bucket_cnt 0 (find_bucket h x) (omega arith)
      (omega (arith, find_bucket_in h x v.some_bucket v.bucket_small))
      (λ k p q n. ground (arith, v.placed k x (omega arith), n))

-- The same elements in buckets that may be others.
pub record IsRehashed (h h' : Hash) : Type 0 where
  pub sound : IsSound h'
  pub kept : (x : ℕ) → occurs h' x ≡ occurs h x
  pub elem_cnt_kept : h'.elem_cnt ≡ h.elem_cnt
  pub less_kept : h'.less ≡ h.less

abbrev resized : Hash → ℕ → Hash
resized h n = record h { bucket_cnt = n }

abbrev moved : Hash → ℕ → Hash
moved h n = record h {
  bucket_cnt = n;
  buckets = move_buckets (resized h n) h.buckets (λ i. []) h.bucket_cnt 0;
}

moved-IsRehashed : (h : Hash) (n : ℕ) → IsSound h → 0 < n → n < 2 ^ 32 → IsRehashed h (moved h n)
unfolding move_buckets find_bucket
moved-IsRehashed h n v p q = record {
  sound = record {
    keyed = record {
      irreflexive = v.keyed.irreflexive;
      same_trans = v.keyed.same_trans;
      hash_same = v.keyed.hash_same;
    };
    some_bucket = p;
    bucket_small = q;
    placed = λ i x r s. ground (arith, where_is x i);
    once = λ x. omega (arith, stays x, v.once x);
    distinct = λ x y r s. v.distinct x y (omega (arith, stays x)) (omega (arith, stays y));
    counted =
        v.counted
        ∙ sym (
            length-move_buckets (resized h n) inside h.buckets (λ i. []) h.bucket_cnt 0
            ∙ omega (arith, sum-zero (λ j. 0) n 0 (λ k a b. refl)));
    small = v.small;
  };
  kept = stays;
  elem_cnt_kept = refl;
  less_kept = refl;
}
  where
    inside : (x : ℕ) → find_bucket (resized h n) x < n
    inside x = find_bucket_in (resized h n) x p q

    where_is :
        (x j : ℕ)
        → count x ((moved h n).buckets j)
          ≡ (if find_bucket (resized h n) x == j then occurs h x else 0)
    where_is x j =
        count-move_buckets (resized h n) h.buckets (λ i. []) h.bucket_cnt 0 x j
        ∙ ground (arith, sum-occurs h x v)

    stays : (x : ℕ) → occurs (moved h n) x ≡ occurs h x
    stays x =
        where_is x (find_bucket (resized h n) x)
        ∙ if_of_true (find_bucket (resized h n) x == find_bucket (resized h n) x) _ _ (ground arith)

-- rehash, whether it gets memory or not, keeps the table in order, and every element in it.
pub rehash-IsRehashed : (memory : Bool) (h : Hash) → IsSound h → IsRehashed h (rehash memory h)
unfolding rehash
rehash-IsRehashed memory h v =
    let (k, e, a, b) = ideal_bucket_cnt_power h.elem_cnt v.small in
    let n = ideal_bucket_cnt h.elem_cnt in
    elim (Bool-cases (n == h.bucket_cnt)) [
      | inl c ↦ subst (IsRehashed h) (sym (if_of_true (n == h.bucket_cnt) _ _ c)) same_table
      | inr c ↦
          subst (IsRehashed h) (sym (if_of_false (n == h.bucket_cnt) _ _ c))
            (elim (Bool-cases (not memory)) [
              | inl d ↦ subst (IsRehashed h) (sym (if_of_true (not memory) _ _ d)) same_table
              | inr d ↦ subst (IsRehashed h) (sym (if_of_false (not memory) _ _ d)) (
                  moved-IsRehashed h n v (omega (arith, one-le-pow k 2 (omega arith)))
                    (small_enough k e a))
            ])
    ]
  where
    same_table : IsRehashed h h
    same_table = record { sound = v; kept = λ x. refl; elem_cnt_kept = refl; less_kept = refl }

    small_enough :
        (k : ℕ)
        → ideal_bucket_cnt h.elem_cnt ≡ 2 ^ k
        → 2 ^ k ≤ wanted h.elem_cnt
        → ideal_bucket_cnt h.elem_cnt < 2 ^ 32
    small_enough k e a = ground (arith, v.small)
