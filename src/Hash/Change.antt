-- ===== src/Hash/Change.antt =====
-- An element of lib/kernel/hash.c put in a bucket, or taken out of it.
use pint_os_assignment.Common.{
  ℕ, ◌+◌, ◌-◌, ◌%◌, ◌^◌, ◌<◌, ◌≤◌, ◌≡◌, refl, sym, ap, ◌∙◌, subst, Bool, true, false, false≢true,
  ◌&&◌, List, ◌∷◌, arith, count, length, ◌==◌, ==_iff, if◌then◌else◌, update, inl, inr, Bool-cases,
  if_of_true,
}
use pint_os_assignment.KernelList.{list_push_front, list_remove}
use pint_os_assignment.KernelList.Count.{count-remove}
use pint_os_assignment.Hash.{Hash, size_pred, find_bucket, same, insert_elem, remove_elem, rehash}
use pint_os_assignment.Hash.Sums.{sum, sum-change, length-remove, remove-absent}
use pint_os_assignment.Hash.Sound.{IsSound, occurs, total, find_bucket_in, same_sym}
use pint_os_assignment.Hash.Moves.{rehash-IsRehashed}

-- A table in order with elements added and taken away.
pub record IsChanged (h h' : Hash) (amount : ℕ → ℕ) : Type 0 where
  pub sound : IsSound h'
  pub amounts : (x : ℕ) → occurs h' x ≡ amount x
  pub less_kept : h'.less ≡ h.less

abbrev pub one_at : ℕ → ℕ → ℕ
one_at e x = if e == x then 1 else 0

-- A table with other elements in its buckets.
abbrev with_buckets : Hash → ℕ → (ℕ → List ℕ) → Hash
with_buckets h n nb = record h { elem_cnt = n; buckets = nb }

with_buckets-IsSound :
    (h : Hash) (n : ℕ) (nb : ℕ → List ℕ)
    → IsSound h
    → ((i x : ℕ) → i < h.bucket_cnt → 0 < count x (nb i) → find_bucket h x ≡ i)
    → ((x : ℕ) → count x (nb (find_bucket h x)) ≤ 1)
    → ((x y : ℕ)
        → 0 < count x (nb (find_bucket h x))
        → 0 < count y (nb (find_bucket h y))
        → same h x y ≡ true
        → x ≡ y)
    → n ≡ sum (λ i. length (nb i)) h.bucket_cnt 0
    → n < 2 ^ 32
    → IsSound (with_buckets h n nb)
unfolding find_bucket
with_buckets-IsSound h n nb v placed once distinct counted small = record {
  keyed = record {
    irreflexive = v.keyed.irreflexive;
    same_trans = v.keyed.same_trans;
    hash_same = v.keyed.hash_same;
  };
  some_bucket = v.some_bucket;
  bucket_small = v.bucket_small;
  placed = placed;
  once = once;
  distinct = distinct;
  counted = counted;
  small = small;
}

occurs-with_buckets :
    (h : Hash) (n : ℕ) (nb : ℕ → List ℕ) (x : ℕ)
    → occurs (with_buckets h n nb) x ≡ count x (nb (find_bucket h x))
unfolding find_bucket
occurs-with_buckets h n nb x = refl

module _ (h : Hash) (e : ℕ) where
  abbrev inserted : ℕ → List ℕ
  inserted = update h.buckets (find_bucket h e) (e ∷ h.buckets (find_bucket h e))

  count-inserted :
      (x i : ℕ)
      → count x (inserted i)
        ≡ count x (h.buckets i) + (if e == x && find_bucket h x == i then 1 else 0)
  count-inserted x i = elim (Bool-cases (e == x)) [
    | inl q ↦
        let p : find_bucket h e ≡ find_bucket h x = ap (find_bucket h) ((==_iff e x).0 q) in
        ground arith
    | inr q ↦ ground arith
  ]

  inserted_amount : (x : ℕ) → count x (inserted (find_bucket h x)) ≡ occurs h x + one_at e x
  inserted_amount x = count-inserted x (find_bucket h x) ∙ ground arith

  inserted-distinct :
      IsSound h
      → ((x : ℕ) → 0 < occurs h x → same h x e ≡ false)
      → (x y : ℕ) → 0 < count x (inserted (find_bucket h x))
      → 0 < count y (inserted (find_bucket h y))
      → same h x y ≡ true
      → x ≡ y
  inserted-distinct v new x y p q s = elim (Bool-cases (e == x)) [
    | inl a ↦ elim (Bool-cases (e == y)) [
      | inl b ↦ omega (arith, (==_iff e x).0 a, (==_iff e y).0 b)
      | inr b ↦ absurd (
          false≢true (
            sym (new y (ground (arith, inserted_amount y)))
            ∙ same_sym h e y (subst (λ z. same h z y ≡ true) (sym ((==_iff e x).0 a)) s)))
    ]
    | inr a ↦ elim (Bool-cases (e == y)) [
      | inl b ↦ absurd (
          false≢true (
            sym (new x (ground (arith, inserted_amount x)))
            ∙ subst (λ z. same h x z ≡ true) (sym ((==_iff e y).0 b)) s))
      | inr b ↦
          v.distinct x y (ground (arith, inserted_amount x)) (ground (arith, inserted_amount y)) s
    ]
  ]

  pub insert_elem-IsChanged :
      IsSound h
      → ((x : ℕ) → 0 < occurs h x → same h x e ≡ false)
      → h.elem_cnt + 1 < 2 ^ 32
      → IsChanged h (insert_elem h (find_bucket h e) e) (λ x. occurs h x + one_at e x)
  unfolding insert_elem list_push_front
  insert_elem-IsChanged v new small =
      let n = (h.elem_cnt + 1) % 2 ^ 32 in
      let b = find_bucket h e in
      record {
        sound =
            with_buckets-IsSound h n inserted v
              (λ i x p q. elim (Bool-cases (e == x && find_bucket h x == i)) [
                | inl a ↦ ground arith
                | inr a ↦ v.placed i x p (ground (arith, count-inserted x i))
              ])
              (λ x. elim (Bool-cases (e == x)) [
                | inl a ↦ ground (arith, inserted_amount x, new e, v.keyed.irreflexive e)
                | inr a ↦ ground (arith, inserted_amount x, v.once x)
              ])
              (inserted-distinct v new)
              (omega (
                arith,
                v.counted,
                sum-change (λ i. length (h.buckets i)) (λ i. length (inserted i)) h.bucket_cnt 0 b
                    (omega arith) (omega (arith, find_bucket_in h e v.some_bucket v.bucket_small))
                    (λ k c d p. ground arith),
                ap length (if_of_true (b == b) (e ∷ h.buckets b) (h.buckets b) (ground arith)),
              ))
              (omega arith);
        amounts = λ x. occurs-with_buckets h n inserted x ∙ inserted_amount x;
        less_kept = refl;
      }

  abbrev removed : ℕ → List ℕ
  removed i = list_remove (h.buckets i) e

  removed_amount : (x : ℕ) → count x (removed (find_bucket h x)) ≡ occurs h x - one_at e x
  removed_amount x = count-remove (h.buckets (find_bucket h x)) e x

  removed_total :
      IsSound h → 0 < occurs h e → sum (λ i. length (removed i)) h.bucket_cnt 0 + 1 ≡ total h
  removed_total v o = omega (
    arith,
    sum-change (λ i. length (h.buckets i)) (λ i. length (removed i)) h.bucket_cnt 0
        (find_bucket h e) (omega arith)
        (omega (arith, find_bucket_in h e v.some_bucket v.bucket_small))
        (λ k c d p.
          ap length
            (remove-absent (h.buckets k) e (ground (arith, v.placed k e (omega arith), p)))),
    length-remove (h.buckets (find_bucket h e)) e o,
  )

  pub remove_elem-IsChanged :
      IsSound h → 0 < occurs h e → IsChanged h (remove_elem h e) (λ x. occurs h x - one_at e x)
  unfolding remove_elem
  remove_elem-IsChanged v o =
      let n = size_pred h.elem_cnt in
      record {
        sound =
            with_buckets-IsSound h n removed v
              (λ i x p q. v.placed i x p (omega (arith, count-remove (h.buckets i) e x)))
              (λ x. omega (arith, removed_amount x, v.once x))
              (λ x y p q.
                v.distinct x y (omega (arith, removed_amount x)) (omega (arith, removed_amount y)))
              (omega (arith, v.counted, v.small, removed_total v o)) (omega (arith, v.small));
        amounts = λ x. occurs-with_buckets h n removed x ∙ removed_amount x;
        less_kept = refl;
      }

  pub remove_elem_smaller : IsSound h → 0 < occurs h e → (remove_elem h e).elem_cnt + 1 ≡ h.elem_cnt
  unfolding remove_elem
  remove_elem_smaller v o = omega (arith, v.counted, v.small, removed_total v o)

-- rehash() after a change.
pub rehash-IsChanged :
    (memory : Bool) (h h' : Hash) (amount : ℕ → ℕ)
    → IsChanged h h' amount
    → IsChanged h (rehash memory h') amount
rehash-IsChanged memory h h' amount c =
    let r = rehash-IsRehashed memory h' c.sound in
    record {
      sound = r.sound;
      amounts = λ x. r.kept x ∙ c.amounts x;
      less_kept = r.less_kept ∙ c.less_kept;
    }
