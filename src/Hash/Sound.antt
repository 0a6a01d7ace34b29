-- ===== src/Hash/Sound.antt =====
-- Hash tables of lib/kernel/hash.c that are in order, and what is in them.
use pint_os_assignment.Common.{ℕ, ◌^◌, ◌<◌, ◌≤◌, ◌≡◌, true, false, arith, length, count}
use pint_os_assignment.Hash.{Hash, size_pred, find_bucket, same}
use pint_os_assignment.Hash.Power.{bit_and_le}
use pint_os_assignment.Hash.Sums.{sum}

-- What a client's callbacks satisfy: being neither less nor greater is an equivalence that the hash
-- respects.
pub record IsKeyed (h : Hash) : Type 0 where
  pub irreflexive : (a : ℕ) → h.less a a ≡ false
  pub same_trans : (a b c : ℕ) → same h a b ≡ true → same h b c ≡ true → same h a c ≡ true
  pub hash_same : (a b : ℕ) → same h a b ≡ true → h.hash a ≡ h.hash b

-- How often an element stands in its bucket.
abbrev pub occurs : Hash → ℕ → ℕ
occurs h x = count x (h.buckets (find_bucket h x))

abbrev pub total : Hash → ℕ
total h = sum (λ i. length (h.buckets i)) h.bucket_cnt 0

-- Every element stands in its bucket, once, and no two are the same; they are counted.
pub record IsSound (h : Hash) : Type 0 where
  pub keyed : IsKeyed h
  pub some_bucket : 0 < h.bucket_cnt
  pub bucket_small : h.bucket_cnt < 2 ^ 32
  pub placed : (i x : ℕ) → i < h.bucket_cnt → 0 < count x (h.buckets i) → find_bucket h x ≡ i
  pub once : (x : ℕ) → occurs h x ≤ 1
  pub distinct : (x y : ℕ) → 0 < occurs h x → 0 < occurs h y → same h x y ≡ true → x ≡ y
  pub counted : h.elem_cnt ≡ total h
  pub small : h.elem_cnt < 2 ^ 32

pub same_sym : (h : Hash) (a b : ℕ) → same h a b ≡ true → same h b a ≡ true
same_sym h a b e = ground arith

pub find_bucket_in :
    (h : Hash) (x : ℕ) → 0 < h.bucket_cnt → h.bucket_cnt < 2 ^ 32 → find_bucket h x < h.bucket_cnt
unfolding find_bucket
find_bucket_in h x p q =
    omega (arith, bit_and_le (h.hash x) (h.hash x) (size_pred h.bucket_cnt) (omega arith))
