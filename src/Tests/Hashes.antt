-- ===== src/Tests/Hashes.antt =====
-- A hash table of lib/kernel/hash.c with one element, and what happens to it.
use pint_os_assignment.Common.{
  ℕ, suc, ◌+◌, ◌-◌, ◌%◌, ◌^◌, ◌<◌, ◌≤◌, ◌≡◌, refl, sym, subst, true, ◌&&◌, none, some, [], ◌∷◌,
  arith, ltb, count, length, get_elem?, ◌==◌, if◌then◌else◌,
}
use pint_os_assignment.Hash.{
  Hash, find_bucket, ideal_bucket_cnt, rehash, hash_find, hash_insert, hash_replace, hash_delete,
  hash_apply, hash_first,
}
use pint_os_assignment.Hash.Sums.{sum}
use pint_os_assignment.Hash.Power.{wanted, ideal_bucket_cnt_power}
use pint_os_assignment.Hash.Sound.{IsKeyed, IsSound, occurs}
use pint_os_assignment.Hash.Moves.{IsRehashed, rehash-IsRehashed}
use pint_os_assignment.Hash.Find.{Looked}
use pint_os_assignment.Hash.Change.{IsChanged, one_at}
use pint_os_assignment.Hash.Update.{
  is_found, found_none, hash_insert_correct, hash_replace_correct, hash_delete_correct,
}
use pint_os_assignment.Hash.Iterate.{element_after, hash_next-hash_apply}

-- Elements are the same when their last two digits are.
abbrev table : Hash
table = record {
  elem_cnt = 1;
  bucket_cnt = 4;
  buckets = λ i. if i == 1 then 105 ∷ [] else [];
  hash = λ a. a % 100;
  less = λ a b. ltb (a % 100) (b % 100);
}

table-IsKeyed : IsKeyed table
table-IsKeyed = record {
  irreflexive = λ a. ground arith;
  same_trans = λ a b c p q. ground arith;
  hash_same = λ a b p. ground arith;
}

in_table : (i x : ℕ) → 0 < count x (table.buckets i) → (i ≡ 1) × (x ≡ 105)
in_table i x h = (ground arith, ground arith)

bucket_105 : find_bucket table 105 ≡ 1
unfolding find_bucket
bucket_105 = refl

table-IsSound : IsSound table
unfolding sum
table-IsSound = record {
  keyed = table-IsKeyed;
  some_bucket = omega arith;
  bucket_small = omega arith;
  placed = λ i x p q.
      let (e, d) = in_table i x q in
      subst (λ y. find_bucket table y ≡ i) (sym d) (omega (arith, bucket_105));
  once = λ x. ground arith;
  distinct =
      λ x y p q s. let (e, d) = in_table _ x p in let (e', d') = in_table _ y q in omega arith;
  counted = refl;
  small = omega arith;
}

-- 205 is the same as 105, and 7 is new.
hash_insert_correct_example :
    Looked table 7 (hash_insert true table 7).0
    × IsChanged table
        (hash_insert true table 7).1
        (λ x. occurs table x + (if found_none (hash_insert true table 7).0 && 7 == x then 1 else 0))
hash_insert_correct_example = hash_insert_correct true table 7 table-IsSound (omega arith)

hash_replace_correct_example :
    Looked table 205 (hash_replace true table 205).0
    × IsChanged table (hash_replace true table 205).1 (λ x.
      occurs table x - (if is_found (hash_replace true table 205).0 x then 1 else 0) + one_at 205 x)
    × (hash_find (hash_replace true table 205).1 205 ≡ some 205)
hash_replace_correct_example = hash_replace_correct true table 205 table-IsSound (omega arith)

hash_delete_correct_example :
    Looked table 205 (hash_delete true table 205).0
    × IsChanged table
        (hash_delete true table 205).1
        (λ x. occurs table x - (if is_found (hash_delete true table 205).0 x then 1 else 0))
    × (hash_find (hash_delete true table 205).1 205 ≡ none)
hash_delete_correct_example = hash_delete_correct true table 205 table-IsSound

hash_next-hash_apply_example :
    ((x : ℕ) → count x (hash_apply table) ≡ occurs table x)
    × ((n : ℕ)
        → n ≤ length (hash_apply table)
        → element_after table n (hash_first table) ≡ get_elem? (hash_apply table) n)
hash_next-hash_apply_example = hash_next-hash_apply table table-IsSound

rehash-IsRehashed_example : IsRehashed table (rehash true table)
rehash-IsRehashed_example = rehash-IsRehashed true table table-IsSound

ideal_bucket_cnt_power_example :
    (k : ℕ) × (ideal_bucket_cnt 50 ≡ 2 ^ k) × (2 ^ k ≤ wanted 50) × (wanted 50 < 2 ^ suc k)
ideal_bucket_cnt_power_example = ideal_bucket_cnt_power 50 (omega arith)
