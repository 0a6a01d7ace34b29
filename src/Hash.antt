-- ===== src/Hash.antt =====
-- lib/kernel/hash.c: hash tables with chaining. An element is its address; the hash and the
-- comparison of elements are the client's. `memory` says whether malloc() gives new buckets.
pub mod Sums
pub mod Power
pub mod Sound
pub mod Moves
pub mod Find
pub mod Change
pub mod Update
pub mod Iterate
use Prim.Native.Nat.{bit_and}
use pint_os_assignment.Common.{
  ℕ, zero, suc, ◌+◌, ◌-◌, ◌/◌, ◌%◌, ◌^◌, Bool, true, false, not, ◌&&◌, Option, none, some, List, [],
  ◌∷◌, ◌++◌, ltb, leb, ◌==◌, if◌then◌else◌, update,
}
use pint_os_assignment.KernelList.{list_push_front, list_remove}

-- `struct hash`; the callbacks have the auxiliary data.
pub record Hash : Type 0 where
  pub elem_cnt : ℕ
  pub bucket_cnt : ℕ
  pub buckets : ℕ → List ℕ
  pub hash : ℕ → ℕ
  pub less : ℕ → ℕ → Bool

-- One less, in size_t.
abbrev pub size_pred : ℕ → ℕ
size_pred n = (n + (2 ^ 32 - 1)) % 2 ^ 32

-- The number of the bucket.
unfoldable pub find_bucket : Hash → ℕ → ℕ
find_bucket h e = bit_and (h.hash e) (size_pred h.bucket_cnt)

-- Neither element is less than the other.
abbrev pub same : Hash → ℕ → ℕ → Bool
same h a b = not (h.less a b) && not (h.less b a)

unfoldable pub find_elem : Hash → List ℕ → ℕ → Option ℕ
find_elem h [] e = none
find_elem h (hi ∷ l) e = if same h hi e then some hi else find_elem h l e

unfoldable pub turn_off_least_1bit : ℕ → ℕ
turn_off_least_1bit x = bit_and x (size_pred x)

unfoldable pub is_power_of_2 : ℕ → Bool
is_power_of_2 x = not (x == 0) && turn_off_least_1bit x == 0

-- The loop that turns bits off until one is left: `x` rounds are enough.
unfoldable pub shrink : ℕ → ℕ → ℕ
shrink zero x = x
shrink (suc f) x =
    let less_bits = shrink f (turn_off_least_1bit x) in if is_power_of_2 x then x else less_bits

abbrev pub best_elems_per_bucket : ℕ
best_elems_per_bucket = 2

unfoldable pub ideal_bucket_cnt : ℕ → ℕ
ideal_bucket_cnt elem_cnt =
    let n = elem_cnt / best_elems_per_bucket in let m = if ltb n 4 then 4 else n in shrink m m

-- The elements of an old bucket are moved, and those of all old buckets from `i` on.
unfoldable pub move_bucket : Hash → (ℕ → List ℕ) → List ℕ → ℕ → List ℕ
move_bucket h new_buckets [] = new_buckets
move_bucket h new_buckets (e ∷ l) =
    let b = find_bucket h e in
    move_bucket h (update new_buckets b (list_push_front (new_buckets b) e)) l

unfoldable pub move_buckets : Hash → (ℕ → List ℕ) → (ℕ → List ℕ) → ℕ → ℕ → ℕ → List ℕ
move_buckets h old_buckets new_buckets zero i = new_buckets
move_buckets h old_buckets new_buckets (suc n) i =
    move_buckets h old_buckets (move_bucket h new_buckets (old_buckets i)) n (suc i)

unfoldable pub rehash : Bool → Hash → Hash
rehash memory h =
    let new_bucket_cnt = ideal_bucket_cnt h.elem_cnt in
    let fresh : Hash = record h { bucket_cnt = new_bucket_cnt } in
    let moved : Hash = record fresh {
      buckets = move_buckets fresh h.buckets (λ i. []) h.bucket_cnt 0;
    } in
    if new_bucket_cnt == h.bucket_cnt then h else if not memory then h else moved

unfoldable pub insert_elem : Hash → ℕ → ℕ → Hash
insert_elem h bucket e = record h {
  elem_cnt = (h.elem_cnt + 1) % 2 ^ 32;
  buckets = update h.buckets bucket (list_push_front (h.buckets bucket) e);
}

-- The element is taken off the list that it stands in.
unfoldable pub remove_elem : Hash → ℕ → Hash
remove_elem h e = record h {
  elem_cnt = size_pred h.elem_cnt;
  buckets = λ i. list_remove (h.buckets i) e;
}

unfoldable pub hash_find : Hash → ℕ → Option ℕ
hash_find h e = find_elem h (h.buckets (find_bucket h e)) e

unfoldable pub insert_new : Option ℕ → Hash → ℕ → Hash
insert_new none h new = insert_elem h (find_bucket h new) new
insert_new (some old) h new = h

unfoldable pub hash_insert : Bool → Hash → ℕ → Option ℕ × Hash
hash_insert memory h new =
    let old = find_elem h (h.buckets (find_bucket h new)) new in
    (old, rehash memory (insert_new old h new))

unfoldable pub remove_old : Option ℕ → Hash → Hash
remove_old none h = h
remove_old (some old) h = remove_elem h old

unfoldable pub hash_replace : Bool → Hash → ℕ → Option ℕ × Hash
hash_replace memory h new =
    let bucket = find_bucket h new in
    let old = find_elem h (h.buckets bucket) new in
    (old, rehash memory (insert_elem (remove_old old h) bucket new))

unfoldable pub delete_found : Bool → Option ℕ → Hash → Hash
delete_found memory none h = h
delete_found memory (some found) h = rehash memory (remove_elem h found)

unfoldable pub hash_delete : Bool → Hash → ℕ → Option ℕ × Hash
hash_delete memory h e =
    let found = find_elem h (h.buckets (find_bucket h e)) e in (found, delete_found memory found h)

-- The elements that hash_apply() calls the action on, in their order.
unfoldable pub visit_buckets : (ℕ → List ℕ) → ℕ → ℕ → List ℕ
visit_buckets buckets zero i = []
visit_buckets buckets (suc n) i = buckets i ++ visit_buckets buckets n (suc i)

unfoldable pub hash_apply : Hash → List ℕ
hash_apply h = visit_buckets h.buckets h.bucket_cnt 0

-- With the elements that the destructor is called on, if there is one.
unfoldable pub hash_clear : Bool → Hash → List ℕ × Hash
hash_clear destructor h = (
  if destructor then visit_buckets h.buckets h.bucket_cnt 0 else [],
  record h { elem_cnt = 0; buckets = λ i. if ltb i h.bucket_cnt then [] else h.buckets i },
)

-- What is in the memory of the buckets at first is `garbage`.
unfoldable pub hash_init : Bool → (ℕ → List ℕ) → (ℕ → ℕ) → (ℕ → ℕ → Bool) → Bool × Hash
hash_init memory garbage hash less =
    let h : Hash = record {
      elem_cnt = 0;
      bucket_cnt = 4;
      buckets = garbage;
      hash = hash;
      less = less;
    } in
    if memory then (true, (hash_clear false h).1) else (false, h)

abbrev pub hash_size : Hash → ℕ
hash_size h = h.elem_cnt

abbrev pub hash_empty : Hash → Bool
hash_empty h = h.elem_cnt == 0

-- `struct hash_iterator`; `rest` is what follows the element in its bucket.
pub record HashIterator : Type 0 where
  pub bucket : ℕ
  pub rest : List ℕ
  pub elem : Option ℕ

unfoldable pub hash_first : Hash → HashIterator
hash_first h = record { bucket = 0; rest = h.buckets 0; elem = none }

-- The loop of hash_next(), which has fewer rounds than there are buckets.
unfoldable pub next_from : ℕ → Hash → ℕ → List ℕ → HashIterator
next_from f h bucket (e ∷ l) = record { bucket = bucket; rest = l; elem = some e }
next_from zero h bucket [] = record { bucket = bucket; rest = []; elem = none }
next_from (suc f) h bucket [] =
    let later = next_from f h (suc bucket) (h.buckets (suc bucket)) in
    if leb h.bucket_cnt (suc bucket)
    then record { bucket = suc bucket; rest = []; elem = none }
    else later

unfoldable pub hash_next : Hash → HashIterator → HashIterator
hash_next h i = next_from h.bucket_cnt h i.bucket i.rest
