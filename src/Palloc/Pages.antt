-- ===== src/Palloc/Pages.antt =====
-- Pages that palloc_get_multiple() of threads/palloc.c takes.
use pint_os_assignment.Common.{
  ℕ, ◌+◌, ◌*◌, ◌%◌, ◌^◌, ◌<◌, ◌≤◌, ◌≡◌, ◌≢◌, sym, ap, ◌∙◌, Bool, true, false, Option, none, some,
  arith, ◌==◌, ==_iff, Result, ok, panic, bind-eq, inl, inr, Bool-cases, if_of_true, if_of_false,
  subst,
}
use pint_os_assignment.Bitmap.{Bitmap, bitmap_error, bitmap_scan_and_flip}
use pint_os_assignment.Bitmap.Set.{IsSetTo}
use pint_os_assignment.Bitmap.Scan.{AllBits, Scanned, group, no_group}
use pint_os_assignment.Bitmap.Flip.{bitmap_scan_and_flip_correct}
use pint_os_assignment.Palloc.{Pools, Flags, pool_of, set_map, pgsize, palloc_get_multiple}

-- The pools are page-aligned, not at address 0, not too large, one behind the other, and in memory.
pub record IsPaged (ps : Pools) : Type 0 where
  pub kernel_aligned : ps.kernel_pool.base % 4096 ≡ 0
  pub user_aligned : ps.user_pool.base % 4096 ≡ 0
  pub kernel_start : 0 < ps.kernel_pool.base
  pub kernel_size : ps.kernel_pool.used_map.bit_cnt < bitmap_error
  pub user_size : ps.user_pool.used_map.bit_cnt < bitmap_error
  pub apart : ps.kernel_pool.base + 4096 * ps.kernel_pool.used_map.bit_cnt ≤ ps.user_pool.base
  pub in_memory : ps.user_pool.base + 4096 * ps.user_pool.used_map.bit_cnt ≤ 2 ^ 32

-- The pages that `idx` and `cnt` name in one pool are free in `ps`, and taken with `map`.
pub record IsTaken (ps : Pools) (user : Bool) (idx cnt : ℕ) (map : Bitmap) : Type 0 where
  pub fits : idx + cnt ≤ (pool_of ps user).used_map.bit_cnt
  pub were_free : AllBits (pool_of ps user).used_map idx cnt false
  pub taken : IsSetTo (pool_of ps user).used_map map idx cnt true

-- What palloc_get_multiple does: nothing for no pages; else it takes the first free pages in a row,
-- or returns the null pointer, or fails if the caller insists.
pub data Got (ps : Pools) (flags : Flags) (cnt : ℕ) : Result (Option ℕ × Pools) → Type 0 where
  nothing : cnt ≡ 0 → Got ps flags cnt (ok (none, ps))
  pages :
      (idx : ℕ) (map : Bitmap)
      → 0 < cnt
      → IsTaken ps flags.user idx cnt map
      → ((i : ℕ) → i < idx → ¬ AllBits (pool_of ps flags.user).used_map i cnt false)
      → Got ps flags cnt
          (ok (some ((pool_of ps flags.user).base + pgsize * idx), set_map ps flags.user map))
  none_free :
      0 < cnt
      → ((i : ℕ)
          → i + cnt ≤ (pool_of ps flags.user).used_map.bit_cnt
          → ¬ AllBits (pool_of ps flags.user).used_map i cnt false)
      → flags.asserts ≡ false
      → Got ps flags cnt (ok (none, set_map ps flags.user (pool_of ps flags.user).used_map))
  fails :
      0 < cnt
      → ((i : ℕ)
          → i + cnt ≤ (pool_of ps flags.user).used_map.bit_cnt
          → ¬ AllBits (pool_of ps flags.user).used_map i cnt false)
      → flags.asserts ≡ true
      → Got ps flags cnt panic

pub pool_size :
    (ps : Pools) (user : Bool) → IsPaged ps → (pool_of ps user).used_map.bit_cnt < bitmap_error
pool_size ps true v = v.user_size
pool_size ps false v = v.kernel_size

pool_in_memory :
    (ps : Pools) (user : Bool)
    → IsPaged ps
    → (pool_of ps user).base + 4096 * (pool_of ps user).used_map.bit_cnt ≤ 2 ^ 32
pool_in_memory ps true v = v.in_memory
pool_in_memory ps false v = omega (arith, v.apart, v.in_memory)

Got-of_scan :
    (ps : Pools) (flags : Flags) (cnt idx : ℕ) (map : Bitmap)
    → IsPaged ps
    → (cnt == 0) ≡ false
    → bitmap_scan_and_flip (pool_of ps flags.user).used_map 0 cnt false ≡ ok (idx, map)
    → Scanned (pool_of ps flags.user).used_map 0 cnt false idx
    → (idx ≡ bitmap_error → map ≡ (pool_of ps flags.user).used_map)
    → (idx ≢ bitmap_error → IsSetTo (pool_of ps flags.user).used_map map idx cnt true)
    → Got ps flags cnt (palloc_get_multiple ps flags cnt)
unfolding palloc_get_multiple
Got-of_scan ps flags cnt idx map v z e (group p q a first) same set =
    let ne : idx ≢ bitmap_error = λ h. omega (arith, pool_size ps flags.user v) in
    let c : 0 < cnt = ground arith in
    subst (Got ps flags cnt)
      (sym (
        if_of_false _ _ _ z
        ∙ bind-eq _ e
        ∙ if_of_false (idx == bitmap_error) _ _ (ground (arith, ne))
        ∙ ap (λ a. ok (some a, set_map ps flags.user map))
            (omega (arith, pool_in_memory ps flags.user v))))
      (pages idx map c (record { fits = q; were_free = a; taken = set ne })
        (λ i h. first i (omega arith) h))
Got-of_scan ps flags cnt idx map v z e (no_group p u) same set = elim (Bool-cases flags.asserts) [
  | inl y ↦
      subst (Got ps flags cnt)
        (sym (
          if_of_false _ _ _ z
          ∙ bind-eq _ e
          ∙ if_of_true (idx == bitmap_error) _ _ (ground (arith, p))
          ∙ if_of_true _ _ _ y))
        (fails (ground arith) (λ i h. u i (omega arith) h) y)
  | inr y ↦
      subst (Got ps flags cnt)
        (sym (
          if_of_false _ _ _ z
          ∙ bind-eq _ e
          ∙ if_of_true (idx == bitmap_error) _ _ (ground (arith, p))
          ∙ if_of_false _ _ _ y
          ∙ ap (λ m. ok (none, set_map ps flags.user m)) (same p)))
        (none_free (ground arith) (λ i h. u i (omega arith) h) y)
]

get_nothing :
    (ps : Pools) (flags : Flags) (cnt : ℕ)
    → (cnt == 0) ≡ true
    → Got ps flags cnt (palloc_get_multiple ps flags cnt)
unfolding palloc_get_multiple
get_nothing ps flags cnt z =
    subst (Got ps flags cnt) (sym (if_of_true _ _ _ z)) (nothing ((==_iff cnt 0).0 z))

-- With page-aligned pools one behind the other in memory, the first not at address 0, and of at
-- most 2^32 - 2 pages each, palloc_get_multiple takes the first free pages in a row, and marks them
-- and no others; with no such pages it returns the null pointer, or panics if the caller insists,
-- and changes no page; for no pages it returns the null pointer.
pub palloc_get_multiple_takes :
    (ps : Pools) (flags : Flags) (cnt : ℕ)
    → IsPaged ps
    → Got ps flags cnt (palloc_get_multiple ps flags cnt)
palloc_get_multiple_takes ps flags cnt v = elim (Bool-cases (cnt == 0)) [
  | inl z ↦ get_nothing ps flags cnt z
  | inr z ↦
      let (idx, map, e, s, same, set, start) =
        bitmap_scan_and_flip_correct (pool_of ps flags.user).used_map 0 cnt false (omega arith)
          (pool_size ps flags.user v) in
      Got-of_scan ps flags cnt idx map v z e s same set
]
