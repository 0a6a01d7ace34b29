-- ===== src/Palloc/Free.antt =====
-- Pages of threads/palloc.c that are given back.
use pint_os_assignment.Common.{
  ℕ, ◌+◌, ◌-◌, ◌*◌, ◌/◌, ◌%◌, ◌<◌, ◌≡◌, ◌||◌, ◌∙◌, Bool, true, false, Option, some, arith, ◌==◌,
  Result, ok, bind-eq, assert_ok, if_of_true, if_of_false, subst, ok_pair,
}
use pint_os_assignment.Bitmap.{Bitmap, bitmap_all, bitmap_set_multiple}
use pint_os_assignment.Bitmap.Set.{bit, bitmap_set_multiple_correct}
use pint_os_assignment.Bitmap.Release.{bitmap_all_ok}
use pint_os_assignment.Palloc.{
  Pools, Flags, pool_of, set_map, pgsize, page_from_pool, palloc_get_multiple, free_in_pool,
  palloc_free_multiple,
}
use pint_os_assignment.Palloc.Pages.{
  IsPaged, IsTaken, Got, nothing, pages, none_free, fails, pool_size, palloc_get_multiple_takes,
}

-- Freeing the pages of a map in which they are taken.
given_back :
    (ps : Pools) (user : Bool) (idx cnt : ℕ) (map : Bitmap)
    → IsPaged ps
    → IsTaken ps user idx cnt map
    → (map' : Bitmap) × (bitmap_all map idx cnt ≡ ok true)
      × (bitmap_set_multiple map idx cnt false ≡ ok map')
      × ((i : ℕ) → bit map' i ≡ bit (pool_of ps user).used_map i)
given_back ps user idx cnt map v t =
    let w = pool_size ps user v in
    let (map', e, s) =
      bitmap_set_multiple_correct map idx cnt false (omega (arith, t.fits, t.taken.size))
        (omega (arith, w, t.taken.size)) in
    (
      map',
      bitmap_all_ok map idx cnt (omega (arith, t.fits, t.taken.size))
          (omega (arith, w, t.taken.size)) (λ i p q. ground (arith, t.taken.bits i)),
      e,
      λ i. ground (arith, s.bits i, t.taken.bits i, t.were_free i),
    )

free_in_pool_ok :
    (ps : Pools) (user : Bool) (page idx cnt : ℕ) (map' : Bitmap)
    → page / 4096 - (pool_of ps user).base / 4096 ≡ idx
    → bitmap_all (pool_of ps user).used_map idx cnt ≡ ok true
    → bitmap_set_multiple (pool_of ps user).used_map idx cnt false ≡ ok map'
    → free_in_pool ps user page cnt ≡ ok (set_map ps user map')
unfolding free_in_pool
free_in_pool_ok ps user page idx cnt map' h a e = rw h (bind-eq _ a ∙ bind-eq _ e)

pool_aligned : (ps : Pools) (user : Bool) → IsPaged ps → (pool_of ps user).base % 4096 ≡ 0
pool_aligned ps true v = v.user_aligned
pool_aligned ps false v = v.kernel_aligned

-- The pages that one pool gave go back to the same pool.
free_finds_pool :
    (ps : Pools) (user : Bool) (idx cnt : ℕ) (map : Bitmap)
    → IsPaged ps
    → 0 < cnt
    → IsTaken ps user idx cnt map
    → let page = (pool_of ps user).base + pgsize * idx in
      palloc_free_multiple (set_map ps user map) page cnt
      ≡ free_in_pool (set_map ps user map) user page cnt
unfolding palloc_free_multiple
free_finds_pool ps true idx cnt map v c t =
    let page = ps.user_pool.base + 4096 * idx in
    let ps' = set_map ps true map in
    assert_ok (page % 4096 == 0) _ (ground (arith, v.user_aligned))
    ∙ if_of_false ((page == 0) || (cnt == 0)) _ _ (ground (arith, v.kernel_start, v.apart))
    ∙ if_of_false (page_from_pool ps'.kernel_pool page) _ _
        (ground (arith, v.kernel_aligned, v.user_aligned, v.apart))
    ∙ if_of_true (page_from_pool ps'.user_pool page) _ _
        (ground (arith, v.user_aligned, t.fits, t.taken.size))
free_finds_pool ps false idx cnt map v c t =
    let page = ps.kernel_pool.base + 4096 * idx in
    let ps' = set_map ps false map in
    assert_ok (page % 4096 == 0) _ (ground (arith, v.kernel_aligned))
    ∙ if_of_false ((page == 0) || (cnt == 0)) _ _ (ground (arith, v.kernel_start))
    ∙ if_of_true (page_from_pool ps'.kernel_pool page) _ _
        (ground (arith, v.kernel_aligned, t.fits, t.taken.size))

free_taken :
    (ps : Pools) (user : Bool) (idx cnt : ℕ) (map : Bitmap)
    → IsPaged ps
    → 0 < cnt
    → IsTaken ps user idx cnt map
    → (map' : Bitmap) × (palloc_free_multiple
          (set_map ps user map)
          ((pool_of ps user).base + pgsize * idx)
          cnt
        ≡ ok (set_map ps user map'))
      × ((i : ℕ) → bit map' i ≡ bit (pool_of ps user).used_map i)
free_taken ps true idx cnt map v c t =
    let (map', a, e, s) = given_back ps true idx cnt map v t in
    (
      map',
      free_finds_pool ps true idx cnt map v c t
          ∙ free_in_pool_ok (set_map ps true map) true _ idx cnt map'
              (omega (arith, v.user_aligned)) a e,
      s,
    )
free_taken ps false idx cnt map v c t =
    let (map', a, e, s) = given_back ps false idx cnt map v t in
    (
      map',
      free_finds_pool ps false idx cnt map v c t
          ∙ free_in_pool_ok (set_map ps false map) false _ idx cnt map'
              (omega (arith, v.kernel_aligned)) a e,
      s,
    )

some_inj : (a b : ℕ) → some a ≡ some b → a ≡ b
some_inj a b e = cc

free-Got :
    (ps ps' : Pools) (flags : Flags) (cnt page : ℕ) (r : Result (Option ℕ × Pools))
    → IsPaged ps
    → 0 < cnt
    → Got ps flags cnt r
    → r ≡ ok (some page, ps')
    → (map' : Bitmap) × (palloc_free_multiple ps' page cnt ≡ ok (set_map ps flags.user map'))
      × ((i : ℕ) → bit map' i ≡ bit (pool_of ps flags.user).used_map i)
free-Got ps ps' flags cnt page r v c (nothing z) e = absurd (cc)
free-Got ps ps' flags cnt page r v c (pages idx map n t first) e =
    let (same, rest) = ok_pair _ _ _ _ e in
    let (map', f, s) = free_taken ps flags.user idx cnt map v c t in
    (
      map',
      subst (λ q. palloc_free_multiple q page cnt ≡ ok (set_map ps flags.user map')) rest
          (subst
            (λ a.
              palloc_free_multiple (set_map ps flags.user map) a cnt
              ≡ ok (set_map ps flags.user map'))
            (some_inj _ _ same) f),
      s,
    )
free-Got ps ps' flags cnt page r v c (none_free n a y) e = absurd (cc)
free-Got ps ps' flags cnt page r v c (fails n a y) e = absurd (cc)

-- With page-aligned pools one behind the other in memory, the first not at address 0, and of at
-- most 2^32 - 2 pages each, pages that palloc_get_multiple returned can be given back:
-- palloc_free_multiple finds their pool, fails no assertion, and leaves the pools with the same
-- pages free as before.
pub free-get_multiple :
    (ps ps' : Pools) (flags : Flags) (cnt page : ℕ)
    → IsPaged ps
    → 0 < cnt
    → palloc_get_multiple ps flags cnt ≡ ok (some page, ps')
    → (map' : Bitmap) × (palloc_free_multiple ps' page cnt ≡ ok (set_map ps flags.user map'))
      × ((i : ℕ) → bit map' i ≡ bit (pool_of ps flags.user).used_map i)
free-get_multiple ps ps' flags cnt page v c e =
    free-Got ps ps' flags cnt page _ v c (palloc_get_multiple_takes ps flags cnt v) e
