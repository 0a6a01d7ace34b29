-- ===== src/KernelList/Sort.antt =====
-- The steps of list_sort in lib/kernel/list.c: one run found, two runs merged.
use pint_os_assignment.Common.{
  ◌+◌, ◌≤◌, ◌≡◌, refl, Bool, true, false, ◌++◌, List, [], ◌∷◌, append-nil, arith, keep, length,
}
use pint_os_assignment.KernelList.{find_end_of_run, inplace_merge, is_sorted_from, is_sorted}
use pint_os_assignment.KernelList.Order.{
  IsOrder, All, equiv, descents, runs, All-of_descents, equiv_apart, keep-All-false,
}

module _ {ℓ} {A : Type ℓ} (less : A → A → Bool) where
  -- The run and the rest make up the list, the run has no descent, and a rest begins with one.
  pub record EndOfRun (x : A) (xs run rest : List A) : Type ℓ where
    pub split : run ++ rest ≡ xs
    pub run_sorted : descents less x run ≡ 0
    pub rest_runs : descents less x xs ≡ runs less rest

  pub find_end_of_run-EndOfRun :
      (x : A) (xs : List A)
      → EndOfRun x xs (find_end_of_run less x xs).0 (find_end_of_run less x xs).1
  unfolding find_end_of_run
  find_end_of_run-EndOfRun x [] = record { split = refl; run_sorted = refl; rest_runs = refl }
  find_end_of_run-EndOfRun x (y ∷ ys) = ground (arith, find_end_of_run-EndOfRun y ys)

  -- `is_sorted` tests that the list has no descent.
  is_sorted_from-descents :
      (x : A) (xs : List A) → descents less x xs ≡ 0 → is_sorted_from less x xs ≡ true
  unfolding is_sorted_from
  is_sorted_from-descents x [] h = refl
  is_sorted_from-descents x (y ∷ ys) h = ground (arith, is_sorted_from-descents y ys)

  pub is_sorted-runs : (l : List A) → runs less l ≤ 1 → is_sorted less l ≡ true
  unfolding is_sorted
  is_sorted-runs [] h = refl
  is_sorted-runs (x ∷ xs) h = is_sorted_from-descents x xs (omega arith)

  -- A merge keeps, of each predicate, as many elements as the two runs have.
  pub inplace_merge-keep :
      (p : A → Bool) (xs ys : List A)
      → length (keep p (inplace_merge less xs ys)) ≡ length (keep p xs) + length (keep p ys)
  unfolding inplace_merge
  inplace_merge-keep p [] ys = omega arith
  inplace_merge-keep p (x ∷ xs) [] = omega arith
  inplace_merge-keep p (x ∷ xs) (y ∷ ys) =
      ground (arith, inplace_merge-keep p (x ∷ xs) ys, inplace_merge-keep p xs (y ∷ ys))

module _ {ℓ} {A : Type ℓ} {less : A → A → Bool} (o : IsOrder less) where
  -- Merging two runs that an element `z` may stand before gives one such run.
  inplace_merge-descents :
      (z : A) (xs ys : List A)
      → descents less z xs ≡ 0
      → descents less z ys ≡ 0
      → descents less z (inplace_merge less xs ys) ≡ 0
  unfolding inplace_merge
  inplace_merge-descents z [] ys h k = k
  inplace_merge-descents z (x ∷ xs) [] h k = h
  inplace_merge-descents z (x ∷ xs) (y ∷ ys) h k = ground (
    arith,
    o.asym y x,
    inplace_merge-descents y (x ∷ xs) ys,
    inplace_merge-descents x xs (y ∷ ys),
  )

  pub inplace_merge-runs :
      (x y : A) (xs ys : List A)
      → descents less x xs ≡ 0
      → descents less y ys ≡ 0
      → runs less (inplace_merge less (x ∷ xs) (y ∷ ys)) ≡ 1
  unfolding inplace_merge
  inplace_merge-runs x y xs ys h k = ground (
    arith,
    o.asym y x,
    inplace_merge-descents y (x ∷ xs) ys,
    inplace_merge-descents x xs (y ∷ ys),
  )

  -- Where `y` comes strictly before a run, nothing equivalent to `y` stands in the run.
  run_apart :
      (a x y : A) (xs : List A)
      → less y x ≡ true
      → descents less x xs ≡ 0
      → equiv less a y ≡ true
      → keep (equiv less a) (x ∷ xs) ≡ []
  run_apart a x y xs h d e =
      keep-All-false (equiv less a) (x ∷ xs)
        (go (x ∷ xs) (All-of_descents o x x xs (ground (arith, o.asym x x)) d))
    where
      go : (l : List A) → All (λ z. less z x ≡ false) l → All (λ z. equiv less a z ≡ false) l
      go [] t = tt
      go (z ∷ l) t = (equiv_apart o a x y z h t.0 e, go l t.1)

  -- A merge is stable: equivalent elements stay in order, those of the first run first.
  pub inplace_merge_stable :
      (a x : A) (xs ys : List A)
      → descents less x xs ≡ 0
      → keep (equiv less a) (inplace_merge less (x ∷ xs) ys)
        ≡ keep (equiv less a) (x ∷ xs) ++ keep (equiv less a) ys
  unfolding inplace_merge
  inplace_merge_stable a x [] [] d = ground (arith, append-nil (keep (equiv less a) (x ∷ [])))
  inplace_merge_stable a x (z ∷ xs) [] d =
      ground (arith, append-nil (keep (equiv less a) (x ∷ z ∷ xs)))
  inplace_merge_stable a x [] (y ∷ ys) d =
      ground (arith, inplace_merge_stable a x [] ys d, run_apart a x y [])
  inplace_merge_stable a x (z ∷ xs) (y ∷ ys) d = ground (
    arith,
    inplace_merge_stable a x (z ∷ xs) ys d,
    inplace_merge_stable a z xs (y ∷ ys),
    run_apart a x y (z ∷ xs),
  )
