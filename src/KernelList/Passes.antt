-- ===== src/KernelList/Passes.antt =====
-- list_sort of lib/kernel/list.c: the passes over the list end, and what they return.
use pint_os_assignment.Common.{
  ℕ, zero, suc, ◌+◌, ◌≤◌, ◌≡◌, refl, ◌∙◌, Bool, true, ◌++◌, List, [], ◌∷◌, append-nil, append_assoc,
  ap, arith, inl, inr, Bool-cases, ltb, keep, keep-append, length, length-append,
}
use pint_os_assignment.KernelList.{
  find_end_of_run, inplace_merge, merge_pair, sort_pass, sort_passes, list_sort, is_sorted,
}
use pint_os_assignment.KernelList.Order.{IsOrder, equiv, runs, runs-append}
use pint_os_assignment.KernelList.Sort.{
  EndOfRun, find_end_of_run-EndOfRun, is_sorted-runs, inplace_merge-keep, inplace_merge-runs,
  inplace_merge_stable,
}

module _ {ℓ} {A : Type ℓ} {less : A → A → Bool} (o : IsOrder less) where
  -- What a pass with enough fuel makes of `l`: `out`, in `n` merged runs.
  pub record Passed (l out : List A) (n : ℕ) : Type ℓ where
    pub fewer : n + n ≤ runs less l + 1
    pub merged : runs less out ≤ n
    pub same : (p : A → Bool) → length (keep p out) ≡ length (keep p l)
    pub stable : (a : A) → keep (equiv less a) out ≡ keep (equiv less a) l

  keep-EndOfRun :
      (p : A → Bool) (x : A) (xs run rest : List A)
      → EndOfRun less x xs run rest
      → keep p (x ∷ xs) ≡ keep p (x ∷ run) ++ keep p rest
  keep-EndOfRun p x xs run rest e = rw (← e.split) (keep-append p (x ∷ run) rest)

  -- Two runs merged, before what the rest of the pass returns.
  merge-Passed :
      (x y : A) (xs ys run run' rest out : List A) (n : ℕ)
      → EndOfRun less x xs run (y ∷ ys)
      → EndOfRun less y ys run' rest
      → Passed rest out n
      → Passed (x ∷ xs) (inplace_merge less (x ∷ run) (y ∷ run') ++ out) (suc n)
  merge-Passed x y xs ys run run' rest out n e e' v = record {
    fewer = omega (arith, e.rest_runs, e'.rest_runs, v.fewer);
    merged = omega (
      arith,
      runs-append less (inplace_merge less (x ∷ run) (y ∷ run')) out,
      inplace_merge-runs o x y run run' e.run_sorted e'.run_sorted,
      v.merged,
    );
    same = λ p. omega (
      arith,
      ap length (keep-append p (inplace_merge less (x ∷ run) (y ∷ run')) out),
      length-append (keep p (inplace_merge less (x ∷ run) (y ∷ run'))) (keep p out),
      inplace_merge-keep less p (x ∷ run) (y ∷ run'),
      ap length (keep-EndOfRun p x xs run (y ∷ ys) e),
      length-append (keep p (x ∷ run)) (keep p (y ∷ ys)),
      ap length (keep-EndOfRun p y ys run' rest e'),
      length-append (keep p (y ∷ run')) (keep p rest),
      v.same p,
    );
    stable = λ a. cc (
      keep-append (equiv less a) (inplace_merge less (x ∷ run) (y ∷ run')) out,
      inplace_merge_stable o a x run (y ∷ run') e.run_sorted,
      keep-EndOfRun (equiv less a) x xs run (y ∷ ys) e,
      keep-EndOfRun (equiv less a) y ys run' rest e',
      v.stable a,
      append_assoc (keep (equiv less a) (x ∷ run)) (keep (equiv less a) (y ∷ run'))
          (keep (equiv less a) out),
    );
  }

  last-Passed : (x : A) (xs run : List A) → EndOfRun less x xs run [] → Passed (x ∷ xs) (x ∷ run) 1
  last-Passed x xs run e = record {
    fewer = omega (arith, e.rest_runs);
    merged = omega (arith, e.run_sorted);
    same = λ p. ap length (whole p);
    stable = λ a. whole (equiv less a);
  }
    where
      whole : (p : A → Bool) → keep p (x ∷ run) ≡ keep p (x ∷ xs)
      whole p = cc (keep-EndOfRun p x xs run [] e, append-nil (keep p (x ∷ run)))

  empty-Passed : Passed [] [] 0
  empty-Passed = record {
    fewer = omega arith;
    merged = omega arith;
    same = λ p. refl;
    stable = λ a. refl;
  }

  -- A round, where the pass over any shorter list is right.
  merge_pair-Passed :
      (f : ℕ) (x : A) (xs run rest : List A) (pass : List A → List A × ℕ)
      → EndOfRun less x xs run rest
      → length xs ≤ f
      → ((l : List A) → length l ≤ f → Passed l (pass l).0 (pass l).1)
      → let r = merge_pair less x run rest pass in Passed (x ∷ xs) r.0 r.1
  unfolding merge_pair
  merge_pair-Passed f x xs run [] pass e h ih = last-Passed x xs run e
  merge_pair-Passed f x xs run (y ∷ ys) pass e h ih =
      let e' = find_end_of_run-EndOfRun less y ys in
      let shorter : length (find_end_of_run less y ys).1 ≤ f = omega (
        arith,
        ap length e.split,
        length-append run (y ∷ ys),
        ap length e'.split,
        length-append (find_end_of_run less y ys).0 (find_end_of_run less y ys).1,
      ) in
      merge-Passed x y xs ys run (find_end_of_run less y ys).0 (find_end_of_run less y ys).1
        (pass (find_end_of_run less y ys).1).0 (pass (find_end_of_run less y ys).1).1 e e'
        (ih (find_end_of_run less y ys).1 shorter)

  pub sort_pass-Passed :
      (f : ℕ) (l : List A) → length l ≤ f → Passed l (sort_pass less f l).0 (sort_pass less f l).1
  unfolding sort_pass
  sort_pass-Passed zero [] h = empty-Passed
  sort_pass-Passed zero (x ∷ xs) h = absurd (omega arith)
  sort_pass-Passed (suc f) [] h = empty-Passed
  sort_pass-Passed (suc f) (x ∷ xs) h =
      merge_pair-Passed f x xs (find_end_of_run less x xs).0 (find_end_of_run less x xs).1
        (sort_pass less f) (find_end_of_run-EndOfRun less x xs) (omega arith)
        (λ l k. sort_pass-Passed f l k)

  -- What a sort makes of a list.
  pub record Sorted (l out : List A) : Type ℓ where
    pub one_run : runs less out ≤ 1
    pub same : (p : A → Bool) → length (keep p out) ≡ length (keep p l)
    pub stable : (a : A) → keep (equiv less a) out ≡ keep (equiv less a) l

  sort_passes-Sorted : (f : ℕ) (l : List A) → runs less l ≤ f → Sorted l (sort_passes less f l)
  unfolding sort_passes
  sort_passes-Sorted zero l h = record {
    one_run = omega arith;
    same = λ p. refl;
    stable = λ a. refl;
  }
  sort_passes-Sorted (suc f) l h =
      let v = sort_pass-Passed (length l) l (omega arith) in
      let out = (sort_pass less (length l) l).0 in
      elim (Bool-cases (ltb 1 (sort_pass less (length l) l).1)) [
        | inl more ↦
            let ih = sort_passes-Sorted f out (ground (arith, v.fewer, v.merged)) in
            rw more (record {
              one_run = ih.one_run;
              same = λ p. ih.same p ∙ v.same p;
              stable = λ a. ih.stable a ∙ v.stable a;
            })
        | inr done ↦
            rw done
              (record { one_run = ground (arith, v.merged); same = v.same; stable = v.stable })
      ]

  runs-le-length : (l : List A) → runs less l ≤ length l
  runs-le-length [] = omega arith
  runs-le-length (x ∷ []) = omega arith
  runs-le-length (x ∷ y ∷ l) = ground (arith, runs-le-length (y ∷ l))

  pub list_sort-Sorted : (l : List A) → Sorted l (list_sort less l)
  unfolding list_sort
  list_sort-Sorted l = sort_passes-Sorted (length l) l (runs-le-length l)

  -- For every strict weak order: list_sort returns the elements in order, so that its last
  -- assertion holds; of each predicate as many elements as before, so nothing is lost or doubled;
  -- and elements that are equivalent in the order they had.
  pub list_sort_correct :
      (l : List A)
      → (is_sorted less (list_sort less l) ≡ true)
        × ((p : A → Bool) → length (keep p (list_sort less l)) ≡ length (keep p l))
        × ((a : A) → keep (equiv less a) (list_sort less l) ≡ keep (equiv less a) l)
  list_sort_correct l =
      let v = list_sort-Sorted l in
      (is_sorted-runs less (list_sort less l) v.one_run, v.same, v.stable)
