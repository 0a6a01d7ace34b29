-- ===== src/KernelList/Fallible.antt =====
-- list_sort() of lib/kernel/list.c with a comparison that can fail an assertion of its own, as that
-- of the waiters of a condition can: each call of `less` is a step that the sort does not survive.
-- The calls are those of find_end_of_run() and inplace_merge(), in their order.
pub mod Outcome
use pint_os_assignment.Common.{
  ℕ, zero, suc, Bool, true, false, List, [], ◌∷◌, ◌++◌, ltb, if◌then◌else◌, length, Result, ok,
  ◌>>=◌,
}

module _ {ℓ} {A : Type ℓ} (less : A → A → Result Bool) where
  pub end_of_run : A → List A → Result (List A × List A)
  end_of_run x [] = ok ([], [])
  end_of_run x (y ∷ ys) =
      let further = (do (run, rest) ← end_of_run y ys; ok (y ∷ run, rest)) in
      do descent ← less y x; if descent then ok ([], y ∷ ys) else further

  pub merge : List A → List A → Result (List A)
  merge [] ys = ok ys
  merge (x ∷ xs) [] = ok (x ∷ xs)
  merge (x ∷ xs) (y ∷ ys) =
      let second = (do out ← merge (x ∷ xs) ys; ok (y ∷ out)) in
      let first = (do out ← merge xs (y ∷ ys); ok (x ∷ out)) in
      do before ← less y x; if before then second else first

  pub merge_two : A → List A → List A → (List A → Result (List A × ℕ)) → Result (List A × ℕ)
  merge_two x run [] pass = ok (x ∷ run, 1)
  merge_two x run (y ∷ ys) pass = do
    (run', rest) ← end_of_run y ys
    merged ← merge (x ∷ run) (y ∷ run')
    (out, runs) ← pass rest
    ok (merged ++ out, suc runs)

  pub pass : ℕ → List A → Result (List A × ℕ)
  unfolding merge_two
  pass zero l = ok (l, 0)
  pass (suc f) [] = ok ([], 0)
  pass (suc f) (x ∷ xs) = do (run, rest) ← end_of_run x xs; merge_two x run rest (pass f)

  pub passes : ℕ → List A → Result (List A)
  passes zero l = ok l
  passes (suc f) l = do
    (out, runs) ← pass (length l) l
    let again = passes f out
    if ltb 1 runs then again else ok out

  unfoldable pub sort : List A → Result (List A)
  unfolding passes pass merge merge_two end_of_run
  sort l = passes (length l) l
