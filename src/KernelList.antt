-- ===== src/KernelList.antt =====
-- lib/kernel/list.c: the doubly linked list, seen as the sequence of its interior elements, front
-- first. A function that the C code gives an element and an end takes the elements between them.
-- `less` is the comparison that the caller passes with its auxiliary data.
pub mod Order
pub mod Sort
pub mod Passes
pub mod Insert
pub mod Front
pub mod Count
pub mod Extremes
pub mod Fallible
use pint_os_assignment.Common.{
  ℕ, zero, suc, ◌≡◌, Bool, true, false, not, ◌&&◌, Option, none, some, List, [], ◌∷◌, ◌++◌, ltb,
  ◌==◌, if◌then◌else◌, length,
}

module _ {ℓ} {A : Type ℓ} where
  unfoldable pub list_push_front : List A → A → List A
  list_push_front l e = e ∷ l

  unfoldable pub list_push_back : List A → A → List A
  list_push_back l e = l ++ (e ∷ [])

  -- The front element and the list without it; `none` is the failed assertion of `list_front`.
  unfoldable pub list_pop_front : List A → Option (A × List A)
  list_pop_front [] = none
  list_pop_front (x ∷ xs) = some (x, xs)

  unfoldable pub list_front : List A → Option A
  list_front [] = none
  list_front (x ∷ xs) = some x

  unfoldable pub list_empty : List A → Bool
  list_empty [] = true
  list_empty (x ∷ xs) = false

-- Elements of kernel objects stand in lists by the object's address; removing one takes it out of
-- the list that it is in. (On an element that is in no list the C code is undefined.)
unfoldable pub list_remove : List ℕ → ℕ → List ℕ
list_remove [] e = []
list_remove (x ∷ xs) e = if x == e then xs else x ∷ list_remove xs e

module _ {ℓ} {A : Type ℓ} (less : A → A → Bool) where
  -- The loop of `is_sorted`: `x` is the element before those that remain.
  unfoldable pub is_sorted_from : A → List A → Bool
  is_sorted_from x [] = true
  is_sorted_from x (y ∷ ys) = let rest = is_sorted_from y ys in if less y x then false else rest

  unfoldable pub is_sorted : List A → Bool
  unfolding is_sorted_from
  is_sorted [] = true
  is_sorted (x ∷ xs) = is_sorted_from x xs

  -- The run that starts at `x`, less `x` itself, and what follows it.
  pub find_end_of_run : A → List A → List A × List A
  find_end_of_run x [] = ([], [])
  find_end_of_run x (y ∷ ys) =
      let (run, rest) = find_end_of_run y ys in if less y x then ([], y ∷ ys) else (y ∷ run, rest)

  -- Moves the front of the second run before the front of the first while it is less.
  pub inplace_merge : List A → List A → List A
  inplace_merge [] ys = ys
  inplace_merge (x ∷ xs) [] = x ∷ xs
  inplace_merge (x ∷ xs) (y ∷ ys) = elim (less y x) [
    | true ↦ y ∷ inplace_merge (x ∷ xs) ys
    | false ↦ x ∷ inplace_merge xs (y ∷ ys)
  ]

  -- The rest of a round of `list_sort` whose first run is `x ∷ run`: the last run is left as it is,
  -- else the next one is merged into it and the pass goes on.
  pub merge_pair : A → List A → List A → (List A → List A × ℕ) → List A × ℕ
  merge_pair x run [] pass = (x ∷ run, 1)
  merge_pair x run (y ∷ ys) pass =
      let (run', rest) = find_end_of_run y ys in
      let (out, runs) = pass rest in (inplace_merge (x ∷ run) (y ∷ run') ++ out, suc runs)

  -- One pass of `list_sort`, with `output_run_cnt`. Each round takes at least one element, so the
  -- length of the list is enough fuel.
  pub sort_pass : ℕ → List A → List A × ℕ
  unfolding merge_pair
  sort_pass zero l = (l, 0)
  sort_pass (suc f) [] = ([], 0)
  sort_pass (suc f) (x ∷ xs) =
      let (run, rest) = find_end_of_run x xs in merge_pair x run rest (sort_pass f)

  -- The passes of `list_sort`. Each but the last at least halves the number of runs.
  pub sort_passes : ℕ → List A → List A
  sort_passes zero l = l
  sort_passes (suc f) l =
      let (out, runs) = sort_pass (length l) l in
      let again = sort_passes f out in if ltb 1 runs then again else out

  unfoldable pub list_sort : List A → List A
  unfolding sort_passes sort_pass inplace_merge merge_pair find_end_of_run
  list_sort l = sort_passes (length l) l

  unfoldable pub list_insert_ordered : List A → A → List A
  list_insert_ordered [] e = e ∷ []
  list_insert_ordered (x ∷ xs) e = if less e x then e ∷ x ∷ xs else x ∷ list_insert_ordered xs e

  -- The loop of list_unique: `elem` is the last element kept.
  unique_from : A → List A → List A × List A
  unique_from elem [] = (elem ∷ [], [])
  unique_from elem (y ∷ ys) =
      let (kept, gone) = unique_from elem ys in
      let (kept', gone') = unique_from y ys in
      if not (less elem y) && not (less y elem) then (kept, y ∷ gone) else (elem ∷ kept', gone')

  -- The list without repetitions, and the elements that list_unique removes, in order.
  unfoldable pub list_unique : List A → List A × List A
  unfolding unique_from
  list_unique [] = ([], [])
  list_unique (x ∷ xs) = unique_from x xs

  -- The loops of list_max and list_min, from the best element so far.
  unfoldable pub max_from : A → List A → A
  max_from max [] = max
  max_from max (e ∷ l) = max_from (if less max e then e else max) l

  unfoldable pub min_from : A → List A → A
  min_from min [] = min
  min_from min (e ∷ l) = min_from (if less e min then e else min) l

  -- `none` is the tail of an empty list.
  unfoldable pub list_max : List A → Option A
  list_max [] = none
  list_max (x ∷ l) = some (max_from x l)

  unfoldable pub list_min : List A → Option A
  list_min [] = none
  list_min (x ∷ l) = some (min_from x l)
