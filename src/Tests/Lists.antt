-- ===== src/Tests/Lists.antt =====
-- Runs of lib/kernel/list.c.
use pint_os_assignment.Common.{ℕ, ◌/◌, ◌≡◌, refl, true, List, [], ◌∷◌, ltb}
use pint_os_assignment.KernelList.{list_sort, list_insert_ordered, is_sorted}
use pint_os_assignment.KernelList.Order.{IsOrder, greater-IsOrder}
use pint_os_assignment.KernelList.Passes.{list_sort_correct}
use pint_os_assignment.KernelList.Insert.{list_insert_ordered_correct}
use pint_os_assignment.Common.{keep, length, Bool, ◌++◌}
use pint_os_assignment.KernelList.Order.{equiv}

abbrev by_tens : ℕ → ℕ → Bool
by_tens x y = ltb (y / 10) (x / 10)

by_tens-IsOrder : IsOrder by_tens
by_tens-IsOrder = greater-IsOrder (λ x. x / 10)

abbrev unsorted : List ℕ
unsorted = 11 ∷ 31 ∷ 12 ∷ 32 ∷ 21 ∷ []

list_sort_run : list_sort by_tens unsorted ≡ 31 ∷ 32 ∷ 21 ∷ 11 ∷ 12 ∷ []
unfolding list_sort
list_sort_run = refl

list_sort_correct_example :
    (is_sorted by_tens (list_sort by_tens unsorted) ≡ true)
    × ((p : ℕ → Bool) → length (keep p (list_sort by_tens unsorted)) ≡ length (keep p unsorted))
    × ((a : ℕ)
        → keep (equiv by_tens a) (list_sort by_tens unsorted) ≡ keep (equiv by_tens a) unsorted)
list_sort_correct_example = list_sort_correct by_tens-IsOrder unsorted

abbrev in_order : List ℕ
in_order = 31 ∷ 32 ∷ 21 ∷ 11 ∷ []

in_order-is_sorted : is_sorted by_tens in_order ≡ true
unfolding is_sorted
in_order-is_sorted = refl

list_insert_ordered_correct_example :
    (is_sorted by_tens (list_insert_ordered by_tens in_order 25) ≡ true)
    × ((a : ℕ)
        → keep (equiv by_tens a) (list_insert_ordered by_tens in_order 25)
          ≡ keep (equiv by_tens a) in_order ++ keep (equiv by_tens a) (25 ∷ []))
list_insert_ordered_correct_example =
    list_insert_ordered_correct by_tens-IsOrder in_order 25 in_order-is_sorted
