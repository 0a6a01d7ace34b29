-- ===== src/KernelList/Insert.antt =====
-- list_insert_ordered of lib/kernel/list.c.
use pint_os_assignment.Common.{
  ◌+◌, ◌≡◌, refl, ap, ◌∙◌, Bool, true, ◌++◌, List, [], ◌∷◌, arith, keep, length,
}
use pint_os_assignment.KernelList.{inplace_merge, is_sorted_from, is_sorted, list_insert_ordered}
use pint_os_assignment.KernelList.Order.{IsOrder, equiv, descents}
use pint_os_assignment.KernelList.Sort.{
  is_sorted-runs, inplace_merge-keep, inplace_merge-runs, inplace_merge_stable,
}

module _ {ℓ} {A : Type ℓ} (less : A → A → Bool) where
  -- To insert is to merge with a run of one element.
  insert-eq-merge :
      (l : List A) (e : A) → list_insert_ordered less l e ≡ inplace_merge less l (e ∷ [])
  unfolding list_insert_ordered inplace_merge
  insert-eq-merge [] e = refl
  insert-eq-merge (x ∷ []) e = ground arith
  insert-eq-merge (x ∷ y ∷ l) e = ground (arith, insert-eq-merge (y ∷ l) e)

  pub insert-keep :
      (p : A → Bool) (l : List A) (e : A)
      → length (keep p (list_insert_ordered less l e))
        ≡ length (keep p l) + length (keep p (e ∷ []))
  insert-keep p l e =
      ap (λ t. length (keep p t)) (insert-eq-merge l e) ∙ inplace_merge-keep less p l (e ∷ [])

  descents_of_is_sorted :
      (x : A) (l : List A) → is_sorted_from less x l ≡ true → descents less x l ≡ 0
  unfolding is_sorted_from
  descents_of_is_sorted x [] h = refl
  descents_of_is_sorted x (y ∷ l) h = ground (arith, descents_of_is_sorted y l)

module _ {ℓ} {A : Type ℓ} {less : A → A → Bool} (o : IsOrder less) where
  -- Into a sorted list, list_insert_ordered puts the element in order, behind those equivalent to
  -- it, and the others stay as they are.
  pub list_insert_ordered_correct :
      (l : List A) (e : A)
      → is_sorted less l ≡ true
      → (is_sorted less (list_insert_ordered less l e) ≡ true)
        × ((a : A)
            → keep (equiv less a) (list_insert_ordered less l e)
              ≡ keep (equiv less a) l ++ keep (equiv less a) (e ∷ []))
  unfolding is_sorted list_insert_ordered
  list_insert_ordered_correct [] e h = (is_sorted-runs less (e ∷ []) (omega arith), λ a. refl)
  list_insert_ordered_correct (x ∷ l) e h =
      let d = descents_of_is_sorted less x l h in
      rw (insert-eq-merge less (x ∷ l) e) (
        is_sorted-runs less (inplace_merge less (x ∷ l) (e ∷ []))
            (omega (arith, inplace_merge-runs o x e l [] d refl)),
        λ a. inplace_merge_stable o a x l (e ∷ []) d,
      )
