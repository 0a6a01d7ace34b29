-- ===== src/KernelList/Front.antt =====
-- Which element is at the front after list_sort: a least one, and of those the first.
use pint_os_assignment.Common.{
  ◌≡◌, refl, ◌∙◌, sym, ap, Bool, false, List, [], ◌∷◌, arith, keep, length,
}
use pint_os_assignment.KernelList.{list_sort}
use pint_os_assignment.KernelList.Order.{
  IsOrder, All, equiv, All-of_descents, keep-All-false, All-false-keep,
}
use pint_os_assignment.KernelList.Passes.{Sorted, list_sort-Sorted}

keep-nil_of_length {ℓ} :
    {A : Type ℓ} (p : A → Bool) (l : List A) → length (keep p l) ≡ 0 → keep p l ≡ []
keep-nil_of_length p [] h = refl
keep-nil_of_length p (x ∷ l) h = ground (arith, keep-nil_of_length p l)

module _ {ℓ} {A : Type ℓ} {less : A → A → Bool} (o : IsOrder less) where
  -- No element of the list is less than the front of the sorted list, and among the elements
  -- equivalent to it the front is the first.
  pub list_sort-front :
      (l rest : List A) (y : A)
      → list_sort less l ≡ y ∷ rest
      → All (λ x. less x y ≡ false) l × (keep (equiv less y) l ≡ y ∷ keep (equiv less y) rest)
  list_sort-front l rest y e = (
    All-false-keep (λ x. less x y) l
        (keep-nil_of_length (λ x. less x y) l (sym (v.same (λ x. less x y)) ∙ ap length none_less)),
    sym (v.stable y) ∙ rw e (ground (arith, o.asym y y)),
  )
    where
      v : Sorted o l (list_sort less l)
      v = list_sort-Sorted o l

      all_above : All (λ x. less x y ≡ false) (y ∷ rest)
      all_above =
          All-of_descents o y y rest (ground (arith, o.asym y y)) (ground (arith, v.one_run, e))

      none_less : keep (λ x. less x y) (list_sort less l) ≡ []
      none_less = rw e (keep-All-false (λ x. less x y) (y ∷ rest) all_above)
