-- ===== src/KernelList/Count.antt =====
-- How often an address stands in a list, before and after the functions of lib/kernel/list.c.
use pint_os_assignment.Common.{
  ℕ, ◌+◌, ◌-◌, ◌<◌, ◌≡◌, refl, ◌∙◌, sym, Bool, List, [], ◌∷◌, arith, keep, length, count, ◌==◌,
  if◌then◌else◌, inl, inr, Bool-cases, ==_iff, subst,
}
use pint_os_assignment.KernelList.{list_sort, list_insert_ordered, list_remove}
use pint_os_assignment.KernelList.Order.{IsOrder, All}
use pint_os_assignment.KernelList.Passes.{list_sort-Sorted}
use pint_os_assignment.KernelList.Insert.{insert-keep}

count-keep : (a : ℕ) (l : List ℕ) → count a l ≡ length (keep (λ x. x == a) l)
count-keep a [] = refl
count-keep a (x ∷ l) = ground (arith, count-keep a l)

pub count-insert :
    (less : ℕ → ℕ → Bool) (l : List ℕ) (e a : ℕ)
    → count a (list_insert_ordered less l e) ≡ count a l + (if e == a then 1 else 0)
count-insert less l e a = ground (
  arith,
  count-keep a (list_insert_ordered less l e),
  count-keep a l,
  insert-keep less (λ x. x == a) l e,
)

pub count-sort :
    {less : ℕ → ℕ → Bool} (o : IsOrder less) (l : List ℕ) (a : ℕ)
    → count a (list_sort less l) ≡ count a l
count-sort {less} o l a =
    count-keep a (list_sort less l)
    ∙ (list_sort-Sorted o l).same (λ x. x == a)
    ∙ sym (count-keep a l)

pub count-remove :
    (l : List ℕ) (e a : ℕ) → count a (list_remove l e) ≡ count a l - (if e == a then 1 else 0)
unfolding list_remove
count-remove [] e a = ground arith
count-remove (x ∷ l) e a = ground (arith, count-remove l e a)

-- What holds of all elements holds of one that stands in the list.
pub All-count {ℓ} : (P : ℕ → Type ℓ) (l : List ℕ) (a : ℕ) → All P l → 0 < count a l → P a
All-count P [] a h c = absurd (omega arith)
All-count P (x ∷ l) a h c = elim (Bool-cases (x == a)) [
  | inl e ↦ subst P ((==_iff x a).0 e) h.0
  | inr e ↦ All-count P l a h.1 (ground arith)
]
