-- ===== src/KernelList/Extremes.antt =====
-- list_max and list_min of lib/kernel/list.c.
use pint_os_assignment.Common.{
  ◌≡◌, refl, Bool, false, some, List, [], ◌∷◌, arith, if◌then◌else◌, inl, inr, Bool-cases,
}
use pint_os_assignment.KernelList.{max_from, list_max, min_from, list_min}
use pint_os_assignment.KernelList.Order.{IsOrder, All}

module _ {ℓ} {A : Type ℓ} {less : A → A → Bool} (o : IsOrder less) where
  irrefl : (x : A) → less x x ≡ false
  irrefl x = ground (arith, o.asym x x)

  greater_of :
      (m e : A)
      → (less (if less m e then e else m) m ≡ false) × (less (if less m e then e else m) e ≡ false)
  greater_of m e = elim (Bool-cases (less m e)) [
    | inl h ↦ rw h (o.asym m e h, irrefl e)
    | inr h ↦ rw h (irrefl m, h)
  ]

  less_of :
      (m e : A)
      → (less m (if less e m then e else m) ≡ false) × (less e (if less e m then e else m) ≡ false)
  less_of m e = elim (Bool-cases (less e m)) [
    | inl h ↦ rw h (o.asym e m h, irrefl e)
    | inr h ↦ rw h (irrefl m, h)
  ]

  max_from-All :
      (m : A) (l : List A)
      → (less (max_from less m l) m ≡ false) × All (λ x. less (max_from less m l) x ≡ false) l
  unfolding max_from
  max_from-All m [] = (irrefl m, tt)
  max_from-All m (e ∷ l) =
      let (a, b) = max_from-All (if less m e then e else m) l in
      let (p, q) = greater_of m e in (o.negtrans _ _ m a p, (o.negtrans _ _ e a q, b))

  min_from-All :
      (m : A) (l : List A)
      → (less m (min_from less m l) ≡ false) × All (λ x. less x (min_from less m l) ≡ false) l
  unfolding min_from
  min_from-All m [] = (irrefl m, tt)
  min_from-All m (e ∷ l) =
      let (a, b) = min_from-All (if less e m then e else m) l in
      let (p, q) = less_of m e in (o.negtrans m _ _ p a, (o.negtrans e _ _ q a, b))

  -- list_max returns an element that is less than none of the list, and list_min one than which none
  -- is less.
  pub list_max-All :
      (x : A) (l : List A)
      → ((m : A) × (list_max less (x ∷ l) ≡ some m) × All (λ y. less m y ≡ false) (x ∷ l))
        × ((m : A) × (list_min less (x ∷ l) ≡ some m) × All (λ y. less y m ≡ false) (x ∷ l))
  unfolding list_max list_min
  list_max-All x l =
      ((max_from less x l, refl, max_from-All x l), (min_from less x l, refl, min_from-All x l))
