-- ===== src/KernelList/Fallible/Outcome.antt =====
-- A sort of lib/kernel/list.c whose comparison fails on some elements returns the list in order, or
-- fails.
use pint_os_assignment.Common.{
  ℕ, zero, suc, ◌+◌, ◌≤◌, ◌<◌, ◌≡◌, ◌⊎◌, refl, sym, subst, ap, ◌∙◌, Bool, true, false, List, [],
  ◌∷◌, ◌++◌, arith, inl, inr, Bool-cases, ltb, keep, keep-append, length, length-append, Result, ok,
  panic, bind-eq, if_of_true, if_of_false,
}
use pint_os_assignment.KernelList.{
  find_end_of_run, inplace_merge, merge_pair, sort_pass, sort_passes, list_sort,
}
use pint_os_assignment.KernelList.Order.{IsOrder}
use pint_os_assignment.KernelList.Passes.{sort_pass-Passed}
use pint_os_assignment.KernelList.Sort.{find_end_of_run-EndOfRun}
use pint_os_assignment.KernelList.Fallible.{end_of_run, merge, merge_two, pass, passes, sort}

-- The comparison `try` is `less`, but fails if one of the elements is `bad`.
module _ {ℓ} {A : Type ℓ} (less : A → A → Bool) (bad : A → Bool) (try : A → A → Result Bool) where
  -- `try` is `less` on good elements.
  pub record IsGuarded : Type ℓ where
    pub fine : (x y : A) → bad x ≡ false → bad y ≡ false → try x y ≡ ok (less x y)
    pub left : (x y : A) → bad x ≡ true → try x y ≡ panic
    pub right : (x y : A) → bad y ≡ true → try x y ≡ panic

  abbrev pub bads : List A → ℕ
  bads l = length (keep bad l)

  module _ (g : IsGuarded) where
    front_second :
        (x y : A) (xs ys : List A)
        → less y x ≡ true
        → inplace_merge less (x ∷ xs) (y ∷ ys) ≡ y ∷ inplace_merge less (x ∷ xs) ys
    unfolding inplace_merge
    front_second x y xs ys b = ground arith

    front_first :
        (x y : A) (xs ys : List A)
        → less y x ≡ false
        → inplace_merge less (x ∷ xs) (y ∷ ys) ≡ x ∷ inplace_merge less xs (y ∷ ys)
    unfolding inplace_merge
    front_first x y xs ys b = ground arith

    merge_ok :
        (xs ys : List A)
        → bads xs ≡ 0
        → bads ys ≡ 0
        → merge try xs ys ≡ ok (inplace_merge less xs ys)
    unfolding merge inplace_merge
    merge_ok [] ys h k = refl
    merge_ok (x ∷ xs) [] h k = refl
    merge_ok (x ∷ xs) (y ∷ ys) h k =
        let e = g.fine y x (ground arith) (ground arith) in
        bind-eq _ e ∙ (elim (Bool-cases (less y x)) [
          | inl b ↦
              if_of_true (less y x) _ _ b
              ∙ bind-eq _ (merge_ok (x ∷ xs) ys h (ground arith))
              ∙ ap ok (sym (front_second x y xs ys b))
          | inr b ↦
              if_of_false (less y x) _ _ b
              ∙ bind-eq _ (merge_ok xs (y ∷ ys) (ground arith) k)
              ∙ ap ok (sym (front_first x y xs ys b))
        ])

    -- The search for the end of a run fails, or finds it behind good elements and before a good one.
    data Tried (x : A) (xs : List A) (r : Result (List A × List A)) : Type ℓ where
      failed : 0 < bads (x ∷ xs) → r ≡ panic → Tried x xs r
      found :
          (run rest : List A)
          → find_end_of_run less x xs ≡ (run, rest)
          → bads run ≡ 0
          → (rest ≡ []) ⊎ ((y : A) × (ys : List A) × (rest ≡ y ∷ ys) × (bad y ≡ false))
          → r ≡ ok (run, rest)
          → Tried x xs r

    -- One comparison, then the search from the next element on.
    end_of_run-cons :
        (x y : A) (ys : List A)
        → bad x ≡ false
        → bad y ≡ false
        → Tried y ys (end_of_run try y ys)
        → Tried x (y ∷ ys) (end_of_run try x (y ∷ ys))
    unfolding end_of_run find_end_of_run
    end_of_run-cons x y ys h b t = elim (Bool-cases (less y x)) [
      | inl c ↦
          found [] (y ∷ ys) (if_of_true (less y x) _ _ c) refl (inr (y, ys, refl, b))
            (bind-eq _ (g.fine y x b h) ∙ if_of_true (less y x) _ _ c)
      | inr c ↦ elim t [
        | failed n q ↦
            failed (ground arith)
              (bind-eq _ (g.fine y x b h) ∙ if_of_false (less y x) _ _ c ∙ rw q refl)
        | found run rest e z hb q ↦
            found (y ∷ run) rest (rw (c, e) refl) (ground arith) hb
              (bind-eq _ (g.fine y x b h) ∙ if_of_false (less y x) _ _ c ∙ bind-eq _ q)
      ]
    ]

    end_of_run-Tried : (x : A) (xs : List A) → bad x ≡ false → Tried x xs (end_of_run try x xs)
    unfolding end_of_run find_end_of_run
    end_of_run-Tried x [] h = found [] [] refl refl (inl refl) refl
    end_of_run-Tried x (y ∷ ys) h = elim (Bool-cases (bad y)) [
      | inl b ↦ failed (ground arith) (rw (g.left y x b) refl)
      | inr b ↦ end_of_run-cons x y ys h b (end_of_run-Tried y ys b)
    ]

    -- The elements of a run and of what is behind it.
    split_counts :
        (x : A) (xs run rest : List A)
        → find_end_of_run less x xs ≡ (run, rest)
        → (bads xs ≡ bads run + bads rest) × (length xs ≡ length run + length rest)
    split_counts x xs run rest e =
        let s = subst (λ p. p.0 ++ p.1 ≡ xs) e (find_end_of_run-EndOfRun less x xs).split in
        (
          sym (ap bads s)
              ∙ ap length (keep-append bad run rest)
              ∙ length-append (keep bad run) (keep bad rest),
          sym (ap length s) ∙ length-append run rest,
        )

    merge_two_ok :
        (x : A) (run rest : List A) (p : List A → Result (List A × ℕ)) (q : List A → List A × ℕ)
        → bads (x ∷ run) ≡ 0
        → bads rest ≡ 0
        → ((l : List A) → bads l ≡ 0 → p l ≡ ok (q l))
        → merge_two try x run rest p ≡ ok (merge_pair less x run rest q)
    unfolding merge_two merge_pair
    merge_two_ok x run [] p q h k ih = refl
    merge_two_ok x run (y ∷ ys) p q h k ih = elim (end_of_run-Tried y ys (ground arith)) [
      | failed n e ↦ absurd (omega arith)
      | found run' rest' e z hb r ↦
          let c = split_counts y ys run' rest' e in
          bind-eq _ r
          ∙ bind-eq _ (merge_ok (x ∷ run) (y ∷ run') h (ground arith))
          ∙ bind-eq _ (ih rest' (ground (arith, c)))
          ∙ rw e refl
    ]

    pass_ok : (f : ℕ) (l : List A) → bads l ≡ 0 → pass try f l ≡ ok (sort_pass less f l)
    unfolding pass sort_pass
    pass_ok zero l h = refl
    pass_ok (suc f) [] h = refl
    pass_ok (suc f) (x ∷ xs) h = elim (end_of_run-Tried x xs (ground arith)) [
      | failed n e ↦ absurd (omega arith)
      | found run rest e z hb r ↦
          let c = split_counts x xs run rest e in
          bind-eq _ r
          ∙ merge_two_ok x run rest (pass try f) (sort_pass less f) (ground arith)
              (ground (arith, c)) (pass_ok f)
          ∙ rw e refl
    ]

    merge_two_panics :
        (f : ℕ) (x : A) (run rest : List A) (p : List A → Result (List A × ℕ))
        → bads (x ∷ run) ≡ 0
        → (rest ≡ []) ⊎ ((y : A) × (ys : List A) × (rest ≡ y ∷ ys) × (bad y ≡ false))
        → 0 < bads rest
        → length rest ≤ suc f
        → ((l : List A) → 0 < bads l → 1 < length l → length l ≤ f → p l ≡ panic)
        → merge_two try x run rest p ≡ panic
    unfolding merge_two
    merge_two_panics f x run [] p h hb n s ih = absurd (omega arith)
    merge_two_panics f x run (y ∷ ys) p h hb n s ih =
        elim (end_of_run-Tried y ys (good_head y ys hb)) [
          | failed n' e ↦ rw e refl
          | found run' rest' e z hb' r ↦
              let c = split_counts y ys run' rest' e in
              let good = good_head y ys hb in
              let more : 0 < bads rest' = ground (arith, c) in
              bind-eq _ r
              ∙ bind-eq _ (merge_ok (x ∷ run) (y ∷ run') h (ground arith))
              ∙ rw (ih rest' more (two_left rest' hb' more) (omega (arith, c))) refl
        ]
      where
        good_head :
            (y : A) (ys : List A)
            → ((y ∷ ys) ≡ []) ⊎ ((z : A) × (zs : List A) × ((y ∷ ys) ≡ z ∷ zs) × (bad z ≡ false))
            → bad y ≡ false
        good_head y ys (inl e) = absurd (cc)
        good_head y ys (inr (z, zs, e, b)) = cc

        two_left :
            (l : List A)
            → (l ≡ []) ⊎ ((z : A) × (zs : List A) × (l ≡ z ∷ zs) × (bad z ≡ false))
            → 0 < bads l
            → 1 < length l
        two_left [] hb n = absurd (omega arith)
        two_left (z ∷ []) hb n = absurd (ground (arith, good_head z [] hb))
        two_left (z ∷ z' ∷ l) hb n = omega arith

    pass_panics :
        (f : ℕ) (l : List A) → 0 < bads l → 1 < length l → length l ≤ f → pass try f l ≡ panic
    unfolding pass end_of_run
    pass_panics zero l n s b = absurd (omega arith)
    pass_panics (suc f) [] n s b = absurd (omega arith)
    pass_panics (suc f) (x ∷ []) n s b = absurd (omega arith)
    pass_panics (suc f) (x ∷ y ∷ ys) n s b = elim (Bool-cases (bad x)) [
      | inl c ↦ rw (g.right y x c) refl
      | inr c ↦ elim (end_of_run-Tried x (y ∷ ys) c) [
        | failed n' e ↦ rw e refl
        | found run rest e z hb r ↦
            let d = split_counts x (y ∷ ys) run rest e in
            bind-eq _ r
            ∙ merge_two_panics f x run rest (pass try f) (ground arith) hb (ground (arith, d))
                (omega (arith, d)) (pass_panics f)
      ]
    ]

    passes_ok :
        IsOrder less
        → (f : ℕ) (l : List A) → bads l ≡ 0
        → passes try f l ≡ ok (sort_passes less f l)
    unfolding passes sort_passes
    passes_ok o zero l h = refl
    passes_ok o (suc f) l h =
        let out = (sort_pass less (length l) l).0 in
        let ih = passes_ok o f out ((sort_pass-Passed o (length l) l (omega arith)).same bad ∙ h) in
        bind-eq _ (pass_ok (length l) l h)
        ∙ (elim (Bool-cases (ltb 1 (sort_pass less (length l) l).1)) [
          | inl more ↦ rw more ih
          | inr done ↦ rw done refl
        ])

    -- With a comparison that fails on bad elements alone, list_sort of a list without any returns
    -- what it returns with a comparison that does not fail; of a list of two or more elements with a
    -- bad one it fails.
    pub sort_ok : IsOrder less → (l : List A) → bads l ≡ 0 → sort try l ≡ ok (list_sort less l)
    unfolding sort list_sort
    sort_ok o l h = passes_ok o (length l) l h

    pub sort_panics : (l : List A) → 0 < bads l → 1 < length l → sort try l ≡ panic
    unfolding sort passes
    sort_panics [] n s = absurd (omega arith)
    sort_panics (x ∷ l) n s = rw (pass_panics (length (x ∷ l)) (x ∷ l) n s (omega arith)) refl
