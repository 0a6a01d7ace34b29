-- ===== src/Synch/Conditions.antt =====
-- cond_signal() of threads/synch.c.
use pint_os_assignment.Common.{
  ℕ, ◌-◌, ◌≤◌, ◌<◌, ◌≡◌, refl, sym, ap, ap₂, Bool, List, ltb, length, keep, ◌&&◌, ==_iff, inl, inr,
  Bool-cases, true, false, not, [], ◌∷◌, arith, count, ◌==◌, if◌then◌else◌, ok, panic, bind-eq,
  assert_ok, ◌∙◌, get_or,
}
use pint_os_assignment.Kernel.{Kernel, great_priority_threads}
use pint_os_assignment.KernelList.{list_sort, list_front, list_empty}
use pint_os_assignment.KernelList.Fallible.Outcome.{IsGuarded, sort_ok, sort_panics}
use pint_os_assignment.KernelList.Order.{IsOrder, greater-IsOrder}
use pint_os_assignment.KernelList.Front.{list_sort-front}
use pint_os_assignment.KernelList.Count.{count-sort, All-count}
use pint_os_assignment.Synch.{
  Condition, great_priority_semaphore, lock_held_by_current_thread, sema_up, signal_first,
  cond_signal,
}
use pint_os_assignment.Synch.Waiters.{IsConsistent}
use pint_os_assignment.Synch.Up.{sema_up-IsConsistent}

-- The priority of the thread at the front of a semaphore.
abbrev pub front_priority : Kernel → ℕ → ℕ
front_priority k s = (k.threads (get_or (k.semas s).waiters 0 0)).priority

-- The comparison where every semaphore has a thread asleep in it.
abbrev higher_front : Kernel → ℕ → ℕ → Bool
higher_front k x y = ltb (front_priority k y) (front_priority k x)

semaphores-IsOrder : (k : Kernel) → IsOrder (higher_front k)
semaphores-IsOrder k = greater-IsOrder (front_priority k)

-- No thread is asleep in the semaphore yet.
abbrev pub is_awake : Kernel → ℕ → Bool
is_awake k s = list_empty (k.semas s).waiters

semaphores-IsGuarded :
    (k : Kernel) → IsGuarded (higher_front k) (is_awake k) (great_priority_semaphore k)
unfolding great_priority_semaphore list_front list_empty
semaphores-IsGuarded k = record {
  fine = λ x y h h'. both k x y _ _ refl refl h h';
  left = λ x y h. first_awake k x y _ refl h;
  right = λ x y h. second_awake k x y _ _ refl refl h;
}
  where
    both :
        (k : Kernel) (x y : ℕ) (l l' : List ℕ)
        → (k.semas x).waiters ≡ l
        → (k.semas y).waiters ≡ l'
        → is_awake k x ≡ false
        → is_awake k y ≡ false
        → great_priority_semaphore k x y ≡ ok (higher_front k x y)
    both k x y [] l' e e' h h' = absurd (ground (arith, e))
    both k x y (t ∷ l) [] e e' h h' = absurd (ground (arith, e'))
    both k x y (t ∷ l) (u ∷ l') e e' h h' =
        let step : great_priority_semaphore k x y ≡ ok (great_priority_threads k t u) =
          rw (e, e') refl in
        step
        ∙ ap₂ (λ a b. ok (great_priority_threads k (get_or a 0 0) (get_or b 0 0))) (sym e) (sym e')

    first_awake :
        (k : Kernel) (x y : ℕ) (l : List ℕ)
        → (k.semas x).waiters ≡ l
        → is_awake k x ≡ true
        → great_priority_semaphore k x y ≡ panic
    first_awake k x y [] e h = rw e refl
    first_awake k x y (t ∷ l) e h = absurd (ground (arith, e))

    second_awake :
        (k : Kernel) (x y : ℕ) (l l' : List ℕ)
        → (k.semas x).waiters ≡ l
        → (k.semas y).waiters ≡ l'
        → is_awake k y ≡ true
        → great_priority_semaphore k x y ≡ panic
    second_awake k x y [] l' e e' h = rw e refl
    second_awake k x y (t ∷ l) [] e e' h = rw (e, e') refl
    second_awake k x y (t ∷ l) (u ∷ l') e e' h = absurd (ground (arith, e'))

-- Every waiter of the condition has a thread asleep in its semaphore.
abbrev pub all_asleep : Kernel → Condition → Bool
all_asleep k [] = true
all_asleep k (s ∷ l) = not (is_awake k s) && all_asleep k l

-- `s` is taken out of the condition's waiters, and none has a front of higher priority.
pub record IsSignalled (k : Kernel) (c rest : Condition) (s : ℕ) : Type 0 where
  pub others : (a : ℕ) → count a rest ≡ count a c - (if s == a then 1 else 0)
  pub waited : 0 < count s c
  pub highest : (a : ℕ) → 0 < count a c → front_priority k a ≤ front_priority k s

asleep_count :
    (k : Kernel) (c : Condition) → all_asleep k c ≡ true → length (keep (is_awake k) c) ≡ 0
asleep_count k [] h = refl
asleep_count k (s ∷ c) h = ground (arith, asleep_count k c)

awake_count :
    (k : Kernel) (c : Condition) (s : ℕ)
    → 0 < count s c
    → is_awake k s ≡ true
    → 0 < length (keep (is_awake k) c)
awake_count k [] s h w = absurd (omega arith)
awake_count k (a ∷ c) s h w = elim (Bool-cases (a == s)) [
  | inl e ↦ ground (arith, ap (is_awake k) ((==_iff a s).0 e))
  | inr e ↦ ground (arith, awake_count k c s)
]

IsSignalled-of_sorted :
    (k : Kernel) (c rest : Condition) (s : ℕ)
    → list_sort (higher_front k) c ≡ s ∷ rest
    → IsSignalled k c rest s
IsSignalled-of_sorted k c rest s e =
    let counts : (a : ℕ) → count a (s ∷ rest) ≡ count a c =
      λ a. sym (ap (count a) e) ∙ count-sort (semaphores-IsOrder k) c a in
    record {
      others = λ a. ground (arith, counts a);
      waited = ground (arith, counts s);
      highest = λ a h.
          let low = All-count _ c a (list_sort-front (semaphores-IsOrder k) c rest s e).0 h in
          ground arith;
    }

-- The rest of cond_signal after its two assertions.
signal_of_sorted :
    (k : Kernel) (c sorted : Condition) (l s : ℕ)
    → IsConsistent k
    → 0 < count s c
    → list_sort (higher_front k) c ≡ sorted
    → (s : ℕ) × (rest : Condition) × (k' : Kernel) × (signal_first k sorted ≡ ok (rest, k'))
      × IsSignalled k c rest s
      × (sema_up k s ≡ ok k')
      × IsConsistent k'
unfolding signal_first
signal_of_sorted k c [] l s w pos e =
    absurd (ground (arith, count-sort (semaphores-IsOrder k) c s, ap (count s) e))
signal_of_sorted k c (s' ∷ rest) l s w pos e =
    let (k', u, w') = sema_up-IsConsistent k s' w in
    (s', rest, k', bind-eq _ u, IsSignalled-of_sorted k c rest s' e, u, w')

-- Outside an interrupt, with the lock held, a waiter in the condition, and every waiter asleep in
-- its semaphore, cond_signal fails no assertion: it takes out a waiter whose front thread has the
-- highest priority, raises its semaphore, and leaves the kernel consistent.
pub cond_signal_wakes :
    (k : Kernel) (c : Condition) (l s : ℕ)
    → IsConsistent k
    → k.in_interrupt ≡ false
    → lock_held_by_current_thread k l ≡ true
    → all_asleep k c ≡ true
    → 0 < count s c
    → (s' : ℕ) × (rest : Condition) × (k' : Kernel) × (cond_signal k c l ≡ ok (rest, k'))
      × IsSignalled k c rest s'
      × (sema_up k s' ≡ ok k')
      × IsConsistent k'
unfolding cond_signal
cond_signal_wakes k c l s w i h a pos =
    let (s', rest, k', e, v, u, w') = signal_of_sorted k c _ l s w pos refl in
    (
      s',
      rest,
      k',
      assert_ok (not k.in_interrupt) _ (ground arith)
          ∙ assert_ok (lock_held_by_current_thread k l) _ h
          ∙ bind-eq _
              (sort_ok _ _ _ (semaphores-IsGuarded k) (semaphores-IsOrder k) c (asleep_count k c a))
          ∙ e,
      v,
      u,
      w',
    )

-- Outside an interrupt, with the lock held and two waiters or more, of which one has yet to fall
-- asleep in its semaphore, cond_signal fails an assertion: the sort compares that one sooner or
-- later.
pub cond_signal_faults :
    (k : Kernel) (c : Condition) (l s : ℕ)
    → k.in_interrupt ≡ false
    → lock_held_by_current_thread k l ≡ true
    → 1 < length c
    → 0 < count s c
    → (k.semas s).waiters ≡ []
    → cond_signal k c l ≡ panic
unfolding cond_signal list_empty
cond_signal_faults k c l s i h many has e =
    assert_ok (not k.in_interrupt) _ (ground arith)
    ∙ assert_ok (lock_held_by_current_thread k l) _ h
    ∙ rw (sort_panics _ _ _ (semaphores-IsGuarded k) c (awake_count k c s has (rw e refl)) many)
        refl
