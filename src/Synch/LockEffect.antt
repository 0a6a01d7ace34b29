-- ===== src/Synch/LockEffect.antt =====
-- What the lock functions of threads/synch.c do to the holders of locks and the values of their
-- semaphores.
use pint_os_assignment.Common.{
  ℕ, zero, suc, ◌<◌, ◌≡◌, refl, sym, subst, ◌∙◌, Bool, not, Option, none, some, arith, ◌⊎◌, ◌==◌,
  ltb, ltb→lt, if◌then◌else◌, inl, inr, Bool-cases, Option-cases, ok, assert, >>=-eq-ok, if_of_true,
  if_of_false, ok_inj,
}
use pint_os_assignment.Kernel.{Thread, Kernel, set_thread, set_lock}
use pint_os_assignment.Threads.{thread_update_priority, thread_donate_priority}
use pint_os_assignment.Synch.{
  sema_try_down, lock_held_by_current_thread, donate_chain, lock_acquire_start, take_lock,
  lock_acquire_finish, lock_try_acquire, drop_lock, lock_release,
}
use pint_os_assignment.Synch.Frame.{update_priority-SameObjects, donate_priority-SameObjects}
use pint_os_assignment.Synch.Down.{lowered}
use pint_os_assignment.Synch.Donate.{donor, marked, donate_to-none, donate_to-some}
use pint_os_assignment.Synch.Effect.{
  value_of, holder_of, Calm, Calm-refl, Calm-trans, SameObjects-Calm, Raised, sema_up-Raised,
}

-- A donation changes no value, holder or address.
donated-Calm : (k : Kernel) (l h : ℕ) → Calm k (thread_donate_priority (marked k l) h)
donated-Calm k l h =
    Calm-trans
      (record { value = λ s. refl; holder = λ m. ground arith; address = λ m. ground arith })
      (SameObjects-Calm (donate_priority-SameObjects (marked k l) h))

donate_chain-Calm :
    (fuel : ℕ) (k k' : Kernel) (start : Option ℕ) → donate_chain fuel k start ≡ ok k' → Calm k k'
unfolding donate_chain
donate_chain-Calm zero k k' start e = absurd (cc)
donate_chain-Calm (suc fuel) k k' none e = subst (Calm k) (ok_inj _ _ e) (Calm-refl k)
donate_chain-Calm (suc fuel) k k' (some l) e =
    elim (Bool-cases (ltb (k.locks l).max_priority (donor k))) [
      | inr q ↦ subst (Calm k) (ground arith) (Calm-refl k)
      | inl q ↦ elim (Option-cases (k.locks l).holder) [
        | inl z ↦ absurd (ground (arith, donate_to-none k l z))
        | inr (h, z) ↦ Calm-trans (donated-Calm k l h) (
            donate_chain-Calm fuel (thread_donate_priority (marked k l) h) k'
              ((thread_donate_priority (marked k l) h).threads h).waiting_lock
              (ground (arith, donate_to-some k l h z)))
      ]
    ]

abbrev pub waiting_on : Kernel → ℕ → Kernel
waiting_on k l = set_thread k k.cur (record (k.threads k.cur) { waiting_lock = some l })

-- lock_acquire, up to its wait for the semaphore, changes no value and no holder.
pub lock_acquire_start-Calm :
    (fuel : ℕ) (k k' : Kernel) (l : ℕ) → lock_acquire_start fuel k l ≡ ok k' → Calm k k'
unfolding lock_acquire_start
lock_acquire_start-Calm fuel k k' l e =
    let (t, a, e₁) = >>=-eq-ok (assert (not k.in_interrupt)) _ e in
    let (u, b, e₂) = >>=-eq-ok (assert (not (lock_held_by_current_thread k l))) _ e₁ in
    elim (Bool-cases k.mlfqs) [
      | inl m ↦ subst (Calm k) (ok_inj _ _ (sym (if_of_true k.mlfqs _ _ m) ∙ e₂)) (Calm-refl k)
      | inr m ↦ elim (Option-cases (k.locks l).holder) [
        | inl z ↦ subst (Calm k) (ground arith) (Calm-refl k)
        | inr (h, z) ↦
            Calm-trans (record { value = λ s. refl; holder = λ m. refl; address = λ m. refl })
              (donate_chain-Calm fuel (waiting_on k l) k' (some l) (ground arith))
      ]
    ]

-- One lock has got a new holder, and nothing else changes.
pub record Held (k : Kernel) (l : ℕ) (h : Option ℕ) (k' : Kernel) : Type 0 where
  pub value : (s : ℕ) → value_of k' s ≡ value_of k s
  pub holder : (m : ℕ) → holder_of k' m ≡ (if l == m then h else holder_of k m)
  pub address : (m : ℕ) → (k'.locks m).semaphore ≡ (k.locks m).semaphore

Held-Calm :
    {k k' k'' : Kernel} {l : ℕ} {h : Option ℕ} → Held k l h k' → Calm k' k'' → Held k l h k''
Held-Calm a b = record {
  value = λ s. b.value s ∙ a.value s;
  holder = λ m. b.holder m ∙ a.holder m;
  address = λ m. b.address m ∙ a.address m;
}

update_priority-Calm : (k : Kernel) (t : ℕ) → Calm k (thread_update_priority k t)
update_priority-Calm k t = SameObjects-Calm (update_priority-SameObjects k t)

take_lock-Calm : (k : Kernel) (l : ℕ) → Calm k (take_lock k l)
unfolding take_lock
take_lock-Calm k l =
    Calm-trans
      (record { value = λ s. refl; holder = λ m. ground arith; address = λ m. ground arith })
      (update_priority-Calm _ k.cur)

-- When sema_down has returned, lock_acquire makes the current thread the holder.
pub lock_acquire_finish-Held :
    (k : Kernel) (l : ℕ) → Held k l (some k.cur) (lock_acquire_finish k l)
unfolding lock_acquire_finish
lock_acquire_finish-Held k l = elim (Bool-cases k.mlfqs) [
  | inl m ↦ subst (Held k l (some k.cur)) (sym (if_of_true k.mlfqs _ _ m)) held
  | inr m ↦ subst (Held k l (some k.cur)) (sym (if_of_false k.mlfqs _ _ m)) (
      Held-Calm held (take_lock-Calm (set_lock k l (record (k.locks l) { holder = some k.cur })) l))
]
  where
    held : Held k l (some k.cur) (set_lock k l (record (k.locks l) { holder = some k.cur }))
    held = record { value = λ s. refl; holder = λ m. ground arith; address = λ m. ground arith }

drop_lock-Held : (k : Kernel) (l : ℕ) → Held k l none (drop_lock k l)
unfolding drop_lock
drop_lock-Held k l = elim (Bool-cases k.mlfqs) [
  | inl m ↦ subst (Held k l none) (sym (if_of_true k.mlfqs _ _ m)) (dropped _)
  | inr m ↦
      subst (Held k l none) (sym (if_of_false k.mlfqs _ _ m))
        (Held-Calm (dropped _) (update_priority-Calm _ k.cur))
]
  where
    dropped :
        (ths : ℕ → Thread)
        → Held k l none
            (record (set_lock k l (record (k.locks l) { holder = none })) { threads = ths })
    dropped ths = record {
      value = λ s. refl;
      holder = λ m. ground arith;
      address = λ m. ground arith;
    }

-- lock_release returns only if the current thread held the lock; then nobody does, and its
-- semaphore has gone up.
pub lock_release-effect :
    (k k' : Kernel) (l : ℕ)
    → lock_release k l ≡ ok k'
    → (holder_of k l ≡ some k.cur)
      × ((k₁ : Kernel) × Held k l none k₁ × Raised k₁ (k.locks l).semaphore k')
unfolding lock_release lock_held_by_current_thread
lock_release-effect k k' l e =
    let (t, a, e₁) = >>=-eq-ok (assert (lock_held_by_current_thread k l)) _ e in
    (ground (arith, a), (drop_lock k l, drop_lock-Held k l, sema_up-Raised (drop_lock k l) k' _ e₁))

-- lock_try_acquire takes the lock if the value of its semaphore is positive, and else does nothing.
pub lock_try_acquire-effect :
    (k k' : Kernel) (l : ℕ) (b : Bool)
    → lock_try_acquire k l ≡ ok (b, k')
    → (k' ≡ k)
      ⊎ ((0 < value_of k (k.locks l).semaphore)
          × Held (lowered k (k.locks l).semaphore) l (some k.cur) k')
unfolding lock_try_acquire sema_try_down
lock_try_acquire-effect k k' l b e =
    let (t, a, e₁) = >>=-eq-ok (assert (not (lock_held_by_current_thread k l))) _ e in
    elim (Bool-cases (ltb 0 (value_of k (k.locks l).semaphore))) [
      | inl h ↦ inr (
        ltb→lt 0 _ h,
        subst (Held (lowered k (k.locks l).semaphore) l (some k.cur)) (ground arith)
            (lock_acquire_finish-Held (lowered k (k.locks l).semaphore) l),
      )
      | inr h ↦ inl (ground arith)
    ]
