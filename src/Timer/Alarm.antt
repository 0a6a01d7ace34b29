-- ===== src/Timer/Alarm.antt =====
-- In an interrupt, sema_up() of threads/synch.c changes no thread's wake-up time or sleep semaphore,
-- and no thread but the one that it wakes.
use pint_os_assignment.Common.{
  ℕ, ◌≡◌, ◌≢◌, ◌≤◌, List, [], ◌∷◌, count, refl, sym, subst, ◌∙◌, true, arith, Result, ok, >>=-eq-ok,
  assert, ok_inj, if_of_true,
}
use pint_os_assignment.Kernel.{ready, blocked, is_status, Kernel}
use pint_os_assignment.Threads.{thread_unblock}
use pint_os_assignment.Synch.{wake_waiter, raise_value, sema_up}
use pint_os_assignment.Synch.Up.{
  Woken, nobody, somebody, wake_waiter_first, without, raised, waiters_of, IsFirstWaiter,
}

pub record SameAlarms (k k' : Kernel) : Type 0 where
  pub time : (t : ℕ) → (k'.threads t).wake_up_ticks ≡ (k.threads t).wake_up_ticks
  pub semaphore : (t : ℕ) → (k'.threads t).sleep_semaphore ≡ (k.threads t).sleep_semaphore
  pub interrupt : k'.in_interrupt ≡ k.in_interrupt

unblock-SameAlarms : (k k' : Kernel) (t : ℕ) → thread_unblock k t ≡ ok k' → SameAlarms k k'
unfolding thread_unblock
unblock-SameAlarms k k' t e =
    let (u, a, e') = >>=-eq-ok (assert (is_status (k.threads t).status blocked)) _ e in
    subst (SameAlarms k) (ok_inj _ _ e')
      (record { time = λ u. ground arith; semaphore = λ u. ground arith; interrupt = refl })

Woken-SameAlarms :
    (k k' : Kernel) (s : ℕ) (r : Result Kernel) → Woken k s r → r ≡ ok k' → SameAlarms k k'
Woken-SameAlarms k k' s r (nobody h) e =
    subst (SameAlarms k) (ok_inj _ _ e)
      (record { time = λ t. refl; semaphore = λ t. refl; interrupt = refl })
Woken-SameAlarms k k' s r (somebody t rest f) e =
    let v = unblock-SameAlarms (without k s rest) k' t e in
    record { time = v.time; semaphore = v.semaphore; interrupt = v.interrupt }

pub sema_up-SameAlarms :
    (k k' : Kernel) (s : ℕ) → k.in_interrupt ≡ true → sema_up k s ≡ ok k' → SameAlarms k k'
unfolding sema_up raise_value
sema_up-SameAlarms k k' s h e =
    let (k₁, a, b) = >>=-eq-ok (wake_waiter k s) _ e in
    let v = Woken-SameAlarms k k₁ s (wake_waiter k s) (wake_waiter_first k s) a in
    let q = ok_inj (raised k₁ s) k' (sym (if_of_true k₁.in_interrupt _ _ (v.interrupt ∙ h)) ∙ b) in
    subst (SameAlarms k) q
      (record { time = v.time; semaphore = v.semaphore; interrupt = v.interrupt })

-- What one sema_up does to the threads and to the waiters of the semaphores.
pub record Upped (k k' : Kernel) (s : ℕ) : Type 0 where
  pub elsewhere : (s' : ℕ) → s ≢ s' → waiters_of k' s' ≡ waiters_of k s'
  pub fewer : (u s' : ℕ) → count u (waiters_of k' s') ≤ count u (waiters_of k s')
  pub same : (u : ℕ) → count u (waiters_of k s) ≡ 0 → k'.threads u ≡ k.threads u
  pub stays : (u : ℕ) → (k.threads u).status ≡ ready → (k'.threads u).status ≡ ready
  pub only : (t : ℕ) → waiters_of k s ≡ t ∷ [] → (k'.threads t).status ≡ ready

unblock-Upped :
    (k k' : Kernel) (s t : ℕ) (rest : List ℕ)
    → IsFirstWaiter k s t rest
    → thread_unblock (without k s rest) t ≡ ok k'
    → Upped k k' s
unfolding thread_unblock
unblock-Upped k k' s t rest f e =
    let (u, a, e') = >>=-eq-ok (assert (is_status (k.threads t).status blocked)) _ e in
    subst (λ x. Upped k x s) (ok_inj _ _ e')
      (record {
        elsewhere = λ s' n. ground (arith, n);
        fewer = λ u s'. ground (arith, f.others u);
        same = λ u z. ground (arith, f.waits);
        stays = λ u h. ground arith;
        only = λ x h. ground (arith, f.waits, h);
      })

Woken-Upped : (k k' : Kernel) (s : ℕ) (r : Result Kernel) → Woken k s r → r ≡ ok k' → Upped k k' s
Woken-Upped k k' s r (nobody h) e =
    subst (λ x. Upped k x s) (ok_inj _ _ e)
      (record {
        elsewhere = λ s' n. refl;
        fewer = λ u s'. omega arith;
        same = λ u z. refl;
        stays = λ u p. p;
        only = λ t p. absurd (cc);
      })
Woken-Upped k k' s r (somebody t rest f) e = unblock-Upped k k' s t rest f e

raised-Upped : (k k' : Kernel) (s : ℕ) → Upped k k' s → Upped k (raised k' s) s
raised-Upped k k' s v = record {
  elsewhere = λ s' n. ground (arith, n, v.elsewhere s');
  fewer = λ u s'. ground (arith, v.fewer u s');
  same = v.same;
  stays = v.stays;
  only = v.only;
}

pub sema_up-Upped :
    (k k' : Kernel) (s : ℕ) → k.in_interrupt ≡ true → sema_up k s ≡ ok k' → Upped k k' s
unfolding sema_up raise_value
sema_up-Upped k k' s h e =
    let (k₁, a, b) = >>=-eq-ok (wake_waiter k s) _ e in
    let v = Woken-SameAlarms k k₁ s (wake_waiter k s) (wake_waiter_first k s) a in
    let q = ok_inj (raised k₁ s) k' (sym (if_of_true k₁.in_interrupt _ _ (v.interrupt ∙ h)) ∙ b) in
    subst (λ x. Upped k x s) q
      (raised-Upped k k₁ s (Woken-Upped k k₁ s (wake_waiter k s) (wake_waiter_first k s) a))
