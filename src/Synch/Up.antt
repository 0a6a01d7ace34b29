-- ===== src/Synch/Up.antt =====
-- sema_up of threads/synch.c: which thread it wakes, and that it keeps the kernel consistent.
use pint_os_assignment.Common.{
  ℕ, ◌+◌, ◌-◌, ◌%◌, ◌≤◌, ◌<◌, ◌≡◌, refl, false, ◌∙◌, List, [], ◌∷◌, arith, count, keep, ◌==◌,
  if◌then◌else◌, inl, inr, Bool-cases, Result, ok, if_of_false, if_of_true, bind-eq, ap,
}
use pint_os_assignment.KernelList.{list_sort, list_empty, list_pop_front}
use pint_os_assignment.KernelList.Front.{list_sort-front}
use pint_os_assignment.KernelList.Order.{equiv, All}
use pint_os_assignment.KernelList.Count.{count-sort, All-count}
use pint_os_assignment.Kernel.{ready, blocked, is_status, Kernel, set_sema, great_priority_threads}
use pint_os_assignment.Threads.{thread_unblock, thread_yield}
use pint_os_assignment.Threads.Invariant.{threads-IsOrder}
use pint_os_assignment.Threads.Yield.{
  yielding, yielding-IsSwitching, thread_yield_switches, unblocked, thread_unblock-eq-ok,
  unblocked-IsRunning,
}
use pint_os_assignment.Synch.{uint_mod, wake_waiter, raise_value, sema_up}
use pint_os_assignment.Synch.Waiters.{
  WaitersAsleep, IsConsistent, Switched-WaitersAsleep, set_value-WaitersAsleep,
  set_status-WaitersAsleep, waits_nowhere, set_ready_list-WaitersAsleep, set_sema-IsRunning,
}

abbrev pub waiters_of : Kernel → ℕ → List ℕ
waiters_of k s = (k.semas s).waiters

abbrev pub raised : Kernel → ℕ → Kernel
raised k s = set_sema k s (record (k.semas s) { value = ((k.semas s).value + 1) % uint_mod })

abbrev pub without : Kernel → ℕ → List ℕ → Kernel
without k s rest = set_sema k s (record (k.semas s) { waiters = rest })

-- `t` is the waiter to wake: none has a higher priority, and of those with the same it is the first.
pub record IsFirstWaiter (k : Kernel) (s t : ℕ) (rest : List ℕ) : Type 0 where
  pub waits : 0 < count t (waiters_of k s)
  pub others : (u : ℕ) → count u rest ≡ count u (waiters_of k s) - (if t == u then 1 else 0)
  pub highest :
      (u : ℕ) → 0 < count u (waiters_of k s) → (k.threads u).priority ≤ (k.threads t).priority
  pub first :
      keep (equiv (great_priority_threads k) t) (waiters_of k s)
      ≡ t ∷ keep (equiv (great_priority_threads k) t) rest

-- What wake_waiter does: nothing without waiters, else it unblocks the first waiter.
pub data Woken (k : Kernel) (s : ℕ) : Result Kernel → Type 0 where
  nobody : waiters_of k s ≡ [] → Woken k s (ok k)
  somebody :
      (t : ℕ) (rest : List ℕ)
      → IsFirstWaiter k s t rest
      → Woken k s (thread_unblock (without k s rest) t)

Woken-of_sorted :
    (k : Kernel) (s x : ℕ) (xs l : List ℕ)
    → waiters_of k s ≡ x ∷ xs
    → list_sort (great_priority_threads k) (waiters_of k s) ≡ l
    → Woken k s (wake_waiter k s)
unfolding wake_waiter list_empty list_pop_front
Woken-of_sorted k s x xs [] e h =
    absurd (ground (arith, count-sort (threads-IsOrder k) (waiters_of k s) x))
Woken-of_sorted k s x xs (t ∷ rest) e h = rw wakes (
    somebody t rest (record {
      waits = ground (arith, count-sort (threads-IsOrder k) (waiters_of k s) t);
      others = λ u. ground (arith, count-sort (threads-IsOrder k) (waiters_of k s) u);
      highest = λ u p. ground (arith, All-count _ (waiters_of k s) u front.0 p);
      first = front.1;
    }))
  where
    front :
        All (λ a. great_priority_threads k a t ≡ false) (waiters_of k s)
        × (keep (equiv (great_priority_threads k) t) (waiters_of k s)
            ≡ t ∷ keep (equiv (great_priority_threads k) t) rest)
    front = list_sort-front (threads-IsOrder k) (waiters_of k s) rest t h

    wakes : wake_waiter k s ≡ thread_unblock (without k s rest) t
    wakes = if_of_false (list_empty (waiters_of k s)) _ _ (rw e refl) ∙ rw h refl

Woken-of_list : (k : Kernel) (s : ℕ) (l : List ℕ) → waiters_of k s ≡ l → Woken k s (wake_waiter k s)
unfolding wake_waiter list_empty
Woken-of_list k s [] e =
    rw (if_of_true (list_empty (waiters_of k s)) (ok k) _ (rw e refl)) (nobody e)
Woken-of_list k s (x ∷ xs) e =
    Woken-of_sorted k s x xs (list_sort (great_priority_threads k) (waiters_of k s)) e refl

-- sema_up first wakes the waiter of highest priority, of equal ones the one that came first, and
-- only that one; with no waiters it wakes nobody.
pub wake_waiter_first : (k : Kernel) (s : ℕ) → Woken k s (wake_waiter k s)
wake_waiter_first k s = Woken-of_list k s (waiters_of k s) refl

-- Taking the first waiter out leaves the others asleep, and it waits nowhere any more.
without-WaitersAsleep :
    (k : Kernel) (s t : ℕ) (rest : List ℕ)
    → IsFirstWaiter k s t rest
    → WaitersAsleep k
    → WaitersAsleep (without k s rest)
without-WaitersAsleep k s t rest f w = record {
  asleep = λ s' u h. ground (arith, w.asleep s' u, f.others u);
  not_idle = λ s' u h. ground (arith, w.not_idle s' u, f.others u);
  once = λ s' u. ground (arith, w.once s' u, f.others u);
  apart = λ s' s'' u h h'. ground (arith, w.apart s' s'' u, f.others u);
}

without-gone :
    (k : Kernel) (s t : ℕ) (rest : List ℕ)
    → IsFirstWaiter k s t rest
    → WaitersAsleep k
    → (s' : ℕ) → count t ((without k s rest).semas s').waiters ≡ 0
without-gone k s t rest f w s' =
    ground (arith, f.others t, f.waits, w.once s t, w.once s' t, w.apart s s' t)

-- The state after wake_waiter, whoever was woken.
Woken-IsConsistent :
    (k : Kernel) (s : ℕ) (r : Result Kernel)
    → IsConsistent k
    → Woken k s r
    → (k' : Kernel) × (r ≡ ok k') × IsConsistent k' × (k'.in_interrupt ≡ k.in_interrupt)
Woken-IsConsistent k s r c (nobody e) = (k, refl, c, refl)
Woken-IsConsistent k s r c (somebody t rest f) =
    let w = without k s rest in
    let h : (k.threads t).status ≡ blocked = c.waiters.asleep s t f.waits in
    let n : (t == k.idle_thread) ≡ false = c.waiters.not_idle s t f.waits in
    (
      unblocked w t,
      thread_unblock-eq-ok w t h,
      record {
        is_running = unblocked-IsRunning w t (set_sema-IsRunning k s _ c.is_running) n h;
        waiters =
            set_status-WaitersAsleep _ t ready (without-gone k s t rest f c.waiters)
              (set_ready_list-WaitersAsleep w _ (without-WaitersAsleep k s t rest f c.waiters));
      },
      refl,
    )

yielding-WaitersAsleep : (k : Kernel) → IsConsistent k → WaitersAsleep (yielding k)
yielding-WaitersAsleep k c =
    set_status-WaitersAsleep _ k.cur ready
      (waits_nowhere k k.cur c.waiters (ap (λ st. is_status st blocked) c.is_running.cur_runs))
      (set_ready_list-WaitersAsleep k _ c.waiters)

-- Outside an interrupt a yield fails no assertion and keeps the kernel consistent.
pub thread_yield-IsConsistent :
    (k : Kernel)
    → IsConsistent k
    → k.in_interrupt ≡ false
    → (k' : Kernel) × (thread_yield k ≡ ok k') × IsConsistent k'
thread_yield-IsConsistent k c h =
    let (k', e, v) = thread_yield_switches k c.is_running h in
    (
      k',
      e,
      record {
        is_running = v.is_running;
        waiters =
            Switched-WaitersAsleep (yielding k) k' (yielding-IsSwitching k c.is_running).queued
              (yielding-WaitersAsleep k c) v;
      },
    )

raise_value-IsConsistent :
    (k : Kernel) (s : ℕ)
    → IsConsistent k
    → (k' : Kernel) × (raise_value k s ≡ ok k') × IsConsistent k'
unfolding raise_value
raise_value-IsConsistent k s c = elim (Bool-cases k.in_interrupt) [
  | inl h ↦ (raised k s, if_of_true k.in_interrupt _ _ h, raised-IsConsistent)
  | inr h ↦
      let (k', e, c') = thread_yield-IsConsistent (raised k s) raised-IsConsistent h in
      (k', if_of_false k.in_interrupt _ _ h ∙ e, c')
]
  where
    raised-IsConsistent : IsConsistent (raised k s)
    raised-IsConsistent = record {
      is_running = set_sema-IsRunning k s _ c.is_running;
      waiters = set_value-WaitersAsleep k s _ c.waiters;
    }

-- From a consistent state sema_up fails no assertion, and it leaves the kernel consistent: in an
-- interrupt the same thread goes on, else the running thread yields.
pub sema_up-IsConsistent :
    (k : Kernel) (s : ℕ) → IsConsistent k → (k' : Kernel) × (sema_up k s ≡ ok k') × IsConsistent k'
unfolding sema_up
sema_up-IsConsistent k s c =
    let (k₁, e, c₁, i) = Woken-IsConsistent k s (wake_waiter k s) c (wake_waiter_first k s) in
    let (k₂, e₂, c₂) = raise_value-IsConsistent k₁ s c₁ in
    (k₂, bind-eq (λ k'. raise_value k' s) e ∙ e₂, c₂)
