-- ===== src/Timer/Wake.antt =====
-- The loop of timer_interrupt() in devices/timer.c wakes every sleeper whose time has come.
use pint_os_assignment.Common.{
  ℕ, suc, ◌+◌, ◌%◌, ◌<◌, ◌≡◌, refl, sym, ap, subst, ◌∙◌, true, false, List, [], ◌∷◌, arith, count,
  leb, inl, inr, Bool-cases, ok, bind-eq, if_of_true, if_of_false,
}
use pint_os_assignment.KernelList.{is_sorted}
use pint_os_assignment.Kernel.{Kernel}
use pint_os_assignment.Threads.{thread_tick}
use pint_os_assignment.Synch.{uint_mod}
use pint_os_assignment.Synch.Waiters.{IsConsistent}
use pint_os_assignment.Synch.Up.{sema_up-IsConsistent}
use pint_os_assignment.Synch.Effect.{value_of, sema_up-Raised}
use pint_os_assignment.Timer.{
  Timer, less_sleeping_threads, wake_sleepers, finish_tick, timer_interrupt,
}
use pint_os_assignment.Timer.Alarm.{SameAlarms, sema_up-SameAlarms, sema_up-Upped}
use pint_os_assignment.Timer.Woken.{
  due, AllWoken, is_sorted-tail, same_late, same_sorted, AllWoken-cons, AllWoken-late,
}

-- From a consistent state in an interrupt, with the sleepers in order of their times, the loop of
-- timer_interrupt fails no assertion; it ups the semaphore of each sleeper whose time has come,
-- which makes a thread ready that waits there alone, leaves the others asleep, and keeps the kernel
-- consistent.
pub wake_sleepers_all :
    (k : Kernel) (now : ℕ) (l : List ℕ)
    → IsConsistent k
    → k.in_interrupt ≡ true
    → is_sorted (less_sleeping_threads k) l ≡ true
    → (left : List ℕ) × (k' : Kernel) × (wake_sleepers now k l ≡ ok (left, k'))
      × AllWoken k k' now l left
unfolding wake_sleepers
wake_sleepers_all k now [] c i h = (
  [],
  k,
  refl,
  record {
    asleep = refl;
    value = λ s. ground arith;
    consistent = c;
    woken = λ u s n. absurd (omega arith);
    others = λ u f. refl;
    stays = λ u e. e;
  },
)
wake_sleepers_all k now (t ∷ l) c i h = elim (Bool-cases (leb (k.threads t).wake_up_ticks now)) [
  | inl e ↦
      let (k₁, u, c₁) = sema_up-IsConsistent k (k.threads t).sleep_semaphore c in
      let v = sema_up-SameAlarms k k₁ (k.threads t).sleep_semaphore i u in
      let (left, k', w, a) =
        wake_sleepers_all k₁ now l c₁ (v.interrupt ∙ i)
          (same_sorted k k₁ l v ∙ is_sorted-tail k t l h) in
      (
        left,
        k',
        if_of_true _ _ _ e ∙ bind-eq _ u ∙ w,
        AllWoken-cons k k₁ k' now t l left e v (sema_up-Raised k k₁ _ u) (sema_up-Upped k k₁ _ i u)
            a,
      )
  | inr e ↦ (t ∷ l, k, if_of_false _ _ _ e, AllWoken-late k now t l c e h)
]

AllWoken-same :
    (k k₁ k' : Kernel) (now : ℕ) (l left : List ℕ)
    → SameAlarms k k₁
    → k₁.semas ≡ k.semas
    → k₁.threads ≡ k.threads
    → AllWoken k₁ k' now l left
    → AllWoken k k' now l left
AllWoken-same k k₁ k' now l left v r q w =
    let (a, b) = same_late k k₁ now l v in
    record {
      asleep = w.asleep ∙ a;
      value = λ s.
          subst (λ m. value_of k' s % uint_mod ≡ ((m s).value + count s (due k now l)) % uint_mod) r
            (subst (λ d. value_of k' s % uint_mod ≡ (value_of k₁ s + count s d) % uint_mod) b
              (w.value s));
      consistent = w.consistent;
      woken = λ u s n e.
          w.woken u s (subst (λ d. 0 < count s d) (sym b) n) (ap (λ m. (m s).waiters) r ∙ e);
      others = λ u f.
          w.others u
            (λ s n. ap (λ m. count u (m s).waiters) r ∙ f s (subst (λ d. 0 < count s d) b n))
          ∙ ap (λ m. m u) q;
      stays = λ u e. w.stays u (ap (λ m. (m u).status) q ∙ e);
    }

-- From a consistent state in an interrupt, with the sleepers in order of their times and without
-- the feedback-queue scheduler, the timer interrupt fails no assertion: it counts a tick, takes the
-- sleepers that are due at the new time off the list and no other, and ups the semaphore of each,
-- so that a thread that waits there alone is ready then, while a thread that waits for none of
-- these semaphores stays as it was; it keeps the kernel consistent, and asks for a yield when
-- thread_tick does.
pub timer_interrupt_wakes :
    (k : Kernel) (tm : Timer)
    → IsConsistent k
    → k.in_interrupt ≡ true
    → k.mlfqs ≡ false
    → is_sorted (less_sleeping_threads k) tm.sleeping_threads ≡ true
    → (left : List ℕ) × (k' : Kernel) × (timer_interrupt k tm
        ≡ ok (record tm { ticks = suc tm.ticks; sleeping_threads = left }, (k', (thread_tick k).1)))
      × AllWoken k k' (suc tm.ticks) tm.sleeping_threads left
unfolding timer_interrupt finish_tick thread_tick
timer_interrupt_wakes k tm c i m h =
    let k₁ = (thread_tick k).0 in
    let c₁ : IsConsistent k₁ = record {
      is_running = record {
        cur_runs = c.is_running.cur_runs;
        only_cur = c.is_running.only_cur;
        queued = c.is_running.queued;
      };
      waiters = record {
        asleep = c.waiters.asleep;
        not_idle = c.waiters.not_idle;
        once = c.waiters.once;
        apart = c.waiters.apart;
      };
    } in
    let (left, k', e, a) = wake_sleepers_all k₁ (suc tm.ticks) tm.sleeping_threads c₁ i h in
    (
      left,
      k',
      if_of_false k.mlfqs _ _ m ∙ bind-eq _ e,
      AllWoken-same k k₁ k' (suc tm.ticks) tm.sleeping_threads left
          (record { time = λ t. refl; semaphore = λ t. refl; interrupt = refl }) refl refl a,
    )
