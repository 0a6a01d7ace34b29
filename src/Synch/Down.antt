-- ===== src/Synch/Down.antt =====
-- sema_down and sema_try_down of threads/synch.c.
use pint_os_assignment.Common.{
  ℕ, ◌+◌, ◌-◌, ◌<◌, ◌≡◌, ◌↔◌, refl, Bool, true, false, not, ◌&&◌, ◌∙◌, arith, count, ◌==◌, ltb,
  ltb→lt, if◌then◌else◌, inl, inr, Bool-cases, ok, assert_ok, if_of_false, if_of_true, bind-eq, ap,
}
use pint_os_assignment.KernelList.Count.{count-insert}
use pint_os_assignment.Kernel.{
  blocked, is_status, Kernel, set_status, set_sema, great_priority_threads,
}
use pint_os_assignment.Threads.{thread_block}
use pint_os_assignment.Threads.Invariant.{IsRunning}
use pint_os_assignment.Threads.Schedule.{Switched}
use pint_os_assignment.Threads.Yield.{stopped-IsSwitching, thread_block_switches}
use pint_os_assignment.Synch.{enqueue_waiter, sema_down, sema_try_down}
use pint_os_assignment.Synch.Waiters.{
  WaitersAsleep, IsConsistent, Switched-WaitersAsleep, set_value-WaitersAsleep, waits_nowhere,
  set_sema-IsRunning,
}
use pint_os_assignment.Synch.Up.{waiters_of}

-- The state in which sema_down calls schedule().
abbrev pub sleeping : Kernel → ℕ → Kernel
sleeping k s = set_status (enqueue_waiter k s) k.cur blocked

enqueued :
    (k : Kernel) (s s' t : ℕ)
    → count t (waiters_of (enqueue_waiter k s) s')
      ≡ count t (waiters_of k s') + (if s == s' && k.cur == t then 1 else 0)
unfolding enqueue_waiter
enqueued k s s' t = ground (arith, count-insert (great_priority_threads k) (waiters_of k s) k.cur t)

enqueue-IsRunning : (k : Kernel) (s : ℕ) → IsRunning k → IsRunning (enqueue_waiter k s)
unfolding enqueue_waiter
enqueue-IsRunning k s w = set_sema-IsRunning k s _ w

enqueue_threads :
    (k : Kernel) (s : ℕ)
    → ((enqueue_waiter k s).threads ≡ k.threads)
      × ((enqueue_waiter k s).cur ≡ k.cur)
      × ((enqueue_waiter k s).idle_thread ≡ k.idle_thread)
      × ((enqueue_waiter k s).in_interrupt ≡ k.in_interrupt)
unfolding enqueue_waiter
enqueue_threads k s = (refl, refl, refl, refl)

-- The current thread, newly among the waiters and blocked, waits in that one place.
sleeping-WaitersAsleep :
    (k : Kernel) (s : ℕ)
    → IsConsistent k
    → (k.cur == k.idle_thread) ≡ false
    → WaitersAsleep (sleeping k s)
unfolding enqueue_waiter
sleeping-WaitersAsleep k s c n =
    let free =
      waits_nowhere k k.cur c.waiters (ap (λ st. is_status st blocked) c.is_running.cur_runs) in
    record {
      asleep = λ s' t h. ground (arith, c.waiters.asleep s' t, enqueued k s s' t);
      not_idle = λ s' t h. ground (arith, c.waiters.not_idle s' t, enqueued k s s' t);
      once = λ s' t. ground (arith, c.waiters.once s' t, free s', enqueued k s s' t);
      apart = λ s' s'' t h h'. ground (
        arith,
        c.waiters.apart s' s'' t,
        free s',
        free s'',
        enqueued k s s' t,
        enqueued k s s'' t,
      );
    }

abbrev pub lowered : Kernel → ℕ → Kernel
lowered k s = set_sema k s (record (k.semas s) { value = (k.semas s).value - 1 })

lowered-IsConsistent : (k : Kernel) (s : ℕ) → IsConsistent k → IsConsistent (lowered k s)
lowered-IsConsistent k s c = record {
  is_running = set_sema-IsRunning k s _ c.is_running;
  waiters = set_value-WaitersAsleep k s _ c.waiters;
}

-- What a round of sema_down comes to: it took one from the value, or the caller is among the
-- waiters and another thread runs.
pub data Downed (k : Kernel) (s : ℕ) (b : Bool) (k' : Kernel) : Type 0 where
  took : b ≡ true → 0 < (k.semas s).value → k' ≡ lowered k s → Downed k s b k'
  slept : b ≡ false → (k.semas s).value ≡ 0 → Switched (sleeping k s) k' → Downed k s b k'

block_enqueued :
    (k : Kernel) (s : ℕ)
    → IsConsistent k
    → k.in_interrupt ≡ false
    → (k' : Kernel) × (thread_block (enqueue_waiter k s) ≡ ok k') × Switched (sleeping k s) k'
unfolding enqueue_waiter
block_enqueued k s c h =
    thread_block_switches (enqueue_waiter k s) (enqueue-IsRunning k s c.is_running) h

-- Outside an interrupt, and not in the idle thread, a round of sema_down fails no assertion and
-- keeps the kernel consistent. It lowers a positive value by one; at zero the caller joins the
-- waiters and another thread runs.
sema_down-IsConsistent :
    (k : Kernel) (s : ℕ)
    → IsConsistent k
    → k.in_interrupt ≡ false
    → (k.cur == k.idle_thread) ≡ false
    → (b : Bool) × (k' : Kernel) × (sema_down k s ≡ ok (b, k')) × IsConsistent k' × Downed k s b k'
unfolding sema_down
sema_down-IsConsistent k s c h n = elim (Bool-cases ((k.semas s).value == 0)) [
  | inr pos ↦ (
    true,
    lowered k s,
    assert_ok (not k.in_interrupt) _ (ground arith) ∙ if_of_false ((k.semas s).value == 0) _ _ pos,
    lowered-IsConsistent k s c,
    took refl (ground arith) refl,
  )
  | inl zero' ↦
      let (k', e, v) = block_enqueued k s c h in
      (
        false,
        k',
        assert_ok (not k.in_interrupt) _ (ground arith)
            ∙ if_of_true ((k.semas s).value == 0) _ _ zero'
            ∙ bind-eq (λ k''. ok (false, k'')) e,
        record {
          is_running = v.is_running;
          waiters =
              Switched-WaitersAsleep (sleeping k s) k'
                (stopped-IsSwitching (enqueue_waiter k s) blocked refl refl
                  (enqueue-IsRunning k s c.is_running)).queued
                (sleeping-WaitersAsleep k s c n) v;
        },
        slept refl (ground arith) v,
      )
]

-- sema_try_down succeeds exactly if the value is positive; then the value is one less, and
-- otherwise nothing changes. Either way the kernel stays consistent.
sema_try_down_correct :
    (k : Kernel) (s : ℕ)
    → IsConsistent k
    → let (b, k') = sema_try_down k s in
      ((b ≡ true) ↔ (0 < (k.semas s).value))
      × ((k'.semas s).value ≡ (k.semas s).value - 1)
      × (b ≡ false → k' ≡ k)
      × IsConsistent k'
unfolding sema_try_down
sema_try_down_correct k s c = elim (Bool-cases (ltb 0 (k.semas s).value)) [
  | inl h ↦ rw h ((λ _. ltb→lt 0 _ h, λ _. refl), ground arith, λ e. cc, lowered-IsConsistent k s c)
  | inr h ↦ rw h ((λ e. cc, λ p. ground arith), ground arith, λ _. refl, c)
]
