-- ===== src/Synch/Waiters.antt =====
-- The threads in the waiters of the semaphores of threads/synch.c are blocked, and wait in one
-- place only.
use pint_os_assignment.Common.{
  ℕ, ◌≤◌, ◌<◌, ◌≡◌, false, List, arith, count, ◌==◌, inl, inr, Bool-cases,
}
use pint_os_assignment.Kernel.{Status, blocked, is_status, Semaphore, Kernel, set_status, set_sema}
use pint_os_assignment.Threads.Invariant.{queue_count, IsRunning, Chosen, idles, picks}
use pint_os_assignment.Threads.Schedule.{Switched}

pub record WaitersAsleep (k : Kernel) : Type 0 where
  pub asleep : (s t : ℕ) → 0 < count t (k.semas s).waiters → (k.threads t).status ≡ blocked
  pub not_idle : (s t : ℕ) → 0 < count t (k.semas s).waiters → (t == k.idle_thread) ≡ false
  pub once : (s t : ℕ) → count t (k.semas s).waiters ≤ 1
  pub apart :
      (s s' t : ℕ) → 0 < count t (k.semas s).waiters → 0 < count t (k.semas s').waiters → s ≡ s'

-- The whole invariant, of a state in which a thread runs.
pub record IsConsistent (k : Kernel) : Type 0 where
  pub is_running : IsRunning k
  pub waiters : WaitersAsleep k

-- The chosen thread is no waiter.
Chosen-not-waiter :
    (k : Kernel) (next : ℕ) (rest : List ℕ)
    → ((t : ℕ) → count t k.ready_list ≡ queue_count k t)
    → WaitersAsleep k
    → Chosen k next rest
    → (s : ℕ) → count next (k.semas s).waiters ≡ 0
Chosen-not-waiter k next rest q v (idles e r n) s = elim (Bool-cases (next == k.idle_thread)) [
  | inl h ↦ ground (arith, v.not_idle s next)
  | inr h ↦ absurd (ground arith)
]
Chosen-not-waiter k next rest q v (picks pos counts high fifo) s =
    ground (arith, q next, v.asleep s next)

-- A switch wakes none of the waiters.
pub Switched-WaitersAsleep :
    (k k' : Kernel)
    → ((t : ℕ) → count t k.ready_list ≡ queue_count k t)
    → WaitersAsleep k
    → Switched k k'
    → WaitersAsleep k'
Switched-WaitersAsleep k k' q v w =
    rw (w.threads, w.semas, w.idle)
      (record {
        asleep = λ s t h.
            ground (arith, v.asleep s t, Chosen-not-waiter k k'.cur k'.ready_list q v w.chosen s);
        not_idle = v.not_idle;
        once = v.once;
        apart = v.apart;
      })

-- Setting a semaphore's value, or the status of a thread that waits nowhere, disturbs no waiter.
pub set_value-WaitersAsleep :
    (k : Kernel) (s v : ℕ)
    → WaitersAsleep k
    → WaitersAsleep (set_sema k s (record (k.semas s) { value = v }))
set_value-WaitersAsleep k s v w = record {
  asleep = λ s' t h. ground (arith, w.asleep s' t);
  not_idle = λ s' t h. ground (arith, w.not_idle s' t);
  once = λ s' t. ground (arith, w.once s' t);
  apart = λ s' s'' t h h'. ground (arith, w.apart s' s'' t);
}

pub set_status-WaitersAsleep :
    (k : Kernel) (t : ℕ) (st : Status)
    → ((s : ℕ) → count t (k.semas s).waiters ≡ 0)
    → WaitersAsleep k
    → WaitersAsleep (set_status k t st)
set_status-WaitersAsleep k t st free w = record {
  asleep = λ s u h. ground (arith, w.asleep s u, free s);
  not_idle = w.not_idle;
  once = w.once;
  apart = w.apart;
}

-- A thread that is not blocked waits nowhere.
pub waits_nowhere :
    (k : Kernel) (t : ℕ)
    → WaitersAsleep k
    → is_status (k.threads t).status blocked ≡ false
    → (s : ℕ) → count t (k.semas s).waiters ≡ 0
waits_nowhere k t w h s = ground (arith, w.asleep s t)

pub set_ready_list-WaitersAsleep :
    (k : Kernel) (q : List ℕ) → WaitersAsleep k → WaitersAsleep (record k { ready_list = q })
set_ready_list-WaitersAsleep k q w = record {
  asleep = w.asleep;
  not_idle = w.not_idle;
  once = w.once;
  apart = w.apart;
}

-- What touches only semaphores keeps the ready list right.
pub set_sema-IsRunning :
    (k : Kernel) (s : ℕ) (v : Semaphore) → IsRunning k → IsRunning (set_sema k s v)
set_sema-IsRunning k s v w = record {
  cur_runs = w.cur_runs;
  only_cur = w.only_cur;
  queued = w.queued;
}
