-- ===== src/Threads/Schedule.antt =====
-- schedule() of threads/thread.c never fails an assertion, and what it leaves behind.
use pint_os_assignment.Common.{
  ℕ, ◌≡◌, refl, false, not, ◌&&◌, List, ◌∷◌, arith, count, ◌==◌, if◌then◌else◌, ok,
}
use pint_os_assignment.Kernel.{running, dying, is_status, Kernel, set_status}
use pint_os_assignment.Threads.{next_thread_to_run, thread_schedule_tail, schedule}
use pint_os_assignment.Threads.Invariant.{
  queue_count, IsRunning, IsSwitching, Chosen, idles, picks, next_thread_to_run_picks,
  switch_to-IsRunning,
}

-- From a state in which no thread runs to one in which the chosen thread does.
pub record Switched (k k' : Kernel) : Type 0 where
  pub is_running : IsRunning k'
  pub chosen : Chosen k k'.cur k'.ready_list
  pub threads : k'.threads ≡ (set_status k k'.cur running).threads
  pub semas : k'.semas ≡ k.semas
  pub locks : k'.locks ≡ k.locks
  pub idle : k'.idle_thread ≡ k.idle_thread
  pub initial : k'.initial_thread ≡ k.initial_thread
  pub interrupt : k'.in_interrupt ≡ k.in_interrupt
  pub mlfqs : k'.mlfqs ≡ k.mlfqs

others_queued :
    (k : Kernel) (next : ℕ) (rest : List ℕ)
    → IsSwitching k
    → Chosen k next rest
    → (t : ℕ) → (t == next) ≡ false
    → count t rest ≡ queue_count k t
others_queued k next rest w (idles e r n) t h = ground (arith, w.queued t)
others_queued k next rest w (picks pos rest_count high fifo) t h =
    ground (arith, w.queued t, rest_count t)

Chosen-gone :
    (k : Kernel) (next : ℕ) (rest : List ℕ)
    → IsSwitching k
    → Chosen k next rest
    → count next rest ≡ 0
Chosen-gone k next rest w (idles e r n) = rw r refl
Chosen-gone k next rest w (picks pos rest_count high fifo) =
    ground (arith, w.queued next, rest_count next)

Switched-of_Chosen :
    (k : Kernel) (next : ℕ) (rest : List ℕ) (freed : List ℕ)
    → IsSwitching k
    → Chosen k next rest
    → Switched k (record (set_status k next running) {
      cur = next;
      ready_list = rest;
      thread_ticks = 0;
      freed = freed;
    })
Switched-of_Chosen k next rest freed w c = record {
  is_running =
      switch_to-IsRunning k next rest w.none_runs (others_queued k next rest w c)
        (Chosen-gone k next rest w c) 0 freed;
  chosen = c;
  threads = refl;
  semas = refl;
  locks = refl;
  idle = refl;
  initial = refl;
  interrupt = refl;
  mlfqs = refl;
}

-- The pages freed by a switch away from `prev`.
abbrev pub freed_by : Kernel → ℕ → List ℕ
freed_by k next =
    if k.cur == next
    then k.freed
    else (if is_status (k.threads k.cur).status dying && not (k.cur == k.initial_thread)
        then k.cur ∷ k.freed
        else k.freed)

schedule_of_next :
    (k : Kernel) (next : ℕ) (rest : List ℕ)
    → IsSwitching k
    → next_thread_to_run k ≡ ok (next, record k { ready_list = rest })
    → schedule k
      ≡ ok (record (set_status k next running) {
        cur = next;
        ready_list = rest;
        thread_ticks = 0;
        freed = freed_by k next;
      })
unfolding schedule thread_schedule_tail
schedule_of_next k next rest w e = rw e (ground (arith, w.none_runs k.cur, w.none_runs next))

-- From a state in which no thread runs, schedule() fails no assertion, and switches to the thread
-- that next_thread_to_run picks; it frees the page of a dying thread that it switches away from,
-- unless that is the initial thread, and of no other.
pub schedule_switches :
    (k : Kernel)
    → IsSwitching k
    → (k' : Kernel) × (schedule k ≡ ok k') × Switched k k' × (k'.freed ≡ freed_by k k'.cur)
schedule_switches k w =
    let (next, rest, e, c) = next_thread_to_run_picks k in
    (
      _,
      schedule_of_next k next rest w e,
      Switched-of_Chosen k next rest (freed_by k next) w c,
      refl,
    )
