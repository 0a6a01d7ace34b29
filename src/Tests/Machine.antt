-- ===== src/Tests/Machine.antt =====
-- A machine of four threads: 1 runs at priority 40, 2 is ready at 20, 3 sleeps at 50 on semaphore 5,
-- and 0 is the idle thread. Lock `l` has the semaphore at address `l + 100`.
use pint_os_assignment.Common.{ℕ, ◌+◌, refl, false, none, [], ◌∷◌, arith, ◌==◌, if◌then◌else◌}
use pint_os_assignment.Common.Int.{pos}
use pint_os_assignment.Kernel.{
  Status, running, ready, blocked, dying, Thread, Semaphore, Lock, Kernel,
}
use pint_os_assignment.Threads.Invariant.{IsRunning, IsSwitching}
use pint_os_assignment.Synch.Waiters.{IsConsistent}

abbrev pub thread_of : Status → ℕ → Thread
thread_of s p = record {
  status = s;
  priority = p;
  original_priority = p;
  locks = [];
  waiting_lock = none;
  wake_up_ticks = 0;
  sleep_semaphore = 0;
  nice = pos 0;
  recent_cpu = pos 0;
}

abbrev pub threads_of : Status → ℕ → Thread
threads_of s t =
    if t == 1 then thread_of s 40 else if t == 2 then thread_of ready 20 else thread_of blocked 50

abbrev pub semas_of : ℕ → Semaphore
semas_of s =
    if s == 5 then record { value = 0; waiters = 3 ∷ [] } else record { value = 1; waiters = [] }

abbrev pub locks_of : ℕ → Lock
locks_of l = record { holder = none; semaphore = l + 100; max_priority = 0 }

abbrev pub machine_of : Status → Kernel
machine_of s = record {
  threads = threads_of s;
  semas = semas_of;
  locks = locks_of;
  ready_list = 2 ∷ [];
  cur = 1;
  idle_thread = 0;
  initial_thread = 1;
  thread_ticks = 0;
  in_interrupt = false;
  mlfqs = false;
  freed = [];
}

abbrev pub machine : Kernel
machine = machine_of running

pub machine-IsRunning : IsRunning machine
machine-IsRunning = record {
  cur_runs = refl;
  only_cur = λ t h. ground arith;
  queued = λ t. ground arith;
}

pub machine-IsSwitching : IsSwitching (machine_of dying)
machine-IsSwitching = record { none_runs = λ t h. ground arith; queued = λ t. ground arith }

pub machine-IsConsistent : IsConsistent machine
machine-IsConsistent = record {
  is_running = machine-IsRunning;
  waiters = record {
    asleep = λ s t h. ground arith;
    not_idle = λ s t h. ground arith;
    once = λ s t. ground arith;
    apart = λ s u t h h'. ground arith;
  };
}
