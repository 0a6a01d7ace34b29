-- ===== src/Tests/Locks.antt =====
-- Runs of threads/synch.c on the small machine.
use pint_os_assignment.Common.{
  ℕ, ◌<◌, ◌≡◌, ◌≢◌, refl, true, some, [], ◌∷◌, arith, ok, panic, no_fuel, ◌==◌, if◌then◌else◌,
  Result,
}
use pint_os_assignment.Kernel.{Kernel}
use pint_os_assignment.Threads.{thread_donate_priority, thread_update_priority}
use pint_os_assignment.Synch.{wake_waiter, sema_up, donate_to, donate_chain, lock_acquire_start}
use pint_os_assignment.Synch.Waiters.{IsConsistent}
use pint_os_assignment.Synch.Up.{Woken, wake_waiter_first}
use pint_os_assignment.Synch.Donate.{room, room-le, IsBounded, donate_chain_ends}
use pint_os_assignment.Synch.Raise.{Donated, donate_chain_raises, lock_acquire_faults}
use pint_os_assignment.KernelList.{list_empty}
use pint_os_assignment.Synch.{lock_held_by_current_thread, Condition, cond_signal}
use pint_os_assignment.Synch.Conditions.{
  all_asleep, IsSignalled, cond_signal_wakes, cond_signal_faults,
}
use pint_os_assignment.Tests.Machine.{machine, machine-IsConsistent}

wake_waiter_first_example : Woken machine 5 (wake_waiter machine 5)
wake_waiter_first_example = wake_waiter_first machine 5

-- Thread 2 holds lock 0 and waits for lock 1, which thread 3 holds.
abbrev contended : Kernel
contended = record machine {
  threads = λ t.
      if t == 2
      then record (machine.threads 2) { locks = 0 ∷ []; waiting_lock = some 1 }
      else (if t == 3 then record (machine.threads 3) { locks = 1 ∷ [] } else machine.threads t);
  locks = λ l.
      if l == 0
      then record (machine.locks 0) { holder = some 2 }
      else (if l == 1 then record (machine.locks 1) { holder = some 3 } else machine.locks l);
}

contended-IsBounded : IsBounded 63 2 contended
contended-IsBounded = record {
  priority = λ t. ground arith;
  own = λ t. ground arith;
  recorded = λ l. ground arith;
  waited = λ t l h. ground arith;
}

contended_room : room 63 2 contended.locks < 127
contended_room = omega (arith, room-le 63 2 contended.locks)

donate_chain_ends_example : donate_chain 127 contended (some 0) ≢ no_fuel
donate_chain_ends_example =
    donate_chain_ends 63 2 127 contended (some 0) contended-IsBounded (λ m h. ground arith)
      contended_room

abbrev state_of : Result Kernel → Kernel
state_of (ok k) = k
state_of panic = contended
state_of no_fuel = contended

donated_run : donate_chain 8 contended (some 0) ≡ ok (state_of (donate_chain 8 contended (some 0)))
unfolding donate_chain donate_to thread_donate_priority thread_update_priority
donated_run = refl

donate_chain_raises_example : Donated 40 0 2 (state_of (donate_chain 8 contended (some 0)))
donate_chain_raises_example =
    donate_chain_raises 0 2 8 contended (state_of (donate_chain 8 contended (some 0))) refl
      (omega arith) (omega arith) donated_run

-- Thread 2 holds lock 0 and names lock 1, which its holder has released.
abbrev released : Kernel
released = record contended { locks = λ l. if l == 1 then machine.locks 1 else contended.locks l }

lock_acquire_faults_example : lock_acquire_start 10 released 0 ≡ panic
lock_acquire_faults_example =
    lock_acquire_faults 8 0 2 1 released refl refl refl refl (omega arith) refl (omega arith) refl
      (omega arith)

-- The machine with lock 0 held by the current thread.
abbrev owned : Kernel
owned = record machine {
  locks = λ l. if l == 0 then record (machine.locks 0) { holder = some 1 } else machine.locks l;
}

owned-IsConsistent : IsConsistent owned
owned-IsConsistent = record {
  is_running = record {
    cur_runs = refl;
    only_cur = machine-IsConsistent.is_running.only_cur;
    queued = machine-IsConsistent.is_running.queued;
  };
  waiters = record {
    asleep = machine-IsConsistent.waiters.asleep;
    not_idle = machine-IsConsistent.waiters.not_idle;
    once = machine-IsConsistent.waiters.once;
    apart = machine-IsConsistent.waiters.apart;
  };
}

owned_held : lock_held_by_current_thread owned 0 ≡ true
unfolding lock_held_by_current_thread
owned_held = refl

asleep_5 : all_asleep owned (5 ∷ []) ≡ true
unfolding list_empty
asleep_5 = refl

cond_signal_wakes_example :
    (s : ℕ) × (rest : Condition) × (k' : Kernel) × (cond_signal owned (5 ∷ []) 0 ≡ ok (rest, k'))
    × IsSignalled owned (5 ∷ []) rest s
    × (sema_up owned s ≡ ok k')
    × IsConsistent k'
cond_signal_wakes_example =
    cond_signal_wakes owned (5 ∷ []) 0 5 owned-IsConsistent refl owned_held asleep_5 (omega arith)

cond_signal_faults_example : cond_signal owned (5 ∷ 7 ∷ []) 0 ≡ panic
cond_signal_faults_example =
    cond_signal_faults owned (5 ∷ 7 ∷ []) 0 7 refl owned_held (omega arith) (omega arith) refl
