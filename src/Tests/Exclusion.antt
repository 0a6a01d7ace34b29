-- ===== src/Tests/Exclusion.antt =====
-- One thread that takes a lock and gives it back, on the small machine.
use pint_os_assignment.Common.{
  ◌≡◌, refl, true, some, arith, inl, ok, panic, no_fuel, ◌==◌, if◌then◌else◌, Result,
}
use pint_os_assignment.Kernel.{Kernel}
use pint_os_assignment.KernelList.{
  list_empty, list_front, list_remove, list_insert_ordered, list_pop_front, list_sort,
}
use pint_os_assignment.Threads.{
  thread_update_priority, thread_yield, schedule, next_thread_to_run, thread_schedule_tail,
}
use pint_os_assignment.Synch.{
  take_lock, drop_lock, sema_try_down, wake_waiter, raise_value, sema_down, sema_up,
  lock_acquire_start, lock_acquire_finish, lock_try_acquire, lock_release,
  lock_held_by_current_thread,
}
use pint_os_assignment.Synch.Down.{lowered}
use pint_os_assignment.Synch.Effect.{holder_of}
use pint_os_assignment.Synch.System.{
  free, acquiring, took, System, goes, Step, start, try_semaphore, finish, here, next,
}
use pint_os_assignment.Synch.Mutex.{unlocked}
use pint_os_assignment.Synch.Exclusion.{Inv, Step-Inv, mutual_exclusion}
use pint_os_assignment.Tests.Machine.{machine}

abbrev outset : System
outset = record { kernel = machine; pc = λ t. free }

outset-Inv : Inv outset
outset-Inv = record {
  distinct = λ l m h. omega arith;
  state = λ l. unlocked (ground arith) refl (λ t. refl);
}

abbrev asking : System
asking = goes outset machine (acquiring 0)

abbrev lowered_system : System
lowered_system = goes asking (lowered machine 100) (took 0)

abbrev holding : System
holding = goes lowered_system (lock_acquire_finish (lowered machine 100) 0) free

asks : Step outset asking
unfolding lock_acquire_start lock_held_by_current_thread
asks = start 1 0 machine refl refl refl

downs : Step asking lowered_system
unfolding sema_down
downs = try_semaphore 0 true (lowered machine 100) refl refl refl

takes : Step lowered_system holding
takes = finish 0 refl refl

Step-Inv_example : Inv asking
Step-Inv_example = Step-Inv outset asking asks outset-Inv

holds : holder_of holding.kernel 0 ≡ some 1
unfolding lock_acquire_finish take_lock thread_update_priority
holds = refl

mutual_exclusion_example : machine.cur ≡ machine.cur
mutual_exclusion_example =
    mutual_exclusion {s = outset} {s' = holding} 0 machine.cur machine.cur outset-Inv
      (next (next (next here asks) downs) takes) (inl holds) (inl holds)

abbrev owned : Kernel
owned = record machine {
  locks = λ l. if l == 0 then record (machine.locks 0) { holder = some 1 } else machine.locks l;
}

abbrev state_of : Result Kernel → Kernel
state_of (ok k) = k
state_of panic = machine
state_of no_fuel = machine

released_run : lock_release owned 0 ≡ ok (state_of (lock_release owned 0))
unfolding lock_release lock_held_by_current_thread drop_lock thread_update_priority list_front
    list_remove sema_up wake_waiter list_empty raise_value thread_yield schedule next_thread_to_run
    list_insert_ordered list_pop_front list_sort thread_schedule_tail
released_run = refl

upped_run : sema_up machine 7 ≡ ok (state_of (sema_up machine 7))
unfolding sema_up wake_waiter list_empty raise_value thread_yield schedule next_thread_to_run
    list_insert_ordered list_pop_front list_sort thread_schedule_tail
upped_run = refl

tried_run : lock_try_acquire machine 0 ≡ ok (true, lock_acquire_finish (lowered machine 100) 0)
unfolding lock_try_acquire lock_held_by_current_thread sema_try_down
tried_run = refl
