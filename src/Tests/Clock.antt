-- ===== src/Tests/Clock.antt =====
-- A timer interrupt on the small machine, with threads 3 and 4 asleep, thread 3 on the
-- semaphore 5 of its own.
use pint_os_assignment.Common.{ℕ, suc, ◌+◌, ◌≡◌, refl, true, List, [], ◌∷◌, ok}
use pint_os_assignment.Common.Int.{pos}
use pint_os_assignment.KernelList.{is_sorted, is_sorted_from}
use pint_os_assignment.Kernel.{Kernel}
use pint_os_assignment.Threads.{thread_tick}
use pint_os_assignment.Synch.Waiters.{IsConsistent}
use pint_os_assignment.Timer.{Timer, less_sleeping_threads, timer_interrupt}
use pint_os_assignment.Timer.Woken.{AllWoken}
use pint_os_assignment.Timer.Wake.{timer_interrupt_wakes}
use pint_os_assignment.Tests.Machine.{machine, machine-IsConsistent}

abbrev interrupted : Kernel
interrupted = record machine {
  in_interrupt = true;
  threads = λ t. record (machine.threads t) { sleep_semaphore = t + 2 };
}

interrupted-IsConsistent : IsConsistent interrupted
interrupted-IsConsistent = record {
  is_running = record {
    cur_runs = refl;
    only_cur = machine-IsConsistent.is_running.only_cur;
    queued = machine-IsConsistent.is_running.queued;
  };
  waiters = record {
    asleep = machine-IsConsistent.waiters.asleep;
    not_idle = machine-IsConsistent.waiters.not_idle;
    once = machine-IsConsistent.waiters.once;
    apart = machine-IsConsistent.waiters.apart;
  };
}

abbrev clock : Timer
clock = record {
  ticks = 7;
  sleeping_threads = 3 ∷ 4 ∷ [];
  load_average = pos 0;
  all_list = 1 ∷ 2 ∷ 3 ∷ 4 ∷ [];
}

clock_sorted : is_sorted (less_sleeping_threads interrupted) (3 ∷ 4 ∷ []) ≡ true
unfolding is_sorted is_sorted_from
clock_sorted = refl

timer_interrupt_wakes_example :
    (left : List ℕ) × (k' : Kernel) × (timer_interrupt interrupted clock
      ≡ ok (
        record clock { ticks = suc 7; sleeping_threads = left },
        (k', (thread_tick interrupted).1),
      ))
    × AllWoken interrupted k' (suc 7) (3 ∷ 4 ∷ []) left
timer_interrupt_wakes_example =
    timer_interrupt_wakes interrupted clock interrupted-IsConsistent refl refl clock_sorted
