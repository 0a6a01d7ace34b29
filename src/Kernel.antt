-- ===== src/Kernel.antt =====
-- The state that threads/thread.c, threads/synch.c and devices/timer.c share. A thread, semaphore,
-- lock or condition is named by its address, a number; the state maps addresses to objects, so two
-- pointers to one object see the same writes. A function that runs with interrupts off is one step
-- from state to state, and the interrupt level itself is not part of the state.
use pint_os_assignment.Common.{ℕ, Bool, true, false, Option, List, ltb, update}
use pint_os_assignment.Common.Int.{ℤ}

-- `enum thread_status`
pub data Status : Type 0 where
  running ready blocked dying : Status

abbrev pub is_status : Status → Status → Bool
is_status running running = true
is_status ready ready = true
is_status blocked blocked = true
is_status dying dying = true
is_status _ _ = false

-- `struct thread`, the members that scheduling uses. Priorities are not negative.
pub record Thread : Type 0 where
  pub status : Status
  pub priority : ℕ
  pub original_priority : ℕ
  pub locks : List ℕ
  pub waiting_lock : Option ℕ
  pub wake_up_ticks : ℕ
  pub sleep_semaphore : ℕ
  pub nice : ℤ
  pub recent_cpu : ℤ

-- `struct semaphore`
pub record Semaphore : Type 0 where
  pub value : ℕ
  pub waiters : List ℕ

-- `struct lock`, with the address of the semaphore inside it
pub record Lock : Type 0 where
  pub holder : Option ℕ
  pub semaphore : ℕ
  pub max_priority : ℕ

pub record Kernel : Type 0 where
  pub threads : ℕ → Thread
  pub semas : ℕ → Semaphore
  pub locks : ℕ → Lock
  pub ready_list : List ℕ
  pub cur : ℕ
  pub idle_thread : ℕ
  pub initial_thread : ℕ
  pub thread_ticks : ℕ
  pub in_interrupt : Bool
  pub mlfqs : Bool
  pub freed : List ℕ

abbrev pub pri_min : ℕ
pri_min = 0

abbrev pub pri_max : ℕ
pri_max = 63

abbrev pub set_thread : Kernel → ℕ → Thread → Kernel
set_thread k t th = record k { threads = update k.threads t th }

abbrev pub set_sema : Kernel → ℕ → Semaphore → Kernel
set_sema k s v = record k { semas = update k.semas s v }

abbrev pub set_lock : Kernel → ℕ → Lock → Kernel
set_lock k l v = record k { locks = update k.locks l v }

abbrev pub set_status : Kernel → ℕ → Status → Kernel
set_status k t s = set_thread k t (record (k.threads t) { status = s })

abbrev pub great_priority_threads : Kernel → ℕ → ℕ → Bool
great_priority_threads k x y = ltb (k.threads y).priority (k.threads x).priority

abbrev pub great_priority_lock : Kernel → ℕ → ℕ → Bool
great_priority_lock k x y = ltb (k.locks y).max_priority (k.locks x).max_priority
