-- ===== src/Synch/System.antt =====
-- Threads that interleave in any way over the kernel: each step is one stretch of threads/synch.c or
-- threads/thread.c that runs with interrupts off, by the thread that is current, and between any two
-- steps a timer interrupt or a yield may come.
use pint_os_assignment.Common.{ℕ, ◌≡◌, ◌≢◌, ◌⊎◌, Bool, if◌then◌else◌, update, ok}
use pint_os_assignment.Kernel.{Kernel}
use pint_os_assignment.Threads.{thread_yield, thread_set_priority}
use pint_os_assignment.Synch.{
  sema_down, sema_up, lock_acquire_start, lock_acquire_finish, lock_try_acquire, lock_release,
}

-- Where a thread stands: in no function of synch.c, in the loop of sema_down() on a semaphore, in
-- that loop inside lock_acquire(), or between its end and the rest of lock_acquire().
pub data Pc : Type 0 where
  free : Pc
  downing : ℕ → Pc
  acquiring : ℕ → Pc
  took : ℕ → Pc

pub record System : Type 0 where
  pub kernel : Kernel
  pub pc : ℕ → Pc

-- The current thread goes on to `p`, in kernel state `k`.
abbrev pub goes : System → Kernel → Pc → System
goes s k p = record { kernel = k; pc = update s.pc s.kernel.cur p }

abbrev pub address_of : Kernel → ℕ → ℕ
address_of k l = (k.locks l).semaphore

-- A semaphore that is inside no lock.
abbrev pub IsPlain : Kernel → ℕ → Type 0
IsPlain k m = (l : ℕ) → address_of k l ≢ m

pub data Step (s t : System) : Type 0 where
  down :
      (m : ℕ) (b : Bool) (k' : Kernel)
      → IsPlain s.kernel m
      → (s.pc s.kernel.cur ≡ free) ⊎ (s.pc s.kernel.cur ≡ downing m)
      → sema_down s.kernel m ≡ ok (b, k')
      → t ≡ goes s k' (if b then free else downing m)
      → Step s t
  up :
      (m : ℕ) (k' : Kernel)
      → IsPlain s.kernel m
      → sema_up s.kernel m ≡ ok k'
      → t ≡ record s { kernel = k' }
      → Step s t
  start :
      (fuel l : ℕ) (k' : Kernel)
      → s.pc s.kernel.cur ≡ free
      → lock_acquire_start fuel s.kernel l ≡ ok k'
      → t ≡ goes s k' (acquiring l)
      → Step s t
  try_semaphore :
      (l : ℕ) (b : Bool) (k' : Kernel)
      → s.pc s.kernel.cur ≡ acquiring l
      → sema_down s.kernel (address_of s.kernel l) ≡ ok (b, k')
      → t ≡ goes s k' (if b then took l else acquiring l)
      → Step s t
  finish :
      (l : ℕ)
      → s.pc s.kernel.cur ≡ took l
      → t ≡ goes s (lock_acquire_finish s.kernel l) free
      → Step s t
  try_acquire :
      (l : ℕ) (b : Bool) (k' : Kernel)
      → s.pc s.kernel.cur ≡ free
      → lock_try_acquire s.kernel l ≡ ok (b, k')
      → t ≡ record s { kernel = k' }
      → Step s t
  release :
      (l : ℕ) (k' : Kernel)
      → s.pc s.kernel.cur ≡ free
      → lock_release s.kernel l ≡ ok k'
      → t ≡ record s { kernel = k' }
      → Step s t
  yield : (k' : Kernel) → thread_yield s.kernel ≡ ok k' → t ≡ record s { kernel = k' } → Step s t
  set_priority :
      (p : ℕ) (k' : Kernel)
      → thread_set_priority s.kernel p ≡ ok k'
      → t ≡ record s { kernel = k' }
      → Step s t
  interrupt : (b : Bool) → t ≡ record s { kernel = record s.kernel { in_interrupt = b } } → Step s t

pub data Reach (s : System) : System → Type 0 where
  here : Reach s s
  next : {t u : System} → Reach s t → Step t u → Reach s u
