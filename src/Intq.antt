-- ===== src/Intq.antt =====
-- devices/intq.c: the circular byte queue between threads and interrupt handlers. The loops of
-- intq_getc() and intq_putc() take the queue's lock before each wait; `intq_getc` and `intq_putc`
-- are one round of the loop, from its test on, and `wait` is called with the lock held.
pub mod Ring
pub mod Bytes
use pint_os_assignment.Common.{
  ℕ, ◌+◌, ◌%◌, Bool, not, Option, none, some, ◌==◌, if◌then◌else◌, update, Result, ok, ◌>>=◌, ◌>>◌,
  assert,
}
use pint_os_assignment.Kernel.{Kernel}
use pint_os_assignment.Threads.{thread_block, thread_unblock}
use pint_os_assignment.Synch.{lock_init}

abbrev pub intq_bufsize : ℕ
intq_bufsize = 64

-- `struct intq`, with the address of its lock. `buf` maps a position to its byte.
pub record Intq : Type 0 where
  pub lock : ℕ
  pub not_full : Option ℕ
  pub not_empty : Option ℕ
  pub buf : ℕ → ℕ
  pub head : ℕ
  pub tail : ℕ

abbrev pub next : ℕ → ℕ
next pos = (pos + 1) % intq_bufsize

unfoldable pub intq_init : Kernel → Intq → Intq × Kernel
intq_init k q =
    (record q { not_full = none; not_empty = none; head = 0; tail = 0 }, lock_init k q.lock)

abbrev pub intq_empty : Intq → Bool
intq_empty q = q.head == q.tail

abbrev pub intq_full : Intq → Bool
intq_full q = next q.head == q.tail

-- The caller of wait() waits for one of the two conditions, which does not hold.
unfoldable pub wait_not_empty : Kernel → Intq → Result (Intq × Kernel)
wait_not_empty k q = do
  assert (not k.in_interrupt)
  assert (intq_empty q)
  k' ← thread_block k
  ok (record q { not_empty = some k.cur }, k')

unfoldable pub wait_not_full : Kernel → Intq → Result (Intq × Kernel)
wait_not_full k q = do
  assert (not k.in_interrupt)
  assert (intq_full q)
  k' ← thread_block k
  ok (record q { not_full = some k.cur }, k')

-- signal() for the waiting thread, if any; the condition that it is told of must hold. Its callers
-- reset the queue's waiter.
unfoldable pub signal : Kernel → Bool → Option ℕ → Result Kernel
signal k holds none = do assert holds; ok k
signal k holds (some t) = do assert holds; thread_unblock k t

-- intq_getc() after its loop.
unfoldable pub take_byte : Kernel → Intq → Result (ℕ × (Intq × Kernel))
take_byte k q =
    let q' = record q { tail = next q.tail } in
    do
      k' ← signal k (not (intq_full q')) q'.not_full
      ok (q.buf q.tail, (record q' { not_full = none }, k'))

-- intq_putc() after its loop.
unfoldable pub put_byte : Kernel → Intq → ℕ → Result (Intq × Kernel)
put_byte k q byte =
    let q' = record q { buf = update q.buf q.head byte; head = next q.head } in
    do k' ← signal k (not (intq_empty q')) q'.not_empty; ok (record q' { not_empty = none }, k')

-- `none` is the decision to wait.
unfoldable pub intq_getc : Kernel → Intq → Result (Option (ℕ × (Intq × Kernel)))
intq_getc k q =
    if intq_empty q
    then (do assert (not k.in_interrupt); ok none)
    else do r ← take_byte k q; ok (some r)

unfoldable pub intq_putc : Kernel → Intq → ℕ → Result (Option (Intq × Kernel))
intq_putc k q byte =
    if intq_full q
    then (do assert (not k.in_interrupt); ok none)
    else do r ← put_byte k q byte; ok (some r)
