-- ===== src/Timer.antt =====
-- devices/timer.c: the threads that sleep until a tick, and the timer interrupt that wakes them.
-- timer_sleep() stops where it calls sema_down().
pub mod Alarm
pub mod Wake
pub mod Woken
use pint_os_assignment.Common.{
  ℕ, suc, ◌+◌, ◌*◌, ◌/◌, ◌%◌, Bool, List, [], ◌∷◌, ltb, leb, ◌==◌, if◌then◌else◌, Result, ok, ◌>>=◌,
}
use pint_os_assignment.Common.Int.{ℤ}
use pint_os_assignment.KernelList.{list_insert_ordered}
use pint_os_assignment.Kernel.{Kernel, set_thread}
use pint_os_assignment.Threads.{thread_tick}
use pint_os_assignment.Mlfqs.{
  thread_recalculate_priority, thread_update_recent_cpu_per_tick,
  thread_recalculate_load_avg_and_recent_cpu,
}
use pint_os_assignment.Synch.{sema_init, sema_up}

abbrev pub timer_freq : ℕ
timer_freq = 100

-- The static variables of timer.c, and of thread.c the load average and the list of all threads.
pub record Timer : Type 0 where
  pub ticks : ℕ
  pub sleeping_threads : List ℕ
  pub load_average : ℤ
  pub all_list : List ℕ

abbrev pub less_sleeping_threads : Kernel → ℕ → ℕ → Bool
less_sleeping_threads k x y = ltb (k.threads x).wake_up_ticks (k.threads y).wake_up_ticks

-- timer_sleep() up to its sema_down() on the thread's own semaphore.
unfoldable pub timer_sleep_start : Kernel → Timer → ℕ → Timer × Kernel
timer_sleep_start k tm ticks =
    let th = k.threads k.cur in
    let k₁ = set_thread k k.cur (record th { wake_up_ticks = tm.ticks + ticks }) in
    let k₂ = sema_init k₁ th.sleep_semaphore 0 in
    let sleeping = list_insert_ordered (less_sleeping_threads k₂) tm.sleeping_threads k.cur in
    (record tm { sleeping_threads = sleeping }, k₂)

-- The loop of timer_interrupt() over the sleeping threads.
unfoldable pub wake_sleepers : ℕ → Kernel → List ℕ → Result (List ℕ × Kernel)
wake_sleepers ticks k [] = ok ([], k)
wake_sleepers ticks k (t ∷ l) =
    let rest = (do k' ← sema_up k (k.threads t).sleep_semaphore; wake_sleepers ticks k' l) in
    if leb (k.threads t).wake_up_ticks ticks then rest else ok (t ∷ l, k)

-- What timer_interrupt() does for the feedback-queue scheduler.
unfoldable pub mlfqs_tick : Kernel → Timer → Timer × Kernel
mlfqs_tick k tm =
    let k₁ = thread_update_recent_cpu_per_tick k in
    let k₂ = if tm.ticks % 4 == 0 then thread_recalculate_priority k₁ k₁.cur else k₁ in
    let r = thread_recalculate_load_avg_and_recent_cpu k₂ tm.load_average tm.all_list in
    if tm.ticks % timer_freq == 0
    then (record tm { load_average = r.average }, r.state)
    else (tm, k₂)

-- The rest of the handler: the sleepers whose time has come are woken.
unfoldable pub finish_tick : Kernel → Timer → Bool → Result (Timer × (Kernel × Bool))
finish_tick k tm preempt = do
  (sleeping, k') ← wake_sleepers tm.ticks k tm.sleeping_threads
  ok (record tm { sleeping_threads = sleeping }, (k', preempt))

-- The handler, and whether the interrupted thread is to yield when it returns.
unfoldable pub timer_interrupt : Kernel → Timer → Result (Timer × (Kernel × Bool))
timer_interrupt k tm =
    let tm₁ = record tm { ticks = suc tm.ticks } in
    let (k₁, preempt) = thread_tick k in
    let (tm₂, k₂) = mlfqs_tick k₁ tm₁ in
    if k.mlfqs then finish_tick k₂ tm₂ preempt else finish_tick k₁ tm₁ preempt
