-- ===== src/Threads/Yield.antt =====
-- thread_block, thread_yield, thread_unblock and thread_set_priority of threads/thread.c keep the
-- ready list and the thread states in agreement.
use pint_os_assignment.Common.{
  ℕ, suc, ◌≡◌, ◌≢◌, count, refl, false, not, arith, ◌==◌, if◌then◌else◌, ok, assert_ok, if_of_false,
  ◌∙◌,
}
use pint_os_assignment.KernelList.{list_insert_ordered}
use pint_os_assignment.KernelList.Count.{count-insert}
use pint_os_assignment.Kernel.{
  Status, running, ready, blocked, is_status, Kernel, set_thread, set_status,
  great_priority_threads,
}
use pint_os_assignment.Threads.{
  thread_unblock, thread_block, thread_yield, thread_update_priority, thread_set_priority,
}
use pint_os_assignment.Threads.Invariant.{IsRunning, IsSwitching}
use pint_os_assignment.Threads.Schedule.{Switched, schedule_switches}
use pint_os_assignment.Threads.Priority.{update_priority-SameQueues, update_priority-IsRunning}

-- The state in which thread_yield calls schedule().
abbrev pub yielding : Kernel → Kernel
yielding k =
    let queue = list_insert_ordered (great_priority_threads k) k.ready_list k.cur in
    let ready_list' = if k.cur == k.idle_thread then k.ready_list else queue in
    set_status (record k { ready_list = ready_list' }) k.cur ready

pub yielding-IsSwitching : (k : Kernel) → IsRunning k → IsSwitching (yielding k)
yielding-IsSwitching k w = record {
  none_runs = λ t h. ground (arith, w.only_cur t);
  queued = λ t.
      ground (
        arith,
        w.queued t,
        w.cur_runs,
        count-insert (great_priority_threads k) k.ready_list k.cur t,
      );
}

pub stopped-IsSwitching :
    (k : Kernel) (s : Status)
    → (is_status s running ≡ false)
    → (is_status s ready ≡ false)
    → IsRunning k
    → IsSwitching (set_status k k.cur s)
stopped-IsSwitching k s h h' w = record {
  none_runs = λ t e. ground (arith, w.only_cur t);
  queued = λ t. ground (arith, w.queued t, w.cur_runs);
}

-- Outside an interrupt, thread_yield fails no assertion: it queues the current thread, unless that
-- is the idle thread, and runs a thread of highest priority among those then ready.
pub thread_yield_switches :
    (k : Kernel)
    → IsRunning k
    → k.in_interrupt ≡ false
    → (k' : Kernel) × (thread_yield k ≡ ok k') × Switched (yielding k) k'
unfolding thread_yield
thread_yield_switches k w h =
    let (k', e, v, f) = schedule_switches (yielding k) (yielding-IsSwitching k w) in
    (k', assert_ok (not k.in_interrupt) _ (ground arith) ∙ e, v)

-- Outside an interrupt, thread_block fails no assertion: it leaves the current thread blocked and
-- off the ready list, and runs a thread of highest priority among those ready.
pub thread_block_switches :
    (k : Kernel)
    → IsRunning k
    → k.in_interrupt ≡ false
    → (k' : Kernel) × (thread_block k ≡ ok k') × Switched (set_status k k.cur blocked) k'
unfolding thread_block
thread_block_switches k w h =
    let (k', e, v, f) =
      schedule_switches (set_status k k.cur blocked) (stopped-IsSwitching k blocked refl refl w) in
    (k', assert_ok (not k.in_interrupt) _ (ground arith) ∙ e, v)

-- The state that thread_unblock returns.
abbrev pub unblocked : Kernel → ℕ → Kernel
unblocked k t =
    set_status
      (record k { ready_list = list_insert_ordered (great_priority_threads k) k.ready_list t }) t
      ready

pub thread_unblock-eq-ok :
    (k : Kernel) (t : ℕ) → (k.threads t).status ≡ blocked → thread_unblock k t ≡ ok (unblocked k t)
unfolding thread_unblock
thread_unblock-eq-ok k t h = assert_ok (is_status (k.threads t).status blocked) _ (ground arith)

-- Of a thread that was blocked: it is ready, in its place in the ready list, and nothing else
-- changed.
pub record IsUnblocked (k k' : Kernel) (t : ℕ) : Type 0 where
  pub is_ready : (k'.threads t).status ≡ ready
  pub threads_kept : (u : ℕ) → u ≢ t → k'.threads u ≡ k.threads u
  pub queued : k'.ready_list ≡ list_insert_ordered (great_priority_threads k) k.ready_list t
  pub listed : count t k'.ready_list ≡ suc (count t k.ready_list)
  pub others_listed : (u : ℕ) → u ≢ t → count u k'.ready_list ≡ count u k.ready_list

pub thread_unblock-IsUnblocked :
    (k : Kernel) (t : ℕ)
    → (k.threads t).status ≡ blocked
    → (thread_unblock k t ≡ ok (unblocked k t)) × IsUnblocked k (unblocked k t) t
thread_unblock-IsUnblocked k t h = (
  thread_unblock-eq-ok k t h,
  record {
    is_ready = ground arith;
    threads_kept = λ u n. ground (arith, n);
    queued = refl;
    listed = ground (arith, count-insert (great_priority_threads k) k.ready_list t t);
    others_listed =
        λ u n. ground (arith, n, count-insert (great_priority_threads k) k.ready_list t u);
  },
)

pub unblocked-IsRunning :
    (k : Kernel) (t : ℕ)
    → IsRunning k
    → (t == k.idle_thread) ≡ false
    → (k.threads t).status ≡ blocked
    → IsRunning (unblocked k t)
unblocked-IsRunning k t w n h = record {
  cur_runs = ground (arith, w.cur_runs);
  only_cur = λ u e. ground (arith, w.only_cur u);
  queued =
      λ u. ground (arith, w.queued u, count-insert (great_priority_threads k) k.ready_list t u);
}

abbrev pub set_own : Kernel → ℕ → Kernel
set_own k p = set_thread k k.cur (record (k.threads k.cur) { original_priority = p })

set_own-IsRunning : (k : Kernel) (p : ℕ) → IsRunning k → IsRunning (set_own k p)
set_own-IsRunning k p w = record {
  cur_runs = ground (arith, w.cur_runs);
  only_cur = λ u e. ground (arith, w.only_cur u);
  queued = λ u. ground (arith, w.queued u);
}

-- Outside an interrupt, thread_set_priority sets the thread's own priority, works out the effective
-- one, and yields.
thread_set_priority_switches :
    (k : Kernel) (p : ℕ)
    → IsRunning k
    → k.in_interrupt ≡ false
    → (k' : Kernel) × (thread_set_priority k p ≡ ok k')
      × Switched (yielding (thread_update_priority (set_own k p) k.cur)) k'
unfolding thread_set_priority
thread_set_priority_switches k p w h =
    let (k', e, s) =
      thread_yield_switches (thread_update_priority (set_own k p) k.cur)
        (update_priority-IsRunning (set_own k p) k.cur (set_own-IsRunning k p w))
        ((update_priority-SameQueues (set_own k p) k.cur).interrupt ∙ h) in
    (k', if_of_false k.in_interrupt _ _ h ∙ e, s)
