-- ===== src/Threads/Priority.antt =====
-- thread_update_priority and thread_donate_priority of threads/thread.c.
use pint_os_assignment.Common.{
  ℕ, ◌≤◌, ◌<◌, ◌≡◌, ◌⊎◌, refl, false, none, some, List, [], ◌∷◌, arith, count, ◌==◌, ==_refl,
  Bool-cases, ltb, if◌then◌else◌, inl, inr,
}
use pint_os_assignment.KernelList.{list_sort, list_front, list_remove}
use pint_os_assignment.KernelList.Front.{list_sort-front}
use pint_os_assignment.KernelList.Order.{greater-IsOrder, IsOrder}
use pint_os_assignment.KernelList.Count.{count-insert, count-sort, count-remove, All-count}
use pint_os_assignment.Kernel.{
  ready, is_status, Kernel, pri_min, great_priority_threads, great_priority_lock,
}
use pint_os_assignment.Threads.{thread_update_priority, thread_donate_priority}
use pint_os_assignment.Threads.Invariant.{IsRunning}

pub locks-IsOrder : (k : Kernel) → IsOrder (great_priority_lock k)
locks-IsOrder k = greater-IsOrder (λ l. (k.locks l).max_priority)

-- `p` is the effective priority of a thread: its own, or one that a held lock passes on to it.
pub record IsEffective (k : Kernel) (own : ℕ) (held : List ℕ) (p : ℕ) : Type 0 where
  pub at_least_own : own ≤ p
  pub at_least_donated : (l : ℕ) → 0 < count l held → (k.locks l).max_priority ≤ p
  pub attained : (p ≡ own) ⊎ ((l : ℕ) × (0 < count l held) × (p ≡ (k.locks l).max_priority))

IsEffective-of_sorted :
    (k : Kernel) (own : ℕ) (held sorted : List ℕ)
    → list_sort (great_priority_lock k) held ≡ sorted
    → let donated : ℕ = elim (list_front sorted) [
      | none ↦ pri_min
      | some l ↦ (k.locks l).max_priority
    ] in
      IsEffective k own held (if ltb donated own then own else donated)
unfolding list_front
IsEffective-of_sorted k own held [] e = record {
  at_least_own = ground arith;
  at_least_donated = λ l h. absurd (ground (arith, count-sort (locks-IsOrder k) held l));
  attained = ground arith;
}
IsEffective-of_sorted k own held (m ∷ rest) e =
    let front = (list_sort-front (locks-IsOrder k) held rest m e).0 in
    record {
      at_least_own = ground arith;
      at_least_donated = λ l h. ground (arith, All-count _ held l front h);
      attained = elim (Bool-cases (ltb (k.locks m).max_priority own)) [
        | inl above ↦ rw above (inl refl)
        | inr below ↦ rw below (inr (m, ground (arith, count-sort (locks-IsOrder k) held m), refl))
      ];
    }

-- thread_update_priority gives the thread the greatest of its own priority and those that its
-- locks pass on, keeps the locks that it holds, and changes no other thread and no status.
pub thread_update_priority_correct :
    (k : Kernel) (t : ℕ)
    → let k' = thread_update_priority k t in
      IsEffective k (k.threads t).original_priority (k.threads t).locks (k'.threads t).priority
      × ((l : ℕ) → count l (k'.threads t).locks ≡ count l (k.threads t).locks)
      × ((u : ℕ) → (u == t) ≡ false → k'.threads u ≡ k.threads u)
      × ((u : ℕ) → (k'.threads u).status ≡ (k.threads u).status)
unfolding thread_update_priority
thread_update_priority_correct k t =
    let held = (k.threads t).locks in
    let sorted = list_sort (great_priority_lock k) held in
    rw ==_refl (
      IsEffective-of_sorted k (k.threads t).original_priority held sorted refl,
      λ l. count-sort (locks-IsOrder k) held l,
      λ u h. ground arith,
      λ u. ground arith,
    )

-- What an operation on a thread's priority leaves as it is.
pub record SameQueues (k k' : Kernel) : Type 0 where
  pub cur : k'.cur ≡ k.cur
  pub idle : k'.idle_thread ≡ k.idle_thread
  pub interrupt : k'.in_interrupt ≡ k.in_interrupt
  pub mlfqs : k'.mlfqs ≡ k.mlfqs
  pub semas : k'.semas ≡ k.semas
  pub locks : k'.locks ≡ k.locks

pub update_priority-SameQueues : (k : Kernel) (t : ℕ) → SameQueues k (thread_update_priority k t)
unfolding thread_update_priority
update_priority-SameQueues k t = record {
  cur = refl;
  idle = refl;
  interrupt = refl;
  mlfqs = refl;
  semas = refl;
  locks = refl;
}

pub update_priority-IsRunning :
    (k : Kernel) (t : ℕ) → IsRunning k → IsRunning (thread_update_priority k t)
unfolding thread_update_priority
update_priority-IsRunning k t w = record {
  cur_runs = ground (arith, w.cur_runs);
  only_cur = λ u h. ground (arith, w.only_cur u);
  queued = λ u. ground (arith, w.queued u);
}

-- Moving a ready thread within the ready list leaves the list's members alone.
pub donate_priority-IsRunning :
    (k : Kernel) (t : ℕ)
    → (t == k.idle_thread) ≡ false
    → IsRunning k
    → IsRunning (thread_donate_priority k t)
unfolding thread_donate_priority
donate_priority-IsRunning k t h w =
    let k' = thread_update_priority k t in
    let v = update_priority-IsRunning k t w in
    elim (Bool-cases (is_status (k'.threads t).status ready)) [
      | inl e ↦ rw e (record {
        cur_runs = v.cur_runs;
        only_cur = v.only_cur;
        queued = λ u. ground (
          arith,
          v.queued u,
          v.queued t,
          (update_priority-SameQueues k t).idle,
          count-insert (great_priority_threads k') (list_remove k'.ready_list t) t u,
          count-remove k'.ready_list t u,
        );
      })
      | inr e ↦ rw e v
    ]
