-- ===== src/Threads/Invariant.antt =====
-- The ready list and the thread states agree, in every state in which a thread runs.
use pint_os_assignment.Common.{
  ℕ, ◌≤◌, ◌<◌, ◌≡◌, ◌≢◌, refl, false, not, ◌&&◌, List, [], ◌∷◌, arith, count, keep, ◌-◌, ◌==◌,
  if◌then◌else◌, ok,
}
use pint_os_assignment.KernelList.{list_sort, list_pop_front, list_empty}
use pint_os_assignment.KernelList.Front.{list_sort-front}
use pint_os_assignment.KernelList.Order.{greater-IsOrder, IsOrder, All, equiv}
use pint_os_assignment.KernelList.Count.{count-sort, All-count}
use pint_os_assignment.Kernel.{
  running, ready, is_status, Kernel, set_status, great_priority_threads,
}
use pint_os_assignment.Threads.{next_thread_to_run}

-- How often a thread is to stand on the ready list: the idle thread never does.
abbrev pub queue_count : Kernel → ℕ → ℕ
queue_count k t = if is_status (k.threads t).status ready && not (t == k.idle_thread) then 1 else 0

-- One thread runs, the current one, and the ready list holds each ready thread once.
pub record IsRunning (k : Kernel) : Type 0 where
  pub cur_runs : (k.threads k.cur).status ≡ running
  pub only_cur : (t : ℕ) → (k.threads t).status ≡ running → t ≡ k.cur
  pub queued : (t : ℕ) → count t k.ready_list ≡ queue_count k t

-- Between two threads: none runs.
pub record IsSwitching (k : Kernel) : Type 0 where
  pub none_runs : (t : ℕ) → (k.threads t).status ≢ running
  pub queued : (t : ℕ) → count t k.ready_list ≡ queue_count k t

pub threads-IsOrder : (k : Kernel) → IsOrder (great_priority_threads k)
threads-IsOrder k = greater-IsOrder (λ t. (k.threads t).priority)

-- The state after a switch to `next`, with what is left of the ready list.
pub switch_to-IsRunning :
    (k : Kernel) (next : ℕ) (rest : List ℕ)
    → ((t : ℕ) → (k.threads t).status ≢ running)
    → ((t : ℕ) → (t == next) ≡ false → count t rest ≡ queue_count k t)
    → count next rest ≡ 0
    → (ticks : ℕ) (freed : List ℕ)
    → IsRunning (record (set_status k next running) {
      cur = next;
      ready_list = rest;
      thread_ticks = ticks;
      freed = freed;
    })
switch_to-IsRunning k next rest none_runs others gone ticks freed = record {
  cur_runs = ground arith;
  only_cur = λ t h. ground (arith, none_runs t);
  queued = λ t. ground (arith, others t, gone);
}

-- What next_thread_to_run takes: a thread of highest priority, the first of those, or the idle
-- thread if none is ready.
pub data Chosen (k : Kernel) (t : ℕ) (rest : List ℕ) : Type 0 where
  idles : k.ready_list ≡ [] → rest ≡ [] → t ≡ k.idle_thread → Chosen k t rest
  picks :
      0 < count t k.ready_list
      → ((a : ℕ) → count a rest ≡ count a k.ready_list - (if t == a then 1 else 0))
      → ((a : ℕ) → 0 < count a k.ready_list → (k.threads a).priority ≤ (k.threads t).priority)
      → (keep (equiv (great_priority_threads k) t) k.ready_list
          ≡ t ∷ keep (equiv (great_priority_threads k) t) rest)
      → Chosen k t rest

next_of_sorted :
    (k : Kernel) (x : ℕ) (xs l : List ℕ)
    → k.ready_list ≡ x ∷ xs
    → list_sort (great_priority_threads k) k.ready_list ≡ l
    → (t : ℕ) × (rest : List ℕ) × (next_thread_to_run k ≡ ok (t, record k { ready_list = rest }))
      × Chosen k t rest
unfolding next_thread_to_run list_empty list_pop_front
next_of_sorted k x xs [] e s =
    absurd (ground (arith, count-sort (threads-IsOrder k) k.ready_list x))
next_of_sorted k x xs (t ∷ rest) e s = (
  t,
  rest,
  ground arith,
  picks (ground (arith, count-sort (threads-IsOrder k) k.ready_list t))
      (λ a. ground (arith, count-sort (threads-IsOrder k) k.ready_list a))
      (λ a h. ground (arith, All-count _ k.ready_list a front.0 h)) front.1,
)
  where
    front :
        All (λ a. great_priority_threads k a t ≡ false) k.ready_list
        × (keep (equiv (great_priority_threads k) t) k.ready_list
            ≡ t ∷ keep (equiv (great_priority_threads k) t) rest)
    front = list_sort-front (threads-IsOrder k) k.ready_list rest t s

next_of_list :
    (k : Kernel) (l : List ℕ)
    → k.ready_list ≡ l
    → (t : ℕ) × (rest : List ℕ) × (next_thread_to_run k ≡ ok (t, record k { ready_list = rest }))
      × Chosen k t rest
unfolding next_thread_to_run list_empty
next_of_list k [] e = (k.idle_thread, k.ready_list, rw e refl, idles e e refl)
next_of_list k (x ∷ xs) e =
    next_of_sorted k x xs (list_sort (great_priority_threads k) k.ready_list) e refl

-- next_thread_to_run always returns a thread, the one of highest priority that is first on the
-- ready list, or the idle thread when the list is empty, and takes just that one off the list.
pub next_thread_to_run_picks :
    (k : Kernel)
    → (t : ℕ) × (rest : List ℕ) × (next_thread_to_run k ≡ ok (t, record k { ready_list = rest }))
      × Chosen k t rest
next_thread_to_run_picks k = next_of_list k k.ready_list refl
