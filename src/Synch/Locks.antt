-- ===== src/Synch/Locks.antt =====
-- lock_release() and lock_acquire() of threads/synch.c fail no assertion and keep the kernel
-- consistent.
use pint_os_assignment.Common.{
  ℕ, ◌≡◌, refl, true, false, some, arith, if◌then◌else◌, inl, inr, Bool-cases, ok, assert_ok, ◌∙◌,
}
use pint_os_assignment.Kernel.{Thread, Lock, Kernel, set_thread, set_lock}
use pint_os_assignment.Threads.{thread_update_priority}
use pint_os_assignment.Synch.{
  lock_held_by_current_thread, take_lock, lock_acquire_finish, drop_lock, lock_release,
}
use pint_os_assignment.Synch.Waiters.{IsConsistent}
use pint_os_assignment.Synch.Up.{sema_up-IsConsistent}

-- Two states with the same queues and the same statuses.
record SameSleepers (k k' : Kernel) : Type 0 where
  cur : k'.cur ≡ k.cur
  idle : k'.idle_thread ≡ k.idle_thread
  ready_list : k'.ready_list ≡ k.ready_list
  semas : k'.semas ≡ k.semas
  status : (t : ℕ) → (k'.threads t).status ≡ (k.threads t).status

SameSleepers-IsConsistent : {k k' : Kernel} → SameSleepers k k' → IsConsistent k → IsConsistent k'
SameSleepers-IsConsistent {k} {k'} s c = record {
  is_running = record {
    cur_runs = rw s.cur (s.status k.cur ∙ c.is_running.cur_runs);
    only_cur = λ t h. rw s.cur (ground (arith, c.is_running.only_cur t, s.status t));
    queued = λ t. rw (s.ready_list, s.idle, s.status t) (c.is_running.queued t);
  };
  waiters = rw s.semas (record {
    asleep = λ m t h. s.status t ∙ c.waiters.asleep m t h;
    not_idle = λ m t h. rw s.idle (c.waiters.not_idle m t h);
    once = c.waiters.once;
    apart = c.waiters.apart;
  });
}

drop_lock-SameSleepers : (k : Kernel) (l : ℕ) → SameSleepers k (drop_lock k l)
unfolding drop_lock thread_update_priority
drop_lock-SameSleepers k l = elim (Bool-cases k.mlfqs) [
  | inl h ↦
      rw h (record { cur = refl; idle = refl; ready_list = refl; semas = refl; status = λ t. refl })
  | inr h ↦ rw h (record {
    cur = refl;
    idle = refl;
    ready_list = refl;
    semas = refl;
    status = λ t. ground arith;
  })
]

SameSleepers-trans :
    {k k' k'' : Kernel} → SameSleepers k k' → SameSleepers k' k'' → SameSleepers k k''
SameSleepers-trans a b = record {
  cur = b.cur ∙ a.cur;
  idle = b.idle ∙ a.idle;
  ready_list = b.ready_list ∙ a.ready_list;
  semas = b.semas ∙ a.semas;
  status = λ t. b.status t ∙ a.status t;
}

set_thread-SameSleepers :
    (k : Kernel) (t : ℕ) (th : Thread)
    → th.status ≡ (k.threads t).status
    → SameSleepers k (set_thread k t th)
set_thread-SameSleepers k t th e = record {
  cur = refl;
  idle = refl;
  ready_list = refl;
  semas = refl;
  status = λ u. ground arith;
}

set_lock-SameSleepers : (k : Kernel) (l : ℕ) (v : Lock) → SameSleepers k (set_lock k l v)
set_lock-SameSleepers k l v = record {
  cur = refl;
  idle = refl;
  ready_list = refl;
  semas = refl;
  status = λ u. refl;
}

update_priority-SameSleepers : (k : Kernel) (t : ℕ) → SameSleepers k (thread_update_priority k t)
unfolding thread_update_priority
update_priority-SameSleepers k t = set_thread-SameSleepers k t _ refl

take_lock-SameSleepers : (k : Kernel) (l : ℕ) → SameSleepers k (take_lock k l)
unfolding take_lock
take_lock-SameSleepers k l = SameSleepers-trans (set_thread-SameSleepers k k.cur _ refl) (
    SameSleepers-trans (set_lock-SameSleepers _ l _) (
      SameSleepers-trans (set_thread-SameSleepers _ k.cur _ refl)
        (update_priority-SameSleepers _ k.cur)))

finish-SameSleepers : (k : Kernel) (l : ℕ) → SameSleepers k (lock_acquire_finish k l)
unfolding lock_acquire_finish
finish-SameSleepers k l =
    let owned = set_lock-SameSleepers k l (record (k.locks l) { holder = some k.cur }) in
    let k' = set_lock k l (record (k.locks l) { holder = some k.cur }) in
    elim k.mlfqs as (λ b. SameSleepers k (if b then k' else take_lock k' l)) [
      | true ↦ owned
      | false ↦ SameSleepers-trans owned (take_lock-SameSleepers k' l)
    ]

-- From a consistent state in which the current thread holds the lock, lock_release fails no
-- assertion and leaves the kernel consistent.
lock_release-IsConsistent :
    (k : Kernel) (l : ℕ)
    → IsConsistent k
    → lock_held_by_current_thread k l ≡ true
    → (k' : Kernel) × (lock_release k l ≡ ok k') × IsConsistent k'
unfolding lock_release
lock_release-IsConsistent k l c h =
    let (k', e, c') =
      sema_up-IsConsistent (drop_lock k l) (k.locks l).semaphore
        (SameSleepers-IsConsistent (drop_lock-SameSleepers k l) c) in
    (k', assert_ok (lock_held_by_current_thread k l) _ h ∙ e, c')

pub lock_acquire_finish-IsConsistent :
    (k : Kernel) (l : ℕ) → IsConsistent k → IsConsistent (lock_acquire_finish k l)
lock_acquire_finish-IsConsistent k l c = SameSleepers-IsConsistent (finish-SameSleepers k l) c
