-- ===== src/Synch/Frame.antt =====
-- What switching threads, and changing priorities, leaves as it was: the semaphores, and of each
-- lock its holder and the address of its semaphore.
use pint_os_assignment.Common.{
  ℕ, ◌≡◌, refl, sym, ◌∙◌, not, Option, none, some, List, arith, ◌==◌, if◌then◌else◌, inl, inr,
  Bool-cases, ok, assert, ◌>>◌, >>=-eq-ok, subst, ok_inj, if_of_true, if_of_false,
}
use pint_os_assignment.Kernel.{running, blocked, is_status, Kernel, set_thread}
use pint_os_assignment.Threads.{
  thread_schedule_tail, schedule, thread_block, thread_yield, thread_unblock,
  thread_update_priority, thread_donate_priority, thread_set_priority,
}
use pint_os_assignment.Threads.Invariant.{next_thread_to_run_picks}

-- `k'` has the semaphores and locks of `k`.
pub record SameObjects (k k' : Kernel) : Type 0 where
  pub semas : k'.semas ≡ k.semas
  pub locks : k'.locks ≡ k.locks

pub SameObjects-trans :
    {k k' k'' : Kernel} → SameObjects k k' → SameObjects k' k'' → SameObjects k k''
SameObjects-trans a b = record { semas = b.semas ∙ a.semas; locks = b.locks ∙ a.locks }

schedule_tail-SameObjects :
    (k k' : Kernel) (prev : Option ℕ) → thread_schedule_tail k prev ≡ ok k' → SameObjects k k'
unfolding thread_schedule_tail
schedule_tail-SameObjects k k' none e = ground arith
schedule_tail-SameObjects k k' (some p) e = ground arith

after_next-SameObjects :
    (k k' : Kernel) (next : ℕ) (rest : List ℕ)
    → (do
      assert (not (is_status (k.threads k.cur).status running))
      if k.cur == next
          then thread_schedule_tail (record k { ready_list = rest }) none
          else thread_schedule_tail (record k { ready_list = rest; cur = next }) (some k.cur))
      ≡ ok k'
    → SameObjects k k'
after_next-SameObjects k k' next rest e =
    let (t, a, tail) = >>=-eq-ok (assert (not (is_status (k.threads k.cur).status running))) _ e in
    ground (
      arith,
      tail,
      schedule_tail-SameObjects (record k { ready_list = rest }) k' none,
      schedule_tail-SameObjects (record k { ready_list = rest; cur = next }) k' (some k.cur),
    )

schedule-SameObjects : (k k' : Kernel) → schedule k ≡ ok k' → SameObjects k k'
unfolding schedule
schedule-SameObjects k k' e =
    let (next, rest, n, c) = next_thread_to_run_picks k in
    after_next-SameObjects k k' next rest (rw n at e)

pub thread_yield-SameObjects : (k k' : Kernel) → thread_yield k ≡ ok k' → SameObjects k k'
unfolding thread_yield
thread_yield-SameObjects k k' e =
    let (t, a, e') = >>=-eq-ok (assert (not k.in_interrupt)) _ e in
    let v = schedule-SameObjects _ k' e' in record { semas = v.semas; locks = v.locks }

pub thread_block-SameObjects : (k k' : Kernel) → thread_block k ≡ ok k' → SameObjects k k'
unfolding thread_block
thread_block-SameObjects k k' e =
    let (t, a, e') = >>=-eq-ok (assert (not k.in_interrupt)) _ e in
    let v = schedule-SameObjects _ k' e' in record { semas = v.semas; locks = v.locks }

pub thread_unblock-SameObjects :
    (k k' : Kernel) (t : ℕ) → thread_unblock k t ≡ ok k' → SameObjects k k'
unfolding thread_unblock
thread_unblock-SameObjects k k' t e =
    let (u, a, e') = >>=-eq-ok (assert (is_status (k.threads t).status blocked)) _ e in
    ground (arith, e')

pub update_priority-SameObjects : (k : Kernel) (t : ℕ) → SameObjects k (thread_update_priority k t)
unfolding thread_update_priority
update_priority-SameObjects k t = record { semas = refl; locks = refl }

pub donate_priority-SameObjects : (k : Kernel) (t : ℕ) → SameObjects k (thread_donate_priority k t)
unfolding thread_donate_priority
donate_priority-SameObjects k t = ground (arith, update_priority-SameObjects k t)

pub thread_set_priority-SameObjects :
    (k k' : Kernel) (p : ℕ) → thread_set_priority k p ≡ ok k' → SameObjects k k'
unfolding thread_set_priority
thread_set_priority-SameObjects k k' p e =
    let own = set_thread k k.cur (record (k.threads k.cur) { original_priority = p }) in
    let updated = thread_update_priority own k.cur in
    let v = update_priority-SameObjects own k.cur in
    let w : SameObjects k updated = record { semas = v.semas; locks = v.locks } in
    elim (Bool-cases k.in_interrupt) [
      | inl h ↦ subst (SameObjects k) (ok_inj _ _ (sym (if_of_true k.in_interrupt _ _ h) ∙ e)) w
      | inr h ↦
          SameObjects-trans w
            (thread_yield-SameObjects updated k' (sym (if_of_false k.in_interrupt _ _ h) ∙ e))
    ]
