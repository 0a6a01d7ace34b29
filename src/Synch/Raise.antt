-- ===== src/Synch/Raise.antt =====
-- What the donation loop of lock_acquire in threads/synch.c comes to: the holder is raised, or a
-- null pointer is followed.
use pint_os_assignment.Common.{
  ℕ, zero, suc, ◌≤◌, ◌<◌, ◌≡◌, ◌≢◌, refl, ap, ◌∙◌, bind-eq, if_of_true, if_of_false, subst, false,
  Option, none, some, arith, count, ◌==◌, ==_iff, ltb, ltb→lt, inl, inr, Bool-cases, Option-cases,
  ok, panic, not, assert_ok,
}
use pint_os_assignment.Kernel.{Thread, Lock, Kernel, set_thread}
use pint_os_assignment.Threads.{thread_donate_priority}
use pint_os_assignment.Threads.Priority.{thread_update_priority_correct}
use pint_os_assignment.Synch.{donate_chain, lock_acquire_start, lock_held_by_current_thread}
use pint_os_assignment.Synch.Frame.{donate_priority-SameObjects}
use pint_os_assignment.Synch.Donate.{
  donor, marked, donate_to-none, donate_to-some, donate_threads, update_keeps,
}

-- A lock that passes the donor's priority on to the thread that holds it.
pub record Donated (p l h : ℕ) (k : Kernel) : Type 0 where
  pub held_by : (k.locks l).holder ≡ some h
  pub holds : 0 < count l (k.threads h).locks
  pub recorded : p ≤ (k.locks l).max_priority
  pub raised : p ≤ (k.threads h).priority

-- A donation to any thread `g` establishes and keeps it.
donate-Donated :
    (p l h g : ℕ) (k : Kernel)
    → (k.locks l).holder ≡ some h
    → 0 < count l (k.threads h).locks
    → p ≤ (k.locks l).max_priority
    → ((g == h) ≡ false → p ≤ (k.threads h).priority)
    → Donated p l h (thread_donate_priority k g)
donate-Donated p l h g k e c r up =
    let (eff, held, others, same) = thread_update_priority_correct k g in
    rw ((donate_threads k g).0, (donate_priority-SameObjects k g).locks)
      (elim (Bool-cases (h == g)) [
        | inl q ↦
            let q' = (==_iff h g).0 q in
            let c' = rw q' at c in
            record {
              held_by = e;
              holds = rw (q', held l) c';
              recorded = r;
              raised = rw q' (omega (arith, eff.at_least_donated l c', r));
            }
        | inr q ↦ record {
          held_by = e;
          holds = rw (others h q) c;
          recorded = r;
          raised = rw (others h q) (up (ground arith));
        }
      ])

-- A round at any lock `m` recorded below the donor's priority keeps what a lock passes on.
round-Donated :
    (p l h m g : ℕ) (k : Kernel)
    → (k.locks m).max_priority < donor k
    → Donated p l h k
    → Donated p l h (thread_donate_priority (marked k m) g)
round-Donated p l h m g k low d =
    donate-Donated p l h g (marked k m) (ground (arith, d.held_by)) d.holds
      (ground (arith, d.recorded)) (λ _. d.raised)

chain-Donated :
    (p l h fuel : ℕ) (k k' : Kernel) (start : Option ℕ)
    → Donated p l h k
    → donate_chain fuel k start ≡ ok k'
    → Donated p l h k'
unfolding donate_chain
chain-Donated p l h zero k k' start d e = absurd (cc)
chain-Donated p l h (suc fuel) k k' none d e = subst (Donated p l h) (cc) d
chain-Donated p l h (suc fuel) k k' (some m) d e =
    elim (Bool-cases (ltb (k.locks m).max_priority (donor k))) [
      | inr q ↦ subst (Donated p l h) (ground arith) d
      | inl q ↦ elim (Option-cases (k.locks m).holder) [
        | inl z ↦ absurd (ground (arith, donate_to-none k m z))
        | inr (g, z) ↦
            chain-Donated p l h fuel (thread_donate_priority (marked k m) g) k'
              ((thread_donate_priority (marked k m) g).threads g).waiting_lock
              (round-Donated p l h m g k (ltb→lt _ _ q) d) (ground (arith, donate_to-some k m g z))
      ]
    ]

-- When the donation loop returns, the lock that it started at, if its holder has it in the list of
-- its locks and it was recorded below the donor's priority, is recorded at that priority at least,
-- and so is the priority of its holder.
pub donate_chain_raises :
    (l h fuel : ℕ) (k k' : Kernel)
    → (k.locks l).holder ≡ some h
    → 0 < count l (k.threads h).locks
    → (k.locks l).max_priority < donor k
    → donate_chain fuel k (some l) ≡ ok k'
    → Donated (donor k) l h k'
unfolding donate_chain
donate_chain_raises l h zero k k' z c low e = absurd (cc)
donate_chain_raises l h (suc fuel) k k' z c low e =
    chain-Donated (donor k) l h fuel (thread_donate_priority (marked k l) h) k'
      ((thread_donate_priority (marked k l) h).threads h).waiting_lock
      (donate-Donated (donor k) l h h (marked k l) (ground (arith, z)) c (ground arith)
        (λ q. absurd (ground arith)))
      (ground (arith, donate_to-some k l h z))

-- At a lock that nobody holds, recorded below the donor's priority, the donation loop follows a null
-- pointer.
donate_chain_faults :
    (fuel l : ℕ) (k : Kernel)
    → (k.locks l).holder ≡ none
    → (k.locks l).max_priority < donor k
    → donate_chain (suc fuel) k (some l) ≡ panic
unfolding donate_chain
donate_chain_faults fuel l k e low = ground (arith, donate_to-none k l e)

-- The state in which lock_acquire starts the donation loop.
abbrev waiting_for : Kernel → ℕ → Kernel
waiting_for k l = set_thread k k.cur (record (k.threads k.cur) { waiting_lock = some l })

lock_acquire_start-held :
    (fuel l h : ℕ) (k : Kernel)
    → k.in_interrupt ≡ false
    → k.mlfqs ≡ false
    → (k.locks l).holder ≡ some h
    → (h == k.cur) ≡ false
    → lock_acquire_start fuel k l ≡ donate_chain fuel (waiting_for k l) (some l)
unfolding lock_acquire_start lock_held_by_current_thread
lock_acquire_start-held fuel l h k i m e n =
    let other : lock_held_by_current_thread k l ≡ false = rw (lock_held_by_current_thread, e) n in
    assert_ok (not k.in_interrupt) _ (ground arith)
    ∙ assert_ok (not (lock_held_by_current_thread k l)) _ (ground arith)
    ∙ if_of_false k.mlfqs _ _ m
    ∙ rw e refl

-- The first round of the loop raises the holder, and leaves the donor and the other locks.
first_round :
    (fuel l h next : ℕ) (k : Kernel)
    → (k.locks l).holder ≡ some h
    → (h == k.cur) ≡ false
    → (k.locks l).max_priority < donor k
    → (k.threads h).waiting_lock ≡ some next
    → (k' : Kernel) × (donate_chain (suc fuel) (waiting_for k l) (some l)
        ≡ donate_chain fuel k' (some next))
      × (donor k' ≡ donor k)
      × ((j : ℕ) → j ≢ l → k'.locks j ≡ k.locks j)
unfolding donate_chain
first_round fuel l h next k e n low w =
    let m = marked (waiting_for k l) l in
    let d = thread_donate_priority m h in
    let (eff, held, others, same) = thread_update_priority_correct m h in
    let threads = (donate_threads m h).0 in
    let goes_on : (d.threads h).waiting_lock ≡ some next =
      ap {A = ℕ → Thread} (λ f. (f h).waiting_lock) threads
      ∙ (update_keeps m h h).0
      ∙ ap {A = Thread} (λ th. th.waiting_lock) (if_of_false (k.cur == h) _ _ (ground arith))
      ∙ w in
    let own : (m.threads k.cur).priority ≡ donor k = ground arith in
    (
      d,
      if_of_true (ltb (k.locks l).max_priority ((waiting_for k l).threads k.cur).priority) _ _
            (ground arith)
          ∙ bind-eq _ (donate_to-some (waiting_for k l) l h e)
          ∙ ap (donate_chain fuel d) goes_on,
      ap (λ c. (d.threads c).priority) (donate_threads m h).1
          ∙ ap {A = ℕ → Thread} (λ f. (f k.cur).priority) threads
          ∙ ap {A = Thread} (λ th. th.priority) (others k.cur (ground arith))
          ∙ own,
      λ j q.
          ap {A = ℕ → Lock} (λ f. f j) (donate_priority-SameObjects m h).locks ∙ ground (arith, q),
    )

-- Outside an interrupt and without the feedback-queue scheduler, lock_acquire follows a null
-- pointer when the lock's holder is a thread that still names a lock which its last holder has
-- released, with both locks recorded below the caller's priority: the donation goes on to the
-- holder of that lock, and there is none.
pub lock_acquire_faults :
    (fuel l h released : ℕ) (k : Kernel)
    → k.in_interrupt ≡ false
    → k.mlfqs ≡ false
    → (k.locks l).holder ≡ some h
    → (h == k.cur) ≡ false
    → (k.locks l).max_priority < donor k
    → (k.threads h).waiting_lock ≡ some released
    → released ≢ l
    → (k.locks released).holder ≡ none
    → (k.locks released).max_priority < donor k
    → lock_acquire_start (suc (suc fuel)) k l ≡ panic
lock_acquire_faults fuel l h released k i m e n low w q z low' =
    let (k', round, same, kept) = first_round (suc fuel) l h released k e n low w in
    let keep' = kept released q in
    lock_acquire_start-held (suc (suc fuel)) l h k i m e n
    ∙ round
    ∙ donate_chain_faults fuel released k' (ap {A = Lock} (λ x. x.holder) keep' ∙ z)
        (omega (arith, ap {A = Lock} (λ x. x.max_priority) keep', same, low'))
