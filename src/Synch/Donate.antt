-- ===== src/Synch/Donate.antt =====
-- The donation loop of lock_acquire in threads/synch.c.
use pint_os_assignment.Common.{
  ℕ, zero, suc, ◌+◌, ◌-◌, ◌*◌, ◌≤◌, ◌<◌, ◌≡◌, ◌≢◌, refl, sym, ap, ◌∙◌, Option, none, some, List,
  arith, ◌==◌, ==_iff, ltb, ltb→lt, inl, inr, Bool-cases, Option-cases, Result, ok, panic, no_fuel,
  need, ◌>>=◌, update,
}
use pint_os_assignment.Kernel.{Lock, Kernel, set_lock}
use pint_os_assignment.Threads.{thread_update_priority, thread_donate_priority}
use pint_os_assignment.Threads.Priority.{thread_update_priority_correct, IsEffective}
use pint_os_assignment.Synch.{donate_to, donate_chain}
use pint_os_assignment.Synch.Frame.{donate_priority-SameObjects}

-- The donor's priority, and the lock with it.
abbrev pub donor : Kernel → ℕ
donor k = (k.threads k.cur).priority

abbrev pub marked : Kernel → ℕ → Kernel
marked k l = set_lock k l (record (k.locks l) { max_priority = donor k })

-- One round, by whether the lock has a holder.
pub donate_to-none : (k : Kernel) (l : ℕ) → (k.locks l).holder ≡ none → donate_to k l ≡ panic
unfolding donate_to
donate_to-none k l e = rw (ap (need {A = ℕ}) e) refl

pub donate_to-some :
    (k : Kernel) (l h : ℕ)
    → (k.locks l).holder ≡ some h
    → let k' = thread_donate_priority (marked k l) h in
      donate_to k l ≡ ok (k', (k'.threads h).waiting_lock)
unfolding donate_to
donate_to-some k l h e = rw (ap (need {A = ℕ}) e) refl

-- thread_donate_priority on the threads: those of thread_update_priority, on the ready list or not.
pub donate_threads :
    (k : Kernel) (t : ℕ)
    → ((thread_donate_priority k t).threads ≡ (thread_update_priority k t).threads)
      × ((thread_donate_priority k t).cur ≡ k.cur)
unfolding thread_donate_priority thread_update_priority
donate_threads k t = ground arith

pub update_keeps :
    (k : Kernel) (t u : ℕ)
    → (((thread_update_priority k t).threads u).waiting_lock ≡ (k.threads u).waiting_lock)
      × (((thread_update_priority k t).threads u).original_priority
          ≡ (k.threads u).original_priority)
unfolding thread_update_priority
update_keeps k t u = ground arith

-- The fuel for the loop: what is left to raise in the first `n` locks, where no priority is above
-- `b`.
pub room : ℕ → ℕ → (ℕ → Lock) → ℕ
room b zero f = 0
room b (suc n) f = room b n f + (b - (f n).max_priority)

room-update_of_le :
    (b n : ℕ) (f : ℕ → Lock) (l : ℕ) (v : Lock) → n ≤ l → room b n (update f l v) ≡ room b n f
unfolding room
room-update_of_le b zero f l v h = refl
room-update_of_le b (suc n) f l v h = ground (arith, room-update_of_le b n f l v)

room-update :
    (b n : ℕ) (f : ℕ → Lock) (l : ℕ) (v : Lock)
    → l < n
    → room b n (update f l v) + (b - (f l).max_priority) ≡ room b n f + (b - v.max_priority)
unfolding room
room-update b zero f l v h = absurd (omega arith)
room-update b (suc n) f l v h = elim (Bool-cases (l == n)) [
  | inl e ↦ ground (arith, room-update_of_le b n f l v)
  | inr e ↦ ground (arith, room-update b n f l v)
]

pub room-le : (b n : ℕ) (f : ℕ → Lock) → room b n f ≤ n * b
unfolding room
room-le b zero f = omega arith
room-le b (suc n) f = grind (arith, room-le b n f)

-- Priorities are at most `b`, and the locks that threads wait for are among the first `n`.
pub record IsBounded (b n : ℕ) (k : Kernel) : Type 0 where
  pub priority : (t : ℕ) → (k.threads t).priority ≤ b
  pub own : (t : ℕ) → (k.threads t).original_priority ≤ b
  pub recorded : (l : ℕ) → (k.locks l).max_priority ≤ b
  pub waited : (t l : ℕ) → (k.threads t).waiting_lock ≡ some l → l < n

effective-le :
    (b own p : ℕ) (k : Kernel) (held : List ℕ)
    → own ≤ b
    → ((l : ℕ) → (k.locks l).max_priority ≤ b)
    → IsEffective k own held p
    → p ≤ b
effective-le b own p k held h r v = elim v.attained [
  | inl e ↦ omega arith
  | inr (l, c, e) ↦ omega (arith, r l)
]

pub marked-IsBounded : (b n : ℕ) (k : Kernel) (l : ℕ) → IsBounded b n k → IsBounded b n (marked k l)
marked-IsBounded b n k l v = record {
  priority = v.priority;
  own = v.own;
  recorded = λ m. ground (arith, v.recorded m, v.priority k.cur);
  waited = v.waited;
}

donate_priority-IsBounded :
    (b n : ℕ) (k : Kernel) (h : ℕ) → IsBounded b n k → IsBounded b n (thread_donate_priority k h)
donate_priority-IsBounded b n k h v =
    let (eff, held, others, same) = thread_update_priority_correct k h in
    rw ((donate_threads k h).0, (donate_priority-SameObjects k h).locks)
      (record {
        priority = λ t. elim (Bool-cases (t == h)) [
          | inl e ↦
              let low = effective-le b _ _ k _ (v.own h) v.recorded eff in rw ((==_iff t h).0 e) low
          | inr e ↦ rw (others t e) (v.priority t)
        ];
        own = λ t. rw (update_keeps k h t).1 (v.own t);
        recorded = v.recorded;
        waited = λ t l e. v.waited t l (sym (update_keeps k h t).0 ∙ e);
      })

-- What one round comes to, at a lock that is recorded below the donor's priority: a fault without
-- holder, else a state with less room, and the lock that the holder waits for, if any.
data Round (b n : ℕ) (k : Kernel) (l : ℕ) : Result (Kernel × Option ℕ) → Type 0 where
  fault : (k.locks l).holder ≡ none → Round b n k l panic
  round :
      (k' : Kernel) (h : ℕ) (next : Option ℕ)
      → (k.locks l).holder ≡ some h
      → k' ≡ thread_donate_priority (marked k l) h
      → IsBounded b n k'
      → room b n k'.locks < room b n k.locks
      → ((m : ℕ) → next ≡ some m → m < n)
      → Round b n k l (ok (k', next))

donate_to-Round :
    (b n : ℕ) (k : Kernel) (l : ℕ)
    → IsBounded b n k
    → l < n
    → (k.locks l).max_priority < donor k
    → Round b n k l (donate_to k l)
donate_to-Round b n k l v ln low = elim (Option-cases (k.locks l).holder) [
  | inl e ↦ rw (donate_to-none k l e) (fault e)
  | inr (h, e) ↦
      let k' = thread_donate_priority (marked k l) h in
      let w = donate_priority-IsBounded b n (marked k l) h (marked-IsBounded b n k l v) in
      rw (donate_to-some k l h e) (
        round k' h (k'.threads h).waiting_lock e refl w
          (rw (donate_priority-SameObjects (marked k l) h).locks (
            omega (
              arith,
              room-update b n k.locks l (record (k.locks l) { max_priority = donor k }) ln,
              v.priority k.cur,
              low,
            )))
          (λ m q. w.waited h m q))
]

-- The loop after a round, where the loop from any state with less room ends.
after-Round :
    (b n fuel : ℕ) (k : Kernel) (l : ℕ) (r : Result (Kernel × Option ℕ))
    → Round b n k l r
    → room b n k.locks < suc fuel
    → ((k' : Kernel) (next : Option ℕ)
        → IsBounded b n k'
        → ((m : ℕ) → next ≡ some m → m < n)
        → room b n k'.locks < fuel
        → donate_chain fuel k' next ≢ no_fuel)
    → (r >>= λ p. donate_chain fuel p.0 p.1) ≢ no_fuel
after-Round b n fuel k l r (fault e) f ih = λ q. cc
after-Round b n fuel k l r (round k' h next e w v less s) f ih = ih k' next v s (omega arith)

-- The donation loop ends: with more fuel than there is room to raise the recorded priorities it
-- never runs out, also where threads wait for one another in a circle.
pub donate_chain_ends :
    (b n fuel : ℕ) (k : Kernel) (start : Option ℕ)
    → IsBounded b n k
    → ((m : ℕ) → start ≡ some m → m < n)
    → room b n k.locks < fuel
    → donate_chain fuel k start ≢ no_fuel
unfolding donate_chain
donate_chain_ends b n zero k start v s f = absurd (omega arith)
donate_chain_ends b n (suc fuel) k none v s f = λ e. cc
donate_chain_ends b n (suc fuel) k (some l) v s f =
    elim (Bool-cases (ltb (k.locks l).max_priority (donor k))) [
      | inr e ↦ rw e (λ q. cc)
      | inl e ↦ rw e (
          after-Round b n fuel k l (donate_to k l)
            (donate_to-Round b n k l v (s l refl) (ltb→lt _ _ e)) f (donate_chain_ends b n fuel))
    ]
