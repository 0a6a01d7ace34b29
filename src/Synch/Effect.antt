-- ===== src/Synch/Effect.antt =====
-- What each function of threads/synch.c does to the values of semaphores and the holders of locks,
-- whichever thread runs when it returns.
use pint_os_assignment.Common.{
  ℕ, ◌+◌, ◌%◌, ◌<◌, ◌≡◌, refl, sym, ap, subst, ◌∙◌, true, false, not, Option, arith, ◌==◌,
  if◌then◌else◌, inl, inr, Bool-cases, Result, ok, assert, >>=-eq-ok, if_of_true, if_of_false,
  ok_inj, ok_pair, false≢true,
}
use pint_os_assignment.Kernel.{Kernel}
use pint_os_assignment.Threads.{thread_block}
use pint_os_assignment.Synch.{
  uint_mod, sema_down, enqueue_waiter, wake_waiter, raise_value, sema_up,
}
use pint_os_assignment.Synch.Frame.{
  SameObjects, thread_yield-SameObjects, thread_block-SameObjects, thread_unblock-SameObjects,
}
use pint_os_assignment.Synch.Down.{lowered}
use pint_os_assignment.Synch.Up.{raised, Woken, nobody, somebody, wake_waiter_first, without}

-- The values and holders of `k'`, by those of `k`: one semaphore and one lock may change.
abbrev pub value_of : Kernel → ℕ → ℕ
value_of k s = (k.semas s).value

abbrev pub holder_of : Kernel → ℕ → Option ℕ
holder_of k l = (k.locks l).holder

-- Nothing of it changes.
pub record Calm (k k' : Kernel) : Type 0 where
  pub value : (s : ℕ) → value_of k' s ≡ value_of k s
  pub holder : (l : ℕ) → holder_of k' l ≡ holder_of k l
  pub address : (l : ℕ) → (k'.locks l).semaphore ≡ (k.locks l).semaphore

pub Calm-refl : (k : Kernel) → Calm k k
Calm-refl k = record { value = λ s. refl; holder = λ l. refl; address = λ l. refl }

pub Calm-trans : {k k' k'' : Kernel} → Calm k k' → Calm k' k'' → Calm k k''
Calm-trans a b = record {
  value = λ s. b.value s ∙ a.value s;
  holder = λ l. b.holder l ∙ a.holder l;
  address = λ l. b.address l ∙ a.address l;
}

pub SameObjects-Calm : {k k' : Kernel} → SameObjects k k' → Calm k k'
SameObjects-Calm v = record {
  value = λ s. ap (λ f. (f s).value) v.semas;
  holder = λ l. ap (λ f. (f l).holder) v.locks;
  address = λ l. ap (λ f. (f l).semaphore) v.locks;
}

-- A round of sema_down that succeeds takes one from a positive value; one that sleeps takes none.
pub sema_down-took :
    (k k' : Kernel) (s : ℕ)
    → sema_down k s ≡ ok (true, k')
    → (0 < value_of k s) × (k' ≡ lowered k s)
unfolding sema_down
sema_down-took k k' s e =
    let (t, a, e') = >>=-eq-ok (assert (not k.in_interrupt)) _ e in
    elim (Bool-cases (value_of k s == 0)) [
      | inr h ↦ (ground arith, sym (ok_pair _ _ _ _ (rw h at e')).1)
      | inl h ↦
          let (k'', b, e'') = >>=-eq-ok (thread_block (enqueue_waiter k s)) _ (rw h at e') in
          absurd (false≢true (ok_pair _ _ _ _ e'').0)
    ]

enqueue-Calm : (k : Kernel) (s : ℕ) → Calm k (enqueue_waiter k s)
unfolding enqueue_waiter
enqueue-Calm k s = record { value = λ s'. ground arith; holder = λ l. refl; address = λ l. refl }

pub sema_down-slept : (k k' : Kernel) (s : ℕ) → sema_down k s ≡ ok (false, k') → Calm k k'
unfolding sema_down
sema_down-slept k k' s e =
    let (t, a, e') = >>=-eq-ok (assert (not k.in_interrupt)) _ e in
    elim (Bool-cases (value_of k s == 0)) [
      | inr h ↦ absurd (false≢true (sym (ok_pair _ _ _ _ (rw h at e')).0))
      | inl h ↦
          let (k'', b, e'') = >>=-eq-ok (thread_block (enqueue_waiter k s)) _ (rw h at e') in
          subst (Calm k) (ok_pair _ _ _ _ e'').1 (
            Calm-trans (enqueue-Calm k s)
              (SameObjects-Calm (thread_block-SameObjects (enqueue_waiter k s) k'' b)))
    ]

-- The values after one semaphore went up.
pub record Raised (k : Kernel) (s : ℕ) (k' : Kernel) : Type 0 where
  pub value :
      (s' : ℕ)
      → value_of k' s' ≡ (if s == s' then (value_of k s' + 1) % uint_mod else value_of k s')
  pub holder : (l : ℕ) → holder_of k' l ≡ holder_of k l
  pub address : (l : ℕ) → (k'.locks l).semaphore ≡ (k.locks l).semaphore

Raised-Calm : {k k' k'' : Kernel} {s : ℕ} → Raised k s k' → Calm k' k'' → Raised k s k''
Raised-Calm a b = record {
  value = λ s'. b.value s' ∙ a.value s';
  holder = λ l. b.holder l ∙ a.holder l;
  address = λ l. b.address l ∙ a.address l;
}

Calm-Raised : {k k' k'' : Kernel} {s : ℕ} → Calm k k' → Raised k' s k'' → Raised k s k''
Calm-Raised {k} {k'} {k''} {s} a b = record {
  value = λ s'. ground (arith, b.value s', a.value s');
  holder = λ l. b.holder l ∙ a.holder l;
  address = λ l. b.address l ∙ a.address l;
}

Woken-Calm : (k k' : Kernel) (s : ℕ) (r : Result Kernel) → Woken k s r → r ≡ ok k' → Calm k k'
Woken-Calm k k' s r (nobody h) e = subst (Calm k) (cc) (Calm-refl k)
Woken-Calm k k' s r (somebody t rest f) e =
    Calm-trans (record { value = λ s'. ground arith; holder = λ l. refl; address = λ l. refl })
      (SameObjects-Calm (thread_unblock-SameObjects (without k s rest) k' t e))

raise_value-Raised : (k k' : Kernel) (s : ℕ) → raise_value k s ≡ ok k' → Raised k s k'
unfolding raise_value
raise_value-Raised k k' s e = elim (Bool-cases k.in_interrupt) [
  | inl h ↦ subst (Raised k s) (ok_inj _ _ (sym (if_of_true k.in_interrupt _ _ h) ∙ e)) now
  | inr h ↦ Raised-Calm now (
      SameObjects-Calm
        (thread_yield-SameObjects (raised k s) k' (sym (if_of_false k.in_interrupt _ _ h) ∙ e)))
]
  where
    now : Raised k s (raised k s)
    now = record { value = λ s'. ground arith; holder = λ l. refl; address = λ l. refl }

-- When sema_up returns, the value of its semaphore is one more, modulo the size of an unsigned.
pub sema_up-Raised : (k k' : Kernel) (s : ℕ) → sema_up k s ≡ ok k' → Raised k s k'
unfolding sema_up
sema_up-Raised k k' s e =
    let (k₁, a, b) = >>=-eq-ok (wake_waiter k s) _ e in
    Calm-Raised (Woken-Calm k k₁ s (wake_waiter k s) (wake_waiter_first k s) a)
      (raise_value-Raised k₁ k' s b)
