-- ===== src/Timer/Woken.antt =====
-- What the loop of timer_interrupt() in devices/timer.c comes to: the sleepers whose time has come
-- are woken, one after the other.
use pint_os_assignment.Common.{
  ℕ, ◌+◌, ◌%◌, ◌<◌, ◌≡◌, refl, sym, ap, subst, ◌==◌, ==_iff, ◌∙◌, Bool, true, false, List, [], ◌∷◌,
  arith, keep, count, ltb, leb, if◌then◌else◌, inl, inr, Bool-cases, if_of_true, if_of_false,
}
use pint_os_assignment.KernelList.{is_sorted_from, is_sorted}
use pint_os_assignment.Kernel.{ready, Kernel}
use pint_os_assignment.Synch.{uint_mod}
use pint_os_assignment.Synch.Waiters.{IsConsistent}
use pint_os_assignment.Synch.Up.{waiters_of}
use pint_os_assignment.Synch.Effect.{value_of, Raised}
use pint_os_assignment.Timer.{less_sleeping_threads}
use pint_os_assignment.Timer.Alarm.{SameAlarms, Upped}

-- The semaphores of the sleepers whose time has come, and the sleepers whose time has not.
abbrev pub due : Kernel → ℕ → List ℕ → List ℕ
due k now [] = []
due k now (t ∷ l) =
    if leb (k.threads t).wake_up_ticks now
    then (k.threads t).sleep_semaphore ∷ due k now l
    else due k now l

abbrev pub late : Kernel → ℕ → ℕ → Bool
late k now t = ltb now (k.threads t).wake_up_ticks

-- `k'` is the state after the sleepers in `l` that are due at `now` have been woken: a thread that
-- waits alone for the semaphore of one of them is ready, and a thread that waits for none of these
-- semaphores is as it was.
pub record AllWoken (k k' : Kernel) (now : ℕ) (l left : List ℕ) : Type 0 where
  pub asleep : left ≡ keep (late k now) l
  pub value : (s : ℕ) → value_of k' s % uint_mod ≡ (value_of k s + count s (due k now l)) % uint_mod
  pub consistent : IsConsistent k'
  pub woken :
      (t s : ℕ)
      → 0 < count s (due k now l)
      → waiters_of k s ≡ t ∷ []
      → (k'.threads t).status ≡ ready
  pub others :
      (u : ℕ)
      → ((s : ℕ) → 0 < count s (due k now l) → count u (waiters_of k s) ≡ 0)
      → k'.threads u ≡ k.threads u
  pub stays : (u : ℕ) → (k.threads u).status ≡ ready → (k'.threads u).status ≡ ready

-- In a sorted list, behind a sleeper whose time has not come none has.
late_behind :
    (k : Kernel) (now x : ℕ) (l : List ℕ)
    → is_sorted_from (less_sleeping_threads k) x l ≡ true
    → now < (k.threads x).wake_up_ticks
    → (keep (late k now) l ≡ l) × (due k now l ≡ [])
unfolding is_sorted_from
late_behind k now x [] h p = (refl, refl)
late_behind k now x (y ∷ l) h p = ground (arith, late_behind k now y l)

pub is_sorted-tail :
    (k : Kernel) (x : ℕ) (l : List ℕ)
    → is_sorted (less_sleeping_threads k) (x ∷ l) ≡ true
    → is_sorted (less_sleeping_threads k) l ≡ true
unfolding is_sorted is_sorted_from
is_sorted-tail k x [] h = refl
is_sorted-tail k x (y ∷ l) h = ground arith

-- What stands about the sleepers, read in a state with the same alarms.
same_from :
    (k k' : Kernel) (x : ℕ) (l : List ℕ)
    → SameAlarms k k'
    → is_sorted_from (less_sleeping_threads k') x l ≡ is_sorted_from (less_sleeping_threads k) x l
unfolding is_sorted_from
same_from k k' x [] v = refl
same_from k k' x (y ∷ l) v = rw (v.time x, v.time y, same_from k k' y l v) refl

pub same_sorted :
    (k k' : Kernel) (l : List ℕ)
    → SameAlarms k k'
    → is_sorted (less_sleeping_threads k') l ≡ is_sorted (less_sleeping_threads k) l
unfolding is_sorted
same_sorted k k' [] v = refl
same_sorted k k' (x ∷ l) v = same_from k k' x l v

pub same_late :
    (k k' : Kernel) (now : ℕ) (l : List ℕ)
    → SameAlarms k k'
    → (keep (late k' now) l ≡ keep (late k now) l) × (due k' now l ≡ due k now l)
same_late k k' now [] v = (refl, refl)
same_late k k' now (x ∷ l) v =
    let (a, b) = same_late k k' now l v in
    (rw (v.time x, a) refl, rw (v.time x, v.semaphore x, b) refl)

-- One sleeper woken, then the rest.
pub AllWoken-cons :
    (k k₁ k' : Kernel) (now t : ℕ) (l left : List ℕ)
    → leb (k.threads t).wake_up_ticks now ≡ true
    → SameAlarms k k₁
    → Raised k (k.threads t).sleep_semaphore k₁
    → Upped k k₁ (k.threads t).sleep_semaphore
    → AllWoken k₁ k' now l left
    → AllWoken k k' now (t ∷ l) left
AllWoken-cons k k₁ k' now t l left h v r p w =
    let (a, b) = same_late k k₁ now l v in
    let s₀ = (k.threads t).sleep_semaphore in
    let more : due k now (t ∷ l) ≡ s₀ ∷ due k now l = if_of_true _ _ _ h in
    record {
      asleep = w.asleep ∙ a ∙ sym (if_of_false (late k now t) _ _ (ground arith));
      value = λ s. rw h (rw (sym b) (ground (arith, w.value s, r.value s)));
      consistent = w.consistent;
      woken = λ u s c e. elim (Bool-cases (s₀ == s)) [
        | inl y ↦ w.stays u (p.only u (ap (waiters_of k) ((==_iff s₀ s).0 y) ∙ e))
        | inr y ↦
            w.woken u s (still s b (subst (λ m. 0 < count s m) more c) y)
              (p.elsewhere s (ground arith) ∙ e)
      ];
      others = λ u f.
          w.others u (λ s c.
            let c' : 0 < count s (due k now l) = subst (λ m. 0 < count s m) b c in
            let z = f s (subst (λ m. 0 < count s m) (sym more) (ground arith)) in
            omega (arith, p.fewer u s))
          ∙ p.same u (f s₀ (subst (λ m. 0 < count s₀ m) (sym more) (ground arith)));
      stays = λ u e. w.stays u (p.stays u e);
    }
  where
    still :
        (s : ℕ)
        → due k₁ now l ≡ due k now l
        → 0 < count s ((k.threads t).sleep_semaphore ∷ due k now l)
        → ((k.threads t).sleep_semaphore == s) ≡ false
        → 0 < count s (due k₁ now l)
    still s q c y = subst (λ m. 0 < count s m) (sym q) (ground arith)

none_due : {l : List ℕ} (s : ℕ) → l ≡ [] → 0 < count s l → ⊥
none_due s e h = ground (arith, ap (count s) e)

pub AllWoken-late :
    (k : Kernel) (now t : ℕ) (l : List ℕ)
    → IsConsistent k
    → leb (k.threads t).wake_up_ticks now ≡ false
    → is_sorted (less_sleeping_threads k) (t ∷ l) ≡ true
    → AllWoken k k now (t ∷ l) (t ∷ l)
unfolding is_sorted
AllWoken-late k now t l c e h =
    let (a, b) = late_behind k now t l h (ground arith) in
    record {
      asleep = sym (if_of_true (late k now t) _ _ (ground arith) ∙ ap (λ m. t ∷ m) a);
      value = λ s. rw (e, b) (ground arith);
      consistent = c;
      woken = λ u s n. absurd (none_due s (if_of_false _ _ _ e ∙ b) n);
      others = λ u f. refl;
      stays = λ u h. h;
    }
