-- ===== src/Synch/Mutex.antt =====
-- A lock of threads/synch.c has at most one owner, in every interleaving.
use pint_os_assignment.Common.{
  ℕ, ◌<◌, ◌≡◌, refl, sym, ◌∙◌, Bool, false, none, some, arith, ◌==◌, ==_iff, inl, inr, Bool-cases,
  update,
}
use pint_os_assignment.Kernel.{Kernel}
use pint_os_assignment.Synch.Down.{lowered}
use pint_os_assignment.Synch.Effect.{value_of, holder_of, Calm, Raised}
use pint_os_assignment.Synch.LockEffect.{Held}
use pint_os_assignment.Synch.System.{Pc, free, downing, acquiring, took, address_of, IsPlain}

-- The thread has the semaphore of the lock, and is not its holder yet.
abbrev pub is_took : Pc → ℕ → Bool
is_took (took l) m = l == m
is_took free m = false
is_took (downing s) m = false
is_took (acquiring l) m = false

-- A lock is free, or its semaphore has been taken by one thread, or that thread is the holder.
pub data LockState (k : Kernel) (pc : ℕ → Pc) (l : ℕ) : Type 0 where
  unlocked :
      value_of k (address_of k l) ≡ 1
      → holder_of k l ≡ none
      → ((t : ℕ) → is_took (pc t) l ≡ false)
      → LockState k pc l
  taken :
      (u : ℕ)
      → value_of k (address_of k l) ≡ 0
      → holder_of k l ≡ none
      → ((t : ℕ) → is_took (pc t) l ≡ (t == u))
      → LockState k pc l
  held :
      (u : ℕ)
      → value_of k (address_of k l) ≡ 0
      → holder_of k l ≡ some u
      → ((t : ℕ) → is_took (pc t) l ≡ false)
      → LockState k pc l

-- The locks have semaphores of their own, and each is in one of the three states.
pub record MutexInv (k : Kernel) (pc : ℕ → Pc) : Type 0 where
  pub distinct : (l m : ℕ) → address_of k l ≡ address_of k m → l ≡ m
  pub state : (l : ℕ) → LockState k pc l

-- A lock whose value, holder and takers stay as they were.
same-LockState :
    (k k' : Kernel) (pc pc' : ℕ → Pc) (l : ℕ)
    → value_of k' (address_of k' l) ≡ value_of k (address_of k l)
    → holder_of k' l ≡ holder_of k l
    → ((t : ℕ) → is_took (pc' t) l ≡ is_took (pc t) l)
    → LockState k pc l
    → LockState k' pc' l
same-LockState k k' pc pc' l v h p (unlocked v' h' p') =
    unlocked (v ∙ v') (h ∙ h') (λ t. p t ∙ p' t)
same-LockState k k' pc pc' l v h p (taken u v' h' p') = taken u (v ∙ v') (h ∙ h') (λ t. p t ∙ p' t)
same-LockState k k' pc pc' l v h p (held u v' h' p') = held u (v ∙ v') (h ∙ h') (λ t. p t ∙ p' t)

-- A step that touches no lock.
pub Calm-MutexInv :
    (k k' : Kernel) (pc pc' : ℕ → Pc)
    → Calm k k'
    → ((t l : ℕ) → is_took (pc' t) l ≡ is_took (pc t) l)
    → MutexInv k pc
    → MutexInv k' pc'
Calm-MutexInv k k' pc pc' c p w = record {
  distinct = λ l m e. w.distinct l m (sym (c.address l) ∙ e ∙ c.address m);
  state = λ l.
      same-LockState k k' pc pc' l (rw (c.address l) (c.value (address_of k l))) (c.holder l)
        (λ t. p t l) (w.state l);
}

-- The current thread moves between places that have taken nothing.
pub moves :
    (pc : ℕ → Pc) (c : ℕ) (p : Pc)
    → ((l : ℕ) → is_took (pc c) l ≡ false)
    → ((l : ℕ) → is_took p l ≡ false)
    → (t l : ℕ) → is_took (update pc c p t) l ≡ is_took (pc t) l
moves pc c p a b t l = ground (arith, a l, b l)

-- A semaphore inside no lock goes up or down.
pub plain-MutexInv :
    (k k' : Kernel) (pc pc' : ℕ → Pc) (m : ℕ)
    → IsPlain k m
    → ((s : ℕ) → (m == s) ≡ false → value_of k' s ≡ value_of k s)
    → ((l : ℕ) → holder_of k' l ≡ holder_of k l)
    → ((l : ℕ) → address_of k' l ≡ address_of k l)
    → ((t l : ℕ) → is_took (pc' t) l ≡ is_took (pc t) l)
    → MutexInv k pc
    → MutexInv k' pc'
plain-MutexInv k k' pc pc' m q v h a p w = record {
  distinct = λ l n e. w.distinct l n (sym (a l) ∙ e ∙ a n);
  state = λ l.
      same-LockState k k' pc pc' l (rw (a l) (v (address_of k l) (ground (arith, q l)))) (h l)
        (λ t. p t l) (w.state l);
}

-- The semaphore of the lock is taken by the current thread.
pub taken-MutexInv :
    (k : Kernel) (pc : ℕ → Pc) (l : ℕ)
    → pc k.cur ≡ acquiring l
    → 0 < value_of k (address_of k l)
    → MutexInv k pc
    → MutexInv (lowered k (address_of k l)) (update pc k.cur (took l))
taken-MutexInv k pc l at pos w = record {
  distinct = w.distinct;
  state = λ m. elim (Bool-cases (l == m)) [
    | inr other ↦
        same-LockState k (lowered k (address_of k l)) pc (update pc k.cur (took l)) m
          (ground (arith, w.distinct l m)) refl (λ t. ground (arith, at)) (w.state m)
    | inl same ↦ rw (sym ((==_iff l m).0 same)) (taken_now (w.state l))
  ];
}
  where
    taken_now :
        LockState k pc l → LockState (lowered k (address_of k l)) (update pc k.cur (took l)) l
    taken_now (unlocked v h p) = taken k.cur (ground (arith, v)) h (λ t. ground (arith, p t))
    taken_now (taken u v h p) = absurd (omega arith)
    taken_now (held u v h p) = absurd (omega arith)

-- The current thread, which has the semaphore, becomes the holder.
pub finish-MutexInv :
    (k k' : Kernel) (pc : ℕ → Pc) (l : ℕ)
    → pc k.cur ≡ took l
    → Held k l (some k.cur) k'
    → MutexInv k pc
    → MutexInv k' (update pc k.cur free)
finish-MutexInv k k' pc l at h w = record {
  distinct = λ m n e. w.distinct m n (sym (h.address m) ∙ e ∙ h.address n);
  state = λ m. elim (Bool-cases (l == m)) [
    | inr other ↦
        same-LockState k k' pc (update pc k.cur free) m
          (rw (h.address m) (h.value (address_of k m))) (ground (arith, h.holder m))
          (λ t. ground (arith, at)) (w.state m)
    | inl same ↦ rw (sym ((==_iff l m).0 same)) (held_now (w.state l))
  ];
}
  where
    held_now : LockState k pc l → LockState k' (update pc k.cur free) l
    held_now (unlocked v n p) = absurd (ground (arith, p k.cur, at))
    held_now (held u v n p) = absurd (ground (arith, p k.cur, at))
    held_now (taken u v n p) =
        held k.cur (rw (h.address l) (h.value (address_of k l) ∙ v)) (ground (arith, h.holder l))
          (λ t. ground (arith, p t, p k.cur, at))

-- The holder gives the lock up.
pub release-MutexInv :
    (k k₁ k' : Kernel) (pc : ℕ → Pc) (l : ℕ)
    → holder_of k l ≡ some k.cur
    → Held k l none k₁
    → Raised k₁ (address_of k l) k'
    → MutexInv k pc
    → MutexInv k' pc
release-MutexInv k k₁ k' pc l own h r w = record {
  distinct = λ m n e. w.distinct m n (sym (address m) ∙ e ∙ address n);
  state = λ m. elim (Bool-cases (l == m)) [
    | inr other ↦
        same-LockState k k' pc pc m
          (rw (address m)
            (ground (arith, r.value (address_of k m), h.value (address_of k m), w.distinct l m)))
          (ground (arith, r.holder m, h.holder m)) (λ t. refl) (w.state m)
    | inl same ↦ rw (sym ((==_iff l m).0 same)) (free_now (w.state l))
  ];
}
  where
    address : (m : ℕ) → address_of k' m ≡ address_of k m
    address m = r.address m ∙ h.address m

    free_now : LockState k pc l → LockState k' pc l
    free_now (unlocked v n p) = absurd (ground (arith, own))
    free_now (taken u v n p) = absurd (ground (arith, own))
    free_now (held u v n p) =
        unlocked
          (rw (address l) (ground (arith, r.value (address_of k l), h.value (address_of k l), v)))
          (ground (arith, r.holder l, h.holder l)) p

-- The current thread takes the semaphore and becomes the holder at once.
pub try-MutexInv :
    (k k' : Kernel) (pc : ℕ → Pc) (l : ℕ)
    → (pc k.cur ≡ free)
    → 0 < value_of k (address_of k l)
    → Held (lowered k (address_of k l)) l (some k.cur) k'
    → MutexInv k pc
    → MutexInv k' pc
try-MutexInv k k' pc l at pos h w = record {
  distinct = λ m n e. w.distinct m n (sym (h.address m) ∙ e ∙ h.address n);
  state = λ m. elim (Bool-cases (l == m)) [
    | inr other ↦
        same-LockState k k' pc pc m
          (rw (h.address m) (ground (arith, h.value (address_of k m), w.distinct l m)))
          (ground (arith, h.holder m)) (λ t. refl) (w.state m)
    | inl same ↦ rw (sym ((==_iff l m).0 same)) (held_now (w.state l))
  ];
}
  where
    held_now : LockState k pc l → LockState k' pc l
    held_now (unlocked v n p) =
        held k.cur (rw (h.address l) (ground (arith, h.value (address_of k l), v)))
          (ground (arith, h.holder l)) p
    held_now (taken u v n p) = absurd (omega arith)
    held_now (held u v n p) = absurd (omega arith)
