-- ===== src/Synch/Exclusion.antt =====
-- Mutual exclusion by the locks of threads/synch.c.
use pint_os_assignment.Common.{
  ℕ, ◌≡◌, ◌⊎◌, refl, sym, subst, Bool, true, false, some, arith, if◌then◌else◌, inl, inr, ok,
}
use pint_os_assignment.Kernel.{Kernel}
use pint_os_assignment.Synch.{sema_down, lock_acquire_finish}
use pint_os_assignment.Synch.Down.{lowered}
use pint_os_assignment.Synch.Frame.{thread_yield-SameObjects, thread_set_priority-SameObjects}
use pint_os_assignment.Synch.Effect.{
  holder_of, SameObjects-Calm, sema_up-Raised, sema_down-took, sema_down-slept,
}
use pint_os_assignment.Synch.LockEffect.{
  lock_acquire_start-Calm, lock_acquire_finish-Held, lock_release-effect, lock_try_acquire-effect,
}
use pint_os_assignment.Synch.System.{
  Pc, free, downing, acquiring, took, System, goes, address_of, IsPlain, Step, down, up, start,
  try_semaphore, finish, try_acquire, release, yield, set_priority, interrupt, Reach, here, next,
}
use pint_os_assignment.Synch.Mutex.{
  is_took, LockState, unlocked, taken, held, MutexInv, Calm-MutexInv, moves, plain-MutexInv,
  taken-MutexInv, finish-MutexInv, release-MutexInv, try-MutexInv,
}

abbrev pub Inv : System → Type 0
Inv s = MutexInv s.kernel s.pc

-- A place of the program counter that has taken no lock's semaphore.
not_took_free : (p : Pc) (l : ℕ) → p ≡ free → is_took p l ≡ false
not_took_free p l e = rw e refl

not_took_downing : (p : Pc) (m l : ℕ) → p ≡ downing m → is_took p l ≡ false
not_took_downing p m l e = rw e refl

not_took_acquiring : (p : Pc) (m l : ℕ) → p ≡ acquiring m → is_took p l ≡ false
not_took_acquiring p m l e = rw e refl

down-Inv :
    (s : System) (m : ℕ) (b : Bool) (k' : Kernel)
    → IsPlain s.kernel m
    → ((l : ℕ) → is_took (s.pc s.kernel.cur) l ≡ false)
    → sema_down s.kernel m ≡ ok (b, k')
    → Inv s
    → Inv (goes s k' (if b then free else downing m))
down-Inv s m true k' q p e w =
    let (pos, e') = sema_down-took s.kernel k' m e in
    rw e' (
      plain-MutexInv s.kernel (lowered s.kernel m) s.pc _ m q (λ s' h. ground arith) (λ l. refl)
        (λ l. refl) (moves s.pc s.kernel.cur free p (λ l. refl)) w)
down-Inv s m false k' q p e w =
    Calm-MutexInv s.kernel k' s.pc _ (sema_down-slept s.kernel k' m e)
      (moves s.pc s.kernel.cur (downing m) p (λ l. refl)) w

acquire-Inv :
    (s : System) (l : ℕ) (b : Bool) (k' : Kernel)
    → s.pc s.kernel.cur ≡ acquiring l
    → sema_down s.kernel (address_of s.kernel l) ≡ ok (b, k')
    → Inv s
    → Inv (goes s k' (if b then took l else acquiring l))
acquire-Inv s l true k' at e w =
    let (pos, e') = sema_down-took s.kernel k' (address_of s.kernel l) e in
    rw e' (taken-MutexInv s.kernel s.pc l at pos w)
acquire-Inv s l false k' at e w =
    Calm-MutexInv s.kernel k' s.pc _ (sema_down-slept s.kernel k' _ e)
      (moves s.pc s.kernel.cur (acquiring l) (λ m. not_took_acquiring _ l m at) (λ m. refl)) w

-- Every step keeps the locks with semaphores of their own, and each lock free, taken by one thread,
-- or held by one.
pub Step-Inv : (s t : System) → Step s t → Inv s → Inv t
Step-Inv s t (down m b k' q (inl at) e r) w =
    subst Inv (sym r) (down-Inv s m b k' q (λ l. not_took_free _ l at) e w)
Step-Inv s t (down m b k' q (inr at) e r) w =
    subst Inv (sym r) (down-Inv s m b k' q (λ l. not_took_downing _ m l at) e w)
Step-Inv s t (up m k' q e r) w =
    let v = sema_up-Raised s.kernel k' m e in
    subst Inv (sym r) (
      plain-MutexInv s.kernel k' s.pc s.pc m q (λ s' h. ground (arith, v.value s')) v.holder
        v.address (λ u l. refl) w)
Step-Inv s t (start fuel l k' at e r) w = subst Inv (sym r) (
    Calm-MutexInv s.kernel k' s.pc _ (lock_acquire_start-Calm fuel s.kernel k' l e)
      (moves s.pc s.kernel.cur (acquiring l) (λ m. not_took_free _ m at) (λ m. refl)) w)
Step-Inv s t (try_semaphore l b k' at e r) w = subst Inv (sym r) (acquire-Inv s l b k' at e w)
Step-Inv s t (finish l at r) w = subst Inv (sym r) (
    finish-MutexInv s.kernel (lock_acquire_finish s.kernel l) s.pc l at
      (lock_acquire_finish-Held s.kernel l) w)
Step-Inv s t (try_acquire l b k' at e r) w = elim (lock_try_acquire-effect s.kernel k' l b e) [
  | inl same ↦ subst Inv (sym r) (rw same w)
  | inr (pos, h) ↦ subst Inv (sym r) (try-MutexInv s.kernel k' s.pc l at pos h w)
]
Step-Inv s t (release l k' at e r) w =
    let (own, after) = lock_release-effect s.kernel k' l e in
    let (k₁, h, v) = after in subst Inv (sym r) (release-MutexInv s.kernel k₁ k' s.pc l own h v w)
Step-Inv s t (yield k' e r) w = subst Inv (sym r) (
    Calm-MutexInv s.kernel k' s.pc s.pc (SameObjects-Calm (thread_yield-SameObjects s.kernel k' e))
      (λ u l. refl) w)
Step-Inv s t (set_priority p k' e r) w = subst Inv (sym r) (
    Calm-MutexInv s.kernel k' s.pc s.pc
      (SameObjects-Calm (thread_set_priority-SameObjects s.kernel k' p e)) (λ u l. refl) w)
Step-Inv s t (interrupt b r) w = subst Inv (sym r) (
    Calm-MutexInv s.kernel (record s.kernel { in_interrupt = b }) s.pc s.pc
      (record { value = λ m. refl; holder = λ l. refl; address = λ l. refl }) (λ u l. refl) w)

pub Reach-Inv : {s t : System} → Inv s → Reach s t → Inv t
Reach-Inv w here = w
Reach-Inv {s} w (next {t = u} {u = v} r st) = Step-Inv u v st (Reach-Inv w r)

-- The thread is the holder of the lock, or has its semaphore and is about to be.
abbrev pub Owns : System → ℕ → ℕ → Type 0
Owns s t l = (holder_of s.kernel l ≡ some t) ⊎ (s.pc t ≡ took l)

owner_unique :
    (s : System) (l t u : ℕ) → LockState s.kernel s.pc l → Owns s t l → Owns s u l → t ≡ u
owner_unique s l t u (unlocked v h p) a b = ground (arith, p t, p u)
owner_unique s l t u (taken w v h p) a b = ground (arith, p t, p u)
owner_unique s l t u (held w v h p) a b = ground (arith, p t, p u)

-- Whatever steps the threads make from a state in which each lock is free or has one owner, no two
-- threads ever own a lock together.
pub mutual_exclusion :
    {s s' : System} (l t u : ℕ) → Inv s → Reach s s' → Owns s' t l → Owns s' u l → t ≡ u
mutual_exclusion {s' = s'} l t u w r a b = owner_unique s' l t u ((Reach-Inv w r).state l) a b
