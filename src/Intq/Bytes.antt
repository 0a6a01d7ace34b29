-- ===== src/Intq/Bytes.antt =====
-- intq_getc() and intq_putc() of devices/intq.c as operations on the queue of bytes.
use pint_os_assignment.Common.{
  ℕ, ◌<◌, ◌≡◌, refl, ap, ◌∙◌, Bool, true, false, not, none, some, List, [], ◌∷◌, ◌++◌, arith,
  length, if◌then◌else◌, Result, ok, panic, ◌>>◌, assert, bind-eq, if_of_true, if_of_false,
}
use pint_os_assignment.Kernel.{Kernel}
use pint_os_assignment.Intq.{
  Intq, next, intq_empty, intq_full, take_byte, put_byte, intq_getc, intq_putc,
}
use pint_os_assignment.Intq.Ring.{
  IsValid, contents, IsAsleep, IsSignalled, signal_ok, stored, contents-stored, contents-taken,
  intq_full_iff,
}

-- A valid queue that is not full takes the byte behind the others, stays valid, and puts the
-- thread that waits for a byte, if any, on the ready list, without a failed assertion; no thread is
-- noted as waiting for a byte then.
pub intq_putc_appends :
    (k : Kernel) (q : Intq) (b : ℕ)
    → IsValid q
    → length (contents q) < 63
    → IsAsleep k q.not_empty
    → (q' : Intq) × (k' : Kernel) × (intq_putc k q b ≡ ok (some (q', k')))
      × (contents q' ≡ contents q ++ (b ∷ []))
      × IsValid q'
      × IsSignalled k k' q.not_empty
      × (q'.not_empty ≡ none)
unfolding intq_putc put_byte
intq_putc_appends k q b v room a =
    let room' : intq_full q ≡ false = ground (arith, (intq_full_iff q v).1) in
    let (k', e, woken) =
      signal_ok k (not (intq_empty (stored q b))) q.not_empty (ground (arith, v.head_in)) a in
    (
      stored q b,
      k',
      if_of_false (intq_full q) _ _ room' ∙ bind-eq _ (bind-eq _ e),
      contents-stored q b v room',
      record { head_in = omega arith; tail_in = v.tail_in },
      woken,
      refl,
    )

assert-not {ℓ} :
    {A : Type ℓ} (b : Bool) (r : Result A) → (assert (not b) >> r) ≡ (if b then panic else r)
assert-not true r = refl
assert-not false r = refl

-- From a valid queue with a byte intq_getc returns the oldest one and leaves the others, stays
-- valid, and puts the thread that waits for room, if any, on the ready list, without a failed
-- assertion; no thread is noted as waiting for room then.
pub intq_getc_takes :
    (k : Kernel) (q : Intq) (b : ℕ) (l : List ℕ)
    → IsValid q
    → contents q ≡ b ∷ l
    → IsAsleep k q.not_full
    → (q' : Intq) × (k' : Kernel) × (intq_getc k q ≡ ok (some (b, (q', k'))))
      × (contents q' ≡ l)
      × IsValid q'
      × IsSignalled k k' q.not_full
      × (q'.not_full ≡ none)
unfolding intq_getc take_byte
intq_getc_takes k q b l v c a =
    let some_left : intq_empty q ≡ false = ground (arith, (intq_full_iff q v).0, ap length c) in
    let q' = record q { tail = next q.tail; not_full = none } in
    let (k', e, woken) =
      signal_ok k (not (intq_full q')) q.not_full (ground (arith, v.head_in, v.tail_in)) a in
    let (front, rest) = contents-taken q b l v some_left c in
    (
      q',
      k',
      if_of_false (intq_empty q) _ _ some_left
          ∙ bind-eq _ (bind-eq _ e)
          ∙ ap (λ x. ok (some (x, (q', k')))) front,
      rest,
      record { head_in = v.head_in; tail_in = omega arith },
      woken,
      refl,
    )

-- In an interrupt, a byte that does not fit, or is not there, is a failed assertion; a thread goes
-- on to wait.
intq_waits :
    (k : Kernel) (q : Intq) (b : ℕ)
    → IsValid q
    → (length (contents q) ≡ 63 → intq_putc k q b ≡ (if k.in_interrupt then panic else ok none))
      × (length (contents q) ≡ 0 → intq_getc k q ≡ (if k.in_interrupt then panic else ok none))
unfolding intq_putc intq_getc
intq_waits k q b v = (
  λ h. if_of_true (intq_full q) _ _ ((intq_full_iff q v).1.1 h) ∙ assert-not k.in_interrupt _,
  λ h. if_of_true (intq_empty q) _ _ ((intq_full_iff q v).0.1 h) ∙ assert-not k.in_interrupt _,
)
