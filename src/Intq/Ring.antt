-- ===== src/Intq/Ring.antt =====
-- The circular buffer of devices/intq.c is a queue of at most 63 bytes.
use pint_os_assignment.Common.{
  ℕ, zero, suc, ◌+◌, ◌-◌, ◌%◌, ◌<◌, ◌≤◌, ◌≡◌, ◌≢◌, ◌↔◌, refl, sym, ap, ap₂, ◌∙◌, Bool, true, false,
  Option, none, some, List, [], ◌∷◌, ◌++◌, arith, length, update, ok, assert_ok,
}
use pint_os_assignment.Kernel.{Kernel, blocked}
use pint_os_assignment.Threads.Yield.{unblocked, IsUnblocked, thread_unblock-IsUnblocked}
use pint_os_assignment.Intq.{Intq, intq_bufsize, next, intq_empty, intq_full, signal}

pub record IsValid (q : Intq) : Type 0 where
  pub head_in : q.head < intq_bufsize
  pub tail_in : q.tail < intq_bufsize

-- The number of bytes, and the bytes, oldest first.
abbrev pub size : Intq → ℕ
size q = (q.head + (intq_bufsize - q.tail)) % intq_bufsize

unfoldable pub read_from : (ℕ → ℕ) → ℕ → ℕ → List ℕ
read_from f pos zero = []
read_from f pos (suc n) = f pos ∷ read_from f (next pos) n

unfoldable pub contents : Intq → List ℕ
contents q = read_from q.buf q.tail (size q)

pub length-read_from : (f : ℕ → ℕ) (pos n : ℕ) → length (read_from f pos n) ≡ n
unfolding read_from
length-read_from f pos zero = refl
length-read_from f pos (suc n) = ap suc (length-read_from f (next pos) n)

-- One more byte at the end.
read_from-suc :
    (f : ℕ → ℕ) (pos n : ℕ)
    → pos < 64
    → read_from f pos (suc n) ≡ read_from f pos n ++ (f ((pos + n) % 64) ∷ [])
unfolding read_from
read_from-suc f pos zero h = ap (λ i. f i ∷ []) (omega arith)
read_from-suc f pos (suc n) h =
    ap (λ l. f pos ∷ l)
      (read_from-suc f (next pos) n (omega arith)
        ∙ ap (λ i. read_from f (next pos) n ++ (f i ∷ [])) (omega arith))

-- A byte written beside those that are read.
read_from-update :
    (f : ℕ → ℕ) (j v pos n : ℕ)
    → ((i : ℕ) → i < n → (pos + i) % 64 ≢ j)
    → pos < 64
    → read_from (update f j v) pos n ≡ read_from f pos n
unfolding read_from
read_from-update f j v pos zero h p = refl
read_from-update f j v pos (suc n) h p =
    ap₂ (λ x l. x ∷ l) (ground (arith, h 0))
      (read_from-update f j v (next pos) n (λ i b e. h (suc i) (omega arith) (omega arith))
        (omega arith))

-- The thread that waits, if any, is asleep.
abbrev pub IsAsleep : Kernel → Option ℕ → Type 0
IsAsleep k w = (t : ℕ) → w ≡ some t → (k.threads t).status ≡ blocked

-- What signal() does for the thread that waits, if any.
abbrev pub IsSignalled : Kernel → Kernel → Option ℕ → Type 0
IsSignalled k k' none = k' ≡ k
IsSignalled k k' (some t) = IsUnblocked k k' t

pub signal_ok :
    (k : Kernel) (holds : Bool) (w : Option ℕ)
    → holds ≡ true
    → IsAsleep k w
    → (k' : Kernel) × (signal k holds w ≡ ok k') × IsSignalled k k' w
unfolding signal
signal_ok k holds none h a = (k, assert_ok holds _ h, refl)
signal_ok k holds (some t) h a =
    let v = thread_unblock-IsUnblocked k t (a t refl) in
    (unblocked k t, assert_ok holds _ h ∙ v.0, v.1)

-- A valid queue is empty if it has no bytes, and full if it has 63.
pub intq_full_iff :
    (q : Intq)
    → IsValid q
    → ((intq_empty q ≡ true) ↔ (length (contents q) ≡ 0))
      × ((intq_full q ≡ true) ↔ (length (contents q) ≡ 63))
      × (length (contents q) ≤ 63)
unfolding contents
intq_full_iff q v =
    let n = length-read_from q.buf q.tail (size q) in
    (
      (λ e. ground (arith, n, v.head_in, v.tail_in), λ e. ground (arith, n, v.head_in, v.tail_in)),
      (λ e. ground (arith, n, v.head_in, v.tail_in), λ e. ground (arith, n, v.head_in, v.tail_in)),
      omega (arith, n, v.head_in, v.tail_in),
    )

abbrev pub stored : Intq → ℕ → Intq
stored q b = record q { buf = update q.buf q.head b; head = next q.head; not_empty = none }

pub contents-stored :
    (q : Intq) (b : ℕ)
    → IsValid q
    → intq_full q ≡ false
    → contents (stored q b) ≡ contents q ++ (b ∷ [])
unfolding contents
contents-stored q b v f =
    let grown : size (stored q b) ≡ suc (size q) = ground (arith, v.head_in, v.tail_in) in
    let place : (q.tail + size q) % 64 ≡ q.head = omega (arith, v.head_in, v.tail_in) in
    ap (read_from (update q.buf q.head b) q.tail) grown
    ∙ read_from-suc (update q.buf q.head b) q.tail (size q) v.tail_in
    ∙ ap₂ (λ l x. l ++ (x ∷ []))
        (read_from-update q.buf q.head b q.tail (size q)
          (λ i h e. omega (arith, v.head_in, v.tail_in)) v.tail_in)
        (ground (arith, place))

-- The oldest byte, and the rest.
pub contents-taken :
    (q : Intq) (b : ℕ) (l : List ℕ)
    → IsValid q
    → intq_empty q ≡ false
    → contents q ≡ b ∷ l
    → (q.buf q.tail ≡ b) × (contents (record q { tail = next q.tail; not_full = none }) ≡ l)
unfolding contents read_from
contents-taken q b l v h c =
    let m = (q.head + (64 - next q.tail)) % 64 in
    let shrunk : size q ≡ suc m = ground (arith, v.head_in, v.tail_in) in
    let c' : q.buf q.tail ∷ read_from q.buf (next q.tail) m ≡ b ∷ l =
      sym (ap (read_from q.buf q.tail) shrunk) ∙ c in
    (cc, cc)
