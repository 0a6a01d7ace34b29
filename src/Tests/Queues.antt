-- ===== src/Tests/Queues.antt =====
-- Runs of devices/intq.c: a queue whose bytes wrap around the end of the buffer.
use pint_os_assignment.Common.{◌<◌, ◌≡◌, refl, none, some, [], ◌∷◌, ◌++◌, arith, length, ok}
use pint_os_assignment.Kernel.{Kernel}
use pint_os_assignment.Intq.{Intq, intq_putc, intq_getc}
use pint_os_assignment.Intq.Ring.{IsValid, IsSignalled, read_from, contents}
use pint_os_assignment.Intq.Bytes.{intq_putc_appends, intq_getc_takes}
use pint_os_assignment.Tests.Machine.{machine}

-- Bytes 62, 63, 0 and 1, with a thread noted as waiting for room, and for a byte.
abbrev wrapped : Intq
wrapped = record {
  lock = 9;
  not_full = some 3;
  not_empty = some 3;
  buf = λ i. i;
  head = 2;
  tail = 62;
}

wrapped-IsValid : IsValid wrapped
wrapped-IsValid = record { head_in = omega arith; tail_in = omega arith }

wrapped_run : contents wrapped ≡ 62 ∷ 63 ∷ 0 ∷ 1 ∷ []
unfolding contents read_from
wrapped_run = refl

wrapped_room : length (contents wrapped) < 63
unfolding contents read_from
wrapped_room = omega arith

intq_putc_appends_example :
    (q' : Intq) × (k' : Kernel) × (intq_putc machine wrapped 7 ≡ ok (some (q', k')))
    × (contents q' ≡ contents wrapped ++ (7 ∷ []))
    × IsValid q'
    × IsSignalled machine k' (some 3)
    × (q'.not_empty ≡ none)
intq_putc_appends_example =
    intq_putc_appends machine wrapped 7 wrapped-IsValid wrapped_room (λ t e. ground arith)

intq_getc_takes_example :
    (q' : Intq) × (k' : Kernel) × (intq_getc machine wrapped ≡ ok (some (62, (q', k'))))
    × (contents q' ≡ 63 ∷ 0 ∷ 1 ∷ [])
    × IsValid q'
    × IsSignalled machine k' (some 3)
    × (q'.not_full ≡ none)
intq_getc_takes_example =
    intq_getc_takes machine wrapped 62 (63 ∷ 0 ∷ 1 ∷ []) wrapped-IsValid wrapped_run
      (λ t e. ground arith)
