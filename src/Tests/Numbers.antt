-- ===== src/Tests/Numbers.antt =====
-- Runs of lib/fixed_floating_point.c and of the scheduler's arithmetic.
use pint_os_assignment.Common.{
  ℕ, ◌+◌, ◌<◌, ◌/◌, ltb, if◌then◌else◌, ◌*◌, ◌≤◌, ◌≡◌, ◌≢◌, refl, false, arith, ◌==◌,
}
use pint_os_assignment.Common.Int.{pos, neg_part, ◌+ℤ◌, ◌-ℤ◌, ◌/ℤ◌, ◌≤ℤ◌}
use pint_os_assignment.Kernel.{pri_min, pri_max}
use pint_os_assignment.FixedPoint.{ff_f, convert_ff, convert_down, convert_nearest, add_ff, sub_ff}
use pint_os_assignment.FixedPoint.Laws.{
  convert_down_truncates, IsSmall, convert_down-convert_nearest,
}
use pint_os_assignment.Mlfqs.{
  raw_priority, clamp_priority, thread_recalculate_priority, next_load_average,
}
use pint_os_assignment.Mlfqs.Laws.{
  IsUsage, exact, thread_recalculate_priority_bounds, next_load_average_bounds,
}
use pint_os_assignment.Tests.Machine.{machine}

seven : IsSmall (pos 7)
seven = record { high = omega arith; low = omega arith }

convert_down_truncates_example :
    (pos 0 ≤ℤ pos 7 → convert_down (add_ff (convert_ff (pos 7)) (pos 65535)) ≡ pos 7)
    × (pos 7 ≤ℤ pos 0 → convert_down (sub_ff (convert_ff (pos 7)) (pos 65535)) ≡ pos 7)
convert_down_truncates_example = convert_down_truncates (pos 7) 65535 seven (omega arith)

convert_down-convert_nearest_example :
    (pos 0 ≤ℤ pos 7
      → let y = convert_nearest (add_ff (convert_ff (pos 7)) (pos 40000)) in
        (convert_down y ≡ (if ltb 40000 (ff_f / 2) then pos 7 else pos 7 +ℤ pos 1))
        × (y ≢ pos 7)
        × (y ≢ pos 7 +ℤ pos 1))
    × (pos 7 ≤ℤ pos 0
        → 0 < neg_part (pos 7) + 40000
        → let y = convert_nearest (sub_ff (convert_ff (pos 7)) (pos 40000)) in
          (convert_down y ≡ (if ltb 40000 (ff_f / 2) then pos 7 else pos 7 -ℤ pos 1))
          × (y ≢ pos 7)
          × (y ≢ pos 7 -ℤ pos 1))
convert_down-convert_nearest_example =
    convert_down-convert_nearest (pos 7) 40000 seven (omega arith)

thread_recalculate_priority_bounds_example :
    let k' = thread_recalculate_priority machine 2 in
    let raw = raw_priority (machine.threads 2).recent_cpu (machine.threads 2).nice in
    (pos (k'.threads 2).priority ≡ clamp_priority raw)
    × (pos pri_min ≤ℤ clamp_priority raw)
    × (clamp_priority raw ≤ℤ pos pri_max)
    × (pos pri_min ≤ℤ raw → raw ≤ℤ pos pri_max → pos (k'.threads 2).priority ≡ raw)
    × (raw ≤ℤ pos pri_min → (k'.threads 2).priority ≡ pri_min)
    × (pos pri_max ≤ℤ raw → (k'.threads 2).priority ≡ pri_max)
    × (IsUsage (machine.threads 2).recent_cpu (machine.threads 2).nice
        → raw ≡ exact (machine.threads 2).recent_cpu (machine.threads 2).nice /ℤ pos 65536)
    × (k'.threads 2 ≡ record (machine.threads 2) { priority = (k'.threads 2).priority })
    × ((u : ℕ) → (u == 2) ≡ false → k'.threads u ≡ machine.threads u)
thread_recalculate_priority_bounds_example = thread_recalculate_priority_bounds machine 2 refl

next_load_average_bounds_example :
    (a' : ℕ) × (next_load_average (pos 65536) 3 ≡ pos a') × (a' ≤ 4 * ff_f)
next_load_average_bounds_example =
    next_load_average_bounds 65536 4 3 (omega arith) (omega arith) (omega arith)
