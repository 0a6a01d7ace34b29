-- ===== src/Mlfqs/Laws.antt =====
-- What the priorities and the load average of the multi-level feedback queue come to.
use pint_os_assignment.Common.{
  ℕ, ◌+◌, ◌*◌, ◌/◌, ◌^◌, ◌≤◌, ◌<◌, ◌≡◌, refl, sym, ap, ◌∙◌, arith, ◌==◌, false,
}
use pint_os_assignment.Common.Int.{
  ℤ, pos, negsuc, to_int, pos_part, neg_part, ◌-ℤ◌, ◌*ℤ◌, ◌/ℤ◌, ◌≤ℤ◌, to_int_fits, -ℤ_parts,
  one_part, pos-*ℤ-pos, pos-+ℤ-pos, quot_mono, *ℤ-pos_parts, /ℤ-pos_parts,
}
use pint_os_assignment.Kernel.{Kernel, pri_min, pri_max}
use pint_os_assignment.FixedPoint.{ff_f, convert_ff, convert_down, add_ff, sub_ff, mul_ff, div_fi}
use pint_os_assignment.Mlfqs.{
  raw_priority, clamp_priority, thread_recalculate_priority, next_load_average,
}

-- The range of `int` for a recent CPU time, and the nice values of the code.
pub record IsUsage (cpu nice : ℤ) : Type 0 where
  pub cpu_high : pos_part cpu < 2 ^ 31
  pub cpu_low : neg_part cpu ≤ 2 ^ 31
  pub nice_high : pos_part nice ≤ 20
  pub nice_low : neg_part nice ≤ 20

-- The computed value before its conversion to an integer, without a bound.
abbrev pub exact : ℤ → ℤ → ℤ
exact cpu nice = pos 63 *ℤ pos 65536 -ℤ cpu /ℤ pos 4 -ℤ nice *ℤ pos 2 *ℤ pos 65536

-- No intermediate result of thread_recalculate_priority leaves the range of `int`.
raw_priority-exact :
    (cpu nice : ℤ) → IsUsage cpu nice → raw_priority cpu nice ≡ exact cpu nice /ℤ pos 65536
unfolding raw_priority sub_ff convert_ff div_fi convert_down
raw_priority-exact cpu nice v =
    let top = pos 63 *ℤ pos 65536 in
    let p = top -ℤ cpu /ℤ pos 4 in
    let a = *ℤ-pos_parts (pos 63) 65536 in
    let b = /ℤ-pos_parts cpu 4 in
    let c = -ℤ_parts top (cpu /ℤ pos 4) in
    let d = one_part p in
    let e = *ℤ-pos_parts nice 2 in
    let f = *ℤ-pos_parts (nice *ℤ pos 2) 65536 in
    let g = -ℤ_parts p (nice *ℤ pos 2 *ℤ pos 65536) in
    let i = one_part (exact cpu nice) in
    rw
      (
        to_int_fits top (omega (arith, a)) (omega (arith, a)),
        to_int_fits p (omega (arith, a, b, c, d, v.cpu_high, v.cpu_low))
            (omega (arith, a, b, c, d, v.cpu_high, v.cpu_low)),
        to_int_fits (nice *ℤ pos 2) (omega (arith, e, v.nice_high)) (omega (arith, e, v.nice_low)),
        to_int_fits (nice *ℤ pos 2 *ℤ pos 65536) (omega (arith, e, f, v.nice_high))
            (omega (arith, e, f, v.nice_low)),
        to_int_fits (exact cpu nice)
            (omega (arith, a, b, c, d, e, f, g, i, v.cpu_high, v.cpu_low, v.nice_high, v.nice_low))
            (omega (arith, a, b, c, d, e, f, g, i, v.cpu_high, v.cpu_low, v.nice_high, v.nice_low)),
      )
      refl

-- What the clamp comes to.
clamp_priority_lem :
    (p : ℤ)
    → (pos pri_min ≤ℤ clamp_priority p)
      × (clamp_priority p ≤ℤ pos pri_max)
      × (pos (pos_part (clamp_priority p)) ≡ clamp_priority p)
      × (pos pri_min ≤ℤ p → p ≤ℤ pos pri_max → pos (pos_part (clamp_priority p)) ≡ p)
      × (p ≤ℤ pos pri_min → pos_part (clamp_priority p) ≡ pri_min)
      × (pos pri_max ≤ℤ p → pos_part (clamp_priority p) ≡ pri_max)
unfolding clamp_priority
clamp_priority_lem (pos n) = (
  ground arith,
  ground arith,
  ground arith,
  λ a b. ground arith,
  λ a. ground arith,
  λ a. ground arith,
)
clamp_priority_lem (negsuc n) = (
  ground arith,
  ground arith,
  ground arith,
  λ a b. ground arith,
  λ a. ground arith,
  λ a. ground arith,
)

recalculated :
    (k : Kernel) (t : ℕ)
    → (t == k.idle_thread) ≡ false
    → (thread_recalculate_priority k t).threads t ≡ record (k.threads t) {
      priority =
          pos_part (clamp_priority (raw_priority (k.threads t).recent_cpu (k.threads t).nice));
    }
unfolding thread_recalculate_priority
recalculated k t h = ground arith

-- Whatever its recent CPU time and nice value, a thread that is not the idle one gets a priority
-- from PRI_MIN to PRI_MAX: what the clamp makes of the computed value, which is that value where it
-- lies between them, PRI_MIN where it lies below and PRI_MAX where it lies above.
-- With a recent CPU time that an `int` holds and a nice value from -20 to 20 nothing overflows, and
-- the computed value is PRI_MAX less a quarter of the recent CPU time less twice the nice value, cut
-- to an integer. Nothing else of the
-- thread and no other thread changes.
pub thread_recalculate_priority_bounds :
    (k : Kernel) (t : ℕ)
    → (t == k.idle_thread) ≡ false
    → let k' = thread_recalculate_priority k t in
      let raw = raw_priority (k.threads t).recent_cpu (k.threads t).nice in
      (pos (k'.threads t).priority ≡ clamp_priority raw)
      × (pos pri_min ≤ℤ clamp_priority raw)
      × (clamp_priority raw ≤ℤ pos pri_max)
      × (pos pri_min ≤ℤ raw → raw ≤ℤ pos pri_max → pos (k'.threads t).priority ≡ raw)
      × (raw ≤ℤ pos pri_min → (k'.threads t).priority ≡ pri_min)
      × (pos pri_max ≤ℤ raw → (k'.threads t).priority ≡ pri_max)
      × (IsUsage (k.threads t).recent_cpu (k.threads t).nice
          → raw ≡ exact (k.threads t).recent_cpu (k.threads t).nice /ℤ pos 65536)
      × (k'.threads t ≡ record (k.threads t) { priority = (k'.threads t).priority })
      × ((u : ℕ) → (u == t) ≡ false → k'.threads u ≡ k.threads u)
unfolding thread_recalculate_priority
thread_recalculate_priority_bounds k t h =
    let raw = raw_priority (k.threads t).recent_cpu (k.threads t).nice in
    let (low, high, stored, same, below, above) = clamp_priority_lem raw in
    let there = recalculated k t h in
    let p = ap (λ th. th.priority) there in
    (
      ap pos p ∙ stored,
      low,
      high,
      λ a b. ap pos p ∙ same a b,
      λ a. p ∙ below a,
      λ a. p ∙ above a,
      raw_priority-exact (k.threads t).recent_cpu (k.threads t).nice,
      there ∙ ap (λ q. record (k.threads t) { priority = q }) (sym p),
      λ u n. ground arith,
    )

exact_mono :
    (cpu cpu' nice nice' : ℤ)
    → cpu ≤ℤ cpu'
    → nice ≤ℤ nice'
    → exact cpu' nice' /ℤ pos 65536 ≤ℤ exact cpu nice /ℤ pos 65536
exact_mono cpu cpu' nice nice' h k =
    (quot_mono _ _ (
      omega (
        arith,
        (quot_mono cpu cpu' h).0,
        -ℤ_parts (pos 63 *ℤ pos 65536) (cpu /ℤ pos 4),
        -ℤ_parts (pos 63 *ℤ pos 65536) (cpu' /ℤ pos 4),
        -ℤ_parts (pos 63 *ℤ pos 65536 -ℤ cpu /ℤ pos 4) (nice *ℤ pos 2 *ℤ pos 65536),
        -ℤ_parts (pos 63 *ℤ pos 65536 -ℤ cpu' /ℤ pos 4) (nice' *ℤ pos 2 *ℤ pos 65536),
        *ℤ-pos_parts (nice *ℤ pos 2) 65536,
        *ℤ-pos_parts (nice' *ℤ pos 2) 65536,
        *ℤ-pos_parts nice 2,
        *ℤ-pos_parts nice' 2,
      ))).1

clamp_mono : (p q : ℤ) → p ≤ℤ q → clamp_priority p ≤ℤ clamp_priority q
unfolding clamp_priority
clamp_mono p q h = ground arith

-- With recent CPU times that an `int` holds and nice values from -20 to 20, nothing overflows, and a
-- thread that used no less CPU time lately and is no less nice gets no higher priority.
recalculate_priority_antitone :
    (cpu cpu' nice nice' : ℤ)
    → IsUsage cpu nice
    → IsUsage cpu' nice'
    → cpu ≤ℤ cpu'
    → nice ≤ℤ nice'
    → clamp_priority (raw_priority cpu' nice') ≤ℤ clamp_priority (raw_priority cpu nice)
recalculate_priority_antitone cpu cpu' nice nice' v v' h k = clamp_mono _ _ (
    rw (raw_priority-exact cpu nice v, raw_priority-exact cpu' nice' v')
      (exact_mono cpu cpu' nice nice' h k))

-- The factors of the load average, in fixed point.
factors :
    (div_fi (convert_ff (pos 59)) (pos 60) ≡ pos 64443)
    × (div_fi (convert_ff (pos 1)) (pos 60) ≡ pos 1092)
unfolding div_fi convert_ff to_int ◌*ℤ◌ ◌/ℤ◌
factors = (refl, refl)

converted : (r : ℕ) → r < 2 ^ 15 → convert_ff (pos r) ≡ pos (r * ff_f)
unfolding convert_ff
converted r h =
    let e = pos-*ℤ-pos r ff_f in rw e (to_int_fits (pos (r * ff_f)) (omega arith) (omega arith))

scaled : (c a : ℕ) → c * a / 65536 < 2 ^ 31 → mul_ff (pos c) (pos a) ≡ pos (c * a / 65536)
unfolding mul_ff ◌/ℤ◌
scaled c a h = rw (pos-*ℤ-pos c a) (to_int_fits (pos (c * a / 65536)) h (omega arith))

-- While at most `n` threads are ready or running, with `n` below 2^15, a load average from 0 to `n`,
-- in fixed point, stays there.
pub next_load_average_bounds :
    (a n ready : ℕ)
    → n < 2 ^ 15
    → a ≤ n * ff_f
    → ready ≤ n
    → (a' : ℕ) × (next_load_average (pos a) ready ≡ pos a') × (a' ≤ n * ff_f)
unfolding next_load_average add_ff
next_load_average_bounds a n ready h p q = (
  64443 * a / 65536 + 1092 * (ready * ff_f) / 65536,
  rw
      (
        factors.0,
        factors.1,
        converted ready (omega arith),
        scaled 64443 a (omega arith),
        scaled 1092 (ready * ff_f) (omega arith),
      )
      (rw (pos-+ℤ-pos (64443 * a / 65536) (1092 * (ready * ff_f) / 65536)) (
        to_int_fits (pos (64443 * a / 65536 + 1092 * (ready * ff_f) / 65536)) (omega arith)
          (omega arith))),
  omega arith,
)
