-- ===== src/Mlfqs.antt =====
-- The multi-level feedback queue scheduler of threads/thread.c, in fixed point. `ready_threads` is
-- the size of the ready list.
pub mod Laws
use pint_os_assignment.Common.{
  ℕ, suc, ◌+◌, ◌%◌, Bool, true, false, not, List, [], ◌∷◌, ◌==◌, if◌then◌else◌, length,
}
use pint_os_assignment.Common.Int.{ℤ, pos, negsuc, pos_part, ltb_ℤ, ◌*ℤ◌, to_int}
use pint_os_assignment.Kernel.{Thread, Kernel, pri_min, pri_max, set_thread}
use pint_os_assignment.FixedPoint.{
  convert_ff, convert_down, add_ff, sub_ff, add_fi, mul_ff, mul_fi, div_ff, div_fi,
}

-- The three assignments of thread_recalculate_priority before its clamp.
unfoldable pub raw_priority : ℤ → ℤ → ℤ
raw_priority recent_cpu nice =
    let p = sub_ff (convert_ff (pos pri_max)) (div_fi recent_cpu (pos 4)) in
    convert_down (sub_ff p (convert_ff (to_int (nice *ℤ pos 2))))

unfoldable pub clamp_priority : ℤ → ℤ
clamp_priority p =
    if ltb_ℤ p (pos pri_min)
    then pos pri_min
    else (if ltb_ℤ (pos pri_max) p then pos pri_max else p)

unfoldable pub thread_recalculate_priority : Kernel → ℕ → Kernel
thread_recalculate_priority k t =
    let th = k.threads t in
    if t == k.idle_thread
    then k
    else set_thread k t
        (record th { priority = pos_part (clamp_priority (raw_priority th.recent_cpu th.nice)) })

unfoldable pub thread_update_recent_cpu_per_tick : Kernel → Kernel
thread_update_recent_cpu_per_tick k =
    let th = k.threads k.cur in
    if k.cur == k.idle_thread
    then k
    else set_thread k k.cur (record th { recent_cpu = add_fi th.recent_cpu (pos 1) })

unfoldable pub recalculate_recent_cpu : ℤ → Kernel → ℕ → Kernel
recalculate_recent_cpu load_average k t =
    let th = k.threads t in
    let twice = mul_fi load_average (pos 2) in
    let decayed = mul_ff (div_ff twice (add_fi twice (pos 1))) th.recent_cpu in
    thread_recalculate_priority (set_thread k t (record th { recent_cpu = add_fi decayed th.nice }))
      t

-- thread_foreach over the list of all threads.
unfoldable pub recalculate_all : ℤ → Kernel → List ℕ → Kernel
recalculate_all load_average k [] = k
recalculate_all load_average k (t ∷ l) =
    recalculate_all load_average (recalculate_recent_cpu load_average k t) l

-- The new load average, by the number of threads that are ready or running.
unfoldable pub next_load_average : ℤ → ℕ → ℤ
next_load_average load_average ready_threads =
    let ff_59_60 = div_fi (convert_ff (pos 59)) (pos 60) in
    let ff_1_60 = div_fi (convert_ff (pos 1)) (pos 60) in
    add_ff (mul_ff ff_59_60 load_average) (mul_ff ff_1_60 (convert_ff (pos ready_threads)))

-- `all` is the list of all threads; the result is the new load average with the new state.
unfoldable pub thread_recalculate_load_avg_and_recent_cpu :
    Kernel → ℤ → List ℕ → record { average : ℤ; state : Kernel }
thread_recalculate_load_avg_and_recent_cpu k load_average all =
    let busy = length k.ready_list + (if k.cur == k.idle_thread then 0 else 1) in
    let average = next_load_average load_average busy in
    record { average = average; state = recalculate_all average k all }
