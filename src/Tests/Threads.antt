-- ===== src/Tests/Threads.antt =====
-- Runs of threads/thread.c on the small machine.
use pint_os_assignment.Common.{ℕ, ◌≡◌, false, ok}
use pint_os_assignment.Kernel.{Kernel, dying}
use pint_os_assignment.Threads.{next_thread_to_run, schedule, thread_update_priority}
use pint_os_assignment.Threads.Invariant.{Chosen, next_thread_to_run_picks}
use pint_os_assignment.Threads.Schedule.{Switched, freed_by, schedule_switches}
use pint_os_assignment.Threads.Priority.{IsEffective, thread_update_priority_correct}
use pint_os_assignment.Common.{List, count, ◌==◌}
use pint_os_assignment.Tests.Machine.{machine, machine_of, machine-IsSwitching}

next_thread_to_run_picks_example :
    (t : ℕ) × (rest : List ℕ) × (next_thread_to_run machine
      ≡ ok (t, record machine { ready_list = rest }))
    × Chosen machine t rest
next_thread_to_run_picks_example = next_thread_to_run_picks machine

schedule_switches_example :
    (k' : Kernel) × (schedule (machine_of dying) ≡ ok k')
    × Switched (machine_of dying) k'
    × (k'.freed ≡ freed_by (machine_of dying) k'.cur)
schedule_switches_example = schedule_switches (machine_of dying) machine-IsSwitching

thread_update_priority_correct_example :
    let k' = thread_update_priority machine 2 in
    IsEffective machine 20 (machine.threads 2).locks (k'.threads 2).priority
    × ((l : ℕ) → count l (k'.threads 2).locks ≡ count l (machine.threads 2).locks)
    × ((u : ℕ) → (u == 2) ≡ false → k'.threads u ≡ machine.threads u)
    × ((u : ℕ) → (k'.threads u).status ≡ (machine.threads u).status)
thread_update_priority_correct_example = thread_update_priority_correct machine 2
