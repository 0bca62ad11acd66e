-- ===== src/Timer/Tests.antt =====
-- The clock shortly before its first second ends, and the theorem on its tick there.
use sbrocks.Prelude.{◌+◌, ◌≡◌, ◌≢◌, refl, arith, some, [], ◌∷◌}
use sbrocks.Process.{Kernel, TaskState, update_time_slices}
use sbrocks.Process.Waiting.{update_time_slices-member}
use sbrocks.Process.Tests.{three_tasks, three, three-HasTasks, three-Distinct}
use sbrocks.Timer.{Clock, tick}
use sbrocks.Timer.Time.{IsTime, tick-IsTime}

abbrev early : Clock
early = record { timer_ticks = 107; prev_secs = 0; hh = 0; mm = 0; ss = 0; shown = []; ports = [] }

early-IsTime : IsTime early
early-IsTime = record {
  seconds = refl;
  ss = refl;
  minutes = refl;
  mm = omega arith;
  hh = omega arith;
}

sliced : (k1 : Kernel) × (update_time_slices 4 (three_tasks TaskState.task_sleep) ≡ some k1)
sliced =
    let r =
      update_time_slices-member 4 three (three_tasks TaskState.task_sleep)
        (three-HasTasks TaskState.task_sleep) three-Distinct (omega arith) in
    (r.0, r.1)

tick-IsTime_example :
    let k = three_tasks TaskState.task_sleep in
    (c' : Clock) × (k' : Kernel) × (tick 4 early k ≡ some (c', k'))
    × (c'.timer_ticks ≡ 107 + 1)
    × IsTime c'
    × ((c'.prev_secs ≡ 0) → (k' ≡ k) × (c'.shown ≡ []))
    × ((c'.prev_secs ≢ 0)
        → (c'.prev_secs ≡ 0 + 1) × (k' ≡ sliced.0) × (c'.shown ≡ (c'.hh, c'.mm, c'.ss) ∷ []))
tick-IsTime_example =
    tick-IsTime 4 early (three_tasks TaskState.task_sleep) sliced.0 early-IsTime (omega arith)
      sliced.1
