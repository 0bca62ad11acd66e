-- ===== src/Process/Sleep.antt =====
-- Sleeping over the seconds of the clock (w2/sys/process/process.c).
use sbrocks.Prelude.{
  ℕ, zero, suc, ◌+◌, ◌-◌, ◌<◌, ◌≤◌, ◌≡◌, refl, ◌∙◌, arith, ◌==◌, true, false, some, Option, List,
  length,
}
use sbrocks.Prelude.Fault.{◌>>=◌}
use sbrocks.Prelude.Chain.{member, Distinct}
use sbrocks.Process.{Kernel, Task, TaskState, update_time_slices, time_slice, is_sleep}
use sbrocks.Process.Lists.{HasTasks}
use sbrocks.Process.Waiting.{update_time_slices-member}

-- `update_time_slices` for each of `n` seconds.
pub seconds : (n fuel : ℕ) → Kernel → Option Kernel
seconds zero fuel k = some k
seconds (suc n) fuel k = do k' ← update_time_slices fuel k; seconds n fuel k'

abbrev Sleeps : Kernel → (task left : ℕ) → Type 0
Sleeps k task left =
    ((k.tasks task).state ≡ TaskState.task_sleep) × ((k.tasks task).sleep_time ≡ left)

time_slice-nearer :
    (t : Task) (left : ℕ)
    → t.state ≡ TaskState.task_sleep
    → t.sleep_time ≡ suc left
    → ((time_slice t).state ≡ TaskState.task_sleep) × ((time_slice t).sleep_time ≡ left)
unfolding time_slice is_sleep
time_slice-nearer t left s l =
    let e : (t.sleep_time == 0) ≡ false = ground arith in rw (s, e) (refl, omega arith)

time_slice-over :
    (t : Task)
    → t.state ≡ TaskState.task_sleep
    → t.sleep_time ≡ 0
    → (time_slice t).state ≡ TaskState.task_runnable
unfolding time_slice is_sleep
time_slice-over t s l = let e : (t.sleep_time == 0) ≡ true = ground arith in rw (s, e) refl

module _ (fuel task : ℕ) (xs : List ℕ) (distinct : Distinct xs) (enough : length xs < fuel)
    (here : member task xs ≡ true) where
  seconds-Sleeps :
      (n left : ℕ) (k : Kernel)
      → HasTasks k xs
      → Sleeps k task (n + left)
      → (k' : Kernel) × (seconds n fuel k ≡ some k') × HasTasks k' xs × Sleeps k' task left
  unfolding seconds
  seconds-Sleeps zero left k c s = let e : 0 + left ≡ left = omega arith in (k, refl, c, rw (← e) s)
  seconds-Sleeps (suc n) left k c s =
      let (k1, run, c1, all) = update_time_slices-member fuel xs k c distinct enough in
      let e : suc n + left ≡ suc (n + left) = omega arith in
      let nearer = time_slice-nearer (k.tasks task) (n + left) s.0 (s.1 ∙ e) in
      let now : k1.tasks task ≡ time_slice (k.tasks task) = all task ∙ rw here refl in
      let (k', rest, c', s') = seconds-Sleeps n left k1 c1 (rw now nearer) in
      (k', rw run rest, c', s')

  -- A task of the list that is put to sleep with `left` seconds sleeps through that many steps of the
  -- clock, and is runnable after one more. Fuel for each task and one more is enough.
  pub seconds-wakes :
      (left : ℕ) (k : Kernel)
      → HasTasks k xs
      → (k.tasks task).state ≡ TaskState.task_sleep
      → (k.tasks task).sleep_time ≡ left
      → ((n : ℕ)
          → n ≤ left
          → (k' : Kernel) × (seconds n fuel k ≡ some k')
            × ((k'.tasks task).state ≡ TaskState.task_sleep))
        × ((k' : Kernel) × (seconds (left + 1) fuel k ≡ some k')
            × ((k'.tasks task).state ≡ TaskState.task_runnable))
  unfolding seconds
  seconds-wakes left k c s l = (
    λ n h.
        let total : n + (left - n) ≡ left = omega arith in
        let (k', run, c', s') = seconds-Sleeps n (left - n) k c (s, rw total l) in (k', run, s'.0),
    awake left k c (s, l),
  )
    where
      awake :
          (left : ℕ) (k : Kernel)
          → HasTasks k xs
          → Sleeps k task left
          → (k' : Kernel) × (seconds (left + 1) fuel k ≡ some k')
            × ((k'.tasks task).state ≡ TaskState.task_runnable)
      awake zero k c s =
          let (k1, run, c1, all) = update_time_slices-member fuel xs k c distinct enough in
          let now : k1.tasks task ≡ time_slice (k.tasks task) = all task ∙ rw here refl in
          (k1, rw run refl, rw now (time_slice-over (k.tasks task) s.0 s.1))
      awake (suc left) k c s =
          let (k1, run, c1, all) = update_time_slices-member fuel xs k c distinct enough in
          let now : k1.tasks task ≡ time_slice (k.tasks task) = all task ∙ rw here refl in
          let nearer = time_slice-nearer (k.tasks task) left s.0 s.1 in
          let (k', rest, up) = awake left k1 c1 (rw now nearer) in
          let e : suc left + 1 ≡ suc (left + 1) = omega arith in (k', rw (e, run) rest, up)
