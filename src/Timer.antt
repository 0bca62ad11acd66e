-- ===== src/Timer.antt =====
-- w2/sys/timer.c: the clock, its interrupt and the time slices that it gives to tasks.
-- Ports are written, in `ports`, with the last write first; `shown` has the times that the handler
-- gave to `kprintat`, the last first. `none` is a division by zero, an overflow of the signed count of
-- ticks, or a walk over tasks without fuel.
pub mod Time
mod Tests
use sbrocks.Prelude.{
  ℕ, zero, suc, ◌+◌, ◌*◌, ◌/◌, ◌%◌, ◌^◌, Bool, true, false, Option, none, some, List, [], ◌∷◌, ltb,
  ◌==◌, not, if◌then◌else◌,
}
use sbrocks.Prelude.Fault.{◌>>=◌, ◌>>◌, require}
use sbrocks.Kstring.{byte_mod, int_mod}
use sbrocks.Process.{Kernel, Regs, put_task, update_time_slices, schedule_process}

pub record Clock : Type 0 where
  pub timer_ticks : ℕ
  pub prev_secs : ℕ
  pub hh : ℕ
  pub mm : ℕ
  pub ss : ℕ
  pub shown : List (ℕ × ℕ × ℕ)
  pub ports : List (ℕ × ℕ)

abbrev pub outportb : (port value : ℕ) → Clock → Clock
outportb port value c = record c { ports = (port, value) ∷ c.ports }

pub timer_phase : (hz : ℕ) → Clock → Option Clock
timer_phase hz c = do
  require (not (hz == 0))
  let divisor = 1193180 / hz % 2 ^ 16
  let c1 = outportb 0x40 (divisor % byte_mod) (outportb 0x43 0x36 c)
  some (outportb 0x40 (divisor / byte_mod) c1)

-- A minute has passed.
pub pass_minute : Clock → Clock
pass_minute c =
    let minutes = (c.mm + 1) % int_mod in
    let hours = (c.hh + 1) % int_mod in
    if minutes % 60 == 0
    then record c { hh = (if ltb 24 hours then 0 else hours); mm = 0 }
    else record c { mm = minutes }

-- The seconds since the start have changed.
pub second_change : (secs : ℕ) → Clock → Clock
second_change secs c =
    let c1 = record c { ss = secs % 60 } in
    let c2 = if secs % 60 == 0 then pass_minute c1 else c1 in
    record c2 { shown = (c2.hh, c2.mm, c2.ss) ∷ c2.shown; prev_secs = secs }

-- What a tick does to the clock and the sleeping tasks.
pub tick : (fuel : ℕ) → Clock → Kernel → Option (Clock × Kernel)
tick fuel c k =
    let c1 = record c { timer_ticks = c.timer_ticks + 1 } in
    let secs = c1.timer_ticks / 100 in
    let sliced = update_time_slices fuel k in
    if not (ltb c1.timer_ticks (2 ^ 31))
    then none
    else if not (c1.timer_ticks % 18 == 0)
    then some (c1, k)
    else if c1.prev_secs == secs
    then some (c1, k)
    else do k' ← sliced; some (second_change secs c1, k')

-- The registers of the interrupted code go to its task, and those of the next task come back.
pub timer_handler : (fuel : ℕ) → Regs → Clock → Kernel → Option (Regs × Clock × Kernel)
timer_handler fuel r c k = do
  let task = k.current_task
  let saved = put_task task (record (k.tasks task) { r = r }) k
  (c1, k1) ← tick fuel c (if task == 0 then k else saved)
  k2 ← schedule_process fuel k1
  let next = k2.current_task
  some ((if next == 0 then r else (k2.tasks next).r), outportb 0x20 0x20 c1, k2)
