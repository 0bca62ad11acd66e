-- ===== src/Syscall.antt =====
-- w2/sys/syscall.c: the calls of user programs, over tasks, files, pipes, keyboard and screen.
-- The parts see one memory, that of the loaded tables. A call that gives the processor away with
-- `int $0x20` is modelled up to that point; what follows once the task runs again is a function of
-- its own. Fuel is for walks over lists, `text_fuel` for texts.
pub mod Control
pub mod Io
pub mod Fork
pub mod Handler
pub mod Tests
use sbrocks.Prelude.{
  ℕ, zero, suc, ◌+◌, ◌-◌, ◌%◌, Bool, true, false, Option, none, some, List, [], ◌∷◌, ◌==◌, not,
  if◌then◌else◌,
}
use sbrocks.Prelude.Fault.{◌>>=◌, ◌>>◌, require}
use sbrocks.Kstring.{Memory, word_mod}
use sbrocks.Process.{Kernel, Task, TaskState, put_task, set_state}
use sbrocks.Tarfs.{Tarfs}
use sbrocks.Vga.{Vga, putch}
use sbrocks.Kb.{Kb, kb_handler}
use sbrocks.Pipe.{read_from_pipe}

pub record System : Type 0 where
  -- its memory is the one that counts
  pub kernel : Kernel
  pub fs : Tarfs
  pub kb : Kb
  pub vga : Vga
  pub pipe_read_wait_queue : ℕ
  pub str : ℕ
  pub count : ℕ
  pub pipe_write_flag : ℕ

-- What a call gives back at once, or that it gives the processor away.
pub data Answer : Type 0 where
  returns : ℕ → Answer
  switches : Answer

abbrev pub minus_one : ℕ
minus_one = word_mod - 1

abbrev pub with_kernel : Kernel → System → System
with_kernel k sys = record sys { kernel = k }

abbrev pub with_memory : Memory → System → System
with_memory m sys = record sys { kernel = record sys.kernel { memory = m } }

-- The files as they see the memory, and the system with the files and the memory that they leave.
abbrev pub fs_of : System → Tarfs
fs_of sys = record sys.fs { memory = sys.kernel.memory }

abbrev pub with_fs : Tarfs → System → System
with_fs fs sys = record (with_memory fs.memory sys) { fs = fs }

abbrev pub vga_of : System → Vga
vga_of sys = record sys.vga { memory = sys.kernel.memory }

abbrev pub with_vga : Vga → System → System
with_vga vga sys = record (with_memory vga.memory sys) { vga = vga }

abbrev pub current : System → ℕ
current sys = sys.kernel.current_task

abbrev pub task_of : System → ℕ → Task
task_of sys p = sys.kernel.tasks p

abbrev pub current_of : System → Task
current_of sys = task_of sys (current sys)

abbrev pub change_task : ℕ → Task → System → System
change_task p t sys = with_kernel (put_task p t sys.kernel) sys

-- `set_current_task(NULL)`
abbrev pub leave_processor : System → System
leave_processor sys = with_kernel (record sys.kernel { current_task = 0 }) sys

pub add_to_pipe_read_waiting_queue : (task : ℕ) → System → System
add_to_pipe_read_waiting_queue task sys =
    record (leave_processor (with_kernel (set_state task TaskState.task_waiting sys.kernel) sys)) {
      pipe_read_wait_queue = task;
    }

-- The waiting task's buffer is written with the tables of the current task loaded.
pub wake_up_waiting_task : (fuel : ℕ) → System → Option System
wake_up_waiting_task fuel sys =
    let p = sys.pipe_read_wait_queue in
    let sys1 = with_kernel (set_state p TaskState.task_runnable sys.kernel) sys in
    let t = task_of sys1 p in
    let read = read_from_pipe fuel t.pipe t.read_redirection_fd sys1.str sys1.count (fs_of sys1) in
    if p == 0
    then some sys
    else do fs ← read; some (record (with_fs fs sys1) { pipe_write_flag = 0 })

-- The keyboard's interrupt in the system: the task that waits for a line is one of its tasks.
pub keyboard_interrupt : (scancode : ℕ) → System → Option System
keyboard_interrupt scancode sys = do
  kb ← kb_handler scancode (record sys.kb { memory = sys.kernel.memory; waiting_state = 0 })
  let sys1 = record (with_memory kb.memory sys) { kb = kb }
  let woken = with_kernel (set_state kb.waiting_task TaskState.task_runnable sys1.kernel) sys1
  some (if kb.waiting_state == 0 then sys1 else woken)
