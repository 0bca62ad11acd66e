-- ===== src/Syscall/Control.antt =====
-- The calls of w2/sys/syscall.c on the current task.
pub mod Heap
pub mod Wait
use sbrocks.Prelude.{
  ℕ, zero, suc, ◌+◌, ◌-◌, ◌%◌, Bool, true, false, Option, none, some, List, [], ◌∷◌, ◌==◌, not, ltb,
  if◌then◌else◌,
}
use sbrocks.Prelude.Fault.{◌>>=◌, ◌>>◌, require}
use sbrocks.Kstring.{Memory, word_mod}
use sbrocks.Kstring.Words.{store_bytes}
use sbrocks.Process.{
  Kernel, Task, Mm, TaskState, VmaType, put_task, set_state, get_task, remove_from_parent,
}
use sbrocks.Process.Create.{put_mm, put_area, area_next_of, free_task_struct}
use sbrocks.Syscall.{
  System, Answer, returns, switches, minus_one, with_kernel, with_memory, current, current_of,
  task_of, change_task, leave_processor,
}

-- The task's state after `free_task_struct` is written once more.
pub system_kill : (fuel process_id : ℕ) → System → Option (ℕ × System)
system_kill fuel process_id sys = do
  t ← get_task fuel process_id sys.kernel
  elim (t == 0) [
    | true ↦ some (minus_one, sys)
    | false ↦ do
      k ← free_task_struct fuel t sys.kernel
      some (0, with_kernel (set_state t TaskState.task_stopped k) sys)
  ]

-- `task->parent->state = TASK_RUNNABLE; remove_from_parent(task);`
pub leave_parent : (task : ℕ) → Kernel → Option Kernel
leave_parent task k = do
  let parent = (k.tasks task).parent
  require (not (parent == 0))
  remove_from_parent task (set_state parent TaskState.task_runnable k)

pub system_exit : (fuel : ℕ) → System → Option System
system_exit fuel sys = do
  let task = current sys
  let left = leave_parent task sys.kernel
  k1 ← (if ltb 0 (current_of sys).ppid then left else some sys.kernel)
  k2 ← free_task_struct fuel task k1
  let k3 = set_state task TaskState.task_stopped k2
  some (with_kernel (record k3 { current_task = 0 }) sys)

pub is_heap : VmaType → Bool
is_heap VmaType.vma_heap = true
is_heap VmaType.vma_stack = false
is_heap VmaType.vma_normal = false

-- The walk to the first heap area, whose end moves.
pub grow_heap : (fuel end_brk vma : ℕ) → Kernel → Option Kernel
grow_heap zero end_brk vma k = none
grow_heap (suc fuel) end_brk vma k =
    let rest = grow_heap fuel end_brk (area_next_of k vma) k in
    if vma == 0
    then some k
    else if is_heap (k.areas vma).vma_type
    then some (put_area vma (record (k.areas vma) { vm_end = end_brk }) k)
    else rest

pub increament_heap_vma : (fuel task end_brk : ℕ) → Kernel → Option Kernel
increament_heap_vma fuel task end_brk k =
    grow_heap fuel end_brk (k.mms (k.tasks task).mm).vma_list k

pub system_brk : (fuel end_brk : ℕ) → System → Option (ℕ × System)
system_brk fuel end_brk sys =
    let task = current sys in
    let k = sys.kernel in
    let mm = (k.tasks task).mm in
    let k1 = put_mm mm (record (k.mms mm) { brk_end = end_brk }) k in
    let grown = increament_heap_vma fuel task end_brk k1 in
    if end_brk == 0
    then some ((k.mms mm).brk_end, sys)
    else do k2 ← grown; some ((k2.mms mm).brk_end, with_kernel k2 sys)

pub system_getpid : System → ℕ
system_getpid sys = (current_of sys).pid

pub system_getppid : System → ℕ
system_getppid sys = (current_of sys).ppid

pub system_sleep : (sec : ℕ) → System → System
system_sleep sec sys =
    let t = current_of sys in
    let slept = record t {
      state = TaskState.task_sleep;
      sleep_time = (sec + word_mod - 1) % word_mod;
    } in
    leave_processor (change_task (current sys) slept sys)

-- `*st = -1` in 64 bits.
abbrev pub store_status : (status : ℕ) → System → System
store_status status sys = with_memory (store_bytes 8 sys.kernel.memory status minus_one) sys

pub system_waitpid : (child_pid status : ℕ) → System → Answer × System
system_waitpid child_pid status sys =
    let t = current_of sys in
    let waits = record t { state = TaskState.task_waiting; wait_for_child_pid = child_pid } in
    if t.child_count == 0
    then (returns minus_one, store_status status sys)
    else (switches, leave_processor (change_task (current sys) waits sys))

-- Once the task runs again.
pub system_waitpid_resumed : (child_pid status : ℕ) → System → ℕ × System
system_waitpid_resumed child_pid status sys = (child_pid, store_status status sys)

pub system_dup2 : (dstfd srcfd : ℕ) → System → System
system_dup2 dstfd srcfd sys =
    let t = current_of sys in
    if srcfd == 1
    then change_task (current sys) (record t { write_redirection_fd = dstfd }) sys
    else if srcfd == 0
    then change_task (current sys) (record t { read_redirection_fd = dstfd }) sys
    else sys
