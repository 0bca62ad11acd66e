-- ===== src/Process.antt =====
-- w2/sys/process/process.c and process_manager.c: tasks, their lists and the scheduler.
-- Structures live at addresses, one map for each type; the lists run through their `next` fields
-- and end at 0. A walk takes fuel. `none` is the fuel's end, a fault of the page allocator, a
-- write behind an array or an access through the null pointer of a task without a parent; other
-- pointers that the source follows untested are taken as valid.
pub mod Lists
pub mod Schedule
pub mod Waiting
pub mod Sleep
pub mod Create
pub mod Tests
use sbrocks.Prelude.{
  ℕ, zero, suc, ◌+◌, ◌-◌, ◌*◌, ◌%◌, Bool, true, false, Option, none, some, List, ◌==◌, not, ltb,
  if◌then◌else◌, ◌&&◌,
}
use sbrocks.Prelude.Chain.{last}
use sbrocks.Prelude.Fault.{◌>>=◌, ◌>>◌, require}
use sbrocks.PhyAlloc.{word_mod}
use sbrocks.Paging.{Vm, virt_to_phy}
use sbrocks.Kstring.{Memory}

pub data TaskState : Type 0 where
  task_running : TaskState
  task_idle : TaskState
  task_interruptible : TaskState
  task_uninterruptible : TaskState
  task_zombie : TaskState
  task_stopped : TaskState
  task_swapping : TaskState
  task_runnable : TaskState
  task_sleep : TaskState
  task_waiting : TaskState

pub record Regs : Type 0 where
  pub segments : ℕ × ℕ × ℕ × ℕ
  -- r15 to r8, rsi, rbp, rdx, rcx, rbx, rdi, int_no and err_code
  pub general : List ℕ
  pub rax : ℕ
  pub reg_rip : ℕ
  pub cs : ℕ
  pub rflag : ℕ
  pub reg_rsp : ℕ
  pub ss : ℕ

pub record Task : Type 0 where
  pub pid : ℕ
  pub ppid : ℕ
  pub name : List ℕ
  pub state : TaskState
  pub next : ℕ
  pub e_entry : ℕ
  pub rip : ℕ
  pub rsp : ℕ
  pub pml4e : ℕ
  pub sleep_time : ℕ
  pub kstack : ℕ → ℕ
  pub r : Regs
  pub fd : ℕ → ℕ
  pub parent : ℕ
  pub child_count : ℕ
  pub wait_for_child_pid : ℕ
  pub mm : ℕ
  pub pipe : ℕ
  pub write_redirection_fd : ℕ
  pub read_redirection_fd : ℕ

pub data VmaType : Type 0 where
  vma_heap : VmaType
  vma_stack : VmaType
  vma_normal : VmaType

pub record Mm : Type 0 where
  pub vma_list : ℕ
  pub start_brk : ℕ
  pub end_brk : ℕ
  pub start_stack : ℕ
  pub arg_start : ℕ
  pub arg_end : ℕ
  pub env_start : ℕ
  pub env_end : ℕ
  pub total_vm_size : ℕ
  pub stack_vm : ℕ
  pub brk_start : ℕ
  pub brk_end : ℕ

pub record Area : Type 0 where
  pub vm_mm : ℕ
  pub vm_start : ℕ
  pub vm_end : ℕ
  pub vm_flags : ℕ
  pub vm_file_descp : ℕ
  pub vma_type : VmaType
  pub area_next : ℕ

pub record Kernel : Type 0 where
  pub tasks : ℕ → Task
  pub mms : ℕ → Mm
  pub areas : ℕ → Area
  pub task_list : ℕ
  pub free_task_list : ℕ
  pub free_vm_list : ℕ
  pub next_pid : ℕ
  pub current_task : ℕ
  pub tss_rsp0 : ℕ
  pub vm : Vm
  -- the bytes that the loaded tables show
  pub memory : Memory

pub is_runnable : TaskState → Bool
is_runnable TaskState.task_runnable = true
is_runnable _ = false

pub is_sleep : TaskState → Bool
is_sleep TaskState.task_sleep = true
is_sleep _ = false

pub is_waiting : TaskState → Bool
is_waiting TaskState.task_waiting = true
is_waiting _ = false

abbrev pub put_task : ℕ → Task → Kernel → Kernel
put_task p t k = record k { tasks = λ q. if p == q then t else k.tasks q }

abbrev pub set_next : (p value : ℕ) → Kernel → Kernel
set_next p value k = put_task p (record (k.tasks p) { next = value }) k

abbrev pub set_state : ℕ → TaskState → Kernel → Kernel
set_state p state k = put_task p (record (k.tasks p) { state = state }) k

abbrev pub next_of : Kernel → ℕ → ℕ
next_of k p = (k.tasks p).next

pub add_to_task_list : (fuel task : ℕ) → Kernel → Option Kernel
add_to_task_list fuel task k =
    if k.task_list == 0
    then some (set_next task 0 (record k { task_list = task }))
    else do t ← last fuel (next_of k) k.task_list; some (set_next task 0 (set_next t task k))

pub add_to_free_task_list : (fuel task : ℕ) → Kernel → Option Kernel
add_to_free_task_list fuel task k =
    if k.free_task_list == 0
    then some (set_next task 0 (record k { free_task_list = task }))
    else do t ← last fuel (next_of k) k.free_task_list; some (set_next task 0 (set_next t task k))

-- The rounds of the walk that looks for `task` at `c`, behind `p`.
pub unlink : (fuel task p c : ℕ) → Kernel → Option Kernel
unlink zero task p c k = none
unlink (suc fuel) task p c k =
    let rest = unlink fuel task c (next_of k c) k in
    if c == 0 then some k else if c == task then some (set_next p (next_of k c) k) else rest

pub remove_from_task_list : (fuel task : ℕ) → Kernel → Option Kernel
remove_from_task_list fuel task k =
    let k1 = set_state task TaskState.task_stopped k in
    let p = k1.task_list in
    if p == 0
    then some k1
    else if p == task
    then some (record k1 { task_list = next_of k1 p })
    else unlink fuel task p (next_of k1 p) k1

-- The first runnable task other than the current one, or 0.
pub find_runnable : (fuel : ℕ) → Kernel → (current task : ℕ) → Option ℕ
find_runnable zero k current task = none
find_runnable (suc fuel) k current task =
    let rest = find_runnable fuel k current (next_of k task) in
    if task == 0
    then some 0
    else if not (task == current) && is_runnable (k.tasks task).state
    then some task
    else rest

pub get_next_task : (fuel current : ℕ) → Kernel → Option ℕ
get_next_task fuel current k = if current == 0 then some k.task_list else do
  task ← find_runnable fuel k current (next_of k current)
  if task == 0 then find_runnable fuel k current k.task_list else some task

pub find_pid : (fuel : ℕ) → Kernel → (pid t : ℕ) → Option ℕ
find_pid zero k pid t = none
find_pid (suc fuel) k pid t =
    let rest = find_pid fuel k pid (next_of k t) in
    if t == 0 then some 0 else if (k.tasks t).pid == pid then some t else rest

pub get_task : (fuel pid : ℕ) → Kernel → Option ℕ
get_task fuel pid k = find_pid fuel k pid k.task_list

pub time_slice : Task → Task
time_slice t =
    if is_sleep t.state
    then (if t.sleep_time == 0
        then record t { state = TaskState.task_runnable }
        else record t { sleep_time = t.sleep_time - 1 })
    else t

pub slices_from : (fuel t : ℕ) → Kernel → Option Kernel
slices_from zero t k = none
slices_from (suc fuel) t k =
    let k' = put_task t (time_slice (k.tasks t)) k in
    let rest = slices_from fuel (next_of k' t) k' in if t == 0 then some k else rest

pub update_time_slices : (fuel : ℕ) → Kernel → Option Kernel
update_time_slices fuel k = slices_from fuel k.task_list k

pub remove_from_parent : (child : ℕ) → Kernel → Option Kernel
remove_from_parent child k = do
  let parent = (k.tasks child).parent
  require (not (parent == 0))
  let p = k.tasks parent
  let p1 = record p { child_count = (p.child_count + word_mod - 1) % word_mod }
  let k1 = put_task parent p1 k
  let wakes = is_waiting p1.state && (p1.wait_for_child_pid == (k1.tasks child).pid)
  some (if wakes then set_state parent TaskState.task_runnable k1 else k1)

-- `&task->kstack[KSTACK_SIZE-1]`
abbrev pub stack_top : ℕ → ℕ
stack_top task = task + 80 + 511 * 8

pub start_process : (task : ℕ) → Kernel → Kernel
start_process task k =
    let t = k.tasks task in
    let vm' = record k.vm { cr3 = virt_to_phy t.pml4e k.vm } in
    record (put_task task (record t { r = record t.r { ss = 0x23; cs = 0x1b; rflag = 0x200 } }) k) {
      vm = vm';
      tss_rsp0 = stack_top task;
    }

pub load_process : (task : ℕ) → Kernel → Kernel
load_process task k =
    start_process task (set_state task TaskState.task_running (record k { current_task = task }))

pub schedule_process : (fuel : ℕ) → Kernel → Option Kernel
schedule_process fuel k = do
  task ← get_next_task fuel k.current_task k
  let k1 = if k.current_task == 0 then k else set_state k.current_task TaskState.task_runnable k
  let k2 = set_state task TaskState.task_running (record k1 { current_task = task })
  some (if task == 0 then k else start_process task k2)
