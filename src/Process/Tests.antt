-- ===== src/Process/Tests.antt =====
-- Three tasks in a list, and the theorems on tasks at that state.
use sbrocks.Prelude.{
  ℕ, ◌+◌, ◌≡◌, ◌≢◌, ◌≤◌, refl, arith, ◌==◌, if◌then◌else◌, some, true, List, [], ◌∷◌,
}
use sbrocks.Process.{
  Kernel, Task, TaskState, VmaType, remove_from_task_list, schedule_process, stack_top,
}
use sbrocks.Prelude.Chain.{member, IsChain, Misses, Distinct}
use sbrocks.Process.Lists.{HasTasks, without, remove_from_task_list-without}
use sbrocks.Paging.{virt_to_phy}
use sbrocks.Process.Schedule.{first_ready, schedule_process-round_robin}
use sbrocks.Process.Sleep.{seconds, seconds-wakes}

abbrev plain_task : (pid next parent : ℕ) → TaskState → Task
plain_task pid next parent state = record {
  pid = pid;
  ppid = 0;
  name = [];
  state = state;
  next = next;
  e_entry = 0;
  rip = 0;
  rsp = 0;
  pml4e = 0;
  sleep_time = 3;
  kstack = λ i. 0;
  r = record {
    segments = (0, 0, 0, 0);
    general = [];
    rax = 0;
    reg_rip = 0;
    cs = 0;
    rflag = 0;
    reg_rsp = 0;
    ss = 0;
  };
  fd = λ i. 0;
  parent = parent;
  child_count = 1;
  wait_for_child_pid = 3;
  mm = 0;
  pipe = 0;
  write_redirection_fd = 0;
  read_redirection_fd = 0;
}

-- The tasks 1, 2 and 3 at 100, 200 and 300, in this order; task 2 is the current one, and task 3 the
-- child of task 1.
abbrev pub three_tasks : (first : TaskState) → Kernel
three_tasks first = record {
  tasks = λ p.
      if p == 100
      then plain_task 1 200 0 first
      else if p == 200
      then plain_task 2 300 0 TaskState.task_running
      else plain_task 3 0 100 TaskState.task_sleep;
  mms = λ p. record {
    vma_list = 0;
    start_brk = 0;
    end_brk = 0;
    start_stack = 0;
    arg_start = 0;
    arg_end = 0;
    env_start = 0;
    env_end = 0;
    total_vm_size = 0;
    stack_vm = 0;
    brk_start = 0;
    brk_end = 0;
  };
  areas = λ p. record {
    vm_mm = 0;
    vm_start = 0;
    vm_end = 4096;
    vm_flags = 0;
    vm_file_descp = 0;
    vma_type = VmaType.vma_normal;
    area_next = p + 56;
  };
  task_list = 100;
  free_task_list = 0;
  free_vm_list = 0;
  next_pid = 4;
  current_task = 200;
  tss_rsp0 = 0;
  vm = record {
    phy = record { phy_bitmap = λ g. 0; refcount = λ p. 0 };
    word = λ a. 0;
    cr3 = 0;
    k_cr3 = 0;
    virtual_top = 0;
  };
  memory = λ b. 0;
}

abbrev pub three : List ℕ
three = 100 ∷ 200 ∷ 300 ∷ []

pub three-HasTasks : (first : TaskState) → HasTasks (three_tasks first) three
unfolding IsChain
three-HasTasks first =
    (refl, (λ e. omega arith), (refl, (λ e. omega arith), (refl, (λ e. omega arith), refl)))

pub three-Distinct : Distinct three
unfolding Distinct Misses
three-Distinct =
    (((λ e. omega arith), ((λ e. omega arith), tt)), (((λ e. omega arith), tt), (tt, tt)))

three-Misses : Misses 400 three
unfolding Misses
three-Misses = ((λ e. omega arith), ((λ e. omega arith), ((λ e. omega arith), tt)))

remove_from_task_list-without_example :
    (k' : Kernel) × (remove_from_task_list 4 200 (three_tasks TaskState.task_runnable) ≡ some k')
    × HasTasks k' (without 200 three)
remove_from_task_list-without_example =
    remove_from_task_list-without 4 200 three (three_tasks TaskState.task_runnable)
      (three-HasTasks TaskState.task_runnable) three-Distinct (omega arith)

schedule_process-round_robin_example :
    let k = three_tasks TaskState.task_runnable in
    let task = first_ready k 200 (300 ∷ 100 ∷ []) in
    ((task ≡ 0) → schedule_process 4 k ≡ some k)
    × ((task ≢ 0)
        → (k' : Kernel) × (schedule_process 4 k ≡ some k')
          × (k'.current_task ≡ task)
          × ((k'.tasks task).state ≡ TaskState.task_running)
          × ((k'.tasks 200).state ≡ TaskState.task_runnable)
          × (k'.tss_rsp0 ≡ stack_top task)
          × (k'.vm.cr3 ≡ virt_to_phy (k.tasks task).pml4e k.vm)
          × ((q : ℕ) → q ≢ task → q ≢ 200 → k'.tasks q ≡ k.tasks q))
schedule_process-round_robin_example =
    schedule_process-round_robin 4 (100 ∷ []) (300 ∷ []) (three_tasks TaskState.task_runnable)
      (three-HasTasks TaskState.task_runnable) (omega arith)

third_is_member : member 300 three ≡ true
unfolding member
third_is_member = refl

seconds-wakes_example :
    let k = three_tasks TaskState.task_sleep in
    ((n : ℕ)
      → n ≤ 3
      → (k' : Kernel) × (seconds n 4 k ≡ some k') × ((k'.tasks 300).state ≡ TaskState.task_sleep))
    × ((k' : Kernel) × (seconds (3 + 1) 4 k ≡ some k')
        × ((k'.tasks 300).state ≡ TaskState.task_runnable))
seconds-wakes_example =
    seconds-wakes 4 300 three three-Distinct (omega arith) third_is_member 3
      (three_tasks TaskState.task_sleep) (three-HasTasks TaskState.task_sleep) refl refl
