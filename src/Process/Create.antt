-- ===== src/Process/Create.antt =====
-- w2/sys/process/process.c: making and freeing tasks and memory areas.
pub mod Areas
mod Tests
use sbrocks.Prelude.{
  ℕ, zero, suc, ◌+◌, ◌-◌, ◌%◌, ◌^◌, Bool, true, false, Option, none, some, List, [], ◌∷◌, length,
  ◌==◌, not, ltb, if◌then◌else◌, ◌&&◌,
}
use sbrocks.Prelude.Chain.{last}
use sbrocks.Prelude.Fault.{◌>>=◌, ◌>>◌, require}
use sbrocks.PhyAlloc.{word_mod}
use sbrocks.Paging.{Vm, virt_to_phy, kmalloc, kfree, env_setup_vm}
use sbrocks.Kstring.{memset}
use sbrocks.Process.{
  Kernel, Task, Mm, Area, Regs, VmaType, TaskState, put_task, set_state, set_next, add_to_task_list,
  add_to_free_task_list, remove_from_task_list,
}

abbrev pub put_area : ℕ → Area → Kernel → Kernel
put_area p a k = record k { areas = λ q. if p == q then a else k.areas q }

abbrev pub put_mm : ℕ → Mm → Kernel → Kernel
put_mm p m k = record k { mms = λ q. if p == q then m else k.mms q }

abbrev pub area_next_of : Kernel → ℕ → ℕ
area_next_of k p = (k.areas p).area_next

abbrev pub set_area_next : (p value : ℕ) → Kernel → Kernel
set_area_next p value k = put_area p (record (k.areas p) { area_next = value }) k

-- The sizes of the structures.
abbrev pub task_size : ℕ
task_size = 4520

abbrev pub mm_size : ℕ
mm_size = 96

abbrev pub area_size : ℕ
area_size = 56

pub add_to_free_vm_list : (fuel vma : ℕ) → Kernel → Option Kernel
add_to_free_vm_list fuel vma k =
    if k.free_vm_list == 0 then some (set_area_next vma 0 (record k { free_vm_list = vma })) else do
      t ← last fuel (area_next_of k) k.free_vm_list
      some (set_area_next vma 0 (set_area_next t vma k))

pub get_free_vma : Kernel → Option (ℕ × Kernel)
get_free_vma k =
    let vma = k.free_vm_list in
    if not (vma == 0)
    then some (vma, record k { free_vm_list = area_next_of k vma })
    else do (p, vm') ← kmalloc area_size k.vm; some (p, record k { vm = vm' })

pub create_vma :
    (vm_mm start end : ℕ) (type : VmaType) (flags fd : ℕ) → Kernel → Option (ℕ × Kernel)
create_vma vm_mm start end type flags fd k = do
  (vma, k1) ← get_free_vma k
  let area : Area = record {
    vm_mm = vm_mm;
    vm_start = start;
    vm_end = end;
    vma_type = type;
    vm_flags = flags;
    vm_file_descp = fd;
    area_next = 0;
  }
  some (vma, put_area vma area k1)

pub add_to_vma_list : (fuel mm vma : ℕ) → Kernel → Option Kernel
add_to_vma_list fuel mm vma k =
    let head = (k.mms mm).vma_list in
    if head == 0
    then some (put_mm mm (record (k.mms mm) { vma_list = vma }) k)
    else do t ← last fuel (area_next_of k) head; some (set_area_next t vma k)

abbrev pub empty_mm : Mm → Mm
empty_mm m = record m {
  vma_list = 0;
  start_brk = 0;
  end_brk = 0;
  start_stack = 0;
  arg_start = 0;
  arg_end = 0;
  env_start = 0;
  env_end = 0;
  total_vm_size = 0;
  stack_vm = 0;
}

pub create_new_mmstruct : Kernel → Option (ℕ × Kernel)
create_new_mmstruct k = do
  (mm, vm') ← kmalloc mm_size k.vm
  some (mm, put_mm mm (empty_mm (k.mms mm)) (record k { vm = vm' }))

pub get_free_task : Kernel → Option (ℕ × Kernel)
get_free_task k =
    let task = k.free_task_list in
    if not (task == 0) then some (task, record k { free_task_list = (k.tasks task).next }) else do
      (p, vm') ← kmalloc task_size k.vm
      (mm, k1) ← create_new_mmstruct (record k { vm = vm' })
      some (p, put_task p (record (k1.tasks p) { mm = mm }) k1)

pub same_text : List ℕ → List ℕ → Bool
same_text [] [] = true
same_text [] (y ∷ ys) = false
same_text (x ∷ xs) [] = false
same_text (x ∷ xs) (y ∷ ys) = (x == y) && same_text xs ys

-- The name is a text in an array of 16 bytes, its NUL included.
abbrev pub idle_name : List ℕ
idle_name = b'i' ∷ b'd' ∷ b'l' ∷ b'e' ∷ []

-- `memset(task->kstack, 0, KSTACK_SIZE)` counts bytes: 64 of the 512 words.
abbrev pub cleared_stack : (ℕ → ℕ) → ℕ → ℕ
cleared_stack kstack i = if ltb i 64 then 0 else kstack i

pub create_new_task : (fuel : ℕ) → (taskname : List ℕ) → Kernel → Option (ℕ × Kernel)
create_new_task fuel taskname k = do
  (task, k1) ← get_free_task k
  k2 ← (if not (same_text taskname idle_name) then add_to_task_list fuel task k1 else some k1)
  require (ltb (length taskname) 16)
  (pml4e, vm') ← env_setup_vm k2.vm
  let t = k2.tasks task
  let t' = record t {
    pid = k2.next_pid % 2 ^ 32;
    ppid = 0;
    sleep_time = 0;
    parent = 0;
    pipe = 0;
    child_count = 0;
    write_redirection_fd = 0;
    read_redirection_fd = 0;
    wait_for_child_pid = 0;
    name = taskname;
    state = TaskState.task_runnable;
    pml4e = pml4e;
    kstack = cleared_stack t.kstack;
    next = 0;
    r = record t.r { segments = (0x23, 0x23, 0x23, 0x23) };
  }
  some (task, put_task task t' (record k2 { vm = vm'; next_pid = (k2.next_pid + 1) % 2 ^ 64 }))

pub is_stack : VmaType → Bool
is_stack VmaType.vma_stack = true
is_stack VmaType.vma_heap = false
is_stack VmaType.vma_normal = false

abbrev pub distance : (to from : ℕ) → ℕ
distance to from = (to + word_mod - from) % word_mod

-- `memset` over the area and `kfree` of `size` bytes from `from` on.
pub clear_and_free : (a : Area) (from size : ℕ) → Kernel → Option Kernel
clear_and_free a from size k = do
  let c = record k { memory = memset k.memory a.vm_start 0 (distance a.vm_end a.vm_start) }
  vm' ← kfree from size c.vm
  some (record c { vm = vm' })

-- The pages of an area. The distances wrap.
pub free_area_pages : (task vma : ℕ) → Kernel → Option Kernel
free_area_pages task vma k =
    let a = k.areas vma in
    if is_stack a.vma_type
    then clear_and_free a a.vm_end (distance a.vm_start a.vm_end) k
    else if (k.tasks task).parent == 0
    then clear_and_free a a.vm_start (distance a.vm_end a.vm_start) k
    else some k

-- `add_to_free_vm_list` ends the area's own list before the loop reads `vma->next`.
pub free_areas : (fuel task vma : ℕ) → Kernel → Option Kernel
free_areas zero task vma k = none
free_areas (suc fuel) task vma k = elim (vma == 0) [
  | true ↦ some k
  | false ↦ do
    k1 ← free_area_pages task vma k
    let freed = record (k1.areas vma) {
      vm_mm = 0;
      vm_start = 0;
      vm_end = 0;
      vm_flags = 0;
      vm_file_descp = 0;
    }
    k2 ← add_to_free_vm_list (suc fuel) vma (put_area vma freed k1)
    free_areas fuel task (area_next_of k2 vma) k2
]

pub free_task_mm_struct : (fuel mm task : ℕ) → Kernel → Option Kernel
free_task_mm_struct fuel mm task k = do
  let m = k.mms mm
  let k1 = put_mm mm (record m { total_vm_size = 0; stack_vm = 0 }) k
  k2 ← free_areas fuel task m.vma_list k1
  some (put_mm mm (empty_mm (k2.mms mm)) k2)

pub free_task_struct : (fuel task : ℕ) → Kernel → Option Kernel
free_task_struct fuel task k = do
  let loaded = record k { vm = record k.vm { cr3 = virt_to_phy (k.tasks task).pml4e k.vm } }
  k1 ← remove_from_task_list fuel task loaded
  k2 ← free_task_mm_struct fuel (k1.tasks task).mm task k1
  let t' = record (k2.tasks task) {
    state = TaskState.task_stopped;
    next = 0;
    e_entry = 0;
    ppid = 0;
    write_redirection_fd = 0;
    read_redirection_fd = 0;
    pipe = 0;
    parent = 0;
    child_count = 0;
    wait_for_child_pid = 0;
    sleep_time = 0;
    pml4e = 0;
  }
  let k3 = put_task task t' (record k2 { vm = record k2.vm { cr3 = k2.vm.k_cr3 } })
  add_to_free_task_list fuel task k3
