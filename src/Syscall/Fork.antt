-- ===== src/Syscall/Fork.antt =====
-- `system_fork` of w2/sys/syscall.c: a child with the areas, the shared pages and the pipes of its
-- parent.
use sbrocks.Prelude.{
  ℕ, zero, suc, ◌+◌, ◌-◌, ◌%◌, true, false, Option, none, some, List, [], ◌∷◌, ◌==◌, ltb,
  if◌then◌else◌, bit_or,
}
use sbrocks.Prelude.Fault.{◌>>=◌}
use sbrocks.PhyAlloc.{align_down, align_up, page_size, inc_ref_count}
use sbrocks.Kstring.{memcpy, kstrcpy, word_mod}
use sbrocks.Paging.{
  Vm, virt_to_phy, map_virt_to_phy, alloc_pages, kmalloc, pt_present_flag, pt_writable_flag,
  pt_user,
}
use sbrocks.Process.{Kernel, TaskState, put_task}
use sbrocks.Process.Create.{
  create_vma, add_to_vma_list, create_new_task, put_mm, is_stack, area_next_of,
}
use sbrocks.Tarfs.{Tarfs, File, next_file, put_file}
use sbrocks.Tarfs.Dir.{file_size}
use sbrocks.Pipe.{add_pipe_to_task}
use sbrocks.Syscall.{System, with_kernel, with_fs, fs_of, current, task_of, change_task}

abbrev pub user_flags : ℕ
user_flags = bit_or (bit_or pt_present_flag pt_user) pt_writable_flag

abbrev pub load_tables : (pml4e : ℕ) → Vm → Vm
load_tables pml4e vm = record vm { cr3 = virt_to_phy pml4e vm }

-- One page of a stack: its bytes go to a new page, which the child gets at the same address.
pub copy_stack_page : (c p vaddr : ℕ) → Kernel → Option Kernel
copy_stack_page c p vaddr k = elim (virt_to_phy vaddr k.vm == 0) [
  | true ↦ some k
  | false ↦ do
    (dummy_vaddr, vm1) ← alloc_pages 1 user_flags k.vm
    let phy_addr = virt_to_phy dummy_vaddr vm1
    let m = memcpy k.memory dummy_vaddr vaddr page_size
    vm2 ← map_virt_to_phy vaddr phy_addr user_flags (load_tables (k.tasks c).pml4e vm1)
    some (record k { vm = load_tables (k.tasks p).pml4e vm2; memory = m })
]

-- The pages of a stack from `vaddr` down to `end`.
pub copy_stack_pages : (fuel c p vaddr end : ℕ) → Kernel → Option Kernel
copy_stack_pages zero c p vaddr end k = none
copy_stack_pages (suc fuel) c p vaddr end k = elim (ltb vaddr end) [
  | true ↦ some k
  | false ↦ do
    k' ← copy_stack_page c p vaddr k
    copy_stack_pages fuel c p ((vaddr + word_mod - page_size) % word_mod) end k'
]

-- One page that the child shares, with one reference more.
pub share_page : (c p vaddr : ℕ) → Kernel → Option Kernel
share_page c p vaddr k = do
  let paddr = virt_to_phy vaddr k.vm
  vm1 ← map_virt_to_phy vaddr paddr user_flags (load_tables (k.tasks c).pml4e k.vm)
  phy ← inc_ref_count paddr vm1.phy
  some (record k { vm = load_tables (k.tasks p).pml4e (record vm1 { phy = phy }) })

pub share_pages : (fuel c p vaddr end : ℕ) → Kernel → Option Kernel
share_pages zero c p vaddr end k = none
share_pages (suc fuel) c p vaddr end k = elim (ltb vaddr end) [
  | false ↦ some k
  | true ↦ do
    k' ← share_page c p vaddr k
    share_pages fuel c p ((vaddr + page_size) % word_mod) end k'
]

-- One area of the parent.
pub setup_area : (fuel c p vma : ℕ) → Kernel → Option Kernel
setup_area fuel c p vma k = do
  let a = k.areas vma
  let mm = (k.tasks c).mm
  (copy, k1) ← create_vma mm a.vm_start a.vm_end a.vma_type a.vm_flags a.vm_file_descp k
  k2 ← add_to_vma_list fuel mm copy k1
  let top = (align_up a.vm_start + word_mod - page_size) % word_mod
  if is_stack a.vma_type
      then copy_stack_pages fuel c p top a.vm_end k2
      else share_pages fuel c p (align_down a.vm_start) a.vm_end k2

pub setup_areas : (fuel c p vma : ℕ) → Kernel → Option Kernel
setup_areas zero c p vma k = none
setup_areas (suc fuel) c p vma k = elim (vma == 0) [
  | true ↦ some k
  | false ↦ do k' ← setup_area (suc fuel) c p vma k; setup_areas fuel c p (area_next_of k' vma) k'
]

pub setup_memory : (fuel c p : ℕ) → Kernel → Option Kernel
setup_memory fuel c p k = setup_areas fuel c p (k.mms (k.tasks p).mm).vma_list k

pub copy_pipe : (text_fuel dst src : ℕ) → Tarfs → Option Tarfs
copy_pipe text_fuel dst src fs = do
  m ← kstrcpy text_fuel fs.memory dst src
  let s = fs.files src
  let copied : File = record (fs.files dst) {
    addr = s.addr;
    fd = s.fd;
    size = s.size;
    offset = s.offset;
    next = 0;
  }
  some (put_file dst copied (record fs { memory = m }))

-- Copies of the pipes from `temp` on, added to the list of the task `c`.
pub copy_pipes : (fuel text_fuel c temp : ℕ) → System → Option System
copy_pipes zero text_fuel c temp sys = none
copy_pipes (suc fuel) text_fuel c temp sys = elim (temp == 0) [
  | true ↦ some sys
  | false ↦ do
    (pipe, vm) ← kmalloc file_size sys.kernel.vm
    let sys1 = with_kernel (record sys.kernel { vm = vm }) sys
    fs1 ← copy_pipe text_fuel pipe temp (fs_of sys1)
    (head, fs2) ← add_pipe_to_task (suc fuel) (task_of sys1 c).pipe pipe fs1
    let child = record (task_of sys1 c) { pipe = head }
    let sys2 = change_task c child (with_fs fs2 sys1)
    copy_pipes fuel text_fuel c (next_file fs2 temp) sys2
]

abbrev pub child_name : List ℕ
child_name = b'c' ∷ b'h' ∷ b'i' ∷ b'l' ∷ b'd' ∷ []

abbrev pub user_stack : ℕ
user_stack = 0xF0_0000_0000

-- The child's fields that come from its parent, before its memory is set up.
pub inherit : (c p : ℕ) → Kernel → Kernel
inherit c p k =
    let parent = k.tasks p in
    let child = k.tasks c in
    let child' = record child {
      ppid = parent.pid;
      r = record parent.r { rax = 0 };
      e_entry = parent.kstack 506;
    } in
    let mm' = record (k.mms child.mm) {
      brk_end = (k.mms parent.mm).brk_end;
      stack_vm = user_stack - 8;
    } in
    put_mm child.mm mm' (put_task c child' k)

-- The two tasks after the child's memory is set up.
pub link_child : (c p : ℕ) → Kernel → Kernel
link_child c p k =
    let k1 = put_task c (record (k.tasks c) { parent = p }) k in
    let counted = ((k1.tasks p).child_count + 1) % word_mod in
    let k2 = put_task p (record (k1.tasks p) { child_count = counted }) k1 in
    let parent = k2.tasks p in
    put_task c
      (record (k2.tasks c) {
        write_redirection_fd = parent.write_redirection_fd;
        read_redirection_fd = parent.read_redirection_fd;
      })
      k2

-- Up to the interrupt that gives the processor away; both tasks are runnable there. The call's
-- answer is in the saved `rax` of each.
pub system_fork : (fuel text_fuel : ℕ) → System → Option System
system_fork fuel text_fuel sys = do
  let p = current sys
  (c, k1) ← create_new_task fuel child_name sys.kernel
  k2 ← setup_memory fuel c p (inherit c p k1)
  let sys1 = with_kernel (link_child c p k2) sys
  sys2 ← copy_pipes fuel text_fuel c (task_of sys1 p).pipe sys1
  let parent = task_of sys2 p
  let answered = record parent {
    r = record parent.r { rax = (task_of sys2 c).pid };
    state = TaskState.task_runnable;
  }
  let sys3 = change_task p answered sys2
  some (with_kernel (record sys3.kernel { current_task = 0 }) sys3)
