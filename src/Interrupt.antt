-- ===== src/Interrupt.antt =====
-- w2/sys/idt.c: the table of interrupt handlers, page faults and the entry of system calls.
-- The addresses of the assembly entries are arguments, and so are the registers, the fault's address
-- and its error code. `none` is an access through a null pointer, or a fault of the parts below.
pub mod Gates
pub mod Demand
mod Tests
use sbrocks.Prelude.{
  ℕ, zero, suc, ◌+◌, ◌-◌, ◌*◌, ◌/◌, ◌%◌, ◌^◌, Bool, true, false, Option, none, some, List, [], ◌∷◌,
  ltb, leb, ◌==◌, not, if◌then◌else◌, ◌&&◌, bit_and, bit_or, get_or,
}
use sbrocks.Prelude.Fault.{◌>>=◌, ◌>>◌, require}
use sbrocks.Kstring.{memcpy, memset, word_mod}
use sbrocks.PhyAlloc.{align_up, align_down, page_size, dec_ref_count}
use sbrocks.Paging.{
  Vm, virt_to_phy, get_pte_entry, map_virt_to_phy, alloc_pages, alloc_pages_at_virt, write,
  set_cow_bit, is_cow_set, is_writable_page, virt_kernel_base, phys_of,
}
use sbrocks.Process.{Kernel, Task, Regs, VmaType, put_task}
use sbrocks.Process.Create.{area_next_of}
use sbrocks.Syscall.{
  System, Answer, returns, switches, with_kernel, current, current_of, task_of, change_task,
}
use sbrocks.Syscall.Control.{system_exit}
use sbrocks.Syscall.Fork.{user_flags, load_tables}
use sbrocks.Syscall.Io.{system_clearscreen}
use sbrocks.Syscall.Handler.{switch_handler}

pub record IdtEntry : Type 0 where
  pub base_lo : ℕ
  pub sel : ℕ
  pub ist_reserved : ℕ
  pub flags : ℕ
  pub base_mid : ℕ
  pub base_hi : ℕ
  pub reserved : ℕ

pub idt_set_gate : (num base sel flags : ℕ) → (ℕ → IdtEntry) → ℕ → IdtEntry
idt_set_gate num base sel flags idt n =
    let gate : IdtEntry = record {
      base_lo = base % 2 ^ 16;
      sel = sel;
      ist_reserved = 0;
      flags = flags;
      base_mid = base / 2 ^ 16 % 2 ^ 16;
      base_hi = base / 2 ^ 32 % 2 ^ 32;
      reserved = 0;
    } in
    if num == n then gate else idt n

abbrev pub empty_gate : IdtEntry
empty_gate = record {
  base_lo = 0;
  sel = 0;
  ist_reserved = 0;
  flags = 0;
  base_mid = 0;
  base_hi = 0;
  reserved = 0;
}

-- The gates of the first `n` exceptions.
pub exception_gates : (n : ℕ) → (isr : ℕ → ℕ) → ℕ → IdtEntry
exception_gates zero isr = λ n. empty_gate
exception_gates (suc n) isr = idt_set_gate n (isr n) 0x08 0x8e (exception_gates n isr)

pub idt_install : (isr : ℕ → ℕ) → (irq0 irq1 : ℕ) → ℕ → IdtEntry
idt_install isr irq0 irq1 = idt_set_gate 33 irq1 0x08 0x8e (
    idt_set_gate 0x80 (isr 128) 0x08 0xee (idt_set_gate 32 irq0 0x08 0x8e (exception_gates 32 isr)))

-- A page of zeros for an address in the heap.
pub heap_page : (addr : ℕ) → System → Option System
heap_page addr sys = do
  let k = sys.kernel
  let vaddr = align_down addr
  (at, vm) ←
      alloc_pages_at_virt vaddr page_size user_flags (load_tables (current_of sys).pml4e k.vm)
  some (with_kernel (record k { vm = vm; memory = memset k.memory vaddr 0 page_size }) sys)

-- A page for an address in the stack, below the next border of pages.
pub stack_page : (addr : ℕ) → System → Option System
stack_page addr sys = do
  let k = sys.kernel
  let vaddr = (align_up addr + word_mod - 4096) % word_mod
  (at, vm) ←
      alloc_pages_at_virt vaddr page_size user_flags (load_tables (current_of sys).pml4e k.vm)
  some (with_kernel (record k { vm = vm }) sys)

-- Where an address lies with respect to an area.
pub data Place : Type 0 where
  in_heap : Place
  in_stack : Place
  elsewhere : Place

pub place_of : VmaType → (vm_start vm_end addr : ℕ) → Place
place_of VmaType.vma_heap vm_start vm_end addr =
    if leb vm_start addr && ltb addr ((vm_end + 2 * page_size) % word_mod)
    then Place.in_heap
    else Place.elsewhere
place_of VmaType.vma_stack vm_start vm_end addr =
    if leb addr vm_start && ltb vm_end addr then Place.in_stack else Place.elsewhere
place_of VmaType.vma_normal vm_start vm_end addr = Place.elsewhere

abbrev pub place_in : Kernel → (vma addr : ℕ) → Place
place_in k vma addr = let a = k.areas vma in place_of a.vma_type a.vm_start a.vm_end addr

-- The walk of `demand_paging` from the area `vma` on; without a place for the address the task ends.
pub page_in : (left fuel addr vma : ℕ) → System → Option System
page_in zero fuel addr vma sys = none
page_in (suc left) fuel addr vma sys =
    let rest = page_in left fuel addr (area_next_of sys.kernel vma) sys in
    elim (vma == 0) [
      | true ↦ system_exit fuel sys
      | false ↦ elim (place_in sys.kernel vma addr) [
        | Place.in_heap ↦ heap_page addr sys
        | Place.in_stack ↦ stack_page addr sys
        | Place.elsewhere ↦ rest
      ]
    ]

pub demand_paging : (fuel addr : ℕ) → System → Option System
demand_paging fuel addr sys =
    page_in fuel fuel addr (sys.kernel.mms (current_of sys).mm).vma_list sys

-- A write to a page that is shared until then: the task gets a copy of its own.
pub copy_on_write : (vaddr paddr : ℕ) → System → Option System
copy_on_write vaddr paddr sys = do
  let k = sys.kernel
  let start_addr = align_down vaddr
  (dummy_vaddr, vm1) ← alloc_pages 1 user_flags k.vm
  let phy_addr = virt_to_phy dummy_vaddr vm1
  let m = memcpy k.memory dummy_vaddr start_addr page_size
  vm2 ← map_virt_to_phy start_addr phy_addr user_flags vm1
  phy ← dec_ref_count paddr vm2.phy
  let vm3 = record vm2 { phy = phy }
  let pte = get_pte_entry start_addr vm3
  require (not (pte == 0))
  let marked = write vm3 (phys_of pte) (set_cow_bit (vm3.word (phys_of pte)))
  some (with_kernel (record k { vm = marked; memory = m }) sys)

-- A fault on a page that is present; the entry is read before its pointer is tested.
pub protection_fault : (vaddr : ℕ) → System → Option System
protection_fault vaddr sys = do
  let vm = sys.kernel.vm
  let pte = get_pte_entry vaddr vm
  require (not (pte == 0))
  let e = vm.word (phys_of pte)
  let copied = copy_on_write vaddr (bit_and e 0x000F_FFFF_FFFF_F000) sys
  if not (is_cow_set e == 0) && (is_writable_page e == 0) then copied else some sys

abbrev pub save_regs : Regs → System → System
save_regs r sys =
    if current sys == 0
    then sys
    else change_task (current sys) (record (current_of sys) { r = r }) sys

-- `system_exit` does not come back. The messages that go to the screen are left out.
pub page_fault_handler : (fuel err_code vaddr : ℕ) → Regs → System → Option (Regs × System)
page_fault_handler fuel err_code vaddr r sys = do
  let sys1 = save_regs r sys
  let inside =
      if bit_and err_code 1 == 0 then demand_paging fuel vaddr sys1 else protection_fault vaddr sys1
  let faulted = if leb virt_kernel_base vaddr then system_exit fuel sys1 else inside
  sys2 ← faulted
  some ((if current sys2 == 0 then r else (current_of sys2).r), sys2)

-- The places of rdx, rcx and rbx in `general`.
abbrev pub general_of : Regs → (i : ℕ) → ℕ
general_of r i = get_or r.general i 0

-- The registers that the calling task goes on with, unless it has given the processor away.
pub answer_regs : (task : ℕ) → Answer × System → Regs × System
answer_regs task (returns ret, sys) =
    let t = task_of sys task in
    let r = record t.r { rax = ret } in (r, change_task task (record t { r = r }) sys)
answer_regs task (switches, sys) = ((task_of sys task).r, sys)

pub syscall_handler : (fuel text_fuel temp_name : ℕ) → Regs → System → Option (Regs × System)
syscall_handler fuel text_fuel temp_name r sys = do
  let task = current sys
  require (not (task == 0))
  let sys1 = save_regs r sys
  answered ←
      switch_handler fuel text_fuel temp_name r.rax (general_of r 12) (general_of r 11)
        (general_of r 10) sys1
  some (answer_regs task answered)
