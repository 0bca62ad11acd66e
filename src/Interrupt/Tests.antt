-- ===== src/Interrupt/Tests.antt =====
-- A table of interrupts and a fault in a heap, and the theorems there.
use sbrocks.Prelude.{
  ℕ, ◌+◌, ◌*◌, ◌%◌, ◌^◌, ◌<◌, ◌≡◌, ◌==◌, if◌then◌else◌, ◌≤◌, arith, some, List, [], ◌∷◌, ◌++◌,
}
use sbrocks.Syscall.Tests.{machine, one_area}
use sbrocks.Interrupt.{idt_install, demand_paging}
use sbrocks.Interrupt.Gates.{base_of, privilege_of, idt_install-base_of}
use sbrocks.Interrupt.Demand.{InHeap, InStack, NoPlace, EndsFit, demand_paging-first}
use sbrocks.Kstring.Copy.{Inside, Outside}
use sbrocks.Syscall.Control.{system_exit}
use sbrocks.PhyAlloc.{page_size}
use sbrocks.Paging.{Vm, alloc_pages_at_virt}
use sbrocks.Syscall.{System, current_of}
use sbrocks.Syscall.Fork.{user_flags, load_tables}

abbrev entries : ℕ → ℕ
entries i = 0x200000 + i % 256 * 16

entries_small : (i : ℕ) → entries i < 2 ^ 64
entries_small i = omega arith

idt_install-base_of_example :
    ((n : ℕ) → n < 32 → base_of (idt_install entries 0x300000 0x300100 n) ≡ entries n)
    × (base_of (idt_install entries 0x300000 0x300100 32) ≡ 0x300000)
    × (base_of (idt_install entries 0x300000 0x300100 33) ≡ 0x300100)
    × (base_of (idt_install entries 0x300000 0x300100 128) ≡ entries 128)
    × ((n : ℕ)
        → privilege_of (idt_install entries 0x300000 0x300100 n) ≡ (if n == 128 then 3 else 0))
idt_install-base_of_example =
    idt_install-base_of entries 0x300000 0x300100 entries_small (omega arith) (omega arith)

one_EndsFit : EndsFit machine.kernel (700 ∷ [])
one_EndsFit = (omega arith, tt)

demand_paging-first_example :
    (NoPlace machine.kernel 100 (700 ∷ []) → demand_paging 2 100 machine ≡ system_exit 2 machine)
    × ((before : List ℕ) (v : ℕ) (after : List ℕ) (page start : ℕ) (vm : Vm)
        → (700 ∷ []) ≡ before ++ v ∷ after
        → NoPlace machine.kernel 100 before
        → page % 4096 ≡ 0
        → alloc_pages_at_virt page page_size user_flags
            (load_tables (current_of machine).pml4e machine.kernel.vm)
          ≡ some (start, vm)
        → (InHeap machine.kernel 100 v
            → page ≤ 100
            → 100 < page + 4096
            → (sys' : System) × (demand_paging 2 100 machine ≡ some sys')
              × (sys'.kernel.vm ≡ vm)
              × ((b : ℕ) → Inside page 4096 b → sys'.kernel.memory b ≡ 0)
              × ((b : ℕ) → Outside page 4096 b → sys'.kernel.memory b ≡ machine.kernel.memory b))
          × (InStack machine.kernel 100 v
              → page < 100
              → 100 ≤ page + 4096
              → 100 + 4096 < 2 ^ 64
              → (sys' : System) × (demand_paging 2 100 machine ≡ some sys')
                × (sys'.kernel.vm ≡ vm)
                × (sys'.kernel.memory ≡ machine.kernel.memory)))
demand_paging-first_example =
    demand_paging-first 2 100 (700 ∷ []) machine one_area (omega arith) one_EndsFit
