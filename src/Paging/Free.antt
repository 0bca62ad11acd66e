-- ===== src/Paging/Free.antt =====
-- `free_page_tables` of w2/sys/mmu/pt.c, with `reset_page_tables` and `free_pages` of virtual_mm.c.
use sbrocks.Prelude.{ℕ, zero, suc, ◌+◌, Option, some, if◌then◌else◌}
use sbrocks.Prelude.Fault.{◌>>=◌}
use sbrocks.PhyAlloc.{align_down, mm_phy_free_page, mm_phy_to_page}
use sbrocks.Paging.{Vm, entry, slot, write, is_present, phys_of}

-- The lowest level: the entries are cleared, and their pages are kept.
pub clear_entries : (n i pte : ℕ) → Vm → Vm
clear_entries zero i pte vm = vm
clear_entries (suc n) i pte vm =
    clear_entries n (i + 1) pte
      (if is_present (entry vm pte i) then write vm (slot pte i) 0 else vm)

-- A loop over the entries of a table: `below` is the loop over the table of an entry, whose page is
-- freed, also for an entry that is not present.
pub free_entries : (below : (table : ℕ) → Vm → Option Vm) → (n i table : ℕ) → Vm → Option Vm
free_entries below zero i table vm = some vm
free_entries below (suc n) i table vm = do
  let e = entry vm table i
  vm1 ← (if is_present e then below (align_down e) vm else some vm)
  phy ← mm_phy_free_page (mm_phy_to_page (align_down (entry vm1 table i))) vm1.phy
  free_entries below n (i + 1) table (write (record vm1 { phy = phy }) (slot table i) 0)

-- The last entry of each table stays.
pub free_page_tables : (pml4e : ℕ) → Vm → Option Vm
free_page_tables pml4e vm =
    free_entries
      (free_entries (free_entries (λ pte vm'. some (clear_entries 511 0 pte vm')) 511 0) 511 0) 511
      0 (phys_of pml4e) vm

pub reset_page_tables : (pml4e : ℕ) → Vm → Option Vm
reset_page_tables pml4e vm = free_page_tables pml4e vm

-- It does nothing.
pub free_pages : (addr : ℕ) → Vm → Vm
free_pages addr vm = vm
