-- ===== src/Paging.antt =====
-- w2/sys/mmu/pt.c, virtual_mm.c and kmalloc.c: four levels of page tables, and the kernel's
-- virtual pages.
-- Physical memory is a function from the addresses of 8-byte words to their values. The kernel
-- reaches a table at physical address p through the pointer KADDR(p), which the one-on-one
-- mapping leads back to p. `none` is a fault of the page allocator.
pub mod Bits
pub mod Descend
pub mod Lookup
pub mod Mapped
pub mod Pages
pub mod Free
mod Tests
use sbrocks.Prelude.{
  ℕ, zero, suc, ◌+◌, ◌-◌, ◌*◌, ◌/◌, ◌%◌, ◌^◌, Bool, true, false, Option, none, some, ltb, ◌==◌, not,
  if◌then◌else◌, bit_and, bit_or,
}
use sbrocks.Prelude.Fault.{◌>>=◌, ◌>>◌}
use sbrocks.PhyAlloc.{
  PhyState, align_down, align_up, mm_phy_alloc_page, mm_phy_free_page, dec_ref_count,
  mm_page_to_phy, mm_phy_to_page, page_size, word_mod,
}

pub record Vm : Type 0 where
  pub phy : PhyState
  pub word : ℕ → ℕ
  -- the processor's register, and the kernel's own table
  pub cr3 : ℕ
  pub k_cr3 : ℕ
  pub virtual_top : ℕ

abbrev pub one_on_one_mapping : ℕ
one_on_one_mapping = 0xFFFF_FFFF_0000_0000

abbrev pub virt_kernel_base : ℕ
virt_kernel_base = 0xFFFF_FFFF_8000_0000

abbrev pub pt_present_flag : ℕ
pt_present_flag = 1

abbrev pub pt_writable_flag : ℕ
pt_writable_flag = 2

abbrev pub pt_user : ℕ
pt_user = 4

abbrev pub kaddr : ℕ → ℕ
kaddr paddr = (paddr + one_on_one_mapping) % word_mod

-- Where the one-on-one mapping leads a kernel pointer.
abbrev pub phys_of : ℕ → ℕ
phys_of vaddr = (vaddr + word_mod - one_on_one_mapping) % word_mod

-- `&table[i]` for the table at a physical address.
abbrev pub slot : (table i : ℕ) → ℕ
slot table i = (kaddr table + 8 * i) % word_mod

abbrev pub entry : Vm → (table i : ℕ) → ℕ
entry vm table i = vm.word (phys_of (slot table i))

abbrev pub write : Vm → (addr value : ℕ) → Vm
write vm addr value = record vm { word = λ a. if addr == a then value else vm.word a }

abbrev pub set_entry : Vm → (table i value : ℕ) → Vm
set_entry vm table i value = write vm (phys_of (slot table i)) value

abbrev pub is_present : ℕ → Bool
is_present x = not (bit_and x pt_present_flag == 0)

abbrev pub pml4e_offset : ℕ → ℕ
pml4e_offset virt = virt / 2 ^ 39 % 512

abbrev pub pdpe_offset : ℕ → ℕ
pdpe_offset virt = virt / 2 ^ 30 % 512

abbrev pub pde_offset : ℕ → ℕ
pde_offset virt = virt / 2 ^ 21 % 512

abbrev pub pte_offset : ℕ → ℕ
pte_offset virt = virt / 2 ^ 12 % 512

-- The parameter `pml4e` of the source is not used.
pub virt_to_phy : (virt : ℕ) → Vm → ℕ
virt_to_phy virt vm =
    let e4 = entry vm vm.cr3 (pml4e_offset virt) in
    let e3 = entry vm (align_down e4) (pdpe_offset virt) in
    let e2 = entry vm (align_down e3) (pde_offset virt) in
    let e1 = entry vm (align_down e2) (pte_offset virt) in
    if not (is_present e4)
    then 0
    else if not (is_present e3)
    then 0
    else if not (is_present e2)
    then 0
    else if not (is_present e1)
    then 0
    else align_down e1

-- The pointer to the last entry, or 0.
pub get_pte_entry : (virt : ℕ) → Vm → ℕ
get_pte_entry virt vm =
    let e4 = entry vm vm.cr3 (pml4e_offset virt) in
    let e3 = entry vm (align_down e4) (pdpe_offset virt) in
    let e2 = entry vm (align_down e3) (pde_offset virt) in
    let e1 = entry vm (align_down e2) (pte_offset virt) in
    if not (is_present e4)
    then 0
    else if not (is_present e3)
    then 0
    else if not (is_present e2)
    then 0
    else if not (is_present e1)
    then 0
    else slot (align_down e2) (pte_offset virt)

pub unmap_phy : (virt : ℕ) → Vm → Option Vm
unmap_phy virt vm =
    let e4 = entry vm vm.cr3 (pml4e_offset virt) in
    let e3 = entry vm (align_down e4) (pdpe_offset virt) in
    let e2 = entry vm (align_down e3) (pde_offset virt) in
    let e1 = entry vm (align_down e2) (pte_offset virt) in
    if not (is_present e4)
    then some vm
    else if not (is_present e3)
    then some vm
    else if not (is_present e2)
    then some vm
    else if is_present e1
    then (do
      phy' ← dec_ref_count (align_down e1) vm.phy
      some (set_entry (record vm { phy = phy' }) (align_down e2) (pte_offset virt) 0))
    else some vm

-- One level of the walk that makes tables: an entry that is absent gets a new page, and one
-- that is there gets the flags anew if `refresh`. The result is the next table.
pub descend : (refresh : Bool) → (table i flags : ℕ) → Vm → Option (ℕ × Vm)
descend refresh table i flags vm =
    if not (is_present (entry vm table i))
    then (do
      (phy_page, phy') ← mm_phy_alloc_page vm.phy
      let vm' =
          set_entry (record vm { phy = phy' }) table i (bit_or (mm_page_to_phy phy_page) flags)
      some (align_down (entry vm' table i), vm'))
    else (let e = entry vm table i in
        let vm' = if refresh then set_entry vm table i (bit_or (align_down e) flags) else vm in
        some (align_down (entry vm' table i), vm'))

pub map_virt_to_phy : (virt phy flags : ℕ) → Vm → Option Vm
map_virt_to_phy virt phy flags vm = do
  (pdpetable, vm3) ← descend false vm.cr3 (pml4e_offset virt) flags vm
  (pdetable, vm2) ← descend true pdpetable (pdpe_offset virt) flags vm3
  (pttable, vm1) ← descend true pdetable (pde_offset virt) flags vm2
  some (set_entry vm1 pttable (pte_offset virt) (bit_or phy flags))

-- `noofpages` is not used: one page is mapped.
pub kernmem_mapping : (virt pbase pml4e : ℕ) → Vm → Option Vm
kernmem_mapping virt pbase pml4e vm = do
  let flags = bit_or pt_present_flag pt_writable_flag
  (pdpetable, vm3) ← descend false pml4e (pml4e_offset virt) flags vm
  (pdetable, vm2) ← descend false pdpetable (pdpe_offset virt) flags vm3
  (pttable, vm1) ← descend false pdetable (pde_offset virt) flags vm2
  some (set_entry vm1 pttable (pte_offset virt) (bit_or pbase flags))

-- A run of `n` pages, mapped one by one.
pub map_run : (n : ℕ) → (vaddr start pml4e : ℕ) → Vm → Option Vm
map_run zero vaddr start pml4e vm = some vm
map_run (suc n) vaddr start pml4e vm = do
  vm' ← kernmem_mapping vaddr start pml4e vm
  map_run n ((vaddr + page_size) % word_mod) ((start + page_size) % word_mod) pml4e vm'

-- 1 GiB from physical address 0 on.
pub map_all_phy : (k_cr3 : ℕ) → Vm → Option Vm
map_all_phy k_cr3 vm =
    let start : ℕ = 0 in
    let end = align_down 0x4000_0000 in
    map_run ((end - start) / page_size) (align_up 0xffff_ffff_0000_0000) start k_cr3 vm

pub init_virtual_memory : (virtual_start_address : ℕ) → Vm → Vm
init_virtual_memory virtual_start_address vm = record vm { virtual_top = virtual_start_address }

pub setup_paging : (phybase physfree : ℕ) → Vm → Option Vm
setup_paging phybase physfree vm = do
  (phy_page, phy') ← mm_phy_alloc_page vm.phy
  let k_cr3 = mm_page_to_phy phy_page
  let vaddr = (virt_kernel_base + phybase) % word_mod
  let start = align_down phybase
  let end = align_up physfree
  let size = (end + word_mod - start) % word_mod
  let noofpages = size / page_size + (if size % page_size == 0 then 0 else 1)
  vm1 ← map_run noofpages vaddr start k_cr3 (record vm { phy = phy'; k_cr3 = k_cr3 })
  let vaddr' = (vaddr + noofpages * page_size) % word_mod
  vm2 ← kernmem_mapping 0xFFFF_FFFF_800B_8000 0xB8000 k_cr3 vm1
  vm3 ← map_all_phy k_cr3 vm2
  let vm4 = init_virtual_memory ((vaddr' + page_size) % word_mod) vm3
  some (record vm4 { cr3 = k_cr3 })

-- The physical page number of each page comes from `mm_phy_alloc_page`.
pub map_fresh : (virt flags : ℕ) → Vm → Option Vm
map_fresh virt flags vm = do
  (phy_page, phy') ← mm_phy_alloc_page vm.phy
  map_virt_to_phy virt (mm_page_to_phy phy_page) flags (record vm { phy = phy' })

-- The rounds of `alloc_pages` that are left.
pub alloc_pages_from : (left flags : ℕ) → Vm → Option Vm
alloc_pages_from zero flags vm = some vm
alloc_pages_from (suc left) flags vm = do
  vm' ← map_fresh vm.virtual_top flags vm
  alloc_pages_from left flags
      (record vm' { virtual_top = (vm'.virtual_top + page_size) % word_mod })

pub alloc_pages : (no_of_pages flags : ℕ) → Vm → Option (ℕ × Vm)
alloc_pages no_of_pages flags vm = do
  vm' ← alloc_pages_from no_of_pages flags vm
  some (vm.virtual_top, vm')

-- The pages that hold `size` bytes.
pub pages_for : (size : ℕ) → ℕ
pages_for size = if size % page_size == 0 then size / page_size else size / page_size + 1

pub map_fresh_from : (left virt flags : ℕ) → Vm → Option Vm
map_fresh_from zero virt flags vm = some vm
map_fresh_from (suc left) virt flags vm = do
  vm' ← map_fresh virt flags vm
  map_fresh_from left ((virt + page_size) % word_mod) flags vm'

pub alloc_pages_at_virt : (virt size flags : ℕ) → Vm → Option (ℕ × Vm)
alloc_pages_at_virt virt size flags vm = do
  vm' ← map_fresh_from (pages_for size) virt flags vm
  some (virt, vm')

pub kmalloc : (size : ℕ) → Vm → Option (ℕ × Vm)
kmalloc size vm = alloc_pages (pages_for size) (bit_or pt_present_flag pt_writable_flag) vm

-- The rounds of `kfree` that are left. The mapping itself stays.
pub kfree_from : (left vaddr : ℕ) → Vm → Option Vm
kfree_from zero vaddr vm = some vm
kfree_from (suc left) vaddr vm =
    let phyaddr = virt_to_phy vaddr vm in
    let next = (vaddr + page_size) % word_mod in
    elim (phyaddr == 0) [
      | true ↦ kfree_from left next vm
      | false ↦ do
        phy' ← mm_phy_free_page (mm_phy_to_page phyaddr) vm.phy
        kfree_from left next (record vm { phy = phy' })
    ]

pub kfree : (vaddr size : ℕ) → Vm → Option Vm
kfree vaddr size vm = kfree_from (pages_for size) vaddr vm

-- `ptr[i] = kpml4e[i]` for the rounds left; `ptr` is a virtual page, reached through its own
-- mapping.
pub copy_pml4e : (left i ptr : ℕ) → Vm → Vm
copy_pml4e zero i ptr vm = vm
copy_pml4e (suc left) i ptr vm =
    copy_pml4e left (i + 1) ptr
      (write vm (virt_to_phy ptr vm + ptr % page_size + 8 * i) (entry vm vm.k_cr3 i))

pub env_setup_vm : Vm → Option (ℕ × Vm)
env_setup_vm vm = do
  let flags = bit_or (bit_or pt_present_flag pt_writable_flag) pt_user
  (pml4e, vm') ← alloc_pages 1 flags vm
  some (pml4e, copy_pml4e 512 0 pml4e vm')

pub set_writable_bit : (pte : ℕ) → ℕ
set_writable_bit pte = bit_or pte 0x02

pub reset_writable_bit : (pte : ℕ) → ℕ
reset_writable_bit pte = bit_and pte 0xFFFF_FFFF_FFFF_FFFD

pub set_cow_bit : (pte : ℕ) → ℕ
set_cow_bit pte = bit_or pte 0x4000_0000_0000_0000

pub reset_cow_bit : (pte : ℕ) → ℕ
reset_cow_bit pte = bit_and pte 0xBFFF_FFFF_FFFF_FFFF

pub is_cow_set : (pte : ℕ) → ℕ
is_cow_set pte = bit_and pte 0x4000_0000_0000_0000

pub is_writable_page : (pte : ℕ) → ℕ
is_writable_page pte = bit_and pte 0x02
