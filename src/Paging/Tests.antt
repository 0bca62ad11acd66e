-- ===== src/Paging/Tests.antt =====
-- The page tables on a small state, and their theorems at that state.
use sbrocks.Prelude.{ℕ, ◌≡◌, ◌≢◌, refl, arith, ◌==◌, if◌then◌else◌, some, true, false}
use sbrocks.PhyAlloc.{
  PhyState, update, all_ones, dec_ref_count, mm_phy_alloc_page, alloc_from, find_bit, take_page,
  inc_ref_count, int_bit,
}
use sbrocks.Paging.{
  Vm, phys_of, descend, set_entry, virt_to_phy, get_pte_entry, unmap_phy, map_virt_to_phy,
  kernmem_mapping, kmalloc, alloc_pages, alloc_pages_from, map_fresh, pages_for,
}
use sbrocks.Paging.Lookup.{IsMapped, ApartSlots, Walk, table3, table2, table1}
use sbrocks.Paging.Mapped.{
  OffPath, map_virt_to_phy-virt_to_phy, kernmem_mapping-virt_to_phy, unmap_phy-virt_to_phy,
}

-- Tables at 0x1000, 0x2000, 0x3000 and 0x4000; address 0 is mapped to page 130, which has three
-- references.
abbrev small_tables : ℕ → ℕ
small_tables a =
    if a == 0x1000
    then 0x2007
    else if a == 0x2000
    then 0x3007
    else if a == 0x3000
    then 0x4007
    else if a == 0x4000
    then 0x82007
    else 0

abbrev small_vm : Vm
small_vm = record {
  phy = record { phy_bitmap = update (λ k. all_ones) 2 0; refcount = update (λ page. 0) 130 3 };
  word = small_tables;
  cr3 = 0x1000;
  k_cr3 = 0x1000;
  virtual_top = 0x5000;
}

small_Walk : Walk true 0x1000 0x5000 7 small_vm
unfolding descend
small_Walk = record {
  t3 = 0x2000;
  t2 = 0x3000;
  t1 = 0x4000;
  vm3 = small_vm;
  vm2 = set_entry small_vm 0x2000 0 0x3007;
  vm1 = set_entry (set_entry small_vm 0x2000 0 0x3007) 0x3000 0 0x4007;
  run4 = refl;
  run3 = refl;
  run2 = refl;
  aligned = refl;
  ne43 = omega arith;
  ne42 = omega arith;
  ne41 = omega arith;
  ne32 = omega arith;
  ne31 = omega arith;
  ne21 = omega arith;
}

small_kernel_Walk : Walk false 0x1000 0x5000 3 small_vm
unfolding descend
small_kernel_Walk = record {
  t3 = 0x2000;
  t2 = 0x3000;
  t1 = 0x4000;
  vm3 = small_vm;
  vm2 = small_vm;
  vm1 = small_vm;
  run4 = refl;
  run3 = refl;
  run2 = refl;
  aligned = refl;
  ne43 = omega arith;
  ne42 = omega arith;
  ne41 = omega arith;
  ne32 = omega arith;
  ne31 = omega arith;
  ne21 = omega arith;
}

map_virt_to_phy-virt_to_phy_example :
    (vm' : Vm) × (map_virt_to_phy 0x5000 0x9000 7 small_vm ≡ some vm')
    × (virt_to_phy 0x5000 vm' ≡ 0x9000)
    × ((a : ℕ) → OffPath 0x1000 0x2000 0x3000 0x4000 0x5000 a → vm'.word a ≡ small_tables a)
unfolding small_Walk
map_virt_to_phy-virt_to_phy_example =
    map_virt_to_phy-virt_to_phy 0x5000 0x9000 7 small_vm small_Walk refl (omega arith) refl

kernmem_mapping-virt_to_phy_example :
    (vm' : Vm) × (kernmem_mapping 0x5000 0x9000 0x1000 small_vm ≡ some vm')
    × (virt_to_phy 0x5000 (record vm' { cr3 = 0x1000 }) ≡ 0x9000)
    × ((a : ℕ) → OffPath 0x1000 0x2000 0x3000 0x4000 0x5000 a → vm'.word a ≡ small_tables a)
unfolding small_kernel_Walk
kernmem_mapping-virt_to_phy_example =
    kernmem_mapping-virt_to_phy 0x5000 0x9000 0x1000 small_vm small_kernel_Walk refl

small_IsMapped : IsMapped small_vm 0
small_IsMapped = record { at4 = refl; at3 = refl; at2 = refl; at1 = refl }

small_ApartSlots : ApartSlots 0x1000 (table3 small_vm 0) (table2 small_vm 0) (table1 small_vm 0) 0
small_ApartSlots = record {
  a43 = omega arith;
  a42 = omega arith;
  a41 = omega arith;
  a32 = omega arith;
  a31 = omega arith;
  a21 = omega arith;
}

-- One reference less.
abbrev small_phy : PhyState
small_phy = record small_vm.phy { refcount = update small_vm.phy.refcount 130 2 }

small_dec : dec_ref_count (virt_to_phy 0 small_vm) small_vm.phy ≡ some small_phy
unfolding dec_ref_count virt_to_phy
small_dec = refl

unmap_phy-virt_to_phy_example :
    (vm' : Vm) × (unmap_phy 0 small_vm ≡ some vm')
    × (vm'.phy ≡ small_phy)
    × (virt_to_phy 0 vm' ≡ 0)
    × ((a : ℕ) → a ≢ phys_of (get_pte_entry 0 small_vm) → vm'.word a ≡ small_tables a)
unmap_phy-virt_to_phy_example =
    unmap_phy-virt_to_phy 0 small_vm small_phy small_IsMapped small_ApartSlots small_dec

-- The state that `kmalloc 100` leaves: page 128 taken and mapped at the old top.
abbrev after_kmalloc : Vm
after_kmalloc =
    let tabled =
      set_entry
        (set_entry
          (record small_vm {
            phy = record {
              phy_bitmap = update small_vm.phy.phy_bitmap 2 1;
              refcount = update small_vm.phy.refcount 128 1;
            };
          })
          0x2000 0 0x3003)
        0x3000 0 0x4003 in
    record (set_entry tabled 0x4000 5 0x80003) { virtual_top = 0x6000 }

small_alloc : mm_phy_alloc_page small_vm.phy ≡ some (128, after_kmalloc.phy)
unfolding mm_phy_alloc_page alloc_from find_bit take_page inc_ref_count int_bit
small_alloc = refl

small_kmalloc : kmalloc 100 small_vm ≡ some (0x5000, after_kmalloc)
unfolding kmalloc alloc_pages alloc_pages_from map_fresh map_virt_to_phy descend pages_for
small_kmalloc = rw small_alloc refl
