-- ===== src/Paging/Pages.antt =====
-- w2/sys/mmu/virtual_mm.c and kmalloc.c: the kernel's virtual pages are handed out in order.
use sbrocks.Prelude.{
  ℕ, zero, suc, ◌+◌, ◌*◌, ◌/◌, ◌%◌, ◌<◌, ◌≤◌, ◌≡◌, refl, sym, ◌∙◌, ap, arith, ◌==◌, if◌then◌else◌,
  some, true, false,
}
use sbrocks.Prelude.Fault.{>>=-eq-some}
use mathlib.Core.Option.{some-injective}
use sbrocks.PhyAlloc.{page_size, word_mod, mm_page_to_phy, mm_phy_alloc_page}
use sbrocks.Paging.{
  Vm, alloc_pages, alloc_pages_from, map_fresh, map_virt_to_phy, descend, pages_for, kmalloc,
  pml4e_offset, pdpe_offset, pde_offset,
}
use sbrocks.Paging.Descend.{descend-Descended}

map_virt_to_phy-virtual_top :
    (virt phy flags : ℕ) (vm vm' : Vm)
    → flags < 4096
    → flags % 2 ≡ 1
    → map_virt_to_phy virt phy flags vm ≡ some vm'
    → vm'.virtual_top ≡ vm.virtual_top
unfolding map_virt_to_phy
map_virt_to_phy-virtual_top virt phy flags vm vm' small odd run =
    let ((t3, vm3), run4, rest3) =
      >>=-eq-some (descend false vm.cr3 (pml4e_offset virt) flags vm) _ run in
    let ((t2, vm2), run3, rest2) =
      >>=-eq-some (descend true t3 (pdpe_offset virt) flags vm3) _ rest3 in
    let ((t1, vm1), run2, rest1) =
      >>=-eq-some (descend true t2 (pde_offset virt) flags vm2) _ rest2 in
    let d4 = descend-Descended vm.cr3 (pml4e_offset virt) flags small odd false vm vm3 t3 run4 in
    let d3 = descend-Descended t3 (pdpe_offset virt) flags small odd true vm3 vm2 t2 run3 in
    let d2 = descend-Descended t2 (pde_offset virt) flags small odd true vm2 vm1 t1 run2 in
    sym (ap (λ v. v.virtual_top) (some-injective _ vm' rest1))
    ∙ d2.same_top
    ∙ d3.same_top
    ∙ d4.same_top

map_fresh-virtual_top :
    (virt flags : ℕ) (vm vm' : Vm)
    → flags < 4096
    → flags % 2 ≡ 1
    → map_fresh virt flags vm ≡ some vm'
    → vm'.virtual_top ≡ vm.virtual_top
unfolding map_fresh
map_fresh-virtual_top virt flags vm vm' small odd run =
    let ((page, phy'), got, rest) = >>=-eq-some (mm_phy_alloc_page vm.phy) _ run in
    map_virt_to_phy-virtual_top virt (mm_page_to_phy page) flags (record vm { phy = phy' }) vm'
      small odd rest

alloc_pages_from-virtual_top :
    (left flags : ℕ) (vm vm' : Vm)
    → flags < 4096
    → flags % 2 ≡ 1
    → vm.virtual_top < word_mod
    → alloc_pages_from left flags vm ≡ some vm'
    → vm'.virtual_top ≡ (vm.virtual_top + left * page_size) % word_mod
unfolding alloc_pages_from
alloc_pages_from-virtual_top zero flags vm vm' small odd fits run =
    let e : vm'.virtual_top ≡ vm.virtual_top =
      sym (ap (λ v. v.virtual_top) (some-injective vm vm' run)) in
    omega arith
alloc_pages_from-virtual_top (suc left) flags vm vm' small odd fits run =
    let (vm1, mapped, rest) = >>=-eq-some (map_fresh vm.virtual_top flags vm) _ run in
    let same = map_fresh-virtual_top vm.virtual_top flags vm vm1 small odd mapped in
    let next =
      alloc_pages_from-virtual_top left flags
        (record vm1 { virtual_top = (vm1.virtual_top + page_size) % word_mod }) vm' small odd
        (omega arith) rest in
    omega arith

-- `kmalloc` returns the old top of the kernel's virtual memory and moves the top by as many
-- whole pages as hold the size, so that two allocations do not overlap: the least multiple of
-- 4096 that is not below `size`.
pub kmalloc-virtual_top :
    (size addr : ℕ) (vm vm' : Vm)
    → vm.virtual_top < word_mod
    → kmalloc size vm ≡ some (addr, vm')
    → (addr ≡ vm.virtual_top)
      × (vm'.virtual_top ≡ (vm.virtual_top + pages_for size * page_size) % word_mod)
      × (size ≤ pages_for size * page_size)
      × (pages_for size * page_size < size + page_size)
unfolding kmalloc alloc_pages pages_for
kmalloc-virtual_top size addr vm vm' fits run =
    let n = if size % page_size == 0 then size / page_size else size / page_size + 1 in
    let (vm1, ran, rest) = >>=-eq-some (alloc_pages_from n 3 vm) _ run in
    let back = some-injective _ (addr, vm') rest in
    (
      sym (ap (λ r. r.0) back),
      ap (λ r. r.1.virtual_top) (sym back)
          ∙ alloc_pages_from-virtual_top n 3 vm vm1 (omega arith) refl fits ran,
      ground arith,
      ground arith,
    )
