-- ===== src/Paging/Lookup.antt =====
-- `map_virt_to_phy` against `virt_to_phy`, `get_pte_entry` and `unmap_phy` (w2/sys/mmu/pt.c).
use sbrocks.Prelude.{ℕ, ◌%◌, ◌<◌, ◌≡◌, ◌≢◌, refl, sym, ◌∙◌, ap, arith, Bool, true, false, some}
use sbrocks.PhyAlloc.{align_down, word_mod}
use sbrocks.Paging.{
  Vm, entry, slot, phys_of, set_entry, is_present, descend, virt_to_phy, pml4e_offset, pdpe_offset,
  pde_offset, pte_offset,
}
use sbrocks.Paging.Descend.{Descended, descend-Descended, entry-set_self, entry-set_frame}

-- The tables on the way to an address, by their physical addresses.
abbrev pub table3 : Vm → ℕ → ℕ
table3 vm virt = align_down (entry vm vm.cr3 (pml4e_offset virt))

abbrev pub table2 : Vm → ℕ → ℕ
table2 vm virt = align_down (entry vm (table3 vm virt) (pdpe_offset virt))

abbrev pub table1 : Vm → ℕ → ℕ
table1 vm virt = align_down (entry vm (table2 vm virt) (pde_offset virt))

-- All four levels are present.
pub record IsMapped (vm : Vm) (virt : ℕ) : Type 0 where
  pub at4 : is_present (entry vm vm.cr3 (pml4e_offset virt)) ≡ true
  pub at3 : is_present (entry vm (table3 vm virt) (pdpe_offset virt)) ≡ true
  pub at2 : is_present (entry vm (table2 vm virt) (pde_offset virt)) ≡ true
  pub at1 : is_present (entry vm (table1 vm virt) (pte_offset virt)) ≡ true

pub virt_to_phy-IsMapped :
    (vm : Vm) (virt : ℕ)
    → IsMapped vm virt
    → virt_to_phy virt vm ≡ align_down (entry vm (table1 vm virt) (pte_offset virt))
unfolding virt_to_phy
virt_to_phy-IsMapped vm virt m = rw (m.at4, m.at3, m.at2, m.at1) refl

-- The physical addresses of the four entries of a walk over given tables.
pub record ApartSlots (t4 t3 t2 t1 virt : ℕ) : Type 0 where
  pub a43 : phys_of (slot t4 (pml4e_offset virt)) ≢ phys_of (slot t3 (pdpe_offset virt))
  pub a42 : phys_of (slot t4 (pml4e_offset virt)) ≢ phys_of (slot t2 (pde_offset virt))
  pub a41 : phys_of (slot t4 (pml4e_offset virt)) ≢ phys_of (slot t1 (pte_offset virt))
  pub a32 : phys_of (slot t3 (pdpe_offset virt)) ≢ phys_of (slot t2 (pde_offset virt))
  pub a31 : phys_of (slot t3 (pdpe_offset virt)) ≢ phys_of (slot t1 (pte_offset virt))
  pub a21 : phys_of (slot t2 (pde_offset virt)) ≢ phys_of (slot t1 (pte_offset virt))

slot_apart :
    (t u i j : ℕ)
    → t % 4096 ≡ 0
    → u % 4096 ≡ 0
    → t % word_mod ≢ u % word_mod
    → i < 512
    → j < 512
    → phys_of (slot t i) ≢ phys_of (slot u j)
slot_apart t u i j ht hu ne hi hj = omega arith

-- A walk that makes tables as far as they are absent: `descend` succeeds at each of the three
-- levels, and the four tables are different pages.
pub record Walk (refresh : Bool) (t4 virt flags : ℕ) (vm : Vm) : Type 0 where
  pub t3 : ℕ
  pub t2 : ℕ
  pub t1 : ℕ
  pub vm3 : Vm
  pub vm2 : Vm
  pub vm1 : Vm
  pub run4 : descend false t4 (pml4e_offset virt) flags vm ≡ some (t3, vm3)
  pub run3 : descend refresh t3 (pdpe_offset virt) flags vm3 ≡ some (t2, vm2)
  pub run2 : descend refresh t2 (pde_offset virt) flags vm2 ≡ some (t1, vm1)
  pub aligned : t4 % 4096 ≡ 0
  pub ne43 : t4 % word_mod ≢ t3 % word_mod
  pub ne42 : t4 % word_mod ≢ t2 % word_mod
  pub ne41 : t4 % word_mod ≢ t1 % word_mod
  pub ne32 : t3 % word_mod ≢ t2 % word_mod
  pub ne31 : t3 % word_mod ≢ t1 % word_mod
  pub ne21 : t2 % word_mod ≢ t1 % word_mod

-- What a walk and the write of the last entry leave.
pub record Reached (t4 virt value : ℕ) (t3 t2 t1 : ℕ) (vm vm' : Vm) : Type 0 where
  pub to3 : t3 ≡ align_down (entry vm' t4 (pml4e_offset virt))
  pub to2 : t2 ≡ align_down (entry vm' t3 (pdpe_offset virt))
  pub to1 : t1 ≡ align_down (entry vm' t2 (pde_offset virt))
  pub present4 : is_present (entry vm' t4 (pml4e_offset virt)) ≡ true
  pub present3 : is_present (entry vm' t3 (pdpe_offset virt)) ≡ true
  pub present2 : is_present (entry vm' t2 (pde_offset virt)) ≡ true
  pub last : entry vm' t1 (pte_offset virt) ≡ value
  pub same_cr3 : vm'.cr3 ≡ vm.cr3
  pub frame :
      (a : ℕ)
      → a ≢ phys_of (slot t4 (pml4e_offset virt))
      → a ≢ phys_of (slot t3 (pdpe_offset virt))
      → a ≢ phys_of (slot t2 (pde_offset virt))
      → a ≢ phys_of (slot t1 (pte_offset virt))
      → vm'.word a ≡ vm.word a

module _ (refresh : Bool) (t4 virt flags : ℕ) (vm : Vm) (small : flags < 4096) (odd : flags % 2 ≡ 1)
    (w : Walk refresh t4 virt flags vm) where
  open w use {t3, t2, t1, vm3, vm2, vm1}

  d4 : Descended vm t4 (pml4e_offset virt) t3 vm3
  d4 = descend-Descended t4 (pml4e_offset virt) flags small odd false vm vm3 t3 w.run4

  d3 : Descended vm3 t3 (pdpe_offset virt) t2 vm2
  d3 = descend-Descended t3 (pdpe_offset virt) flags small odd refresh vm3 vm2 t2 w.run3

  d2 : Descended vm2 t2 (pde_offset virt) t1 vm1
  d2 = descend-Descended t2 (pde_offset virt) flags small odd refresh vm2 vm1 t1 w.run2

  t3_aligned : t3 % 4096 ≡ 0
  t3_aligned = rw d4.leads (omega arith)

  t2_aligned : t2 % 4096 ≡ 0
  t2_aligned = rw d3.leads (omega arith)

  t1_aligned : t1 % 4096 ≡ 0
  t1_aligned = rw d2.leads (omega arith)

  apart : ApartSlots t4 t3 t2 t1 virt
  apart =
      let i4 = pml4e_offset virt in
      let i3 = pdpe_offset virt in
      let i2 = pde_offset virt in
      let i1 = pte_offset virt in
      record {
        a43 = slot_apart t4 t3 i4 i3 w.aligned t3_aligned w.ne43 (omega arith) (omega arith);
        a42 = slot_apart t4 t2 i4 i2 w.aligned t2_aligned w.ne42 (omega arith) (omega arith);
        a41 = slot_apart t4 t1 i4 i1 w.aligned t1_aligned w.ne41 (omega arith) (omega arith);
        a32 = slot_apart t3 t2 i3 i2 t3_aligned t2_aligned w.ne32 (omega arith) (omega arith);
        a31 = slot_apart t3 t1 i3 i1 t3_aligned t1_aligned w.ne31 (omega arith) (omega arith);
        a21 = slot_apart t2 t1 i2 i1 t2_aligned t1_aligned w.ne21 (omega arith) (omega arith);
      }

  pub walk-Reached :
      (value : ℕ) → Reached t4 virt value t3 t2 t1 vm (set_entry vm1 t1 (pte_offset virt) value)
  walk-Reached value =
      let i1 = pte_offset virt in
      let keep4 : entry (set_entry vm1 t1 i1 value) t4 (pml4e_offset virt)
          ≡ entry vm3 t4 (pml4e_offset virt) =
        entry-set_frame vm1 t1 i1 value _ apart.a41 ∙ d2.frame _ apart.a42 ∙ d3.frame _ apart.a43 in
      let keep3 : entry (set_entry vm1 t1 i1 value) t3 (pdpe_offset virt)
          ≡ entry vm2 t3 (pdpe_offset virt) =
        entry-set_frame vm1 t1 i1 value _ apart.a31 ∙ d2.frame _ apart.a32 in
      let keep2 : entry (set_entry vm1 t1 i1 value) t2 (pde_offset virt)
          ≡ entry vm1 t2 (pde_offset virt) =
        entry-set_frame vm1 t1 i1 value _ apart.a21 in
      record {
        to3 = d4.leads ∙ ap align_down (sym keep4);
        to2 = d3.leads ∙ ap align_down (sym keep3);
        to1 = d2.leads ∙ ap align_down (sym keep2);
        present4 = ap is_present keep4 ∙ d4.present;
        present3 = ap is_present keep3 ∙ d3.present;
        present2 = ap is_present keep2 ∙ d2.present;
        last = entry-set_self vm1 t1 i1 value;
        same_cr3 = d2.same_cr3 ∙ d3.same_cr3 ∙ d4.same_cr3;
        frame = λ a n4 n3 n2 n1.
            entry-set_frame vm1 t1 i1 value a n1 ∙ d2.frame a n2 ∙ d3.frame a n3 ∙ d4.frame a n4;
      }
