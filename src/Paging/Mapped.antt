-- ===== src/Paging/Mapped.antt =====
-- What a mapping made by w2/sys/mmu/pt.c looks like to `virt_to_phy`, and what unmapping leaves.
use sbrocks.Prelude.{
  ℕ, ◌+◌, ◌%◌, ◌<◌, ◌≡◌, ◌≢◌, refl, sym, ◌∙◌, ap, arith, true, false, bit_or, some, Bool-cases, inl,
  inr, ◌⊎◌,
}
use sbrocks.PhyAlloc.{PhyState, align_down, dec_ref_count}
use sbrocks.Paging.{
  Vm, entry, slot, phys_of, set_entry, is_present, map_virt_to_phy, kernmem_mapping, virt_to_phy,
  get_pte_entry, unmap_phy, pml4e_offset, pdpe_offset, pde_offset, pte_offset, pt_present_flag,
  pt_writable_flag,
}
use sbrocks.Paging.Bits.{is_present-odd, entry_sum}
use sbrocks.Paging.Descend.{entry-set_self, entry-set_frame}
use sbrocks.Paging.Lookup.{
  IsMapped, table3, table2, table1, virt_to_phy-IsMapped, ApartSlots, Walk, Reached, walk-Reached,
}

module _ (t4 virt value : ℕ) (t3 t2 t1 : ℕ) (vm vm' : Vm)
    (r : Reached t4 virt value t3 t2 t1 vm vm') (at_cr3 : vm'.cr3 ≡ t4) where
  same3 : table3 vm' virt ≡ t3
  same3 = rw at_cr3 (sym r.to3)

  same2 : table2 vm' virt ≡ t2
  same2 = rw same3 (sym r.to2)

  same1 : table1 vm' virt ≡ t1
  same1 = rw same2 (sym r.to1)

  Reached-IsMapped : value % 2 ≡ 1 → IsMapped vm' virt
  Reached-IsMapped odd = record {
    at4 = rw at_cr3 r.present4;
    at3 = rw same3 r.present3;
    at2 = rw same2 r.present2;
    at1 = rw same1 (ap is_present r.last ∙ is_present-odd value odd);
  }

  pub Reached-virt_to_phy : value % 2 ≡ 1 → virt_to_phy virt vm' ≡ align_down value
  Reached-virt_to_phy odd =
      virt_to_phy-IsMapped vm' virt (Reached-IsMapped odd) ∙ rw same1 (ap align_down r.last)

-- The four words that a mapping may write.
abbrev pub OffPath : (t4 t3 t2 t1 virt a : ℕ) → Type 0
OffPath t4 t3 t2 t1 virt a =
    (a ≢ phys_of (slot t4 (pml4e_offset virt)))
    × (a ≢ phys_of (slot t3 (pdpe_offset virt)))
    × (a ≢ phys_of (slot t2 (pde_offset virt)))
    × (a ≢ phys_of (slot t1 (pte_offset virt)))

leaf_sum : (phy flags : ℕ) → phy % 4096 ≡ 0 → flags < 4096 → bit_or phy flags ≡ phy + flags
leaf_sum phy flags al small =
    let e : phy ≡ align_down phy = omega arith in
    ap (λ k. bit_or k flags) e ∙ entry_sum phy flags small ∙ omega arith

-- `map_virt_to_phy` succeeds wherever its walk does, `virt_to_phy` then gives the page that was
-- mapped, and no word but the four entries of the walk has changed: a new table is not cleared.
-- It needs that the walk's four tables are at different pages, so that no table is reached twice, that
-- cr3 and the page to map are aligned to a page, that the flags fit below a page, and that present is
-- among them.
pub map_virt_to_phy-virt_to_phy :
    (virt phy flags : ℕ) (vm : Vm) (w : Walk true vm.cr3 virt flags vm)
    → phy % 4096 ≡ 0
    → flags < 4096
    → flags % 2 ≡ 1
    → (vm' : Vm) × (map_virt_to_phy virt phy flags vm ≡ some vm')
      × (virt_to_phy virt vm' ≡ phy)
      × ((a : ℕ) → OffPath vm.cr3 w.t3 w.t2 w.t1 virt a → vm'.word a ≡ vm.word a)
unfolding map_virt_to_phy
map_virt_to_phy-virt_to_phy virt phy flags vm w al small odd =
    let value = bit_or phy flags in
    let sum : value ≡ phy + flags = leaf_sum phy flags al small in
    let vm' = set_entry w.vm1 w.t1 (pte_offset virt) value in
    let r = walk-Reached true vm.cr3 virt flags vm small odd w value in
    (
      vm',
      rw (w.run4, w.run3, w.run2) refl,
      Reached-virt_to_phy vm.cr3 virt value w.t3 w.t2 w.t1 vm vm' r r.same_cr3 (omega (arith, sum))
          ∙ ap align_down sum
          ∙ omega arith,
      λ a (n4, n3, n2, n1). r.frame a n4 n3 n2 n1,
    )

-- `kernmem_mapping` succeeds wherever its walk below the table that it is given does: once that table
-- is loaded into cr3, `virt_to_phy` gives the page, and no word but the four entries of the walk has
-- changed. It needs that the walk's four tables are at different pages, so that no table is reached
-- twice, and that the given table and the page to map are aligned to a page.
pub kernmem_mapping-virt_to_phy :
    (virt pbase pml4e : ℕ) (vm : Vm)
    (w : Walk false pml4e virt (bit_or pt_present_flag pt_writable_flag) vm)
    → pbase % 4096 ≡ 0
    → (vm' : Vm) × (kernmem_mapping virt pbase pml4e vm ≡ some vm')
      × (virt_to_phy virt (record vm' { cr3 = pml4e }) ≡ pbase)
      × ((a : ℕ) → OffPath pml4e w.t3 w.t2 w.t1 virt a → vm'.word a ≡ vm.word a)
unfolding kernmem_mapping
kernmem_mapping-virt_to_phy virt pbase pml4e vm w al =
    let value = bit_or pbase 3 in
    let sum : value ≡ pbase + 3 = leaf_sum pbase 3 al (omega arith) in
    let vm' = set_entry w.vm1 w.t1 (pte_offset virt) value in
    let r = walk-Reached false pml4e virt 3 vm (omega arith) refl w value in
    let r' : Reached pml4e virt value w.t3 w.t2 w.t1 (record vm { cr3 = pml4e })
        (record vm' { cr3 = pml4e }) =
      record {
        to3 = r.to3;
        to2 = r.to2;
        to1 = r.to1;
        present4 = r.present4;
        present3 = r.present3;
        present2 = r.present2;
        last = r.last;
        same_cr3 = refl;
        frame = r.frame;
      } in
    (
      vm',
      rw (w.run4, w.run3, w.run2) refl,
      Reached-virt_to_phy pml4e virt value w.t3 w.t2 w.t1 _ (record vm' { cr3 = pml4e }) r' refl
            (omega (arith, sum))
          ∙ ap align_down sum
          ∙ omega arith,
      λ a (n4, n3, n2, n1). r.frame a n4 n3 n2 n1,
    )

-- The pointer of `get_pte_entry` leads to the entry that `virt_to_phy` reads, where the address
-- is mapped; where a level is absent, both are 0.
pub get_pte_entry-virt_to_phy :
    (virt : ℕ) (vm : Vm)
    → (IsMapped vm virt
        × (virt_to_phy virt vm ≡ align_down (vm.word (phys_of (get_pte_entry virt vm)))))
      ⊎ ((get_pte_entry virt vm ≡ 0) × (virt_to_phy virt vm ≡ 0))
unfolding get_pte_entry virt_to_phy
get_pte_entry-virt_to_phy virt vm =
    elim (Bool-cases (is_present (entry vm vm.cr3 (pml4e_offset virt)))) [
      | inr n4 ↦ inr (rw n4 refl, rw n4 refl)
      | inl e4 ↦ elim (Bool-cases (is_present (entry vm (table3 vm virt) (pdpe_offset virt)))) [
        | inr n3 ↦ inr (rw (e4, n3) refl, rw (e4, n3) refl)
        | inl e3 ↦ elim (Bool-cases (is_present (entry vm (table2 vm virt) (pde_offset virt)))) [
          | inr n2 ↦ inr (rw (e4, e3, n2) refl, rw (e4, e3, n2) refl)
          | inl e2 ↦ elim (Bool-cases (is_present (entry vm (table1 vm virt) (pte_offset virt)))) [
            | inr n1 ↦ inr (rw (e4, e3, e2, n1) refl, rw (e4, e3, e2, n1) refl)
            | inl e1 ↦
                inl (record { at4 = e4; at3 = e3; at2 = e2; at1 = e1 }, rw (e4, e3, e2, e1) refl)
          ]
        ]
      ]
    ]

get_pte_entry-IsMapped :
    (virt : ℕ) (vm : Vm)
    → IsMapped vm virt
    → get_pte_entry virt vm ≡ slot (table1 vm virt) (pte_offset virt)
unfolding get_pte_entry
get_pte_entry-IsMapped virt vm m = rw (m.at4, m.at3, m.at2, m.at1) refl

virt_to_phy-cleared :
    (virt : ℕ) (vm : Vm)
    → is_present (entry vm vm.cr3 (pml4e_offset virt)) ≡ true
    → is_present (entry vm (table3 vm virt) (pdpe_offset virt)) ≡ true
    → is_present (entry vm (table2 vm virt) (pde_offset virt)) ≡ true
    → entry vm (table1 vm virt) (pte_offset virt) ≡ 0
    → virt_to_phy virt vm ≡ 0
unfolding virt_to_phy
virt_to_phy-cleared virt vm e4 e3 e2 gone = rw (e4, e3, e2, gone) refl

module _ (virt : ℕ) (vm : Vm) (phy' : PhyState) (m : IsMapped vm virt)
    (ap4 : ApartSlots vm.cr3 (table3 vm virt) (table2 vm virt) (table1 vm virt) virt) where
  cleared : Vm
  cleared = set_entry (record vm { phy = phy' }) (table1 vm virt) (pte_offset virt) 0

  keep :
      (a : ℕ) → a ≢ phys_of (slot (table1 vm virt) (pte_offset virt)) → cleared.word a ≡ vm.word a
  unfolding cleared
  keep a ne = entry-set_frame (record vm { phy = phy' }) (table1 vm virt) (pte_offset virt) 0 a ne

  keep4 : entry cleared vm.cr3 (pml4e_offset virt) ≡ entry vm vm.cr3 (pml4e_offset virt)
  keep4 = keep _ ap4.a41

  keep3 : table3 cleared virt ≡ table3 vm virt
  unfolding cleared
  keep3 = ap align_down keep4

  entry3 :
      entry cleared (table3 vm virt) (pdpe_offset virt)
      ≡ entry vm (table3 vm virt) (pdpe_offset virt)
  entry3 = keep _ ap4.a31

  keep2 : table2 cleared virt ≡ table2 vm virt
  keep2 = rw keep3 (ap align_down entry3)

  entry2 :
      entry cleared (table2 vm virt) (pde_offset virt) ≡ entry vm (table2 vm virt) (pde_offset virt)
  entry2 = keep _ ap4.a21

  keep1 : table1 cleared virt ≡ table1 vm virt
  keep1 = rw keep2 (ap align_down entry2)

  last_gone : entry cleared (table1 vm virt) (pte_offset virt) ≡ 0
  unfolding cleared
  last_gone = entry-set_self (record vm { phy = phy' }) (table1 vm virt) (pte_offset virt) 0

  same_register : cleared.cr3 ≡ vm.cr3
  unfolding cleared
  same_register = refl

  virt_to_phy-gone : virt_to_phy virt cleared ≡ 0
  virt_to_phy-gone =
      virt_to_phy-cleared virt cleared (rw same_register (ap is_present keep4 ∙ m.at4))
        (rw keep3 (ap is_present entry3 ∙ m.at3)) (rw keep2 (ap is_present entry2 ∙ m.at2))
        (rw keep1 last_gone)

  -- Unmapping a mapped address gives up one reference to its page and clears the entry, so that
  -- `virt_to_phy` finds nothing there; no other word changes. It needs that the reference can
  -- be given up and that the four entries are different words.
  pub unmap_phy-virt_to_phy :
      dec_ref_count (virt_to_phy virt vm) vm.phy ≡ some phy'
      → (vm' : Vm) × (unmap_phy virt vm ≡ some vm')
        × (vm'.phy ≡ phy')
        × (virt_to_phy virt vm' ≡ 0)
        × ((a : ℕ) → a ≢ phys_of (get_pte_entry virt vm) → vm'.word a ≡ vm.word a)
  unfolding unmap_phy cleared
  unmap_phy-virt_to_phy dec =
      let given = rw (virt_to_phy-IsMapped vm virt m) at dec in
      (
        cleared,
        rw (m.at4, m.at3, m.at2, m.at1, given) refl,
        refl,
        virt_to_phy-gone,
        λ a ne. keep a (rw (get_pte_entry-IsMapped virt vm m) at ne),
      )
