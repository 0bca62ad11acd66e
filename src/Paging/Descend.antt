-- ===== src/Paging/Descend.antt =====
-- One level of the walk of `map_virt_to_phy` and `kernmem_mapping` (w2/sys/mmu/pt.c).
use sbrocks.Prelude.{
  ℕ, ◌%◌, ◌<◌, ◌≡◌, ◌≢◌, refl, sym, subst, ◌∙◌, arith, ◌==◌, if◌then◌else◌, Bool, true, false,
  bit_or, some, none, Bool-cases, Option-cases, inl, inr,
}
use mathlib.Core.Option.{some-injective}
use sbrocks.PhyAlloc.{PhyState, align_down, mm_page_to_phy, mm_phy_alloc_page}
use sbrocks.Paging.{Vm, entry, slot, phys_of, set_entry, is_present, descend}
use sbrocks.Paging.Bits.{is_present-odd, entry_sum, page_entry_sum}

-- What a level leaves: the entry is present and leads to the next table, every other word and
-- the registers are as they were.
pub record Descended (vm : Vm) (table i next : ℕ) (vm' : Vm) : Type 0 where
  pub present : is_present (entry vm' table i) ≡ true
  pub leads : next ≡ align_down (entry vm' table i)
  pub frame : (a : ℕ) → a ≢ phys_of (slot table i) → vm'.word a ≡ vm.word a
  pub same_cr3 : vm'.cr3 ≡ vm.cr3
  pub same_top : vm'.virtual_top ≡ vm.virtual_top

pub entry-set_self :
    (vm : Vm) (table i value : ℕ) → entry (set_entry vm table i value) table i ≡ value
entry-set_self vm table i value = ground arith

pub entry-set_frame :
    (vm : Vm) (table i value a : ℕ)
    → a ≢ phys_of (slot table i)
    → (set_entry vm table i value).word a ≡ vm.word a
entry-set_frame vm table i value a ne =
    let e : (phys_of (slot table i) == a) ≡ false = ground arith in rw e refl

none≢some : {x : ℕ × Vm} → none ≡ some x → ⊥
none≢some e = cc

-- A write of an entry with odd flags descends.
write-Descended :
    (vm : Vm) (phy' : PhyState) (table i value : ℕ)
    → value % 2 ≡ 1
    → let vm' = set_entry (record vm { phy = phy' }) table i value in
      Descended vm table i (align_down (entry vm' table i)) vm'
write-Descended vm phy' table i value odd = record {
  present = rw (entry-set_self (record vm { phy = phy' }) table i value) (is_present-odd value odd);
  leads = refl;
  frame = entry-set_frame (record vm { phy = phy' }) table i value;
  same_cr3 = refl;
  same_top = refl;
}

kept-Descended :
    (vm : Vm) (table i : ℕ)
    → is_present (entry vm table i) ≡ true
    → Descended vm table i (align_down (entry vm table i)) vm
kept-Descended vm table i here = record {
  present = here;
  leads = refl;
  frame = λ a ne. refl;
  same_cr3 = refl;
  same_top = refl;
}

module _ (table i flags : ℕ) (small : flags < 4096) (odd : flags % 2 ≡ 1) where
  fresh_odd : (page : ℕ) → bit_or (mm_page_to_phy page) flags % 2 ≡ 1
  fresh_odd page = rw (page_entry_sum page flags small) (omega arith)

  refreshed_odd : (e : ℕ) → bit_or (align_down e) flags % 2 ≡ 1
  refreshed_odd e = rw (entry_sum e flags small) (omega arith)

  descend-here :
      (refresh : Bool) (vm : Vm)
      → is_present (entry vm table i) ≡ true
      → descend refresh table i flags vm ≡ (
          let e = entry vm table i in
          let vm' = if refresh then set_entry vm table i (bit_or (align_down e) flags) else vm in
          some (align_down (entry vm' table i), vm'))
  unfolding descend
  descend-here refresh vm here = rw here refl

  descend-fresh :
      (refresh : Bool) (vm : Vm) (page : ℕ) (phy' : PhyState)
      → is_present (entry vm table i) ≡ false
      → mm_phy_alloc_page vm.phy ≡ some (page, phy')
      → descend refresh table i flags vm ≡ (
          let vm' =
            set_entry (record vm { phy = phy' }) table i (bit_or (mm_page_to_phy page) flags) in
          some (align_down (entry vm' table i), vm'))
  unfolding descend
  descend-fresh refresh vm page phy' absent got = rw (absent, got) refl

  pub descend-none :
      (refresh : Bool) (vm : Vm)
      → is_present (entry vm table i) ≡ false
      → mm_phy_alloc_page vm.phy ≡ none
      → descend refresh table i flags vm ≡ none
  unfolding descend
  descend-none refresh vm absent e = rw (absent, e) refl

  returned :
      (vm : Vm) {x y : ℕ × Vm}
      → some x ≡ some y
      → Descended vm table i x.0 x.1
      → Descended vm table i y.0 y.1
  returned vm {x} {y} e d = subst (λ r. Descended vm table i r.0 r.1) (some-injective x y e) d

  descend_here-Descended :
      (refresh : Bool) (vm : Vm)
      → is_present (entry vm table i) ≡ true
      → let vm' =
          if refresh
          then set_entry vm table i (bit_or (align_down (entry vm table i)) flags)
          else vm in
        Descended vm table i (align_down (entry vm' table i)) vm'
  descend_here-Descended true vm here =
      write-Descended vm vm.phy table i _ (refreshed_odd (entry vm table i))
  descend_here-Descended false vm here = kept-Descended vm table i here

  -- With present among the flags, whatever `descend` returns is a level descended.
  pub descend-Descended :
      (refresh : Bool) (vm vm' : Vm) (next : ℕ)
      → descend refresh table i flags vm ≡ some (next, vm')
      → Descended vm table i next vm'
  descend-Descended refresh vm vm' next run = elim (Bool-cases (is_present (entry vm table i))) [
    | inl here ↦
        returned vm (sym (descend-here refresh vm here) ∙ run)
          (descend_here-Descended refresh vm here)
    | inr absent ↦ elim (Option-cases (mm_phy_alloc_page vm.phy)) [
      | inl e ↦ absurd (none≢some (sym (descend-none refresh vm absent e) ∙ run))
      | inr got ↦
          returned vm (sym (descend-fresh refresh vm got.0.0 got.0.1 absent got.1) ∙ run)
            (write-Descended vm got.0.1 table i _ (fresh_odd got.0.0))
    ]
  ]
