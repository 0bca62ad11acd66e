-- ===== src/PhyAlloc/Alloc.antt =====
-- `mm_phy_alloc_page` of w2/sys/mmu/phy_alloc.c: which page it takes, and what it leaves.
use sbrocks.Prelude.{
  ℕ, zero, suc, ◌+◌, ◌*◌, ◌/◌, ◌%◌, ◌^◌, ◌≤◌, ◌<◌, ◌≡◌, ◌≢◌, refl, subst, ◌∙◌, ap, arith, ◌==◌,
  if◌then◌else◌, some, none, bit_or, true, false, Bool-cases, inl, inr,
}
use native.Mathlib.Decide.{ℕ_discrete}
use sbrocks.Prelude.Bits.{bit, bit-complement, bit-zero}
use sbrocks.PhyAlloc.{
  PhyState, update, find_bit, take_page, alloc_from, mm_phy_alloc_page, mm_phy_free_page, word_mod,
  groups, ref_groups, all_ones,
}
use sbrocks.PhyAlloc.Word.{find_bit-first, int_bit-pow}
use sbrocks.PhyAlloc.Marks.{
  used, mark_used, with_count, used-mark_used, inc_ref_count-eq, inc_ref_count-out, Marked,
  mm_phy_free_page-Marked,
}

pub bit-all_ones : (j : ℕ) → j < 64 → bit all_ones j ≡ 1
bit-all_ones j h = bit-complement 64 0 j (omega arith) h ∙ rw bit-zero (omega arith)

-- Group `g` has its first free page at place `p`, and all groups above it are full.
pub record FirstFree (s : PhyState) (g p : ℕ) : Type 0 where
  pub in_bitmap : g < groups
  pub low : p < 31
  pub full_above : (k : ℕ) → g < k → k < groups → s.phy_bitmap k ≡ all_ones
  pub taken_below : (j : ℕ) → j < p → bit (s.phy_bitmap g) j ≡ 1
  pub free : bit (s.phy_bitmap g) p ≡ 0

not_full : (s : PhyState) (g p : ℕ) → FirstFree s g p → (s.phy_bitmap g == all_ones) ≡ false
not_full s g p f = elim (Bool-cases (s.phy_bitmap g == all_ones)) [
  | inl full ↦
      let e : s.phy_bitmap g ≡ all_ones = ground arith in
      absurd (omega (arith, bit-all_ones p (omega (arith, f.low)), f.free, ap (λ w. bit w p) e))
  | inr more ↦ more
]

search_in_group :
    (s : PhyState) (g p : ℕ) → FirstFree s g p → find_bit 64 (s.phy_bitmap g) 0 ≡ some (some p)
search_in_group s g p f =
    let e : 0 + p ≡ p = omega arith in
    rw e at (
      find_bit-first 64 (s.phy_bitmap g) 0 p (omega (arith, f.low)) (omega (arith, f.low))
        (λ j lo hi. f.taken_below j (omega arith)) (rw e f.free))

alloc_here : (s : PhyState) (g p : ℕ) → FirstFree s g p → alloc_from (suc g) s ≡ take_page g p s
unfolding alloc_from
alloc_here s g p f = rw (not_full s g p f, search_in_group s g p f, alloc_from) refl

alloc_skip :
    (s : PhyState) (g : ℕ) → s.phy_bitmap g ≡ all_ones → alloc_from (suc g) s ≡ alloc_from g s
unfolding alloc_from
alloc_skip s g full =
    let e : (s.phy_bitmap g == all_ones) ≡ true = rw full refl in rw (e, alloc_from) refl

-- The search goes down over the full groups to group `g`.
alloc_from-take_page :
    (left : ℕ) (s : PhyState) (g p : ℕ)
    → FirstFree s g p
    → g < left
    → left ≤ groups
    → alloc_from left s ≡ take_page g p s
alloc_from-take_page zero s g p f h fits = elim h [ ]
alloc_from-take_page (suc left) s g p f h fits = elim (ℕ_discrete g left) [
  | yes e ↦ rw (← e) (alloc_here s g p f)
  | no ne ↦
      alloc_skip s left (f.full_above left (omega arith) (omega arith))
      ∙ alloc_from-take_page left s g p f (omega arith) (omega arith)
]

place : (g p : ℕ) → p < 64 → ((g * 64 + p) / 64 ≡ g) × ((g * 64 + p) % 64 ≡ p)
place g p h = omega arith

-- The first free page from the top is allocated: `mm_phy_alloc_page` returns it, takes it alone
-- and gives it one reference more. It needs that the page has a count, stands below place 31 of
-- its group and is not page 0.
pub mm_phy_alloc_page-Marked :
    (s : PhyState) (g p : ℕ)
    → FirstFree s g p
    → g < ref_groups
    → g * 64 + p ≢ 0
    → (s' : PhyState) × (mm_phy_alloc_page s ≡ some (g * 64 + p, s'))
      × Marked s (g * 64 + p) 1 ((s.refcount (g * 64 + p) + 1) % word_mod) s'
unfolding mm_phy_alloc_page take_page
mm_phy_alloc_page-Marked s g p f inside nz =
    let page : ℕ = g * 64 + p in
    let at : page / 64 ≡ g = (place g p (omega (arith, f.low))).0 in
    let off : page % 64 ≡ p = (place g p (omega (arith, f.low))).1 in
    let t : PhyState = record s {
      phy_bitmap = update s.phy_bitmap g (bit_or (s.phy_bitmap g) (2 ^ p));
    } in
    let same : mark_used s page ≡ t = rw (at, off) refl in
    (
      with_count t page ((s.refcount page + 1) % word_mod),
      alloc_from-take_page groups s g p f f.in_bitmap (omega arith)
          ∙ rw (int_bit-pow p f.low, inc_ref_count-eq page t nz (omega (arith, at, inside))) refl,
      record {
        use_of = λ q.
            subst (λ w. used w q ≡ (if q == page then 1 else used s q)) same
              (used-mark_used s page q);
        count_of = λ q. ground arith;
      },
    )

-- A free page above the 64 groups of `refcount` makes the allocation an access out of bounds.
pub mm_phy_alloc_page-out_of_bounds :
    (s : PhyState) (g p : ℕ) → FirstFree s g p → ref_groups ≤ g → mm_phy_alloc_page s ≡ none
unfolding mm_phy_alloc_page take_page
mm_phy_alloc_page-out_of_bounds s g p f out =
    let inside : (g * 64 + p) / 64 < groups = omega (arith, f.in_bitmap, f.low) in
    let beyond : ref_groups ≤ (g * 64 + p) / 64 = omega (arith, f.low) in
    alloc_from-take_page groups s g p f f.in_bitmap (omega arith)
    ∙ rw (int_bit-pow p f.low, inc_ref_count-out (g * 64 + p) _ inside beyond) refl

alloc_from-full :
    (left : ℕ) (s : PhyState)
    → ((k : ℕ) → k < left → s.phy_bitmap k ≡ all_ones)
    → alloc_from left s ≡ none
alloc_from-full zero s full = unfold alloc_from in refl
alloc_from-full (suc left) s full =
    alloc_skip s left (full left (omega arith))
    ∙ alloc_from-full left s (λ k h. full k (omega arith))

-- With every group full the search leaves the bitmap: the source's `return 0` is never reached.
pub mm_phy_alloc_page-full :
    (s : PhyState) → ((k : ℕ) → k < groups → s.phy_bitmap k ≡ all_ones) → mm_phy_alloc_page s ≡ none
unfolding mm_phy_alloc_page
mm_phy_alloc_page-full s full = alloc_from-full groups s full

-- Freeing the page that was allocated gives back the use of every page. It needs what the
-- allocation needs.
pub mm_phy_free_page-alloc :
    (s : PhyState) (g p : ℕ)
    → FirstFree s g p
    → g < ref_groups
    → g * 64 + p ≢ 0
    → (s' s'' : PhyState) × (mm_phy_alloc_page s ≡ some (g * 64 + p, s'))
      × (mm_phy_free_page (g * 64 + p) s' ≡ some s'')
      × ((q : ℕ) → used s'' q ≡ used s q)
mm_phy_free_page-alloc s g p f inside nz =
    let (s', got, taken) = mm_phy_alloc_page-Marked s g p f inside nz in
    let (s'', done, freed) =
      mm_phy_free_page-Marked (g * 64 + p) s' nz (omega (arith, f.low, inside)) in
    let (at, off) = place g p (omega (arith, f.low)) in
    let was : used s (g * 64 + p) ≡ 0 = rw (at, off) f.free in
    let keep : (q : ℕ) → used s'' q ≡ used s q = λ q. elim (ℕ_discrete q (g * 64 + p)) [
      | yes e ↦ rw (e) (ground (arith, freed.use_of (g * 64 + p), was))
      | no ne ↦ ground (arith, ne, freed.use_of q, taken.use_of q)
    ] in
    (s', s'', got, done, keep)
