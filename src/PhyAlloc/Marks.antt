-- ===== src/PhyAlloc/Marks.antt =====
-- Marking single pages free or used, and counting references (w2/sys/mmu/phy_alloc.c).
use sbrocks.Prelude.{
  ℕ, ◌+◌, ◌-◌, ◌/◌, ◌%◌, ◌^◌, ◌≤◌, ◌<◌, ◌≡◌, ◌≢◌, refl, arith, ◌==◌, if◌then◌else◌, some, bit_or,
  bit_and, true, false, ltb, Bool-cases, inl, inr, none,
}
use sbrocks.Prelude.Bits.{bit}
use sbrocks.PhyAlloc.{
  PhyState, update, set_page_free, set_page_used, inc_ref_count, dec_ref_count, mm_phy_free_page,
  mm_page_to_phy, word_mod, groups, int_bit, ref_groups, complement,
}
use sbrocks.PhyAlloc.Word.{bit-set, bit-clear, int_bit-pow}

-- The page's bit in the bitmap: 1 for a page in use.
abbrev pub used : PhyState → ℕ → ℕ
used s page = bit (s.phy_bitmap (page / 64)) (page % 64)

-- The state differs in the use of one page at most, which becomes `v`, and in its count.
pub record Marked (s : PhyState) (page v count : ℕ) (s' : PhyState) : Type 0 where
  pub use_of : (q : ℕ) → used s' q ≡ (if q == page then v else used s q)
  pub count_of : (q : ℕ) → s'.refcount q ≡ (if q == page then count else s.refcount q)

-- The two writes to the bitmap.
abbrev pub mark_used : PhyState → ℕ → PhyState
mark_used s page =
    let g = page / 64 in
    record s { phy_bitmap = update s.phy_bitmap g (bit_or (s.phy_bitmap g) (2 ^ (page % 64))) }

abbrev pub mark_free : PhyState → ℕ → PhyState
mark_free s page =
    let g = page / 64 in
    record s {
      phy_bitmap = update s.phy_bitmap g (bit_and (s.phy_bitmap g) (complement (2 ^ (page % 64))));
    }

abbrev pub with_count : PhyState → (page count : ℕ) → PhyState
with_count s page count = record s { refcount = update s.refcount page count }

pub used-mark_used :
    (s : PhyState) (page q : ℕ) → used (mark_used s page) q ≡ (if q == page then 1 else used s q)
used-mark_used s page q = ground (arith, bit-set (s.phy_bitmap (page / 64)) (page % 64) (q % 64))

pub used-mark_free :
    (s : PhyState) (page q : ℕ) → used (mark_free s page) q ≡ (if q == page then 0 else used s q)
used-mark_free s page q = ground (arith, bit-clear (s.phy_bitmap (page / 64)) (page % 64) (q % 64))

nonzero : {page : ℕ} → page ≢ 0 → (page == 0) ≡ false
nonzero h = ground arith

lt→ltb : {a b : ℕ} → a < b → ltb a b ≡ true
lt→ltb h = ground arith

pub set_page_free-eq :
    (page : ℕ) (s : PhyState)
    → page ≢ 0
    → page / 64 < groups
    → set_page_free page s ≡ some (mark_free s page)
unfolding set_page_free
set_page_free-eq page s nz inside = rw (nonzero nz, lt→ltb inside) refl

-- For a page of the bitmap other than page 0, `set_page_free` frees that page alone, and no
-- count changes.
pub set_page_free-Marked :
    (page : ℕ) (s : PhyState)
    → page ≢ 0
    → page / 64 < groups
    → (s' : PhyState) × (set_page_free page s ≡ some s') × Marked s page 0 (s.refcount page) s'
set_page_free-Marked page s nz inside = (
  mark_free s page,
  set_page_free-eq page s nz inside,
  record { use_of = λ q. used-mark_free s page q; count_of = λ q. ground arith },
)

page_of_phy : (page : ℕ) → page / 64 < groups → mm_page_to_phy page / 4096 ≡ page
page_of_phy page h = omega arith

pub inc_ref_count-eq :
    (page : ℕ) (s : PhyState)
    → page ≢ 0
    → page / 64 < ref_groups
    → inc_ref_count (mm_page_to_phy page) s
      ≡ some (with_count s page ((s.refcount page + 1) % word_mod))
unfolding inc_ref_count
inc_ref_count-eq page s nz inside =
    rw (page_of_phy page (omega arith), nonzero nz, lt→ltb inside) refl

-- A page in the bitmap beyond the 64 groups of `refcount` is an access out of that array.
pub inc_ref_count-out :
    (page : ℕ) (s : PhyState)
    → page / 64 < groups
    → ref_groups ≤ page / 64
    → inc_ref_count (mm_page_to_phy page) s ≡ none
unfolding inc_ref_count
inc_ref_count-out page s inside out =
    let nz : (page == 0) ≡ false = ground arith in
    let no : ltb (page / 64) ref_groups ≡ false = ground arith in
    rw (page_of_phy page inside, nz, no) refl

-- For a page with a count whose place in its group is below 31, `set_page_used` takes that page
-- alone and adds one reference to it.
pub set_page_used-Marked :
    (page : ℕ) (s : PhyState)
    → page ≢ 0
    → page / 64 < ref_groups
    → page % 64 < 31
    → (s' : PhyState) × (set_page_used page s ≡ some s')
      × Marked s page 1 ((s.refcount page + 1) % word_mod) s'
unfolding set_page_used
set_page_used-Marked page s nz inside low = (
  with_count (mark_used s page) page ((s.refcount page + 1) % word_mod),
  rw (nonzero nz, lt→ltb {a = page / 64} {b = groups} (omega arith), int_bit-pow (page % 64) low)
      (inc_ref_count-eq page (mark_used s page) nz inside),
  record { use_of = λ q. used-mark_used s page q; count_of = λ q. ground arith },
)

-- A place of 32 or more shifts an `int` by its width: what `set_page_used` does is undefined.
pub set_page_used-undefined :
    (page : ℕ) (s : PhyState) → 32 ≤ page % 64 → set_page_used page s ≡ none
unfolding set_page_used int_bit
set_page_used-undefined page s high = ground arith

-- `dec_ref_count` takes one reference away from a page, frees it exactly with the last one, and
-- leaves every other page. It needs a page other than 0, below page 4096, where the
-- places of the counts end, whose count is positive and of 64 bits.
pub dec_ref_count-Marked :
    (page : ℕ) (s : PhyState)
    → page ≢ 0
    → page / 64 < ref_groups
    → 0 < s.refcount page
    → s.refcount page < word_mod
    → (s' : PhyState) × (dec_ref_count (mm_page_to_phy page) s ≡ some s')
      × Marked s page (if s.refcount page == 1 then 0 else used s page) (s.refcount page - 1) s'
unfolding dec_ref_count
dec_ref_count-Marked page s nz inside pos fits =
    let count : (s.refcount page + word_mod - 1) % word_mod ≡ s.refcount page - 1 = omega arith in
    let t = with_count s page (s.refcount page - 1) in
    elim (Bool-cases (s.refcount page == 1)) [
      | inl last ↦
          let zero_left : (s.refcount page - 1 == 0) ≡ true = ground arith in
          (
            mark_free t page,
            rw (page_of_phy page (omega arith), nonzero nz, lt→ltb inside, count, zero_left)
                (set_page_free-eq page t nz (omega arith)),
            record {
              use_of = λ q. rw last (used-mark_free t page q);
              count_of = λ q. ground arith;
            },
          )
      | inr more ↦
          let some_left : (s.refcount page - 1 == 0) ≡ false = ground arith in
          (
            t,
            rw (page_of_phy page (omega arith), nonzero nz, lt→ltb inside, count, some_left) refl,
            record { use_of = λ q. rw more (ground arith); count_of = λ q. ground arith },
          )
    ]

-- `mm_phy_free_page` frees the page whatever its count, which becomes 0.
pub mm_phy_free_page-Marked :
    (page : ℕ) (s : PhyState)
    → page ≢ 0
    → page / 64 < ref_groups
    → (s' : PhyState) × (mm_phy_free_page page s ≡ some s') × Marked s page 0 0 s'
unfolding mm_phy_free_page
mm_phy_free_page-Marked page s nz inside = (
  with_count (mark_free s page) page 0,
  rw (nonzero nz, set_page_free-eq page s nz (omega arith), lt→ltb inside) refl,
  record { use_of = λ q. used-mark_free s page q; count_of = λ q. ground arith },
)
