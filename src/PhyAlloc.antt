-- ===== src/PhyAlloc.antt =====
-- w2/sys/mmu/phy_alloc.c: the allocator of physical pages, a bitmap of groups of 64 pages and a
-- count of references for each page.
-- A routine returns the new state. `none` is what C leaves undefined: an access out of the
-- bitmap or of `refcount`, or a shift of an `int` by its width or more.
pub mod Word
pub mod Marks
pub mod Alloc
pub mod Regions
mod Tests
use sbrocks.Prelude.{
  ℕ, zero, suc, ◌+◌, ◌-◌, ◌*◌, ◌/◌, ◌%◌, ◌^◌, Bool, true, false, Option, none, some, ltb, ◌==◌, not,
  if◌then◌else◌, bit_and, bit_or,
}
use sbrocks.Prelude.Fault.{◌>>=◌, ◌>>◌, require}

-- `PAGE_MAX/64 + 1` words
abbrev pub groups : ℕ
groups = 508

-- The first dimension of `refcount`.
abbrev pub ref_groups : ℕ
ref_groups = 64

abbrev pub page_size : ℕ
page_size = 4096

abbrev pub word_mod : ℕ
word_mod = 2 ^ 64

abbrev pub all_ones : ℕ
all_ones = 2 ^ 64 - 1

-- `refcount[page/64][page%64]` is kept at `page`.
pub record PhyState : Type 0 where
  pub phy_bitmap : ℕ → ℕ
  pub refcount : ℕ → ℕ

abbrev pub update : (ℕ → ℕ) → ℕ → ℕ → ℕ → ℕ
update f k v j = if k == j then v else f j

abbrev pub align_down : ℕ → ℕ
align_down x = x / 2 ^ 12 * 2 ^ 12

abbrev pub align_up : ℕ → ℕ
align_up x = if x % page_size == 0 then x else align_down ((x + page_size) % word_mod)

abbrev pub mm_phy_to_page : ℕ → ℕ
mm_phy_to_page phy = phy / 4096

abbrev pub mm_page_to_phy : ℕ → ℕ
mm_page_to_phy page = page * 4096 % word_mod

-- `1 << k` in an `int`, widened to 64 bits: bit 31 is the sign and is copied upwards.
unfoldable pub int_bit : ℕ → Option ℕ
int_bit k = if ltb k 31 then some (2 ^ k) else if k == 31 then some (2 ^ 64 - 2 ^ 31) else none

-- `~x`
abbrev pub complement : ℕ → ℕ
complement x = all_ones - x

-- All pages are taken; `refcount` is static and starts at zero.
pub mm_phy_init : PhyState
mm_phy_init =
    let full : ℕ → ℕ = λ g. all_ones in
    record { phy_bitmap = update full 0 (bit_or all_ones 1); refcount = λ page. 0 }

pub set_page_free : ℕ → PhyState → Option PhyState
set_page_free page s = if page == 0 then some s else do
  require (ltb (page / 64) groups)
  let word = bit_and (s.phy_bitmap (page / 64)) (complement (2 ^ (page % 64)))
  some (record s { phy_bitmap = update s.phy_bitmap (page / 64) word })

unfoldable pub inc_ref_count : (phy : ℕ) → PhyState → Option PhyState
inc_ref_count phy s =
    let page = mm_phy_to_page phy in
    if page == 0 then some s else do
      require (ltb (page / 64) ref_groups)
      let count = (s.refcount page + 1) % word_mod
      some (record s { refcount = update s.refcount page count })

unfoldable pub dec_ref_count : (phy : ℕ) → PhyState → Option PhyState
dec_ref_count phy s =
    let page = mm_phy_to_page phy in
    if page == 0 then some s else do
      require (ltb (page / 64) ref_groups)
      let count = (s.refcount page + word_mod - 1) % word_mod
      let s' = record s { refcount = update s.refcount page count }
      if count == 0 then set_page_free page s' else some s'

pub set_page_used : ℕ → PhyState → Option PhyState
set_page_used page s = if page == 0 then some s else do
  require (ltb (page / 64) groups)
  mask ← int_bit (page % 64)
  let word = bit_or (s.phy_bitmap (page / 64)) mask
  inc_ref_count (mm_page_to_phy page)
      (record s { phy_bitmap = update s.phy_bitmap (page / 64) word })

pub mm_phy_free_page : ℕ → PhyState → Option PhyState
mm_phy_free_page page s = if page == 0 then some s else do
  s' ← set_page_free page s
  require (ltb (page / 64) ref_groups)
  some (record s' { refcount = update s'.refcount page 0 })

-- `for (i = start; i < end; i += PAGE_SIZE) body(i / 4096)`
pub for_pages :
    (fuel : ℕ) → (ℕ → PhyState → Option PhyState) → (i end : ℕ) → PhyState → Option PhyState
for_pages zero body i end s = none
for_pages (suc fuel) body i end s = elim (ltb i end) [
  | true ↦ do s' ← body (mm_phy_to_page i) s; for_pages fuel body (i + page_size) end s'
  | false ↦ some s
]

-- One round for each page between the ends, and one to see the end.
abbrev pub rounds : ℕ → ℕ → ℕ
rounds start end = (end - start) / page_size + 2

pub mm_phy_map : (base length : ℕ) → PhyState → Option PhyState
mm_phy_map base length s =
    let start = align_down base in
    let end = align_up ((base + length) % word_mod) in
    for_pages (rounds start end) set_page_free start end s

pub mark_kernel_pages : (startaddr endaddr : ℕ) → PhyState → Option PhyState
mark_kernel_pages startaddr endaddr s = do
  let start = align_down startaddr
  let end = align_up endaddr
  s' ← for_pages (rounds start end) set_page_used start end s
  let word = bit_or (s'.phy_bitmap 0) 1
  some (record s' { phy_bitmap = update s'.phy_bitmap 0 word })

-- The search for a bit that is clear among `left` bits from `p` on. The inner `none` is a group
-- with no such bit.
unfoldable pub find_bit : (left : ℕ) → (word p : ℕ) → Option (Option ℕ)
find_bit zero word p = some none
find_bit (suc left) word p = elim (int_bit p) [
  | none ↦ none
  | some mask ↦ elim (bit_and word mask == 0) [
    | true ↦ some (some p)
    | false ↦ find_bit left word (p + 1)
  ]
]

-- What happens to the bit that is found: `phy_bitmap[g] |= (1 << p)` and the first reference.
unfoldable pub take_page : (g p : ℕ) → PhyState → Option (ℕ × PhyState)
take_page g p s = do
  mask ← int_bit p
  let word = bit_or (s.phy_bitmap g) mask
  let page = g * 64 + p
  s' ← inc_ref_count (mm_page_to_phy page) (record s { phy_bitmap = update s.phy_bitmap g word })
  some (page, s')

-- The groups below `g + 1`, from the top. The index is unsigned, so `g >= 0` always holds: below
-- group 0 it wraps, and the next read is out of the bitmap.
unfoldable pub alloc_from : (left : ℕ) → PhyState → Option (ℕ × PhyState)
alloc_from zero s = none
alloc_from (suc g) s = elim (s.phy_bitmap g == all_ones) [
  | true ↦ alloc_from g s
  | false ↦ elim (find_bit 64 (s.phy_bitmap g) 0) [
    | none ↦ none
    | some none ↦ alloc_from g s
    | some (some p) ↦ take_page g p s
  ]
]

unfoldable pub mm_phy_alloc_page : PhyState → Option (ℕ × PhyState)
mm_phy_alloc_page s = alloc_from groups s
