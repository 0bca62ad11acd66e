-- ===== src/PhyAlloc/Regions.antt =====
-- `mm_phy_init`, `mm_phy_map` and `mark_kernel_pages` of w2/sys/mmu/phy_alloc.c: whole regions.
use sbrocks.Prelude.{
  ℕ, zero, suc, ◌+◌, ◌-◌, ◌*◌, ◌/◌, ◌%◌, ◌≤◌, ◌<◌, ◌≡◌, refl, ◌∙◌, arith, ◌==◌, if◌then◌else◌, some,
  none, bit_or, true, false, ltb, leb, Bool-cases, inl, inr, ◌&&◌, not, Bool, Option,
}
use native.Mathlib.Decide.{ℕ_discrete}
use sbrocks.PhyAlloc.{
  PhyState, update, for_pages, mm_phy_init, mm_phy_map, mark_kernel_pages, set_page_free,
  set_page_used, groups, align_down, align_up, rounds, word_mod,
}
use sbrocks.PhyAlloc.Marks.{used, set_page_free-Marked, set_page_used-undefined}
use sbrocks.PhyAlloc.Alloc.{bit-all_ones}

-- One of the `n` pages from `p` on, but not page 0.
abbrev pub in_region : (p n page : ℕ) → Bool
in_region p n page = not (page == 0) && (leb p page && ltb page (p + n))

-- The pages of a region are free, all others are as they were, and no count has changed.
pub record Freed (s : PhyState) (p n : ℕ) (s' : PhyState) : Type 0 where
  pub use_of : (q : ℕ) → used s' q ≡ (if in_region p n q then 0 else used s q)
  pub count_of : (q : ℕ) → s'.refcount q ≡ s.refcount q

-- A loop at its end stops, and one before it makes a round.
for_pages-stop :
    (fuel p e : ℕ) (body : ℕ → PhyState → Option PhyState) (s : PhyState)
    → e ≤ p
    → for_pages (suc fuel) body (p * 4096) (e * 4096) s ≡ some s
unfolding for_pages
for_pages-stop fuel p e body s h =
    let no : ltb (p * 4096) (e * 4096) ≡ false = ground arith in rw (no, for_pages) refl

for_pages-round :
    (fuel p e : ℕ) (body : ℕ → PhyState → Option PhyState) (s t : PhyState)
    → p < e
    → body p s ≡ some t
    → for_pages (suc fuel) body (p * 4096) (e * 4096) s
      ≡ for_pages fuel body (suc p * 4096) (e * 4096) t
unfolding for_pages
for_pages-round fuel p e body s t h done =
    let go : ltb (p * 4096) (e * 4096) ≡ true = ground arith in
    let at : p * 4096 / 4096 ≡ p = omega arith in
    let next : p * 4096 + 4096 ≡ suc p * 4096 = omega arith in
    rw (go, at, done, next, for_pages) refl

for_pages-fault :
    (fuel p e : ℕ) (body : ℕ → PhyState → Option PhyState) (s : PhyState)
    → p < e
    → body p s ≡ none
    → for_pages (suc fuel) body (p * 4096) (e * 4096) s ≡ none
unfolding for_pages
for_pages-fault fuel p e body s h bad =
    let go : ltb (p * 4096) (e * 4096) ≡ true = ground arith in
    let at : p * 4096 / 4096 ≡ p = omega arith in rw (go, at, bad, for_pages) refl

page_free_or_zero :
    (p : ℕ) (s : PhyState)
    → p / 64 < groups
    → (t : PhyState) × (set_page_free p s ≡ some t) × Freed s p 1 t
page_free_or_zero p s inside = elim (ℕ_discrete p 0) [
  | yes z ↦ (
    s,
    rw z (unfold set_page_free in refl),
    record { use_of = λ q. ground arith; count_of = λ q. refl },
  )
  | no nz ↦
      let (t, done, m) = set_page_free-Marked p s nz inside in
      (
        t,
        done,
        record {
          use_of = λ q. ground (arith, m.use_of q);
          count_of = λ q. ground (arith, m.count_of q);
        },
      )
]

free_region :
    (n fuel p : ℕ) (s : PhyState)
    → n < fuel
    → p + n ≤ groups * 64
    → (s' : PhyState) × (for_pages fuel set_page_free (p * 4096) ((p + n) * 4096) s ≡ some s')
      × Freed s p n s'
free_region n zero p s h fits = elim h [ ]
free_region zero (suc fuel) p s h fits = (
  s,
  for_pages-stop fuel p (p + 0) set_page_free s (omega arith),
  record { use_of = λ q. ground arith; count_of = λ q. refl },
)
free_region (suc n) (suc fuel) p s h fits =
    let (t, done, one) = page_free_or_zero p s (omega arith) in
    let (s', rest, more) = free_region n fuel (suc p) t (omega arith) (omega arith) in
    let e : p + suc n ≡ suc p + n = omega arith in
    (
      s',
      for_pages-round fuel p (p + suc n) set_page_free s t (omega arith) done ∙ rw e rest,
      record {
        use_of = λ q. ground (arith, more.use_of q, one.use_of q);
        count_of = λ q. more.count_of q ∙ one.count_of q;
      },
    )

align_up_pages : (x : ℕ) → x + 4096 < word_mod → align_up x ≡ (x + 4095) / 4096 * 4096
align_up_pages x h = ground arith

-- `mm_phy_map` frees exactly the pages that the region touches, page 0 excepted; counts and all
-- other pages stay. It needs that the region ends within the bitmap.
pub mm_phy_map-Freed :
    (base length : ℕ) (s : PhyState)
    → base + length ≤ groups * 64 * 4096
    → (s' : PhyState) × (mm_phy_map base length s ≡ some s')
      × Freed s (base / 4096) ((base + length + 4095) / 4096 - base / 4096) s'
unfolding mm_phy_map
mm_phy_map-Freed base length s fits =
    let p = base / 4096 in
    let n = (base + length + 4095) / 4096 - p in
    let end : align_up ((base + length) % word_mod) ≡ (p + n) * 4096 =
      (let small : (base + length) % word_mod ≡ base + length = omega arith in
        rw small (align_up_pages (base + length) (omega arith) ∙ omega arith)) in
    rw end (free_region n (rounds (p * 4096) ((p + n) * 4096)) p s (omega arith) (omega arith))

-- At the start every page is in use and none is counted.
pub mm_phy_init_lem : (q : ℕ) → (used mm_phy_init q ≡ 1) × (mm_phy_init.refcount q ≡ 0)
unfolding mm_phy_init
mm_phy_init_lem q =
    let ones = bit-all_ones (q % 64) (omega arith) in
    (elim (Bool-cases (0 == q / 64)) [ inl e ↦ rw e ones | inr e ↦ rw e ones ], refl)

-- The pages of a region are in use with one reference more, and all others are as they were.
pub record Taken (s : PhyState) (p n : ℕ) (s' : PhyState) : Type 0 where
  pub use_of : (q : ℕ) → used s' q ≡ (if in_region p n q then 1 else used s q)
  pub count_of :
      (q : ℕ)
      → s'.refcount q ≡ (if in_region p n q then (s.refcount q + 1) % word_mod else s.refcount q)

abbrev kernel_loop : (startaddr endaddr : ℕ) → PhyState → Option PhyState
kernel_loop startaddr endaddr s =
    let start = align_down startaddr in
    let end = align_up endaddr in for_pages (rounds start end) set_page_used start end s

abbrev reserve_zero : PhyState → PhyState
reserve_zero t = record t { phy_bitmap = update t.phy_bitmap 0 (bit_or (t.phy_bitmap 0) 1) }

mark_kernel_pages-none :
    (startaddr endaddr : ℕ) (s : PhyState)
    → kernel_loop startaddr endaddr s ≡ none
    → mark_kernel_pages startaddr endaddr s ≡ none
unfolding mark_kernel_pages
mark_kernel_pages-none startaddr endaddr s e = rw e refl

-- Where the first page of the kernel has place 32 or more in its group, the shift that marks it
-- is undefined.
pub mark_kernel_pages-undefined :
    (startaddr endaddr : ℕ) (s : PhyState)
    → 32 ≤ startaddr / 4096 % 64
    → startaddr / 4096 < (endaddr + 4095) / 4096
    → endaddr + 4096 < word_mod
    → mark_kernel_pages startaddr endaddr s ≡ none
mark_kernel_pages-undefined startaddr endaddr s high order fits =
    let p = startaddr / 4096 in
    let e = (endaddr + 4095) / 4096 in
    let end : align_up endaddr ≡ e * 4096 = align_up_pages endaddr (omega arith) in
    let two : rounds (p * 4096) (e * 4096) ≡ suc ((e * 4096 - p * 4096) / 4096 + 1) = omega arith in
    mark_kernel_pages-none startaddr endaddr s (
      rw (end, two)
        (for_pages-fault _ p e set_page_used s order (set_page_used-undefined p s high)))
