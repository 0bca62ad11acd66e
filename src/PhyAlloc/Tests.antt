-- ===== src/PhyAlloc/Tests.antt =====
-- The page allocator on small states, and its theorems at such states.
use sbrocks.Prelude.{ℕ, ◌<◌, ◌≡◌, ◌==◌, if◌then◌else◌, some, arith}
use sbrocks.PhyAlloc.{
  PhyState, update, all_ones, groups, mm_phy_init, mm_phy_map, dec_ref_count, mm_phy_free_page,
  mm_phy_alloc_page, mm_page_to_phy,
}
use sbrocks.PhyAlloc.Marks.{used, Marked, dec_ref_count-Marked}
use sbrocks.PhyAlloc.Alloc.{FirstFree, mm_phy_alloc_page-Marked, mm_phy_free_page-alloc}
use sbrocks.PhyAlloc.Regions.{Freed, mm_phy_map-Freed}

-- All pages taken but those of one group; the page at the place `p` of group 2 has a count.
abbrev one_group : ℕ → PhyState
one_group g = record {
  phy_bitmap = update (λ k. all_ones) g 0;
  refcount = update (λ page. 0) 130 3;
}

one_group-FirstFree : (g : ℕ) → g < groups → FirstFree (one_group g) g 0
one_group-FirstFree g h = record {
  in_bitmap = h;
  low = omega arith;
  full_above = λ k lo hi. ground arith;
  taken_below = λ j h'. elim h' [ ];
  free = ground arith;
}

dec_ref_count-Marked_example :
    (s' : PhyState) × (dec_ref_count (mm_page_to_phy 130) (one_group 7) ≡ some s')
    × Marked (one_group 7) 130 (if 3 == 1 then 0 else 1) 2 s'
dec_ref_count-Marked_example =
    dec_ref_count-Marked 130 (one_group 7) (omega arith) (omega arith) (omega arith) (omega arith)

mm_phy_alloc_page-Marked_example :
    (s' : PhyState) × (mm_phy_alloc_page (one_group 2) ≡ some (128, s'))
    × Marked (one_group 2) 128 1 1 s'
mm_phy_alloc_page-Marked_example =
    mm_phy_alloc_page-Marked (one_group 2) 2 0 (one_group-FirstFree 2 (omega arith)) (omega arith)
      (omega arith)

mm_phy_free_page-alloc_example :
    (s' s'' : PhyState) × (mm_phy_alloc_page (one_group 2) ≡ some (128, s'))
    × (mm_phy_free_page 128 s' ≡ some s'')
    × ((q : ℕ) → used s'' q ≡ used (one_group 2) q)
mm_phy_free_page-alloc_example =
    mm_phy_free_page-alloc (one_group 2) 2 0 (one_group-FirstFree 2 (omega arith)) (omega arith)
      (omega arith)

mm_phy_map-Freed_example :
    (s' : PhyState) × (mm_phy_map 0 10000 mm_phy_init ≡ some s') × Freed mm_phy_init 0 3 s'
mm_phy_map-Freed_example = mm_phy_map-Freed 0 10000 mm_phy_init (omega arith)
