-- ===== src/Malloc/Tests.antt =====
-- Two blocks, the first one free, and the theorem on allocation there.
use sbrocks.Prelude.{
  ℕ, ◌+◌, ◌≤◌, ◌≡◌, ◌≢◌, refl, arith, ◌==◌, if◌then◌else◌, true, some, List, [], ◌∷◌, ◌⊎◌,
}
use sbrocks.Prelude.Chain.{IsChain, member}
use sbrocks.Malloc.{Heap, malloc, free, block_size, used, unused}
use sbrocks.Malloc.Blocks.{IsHeap, Placed}
use sbrocks.Malloc.Extend.{Allocated}
use sbrocks.Malloc.Alloc.{malloc-Allocated}
use sbrocks.Malloc.Free.{free-malloc}

-- 100 bytes behind the header at 1000, and 50 behind that at 1124; the break is 1200.
abbrev two_blocks : Heap
two_blocks = record {
  blocks = λ p. record {
    size = if p == 1000 then 100 else 50;
    free = if p == 1000 then unused else used;
    next = if p == 1000 then 1124 else 0;
  };
  head = 1000;
  brk_end = 1200;
}

two_blocks-IsHeap : IsHeap two_blocks (1000 ∷ 1124 ∷ [])
unfolding IsChain Placed
two_blocks-IsHeap = record {
  chain = (refl, (λ e. omega arith), (refl, (λ e. omega arith), refl));
  placed = (omega arith, (omega arith, omega arith));
}

malloc-Allocated_example :
    (b : ℕ) × (h' : Heap) × (ys : List ℕ) × (malloc 3 60 two_blocks ≡ some (b + block_size, h'))
    × Allocated 60 (1000 ∷ 1124 ∷ []) ys two_blocks h' b
    × ((q r : ℕ)
        → member q ys ≡ true
        → member r ys ≡ true
        → q ≢ r
        → (q + block_size + (h'.blocks q).size ≤ r) ⊎ (r + block_size + (h'.blocks r).size ≤ q))
malloc-Allocated_example =
    malloc-Allocated 3 60 (1000 ∷ 1124 ∷ []) two_blocks two_blocks-IsHeap (λ e. omega arith)
      (omega arith) (omega arith)

second_is_member : member 1124 (1000 ∷ 1124 ∷ []) ≡ true
unfolding member
second_is_member = refl

free-malloc_example :
    IsHeap (free (1124 + block_size) two_blocks) (1000 ∷ 1124 ∷ [])
    × (((free (1124 + block_size) two_blocks).blocks 1124).free ≡ unused)
    × ((p : ℕ) × (h' : Heap) × (malloc 3 40 (free (1124 + block_size) two_blocks) ≡ some (p, h'))
        × IsHeap h' (1000 ∷ 1124 ∷ [])
        × (h'.brk_end ≡ 1200))
free-malloc_example =
    free-malloc 3 40 1124 (1000 ∷ 1124 ∷ []) two_blocks two_blocks-IsHeap second_is_member
      (λ e. omega arith) (omega arith) (omega arith)
