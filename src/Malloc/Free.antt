-- ===== src/Malloc/Free.antt =====
-- `free` of w2/libc/malloc.c, and an allocation after it.
use sbrocks.Prelude.{
  ℕ, ◌+◌, ◌-◌, ◌<◌, ◌≤◌, ◌≡◌, ◌≢◌, refl, arith, ◌==◌, true, false, some, List, [], ◌∷◌, length,
}
use sbrocks.Prelude.Chain.{IsChain, member}
use sbrocks.Malloc.{Heap, malloc, free, block_size, unused, used}
use sbrocks.Malloc.Blocks.{IsHeap}
use sbrocks.Malloc.Fit.{first_fit, first_fit-some, find_free_mem_block-first_fit}
use sbrocks.Malloc.Alloc.{marked, marked-IsHeap}

-- Freeing the place behind a header of the list keeps the list and marks the block as free, and an
-- allocation of at most its size then ends, takes a block of the list, which stays as it is, and does
-- not move the break. It needs blocks that do not overlap. Fuel for each block and one more is
-- enough.
pub free-malloc :
    (fuel size b : ℕ) (xs : List ℕ) (h : Heap)
    → IsHeap h xs
    → member b xs ≡ true
    → size ≢ 0
    → size ≤ (h.blocks b).size
    → length xs < fuel
    → IsHeap (free (b + block_size) h) xs
      × (((free (b + block_size) h).blocks b).free ≡ unused)
      × ((p : ℕ) × (h' : Heap) × (malloc fuel size (free (b + block_size) h) ≡ some (p, h'))
          × IsHeap h' xs
          × (h'.brk_end ≡ h.brk_end))
unfolding free malloc IsChain member
free-malloc fuel size b [] h is m some_size large enough = cc
free-malloc fuel size b (x ∷ xs) h is m some_size large enough =
    let n : (b + block_size == 0) ≡ false = ground arith in
    let back : b + block_size - block_size ≡ b = omega arith in
    let s : (b == b) ≡ true = ground arith in
    let h1 = marked unused b h in
    let is1 = marked-IsHeap unused b (x ∷ xs) h is in
    let e : (size == 0) ≡ false = ground arith in
    let z : (h.head == 0) ≡ false =
      (let c = is.chain in let n = c.1 in let a = c.0 in ground arith) in
    let (l, run, ends) =
      find_free_mem_block-first_fit fuel size h.head h.head (x ∷ xs) h1 is1.chain enough in
    let found =
      first_fit-some h1.blocks h.brk_end 1 size b (x ∷ xs) is1.placed (omega arith) m (rw s refl)
        (rw s large) in
    let f : (first_fit h1.blocks size (x ∷ xs) == 0) ≡ false = ground arith in
    let p = first_fit h1.blocks size (x ∷ xs) in
    (
      rw (n, back) is1,
      rw (n, back, s) refl,
      (
        p + block_size,
        marked used p h1,
        rw (n, back, e, z, run, f) refl,
        marked-IsHeap used p (x ∷ xs) h1 is1,
        refl,
      ),
    )
