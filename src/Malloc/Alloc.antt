-- ===== src/Malloc/Alloc.antt =====
-- What `malloc` and `free` of w2/libc/malloc.c do to the list of blocks.
use sbrocks.Prelude.{
  ℕ, ◌+◌, ◌-◌, ◌<◌, ◌≤◌, ◌≡◌, ◌≢◌, refl, ap, arith, ◌==◌, true, false, some, List, [], ◌∷◌, ◌++◌,
  length, Bool-cases, inl, inr, ◌⊎◌,
}
use sbrocks.Prelude.Chain.{IsChain, IsChain-same, member, last_of}
use sbrocks.Kstring.{word_mod}
use sbrocks.Malloc.{Heap, next_block, put_block, malloc, free, block_size, used}
use sbrocks.Malloc.Blocks.{IsHeap, Placed-top, Placed-apart, Placed-same}
use sbrocks.Malloc.Fit.{first_fit, first_fit-unused, find_free_mem_block-first_fit, IsFit}
use sbrocks.Malloc.Extend.{
  Allocated, extended, behind, malloc_new-extended, first-Allocated, behind-Allocated,
}

-- The heap with a block marked as free or used.
abbrev pub marked : (mark b : ℕ) → Heap → Heap
marked mark b h = put_block b (record (h.blocks b) { free = mark }) h

marked_same :
    (mark b q : ℕ) (h : Heap)
    → (((marked mark b h).blocks q).size ≡ (h.blocks q).size)
      × (next_block (marked mark b h) q ≡ next_block h q)
marked_same mark b q h = elim (Bool-cases (b == q)) [
  | inl same ↦
      let e : b ≡ q = ground arith in
      (
        rw same (ap (λ p. (h.blocks p).size) e),
        rw (next_block, same) (ap (λ p. (h.blocks p).next) e),
      )
  | inr other ↦ (rw other refl, rw (next_block, other) refl)
]

pub marked-IsHeap :
    (mark b : ℕ) (xs : List ℕ) (h : Heap) → IsHeap h xs → IsHeap (marked mark b h) xs
marked-IsHeap mark b xs h is = record {
  chain =
      IsChain-same (next_block h) (next_block (marked mark b h)) (λ q. (marked_same mark b q h).1)
        h.head xs is.chain;
  placed =
      Placed-same h.blocks (marked mark b h).blocks h.brk_end 1 xs
        (λ q low. (marked_same mark b q h).0) is.placed;
}

reused-Allocated :
    (size b : ℕ) (xs : List ℕ) (h : Heap)
    → IsHeap h xs
    → IsFit h.blocks size xs b
    → Allocated size xs xs h (put_block b (record (h.blocks b) { free = used }) h) b
reused-Allocated size b xs h is (m, free, large) =
    let s : (b == b) ≡ true = ground arith in
    record {
      is_heap = marked-IsHeap used b xs h is;
      inside = m;
      large = rw s large;
      taken = rw s refl;
      was_free = λ m. free;
      others = λ q m ne. let off : (b == q) ≡ false = ground arith in (m, rw off refl, rw off refl);
    }

-- `malloc` ends, and gives the place behind the header of a block of the list that is large enough
-- and now in use; a block that was there before was free. The other blocks keep their sizes and
-- whether they are free, and no two blocks of the list overlap. It needs a size above 0, blocks that do
-- not overlap and end below the break, and a break that does not wrap. Fuel for each block and one
-- more is enough.
pub malloc-Allocated :
    (fuel size : ℕ) (xs : List ℕ) (h : Heap)
    → IsHeap h xs
    → size ≢ 0
    → h.brk_end + size + block_size < word_mod - 1
    → length xs < fuel
    → (b : ℕ) × (h' : Heap) × (ys : List ℕ) × (malloc fuel size h ≡ some (b + block_size, h'))
      × Allocated size xs ys h h' b
      × ((q r : ℕ)
          → member q ys ≡ true
          → member r ys ≡ true
          → q ≢ r
          → (q + block_size + (h'.blocks q).size ≤ r) ⊎ (r + block_size + (h'.blocks r).size ≤ q))
unfolding malloc IsChain last_of
malloc-Allocated fuel size [] h is some_size room enough =
    let e : (size == 0) ≡ false = ground arith in
    let z : (h.head == 0) ≡ true = (let c = is.chain in ground arith) in
    let one = Placed-top h.blocks h.brk_end 1 [] is.placed in
    let done = first-Allocated size h is in
    let h' = record (extended size h) { head = h.brk_end } in
    (
      h.brk_end,
      h',
      h.brk_end ∷ [],
      rw (e, z, malloc_new-extended size (λ b h. record h { head = b }) h one room) refl,
      done,
      λ q r. Placed-apart h'.blocks h'.brk_end 1 q r (h.brk_end ∷ []) done.is_heap.placed,
    )
malloc-Allocated fuel size (x ∷ xs) h is some_size room enough =
    let e : (size == 0) ≡ false = ground arith in
    let z : (h.head == 0) ≡ false =
      (let c = is.chain in let n = c.1 in let a = c.0 in ground arith) in
    let one = Placed-top h.blocks h.brk_end 1 (x ∷ xs) is.placed in
    let (l, run, ends) =
      find_free_mem_block-first_fit fuel size h.head h.head (x ∷ xs) h is.chain enough in
    elim (Bool-cases (first_fit h.blocks size (x ∷ xs) == 0)) [
      | inl none_free ↦
          let at : l ≡ last_of x xs = ends (ground arith) in
          let h' = behind size (last_of x xs) h in
          let done = behind-Allocated size x xs h is in
          (
            h.brk_end,
            h',
            x ∷ xs ++ h.brk_end ∷ [],
            rw (e, z, run, none_free, at, malloc_new-extended size (link (last_of x xs)) h one room)
                refl,
            done,
            λ q r.
                Placed-apart h'.blocks h'.brk_end 1 q r (x ∷ xs ++ h.brk_end ∷ [])
                  done.is_heap.placed,
          )
      | inr found ↦
          let b = first_fit h.blocks size (x ∷ xs) in
          let h' = put_block b (record (h.blocks b) { free = used }) h in
          let done =
            reused-Allocated size b (x ∷ xs) h is
              (first_fit-unused h.blocks size (x ∷ xs) (λ e. ground arith)) in
          (
            b,
            h',
            x ∷ xs,
            rw (e, z, run, found) refl,
            done,
            λ q r. Placed-apart h'.blocks h'.brk_end 1 q r (x ∷ xs) done.is_heap.placed,
          )
    ]
  where
    link : (last b : ℕ) → Heap → Heap
    link last b h = put_block last (record (h.blocks last) { next = b }) h
