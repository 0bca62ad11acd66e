-- ===== src/Malloc/Extend.antt =====
-- A new block of w2/libc/malloc.c at the break, behind the others.
use sbrocks.Prelude.{
  ℕ, ◌+◌, ◌-◌, ◌%◌, ◌<◌, ◌≤◌, ◌≡◌, ◌≢◌, refl, ap, arith, ◌==◌, true, false, List, [], ◌∷◌, ◌++◌,
  Bool-cases, inl, inr,
}
use sbrocks.Prelude.Chain.{IsChain, IsChain-append, member, last_of, last_of_off}
use sbrocks.Kstring.{word_mod}
use sbrocks.Malloc.{
  Heap, MemBlock, next_block, put_block, brk, sbrk, allocate_memory, malloc_new, block_size, used,
  unused,
}
use sbrocks.Malloc.Blocks.{
  IsHeap, Placed, Placed-top, Placed-Misses, Placed-Distinct, Placed-member, Placed-same,
  Placed-append, member-append, member_before,
}

-- What an allocation of `size` bytes at the block `b` leaves.
pub record Allocated (size : ℕ) (xs ys : List ℕ) (h h' : Heap) (b : ℕ) : Type 0 where
  pub is_heap : IsHeap h' ys
  pub inside : member b ys ≡ true
  pub large : size ≤ (h'.blocks b).size
  pub taken : (h'.blocks b).free ≡ used
  pub was_free : member b xs ≡ true → (h.blocks b).free ≡ unused
  pub others :
      (q : ℕ)
      → member q xs ≡ true
      → q ≢ b
      → (member q ys ≡ true)
        × ((h'.blocks q).size ≡ (h.blocks q).size)
        × ((h'.blocks q).free ≡ (h.blocks q).free)

abbrev fresh : ℕ → MemBlock
fresh size = record { size = size; free = used; next = 0 }

abbrev pub extended : ℕ → Heap → Heap
extended size h =
    put_block h.brk_end (fresh size) (record h { brk_end = h.brk_end + size + block_size })

allocate_memory-extended :
    (size : ℕ) (h : Heap)
    → 1 ≤ h.brk_end
    → h.brk_end + size + block_size < word_mod - 1
    → allocate_memory size h ≡ (h.brk_end, extended size h)
unfolding allocate_memory sbrk brk
allocate_memory-extended size h one room =
    let n : (size + block_size) % word_mod ≡ size + block_size = omega arith in
    let e1 : (size + block_size == 0) ≡ false = ground arith in
    let at : (h.brk_end + (size + block_size)) % word_mod ≡ h.brk_end + size + block_size =
      omega arith in
    let e2 : (h.brk_end + size + block_size == 0) ≡ false = ground arith in
    let e3 : (h.brk_end == word_mod - 1) ≡ false = ground arith in rw (n, e1, at, e2, e3) refl

pub malloc_new-extended :
    (size : ℕ) (link : ℕ → Heap → Heap) (h : Heap)
    → 1 ≤ h.brk_end
    → h.brk_end + size + block_size < word_mod - 1
    → malloc_new size link h ≡ (h.brk_end + block_size, link h.brk_end (extended size h))
unfolding malloc_new
malloc_new-extended size link h one room =
    let e : (h.brk_end == 0) ≡ false = ground arith in
    rw (allocate_memory-extended size h one room, e) refl

extended-Placed :
    (size : ℕ) (xs : List ℕ) (h : Heap) (blocks : ℕ → MemBlock)
    → Placed h.blocks h.brk_end 1 xs
    → ((q : ℕ) → q < h.brk_end → (blocks q).size ≡ (h.blocks q).size)
    → (blocks h.brk_end).size ≡ size
    → Placed blocks (h.brk_end + size + block_size) 1 (xs ++ h.brk_end ∷ [])
extended-Placed size xs h blocks p same here =
    Placed-append blocks h.brk_end (h.brk_end + size + block_size) 1 xs (omega arith)
      (Placed-same h.blocks blocks h.brk_end 1 xs same p)

-- The first block of all.
pub first-Allocated :
    (size : ℕ) (h : Heap)
    → IsHeap h []
    → Allocated size [] (h.brk_end ∷ []) h (record (extended size h) { head = h.brk_end }) h.brk_end
unfolding IsChain member Placed
first-Allocated size h is =
    let s : (h.brk_end == h.brk_end) ≡ true = ground arith in
    let one = is.placed in
    record {
      is_heap = record {
        chain = (refl, (λ e. omega arith), rw (next_block, s) refl);
        placed = (omega arith, rw s (omega arith));
      };
      inside = rw s refl;
      large = rw s (omega arith);
      taken = rw s refl;
      was_free = λ m. cc;
      others = λ q m. cc;
    }

-- A new block behind the last one.
abbrev pub behind : (size last : ℕ) → Heap → Heap
behind size last h =
    let h1 = extended size h in put_block last (record (h1.blocks last) { next = h.brk_end }) h1

behind_other :
    (size last q : ℕ) (h : Heap)
    → last ≢ h.brk_end
    → q ≢ h.brk_end
    → (((behind size last h).blocks q).size ≡ (h.blocks q).size)
      × (((behind size last h).blocks q).free ≡ (h.blocks q).free)
behind_other size last q h end_off off =
    let n : (h.brk_end == last) ≡ false = ground arith in
    let m : (h.brk_end == q) ≡ false = ground arith in
    elim (Bool-cases (last == q)) [
      | inl same ↦
          let e : last ≡ q = ground arith in
          (
            rw (same, n) (ap (λ p. (h.blocks p).size) e),
            rw (same, n) (ap (λ p. (h.blocks p).free) e),
          )
      | inr other ↦ (rw (other, m) refl, rw (other, m) refl)
    ]

pub behind-Allocated :
    (size x : ℕ) (xs : List ℕ) (h : Heap)
    → IsHeap h (x ∷ xs)
    → Allocated size (x ∷ xs) (x ∷ xs ++ h.brk_end ∷ []) h (behind size (last_of x xs) h) h.brk_end
behind-Allocated size x xs h is =
    let top = h.brk_end in
    let last = last_of x xs in
    let one = Placed-top h.blocks top 1 (x ∷ xs) is.placed in
    let misses = Placed-Misses h.blocks top 1 top (x ∷ xs) is.placed (inr (omega arith)) in
    let end_off : last ≢ top = last_of_off x xs top misses in
    let o : (last == top) ≡ false = ground arith in
    let s : (top == top) ≡ true = ground arith in
    let t : (last == last) ≡ true = ground arith in
    record {
      is_heap = record {
        chain =
            IsChain-append (next_block h) (next_block (behind size last h)) top h.head x xs
              (λ e. omega arith) is.chain (Placed-Distinct h.blocks top 1 (x ∷ xs) is.placed) misses
              (rw (next_block, o, s) refl) (rw (next_block, t) refl)
              (λ q n m. next_other size last q h n m);
        placed =
            extended-Placed size (x ∷ xs) h (behind size last h).blocks is.placed
              (λ q low. (behind_other size last q h end_off (λ e. omega arith)).0) (rw (o, s) refl);
      };
      inside = member-append top (x ∷ xs);
      large = rw (o, s) (omega arith);
      taken = rw (o, s) refl;
      was_free = λ m.
          let (a, b) = Placed-member h.blocks top 1 top (x ∷ xs) is.placed m in
          absurd (omega arith);
      others = λ q m ne.
          let (a, b) = behind_other size last q h end_off ne in
          (member_before q top (x ∷ xs) m, a, b);
    }
  where
    next_other :
        (size last q : ℕ) (h : Heap)
        → h.brk_end ≢ q
        → last ≢ q
        → next_block (behind size last h) q ≡ next_block h q
    next_other size last q h n m =
        let a : (last == q) ≡ false = ground arith in
        let b : (h.brk_end == q) ≡ false = ground arith in rw (next_block, a, b) refl
