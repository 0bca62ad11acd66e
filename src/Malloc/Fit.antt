-- ===== src/Malloc/Fit.antt =====
-- The search of w2/libc/malloc.c for a free block.
use mathlib.Core.Bool.{false≢true}
use sbrocks.Prelude.{
  ℕ, zero, suc, ◌+◌, ◌<◌, ◌≤◌, ◌≡◌, ◌≢◌, refl, sym, subst, arith, ◌==◌, if◌then◌else◌, true, false,
  some, List, [], ◌∷◌, length, Bool-cases, inl, inr, leb, ◌&&◌,
}
use sbrocks.Prelude.Chain.{IsChain, member, last_of}
use sbrocks.Malloc.{Heap, MemBlock, next_block, find_free_mem_block, block_size, unused}
use sbrocks.Malloc.Blocks.{Placed, member_more, member_rest}

-- The first block that is free and large enough; 0 where there is none.
unfoldable pub first_fit : (ℕ → MemBlock) → (size : ℕ) → List ℕ → ℕ
first_fit blocks size [] = 0
first_fit blocks size (x ∷ xs) =
    if ((blocks x).free == unused) && leb size (blocks x).size then x else first_fit blocks size xs

pub find_free_mem_block-first_fit :
    (fuel size last p : ℕ) (xs : List ℕ) (h : Heap)
    → IsChain (next_block h) p xs
    → length xs < fuel
    → (l : ℕ) × (find_free_mem_block fuel size last p h ≡ some (l, first_fit h.blocks size xs))
      × (first_fit h.blocks size xs ≡ 0 → l ≡ last_of last xs)
unfolding find_free_mem_block IsChain first_fit last_of
find_free_mem_block-first_fit zero size last p xs h c enough = elim enough [ ]
find_free_mem_block-first_fit (suc fuel) size last p [] h c enough =
    let e : (p == 0) ≡ true = ground arith in (last, rw (e, c) refl, λ z. refl)
find_free_mem_block-first_fit (suc fuel) size last p (x ∷ xs) h (at, nz, c) enough =
    let ne : (x == 0) ≡ false = ground arith in
    let (l, run, behind) =
      find_free_mem_block-first_fit fuel size x (h.blocks x).next xs h c (omega arith) in
    elim (Bool-cases (((h.blocks x).free == unused) && leb size (h.blocks x).size)) [
      | inl fits ↦ (last, rw (at, ne, fits) refl, rw fits (λ z. absurd (nz z)))
      | inr other ↦ (l, rw (at, ne, other) run, rw other behind)
    ]

-- A free member of the list that is large enough.
abbrev pub IsFit : (ℕ → MemBlock) → (size : ℕ) → List ℕ → ℕ → Type 0
IsFit blocks size xs b =
    (member b xs ≡ true) × ((blocks b).free ≡ unused) × (size ≤ (blocks b).size)

-- What the search finds is a free member, large enough.
pub first_fit-unused :
    (blocks : ℕ → MemBlock) (size : ℕ) (xs : List ℕ)
    → first_fit blocks size xs ≢ 0
    → IsFit blocks size xs (first_fit blocks size xs)
unfolding first_fit member
first_fit-unused blocks size [] found = absurd (found refl)
first_fit-unused blocks size (x ∷ xs) found =
    elim (Bool-cases (((blocks x).free == unused) && leb size (blocks x).size)) [
      | inl fits ↦
          let s : (x == x) ≡ true = ground arith in
          (rw (fits, s) refl, rw fits (ground arith), rw fits (ground arith))
      | inr other ↦
          let found' : first_fit blocks size xs ≢ 0 = λ z. found (rw other z) in
          let (m, u, l) = first_fit-unused blocks size xs found' in
          let e : first_fit blocks size (x ∷ xs) ≡ first_fit blocks size xs = rw other refl in
          subst (IsFit blocks size (x ∷ xs)) (sym e)
            (member_more (first_fit blocks size xs) x xs m, u, l)
    ]

fits_self :
    (blocks : ℕ → MemBlock) (size b : ℕ)
    → (blocks b).free ≡ unused
    → size ≤ (blocks b).size
    → (((blocks b).free == unused) && leb size (blocks b).size) ≡ true
fits_self blocks size b free large = ground arith

-- The search finds a block where there is one.
pub first_fit-some :
    (blocks : ℕ → MemBlock) (top low size b : ℕ) (xs : List ℕ)
    → Placed blocks top low xs
    → 1 ≤ low
    → member b xs ≡ true
    → (blocks b).free ≡ unused
    → size ≤ (blocks b).size
    → first_fit blocks size xs ≢ 0
unfolding first_fit Placed member
first_fit-some blocks top low size b [] p one m free large = absurd (false≢true m)
first_fit-some blocks top low size b (x ∷ xs) (l, p) one m free large =
    elim (Bool-cases (((blocks x).free == unused) && leb size (blocks x).size)) [
      | inl fits ↦ rw fits (λ e. omega arith)
      | inr other ↦
          let off : (x == b) ≡ false = differs x other in
          rw other (
            first_fit-some blocks top (x + block_size + (blocks x).size) size b xs p (omega arith)
              (member_rest b x xs off m) free large)
    ]
  where
    differs :
        (x : ℕ)
        → (((blocks x).free == unused) && leb size (blocks x).size) ≡ false
        → (x == b) ≡ false
    differs x other = elim (Bool-cases (x == b)) [
      | inr off ↦ off
      | inl same ↦
          let e : x ≡ b = ground arith in
          let fits =
            subst (λ y. (((blocks y).free == unused) && leb size (blocks y).size) ≡ true) (sym e)
              (fits_self blocks size b free large) in
          cc
    ]
