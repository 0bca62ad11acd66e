-- ===== src/Malloc/Blocks.antt =====
-- The list of blocks of w2/libc/malloc.c.
use sbrocks.Prelude.{
  ℕ, ◌+◌, ◌<◌, ◌≤◌, ◌≡◌, ◌≢◌, refl, sym, subst, ◌∙◌, ap, arith, ◌==◌, true, false, List, [], ◌∷◌,
  ◌++◌, Bool-cases, inl, inr, ◌⊎◌, ◌||◌,
}
use sbrocks.Prelude.Chain.{IsChain, Misses, Distinct, member}
use sbrocks.Malloc.{Heap, MemBlock, next_block, block_size}

-- The blocks stand one behind the other, from `low` on and below `top`.
unfoldable pub Placed : (blocks : ℕ → MemBlock) → (top low : ℕ) → List ℕ → Type 0
Placed blocks top low [] = low ≤ top
Placed blocks top low (x ∷ xs) = (low ≤ x) × Placed blocks top (x + block_size + (blocks x).size) xs

-- The list of the heap's blocks: they do not overlap, and end below the break.
pub record IsHeap (h : Heap) (xs : List ℕ) : Type 0 where
  pub chain : IsChain (next_block h) h.head xs
  pub placed : Placed h.blocks h.brk_end 1 xs

pub Placed-top :
    (blocks : ℕ → MemBlock) (top low : ℕ) (xs : List ℕ) → Placed blocks top low xs → low ≤ top
unfolding Placed
Placed-top blocks top low [] p = p
Placed-top blocks top low (x ∷ xs) p =
    let r = Placed-top blocks top (x + block_size + (blocks x).size) xs p.1 in
    let l = p.0 in omega arith

pub Placed-Misses :
    (blocks : ℕ → MemBlock) (top low q : ℕ) (xs : List ℕ)
    → Placed blocks top low xs
    → (q < low) ⊎ (top ≤ q)
    → Misses q xs
unfolding Placed Misses
Placed-Misses blocks top low q [] p out = tt
Placed-Misses blocks top low q (x ∷ xs) (l, p) out =
    let r = Placed-top blocks top (x + block_size + (blocks x).size) xs p in
    (
      λ e. ground arith,
      Placed-Misses blocks top (x + block_size + (blocks x).size) q xs p (ground arith),
    )

pub Placed-Distinct :
    (blocks : ℕ → MemBlock) (top low : ℕ) (xs : List ℕ) → Placed blocks top low xs → Distinct xs
unfolding Placed Distinct
Placed-Distinct blocks top low [] p = tt
Placed-Distinct blocks top low (x ∷ xs) (l, p) = (
  Placed-Misses blocks top (x + block_size + (blocks x).size) x xs p (inl (omega arith)),
  Placed-Distinct blocks top (x + block_size + (blocks x).size) xs p,
)

pub member_rest :
    (q x : ℕ) (xs : List ℕ) → (x == q) ≡ false → member q (x ∷ xs) ≡ true → member q xs ≡ true
unfolding member
member_rest q x xs other m = sym (ap (λ b. b || member q xs) other) ∙ m

pub member_more : (q x : ℕ) (xs : List ℕ) → member q xs ≡ true → member q (x ∷ xs) ≡ true
unfolding member
member_more q x xs m = elim (Bool-cases (x == q)) [
  | inl same ↦ rw same refl
  | inr other ↦ rw other m
]

pub member-append : (q : ℕ) (xs : List ℕ) → member q (xs ++ q ∷ []) ≡ true
unfolding member
member-append q [] = let s : (q == q) ≡ true = ground arith in rw s refl
member-append q (x ∷ xs) = member_more q x (xs ++ q ∷ []) (member-append q xs)

pub member_before : (q t : ℕ) (xs : List ℕ) → member q xs ≡ true → member q (xs ++ t ∷ []) ≡ true
unfolding member
member_before q t [] m = cc
member_before q t (x ∷ xs) m = elim (Bool-cases (x == q)) [
  | inl same ↦ rw same refl
  | inr other ↦ member_more q x (xs ++ t ∷ []) (member_before q t xs (member_rest q x xs other m))
]

-- Members of the list are inside its area.
pub Placed-member :
    (blocks : ℕ → MemBlock) (top low q : ℕ) (xs : List ℕ)
    → Placed blocks top low xs
    → member q xs ≡ true
    → (low ≤ q) × (q + block_size + (blocks q).size ≤ top)
unfolding Placed member
Placed-member blocks top low q [] p m = cc
Placed-member blocks top low q (x ∷ xs) (l, p) m = elim (Bool-cases (x == q)) [
  | inl same ↦
      let e : x ≡ q = ground arith in
      let r = Placed-top blocks top (x + block_size + (blocks x).size) xs p in
      subst (λ q. (low ≤ q) × (q + block_size + (blocks q).size ≤ top)) e (l, r)
  | inr other ↦
      let rest : member q xs ≡ true = member_rest q x xs other m in
      let (a, b) = Placed-member blocks top (x + block_size + (blocks x).size) q xs p rest in
      (omega arith, b)
]

-- Two members do not overlap.
pub Placed-apart :
    (blocks : ℕ → MemBlock) (top low q r : ℕ) (xs : List ℕ)
    → Placed blocks top low xs
    → member q xs ≡ true
    → member r xs ≡ true
    → q ≢ r
    → (q + block_size + (blocks q).size ≤ r) ⊎ (r + block_size + (blocks r).size ≤ q)
unfolding Placed member
Placed-apart blocks top low q r [] p m n ne = cc
Placed-apart blocks top low q r (x ∷ xs) (l, p) m n ne =
    let low' = x + block_size + (blocks x).size in
    elim (Bool-cases (x == q)) [
      | inl is_q ↦
          let e : x ≡ q = ground arith in
          let off : (x == r) ≡ false = ground arith in
          let (a, b) = Placed-member blocks top low' r xs p (member_rest r x xs off n) in
          inl (subst (λ q. q + block_size + (blocks q).size ≤ r) e a)
      | inr not_q ↦ elim (Bool-cases (x == r)) [
        | inl is_r ↦
            let e : x ≡ r = ground arith in
            let (a, b) = Placed-member blocks top low' q xs p (member_rest q x xs not_q m) in
            inr (subst (λ r. r + block_size + (blocks r).size ≤ q) e a)
        | inr not_r ↦
            Placed-apart blocks top low' q r xs p (member_rest q x xs not_q m)
              (member_rest r x xs not_r n) ne
      ]
    ]

pub Placed-same :
    (blocks blocks' : ℕ → MemBlock) (top low : ℕ) (xs : List ℕ)
    → ((q : ℕ) → q < top → (blocks' q).size ≡ (blocks q).size)
    → Placed blocks top low xs
    → Placed blocks' top low xs
unfolding Placed
Placed-same blocks blocks' top low [] same p = p
Placed-same blocks blocks' top low (x ∷ xs) same (l, p) =
    let r = Placed-top blocks top (x + block_size + (blocks x).size) xs p in
    (
      l,
      rw (same x (omega arith))
          (Placed-same blocks blocks' top (x + block_size + (blocks x).size) xs same p),
    )

-- A block at the break goes behind the others.
pub Placed-append :
    (blocks : ℕ → MemBlock) (top top' low : ℕ) (xs : List ℕ)
    → top + block_size + (blocks top).size ≤ top'
    → Placed blocks top low xs
    → Placed blocks top' low (xs ++ top ∷ [])
unfolding Placed
Placed-append blocks top top' low [] room p = (p, room)
Placed-append blocks top top' low (x ∷ xs) room (l, p) =
    (l, Placed-append blocks top top' (x + block_size + (blocks x).size) xs room p)
