-- ===== src/Kstring/Copy.antt =====
-- What `memcpy`, `memset` and `memsetw` of w2/sys/kstring.c leave in memory.
use sbrocks.Prelude.{
  ℕ, zero, suc, ◌+◌, ◌%◌, ◌≤◌, ◌<◌, ◌≡◌, refl, ◌∙◌, ◌⊎◌, inl, ap, arith, if◌then◌else◌, leb, ltb,
  ◌&&◌,
}
use sbrocks.Kstring.{Memory, store, memcpy, memset, memsetw, byte_mod}

-- An address of `n` bytes from `p` on.
abbrev pub Inside : ℕ → ℕ → ℕ → Type 0
Inside p n a = (p ≤ a) × (a < p + n)

abbrev pub Outside : ℕ → ℕ → ℕ → Type 0
Outside p n a = (a < p) ⊎ (p + n ≤ a)

-- A copy forwards is right where the target starts no later than the source, or past its end.
abbrev pub Forward : (dst src n : ℕ) → Type 0
Forward dst src n = (dst ≤ src) ⊎ (src + n ≤ dst)

pub memcpy-Outside : (m : Memory) (dst src n a : ℕ) → Outside dst n a → memcpy m dst src n a ≡ m a
unfolding memcpy
memcpy-Outside m dst src zero a out = refl
memcpy-Outside m dst src (suc n) a out =
    memcpy-Outside (store m dst (m src)) (dst + 1) (src + 1) n a (ground arith) ∙ ground arith

pub memcpy-Inside :
    (m : Memory) (dst src n i : ℕ)
    → Forward dst src n
    → i < n
    → memcpy m dst src n (dst + i) ≡ m (src + i)
unfolding memcpy
memcpy-Inside m dst src zero i fwd h = elim h [ ]
memcpy-Inside m dst src (suc n) zero fwd h =
    let at : dst + 0 ≡ dst = omega arith in
    let from : src + 0 ≡ src = omega arith in
    rw (at, from)
      (memcpy-Outside (store m dst (m src)) (dst + 1) (src + 1) n dst (inl (omega arith))
        ∙ ground arith)
memcpy-Inside m dst src (suc n) (suc i) fwd h =
    let at : dst + suc i ≡ dst + 1 + i = omega arith in
    let from : src + suc i ≡ src + 1 + i = omega arith in
    rw (at, from)
      (memcpy-Inside (store m dst (m src)) (dst + 1) (src + 1) n i (ground arith) (omega arith)
        ∙ ground arith)

-- After `memcpy` forwards the target holds what the source held, and every other byte is as it
-- was.
pub memcpy_lem :
    (m : Memory) (dst src n : ℕ)
    → Forward dst src n
    → ((i : ℕ) → i < n → memcpy m dst src n (dst + i) ≡ m (src + i))
      × ((a : ℕ) → Outside dst n a → memcpy m dst src n a ≡ m a)
memcpy_lem m dst src n fwd =
    (λ i h. memcpy-Inside m dst src n i fwd h, λ a out. memcpy-Outside m dst src n a out)

-- `memset` writes the low byte of `c` to each of the `n` bytes, and nothing else.
pub memset_lem :
    (m : Memory) (str c n a : ℕ)
    → memset m str c n a ≡ (if leb str a && ltb a (str + n) then c % byte_mod else m a)
unfolding memset
memset_lem m str c zero a = ground arith
memset_lem m str c (suc n) a =
    memset_lem (store m str (c % byte_mod)) (str + 1) c n a ∙ ground arith

-- `memsetw` stores bytes: it writes what `memset` writes with the low byte of `val`, and
-- returns the end of the area.
pub memsetw-memset :
    (m : Memory) (s1 val count : ℕ) → memsetw m s1 val count ≡ (memset m s1 val count, s1 + count)
unfolding memsetw memset
memsetw-memset m s1 val zero = ap (λ (k : ℕ). (m, k)) (omega arith)
memsetw-memset m s1 val (suc count) =
    memsetw-memset (store m s1 (val % byte_mod)) (s1 + 1) val count
    ∙ ap (λ (k : ℕ). (memset (store m s1 (val % byte_mod)) (s1 + 1) val count, k)) (omega arith)
