-- ===== src/Kstring/Text.antt =====
-- `strlen`, `kstrcpy`, `kstrncpy` and `strcat` of w2/sys/kstring.c on NUL-terminated texts.
use mathlib.Core.Option
use sbrocks.Prelude.{
  ℕ, zero, suc, ◌+◌, ◌≤◌, ◌<◌, ◌≡◌, ◌≢◌, ◌∙◌, inl, arith, ◌==◌, some, List, [], ◌∷◌, ◌++◌, length,
  false,
}
use sbrocks.Kstring.{Memory, store, memcpy, find_end, strlen, kstrcpy, strcat}
use sbrocks.Kstring.Copy.{Outside, Forward, memcpy-Outside, memcpy-Inside}

-- At `p` stand the bytes of the text, none of them NUL, and then a NUL.
abbrev pub IsText : Memory → ℕ → List ℕ → Type 0
IsText m p [] = m p ≡ 0
IsText m p (c ∷ cs) = (m p ≡ c) × (c ≢ 0) × IsText m (p + 1) cs

pub IsText-same :
    (m m' : Memory) (p : ℕ) (cs : List ℕ)
    → ((a : ℕ) → p ≤ a → a < p + suc (length cs) → m' a ≡ m a)
    → IsText m p cs
    → IsText m' p cs
IsText-same m m' p [] same h = same p (omega arith) (omega arith) ∙ h
IsText-same m m' p (c ∷ cs) same (at, nz, rest) = (
  same p (omega arith) (omega arith) ∙ at,
  nz,
  IsText-same m m' (p + 1) cs (λ a lo hi. same a (omega arith) (omega arith)) rest,
)

pub find_end_lem :
    (fuel : ℕ) (m : Memory) (p : ℕ) (cs : List ℕ)
    → IsText m p cs
    → length cs < fuel
    → find_end fuel m p ≡ some (p + length cs)
unfolding find_end
find_end_lem zero m p cs text enough = elim enough [ ]
find_end_lem (suc fuel) m p [] text enough = ground arith
find_end_lem (suc fuel) m p (c ∷ cs) (at, nz, rest) enough =
    ground (arith, find_end_lem fuel m (p + 1) cs rest)

-- `strlen` of a text is its number of bytes; fuel above that is enough.
pub strlen-length :
    (fuel : ℕ) (m : Memory) (p : ℕ) (cs : List ℕ)
    → IsText m p cs
    → length cs < fuel
    → strlen fuel m p ≡ some (length cs)
unfolding strlen
strlen-length fuel m p cs text enough = rw (find_end_lem fuel m p cs text enough) (ground arith)

-- The copy of a text is the `memcpy` of its bytes and its NUL.
pub kstrcpy-memcpy :
    (fuel : ℕ) (m : Memory) (dest src : ℕ) (cs : List ℕ)
    → IsText m src cs
    → Forward dest src (suc (length cs))
    → length cs < fuel
    → kstrcpy fuel m dest src ≡ some (memcpy m dest src (suc (length cs)))
unfolding kstrcpy memcpy
kstrcpy-memcpy zero m dest src cs text fwd enough = elim enough [ ]
kstrcpy-memcpy (suc fuel) m dest src [] text fwd enough = ground arith
kstrcpy-memcpy (suc fuel) m dest src (c ∷ cs) (at, nz, rest) fwd enough =
    let more : (m src == 0) ≡ false = ground arith in
    rw more (
      kstrcpy-memcpy fuel (store m dest (m src)) (dest + 1) (src + 1) cs
        (IsText-same m (store m dest (m src)) (src + 1) cs (λ a lo hi. ground arith) rest)
        (ground arith) (omega arith))

-- A text that is copied byte by byte is the same text.
copied-IsText :
    (m m' : Memory) (dest src : ℕ) (cs : List ℕ)
    → ((i : ℕ) → i < suc (length cs) → m' (dest + i) ≡ m (src + i))
    → IsText m src cs
    → IsText m' dest cs
copied-IsText m m' dest src [] copied text =
    let at : dest + 0 ≡ dest = omega arith in
    let from : src + 0 ≡ src = omega arith in rw (at, from) at (copied 0 (omega arith)) ∙ text
copied-IsText m m' dest src (c ∷ cs) copied (at, nz, rest) =
    let at0 : dest + 0 ≡ dest = omega arith in
    let from0 : src + 0 ≡ src = omega arith in
    (
      rw (at0, from0) at (copied 0 (omega arith)) ∙ at,
      nz,
      copied-IsText m m' (dest + 1) (src + 1) cs
          (λ i h.
            let ed : dest + 1 + i ≡ dest + suc i = omega arith in
            let es : src + 1 + i ≡ src + suc i = omega arith in
            rw (ed, es) (copied (suc i) (omega arith)))
          rest,
    )

-- `kstrcpy` ends, and leaves the text of `src` at `dest` and every byte outside the target, NUL
-- included, as it was. It needs that the areas do not overlap forwards.
pub kstrcpy_lem :
    (fuel : ℕ) (m : Memory) (dest src : ℕ) (cs : List ℕ)
    → IsText m src cs
    → Forward dest src (suc (length cs))
    → length cs < fuel
    → (m' : Memory) × (kstrcpy fuel m dest src ≡ some m')
      × IsText m' dest cs
      × ((a : ℕ) → Outside dest (suc (length cs)) a → m' a ≡ m a)
kstrcpy_lem fuel m dest src cs text fwd enough =
    let n = suc (length cs) in
    (
      memcpy m dest src n,
      kstrcpy-memcpy fuel m dest src cs text fwd enough,
      copied-IsText m (memcpy m dest src n) dest src cs (λ i h. memcpy-Inside m dest src n i fwd h)
          text,
      λ a out. memcpy-Outside m dest src n a out,
    )

IsText-append :
    (m m' : Memory) (p : ℕ) (cs ds : List ℕ)
    → IsText m p cs
    → ((a : ℕ) → p ≤ a → a < p + length cs → m' a ≡ m a)
    → IsText m' (p + length cs) ds
    → IsText m' p (cs ++ ds)
IsText-append m m' p [] ds text same rest = let e : p + 0 ≡ p = omega arith in rw e at rest
IsText-append m m' p (c ∷ cs) ds (at, nz, text) same rest =
    let e : p + suc (length cs) ≡ p + 1 + length cs = omega arith in
    (
      same p (omega arith) (omega arith) ∙ at,
      nz,
      IsText-append m m' (p + 1) cs ds text (λ a lo hi. same a (omega arith) (omega arith))
          (rw e at rest),
    )

-- `strcat` ends and leaves at `dest` the text of `dest` followed by that of `src`. It needs
-- that the source does not overlap the bytes from the end of `dest` on.
pub strcat-append :
    (fuel : ℕ) (m : Memory) (dest src : ℕ) (cs ds : List ℕ)
    → IsText m dest cs
    → IsText m src ds
    → Forward (dest + length cs) src (suc (length ds))
    → length cs < fuel
    → length ds < fuel
    → (m' : Memory) × (strcat fuel m dest src ≡ some m')
      × IsText m' dest (cs ++ ds)
      × ((a : ℕ) → Outside (dest + length cs) (suc (length ds)) a → m' a ≡ m a)
unfolding strcat Option.bind
strcat-append fuel m dest src cs ds head text fwd e1 e2 =
    let (m', done, new, same) = kstrcpy_lem fuel m (dest + length cs) src ds text fwd e2 in
    (
      m',
      rw (find_end_lem fuel m dest cs head e1) done,
      IsText-append m m' dest cs ds head (λ a lo hi. same a (inl hi)) new,
      same,
    )
