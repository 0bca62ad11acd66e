-- ===== src/Kstring/Compare.antt =====
-- `kstrcmp` and `kstrncmp` of w2/sys/kstring.c compare texts byte by byte.
use Prim.Native.Nat.{Ordering}
use sbrocks.Prelude.{
  ℕ, zero, suc, ◌+◌, ◌<◌, ◌≡◌, ◌↔◌, refl, arith, ◌==◌, some, if◌then◌else◌, ltb, List, [], ◌∷◌,
  length, take,
}
use sbrocks.Kstring.{Memory, kstrcmp, kstrncmp}
use sbrocks.Kstring.Text.{IsText}

-- The order of the dictionary on lists of bytes.
pub dictionary : List ℕ → List ℕ → Ordering
dictionary [] [] = Ordering.eq
dictionary [] (d ∷ ds) = Ordering.lt
dictionary (c ∷ cs) [] = Ordering.gt
dictionary (c ∷ cs) (d ∷ ds) =
    if c == d then dictionary cs ds else if ltb c d then Ordering.lt else Ordering.gt

-- `kstrcmp` of two texts ends and is their order in the dictionary; fuel above the length of
-- the first is enough.
pub kstrcmp-dictionary :
    (fuel : ℕ) (m : Memory) (p q : ℕ) (cs ds : List ℕ)
    → IsText m p cs
    → IsText m q ds
    → length cs < fuel
    → kstrcmp fuel m p q ≡ some (dictionary cs ds)
unfolding kstrcmp dictionary
kstrcmp-dictionary zero m p q cs ds x y enough = elim enough [ ]
kstrcmp-dictionary (suc fuel) m p q [] [] x y enough = ground arith
kstrcmp-dictionary (suc fuel) m p q [] (d ∷ ds) x (at, nz, y) enough = ground arith
kstrcmp-dictionary (suc fuel) m p q (c ∷ cs) [] (at, nz, x) y enough = ground arith
kstrcmp-dictionary (suc fuel) m p q (c ∷ cs) (d ∷ ds) (at, nz, x) (at', nz', y) enough =
    ground (arith, kstrcmp-dictionary fuel m (p + 1) (q + 1) cs ds x y)

-- Two lists are level in the dictionary only if they are equal.
pub dictionary-eq : (cs ds : List ℕ) → (dictionary cs ds ≡ Ordering.eq) ↔ (cs ≡ ds)
unfolding dictionary
dictionary-eq [] [] = (λ _. refl, λ _. refl)
dictionary-eq [] (d ∷ ds) = (λ e. cc, λ e. cc)
dictionary-eq (c ∷ cs) [] = (λ e. cc, λ e. cc)
dictionary-eq (c ∷ cs) (d ∷ ds) =
    let ih = dictionary-eq cs ds in (λ e. ground (arith, ih.0), λ e. ground (arith, ih.1))

-- `kstrcmp` answers 0 exactly for equal texts.
pub kstrcmp-eq_iff :
    (fuel : ℕ) (m : Memory) (p q : ℕ) (cs ds : List ℕ)
    → IsText m p cs
    → IsText m q ds
    → length cs < fuel
    → (kstrcmp fuel m p q ≡ some Ordering.eq) ↔ (cs ≡ ds)
kstrcmp-eq_iff fuel m p q cs ds x y enough =
    let same = kstrcmp-dictionary fuel m p q cs ds x y enough in
    let level = dictionary-eq cs ds in (λ e. level.0 (cc), λ e. ground (arith, level.1))

-- `kstrncmp` compares the first `size` bytes.
pub kstrncmp-take :
    (m : Memory) (p q size : ℕ) (cs ds : List ℕ)
    → IsText m p cs
    → IsText m q ds
    → kstrncmp m p q size ≡ dictionary (take size cs) (take size ds)
unfolding kstrncmp dictionary
kstrncmp-take m p q zero cs ds x y = refl
kstrncmp-take m p q (suc size) [] [] x y = ground arith
kstrncmp-take m p q (suc size) [] (d ∷ ds) x (at, nz, y) = ground arith
kstrncmp-take m p q (suc size) (c ∷ cs) [] (at, nz, x) y = ground arith
kstrncmp-take m p q (suc size) (c ∷ cs) (d ∷ ds) (at, nz, x) (at', nz', y) =
    ground (arith, kstrncmp-take m (p + 1) (q + 1) size cs ds x y)
