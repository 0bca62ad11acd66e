-- ===== src/Shell/Held.antt =====
-- Texts in memory by their characters from the last to the first.
use sbrocks.Prelude.{ℕ, suc, ◌+◌, ◌≤◌, ◌≡◌, ◌≢◌, List, [], ◌∷◌, length, arith}
use sbrocks.Kstring.{Memory, store}
use sbrocks.Kstring.Text.{IsText}
use sbrocks.Elf.{reverse_onto}

-- At `p` stand the characters of `acc`, the last one first.
abbrev pub Holds : Memory → ℕ → List ℕ → Type 0
Holds m p [] = Unit
Holds m p (c ∷ acc) = (m (p + length acc) ≡ c) × (c ≢ 0) × Holds m p acc

pub Holds-store :
    (m : Memory) (p i c : ℕ) (acc : List ℕ)
    → length acc ≤ i
    → Holds m p acc
    → Holds (store m (p + i) c) p acc
Holds-store m p i c [] l h = tt
Holds-store m p i c (a ∷ acc) l (at, nz, h) =
    (ground arith, nz, Holds-store m p i c acc (omega arith) h)

pub Holds-IsText :
    (m : Memory) (p : ℕ) (acc cs : List ℕ)
    → Holds m p acc
    → IsText m (p + length acc) cs
    → IsText m p (reverse_onto acc cs)
unfolding reverse_onto
Holds-IsText m p [] cs h t = let e : p + 0 ≡ p = omega arith in rw e at t
Holds-IsText m p (a ∷ acc) cs (at, nz, h) t =
    let e : p + suc (length acc) ≡ p + length acc + 1 = omega arith in
    Holds-IsText m p acc (a ∷ cs) h (at, nz, rw e at t)

pub IsText-Holds :
    (m : Memory) (p : ℕ) (acc cs : List ℕ)
    → Holds m p acc
    → IsText m (p + length acc) cs
    → Holds m p (reverse_onto cs acc) × (m (p + length (reverse_onto cs acc)) ≡ 0)
unfolding reverse_onto
IsText-Holds m p acc [] h t = (h, t)
IsText-Holds m p acc (c ∷ cs) h (at, nz, t) =
    let e : p + length acc + 1 ≡ p + suc (length acc) = omega arith in
    IsText-Holds m p (c ∷ acc) cs (at, nz, h) (rw e at t)
