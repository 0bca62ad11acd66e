-- ===== src/Kstring/Tests.antt =====
-- The routines of w2/sys/kstring.c on small memories, and their theorems at such inputs.
use sbrocks.Prelude.{ℕ, ◌+◌, ◌≡◌, refl, inr, arith, some, List, [], ◌∷◌, get_or}
use sbrocks.Kstring.{Memory, strlen, strcat, power, atoi}
use sbrocks.Kstring.Copy.{Outside}
use sbrocks.Kstring.Text.{IsText, strcat-append}

-- "ab" at 0, "abc" at 4 and "017" at 9
abbrev shelf : Memory
shelf a =
    get_or (b'a' ∷ b'b' ∷ 0 ∷ 7 ∷ b'a' ∷ b'b' ∷ b'c' ∷ 0 ∷ 7 ∷ b'0' ∷ b'1' ∷ b'7' ∷ 0 ∷ []) a 0

abbrev ab : List ℕ
ab = b'a' ∷ b'b' ∷ []

abbrev abc : List ℕ
abc = b'a' ∷ b'b' ∷ b'c' ∷ []

strlen-shelf : strlen 10 shelf 4 ≡ some 3
unfolding strlen
strlen-shelf = refl

power_wraps : power 2 64 ≡ 0
unfolding power
power_wraps = refl

atoi-shelf : atoi 10 shelf 9 ≡ some 17
unfolding atoi
atoi-shelf = refl

strcat-append_example :
    (m' : Memory) × (strcat 10 shelf 4 0 ≡ some m')
    × IsText m' 4 (b'a' ∷ b'b' ∷ b'c' ∷ b'a' ∷ b'b' ∷ [])
    × ((a : ℕ) → Outside (4 + 3) 3 a → m' a ≡ shelf a)
strcat-append_example =
    strcat-append 10 shelf 4 0 abc ab (omega arith) (omega arith) (inr (omega arith)) (omega arith)
      (omega arith)
