-- ===== src/Format/Number.antt =====
-- A number in its field: blanks, the sign, the prefix, the digits and blanks.
use sbrocks.Prelude.{
  ℕ, ◌+◌, ◌^◌, ◌≤◌, ◌<◌, ◌≡◌, Bool, true, false, List, [], ◌∷◌, ◌++◌, ◌==◌, if◌then◌else◌, ◌&&◌,
  length, replicate,
}
use sbrocks.Format.{Flags}
use sbrocks.Format.Digits.{value}
use sbrocks.Format.Chars.{AllDigits}

-- The sign and the amount of a number of 64 bits, which has a sign only where the flags say so.
pub record IsSigned (num : ℕ) (type : Flags) (sign : List ℕ) (amount : ℕ) : Type 0 where
  pub negative : type.sign ≡ true → 2 ^ 63 ≤ num → (sign ≡ b'-' ∷ []) × (amount + num ≡ 2 ^ 64)
  pub positive :
      type.sign ≡ true
      → num < 2 ^ 63
      → (amount ≡ num)
        × (sign ≡ (if type.plus then b'+' ∷ [] else if type.space then b' ' ∷ [] else []))
  pub unsigned : type.sign ≡ false → (amount ≡ num) × (sign ≡ [])

-- "0" in base 8, "0x" or "0X" in base 16, where the flags ask for it.
abbrev pub base_mark : (base : ℕ) → Flags → List ℕ
base_mark base type =
    if type.special && (base == 8)
    then b'0' ∷ []
    else if type.special && (base == 16)
    then b'0' ∷ (if type.small then b'x' else b'X') ∷ []
    else []

-- `cs` is a number in a field: `size` characters or more, and digits of the value `amount`,
-- `precision` of them or more. Only `left` puts blanks behind them.
pub record Layout (base size precision num : ℕ) (type : Flags) (cs : List ℕ) : Type 0 where
  pub front : ℕ
  pub back : ℕ
  pub sign : List ℕ
  pub ds : List ℕ
  pub parts : cs ≡ replicate front 32 ++ sign ++ base_mark base type ++ ds ++ replicate back 32
  pub signed : IsSigned num type sign (value base 0 ds)
  pub digits : AllDigits base type.small ds
  pub precise : precision ≤ length ds
  pub wide : size ≤ length cs
  pub one_side : (if type.left then front else back) ≡ 0

-- The same for a sign and a prefix that are given.
record Field (base size precision : ℕ) (small left : Bool) (sign prefix tmp cs : List ℕ)
    : Type 0 where
  pub front : ℕ
  pub back : ℕ
  pub ds : List ℕ
  pub parts : cs ≡ replicate front 32 ++ sign ++ prefix ++ ds ++ replicate back 32
  pub amount_of : value base 0 ds ≡ value base 0 tmp
  pub digits : AllDigits base small tmp → 0 < base → AllDigits base small ds
  pub precise : precision ≤ length ds
  pub wide : size ≤ length cs
  pub one_side : (if left then front else back) ≡ 0

-- The pieces of a field in their order.
abbrev pieces :
    (front : ℕ) → (sign prefix middle : List ℕ) → (zeros : ℕ) → (tmp : List ℕ) → (back : ℕ) → List ℕ
pieces front sign prefix middle zeros tmp back =
    replicate front 32 ++ sign ++ prefix ++ middle ++ replicate zeros 48 ++ tmp ++ replicate back 32
