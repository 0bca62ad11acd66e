-- ===== src/Kstring/Numbers.antt =====
-- `power`, `atoi` and `octal_to_decimal` of w2/sys/kstring.c against arithmetic.
use Prim.Native.Nat.pow
use mathlib.Core.Logic.{dif_pos, dif_neg}
use mathlib.Core.Option
use mathlib.Core.WellFounded.{Acc}
use native.Mathlib.Decide.{ℕ_discrete}
use native.Mathlib.Nat.{pow-suc, mod-add-mod, add-mod-mod, mul_comm, ℕ_set}
use mathlib.Core.Path.{◌≡⟨◌⟩◌, ◌∎}
use sbrocks.Prelude.{
  ℕ, zero, suc, ◌+◌, ◌-◌, ◌*◌, ◌/◌, ◌%◌, ◌^◌, ◌≤◌, ◌<◌, ◌≡◌, ◌≢◌, refl, sym, ◌∙◌, ap, arith, ◌==◌,
  some, if◌then◌else◌, List, [], ◌∷◌, length, Bool, true, false, ltb, Bool-cases, inl, inr,
}
use mathlib.Core.List.{reverse_aux}
use sbrocks.Prelude.Order.{lt_wf}
use sbrocks.Kstring.{
  Memory, power, power_acc, word_mod, int_mod, atoi, atoi_from, atoi_step, octal_to_decimal,
  octal_loop, octal_digit,
}
use sbrocks.Kstring.Text.{IsText}

mod-mul_left : (a b n : ℕ) → a % n * b % n ≡ a * b % n
mod-mul_left a zero n = ap (λ (k : ℕ). k % n) (omega arith)
mod-mul_left a (suc b) n =
    a % n * suc b % n
    ≡⟨ ap (λ (k : ℕ). k % n) (omega arith) ⟩ (a % n + a % n * b) % n
    ≡⟨ sym (add-mod-mod (a % n) (a % n * b) n) ⟩ (a % n + a % n * b % n) % n
    ≡⟨ ap (λ (k : ℕ). (a % n + k) % n) (mod-mul_left a b n) ⟩ (a % n + a * b % n) % n
    ≡⟨ add-mod-mod (a % n) (a * b) n ⟩ (a % n + a * b) % n
    ≡⟨ mod-add-mod a n (a * b) ⟩ (a + a * b) % n
    ≡⟨ ap (λ (k : ℕ). k % n) (omega arith) ⟩ a * suc b % n ∎

mod-mul_right : (a b n : ℕ) → a * (b % n) % n ≡ a * b % n
mod-mul_right a b n =
    ap (λ (k : ℕ). k % n) (mul_comm a (b % n))
    ∙ mod-mul_left b a n
    ∙ ap (λ (k : ℕ). k % n) (mul_comm b a)

pow-add : (x a b : ℕ) → x ^ (a + b) ≡ x ^ a * x ^ b
pow-add x zero b = let e : 0 + b ≡ b = omega arith in rw (e, pow.zero) (omega arith)
pow-add x (suc a) b =
    x ^ (suc a + b)
    ≡⟨ ap (λ k. x ^ k) (omega arith) ⟩ x ^ suc (a + b)
    ≡⟨ pow-suc x (a + b) ⟩ x ^ (a + b) * x
    ≡⟨ ap (λ (k : ℕ). k * x) (pow-add x a b) ⟩ x ^ a * x ^ b * x
    ≡⟨ omega (arith, mul_comm x (x ^ b), ap (λ (k : ℕ). k * x ^ b) (pow-suc x a)) ⟩
      x ^ suc a * x ^ b ∎

-- A square modulo `n` needs the root modulo `n` only.
square_mod : (a n : ℕ) → a % n * (a % n) % n ≡ a * a % n
square_mod a n = mod-mul_left a (a % n) n ∙ mod-mul_right a a n

even_pow : (x y : ℕ) → y % 2 ≡ 0 → x ^ (y / 2) * x ^ (y / 2) ≡ x ^ y
even_pow x y e = sym (pow-add x (y / 2) (y / 2)) ∙ ap (λ k. x ^ k) (omega arith)

odd_pow : (x y : ℕ) → y % 2 ≢ 0 → x * x ^ (y / 2) * x ^ (y / 2) ≡ x ^ y
odd_pow x y e =
    x * x ^ (y / 2) * x ^ (y / 2)
    ≡⟨ omega (arith, ap (λ (k : ℕ). x * k) (pow-add x (y / 2) (y / 2))) ⟩ x * x ^ (y / 2 + y / 2)
    ≡⟨ omega (arith, pow-suc x (y / 2 + y / 2)) ⟩ x ^ suc (y / 2 + y / 2)
    ≡⟨ ap (λ k. x ^ k) (omega arith) ⟩ x ^ y ∎

regroup : (x p : ℕ) → x * (p % word_mod) * p % word_mod ≡ x * p * p % word_mod
regroup x p = ap (λ (k : ℕ). k % word_mod) (omega arith) ∙ mod-mul_right (x * p) p word_mod

power_step :
    (x y half : ℕ)
    → half ≡ x ^ (y / 2) % word_mod
    → (if y % 2 == 0 then half * half % word_mod else x * half % word_mod * half % word_mod)
      ≡ x ^ y % word_mod
power_step x y half e = elim (Bool-cases (y % 2 == 0)) [
  | inl even ↦
      rw (even, e)
        (square_mod (x ^ (y / 2)) word_mod
          ∙ ap (λ (k : ℕ). k % word_mod) (even_pow x y (ground arith)))
  | inr odd ↦
      let p = x ^ (y / 2) in
      rw (odd, e)
        (mod-mul_left (x * (p % word_mod)) (p % word_mod) word_mod
          ∙ mod-mul_right (x * (p % word_mod)) p word_mod
          ∙ regroup x p
          ∙ ap (λ (k : ℕ). k % word_mod) (odd_pow x y (ground arith)))
]

power_acc_lem : (x y : ℕ) (w : Acc ◌<◌ y) → power_acc x y w ≡ x ^ y % word_mod
unfolding power_acc
power_acc_lem x y (Acc.intro _ smaller) = elim (ℕ_discrete y 0) [
  | yes z ↦
      let one : 1 ≡ x ^ y % word_mod = rw (z, pow.zero) refl in
      rw (dif_pos (ℕ_discrete y 0) (ℕ_set y 0) z) one
  | no nz ↦
      rw (dif_neg (ℕ_discrete y 0) nz) (power_step x y _ (power_acc_lem x (y / 2) (smaller _ _)))
]

-- `power` is exponentiation modulo 2 ^ 64, for every base and exponent.
pub power-pow : (x y : ℕ) → power x y ≡ x ^ y % word_mod
unfolding power
power-pow x y = power_acc_lem x y (lt_wf.apply y)

-- The value of a list of digits in a base, the most significant first.
unfoldable pub digits_value : (base : ℕ) → List ℕ → ℕ → ℕ
digits_value base [] acc = acc
digits_value base (d ∷ ds) acc = digits_value base ds (base * acc + d)

-- The bytes of a list of digits.
abbrev pub digit_bytes : List ℕ → List ℕ
digit_bytes [] = []
digit_bytes (d ∷ ds) = (b'0' + d) ∷ digit_bytes ds

abbrev pub AllBelow : ℕ → List ℕ → Type 0
AllBelow n [] = Unit {0}
AllBelow n (d ∷ ds) = (d < n) × AllBelow n ds

grow : (base acc : ℕ) → 1 ≤ base → acc ≤ base * acc
grow base acc h = grind arith

digits_value-le : (ds : List ℕ) (base acc : ℕ) → 1 ≤ base → acc ≤ digits_value base ds acc
unfolding digits_value
digits_value-le [] base acc h = omega arith
digits_value-le (d ∷ ds) base acc h =
    omega (arith, digits_value-le ds base (base * acc + d) h, grow base acc h)

atoi_from-digits_value :
    (fuel : ℕ) (m : Memory) (p : ℕ) (ds : List ℕ) (k : ℕ)
    → IsText m p (digit_bytes ds)
    → AllBelow 10 ds
    → length ds < fuel
    → digits_value 10 ds k < int_mod
    → atoi_from fuel m p k ≡ some (digits_value 10 ds k)
unfolding atoi_from atoi_step digits_value
atoi_from-digits_value zero m p ds k text small enough fits = elim enough [ ]
atoi_from-digits_value (suc fuel) m p [] k text small enough fits = ground arith
atoi_from-digits_value (suc fuel) m p (d ∷ ds) k (at, nz, text) (lt, small) enough fits =
    let bound = digits_value-le ds 10 (10 * k + d) (omega arith) in
    let step : (8 * k + 2 * k + (b'0' + d) + int_mod - b'0') % int_mod ≡ 10 * k + d = omega arith in
    let more : (m p == 0) ≡ false = ground arith in
    let plain : ltb (b'0' + d) 128 ≡ true = ground arith in
    rw (more, at, plain, step)
      (atoi_from-digits_value fuel m (p + 1) ds (10 * k + d) text small (omega arith) fits)

-- `atoi` reads the decimal number that a text of digits shows, where that fits an `int`.
pub atoi-digits_value :
    (fuel : ℕ) (m : Memory) (p : ℕ) (ds : List ℕ)
    → IsText m p (digit_bytes ds)
    → AllBelow 10 ds
    → length ds < fuel
    → digits_value 10 ds 0 < 2 ^ 31
    → atoi fuel m p ≡ some (digits_value 10 ds 0)
unfolding atoi
atoi-digits_value fuel m p ds text small enough fits =
    atoi_from-digits_value fuel m p ds 0 text small enough (omega arith)

-- The value of digits with the least significant first.
little_value : (base : ℕ) → List ℕ → ℕ
little_value base [] = 0
little_value base (d ∷ ds) = d + base * little_value base ds

little_value-reverse :
    (base : ℕ) (ds rs : List ℕ)
    → digits_value base ds (little_value base rs) ≡ little_value base (reverse_aux ds rs)
unfolding digits_value little_value
little_value-reverse base [] rs = refl
little_value-reverse base (d ∷ ds) rs =
    ap (digits_value base ds) (omega arith) ∙ little_value-reverse base ds (d ∷ rs)

little_value-le : (rs : List ℕ) → little_value 8 rs ≤ little_value 10 rs
unfolding little_value
little_value-le [] = omega arith
little_value-le (r ∷ rs) = omega (arith, little_value-le rs)

AllBelow-reverse :
    (n : ℕ) (ds rs : List ℕ) → AllBelow n ds → AllBelow n rs → AllBelow n (reverse_aux ds rs)
AllBelow-reverse n [] rs h k = k
AllBelow-reverse n (d ∷ ds) rs (lt, h) k = AllBelow-reverse n ds (d ∷ rs) h (lt, k)

AllBelow-ten : (ds : List ℕ) → AllBelow 8 ds → AllBelow 10 ds
AllBelow-ten [] h = tt
AllBelow-ten (d ∷ ds) (lt, h) = (omega arith, AllBelow-ten ds h)

octal_digit_lem :
    (res digit i : ℕ) → octal_digit false res digit i ≡ (res + digit * 8 ^ i) % word_mod
unfolding octal_digit
octal_digit_lem res digit i = rw power-pow (
    add-mod-mod res (digit * (8 ^ i % word_mod)) word_mod
    ∙ sym (add-mod-mod res (digit * (8 ^ i % word_mod)) word_mod)
    ∙ ap (λ (k : ℕ). (res + k) % word_mod) (mod-mul_right digit (8 ^ i) word_mod)
    ∙ add-mod-mod res (digit * 8 ^ i) word_mod)

octal_loop_more :
    (fuel n res i : ℕ) (neg : Bool)
    → n ≢ 0
    → octal_loop (suc fuel) neg n res i
      ≡ octal_loop fuel neg (n / 10) (octal_digit neg res (n % 10) i) (i + 1)
unfolding octal_loop
octal_loop_more fuel n res i neg nz = let more : (n == 0) ≡ false = ground arith in rw more

octal_loop_done :
    (fuel n res i : ℕ) (neg : Bool) → n ≡ 0 → octal_loop (suc fuel) neg n res i ≡ some res
unfolding octal_loop
octal_loop_done fuel n res i neg z = rw z

-- Adding the digits one by one, each at its weight, wraps as the whole sum does.
octal_sum :
    (res r v i : ℕ)
    → ((res + r * 8 ^ i) % word_mod + v * 8 ^ (i + 1)) % word_mod
      ≡ (res + (r + 8 * v) * 8 ^ i) % word_mod
octal_sum res r v i =
    mod-add-mod (res + r * 8 ^ i) word_mod (v * 8 ^ (i + 1))
    ∙ ap (λ (k : ℕ). k % word_mod)
        (let e : i + 1 ≡ suc i = omega arith in
          rw e (omega (arith, ap (λ (k : ℕ). v * k) (pow-suc 8 i))))

octal_loop-little_value :
    (fuel : ℕ) (rs : List ℕ) (res i : ℕ)
    → AllBelow 10 rs
    → little_value 10 rs < 10 ^ fuel
    → res < word_mod
    → octal_loop (suc fuel) false (little_value 10 rs) res i
      ≡ some ((res + little_value 8 rs * 8 ^ i) % word_mod)
unfolding little_value
octal_loop-little_value fuel [] res i below enough fits =
    octal_loop_done fuel 0 res i false refl ∙ ap some (omega arith)
octal_loop-little_value zero (r ∷ rs) res i below enough fits =
    let z : r + 10 * little_value 10 rs ≡ 0 = omega (arith, pow.zero 10) in
    let z' : r + 8 * little_value 8 rs ≡ 0 = omega (arith, little_value-le rs) in
    octal_loop_done 0 _ res i false z ∙ ap some (rw z' (omega arith))
octal_loop-little_value (suc fuel) (r ∷ rs) res i (lt, below) enough fits =
    elim (ℕ_discrete (r + 10 * little_value 10 rs) 0) [
      | yes z ↦
          let z' : r + 8 * little_value 8 rs ≡ 0 = omega (arith, little_value-le rs) in
          octal_loop_done (suc fuel) _ res i false z ∙ ap some (rw z' (omega arith))
      | no nz ↦
          let tens : (r + 10 * little_value 10 rs) / 10 ≡ little_value 10 rs = omega arith in
          let ones : (r + 10 * little_value 10 rs) % 10 ≡ r = omega arith in
          octal_loop_more (suc fuel) _ res i false nz
          ∙ rw (tens, ones, octal_digit_lem)
              (octal_loop-little_value fuel rs ((res + r * 8 ^ i) % word_mod) (i + 1) below
                  (omega (arith, pow-suc 10 fuel)) (omega arith)
                ∙ ap some (octal_sum res r (little_value 8 rs) i))
    ]

-- The size field of an archive header: `octal_to_decimal(atoi(text))` is the value of the
-- octal digits of the text, where their decimal reading fits an `int`.
pub octal_to_decimal-atoi :
    (fuel : ℕ) (m : Memory) (p : ℕ) (ds : List ℕ)
    → IsText m p (digit_bytes ds)
    → AllBelow 8 ds
    → length ds < fuel
    → digits_value 10 ds 0 < 2 ^ 31
    → Option.bind (atoi fuel m p) octal_to_decimal ≡ some (digits_value 8 ds 0)
unfolding octal_to_decimal Option.bind little_value
octal_to_decimal-atoi fuel m p ds text below enough fits =
    let rs = reverse_aux ds [] in
    let tens : digits_value 10 ds 0 ≡ little_value 10 rs = little_value-reverse 10 ds [] in
    let eights : digits_value 8 ds 0 ≡ little_value 8 rs = little_value-reverse 8 ds [] in
    let small : ltb (digits_value 10 ds 0) (2 ^ 31) ≡ true = ground arith in
    let total =
      octal_loop-little_value 10 rs 0 0 (AllBelow-reverse 10 ds [] (AllBelow-ten ds below) tt)
        (omega arith) (omega arith) in
    let sum : (0 + little_value 8 rs * 8 ^ 0) % word_mod ≡ digits_value 8 ds 0 =
      omega (arith, little_value-le rs, pow.zero 8) in
    rw (atoi-digits_value fuel m p ds text (AllBelow-ten ds below) enough fits, small, tens)
      (total ∙ ap some sum)
