-- ===== src/Format/Digits.antt =====
-- The digits of a number: the loop over `num`, and the number they stand for.
use sbrocks.Prelude.{
  ℕ, zero, suc, ◌+◌, ◌-◌, ◌*◌, ◌/◌, ◌%◌, ◌^◌, ◌≤◌, ◌<◌, ◌≡◌, refl, ap, ◌∙◌, sym, Bool, true, false,
  some, List, [], ◌∷◌, ltb, ◌==◌, if◌then◌else◌, ◌&&◌, length, arith, ◌⊎◌, inl, inr, ltb→lt,
  Bool-cases,
}
use native.Mathlib.Nat.{pow-suc, pow-zero, mul-le-mul_left, mul_comm, div-add-mod, mod-lt}
use sbrocks.Format.{digit, digits_onto}

-- The value of a digit, of either case.
abbrev pub digit_value : (c : ℕ) → ℕ
digit_value c = if ltb c 58 then c - 48 else if ltb c 97 then c - 55 else c - 87

-- The number that a text of digits stands for, behind digits that stand for `acc`.
abbrev pub value : (base acc : ℕ) → (ds : List ℕ) → ℕ
value base acc [] = acc
value base acc (c ∷ ds) = value base (acc * base + digit_value c) ds

abbrev digits_right : (locase d : ℕ) → Bool
digits_right locase zero = true
digits_right locase (suc d) = (digit_value (digit d locase) == d) && digits_right locase d

pub &&-true : (a b : Bool) → (a && b) ≡ true → (a ≡ true) × (b ≡ true)
&&-true true true h = (refl, refl)
&&-true true false h = (refl, h)
&&-true false b h = cc

pub ==-eq : (a b : ℕ) → (a == b) ≡ true → a ≡ b
==-eq a b h = ground arith

pub ==-below : (d n : ℕ) → d < suc n → (d == n) ≡ false → d < n
==-below d n l h = ground arith

digits_right-below :
    (locase n d : ℕ) → digits_right locase n ≡ true → d < n → digit_value (digit d locase) ≡ d
digits_right-below locase zero d h l = elim l [ ]
digits_right-below locase (suc n) d h l =
    let (here, below) = &&-true (digit_value (digit n locase) == n) (digits_right locase n) h in
    elim (Bool-cases (d == n)) [
      | inl e ↦
          let q = ==-eq d n e in
          ap (λ k. digit_value (digit k locase)) q
          ∙ ==-eq (digit_value (digit n locase)) n here
          ∙ sym q
      | inr e ↦ digits_right-below locase n d below (==-below d n l e)
    ]

digits-upper : digits_right 0 16 ≡ true
unfolding digit
digits-upper = refl

digits-lower : digits_right 32 16 ≡ true
unfolding digit
digits-lower = refl

-- Each digit below 16 stands for itself, with or without the bit of lower case.
pub digit_value-digit :
    (d locase : ℕ) → d < 16 → (locase ≡ 0) ⊎ (locase ≡ 32) → digit_value (digit d locase) ≡ d
digit_value-digit d locase h (inl e) =
    ap (λ k. digit_value (digit d k)) e ∙ digits_right-below 0 16 d digits-upper h
digit_value-digit d locase h (inr e) =
    ap (λ k. digit_value (digit d k)) e ∙ digits_right-below 32 16 d digits-lower h

ltb-false : (a b : ℕ) → ltb a b ≡ false → b ≤ a
ltb-false a b h = ground arith

div-lt : (a b c : ℕ) → 0 < b → a < b * c → a / b < c
div-lt a b c p h = elim (Bool-cases (ltb (a / b) c)) [
  | inl e ↦ ltb→lt (a / b) c e
  | inr e ↦ omega (arith, div-add-mod a b, mul-le-mul_left b (ltb-false (a / b) c e))
]

digits_onto-zero : (base locase : ℕ) (tmp : List ℕ) → digits_onto 0 0 base locase tmp ≡ some tmp
unfolding digits_onto
digits_onto-zero base locase tmp = refl

zero_num : (num : ℕ) → num < 1 → num ≡ 0
zero_num num h = omega arith

module _ (base locase : ℕ) (two : 2 ≤ base) (sixteen : base ≤ 16)
    (small : (locase ≡ 0) ⊎ (locase ≡ 32)) where
  value-last : (num : ℕ) → num / base * base + digit_value (digit (num % base) locase) ≡ num
  value-last num =
      ap (λ (k : ℕ). num / base * base + k)
        (digit_value-digit (num % base) locase (omega (arith, mod-lt num {m = base} (omega arith)))
          small)
      ∙ ap (λ (k : ℕ). k + num % base) (mul_comm (num / base) base)
      ∙ div-add-mod num base

  -- The loop over the digits ends within `room` bytes for a number below the power `base ^ room`, and
  -- the digits that it puts in front of `tmp` stand for the number. The base is from 2 to 16.
  pub value-digits_onto :
      (room num : ℕ) (tmp : List ℕ)
      → num < base ^ room
      → (ds : List ℕ) × (digits_onto room num base locase tmp ≡ some ds)
        × (value base 0 ds ≡ value base num tmp)
        × (length ds ≤ room + length tmp)
  unfolding digits_onto
  value-digits_onto zero num tmp h = (
    tmp,
    ap (λ k. digits_onto 0 k base locase tmp) (zero_num num (omega (arith, pow-zero base)))
        ∙ digits_onto-zero base locase tmp,
    ap (λ (k : ℕ). value base k tmp) (sym (zero_num num (omega (arith, pow-zero base)))),
    omega arith,
  )
  value-digits_onto (suc room) num tmp h = elim (Bool-cases (num == 0)) [
    | inl e ↦ (
      tmp,
      rw (digits_onto, e) refl,
      ap (λ (k : ℕ). value base k tmp) (sym (==-eq num 0 e)),
      omega arith,
    )
    | inr e ↦
        let (ds, ran, same, fits) =
          value-digits_onto room (num / base) (digit (num % base) locase ∷ tmp) (
            div-lt num base (base ^ room) (omega arith)
              (omega (arith, pow-suc base room, mul_comm (base ^ room) base))) in
        (
          ds,
          rw (digits_onto, e) ran,
          same ∙ ap (λ (k : ℕ). value base k tmp) (value-last num),
          omega arith,
        )
  ]
