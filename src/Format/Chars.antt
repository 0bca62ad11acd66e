-- ===== src/Format/Chars.antt =====
-- The characters that `number` of w2/sys/kprintf.c prints as digits.
use sbrocks.Prelude.{
  ℕ, zero, suc, ◌+◌, ◌-◌, ◌/◌, ◌%◌, ◌≤◌, ◌<◌, ◌≡◌, refl, sym, ◌∙◌, ap, subst, Bool, true, false,
  Option, none, some, List, [], ◌∷◌, ◌++◌, ltb, ◌==◌, if◌then◌else◌, ◌&&◌, replicate, arith,
  Bool-cases, inl, inr,
}
use mathlib.Core.Option.{some-injective}
use native.Mathlib.Nat.{mod-lt}
use sbrocks.Format.{digit, digits_onto}
use sbrocks.Format.Digits.{==-eq, ==-below, &&-true}

-- The character for a digit: 0 to 9, and then letters of one case.
abbrev pub digit_char : (small : Bool) → (d : ℕ) → ℕ
digit_char small d = if ltb d 10 then b'0' + d else (if small then b'a' else b'A') + (d - 10)

abbrev pub IsDigit : (base : ℕ) → (small : Bool) → ℕ → Type 0
IsDigit base small c = (d : ℕ) × (d < base) × (c ≡ digit_char small d)

abbrev pub AllDigits : (base : ℕ) → (small : Bool) → List ℕ → Type 0
AllDigits base small [] = Unit {0}
AllDigits base small (c ∷ cs) = IsDigit base small c × AllDigits base small cs

abbrev locase : Bool → ℕ
locase small = if small then 32 else 0

abbrev chars_right : (small : Bool) → (d : ℕ) → Bool
chars_right small zero = true
chars_right small (suc d) = (digit d (locase small) == digit_char small d) && chars_right small d

chars_right-below :
    (small : Bool) (n d : ℕ)
    → chars_right small n ≡ true
    → d < n
    → digit d (locase small) ≡ digit_char small d
chars_right-below small zero d h l = elim l [ ]
chars_right-below small (suc n) d h l =
    let (here, below) =
      &&-true (digit n (locase small) == digit_char small n) (chars_right small n) h in
    elim (Bool-cases (d == n)) [
      | inl e ↦
          let q = ==-eq d n e in
          ap (λ k. digit k (locase small)) q
          ∙ ==-eq (digit n (locase small)) (digit_char small n) here
          ∙ ap (digit_char small) (sym q)
      | inr e ↦ chars_right-below small n d below (==-below d n l e)
    ]

all_chars : (small : Bool) → chars_right small 16 ≡ true
unfolding digit
all_chars true = refl
all_chars false = refl

digit-IsDigit :
    (base d : ℕ) (small : Bool) → d < base → base ≤ 16 → IsDigit base small (digit d (locase small))
digit-IsDigit base d small l sixteen =
    (d, l, chars_right-below small 16 d (all_chars small) (omega arith))

pub zeros-AllDigits :
    (base k : ℕ) (small : Bool) (ds : List ℕ)
    → 0 < base
    → AllDigits base small ds
    → AllDigits base small (replicate k 48 ++ ds)
zeros-AllDigits base zero small ds p all = all
zeros-AllDigits base (suc k) small ds p all = ((0, p, refl), zeros-AllDigits base k small ds p all)

-- The loop over the digits only puts digits in front.
pub digits_onto-AllDigits :
    (base room num : ℕ) (small : Bool) (tmp ds : List ℕ)
    → 0 < base
    → base ≤ 16
    → AllDigits base small tmp
    → digits_onto room num base (locase small) tmp ≡ some ds
    → AllDigits base small ds
unfolding digits_onto
digits_onto-AllDigits base zero num small tmp ds p sixteen all run = elim (Bool-cases (num == 0)) [
  | inl e ↦ subst (AllDigits base small) (some-injective tmp ds (rw e at run)) all
  | inr e ↦ absurd (none_some (rw e at run))
]
  where
    none_some : ◌≡◌ {A = Option (List ℕ)} none (some ds) → ⊥
    none_some h = cc
digits_onto-AllDigits base (suc room) num small tmp ds p sixteen all run =
    elim (Bool-cases (num == 0)) [
      | inl e ↦
          subst (AllDigits base small) (some-injective tmp ds (rw (digits_onto, e) at run)) all
      | inr e ↦
          digits_onto-AllDigits base room (num / base) small
            (digit (num % base) (locase small) ∷ tmp) ds p sixteen
            (
              digit-IsDigit base (num % base) small (mod-lt num {m = base} (omega arith)) sixteen,
              all,
            )
            (rw (digits_onto, e) at run)
    ]
