-- ===== src/Elf/Stack/Words.antt =====
-- Words pushed on a stack (`setup_stack` of w2/sys/process/elf.c).
use sbrocks.Prelude.{
  ℕ, zero, suc, ◌+◌, ◌-◌, ◌*◌, ◌^◌, ◌<◌, ◌≤◌, ◌≡◌, refl, sym, subst, ◌∙◌, ap, arith, List, [], ◌∷◌,
  length, inr, ◌⊎◌,
}
use sbrocks.Kstring.{Memory}
use sbrocks.Kstring.Words.{store_bytes, load_bytes, store_bytes-Outside, load_bytes-store_bytes}
use sbrocks.Elf.{push_words, reverse_onto, reversed}

-- The 64-bit words that stand from `p` on.
unfoldable pub HoldsWords : Memory → ℕ → List ℕ → Type 0
HoldsWords m p [] = Unit {0}
HoldsWords m p (v ∷ vs) = (load_bytes 8 m p ≡ v) × HoldsWords m (p + 8) vs

unfoldable pub Below : ℕ → List ℕ → Type 0
Below limit [] = Unit {0}
Below limit (v ∷ vs) = (v < limit) × Below limit vs

-- Outside the area from `low` to `high` the memory is the same.
abbrev pub Same : (low high : ℕ) → Memory → Memory → Type 0
Same low high m m' = (a : ℕ) → (a < low) ⊎ (high ≤ a) → m' a ≡ m a

reversed_onto {ℓ} :
    {A : Type ℓ} (xs ys zs : List A)
    → reverse_onto (reverse_onto xs ys) zs ≡ reverse_onto ys (reverse_onto (reverse_onto xs []) zs)
unfolding reverse_onto
reversed_onto [] ys zs = refl
reversed_onto (x ∷ xs) ys zs =
    reversed_onto xs (x ∷ ys) zs ∙ sym (ap (reverse_onto ys) (reversed_onto xs (x ∷ []) zs))

pub reversed-reversed {ℓ} : {A : Type ℓ} (xs : List A) → reversed (reversed xs) ≡ xs
unfolding reverse_onto
reversed-reversed [] = refl
reversed-reversed (x ∷ xs) = reversed_onto xs (x ∷ []) [] ∙ ap (λ ys. x ∷ ys) (reversed-reversed xs)

pub length-reverse_onto : (xs ys : List ℕ) → length (reverse_onto xs ys) ≡ length xs + length ys
unfolding reverse_onto
length-reverse_onto [] ys = omega arith
length-reverse_onto (x ∷ xs) ys = length-reverse_onto xs (x ∷ ys) ∙ omega arith

Below-reverse_onto :
    (limit : ℕ) (xs ys : List ℕ)
    → Below limit xs
    → Below limit ys
    → Below limit (reverse_onto xs ys)
unfolding Below reverse_onto
Below-reverse_onto limit [] ys b c = c
Below-reverse_onto limit (x ∷ xs) ys b c = Below-reverse_onto limit xs (x ∷ ys) b.1 (b.0, c)

pub load_bytes-same :
    (n : ℕ) (m m' : Memory) (p : ℕ)
    → ((a : ℕ) → p ≤ a → a < p + n → m' a ≡ m a)
    → load_bytes n m' p ≡ load_bytes n m p
unfolding load_bytes
load_bytes-same zero m m' p same = refl
load_bytes-same (suc n) m m' p same =
    let rest = load_bytes-same n m m' (p + 1) (λ a lo hi. same a (omega arith) (omega arith)) in
    rw (same p (omega arith) (omega arith), rest) refl

pub HoldsWords-Same :
    (low high : ℕ) (m m' : Memory) (p : ℕ) (vs : List ℕ)
    → high ≤ p
    → Same low high m m'
    → HoldsWords m p vs
    → HoldsWords m' p vs
unfolding HoldsWords
HoldsWords-Same low high m m' p [] above same h = tt
HoldsWords-Same low high m m' p (v ∷ vs) above same h = (
  load_bytes-same 8 m m' p (λ a lo hi. same a (inr (omega arith))) ∙ h.0,
  HoldsWords-Same low high m m' (p + 8) vs (omega arith) same h.1,
)

push_words-HoldsWords :
    (low sp : ℕ) (vs us : List ℕ) (m : Memory)
    → Below (256 ^ 8) vs
    → HoldsWords m sp us
    → low + 8 * length vs ≤ sp
    → (sp' : ℕ) × (m' : Memory) × (push_words vs sp m ≡ (sp', m'))
      × (sp' + 8 * length vs ≡ sp)
      × HoldsWords m' sp' (reverse_onto vs us)
      × Same low sp m m'
unfolding push_words HoldsWords Below reverse_onto
push_words-HoldsWords low sp [] us m b h room = (sp, m, refl, omega arith, h, λ a out. refl)
push_words-HoldsWords low sp (v ∷ vs) us m b h room =
    let m1 = store_bytes 8 m (sp - 8) v in
    let same1 : Same low sp m m1 = λ a out. store_bytes-Outside 8 m (sp - 8) v a (ground arith) in
    let e : sp - 8 + 8 ≡ sp = omega arith in
    let held : HoldsWords m1 (sp - 8 + 8) us =
      rw e (HoldsWords-Same low sp m m1 sp us (omega arith) same1 h) in
    let (sp', m', run, low', held', same') =
      push_words-HoldsWords low (sp - 8) vs (v ∷ us) m1 b.1
        (load_bytes-store_bytes 8 m (sp - 8) v b.0, held) (omega arith) in
    (sp', m', run, omega arith, held', λ a out. same' a (ground arith) ∙ same1 a out)

pub push_reversed :
    (low sp : ℕ) (vs : List ℕ) (m : Memory)
    → Below (256 ^ 8) vs
    → low + 8 * length vs ≤ sp
    → (sp' : ℕ) × (m' : Memory) × (push_words (reversed vs) sp m ≡ (sp', m'))
      × (sp' + 8 * length vs ≡ sp)
      × HoldsWords m' sp' vs
      × Same low sp m m'
unfolding HoldsWords Below
push_reversed low sp vs m b room =
    let l : length (reversed vs) ≡ length vs = length-reverse_onto vs [] ∙ omega arith in
    let (sp', m', run, low', held, same) =
      push_words-HoldsWords low sp (reversed vs) [] m (Below-reverse_onto (256 ^ 8) vs [] b tt) tt
        (omega arith) in
    (sp', m', run, omega arith, subst (HoldsWords m' sp') (reversed-reversed vs) held, same)
