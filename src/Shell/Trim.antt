-- ===== src/Shell/Trim.antt =====
-- `trim` of the shell against the list without its outer blanks.
use sbrocks.Prelude.{
  ℕ, zero, suc, ◌+◌, ◌-◌, ◌<◌, ◌≤◌, ◌≡◌, refl, ap, subst, ◌∙◌, true, false, some, List, [], ◌∷◌,
  ◌==◌, if◌then◌else◌, length, arith, Bool-cases, inl, inr,
}
use sbrocks.Kstring.{Memory, store, kstrcpy}
use sbrocks.Kstring.Text.{IsText, kstrcpy_lem}
use sbrocks.Elf.{reverse_onto, reversed}
use sbrocks.Elf.Stack.Words.{length-reverse_onto}
use sbrocks.Libc.{strcpy}
use sbrocks.Libc.Search.{strlen-length}
use sbrocks.Shell.Held.{Holds, Holds-store, Holds-IsText, IsText-Holds}
use sbrocks.Shell.{is_space, skip_space, cut_space, trim}

unfoldable pub trim_start : List ℕ → List ℕ
trim_start [] = []
trim_start (c ∷ cs) = let rest = trim_start cs in if is_space c then rest else c ∷ cs

-- The characters without the blanks in front and behind.
abbrev pub trimmed : List ℕ → List ℕ
trimmed cs = reversed (trim_start (reversed (trim_start cs)))

length-trim_start : (cs : List ℕ) → length (trim_start cs) ≤ length cs
unfolding trim_start
length-trim_start [] = omega arith
length-trim_start (c ∷ cs) = elim (Bool-cases (is_space c)) [
  | inl e ↦ rw e (omega (arith, length-trim_start cs))
  | inr e ↦ rw e (omega arith)
]

-- The first character is no blank, where there is one.
abbrev StartsSolid : List ℕ → Type 0
StartsSolid [] = Unit
StartsSolid (c ∷ cs) = is_space c ≡ false

trim_start-StartsSolid : (cs : List ℕ) → StartsSolid (trim_start cs)
unfolding trim_start
trim_start-StartsSolid [] = tt
trim_start-StartsSolid (c ∷ cs) = elim (Bool-cases (is_space c)) [
  | inl e ↦ rw e (trim_start-StartsSolid cs)
  | inr e ↦ rw e e
]

is_space-zero : is_space 0 ≡ false
unfolding is_space
is_space-zero = refl

skip_space-trim_start :
    (fuel : ℕ) (m : Memory) (p : ℕ) (cs : List ℕ)
    → IsText m p cs
    → length cs < fuel
    → (src : ℕ) × (skip_space fuel m p ≡ some src) × (p ≤ src) × IsText m src (trim_start cs)
unfolding skip_space trim_start
skip_space-trim_start zero m p cs t l = elim l [ ]
skip_space-trim_start (suc fuel) m p [] t l = (p, rw (t, is_space-zero) refl, omega arith, t)
skip_space-trim_start (suc fuel) m p (c ∷ cs) (at, nz, t) l = elim (Bool-cases (is_space c)) [
  | inl e ↦
      let (src, ran, le, text) = skip_space-trim_start fuel m (p + 1) cs t (omega arith) in
      (src, rw (at, e) ran, omega arith, rw e text)
  | inr e ↦ (p, rw (at, e) refl, omega arith, rw e (at, nz, t))
]

-- The last of the characters, in their reverse order, is no blank.
abbrev EndsSolid : List ℕ → Type 0
EndsSolid [] = ⊥
EndsSolid (z ∷ []) = is_space z ≡ false
EndsSolid (z ∷ y ∷ acc) = EndsSolid (y ∷ acc)

EndsSolid-reverse_onto : (cs acc : List ℕ) → EndsSolid acc → EndsSolid (reverse_onto cs acc)
unfolding reverse_onto
EndsSolid-reverse_onto [] acc h = h
EndsSolid-reverse_onto (c ∷ cs) [] h = elim h [ ]
EndsSolid-reverse_onto (c ∷ cs) (z ∷ acc) h = EndsSolid-reverse_onto cs (c ∷ z ∷ acc) h

cut_space-blank :
    (n : ℕ) (m : Memory) (src z : ℕ)
    → m (src + suc n) ≡ z
    → is_space z ≡ true
    → cut_space (suc n) m src ≡ cut_space n (store m (src + suc n) 0) src
unfolding cut_space
cut_space-blank n m src z at e = rw (at, e) refl

cut_space-solid :
    (n : ℕ) (m : Memory) (src z : ℕ)
    → m (src + suc n) ≡ z
    → is_space z ≡ false
    → cut_space (suc n) m src ≡ m
unfolding cut_space
cut_space-solid n m src z at e = rw (at, e) refl

trim_start-blank :
    (z : ℕ) (acc : List ℕ) → is_space z ≡ true → trim_start (z ∷ acc) ≡ trim_start acc
unfolding trim_start
trim_start-blank z acc e = rw e refl

trim_start-solid : (z : ℕ) (acc : List ℕ) → is_space z ≡ false → trim_start (z ∷ acc) ≡ z ∷ acc
unfolding trim_start
trim_start-solid z acc e = rw e refl

cut_space-trim_start :
    (m : Memory) (src : ℕ) (acc : List ℕ)
    → Holds m src acc
    → m (src + length acc) ≡ 0
    → EndsSolid acc
    → IsText (cut_space (length acc - 1) m src) src (reversed (trim_start acc))
unfolding cut_space
cut_space-trim_start m src [] h z e = elim e [ ]
cut_space-trim_start m src (c ∷ []) h z e =
    rw (trim_start-solid c [] e) (Holds-IsText m src (c ∷ []) [] h z)
cut_space-trim_start m src (c ∷ b ∷ acc) (at, nz, h) z e =
    let now : length (c ∷ b ∷ acc) - 1 ≡ suc (length acc) = omega arith in
    let later : length (b ∷ acc) - 1 ≡ length acc = omega arith in
    elim (Bool-cases (is_space c)) [
      | inl s ↦
          let m' = store m (src + suc (length acc)) 0 in
          let rest =
            cut_space-trim_start m' src (b ∷ acc)
              (Holds-store m src (suc (length acc)) 0 (b ∷ acc) (omega arith) h) (ground arith) e in
          rw (trim_start-blank c (b ∷ acc) s, now, cut_space-blank (length acc) m src c at s)
            (subst (λ n. IsText (cut_space n m' src) src (reversed (trim_start (b ∷ acc)))) later
              rest)
      | inr s ↦
          rw (trim_start-solid c (b ∷ acc) s, now, cut_space-solid (length acc) m src c at s)
            (Holds-IsText m src (c ∷ b ∷ acc) [] (at, nz, h) z)
    ]

strcpy-kstrcpy :
    (fuel : ℕ) (m : Memory) (dest src : ℕ) → strcpy fuel m dest src ≡ kstrcpy fuel m dest src
unfolding strcpy kstrcpy
strcpy-kstrcpy zero m dest src = refl
strcpy-kstrcpy (suc fuel) m dest src =
    ap (λ r. if m src == 0 then some (store m dest (m src)) else r)
      (strcpy-kstrcpy fuel (store m dest (m src)) (dest + 1) (src + 1))

cut_space-trimmed :
    (m : Memory) (src : ℕ) (cs : List ℕ)
    → StartsSolid cs
    → IsText m src cs
    → IsText (cut_space (length cs - 1) m src) src (reversed (trim_start (reversed cs)))
unfolding cut_space reverse_onto trim_start
cut_space-trimmed m src [] s t = t
cut_space-trimmed m src (c ∷ cs) s (at, nz, t) =
    let at0 : m (src + 0) ≡ c = let e : src + 0 ≡ src = omega arith in rw e at in
    let acc = reverse_onto cs (c ∷ []) in
    let (h, z) = IsText-Holds m src (c ∷ []) cs (at0, nz, tt) t in
    let n : length acc - 1 ≡ suc (length cs) - 1 = omega (arith, length-reverse_onto cs (c ∷ [])) in
    subst (λ n. IsText (cut_space n m src) src (reversed (trim_start acc))) n
      (cut_space-trim_start m src acc h z (EndsSolid-reverse_onto cs (c ∷ []) s))

move_down :
    (fuel : ℕ) (m : Memory) (src input : ℕ) (cs : List ℕ)
    → IsText m src cs
    → input ≤ src
    → length cs < fuel
    → (m' : Memory) × ((if src == input then some m else strcpy fuel m input src) ≡ some m')
      × IsText m' input cs
move_down fuel m src input cs t le l = elim (Bool-cases (src == input)) [
  | inl e ↦
      let same : src ≡ input = ground arith in (m, rw e refl, subst (λ p. IsText m p cs) same t)
  | inr e ↦
      let (m', done, there, outside) = kstrcpy_lem fuel m input src cs t (inl le) l in
      (m', rw e (strcpy-kstrcpy fuel m input src ∙ done), there)
]

-- `trim` ends and leaves the text without its blanks in front and behind, in the same place. Fuel
-- above the length of the text is enough.
pub trim-trimmed :
    (fuel : ℕ) (m : Memory) (input : ℕ) (cs : List ℕ)
    → IsText m input cs
    → length cs < fuel
    → (m' : Memory) × (trim fuel m input ≡ some m') × IsText m' input (trimmed cs)
unfolding trim
trim-trimmed fuel m input cs t l =
    let (src, ran, le, text) = skip_space-trim_start fuel m input cs t l in
    let short = length-trim_start cs in
    let len = strlen-length fuel m src (trim_start cs) text (omega arith) in
    let cut = cut_space-trimmed m src (trim_start cs) (trim_start-StartsSolid cs) text in
    let kept = length-trim_start (reversed (trim_start cs)) in
    let (m', done, there) =
      move_down fuel (cut_space (length (trim_start cs) - 1) m src) src input (trimmed cs) cut le (
        omega (
          arith,
          kept,
          length-reverse_onto (trim_start cs) [],
          length-reverse_onto (trim_start (reversed (trim_start cs))) [],
        )) in
    (m', rw (ran, len) done, there)
