-- ===== src/Elf/Stack/Layout.antt =====
-- What `setup_stack` of w2/sys/process/elf.c leaves for a new program.
use sbrocks.Prelude.{
  ℕ, suc, ◌+◌, ◌-◌, ◌*◌, ◌^◌, ◌<◌, ◌≤◌, ◌≡◌, refl, subst, ◌∙◌, ap, arith, ◌==◌, if◌then◌else◌, some,
  List, [], ◌∷◌, length, Bool-cases, inl, inr,
}
use sbrocks.Kstring.{Memory}
use sbrocks.Elf.{push_texts, push_words, reverse_onto, reversed, stack_words}
use sbrocks.Elf.Stack.{Texts, Texts-Same, AllOff, AllOff-narrow, total, push_texts-Texts}
use sbrocks.Elf.Stack.Words.{
  HoldsWords, HoldsWords-Same, Below, Same, reversed-reversed, push_reversed,
}

Texts-reverse_onto :
    (m : Memory) (ps qs : List ℕ) (ts us : List (List ℕ))
    → Texts m ps ts
    → Texts m qs us
    → Texts m (reverse_onto ps qs) (reverse_onto ts us)
unfolding Texts reverse_onto
Texts-reverse_onto m [] qs [] us h k = k
Texts-reverse_onto m [] qs (t ∷ ts) us h k = absurd h
Texts-reverse_onto m (p ∷ ps) qs [] us h k = absurd h
Texts-reverse_onto m (p ∷ ps) qs (t ∷ ts) us h k =
    Texts-reverse_onto m ps (p ∷ qs) ts (t ∷ us) h.1 (h.0, k)

AllOff-reverse_onto :
    (low high : ℕ) (m : Memory) (ps qs : List ℕ) (ts us : List (List ℕ))
    → Texts m ps ts
    → AllOff low high ps ts
    → AllOff low high qs us
    → AllOff low high (reverse_onto ps qs) (reverse_onto ts us)
unfolding Texts AllOff reverse_onto
AllOff-reverse_onto low high m [] qs [] us h off k = k
AllOff-reverse_onto low high m [] qs (t ∷ ts) us h off k = absurd h
AllOff-reverse_onto low high m (p ∷ ps) qs [] us h off k = absurd h
AllOff-reverse_onto low high m (p ∷ ps) qs (t ∷ ts) us h off k =
    AllOff-reverse_onto low high m ps (p ∷ qs) ts (t ∷ us) h.1 off.1 (off.0, k)

total-reverse_onto : (ts us : List (List ℕ)) → total (reverse_onto ts us) ≡ total ts + total us
unfolding total reverse_onto
total-reverse_onto [] us = omega arith
total-reverse_onto (t ∷ ts) us = total-reverse_onto ts (t ∷ us) ∙ omega arith

Texts-length :
    (m : Memory) (ps : List ℕ) (ts : List (List ℕ)) → Texts m ps ts → length ps ≤ total ts
unfolding Texts total
Texts-length m [] [] h = omega arith
Texts-length m [] (t ∷ ts) h = absurd h
Texts-length m (p ∷ ps) [] h = absurd h
Texts-length m (p ∷ ps) (t ∷ ts) h = let r = Texts-length m ps ts h.1 in omega arith

Texts-lengths :
    (m m' : Memory) (ps qs : List ℕ) (ts : List (List ℕ))
    → Texts m ps ts
    → Texts m' qs ts
    → length ps ≡ length qs
unfolding Texts
Texts-lengths m m' [] [] ts h k = refl
Texts-lengths m m' (p ∷ ps) [] [] h k = absurd h
Texts-lengths m m' (p ∷ ps) [] (t ∷ ts) h k = absurd k
Texts-lengths m m' [] (q ∷ qs) [] h k = absurd k
Texts-lengths m m' [] (q ∷ qs) (t ∷ ts) h k = absurd h
Texts-lengths m m' (p ∷ ps) (q ∷ qs) [] h k = absurd h
Texts-lengths m m' (p ∷ ps) (q ∷ qs) (t ∷ ts) h k =
    ap (λ n. suc n) (Texts-lengths m m' ps qs ts h.1 k.1)

-- The texts of a list of pointers, copied below `sp` with the first one lowest.
push_texts-reversed :
    (fuel low limit sp : ℕ) (ps : List ℕ) (ts : List (List ℕ)) (m : Memory)
    → Texts m ps ts
    → AllOff low sp ps ts
    → sp ≤ limit
    → low + total ts ≤ sp
    → total ts ≤ fuel
    → (addrs : List ℕ) × (sp' : ℕ) × (m' : Memory) × (push_texts fuel (reversed ps) [] sp m
        ≡ some (addrs, sp', m'))
      × (sp' + total ts ≡ sp)
      × Texts m' addrs ts
      × AllOff low sp' addrs ts
      × Below limit addrs
      × Same low sp m m'
unfolding Texts AllOff Below total
push_texts-reversed fuel low limit sp ps ts m h off top room enough =
    let n : total (reversed ts) ≡ total ts = total-reverse_onto ts [] ∙ omega arith in
    let (addrs, sp', m', run, low', held, held_off, below, same) =
      push_texts-Texts fuel low limit sp (reversed ps) [] (reversed ts) [] m
        (Texts-reverse_onto m ps [] ts [] h tt) (AllOff-reverse_onto low sp m ps [] ts [] h off tt)
        tt tt tt top (omega arith) (omega arith) in
    (
      addrs,
      sp',
      m',
      run,
      omega arith,
      subst (Texts m' addrs) (reversed-reversed ts) held,
      subst (AllOff low sp' addrs) (reversed-reversed ts) held_off,
      below,
      same,
    )

-- The addresses of the environment, those of the arguments and a number, with a gap of `g` bytes behind the first.
words_layout :
    (low sp g n : ℕ) (args envs : List ℕ) (m : Memory)
    → Below (256 ^ 8) args
    → Below (256 ^ 8) envs
    → n < 256 ^ 8
    → low + g + 8 + 8 * length args + 8 * length envs ≤ sp
    → (sp4 : ℕ) × (m4 : Memory) × (sp6 : ℕ) × (m6 : Memory) × (sp7 : ℕ) × (m7 : Memory)
      × (push_words (reversed envs) sp m ≡ (sp4, m4))
      × (push_words (reversed args) (sp4 - g) m4 ≡ (sp6, m6))
      × (push_words (n ∷ []) sp6 m6 ≡ (sp7, m7))
      × (low ≤ sp7)
      × HoldsWords m7 sp7 (n ∷ args)
      × HoldsWords m7 (sp7 + 8 + 8 * length args + g) envs
      × Same low sp m m7
unfolding reverse_onto Below HoldsWords
words_layout low sp g n args envs m b c small room =
    let (sp4, m4, run4, low4, held4, same4) =
      push_reversed (low + g + 8 + 8 * length args) sp envs m c (omega arith) in
    let (sp6, m6, run6, low6, held6, same6) =
      push_reversed (low + 8) (sp4 - g) args m4 b (omega arith) in
    let (sp7, m7, run7, low7, held7, same7) =
      push_reversed low sp6 (n ∷ []) m6 (small, tt) (omega arith) in
    let one : 8 * length (n ∷ []) ≡ 8 = omega arith in
    let at6 : sp7 + 8 ≡ sp6 = omega arith in
    let at4 : sp7 + 8 + 8 * length args + g ≡ sp4 = omega arith in
    (
      sp4,
      m4,
      sp6,
      m6,
      sp7,
      m7,
      run4,
      run6,
      run7,
      omega arith,
      (held7.0, rw at6 (HoldsWords-Same low sp6 m6 m7 sp6 args (omega arith) same7 held6)),
      rw at4 (
          HoldsWords-Same low sp6 m6 m7 sp4 envs (omega arith) same7
            (HoldsWords-Same (low + 8) (sp4 - g) m4 m6 sp4 envs (omega arith) same6 held4)),
      λ a out. same7 a (ground arith) ∙ same6 a (ground arith) ∙ same4 a (ground arith),
    )

stack_words-run :
    (fuel top : ℕ) (argv envp addr1 addr : List ℕ) (sp1 sp2 sp3 sp4 g sp6 sp7 : ℕ)
    (m m1 m2 m4 m6 m7 : Memory)
    → push_texts fuel (reversed envp) [] top m ≡ some (addr1, sp1, m1)
    → push_texts fuel (reversed argv) [] sp1 m1 ≡ some (addr, sp2, m2)
    → (if length argv == 0 then sp2 else sp2 - 8) ≡ sp3
    → push_words (reversed addr1) sp3 m2 ≡ (sp4, m4)
    → (if length argv == 0 then sp4 - 16 else sp4 - 8) ≡ sp4 - g
    → push_words (reversed addr) (sp4 - g) m4 ≡ (sp6, m6)
    → push_words (length argv ∷ []) sp6 m6 ≡ (sp7, m7)
    → stack_words fuel argv envp top m ≡ some (sp7, m7)
unfolding stack_words
stack_words-run fuel top argv envp addr1 addr sp1 sp2 sp3 sp4 g sp6 sp7 m m1 m2 m4 m6 m7 texts1
      texts2 gap1 words1 gap2 words2 count =
    rw (texts1, texts2, gap1, words1, gap2, words2, count) refl

-- The unwritten bytes between the addresses of the arguments and those of the environment.
abbrev pub gap : (argc : ℕ) → ℕ
gap argc = if argc == 0 then 16 else 8

gap_sub : (argc sp : ℕ) → (if argc == 0 then sp - 16 else sp - 8) ≡ sp - gap argc
gap_sub argc sp = elim (Bool-cases (argc == 0)) [
  | inl none_left ↦ rw none_left refl
  | inr some_left ↦ rw some_left refl
]

gap_fits : (argc sp : ℕ) → 8 ≤ sp → (if argc == 0 then sp else sp - 8) + 16 ≡ sp + gap argc
gap_fits argc sp h = ground arith

gap_most : (argc : ℕ) → gap argc ≤ 16
gap_most argc = ground arith

-- `stack_words` ends, and at the place that it gives stand the number of arguments and then the
-- addresses of copies of them in their order, and behind a gap the addresses of copies of the texts of
-- the environment; outside the stack the memory is the same. It needs that the texts are outside
-- the stack from `low` to `top`, which has room for all that is copied, and fuel for the texts.
pub stack_words-layout :
    (fuel low top : ℕ) (argv envp : List ℕ) (ts us : List (List ℕ)) (m : Memory)
    → Texts m argv ts
    → AllOff low top argv ts
    → Texts m envp us
    → AllOff low top envp us
    → top < 2 ^ 64
    → low + total ts + total us + 24 + 8 * length argv + 8 * length envp ≤ top
    → total ts + total us ≤ fuel
    → (sp : ℕ) × (m' : Memory) × (args envs : List ℕ) × (stack_words fuel argv envp top m
        ≡ some (sp, m'))
      × (low ≤ sp)
      × HoldsWords m' sp (length argv ∷ args)
      × Texts m' args ts
      × HoldsWords m' (sp + 8 + 8 * length args + gap (length argv)) envs
      × Texts m' envs us
      × Same low top m m'
stack_words-layout fuel low top argv envp ts us m ht offt hu offu small room enough =
    let (envs, sp1, m1, run1, low1, held1, off1, below1, same1) =
      push_texts-reversed fuel low (256 ^ 8) top envp us m hu offu (omega arith) (omega arith)
        (omega arith) in
    let (args, sp2, m2, run2, low2, held2, off2, below2, same2) =
      push_texts-reversed fuel low (256 ^ 8) sp1 argv ts m1
        (Texts-Same low top m m1 argv ts same1 offt ht)
        (AllOff-narrow low top low sp1 argv ts (omega arith) (omega arith) offt) (omega arith)
        (omega arith) (omega arith) in
    let count = Texts-lengths m2 m args argv ts held2 ht in
    let count1 = Texts-lengths m1 m envs envp us held1 hu in
    let sp3 = if length argv == 0 then sp2 else sp2 - 8 in
    let g = gap (length argv) in
    let fits : sp3 + 16 ≡ sp2 + g = gap_fits (length argv) sp2 (omega arith) in
    let (sp4, m4, sp6, m6, sp7, m7, run4, run6, run7, above, words, words1, same) =
      words_layout low sp3 g (length argv) args envs m2 below2 below1 (omega arith) (omega arith) in
    let kept : Same low sp2 m2 m7 = λ a out.
      same a
        (elim out [ inl lo ↦ inl lo | inr hi ↦ inr (omega (arith, gap_most (length argv))) ]) in
    (
      sp7,
      m7,
      args,
      envs,
      stack_words-run fuel top argv envp envs args sp1 sp2 sp3 sp4 g sp6 sp7 m m1 m2 m4 m6 m7 run1
          run2 refl run4 (gap_sub (length argv) sp4) run6 run7,
      above,
      words,
      Texts-Same low sp2 m2 m7 args ts kept off2 held2,
      words1,
      Texts-Same low sp2 m2 m7 envs us kept
          (AllOff-narrow low sp1 low sp2 envs us (omega arith) (omega arith) off1)
          (Texts-Same low sp1 m1 m2 envs us same2 off1 held1),
      λ a out. kept a (ground arith) ∙ same2 a (ground arith) ∙ same1 a out,
    )
