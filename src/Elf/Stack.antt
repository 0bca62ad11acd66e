-- ===== src/Elf/Stack.antt =====
-- The stack that a new program starts with (w2/sys/process/elf.c): the texts and their addresses.
pub mod Words
pub mod Layout
use sbrocks.Prelude.{
  ℕ, zero, suc, ◌+◌, ◌-◌, ◌*◌, ◌^◌, ◌<◌, ◌≤◌, ◌≡◌, ◌≢◌, refl, sym, subst, ◌∙◌, ap, arith, ◌==◌,
  if◌then◌else◌, true, false, some, none, Option, List, [], ◌∷◌, ◌++◌, length, Bool-cases, inl, inr,
  ◌⊎◌,
}
use sbrocks.Prelude.Fault.{◌>>=◌}
use sbrocks.Kstring.{Memory, memcpy, strlen}
use sbrocks.Kstring.Copy.{Outside, memcpy-Inside, memcpy-Outside}
use sbrocks.Kstring.Text.{IsText, IsText-same, strlen-length}
use sbrocks.Kstring.Words.{store_bytes, load_bytes, store_bytes-Outside, load_bytes-store_bytes}
use sbrocks.Elf.{push_texts, push_words, reverse_onto, reversed, stack_words}
use sbrocks.Elf.Stack.Words.{
  HoldsWords, HoldsWords-Same, Below, Same, reversed-reversed, push_reversed,
}

-- Each text stands at its address.
unfoldable pub Texts : Memory → (ps : List ℕ) → List (List ℕ) → Type 0
Texts m [] [] = Unit {0}
Texts m [] (t ∷ ts) = ⊥
Texts m (p ∷ ps) [] = ⊥
Texts m (p ∷ ps) (t ∷ ts) = IsText m p t × Texts m ps ts

-- No text that starts here and no byte of it stands in the area from `low` to `high`.
unfoldable pub AllOff : (low high : ℕ) → (ps : List ℕ) → List (List ℕ) → Type 0
AllOff low high [] ts = Unit {0}
AllOff low high (p ∷ ps) [] = Unit {0}
AllOff low high (p ∷ ps) (t ∷ ts) =
    ((p + suc (length t) ≤ low) ⊎ (high ≤ p)) × AllOff low high ps ts

-- The bytes of the texts, each with its NUL.
unfoldable pub total : List (List ℕ) → ℕ
total [] = 0
total (t ∷ ts) = suc (length t) + total ts

IsText-moved :
    (m m' : Memory) (p q : ℕ) (t : List ℕ)
    → ((j : ℕ) → j < suc (length t) → m' (q + j) ≡ m (p + j))
    → IsText m p t
    → IsText m' q t
IsText-moved m m' p q [] same h =
    let e : q + 0 ≡ q = omega arith in
    let f : p + 0 ≡ p = omega arith in sym (ap m' e) ∙ same 0 (omega arith) ∙ ap m f ∙ h
IsText-moved m m' p q (c ∷ t) same (at, nz, rest) =
    let e : q + 0 ≡ q = omega arith in
    let f : p + 0 ≡ p = omega arith in
    (
      sym (ap m' e) ∙ same 0 (omega arith) ∙ ap m f ∙ at,
      nz,
      IsText-moved m m' (p + 1) (q + 1) t
          (λ j h.
            let e : q + 1 + j ≡ q + suc j = omega arith in
            let f : p + 1 + j ≡ p + suc j = omega arith in rw (e, f) (same (suc j) (omega arith)))
          rest,
    )

pub Texts-Same :
    (low high : ℕ) (m m' : Memory) (ps : List ℕ) (ts : List (List ℕ))
    → Same low high m m'
    → AllOff low high ps ts
    → Texts m ps ts
    → Texts m' ps ts
unfolding Texts AllOff
Texts-Same low high m m' [] [] same off h = tt
Texts-Same low high m m' [] (t ∷ ts) same off h = h
Texts-Same low high m m' (p ∷ ps) [] same off h = h
Texts-Same low high m m' (p ∷ ps) (t ∷ ts) same (apart, off) (text, h) = (
  IsText-same m m' p t (λ a lo hi. same a (ground arith)) text,
  Texts-Same low high m m' ps ts same off h,
)

pub AllOff-narrow :
    (low high low' high' : ℕ) (ps : List ℕ) (ts : List (List ℕ))
    → low ≤ low'
    → high' ≤ high
    → AllOff low high ps ts
    → AllOff low' high' ps ts
unfolding AllOff
AllOff-narrow low high low' high' [] ts l h off = tt
AllOff-narrow low high low' high' (p ∷ ps) [] l h off = tt
AllOff-narrow low high low' high' (p ∷ ps) (t ∷ ts) l h (apart, off) =
    (ground arith, AllOff-narrow low high low' high' ps ts l h off)

-- The texts go below `sp`, the last one lowest; nothing changes outside the area from `low` to `sp`.
pub push_texts-Texts :
    (fuel low limit sp : ℕ) (ps addrs : List ℕ) (ts us : List (List ℕ)) (m : Memory)
    → Texts m ps ts
    → AllOff low sp ps ts
    → Texts m addrs us
    → AllOff low sp addrs us
    → Below limit addrs
    → sp ≤ limit
    → low + total ts ≤ sp
    → total ts ≤ fuel
    → (addrs' : List ℕ) × (sp' : ℕ) × (m' : Memory) × (push_texts fuel ps addrs sp m
        ≡ some (addrs', sp', m'))
      × (sp' + total ts ≡ sp)
      × Texts m' addrs' (reverse_onto ts us)
      × AllOff low sp' addrs' (reverse_onto ts us)
      × Below limit addrs'
      × Same low sp m m'
unfolding push_texts Texts AllOff total reverse_onto Below
push_texts-Texts fuel low limit sp [] addrs [] us m h off held held_off below top room enough =
    (addrs, sp, m, refl, omega arith, held, held_off, below, λ a out. refl)
push_texts-Texts fuel low limit sp [] addrs (t ∷ ts) us m h off held held_off below top room
      enough =
    absurd h
push_texts-Texts fuel low limit sp (p ∷ ps) addrs [] us m h off held held_off below top room
      enough =
    absurd h
push_texts-Texts fuel low limit sp (p ∷ ps) addrs (t ∷ ts) us m (text, h) (apart, off) held held_off
      below top room enough =
    let n = length t in
    let sp1 = sp - (n + 1) in
    let m1 = memcpy m sp1 p (n + 1) in
    let same1 : Same low sp m m1 = λ a out. memcpy-Outside m sp1 p (n + 1) a (ground arith) in
    let moved : IsText m1 sp1 t =
      IsText-moved m m1 p sp1 t
        (λ j less. memcpy-Inside m sp1 p (n + 1) j (ground arith) (omega arith)) text in
    let len = strlen-length fuel m p t text (omega arith) in
    let (addrs', sp', m', run, low', held', held_off', below', same') =
      push_texts-Texts fuel low limit sp1 ps (sp1 ∷ addrs) ts (t ∷ us) m1
        (Texts-Same low sp m m1 ps ts same1 off h)
        (AllOff-narrow low sp low sp1 ps ts (omega arith) (omega arith) off)
        (moved, Texts-Same low sp m m1 addrs us same1 held_off held)
        (
          inr (omega arith),
          AllOff-narrow low sp low sp1 addrs us (omega arith) (omega arith) held_off,
        )
        (omega arith, below) (omega arith) (omega arith) (omega arith) in
    (
      addrs',
      sp',
      m',
      rw len run,
      omega arith,
      held',
      held_off',
      below',
      λ a out. same' a (ground arith) ∙ same1 a out,
    )
