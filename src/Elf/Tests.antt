-- ===== src/Elf/Tests.antt =====
-- One argument and one text of the environment, and the theorem on the stack there.
use sbrocks.Prelude.{
  ℕ, ◌+◌, ◌*◌, ◌≤◌, ◌≡◌, refl, arith, ◌==◌, if◌then◌else◌, some, List, [], ◌∷◌, length, inl,
}
use sbrocks.Kstring.{Memory}
use sbrocks.Elf.{stack_words}
use sbrocks.Elf.Stack.{Texts, AllOff, total}
use sbrocks.Elf.Stack.Words.{HoldsWords, Same}
use sbrocks.Elf.Stack.Layout.{gap, stack_words-layout}

-- `ls` at 100 and `X` at 200.
abbrev given : Memory
given b = if b == 100 then b'l' else if b == 101 then b's' else if b == 200 then b'X' else 0

abbrev ls : List (List ℕ)
ls = (b'l' ∷ b's' ∷ []) ∷ []

abbrev environment : List (List ℕ)
environment = (b'X' ∷ []) ∷ []

ls-Texts : Texts given (100 ∷ []) ls
unfolding Texts
ls-Texts = ((refl, (λ e. omega arith), (refl, (λ e. omega arith), refl)), tt)

environment-Texts : Texts given (200 ∷ []) environment
unfolding Texts
environment-Texts = ((refl, (λ e. omega arith), refl), tt)

ls-AllOff : AllOff 1000 5000 (100 ∷ []) ls
unfolding AllOff
ls-AllOff = (inl (omega arith), tt)

environment-AllOff : AllOff 1000 5000 (200 ∷ []) environment
unfolding AllOff
environment-AllOff = (inl (omega arith), tt)

five_bytes : total ls + total environment ≡ 5
unfolding total
five_bytes = refl

stack_words-layout_example :
    (sp : ℕ) × (m' : Memory) × (args envs : List ℕ) × (stack_words 5
        (100 ∷ [])
        (200 ∷ [])
        5000
        given
      ≡ some (sp, m'))
    × (1000 ≤ sp)
    × HoldsWords m' sp (1 ∷ args)
    × Texts m' args ls
    × HoldsWords m' (sp + 8 + 8 * length args + gap 1) envs
    × Texts m' envs environment
    × Same 1000 5000 given m'
stack_words-layout_example =
    stack_words-layout 5 1000 5000 (100 ∷ []) (200 ∷ []) ls environment given ls-Texts ls-AllOff
      environment-Texts environment-AllOff (omega arith) (omega (arith, five_bytes))
      (omega (arith, five_bytes))
