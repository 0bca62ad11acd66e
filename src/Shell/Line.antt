-- ===== src/Shell/Line.antt =====
-- The line editor of the shell: what a typed line leaves in memory.
use sbrocks.Prelude.{
  ℕ, suc, ◌+◌, ◌-◌, ◌<◌, ◌≡◌, ◌≢◌, refl, sym, ◌∙◌, true, false, Option, none, some, List, [], ◌∷◌,
  ◌++◌, ltb, ◌==◌, if◌then◌else◌, length, arith, lt→ltb, Bool-cases, subst, inl, inr,
}
use mathlib.Core.Option.{some-injective}
use sbrocks.Kstring.{Memory, store}
use sbrocks.Kstring.Text.{IsText}
use sbrocks.Elf.{reversed}
use sbrocks.Shell.Held.{Holds, Holds-store, Holds-IsText}
use sbrocks.Shell.{Reading, read_from, read_input, end_line, max_len}

-- What the characters make of a line, the last character first: a backspace takes one away, and
-- there must be one.
unfoldable pub edit : (acc typed : List ℕ) → Option (List ℕ)
edit acc [] = some acc
edit [] (c ∷ typed) = let rest = edit (c ∷ []) typed in if c == 8 then none else rest
edit (a ∷ acc) (c ∷ typed) =
    let back = edit acc typed in
    let rest = edit (c ∷ a ∷ acc) typed in if c == 8 then back else rest

-- Characters of one line without a pipe.
abbrev pub IsTyped : List ℕ → Type 0
IsTyped [] = Unit
IsTyped (c ∷ typed) = ((c == 10) ≡ false) × ((c == b'|') ≡ false) × (c ≢ 0) × IsTyped typed

-- The result: 1 for a line that is not empty.
abbrev pub result_of : List ℕ → ℕ
result_of [] = 0
result_of (c ∷ acc) = 1

abbrev pub IsRead : (line : ℕ) → (acc rest : List ℕ) → Reading → Type 0
IsRead line acc rest r =
    (m : Memory) × (r ≡ Reading.line_read (result_of acc) m rest) × IsText m line (reversed acc)

result_of-length : (acc : List ℕ) → (if ltb (length acc) 1 then 0 else 1) ≡ result_of acc
result_of-length [] = refl
result_of-length (a ∷ acc) = ground arith

end_line-IsRead :
    (line : ℕ) (m : Memory) (acc rest : List ℕ)
    → Holds m line acc
    → length acc < max_len
    → IsRead line acc rest (end_line line (length acc) m rest)
unfolding end_line
end_line-IsRead line m acc rest h l = (
  store m (line + length acc) 0,
  rw (lt→ltb (length acc) max_len l, result_of-length acc) refl,
  Holds-IsText (store m (line + length acc) 0) line acc []
      (Holds-store m line (length acc) 0 acc (omega arith) h) (ground arith),
)

read_from-back :
    (line n c : ℕ) (m : Memory) (input : List ℕ)
    → (c == 8) ≡ true
    → (c == b'|') ≡ false
    → read_from line (suc n) false m (c ∷ input)
      ≡ read_from line n false (store m (line + n) 0) input
unfolding read_from
read_from-back line n c m input b p =
    let e : suc n - 1 ≡ n = omega arith in
    let z : (suc n == 0) ≡ false = ground arith in rw (b, p, z, e) refl

read_from-push :
    (line i c : ℕ) (m : Memory) (input : List ℕ)
    → (c == 8) ≡ false
    → (c == 10) ≡ false
    → (c == b'|') ≡ false
    → i < max_len
    → read_from line i false m (c ∷ input)
      ≡ read_from line (suc i) false (store m (line + i) c) input
unfolding read_from
read_from-push line i c m input b n p l =
    let e : i + 1 ≡ suc i = omega arith in rw (b, n, p, lt→ltb i max_len l, e) refl

read_from-newline :
    (line i : ℕ) (m : Memory) (rest : List ℕ)
    → read_from line i false m (10 ∷ rest) ≡ end_line line i m rest
unfolding read_from
read_from-newline line i m rest = refl

edit-empty : (typed : List ℕ) (c : ℕ) → (c == 8) ≡ true → edit [] (c ∷ typed) ≡ none
unfolding edit
edit-empty typed c h = rw h refl

edit-back :
    (a : ℕ) (acc typed : List ℕ) (c : ℕ)
    → (c == 8) ≡ true
    → edit (a ∷ acc) (c ∷ typed) ≡ edit acc typed
unfolding edit
edit-back a acc typed c h = rw h refl

edit-push :
    (acc typed : List ℕ) (c : ℕ) → (c == 8) ≡ false → edit acc (c ∷ typed) ≡ edit (c ∷ acc) typed
unfolding edit
edit-push [] typed c h = rw h refl
edit-push (a ∷ acc) typed c h = rw h refl

IsRead-same :
    (line : ℕ) (acc rest : List ℕ) {r r' : Reading}
    → r ≡ r'
    → IsRead line acc rest r'
    → IsRead line acc rest r
IsRead-same line acc rest e (m, done, text) = (m, e ∙ done, text)

module _ (line : ℕ) (rest acc' : List ℕ) where
  read_from-edit :
      (m : Memory) (acc typed : List ℕ)
      → IsTyped typed
      → Holds m line acc
      → edit acc typed ≡ some acc'
      → length acc + length typed < max_len
      → IsRead line acc' rest (read_from line (length acc) false m (typed ++ 10 ∷ rest))
  unfolding edit
  read_from-edit m acc [] t h e l =
      let same : acc ≡ acc' = some-injective acc acc' e in
      IsRead-same line acc' rest (read_from-newline line (length acc) m rest) (
        subst (λ a. IsRead line a rest (end_line line (length acc) m rest)) same
          (end_line-IsRead line m acc rest h (omega arith)))
  read_from-edit m [] (c ∷ typed) (n, p, nz, t) h e l = elim (Bool-cases (c == 8)) [
    | inl b ↦ let z = edit-empty typed c b in cc
    | inr b ↦
        IsRead-same line acc' rest
          (read_from-push line 0 c m (typed ++ 10 ∷ rest) b n p (omega arith))
          (read_from-edit (store m (line + 0) c) (c ∷ []) typed t (ground arith, nz, tt)
            (sym (edit-push [] typed c b) ∙ e) (omega arith))
  ]
  read_from-edit m (a ∷ acc) (c ∷ typed) (n, p, nz, t) h e l = elim (Bool-cases (c == 8)) [
    | inl b ↦
        IsRead-same line acc' rest (read_from-back line (length acc) c m (typed ++ 10 ∷ rest) b p) (
          read_from-edit (store m (line + length acc) 0) acc typed t
            (Holds-store m line (length acc) 0 acc (omega arith) h.2)
            (sym (edit-back a acc typed c b) ∙ e) (omega arith))
    | inr b ↦
        IsRead-same line acc' rest
          (read_from-push line (suc (length acc)) c m (typed ++ 10 ∷ rest) b n p (omega arith))
          (read_from-edit (store m (line + suc (length acc)) c) (c ∷ a ∷ acc) typed t
            (ground arith, nz, Holds-store m line (suc (length acc)) c (a ∷ acc) (omega arith) h)
            (sym (edit-push (a ∷ acc) typed c b) ∙ e) (omega arith))
  ]

-- A line that is typed and ended by a newline is read to its end: the text in `input_line` is what
-- was typed with each backspace taken as one character less, the result is 1 if this is not empty and
-- 0 if it is, and what follows the newline is left. The line has no pipe in it, each backspace has a
-- character to take, and fewer than 1024 keys were pressed.
pub read_input-edit :
    (line : ℕ) (m : Memory) (typed rest acc : List ℕ)
    → IsTyped typed
    → edit [] typed ≡ some acc
    → length typed < max_len
    → IsRead line acc rest (read_input line m (typed ++ 10 ∷ rest))
unfolding read_input
read_input-edit line m typed rest acc t e l =
    read_from-edit line rest acc m [] typed t tt e (omega arith)
