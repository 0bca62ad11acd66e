-- ===== src/Shell/Tests.antt =====
-- Lines, texts and pipelines of the shell.
use sbrocks.Prelude.{
  ℕ, ◌+◌, ◌*◌, ◌≡◌, refl, some, List, [], ◌∷◌, ◌++◌, if◌then◌else◌, ◌==◌, arith, ◌<◌, ◌≢◌, ◌&&◌,
  ltb, Option, Bool,
}
use sbrocks.Kstring.{Memory}
use sbrocks.Kstring.Text.{IsText}
use sbrocks.Elf.{reverse_onto}
use sbrocks.Shell.{Reading, is_space, read_input, read_from, trim}
use sbrocks.Shell.Line.{edit, IsTyped, IsRead, read_input-edit}
use sbrocks.Shell.Trim.{trim_start, trimmed, trim-trimmed}
use sbrocks.Shell.Command.{Words}
use sbrocks.Shell.Pipeline.{Redirection, Stage, Started, Commands, execute_process_pipe}
use sbrocks.Shell.Pipeline.Wiring.{IsCounted, IsWired, Runs, execute_process_pipe-IsWired}

-- "lx", a backspace and "s".
abbrev typed_ls : List ℕ
typed_ls = b'l' ∷ b'x' ∷ 8 ∷ b's' ∷ []

abbrev empty : Memory
empty = λ a. 0

typed_ls-IsTyped : IsTyped typed_ls
typed_ls-IsTyped = (
  refl,
  refl,
  omega arith,
  (refl, refl, omega arith, (refl, refl, omega arith, (refl, refl, omega arith, tt))),
)

typed_ls-edit : edit [] typed_ls ≡ some (b's' ∷ b'l' ∷ [])
unfolding edit
typed_ls-edit = refl

read_input-edit_example :
    IsRead 100 (b's' ∷ b'l' ∷ []) (b'q' ∷ []) (read_input 100 empty (typed_ls ++ 10 ∷ b'q' ∷ []))
read_input-edit_example =
    read_input-edit 100 empty typed_ls (b'q' ∷ []) (b's' ∷ b'l' ∷ []) typed_ls-IsTyped typed_ls-edit
      (omega arith)

abbrev padded_a : List ℕ
padded_a = 32 ∷ b'a' ∷ 32 ∷ []

abbrev with_padded_a : Memory
with_padded_a a = if a == 50 then 32 else if a == 51 then b'a' else if a == 52 then 32 else 0

padded_a-IsText : IsText with_padded_a 50 padded_a
padded_a-IsText = (refl, omega arith, (refl, omega arith, (refl, omega arith, refl)))

trim-trimmed_example :
    (m' : Memory) × (trim 9 with_padded_a 50 ≡ some m') × IsText m' 50 (trimmed padded_a)
trim-trimmed_example = trim-trimmed 9 with_padded_a 50 padded_a padded_a-IsText (omega arith)

trimmed_a : trimmed padded_a ≡ b'a' ∷ []
unfolding trim_start reverse_onto is_space
trimmed_a = refl

-- A line that starts with a backspace is written outside of its buffer.
backspace_first : read_input 100 empty (8 ∷ b'l' ∷ 10 ∷ []) ≡ Reading.out_of_line
unfolding read_input read_from
backspace_first = refl

-- The system has counted up to 10 before the first pipe.
abbrev ten_counted : ℕ → ℕ
ten_counted i = if i == 0 then 10 else 12

ten_counted-IsCounted : IsCounted ten_counted
ten_counted-IsCounted = record { low = λ i. ground arith; small = λ i. ground arith }

abbrev not_redirected : Redirection
not_redirected = record { read_redirection_fd = 0; write_redirection_fd = 0 }

-- The shell answers only the command at 140.
abbrev answers_first : (cmd args : ℕ) → Option Bool
answers_first cmd args = some (cmd == 140)

-- Each command in the path has its address doubled.
abbrev two_commands : Commands
two_commands c a = if a == 0 then 70 + c else 0

both_found : (c : ℕ) → c < 2 → two_commands c 0 * 2 ≢ 0
both_found c low e = omega (arith, e)

execute_process_pipe-IsWired_example :
    (ss : List Stage) × (left : Commands) × (execute_process_pipe answers_first 2 ten_counted
        (λ p. p * 2)
        not_redirected
        two_commands
      ≡ (Started.pipeline ss, left))
    × IsWired (Runs answers_first (λ p. p * 2) two_commands) ten_counted not_redirected 0 1 ss
    × ((c a : ℕ) → left c a ≡ (if ltb c 2 && (a == 1) then 0 else two_commands c a))
execute_process_pipe-IsWired_example =
    execute_process_pipe-IsWired answers_first 1 ten_counted (λ p. p * 2) not_redirected
      two_commands ten_counted-IsCounted both_found

-- The line "ls -l" on the stack, and a heap without blocks.
abbrev line_words : Words
line_words = record {
  memory = λ a. if a == 90000 then b'l' else if a == 90001 then b's' else 0;
  heap = record { blocks = λ p. record { size = 0; free = 0; next = 0 }; head = 0; brk_end = 4096 };
  commands = λ c a. 0;
  cmdcount = 0;
}
