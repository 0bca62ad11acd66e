-- ===== src/Shell.antt =====
-- w2/bin/sbush/sbush.c: the lines and words of the shell, on the memory that the program sees.
-- `none` is what C leaves undefined, or a text without an end within the fuel.
mod Held
pub mod Line
pub mod Trim
pub mod Command
pub mod Path
pub mod Pipeline
pub mod Builtin
pub mod Run
mod Tests
use sbrocks.Prelude.{
  ℕ, zero, suc, ◌+◌, ◌-◌, ◌*◌, ◌%◌, ◌^◌, Bool, true, false, Option, none, some, List, [], ◌∷◌, ltb,
  leb, ◌==◌, not, if◌then◌else◌, ◌&&◌, ◌||◌,
}
use sbrocks.Prelude.Fault.{◌>>=◌, ◌>>◌, require}
use sbrocks.Kstring.{Memory, store}
use sbrocks.Libc.{strlen, strcpy, strncpy, memset, strcmp, strstr, strcat}

-- `input_line` has 1024 bytes.
abbrev pub max_len : ℕ
max_len = 1024

-- `'\12'` is a newline once more.
pub is_space : (c : ℕ) → Bool
is_space c = (c == 32) || (c == 9) || (c == 10) || (c == 10)

-- What reading a line comes to: its result with the memory and the characters that are left, a
-- write outside of the line, or a wait for more characters.
pub data Reading : Type 0 where
  line_read : (result : ℕ) → Memory → (rest : List ℕ) → Reading
  out_of_line : Reading
  waiting : Reading

-- `input_line[i] = '\0'` behind the loop, and the result.
pub end_line : (line i : ℕ) → Memory → (rest : List ℕ) → Reading
end_line line i m rest =
    if ltb i max_len
    then line_read (if ltb i 1 then 0 else 1) (store m (line + i) 0) rest
    else out_of_line

abbrev pub next_pipe : (pipe_found : Bool) → (c : ℕ) → Bool
next_pipe pipe_found c =
    if c == b'|'
    then true
    else if pipe_found && not (c == 32) && not (c == 10)
    then false
    else pipe_found

-- The loop, from the characters that `scanf` will give.
pub read_from : (line i : ℕ) → (pipe_found : Bool) → Memory → (input : List ℕ) → Reading
read_from line i pipe_found m [] = waiting
read_from line i pipe_found m (c ∷ input) =
    let back = read_from line (i - 1) (next_pipe pipe_found c) (store m (line + (i - 1)) 0) input in
    let next = read_from line (i + 1) (next_pipe pipe_found c) (store m (line + i) c) input in
    let more = read_from line i true m input in
    if pipe_found && (c == b'|')
    then line_read 0 m input
    else if c == 8
    then (if i == 0 then out_of_line else back)
    else if not (c == 10)
    then (if ltb i max_len then next else out_of_line)
    else if pipe_found
    then more
    else end_line line i m input

pub read_input : (line : ℕ) → Memory → (input : List ℕ) → Reading
read_input line m input = read_from line 0 false m input

pub skip_space : (fuel : ℕ) → Memory → (src : ℕ) → Option ℕ
skip_space zero m src = none
skip_space (suc fuel) m src =
    let rest = skip_space fuel m (src + 1) in if is_space (m src) then rest else some src

-- The loop from `end = src + n` down to `src`.
pub cut_space : (n : ℕ) → Memory → (src : ℕ) → Memory
cut_space zero m src = m
cut_space (suc n) m src =
    let rest = cut_space n (store m (src + suc n) 0) src in
    if is_space (m (src + suc n)) then rest else m

pub trim : (fuel : ℕ) → Memory → (input : ℕ) → Option Memory
trim fuel m input = do
  src ← skip_space fuel m input
  len ← strlen fuel m src
  let m1 = cut_space (len - 1) m src
  if src == input then some m1 else strcpy fuel m1 input src
