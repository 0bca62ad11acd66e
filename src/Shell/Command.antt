-- ===== src/Shell/Command.antt =====
-- w2/bin/sbush/sbush.c: a line as commands with their arguments.
-- The table of commands holds addresses, 0 for none. `text_fuel` is for the loops over one text and
-- for the blocks of the heap. The headers of the heap are kept as w2/libc/malloc.c has them, apart
-- from the bytes of the memory; where `malloc` gives 0, the copy faults.
pub mod Word
use sbrocks.Prelude.{
  ℕ, zero, suc, ◌+◌, ◌-◌, Option, none, some, ltb, ◌==◌, not, if◌then◌else◌, ◌&&◌, ◌||◌,
}
use sbrocks.Prelude.Fault.{◌>>=◌, ◌>>◌, require}
use sbrocks.Kstring.{Memory, store}
use sbrocks.Libc.{strlen, strncpy, memset}
use sbrocks.Malloc.{Heap, malloc}
use sbrocks.Shell.{trim}

abbrev pub max_cmd : ℕ
max_cmd = 5

abbrev pub max_arg_count : ℕ
max_arg_count = 64

pub record Words : Type 0 where
  pub memory : Memory
  pub heap : Heap
  pub commands : ℕ → ℕ → ℕ
  pub cmdcount : ℕ

abbrev pub put_word : (command argument address : ℕ) → Words → Words
put_word command argument address w = record w {
  commands = λ c a. if (c == command) && (a == argument) then address else w.commands c a;
}

-- How many characters stand in front of a blank or a pipe, of `n` at most.
pub word_length : (n : ℕ) → Memory → (src : ℕ) → ℕ
word_length zero m src = 0
word_length (suc n) m src =
    let rest = word_length n m (src + 1) in if (m src == 32) || (m src == b'|') then 0 else suc rest

-- Blanks become NULs: how many, and the memory.
pub clear_blanks : (n : ℕ) → Memory → (src : ℕ) → ℕ × Memory
clear_blanks zero m src = (0, m)
clear_blanks (suc n) m src =
    let (k, m') = clear_blanks n (store m src 0) (src + 1) in
    if m src == 32 then (suc k, m') else (0, m)

-- `memset(str, 0, strlen(str))` on the word before, where there is one.
pub clear_word : (text_fuel : ℕ) → Memory → (str : Option ℕ) → Option Memory
clear_word text_fuel m none = some m
clear_word text_fuel m (some str) = do len ← strlen text_fuel m str; some (memset len m str 0)

module _ (text_fuel : ℕ) where
  -- The word gets `len` bytes for the whole of the text, 1024 are cleared, and `count` are copied.
  pub copy_word : (str count len argcount : ℕ) → Words → Option (ℕ × Words)
  copy_word str count len argcount w = do
    require (ltb w.cmdcount max_cmd && ltb argcount max_arg_count)
    (word, heap) ← malloc text_fuel len w.heap
    require (not (word == 0))
    let m = strncpy count (memset 1024 w.memory word 0) word str
    some (argcount + 1, put_word w.cmdcount argcount word (record w { memory = m; heap = heap }))

  pub add_word : (str count argcount : ℕ) → Words → Option (ℕ × Words)
  add_word str count argcount w = do
    m ← trim text_fuel w.memory str
    len ← strlen text_fuel m str
    let w1 = record w { memory = m }
    if ltb 0 len && ltb 0 count then copy_word str count len argcount w1 else some (argcount, w1)

  -- The loop, with `n` for `len - i`.
  pub parse_from : (fuel n src : ℕ) → (str : Option ℕ) → (argcount : ℕ) → Words → Option Words
  parse_from zero n src str argcount w = none
  parse_from (suc fuel) n src str argcount w =
      let rest = (do
        m ← clear_word text_fuel w.memory str
        let count = word_length n m src
        let end = src + count
        let pipe = m end == b'|'
        (argcount1, w1) ← add_word src count argcount (record w { memory = m })
        let argcount2 = if pipe then 0 else argcount1
        let cmdcount = if pipe then w1.cmdcount + 1 else w1.cmdcount
        let next = if pipe then end + 1 else end
        let (blanks, m2) = clear_blanks (n - count) w1.memory next
        parse_from fuel (n - count - blanks) (next + blanks) (some src) argcount2
            (record w1 { memory = m2; cmdcount = cmdcount })) in
      if n == 0 then some w else rest

  pub parse_command : (fuel input : ℕ) → Words → Option (ℕ × Words)
  parse_command fuel input w = do
    len ← strlen text_fuel w.memory input
    w1 ← parse_from fuel len input none 0 (record w { cmdcount = 0 })
    some (w1.cmdcount + 1, w1)
