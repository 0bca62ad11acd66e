-- ===== src/Stdio.antt =====
-- w2/libc/printf.c and w2/libc/scanf.c: output and input of user programs.
-- The text of `vsprintf` in w2/libc/printf.c, with the functions it calls, is that of `kvsprintf`.
-- `none` is what C leaves undefined; `data_buf` is the address of the array `data`.
use sbrocks.Prelude.{
  ℕ, ◌+◌, ◌-◌, ◌%◌, ◌^◌, Bool, true, false, Option, none, some, List, [], ◌∷◌, ltb, leb, ◌==◌, not,
  ◌&&◌, ◌||◌, length, if◌then◌else◌,
}
use sbrocks.Prelude.Fault.{◌>>=◌, ◌>>◌, require}
use sbrocks.Kstring.{store, int_mod, word_mod}
use sbrocks.Kstring.Words.{store_bytes}
use sbrocks.Tarfs.Dir.{write_text}
use sbrocks.Format.{Arg, Out, kvsprintf}
use sbrocks.Libc.{strcpy, atoi, reset}
use sbrocks.Stdlib.{User, Call, read, write, minus_one}

pub vsprintf : (fuel : ℕ) → (fmt : List ℕ) → (args : List Arg) → Option Out
vsprintf fuel fmt args = kvsprintf fuel fmt args

-- The value of an `int` as one of 64 bits.
abbrev pub widen : (n : ℕ) → ℕ
widen n = if ltb n (2 ^ 31) then n else n + word_mod - int_mod

pub next_arg : (args : List ℕ) → Option (ℕ × List ℕ)
next_arg [] = none
next_arg (a ∷ args) = some (a, args)

module _ {S : Type 0} (syscall : Call S) where
  -- `printf_buf`, at `buf`, has 1024 bytes.
  pub printf : (fuel buf : ℕ) → (format : List ℕ) → (args : List Arg) → User S → Option (ℕ × User S)
  printf fuel buf format args u = do
    out ← vsprintf fuel format args
    let printed = length out.written
    require (ltb printed 1024)
    let u1 = record u { memory = write_text u.memory buf out.written }
    some (printed, (write syscall 1 buf printed u1).1)

  -- The conversions: each reads from the keyboard into `data`, and gives the size, with whether
  -- `scanf` returns at once.
  pub scan_text : (text_fuel data_buf c : ℕ) → User S → Option (ℕ × Bool × User S)
  scan_text text_fuel data_buf c u =
      let (n, u1) = read syscall 0 data_buf 1024 u in
      let size = n % int_mod in
      let copied = strcpy text_fuel u1.memory c data_buf >>= λ m.
      some ((size + int_mod - 1) % int_mod, false, record u1 { memory = m }) in
      if size == minus_one then some (size, false, u1) else copied

  -- A size of 0 would put the NUL in front of `data`.
  pub scan_number : (text_fuel data_buf arg : ℕ) → User S → Option (ℕ × Bool × User S)
  scan_number text_fuel data_buf arg u =
      let (n, u1) = read syscall 0 data_buf 1024 u in
      let size = n % int_mod in
      let m = store u1.memory (data_buf + (size - 1)) 0 in
      let stored = (do
        require (ltb 0 size && leb size 1024)
        value ← atoi text_fuel m data_buf
        some (size - 1, false, record u1 { memory = store_bytes 8 m arg (widen value) })) in
      if size == minus_one then some (size, true, u1) else stored

  pub scan_char : (data_buf c : ℕ) → User S → ℕ × Bool × User S
  scan_char data_buf c u =
      let (n, u1) = read syscall 0 data_buf 1 u in
      let size = n % int_mod in
      if size == minus_one
      then (size, true, u1)
      else (size, false, record u1 { memory = store u1.memory c (u1.memory data_buf) })

  -- What one conversion does with its pointer.
  pub scan_conversion :
      (text_fuel data_buf conversion arg : ℕ) → User S → Option (ℕ × Bool × User S)
  scan_conversion text_fuel data_buf conversion arg u =
      if conversion == b's'
      then scan_text text_fuel data_buf arg u
      else if conversion == b'd'
      then scan_number text_fuel data_buf arg u
      else some (scan_char data_buf arg u)

  -- The loop over the format. A `%` at its end has the NUL as its conversion, and the loop goes on
  -- behind it.
  pub scan_from :
      (text_fuel data_buf : ℕ)
      → (format : List ℕ) → (args : List ℕ) → (size : ℕ) → User S
      → Option (ℕ × User S)
  scan_from text_fuel data_buf [] args size u = some (size, u)
  scan_from text_fuel data_buf (c ∷ []) args size u = if c == b'%' then none else some (size, u)
  scan_from text_fuel data_buf (c ∷ conversion ∷ format) args size u =
      let plain = scan_from text_fuel data_buf (conversion ∷ format) args size u in
      let skipped = scan_from text_fuel data_buf format args size u in
      let (n, u1) = read syscall 0 data_buf 1 u in
      let hex = scan_from text_fuel data_buf format args (n % int_mod) u1 in
      let taken = next_arg args >>= λ a.
      scan_conversion text_fuel data_buf conversion a.0 u >>= λ r.
      let more = scan_from text_fuel data_buf format a.1 r.0 r.2 in
      if r.1 then some (r.0, r.2) else more in
      if not (c == b'%')
      then plain
      else if conversion == b'x'
      then hex
      else if (conversion == b's') || (conversion == b'd') || (conversion == b'c')
      then taken
      else skipped

  pub scanf :
      (text_fuel data_buf : ℕ) → (format : List ℕ) → (args : List ℕ) → User S → Option (ℕ × User S)
  scanf text_fuel data_buf format args u =
      scan_from text_fuel data_buf format args minus_one
        (record u { memory = reset u.memory data_buf 1024 })
