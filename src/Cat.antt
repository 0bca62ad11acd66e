-- ===== src/Cat.antt =====
-- w2/bin/cat/cat.c: the program that shows a file.
-- `read` and `write` are those of w2/libc/stdlib.c; `buf` has 80 bytes, and `printf_buf`
-- is the buffer of `printf`.
use sbrocks.Prelude.{
  ℕ, zero, suc, ◌%◌, ◌^◌, Option, none, some, List, [], ◌∷◌, ltb, ◌==◌, ◌||◌, leb, if◌then◌else◌,
}
use sbrocks.Prelude.Fault.{◌>>=◌}
use sbrocks.Kstring.{int_mod}
use sbrocks.Format.{Arg}
use sbrocks.Stdio.{printf}
use sbrocks.Stdlib.{User, Call, read, write, open_file, close}

abbrev pub usage_text : List ℕ
usage_text =
    b'U' ∷ b's' ∷ b'a' ∷ b'g' ∷ b'e' ∷ 32 ∷ b':' ∷ 32 ∷ b'c' ∷ b'a' ∷ b't' ∷ 32 ∷ b'<' ∷ b'f' ∷ b'i'
    ∷ b'l' ∷ b'e' ∷ b'-' ∷ b'n' ∷ b'a' ∷ b'm' ∷ b'e' ∷ b'>' ∷ 32 ∷ b'%' ∷ b'd' ∷ 32 ∷ 10 ∷ 32 ∷ []

module _ {S : Type 0} (syscall : Call S) where
  -- `while ((n = read(f, buf, 80)) > 0) write(1, buf, n);`
  pub copy_file : (fuel f buf : ℕ) → User S → Option (User S)
  copy_file zero f buf u = none
  copy_file (suc fuel) f buf u =
      let (res, u1) = read syscall f buf 80 u in
      let n = res % int_mod in
      let rest = copy_file fuel f buf (write syscall 1 buf n u1).1 in
      if (n == 0) || leb (2 ^ 31) n then some u1 else rest

  -- `O_RDONLY` is 0.
  pub cat : (fuel buf printf_buf argc name : ℕ) → User S → Option (User S)
  cat fuel buf printf_buf argc name u =
      let (f, u1) = open_file syscall name 0 u in
      let copied = copy_file fuel f buf u1 >>= λ u2. some (close syscall f u2).1 in
      let usage =
        printf syscall fuel printf_buf usage_text (Arg.word argc ∷ []) u >>= λ r. some r.1 in
      if ltb argc 2 then usage else copied
