-- ===== src/Stdlib/Dir.antt =====
-- w2/libc/stdlib.c: directories. The allocator is a parameter, as it enters the system itself.
use sbrocks.Prelude.{ℕ, ◌+◌, Option, some, [], ◌∷◌, ◌==◌, if◌then◌else◌}
use sbrocks.Prelude.Fault.{◌>>=◌}
use sbrocks.Kstring.Words.{load_bytes}
use sbrocks.Libc.{strlen}
use sbrocks.Stdlib.{User, Call, clear, enter, open_file, close, minus_one}

-- `struct dirent` with its padding, and the place of the name in it.
abbrev pub dirent_size : ℕ
dirent_size = 1048

abbrev pub d_name : ℕ
d_name = 18

abbrev pub o_directory : ℕ
o_directory = 0x10000

module _ {S : Type 0} (syscall : Call S) (malloc : (size : ℕ) → User S → ℕ × User S)
    (free : (ptr : ℕ) → User S → User S) where
  -- The result of the call is unsigned and never below 0: the buffer is returned whatever it is.
  pub opendir : (name : ℕ) → User S → ℕ × User S
  opendir name u =
      let (fd, u1) = open_file syscall name o_directory u in
      let (buf, u2) = malloc dirent_size u1 in
      let (res, u3) = enter syscall 78 (fd ∷ buf ∷ dirent_size ∷ []) (clear buf dirent_size u2) in
      (buf, u3)

  -- An entry without a name ends the directory.
  pub readdir : (text_fuel dir : ℕ) → User S → Option (ℕ × User S)
  readdir text_fuel dir u = do
    let (buf, u1) = malloc dirent_size u
    let (res, u2) = enter syscall 81 (dir ∷ buf ∷ []) (clear buf dirent_size u1)
    len ← strlen text_fuel u2.memory (buf + d_name)
    some ((if len == 0 then 0 else buf), u2)

  -- The descriptor is taken from the first four bytes.
  pub closedir : (dir : ℕ) → User S → ℕ × User S
  closedir dir u =
      let (res, u1) = close syscall (load_bytes 4 u.memory dir) u in
      if dir == 0 then (minus_one, u) else (res, free dir u1)
