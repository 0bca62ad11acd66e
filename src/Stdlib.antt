-- ===== src/Stdlib.antt =====
-- w2/libc/stdlib.c: the system calls as user programs see them.
-- The entry of the kernel, `syscall`, is a parameter: it takes the number and the arguments of a call
-- with the memory and the rest of the system, and gives a word of 64 bits. A result of type `int` is
-- a word of 32 bits.
pub mod Dir
use sbrocks.Prelude.{
  ℕ, ◌+◌, ◌-◌, ◌%◌, ◌^◌, Bool, true, false, Option, none, some, List, [], ◌∷◌, leb, ltb, ◌==◌,
  if◌then◌else◌,
}
use sbrocks.Prelude.Fault.{◌>>=◌}
use sbrocks.Kstring.{Memory, int_mod, word_mod}
use sbrocks.Kstring.Words.{store_bytes}
use sbrocks.Libc.{memset, strlen}

pub record User (S : Type 0) : Type 0 where
  pub memory : Memory
  pub system : S
  pub errno : ℕ

abbrev pub Call : (S : Type 0) → Type 0
Call S = (number : ℕ) → (args : List ℕ) → Memory → S → ℕ × Memory × S

-- `(int) res < 0`
unfoldable pub is_error : (res : ℕ) → Bool
is_error res = leb (2 ^ 31) (res % int_mod)

abbrev pub minus_one : ℕ
minus_one = int_mod - 1

-- A negative result gives -1, `failed` in the width of the function's type, and goes to `errno`.
unfoldable pub report : {S : Type 0} (failed : ℕ) → ℕ × User S → ℕ × User S
unfolding is_error
report failed (res, u) =
    if is_error res
    then (failed, record u { errno = (int_mod - res % int_mod) % int_mod })
    else (res, u)

abbrev pub low_int : {S : Type 0} → ℕ × User S → ℕ × User S
low_int (res, u) = (res % int_mod, u)

abbrev pub clear : {S : Type 0} (buf count : ℕ) → User S → User S
clear buf count u = record u { memory = memset count (u.memory) buf 0 }

module _ {S : Type 0} (syscall : Call S) where
  unfoldable pub enter : (number : ℕ) → (args : List ℕ) → User S → ℕ × User S
  enter number args u =
      let (res, m, s) = syscall number args u.memory u.system in
      (res, record u { memory = m; system = s })

  pub exit : (status : ℕ) → User S → ℕ × User S
  exit status u = enter 60 (status ∷ []) u

  pub kill : (pid : ℕ) → User S → ℕ × User S
  kill pid u =
      let (ret, u') = low_int (enter 84 (pid ∷ []) u) in
      ((if is_error ret then ret + word_mod - int_mod else ret), u')

  pub fork : User S → ℕ × User S
  fork u = report minus_one (low_int (enter 57 [] u))

  pub getpid : User S → ℕ × User S
  getpid u = low_int (enter 39 [] u)

  pub getppid : User S → ℕ × User S
  getppid u = low_int (enter 110 [] u)

  pub execve : (filename argv envp : ℕ) → User S → ℕ × User S
  execve filename argv envp u =
      report minus_one (low_int (enter 59 (filename ∷ argv ∷ envp ∷ []) u))

  pub listprocess : User S → User S
  listprocess u = (enter 82 [] u).1

  pub cls : User S → User S
  cls u = (enter 83 [] u).1

  pub sleep : (seconds : ℕ) → User S → ℕ × User S
  sleep seconds u = low_int (enter 35 (seconds ∷ []) u)

  pub alarm : (seconds : ℕ) → User S → ℕ × User S
  alarm seconds u = low_int (enter 37 (seconds ∷ []) u)

  -- `EFAULT` is 14.
  pub getcwd : (buf size : ℕ) → User S → ℕ × User S
  getcwd buf size u =
      let (res, u') = enter 79 (buf ∷ size ∷ []) (clear buf size u) in
      (res, (if res == 0 then record u' { errno = 14 } else u'))

  pub chdir : (path : ℕ) → User S → ℕ × User S
  chdir path u = report minus_one (low_int (enter 80 (path ∷ []) u))

  pub open_file : (pathname flags : ℕ) → User S → ℕ × User S
  open_file pathname flags u = report minus_one (low_int (enter 2 (pathname ∷ flags ∷ []) u))

  -- The buffer is cleared before the call.
  unfoldable pub read : (fd buf count : ℕ) → User S → ℕ × User S
  unfolding enter report
  read fd buf count u = report (word_mod - 1) (enter 0 (fd ∷ buf ∷ count ∷ []) (clear buf count u))

  unfoldable pub write : (fd buf count : ℕ) → User S → ℕ × User S
  unfolding enter report
  write fd buf count u = report (word_mod - 1) (enter 1 (fd ∷ buf ∷ count ∷ []) u)

  pub lseek : (fildes offset whence : ℕ) → User S → ℕ × User S
  lseek fildes offset whence u = report (word_mod - 1) (enter 8 (fildes ∷ offset ∷ whence ∷ []) u)

  pub close : (fd : ℕ) → User S → ℕ × User S
  close fd u = report minus_one (low_int (enter 3 (fd ∷ []) u))

  -- Both descriptors are -1 before the call.
  pub pipe : (filedes : ℕ) → User S → ℕ × User S
  pipe filedes u =
      let m1 = store_bytes 4 (u.memory) filedes minus_one in
      let m2 = store_bytes 4 m1 (filedes + 4) minus_one in
      report minus_one (low_int (enter 22 (filedes ∷ []) (record u { memory = m2 })))

  pub dup : (oldfd : ℕ) → User S → ℕ × User S
  dup oldfd u = report minus_one (low_int (enter 32 (oldfd ∷ []) u))

  pub dup2 : (oldfd newfd : ℕ) → User S → ℕ × User S
  dup2 oldfd newfd u = report minus_one (low_int (enter 33 (oldfd ∷ newfd ∷ []) u))

  pub waitpid : (pid status options : ℕ) → User S → ℕ × User S
  waitpid pid status options u =
      let m = store_bytes 4 (u.memory) status minus_one in
      report minus_one (low_int (enter 61 (pid ∷ status ∷ options ∷ []) (record u { memory = m })))
