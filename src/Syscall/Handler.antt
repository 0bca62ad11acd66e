-- ===== src/Syscall/Handler.antt =====
-- `system_execve` and the dispatch of calls by number (w2/sys/syscall.c).
use sbrocks.Prelude.{
  ℕ, zero, suc, ◌+◌, true, false, Option, none, some, List, [], ◌∷◌, ◌++◌, ◌==◌, if◌then◌else◌,
}
use sbrocks.Prelude.Fault.{◌>>=◌}
use sbrocks.Kstring.{Memory, strlen, kstrcpy}
use sbrocks.Kstring.Words.{load_bytes}
use sbrocks.Paging.{Vm, kmalloc}
use sbrocks.Process.{Kernel, put_task}
use sbrocks.Elf.{read_elf}
use sbrocks.Syscall.{System, Answer, returns, switches, with_kernel, current, task_of}
use sbrocks.Syscall.Control.{
  system_kill, system_exit, system_brk, system_getpid, system_getppid, system_sleep, system_waitpid,
  system_dup2,
}
use sbrocks.Syscall.Io.{
  system_read, system_write, system_open, system_close, system_lseek, system_getcwd, system_chdir,
  system_pipe, system_getdents, system_readdir, system_clearscreen,
}
use sbrocks.Syscall.Fork.{system_fork, copy_pipes}

-- A copy of the text at `p` in pages of the kernel; the room is without its NUL.
pub copy_text : (text_fuel p : ℕ) → Memory → Vm → Option (ℕ × Memory × Vm)
copy_text text_fuel p m vm = do
  len ← strlen text_fuel m p
  (dest, vm') ← kmalloc len vm
  m' ← kstrcpy text_fuel m dest p
  some (dest, m', vm')

-- The texts of a list of pointers that ends with NULL; `argv` has ten places. `done` holds the copies
-- so far.
pub copy_argv :
    (left text_fuel argv_addr : ℕ) → (done : List ℕ) → Memory → Vm → Option (List ℕ × Memory × Vm)
copy_argv zero text_fuel argv_addr done m vm =
    if load_bytes 8 m argv_addr == 0 then some (done, m, vm) else none
copy_argv (suc left) text_fuel argv_addr done m vm = elim (load_bytes 8 m argv_addr == 0) [
  | true ↦ some (done, m, vm)
  | false ↦ do
    (copy, m', vm') ← copy_text text_fuel (load_bytes 8 m argv_addr) m vm
    copy_argv left text_fuel (argv_addr + 8) (done ++ copy ∷ []) m' vm'
]

-- The new task takes the place of the current one, which loses its parent's number.
pub take_over : (task curr_task : ℕ) → Kernel → Kernel
take_over task curr_task k =
    let old = k.tasks curr_task in
    let new = record (k.tasks task) {
      pid = old.pid;
      ppid = old.ppid;
      parent = old.parent;
      write_redirection_fd = old.write_redirection_fd;
      read_redirection_fd = old.read_redirection_fd;
    } in
    let k1 = put_task task new k in put_task curr_task (record (k1.tasks curr_task) { ppid = 0 }) k1

pub system_execve : (fuel text_fuel filename argv_addr envp_addr : ℕ) → System → Option System
system_execve fuel text_fuel filename argv_addr envp_addr sys = do
  (argv, m1, vm1) ← copy_argv 10 text_fuel argv_addr [] sys.kernel.memory sys.kernel.vm
  (env, m2, vm2) ← copy_text text_fuel (load_bytes 8 m1 envp_addr) m1 vm1
  let k1 = record sys.kernel { memory = m2; vm = vm2 }
  (task, fs, k2) ← read_elf fuel text_fuel filename argv (env ∷ []) sys.fs k1
  let curr_task = current sys
  let sys1 = with_kernel (take_over task curr_task k2) (record sys { fs = fs })
  copy_pipes fuel text_fuel task (task_of sys1 curr_task).pipe sys1

abbrev pub no_answer : System → Answer × System
no_answer sys = (returns 0, sys)

-- `system_waitpid` is called for its effect: what it returns is dropped.
abbrev pub discard : Answer × System → Answer × System
discard (returns ret, sys) = (returns 0, sys)
discard (switches, sys) = (switches, sys)

-- The calls by their names; `sys_none` stands for a number without a body behind it.
pub data Call : Type 0 where
  sys_read : Call
  sys_write : Call
  sys_open : Call
  sys_exit : Call
  sys_brk : Call
  sys_fork : Call
  sys_getpid : Call
  sys_getppid : Call
  sys_execve : Call
  sys_wait4 : Call
  sys_nanosleep : Call
  sys_getcwd : Call
  sys_chdir : Call
  sys_lseek : Call
  sys_close : Call
  sys_pipe : Call
  sys_dup2 : Call
  sys_getdents : Call
  sys_readdir : Call
  sys_clearscreen : Call
  sys_kill : Call
  sys_none : Call

pub call_of : ℕ → Call
call_of n =
    if n == 0
    then Call.sys_read
    else if n == 1
    then Call.sys_write
    else if n == 2
    then Call.sys_open
    else if n == 60
    then Call.sys_exit
    else if n == 12
    then Call.sys_brk
    else if n == 57
    then Call.sys_fork
    else if n == 39
    then Call.sys_getpid
    else if n == 110
    then Call.sys_getppid
    else if n == 59
    then Call.sys_execve
    else if n == 61
    then Call.sys_wait4
    else if n == 35
    then Call.sys_nanosleep
    else if n == 79
    then Call.sys_getcwd
    else if n == 80
    then Call.sys_chdir
    else if n == 8
    then Call.sys_lseek
    else if n == 3
    then Call.sys_close
    else if n == 22
    then Call.sys_pipe
    else if n == 33
    then Call.sys_dup2
    else if n == 78
    then Call.sys_getdents
    else if n == 81
    then Call.sys_readdir
    else if n == 83
    then Call.sys_clearscreen
    else if n == 84
    then Call.sys_kill
    else Call.sys_none

-- What `switch_handler` returns for a call by its number. Numbers that stand for calls without a body
-- or for none answer 0.
pub switch_handler :
    (fuel text_fuel temp_name syscall_num first_arg sec_arg third_arg : ℕ)
    → System
    → Option (Answer × System)
switch_handler fuel text_fuel temp_name syscall_num first_arg sec_arg third_arg sys =
    elim (call_of syscall_num) [
      | Call.sys_read ↦ system_read fuel text_fuel first_arg sec_arg third_arg sys
      | Call.sys_write ↦ do
        (ret, sys') ← system_write fuel text_fuel first_arg sec_arg third_arg sys
        some (returns ret, sys')
      | Call.sys_open ↦ do ret ← system_open fuel text_fuel first_arg sys; some (returns ret, sys)
      | Call.sys_exit ↦ do sys' ← system_exit fuel sys; some (switches, sys')
      | Call.sys_brk ↦ do (ret, sys') ← system_brk fuel first_arg sys; some (returns ret, sys')
      | Call.sys_fork ↦ do sys' ← system_fork fuel text_fuel sys; some (switches, sys')
      | Call.sys_getpid ↦ some (returns (system_getpid sys), sys)
      | Call.sys_getppid ↦ some (returns (system_getppid sys), sys)
      | Call.sys_execve ↦ do
        sys' ← system_execve fuel text_fuel first_arg sec_arg third_arg sys
        some (no_answer sys')
      | Call.sys_wait4 ↦ some (discard (system_waitpid first_arg sec_arg sys))
      | Call.sys_nanosleep ↦ some (switches, system_sleep first_arg sys)
      | Call.sys_getcwd ↦ do
        (ret, sys') ← system_getcwd text_fuel first_arg sys
        some (returns ret, sys')
      | Call.sys_chdir ↦ do
        (ret, sys') ← system_chdir fuel text_fuel first_arg sys
        some (returns ret, sys')
      | Call.sys_lseek ↦ do
        (ret, sys') ← system_lseek fuel first_arg sec_arg third_arg sys
        some (returns ret, sys')
      | Call.sys_close ↦ do sys' ← system_close fuel first_arg sys; some (no_answer sys')
      | Call.sys_pipe ↦ do sys' ← system_pipe fuel first_arg sys; some (no_answer sys')
      | Call.sys_dup2 ↦ some (no_answer (system_dup2 first_arg sec_arg sys))
      | Call.sys_getdents ↦ do
        (ret, sys') ← system_getdents fuel text_fuel first_arg sec_arg sys
        some (returns ret, sys')
      | Call.sys_readdir ↦ do
        sys' ← system_readdir fuel text_fuel temp_name first_arg sec_arg sys
        some (no_answer sys')
      | Call.sys_clearscreen ↦ some (no_answer (system_clearscreen sys))
      | Call.sys_kill ↦ do (ret, sys') ← system_kill fuel first_arg sys; some (returns ret, sys')
      | Call.sys_none ↦ some (no_answer sys)
    ]
