-- ===== src/Syscall/Io.antt =====
-- The calls of w2/sys/syscall.c on files, pipes, directories, keyboard and screen.
pub mod Read
use mathlib.Core.Option
use sbrocks.Prelude.{
  ℕ, zero, suc, ◌+◌, ◌-◌, ◌%◌, ◌^◌, Bool, true, false, Option, none, some, List, [], ◌∷◌, ◌==◌, not,
  ltb, if◌then◌else◌, bit_or,
}
use sbrocks.Prelude.Fault.{◌>>=◌, ◌>>◌, require}
use sbrocks.Kstring.{Memory, memcpy, kstrcpy, word_mod, int_mod}
use sbrocks.Kstring.Words.{store_bytes, load_bytes}
use sbrocks.Paging.{kmalloc, alloc_pages, pt_present_flag, pt_writable_flag, pt_user}
use sbrocks.Process.{Kernel, Task, TaskState, put_task, set_state}
use sbrocks.Tarfs.{
  Tarfs, File, fopen, fread, fwrite, fclose, fseek, set_cwd, get_cwd, put_file, int_size,
}
use sbrocks.Tarfs.Dir.{dopen, dread, write_text, file_size}
use sbrocks.Vga.{Vga, putch, puts, clearscreen}
use sbrocks.Kb.{set_flag, set_waiting_task, gets}
use sbrocks.Pipe.{
  is_file_pipe, write_to_pipe, read_from_pipe, remove_pipe_from_task, add_pipe_to_task,
}
use sbrocks.Syscall.{
  System, Answer, returns, switches, minus_one, with_kernel, with_memory, with_fs, fs_of, with_vga,
  vga_of, current, current_of, change_task, leave_processor, add_to_pipe_read_waiting_queue,
  wake_up_waiting_task,
}

-- `puts` of a text that the source writes down.
pub put_text : List ℕ → Vga → Vga
put_text [] vga = vga
put_text (c ∷ cs) vga = put_text cs (putch c vga)

abbrev pub error_text : List ℕ
error_text = b'E' ∷ b'r' ∷ b'r' ∷ b'o' ∷ b'r' ∷ b':' ∷ []

pub write_stdout : (fuel text_fuel buf nbytes : ℕ) → System → Option System
write_stdout fuel text_fuel buf nbytes sys =
    let t = current_of sys in
    let shown = puts text_fuel buf (vga_of sys) in
    let written = write_to_pipe fuel t.pipe t.write_redirection_fd buf nbytes (fs_of sys) in
    if t.write_redirection_fd == 0 then (do vga ← shown; some (with_vga vga sys)) else do
      fs ← written
      wake_up_waiting_task fuel (record (with_fs fs sys) { pipe_write_flag = 1 })

pub system_write : (fuel text_fuel fd buf nbytes : ℕ) → System → Option (ℕ × System)
system_write fuel text_fuel fd buf nbytes sys = do
  let t = current_of sys
  piped ← is_file_pipe fuel t.pipe fd (fs_of sys)
  if piped
      then (do
        fs ← write_to_pipe fuel t.pipe fd buf nbytes (fs_of sys)
        some (nbytes, with_fs fs sys))
      else if fd == 1
      then (do sys' ← write_stdout fuel text_fuel buf nbytes sys; some (nbytes, sys'))
      else if fd == 2
      then (do
        vga ← puts text_fuel buf (put_text error_text (vga_of sys))
        some (nbytes, with_vga vga sys))
      else (do (answer, fs) ← fwrite fuel fd buf nbytes (fs_of sys); some (answer, with_fs fs sys))

-- Standard input from a pipe: at once after a write, and else the task waits for one.
pub read_redirected : (fuel buf nbytes : ℕ) → System → Option (Answer × System)
read_redirected fuel buf nbytes sys =
    let t = current_of sys in
    let read = read_from_pipe fuel t.pipe t.read_redirection_fd buf nbytes (fs_of sys) in
    if sys.pipe_write_flag == 1
    then (do fs ← read; some (returns 0, record (with_fs fs sys) { pipe_write_flag = 0 }))
    else some (
      switches,
      add_to_pipe_read_waiting_queue (current sys) (record sys { str = buf; count = nbytes }),
    )

-- Standard input from the keyboard.
pub read_keyboard : (buf nbytes : ℕ) → System → System
read_keyboard buf nbytes sys =
    let task = current sys in
    let kb = gets buf (int_size nbytes) (set_waiting_task task (set_flag sys.kb)) in
    leave_processor
      (with_kernel (set_state task TaskState.task_waiting sys.kernel) (record sys { kb = kb }))

-- An `int` answer, widened to 64 bits.
abbrev pub widened : ℕ → ℕ
widened answer = int_size answer

pub system_read : (fuel text_fuel fd buf nbytes : ℕ) → System → Option (Answer × System)
system_read fuel text_fuel fd buf nbytes sys = do
  let t = current_of sys
  piped ← is_file_pipe fuel t.pipe fd (fs_of sys)
  if piped
      then (do
        fs ← read_from_pipe fuel t.pipe fd buf nbytes (fs_of sys)
        some (returns 0, with_fs fs sys))
      else if fd == 0
      then (if t.read_redirection_fd == 0
          then some (switches, read_keyboard buf nbytes sys)
          else read_redirected fuel buf nbytes sys)
      else (do
        (answer, fs) ← fread fuel text_fuel fd buf nbytes (fs_of sys)
        some (returns (widened answer), with_fs fs sys))

pub system_open : (fuel text_fuel filepath : ℕ) → System → Option ℕ
system_open fuel text_fuel filepath sys =
    Option.map widened (fopen fuel text_fuel filepath (fs_of sys))

pub system_close : (fuel fd : ℕ) → System → Option System
system_close fuel fd sys = do
  let t = current_of sys
  piped ← is_file_pipe fuel t.pipe fd (fs_of sys)
  if piped
      then (do
        (head, fs) ← remove_pipe_from_task fuel t.pipe fd (fs_of sys)
        let t1 = record t { pipe = head }
        let t2 =
            if t.write_redirection_fd == fd
            then record t1 { write_redirection_fd = 0 }
            else if t.read_redirection_fd == fd
            then record t1 { read_redirection_fd = 0 }
            else t1
        some (change_task (current sys) t2 (with_fs fs sys)))
      else (do fs ← fclose fuel fd (fs_of sys); some (with_fs fs sys))

pub system_lseek : (fuel fd offset whence : ℕ) → System → Option (ℕ × System)
system_lseek fuel fd offset whence sys = do
  (answer, fs) ← fseek fuel fd offset whence (fs_of sys)
  some (answer, with_fs fs sys)

pub system_getcwd : (text_fuel buf : ℕ) → System → Option (ℕ × System)
system_getcwd text_fuel buf sys = do
  m ← kstrcpy text_fuel sys.kernel.memory buf (get_cwd sys.fs)
  some (buf, with_memory m sys)

pub system_chdir : (fuel text_fuel path : ℕ) → System → Option (ℕ × System)
system_chdir fuel text_fuel path sys = do
  fd ← fopen fuel text_fuel path (fs_of sys)
  let moved = set_cwd text_fuel path (fs_of sys)
  if ltb fd (2 ^ 31) then (do fs ← moved; some (0, with_fs fs sys)) else some (minus_one, sys)

-- A pipe's structure, with the next descriptor.
pub new_pipe : (p addr : ℕ) → (name : List ℕ) → Tarfs → Tarfs
new_pipe p addr name fs =
    put_file p
      (record (fs.files p) { addr = addr; fd = fs.fd_count; size = 4096; offset = 0; next = 0 })
      (record fs { memory = write_text fs.memory p name; fd_count = fs.fd_count + 1 })

abbrev pub pipe1 : List ℕ
pipe1 = b'p' ∷ b'i' ∷ b'p' ∷ b'e' ∷ b'1' ∷ []

abbrev pub pipe2 : List ℕ
pipe2 = b'p' ∷ b'i' ∷ b'p' ∷ b'e' ∷ b'2' ∷ []

pub system_pipe : (fuel fds : ℕ) → System → Option System
system_pipe fuel fds sys = do
  let task = current sys
  (p1, vm1) ← kmalloc file_size sys.kernel.vm
  (p2, vm2) ← kmalloc file_size vm1
  (addr, vm3) ← alloc_pages 1 (bit_or (bit_or pt_present_flag pt_writable_flag) pt_user) vm2
  let fs1 = new_pipe p2 addr pipe2 (new_pipe p1 addr pipe1 (fs_of sys))
  (head1, fs2) ← add_pipe_to_task fuel (current_of sys).pipe p1 fs1
  (head2, fs3) ← add_pipe_to_task fuel head1 p2 fs2
  let sys1 = with_kernel (record sys.kernel { vm = vm3 }) sys
  let sys2 = change_task task (record (current_of sys) { pipe = head2 }) (with_fs fs3 sys1)
  let m1 = store_bytes 4 sys2.kernel.memory fds (fs3.files p1).fd
  some (with_memory (store_bytes 4 m1 (fds + 4) (fs3.files p2).fd) sys2)

-- `sizeof(struct dirent)`, and the places of its fields.
abbrev pub dirent_size : ℕ
dirent_size = 1048

pub fill_dirent : (text_fuel dir r : ℕ) → Tarfs → Option Memory
fill_dirent text_fuel dir r fs =
    let f = fs.files r in
    let m1 = store_bytes 8 fs.memory dir f.fd in
    let m2 = store_bytes 8 m1 (dir + 8) f.offset in
    let m3 = store_bytes 2 m2 (dir + 16) (f.size % 2 ^ 16) in kstrcpy text_fuel m3 (dir + 18) r

pub system_getdents : (fuel text_fuel fd buf : ℕ) → System → Option (ℕ × System)
system_getdents fuel text_fuel fd buf sys = do
  (dir, vm) ← kmalloc dirent_size sys.kernel.vm
  let sys1 = with_kernel (record sys.kernel { vm = vm }) sys
  r ← dopen fuel text_fuel fd (fs_of sys1)
  let filled = fill_dirent text_fuel dir r (fs_of sys1)
  if r == 0
      then some (minus_one, sys1)
      else (do m ← filled; some (0, with_memory (memcpy m buf dir dirent_size) sys1))

-- `temp_name` is the address of the local array of `dread`.
pub system_readdir : (fuel text_fuel temp_name addr buf : ℕ) → System → Option System
system_readdir fuel text_fuel temp_name addr buf sys = do
  (dir, vm) ← kmalloc file_size sys.kernel.vm
  m ← kstrcpy text_fuel sys.kernel.memory dir (addr + 18)
  let fs = record sys.fs { memory = m }
  let named = put_file dir (record (fs.files dir) { fd = load_bytes 8 m addr }) fs
  let sys1 = with_fs named (with_kernel (record sys.kernel { vm = vm }) sys)
  r ← dread fuel text_fuel temp_name dir named
  let filled = fill_dirent text_fuel addr r named
  if r == 0
      then some sys1
      else (do m' ← filled; some (with_memory (memcpy m' buf addr dirent_size) sys1))

pub system_clearscreen : System → System
system_clearscreen sys = with_vga (clearscreen (vga_of sys)) sys
