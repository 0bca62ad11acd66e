-- ===== src/Pipe.antt =====
-- The pipes of w2/sys/syscall.c: structures of files in a list that starts at the `pipe` field of a
-- task. The functions take that field, `head`, in place of the task.
-- An `int` count is cut and widened again with its sign. A walk takes fuel.
pub mod Walk
pub mod Queue
pub mod Fifo
mod Tests
use sbrocks.Prelude.{
  ℕ, zero, suc, ◌+◌, ◌%◌, Bool, true, false, Option, none, some, ◌==◌, if◌then◌else◌,
}
use sbrocks.Prelude.Chain.{last}
use sbrocks.Prelude.Fault.{◌>>=◌}
use sbrocks.Kstring.{memcpy, word_mod}
use sbrocks.Tarfs.{Tarfs, next_file, set_next_file, set_offset, int_size}

-- The new head and the files.
pub add_pipe_to_task : (fuel head pipe : ℕ) → Tarfs → Option (ℕ × Tarfs)
add_pipe_to_task fuel head pipe fs = if head == 0 then some (pipe, set_next_file pipe 0 fs) else do
  t ← last fuel (next_file fs) head
  some (head, set_next_file pipe 0 (set_next_file t pipe fs))

pub has_fd : (fuel fd t : ℕ) → Tarfs → Option Bool
has_fd zero fd t fs = none
has_fd (suc fuel) fd t fs =
    let rest = has_fd fuel fd (next_file fs t) fs in
    if t == 0 then some false else if (fs.files t).fd == fd then some true else rest

pub is_file_pipe : (fuel head fd : ℕ) → Tarfs → Option Bool
is_file_pipe fuel head fd fs = has_fd fuel fd head fs

-- The walk that looks for the descriptor at `curr`, behind `prev`.
pub unlink_pipe : (fuel fd prev curr : ℕ) → Tarfs → Option Tarfs
unlink_pipe zero fd prev curr fs = none
unlink_pipe (suc fuel) fd prev curr fs =
    let rest = unlink_pipe fuel fd curr (next_file fs curr) fs in
    if curr == 0
    then some fs
    else if (fs.files curr).fd == fd
    then some (set_next_file prev (next_file fs curr) fs)
    else rest

pub remove_pipe_from_task : (fuel head fd : ℕ) → Tarfs → Option (ℕ × Tarfs)
remove_pipe_from_task fuel head fd fs =
    if head == 0
    then some (0, fs)
    else if (fs.files head).fd == fd
    then some (next_file fs head, fs)
    else do fs' ← unlink_pipe fuel fd head (next_file fs head) fs; some (head, fs')

-- `while (temp != NULL) { if (temp->fd == fd) body(temp); temp = temp->next; }`
pub for_fd : (fuel : ℕ) → (ℕ → Tarfs → Tarfs) → (fd t : ℕ) → Tarfs → Option Tarfs
for_fd zero body fd t fs = none
for_fd (suc fuel) body fd t fs =
    let fs' = if (fs.files t).fd == fd then body t fs else fs in
    let rest = for_fd fuel body fd (next_file fs' t) fs' in if t == 0 then some fs else rest

abbrev pub move : (p nbytes : ℕ) → Tarfs → Tarfs
move p nbytes fs = set_offset p (((fs.files p).offset + int_size nbytes) % word_mod) fs

pub write_pipe : (buf nbytes p : ℕ) → Tarfs → Tarfs
write_pipe buf nbytes p fs =
    let addr = ((fs.files p).addr + (fs.files p).offset) % word_mod in
    move p nbytes (record fs { memory = memcpy fs.memory addr buf (int_size nbytes) })

pub read_pipe : (outbuf nbytes p : ℕ) → Tarfs → Tarfs
read_pipe outbuf nbytes p fs =
    let addr = ((fs.files p).addr + (fs.files p).offset) % word_mod in
    move p nbytes (record fs { memory = memcpy fs.memory outbuf addr (int_size nbytes) })

pub write_to_pipe : (fuel head fd buf nbytes : ℕ) → Tarfs → Option Tarfs
write_to_pipe fuel head fd buf nbytes fs = for_fd fuel (write_pipe buf nbytes) fd head fs

pub read_from_pipe : (fuel head fd outbuf nbytes : ℕ) → Tarfs → Option Tarfs
read_from_pipe fuel head fd outbuf nbytes fs = for_fd fuel (read_pipe outbuf nbytes) fd head fs
