-- ===== src/Shell/Pipeline.antt =====
-- w2/bin/sbush/sbush.c: the processes that the shell starts.
-- `absolute` is what `getAbsolutePath` finds for a command, 0 for nothing. A process is seen by where
-- it reads and writes, as the system calls of w2/sys/syscall.c set it, and by what it runs. What
-- `handleCommand` does in a child ends with it.
pub mod Wiring
use sbrocks.Prelude.{
  ℕ, zero, suc, ◌+◌, ◌%◌, Bool, true, false, Option, none, some, List, [], ◌∷◌, ◌==◌, not,
  if◌then◌else◌, ◌&&◌, ◌||◌, ltb,
}
use sbrocks.Kstring.{int_mod}

-- Where a process reads and writes in place of the keyboard and the screen: 0 for no other place.
pub record Redirection : Type 0 where
  pub read_redirection_fd : ℕ
  pub write_redirection_fd : ℕ

-- What `system_dup2` does to the calling process.
pub dup2 : (dstfd srcfd : ℕ) → Redirection → Redirection
dup2 dstfd srcfd r =
    if srcfd == 1
    then record r { write_redirection_fd = dstfd }
    else if srcfd == 0
    then record r { read_redirection_fd = dstfd }
    else r

-- The descriptors that `system_pipe` stores: the system's count of descriptors and the one behind it.
pub pipe_fds : (count : ℕ) → ℕ × ℕ
pipe_fds count = (count % int_mod, (count + 1) % int_mod)

-- The child that runs a command in front of a pipe.
pub front_child : (prev : ℕ) → (fd : ℕ × ℕ) → Redirection → Redirection
front_child prev fd r =
    let r1 = if prev == 0 then r else dup2 prev 0 r in if fd.1 == 1 then r1 else dup2 (fd.1) 1 r1

-- The last command, which the child of the shell runs itself.
pub last_child : (prev : ℕ) → Redirection → Redirection
last_child prev r = if prev == 0 then r else dup2 prev 0 r

abbrev pub Commands : Type 0
Commands = ℕ → ℕ → ℕ

abbrev pub drop_argument : (command : ℕ) → Commands → Commands
drop_argument command commands c a = if (c == command) && (a == 1) then 0 else commands c a

pub drop_arguments : (n : ℕ) → Commands → Commands
drop_arguments zero commands = commands
drop_arguments (suc n) commands = drop_argument n (drop_arguments n commands)

-- The commands of the first `n` that are not found.
unfoldable pub missing : (n : ℕ) → (absolute : ℕ → ℕ) → Commands → List ℕ
missing zero absolute commands = []
missing (suc n) absolute commands =
    let rest = missing n absolute commands in
    if absolute (commands n 0) == 0 then n ∷ rest else rest

-- What a child does before it exits: it answers the command itself, or runs the program at the path
-- with the arguments; or it faults.
pub data Act : Type 0 where
  answers : (path : ℕ) → Act
  execve : (path : ℕ) → (argv : ℕ → ℕ) → Act
  faults : Act

pub record Stage : Type 0 where
  pub redirection : Redirection
  pub act : Act

-- The command at a place in the table, with what `handleCommand` gives for a path and an argument.
pub run_command :
    (built_in : (cmd args : ℕ) → Option Bool) → (absolute : ℕ → ℕ) → Commands → (command : ℕ) → Act
run_command built_in absolute commands command =
    let path = absolute (commands command 0) in
    elim (built_in path (commands command 1)) [
      | none ↦ Act.faults
      | some handled ↦ if handled then Act.answers path else Act.execve path (commands command)
    ]

-- The loop for the pipes from `i` on, with `left` of them: the processes that run the commands.
-- `counts` is the system's count of descriptors when each pipe is made.
pub stages :
    (act : (command : ℕ) → Act) → (counts : ℕ → ℕ) → (left i prev : ℕ) → Redirection → List Stage
stages act counts zero i prev r = record { redirection = last_child prev r; act = act i } ∷ []
stages act counts (suc left) i prev r =
    let fd = pipe_fds (counts i) in
    record { redirection = front_child prev fd r; act = act i }
    ∷ stages act counts left (suc i) (fd.0) r

-- What the shell starts for a line: nothing, or processes that it waits for or not.
pub data Started : Type 0 where
  handled : Started
  not_found : (commands : List ℕ) → Started
  process : (path : ℕ) → (waits : Bool) → Started
  pipeline : List Stage → Started

-- `built_in` is whether `handleCommand` gives 1, and `background` compares a text with "&".
pub execute_process :
    (built_in : Bool) → (absolute : ℕ → ℕ) → (background : ℕ → Bool) → Commands → Started × Commands
execute_process built_in absolute background commands =
    let path = absolute (commands 0 0) in
    let argument = commands 0 1 in
    let waits = (argument == 0) || not (background argument) in
    if built_in
    then (Started.handled, commands)
    else if path == 0
    then (Started.not_found (0 ∷ []), commands)
    else (Started.process path waits, drop_argument 0 commands)

pub execute_process_pipe :
    (built_in : (cmd args : ℕ) → Option Bool)
    → (n : ℕ) → (counts : ℕ → ℕ) → (absolute : ℕ → ℕ) → Redirection
    → Commands
    → Started × Commands
execute_process_pipe built_in zero counts absolute r commands = (Started.not_found [], commands)
execute_process_pipe built_in (suc pipes) counts absolute r commands =
    elim (missing (suc pipes) absolute commands) [
      | [] ↦ (
        Started.pipeline (stages (run_command built_in absolute commands) counts pipes 0 0 r),
        drop_arguments (suc pipes) commands,
      )
      | c ∷ cs ↦ (Started.not_found (c ∷ cs), commands)
    ]
