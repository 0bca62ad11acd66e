-- ===== src/Shell/Pipeline/Wiring.antt =====
-- The processes of a pipeline of w2/bin/sbush/sbush.c: what they read, write and run.
use sbrocks.Prelude.{
  ℕ, zero, suc, ◌+◌, ◌%◌, ◌^◌, ◌<◌, ◌≤◌, ◌≡◌, ◌≢◌, refl, ◌∙◌, ◌==◌, if◌then◌else◌, ◌&&◌, ltb, Bool,
  true, false, Option, some, List, [], ◌∷◌, arith, Bool-cases, inl, inr,
}
use sbrocks.Kstring.{int_mod}
use sbrocks.Shell.Pipeline.{
  Redirection, dup2, pipe_fds, front_child, last_child, Act, Stage, run_command, stages, Started,
  Commands, missing, drop_arguments, execute_process_pipe,
}

-- The descriptors that the system counts when the pipes are made are above those of the keyboard and
-- the screen, and `int`s.
pub record IsCounted (counts : ℕ → ℕ) : Type 0 where
  pub low : (i : ℕ) → 2 ≤ counts i
  pub small : (i : ℕ) → counts i + 1 < 2 ^ 31

-- Where command `k` reads: in the first of the two descriptors of the pipe in front of it, if any.
abbrev pub input_of : (counts : ℕ → ℕ) → Redirection → (k : ℕ) → ℕ
input_of counts r zero = r.read_redirection_fd
input_of counts r (suc k) = counts k

-- A process runs a command: where `handleCommand` does not answer it, the program at its path with
-- its row of the table.
abbrev pub Runs :
    (built_in : (cmd args : ℕ) → Option Bool) (absolute : ℕ → ℕ) → Commands → ℕ → Act → Type 0
Runs built_in absolute commands k act =
    let path = absolute (commands k 0) in
    (built_in path (commands k 1) ≡ some true → act ≡ Act.answers path)
    × (built_in path (commands k 1) ≡ some false → act ≡ Act.execve path (commands k))

-- The processes of a pipeline from command `i` on, with `left` pipes to come; the last one writes
-- where the shell does.
pub data IsWired (runs : ℕ → Act → Type 0) (counts : ℕ → ℕ) (r : Redirection)
    : (i left : ℕ) → List Stage → Type 0 where
  last :
      {i : ℕ} (s : Stage)
      → s.redirection.read_redirection_fd ≡ input_of counts r i
      → s.redirection.write_redirection_fd ≡ r.write_redirection_fd
      → runs i s.act
      → IsWired runs counts r i 0 (s ∷ [])
  front :
      {i left : ℕ} (s : Stage) (ss : List Stage)
      → s.redirection.read_redirection_fd ≡ input_of counts r i
      → s.redirection.write_redirection_fd ≡ counts i + 1
      → runs i s.act
      → IsWired runs counts r (suc i) left ss
      → IsWired runs counts r i (suc left) (s ∷ ss)

-- What stands in `prev`: nothing before the first pipe.
abbrev IsPrev : (counts : ℕ → ℕ) → (i prev : ℕ) → Type 0
IsPrev counts zero prev = prev ≡ 0
IsPrev counts (suc k) prev = (prev ≡ counts k) × (prev ≢ 0)

last_child-read :
    (counts : ℕ → ℕ) (i prev : ℕ) (r : Redirection)
    → IsPrev counts i prev
    → (last_child prev r).read_redirection_fd ≡ input_of counts r i
unfolding last_child dup2
last_child-read counts zero prev r h = let e : (prev == 0) ≡ true = ground arith in rw e refl
last_child-read counts (suc k) prev r (is, nz) =
    let e : (prev == 0) ≡ false = ground arith in rw e is

last_child-write :
    (prev : ℕ) (r : Redirection) → (last_child prev r).write_redirection_fd ≡ r.write_redirection_fd
unfolding last_child dup2
last_child-write prev r = elim (Bool-cases (prev == 0)) [ inl e ↦ rw e refl | inr e ↦ rw e refl ]

front_child-redirection :
    (prev : ℕ) (fd : ℕ × ℕ) (r : Redirection)
    → fd.1 ≢ 1
    → ((front_child prev fd r).read_redirection_fd ≡ (last_child prev r).read_redirection_fd)
      × ((front_child prev fd r).write_redirection_fd ≡ fd.1)
unfolding front_child last_child dup2
front_child-redirection prev fd r h =
    let e : (fd.1 == 1) ≡ false = ground arith in (rw e refl, rw e refl)

run_command-Runs :
    (built_in : (cmd args : ℕ) → Option Bool) (absolute : ℕ → ℕ) (commands : Commands) (k : ℕ)
    → Runs built_in absolute commands k (run_command built_in absolute commands k)
unfolding run_command
run_command-Runs built_in absolute commands k =
    (λ e. rw (run_command, e) refl, λ e. rw (run_command, e) refl)

module _ (runs : ℕ → Act → Type 0) (act : ℕ → Act) (all : (k : ℕ) → runs k (act k)) (counts : ℕ → ℕ)
    (counted : IsCounted counts) (r : Redirection) where
  stages-IsWired :
      (left i prev : ℕ)
      → IsPrev counts i prev
      → IsWired runs counts r i left (stages act counts left i prev r)
  unfolding stages pipe_fds
  stages-IsWired zero i prev h =
      IsWired.last (record { redirection = last_child prev r; act = act i })
        (last_child-read counts i prev r h) (last_child-write prev r) (all i)
  stages-IsWired (suc left) i prev h =
      let fd = pipe_fds (counts i) in
      let low = counted.low i in
      let small = counted.small i in
      let read_end : counts i % int_mod ≡ counts i = ground arith in
      let write_end : (counts i + 1) % int_mod ≡ counts i + 1 = ground arith in
      let (reads, writes) = front_child-redirection prev fd r (λ e. omega (arith, write_end, e)) in
      IsWired.front (record { redirection = front_child prev fd r; act = act i })
        (stages act counts left (suc i) fd.0 r) (reads ∙ last_child-read counts i prev r h)
        (writes ∙ write_end) (all i)
        (stages-IsWired left (suc i) fd.0 (read_end, λ e. omega (arith, read_end, e)))

missing-none :
    (n : ℕ) (absolute : ℕ → ℕ) (commands : Commands)
    → ((c : ℕ) → c < n → absolute (commands c 0) ≢ 0)
    → missing n absolute commands ≡ []
unfolding missing
missing-none zero absolute commands found = refl
missing-none (suc n) absolute commands found =
    let here = found n (omega arith) in
    let e : (absolute (commands n 0) == 0) ≡ false = ground arith in
    rw (missing, e) (missing-none n absolute commands (λ c l. found c (omega arith)))

drop_arguments-row :
    (n : ℕ) (commands : Commands) (c a : ℕ)
    → drop_arguments n commands c a ≡ (if ltb c n && (a == 1) then 0 else commands c a)
unfolding drop_arguments
drop_arguments-row zero commands c a =
    let e : (ltb c 0 && (a == 1)) ≡ false = ground arith in rw (drop_arguments, e) refl
drop_arguments-row (suc n) commands c a =
    let rest = drop_arguments-row n commands c a in
    elim (Bool-cases ((c == n) && (a == 1))) [
      | inl here ↦
          let e : (ltb c (suc n) && (a == 1)) ≡ true = ground arith in
          rw (drop_arguments, here, e) refl
      | inr other ↦
          let e : (ltb c (suc n) && (a == 1)) ≡ (ltb c n && (a == 1)) = ground arith in
          rw (drop_arguments, other, e) rest
    ]

-- A pipeline whose commands are all found starts a process for each of them. Each one reads from the
-- pipe in front of it and writes into the pipe behind it, where the first reads and the last writes
-- where the shell does; it runs the program at its path with its words, unless the shell answers the
-- command itself. Then the first argument of each command is dropped from the table, and nothing
-- else. It needs that the system's count of descriptors, when each pipe is made, is 2 or more
-- and an `int`.
pub execute_process_pipe-IsWired :
    (built_in : (cmd args : ℕ) → Option Bool) (pipes : ℕ) (counts : ℕ → ℕ) (absolute : ℕ → ℕ)
    (r : Redirection) (commands : Commands)
    → IsCounted counts
    → ((c : ℕ) → c < suc pipes → absolute (commands c 0) ≢ 0)
    → (ss : List Stage) × (left : Commands) × (execute_process_pipe built_in
          (suc pipes)
          counts
          absolute
          r
          commands
        ≡ (Started.pipeline ss, left))
      × IsWired (Runs built_in absolute commands) counts r 0 pipes ss
      × ((c a : ℕ) → left c a ≡ (if ltb c (suc pipes) && (a == 1) then 0 else commands c a))
unfolding execute_process_pipe
execute_process_pipe-IsWired built_in pipes counts absolute r commands counted found =
    let act = run_command built_in absolute commands in
    let none_missing = missing-none (suc pipes) absolute commands found in
    (
      stages act counts pipes 0 0 r,
      drop_arguments (suc pipes) commands,
      rw (execute_process_pipe, none_missing) refl,
      stages-IsWired (Runs built_in absolute commands) act
          (run_command-Runs built_in absolute commands) counts counted r pipes 0 0 refl,
      drop_arguments-row (suc pipes) commands,
    )
