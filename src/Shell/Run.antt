-- ===== src/Shell/Run.antt =====
-- w2/bin/sbush/sbush.c: a line from its characters to its processes, scripts and the loop of the shell.
-- `absolute` is what `getAbsolutePath` finds for a command; `contents` the bytes of a file, none where
-- it cannot be opened. `redirection` is where the shell itself reads and writes, and `counts` the
-- system's count of descriptors when each pipe is made.
use sbrocks.Prelude.{
  ℕ, zero, suc, ◌+◌, true, false, Bool, Option, none, some, List, [], ◌∷◌, ◌++◌, ltb, ◌==◌, not,
  ◌||◌, if◌then◌else◌,
}
use sbrocks.Prelude.Fault.{◌>>=◌}
use sbrocks.Kstring.{store}
use sbrocks.Libc.{strlen, strcmp, strstr}
use sbrocks.Shell.{max_len, Reading, read_input}
use sbrocks.Shell.Command.{parse_command}
use sbrocks.Shell.Path.{Constants}
use sbrocks.Shell.Pipeline.{Redirection, Commands, Started, execute_process, execute_process_pipe}
use sbrocks.Shell.Builtin.{Names, Session, Answer, print, with_memory, text_of, handle_command}

abbrev with_commands : Commands → Session → Session
with_commands commands s = record s { words = record (s.words) { commands = commands } }

abbrev start : Started × Commands → Session → Session
start (what, commands) s = record (with_commands commands s) { started = what ∷ s.started }

-- What stands outside of the program, and the texts "&" and "#!".
pub record World : Type 0 where
  pub absolute : Session → (cmd : ℕ) → ℕ
  pub contents : Session → (name : ℕ) → Option (List ℕ)
  pub counts : ℕ → ℕ
  pub redirection : Redirection
  pub ampersand : ℕ
  pub comment : ℕ

abbrev too_many : List ℕ
too_many =
    b'm' ∷ b'o' ∷ b'r' ∷ b'e' ∷ 32 ∷ b't' ∷ b'h' ∷ b'a' ∷ b'n' ∷ 32 ∷ b'2' ∷ 32 ∷ b'p' ∷ b'i' ∷ b'p'
    ∷ b'e' ∷ b's' ∷ 32 ∷ b'n' ∷ b'o' ∷ b't' ∷ 32 ∷ b's' ∷ b'u' ∷ b'p' ∷ b'p' ∷ b'o' ∷ b'r' ∷ b't'
    ∷ b'e' ∷ b'd' ∷ 32 ∷ 10 ∷ []

module _ (world : World) (text_fuel : ℕ) (names : Names) (texts : Constants) where
  -- A line with one command. A script that it names is run by `script`. Where the command has ended
  -- the shell, nothing is started.
  pub run_process : (script : (name : ℕ) → Session → Option Session) → Session → Option Session
  run_process script s = do
    let argument = s.words.commands 0 1
    order ←
        (if argument == 0 then some 1 else strcmp text_fuel s.words.memory argument world.ampersand)
    answer ← handle_command text_fuel names texts script (s.words.commands 0 0) argument s
    elim answer [
      | Answer.answered s1 ↦ some (
          start (execute_process true (world.absolute s1) (λ p. order == 0) (s1.words.commands)) s1)
      | Answer.passed s1 ↦ some (
          start (execute_process false (world.absolute s1) (λ p. order == 0) (s1.words.commands))
            s1)
    ]

  -- What a command does in a child of its own is not seen here but for its answer.
  child_handles :
      (script : (name : ℕ) → Session → Option Session) → Session → (cmd args : ℕ) → Option Bool
  child_handles script s cmd args = do
    answer ← handle_command text_fuel names texts script cmd args s
    some (elim answer [ Answer.answered s1 ↦ true | Answer.passed s1 ↦ false ])

  pub run_pipe :
      (script : (name : ℕ) → Session → Option Session) → (num_args : ℕ) → Session → Session
  run_pipe script num_args s =
      start
        (execute_process_pipe (child_handles script s) num_args world.counts (world.absolute s)
          world.redirection (s.words.commands))
        s

  abbrev split : (fuel line : ℕ) → Session → Option (ℕ × Session)
  split fuel line s = do
    (num_args, words) ← parse_command text_fuel fuel line s.words
    some (num_args, record s { words = words })

  -- A line of a script; its first line, a comment, is left out.
  pub script_line :
      (fuel cmd : ℕ) (script : (name : ℕ) → Session → Option Session) → Session → Option Session
  script_line fuel cmd script s = do
    comment ← strstr text_fuel s.words.memory cmd world.comment
    let ran = split fuel cmd s >>= λ r.
        if r.0 == 1 then run_process script r.1 else some (run_pipe script r.0 r.1)
    if comment == 0 then ran else some s

  -- The loop over the bytes of a script, with `i` of them in the line at `cmd`.
  pub script_from :
      (fuel cmd i : ℕ) (script : (name : ℕ) → Session → Option Session)
      → (bytes : List ℕ) → Session
      → Option Session
  script_from fuel cmd i script [] s = some s
  script_from fuel cmd i script (c ∷ bytes) s =
      let put = with_memory (store s.words.memory (cmd + i) c) s in
      let ended = with_memory (store s.words.memory (cmd + i) 0) s in
      let more = script_from fuel cmd (i + 1) script bytes put in
      let next =
        script_line fuel cmd script ended >>= λ s1. script_from fuel cmd 0 script bytes s1 in
      if s.ended
      then some s
      else if not (ltb i max_len)
      then none
      else if c == 10
      then next
      else more

  -- Scripts name scripts up to the depth `depth`. A file that cannot be opened has no bytes.
  pub execute_script : (depth fuel cmd name : ℕ) → Session → Option Session
  execute_script zero fuel cmd name s = none
  execute_script (suc depth) fuel cmd name s = elim (world.contents s name) [
    | none ↦ some s
    | some bytes ↦ script_from fuel cmd 0 (execute_script depth fuel cmd) bytes s
  ]

  pub print_prompt : Session → Option Session
  print_prompt s = do
    cs ← text_of text_fuel s.words.memory s.ps1
    len ← strlen text_fuel s.words.memory s.ps1
    some (print ((if ltb len 2 then [] else cs) ++ b'$' ∷ 32 ∷ []) s)

  -- The `switch` on the number of commands.
  pub run_line : (depth fuel cmd num_args : ℕ) → Session → Option Session
  run_line depth fuel cmd num_args s =
      if num_args == 1
      then run_process (execute_script depth fuel cmd) s
      else if (num_args == 2) || (num_args == 3)
      then some (run_pipe (execute_script depth fuel cmd) num_args s)
      else some (print too_many s)

  -- One line of the loop of `main`, from the keys that are typed: nothing where they do not end it.
  pub shell_line :
      (depth fuel line cmd : ℕ) → (input : List ℕ) → Session → Option (List ℕ × Session)
  shell_line depth fuel line cmd input s = do
    s1 ← print_prompt s
    elim (read_input line (s1.words.memory) input) [
      | Reading.out_of_line ↦ none
      | Reading.waiting ↦ none
      | Reading.line_read result m rest ↦ do
        let s2 = with_memory m s1
        len ← strlen text_fuel m line
        let ran = split fuel line s2 >>= λ r. run_line depth fuel cmd r.0 r.1
        if (result == 0) || (len == 0) then some (rest, s2) else (ran >>= λ s3. some (rest, s3))
    ]
