-- ===== src/Shell/Builtin.antt =====
-- w2/bin/sbush/sbush.c: the commands that the shell answers itself.
-- The program's constant texts stand at the addresses of `Names`. What is printed is a list of texts,
-- the last one first. The working directory is a text of the system.
use sbrocks.Prelude.{
  ℕ, zero, suc, ◌+◌, Bool, true, Option, none, some, List, [], ◌∷◌, ◌++◌, ◌==◌, not, ◌&&◌,
  if◌then◌else◌,
}
use sbrocks.Prelude.Fault.{◌>>=◌, ◌>>◌, require}
use sbrocks.Kstring.{Memory}
use sbrocks.Tarfs.Dir.{write_text}
use sbrocks.Libc.{memset, strcpy, strcat, strcmp, strstr}
use sbrocks.Malloc.{malloc}
use sbrocks.Shell.{max_len}
use sbrocks.Shell.Command.{Words, max_arg_count}
use sbrocks.Shell.Pipeline.{Started}
use sbrocks.Shell.Path.{Constants, set_path}

pub record Names : Type 0 where
  pub set_text : ℕ
  pub ps1_text : ℕ
  pub path_text : ℕ
  pub script_text : ℕ
  pub env_text : ℕ
  pub dollar_path_text : ℕ
  pub exit_text : ℕ
  pub clear_text : ℕ
  pub pwd_text : ℕ
  pub echo_text : ℕ
  pub blank : ℕ

-- The shell: the words of a line with the memory and the heap, what it has printed and started, the
-- last first, and whether it has ended. `ps1` is the
-- address of the prompt, `temp` of a buffer of 1024 bytes, `env` of the environment's text.
pub record Session : Type 0 where
  pub words : Words
  pub printed : List (List ℕ)
  pub started : List Started
  pub ended : Bool
  pub cwd : List ℕ
  pub ps1 : ℕ
  pub temp : ℕ
  pub env : ℕ

abbrev pub print : (text : List ℕ) → Session → Session
print text s = record s { printed = text ∷ s.printed }

abbrev pub with_memory : (m : Memory) → Session → Session
with_memory m s = record s { words = record (s.words) { memory = m } }

-- The text that `%s` prints; a null pointer has none.
pub text_of : (fuel : ℕ) → Memory → (p : ℕ) → Option (List ℕ)
text_of zero m p = none
text_of (suc fuel) m p =
    let rest = text_of fuel m (p + 1) >>= λ cs. some (m p ∷ cs) in
    if p == 0 then none else if m p == 0 then some [] else rest

-- The arguments from `i` on, each with a blank behind it, are added to `temp`.
pub join_arguments :
    (n : ℕ) → (text_fuel temp blank : ℕ) → (arguments : ℕ → ℕ) → (i : ℕ) → Memory → Option Memory
join_arguments zero text_fuel temp blank arguments i m = none
join_arguments (suc n) text_fuel temp blank arguments i m =
    let joined = (do
      m1 ← strcat text_fuel m temp (arguments i)
      m2 ← strcat text_fuel m1 temp blank
      join_arguments n text_fuel temp blank arguments (i + 1) m2) in
    if arguments i == 0 then some m else joined

abbrev environments : List ℕ
environments =
    (10 ∷ 10 ∷ 10 ∷ 10 ∷ 10 ∷ 32 ∷ b'e' ∷ b'n' ∷ b'v' ∷ b'i' ∷ b'r' ∷ b'o' ∷ b'n' ∷ b'm' ∷ b'e'
      ∷ b'n' ∷ b't' ∷ b's' ∷ 32 ∷ b'a' ∷ b'r' ∷ b'e' ∷ 32 ∷ 10 ∷ [])

abbrev in_exit : List ℕ
in_exit = (b'i' ∷ b'n' ∷ 32 ∷ b'e' ∷ b'x' ∷ b'i' ∷ b't' ∷ 10 ∷ [])

abbrev usage : List ℕ
usage =
    (b'U' ∷ b's' ∷ b'a' ∷ b'g' ∷ b'e' ∷ b':' ∷ 32 ∷ b's' ∷ b'e' ∷ b't' ∷ 32 ∷ b'P' ∷ b'S' ∷ b'1'
      ∷ 32 ∷ b'<' ∷ b'p' ∷ b'r' ∷ b'o' ∷ b'm' ∷ b'p' ∷ b't' ∷ 32 ∷ b's' ∷ b't' ∷ b'r' ∷ b'i' ∷ b'n'
      ∷ b'g' ∷ b'>' ∷ 10 ∷ [])

-- What a command comes to: 1, or 0.
pub data Answer : Type 0 where
  answered : Session → Answer
  passed : Session → Answer

module _ (text_fuel : ℕ) (names : Names) (texts : Constants)
    (execute_script : (name : ℕ) → Session → Option Session) where
  -- The usage of `set PS1` is printed, and the prompt is set all the same.
  pub set_prompt : Session → Option Session
  set_prompt s = do
    let w = s.words
    let s1 = if w.commands 0 2 == 0 then print usage s else s
    m1 ←
        join_arguments max_arg_count text_fuel s.temp names.blank (w.commands 0) 2
          (memset max_len w.memory s.temp 0)
    m2 ← strcpy text_fuel m1 s.ps1 s.temp
    some (with_memory m2 s1)

  pub set_path_to : (newval : ℕ) → Session → Option Session
  set_path_to newval s = do
    (m, heap) ← set_path text_fuel texts s.env newval (s.words.memory, s.words.heap)
    some (record s { words = record (s.words) { memory = m; heap = heap } })

  abbrev print_text : (p : ℕ) → Session → Option Answer
  print_text p s = do
    cs ← text_of text_fuel s.words.memory p
    some (Answer.answered (print (cs ++ 10 ∷ []) s))

  -- `set` with an argument; `none` inside where the code goes on behind it.
  pub set_variable : (args : ℕ) → Session → Option (Option Session)
  set_variable args s = do
    prompt ← strstr text_fuel s.words.memory args names.ps1_text
    path ← strstr text_fuel s.words.memory args names.path_text
    let set_prompt_to = set_prompt s >>= λ s1. some (some s1)
    let set_path_there = set_path_to (s.words.commands 0 2) s >>= λ s1. some (some s1)
    if not (prompt == 0)
        then set_prompt_to
        else if not (path == 0)
        then set_path_there
        else some none

  -- `pwd`: the text of the directory stands in a new block.
  pub print_directory : Session → Option Session
  print_directory s = do
    (buf, heap) ← malloc text_fuel 1024 s.words.heap
    require (not (buf == 0))
    let m = write_text (memset 1024 s.words.memory buf 0) buf s.cwd
    some (
        print (s.cwd ++ 10 ∷ [])
          (record s { words = record (s.words) { memory = m; heap = heap } }))

  -- The commands behind `set`. A cleared screen shows nothing of what was printed.
  pub answer : (cmd : ℕ) → Session → Option Answer
  answer cmd s = do
    let m = s.words.memory
    script ← strstr text_fuel m cmd names.script_text
    env ← strcmp text_fuel m names.env_text cmd
    dollar_path ← strcmp text_fuel m names.dollar_path_text cmd
    exit ← strcmp text_fuel m names.exit_text cmd
    clear ← strcmp text_fuel m names.clear_text cmd
    pwd ← strcmp text_fuel m names.pwd_text cmd
    echo ← strcmp text_fuel m names.echo_text cmd
    let ran = execute_script cmd s >>= λ s1. some (Answer.answered s1)
    let directory = print_directory s >>= λ s1. some (Answer.answered s1)
    let cleared = record s { printed = [] }
    let clear_or =
        if clear == 0
        then some (Answer.answered cleared)
        else if pwd == 0
        then directory
        else if echo == 0
        then print_text (s.words.commands 0 1) s
        else some (Answer.passed s)
    let print_or =
        if env == 0
        then print_text s.env (print environments s)
        else if dollar_path == 0
        then print_text s.env s
        else if exit == 0
        then some (Answer.answered (record (print in_exit s) { ended = true }))
        else clear_or
    if not (script == 0) then ran else print_or

  pub handle_command : (cmd args : ℕ) → Session → Option Answer
  handle_command cmd args s = do
    require (not (cmd == 0))
    set ← strcmp text_fuel s.words.memory names.set_text cmd
    let variable = set_variable args s >>= λ r. elim r [
      | none ↦ answer cmd s
      | some s1 ↦ some (Answer.answered s1)
    ]
    if (set == 0) && not (args == 0) then variable else answer cmd s
