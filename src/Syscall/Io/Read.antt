-- ===== src/Syscall/Io/Read.antt =====
-- A task that reads standard input, and the keyboard's interrupts that give it a line
-- (w2/sys/syscall.c with w2/sys/kb.c).
use mathlib.Core.Option.{some-injective}
use sbrocks.Prelude.{
  ℕ, ◌+◌, ◌<◌, ◌≤◌, ◌≡◌, ◌≢◌, refl, sym, ◌∙◌, ◌⊎◌, ap, arith, ◌==◌, true, false, some, none, Option,
  List, [], ◌∷◌, ◌++◌, length, get_or,
}
use sbrocks.Prelude.Fault.{◌>>=◌}
use sbrocks.Process.{TaskState, set_state}
use sbrocks.Tarfs.{int_size}
use sbrocks.Kb.{
  Kb, Control, kb_handler, gets, set_flag, set_waiting_task, buffer_size, task_runnable,
}
use sbrocks.Kb.Line.{type_keys, AllPlain, Waits, typed, kb_handler-plain, type_keys-line, line_of}
use sbrocks.Syscall.{System, current, task_of, with_kernel, with_memory, keyboard_interrupt}
use sbrocks.Syscall.Io.{read_keyboard}

-- The keyboard's interrupt for each of a list of scan codes.
unfoldable pub interrupts : List ℕ → System → Option System
interrupts [] sys = some sys
interrupts (k ∷ ks) sys = keyboard_interrupt k sys >>= interrupts ks

-- The system with the keyboard in a state, whose memory is the system's.
abbrev lifted : Kb → System → System
lifted kb sys = record (with_memory kb.memory sys) { kb = kb }

abbrev quiet : Kb → Kb
quiet kb = record kb { waiting_state = 0 }

quiet_same : (kb : Kb) → kb.waiting_state ≡ 0 → quiet kb ≡ kb
quiet_same kb h = ap (λ w. record kb { waiting_state = w }) (sym h)

keyboard_interrupt-quiet :
    (k : ℕ) (kb kb' : Kb) (sys : System)
    → kb.waiting_state ≡ 0
    → kb_handler k kb ≡ some kb'
    → kb'.waiting_state ≡ 0
    → keyboard_interrupt k (lifted kb sys) ≡ some (lifted kb' sys)
unfolding keyboard_interrupt
keyboard_interrupt-quiet k kb kb' sys h run h' =
    let start : kb_handler k (quiet kb) ≡ some kb' = rw (quiet_same kb h) run in
    let e : (kb'.waiting_state == 0) ≡ true = ground arith in rw (start, e) refl

interrupts-lifted :
    (ks : List ℕ) (kb kb1 : Kb) (sys : System)
    → AllPlain ks
    → Waits kb
    → kb.waiting_state ≡ 0
    → kb.i + length ks + 1 ≤ kb.count
    → type_keys ks kb ≡ some kb1
    → (interrupts ks (lifted kb sys) ≡ some (lifted kb1 sys)) × (kb1.waiting_state ≡ 0)
unfolding interrupts type_keys AllPlain
interrupts-lifted [] kb kb1 sys all w h room run =
    let e = some-injective kb kb1 run in rw (← e) (refl, h)
interrupts-lifted (k ∷ ks) kb kb1 sys all w h room run =
    let step = kb_handler-plain k kb all.0 w (omega arith) in
    let w1 : Waits (typed k kb) = record {
      normal = refl;
      reading = w.reading;
      waiting = w.waiting;
      fits = w.fits;
    } in
    let tail : type_keys ks (typed k kb) ≡ some kb1 =
      sym (ap (λ o. o >>= type_keys ks) step) ∙ run in
    let (rest, last) = interrupts-lifted ks (typed k kb) kb1 sys all.1 w1 h (omega arith) tail in
    (rw (keyboard_interrupt-quiet k kb (typed k kb) sys h step h) rest, last)

interrupts-append :
    (ks ls : List ℕ) (sys sys' : System)
    → interrupts ks sys ≡ some sys'
    → interrupts (ks ++ ls) sys ≡ interrupts ls sys'
unfolding interrupts
interrupts-append [] ls sys sys' run = ap (interrupts ls) (some-injective sys sys' run)
interrupts-append (k ∷ ks) ls sys sys' run =
    go (keyboard_interrupt k sys) (λ s r. interrupts-append ks ls s sys' r) run
  where
    go :
        (o : Option System)
        → ((s : System)
            → interrupts ks s ≡ some sys'
            → interrupts (ks ++ ls) s ≡ interrupts ls sys')
        → (o >>= interrupts ks) ≡ some sys'
        → (o >>= interrupts (ks ++ ls)) ≡ interrupts ls sys'
    go none next run = cc
    go (some sys1) next run = next sys1 run

interrupts-one :
    (k : ℕ) (sys sys' : System)
    → keyboard_interrupt k sys ≡ some sys'
    → interrupts (k ∷ []) sys ≡ some sys'
unfolding interrupts
interrupts-one k sys sys' run = rw run refl

-- The keyboard's own view of the memory, and what an earlier interrupt woke, do not count.
abbrev viewed : System → System
viewed sys = lifted (record sys.kb { memory = sys.kernel.memory; waiting_state = 0 }) sys

interrupts-viewed :
    (ks : List ℕ) (l : ℕ) (sys : System)
    → interrupts (ks ++ l ∷ []) sys ≡ interrupts (ks ++ l ∷ []) (viewed sys)
unfolding interrupts keyboard_interrupt
interrupts-viewed [] l sys = refl
interrupts-viewed (k ∷ ks) l sys = refl

-- The interrupt of a key that makes the keyboard's task runnable.
keyboard_interrupt-wakes :
    (k : ℕ) (kb kb' : Kb) (sys : System)
    → kb.waiting_state ≡ 0
    → kb_handler k kb ≡ some kb'
    → kb'.waiting_state ≡ task_runnable
    → keyboard_interrupt k (lifted kb sys)
      ≡ some (
          with_kernel
            (set_state kb'.waiting_task TaskState.task_runnable (lifted kb' sys).kernel)
            (lifted kb' sys))
unfolding keyboard_interrupt
keyboard_interrupt-wakes k kb kb' sys h run h' =
    let start : kb_handler k (quiet kb) ≡ some kb' = rw (quiet_same kb h) run in
    let e : (kb'.waiting_state == 0) ≡ false = ground arith in rw (start, e) refl

-- A task that reads `nbytes` bytes from the keyboard gives the processor away, waiting, and the
-- interrupts of plain keys and of Enter then write the line to its buffer and make it runnable; they
-- change no other task. It needs that no control key is held, that the keyboard's buffer is empty
-- and that
-- buffer, of 1024 bytes, apart from the 1024 bytes at the task's address, and that the line with its newline has at most `nbytes` bytes, which
-- are at most 1024.
pub read_keyboard-line :
    (keys : List ℕ) (buf nbytes : ℕ) (sys : System)
    → let task = current sys in
      let waiting = read_keyboard buf nbytes sys in
      AllPlain keys
      → task ≢ 0
      → sys.kb.current_control ≡ Control.normal_key
      → sys.kb.i ≡ 0
      → nbytes ≤ buffer_size
      → length keys + 1 ≤ nbytes
      → (sys.kb.a + buffer_size ≤ buf) ⊎ (buf + buffer_size ≤ sys.kb.a)
      → ((task_of waiting task).state ≡ TaskState.task_waiting)
        × (current waiting ≡ 0)
        × ((sys' : System) × (interrupts (keys ++ 28 ∷ []) waiting ≡ some sys')
            × ((task_of sys' task).state ≡ TaskState.task_runnable)
            × ((j : ℕ)
                → j < length keys + 1
                → sys'.kernel.memory (buf + j) ≡ get_or (line_of keys) j 0)
            × ((q : ℕ) → q ≢ task → task_of sys' q ≡ task_of sys q))
unfolding read_keyboard set_flag set_waiting_task gets
read_keyboard-line keys buf nbytes sys all nz normal empty fits room apart =
    let task = current sys in
    let waiting = read_keyboard buf nbytes sys in
    let kb = record waiting.kb { memory = sys.kernel.memory; waiting_state = 0 } in
    let n : int_size nbytes ≡ nbytes = ground arith in
    let w : Waits kb = record { normal = normal; reading = refl; waiting = nz; fits = rw n fits } in
    let (kb1, kb', run, enter, bytes, wakes, off, fresh, same) =
      type_keys-line keys kb all w empty (rw n room) apart in
    let more : kb.i + length keys + 1 ≤ kb.count = rw n (omega arith) in
    let (typing, still) = interrupts-lifted keys kb kb1 waiting all w refl more run in
    let woken = keyboard_interrupt-wakes 28 kb1 kb' waiting still enter wakes in
    let self : (task == task) ≡ true = ground arith in
    (
      rw self refl,
      refl,
      (
        with_kernel (set_state kb'.waiting_task TaskState.task_runnable (lifted kb' waiting).kernel)
            (lifted kb' waiting),
        interrupts-viewed keys 28 waiting
            ∙ interrupts-append keys (28 ∷ []) (lifted kb waiting) (lifted kb1 waiting) typing
            ∙ interrupts-one 28 (lifted kb1 waiting) _ woken,
        rw (same, self) refl,
        bytes,
        λ q ne. (let off_task : (task == q) ≡ false = ground arith in rw (same, off_task) refl),
      ),
    )
