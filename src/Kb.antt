-- ===== src/Kb.antt =====
-- w2/sys/kb.c: scan codes to characters, and the line that a waiting task reads.
-- The byte of port 0x60 is an argument of the handler. `a` is the address of the line buffer in
-- the one memory that the kernel and, through its tables, the waiting task see. `none` is an
-- access out of the buffer of 1024 bytes, or to the task of a null pointer.
pub mod Safe
pub mod Line
pub mod Tests
use mathlib.Core.Bool.{cond}
use sbrocks.Prelude.{
  ℕ, zero, suc, ◌+◌, ◌-◌, Bool, true, false, Option, none, some, List, [], ◌∷◌, ltb, ◌==◌, not,
  if◌then◌else◌, ◌&&◌, bit_and,
}
use sbrocks.Prelude.Fault.{◌>>=◌, ◌>>◌, require}
use sbrocks.Kstring.{Memory, store, memcpy}

-- US layout: what a key means, by its scan code; codes past the list mean 0.
pub kbdus : List ℕ
kbdus =
    0 ∷ 27 ∷ 49 ∷ 50 ∷ 51 ∷ 52 ∷ 53 ∷ 54 ∷ 55 ∷ 56 ∷ 57 ∷ 48 ∷ 45 ∷ 61 ∷ 8 ∷ 9 ∷ 113 ∷ 119 ∷ 101
    ∷ 114 ∷ 116 ∷ 121 ∷ 117 ∷ 105 ∷ 111 ∷ 112 ∷ 91 ∷ 93 ∷ 10 ∷ 0 ∷ 97 ∷ 115 ∷ 100 ∷ 102 ∷ 103 ∷ 104
    ∷ 106 ∷ 107 ∷ 108 ∷ 59 ∷ 39 ∷ 96 ∷ 0 ∷ 92 ∷ 122 ∷ 120 ∷ 99 ∷ 118 ∷ 98 ∷ 110 ∷ 109 ∷ 44 ∷ 46 ∷ 47
    ∷ 0 ∷ 42 ∷ 0 ∷ 32 ∷ 0 ∷ 0 ∷ 0 ∷ 0 ∷ 0 ∷ 0 ∷ 0 ∷ 0 ∷ 0 ∷ 0 ∷ 0 ∷ 0 ∷ 0 ∷ 0 ∷ 0 ∷ 0 ∷ 45 ∷ 0 ∷ 0
    ∷ 0 ∷ 43 ∷ 0 ∷ 0 ∷ 0 ∷ 0 ∷ 0 ∷ 0 ∷ 0 ∷ 0 ∷ 0 ∷ 0 ∷ 0 ∷ []

-- The same with shift held.
pub shiftcodes : List ℕ
shiftcodes =
    0 ∷ 27 ∷ 33 ∷ 64 ∷ 35 ∷ 36 ∷ 37 ∷ 94 ∷ 38 ∷ 42 ∷ 40 ∷ 41 ∷ 95 ∷ 43 ∷ 8 ∷ 9 ∷ 81 ∷ 87 ∷ 69 ∷ 82
    ∷ 84 ∷ 89 ∷ 85 ∷ 73 ∷ 79 ∷ 80 ∷ 123 ∷ 125 ∷ 10 ∷ 0 ∷ 65 ∷ 83 ∷ 68 ∷ 70 ∷ 71 ∷ 72 ∷ 74 ∷ 75 ∷ 76
    ∷ 58 ∷ 34 ∷ 126 ∷ 0 ∷ 124 ∷ 90 ∷ 88 ∷ 67 ∷ 86 ∷ 66 ∷ 78 ∷ 77 ∷ 60 ∷ 62 ∷ 63 ∷ 0 ∷ 42 ∷ 0 ∷ 32
    ∷ 0 ∷ 0 ∷ 0 ∷ 0 ∷ 0 ∷ 0 ∷ 0 ∷ 0 ∷ 0 ∷ 0 ∷ 0 ∷ 0 ∷ 0 ∷ 0 ∷ 0 ∷ 0 ∷ 45 ∷ 0 ∷ 0 ∷ 0 ∷ 43 ∷ 0 ∷ 0
    ∷ 0 ∷ 0 ∷ 0 ∷ 0 ∷ 0 ∷ 0 ∷ 0 ∷ 0 ∷ 0 ∷ []

pub code_at : List ℕ → ℕ → ℕ
code_at [] k = 0
code_at (c ∷ cs) zero = c
code_at (c ∷ cs) (suc k) = code_at cs k

pub data Control : Type 0 where
  normal_key : Control
  control_key : Control
  shift_key : Control
  alt_key : Control

pub record Kb : Type 0 where
  pub current_control : Control
  pub flag : ℕ
  pub i : ℕ
  pub str : ℕ
  pub count : ℕ
  pub a : ℕ
  pub current_char : ℕ
  pub waiting_task : ℕ
  -- the `state` field of that task
  pub waiting_state : ℕ
  pub memory : Memory
  -- what `kprintf2` was given, the last first
  pub echoed : List ℕ

abbrev pub buffer_size : ℕ
buffer_size = 1024

abbrev pub task_runnable : ℕ
task_runnable = 7

-- The code's name for `i`, an index of the buffer, and the count of its bytes; `count` is 64 bits.
unfoldable pub gets : (buf nbytes : ℕ) → Kb → Kb
gets buf nbytes kb = record kb { str = buf; count = nbytes }

unfoldable pub set_flag : Kb → Kb
set_flag kb = record kb { flag = 1 }

pub get_flag : Kb → ℕ
get_flag kb = kb.flag

pub unset_flag : Kb → Kb
unset_flag kb = record kb { flag = 0 }

unfoldable pub set_waiting_task : ℕ → Kb → Kb
set_waiting_task task kb = record kb { waiting_task = task }

pub get_waiting_task : Kb → ℕ
get_waiting_task kb = kb.waiting_task

pub wake_waiting_task : Kb → Kb
wake_waiting_task kb = record kb { waiting_state = task_runnable }

abbrev pub put_char : ℕ → Kb → Kb
put_char c kb = record kb { memory = store kb.memory (kb.a + kb.i) c; i = kb.i + 1 }

-- The first `n` bytes of the buffer go to the task, which wakes; the buffer starts anew.
pub deliver : (n : ℕ) → Kb → Option Kb
unfolding unset_flag wake_waiting_task
deliver n kb = do
  require (not (kb.waiting_task == 0))
  let copied = memcpy kb.memory kb.str kb.a n
  some (wake_waiting_task (unset_flag (record kb { memory = store copied kb.a 0; i = 0 })))

-- What a key does for a waiting task.
pub scanf_key : (c : ℕ) → Kb → Option Kb
scanf_key c kb =
    cond (c == 10) (do require (ltb kb.i buffer_size); deliver (kb.i + 1) (put_char 10 kb))
      (cond ((c == 8) && ltb 0 kb.i)
        (do
          require (ltb kb.i buffer_size)
          some (record kb { memory = store kb.memory (kb.a + kb.i) 0; i = kb.i - 1 }))
        (do
          require (ltb kb.i buffer_size)
          let kb' = put_char c kb
          if ltb kb'.i kb.count then some kb' else deliver 1 kb'))

pub char_of : Control → (scancode : ℕ) → ℕ
unfolding kbdus shiftcodes
char_of shift_key scancode = code_at shiftcodes scancode
char_of normal_key scancode = code_at kbdus scancode
char_of control_key scancode = code_at kbdus scancode
char_of alt_key scancode = code_at kbdus scancode

pub handlekey : (scancode : ℕ) → Kb → Option Kb
handlekey scancode kb = do
  let c = char_of kb.current_control scancode
  let kb1 = record kb { current_char = c }
  kb2 ← (if kb.flag == 1 then scanf_key c (record kb1 { echoed = c ∷ kb.echoed }) else some kb1)
  some (record kb2 { current_control = Control.normal_key })

pub kb_handler : (scancode : ℕ) → Kb → Option Kb
kb_handler scancode kb =
    if not (bit_and scancode 0x80 == 0)
    then some kb
    else if scancode == 42
    then some (record kb { current_control = Control.shift_key })
    else if scancode == 56
    then some (record kb { current_control = Control.alt_key })
    else if scancode == 29
    then some (record kb { current_control = Control.control_key })
    else handlekey scancode kb
