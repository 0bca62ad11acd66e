-- ===== src/Vga.antt =====
-- w2/sys/vgaconsole.c: the text screen of 25 rows and 80 columns, two bytes a cell.
-- The screen is the part of memory from `vga_addr` on; addresses do not wrap. The cursor of the
-- hardware is the number that the two port writes of `move_csr` set.
pub mod Cursor
pub mod Rows
mod Tests
use mathlib.Core.Option
use sbrocks.Prelude.{
  ℕ, zero, suc, ◌+◌, ◌-◌, ◌*◌, ◌/◌, ◌%◌, ◌^◌, Bool, true, false, Option, none, some, ltb, ◌==◌, not,
  if◌then◌else◌, bit_or,
}
use sbrocks.Kstring.{Memory, store, memcpy, memsetw, word_mod, byte_mod}

pub record Vga : Type 0 where
  pub cursor_x : ℕ
  pub cursor_y : ℕ
  pub attrib : ℕ
  pub memory : Memory
  pub csr : ℕ

abbrev pub vga_addr : ℕ
vga_addr = 0xFFFF_FFFF_800B_8000

abbrev pub max_x : ℕ
max_x = 80

abbrev pub max_y : ℕ
max_y = 25

-- `vga_addr + (y*80 + x) * 2`
abbrev pub cell : (x y : ℕ) → ℕ
cell x y = vga_addr + (y * 80 + x) * 2

-- A `char` is signed and widened before the shift.
pub setcolor : (background foreground : ℕ) → Vga → Vga
setcolor background foreground vga =
    let wide = if ltb background 128 then background else background + word_mod - byte_mod in
    record vga { attrib = bit_or (wide * 16 % word_mod) (foreground % 16) }

pub move_csr : Vga → Vga
move_csr vga = record vga { csr = (vga.cursor_y * 80 + vga.cursor_x) % 2 ^ 16 }

-- `attrib << 8`, cut to the `unsigned short` that `memsetw` takes.
abbrev pub blank_of : Vga → ℕ
blank_of vga = vga.attrib * 256 % 2 ^ 16

pub scroll : Vga → Vga
scroll vga =
    let temp = (vga.cursor_y + word_mod - 24 + 1) % word_mod in
    let left = (24 + word_mod - temp) % word_mod in
    if ltb vga.cursor_y 24
    then vga
    else (let m =
          memcpy vga.memory vga_addr (vga_addr + temp * 80 * 2) (left * 80 * 2 % word_mod) in
        let (m', end) = memsetw m (vga_addr + left * 80 * 2) (blank_of vga) (80 * 2) in
        record vga { memory = m'; cursor_y = 23 })

-- The blank is a space with its colour, of which the `char` keeps the space.
pub handle_backspace : Vga → Vga
handle_backspace vga =
    if not (vga.cursor_x == 0)
    then (let x = vga.cursor_x - 1 in
        record vga { cursor_x = x; memory = store vga.memory (cell x vga.cursor_y) 0x20 })
    else if not (vga.cursor_y == 0)
    then (let y = vga.cursor_y - 1 in
        record vga { cursor_x = 79; cursor_y = y; memory = store vga.memory (cell 80 y) 0x20 })
    else vga

pub put_cell : (ch : ℕ) → Vga → Vga
put_cell ch vga =
    let dst_addr = cell vga.cursor_x vga.cursor_y in
    record vga {
      memory = store (store vga.memory dst_addr ch) (dst_addr + 1) (vga.attrib % byte_mod);
      cursor_x = (vga.cursor_x + 1) % word_mod;
    }

-- The `switch` of `putch`.
pub place : (ch : ℕ) → Vga → Vga
place ch vga =
    if ch == 10
    then record vga { cursor_x = 0; cursor_y = (vga.cursor_y + 1) % word_mod }
    else if ch == 0x08
    then handle_backspace vga
    else if ch == 0x09
    then record vga { cursor_x = (vga.cursor_x + 8) % word_mod / 8 * 8 }
    else if ch == 13
    then record vga { cursor_x = 0 }
    else put_cell ch vga

pub putch : (ch : ℕ) → Vga → Vga
putch ch vga = move_csr (scroll (place ch vga))

-- The text is read from the memory that the screen is part of; `none` is the fuel's end.
pub puts : (fuel str : ℕ) → Vga → Option Vga
puts zero str vga = none
puts (suc fuel) str vga =
    let rest = puts fuel (str + 1) (putch (vga.memory str) vga) in
    if vga.memory str == 0 then some vga else rest

-- The colour of the row, for the rounds left.
pub color_row : (left i y : ℕ) → Memory → Memory
color_row zero i y m = m
color_row (suc left) i y m = color_row left (i + 1) y (store m (cell i y + 1) 0x0A)

pub timer_text : (fuel x y str : ℕ) → Memory → Option Memory
timer_text zero x y str m = none
timer_text (suc fuel) x y str m =
    let written = store (store m (cell x y) (m str)) (cell x y + 1) 0x0A in
    let rest = timer_text fuel (x + 1) y (str + 1) written in if m str == 0 then some m else rest

pub puttimer : (fuel x y str : ℕ) → Vga → Option Vga
puttimer fuel x y str vga =
    Option.map (λ m. record vga { memory = m })
      (timer_text fuel x y str (color_row max_x 0 y vga.memory))

pub clear_rows : (left i blank : ℕ) → Memory → Memory
clear_rows zero i blank m = m
clear_rows (suc left) i blank m =
    let (m', end) = memsetw m (vga_addr + 2 * i * max_x) blank (2 * max_x) in
    clear_rows left (i + 1) blank m'

pub clearscreen : Vga → Vga
clearscreen vga =
    move_csr (record vga {
      memory = clear_rows 24 0 (blank_of vga) vga.memory;
      cursor_x = 0;
      cursor_y = 0;
    })

-- Its only call is commented out.
pub adjustcursor : Vga → Vga
adjustcursor vga =
    let vga1 =
      if ltb vga.cursor_x max_x
      then vga
      else record vga { cursor_x = 0; cursor_y = (vga.cursor_y + 1) % word_mod } in
    if ltb vga1.cursor_y (max_y - 1)
    then vga1
    else (let m = memcpy vga1.memory vga_addr (vga_addr + max_x * 2) (max_y * max_x * 2) in
        let (m', end) =
          memsetw m (vga_addr + 2 * max_x * (max_y - 1)) (blank_of vga1) (2 * max_x) in
        record vga1 { memory = m'; cursor_y = 24 })
