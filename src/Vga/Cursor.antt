-- ===== src/Vga/Cursor.antt =====
-- The cursor and the cells that characters go to (w2/sys/vgaconsole.c).
use sbrocks.Prelude.{
  ℕ, ◌+◌, ◌-◌, ◌*◌, ◌%◌, ◌<◌, ◌≤◌, ◌≡◌, ◌≢◌, refl, ◌∙◌, arith, ◌==◌, if◌then◌else◌, ltb, true,
  false, Bool-cases, inl, inr, ◌⊎◌,
}
use sbrocks.Kstring.{byte_mod}
use sbrocks.Vga.{Vga, scroll, putch, place, put_cell, handle_backspace, move_csr, vga_addr, cell}
use sbrocks.Vga.Rows.{scroll-scrolled}

-- The cursor is in the 24 rows for text and in the 80 columns.
pub record OnScreen (vga : Vga) : Type 0 where
  pub row : vga.cursor_y < 24
  pub column : vga.cursor_x < 80

-- A byte that is not of the screen.
abbrev pub OffScreen : ℕ → Type 0
OffScreen b = (b < vga_addr) ⊎ (vga_addr + 25 * 160 ≤ b)

record Placed (vga vga' : Vga) : Type 0 where
  row : vga'.cursor_y ≤ 24
  column : vga'.cursor_x ≤ 80
  frame : (b : ℕ) → OffScreen b → vga'.memory b ≡ vga.memory b

handle_backspace-Placed : (vga : Vga) → OnScreen vga → Placed vga (handle_backspace vga)
unfolding handle_backspace
handle_backspace-Placed vga on =
    let r = on.row in
    let c = on.column in
    elim (Bool-cases (vga.cursor_x == 0)) [
      | inr inside ↦
          rw inside
            (record { row = omega arith; column = omega arith; frame = λ b off. ground arith })
      | inl start ↦ elim (Bool-cases (vga.cursor_y == 0)) [
        | inl top ↦
            rw (start, top)
              (record { row = omega arith; column = omega arith; frame = λ b off. refl })
        | inr lower ↦
            rw (start, lower)
              (record { row = omega arith; column = omega arith; frame = λ b off. ground arith })
      ]
    ]

place-Placed : (ch : ℕ) (vga : Vga) → OnScreen vga → Placed vga (place ch vga)
unfolding place put_cell
place-Placed ch vga on =
    let r = on.row in
    let c = on.column in
    elim (Bool-cases (ch == 10)) [
      | inl e ↦ rw e (record { row = omega arith; column = omega arith; frame = λ b off. refl })
      | inr n1 ↦ elim (Bool-cases (ch == 8)) [
        | inl e ↦ rw (n1, e) (handle_backspace-Placed vga on)
        | inr n2 ↦ elim (Bool-cases (ch == 9)) [
          | inl e ↦
              rw (n1, n2, e)
                (record { row = omega arith; column = omega arith; frame = λ b off. refl })
          | inr n3 ↦ elim (Bool-cases (ch == 13)) [
            | inl e ↦
                rw (n1, n2, n3, e)
                  (record { row = omega arith; column = omega arith; frame = λ b off. refl })
            | inr n4 ↦
                rw (n1, n2, n3, n4)
                  (record {
                    row = omega arith;
                    column = omega arith;
                    frame = λ b off. ground arith;
                  })
          ]
        ]
      ]
    ]

scroll-Placed :
    (vga : Vga)
    → vga.cursor_y ≤ 24
    → ((scroll vga).cursor_y < 24)
      × ((scroll vga).cursor_x ≡ vga.cursor_x)
      × ((b : ℕ) → OffScreen b → (scroll vga).memory b ≡ vga.memory b)
scroll-Placed vga h = elim (Bool-cases (ltb vga.cursor_y 24)) [
  | inl low ↦
      let l : vga.cursor_y < 24 = ground arith in
      rw ((scroll-scrolled vga).0 l) (l, refl, λ b off. refl)
  | inr last ↦
      let (moved, row, column) = (scroll-scrolled vga).1 (ground arith) in
      (rw row (omega arith), column, λ b off. moved b ∙ ground arith)
]

-- From a cursor on the screen, `putch` of any character leaves the cursor in the 24 rows for text
-- and at column 80 at most, the hardware's cursor at the same place, and every byte outside the
-- screen as it was.
pub putch-OnScreen :
    (ch : ℕ) (vga : Vga)
    → OnScreen vga
    → ((putch ch vga).cursor_y < 24)
      × ((putch ch vga).cursor_x ≤ 80)
      × ((putch ch vga).csr ≡ (putch ch vga).cursor_y * 80 + (putch ch vga).cursor_x)
      × ((b : ℕ) → OffScreen b → (putch ch vga).memory b ≡ vga.memory b)
unfolding putch move_csr
putch-OnScreen ch vga on =
    let p = place-Placed ch vga on in
    let (row, column, frame) = scroll-Placed (place ch vga) p.row in
    let c = p.column in (row, omega arith, omega arith, λ b off. frame b off ∙ p.frame b off)

-- Backspace at the start of a row moves to column 79 of the row above, but the space that should
-- blank the cell there goes to the cell that the cursor has left: no other byte changes.
pub handle_backspace-row_start :
    (vga : Vga)
    → vga.cursor_x ≡ 0
    → vga.cursor_y ≢ 0
    → ((handle_backspace vga).cursor_x ≡ 79)
      × ((handle_backspace vga).cursor_y ≡ vga.cursor_y - 1)
      × ((b : ℕ)
          → (handle_backspace vga).memory b
            ≡ (if cell 0 vga.cursor_y == b then 0x20 else vga.memory b))
unfolding handle_backspace
handle_backspace-row_start vga start lower =
    let e : (vga.cursor_x == 0) ≡ true = ground arith in
    let n : (vga.cursor_y == 0) ≡ false = ground arith in rw (e, n) (refl, refl, λ b. ground arith)

-- The character is none of newline, backspace, tab and carriage return.
abbrev pub IsPrinting : ℕ → Type 0
IsPrinting ch = (ch ≢ 10) × (ch ≢ 8) × (ch ≢ 9) × (ch ≢ 13)

-- Any other character goes to the cell of the cursor with the low byte of the colour, no other
-- byte changes, and the cursor moves right by one, with no new line at the end of a row.
pub putch-cell :
    (ch : ℕ) (vga : Vga)
    → IsPrinting ch
    → OnScreen vga
    → ((b : ℕ)
        → (putch ch vga).memory b ≡ (
            if cell vga.cursor_x vga.cursor_y + 1 == b
            then vga.attrib % byte_mod
            else if cell vga.cursor_x vga.cursor_y == b
            then ch
            else vga.memory b))
      × ((putch ch vga).cursor_x ≡ vga.cursor_x + 1)
      × ((putch ch vga).cursor_y ≡ vga.cursor_y)
unfolding putch move_csr place put_cell
putch-cell ch vga (p1, p2, p3, p4) on =
    let r = on.row in
    let c = on.column in
    let n1 : (ch == 10) ≡ false = ground arith in
    let n2 : (ch == 8) ≡ false = ground arith in
    let n3 : (ch == 9) ≡ false = ground arith in
    let n4 : (ch == 13) ≡ false = ground arith in
    rw (n1, n2, n3, n4, (scroll-scrolled (put_cell ch vga)).0 r) (λ b. refl, omega arith, refl)
