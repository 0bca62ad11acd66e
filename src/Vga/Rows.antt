-- ===== src/Vga/Rows.antt =====
-- Rows of the screen (w2/sys/vgaconsole.c): scrolling and clearing.
use sbrocks.Prelude.{
  ℕ, zero, suc, ◌+◌, ◌-◌, ◌*◌, ◌%◌, ◌^◌, ◌<◌, ◌≡◌, refl, ◌∙◌, ap, arith, if◌then◌else◌, ltb, leb,
  ◌&&◌, true, false, Bool-cases, inl, inr,
}
use sbrocks.Kstring.{Memory, memcpy, memsetw, word_mod, byte_mod}
use sbrocks.Kstring.Copy.{memcpy-Inside, memcpy-Outside, memset_lem, memsetw-memset}
use sbrocks.Vga.{Vga, scroll, clearscreen, clear_rows, move_csr, vga_addr, blank_of, max_x}

pub memsetw-blank :
    (m : Memory) (p attrib n b : ℕ)
    → (memsetw m p (attrib * 256 % 2 ^ 16) n).0 b ≡ (if leb p b && ltb b (p + n) then 0 else m b)
memsetw-blank m p attrib n b =
    let zero_byte : attrib * 256 % 2 ^ 16 % byte_mod ≡ 0 = omega arith in
    ap (λ r. r.0 b) (memsetw-memset m p (attrib * 256 % 2 ^ 16) n)
    ∙ memset_lem m p _ n b
    ∙ rw zero_byte refl

-- The bytes of a screen that has moved up by a row.
abbrev pub scrolled : Memory → Memory
scrolled m b =
    if ltb b vga_addr
    then m b
    else if ltb b (vga_addr + 23 * 160)
    then m (b + 160)
    else if ltb b (vga_addr + 24 * 160)
    then 0
    else m b

-- With the cursor on row 24, `scroll` moves each of the rows 1 to 23 up by one, fills row 23 with
-- zeros, leaves all other memory, and puts the cursor on row 23. Above row 24 it does nothing.
pub scroll-scrolled :
    (vga : Vga)
    → ((vga.cursor_y < 24) → scroll vga ≡ vga)
      × ((vga.cursor_y ≡ 24)
          → ((b : ℕ) → (scroll vga).memory b ≡ scrolled vga.memory b)
            × ((scroll vga).cursor_y ≡ 23)
            × ((scroll vga).cursor_x ≡ vga.cursor_x))
unfolding scroll
scroll-scrolled vga = (
  λ low. (let e : ltb vga.cursor_y 24 ≡ true = ground arith in rw e refl),
  λ row.
      let e : ltb vga.cursor_y 24 ≡ false = ground arith in
      let temp : (vga.cursor_y + word_mod - 24 + 1) % word_mod ≡ 1 = omega arith in
      rw (e, temp) (moved vga, refl, refl),
)
  where
    moved :
        (vga : Vga) (b : ℕ)
        → (memsetw
              (memcpy vga.memory vga_addr (vga_addr + 160) 3680)
              (vga_addr + 3680)
              (blank_of vga)
              160).0
            b
          ≡ scrolled vga.memory b
    moved vga b =
        let m = memcpy vga.memory vga_addr (vga_addr + 160) 3680 in
        memsetw-blank m (vga_addr + 3680) vga.attrib 160 b ∙ elim (Bool-cases (ltb b vga_addr)) [
          | inl below ↦
              let out = memcpy-Outside vga.memory vga_addr (vga_addr + 160) 3680 b (ground arith) in
              ground arith
          | inr above ↦ elim (Bool-cases (ltb b (vga_addr + 3680))) [
            | inl moves ↦
                let i = b - vga_addr in
                let at : vga_addr + i ≡ b = ground arith in
                let from : vga_addr + 160 + i ≡ b + 160 = ground arith in
                let got =
                  memcpy-Inside vga.memory vga_addr (vga_addr + 160) 3680 i (inl (omega arith))
                    (ground arith) in
                let got' : m b ≡ vga.memory (b + 160) = rw (at, from) at got in ground arith
            | inr rest ↦
                let out =
                  memcpy-Outside vga.memory vga_addr (vga_addr + 160) 3680 b (ground arith) in
                ground arith
          ]
        ]

clear_rows_lem :
    (left i attrib : ℕ) (m : Memory) (b : ℕ)
    → clear_rows left i (attrib * 256 % 2 ^ 16) m b ≡ (
        if leb (vga_addr + 2 * i * max_x) b && ltb b (vga_addr + 2 * (i + left) * max_x)
        then 0
        else m b)
unfolding clear_rows
clear_rows_lem zero i attrib m b = ground arith
clear_rows_lem (suc left) i attrib m b =
    let row = memsetw-blank m (vga_addr + 2 * i * max_x) attrib (2 * max_x) b in
    clear_rows_lem left (i + 1) attrib _ b ∙ rw row (ground arith)

-- `clearscreen` fills the rows 0 to 23 with zeros, leaves all other memory, and puts both cursors
-- at the start.
pub clearscreen_lem :
    (vga : Vga)
    → ((b : ℕ)
        → (clearscreen vga).memory b
          ≡ (if leb vga_addr b && ltb b (vga_addr + 24 * 160) then 0 else vga.memory b))
      × ((clearscreen vga).cursor_x ≡ 0)
      × ((clearscreen vga).cursor_y ≡ 0)
      × ((clearscreen vga).csr ≡ 0)
unfolding clearscreen move_csr
clearscreen_lem vga = (λ b. clear_rows_lem 24 0 vga.attrib vga.memory b, refl, refl, refl)
