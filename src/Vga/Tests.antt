-- ===== src/Vga/Tests.antt =====
-- The screen at a small state, and its theorems there.
use sbrocks.Prelude.{ℕ, ◌+◌, ◌*◌, ◌%◌, ◌<◌, ◌≤◌, ◌≡◌, arith}
use sbrocks.Vga.{Vga, putch}
use sbrocks.Vga.Cursor.{OffScreen, putch-OnScreen}

abbrev small_screen : (x y : ℕ) → Vga
small_screen x y = record { cursor_x = x; cursor_y = y; attrib = 3; memory = λ b. b % 251; csr = 0 }

-- A newline on the last row for text.
putch-OnScreen_example :
    ((putch 10 (small_screen 5 23)).cursor_y < 24)
    × ((putch 10 (small_screen 5 23)).cursor_x ≤ 80)
    × ((putch 10 (small_screen 5 23)).csr
        ≡ (putch 10 (small_screen 5 23)).cursor_y * 80 + (putch 10 (small_screen 5 23)).cursor_x)
    × ((b : ℕ) → OffScreen b → (putch 10 (small_screen 5 23)).memory b ≡ b % 251)
putch-OnScreen_example =
    putch-OnScreen 10 (small_screen 5 23) (record { row = omega arith; column = omega arith })
