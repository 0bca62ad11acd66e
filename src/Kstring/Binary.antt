-- ===== src/Kstring/Binary.antt =====
-- `byte_to_binary` of w2/sys/kstring.c.
-- `b` is the address of its buffer of 65 bytes, `one` and `nought` those of the texts "1" and "0".
use sbrocks.Prelude.{ℕ, zero, suc, ◌/◌, Option, none, some, ◌==◌, if◌then◌else◌, bit_and}
use sbrocks.Prelude.Fault.{◌>>=◌}
use sbrocks.Kstring.{Memory, store, strcat, power}

pub binary_from : (fuel text_fuel x z b one nought : ℕ) → Memory → Option Memory
binary_from zero text_fuel x z b one nought m = none
binary_from (suc fuel) text_fuel x z b one nought m =
    let next = strcat text_fuel m b (if bit_and x z == z then one else nought) >>= λ m1.
    binary_from fuel text_fuel x (z / 2) b one nought m1 in
    if z == 0 then some m else next

pub byte_to_binary : (text_fuel x b one nought : ℕ) → Memory → Option (ℕ × Memory)
byte_to_binary text_fuel x b one nought m = do
  m1 ← binary_from 65 text_fuel x (power 2 63) b one nought (store m b 0)
  some (b, m1)
