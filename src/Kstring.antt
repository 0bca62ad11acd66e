-- ===== src/Kstring.antt =====
-- w2/sys/kstring.c: the kernel's memory and string routines.
-- Memory is a function from addresses to bytes; a `char *` is an address, and a routine that
-- writes returns the memory it leaves. An address is a number that does not wrap. A loop that
-- runs to a NUL byte takes fuel, and is `none` where the fuel runs out.
pub mod Copy
pub mod Text
pub mod Compare
pub mod Numbers
pub mod Words
pub mod Binary
mod Tests
use Prim.Native.Nat.{Ordering}
use mathlib.Core.Logic.{ite, dite}
use mathlib.Core.Option
use mathlib.Core.WellFounded.{Acc}
use native.Mathlib.Decide.{ℕ_discrete}
use sbrocks.Prelude.{
  ℕ, zero, suc, ◌+◌, ◌-◌, ◌*◌, ◌/◌, ◌%◌, ◌^◌, ◌<◌, ◌≡◌, Bool, true, false, Option, none, some, ltb,
  ◌==◌, if◌then◌else◌, arith,
}
use sbrocks.Prelude.Order.{lt_wf}

abbrev pub Memory : Type 0
Memory = ℕ → ℕ

abbrev pub store : Memory → ℕ → ℕ → Memory
store m a v b = if a == b then v else m b

abbrev pub byte_mod : ℕ
byte_mod = 2 ^ 8

abbrev pub int_mod : ℕ
int_mod = 2 ^ 32

abbrev pub word_mod : ℕ
word_mod = 2 ^ 64

-- `while (n-- != 0) *dst++ = *src++;`
unfoldable pub memcpy : Memory → (dst src n : ℕ) → Memory
memcpy m dst src zero = m
memcpy m dst src (suc n) = memcpy (store m dst (m src)) (dst + 1) (src + 1) n

-- `c` is an `int`, cut to a `char` by the store.
unfoldable pub memset : Memory → (str c n : ℕ) → Memory
memset m str c zero = m
memset m str c (suc n) = memset (store m str (c % byte_mod)) (str + 1) c n

-- `val` is an `unsigned short`, but `*dest` is a `char`. The result is the address past the end.
pub memsetw : Memory → (s1 val count : ℕ) → Memory × ℕ
memsetw m s1 val zero = (m, s1)
memsetw m s1 val (suc count) = memsetw (store m s1 (val % byte_mod)) (s1 + 1) val count

-- The pointer at which `for (s = str; *s; ++s);` stops.
unfoldable pub find_end : (fuel : ℕ) → Memory → ℕ → Option ℕ
find_end zero m s = none
find_end (suc fuel) m s = let rest = find_end fuel m (s + 1) in if m s == 0 then some s else rest

unfoldable pub strlen : (fuel : ℕ) → Memory → ℕ → Option ℕ
unfolding find_end
strlen fuel m str = Option.map (λ s. s - str) (find_end fuel m str)

-- `while ((*dest++ = *src++) != '\0');`
unfoldable pub kstrcpy : (fuel : ℕ) → Memory → (dest src : ℕ) → Option Memory
kstrcpy zero m dest src = none
kstrcpy (suc fuel) m dest src =
    let m' = store m dest (m src) in
    let rest = kstrcpy fuel m' (dest + 1) (src + 1) in if m src == 0 then some m' else rest

-- Past the NUL of `src` the pointer stays, so the rest of `dest` is filled with NULs.
unfoldable pub kstrncpy : Memory → (dest src count : ℕ) → Memory
kstrncpy m dest src zero = m
kstrncpy m dest src (suc count) =
    kstrncpy (store m dest (m src)) (dest + 1) (if m src == 0 then src else src + 1) count

pub strcat : (fuel : ℕ) → Memory → (dest src : ℕ) → Option Memory
unfolding find_end kstrcpy
strcat fuel m dest src = Option.bind (find_end fuel m dest) (λ end. kstrcpy fuel m end src)

-- The result -1, 0 or 1 as an `Ordering`.
unfoldable pub kstrcmp : (fuel : ℕ) → Memory → (cs ct : ℕ) → Option Ordering
kstrcmp zero m cs ct = none
kstrcmp (suc fuel) m cs ct =
    let rest = kstrcmp fuel m (cs + 1) (ct + 1) in
    let c1 = m cs in
    let c2 = m ct in
    if c1 == c2
    then (if c1 == 0 then some Ordering.eq else rest)
    else some (if ltb c1 c2 then Ordering.lt else Ordering.gt)

unfoldable pub kstrncmp : Memory → (cs ct size : ℕ) → Ordering
kstrncmp m cs ct zero = Ordering.eq
kstrncmp m cs ct (suc size) =
    let rest = kstrncmp m (cs + 1) (ct + 1) size in
    let c1 = m cs in
    let c2 = m ct in
    if c1 == c2
    then (if c1 == 0 then Ordering.eq else rest)
    else (if ltb c1 c2 then Ordering.lt else Ordering.gt)

-- The calls for `y / 2` are made twice, as the source does. Products wrap at 2 ^ 64.
unfoldable pub power_acc : ℕ → (y : ℕ) → Acc ◌<◌ y → ℕ
power_acc x y (Acc.intro _ smaller) =
    dite (ℕ_discrete y 0) (λ _. 1)
      λ nz.
        let half = power_acc x (y / 2) (smaller (y / 2) (omega arith)) in
        if y % 2 == 0 then half * half % word_mod else x * half % word_mod * half % word_mod

unfoldable pub power : ℕ → ℕ → ℕ
unfolding power_acc lt_wf ℕ_discrete
power x y = power_acc x y (lt_wf.apply y)

-- A `char` is signed: the `int` of a byte, as a bit pattern.
abbrev pub char_to_int : ℕ → ℕ
char_to_int c = if ltb c 128 then c else c + int_mod - byte_mod

-- `k = (k<<3)+(k<<1)+(str[i])-'0'`, with `int` arithmetic on bit patterns.
unfoldable pub atoi_step : ℕ → ℕ → ℕ
atoi_step k c = (8 * k + 2 * k + char_to_int c + int_mod - b'0') % int_mod

unfoldable pub atoi_from : (fuel : ℕ) → Memory → (s k : ℕ) → Option ℕ
unfolding atoi_step
atoi_from zero m s k = none
atoi_from (suc fuel) m s k =
    let rest = atoi_from fuel m (s + 1) (atoi_step k (m s)) in if m s == 0 then some k else rest

unfoldable pub atoi : (fuel : ℕ) → Memory → ℕ → Option ℕ
unfolding atoi_from
atoi fuel m str = atoi_from fuel m str 0

-- One round adds the last decimal digit of `oct` at weight 8 ^ i. The remainder of a negative
-- `int` is negative or zero, so there the digit's weight is taken away.
unfoldable pub octal_digit : (neg : Bool) → (res digit i : ℕ) → ℕ
octal_digit neg res digit i =
    let weight = digit * power 8 i % word_mod in
    if neg then (res + word_mod - weight) % word_mod else (res + weight) % word_mod

-- `oct` is given by its sign and its size.
unfoldable pub octal_loop : (fuel : ℕ) → (neg : Bool) → (size res i : ℕ) → Option ℕ
octal_loop zero neg size res i = none
octal_loop (suc fuel) neg size res i =
    let rest = octal_loop fuel neg (size / 10) (octal_digit neg res (size % 10) i) (i + 1) in
    if size == 0 then some res else rest

-- Ten decimal digits hold every `int`, so eleven rounds are enough.
unfoldable pub octal_to_decimal : ℕ → Option ℕ
octal_to_decimal oct =
    if ltb oct (2 ^ 31) then octal_loop 11 false oct 0 0 else octal_loop 11 true (int_mod - oct) 0 0
