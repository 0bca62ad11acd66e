-- ===== src/Libc.antt =====
-- w2/libc/string.c: the string routines of user programs, on the memory that the program sees.
-- Addresses do not wrap, and `none` is a text without an end within the fuel. Results of type `int`
-- are words of 32 bits.
pub mod Search
mod Tests
use sbrocks.Prelude.{
  ℕ, zero, suc, ◌+◌, ◌-◌, ◌*◌, ◌%◌, ◌^◌, Bool, true, false, Option, none, some, ltb, leb, ◌==◌, not,
  if◌then◌else◌, ◌&&◌, ◌||◌,
}
use sbrocks.Prelude.Fault.{◌>>=◌}
use sbrocks.Kstring.{Memory, store, int_mod}

pub memcmp : (n : ℕ) → Memory → (s1 s2 : ℕ) → ℕ
memcmp zero m s1 s2 = 0
memcmp (suc n) m s1 s2 =
    let rest = memcmp n m (s1 + 1) (s2 + 1) in
    if m s1 == m s2 then rest else (m s1 + int_mod - m s2) % int_mod

unfoldable pub memset : (n : ℕ) → Memory → (str c : ℕ) → Memory
memset zero m str c = m
memset (suc n) m str c = memset n (store m str (c % 256)) (str + 1) c

pub memcpy : (n : ℕ) → Memory → (s1 s2 : ℕ) → Memory
memcpy zero m s1 s2 = m
memcpy (suc n) m s1 s2 = memcpy n (store m s1 (m s2)) (s1 + 1) (s2 + 1)

unfoldable pub strcpy : (fuel : ℕ) → Memory → (dest src : ℕ) → Option Memory
strcpy zero m dest src = none
strcpy (suc fuel) m dest src =
    let m' = store m dest (m src) in
    let rest = strcpy fuel m' (dest + 1) (src + 1) in if m src == 0 then some m' else rest

-- The source stays at its NUL, so that the rest is filled with NULs.
unfoldable pub strncpy : (count : ℕ) → Memory → (dest src : ℕ) → Memory
strncpy zero m dest src = m
strncpy (suc count) m dest src =
    strncpy count (store m dest (m src)) (dest + 1) (if m src == 0 then src else src + 1)

unfoldable pub strlen_from : (fuel : ℕ) → Memory → (s : ℕ) → Option ℕ
strlen_from zero m s = none
strlen_from (suc fuel) m s =
    let rest = strlen_from fuel m (s + 1) in if m s == 0 then some s else rest

unfoldable pub strlen : (fuel : ℕ) → Memory → (str : ℕ) → Option ℕ
unfolding strlen_from
strlen fuel m str = do s ← strlen_from fuel m str; some (s - str)

pub strcmp : (fuel : ℕ) → Memory → (cs ct : ℕ) → Option ℕ
strcmp zero m cs ct = none
strcmp (suc fuel) m cs ct =
    let rest = strcmp fuel m (cs + 1) (ct + 1) in
    if not (m cs == m ct)
    then some (if ltb (m cs) (m ct) then int_mod - 1 else 1)
    else if m cs == 0
    then some 0
    else rest

-- The loop of `strstr`, for a text of `l2` bytes, which are more than none.
pub find_text : (l1 : ℕ) → Memory → (s1 s2 l2 : ℕ) → ℕ
find_text zero m s1 s2 l2 = 0
find_text (suc l1) m s1 s2 l2 =
    let rest = find_text l1 m (s1 + 1) s2 l2 in
    if not (leb l2 (suc l1)) then 0 else if memcmp l2 m s1 s2 == 0 then s1 else rest

pub strstr : (fuel : ℕ) → Memory → (s1 s2 : ℕ) → Option ℕ
strstr fuel m s1 s2 = do
  l2 ← strlen fuel m s2
  let search = do l1 ← strlen fuel m s1; some (find_text l1 m s1 s2 l2)
  if l2 == 0 then some s1 else search

pub strcat : (fuel : ℕ) → Memory → (dest src : ℕ) → Option Memory
strcat fuel m dest src = do end ← strlen_from fuel m dest; strcpy fuel m end src

-- `'\12'` is a newline once more.
pub isspace : (c : ℕ) → Bool
isspace c = (c == 32) || (c == 9) || (c == 10) || (c == 10)

pub strchr : (fuel : ℕ) → Memory → (s c : ℕ) → Option ℕ
strchr zero m s c = none
strchr (suc fuel) m s c =
    let rest = strchr fuel m (s + 1) c in
    if m s == c % 256 then some s else if m s == 0 then some 0 else rest

pub isdigit : (ch : ℕ) → Bool
isdigit ch = leb 48 ch && leb ch 57

pub strcspn_from : (fuel text_fuel count : ℕ) → Memory → (s reject : ℕ) → Option ℕ
strcspn_from zero text_fuel count m s reject = none
strcspn_from (suc fuel) text_fuel count m s reject =
    let rest = strcspn_from fuel text_fuel (count + 1) m (s + 1) reject in
    let found = strchr text_fuel m reject (m s) in
    if m s == 0 then some count else do p ← found; if p == 0 then rest else some count

pub strcspn : (fuel : ℕ) → Memory → (s reject : ℕ) → Option ℕ
strcspn fuel m s reject = strcspn_from fuel fuel 0 m s reject

-- A length that is negative as an `int` resets nothing.
pub reset : Memory → (str len : ℕ) → Memory
reset m str len = if ltb len (2 ^ 31) then memset len m str 0 else m

-- A `char` is signed.
pub atoi_from : (fuel k : ℕ) → Memory → (str : ℕ) → Option ℕ
atoi_from zero k m str = none
atoi_from (suc fuel) k m str =
    let c = if ltb (m str) 128 then m str else m str + int_mod - 256 in
    let rest = atoi_from fuel ((k * 8 + k * 2 + c + int_mod - 48) % int_mod) m (str + 1) in
    if m str == 0 then some k else rest

pub atoi : (fuel : ℕ) → Memory → (str : ℕ) → Option ℕ
atoi fuel m str = atoi_from fuel 0 m str
