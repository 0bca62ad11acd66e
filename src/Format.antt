-- ===== src/Format.antt =====
-- w2/sys/kprintf.c: formatted output of the kernel.
-- A format and the text of an argument are lists of bytes without their NUL, `written` is what
-- stands in the buffer so far. `none` is what C leaves undefined: an argument that is missing or of
-- another type, a number in a format that is no `int`, and output beyond the buffer.
-- A field width of -1 is `none`, and any other size below 0 counts as 0: sizes are only made
-- smaller and compared with 0.
pub mod Chars
pub mod Digits
pub mod Number
pub mod Pieces
pub mod Loop
mod Tests
use sbrocks.Prelude.{
  ℕ, zero, suc, ◌+◌, ◌-◌, ◌*◌, ◌/◌, ◌%◌, ◌^◌, Bool, true, false, Option, none, some, List, [], ◌∷◌,
  ◌++◌, ltb, leb, ◌==◌, not, if◌then◌else◌, ◌&&◌, ◌||◌, bit_or, length, replicate, drop, get_or,
}
use sbrocks.Prelude.Fault.{◌>>=◌, ◌>>◌, require}
use sbrocks.Kstring.{word_mod, int_mod}
use sbrocks.Vga.{Vga, puttimer, puts}
use sbrocks.Tarfs.Dir.{write_text}

-- The bits of `flags`.
pub record Flags : Type 0 where
  pub zeropad : Bool
  pub sign : Bool
  pub plus : Bool
  pub space : Bool
  pub left : Bool
  pub small : Bool
  pub special : Bool

abbrev pub no_flags : Flags
no_flags = record {
  zeropad = false;
  sign = false;
  plus = false;
  space = false;
  left = false;
  small = false;
  special = false;
}

-- What `va_arg` gives: a number in 64 bits, or a pointer to a text.
pub data Arg : Type 0 where
  word : ℕ → Arg
  text : List ℕ → Arg

pub isdigit : (ch : ℕ) → Bool
isdigit ch = leb 48 ch && leb ch 57

-- The number in front of a text, and what follows it.
pub skip_atoi : (i : ℕ) → (s : List ℕ) → Option (ℕ × List ℕ)
skip_atoi i [] = some (i, [])
skip_atoi i (c ∷ s) =
    let rest = skip_atoi (i * 10 + c - 48) s in
    if not (isdigit c) then some (i, c ∷ s) else if ltb (i * 10 + c) (2 ^ 31) then rest else none

-- `digits[d] | locase`
pub digit : (d locase : ℕ) → ℕ
digit d locase = bit_or (if ltb d 10 then 48 + d else 55 + d) locase

-- The digits of `num`, in front of those in `tmp`; `room` is what is left of `tmp`. They are written
-- the last digit first, and read in the order of the list.
pub digits_onto : (room num base locase : ℕ) → (tmp : List ℕ) → Option (List ℕ)
digits_onto zero num base locase tmp = if num == 0 then some tmp else none
digits_onto (suc room) num base locase tmp =
    let rest = digits_onto room (num / base) base locase (digit (num % base) locase ∷ tmp) in
    if num == 0 then some tmp else rest

abbrev pub locase_of : Flags → ℕ
locase_of type = if type.small then 32 else 0

-- Whether the number, of 64 bits, is printed as a negative one.
abbrev pub is_negative : (num : ℕ) → Flags → Bool
is_negative num type = type.sign && leb (2 ^ 63) num

pub sign_of : (num : ℕ) → Flags → List ℕ
sign_of num type =
    if is_negative num type
    then b'-' ∷ []
    else if type.sign && type.plus
    then b'+' ∷ []
    else if type.sign && type.space
    then 32 ∷ []
    else []

pub prefix_of : (base : ℕ) → Flags → List ℕ
prefix_of base type =
    if not type.special
    then []
    else if base == 8
    then 48 ∷ []
    else if base == 16
    then 48 ∷ bit_or b'X' (locase_of type) ∷ []
    else []

abbrev pub magnitude : (num : ℕ) → Flags → ℕ
magnitude num type = if is_negative num type then (word_mod - num) % word_mod else num

-- The digits in a field: `i` of them are in `tmp`.
pub padded : (size precision : ℕ) → (zeropad left : Bool) → (sign prefix tmp : List ℕ) → List ℕ
padded size precision zeropad left sign prefix tmp =
    let i = length tmp in
    let digits = if ltb precision i then i else precision in
    let blanks = size - length sign - length prefix - digits in
    let front = if zeropad || left then 0 else blanks in
    let middle = if left then 0 else blanks - front in
    let back = blanks - front - middle in
    replicate front 32
    ++ sign
    ++ prefix
    ++ replicate middle (if zeropad then 48 else 32)
    ++ replicate (digits - i) 48
    ++ tmp
    ++ replicate back 32

pub number : (num base size precision : ℕ) → Flags → Option (List ℕ)
number num base size precision type = do
  let zeropad = type.zeropad && not type.left
  require (leb 2 base && leb base 16)
  let n = magnitude num type
  tmp ← (if n == 0 then some (48 ∷ []) else digits_onto 66 n base (locase_of type) [])
  some (padded size precision zeropad type.left (sign_of num type) (prefix_of base type) tmp)

-- The arguments that are left, and what `%n` has written, the last pointer and count first.
pub record Out : Type 0 where
  pub written : List ℕ
  pub args : List Arg
  pub counts : List (ℕ × ℕ)

abbrev pub emit : List ℕ → Out → Out
emit cs out = record out { written = out.written ++ cs }

pub next_word : Out → Option (ℕ × Out)
next_word out = elim (out.args) [
  | [] ↦ none
  | a ∷ rest ↦ elim a [ word w ↦ some (w, record out { args = rest }) | text t ↦ none ]
]

pub next_text : Out → Option (List ℕ × Out)
next_text out = elim (out.args) [
  | [] ↦ none
  | a ∷ rest ↦ elim a [ word w ↦ none | text t ↦ some (t, record out { args = rest }) ]
]

-- The characters that set flags, and what follows them.
pub read_flags : (flags : Flags) → (fmt : List ℕ) → Flags × List ℕ
read_flags flags [] = (flags, [])
read_flags flags (c ∷ fmt) =
    let left = read_flags (record flags { left = true }) fmt in
    let plus = read_flags (record flags { plus = true }) fmt in
    let space = read_flags (record flags { space = true }) fmt in
    let special = read_flags (record flags { special = true }) fmt in
    let zeropad = read_flags (record flags { zeropad = true }) fmt in
    if c == b'-'
    then left
    else if c == b'+'
    then plus
    else if c == 32
    then space
    else if c == b'#'
    then special
    else if c == 48
    then zeropad
    else (flags, c ∷ fmt)

abbrev pub head_of : List ℕ → ℕ
head_of s = get_or s 0 0

-- An `int`: whether it is below 0, and its amount.
abbrev pub int_of : ℕ → Bool × ℕ
int_of w =
    if ltb (w % int_mod) (2 ^ 31) then (false, w % int_mod) else (true, int_mod - w % int_mod)

abbrev pub Width : Type 0
Width = Option ℕ × Flags × List ℕ × Out

pub star_width : (flags : Flags) → (fmt : List ℕ) → Out → Option Width
star_width flags fmt out = do
  (w, out') ← next_word out
  let (negative, n) = int_of w
  require (ltb n (2 ^ 31))
  some (some n, (if negative then record flags { left = true } else flags), fmt, out')

pub read_width : (flags : Flags) → (fmt : List ℕ) → Out → Option Width
read_width flags fmt out =
    let digits = skip_atoi 0 fmt >>= λ r. some (some r.0, flags, r.1, out) in
    if isdigit (head_of fmt)
    then digits
    else if head_of fmt == b'*'
    then star_width flags (drop 1 fmt) out
    else some (none, flags, fmt, out)

pub star_precision : (fmt : List ℕ) → Out → Option (ℕ × List ℕ × Out)
star_precision fmt out = do
  (w, out') ← next_word out
  let (negative, n) = int_of w
  some ((if negative then 0 else n), fmt, out')

-- A precision of -1 counts as 0.
pub read_precision : (fmt : List ℕ) → Out → Option (ℕ × List ℕ × Out)
read_precision fmt out =
    let after = drop 1 fmt in
    let digits = skip_atoi 0 after >>= λ r. some (r.0, r.1, out) in
    if not (head_of fmt == b'.')
    then some (0, fmt, out)
    else if isdigit (head_of after)
    then digits
    else if head_of after == b'*'
    then star_precision (drop 1 after) out
    else some (0, after, out)

pub data Qualifier : Type 0 where
  no_qualifier : Qualifier
  short : Qualifier
  long : Qualifier

-- `L` is read, and means nothing.
pub read_qualifier : (fmt : List ℕ) → Qualifier × List ℕ
read_qualifier fmt =
    if head_of fmt == b'h'
    then (Qualifier.short, drop 1 fmt)
    else if head_of fmt == b'l'
    then (Qualifier.long, drop 1 fmt)
    else if head_of fmt == b'L'
    then (Qualifier.no_qualifier, drop 1 fmt)
    else (Qualifier.no_qualifier, fmt)

-- The low `bits` bits as a number of 64 bits, with their sign or without.
abbrev pub extend : (signed : Bool) → (bits w : ℕ) → ℕ
extend signed bits w =
    if signed && leb (2 ^ (bits - 1)) (w % 2 ^ bits)
    then w % 2 ^ bits + word_mod - 2 ^ bits
    else w % 2 ^ bits

pub num_of : Qualifier → (signed : Bool) → (w : ℕ) → ℕ
num_of Qualifier.long signed w = w % word_mod
num_of Qualifier.short signed w = extend signed 16 w
num_of Qualifier.no_qualifier signed w = extend signed 32 w

abbrev pub size_of : (width : Option ℕ) → ℕ
size_of none = 0
size_of (some n) = n

pub put_number :
    (base : ℕ) → (precision : ℕ) → (width : Option ℕ) → Qualifier → Flags → Out → Option Out
put_number base precision width qualifier flags out = do
  (w, out') ← next_word out
  let size = size_of width
  cs ← number (num_of qualifier flags.sign w) base size precision flags
  some (emit cs out')

pub put_pointer : (precision : ℕ) → (width : Option ℕ) → Flags → Out → Option Out
put_pointer precision width flags out = do
  (w, out') ← next_word out
  let padded = record flags { zeropad = true }
  let plain = number (w % word_mod) 16 16 precision padded
  cs ← elim width [ none ↦ plain | some n ↦ number (w % word_mod) 16 n precision flags ]
  some (emit cs out')

-- `cs`, made as wide as the field.
abbrev pub in_field : (width : Option ℕ) → Flags → List ℕ → List ℕ
in_field width flags cs =
    let size = size_of width in
    let blanks = replicate (size - length cs) 32 in
    if flags.left then cs ++ blanks else blanks ++ cs

pub put_char : (width : Option ℕ) → Flags → Out → Option Out
put_char width flags out = do
  (w, out') ← next_word out
  some (emit (in_field width flags (w % 256 ∷ [])) out')

pub put_text : (width : Option ℕ) → Flags → Out → Option Out
put_text width flags out = do (t, out') ← next_text out; some (emit (in_field width flags t) out')

-- The count so far goes to the pointer, as an `int` or a `long`.
pub put_count : Qualifier → Out → Option Out
put_count _ out = do
  (p, out') ← next_word out
  some (record out' { counts = (p, length out.written) ∷ out'.counts })

-- What the character of the conversion does.
pub convert_char :
    (width : Option ℕ) → (precision : ℕ) → Qualifier → Flags → (c : ℕ) → Out → Option Out
convert_char width precision qualifier flags c out =
    let small = record flags { small = true } in
    let signed = record flags { sign = true } in
    if c == b'c'
    then put_char width flags out
    else if c == b's'
    then put_text width flags out
    else if c == b'p'
    then put_pointer precision width flags out
    else if c == b'n'
    then put_count qualifier out
    else if c == b'%'
    then some (emit (b'%' ∷ []) out)
    else if c == b'o'
    then put_number 8 precision width qualifier flags out
    else if c == b'x'
    then put_number 16 precision width qualifier small out
    else if c == b'X'
    then put_number 16 precision width qualifier flags out
    else if (c == b'd') || (c == b'i')
    then put_number 10 precision width qualifier signed out
    else if c == b'u'
    then put_number 10 precision width qualifier flags out
    else some (emit (b'%' ∷ c ∷ []) out)

-- At the end of the format there is no character, and none is left out.
pub convert :
    (width : Option ℕ)
    → (precision : ℕ) → Qualifier
    → Flags
    → (fmt : List ℕ) → Out
    → Option (List ℕ × Out)
convert width precision _ flags [] out = some ([], emit (b'%' ∷ []) out)
convert width precision qualifier flags (c ∷ fmt) out = do
  out' ← convert_char width precision qualifier flags c out
  some (fmt, out')

-- One conversion, from behind its `%`.
pub conversion : (fmt : List ℕ) → Out → Option (List ℕ × Out)
conversion fmt out = do
  let (flags, fmt1) = read_flags no_flags fmt
  (width, flags2, fmt2, out2) ← read_width flags fmt1 out
  (precision, fmt3, out3) ← read_precision fmt2 out2
  let (qualifier, fmt4) = read_qualifier fmt3
  convert width precision qualifier flags2 fmt4 out3

-- The loop over the format.
pub format_from : (fuel : ℕ) → (fmt : List ℕ) → Out → Option Out
format_from zero fmt out = none
format_from (suc fuel) [] out = some out
format_from (suc fuel) (c ∷ fmt) out = elim (c == b'%') [
  | false ↦ format_from fuel fmt (emit (c ∷ []) out)
  | true ↦ do (rest, out') ← conversion fmt out; format_from fuel rest out'
]

pub kvsprintf : (fuel : ℕ) → (fmt : List ℕ) → (args : List Arg) → Option Out
kvsprintf fuel fmt args = format_from fuel fmt (record { written = []; args = args; counts = [] })

-- `printf_buf`, at `buf`, has 1024 bytes.
abbrev pub printf_buf_size : ℕ
printf_buf_size = 1024

abbrev pub fill_buffer : (fuel buf : ℕ) → (fmt : List ℕ) → (args : List Arg) → Vga → Option Vga
fill_buffer fuel buf fmt args vga = do
  out ← kvsprintf fuel fmt args
  require (ltb (length out.written) printf_buf_size)
  some (record vga { memory = write_text vga.memory buf out.written })

-- `kprintf` returns at once.
pub kprintf : (fmt : List ℕ) → (args : List Arg) → Vga → Vga
kprintf fmt args vga = vga

pub kprintf2 : (fuel buf : ℕ) → (fmt : List ℕ) → (args : List Arg) → Vga → Option Vga
kprintf2 fuel buf fmt args vga = do
  vga1 ← fill_buffer fuel buf fmt args vga
  puts printf_buf_size buf vga1

pub kprintat : (fuel buf x y : ℕ) → (fmt : List ℕ) → (args : List Arg) → Vga → Option Vga
kprintat fuel buf x y fmt args vga = do
  vga1 ← fill_buffer fuel buf fmt args vga
  puttimer printf_buf_size x y buf vga1

pub clrscr : Vga → Vga
clrscr vga = vga
