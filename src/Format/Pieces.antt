-- ===== src/Format/Pieces.antt =====
-- A format as a list of pieces, its text, and what the loop over the text does.
use sbrocks.Prelude.{
  ℕ, ◌+◌, ◌-◌, ◌*◌, ◌^◌, ◌<◌, ◌≡◌, refl, ap, ◌∙◌, Bool, true, false, Option, none, some, List, [],
  ◌∷◌, ◌++◌, map, ltb, ◌==◌, if◌then◌else◌, ◌&&◌, ◌||◌, not, arith, lt→ltb,
}
use sbrocks.Prelude.Fault.{>>=-then, ◌>>=◌, require}
use sbrocks.Format.{
  Flags, no_flags, Out, Qualifier, isdigit, head_of, skip_atoi, read_flags, read_width,
  read_precision, read_qualifier, star_width, star_precision, next_word, int_of, Width, convert,
  conversion,
}

-- The flags, by their characters.
pub data Flag : Type 0 where
  minus : Flag
  plus : Flag
  space : Flag
  special : Flag
  zeropad : Flag

abbrev pub flag_char : Flag → ℕ
flag_char Flag.minus = b'-'
flag_char Flag.plus = b'+'
flag_char Flag.space = 32
flag_char Flag.special = b'#'
flag_char Flag.zeropad = 48

abbrev pub set_flag : Flags → Flag → Flags
set_flag flags Flag.minus = record flags { left = true }
set_flag flags Flag.plus = record flags { plus = true }
set_flag flags Flag.space = record flags { space = true }
set_flag flags Flag.special = record flags { special = true }
set_flag flags Flag.zeropad = record flags { zeropad = true }

abbrev pub set_flags : Flags → List Flag → Flags
set_flags flags [] = flags
set_flags flags (f ∷ fs) = set_flags (set_flag flags f) fs

abbrev pub is_flag : (c : ℕ) → Bool
is_flag c = (c == b'-') || (c == b'+') || (c == 32) || (c == b'#') || (c == 48)

read_flags-stop :
    (flags : Flags) (fmt : List ℕ)
    → is_flag (head_of fmt) ≡ false
    → read_flags flags fmt ≡ (flags, fmt)
unfolding read_flags
read_flags-stop flags [] h = refl
read_flags-stop flags (c ∷ fmt) h = ground arith

read_flags-flags :
    (flags : Flags) (fs : List Flag) (fmt : List ℕ)
    → is_flag (head_of fmt) ≡ false
    → read_flags flags (map flag_char fs ++ fmt) ≡ (set_flags flags fs, fmt)
unfolding read_flags
read_flags-flags flags [] fmt h = read_flags-stop flags fmt h
read_flags-flags flags (Flag.minus ∷ fs) fmt h =
    read_flags-flags (record flags { left = true }) fs fmt h
read_flags-flags flags (Flag.plus ∷ fs) fmt h =
    read_flags-flags (record flags { plus = true }) fs fmt h
read_flags-flags flags (Flag.space ∷ fs) fmt h =
    read_flags-flags (record flags { space = true }) fs fmt h
read_flags-flags flags (Flag.special ∷ fs) fmt h =
    read_flags-flags (record flags { special = true }) fs fmt h
read_flags-flags flags (Flag.zeropad ∷ fs) fmt h =
    read_flags-flags (record flags { zeropad = true }) fs fmt h

-- A text of digits as a number behind `i`, where an `int` holds it.
abbrev pub decimal : (i : ℕ) → (ds : List ℕ) → ℕ
decimal i [] = i
decimal i (d ∷ ds) = decimal (i * 10 + d - 48) ds

abbrev pub IsDecimal : (i : ℕ) → (ds : List ℕ) → Type 0
IsDecimal i [] = Unit
IsDecimal i (d ∷ ds) = (isdigit d ≡ true) × (i * 10 + d < 2 ^ 31) × IsDecimal (i * 10 + d - 48) ds

skip_atoi-stop :
    (i : ℕ) (fmt : List ℕ) → isdigit (head_of fmt) ≡ false → skip_atoi i fmt ≡ some (i, fmt)
unfolding skip_atoi
skip_atoi-stop i [] e = refl
skip_atoi-stop i (c ∷ fmt) e = rw e refl

skip_atoi-digit :
    (i d : ℕ) (s : List ℕ)
    → isdigit d ≡ true
    → i * 10 + d < 2 ^ 31
    → skip_atoi i (d ∷ s) ≡ skip_atoi (i * 10 + d - 48) s
unfolding skip_atoi
skip_atoi-digit i d s h l = rw (h, lt→ltb (i * 10 + d) (2 ^ 31) l) refl

skip_atoi-decimal :
    (i : ℕ) (ds fmt : List ℕ)
    → IsDecimal i ds
    → isdigit (head_of fmt) ≡ false
    → skip_atoi i (ds ++ fmt) ≡ some (decimal i ds, fmt)
skip_atoi-decimal i [] fmt h e = skip_atoi-stop i fmt e
skip_atoi-decimal i (d ∷ ds) fmt (h, l, hs) e =
    skip_atoi-digit i d (ds ++ fmt) h l ∙ skip_atoi-decimal (i * 10 + d - 48) ds fmt hs e

isdigit-star : isdigit b'*' ≡ false
unfolding isdigit
isdigit-star = refl

-- A width or a precision: none, digits, or the next argument.
pub data Size : Type 0 where
  no_size : Size
  digits : (d : ℕ) → (ds : List ℕ) → Size
  star : Size

abbrev pub size_text : Size → (rest : List ℕ) → List ℕ
size_text Size.no_size rest = rest
size_text (Size.digits d ds) rest = d ∷ (ds ++ rest)
size_text Size.star rest = b'*' ∷ rest

abbrev pub IsSize : Size → Type 0
IsSize (Size.digits d ds) = IsDecimal 0 (d ∷ ds)
IsSize Size.no_size = Unit
IsSize Size.star = Unit

-- A width in digits does not start with the digit that is a flag.
abbrev pub starts_zero : Size → Bool
starts_zero (Size.digits d ds) = d == 48
starts_zero Size.no_size = false
starts_zero Size.star = false

abbrev pub qualifier_text : Qualifier → List ℕ → List ℕ
qualifier_text Qualifier.no_qualifier rest = rest
qualifier_text Qualifier.short rest = b'h' ∷ rest
qualifier_text Qualifier.long rest = b'l' ∷ rest

-- A character that no part in front of the conversion takes.
abbrev pub is_letter : (c : ℕ) → Bool
is_letter c =
    not (is_flag c)
    && not (isdigit c)
    && not (c == b'*')
    && not (c == b'.')
    && not (c == b'h')
    && not (c == b'l')
    && not (c == b'L')

-- What a width and a precision give, with what follows them.
abbrev pub width_of : Size → Flags → (fmt : List ℕ) → Out → Option Width
width_of Size.no_size flags fmt out = some (none, flags, fmt, out)
width_of (Size.digits d ds) flags fmt out = some (some (decimal 0 (d ∷ ds)), flags, fmt, out)
width_of Size.star flags fmt out = star_width flags fmt out

abbrev pub precision_of : Option Size → (fmt : List ℕ) → Out → Option (ℕ × List ℕ × Out)
precision_of none fmt out = some (0, fmt, out)
precision_of (some Size.no_size) fmt out = some (0, fmt, out)
precision_of (some (Size.digits d ds)) fmt out = some (decimal 0 (d ∷ ds), fmt, out)
precision_of (some Size.star) fmt out = star_precision fmt out

abbrev pub precision_text : Option Size → List ℕ → List ℕ
precision_text none rest = rest
precision_text (some size) rest = b'.' ∷ size_text size rest

read_width-size :
    (flags : Flags) (size : Size) (fmt : List ℕ) (out : Out)
    → IsSize size
    → isdigit (head_of fmt) ≡ false
    → (head_of fmt == b'*') ≡ false
    → read_width flags (size_text size fmt) out ≡ width_of size flags fmt out
unfolding read_width
read_width-size flags Size.no_size fmt out h d e = rw (d, e) refl
read_width-size flags (Size.digits c ds) fmt out (h, l, hs) d e =
    rw (h, skip_atoi-decimal 0 (c ∷ ds) fmt (h, l, hs) d) refl
read_width-size flags Size.star fmt out h d e = rw isdigit-star refl

read_precision-none :
    (fmt : List ℕ) (out : Out)
    → (head_of fmt == b'.') ≡ false
    → read_precision fmt out ≡ some (0, fmt, out)
unfolding read_precision
read_precision-none fmt out h = rw h refl

read_precision-size :
    (size : Size) (fmt : List ℕ) (out : Out)
    → IsSize size
    → isdigit (head_of fmt) ≡ false
    → (head_of fmt == b'*') ≡ false
    → read_precision (b'.' ∷ size_text size fmt) out ≡ precision_of (some size) fmt out
unfolding read_precision
read_precision-size Size.no_size fmt out h d e = rw (d, e) refl
read_precision-size (Size.digits c ds) fmt out (h, l, hs) d e =
    rw (h, skip_atoi-decimal 0 (c ∷ ds) fmt (h, l, hs) d) refl
read_precision-size Size.star fmt out h d e = rw isdigit-star refl

read_qualifier-text :
    (q : Qualifier) (fmt : List ℕ)
    → is_letter (head_of fmt) ≡ true
    → read_qualifier (qualifier_text q fmt) ≡ (q, fmt)
unfolding read_qualifier
read_qualifier-text Qualifier.no_qualifier fmt h = ground arith
read_qualifier-text Qualifier.short fmt h = refl
read_qualifier-text Qualifier.long fmt h = refl

-- One conversion: what stands between its `%` and the text behind its letter.
pub record Spec : Type 0 where
  pub flags : List Flag
  pub width : Size
  pub precision : Option Size
  pub qualifier : Qualifier
  pub letter : ℕ

abbrev pub spec_text : Spec → (rest : List ℕ) → List ℕ
spec_text sp rest =
    map flag_char sp.flags
    ++ size_text sp.width
        (precision_text sp.precision (qualifier_text sp.qualifier (sp.letter ∷ rest)))

abbrev pub IsPrecision : Option Size → Type 0
IsPrecision none = Unit
IsPrecision (some size) = IsSize size

abbrev pub IsSpec : Spec → Type 0
IsSpec sp =
    IsSize sp.width
    × (starts_zero sp.width ≡ false)
    × IsPrecision sp.precision
    × (is_letter sp.letter ≡ true)

-- What a conversion does, by its parts.
abbrev pub run_spec : Spec → (rest : List ℕ) → Out → Option (List ℕ × Out)
run_spec sp rest out = do
  let tail = qualifier_text sp.qualifier (sp.letter ∷ rest)
  (width, flags, fmt2, out2) ←
      width_of sp.width (set_flags no_flags sp.flags) (precision_text sp.precision tail) out
  (precision, fmt3, out3) ← precision_of sp.precision tail out2
  convert width precision sp.qualifier flags (sp.letter ∷ rest) out3

-- The heads of what follows the parts.
qualifier_head :
    (q : Qualifier) (c : ℕ) (rest : List ℕ)
    → is_letter c ≡ true
    → let h = head_of (qualifier_text q (c ∷ rest)) in
      (is_flag h ≡ false) × (isdigit h ≡ false) × ((h == b'*') ≡ false) × ((h == b'.') ≡ false)
unfolding isdigit
qualifier_head Qualifier.short c rest h = (refl, refl, refl, refl)
qualifier_head Qualifier.long c rest h = (refl, refl, refl, refl)
qualifier_head Qualifier.no_qualifier c rest h =
    (ground arith, ground arith, ground arith, ground arith)

precision_head :
    (p : Option Size) (fmt : List ℕ)
    → (is_flag (head_of fmt) ≡ false)
      × (isdigit (head_of fmt) ≡ false)
      × ((head_of fmt == b'*') ≡ false)
    → let h = head_of (precision_text p fmt) in
      (is_flag h ≡ false) × (isdigit h ≡ false) × ((h == b'*') ≡ false)
unfolding isdigit
precision_head none fmt h = h
precision_head (some size) fmt h = (refl, refl, refl)

size_head :
    (size : Size) (fmt : List ℕ)
    → starts_zero size ≡ false
    → IsSize size
    → is_flag (head_of fmt) ≡ false
    → is_flag (head_of (size_text size fmt)) ≡ false
unfolding isdigit
size_head Size.no_size fmt z s h = h
size_head (Size.digits d ds) fmt z (s, l, ss) h = ground arith
size_head Size.star fmt z s h = refl

read_precision-precision :
    (p : Option Size) (fmt : List ℕ) (out : Out)
    → IsPrecision p
    → (isdigit (head_of fmt) ≡ false)
      × ((head_of fmt == b'*') ≡ false)
      × ((head_of fmt == b'.') ≡ false)
    → read_precision (precision_text p fmt) out ≡ precision_of p fmt out
read_precision-precision none fmt out h (d, e, f) = read_precision-none fmt out f
read_precision-precision (some size) fmt out h (d, e, f) = read_precision-size size fmt out h d e

-- What follows a width or a precision runs on the text behind it.
module _ (fmt : List ℕ) where
  width_of-then :
      (size : Size) (flags : Flags) (out : Out) (f g : Width → Option (List ℕ × Out))
      → ((n : Option ℕ) (fl : Flags) (o : Out) → f (n, fl, fmt, o) ≡ g (n, fl, fmt, o))
      → (width_of size flags fmt out >>= f) ≡ (width_of size flags fmt out >>= g)
  unfolding star_width
  width_of-then Size.no_size flags out f g h = h none flags out
  width_of-then (Size.digits d ds) flags out f g h = h (some (decimal 0 (d ∷ ds))) flags out
  width_of-then Size.star flags out f g h = >>=-then (next_word out) _ f g (λ r.
      >>=-then (require (ltb (int_of r.0).1 (2 ^ 31))) _ f g (λ u.
        h (some (int_of r.0).1) (if (int_of r.0).0 then record flags { left = true } else flags)
          r.1))

  precision_of-then :
      (p : Option Size) (out : Out) (f g : ℕ × List ℕ × Out → Option (List ℕ × Out))
      → ((n : ℕ) (o : Out) → f (n, fmt, o) ≡ g (n, fmt, o))
      → (precision_of p fmt out >>= f) ≡ (precision_of p fmt out >>= g)
  unfolding star_precision
  precision_of-then none out f g h = h 0 out
  precision_of-then (some Size.no_size) out f g h = h 0 out
  precision_of-then (some (Size.digits d ds)) out f g h = h (decimal 0 (d ∷ ds)) out
  precision_of-then (some Size.star) out f g h =
      >>=-then (next_word out) _ f g (λ r. h (if (int_of r.0).0 then 0 else (int_of r.0).1) r.1)

-- The text of a conversion, whatever stands behind it, is read as its parts.
pub conversion-spec_text :
    (sp : Spec) (rest : List ℕ) (out : Out)
    → IsSpec sp
    → conversion (spec_text sp rest) out ≡ run_spec sp rest out
unfolding conversion
conversion-spec_text sp rest out (w, z, p, l) =
    let tail = qualifier_text sp.qualifier (sp.letter ∷ rest) in
    let (f1, d1, s1, p1) = qualifier_head sp.qualifier sp.letter rest l in
    let (f2, d2, s2) = precision_head sp.precision tail (f1, d1, s1) in
    let middle = precision_text sp.precision tail in
    rw
      (
        read_flags-flags no_flags sp.flags (size_text sp.width middle)
            (size_head sp.width middle z w f2),
        read_width-size (set_flags no_flags sp.flags) sp.width middle out w d2 s2,
      )
      (width_of-then middle sp.width (set_flags no_flags sp.flags) out _ _ (λ n fl o.
        ap (λ q. q >>= λ r. convert n r.0 (read_qualifier r.1).0 fl (read_qualifier r.1).1 r.2)
          (read_precision-precision sp.precision tail o p (d1, s1, p1))
        ∙ precision_of-then tail sp.precision o _ _ (λ k o'.
          ap (λ q. convert n k q.0 fl q.1 o')
            (read_qualifier-text sp.qualifier (sp.letter ∷ rest) l))))
