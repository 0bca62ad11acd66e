-- ===== src/Format/Tests.antt =====
-- Formats and numbers that are printed.
use sbrocks.Prelude.{◌≡◌, refl, true, none, some, List, [], ◌∷◌, arith}
use sbrocks.Format.{
  Flags, no_flags, Out, Qualifier, Arg, format_from, convert, convert_char, put_number, padded,
  digit, read_flags, read_width, read_precision, read_qualifier, skip_atoi, isdigit, next_word,
  num_of, number, sign_of, prefix_of, digits_onto, kvsprintf, conversion,
}
use sbrocks.Format.Pieces.{Flag, Size, Spec, IsSpec, spec_text, run_spec, conversion-spec_text}
use sbrocks.Format.Loop.{Piece, format_text, run_pieces, kvsprintf-run_pieces}

abbrev fresh_out : List Arg → Out
fresh_out args = record { written = []; args = args; counts = [] }

-- "%-5d|%#x."
abbrev wide_decimal : Spec
wide_decimal = record {
  flags = Flag.minus ∷ [];
  width = Size.digits b'5' [];
  precision = none;
  qualifier = Qualifier.no_qualifier;
  letter = b'd';
}

abbrev prefixed_hex : Spec
prefixed_hex = record {
  flags = Flag.special ∷ [];
  width = Size.no_size;
  precision = none;
  qualifier = Qualifier.long;
  letter = b'x';
}

abbrev two_numbers : List Piece
two_numbers =
    Piece.conv wide_decimal ∷ Piece.literal b'|' ∷ Piece.conv prefixed_hex ∷ Piece.literal b'.' ∷ []

abbrev numbers : List Arg
numbers = Arg.word 18446744073709551574 ∷ Arg.word 48879 ∷ []

text_of_two_numbers :
    format_text two_numbers
    ≡ (b'%' ∷ b'-' ∷ b'5' ∷ b'd' ∷ b'|' ∷ b'%' ∷ b'#' ∷ b'l' ∷ b'x' ∷ b'.' ∷ [])
text_of_two_numbers = refl

kvsprintf_two_numbers :
    kvsprintf 20 (b'%' ∷ b'-' ∷ b'5' ∷ b'd' ∷ b'|' ∷ b'%' ∷ b'#' ∷ b'l' ∷ b'x' ∷ b'.' ∷ []) numbers
    ≡ some (record {
      written =
          (b'-' ∷ b'4' ∷ b'2' ∷ 32 ∷ 32 ∷ b'|' ∷ b'0' ∷ b'x' ∷ b'b' ∷ b'e' ∷ b'e' ∷ b'f' ∷ b'.'
            ∷ []);
      args = [];
      counts = [];
    })
unfolding kvsprintf format_from conversion convert convert_char put_number number padded digits_onto
    digit sign_of prefix_of read_flags read_width read_precision read_qualifier skip_atoi isdigit
    next_word num_of
kvsprintf_two_numbers = refl

wide_decimal-IsSpec : IsSpec wide_decimal
unfolding isdigit
wide_decimal-IsSpec = ((refl, omega arith, tt), refl, tt, refl)

prefixed_hex-IsSpec : IsSpec prefixed_hex
unfolding isdigit
prefixed_hex-IsSpec = (tt, refl, tt, refl)

conversion-spec_text_example :
    conversion (spec_text wide_decimal (b'|' ∷ [])) (fresh_out numbers)
    ≡ run_spec wide_decimal (b'|' ∷ []) (fresh_out numbers)
conversion-spec_text_example =
    conversion-spec_text wide_decimal (b'|' ∷ []) (fresh_out numbers) wide_decimal-IsSpec

kvsprintf-run_pieces_example :
    kvsprintf 20 (format_text two_numbers) numbers ≡ run_pieces two_numbers (fresh_out numbers)
kvsprintf-run_pieces_example =
    kvsprintf-run_pieces 20 two_numbers numbers
      (wide_decimal-IsSpec, (refl, (prefixed_hex-IsSpec, (refl, tt)))) (omega arith)

-- -42, signed, in base 10.
abbrev signed : Flags
signed = record no_flags { sign = true }
