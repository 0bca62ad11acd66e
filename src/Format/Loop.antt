-- ===== src/Format/Loop.antt =====
-- The loop over a format, for a format that is given by its pieces.
use sbrocks.Prelude.{
  ℕ, zero, suc, ◌<◌, ◌≡◌, refl, ap, ◌∙◌, false, Option, some, List, [], ◌∷◌, ◌==◌, length, arith,
}
use sbrocks.Prelude.Fault.{>>=-then, ◌>>=◌}
use sbrocks.Format.{Out, emit, convert, convert_char, format_from, kvsprintf, Arg}
use sbrocks.Format.Pieces.{
  Spec, IsSpec, spec_text, run_spec, conversion-spec_text, width_of, precision_of,
}

pub data Piece : Type 0 where
  literal : (c : ℕ) → Piece
  conv : (sp : Spec) → Piece

abbrev pub format_text : List Piece → List ℕ
format_text [] = []
format_text (Piece.literal c ∷ ps) = c ∷ format_text ps
format_text (Piece.conv sp ∷ ps) = b'%' ∷ spec_text sp (format_text ps)

abbrev pub IsFormat : List Piece → Type 0
IsFormat [] = Unit
IsFormat (Piece.literal c ∷ ps) = ((c == b'%') ≡ false) × IsFormat ps
IsFormat (Piece.conv sp ∷ ps) = IsSpec sp × IsFormat ps

-- The pieces one after the other.
abbrev pub run_pieces : List Piece → Out → Option Out
run_pieces [] out = some out
run_pieces (Piece.literal c ∷ ps) out = run_pieces ps (emit (c ∷ []) out)
run_pieces (Piece.conv sp ∷ ps) out = run_spec sp (format_text ps) out >>= λ r. run_pieces ps r.1

run_spec-then :
    (sp : Spec) (rest : List ℕ) (out : Out) (f g : List ℕ × Out → Option Out)
    → ((o : Out) → f (rest, o) ≡ g (rest, o))
    → (run_spec sp rest out >>= f) ≡ (run_spec sp rest out >>= g)
unfolding convert
run_spec-then sp rest out f g h = >>=-then (width_of _ _ _ out) _ f g (λ w.
    >>=-then (precision_of sp.precision _ _) _ f g (λ p.
      >>=-then (convert_char w.0 p.0 sp.qualifier w.1 sp.letter p.2) (λ o. some (rest, o)) f g
        (λ o. h o)))

format_from-literal :
    (fuel c : ℕ) (fmt : List ℕ) (out : Out)
    → (c == b'%') ≡ false
    → format_from (suc fuel) (c ∷ fmt) out ≡ format_from fuel fmt (emit (c ∷ []) out)
unfolding format_from
format_from-literal fuel c fmt out n = rw (format_from, n) refl

format_from-run_pieces :
    (fuel : ℕ) (ps : List Piece) (out : Out)
    → IsFormat ps
    → length ps < fuel
    → format_from fuel (format_text ps) out ≡ run_pieces ps out
unfolding format_from
format_from-run_pieces zero ps out h l = elim l [ ]
format_from-run_pieces (suc fuel) [] out h l = refl
format_from-run_pieces (suc fuel) (Piece.literal c ∷ ps) out (n, h) l =
    format_from-literal fuel c (format_text ps) out n
    ∙ format_from-run_pieces fuel ps (emit (c ∷ []) out) h (omega arith)
format_from-run_pieces (suc fuel) (Piece.conv sp ∷ ps) out (s, h) l =
    ap (λ q. q >>= λ r. format_from fuel r.0 r.1) (conversion-spec_text sp (format_text ps) out s)
    ∙ run_spec-then sp (format_text ps) out _ _
        (λ o. format_from-run_pieces fuel ps o h (omega arith))

-- A format made of literal characters and conversions is run as its pieces in their order, if the
-- fuel is more than their number.
pub kvsprintf-run_pieces :
    (fuel : ℕ) (ps : List Piece) (args : List Arg)
    → IsFormat ps
    → length ps < fuel
    → kvsprintf fuel (format_text ps) args
      ≡ run_pieces ps (record { written = []; args = args; counts = [] })
unfolding kvsprintf
kvsprintf-run_pieces fuel ps args h l =
    format_from-run_pieces fuel ps (record { written = []; args = args; counts = [] }) h l
