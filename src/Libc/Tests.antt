-- ===== src/Libc/Tests.antt =====
-- Two texts, and the theorem on the search there.
use sbrocks.Prelude.{ℕ, ◌≡◌, ◌≢◌, refl, arith, ◌==◌, if◌then◌else◌, some, List, [], ◌∷◌}
use sbrocks.Kstring.{Memory}
use sbrocks.Kstring.Text.{IsText}
use sbrocks.Libc.{strstr}
use sbrocks.Libc.Search.{IsBytes, first_match, strstr-first_match}

abbrev text : List ℕ
text = b'x' ∷ b'a' ∷ b'b' ∷ []

abbrev part : List ℕ
part = b'a' ∷ b'b' ∷ []

-- At 100 `xab`, at 200 `ab`.
abbrev texts : Memory
texts b =
    if b == 100
    then b'x'
    else if b == 101
    then b'a'
    else if b == 102
    then b'b'
    else if b == 200
    then b'a'
    else if b == 201
    then b'b'
    else 0

texts-IsBytes : IsBytes texts
texts-IsBytes b = ground arith

text-IsText : IsText texts 100 text
text-IsText =
    (refl, (λ e. omega arith), (refl, (λ e. omega arith), (refl, (λ e. omega arith), refl)))

part-IsText : IsText texts 200 part
part-IsText = (refl, (λ e. omega arith), (refl, (λ e. omega arith), refl))

strstr-first_match_example :
    (part ≡ [] → strstr 4 texts 100 200 ≡ some 100)
    × (part ≢ [] → strstr 4 texts 100 200 ≡ some (first_match 100 text part))
strstr-first_match_example =
    strstr-first_match 4 texts 100 200 text part texts-IsBytes text-IsText part-IsText (omega arith)
      (omega arith)
