-- ===== src/Shell/Command/Word.antt =====
-- The block that a word of a line gets from the allocator (w2/bin/sbush/sbush.c with
-- w2/libc/malloc.c).
use sbrocks.Prelude.{ℕ, ◌+◌, ◌≡◌, ◌≢◌, List, [], ◌∷◌}
use sbrocks.Kstring.{Memory}

-- The bytes of a word, without an end.
abbrev pub Begins : Memory → ℕ → List ℕ → Type 0
Begins m p [] = Unit
Begins m p (c ∷ cs) = (m p ≡ c) × (c ≢ 0) × Begins m (p + 1) cs
