-- ===== src/Libc/Search.antt =====
-- `strstr` of w2/libc/string.c against the search in a list.
use sbrocks.Prelude.{
  ℕ, zero, suc, ◌+◌, ◌-◌, ◌<◌, ◌≡◌, ◌≢◌, refl, sym, ap, arith, ◌==◌, if◌then◌else◌, Bool, true,
  false, some, List, [], ◌∷◌, length, Bool-cases, inl, inr, leb, ◌&&◌,
}
use sbrocks.Kstring.{Memory}
use sbrocks.Kstring.Text.{IsText}
use sbrocks.Libc.{memcmp, strlen, strlen_from, find_text, strstr}

abbrev pub IsBytes : Memory → Type 0
IsBytes m = (a : ℕ) → m a < 256

unfoldable pub starts : (text prefix : List ℕ) → Bool
starts xs [] = true
starts [] (y ∷ ys) = false
starts (x ∷ xs) (y ∷ ys) = (x == y) && starts xs ys

-- The address of the first place where the text at `p` goes on with `ys`; 0 where there is none.
unfoldable pub first_match : (p : ℕ) → (text ys : List ℕ) → ℕ
first_match p [] ys = 0
first_match p (x ∷ xs) ys = if starts (x ∷ xs) ys then p else first_match (p + 1) xs ys

memcmp-starts :
    (m : Memory) (p q : ℕ) (xs ys : List ℕ)
    → IsBytes m
    → IsText m p xs
    → IsText m q ys
    → (memcmp (length ys) m p q == 0) ≡ starts xs ys
unfolding memcmp starts
memcmp-starts m p q xs [] bytes t u = refl
memcmp-starts m p q [] (y ∷ ys) bytes t (at, nz, u) =
    let ne : (m p == m q) ≡ false = ground arith in
    let a = bytes p in let b = bytes q in rw ne (ground arith)
memcmp-starts m p q (x ∷ xs) (y ∷ ys) bytes (at, nz, t) (at', nz', u) =
    elim (Bool-cases (m p == m q)) [
      | inl same ↦
          let e : (x == y) ≡ true = ground arith in
          rw (same, e) (memcmp-starts m (p + 1) (q + 1) xs ys bytes t u)
      | inr other ↦
          let e : (x == y) ≡ false = ground arith in
          let a = bytes p in let b = bytes q in rw (other, e) (ground arith)
    ]

starts_short : (xs ys : List ℕ) → length xs < length ys → starts xs ys ≡ false
unfolding starts
starts_short xs [] h = elim h [ ]
starts_short [] (y ∷ ys) h = refl
starts_short (x ∷ xs) (y ∷ ys) h = elim (Bool-cases (x == y)) [
  | inl same ↦ rw same (starts_short xs ys (omega arith))
  | inr other ↦ rw other refl
]

first_match_short : (p : ℕ) (xs ys : List ℕ) → length xs < length ys → first_match p xs ys ≡ 0
unfolding first_match
first_match_short p [] ys h = refl
first_match_short p (x ∷ xs) ys h =
    rw (starts_short (x ∷ xs) ys h) (first_match_short (p + 1) xs ys (omega arith))

strlen_from-end :
    (fuel : ℕ) (m : Memory) (p : ℕ) (xs : List ℕ)
    → IsText m p xs
    → length xs < fuel
    → strlen_from fuel m p ≡ some (p + length xs)
unfolding strlen_from
strlen_from-end zero m p xs t h = elim h [ ]
strlen_from-end (suc fuel) m p [] t h = ground arith
strlen_from-end (suc fuel) m p (x ∷ xs) (at, nz, t) h =
    let e : (m p == 0) ≡ false = ground arith in
    let n : p + suc (length xs) ≡ p + 1 + length xs = omega arith in
    rw (e, n) (strlen_from-end fuel m (p + 1) xs t (omega arith))

pub strlen-length :
    (fuel : ℕ) (m : Memory) (p : ℕ) (xs : List ℕ)
    → IsText m p xs
    → length xs < fuel
    → strlen fuel m p ≡ some (length xs)
unfolding strlen
strlen-length fuel m p xs t h =
    let n : p + length xs - p ≡ length xs = omega arith in
    rw (strlen_from-end fuel m p xs t h, n) refl

find_text-first_match :
    (m : Memory) (p q : ℕ) (xs ys : List ℕ)
    → IsBytes m
    → IsText m p xs
    → IsText m q ys
    → find_text (length xs) m p q (length ys) ≡ first_match p xs ys
unfolding find_text first_match
find_text-first_match m p q [] ys bytes t u = refl
find_text-first_match m p q (x ∷ xs) ys bytes (at, nz, t) u =
    let same = memcmp-starts m p q (x ∷ xs) ys bytes (at, nz, t) u in
    let rest = find_text-first_match m (p + 1) q xs ys bytes t u in
    elim (Bool-cases (leb (length ys) (suc (length xs)))) [
      | inl fits ↦ rw (fits, same) (ap (λ n. if starts (x ∷ xs) ys then p else n) rest)
      | inr long ↦ rw long (sym (first_match_short p (x ∷ xs) ys (ground arith)))
    ]

-- `strstr` ends, and gives the address of the first place where the first text goes on with the
-- second one, or a null pointer where there is none; an empty second text is found at once. Fuel
-- above the lengths of both texts is enough.
pub strstr-first_match :
    (fuel : ℕ) (m : Memory) (s1 s2 : ℕ) (xs ys : List ℕ)
    → IsBytes m
    → IsText m s1 xs
    → IsText m s2 ys
    → length xs < fuel
    → length ys < fuel
    → (ys ≡ [] → strstr fuel m s1 s2 ≡ some s1)
      × (ys ≢ [] → strstr fuel m s1 s2 ≡ some (first_match s1 xs ys))
unfolding strstr
strstr-first_match fuel m s1 s2 xs [] bytes t u h k =
    (λ e. rw (strlen-length fuel m s2 [] u k) refl, λ ne. absurd (ne refl))
strstr-first_match fuel m s1 s2 xs (y ∷ ys) bytes t u h k = (
  λ e. cc,
  λ ne.
      let some_text : (suc (length ys) == 0) ≡ false = ground arith in
      rw
        (
          strlen-length fuel m s2 (y ∷ ys) u k,
          strlen-length fuel m s1 xs t h,
          some_text,
          find_text-first_match m s1 s2 xs (y ∷ ys) bytes t u,
        )
        refl,
)
