-- ===== src/Prelude/Chain.antt =====
-- Linked lists as the `next` fields of structures spell them out, such as the task list of
-- w2/sys/process/process.c and the file list of w2/sys/fs/tarfs.c.
use Prim.Native.Nat.{ℕ, zero, suc, ◌<◌}
use mathlib.Core.Path.{◌≡◌, refl, sym}
use mathlib.Core.Logic.{◌≢◌}
use mathlib.Core.Bool.{Bool, false, ◌||◌}
use mathlib.Core.Option.{Option, none, some}
use mathlib.Core.List.{List, [], ◌∷◌, ◌++◌}
use native.Mathlib.Omega.{arith}
use sbrocks.Prelude.Tests.{◌==◌, if◌then◌else◌}
use sbrocks.Prelude.Lists.{length}

-- `while (t->next != NULL) t = t->next;`
pub last : (fuel : ℕ) → (ℕ → ℕ) → (t : ℕ) → Option ℕ
last zero next t = none
last (suc fuel) next t = let rest = last fuel next (next t) in if next t == 0 then some t else rest

-- From the pointer `p` on, the `next` fields lead through `xs` and end at 0.
unfoldable pub IsChain : (ℕ → ℕ) → ℕ → List ℕ → Type 0
IsChain next p [] = p ≡ 0
IsChain next p (x ∷ xs) = (p ≡ x) × (x ≢ 0) × IsChain next (next x) xs

unfoldable pub Misses : ℕ → List ℕ → Type 0
Misses p [] = Unit {0}
Misses p (x ∷ xs) = (p ≢ x) × Misses p xs

-- No address stands twice in the list.
unfoldable pub Distinct : List ℕ → Type 0
unfolding Misses
Distinct [] = Unit {0}
Distinct (x ∷ xs) = Misses x xs × Distinct xs

-- Writes to `next` fields that the list does not hold leave it.
pub IsChain-frame :
    (next next' : ℕ → ℕ) (q : ℕ)
    → ((x : ℕ) → q ≢ x → next' x ≡ next x)
    → (p : ℕ) (xs : List ℕ) → Misses q xs
    → IsChain next p xs
    → IsChain next' p xs
unfolding IsChain Misses
IsChain-frame next next' q same p [] miss c = c
IsChain-frame next next' q same p (x ∷ xs) miss c =
    (c.0, c.1, rw (same x miss.0) (IsChain-frame next next' q same (next x) xs miss.1 c.2))

pub IsChain-same :
    (next next' : ℕ → ℕ)
    → ((x : ℕ) → next' x ≡ next x)
    → (p : ℕ) (xs : List ℕ) → IsChain next p xs
    → IsChain next' p xs
unfolding IsChain
IsChain-same next next' same p [] c = c
IsChain-same next next' same p (x ∷ xs) c =
    (c.0, c.1, rw (same x) (IsChain-same next next' same (next x) xs c.2))

-- The rest of a list behind one of its members.
pub IsChain-behind :
    (next : ℕ → ℕ) (p : ℕ) (xs : List ℕ) (c : ℕ) (ys : List ℕ)
    → IsChain next p (xs ++ c ∷ ys)
    → (c ≢ 0) × IsChain next (next c) ys
unfolding IsChain
IsChain-behind next p [] c ys ch = (ch.1, ch.2)
IsChain-behind next p (x ∷ xs) c ys ch = IsChain-behind next (next x) xs c ys ch.2

-- The last member of a list that is not empty.
unfoldable pub last_of : ℕ → List ℕ → ℕ
last_of x [] = x
last_of x (y ∷ ys) = last_of y ys

pub last-last_of :
    (fuel : ℕ) (next : ℕ → ℕ) (x : ℕ) (xs : List ℕ)
    → IsChain next x (x ∷ xs)
    → length xs < fuel
    → last fuel next x ≡ some (last_of x xs)
unfolding last last_of IsChain
last-last_of zero next x xs c h = elim h [ ]
last-last_of (suc fuel) next x [] c h = let e : next x ≡ 0 = c.2 in rw e refl
last-last_of (suc fuel) next x (y ∷ ys) c h =
    let e : next x ≡ y = c.2.0 in
    let ne : (y == 0) ≡ false = (let n = c.2.1 in ground arith) in
    rw (e, ne) (last-last_of fuel next y ys (refl, c.2.1, c.2.2) (omega arith))

flip_ne : (a b : ℕ) → a ≢ b → b ≢ a
flip_ne a b ne e = ne (sym e)

pub last_of_off : (y : ℕ) (ys : List ℕ) (x : ℕ) → Misses x (y ∷ ys) → last_of y ys ≢ x
unfolding Misses last_of
last_of_off y [] x m = flip_ne x y m.0
last_of_off y (z ∷ zs) x m = last_of_off z zs x m.1

-- Pointing the last member at `task`, which itself ends the list, appends `task`.
pub IsChain-append :
    (next next' : ℕ → ℕ) (task : ℕ) (p x : ℕ) (xs : List ℕ)
    → task ≢ 0
    → IsChain next p (x ∷ xs)
    → Distinct (x ∷ xs)
    → Misses task (x ∷ xs)
    → next' task ≡ 0
    → next' (last_of x xs) ≡ task
    → ((q : ℕ) → task ≢ q → last_of x xs ≢ q → next' q ≡ next q)
    → IsChain next' p (x ∷ xs ++ task ∷ [])
unfolding IsChain Distinct Misses last_of
IsChain-append next next' task p x [] nz c d m ends links same = (c.0, c.1, (links, nz, ends))
IsChain-append next next' task p x (y ∷ ys) nz c d m ends links same =
    let off : last_of y ys ≢ x = last_of_off y ys x d.0 in
    let keep : next' x ≡ next x = same x m.0 off in
    (
      c.0,
      c.1,
      rw keep (IsChain-append next next' task (next x) y ys nz c.2 d.1 m.1 ends links same),
    )

unfoldable pub member : ℕ → List ℕ → Bool
member q [] = false
member q (x ∷ xs) = (x == q) || member q xs

pub member-Misses : (q : ℕ) (xs : List ℕ) → Misses q xs → member q xs ≡ false
unfolding member Misses
member-Misses q [] m = refl
member-Misses q (x ∷ xs) m =
    let e : (x == q) ≡ false = (let n = m.0 in ground arith) in rw (e, member-Misses q xs m.1) refl
