-- ===== src/Tarfs/Dir/Names.antt =====
-- The names that `dread` of w2/sys/fs/tarfs.c compares, and the last slash of a name.
use sbrocks.Prelude.{
  ℕ, zero, suc, ◌+◌, ◌-◌, ◌<◌, ◌≤◌, ◌≡◌, ◌≢◌, refl, sym, ◌∙◌, ap, subst, arith, ◌==◌, true, false,
  some, List, [], ◌∷◌, ◌++◌, length, Bool-cases, inl, inr, ◌⊎◌, if◌then◌else◌,
}
use sbrocks.Kstring.{Memory, store, kstrncmp, kstrncpy}
use sbrocks.Kstring.Text.{IsText, IsText-same}
use sbrocks.Kstring.Copy.{Outside}
use sbrocks.Tarfs.Dir.{is_eq, slash_before}

-- The bytes at an address start with these characters.
abbrev pub Starts : Memory → (p : ℕ) → List ℕ → Type 0
Starts m p [] = Unit {0}
Starts m p (c ∷ cs) = (m p ≡ c) × Starts m (p + 1) cs

-- Each of the characters is another one than this.
abbrev pub Without : (c : ℕ) → List ℕ → Type 0
Without c [] = Unit {0}
Without c (d ∷ ds) = (d ≢ c) × Without c ds

pub IsText-Starts : (m : Memory) (p : ℕ) (cs : List ℕ) → IsText m p cs → Starts m p cs
IsText-Starts m p [] t = tt
IsText-Starts m p (c ∷ cs) (at, nz, t) = (at, IsText-Starts m (p + 1) cs t)

pub IsText-Without : (m : Memory) (p : ℕ) (cs : List ℕ) → IsText m p cs → Without 0 cs
IsText-Without m p [] t = tt
IsText-Without m p (c ∷ cs) (at, nz, t) = (nz, IsText-Without m (p + 1) cs t)

pub Without-prefix : (c : ℕ) (xs ys : List ℕ) → Without c (xs ++ ys) → Without c xs
Without-prefix c [] ys w = tt
Without-prefix c (x ∷ xs) ys w = (w.0, Without-prefix c xs ys w.1)

pub Starts-append :
    (m : Memory) (p : ℕ) (xs ys : List ℕ)
    → Starts m p (xs ++ ys)
    → Starts m p xs × Starts m (p + length xs) ys
Starts-append m p [] ys s = (tt, subst (λ q. Starts m q ys) (omega arith) s)
Starts-append m p (x ∷ xs) ys (at, s) =
    let (front, back) = Starts-append m (p + 1) xs ys s in
    ((at, front), subst (λ q. Starts m q ys) (omega arith) back)

-- A comparison with characters that are no NULs looks at all of them.
pub kstrncmp-Starts :
    (m : Memory) (p q : ℕ) (cs : List ℕ)
    → Starts m q cs
    → Without 0 cs
    → (is_eq (kstrncmp m p q (length cs)) ≡ true → Starts m p cs)
      × (is_eq (kstrncmp m p q (length cs)) ≡ false → ¬ Starts m p cs)
unfolding kstrncmp
kstrncmp-Starts m p q [] s w = (λ e. tt, λ e. cc)
kstrncmp-Starts m p q (c ∷ cs) (at, s) (nz, w) =
    let ih = kstrncmp-Starts m (p + 1) (q + 1) cs s w in
    elim (Bool-cases (m p == m q)) [
      | inl same ↦
          let here : (m p == 0) ≡ false = ground arith in
          (
            λ e. (ground arith, ih.0 (rw (kstrncmp, same, here) at e)),
            λ e t. ih.1 (rw (kstrncmp, same, here) at e) t.1,
          )
      | inr other ↦ (
        λ e. absurd (differs m p q (length cs) other e),
        λ e t. absurd (unequal other (t.0 ∙ sym at)),
      )
    ]
  where
    unequal : {a b : ℕ} → (a == b) ≡ false → a ≡ b → ⊥
    unequal e h = ground arith

    differs :
        (m : Memory) (p q size : ℕ)
        → (m p == m q) ≡ false
        → is_eq (kstrncmp m p q (suc size)) ≡ true
        → ⊥
    differs m p q size other e = ground arith

kstrncpy-Outside :
    (count dest src : ℕ) (m : Memory) (b : ℕ)
    → Outside dest count b
    → kstrncpy m dest src count b ≡ m b
unfolding kstrncpy
kstrncpy-Outside zero dest src m b out = refl
kstrncpy-Outside (suc count) dest src m b out =
    let off : (dest == b) ≡ false = ground arith in
    kstrncpy-Outside count (dest + 1) (if m src == 0 then src else src + 1) (store m dest (m src)) b
      (ground arith)
    ∙ rw off refl

-- A copy leaves a text that is apart from it.
pub kstrncpy-IsText :
    (count dest src : ℕ) (m : Memory) (p : ℕ) (cs : List ℕ)
    → (dest + count ≤ p) ⊎ (p + length cs < dest)
    → IsText m p cs
    → IsText (kstrncpy m dest src count) p cs
kstrncpy-IsText count dest src m p cs apart t =
    IsText-same m (kstrncpy m dest src count) p cs
      (λ a lo hi. kstrncpy-Outside count dest src m a (ground arith)) t

-- The copy starts with the characters that are copied.
pub kstrncpy-Starts :
    (dest src : ℕ) (m : Memory) (cs ds : List ℕ)
    → (dest + length cs ≤ src) ⊎ (src + length (cs ++ ds) < dest)
    → IsText m src (cs ++ ds)
    → Starts (kstrncpy m dest src (length cs)) dest cs
unfolding kstrncpy
kstrncpy-Starts dest src m [] ds apart t = tt
kstrncpy-Starts dest src m (c ∷ cs) ds apart (at, nz, t) =
    let m1 = store m dest (m src) in
    let on : (m src == 0) ≡ false = ground arith in
    let self : (dest == dest) ≡ true = ground arith in
    let t1 = IsText-same m m1 (src + 1) (cs ++ ds) (λ a lo hi. ground arith) t in
    let step : kstrncpy m dest src (suc (length cs))
        ≡ kstrncpy m1 (dest + 1) (src + 1) (length cs) =
      rw (kstrncpy, on) refl in
    subst (λ k. Starts k dest (c ∷ cs)) (sym step)
      (
        kstrncpy-Outside (length cs) (dest + 1) (src + 1) m1 dest (ground arith) ∙ rw self at,
        kstrncpy-Starts (dest + 1) (src + 1) m1 cs ds (ground arith) t1,
      )

same_at : (m : Memory) (a b : ℕ) → a ≡ b → m a ≡ m b
same_at m a b e = ap m e

slash_before-here : (m : Memory) (f i : ℕ) → m (f + i) ≡ b'/' → slash_before m f i ≡ some i
unfolding slash_before
slash_before-here m f zero at =
    let first : f + 0 ≡ f = omega arith in
    let e : (m f == b'/') ≡ true = ground (arith, sym (ap m first) ∙ at) in rw e refl
slash_before-here m f (suc i) at =
    let e : (m (f + suc i) == b'/') ≡ true = ground arith in rw (slash_before, e) refl

slash_before-from :
    (m : Memory) (f i k : ℕ)
    → m (f + i) ≡ b'/'
    → ((j : ℕ) → i < j → j ≤ i + k → m (f + j) ≢ b'/')
    → slash_before m f (i + k) ≡ some i
unfolding slash_before
slash_before-from m f i zero at clear =
    ap (slash_before m f) (omega arith) ∙ slash_before-here m f i at
slash_before-from m f i (suc k) at clear =
    let next : i + suc k ≡ suc (i + k) = omega arith in
    let other = clear (suc (i + k)) (omega arith) (omega arith) in
    let e : (m (f + suc (i + k)) == b'/') ≡ false = ground arith in
    let rest = slash_before-from m f i k at (λ j lo hi. clear j lo (omega arith)) in
    ap (slash_before m f) next ∙ rw (slash_before, e) rest

Starts-Without :
    (m : Memory) (p c : ℕ) (cs : List ℕ)
    → Starts m p cs
    → Without c cs
    → (j : ℕ) → j < length cs
    → m (p + j) ≢ c
Starts-Without m p c [] s w j l e = elim l [ ]
Starts-Without m p c (d ∷ ds) s w zero l e = w.0 (sym s.0 ∙ same_at m (p) (p + 0) (omega arith) ∙ e)
Starts-Without m p c (d ∷ ds) s w (suc j) l e =
    Starts-Without m (p + 1) c ds s.1 w.1 j (omega arith)
      (same_at m (p + 1 + j) (p + suc j) (omega arith) ∙ e)

-- The walk back from the last but one character of a name finds the slash behind its folder.
pub slash_before-folder :
    (m : Memory) (f : ℕ) (folder base : List ℕ) (end : ℕ)
    → Starts m f (folder ++ (b'/' ∷ (base ++ end ∷ [])))
    → Without b'/' base
    → slash_before m f (length folder + length base) ≡ some (length folder)
slash_before-folder m f folder base end s w =
    let (at, behind) = (Starts-append m f folder (b'/' ∷ (base ++ end ∷ [])) s).1 in
    let inside = (Starts-append m (f + length folder + 1) base (end ∷ []) behind).0 in
    slash_before-from m f (length folder) (length base) at (λ j lo hi e.
      Starts-Without m (f + length folder + 1) b'/' base inside w (j - (length folder + 1))
        (omega arith)
        (same_at m (f + length folder + 1 + (j - (length folder + 1))) (f + j) (omega arith) ∙ e))
