-- ===== src/Tarfs/Dir/Next.antt =====
-- `dread` of w2/sys/fs/tarfs.c against the list of files.
use sbrocks.Prelude.{
  ℕ, zero, suc, ◌+◌, ◌-◌, ◌<◌, ◌≤◌, ◌≡◌, ◌≢◌, refl, sym, ◌∙◌, ap, subst, ◌⊎◌, length-append, arith,
  ◌==◌, if◌then◌else◌, not, true, false, some, List, [], ◌∷◌, ◌++◌, length, Bool-cases, inl, inr,
  ltb, lt→ltb,
}
use sbrocks.Prelude.Chain.{IsChain, IsChain-behind}
use sbrocks.Kstring.{Memory, kstrncmp, kstrncpy}
use sbrocks.Kstring.Text.{IsText, strlen-length}
use mathlib.Core.List.{append_assoc}
use sbrocks.Tarfs.Dir.Names.{
  Starts, Without, IsText-Starts, IsText-Without, Without-prefix, kstrncmp-Starts, kstrncpy-IsText,
  kstrncpy-Starts, slash_before-folder,
}
use sbrocks.Tarfs.{Tarfs, next_file}
use sbrocks.Tarfs.Dir.{is_eq, dread, find_entry, read_next, next_in, slash_before}

-- Among the files behind an entry: those of the directory `dir`, of `length` bytes, come first, and
-- the first of them whose name does not start with the `len` bytes at `f` is the next entry; 0 where
-- the directory ends before.
unfoldable sibling : Memory → (dir length f len : ℕ) → List ℕ → ℕ
sibling m dir length f len [] = 0
sibling m dir length f len (x ∷ xs) =
    if not (is_eq (kstrncmp m x dir length))
    then 0
    else if not (is_eq (kstrncmp m x f len))
    then x
    else sibling m dir length f len xs

next_in-sibling :
    (fuel : ℕ) (m : Memory) (dir size f len t : ℕ) (xs : List ℕ) (fs : Tarfs)
    → IsChain (next_file fs) (next_file fs t) xs
    → length xs < fuel
    → next_in fuel m dir size f len t fs ≡ some (sibling m dir size f len xs)
unfolding next_in sibling IsChain
next_in-sibling zero m dir size f len t xs fs c h = elim h [ ]
next_in-sibling (suc fuel) m dir size f len t [] fs c h =
    let e : (next_file fs t == 0) ≡ true = (let z = c in ground arith) in rw e refl
next_in-sibling (suc fuel) m dir size f len t (x ∷ xs) fs c h =
    let at = c.0 in
    let ne : (x == 0) ≡ false = (let n = c.1 in ground arith) in
    let rest = next_in-sibling fuel m dir size f len x xs fs c.2 (omega arith) in
    elim (Bool-cases (is_eq (kstrncmp m x dir size))) [
      | inr out ↦ rw (at, ne, out) refl
      | inl inside ↦ elim (Bool-cases (is_eq (kstrncmp m x f len))) [
        | inr other ↦ rw (at, ne, inside, other) refl
        | inl below ↦ rw (at, ne, inside, below) rest
      ]
    ]

-- None of these files has the descriptor.
unfoldable pub NoneHas : Tarfs → (fd : ℕ) → List ℕ → Type 0
NoneHas fs fd [] = Unit {0}
NoneHas fs fd (x ∷ xs) = ((fs.files x).fd ≢ fd) × NoneHas fs fd xs

-- The walk stops at the first file with the descriptor, where another file follows.
find_entry-here :
    (fuel text_fuel dir f t : ℕ) (fs : Tarfs)
    → next_file fs t ≢ 0
    → find_entry (suc fuel) text_fuel dir (fs.files t).fd f t fs
      ≡ read_next (suc fuel) text_fuel dir f t fs
unfolding find_entry
find_entry-here fuel text_fuel dir f t fs nz =
    let ne : (next_file fs t == 0) ≡ false = ground arith in
    let is : ((fs.files t).fd == (fs.files t).fd) ≡ true = ground arith in
    rw (find_entry, ne, is) refl

find_entry-there :
    (fuel text_fuel dir fd f t : ℕ) (fs : Tarfs)
    → next_file fs t ≢ 0
    → (fs.files t).fd ≢ fd
    → find_entry (suc fuel) text_fuel dir fd f t fs
      ≡ find_entry fuel text_fuel dir fd f (next_file fs t) fs
unfolding find_entry
find_entry-there fuel text_fuel dir fd f t fs nz other =
    let ne : (next_file fs t == 0) ≡ false = ground arith in
    let is : ((fs.files t).fd == fd) ≡ false = ground arith in rw (find_entry, ne, is) refl

front_nonzero :
    (next : ℕ → ℕ) (p : ℕ) (xs : List ℕ) (t : ℕ) (ys : List ℕ)
    → IsChain next p (xs ++ t ∷ ys)
    → p ≢ 0
unfolding IsChain
front_nonzero next p [] t ys c e = c.1 (sym c.0 ∙ e)
front_nonzero next p (x ∷ xs) t ys c e = c.1 (sym c.0 ∙ e)

find_entry-read_next :
    (fuel text_fuel dir f p t y : ℕ) (xs ys : List ℕ) (fs : Tarfs)
    → IsChain (next_file fs) p (xs ++ t ∷ y ∷ ys)
    → NoneHas fs (fs.files t).fd xs
    → find_entry (suc (length xs + fuel)) text_fuel dir (fs.files t).fd f p fs
      ≡ read_next (suc fuel) text_fuel dir f t fs
unfolding IsChain NoneHas
find_entry-read_next fuel text_fuel dir f p t y [] ys fs c none_has =
    let k : 0 + fuel ≡ fuel = omega arith in
    rw (c.0, k) (find_entry-here fuel text_fuel dir f t fs (λ e. c.2.1 (sym c.2.0 ∙ e)))
find_entry-read_next fuel text_fuel dir f p t y (x ∷ xs) ys fs c none_has =
    let k : suc (length xs) + fuel ≡ suc (length xs + fuel) = omega arith in
    rw (c.0, k)
      (find_entry-there (suc (length xs + fuel)) text_fuel dir (fs.files t).fd f x fs
          (front_nonzero (next_file fs) (next_file fs x) xs t (y ∷ ys) c.2) none_has.0
        ∙ find_entry-read_next fuel text_fuel dir f (next_file fs x) t y xs ys fs c.2 none_has.1)

dread-sibling :
    (fuel dir f t y i : ℕ) (name xs ys : List ℕ) (fs : Tarfs)
    → IsChain (next_file fs) fs.filelist (xs ++ t ∷ y ∷ ys)
    → NoneHas fs (fs.files f).fd xs
    → (fs.files t).fd ≡ (fs.files f).fd
    → IsText fs.memory f name
    → 1 < length name
    → slash_before fs.memory f (length name - 2) ≡ some i
    → i < 1024
    → length (y ∷ ys) ≤ fuel
    → dread (suc (length xs + fuel)) (suc (length name)) dir f fs
      ≡ some (sibling (kstrncpy fs.memory dir f (i + 1)) dir (i + 1) f (length name) (y ∷ ys))
unfolding dread read_next
dread-sibling fuel dir f t y i name xs ys fs c none_has here text long slash short enough =
    let behind : IsChain (next_file fs) (next_file fs t) (y ∷ ys) = chain_behind xs fs.filelist c in
    let len = strlen-length (suc (length name)) fs.memory f name text (omega arith) in
    let two : ltb 1 (length name) ≡ true = lt→ltb 1 (length name) long in
    let fits : ltb (i + 1) 1025 ≡ true = lt→ltb (i + 1) 1025 (omega arith) in
    let walk : find_entry (suc (length xs + fuel)) (suc (length name)) dir (fs.files f).fd f
          fs.filelist fs
        ≡ read_next (suc fuel) (suc (length name)) dir f t fs =
      rw (← here) (
        find_entry-read_next fuel (suc (length name)) dir f fs.filelist t y xs ys fs c
          (rw here none_has)) in
    walk
    ∙ rw (len, two, slash, fits)
        (next_in-sibling (suc fuel) (kstrncpy fs.memory dir f (i + 1)) dir (i + 1) f (length name) t
          (y ∷ ys) fs behind (omega arith))
  where
    chain_behind :
        (xs : List ℕ) (p : ℕ)
        → IsChain (next_file fs) p (xs ++ t ∷ y ∷ ys)
        → IsChain (next_file fs) (next_file fs t) (y ∷ ys)
    chain_behind xs p c = (IsChain-behind (next_file fs) p xs t (y ∷ ys) c).1

-- `r` is the next entry among these files: those of the directory come first, the ones whose names
-- start with `name` are passed over, and 0 stands for none.
abbrev pub IsNext : Memory → (directory name : List ℕ) → List ℕ → (r : ℕ) → Type 0
IsNext m directory name [] r = r ≡ 0
IsNext m directory name (x ∷ xs) r =
    (¬ Starts m x directory → r ≡ 0)
    × ((Starts m x directory → ¬ Starts m x name → r ≡ x)
        × (Starts m x directory → Starts m x name → IsNext m directory name xs r))

sibling-IsNext :
    (m : Memory) (dir f : ℕ) (directory name xs : List ℕ)
    → Starts m dir directory
    → Without 0 directory
    → Starts m f name
    → Without 0 name
    → IsNext m directory name xs (sibling m dir (length directory) f (length name) xs)
unfolding sibling
sibling-IsNext m dir f directory name [] sd wd sn wn = refl
sibling-IsNext m dir f directory name (x ∷ xs) sd wd sn wn =
    let (in_dir, off_dir) = kstrncmp-Starts m x dir directory sd wd in
    let (below, aside) = kstrncmp-Starts m x f name sn wn in
    let rest = sibling-IsNext m dir f directory name xs sd wd sn wn in
    elim (Bool-cases (is_eq (kstrncmp m x dir (length directory)))) [
      | inr out ↦ (
        λ no. rw (sibling, out) refl,
        (λ yes. absurd (off_dir out yes), λ yes. absurd (off_dir out yes)),
      )
      | inl inside ↦ elim (Bool-cases (is_eq (kstrncmp m x f (length name)))) [
        | inr other ↦ (
          λ no. absurd (no (in_dir inside)),
          (λ yes no. rw (sibling, inside, other) refl, λ yes same. absurd (aside other same)),
        )
        | inl same ↦ (
          λ no. absurd (no (in_dir inside)),
          (λ yes no. absurd (no (below same)), λ yes as_well. rw (sibling, inside, same) rest),
        )
      ]
    ]

folder_length :
    (folder base : List ℕ) (end : ℕ)
    → length (folder ++ (b'/' ∷ (base ++ end ∷ []))) - 2 ≡ length folder + length base
folder_length folder base end =
    omega (arith, length-append folder (b'/' ∷ (base ++ end ∷ [])), length-append base (end ∷ []))

-- `dread` ends, and gives the next entry of the directory that the entry at `f` is in: the directory
-- is its name up to the last slash before the name's last character, with the slash. Among the files
-- behind the one with its descriptor those of the directory come first, and the first of them whose
-- name does not start with that of `f` is the next entry, 0 where there is none. The names are read
-- in the memory where `temp_name` holds the directory. It needs that the descriptor is in the list
-- before the last file, that the folder has fewer than 1024 bytes, and that the array `temp_name`
-- is apart from the name.
pub dread-IsNext :
    (fuel dir f t y end : ℕ) (folder base xs ys : List ℕ) (fs : Tarfs)
    → let directory = folder ++ b'/' ∷ [] in
      let name = folder ++ (b'/' ∷ (base ++ end ∷ [])) in
      IsChain (next_file fs) fs.filelist (xs ++ t ∷ y ∷ ys)
      → NoneHas fs (fs.files f).fd xs
      → (fs.files t).fd ≡ (fs.files f).fd
      → IsText fs.memory f name
      → Without b'/' base
      → length folder < 1024
      → (dir + length directory ≤ f) ⊎ (f + length name < dir)
      → length (y ∷ ys) ≤ fuel
      → (r : ℕ) × (dread (suc (length xs + fuel)) (suc (length name)) dir f fs ≡ some r)
        × IsNext (kstrncpy fs.memory dir f (length directory)) directory name (y ∷ ys) r
dread-IsNext fuel dir f t y end folder base xs ys fs c none_has here text clear short apart enough =
    let directory = folder ++ b'/' ∷ [] in
    let name = folder ++ (b'/' ∷ (base ++ end ∷ [])) in
    let m = kstrncpy fs.memory dir f (length directory) in
    let size : length folder + 1 ≡ length directory =
      omega (arith, length-append folder (b'/' ∷ [])) in
    let at_slash =
      slash_before-folder fs.memory f folder base end (IsText-Starts fs.memory f name text) clear in
    let long : 1 < length name =
      omega
        (arith, length-append folder (b'/' ∷ (base ++ end ∷ [])), length-append base (end ∷ [])) in
    let same : directory ++ (base ++ end ∷ []) ≡ name =
      append_assoc folder (b'/' ∷ []) (base ++ end ∷ []) in
    let copied = subst (IsText fs.memory f) (sym same) text in
    let kept = kstrncpy-IsText (length directory) dir f fs.memory f name apart text in
    (
      sibling m dir (length directory) f (length name) (y ∷ ys),
      dread-sibling fuel dir f t y (length folder) name xs ys fs c none_has here text long
            (ap (slash_before fs.memory f) (folder_length folder base end) ∙ at_slash) short enough
          ∙ ap
              (λ (n : ℕ).
                some (sibling (kstrncpy fs.memory dir f n) dir n f (length name) (y ∷ ys)))
              size,
      sibling-IsNext m dir f directory name (y ∷ ys)
          (kstrncpy-Starts dir f fs.memory directory (base ++ end ∷ [])
            (subst (λ n. (dir + length directory ≤ f) ⊎ (f + length n < dir)) (sym same) apart)
            copied)
          (Without-prefix 0 directory (base ++ end ∷ [])
            (IsText-Without fs.memory f (directory ++ (base ++ end ∷ [])) copied))
          (IsText-Starts m f name kept) (IsText-Without fs.memory f name text),
    )
