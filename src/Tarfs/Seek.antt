-- ===== src/Tarfs/Seek.antt =====
-- Reading and seeking in the files of w2/sys/fs/tarfs.c.
use sbrocks.Prelude.{
  ℕ, zero, suc, ◌+◌, ◌-◌, ◌%◌, ◌^◌, ◌<◌, ◌≤◌, ◌≡◌, ◌≢◌, refl, sym, ◌∙◌, ap, arith, ◌==◌,
  if◌then◌else◌, ltb, true, false, some, List, [], ◌∷◌, length, Bool-cases, inl, inr, min,
}
use mathlib.Core.Option.{some-injective}
use sbrocks.Prelude.Fault.{>>=-eq-some}
use sbrocks.Kstring.{Memory, store, memcpy, memset, word_mod, int_mod}
use sbrocks.Kstring.Copy.{Forward, Outside, memset_lem, memcpy-Inside, memcpy-Outside}
use sbrocks.Prelude.Chain.{IsChain}
use sbrocks.Tarfs.{
  Tarfs, File, find_fd, next_file, fseek, fread, set_offset, find_offset_for_file, change_name,
  copy_name, find_slash, find_header, minus_one, read_file, int_size,
}

-- The first file of the list with a descriptor, the last file left out; 0 where there is none.
unfoldable pub pick : Tarfs → (fd : ℕ) → List ℕ → ℕ
pick fs fd [] = 0
pick fs fd (x ∷ []) = 0
pick fs fd (x ∷ y ∷ ys) = if (fs.files x).fd == fd then x else pick fs fd (y ∷ ys)

find_fd-pick :
    (fuel fd p x : ℕ) (xs : List ℕ) (fs : Tarfs)
    → IsChain (next_file fs) p (x ∷ xs)
    → length (x ∷ xs) ≤ fuel
    → find_fd fuel fd p fs ≡ some (pick fs fd (x ∷ xs))
unfolding find_fd pick IsChain
find_fd-pick zero fd p x xs fs c h = elim h [ ]
find_fd-pick (suc fuel) fd p x [] fs c h =
    let e : (next_file fs x == 0) ≡ true = (let z = c.2 in ground arith) in rw (c.0, e) refl
find_fd-pick (suc fuel) fd p x (y ∷ ys) fs c h =
    let at = c.2.0 in
    let ne : (y == 0) ≡ false = (let n = c.2.1 in ground arith) in
    let rest = find_fd-pick fuel fd y y ys fs (refl, c.2.1, c.2.2) (omega arith) in
    elim (Bool-cases ((fs.files x).fd == fd)) [
      | inl here ↦ rw (c.0, at, ne, here) refl
      | inr other ↦ rw (c.0, at, ne, other) rest
    ]

-- `fseek` moves the first file with the descriptor, of all files but the last of the list, to the
-- place that `whence` names, and answers that place; no other file and no byte changes. Where there
-- is none, as for the last file, the answer is -1 and nothing changes. Fuel for each file of the
-- list is enough.
pub fseek-pick :
    (fuel fd offset whence x : ℕ) (xs : List ℕ) (fs : Tarfs)
    → IsChain (next_file fs) fs.filelist (x ∷ xs)
    → length (x ∷ xs) ≤ fuel
    → let t = pick fs fd (x ∷ xs) in
      let f = fs.files t in
      let target =
        if whence == 0
        then offset
        else if whence == 1
        then (f.offset + offset) % word_mod
        else if whence == 2
        then (f.size + offset) % word_mod
        else minus_one in
      ((t ≡ 0) → fseek fuel fd offset whence fs ≡ some (minus_one, fs))
      × ((t ≢ 0)
          → (fs' : Tarfs) × (fseek fuel fd offset whence fs ≡ some (target, fs'))
            × ((fs'.files t).offset ≡ target)
            × ((q : ℕ) → q ≢ t → fs'.files q ≡ fs.files q)
            × (fs'.memory ≡ fs.memory))
unfolding fseek
fseek-pick fuel fd offset whence x xs fs c h =
    let found = find_fd-pick fuel fd fs.filelist x xs fs c h in
    let t = pick fs fd (x ∷ xs) in
    let f = fs.files t in
    let target =
      if whence == 0
      then offset
      else if whence == 1
      then (f.offset + offset) % word_mod
      else if whence == 2
      then (f.size + offset) % word_mod
      else minus_one in
    (
      λ z. (let e : (t == 0) ≡ true = ground arith in rw (found, e) refl),
      λ nz.
          let e : (t == 0) ≡ false = ground arith in
          let s : (t == t) ≡ true = ground arith in
          (
            set_offset t target fs,
            rw (found, e) refl,
            ap (λ b. (if b then record f { offset = target } else f).offset) s,
            λ q ne. (let o : (t == q) ≡ false = ground arith in rw o refl),
            refl,
          ),
    )

copy_name-Outside :
    (fuel name i fname : ℕ) (m m' : Memory)
    → copy_name fuel name i fname m ≡ some m'
    → (b : ℕ) → Outside (fname + i) fuel b
    → m' b ≡ m b
unfolding copy_name
copy_name-Outside zero name i fname m m' run b out = cc
copy_name-Outside (suc fuel) name i fname m m' run b out = elim (Bool-cases (m name == 0)) [
  | inl e ↦ ap (λ m. m b) (sym (some-injective m m' (rw (copy_name, e) at run)))
  | inr e ↦
      let off : (fname + i == b) ≡ false = ground arith in
      copy_name-Outside fuel (name + 1) (i + 1) fname (store m (fname + i) (m name)) m'
        (rw (copy_name, e) at run) b (ground arith)
      ∙ rw off refl
]

-- The search for the contents of a file changes nothing but the array `fname`, of 1024 bytes.
find_offset_for_file-Outside :
    (fuel text_fuel name offset : ℕ) (fs fs' : Tarfs)
    → find_offset_for_file fuel text_fuel name fs ≡ some (offset, fs')
    → text_fuel ≤ 1024
    → (b : ℕ) → Outside fs.fname 1024 b
    → fs'.memory b ≡ fs.memory b
unfolding find_offset_for_file change_name
find_offset_for_file-Outside fuel text_fuel name offset fs fs' run short b out =
    let m = memset fs.memory fs.fname 0 1024 in
    let (fs1, change, found) = >>=-eq-some (change_name text_fuel name fs) _ run in
    let (at, search, answer) = >>=-eq-some (find_header fuel text_fuel 0 fs1) _ found in
    let (slash, is_slash, copied) = >>=-eq-some (find_slash text_fuel m name) _ change in
    let (m1, copy, last) = >>=-eq-some (copy_name text_fuel (slash + 1) 0 fs.fname m) _ copied in
    let same : fs' ≡ fs1 = sym (ap (λ (r : ℕ × Tarfs). r.1) (some-injective _ _ answer)) in
    let same1 : fs1 ≡ record fs { memory = m1 } = sym (some-injective _ _ last) in
    ap (λ (f : Tarfs). f.memory b) (same ∙ same1)
    ∙ copy_name-Outside text_fuel (slash + 1) 0 fs.fname m m1 copy b (omega arith)
    ∙ memset_lem fs.memory fs.fname 0 1024 b
    ∙ ground arith

module _ (fuel text_fuel fd buf nbytes x : ℕ) (xs : List ℕ) (fs : Tarfs) (offset : ℕ) (m1 : Memory)
    (c : IsChain (next_file fs) fs.filelist (x ∷ xs)) (h : length (x ∷ xs) ≤ fuel)
    (nz : pick fs fd (x ∷ xs) ≢ 0)
    (located : find_offset_for_file fuel text_fuel (pick fs fd (x ∷ xs)) fs
      ≡ some (offset, record fs { memory = m1 })) where
  abbrev pub file : File
  file = fs.files (pick fs fd (x ∷ xs))

  read_state : ℕ → Tarfs
  read_state n =
      set_offset (pick fs fd (x ∷ xs)) ((file.offset + n) % word_mod)
        (record fs { memory = memcpy m1 buf (fs.binary_tarfs_start + offset + file.offset) n })

  fread-run :
      (n : ℕ)
      → (let left = (int_size file.size + word_mod - file.offset) % word_mod in
          if ltb left nbytes then left else nbytes)
        ≡ n
      → fread fuel text_fuel fd buf nbytes fs ≡ some (n % int_mod, read_state n)
  unfolding fread read_file read_state
  fread-run n amount =
      let found = find_fd-pick fuel fd fs.filelist x xs fs c h in
      let e : (pick fs fd (x ∷ xs) == 0) ≡ false = ground arith in
      rw (found, e, located, amount) refl

  -- Within a file, `fread` gives the smaller of the number that is asked for and the number of bytes
  -- that are left: these bytes of the contents come to `buf`, no other byte changes in memory outside the
  -- 1024 bytes at `fname`, where the search for the contents leaves the name, and the file's place
  -- moves by that number. It needs that the contents are found, by walks over texts of fewer than
  -- 1024 bytes, that the place is not behind the end, that the file's size is an `int`, and that
  -- `buf` does not overlap the contents forwards.
  pub fread-within :
      file.offset ≤ file.size
      → file.size < 2 ^ 31
      → text_fuel ≤ 1024
      → let n = min nbytes (file.size - file.offset) in
        let start = fs.binary_tarfs_start + offset + file.offset in
        Forward buf start n
        → (fs' : Tarfs) × (fread fuel text_fuel fd buf nbytes fs ≡ some (n, fs'))
          × ((i : ℕ) → i < n → fs'.memory (buf + i) ≡ m1 (start + i))
          × ((b : ℕ) → Outside buf n b → Outside fs.fname 1024 b → fs'.memory b ≡ fs.memory b)
          × ((fs'.files (pick fs fd (x ∷ xs))).offset ≡ file.offset + n)
  unfolding read_state
  fread-within inside small short fwd =
      let n = min nbytes (file.size - file.offset) in
      let start = fs.binary_tarfs_start + offset + file.offset in
      let wide : int_size file.size ≡ file.size = ground arith in
      let run = fread-run n (rw wide (ground arith)) in
      let same : n % int_mod ≡ n = ground arith in
      let s : (pick fs fd (x ∷ xs) == pick fs fd (x ∷ xs)) ≡ true = ground arith in
      (
        read_state n,
        run ∙ ap (λ k. some (k, read_state n)) same,
        λ i low. memcpy-Inside m1 buf start n i fwd low,
        λ b out away.
            memcpy-Outside m1 buf start n b out
            ∙ find_offset_for_file-Outside fuel text_fuel (pick fs fd (x ∷ xs)) offset fs
                (record fs { memory = m1 }) located short b away,
        ap (λ b. (if b then record file { offset = (file.offset + n) % word_mod } else file).offset)
              s
            ∙ ground arith,
      )

  -- Behind the end of a file nothing stops `fread`: it copies and counts all the bytes that are asked
  -- for. It needs that the contents are found and that the size and the number are an `int`'s.
  pub fread-past_end :
      file.size < file.offset
      → file.size < 2 ^ 31
      → nbytes < 2 ^ 31
      → file.offset < 2 ^ 63
      → (fs' : Tarfs) × (fread fuel text_fuel fd buf nbytes fs ≡ some (nbytes, fs'))
        × (fs'.memory ≡ memcpy m1 buf (fs.binary_tarfs_start + offset + file.offset) nbytes)
  unfolding read_state
  fread-past_end past small few low =
      let wide : int_size file.size ≡ file.size = ground arith in
      (
        read_state nbytes,
        fread-run nbytes (rw wide (ground arith))
            ∙ ap (λ k. some (k, read_state nbytes)) (omega arith),
        refl,
      )
