-- ===== src/Tarfs/Tests.antt =====
-- An archive of one file, and the theorems on reading and seeking there.
use sbrocks.Prelude.{
  ℕ, ◌+◌, ◌%◌, ◌<◌, ◌≡◌, ◌≢◌, refl, arith, ◌==◌, if◌then◌else◌, some, [], ◌∷◌, inr,
}
use sbrocks.Kstring.{
  Memory, store, memset, word_mod, find_end, strlen, kstrcmp, atoi, atoi_from, atoi_step,
  octal_to_decimal, octal_loop, octal_digit, power, power_acc,
}
use sbrocks.Kstring.Copy.{Outside}
use sbrocks.Prelude.Chain.{IsChain}
use sbrocks.Tarfs.{
  Tarfs, next_file, fseek, fread, minus_one, find_offset_for_file, change_name, find_slash,
  copy_name, find_header,
}
use sbrocks.Tarfs.Seek.{pick, fseek-pick, fread-within}

-- At 5000 the name `r/a`, at 20000 the header of `a`, with the size 5, and its contents behind it.
abbrev archive : Memory
archive b =
    if b == 5000
    then b'r'
    else if b == 5001
    then b'/'
    else if b == 5002
    then b'a'
    else if b == 20000
    then b'a'
    else if b == 20124
    then b'5'
    else if b == 20512
    then b'h'
    else 0

-- The file with descriptor 3 is at 5000, before the last one of the list.
abbrev pub small_fs : (offset : ℕ) → Tarfs
small_fs offset = record {
  files = λ p. record {
    fd = if p == 5000 then 3 else 4;
    addr = 20000;
    type = 0;
    size = 5;
    offset = offset;
    next = if p == 5000 then 6000 else 0;
  };
  filelist = 5000;
  fd_count = 5;
  memory = archive;
  binary_tarfs_start = 20000;
  fname = 9000;
  cwd = 8000;
}

two_files : (offset : ℕ) → IsChain (next_file (small_fs offset)) 5000 (5000 ∷ 6000 ∷ [])
unfolding IsChain
two_files offset = (refl, (λ e. omega arith), (refl, (λ e. omega arith), refl))

fseek-pick_example :
    let fs = small_fs 1 in
    let t = pick fs 3 (5000 ∷ 6000 ∷ []) in
    let f = fs.files t in
    let target =
      if 2 == 0
      then 4
      else if 2 == 1
      then (f.offset + 4) % word_mod
      else if 2 == 2
      then (f.size + 4) % word_mod
      else minus_one in
    ((t ≡ 0) → fseek 2 3 4 2 fs ≡ some (minus_one, fs))
    × ((t ≢ 0)
        → (fs' : Tarfs) × (fseek 2 3 4 2 fs ≡ some (target, fs'))
          × ((fs'.files t).offset ≡ target)
          × ((q : ℕ) → q ≢ t → fs'.files q ≡ fs.files q)
          × (fs'.memory ≡ fs.memory))
fseek-pick_example = fseek-pick 2 3 4 2 5000 (6000 ∷ []) (small_fs 1) (two_files 1) (omega arith)

-- Memory with the name of the file in `fname`.
abbrev named : Memory
named = store (memset archive 9000 0 1024) 9000 b'a'

located :
    (offset : ℕ)
    → find_offset_for_file 2 4 (pick (small_fs offset) 3 (5000 ∷ 6000 ∷ [])) (small_fs offset)
      ≡ some (512, record (small_fs offset) { memory = named })
unfolding pick find_offset_for_file change_name find_slash copy_name find_header memset find_end
    strlen kstrcmp atoi atoi_from atoi_step octal_to_decimal octal_loop octal_digit power power_acc
located offset = refl

picked : (offset : ℕ) → pick (small_fs offset) 3 (5000 ∷ 6000 ∷ []) ≢ 0
unfolding pick
picked offset e = omega arith

-- Ten bytes from place 1 of the five.
fread-within_example :
    (fs' : Tarfs) × (fread 2 4 3 40000 10 (small_fs 1) ≡ some (4, fs'))
    × ((i : ℕ) → i < 4 → fs'.memory (40000 + i) ≡ named (20513 + i))
    × ((b : ℕ) → Outside 40000 4 b → Outside 9000 1024 b → fs'.memory b ≡ archive b)
    × ((fs'.files 5000).offset ≡ 5)
unfolding pick
fread-within_example =
    fread-within 2 4 3 40000 10 5000 (6000 ∷ []) (small_fs 1) 512 named (two_files 1) (omega arith)
      (picked 1) (located 1) (omega arith) (omega arith) (omega arith) (inr (omega arith))
