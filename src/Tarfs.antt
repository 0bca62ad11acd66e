-- ===== src/Tarfs.antt =====
-- w2/sys/fs/tarfs.c: the files of the archive that is linked into the kernel, by name and by
-- descriptor.
-- A file's structure is at an address; its name is the text at that address, its other fields are a
-- record. `none` is the end of the fuel of a walk or of a text. Addresses do not wrap.
pub mod Dir
pub mod Seek
pub mod Tests
use Prim.Native.Nat.{Ordering}
use sbrocks.Prelude.{
  ℕ, zero, suc, ◌+◌, ◌-◌, ◌*◌, ◌%◌, ◌^◌, Bool, true, false, Option, none, some, ltb, ◌==◌, not,
  if◌then◌else◌,
}
use sbrocks.Prelude.Chain.{last}
use sbrocks.Prelude.Fault.{◌>>=◌, ◌>>◌}
use sbrocks.Kstring.{
  Memory, store, memcpy, memset, strlen, kstrcpy, kstrcmp, atoi, octal_to_decimal, word_mod,
  int_mod,
}

pub record File : Type 0 where
  pub fd : ℕ
  pub addr : ℕ
  pub type : ℕ
  pub size : ℕ
  pub offset : ℕ
  pub next : ℕ

pub record Tarfs : Type 0 where
  pub files : ℕ → File
  pub filelist : ℕ
  pub fd_count : ℕ
  pub memory : Memory
  -- the addresses of the archive and of two arrays of 1024 bytes
  pub binary_tarfs_start : ℕ
  pub fname : ℕ
  pub cwd : ℕ

-- The answer -1, as a bit pattern of 64 bits and of an `int`.
abbrev pub minus_one : ℕ
minus_one = word_mod - 1

abbrev pub minus_one_int : ℕ
minus_one_int = int_mod - 1

abbrev pub put_file : ℕ → File → Tarfs → Tarfs
put_file p f fs = record fs { files = λ q. if p == q then f else fs.files q }

abbrev pub set_offset : (p offset : ℕ) → Tarfs → Tarfs
set_offset p offset fs = put_file p (record (fs.files p) { offset = offset }) fs

abbrev pub next_file : Tarfs → ℕ → ℕ
next_file fs p = (fs.files p).next

-- `while (*name != '/') name++;`
pub find_slash : (fuel : ℕ) → Memory → ℕ → Option ℕ
find_slash zero m name = none
find_slash (suc fuel) m name =
    let rest = find_slash fuel m (name + 1) in if m name == b'/' then some name else rest

-- `fname[i] = *name` up to the NUL, which is not copied.
pub copy_name : (fuel name i fname : ℕ) → Memory → Option Memory
copy_name zero name i fname m = none
copy_name (suc fuel) name i fname m =
    let rest = copy_name fuel (name + 1) (i + 1) fname (store m (fname + i) (m name)) in
    if m name == 0 then some m else rest

pub change_name : (fuel name : ℕ) → Tarfs → Option Tarfs
change_name fuel name fs = do
  let m = memset fs.memory fs.fname 0 1024
  slash ← find_slash fuel m name
  m' ← copy_name fuel (slash + 1) 0 fs.fname m
  some (record fs { memory = m' })

-- The fields of a header of the archive, by their offsets.
abbrev pub header_size_field : ℕ
header_size_field = 124

-- The bytes of a file, rounded up to blocks.
abbrev pub aligned_size : ℕ → ℕ
aligned_size size =
    if size == 0 then 0 else if size % 512 == 0 then size else size + (512 - size % 512)

-- The walk over the headers: the offset of the contents of the file `fname`, or 0.
pub find_header : (fuel text_fuel offset : ℕ) → Tarfs → Option ℕ
find_header zero text_fuel offset fs = none
find_header (suc fuel) text_fuel offset fs = do
  let ustart = fs.binary_tarfs_start + offset
  length ← strlen text_fuel fs.memory ustart
  elim (length == 0) [
    | true ↦ some 0
    | false ↦ do
      digits ← atoi text_fuel fs.memory (ustart + header_size_field)
      size ← octal_to_decimal digits
      order ← kstrcmp text_fuel fs.memory ustart fs.fname
      elim order [
        | Ordering.eq ↦ some (offset + 512)
        | _ ↦ find_header fuel text_fuel ((offset + 512 + aligned_size size) % word_mod) fs
      ]
  ]

pub find_offset_for_file : (fuel text_fuel name : ℕ) → Tarfs → Option (ℕ × Tarfs)
find_offset_for_file fuel text_fuel name fs = do
  fs' ← change_name text_fuel name fs
  offset ← find_header fuel text_fuel 0 fs'
  some (offset, fs')

abbrev pub set_next_file : (p value : ℕ) → Tarfs → Tarfs
set_next_file p value fs = put_file p (record (fs.files p) { next = value }) fs

pub add_to_filelist : (fuel f : ℕ) → Tarfs → Option Tarfs
add_to_filelist fuel f fs =
    if fs.filelist == 0 then some (set_next_file f 0 (record fs { filelist = f })) else do
      t ← last fuel (next_file fs) fs.filelist
      some (set_next_file f 0 (set_next_file t f fs))

-- The walks stop at the file whose `next` is 0, without a look at that file.
pub find_named : (fuel text_fuel name t : ℕ) → Tarfs → Option ℕ
find_named zero text_fuel name t fs = none
find_named (suc fuel) text_fuel name t fs = elim (next_file fs t == 0) [
  | true ↦ some minus_one_int
  | false ↦ do
    order ← kstrcmp text_fuel fs.memory t name
    elim order [
      | Ordering.eq ↦ some ((fs.files t).fd % int_mod)
      | _ ↦ find_named fuel text_fuel name (next_file fs t) fs
    ]
]

pub fopen : (fuel text_fuel name : ℕ) → Tarfs → Option ℕ
fopen fuel text_fuel name fs = find_named fuel text_fuel name fs.filelist fs

-- The file with a descriptor, or 0 where the walk ends without one.
pub find_fd : (fuel fd t : ℕ) → Tarfs → Option ℕ
find_fd zero fd t fs = none
find_fd (suc fuel) fd t fs =
    let rest = find_fd fuel fd (next_file fs t) fs in
    if next_file fs t == 0 then some 0 else if (fs.files t).fd == fd then some t else rest

-- `int size = t->size`, widened again.
abbrev pub int_size : ℕ → ℕ
int_size size =
    if ltb (size % int_mod) (2 ^ 31) then size % int_mod else size % int_mod + word_mod - int_mod

-- `fread` once its file is found.
pub read_file : (fuel text_fuel t buf nbytes : ℕ) → Tarfs → Option (ℕ × Tarfs)
read_file fuel text_fuel t buf nbytes fs = do
  (offset, fs1) ← find_offset_for_file fuel text_fuel t fs
  let start = fs.binary_tarfs_start + offset
  let f = fs1.files t
  let left = (int_size f.size + word_mod - f.offset) % word_mod
  let n = if ltb left nbytes then left else nbytes
  let m = memcpy fs1.memory buf (start + f.offset) n
  some (n % int_mod, set_offset t ((f.offset + n) % word_mod) (record fs1 { memory = m }))

pub fread : (fuel text_fuel fd buf nbytes : ℕ) → Tarfs → Option (ℕ × Tarfs)
fread fuel text_fuel fd buf nbytes fs = do
  t ← find_fd fuel fd fs.filelist fs
  let got = read_file fuel text_fuel t buf nbytes fs
  if t == 0 then some (minus_one_int, fs) else got

pub fwrite : (fuel fd buf nbytes : ℕ) → Tarfs → Option (ℕ × Tarfs)
fwrite fuel fd buf nbytes fs = do
  t ← find_fd fuel fd fs.filelist fs
  let f = fs.files t
  let m = memcpy fs.memory (f.addr + f.offset) buf nbytes
  some (
      if t == 0
      then (minus_one, fs)
      else (0, set_offset t ((f.offset + nbytes) % word_mod) (record fs { memory = m })))

pub fclose : (fuel fd : ℕ) → Tarfs → Option Tarfs
fclose fuel fd fs = do
  t ← find_fd fuel fd fs.filelist fs
  some (if t == 0 then fs else set_offset t 0 fs)

pub fseek : (fuel fd offset whence : ℕ) → Tarfs → Option (ℕ × Tarfs)
fseek fuel fd offset whence fs = do
  t ← find_fd fuel fd fs.filelist fs
  let f = fs.files t
  let target =
      if whence == 0
      then offset
      else if whence == 1
      then (f.offset + offset) % word_mod
      else if whence == 2
      then (f.size + offset) % word_mod
      else minus_one
  some (if t == 0 then (minus_one, fs) else (target, set_offset t target fs))

pub set_cwd : (text_fuel dpath : ℕ) → Tarfs → Option Tarfs
set_cwd text_fuel dpath fs = do
  m ← kstrcpy text_fuel fs.memory fs.cwd dpath
  some (record fs { memory = m })

pub get_cwd : Tarfs → ℕ
get_cwd fs = fs.cwd

pub get_fdcount : Tarfs → ℕ
get_fdcount fs = fs.fd_count

pub set_fdcount : ℕ → Tarfs → Tarfs
set_fdcount c fs = record fs { fd_count = c }
