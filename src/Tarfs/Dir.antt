-- ===== src/Tarfs/Dir.antt =====
-- w2/sys/fs/tarfs.c: the list of files that the archive gives at the start, and reading a
-- directory.
-- A text that the source writes down is a list of bytes.
pub mod Names
pub mod Next
mod Tests
use Prim.Native.Nat.{Ordering}
use sbrocks.Prelude.{
  ℕ, zero, suc, ◌+◌, ◌-◌, ◌*◌, ◌%◌, ◌^◌, Bool, true, false, Option, none, some, List, [], ◌∷◌, ltb,
  ◌==◌, not, if◌then◌else◌, ◌&&◌,
}
use sbrocks.Prelude.Fault.{◌>>=◌, ◌>>◌, require}
use sbrocks.Kstring.{
  Memory, store, memset, strlen, kstrcpy, strcat, kstrcmp, kstrncmp, kstrncpy, atoi,
  octal_to_decimal, word_mod, int_mod,
}
use sbrocks.Paging.{Vm, kmalloc, kfree}
use sbrocks.Tarfs.{
  Tarfs, File, next_file, put_file, add_to_filelist, aligned_size, header_size_field, int_size,
}

abbrev pub type_directory : ℕ
type_directory = 5

abbrev pub header_type_field : ℕ
header_type_field = 156

-- `sizeof(struct file)`
abbrev pub file_size : ℕ
file_size = 1072

-- `kstrcpy` from a text that the source writes down.
unfoldable pub write_text : Memory → ℕ → List ℕ → Memory
write_text m dest [] = store m dest 0
write_text m dest (c ∷ cs) = write_text (store m dest c) (dest + 1) cs

-- `rootfs/`
abbrev pub root_name : List ℕ
root_name = b'r' ∷ b'o' ∷ b'o' ∷ b't' ∷ b'f' ∷ b's' ∷ b'/' ∷ []

-- One header: its file gets the name `rootfs/...` and the next descriptor.
pub add_header : (fuel text_fuel buf offset : ℕ) → Tarfs → Vm → Option (ℕ × Tarfs × Vm)
add_header fuel text_fuel buf offset fs vm = do
  let ustart = fs.binary_tarfs_start + offset
  let m1 = write_text fs.memory buf root_name
  (f, vm') ← kmalloc file_size vm
  m2 ← strcat text_fuel m1 buf ustart
  length ← strlen text_fuel m2 buf
  m3 ← kstrcpy text_fuel m2 f buf
  let m4 = memset m3 buf 0 length
  type ← atoi text_fuel m4 (ustart + header_type_field)
  digits ← atoi text_fuel m4 (ustart + header_size_field)
  size ← octal_to_decimal digits
  let file : File = record {
    fd = fs.fd_count;
    addr = ustart;
    type = int_size type;
    size = size;
    offset = 0;
    next = 0;
  }
  let fs' = put_file f file (record fs { memory = m4; fd_count = fs.fd_count + 1 })
  fs'' ← add_to_filelist fuel f fs'
  some ((offset + 512 + aligned_size size) % word_mod, fs'', vm')

pub add_headers : (fuel text_fuel buf offset : ℕ) → Tarfs → Vm → Option (Tarfs × Vm)
add_headers zero text_fuel buf offset fs vm = none
add_headers (suc fuel) text_fuel buf offset fs vm = do
  length ← strlen text_fuel fs.memory (fs.binary_tarfs_start + offset)
  elim (length == 0) [
    | true ↦ some (fs, vm)
    | false ↦ do
      (offset', fs', vm') ← add_header (suc fuel) text_fuel buf offset fs vm
      add_headers fuel text_fuel buf offset' fs' vm'
  ]

-- The first file is the directory `rootfs/` itself. The buffer is given back with the length of
-- the text in it, which the last round has cleared.
pub initialize_tarfs : (fuel text_fuel : ℕ) → Tarfs → Vm → Option (Tarfs × Vm)
initialize_tarfs fuel text_fuel fs vm = do
  let fs1 = record fs { memory = write_text fs.memory fs.cwd root_name }
  (f, vm1) ← kmalloc file_size vm
  let root = record (fs1.files f) { fd = fs1.fd_count; type = type_directory }
  let fs2 =
      put_file f root
        (record fs1 { memory = write_text fs1.memory f root_name; fd_count = fs1.fd_count + 1 })
  fs3 ← add_to_filelist fuel f fs2
  (buf, vm2) ← kmalloc 1024 vm1
  (fs4, vm3) ← add_headers fuel text_fuel buf 0 fs3 vm2
  length ← strlen text_fuel fs4.memory buf
  vm4 ← kfree buf length vm3
  some (fs4, vm4)

abbrev pub is_eq : Ordering → Bool
is_eq Ordering.eq = true
is_eq Ordering.lt = false
is_eq Ordering.gt = false

-- The walk of `dopen`: the file behind the directory, where its name goes on from the directory's.
pub find_directory : (fuel text_fuel fd t : ℕ) → Tarfs → Option ℕ
find_directory zero text_fuel fd t fs = none
find_directory (suc fuel) text_fuel fd t fs =
    let n = next_file fs t in
    let f = fs.files t in
    elim (n == 0) [
      | true ↦ some 0
      | false ↦ elim ((f.fd == fd) && (f.type == type_directory)) [
        | true ↦ do
          len ← strlen text_fuel fs.memory t
          some (if is_eq (kstrncmp fs.memory n t len) then n else 0)
        | false ↦ find_directory fuel text_fuel fd n fs
      ]
    ]

pub dopen : (fuel text_fuel fd : ℕ) → Tarfs → Option ℕ
dopen fuel text_fuel fd fs = find_directory fuel text_fuel fd fs.filelist fs

-- `while (iter_name[i] != '/') i--;`; in front of the name is no array.
pub slash_before : Memory → (name i : ℕ) → Option ℕ
slash_before m name zero = if m name == b'/' then some 0 else none
slash_before m name (suc i) =
    let rest = slash_before m name i in if m (name + suc i) == b'/' then some (suc i) else rest

-- The walk inside a directory: the first file behind `t` that is in the directory `temp_name`, of
-- `length` bytes, and not below the file `f`, of `len` bytes.
pub next_in : (fuel : ℕ) → Memory → (temp_name length f len t : ℕ) → Tarfs → Option ℕ
next_in zero m temp_name length f len t fs = none
next_in (suc fuel) m temp_name length f len t fs =
    let n = next_file fs t in
    let rest = next_in fuel m temp_name length f len n fs in
    if n == 0
    then some 0
    else if not (is_eq (kstrncmp m n temp_name length))
    then some 0
    else if not (is_eq (kstrncmp m n f len))
    then some n
    else rest

-- `temp_name` is the address of the local array, whose bytes are given up at the end.
pub read_next : (fuel text_fuel temp_name f t : ℕ) → Tarfs → Option ℕ
read_next fuel text_fuel temp_name f t fs = do
  len ← strlen text_fuel fs.memory f
  require (ltb 1 len)
  i ← slash_before fs.memory f (len - 2)
  let length = i + 1
  require (ltb length 1025)
  let m = kstrncpy fs.memory temp_name f length
  next_in fuel m temp_name length f len t fs

pub find_entry : (fuel text_fuel temp_name fd f t : ℕ) → Tarfs → Option ℕ
find_entry zero text_fuel temp_name fd f t fs = none
find_entry (suc fuel) text_fuel temp_name fd f t fs =
    let n = next_file fs t in
    elim (n == 0) [
      | true ↦ some 0
      | false ↦ elim ((fs.files t).fd == fd) [
        | true ↦ read_next (suc fuel) text_fuel temp_name f t fs
        | false ↦ find_entry fuel text_fuel temp_name fd f n fs
      ]
    ]

-- `f` is the address of a structure with a name and a descriptor.
pub dread : (fuel text_fuel temp_name f : ℕ) → Tarfs → Option ℕ
dread fuel text_fuel temp_name f fs =
    find_entry fuel text_fuel temp_name (fs.files f).fd f fs.filelist fs
