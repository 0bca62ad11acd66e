-- ===== src/Elf.antt =====
-- w2/sys/process/elf.c: a program of the archive becomes a task.
-- The fields of the headers are read from memory at their places. Kernel and files see one memory,
-- that of the loaded tables. `none` is also an argument list beyond the array that holds it.
pub mod Stack
mod Tests
use sbrocks.Prelude.{
  ℕ, zero, suc, ◌+◌, ◌-◌, ◌*◌, ◌%◌, Bool, true, false, Option, none, some, List, [], ◌∷◌, ◌==◌, not,
  ltb, if◌then◌else◌, bit_or, length,
}
use sbrocks.Prelude.Fault.{◌>>=◌, ◌>>◌, require}
use sbrocks.Kstring.{Memory, memcpy, memset, strlen, word_mod}
use sbrocks.Kstring.Words.{store_bytes, load_bytes}
use sbrocks.PhyAlloc.{page_size}
use sbrocks.Paging.{
  Vm, virt_to_phy, alloc_pages_at_virt, pt_present_flag, pt_writable_flag, pt_user,
}
use sbrocks.Process.{Kernel, Task, Mm, VmaType, put_task}
use sbrocks.Process.Create.{create_vma, add_to_vma_list, create_new_task, put_mm}
use sbrocks.Tarfs.{Tarfs, find_offset_for_file}

abbrev pub pt_load : ℕ
pt_load = 1

abbrev pub vm_rw : ℕ
vm_rw = 6

abbrev pub user_stack : ℕ
user_stack = 0xF0_0000_0000

abbrev pub user_heap : ℕ
user_heap = 0xf0_0003_0000

abbrev pub user_stack_size : ℕ
user_stack_size = 16 * 4096

-- The text at an address.
pub read_text : (fuel : ℕ) → Memory → ℕ → Option (List ℕ)
read_text zero m p = none
read_text (suc fuel) m p = elim (m p == 0) [
  | true ↦ some []
  | false ↦ do cs ← read_text fuel m (p + 1); some (m p ∷ cs)
]

-- The texts at `ps`, the last argument first, go to the stack below `sp`. The result is their new
-- addresses, the first argument first, behind those in `addrs`.
pub push_texts :
    (text_fuel : ℕ) → (ps addrs : List ℕ) → (sp : ℕ) → Memory → Option (List ℕ × ℕ × Memory)
push_texts text_fuel [] addrs sp m = some (addrs, sp, m)
push_texts text_fuel (p ∷ ps) addrs sp m = do
  len ← strlen text_fuel m p
  let sp' = sp - (len + 1)
  push_texts text_fuel ps (sp' ∷ addrs) sp' (memcpy m sp' p (len + 1))

-- Words pushed below `sp`.
pub push_words : (vs : List ℕ) → (sp : ℕ) → Memory → ℕ × Memory
push_words [] sp m = (sp, m)
push_words (v ∷ vs) sp m = push_words vs (sp - 8) (store_bytes 8 m (sp - 8) v)

unfoldable pub reverse_onto {ℓ} : {A : Type ℓ} → List A → List A → List A
reverse_onto [] ys = ys
reverse_onto (x ∷ xs) ys = reverse_onto xs (x ∷ ys)

abbrev pub reversed {ℓ} : {A : Type ℓ} → List A → List A
reversed xs = reverse_onto xs []

-- The stack of a new program: the texts, the addresses of the environment, those of the arguments,
-- and their number. The result is the place of the number.
pub stack_words : (text_fuel : ℕ) → (argv envp : List ℕ) → (top : ℕ) → Memory → Option (ℕ × Memory)
stack_words text_fuel argv envp top m = do
  (addr1, sp1, m1) ← push_texts text_fuel (reversed envp) [] top m
  (addr, sp2, m2) ← push_texts text_fuel (reversed argv) [] sp1 m1
  let argc = length argv
  let sp3 = if argc == 0 then sp2 else sp2 - 8
  let (sp4, m4) = push_words (reversed addr1) sp3 m2
  let sp5 = if argc == 0 then sp4 - 16 else sp4 - 8
  let (sp6, m6) = push_words (reversed addr) sp5 m4
  some (push_words (argc ∷ []) sp6 m6)

abbrev pub user_flags : ℕ
user_flags = bit_or (bit_or pt_present_flag pt_user) pt_writable_flag

abbrev pub load_tables : (pml4e : ℕ) → Vm → Vm
load_tables pml4e vm = record vm { cr3 = virt_to_phy pml4e vm }

pub setup_stack : (text_fuel task : ℕ) → (argv envp : List ℕ) → Kernel → Option Kernel
setup_stack text_fuel task argv envp k = do
  let mm = (k.tasks task).mm
  let vm1 = load_tables (k.tasks task).pml4e k.vm
  (page, vm2) ← alloc_pages_at_virt (user_stack - page_size) page_size user_flags vm1
  (sp, m) ← stack_words text_fuel argv envp (user_stack - 8) k.memory
  some (put_mm mm (record (k.mms mm) { stack_vm = sp }) (record k { vm = vm2; memory = m }))

-- A segment that is to be loaded: its area, its pages and its bytes, with zeros behind them.
pub load_segment : (fuel task elf_header phdr : ℕ) → Kernel → Option Kernel
load_segment fuel task elf_header phdr k = do
  let field = λ (n at : ℕ). load_bytes n k.memory (phdr + at)
  let p_flags = field 4 4
  let p_offset = field 8 8
  let start = field 8 16
  let p_filesz = field 8 32
  let p_memsz = field 8 40
  let mm = (k.tasks task).mm
  (vma, k1) ← create_vma mm start ((start + p_memsz) % word_mod) VmaType.vma_normal p_flags 0 k
  k2 ← add_to_vma_list fuel mm vma k1
  let text = bit_or pt_present_flag pt_user
  let flags = if p_flags == 0 then text else user_flags
  let loaded = load_tables (k2.tasks task).pml4e k2.vm
  (at, vm) ← alloc_pages_at_virt start p_memsz flags loaded
  let m = memcpy k2.memory start (elf_header + p_offset) p_filesz
  let zeros = (p_memsz + word_mod - p_filesz) % word_mod
  let m' = memset m (start + p_filesz) 0 zeros
  let grown = ((k2.mms mm).total_vm_size + p_memsz) % word_mod
  some (
      put_mm mm (record (k2.mms mm) { total_vm_size = grown })
        (record k2 { vm = record vm { cr3 = k.vm.cr3 }; memory = m' }))

-- The program headers that are left.
pub load_segments : (left fuel task elf_header phdr : ℕ) → Kernel → Option Kernel
load_segments zero fuel task elf_header phdr k = some k
load_segments (suc left) fuel task elf_header phdr k = do
  let loads = load_bytes 4 k.memory phdr == pt_load
  let loaded = load_segment fuel task elf_header phdr k
  k' ← (if loads then loaded else some k)
  load_segments left fuel task elf_header (phdr + load_bytes 2 k'.memory (elf_header + 54)) k'

-- The heap, empty, and the stack, whose area runs downwards.
pub add_heap_and_stack : (fuel task : ℕ) → Kernel → Option Kernel
add_heap_and_stack fuel task k = do
  let mm = (k.tasks task).mm
  let k1 = put_mm mm (record (k.mms mm) { brk_start = user_heap; brk_end = user_heap }) k
  (heap, k2) ← create_vma mm user_heap user_heap VmaType.vma_heap vm_rw 0 k1
  k3 ← add_to_vma_list fuel mm heap k2
  let bottom = user_stack - user_stack_size
  (stack, k4) ← create_vma mm user_stack bottom VmaType.vma_stack vm_rw 0 k3
  k5 ← add_to_vma_list fuel mm stack k4
  let grown = ((k5.mms mm).total_vm_size + user_stack_size) % word_mod
  some (put_mm mm (record (k5.mms mm) { total_vm_size = grown }) k5)

pub read_elf :
    (fuel text_fuel filename : ℕ)
    → (argv envp : List ℕ) → Tarfs
    → Kernel
    → Option (ℕ × Tarfs × Kernel)
read_elf fuel text_fuel filename argv envp fs k = do
  (offset, fs1) ← find_offset_for_file fuel text_fuel filename (record fs { memory = k.memory })
  let elf_header = fs1.binary_tarfs_start + offset
  name ← read_text text_fuel fs1.memory filename
  (task, k1) ← create_new_task fuel name (record k { memory = fs1.memory })
  let entry = load_bytes 8 k1.memory (elf_header + 24)
  let k2 = put_task task (record (k1.tasks task) { e_entry = entry }) k1
  let phdr = elf_header + load_bytes 8 k2.memory (elf_header + 32)
  k3 ← load_segments (load_bytes 2 k2.memory (elf_header + 56)) fuel task elf_header phdr k2
  k4 ← add_heap_and_stack fuel task k3
  k5 ← setup_stack text_fuel task argv envp k4
  let t = k5.tasks task
  let started = record t {
    r = record t.r { reg_rsp = (k5.mms t.mm).stack_vm; reg_rip = t.e_entry };
  }
  let k6 = put_task task started (record k5 { vm = record k5.vm { cr3 = k1.vm.cr3 } })
  some (task, record fs1 { memory = k6.memory }, k6)
