-- ===== src/Syscall/Tests.antt =====
-- A small system, and the theorems on its calls there.
use sbrocks.Prelude.{ℕ, ◌+◌, ◌<◌, ◌≡◌, ◌≢◌, refl, arith, some, [], ◌∷◌, ◌++◌, get_or, inl}
use sbrocks.Prelude.Chain.{IsChain}
use sbrocks.Process.{TaskState, VmaType, put_task}
use sbrocks.Process.Create.{area_next_of, put_area, put_mm}
use sbrocks.Process.Tests.{three_tasks}
use sbrocks.Kb.Line.{line_of}
use sbrocks.Kb.Tests.{small_kb, ls_AllPlain}
use sbrocks.Tarfs.Tests.{small_fs}
use sbrocks.Syscall.{System, with_kernel, current, task_of}
use sbrocks.Syscall.Control.{system_brk}
use sbrocks.Syscall.Control.Heap.{heap_of, system_brk-heap}
use sbrocks.Syscall.Io.{read_keyboard}
use sbrocks.Syscall.Io.Read.{interrupts, read_keyboard-line}

-- Task 1, at 100, is the current one; its list of areas is a heap at 700.
abbrev pub machine : System
machine = record {
  kernel =
      let k = record (three_tasks TaskState.task_running) { current_task = 100 } in
      let heap = record (k.areas 700) { vma_type = VmaType.vma_heap; area_next = 0 } in
      put_area 700 heap (put_mm 0 (record (k.mms 0) { vma_list = 700 }) k);
  fs = small_fs 0;
  kb = record (small_kb 0) { waiting_state = 0 };
  vga = record { cursor_x = 0; cursor_y = 0; attrib = 15; memory = λ b. 0; csr = 0 };
  pipe_read_wait_queue = 0;
  str = 0;
  count = 0;
  pipe_write_flag = 0;
}

-- Task 3, at 300, has the number of its parent, task 1.
abbrev family : System
family =
    with_kernel (put_task 300 (record (machine.kernel.tasks 300) { ppid = 1 }) machine.kernel)
      machine

pub one_area : IsChain (area_next_of machine.kernel) 700 (700 ∷ [])
unfolding IsChain
one_area = (refl, (λ e. omega arith), refl)

system_brk-heap_example :
    let k = machine.kernel in
    (sys' : System) × (system_brk 2 8192 machine ≡ some (8192, sys'))
    × (heap_of k.areas (700 ∷ []) ≢ 0
        → (sys'.kernel.areas (heap_of k.areas (700 ∷ []))).vm_end ≡ 8192)
    × ((q : ℕ) → q ≢ heap_of k.areas (700 ∷ []) → sys'.kernel.areas q ≡ k.areas q)
    × (system_brk 2 0 sys' ≡ some (8192, sys'))
system_brk-heap_example =
    system_brk-heap 2 8192 (700 ∷ []) machine one_area (omega arith) (λ e. omega arith)

read_keyboard-line_example :
    let waiting = read_keyboard 8192 100 machine in
    ((task_of waiting 100).state ≡ TaskState.task_waiting)
    × (current waiting ≡ 0)
    × ((sys' : System) × (interrupts ((38 ∷ 31 ∷ []) ++ 28 ∷ []) waiting ≡ some sys')
        × ((task_of sys' 100).state ≡ TaskState.task_runnable)
        × ((j : ℕ) → j < 3 → sys'.kernel.memory (8192 + j) ≡ get_or (line_of (38 ∷ 31 ∷ [])) j 0)
        × ((q : ℕ) → q ≢ 100 → task_of sys' q ≡ task_of machine q))
read_keyboard-line_example =
    read_keyboard-line (38 ∷ 31 ∷ []) 8192 100 machine ls_AllPlain (λ e. omega arith) refl refl
      (omega arith) (omega arith) (inl (omega arith))
