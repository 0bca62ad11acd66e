-- ===== src/Malloc.antt =====
-- w2/libc/malloc.c: the allocator of user programs, over the break of w2/libc/stdlib.c.
-- Blocks stand at the addresses of their headers. The break is kept as `system_brk` keeps it: it is
-- answered as it is, and moved by a call with another value than 0. Walks take fuel for each block
-- and one more.
pub mod Blocks
pub mod Fit
pub mod Extend
pub mod Alloc
pub mod Free
mod Tests
use sbrocks.Prelude.{
  ℕ, zero, suc, ◌+◌, ◌-◌, ◌%◌, Bool, true, false, Option, none, some, leb, ◌==◌, if◌then◌else◌,
  ◌&&◌,
}
use sbrocks.Prelude.Fault.{◌>>=◌}
use sbrocks.Kstring.{word_mod}

pub record MemBlock : Type 0 where
  pub size : ℕ
  pub free : ℕ
  pub next : ℕ

pub record Heap : Type 0 where
  pub blocks : ℕ → MemBlock
  pub head : ℕ
  pub brk_end : ℕ

abbrev pub used : ℕ
used = 0

abbrev pub unused : ℕ
unused = 1

-- `sizeof(mem)`
abbrev pub block_size : ℕ
block_size = 24

abbrev pub next_block : Heap → ℕ → ℕ
next_block h p = (h.blocks p).next

abbrev pub put_block : ℕ → MemBlock → Heap → Heap
put_block p b h = record h { blocks = λ q. if p == q then b else h.blocks q }

unfoldable pub brk : (end_data_segment : ℕ) → Heap → ℕ × Heap
brk end_data_segment h =
    if end_data_segment == 0
    then (h.brk_end, h)
    else (end_data_segment, record h { brk_end = end_data_segment })

unfoldable pub sbrk : (increment : ℕ) → Heap → ℕ × Heap
sbrk increment h =
    let (start, h1) = brk 0 h in
    let (moved, h2) = brk ((start + increment) % word_mod) h1 in
    if increment == 0 then (start, h1) else (start, h2)

-- 0 is a null pointer.
unfoldable pub allocate_memory : (size : ℕ) → Heap → ℕ × Heap
allocate_memory size h =
    let (current, h1) = sbrk 0 h in
    let (addr, h2) = sbrk ((size + block_size) % word_mod) h1 in
    if addr == word_mod - 1
    then (0, h2)
    else (current, put_block current (record { size = size; free = used; next = 0 }) h2)

-- The walk from `temp` on, and what it leaves in `last`.
pub find_free_mem_block : (fuel size last temp : ℕ) → Heap → Option (ℕ × ℕ)
find_free_mem_block zero size last temp h = none
find_free_mem_block (suc fuel) size last temp h =
    let b = h.blocks temp in
    let rest = find_free_mem_block fuel size temp b.next h in
    if temp == 0
    then some (last, temp)
    else if (b.free == unused) && leb size b.size
    then some (last, temp)
    else rest

-- A new block behind the others; `link` stores its address.
unfoldable pub malloc_new : (size : ℕ) → (link : ℕ → Heap → Heap) → Heap → ℕ × Heap
malloc_new size link h =
    let (block, h1) = allocate_memory size h in
    if block == 0 then (0, h1) else (block + block_size, link block h1)

unfoldable pub malloc : (fuel size : ℕ) → Heap → Option (ℕ × Heap)
malloc fuel size h =
    let first = malloc_new size (λ b h. record h { head = b }) h in
    let search = find_free_mem_block fuel size h.head h.head h in
    if size == 0 then some (0, h) else if h.head == 0 then some first else do
      (last, block) ← search
      let behind = malloc_new size (λ b h. put_block last (record (h.blocks last) { next = b }) h) h
      let reused = put_block block (record (h.blocks block) { free = used }) h
      some (if block == 0 then behind else (block + block_size, reused))

pub free : (ptr : ℕ) → Heap → Heap
free ptr h =
    let block = ptr - block_size in
    if ptr == 0 then h else put_block block (record (h.blocks block) { free = unused }) h
