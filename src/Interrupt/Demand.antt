-- ===== src/Interrupt/Demand.antt =====
-- `demand_paging` of w2/sys/idt.c against the list of a task's areas.
use sbrocks.Prelude.{
  ℕ, zero, suc, ◌+◌, ◌-◌, ◌*◌, ◌%◌, ◌^◌, ◌≤◌, ◌<◌, ◌≡◌, ◌≢◌, refl, sym, ◌∙◌, ap, subst, arith, ◌==◌,
  ltb, leb, ◌&&◌, true, false, some, Option, List, [], ◌∷◌, ◌++◌, length, Bool-cases, inl, inr,
}
use mathlib.Core.List.{append-nil}
use sbrocks.Prelude.Chain.{IsChain}
use sbrocks.Kstring.{memset, word_mod}
use sbrocks.Kstring.Copy.{Inside, Outside, memset_lem}
use sbrocks.PhyAlloc.{align_up, align_down, page_size}
use sbrocks.Paging.{Vm, alloc_pages_at_virt}
use sbrocks.Process.{Kernel, VmaType}
use sbrocks.Process.Create.{area_next_of}
use sbrocks.Syscall.{System, current_of, with_kernel}
use sbrocks.Syscall.Fork.{user_flags, load_tables}
use sbrocks.Syscall.Control.{system_exit}
use sbrocks.Interrupt.{Place, place_of, place_in, page_in, demand_paging, heap_page, stack_page}

-- The place that the first area of a list with a place for the address gives it.
unfoldable pub first_place : Kernel → (addr : ℕ) → List ℕ → Place
first_place k addr [] = Place.elsewhere
first_place k addr (x ∷ xs) = elim (place_in k x addr) [
  | Place.in_heap ↦ Place.in_heap
  | Place.in_stack ↦ Place.in_stack
  | Place.elsewhere ↦ first_place k addr xs
]

-- What a fault at an address in such a place does.
pub serve : (fuel addr : ℕ) → Place → System → Option System
serve fuel addr Place.in_heap sys = heap_page addr sys
serve fuel addr Place.in_stack sys = stack_page addr sys
serve fuel addr Place.elsewhere sys = system_exit fuel sys

page_in_end :
    (left fuel addr p : ℕ) (sys : System)
    → p ≡ 0
    → page_in (suc left) fuel addr p sys ≡ serve fuel addr (first_place sys.kernel addr []) sys
unfolding page_in first_place serve
page_in_end left fuel addr p sys z = let e : (p == 0) ≡ true = ground arith in rw (page_in, e) refl

page_in_at :
    (left fuel addr x : ℕ) (xs : List ℕ) (sys : System) (q : Place)
    → x ≢ 0
    → place_in sys.kernel x addr ≡ q
    → page_in left fuel addr (area_next_of sys.kernel x) sys
      ≡ serve fuel addr (first_place sys.kernel addr xs) sys
    → page_in (suc left) fuel addr x sys
      ≡ serve fuel addr (first_place sys.kernel addr (x ∷ xs)) sys
unfolding page_in first_place serve
page_in_at left fuel addr x xs sys Place.in_heap nz is rest =
    let ne : (x == 0) ≡ false = ground arith in rw (page_in, first_place, ne, is) refl
page_in_at left fuel addr x xs sys Place.in_stack nz is rest =
    let ne : (x == 0) ≡ false = ground arith in rw (page_in, first_place, ne, is) refl
page_in_at left fuel addr x xs sys Place.elsewhere nz is rest =
    let ne : (x == 0) ≡ false = ground arith in rw (page_in, first_place, ne, is) rest

page_in-serve :
    (left fuel addr p : ℕ) (xs : List ℕ) (sys : System)
    → IsChain (area_next_of sys.kernel) p xs
    → length xs < left
    → page_in left fuel addr p sys ≡ serve fuel addr (first_place sys.kernel addr xs) sys
unfolding IsChain
page_in-serve zero fuel addr p xs sys c h = elim h [ ]
page_in-serve (suc left) fuel addr p [] sys c h = page_in_end left fuel addr p sys c
page_in-serve (suc left) fuel addr p (x ∷ xs) sys c h = rw (c.0) (
    page_in_at left fuel addr x xs sys (place_in sys.kernel x addr) (λ e. c.1 e) refl
      (page_in-serve left fuel addr (area_next_of sys.kernel x) xs sys c.2 (omega arith)))

demand_paging-serve :
    (fuel addr : ℕ) (xs : List ℕ) (sys : System)
    → IsChain (area_next_of sys.kernel) (sys.kernel.mms (current_of sys).mm).vma_list xs
    → length xs < fuel
    → demand_paging fuel addr sys ≡ serve fuel addr (first_place sys.kernel addr xs) sys
unfolding demand_paging
demand_paging-serve fuel addr xs sys c h =
    page_in-serve fuel fuel addr (sys.kernel.mms (current_of sys).mm).vma_list xs sys c h

-- An area has a place in the heap for an address: from its start to two pages behind its end.
abbrev pub InHeap : Kernel → (addr vma : ℕ) → Type 0
InHeap k addr vma =
    let a = k.areas vma in
    (a.vma_type ≡ VmaType.vma_heap) × (a.vm_start ≤ addr) × (addr < a.vm_end + 8192)

-- The stack grows down: it starts at its highest address.
abbrev pub InStack : Kernel → (addr vma : ℕ) → Type 0
InStack k addr vma =
    let a = k.areas vma in
    (a.vma_type ≡ VmaType.vma_stack) × (addr ≤ a.vm_start) × (a.vm_end < addr)

-- None of these areas has a place for the address.
abbrev pub NoPlace : Kernel → (addr : ℕ) → List ℕ → Type 0
NoPlace k addr [] = Unit {0}
NoPlace k addr (x ∷ xs) = (¬ InHeap k addr x) × ((¬ InStack k addr x) × NoPlace k addr xs)

-- The ends of these areas are no closer than two pages to 2 ^ 64.
abbrev pub EndsFit : Kernel → List ℕ → Type 0
EndsFit k [] = Unit {0}
EndsFit k (x ∷ xs) = ((k.areas x).vm_end + 8192 < 2 ^ 64) × EndsFit k xs

place_of_heap :
    (s e a : ℕ)
    → e + 8192 < 2 ^ 64
    → s ≤ a
    → a < e + 8192
    → place_of VmaType.vma_heap s e a ≡ Place.in_heap
unfolding place_of
place_of_heap s e a fits low high =
    let c : (leb s a && ltb a ((e + 2 * page_size) % word_mod)) ≡ true = ground arith in rw c refl

place_of_stack : (s e a : ℕ) → a ≤ s → e < a → place_of VmaType.vma_stack s e a ≡ Place.in_stack
unfolding place_of
place_of_stack s e a low high = let c : (leb a s && ltb e a) ≡ true = ground arith in rw c refl

place_of-elsewhere :
    (ty : VmaType) (s e a : ℕ)
    → e + 8192 < 2 ^ 64
    → ((ty ≡ VmaType.vma_heap) × (s ≤ a) × (a < e + 8192) → ⊥)
    → ((ty ≡ VmaType.vma_stack) × (a ≤ s) × (e < a) → ⊥)
    → place_of ty s e a ≡ Place.elsewhere
unfolding place_of
place_of-elsewhere VmaType.vma_heap s e a fits no_heap no_stack =
    elim (Bool-cases (leb s a && ltb a ((e + 2 * page_size) % word_mod))) [
      | inl c ↦ absurd (no_heap (refl, ground arith, ground arith))
      | inr c ↦ rw c refl
    ]
place_of-elsewhere VmaType.vma_stack s e a fits no_heap no_stack =
    elim (Bool-cases (leb a s && ltb e a)) [
      | inl c ↦ absurd (no_stack (refl, ground arith, ground arith))
      | inr c ↦ rw c refl
    ]
place_of-elsewhere VmaType.vma_normal s e a fits no_heap no_stack = refl

first_place-none :
    (k : Kernel) (addr : ℕ) (xs ys : List ℕ)
    → EndsFit k (xs ++ ys)
    → NoPlace k addr xs
    → first_place k addr (xs ++ ys) ≡ first_place k addr ys
unfolding first_place
first_place-none k addr [] ys fits none_here = refl
first_place-none k addr (x ∷ xs) ys fits none_here =
    let a = k.areas x in
    let e =
      place_of-elsewhere a.vma_type a.vm_start a.vm_end addr fits.0 none_here.0 none_here.1.0 in
    rw (first_place, e) (first_place-none k addr xs ys fits.1 none_here.1.1)

EndsFit-at :
    (k : Kernel) (xs : List ℕ) (v : ℕ) (ys : List ℕ)
    → EndsFit k (xs ++ v ∷ ys)
    → (k.areas v).vm_end + 8192 < 2 ^ 64
EndsFit-at k [] v ys fits = fits.0
EndsFit-at k (x ∷ xs) v ys fits = EndsFit-at k xs v ys fits.1

first_place-heap :
    (k : Kernel) (addr v : ℕ) (ys : List ℕ)
    → (k.areas v).vm_end + 8192 < 2 ^ 64
    → InHeap k addr v
    → first_place k addr (v ∷ ys) ≡ Place.in_heap
unfolding first_place
first_place-heap k addr v ys fits (ty, low, high) =
    let a = k.areas v in
    let e : place_in k v addr ≡ Place.in_heap =
      ap (λ t. place_of t a.vm_start a.vm_end addr) ty
      ∙ place_of_heap a.vm_start a.vm_end addr fits low high in
    rw (first_place, e) refl

first_place-stack :
    (k : Kernel) (addr v : ℕ) (ys : List ℕ)
    → InStack k addr v
    → first_place k addr (v ∷ ys) ≡ Place.in_stack
unfolding first_place
first_place-stack k addr v ys (ty, low, high) =
    let a = k.areas v in
    let e : place_in k v addr ≡ Place.in_stack =
      ap (λ t. place_of t a.vm_start a.vm_end addr) ty
      ∙ place_of_stack a.vm_start a.vm_end addr low high in
    rw (first_place, e) refl

page_below :
    (addr page : ℕ)
    → page % 4096 ≡ 0
    → page < addr
    → addr ≤ page + 4096
    → addr + 4096 < 2 ^ 64
    → (align_up addr + word_mod - 4096) % word_mod ≡ page
page_below addr page aligned low high small = elim (Bool-cases (addr % page_size == 0)) [
  | inl e ↦ rw e (ground arith)
  | inr e ↦ rw e (ground arith)
]

-- A fault at an address ends the task where none of its areas has a place for the address.
-- Otherwise the first area with a place decides. In a heap, whose places go on for two pages behind
-- its end, the task gets the page that the address is in, filled with zeros, and no other byte
-- changes; in a stack it gets the page that starts below the address and reaches at least up to it,
-- which for the first address of a page is the page before, and no byte changes. That a page is given
-- is a condition, and so is that the areas end more than two pages below 2 ^ 64, and in a stack the
-- address more than one. Fuel for each area and one more is enough.
pub demand_paging-first :
    (fuel addr : ℕ) (xs : List ℕ) (sys : System)
    → IsChain (area_next_of sys.kernel) (sys.kernel.mms (current_of sys).mm).vma_list xs
    → length xs < fuel
    → EndsFit sys.kernel xs
    → (NoPlace sys.kernel addr xs → demand_paging fuel addr sys ≡ system_exit fuel sys)
      × ((before : List ℕ) (v : ℕ) (after : List ℕ) (page start : ℕ) (vm : Vm)
          → xs ≡ before ++ v ∷ after
          → NoPlace sys.kernel addr before
          → page % 4096 ≡ 0
          → alloc_pages_at_virt page page_size user_flags
              (load_tables (current_of sys).pml4e sys.kernel.vm)
            ≡ some (start, vm)
          → (InHeap sys.kernel addr v
              → page ≤ addr
              → addr < page + 4096
              → (sys' : System) × (demand_paging fuel addr sys ≡ some sys')
                × (sys'.kernel.vm ≡ vm)
                × ((b : ℕ) → Inside page 4096 b → sys'.kernel.memory b ≡ 0)
                × ((b : ℕ) → Outside page 4096 b → sys'.kernel.memory b ≡ sys.kernel.memory b))
            × (InStack sys.kernel addr v
                → page < addr
                → addr ≤ page + 4096
                → addr + 4096 < 2 ^ 64
                → (sys' : System) × (demand_paging fuel addr sys ≡ some sys')
                  × (sys'.kernel.vm ≡ vm)
                  × (sys'.kernel.memory ≡ sys.kernel.memory)))
unfolding first_place serve heap_page stack_page
demand_paging-first fuel addr xs sys c h fits =
    let k = sys.kernel in
    let run = demand_paging-serve fuel addr xs sys c h in
    (
      λ none_here.
          run
          ∙ ap (λ ys. serve fuel addr (first_place k addr ys) sys) (sym (append-nil xs))
          ∙ ap (λ p. serve fuel addr p sys)
              (first_place-none k addr xs [] (subst (EndsFit k) (sym (append-nil xs)) fits)
                none_here)
          ∙ refl,
      λ before v after page start vm e none_here aligned got.
          let fits1 = subst (EndsFit k) e fits in
          let first =
            ap (first_place k addr) e
            ∙ first_place-none k addr before (v ∷ after) fits1 none_here in
          (
            λ place low high.
                let al : align_down addr ≡ page = omega arith in
                let there =
                  first_place-heap k addr v after (EndsFit-at k before v after fits1) place in
                (
                  with_kernel (record k { vm = vm; memory = memset k.memory page 0 page_size }) sys,
                  run ∙ ap (λ p. serve fuel addr p sys) (first ∙ there) ∙ rw (al, got) refl,
                  refl,
                  λ b inside. memset_lem k.memory page 0 page_size b ∙ ground arith,
                  λ b outside. memset_lem k.memory page 0 page_size b ∙ ground arith,
                ),
            λ place low high small.
                let al : (align_up addr + word_mod - 4096) % word_mod ≡ page =
                  page_below addr page aligned low high small in
                let there = first_place-stack k addr v after place in
                (
                  with_kernel (record k { vm = vm }) sys,
                  run ∙ ap (λ p. serve fuel addr p sys) (first ∙ there) ∙ rw (al, got) refl,
                  refl,
                  refl,
                ),
          ),
    )
