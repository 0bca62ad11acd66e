-- ===== src/Syscall/Control/Heap.antt =====
-- `system_brk` of w2/sys/syscall.c and the heap's area.
use sbrocks.Prelude.{
  ℕ, zero, suc, ◌<◌, ◌≡◌, ◌≢◌, refl, arith, ◌==◌, if◌then◌else◌, true, false, some, List, [], ◌∷◌,
  length, Bool-cases, inl, inr,
}
use sbrocks.Prelude.Chain.{IsChain}
use sbrocks.Process.{Kernel, Area}
use sbrocks.Process.Create.{put_area, put_mm, area_next_of}
use sbrocks.Syscall.{System, current, task_of, with_kernel}
use sbrocks.Syscall.Control.{is_heap, grow_heap, increament_heap_vma, system_brk}

-- The first heap area of a list; 0 where there is none.
unfoldable pub heap_of : (ℕ → Area) → List ℕ → ℕ
heap_of areas [] = 0
heap_of areas (x ∷ xs) = if is_heap (areas x).vma_type then x else heap_of areas xs

-- The areas with the end of the first heap area of the list moved.
abbrev pub grown : (end_brk : ℕ) → Kernel → List ℕ → Kernel
grown end_brk k xs =
    let heap = heap_of k.areas xs in
    if heap == 0 then k else put_area heap (record (k.areas heap) { vm_end = end_brk }) k

grow_heap-grown :
    (fuel end_brk p : ℕ) (xs : List ℕ) (k : Kernel)
    → IsChain (area_next_of k) p xs
    → length xs < fuel
    → grow_heap fuel end_brk p k ≡ some (grown end_brk k xs)
unfolding grow_heap heap_of IsChain
grow_heap-grown zero end_brk p xs k c h = elim h [ ]
grow_heap-grown (suc fuel) end_brk p [] k c h = let e : (p == 0) ≡ true = ground arith in rw e refl
grow_heap-grown (suc fuel) end_brk p (x ∷ xs) k c h =
    let ne : (x == 0) ≡ false = (let n = c.1 in ground arith) in
    let rest = grow_heap-grown fuel end_brk (area_next_of k x) xs k c.2 (omega arith) in
    elim (Bool-cases (is_heap (k.areas x).vma_type)) [
      | inl heap ↦ rw (c.0, ne, heap, ne) refl
      | inr other ↦ rw (c.0, ne, other) rest
    ]

-- `brk` of an address answers with it, moves the end of the first heap area of the current task's
-- list there and changes no other area, and `brk` of 0 then answers with that address and changes
-- nothing. Fuel for each area and one more is enough.
pub system_brk-heap :
    (fuel end_brk : ℕ) (xs : List ℕ) (sys : System)
    → let k = sys.kernel in
      let mm = (task_of sys (current sys)).mm in
      IsChain (area_next_of k) (k.mms mm).vma_list xs
      → length xs < fuel
      → end_brk ≢ 0
      → (sys' : System) × (system_brk fuel end_brk sys ≡ some (end_brk, sys'))
        × (heap_of k.areas xs ≢ 0 → (sys'.kernel.areas (heap_of k.areas xs)).vm_end ≡ end_brk)
        × ((q : ℕ) → q ≢ heap_of k.areas xs → sys'.kernel.areas q ≡ k.areas q)
        × (system_brk fuel 0 sys' ≡ some (end_brk, sys'))
unfolding system_brk increament_heap_vma
system_brk-heap fuel end_brk xs sys c enough nz =
    let k = sys.kernel in
    let mm = (task_of sys (current sys)).mm in
    let k1 = put_mm mm (record (k.mms mm) { brk_end = end_brk }) k in
    let e : (end_brk == 0) ≡ false = ground arith in
    let s : (mm == mm) ≡ true = ground arith in
    let run = grow_heap-grown fuel end_brk (k.mms mm).vma_list xs k1 c enough in
    elim (Bool-cases (heap_of k.areas xs == 0)) [
      | inl no_heap ↦ (
        with_kernel k1 sys,
        rw (e, s, run, no_heap, s) refl,
        λ there. absurd (there (ground arith)),
        λ q ne. refl,
        rw s refl,
      )
      | inr heap ↦
          let h = heap_of k.areas xs in
          let self : (h == h) ≡ true = ground arith in
          (
            with_kernel (put_area h (record (k.areas h) { vm_end = end_brk }) k1) sys,
            rw (e, s, run, heap, s) refl,
            λ there. rw self refl,
            λ q ne. (let off : (h == q) ≡ false = ground arith in rw off refl),
            rw s refl,
          )
    ]
