-- ===== src/Process/Create/Areas.antt =====
-- What `free_task_mm_struct` of w2/sys/process/process.c does to the list of areas.
use sbrocks.Prelude.{
  ℕ, suc, ◌<◌, ◌≡◌, ◌≢◌, refl, ◌∙◌, ap, arith, ◌==◌, if◌then◌else◌, true, false, some, Option, List,
  [], ◌∷◌, length, Bool-cases, inl, inr,
}
use sbrocks.Prelude.Fault.{◌>>=◌}
use sbrocks.Process.{Kernel, Area}
use sbrocks.Prelude.Chain.{last, IsChain, IsChain-same, last_of, last-last_of}
use sbrocks.Process.Create.{
  add_to_free_vm_list, free_areas, free_area_pages, put_area, area_next_of, set_area_next,
}

pub set_area_next_self : (p v : ℕ) (k : Kernel) → area_next_of (set_area_next p v k) p ≡ v
set_area_next_self p v k =
    let s : (p == p) ≡ true = ground arith in
    ap (λ b. (if b then record (k.areas p) { area_next = v } else k.areas p).area_next) s

-- `add_to_free_vm_list` ends, and leaves the area with no successor.
add_to_free_vm_list-last :
    (fuel vma : ℕ) (xs : List ℕ) (k : Kernel)
    → IsChain (area_next_of k) k.free_vm_list xs
    → length xs < fuel
    → (k' : Kernel) × (add_to_free_vm_list fuel vma k ≡ some k') × (area_next_of k' vma ≡ 0)
unfolding add_to_free_vm_list IsChain
add_to_free_vm_list-last fuel vma [] k c h =
    let e : (k.free_vm_list == 0) ≡ true = (let z = c in ground arith) in
    let k1 = record k { free_vm_list = vma } in
    (set_area_next vma 0 k1, rw e refl, set_area_next_self vma 0 k1)
add_to_free_vm_list-last fuel vma (x ∷ xs) k c h =
    let ne : (k.free_vm_list == 0) ≡ false = (let n = c.1 in let a = c.0 in ground arith) in
    let found : last fuel (area_next_of k) k.free_vm_list ≡ some (last_of x xs) =
      ap (last fuel (area_next_of k)) c.0
      ∙ last-last_of fuel (area_next_of k) x xs (refl, c.1, c.2) (omega arith) in
    let k1 = set_area_next (last_of x xs) vma k in
    (set_area_next vma 0 k1, rw (ne, found) refl, set_area_next_self vma 0 k1)

-- The area with its fields cleared, as the loop leaves it.
abbrev pub cleared : ℕ → Kernel → Kernel
cleared vma k =
    put_area vma
      (record (k.areas vma) {
        vm_mm = 0;
        vm_start = 0;
        vm_end = 0;
        vm_flags = 0;
        vm_file_descp = 0;
      })
      k

cleared-next : (vma : ℕ) (k : Kernel) (q : ℕ) → area_next_of (cleared vma k) q ≡ area_next_of k q
cleared-next vma k q = elim (Bool-cases (vma == q)) [
  | inr other ↦ ap (λ b. (if b then freed else k.areas q).area_next) other
  | inl same ↦
      ap (λ b. (if b then freed else k.areas q).area_next) same ∙ ap (area_next_of k) (ground arith)
]
  where
    freed : Area
    freed = record (k.areas vma) {
      vm_mm = 0;
      vm_start = 0;
      vm_end = 0;
      vm_flags = 0;
      vm_file_descp = 0;
    }

free_areas-end : (fuel task : ℕ) (k : Kernel) → free_areas (suc fuel) task 0 k ≡ some k
unfolding free_areas
free_areas-end fuel task k = refl

free_areas-step :
    (fuel task vma : ℕ) (k k1 k2 : Kernel)
    → vma ≢ 0
    → free_area_pages task vma k ≡ some k1
    → add_to_free_vm_list (suc fuel) vma (cleared vma k1) ≡ some k2
    → free_areas (suc fuel) task vma k ≡ free_areas fuel task (area_next_of k2 vma) k2
unfolding free_areas
free_areas-step fuel task vma k k1 k2 nz run put =
    let ne : (vma == 0) ≡ false = ground arith in
    ap
      (λ b. elim b as (λ b. Option Kernel) [
        | true ↦ some k
        | false ↦ free_area_pages task vma k >>= λ k1.
            add_to_free_vm_list (suc fuel) vma (cleared vma k1) >>= λ k2.
            free_areas fuel task (area_next_of k2 vma) k2
      ])
      ne
    ∙ rw (run, put) refl

-- However many areas the task has, the loop over them ends after the first: putting that area on
-- the free list has cut its successor off. It needs that the first area's pages can be freed, and
-- fuel for the areas on the free list and two more.
pub free_areas-first_only :
    (fuel task vma : ℕ) (xs : List ℕ) (k k1 : Kernel)
    → vma ≢ 0
    → free_area_pages task vma k ≡ some k1
    → IsChain (area_next_of k1) k1.free_vm_list xs
    → length xs < suc (suc fuel)
    → (k' : Kernel) × (add_to_free_vm_list (suc (suc fuel)) vma (cleared vma k1) ≡ some k')
      × (free_areas (suc (suc fuel)) task vma k ≡ some k')
free_areas-first_only fuel task vma xs k k1 nz run c h =
    let (k', put, cut) =
      add_to_free_vm_list-last (suc (suc fuel)) vma xs (cleared vma k1)
        (IsChain-same (area_next_of k1) (area_next_of (cleared vma k1)) (cleared-next vma k1)
          k1.free_vm_list xs c)
        h in
    (
      k',
      put,
      free_areas-step (suc fuel) task vma k k1 k' nz run put
          ∙ ap (λ p. free_areas (suc fuel) task p k') cut
          ∙ free_areas-end fuel task k',
    )
