-- ===== src/Process/Lists.antt =====
-- The task list of w2/sys/process/process.c.
use sbrocks.Prelude.{
  ℕ, zero, suc, ◌<◌, ◌≡◌, ◌≢◌, refl, sym, subst, ◌∙◌, ap, arith, ◌==◌, if◌then◌else◌, true, false,
  some, List, [], ◌∷◌, ◌++◌, length, inl, inr, Bool-cases,
}
use sbrocks.Process.{
  Kernel, TaskState, add_to_task_list, remove_from_task_list, unlink, next_of, set_next, set_state,
}
use sbrocks.Prelude.Chain.{
  last, IsChain, Misses, Distinct, IsChain-frame, IsChain-same, last_of, last-last_of,
  IsChain-append, last_of_off,
}

-- The task list of the kernel holds these tasks.
abbrev pub HasTasks : Kernel → List ℕ → Type 0
HasTasks k xs = IsChain (next_of k) k.task_list xs

pub set_next_self : (p v : ℕ) (k : Kernel) → next_of (set_next p v k) p ≡ v
set_next_self p v k =
    let s : (p == p) ≡ true = ground arith in
    ap (λ b. (if b then record (k.tasks p) { next = v } else k.tasks p).next) s

pub set_next_other : (p v q : ℕ) (k : Kernel) → p ≢ q → next_of (set_next p v k) q ≡ next_of k q
set_next_other p v q k ne =
    let s : (p == q) ≡ false = ground arith in
    ap (λ b. (if b then record (k.tasks p) { next = v } else k.tasks q).next) s

appended-next :
    (t task q : ℕ) (k : Kernel)
    → (next_of (set_next task 0 (set_next t task k)) task ≡ 0)
      × ((task ≢ t) → next_of (set_next task 0 (set_next t task k)) t ≡ task)
      × ((task ≢ q) → t ≢ q → next_of (set_next task 0 (set_next t task k)) q ≡ next_of k q)
appended-next t task q k = (
  set_next_self task 0 (set_next t task k),
  λ ne. set_next_other task 0 t (set_next t task k) ne ∙ set_next_self t task k,
  λ n1 n2. set_next_other task 0 q (set_next t task k) n1 ∙ set_next_other t task q k n2,
)

-- `add_to_task_list` puts a task that is not in the list at its end. Fuel for each task of the list
-- and one more is enough.
pub add_to_task_list-append :
    (fuel task : ℕ) (xs : List ℕ) (k : Kernel)
    → HasTasks k xs
    → Distinct xs
    → Misses task xs
    → task ≢ 0
    → length xs < fuel
    → (k' : Kernel) × (add_to_task_list fuel task k ≡ some k') × HasTasks k' (xs ++ task ∷ [])
unfolding add_to_task_list IsChain Distinct Misses
add_to_task_list-append fuel task [] k c d m nz enough =
    let e : (k.task_list == 0) ≡ true = (let z = c in ground arith) in
    let k1 = record k { task_list = task } in
    (set_next task 0 k1, rw e refl, (refl, nz, set_next_self task 0 k1))
add_to_task_list-append fuel task (x ∷ xs) k c d m nz enough =
    let head = c.0 in
    let ne : (k.task_list == 0) ≡ false = (let n = c.1 in ground arith) in
    let found : last fuel (next_of k) x ≡ some (last_of x xs) =
      last-last_of fuel (next_of k) x xs (refl, c.1, c.2) (omega arith) in
    let t = last_of x xs in
    let next' = next_of (set_next task 0 (set_next t task k)) in
    (
      set_next task 0 (set_next t task k),
      rw (ne, head, found) refl,
      IsChain-append (next_of k) next' task k.task_list x xs nz c d m (appended-next t task 0 k).0
          ((appended-next t task 0 k).1 (off x xs m)) (λ q. (appended-next t task q k).2),
    )
  where
    off : (x : ℕ) (xs : List ℕ) → Misses task (x ∷ xs) → task ≢ last_of x xs
    off x xs m e = last_of_off x xs task m (sym e)

-- The rest of the list behind `p`, less `task`.
pub without : ℕ → List ℕ → List ℕ
without task [] = []
without task (x ∷ xs) = if x == task then xs else x ∷ without task xs

unlink-without :
    (fuel task p : ℕ) (xs : List ℕ) (k : Kernel)
    → IsChain (next_of k) (next_of k p) xs
    → Misses p xs
    → Distinct xs
    → length xs < fuel
    → (k' : Kernel) × (unlink fuel task p (next_of k p) k ≡ some k')
      × (k'.task_list ≡ k.task_list)
      × IsChain (next_of k') (next_of k' p) (without task xs)
      × ((q : ℕ) → Misses q (p ∷ xs) → next_of k' q ≡ next_of k q)
unfolding unlink IsChain Misses Distinct without
unlink-without zero task p xs k c m d h = elim h [ ]
unlink-without (suc fuel) task p [] k c m d h =
    let e : (next_of k p == 0) ≡ true = (let z = c in ground arith) in
    (k, rw e refl, refl, c, λ q mq. refl)
unlink-without (suc fuel) task p (x ∷ xs) k c m d h =
    let at = c.0 in
    let ne : (x == 0) ≡ false = (let n = c.1 in ground arith) in
    elim (Bool-cases (x == task)) [
      | inl here ↦
          let k' = set_next p (next_of k x) k in
          (
            k',
            rw (at, ne, here) refl,
            refl,
            rw here (
                rw (set_next_self p (next_of k x) k) (
                  IsChain-frame (next_of k) (next_of k') p
                    (λ q n. set_next_other p (next_of k x) q k n) (next_of k x) xs m.1 c.2)),
            λ q mq. set_next_other p (next_of k x) q k (λ e. mq.0 (sym e)),
          )
      | inr other ↦
          let (k', run, same, chain, frame) =
            unlink-without fuel task x xs k c.2 d.0 d.1 (omega arith) in
          let keep : next_of k' p ≡ x = frame p m ∙ at in
          (k', rw (at, ne, other) run, same, rw other (keep, c.1, chain), λ q mq. frame q mq.1)
    ]

set_state-next :
    (p : ℕ) (state : TaskState) (k : Kernel) (q : ℕ) → next_of (set_state p state k) q ≡ next_of k q
set_state-next p state k q = elim (Bool-cases (p == q)) [
  | inr other ↦ ap (λ b. (if b then record (k.tasks p) { state = state } else k.tasks q).next) other
  | inl same ↦
      let at : p ≡ q = ground arith in
      ap (λ b. (if b then record (k.tasks p) { state = state } else k.tasks q).next) same
      ∙ ap (λ r. (k.tasks r).next) at
]

remove_head :
    (fuel task : ℕ) (xs : List ℕ) (k : Kernel)
    → HasTasks k (k.task_list ∷ xs)
    → Distinct (k.task_list ∷ xs)
    → length xs < fuel
    → (k' : Kernel) × (remove_from_task_list fuel task k ≡ some k')
      × HasTasks k' (without task (k.task_list ∷ xs))
unfolding remove_from_task_list IsChain Distinct without
remove_head fuel task xs k c d h =
    let k1 = set_state task TaskState.task_stopped k in
    let same_next = set_state-next task TaskState.task_stopped k in
    let ne : (k.task_list == 0) ≡ false = (let n = c.1 in ground arith) in
    let rest : IsChain (next_of k1) (next_of k1 k.task_list) xs =
      rw (same_next k.task_list)
        (IsChain-same (next_of k) (next_of k1) same_next (next_of k k.task_list) xs c.2) in
    elim (Bool-cases (k.task_list == task)) [
      | inl here ↦
          (record k1 { task_list = next_of k1 k.task_list }, rw (ne, here) refl, rw here rest)
      | inr other ↦
          let (k', run, same, chain, frame) =
            unlink-without fuel task k.task_list xs k1 rest d.0 d.1 h in
          (k', rw (ne, other) run, rw other (same, c.1, chain))
    ]

-- `remove_from_task_list` ends and leaves the list without the task, in the same order; a task
-- that is not in it changes nothing of the list. Fuel for each task and one more is enough.
pub remove_from_task_list-without :
    (fuel task : ℕ) (xs : List ℕ) (k : Kernel)
    → HasTasks k xs
    → Distinct xs
    → length xs < fuel
    → (k' : Kernel) × (remove_from_task_list fuel task k ≡ some k') × HasTasks k' (without task xs)
unfolding remove_from_task_list IsChain without
remove_from_task_list-without fuel task [] k c d h =
    let k1 = set_state task TaskState.task_stopped k in
    let e : (k.task_list == 0) ≡ true = (let z = c in ground arith) in (k1, rw e refl, c)
remove_from_task_list-without fuel task (x ∷ xs) k c d h =
    let back = sym c.0 in
    subst
      (λ y.
        (k' : Kernel) × (remove_from_task_list fuel task k ≡ some k')
        × HasTasks k' (without task (y ∷ xs)))
      c.0
      (remove_head fuel task xs k (subst (λ y. HasTasks k (y ∷ xs)) back c)
        (subst (λ y. Distinct (y ∷ xs)) back d) (omega arith))
