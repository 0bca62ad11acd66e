-- ===== src/Process/Schedule.antt =====
-- The choice of the next task (w2/sys/process/process.c, process_manager.c).
use sbrocks.Prelude.{
  ℕ, zero, suc, ◌<◌, ◌≡◌, ◌≢◌, refl, sym, ap, arith, ◌==◌, if◌then◌else◌, Bool, true, false, some,
  List, [], ◌∷◌, ◌++◌, length, inl, inr, Bool-cases, not, ◌&&◌,
}
use sbrocks.Paging.{virt_to_phy}
use sbrocks.Process.{
  Kernel, TaskState, next_of, set_state, is_runnable, find_runnable, get_next_task,
  schedule_process, start_process, stack_top,
}
use sbrocks.Prelude.Chain.{IsChain, IsChain-behind, Misses}
use sbrocks.Process.Lists.{HasTasks}

abbrev pub can_run : Kernel → (current task : ℕ) → Bool
can_run k current task = not (task == current) && is_runnable (k.tasks task).state

-- The first of the tasks that can run in place of the current one, or 0.
unfoldable pub first_ready : Kernel → (current : ℕ) → List ℕ → ℕ
first_ready k current [] = 0
first_ready k current (x ∷ xs) = if can_run k current x then x else first_ready k current xs

find_runnable-first_ready :
    (fuel : ℕ) (k : Kernel) (current p : ℕ) (xs : List ℕ)
    → IsChain (next_of k) p xs
    → length xs < fuel
    → find_runnable fuel k current p ≡ some (first_ready k current xs)
unfolding find_runnable first_ready IsChain
find_runnable-first_ready zero k current p xs c h = elim h [ ]
find_runnable-first_ready (suc fuel) k current p [] c h =
    let e : (p == 0) ≡ true = (let z = c in ground arith) in rw e refl
find_runnable-first_ready (suc fuel) k current p (x ∷ xs) c h =
    let ne : (x == 0) ≡ false = (let n = c.1 in ground arith) in
    let rest = find_runnable-first_ready fuel k current (next_of k x) xs c.2 (omega arith) in
    elim (Bool-cases (can_run k current x)) [
      | inl ready ↦ rw (c.0, ne, ready) refl
      | inr other ↦ rw (c.0, ne, other) rest
    ]

IsChain-nonzero : (next : ℕ → ℕ) (p : ℕ) (xs : List ℕ) → IsChain next p xs → Misses 0 xs
unfolding IsChain Misses
IsChain-nonzero next p [] c = tt
IsChain-nonzero next p (x ∷ xs) c = (λ e. c.1 (sym e), IsChain-nonzero next (next x) xs c.2)

Misses-prefix : (q : ℕ) (xs ys : List ℕ) → Misses q (xs ++ ys) → Misses q xs
unfolding Misses
Misses-prefix q [] ys m = tt
Misses-prefix q (x ∷ xs) ys m = (m.0, Misses-prefix q xs ys m.1)

first_ready-append :
    (k : Kernel) (current : ℕ) (xs ys : List ℕ)
    → Misses 0 xs
    → first_ready k current (xs ++ ys) ≡ (
        if first_ready k current xs == 0
        then first_ready k current ys
        else first_ready k current xs)
unfolding first_ready Misses
first_ready-append k current [] ys m = refl
first_ready-append k current (x ∷ xs) ys m =
    let ne : (x == 0) ≡ false = (let n = m.0 in ground arith) in
    elim (Bool-cases (can_run k current x)) [
      | inl ready ↦ rw (ready, ne) refl
      | inr other ↦ rw other (first_ready-append k current xs ys m.1)
    ]

first_ready_self :
    (k : Kernel) (current : ℕ) (ys : List ℕ)
    → first_ready k current (current ∷ ys) ≡ first_ready k current ys
unfolding first_ready
first_ready_self k current ys = let s : (current == current) ≡ true = ground arith in rw s refl

pub length-middle : (xs : List ℕ) (c : ℕ) (ys : List ℕ) → length ys < length (xs ++ c ∷ ys)
length-middle [] c ys = omega arith
length-middle (x ∷ xs) c ys = let h = length-middle xs c ys in omega arith

-- With the current task in the list, `get_next_task` ends with the first runnable task behind it,
-- going round from the end of the list to its start, and with 0 where no other task is runnable.
pub get_next_task-round_robin :
    (fuel current : ℕ) (xs ys : List ℕ) (k : Kernel)
    → HasTasks k (xs ++ current ∷ ys)
    → length (xs ++ current ∷ ys) < fuel
    → get_next_task fuel current k ≡ some (first_ready k current (ys ++ xs))
unfolding get_next_task
get_next_task-round_robin fuel current xs ys k c h =
    let (nz, behind) = IsChain-behind (next_of k) k.task_list xs current ys c in
    let ne : (current == 0) ≡ false = ground arith in
    let all = xs ++ current ∷ ys in
    let run1 =
      find_runnable-first_ready fuel k current (next_of k current) ys behind
        (let l = length-middle xs current ys in omega arith) in
    let run2 = find_runnable-first_ready fuel k current k.task_list all c h in
    let front =
      first_ready-append k current xs (current ∷ ys)
        (Misses-prefix 0 xs (current ∷ ys) (IsChain-nonzero (next_of k) k.task_list all c)) in
    let back =
      first_ready-append k current ys xs
        (IsChain-nonzero (next_of k) (next_of k current) ys behind) in
    let self = first_ready_self k current ys in
    elim (Bool-cases (first_ready k current ys == 0)) [
      | inr found ↦ rw (ne, run1, found, back, found) refl
      | inl gone ↦
          rw (ne, run1, gone, run2, back, gone) (ap some (choose front self (ground arith)))
    ]
  where
    choose : {w a b c : ℕ} → w ≡ (if a == 0 then b else a) → b ≡ c → c ≡ 0 → w ≡ a
    choose e1 e2 e3 = ground arith

first_ready_other :
    (k : Kernel) (current : ℕ) (xs : List ℕ) → current ≢ 0 → first_ready k current xs ≢ current
unfolding first_ready
first_ready_other k current [] nz e = nz (sym e)
first_ready_other k current (x ∷ xs) nz e = elim (Bool-cases (can_run k current x)) [
  | inl ready ↦ differs ready (rw ready at e)
  | inr not_ready ↦ first_ready_other k current xs nz (rw not_ready at e)
]
  where
    differs : can_run k current x ≡ true → x ≡ current → ⊥
    differs r same = ground arith

switched : (task : ℕ) → Kernel → Kernel
unfolding start_process
switched task k = start_process task (
    set_state task TaskState.task_running
      (record (set_state k.current_task TaskState.task_runnable k) { current_task = task }))

-- The timer's switch: the next task in turn becomes the current one and runs, the old one is
-- runnable, cr3 gets the physical address of the new one's tables and the top of its kernel stack is
-- set, and no other task changes. Where no other task is runnable, nothing changes. It needs that the
-- current task is in the list of tasks.
pub schedule_process-round_robin :
    (fuel : ℕ) (xs ys : List ℕ) (k : Kernel)
    → HasTasks k (xs ++ k.current_task ∷ ys)
    → length (xs ++ k.current_task ∷ ys) < fuel
    → let task = first_ready k k.current_task (ys ++ xs) in
      ((task ≡ 0) → schedule_process fuel k ≡ some k)
      × ((task ≢ 0)
          → (k' : Kernel) × (schedule_process fuel k ≡ some k')
            × (k'.current_task ≡ task)
            × ((k'.tasks task).state ≡ TaskState.task_running)
            × ((k'.tasks k.current_task).state ≡ TaskState.task_runnable)
            × (k'.tss_rsp0 ≡ stack_top task)
            × (k'.vm.cr3 ≡ virt_to_phy (k.tasks task).pml4e k.vm)
            × ((q : ℕ) → q ≢ task → q ≢ k.current_task → k'.tasks q ≡ k.tasks q))
unfolding schedule_process start_process switched
schedule_process-round_robin fuel xs ys k c h =
    let run = get_next_task-round_robin fuel k.current_task xs ys k c h in
    let nz = (IsChain-behind (next_of k) k.task_list xs k.current_task ys c).0 in
    let here : (k.current_task == 0) ≡ false = ground arith in
    let task = first_ready k k.current_task (ys ++ xs) in
    (
      λ z. (let e : (task == 0) ≡ true = ground arith in rw (run, e) refl),
      λ n.
          let other = first_ready_other k k.current_task (ys ++ xs) nz in
          let e : (task == 0) ≡ false = ground arith in
          let s : (task == task) ≡ true = ground arith in
          let o : (task == k.current_task) ≡ false = ground arith in
          let o2 : (k.current_task == task) ≡ false = ground arith in
          let s' : (k.current_task == k.current_task) ≡ true = ground arith in
          (
            switched task k,
            rw (run, e, here) refl,
            refl,
            rw s refl,
            rw (o, s') refl,
            refl,
            rw (s, o2) refl,
            λ q n1 n2.
                let a : (task == q) ≡ false = ground arith in
                let b : (k.current_task == q) ≡ false = ground arith in rw (a, b) refl,
          ),
    )
