-- ===== src/Process/Waiting.antt =====
-- Tasks that sleep or wait, and the search by number (w2/sys/process/process.c).
use sbrocks.Prelude.{
  ℕ, zero, suc, ◌+◌, ◌-◌, ◌%◌, ◌<◌, ◌≡◌, ◌≢◌, refl, sym, subst, ◌∙◌, ap, arith, ◌==◌, if◌then◌else◌,
  Bool, true, false, some, none, List, [], ◌∷◌, length, inl, inr, Bool-cases, ◌&&◌, ◌||◌,
}
use sbrocks.PhyAlloc.{word_mod}
use sbrocks.Process.{
  Kernel, Task, TaskState, next_of, put_task, set_state, update_time_slices, slices_from,
  time_slice, get_task, find_pid, remove_from_parent, is_sleep, is_waiting,
}
use sbrocks.Prelude.Chain.{IsChain, IsChain-same, Distinct, member, member-Misses}
use sbrocks.Process.Lists.{HasTasks}

pub time_slice-next : (t : Task) → (time_slice t).next ≡ t.next
unfolding time_slice
time_slice-next t = elim (Bool-cases (is_sleep t.state)) [
  | inr awake ↦ ap (λ b. (sliced b (t.sleep_time == 0)).next) awake
  | inl asleep ↦ elim (Bool-cases (t.sleep_time == 0)) [
    | inl over ↦
        ap (λ b. (sliced b (t.sleep_time == 0)).next) asleep ∙ ap (λ b. (sliced true b).next) over
    | inr on ↦
        ap (λ b. (sliced b (t.sleep_time == 0)).next) asleep ∙ ap (λ b. (sliced true b).next) on
  ]
]
  where
    sliced : Bool → Bool → Task
    sliced asleep over =
        if asleep
        then (if over
            then record t { state = TaskState.task_runnable }
            else record t { sleep_time = t.sleep_time - 1 })
        else t

pub put_task_self : (p : ℕ) (t : Task) (k : Kernel) → (put_task p t k).tasks p ≡ t
put_task_self p t k = let s : (p == p) ≡ true = ground arith in rw s refl

pub sliced-next :
    (p : ℕ) (k : Kernel) (q : ℕ) → next_of (put_task p (time_slice (k.tasks p)) k) q ≡ next_of k q
sliced-next p k q = elim (Bool-cases (p == q)) [
  | inr other ↦ ap (λ b. (if b then time_slice (k.tasks p) else k.tasks q).next) other
  | inl same ↦
      ap (λ b. (if b then time_slice (k.tasks p) else k.tasks q).next) same
      ∙ time_slice-next (k.tasks p)
      ∙ ap (next_of k) (ground arith)
]

pub slices_from-member :
    (fuel p : ℕ) (xs : List ℕ) (k : Kernel)
    → IsChain (next_of k) p xs
    → Distinct xs
    → length xs < fuel
    → (k' : Kernel) × (slices_from fuel p k ≡ some k')
      × (k'.task_list ≡ k.task_list)
      × ((q : ℕ) → k'.tasks q ≡ (if member q xs then time_slice (k.tasks q) else k.tasks q))
unfolding slices_from IsChain Distinct member
slices_from-member zero p xs k c d h = elim h [ ]
slices_from-member (suc fuel) p [] k c d h =
    let e : (p == 0) ≡ true = (let z = c in ground arith) in (k, rw e refl, refl, λ q. refl)
slices_from-member (suc fuel) p (x ∷ xs) k c d h =
    let ne : (x == 0) ≡ false = (let n = c.1 in ground arith) in
    let k1 = put_task x (time_slice (k.tasks x)) k in
    let chain : IsChain (next_of k1) (next_of k1 x) xs =
      rw (sliced-next x k x)
        (IsChain-same (next_of k) (next_of k1) (sliced-next x k) (next_of k x) xs c.2) in
    let (k', run, same, all) =
      slices_from-member fuel (next_of k1 x) xs k1 chain d.1 (omega arith) in
    (
      k',
      subst (λ y. slices_from (suc fuel) y k ≡ some k') (sym c.0) (rw ne run),
      same,
      λ q. elim (Bool-cases (x == q)) [
        | inr other ↦ all q ∙ rw other refl
        | inl same ↦
            let at : x ≡ q = ground arith in
            let missing : member x xs ≡ false = member-Misses x xs d.0 in
            subst
              (λ q.
                k'.tasks q
                ≡ (if (x == q) || member q xs then time_slice (k.tasks q) else k.tasks q))
              at
              (all x ∙ rw (missing, put_task_self x (time_slice (k.tasks x)) k) (selfed x false k))
      ],
    )
  where
    selfed :
        (x : ℕ) (m : Bool) (k : Kernel)
        → time_slice (k.tasks x) ≡ (if (x == x) || m then time_slice (k.tasks x) else k.tasks x)
    selfed x m k = let s : (x == x) ≡ true = ground arith in rw s refl

-- A second of the clock passes for each task of the list once, and for no other: a task that sleeps
-- comes one second nearer to its end or, with none left, becomes runnable; any other task stays, and
-- so does the list. Fuel for each task and one more is enough.
pub update_time_slices-member :
    (fuel : ℕ) (xs : List ℕ) (k : Kernel)
    → HasTasks k xs
    → Distinct xs
    → length xs < fuel
    → (k' : Kernel) × (update_time_slices fuel k ≡ some k')
      × HasTasks k' xs
      × ((q : ℕ) → k'.tasks q ≡ (if member q xs then time_slice (k.tasks q) else k.tasks q))
unfolding update_time_slices
update_time_slices-member fuel xs k c d h =
    let (k', run, same, all) = slices_from-member fuel k.task_list xs k c d h in
    let next_kept : (q : ℕ) → next_of k' q ≡ next_of k q =
      λ q. ap (λ t. t.next) (all q) ∙ kept (member q xs) (k.tasks q) in
    (k', run, rw same (IsChain-same (next_of k) (next_of k') next_kept k.task_list xs c), all)
  where
    kept : (b : Bool) (t : Task) → (if b then time_slice t else t).next ≡ t.next
    kept true t = time_slice-next t
    kept false t = refl

-- The first task of a list with this number, or 0.
unfoldable pub first_with : Kernel → (pid : ℕ) → List ℕ → ℕ
first_with k pid [] = 0
first_with k pid (x ∷ xs) = if (k.tasks x).pid == pid then x else first_with k pid xs

find_pid-first_with :
    (fuel : ℕ) (k : Kernel) (pid p : ℕ) (xs : List ℕ)
    → IsChain (next_of k) p xs
    → length xs < fuel
    → find_pid fuel k pid p ≡ some (first_with k pid xs)
unfolding find_pid first_with IsChain
find_pid-first_with zero k pid p xs c h = elim h [ ]
find_pid-first_with (suc fuel) k pid p [] c h =
    let e : (p == 0) ≡ true = (let z = c in ground arith) in rw e refl
find_pid-first_with (suc fuel) k pid p (x ∷ xs) c h =
    let ne : (x == 0) ≡ false = (let n = c.1 in ground arith) in
    let rest = find_pid-first_with fuel k pid (next_of k x) xs c.2 (omega arith) in
    elim (Bool-cases ((k.tasks x).pid == pid)) [
      | inl here ↦ rw (c.0, ne, here) refl
      | inr other ↦ rw (c.0, ne, other) rest
    ]

-- `get_task` ends with the first task of the list that has the number, and with 0 where none has.
pub get_task-first_with :
    (fuel pid : ℕ) (xs : List ℕ) (k : Kernel)
    → HasTasks k xs
    → length xs < fuel
    → get_task fuel pid k ≡ some (first_with k pid xs)
unfolding get_task
get_task-first_with fuel pid xs k c h = find_pid-first_with fuel k pid k.task_list xs c h

-- A child that ends takes one from its parent's count of children, and wakes the parent exactly
-- where that waits for this child. It needs a parent that is not the child itself; without a parent
-- the source follows a null pointer.
pub remove_from_parent-wakes :
    (child : ℕ) (k : Kernel)
    → let parent = (k.tasks child).parent in
      ((parent ≡ 0) → remove_from_parent child k ≡ none)
      × ((parent ≢ 0)
          → parent ≢ child
          → (k' : Kernel) × (remove_from_parent child k ≡ some k')
            × ((k'.tasks parent).child_count
                ≡ ((k.tasks parent).child_count + word_mod - 1) % word_mod)
            × ((k'.tasks parent).state ≡ (
                if is_waiting (k.tasks parent).state
                  && ((k.tasks parent).wait_for_child_pid == (k.tasks child).pid)
                then TaskState.task_runnable
                else (k.tasks parent).state)))
unfolding remove_from_parent
remove_from_parent-wakes child k =
    let parent = (k.tasks child).parent in
    let p = k.tasks parent in
    let p1 = record p { child_count = (p.child_count + word_mod - 1) % word_mod } in
    (
      λ z. (let e : (parent == 0) ≡ true = ground arith in rw e refl),
      λ nz ne.
          let e : (parent == 0) ≡ false = ground arith in
          let o : (parent == child) ≡ false = ground arith in
          let s : (parent == parent) ≡ true = ground arith in
          elim (Bool-cases (is_waiting p.state && (p.wait_for_child_pid == (k.tasks child).pid))) [
            | inl wakes ↦ (
              set_state parent TaskState.task_runnable (put_task parent p1 k),
              rw (e, o, wakes) refl,
              rw s refl,
              rw (s, wakes) refl,
            )
            | inr stays ↦
                (put_task parent p1 k, rw (e, o, stays) refl, rw s refl, rw (s, stays) refl)
          ],
    )
