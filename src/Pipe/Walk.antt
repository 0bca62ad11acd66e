-- ===== src/Pipe/Walk.antt =====
-- The walks over a list of pipes (w2/sys/syscall.c).
use sbrocks.Prelude.{
  ℕ, zero, suc, ◌<◌, ◌≡◌, ◌≢◌, refl, sym, ◌∙◌, arith, ◌==◌, true, false, some, List, [], ◌∷◌, ◌++◌,
  length,
}
use sbrocks.Prelude.Chain.{IsChain, IsChain-same}
use sbrocks.Tarfs.{Tarfs, next_file}
use sbrocks.Pipe.{for_fd}

-- None of these files has the descriptor.
unfoldable pub NoneHas : Tarfs → (fd : ℕ) → List ℕ → Type 0
NoneHas fs fd [] = Unit {0}
NoneHas fs fd (x ∷ xs) = ((fs.files x).fd ≢ fd) × NoneHas fs fd xs

pub NoneHas-same :
    (fs fs' : Tarfs) (fd : ℕ) (xs : List ℕ)
    → ((q : ℕ) → (fs'.files q).fd ≡ (fs.files q).fd)
    → NoneHas fs fd xs
    → NoneHas fs' fd xs
unfolding NoneHas
NoneHas-same fs fs' fd [] same h = tt
NoneHas-same fs fs' fd (x ∷ xs) same h =
    (λ e. h.0 (sym (same x) ∙ e), NoneHas-same fs fs' fd xs same h.1)

pub for_fd-none :
    (fuel : ℕ) (body : ℕ → Tarfs → Tarfs) (fd t : ℕ) (xs : List ℕ) (fs : Tarfs)
    → IsChain (next_file fs) t xs
    → NoneHas fs fd xs
    → length xs < fuel
    → for_fd fuel body fd t fs ≡ some fs
unfolding for_fd IsChain NoneHas
for_fd-none zero body fd t xs fs c h enough = elim enough [ ]
for_fd-none (suc fuel) body fd t [] fs c h enough =
    let e : (t == 0) ≡ true = (let z = c in ground arith) in rw e refl
for_fd-none (suc fuel) body fd t (x ∷ xs) fs c h enough =
    let ne : (x == 0) ≡ false = (let n = c.1 in ground arith) in
    let other : ((fs.files x).fd == fd) ≡ false = (let n = h.0 in ground arith) in
    rw (c.0, other, ne) (for_fd-none fuel body fd (next_file fs x) xs fs c.2 h.1 (omega arith))

-- A body that keeps the lists and the descriptors is run once, at the one file that has the
-- descriptor.
pub for_fd-once :
    (fuel : ℕ) (body : ℕ → Tarfs → Tarfs) (fd t p : ℕ) (xs ys : List ℕ) (fs : Tarfs)
    → ((q : ℕ) → next_file (body p fs) q ≡ next_file fs q)
    → ((q : ℕ) → ((body p fs).files q).fd ≡ (fs.files q).fd)
    → IsChain (next_file fs) t (xs ++ p ∷ ys)
    → NoneHas fs fd xs
    → (fs.files p).fd ≡ fd
    → NoneHas fs fd ys
    → length (xs ++ p ∷ ys) < fuel
    → for_fd fuel body fd t fs ≡ some (body p fs)
unfolding for_fd IsChain NoneHas
for_fd-once zero body fd t p xs ys fs nexts fds c hx here hy enough = elim enough [ ]
for_fd-once (suc fuel) body fd t p [] ys fs nexts fds c hx here hy enough =
    let ne : (p == 0) ≡ false = (let n = c.1 in ground arith) in
    let is : ((fs.files p).fd == fd) ≡ true = ground arith in
    let fs' = body p fs in
    let rest : IsChain (next_file fs') (next_file fs' p) ys =
      rw (nexts p) (IsChain-same (next_file fs) (next_file fs') nexts (next_file fs p) ys c.2) in
    rw (c.0, is, ne)
      (for_fd-none fuel body fd (next_file fs' p) ys fs' rest (NoneHas-same fs fs' fd ys fds hy)
        (omega arith))
for_fd-once (suc fuel) body fd t p (x ∷ xs) ys fs nexts fds c hx here hy enough =
    let ne : (x == 0) ≡ false = (let n = c.1 in ground arith) in
    let other : ((fs.files x).fd == fd) ≡ false = (let n = hx.0 in ground arith) in
    rw (c.0, other, ne)
      (for_fd-once fuel body fd (next_file fs x) p xs ys fs nexts fds c.2 hx.1 here hy
        (omega arith))
