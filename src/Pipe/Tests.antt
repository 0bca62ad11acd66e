-- ===== src/Pipe/Tests.antt =====
-- A pipe with both ends in a task's list, and the theorems on it there.
use sbrocks.Prelude.{
  ℕ, zero, suc, ◌<◌, ◌≡◌, refl, arith, ◌==◌, if◌then◌else◌, some, [], ◌∷◌, take, drop, inl, inr,
}
use sbrocks.Prelude.Chain.{IsChain}
use sbrocks.Tarfs.{Tarfs, next_file}
use sbrocks.Pipe.{write_to_pipe, read_from_pipe}
use sbrocks.Pipe.Walk.{NoneHas}
use sbrocks.Pipe.Queue.{Holds, IsQueue}
use sbrocks.Pipe.Fifo.{HasOnce, write_to_pipe-IsQueue, read_from_pipe-IsQueue}

-- The reading end, descriptor 10, at 100 and the writing end, descriptor 11, at 200, with the bytes
-- 5 and 6 in their page at 4096; the byte 7 at 9000.
abbrev piped : Tarfs
piped = record {
  files = λ p. record {
    fd = if p == 100 then 10 else 11;
    addr = 4096;
    type = 0;
    size = 4096;
    offset = if p == 100 then 0 else 2;
    next = if p == 100 then 200 else 0;
  };
  filelist = 0;
  fd_count = 12;
  memory = λ b. if b == 4096 then 5 else if b == 4097 then 6 else if b == 9000 then 7 else 0;
  binary_tarfs_start = 0;
  fname = 0;
  cwd = 0;
}

two_bytes : Holds piped.memory 4096 (5 ∷ 6 ∷ [])
two_bytes zero h = refl
two_bytes (suc zero) h = refl
two_bytes (suc (suc j)) h = absurd (too_far j h)
  where
    too_far : (j : ℕ) → suc (suc j) < 2 → ⊥
    too_far j h = omega arith

piped-IsQueue : IsQueue piped 100 200 (5 ∷ 6 ∷ [])
piped-IsQueue = record {
  apart = λ e. omega arith;
  shared = refl;
  ends = refl;
  fits = omega arith;
  holds = two_bytes;
}

both_ends : IsChain (next_file piped) 100 (100 ∷ 200 ∷ [])
unfolding IsChain
both_ends = (refl, (λ e. omega arith), (refl, (λ e. omega arith), refl))

writing_once : HasOnce piped 100 11 200 (100 ∷ []) []
unfolding NoneHas
writing_once = record {
  chain = both_ends;
  before = ((λ e. omega arith), tt);
  here = refl;
  behind = tt;
}

reading_once : HasOnce piped 100 10 100 [] (200 ∷ [])
unfolding NoneHas
reading_once = record {
  chain = both_ends;
  before = tt;
  here = refl;
  behind = ((λ e. omega arith), tt);
}

one_byte : Holds piped.memory 9000 (7 ∷ [])
one_byte zero h = refl
one_byte (suc j) h = absurd (too_far j h)
  where
    too_far : (j : ℕ) → suc j < 1 → ⊥
    too_far j h = omega arith

write_to_pipe-IsQueue_example :
    (fs' : Tarfs) × (write_to_pipe 3 100 11 9000 1 piped ≡ some fs')
    × IsQueue fs' 100 200 (5 ∷ 6 ∷ 7 ∷ [])
    × HasOnce fs' 100 11 200 (100 ∷ []) []
write_to_pipe-IsQueue_example =
    write_to_pipe-IsQueue 3 100 11 100 200 9000 (100 ∷ []) [] (5 ∷ 6 ∷ []) (7 ∷ []) piped
      writing_once piped-IsQueue (omega arith) one_byte (omega arith) (omega arith)
      (inl (omega arith))

read_from_pipe-IsQueue_example :
    (fs' : Tarfs) × (read_from_pipe 3 100 10 9000 1 piped ≡ some fs')
    × Holds fs'.memory 9000 (take 1 (5 ∷ 6 ∷ []))
    × IsQueue fs' 100 200 (drop 1 (5 ∷ 6 ∷ []))
    × HasOnce fs' 100 10 100 [] (200 ∷ [])
read_from_pipe-IsQueue_example =
    read_from_pipe-IsQueue 3 100 10 100 200 9000 1 [] (200 ∷ []) (5 ∷ 6 ∷ []) piped reading_once
      piped-IsQueue (omega arith) (omega arith) (omega arith) (inr (omega arith))
