-- ===== src/Pipe/Fifo.antt =====
-- Writing and reading through descriptors (w2/sys/syscall.c): a pipe is first in, first out.
use sbrocks.Prelude.{
  ℕ, ◌+◌, ◌%◌, ◌^◌, ◌<◌, ◌≤◌, ◌≡◌, ◌∙◌, arith, some, List, ◌∷◌, ◌++◌, length, ◌⊎◌, take, drop,
}
use sbrocks.Prelude.Chain.{IsChain, IsChain-same}
use sbrocks.Kstring.{memcpy, word_mod}
use sbrocks.Kstring.Copy.{Forward}
use sbrocks.Tarfs.{Tarfs, next_file, int_size}
use sbrocks.Pipe.{write_pipe, read_pipe, write_to_pipe, read_from_pipe}
use sbrocks.Pipe.Walk.{NoneHas, NoneHas-same, for_fd-once}
use sbrocks.Pipe.Queue.{Holds, IsQueue, move-next, move-fd, write_pipe-IsQueue, read_pipe-IsQueue}

-- Where a descriptor stands once in the list of pipes from `head` on.
pub record HasOnce (fs : Tarfs) (head fd p : ℕ) (xs ys : List ℕ) : Type 0 where
  pub chain : IsChain (next_file fs) head (xs ++ p ∷ ys)
  pub before : NoneHas fs fd xs
  pub here : (fs.files p).fd ≡ fd
  pub behind : NoneHas fs fd ys

-- A write through the descriptor of the writing end ends and adds its bytes to the pipe's queue, and
-- the list of pipes stays. It needs that the descriptor stands once in the list, that the bytes fit
-- the address space and are fewer than 2 ^ 31, and that the buffer does not overlap their place
-- forwards; that the bytes fit the pipe's page is not needed. Fuel for each pipe and one more is
-- enough.
pub write_to_pipe-IsQueue :
    (fuel head fd r w buf : ℕ) (xs ys q bs : List ℕ) (fs : Tarfs)
    → HasOnce fs head fd w xs ys
    → IsQueue fs r w q
    → length (xs ++ w ∷ ys) < fuel
    → Holds fs.memory buf bs
    → length bs < 2 ^ 31
    → (fs.files w).addr + (fs.files w).offset + length bs < word_mod
    → Forward ((fs.files w).addr + (fs.files w).offset) buf (length bs)
    → (fs' : Tarfs) × (write_to_pipe fuel head fd buf (length bs) fs ≡ some fs')
      × IsQueue fs' r w (q ++ bs)
      × HasOnce fs' head fd w xs ys
unfolding write_to_pipe write_pipe
write_to_pipe-IsQueue fuel head fd r w buf xs ys q bs fs once is enough here few room fwd =
    let n = length bs in
    let fs1 = record fs {
      memory =
          memcpy fs.memory (((fs.files w).addr + (fs.files w).offset) % word_mod) buf (int_size n);
    } in
    let nexts = λ (p : ℕ). move-next w n p fs1 in
    let fds = λ (p : ℕ). move-fd w n p fs1 in
    (
      write_pipe buf n w fs,
      for_fd-once fuel (write_pipe buf n) fd head w xs ys fs nexts fds once.chain once.before
          once.here once.behind enough,
      write_pipe-IsQueue fs r w q is buf bs here few room fwd,
      record {
        chain = IsChain-same (next_file fs) _ nexts head (xs ++ w ∷ ys) once.chain;
        before = NoneHas-same fs _ fd xs fds once.before;
        here = fds w ∙ once.here;
        behind = NoneHas-same fs _ fd ys fds once.behind;
      },
    )

-- A read of at most the bytes in the queue, through the descriptor of the reading end, ends, gives
-- the first of them in order and takes them out of the queue, and the list of pipes stays. It needs
-- that the descriptor stands once in the list and that the buffer is apart from the bytes in the
-- pipe. Fuel for each pipe and one more is enough.
pub read_from_pipe-IsQueue :
    (fuel head fd r w outbuf n : ℕ) (xs ys q : List ℕ) (fs : Tarfs)
    → HasOnce fs head fd r xs ys
    → IsQueue fs r w q
    → length (xs ++ r ∷ ys) < fuel
    → n ≤ length q
    → n < 2 ^ 31
    → (outbuf + n ≤ (fs.files r).addr + (fs.files r).offset)
      ⊎ ((fs.files r).addr + (fs.files w).offset ≤ outbuf)
    → (fs' : Tarfs) × (read_from_pipe fuel head fd outbuf n fs ≡ some fs')
      × Holds fs'.memory outbuf (take n q)
      × IsQueue fs' r w (drop n q)
      × HasOnce fs' head fd r xs ys
unfolding read_from_pipe read_pipe
read_from_pipe-IsQueue fuel head fd r w outbuf n xs ys q fs once is enough some_left few off =
    let fs1 = record fs {
      memory =
          memcpy fs.memory outbuf (((fs.files r).addr + (fs.files r).offset) % word_mod)
            (int_size n);
    } in
    let nexts = λ (p : ℕ). move-next r n p fs1 in
    let fds = λ (p : ℕ). move-fd r n p fs1 in
    let fwd : Forward outbuf ((fs.files r).addr + (fs.files r).offset) n =
      (let ends = is.ends in ground arith) in
    let (queue, got) = read_pipe-IsQueue fs r w q is outbuf n some_left few fwd off in
    (
      read_pipe outbuf n r fs,
      for_fd-once fuel (read_pipe outbuf n) fd head r xs ys fs nexts fds once.chain once.before
          once.here once.behind enough,
      got,
      queue,
      record {
        chain = IsChain-same (next_file fs) _ nexts head (xs ++ r ∷ ys) once.chain;
        before = NoneHas-same fs _ fd xs fds once.before;
        here = fds r ∙ once.here;
        behind = NoneHas-same fs _ fd ys fds once.behind;
      },
    )
