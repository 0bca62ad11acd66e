-- ===== src/Pipe/Queue.antt =====
-- A pipe of w2/sys/syscall.c as a queue of bytes.
use sbrocks.Prelude.{
  ℕ, ◌+◌, ◌-◌, ◌%◌, ◌^◌, ◌<◌, ◌≤◌, ◌≡◌, ◌≢◌, refl, sym, ◌∙◌, ap, arith, ◌==◌, if◌then◌else◌, true,
  false, List, ◌++◌, length, Bool-cases, inl, inr, ◌⊎◌, ltb, get_or, take, drop, length-append,
  length-drop, length-take,
}
use sbrocks.Prelude.Get.{get_or-append_left, get_or-append_right, get_or-take, get_or-drop}
use sbrocks.Kstring.{Memory, memcpy, word_mod}
use sbrocks.Kstring.Copy.{Forward, memcpy-Inside, memcpy-Outside}
use sbrocks.Tarfs.{Tarfs, File, next_file, set_offset, int_size}
use sbrocks.Pipe.{write_pipe, read_pipe, move}

-- The bytes of a list stand from `p` on.
abbrev pub Holds : Memory → ℕ → List ℕ → Type 0
Holds m p bs = (j : ℕ) → j < length bs → m (p + j) ≡ get_or bs j 0

-- The two ends of a pipe share a page of memory; between their places are the bytes that have been
-- written and not been read.
pub record IsQueue (fs : Tarfs) (r w : ℕ) (q : List ℕ) : Type 0 where
  pub apart : r ≢ w
  pub shared : (fs.files r).addr ≡ (fs.files w).addr
  pub ends : (fs.files w).offset ≡ (fs.files r).offset + length q
  pub fits : (fs.files w).addr + (fs.files w).offset < word_mod
  pub holds : Holds fs.memory ((fs.files r).addr + (fs.files r).offset) q

set_offset_self :
    (p v : ℕ) (fs : Tarfs) → (set_offset p v fs).files p ≡ record (fs.files p) { offset = v }
set_offset_self p v fs = let s : (p == p) ≡ true = ground arith in rw s refl

set_offset_other : (p v q : ℕ) (fs : Tarfs) → p ≢ q → (set_offset p v fs).files q ≡ fs.files q
set_offset_other p v q fs ne = let s : (p == q) ≡ false = ground arith in rw s refl

small_count : (n : ℕ) → n < 2 ^ 31 → int_size n ≡ n
small_count n h = ground arith

-- Moving a place keeps the lists and the descriptors.
pub move-next : (p n q : ℕ) (fs : Tarfs) → next_file (move p n fs) q ≡ next_file fs q
move-next p n q fs = elim (Bool-cases (p == q)) [
  | inr other ↦ ap (λ b. (if b then moved else fs.files q).next) other
  | inl same ↦
      let at : p ≡ q = ground arith in
      ap (λ b. (if b then moved else fs.files q).next) same ∙ ap (next_file fs) at
]
  where
    moved : File
    moved = record (fs.files p) { offset = ((fs.files p).offset + int_size n) % word_mod }

pub move-fd : (p n q : ℕ) (fs : Tarfs) → ((move p n fs).files q).fd ≡ (fs.files q).fd
move-fd p n q fs = elim (Bool-cases (p == q)) [
  | inr other ↦ ap (λ b. (if b then moved else fs.files q).fd) other
  | inl same ↦
      let at : p ≡ q = ground arith in
      ap (λ b. (if b then moved else fs.files q).fd) same ∙ ap (λ q. (fs.files q).fd) at
]
  where
    moved : File
    moved = record (fs.files p) { offset = ((fs.files p).offset + int_size n) % word_mod }

module _ (fs : Tarfs) (r w : ℕ) (q : List ℕ) (is : IsQueue fs r w q) where
  pub write_pipe-IsQueue :
      (buf : ℕ) (bs : List ℕ)
      → Holds fs.memory buf bs
      → length bs < 2 ^ 31
      → (fs.files w).addr + (fs.files w).offset + length bs < word_mod
      → Forward ((fs.files w).addr + (fs.files w).offset) buf (length bs)
      → IsQueue (write_pipe buf (length bs) w fs) r w (q ++ bs)
  unfolding write_pipe
  write_pipe-IsQueue buf bs here few room fwd =
      let n = length bs in
      let at = (fs.files w).addr + (fs.files w).offset in
      let cut : at % word_mod ≡ at = (let f = is.fits in omega arith) in
      let same = is.shared in
      let ends = is.ends in
      let all = length-append q bs in
      let offset : ((fs.files w).offset + n) % word_mod ≡ (fs.files r).offset + length (q ++ bs) =
        omega arith in
      let nr : w ≢ r = (λ e. is.apart (sym e)) in
      let fs1 = record fs { memory = memcpy fs.memory at buf n } in
      let v = ((fs.files w).offset + n) % word_mod in
      rw (small_count n few, cut)
        record {
          apart = is.apart;
          shared = rw (set_offset_other w v r fs1 nr, set_offset_self w v fs1) same;
          ends = rw (set_offset_other w v r fs1 nr, set_offset_self w v fs1) offset;
          fits = rw (set_offset_self w v fs1) (omega arith);
          holds = rw (set_offset_other w v r fs1 nr) (λ j h. byte_at j h);
        }
    where
      byte_at :
          (j : ℕ)
          → j < length (q ++ bs)
          → memcpy fs.memory
              ((fs.files w).addr + (fs.files w).offset)
              buf
              (length bs)
              ((fs.files r).addr + (fs.files r).offset + j)
            ≡ get_or (q ++ bs) j 0
      byte_at j h = elim (Bool-cases (ltb j (length q))) [
        | inl old ↦
            let low : j < length q = ground arith in
            let ends = is.ends in
            let same = is.shared in
            memcpy-Outside fs.memory _ buf (length bs) _ (inl (omega arith))
            ∙ is.holds j low
            ∙ sym (get_or-append_left q bs j 0 low)
        | inr new ↦
            let ends = is.ends in
            let same = is.shared in
            let all = length-append q bs in
            let i = j - length q in
            let from : length q + i ≡ j = ground arith in
            let low : i < length bs = ground arith in
            let at : (fs.files r).addr + (fs.files r).offset + j
                ≡ (fs.files w).addr + (fs.files w).offset + i =
              omega arith in
            rw at (
              memcpy-Inside fs.memory ((fs.files w).addr + (fs.files w).offset) buf (length bs) i
                fwd low
              ∙ here i low
              ∙ sym (get_or-append_right q bs i 0)
              ∙ ap (λ k. get_or (q ++ bs) k 0) from)
      ]

  pub read_pipe-IsQueue :
      (outbuf n : ℕ)
      → n ≤ length q
      → n < 2 ^ 31
      → Forward outbuf ((fs.files r).addr + (fs.files r).offset) n
      → (outbuf + n ≤ (fs.files r).addr + (fs.files r).offset)
        ⊎ ((fs.files r).addr + (fs.files w).offset ≤ outbuf)
      → IsQueue (read_pipe outbuf n r fs) r w (drop n q)
        × Holds (read_pipe outbuf n r fs).memory outbuf (take n q)
  unfolding read_pipe
  read_pipe-IsQueue outbuf n enough few fwd off =
      let at = (fs.files r).addr + (fs.files r).offset in
      let same = is.shared in
      let ends = is.ends in
      let fits = is.fits in
      let left = length-drop n q in
      let cut : at % word_mod ≡ at = omega arith in
      let fs1 = record fs { memory = memcpy fs.memory outbuf at n } in
      let v = ((fs.files r).offset + n) % word_mod in
      let moved : v ≡ (fs.files r).offset + n = omega arith in
      rw (small_count n few, cut)
        (
          record {
            apart = is.apart;
            shared = rw (set_offset_other r v w fs1 is.apart, set_offset_self r v fs1) same;
            ends = rw (set_offset_other r v w fs1 is.apart, set_offset_self r v fs1) (omega arith);
            fits = rw (set_offset_other r v w fs1 is.apart) fits;
            holds = rw (set_offset_self r v fs1, moved) (λ j h. kept j h);
          },
          λ j h. taken j h,
        )
    where
      kept :
          (j : ℕ)
          → j < length (drop n q)
          → memcpy fs.memory outbuf
              ((fs.files r).addr + (fs.files r).offset)
              n
              ((fs.files r).addr + ((fs.files r).offset + n) + j)
            ≡ get_or (drop n q) j 0
      kept j h =
          let left = length-drop n q in
          let ends = is.ends in
          let at : (fs.files r).addr + ((fs.files r).offset + n) + j
              ≡ (fs.files r).addr + (fs.files r).offset + (n + j) =
            omega arith in
          rw at (
            memcpy-Outside fs.memory outbuf _ n _ (ground arith)
            ∙ is.holds (n + j) (omega arith)
            ∙ sym (get_or-drop n q j 0))

      taken :
          (j : ℕ)
          → j < length (take n q)
          → memcpy fs.memory outbuf ((fs.files r).addr + (fs.files r).offset) n (outbuf + j)
            ≡ get_or (take n q) j 0
      taken j h =
          let size = length-take n q in
          let low : j < n = ground arith in
          memcpy-Inside fs.memory outbuf ((fs.files r).addr + (fs.files r).offset) n j fwd low
          ∙ is.holds j (omega arith)
          ∙ sym (get_or-take n q j 0 low)
