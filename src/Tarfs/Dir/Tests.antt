-- ===== src/Tarfs/Dir/Tests.antt =====
-- Three files of a list, two of them in one directory, and the theorem on reading it.
use sbrocks.Prelude.{ℕ, ◌≡◌, refl, arith, ◌==◌, if◌then◌else◌, some, List, [], ◌∷◌, inr}
use sbrocks.Prelude.Chain.{IsChain}
use sbrocks.Kstring.{Memory, kstrncpy}
use sbrocks.Kstring.Text.{IsText}
use sbrocks.Tarfs.{Tarfs, next_file}
use sbrocks.Tarfs.Dir.{dread}
use sbrocks.Tarfs.Dir.Next.{NoneHas, IsNext, dread-IsNext}

abbrev name : List ℕ
name = b'r' ∷ b'/' ∷ b'd' ∷ b'/' ∷ []

-- At 5000 `r/d/`, at 6000 `r/d/x`, at 7000 `r/e`.
abbrev names : Memory
names b =
    if b == 5000
    then b'r'
    else if b == 5001
    then b'/'
    else if b == 5002
    then b'd'
    else if b == 5003
    then b'/'
    else if b == 6000
    then b'r'
    else if b == 6001
    then b'/'
    else if b == 6002
    then b'd'
    else if b == 6003
    then b'/'
    else if b == 6004
    then b'x'
    else if b == 7000
    then b'r'
    else if b == 7001
    then b'/'
    else if b == 7002
    then b'e'
    else 0

abbrev dir_fs : Tarfs
dir_fs = record {
  files = λ p. record {
    fd = p;
    addr = 20000;
    type = 0;
    size = 5;
    offset = 0;
    next = if p == 5000 then 6000 else if p == 6000 then 7000 else 0;
  };
  filelist = 5000;
  fd_count = 8000;
  memory = names;
  binary_tarfs_start = 20000;
  fname = 9000;
  cwd = 8000;
}

three_files : IsChain (next_file dir_fs) 5000 (5000 ∷ 6000 ∷ 7000 ∷ [])
unfolding IsChain
three_files =
    (refl, (λ e. omega arith), (refl, (λ e. omega arith), (refl, (λ e. omega arith), refl)))

name_IsText : IsText names 5000 name
name_IsText = (
  refl,
  (λ e. omega arith),
  (refl, (λ e. omega arith), (refl, (λ e. omega arith), (refl, (λ e. omega arith), refl))),
)

none_before : NoneHas dir_fs 5000 []
unfolding NoneHas
none_before = tt

dread-IsNext_example :
    (r : ℕ) × (dread 3 5 9500 5000 dir_fs ≡ some r)
    × IsNext (kstrncpy names 9500 5000 2) (b'r' ∷ b'/' ∷ []) name (6000 ∷ 7000 ∷ []) r
dread-IsNext_example =
    dread-IsNext 2 9500 5000 5000 6000 b'/' (b'r' ∷ []) (b'd' ∷ []) [] (7000 ∷ []) dir_fs
      three_files none_before refl name_IsText ((λ e. omega arith), tt) (omega arith)
      (inr (omega arith)) (omega arith)
