-- ===== src/Kstring/Words.antt =====
-- Numbers of several bytes in memory, the low byte first, as C's loads and stores of wider types
-- through pointers leave them (w2/sys/syscall.c, w2/sys/process/elf.c).
use sbrocks.Prelude.{ℕ, zero, suc, ◌+◌, ◌*◌, ◌/◌, ◌%◌, ◌^◌, ◌<◌, ◌≡◌, refl, ◌∙◌, arith, inl}
use sbrocks.Kstring.{Memory, store}
use sbrocks.Kstring.Copy.{Outside}

unfoldable pub store_bytes : (n : ℕ) → Memory → (p v : ℕ) → Memory
store_bytes zero m p v = m
store_bytes (suc n) m p v = store_bytes n (store m p (v % 256)) (p + 1) (v / 256)

unfoldable pub load_bytes : (n : ℕ) → Memory → (p : ℕ) → ℕ
load_bytes zero m p = 0
load_bytes (suc n) m p = m p + 256 * load_bytes n m (p + 1)

pub store_bytes-Outside :
    (n : ℕ) (m : Memory) (p v a : ℕ) → Outside p n a → store_bytes n m p v a ≡ m a
unfolding store_bytes
store_bytes-Outside zero m p v a out = refl
store_bytes-Outside (suc n) m p v a out =
    store_bytes-Outside n (store m p (v % 256)) (p + 1) (v / 256) a (ground arith) ∙ ground arith

pub load_bytes-store_bytes :
    (n : ℕ) (m : Memory) (p v : ℕ) → v < 256 ^ n → load_bytes n (store_bytes n m p v) p ≡ v
unfolding store_bytes load_bytes
load_bytes-store_bytes zero m p v h = omega arith
load_bytes-store_bytes (suc n) m p v h =
    let low = store_bytes-Outside n (store m p (v % 256)) (p + 1) (v / 256) p (inl (omega arith)) in
    let high =
      load_bytes-store_bytes n (store m p (v % 256)) (p + 1) (v / 256)
        (omega (arith, shape n v h)) in
    let here : store m p (v % 256) p ≡ v % 256 = ground arith in rw (low, here, high) (omega arith)
  where
    shape : (n v : ℕ) → v < 256 ^ suc n → v < 256 * 256 ^ n
    shape n v h = omega arith
