-- ===== src/Paging/Bits.antt =====
-- The flag bits of a page table entry (w2/sys/mmu/pt.c).
use sbrocks.Prelude.{ℕ, ◌+◌, ◌*◌, ◌/◌, ◌%◌, ◌<◌, ◌≡◌, ◌≢◌, refl, sym, ◌∙◌, ap, arith, true, bit_or}
use sbrocks.Prelude.Bits.{bit_or_aligned, bit_and-one}
use sbrocks.PhyAlloc.{align_down, mm_page_to_phy}
use sbrocks.PhyAlloc.Word.{bit-set, bit-clear, bit_and-pow}
use sbrocks.Paging.{
  is_present, set_writable_bit, reset_writable_bit, set_cow_bit, reset_cow_bit, is_cow_set,
  is_writable_page,
}

pub is_present-odd : (x : ℕ) → x % 2 ≡ 1 → is_present x ≡ true
is_present-odd x h = rw (bit_and-one x, h) refl

-- The entry for a table: the address with the flags below it.
pub entry_sum : (x flags : ℕ) → flags < 4096 → bit_or (align_down x) flags ≡ x / 4096 * 4096 + flags
entry_sum x flags h = bit_or_aligned 12 (x / 4096) flags h

pub page_entry_sum :
    (page flags : ℕ)
    → flags < 4096
    → bit_or (mm_page_to_phy page) flags ≡ mm_page_to_phy page + flags
page_entry_sum page flags h =
    let e : mm_page_to_phy page ≡ align_down (mm_page_to_phy page) = omega arith in
    ap (λ k. bit_or k flags) e ∙ entry_sum (mm_page_to_phy page) flags h ∙ omega arith

-- The four operations on the writable bit and the copy-on-write bit of an entry: each test
-- reads what the last of its own operations left, and the operations on the other bit do
-- not change what it reads.
pub flag_bits :
    (pte : ℕ)
    → (is_writable_page (set_writable_bit pte) ≢ 0)
      × (is_writable_page (reset_writable_bit pte) ≡ 0)
      × (is_cow_set (set_cow_bit pte) ≢ 0)
      × (is_cow_set (reset_cow_bit pte) ≡ 0)
      × (is_writable_page (set_cow_bit pte) ≡ is_writable_page pte)
      × (is_writable_page (reset_cow_bit pte) ≡ is_writable_page pte)
      × (is_cow_set (set_writable_bit pte) ≡ is_cow_set pte)
      × (is_cow_set (reset_writable_bit pte) ≡ is_cow_set pte)
unfolding set_writable_bit reset_writable_bit set_cow_bit reset_cow_bit is_cow_set is_writable_page
flag_bits pte = (
  rw (bit_and-pow 1, bit-set pte 1 1) (omega arith),
  rw (bit_and-pow 1, bit-clear pte 1 1 (omega arith) (omega arith)) refl,
  rw (bit_and-pow 62, bit-set pte 62 62) (omega arith),
  rw (bit_and-pow 62, bit-clear pte 62 62 (omega arith) (omega arith)) refl,
  rw (bit_and-pow 1, bit-set pte 62 1) (sym (bit_and-pow 1 pte)),
  rw (bit_and-pow 1, bit-clear pte 62 1 (omega arith) (omega arith)) (sym (bit_and-pow 1 pte)),
  rw (bit_and-pow 62, bit-set pte 1 62) (sym (bit_and-pow 62 pte)),
  rw (bit_and-pow 62, bit-clear pte 1 62 (omega arith) (omega arith)) (sym (bit_and-pow 62 pte)),
)
