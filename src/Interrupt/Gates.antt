-- ===== src/Interrupt/Gates.antt =====
-- The gates of w2/sys/idt.c and the handlers that they lead to.
use sbrocks.Prelude.{
  ℕ, zero, suc, ◌+◌, ◌*◌, ◌/◌, ◌%◌, ◌^◌, ◌<◌, ◌≡◌, refl, ◌∙◌, ap, arith, ◌==◌, if◌then◌else◌, false,
  Bool-cases, inl, inr,
}
use sbrocks.Interrupt.{IdtEntry, idt_set_gate, exception_gates, idt_install}

-- The address that the processor puts together from a gate.
abbrev pub base_of : IdtEntry → ℕ
base_of g = g.base_lo + g.base_mid * 2 ^ 16 + g.base_hi * 2 ^ 32

idt_set_gate-base_of :
    (num base sel flags n : ℕ) (idt : ℕ → IdtEntry)
    → base < 2 ^ 64
    → base_of (idt_set_gate num base sel flags idt n) ≡ (if num == n then base else base_of (idt n))
unfolding idt_set_gate
idt_set_gate-base_of num base sel flags n idt h = elim (Bool-cases (num == n)) [
  | inl here ↦ rw here (omega arith)
  | inr other ↦ rw other refl
]

exception_gates-base_of :
    (k n : ℕ) (isr : ℕ → ℕ)
    → ((i : ℕ) → isr i < 2 ^ 64)
    → n < k
    → base_of (exception_gates k isr n) ≡ isr n
unfolding exception_gates
exception_gates-base_of zero n isr small h = elim h [ ]
exception_gates-base_of (suc k) n isr small h =
    let set = idt_set_gate-base_of k (isr k) 0x08 0x8e n (exception_gates k isr) (small k) in
    elim (Bool-cases (k == n)) [
      | inl here ↦ set ∙ rw here (ap isr (ground arith))
      | inr other ↦ set ∙ rw other (exception_gates-base_of k n isr small (ground arith))
    ]

-- The privilege that a program needs for a gate, of 0 for the kernel to 3 for a user program.
abbrev pub privilege_of : IdtEntry → ℕ
privilege_of g = g.flags / 2 ^ 5 % 4

exception_gates-privilege : (k n : ℕ) (isr : ℕ → ℕ) → privilege_of (exception_gates k isr n) ≡ 0
unfolding exception_gates idt_set_gate
exception_gates-privilege zero n isr = refl
exception_gates-privilege (suc k) n isr = elim (Bool-cases (k == n)) [
  | inl here ↦ rw here refl
  | inr other ↦ rw other (exception_gates-privilege k n isr)
]

idt_set_gate-flags :
    (num base sel flags n : ℕ) (idt : ℕ → IdtEntry)
    → (idt_set_gate num base sel flags idt n).flags ≡ (if num == n then flags else (idt n).flags)
unfolding idt_set_gate
idt_set_gate-flags num base sel flags n idt = elim (Bool-cases (num == n)) [
  | inl here ↦ rw here refl
  | inr other ↦ rw other refl
]

idt_install-privilege :
    (isr : ℕ → ℕ) (irq0 irq1 n : ℕ)
    → privilege_of (idt_install isr irq0 irq1 n) ≡ (if n == 128 then 3 else 0)
unfolding idt_install
idt_install-privilege isr irq0 irq1 n =
    let t1 = exception_gates 32 isr in
    let t2 = idt_set_gate 32 irq0 0x08 0x8e t1 in
    let t3 = idt_set_gate 0x80 (isr 128) 0x08 0xee t2 in
    let t4 = idt_set_gate 33 irq1 0x08 0x8e t3 in
    privilege (t1 n).flags (t2 n).flags (t3 n).flags (t4 n).flags
      (idt_set_gate-flags 32 irq0 0x08 0x8e n t1) (idt_set_gate-flags 0x80 (isr 128) 0x08 0xee n t2)
      (idt_set_gate-flags 33 irq1 0x08 0x8e n t3) (exception_gates-privilege 32 n isr)
  where
    privilege :
        (f1 f2 f3 f4 : ℕ)
        → f2 ≡ (if 32 == n then 0x8e else f1)
        → f3 ≡ (if 0x80 == n then 0xee else f2)
        → f4 ≡ (if 33 == n then 0x8e else f3)
        → f1 / 2 ^ 5 % 4 ≡ 0
        → f4 / 2 ^ 5 % 4 ≡ (if n == 128 then 3 else 0)
    privilege f1 f2 f3 f4 a b c d = ground arith

-- The table leads each of the first 32 vectors to its exception's entry, 32 to the timer's, 33 to the
-- keyboard's and 128 to that of the system calls. A user program may use the gate of the system
-- calls, whose privilege is 3, and no other: that of all others is 0. It needs that the entries'
-- addresses have 64 bits.
pub idt_install-base_of :
    (isr : ℕ → ℕ) (irq0 irq1 : ℕ)
    → ((i : ℕ) → isr i < 2 ^ 64)
    → irq0 < 2 ^ 64
    → irq1 < 2 ^ 64
    → ((n : ℕ) → n < 32 → base_of (idt_install isr irq0 irq1 n) ≡ isr n)
      × (base_of (idt_install isr irq0 irq1 32) ≡ irq0)
      × (base_of (idt_install isr irq0 irq1 33) ≡ irq1)
      × (base_of (idt_install isr irq0 irq1 128) ≡ isr 128)
      × ((n : ℕ) → privilege_of (idt_install isr irq0 irq1 n) ≡ (if n == 128 then 3 else 0))
unfolding idt_install
idt_install-base_of isr irq0 irq1 small s0 s1 =
    let t1 = exception_gates 32 isr in
    let t2 = idt_set_gate 32 irq0 0x08 0x8e t1 in
    let t3 = idt_set_gate 0x80 (isr 128) 0x08 0xee t2 in
    let last = λ (n : ℕ). idt_set_gate-base_of 33 irq1 0x08 0x8e n t3 s1 in
    let call = λ (n : ℕ). idt_set_gate-base_of 0x80 (isr 128) 0x08 0xee n t2 (small 128) in
    let timer = λ (n : ℕ). idt_set_gate-base_of 32 irq0 0x08 0x8e n t1 s0 in
    (
      λ n h.
          let a : (33 == n) ≡ false = ground arith in
          let b : (0x80 == n) ≡ false = ground arith in
          let c : (32 == n) ≡ false = ground arith in
          last n
          ∙ ap (λ b. if b then irq1 else base_of (t3 n)) a
          ∙ call n
          ∙ ap (λ b. if b then isr 128 else base_of (t2 n)) b
          ∙ timer n
          ∙ ap (λ b. if b then irq0 else base_of (t1 n)) c
          ∙ exception_gates-base_of 32 n isr small h,
      last 32 ∙ call 32 ∙ timer 32,
      last 33,
      last 128 ∙ call 128,
      idt_install-privilege isr irq0 irq1,
    )
