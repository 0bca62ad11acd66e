-- ===== src/Kb/Safe.antt =====
-- The line buffer of w2/sys/kb.c stays in bounds.
use sbrocks.Prelude.{
  ℕ, ◌+◌, ◌-◌, ◌<◌, ◌≤◌, ◌≡◌, ◌≢◌, refl, arith, ◌==◌, not, ltb, ◌&&◌, true, false, some, inl, inr,
  Bool-cases, bit_and, ◌∷◌, lt→ltb,
}
use sbrocks.Kstring.{store, memcpy}
use sbrocks.Kb.{
  Kb, Control, kb_handler, handlekey, scanf_key, deliver, char_of, put_char, buffer_size,
  unset_flag, wake_waiting_task, task_runnable,
}

-- The index is in the buffer, the count is not larger than it, and a task that waits for keys is
-- there.
pub record InBounds (kb : Kb) : Type 0 where
  pub index : kb.i < buffer_size
  pub fits : kb.count ≤ buffer_size
  pub waits : kb.flag ≡ 1 → kb.waiting_task ≢ 0

deliver-some :
    (n : ℕ) (kb : Kb)
    → kb.waiting_task ≢ 0
    → kb.count ≤ buffer_size
    → (kb' : Kb) × (deliver n kb ≡ some kb') × InBounds kb'
unfolding deliver unset_flag wake_waiting_task
deliver-some n kb here fits =
    let e : (kb.waiting_task == 0) ≡ false = ground arith in
    (
      record kb {
        memory = store (memcpy kb.memory kb.str kb.a n) kb.a 0;
        i = 0;
        flag = 0;
        waiting_state = task_runnable;
      },
      rw e refl,
      record { index = omega arith; fits = fits; waits = λ odd. absurd (suc_not_zero odd) },
    )
  where
    suc_not_zero : ◌≡◌ {A = ℕ} 0 1 → ⊥
    suc_not_zero e = omega arith

scanf_key-some :
    (c : ℕ) (kb : Kb)
    → kb.waiting_task ≢ 0
    → InBounds kb
    → (kb' : Kb) × (scanf_key c kb ≡ some kb') × InBounds kb'
unfolding scanf_key
scanf_key-some c kb here ok =
    let low : ltb kb.i buffer_size ≡ true = lt→ltb kb.i buffer_size ok.index in
    elim (Bool-cases (c == 10)) [
      | inl line ↦
          let (kb', run, ok') = deliver-some (kb.i + 1) (put_char 10 kb) here ok.fits in
          (kb', rw (line, low) run, ok')
      | inr other ↦ elim (Bool-cases ((c == 8) && ltb 0 kb.i)) [
        | inl back ↦ (
          record kb { memory = store kb.memory (kb.a + kb.i) 0; i = kb.i - 1 },
          rw (other, back, low) refl,
          record { index = omega (arith, ok.index); fits = ok.fits; waits = λ f. here },
        )
        | inr plain ↦ elim (Bool-cases (ltb (kb.i + 1) kb.count)) [
          | inl more ↦ (
            put_char c kb,
            rw (other, plain, low, more) refl,
            record { index = (let f = ok.fits in ground arith); fits = ok.fits; waits = λ f. here },
          )
          | inr full ↦
              let (kb', run, ok') = deliver-some 1 (put_char c kb) here ok.fits in
              (kb', rw (other, plain, low, full) run, ok')
        ]
      ]
    ]

handlekey-some :
    (scancode : ℕ) (kb : Kb)
    → InBounds kb
    → (kb' : Kb) × (handlekey scancode kb ≡ some kb') × InBounds kb'
unfolding handlekey
handlekey-some scancode kb ok = elim (Bool-cases (kb.flag == 1)) [
  | inr idle ↦ (
    record kb {
      current_char = char_of kb.current_control scancode;
      current_control = Control.normal_key;
    },
    rw idle refl,
    record { index = ok.index; fits = ok.fits; waits = ok.waits },
  )
  | inl reading ↦
      let c = char_of kb.current_control scancode in
      let kb1 = record kb { current_char = c; echoed = c ∷ kb.echoed } in
      let here : kb.waiting_task ≢ 0 = ok.waits (ground arith) in
      let ok1 : InBounds kb1 = record { index = ok.index; fits = ok.fits; waits = λ f. here } in
      let (kb2, run, ok2) = scanf_key-some c kb1 here ok1 in
      (
        record kb2 { current_control = Control.normal_key },
        rw (reading, run) refl,
        record { index = ok2.index; fits = ok2.fits; waits = ok2.waits },
      )
]

-- No key makes the handler leave the line buffer or follow a null pointer, and after each key the
-- same holds for the next. It needs a count of at most 1024 bytes, the size of the buffer, and
-- that there is a waiting task whenever the flag is set.
pub kb_handler-InBounds :
    (scancode : ℕ) (kb : Kb)
    → InBounds kb
    → (kb' : Kb) × (kb_handler scancode kb ≡ some kb') × InBounds kb'
unfolding kb_handler
kb_handler-InBounds scancode kb ok = elim (Bool-cases (not (bit_and scancode 0x80 == 0))) [
  | inl released ↦ (kb, rw released refl, ok)
  | inr pressed ↦ elim (Bool-cases (scancode == 42)) [
    | inl shift ↦ (
      record kb { current_control = Control.shift_key },
      rw (pressed, shift) refl,
      record { index = ok.index; fits = ok.fits; waits = ok.waits },
    )
    | inr n1 ↦ elim (Bool-cases (scancode == 56)) [
      | inl alt ↦ (
        record kb { current_control = Control.alt_key },
        rw (pressed, n1, alt) refl,
        record { index = ok.index; fits = ok.fits; waits = ok.waits },
      )
      | inr n2 ↦ elim (Bool-cases (scancode == 29)) [
        | inl control ↦ (
          record kb { current_control = Control.control_key },
          rw (pressed, n1, n2, control) refl,
          record { index = ok.index; fits = ok.fits; waits = ok.waits },
        )
        | inr n3 ↦
            let (kb', run, ok') = handlekey-some scancode kb ok in
            (kb', rw (pressed, n1, n2, n3) run, ok')
      ]
    ]
  ]
]
