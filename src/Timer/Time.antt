-- ===== src/Timer/Time.antt =====
-- The time that the clock of w2/sys/timer.c shows.
use sbrocks.Prelude.{
  ℕ, ◌+◌, ◌*◌, ◌/◌, ◌%◌, ◌^◌, ◌<◌, ◌≤◌, ◌≡◌, ◌≢◌, refl, arith, true, some, ltb, ◌==◌, Bool-cases,
  inl, inr, ◌∷◌,
}
use sbrocks.Process.{Kernel, update_time_slices}
use sbrocks.Kstring.{int_mod}
use sbrocks.Timer.{Clock, pass_minute, second_change, tick}

-- The seconds, counted at each eighteenth tick, and the time of day that belongs to them, where a day
-- has 25 hours.
pub record IsTime (c : Clock) : Type 0 where
  pub seconds : c.prev_secs ≡ c.timer_ticks / 18 * 18 / 100
  pub ss : c.ss ≡ c.prev_secs % 60
  pub minutes : c.hh * 60 + c.mm ≡ c.prev_secs / 60 % 1500
  pub mm : c.mm < 60
  pub hh : c.hh ≤ 24

second_change-ticks : (secs : ℕ) (c : Clock) → (second_change secs c).timer_ticks ≡ c.timer_ticks
unfolding second_change pass_minute
second_change-ticks secs c = ground arith

second_change-shown :
    (secs : ℕ) (c : Clock)
    → let c' = second_change secs c in c'.shown ≡ (c'.hh, c'.mm, c'.ss) ∷ c.shown
unfolding second_change pass_minute
second_change-shown secs c = elim (Bool-cases (secs % 60 == 0)) [
  | inr same ↦ rw same refl
  | inl minute ↦ elim (Bool-cases ((c.mm + 1) % int_mod % 60 == 0)) [
    | inl hour ↦ rw (minute, hour) refl
    | inr no_hour ↦ rw (minute, no_hour) refl
  ]
]

second_change-IsTime :
    (secs : ℕ) (c : Clock)
    → secs ≡ c.timer_ticks / 18 * 18 / 100
    → secs ≡ c.prev_secs + 1
    → c.ss ≡ c.prev_secs % 60
    → c.hh * 60 + c.mm ≡ c.prev_secs / 60 % 1500
    → c.mm < 60
    → c.hh ≤ 24
    → IsTime (second_change secs c)
unfolding second_change pass_minute
second_change-IsTime secs c now next s total m h = record {
  seconds = ground arith;
  ss = ground arith;
  minutes = ground arith;
  mm = ground arith;
  hh = ground arith;
}

-- A tick of the clock keeps the shown time that of the seconds since the start, in days of 25 hours,
-- where the seconds are counted at each eighteenth tick. Once in each second it displays the new
-- hour, minute and second and gives the sleeping tasks a time slice; otherwise it does neither. It
-- needs that the count of ticks has not reached 2 ^ 31 - 1.
pub tick-IsTime :
    (fuel : ℕ) (c : Clock) (k k1 : Kernel)
    → IsTime c
    → c.timer_ticks + 1 < 2 ^ 31
    → update_time_slices fuel k ≡ some k1
    → (c' : Clock) × (k' : Kernel) × (tick fuel c k ≡ some (c', k'))
      × (c'.timer_ticks ≡ c.timer_ticks + 1)
      × IsTime c'
      × ((c'.prev_secs ≡ c.prev_secs) → (k' ≡ k) × (c'.shown ≡ c.shown))
      × ((c'.prev_secs ≢ c.prev_secs)
          → (c'.prev_secs ≡ c.prev_secs + 1)
            × (k' ≡ k1)
            × (c'.shown ≡ (c'.hh, c'.mm, c'.ss) ∷ c.shown))
unfolding tick second_change
tick-IsTime fuel c k k1 t low run =
    let c1 = record c { timer_ticks = c.timer_ticks + 1 } in
    let secs = c1.timer_ticks / 100 in
    let seconds = t.seconds in
    let fits : ltb c1.timer_ticks (2 ^ 31) ≡ true = ground arith in
    elim (Bool-cases (c1.timer_ticks % 18 == 0)) [
      | inr skipped ↦ (
        c1,
        k,
        rw (fits, skipped) refl,
        refl,
        record { seconds = ground arith; ss = t.ss; minutes = t.minutes; mm = t.mm; hh = t.hh },
        λ same. (refl, refl),
        λ other. absurd (other refl),
      )
      | inl counted ↦ elim (Bool-cases (c.prev_secs == secs)) [
        | inl same ↦ (
          c1,
          k,
          rw (fits, counted, same) refl,
          refl,
          record { seconds = ground arith; ss = t.ss; minutes = t.minutes; mm = t.mm; hh = t.hh },
          λ same. (refl, refl),
          λ other. absurd (other refl),
        )
        | inr other ↦
            let next : secs ≡ c.prev_secs + 1 = ground arith in
            (
              second_change secs c1,
              k1,
              rw (fits, counted, other, run) refl,
              second_change-ticks secs c1,
              second_change-IsTime secs c1 (ground arith) next t.ss t.minutes t.mm t.hh,
              λ same. absurd (omega arith),
              λ other. (next, refl, second_change-shown secs c1),
            )
      ]
    ]
