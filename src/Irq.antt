-- ===== src/Irq.antt =====
-- w2/sys/irq.c, with the registration of the timer and the wait for it (w2/sys/timer.c).
-- A handler is known by the address of its function, 0 for none. Ports are written, in `ports`, with
-- the last write first. `none` is an access outside of the table of handlers.
use sbrocks.Prelude.{
  ℕ, ◌+◌, Bool, true, false, Option, none, some, List, [], ◌∷◌, ltb, ◌==◌, if◌then◌else◌,
}
use sbrocks.Prelude.Fault.{◌>>=◌, ◌>>◌, require}
use sbrocks.Timer.{Clock, outportb, timer_phase}

pub record Irq : Type 0 where
  pub irq_routines : ℕ → ℕ
  pub clock : Clock

abbrev pub set_routine : (irq handler : ℕ) → Irq → Irq
set_routine irq handler s = record s {
  irq_routines = λ i. if i == irq then handler else s.irq_routines i;
}

pub irq_install_handler : (irq handler : ℕ) → Irq → Option Irq
irq_install_handler irq handler s = do require (ltb irq 16); some (set_routine irq handler s)

pub irq_uninstall_handler : (irq : ℕ) → Irq → Option Irq
irq_uninstall_handler irq s = do require (ltb irq 16); some (set_routine irq 0 s)

-- The writes of `pic_remap`, in their order.
abbrev pub remap_writes : List (ℕ × ℕ)
remap_writes =
    (0x20, 0x11)
    ∷ (0xA0, 0x11)
    ∷ (0x21, 0x20)
    ∷ (0xA1, 0x28)
    ∷ (0x21, 0x04)
    ∷ (0xA1, 0x02)
    ∷ (0x21, 0x01)
    ∷ (0xA1, 0x01)
    ∷ (0x21, 0x0)
    ∷ (0xA1, 0x0)
    ∷ []

pub write_ports : (writes : List (ℕ × ℕ)) → Clock → Clock
write_ports [] c = c
write_ports ((port, value) ∷ writes) c = write_ports writes (outportb port value c)

pub pic_remap : Irq → Irq
pic_remap s = record s { clock = write_ports remap_writes (s.clock) }

pub install_irqs : Irq → Irq
install_irqs s = pic_remap s

-- The handler in the first place runs, whichever interrupt it is; a jump to no handler is `none`.
pub irq_rountine_handler : (run : (handler : ℕ) → Irq → Option Irq) → Irq → Option Irq
irq_rountine_handler run s = do
  let handler = s.irq_routines 0
  s1 ← (if handler == 0 then none else run handler s)
  some (record s1 { clock = outportb 0x20 0x20 (s1.clock) })

-- `FREQUENCY` is 100.
pub timer_install : (timer_handler : ℕ) → Irq → Option Irq
timer_install timer_handler s = do
  c ← timer_phase 100 s.clock
  irq_install_handler 0 timer_handler (record s { clock = c })

-- `timer_wait` after the ticks that come while it waits: whether it has ended.
pub timer_wait : (ticks : ℕ) → (at_start now : Clock) → Bool
timer_wait ticks at_start now =
    if ltb now.timer_ticks (at_start.timer_ticks + ticks) then false else true
