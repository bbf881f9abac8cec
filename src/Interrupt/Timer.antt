-- ===== src/Interrupt/Timer.antt =====
-- kernel/timer/pit.c: the tick counter, the template of kernel frames and the programming of the chip.
use doomkernel.Prelude.{ℕ, ◌/◌, ◌%◌, ◌^◌, Bool, true, List, [], ◌∷◌, if◌then◌else◌}
use doomkernel.Memory.{add64}
use doomkernel.Frame.{Frame}
use doomkernel.Task.{Scheduler, schedule}
use doomkernel.Interrupt.{Handlers, register_interrupt_handler}

pub record Timer : Type 0 where
  pub ticks : ℕ
  pub kernel_frame_template : Frame
  pub scheduling_enabled : Bool
  pub scheduler : Scheduler

abbrev pub pit_base_frequency : ℕ
pit_base_frequency = 1193182

unfoldable pub pit_handler : Timer → Frame → Timer × Frame
pit_handler t frame =
    let t' = record t { ticks = add64 t.ticks 1; kernel_frame_template = frame } in
    let r = schedule t.scheduler frame in
    if t.scheduling_enabled then (record t' { scheduler = r.0 }, r.1) else (t', frame)

unfoldable pub scheduler_enable : Timer → Timer
scheduler_enable t = record t { scheduling_enabled = true }

unfoldable pub divisor : ℕ → ℕ
divisor frequency = (pit_base_frequency / frequency) % 2 ^ 16

-- The writes of `timer_init`, before it registers the handler and unmasks the line. The frequency is
-- not 0, by which the code would divide.
unfoldable pub program_timer : ℕ → List (ℕ × ℕ)
unfolding divisor
program_timer frequency =
    (0x43, 0x36)
    ∷ (0x80, 0)
    ∷ (0x40, divisor frequency % 256)
    ∷ (0x40, divisor frequency / 256 % 256)
    ∷ (0x80, 0)
    ∷ []

unfoldable pub timer_init : Timer → Handlers Timer → ℕ → Timer × Handlers Timer × List (ℕ × ℕ)
unfolding pit_handler program_timer register_interrupt_handler
timer_init t handlers frequency = (
  record t { ticks = 0 },
  register_interrupt_handler handlers 32 pit_handler,
  program_timer frequency,
)
