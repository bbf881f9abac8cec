-- ===== src/Interrupt/Tests.antt =====
-- Interrupts at concrete frames.
use doomkernel.Prelude.{ℕ, ◌≡◌, ◌≢◌, ◌↔◌, refl, true, none, some, [], ◌∷◌, replicate}
use doomkernel.Frame.{Frame, zero_frame}
use doomkernel.Task.{Scheduler, blank_task, next_loop, get_next_task, save_frame, switch, schedule}
use doomkernel.Interrupt.{
  Handler, Handlers, returned, isr_handler, irq_handler, call_if_set, pic_send_eoi,
  register_interrupt_handler,
}
use doomkernel.Interrupt.Timer.{Timer, timer_init, pit_handler}
use doomkernel.Interrupt.Tick.{IsTicked, timer_interrupt}
use doomkernel.Interrupt.Dispatch.{isr_handler-returned}

-- A task runs and a new one waits.
abbrev scheduler : Scheduler
scheduler = record {
  task_list = blank_task ∷ record blank_task { id = 1 } ∷ replicate 8 blank_task;
  current_task = 0;
  task_count = 2;
  scheduler_started = true;
  heap = record { mem = λ x. 0; heap_beginning = 0; heap_end = 0; last_alloc = 0; memory_used = 0 };
}

abbrev timer : Timer
timer = record {
  ticks = 5;
  kernel_frame_template = zero_frame;
  scheduling_enabled = true;
  scheduler = scheduler;
}

abbrev no_handlers : Handlers Timer
no_handlers = λ v. none

abbrev tick : Frame
tick = record zero_frame { int_no = 32; rip = 9 }

-- The new task's frame is resumed, and its vector, 0, decides the acknowledgement.
both_acknowledged :
    (irq_handler (timer_init timer no_handlers 100).1 timer tick).1
    ≡ (0xA0, 0x20) ∷ (0x20, 0x20) ∷ []
unfolding irq_handler timer_init register_interrupt_handler call_if_set pit_handler schedule
    save_frame switch get_next_task next_loop pic_send_eoi
both_acknowledged = refl

timer_interrupt_example :
    let r = irq_handler (timer_init timer no_handlers 100).1 timer tick in
    IsTicked timer tick r.0.0 r.0.1 r.1
timer_interrupt_example = timer_interrupt timer timer no_handlers 100 tick refl

abbrev all_handled : Handlers Timer
all_handled = λ v. some (λ t frame. (t, record frame { rax = v }))

isr_handler-returned_example :
    (isr_handler all_handled timer tick ≡ returned timer (record tick { rax = 32 })) ↔ (
      (tick.int_no ≢ 8)
      × (tick.int_no ≢ 13)
      × (handler : Handler Timer) × (all_handled 32 ≡ some handler)
      × (handler timer tick ≡ (timer, record tick { rax = 32 })))
isr_handler-returned_example =
    isr_handler-returned all_handled timer tick timer (record tick { rax = 32 })

-- every odd line is masked
abbrev odd_masked : ℕ → ℕ
odd_masked = λ port. 0xAA
