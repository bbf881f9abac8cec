-- ===== src/Kernel/Wait.antt =====
-- `timer_kernel` waits for 300 ticks.
use doomkernel.Prelude.{
  ℕ, ◌+◌, ◌%◌, ◌^◌, ◌<◌, ◌≡◌, refl, ap, Option, true, false, some, List, [], ◌∷◌, ◌++◌, ltb, length,
  codes, arith,
}
use doomkernel.Frame.{Frame}
use doomkernel.Memory.{sub64}
use doomkernel.Terminal.{Terminal}
use doomkernel.Printf.Render.{render}
use doomkernel.Printf.Rounds.{shown}
use doomkernel.Interrupt.{Handler, Handlers, irq_handler, call_if_set, register_interrupt_handler}
use doomkernel.Interrupt.Timer.{Timer, pit_handler, program_timer, timer_init}
use doomkernel.Kernel.{wait_loop, timer_kernel}
use doomkernel.Kernel.Say.{say-plain}

-- the timer after an interrupt for each of the frames
abbrev pub interrupted : Timer → List Frame → Timer
interrupted timer [] = timer
interrupted timer (frame ∷ frames) =
    interrupted (pit_handler timer (record frame { int_no = 32 })).0 frames

pit_handler-ticks :
    (timer : Timer) (frame : Frame) → (pit_handler timer frame).0.ticks ≡ (timer.ticks + 1) % 2 ^ 64
unfolding pit_handler
pit_handler-ticks timer frame = ground arith

-- A timer interrupt reaches the handler that stands at its vector.
irq_handler-pit_handler :
    (handlers : Handlers Timer) (timer : Timer) (frame : Frame)
    → handlers 32 ≡ some pit_handler
    → (irq_handler handlers timer (record frame { int_no = 32 })).0.0
      ≡ (pit_handler timer (record frame { int_no = 32 })).0
unfolding irq_handler call_if_set
irq_handler-pit_handler handlers timer frame e =
    ap (λ (o : Option (Handler Timer)). (call_if_set o timer (record frame { int_no = 32 })).0) e

module _ (start : ℕ) (handlers : Handlers Timer) (registered : handlers 32 ≡ some pit_handler)
    (low : start < 2 ^ 64) where
  wait_loop_lem :
      (n : ℕ) (frames later : List Frame) (timer : Timer)
      → timer.ticks ≡ (start + n) % 2 ^ 64
      → n + length frames ≡ 300
      → wait_loop start handlers (frames ++ later) timer ≡ some (interrupted timer frames, later)
  unfolding wait_loop
  wait_loop_lem n [] [] timer e c =
      let ends : ltb (sub64 timer.ticks start) 300 ≡ false = ground (arith, e, c, low) in
      rw ends refl
  wait_loop_lem n [] (frame ∷ later) timer e c =
      let ends : ltb (sub64 timer.ticks start) 300 ≡ false = ground (arith, e, c, low) in
      rw ends refl
  wait_loop_lem n (frame ∷ frames) later timer e c =
      let waits : ltb (sub64 timer.ticks start) 300 ≡ true = ground (arith, e, c, low) in
      let f : Frame = record frame { int_no = 32 } in
      rw (waits, irq_handler-pit_handler handlers timer frame registered)
        (wait_loop_lem (n + 1) frames later (pit_handler timer f).0
          (omega (arith, pit_handler-ticks timer f, e)) (omega (arith, c)))

abbrev pub timer_lines : List ℕ
timer_lines =
    codes "******TIMER******\n"
    ++ (codes "[timer] timer pit initialized with 100hz\n"
        ++ codes "[timer] 300 ticks passed (3 seconds) so the timer is alive!\n")

-- `timer_kernel` waits for 300 timer interrupts exactly, which reach the handler that it has registered,
-- whatever the others: with that many and any later ones it ends, the timer has had those 300
-- from 0 ticks on, the chip is programmed for the frequency 100, and the screen shows its lines.
pub timer_kernel_lem :
    (frames later : List Frame) (handlers : Handlers Timer) (timer : Timer) (t : Terminal)
    → length frames ≡ 300
    → timer_kernel (frames ++ later) handlers timer t
      ≡ some (
        interrupted (record timer { ticks = 0 }) frames,
        shown t timer_lines,
        program_timer 100,
        later,
      )
unfolding timer_kernel timer_init render register_interrupt_handler
timer_kernel_lem frames later handlers timer t e =
    let t1 = shown t (codes "******TIMER******\n") in
    let t2 = shown t1 (codes "[timer] timer pit initialized with 100hz\n") in
    let handlers' = register_interrupt_handler handlers 32 pit_handler in
    rw
      (
        say-plain t (codes "******TIMER******\n") refl (omega arith),
        say-plain t1 (codes "[timer] timer pit initialized with 100hz\n") refl (omega arith),
        wait_loop_lem 0 handlers' refl (omega arith) 0 frames later (record timer { ticks = 0 })
            (omega arith) (omega (arith, e)),
        say-plain t2 (codes "[timer] 300 ticks passed (3 seconds) so the timer is alive!\n") refl
            (omega arith),
      )
      refl
