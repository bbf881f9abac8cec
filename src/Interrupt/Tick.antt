-- ===== src/Interrupt/Tick.antt =====
-- The timer interrupt from the stub to the scheduler, and the rate at which it comes.
use native.Mathlib.Nat.{div-lt_iff_lt-mul}
use doomkernel.Prelude.{
  ℕ, ◌+◌, ◌-◌, ◌*◌, ◌/◌, ◌%◌, ◌^◌, ◌≤◌, ◌<◌, ◌≡◌, refl, true, false, some, List, [], ◌∷◌, ◌==◌,
  if◌then◌else◌, arith, Bool-cases, inl, inr, ◌∙◌,
}
use doomkernel.Frame.{Frame}
use doomkernel.Task.{schedule}
use doomkernel.Interrupt.{
  Handler, Handlers, register_interrupt_handler, call_if_set, pic_send_eoi, irq_handler,
}
use doomkernel.Interrupt.Timer.{Timer, pit_handler, divisor, program_timer, timer_init}

-- the bytes that reach a port, in order
abbrev pub sent_to : ℕ → List (ℕ × ℕ) → List ℕ
sent_to port [] = []
sent_to port ((p, v) ∷ ws) = if p == port then v ∷ sent_to port ws else sent_to port ws

divisor-lt : (frequency : ℕ) → divisor frequency < 2 ^ 16
unfolding divisor
divisor-lt frequency = omega arith

divisor_lem : (frequency : ℕ) → 19 ≤ frequency → divisor frequency ≡ 1193182 / frequency
unfolding divisor
divisor_lem frequency h =
    let small : 1193182 / frequency < 2 ^ 16 =
      (div-lt_iff_lt-mul {k = frequency} {x = 1193182} {y = 2 ^ 16} (omega arith)).1
        (omega arith) in
    omega (arith, small)

-- The chip puts the counter together from two bytes, the low one first: for a frequency of 19 Hz or
-- more, which is where the counter fits 16 bits, it counts the base frequency over the one asked for.
pub timer_divides :
    (t : Timer) (handlers : Handlers Timer) (frequency : ℕ)
    → 19 ≤ frequency
    → (low : ℕ) × (high : ℕ) × (sent_to 0x40 (timer_init t handlers frequency).2 ≡ low ∷ high ∷ [])
      × (low < 256)
      × (high < 256)
      × (low + 256 * high ≡ 1193182 / frequency)
unfolding timer_init program_timer
timer_divides t handlers frequency h =
    let d = divisor frequency in
    (
      d % 256,
      d / 256 % 256,
      refl,
      omega arith,
      omega arith,
      bytes d (divisor-lt frequency) ∙ divisor_lem frequency h,
    )
  where
    bytes : (d : ℕ) → d < 2 ^ 16 → d % 256 + 256 * (d / 256 % 256) ≡ d
    bytes d p = omega arith

-- the state `t'` after a timer interrupt at `frame`, the frame `next` that is resumed, and the writes
-- to the interrupt controllers
pub record IsTicked (t : Timer) (frame : Frame) (t' : Timer) (next : Frame) (writes : List (ℕ × ℕ))
    : Type 0 where
  pub counted : t'.ticks ≡ (t.ticks + 1) % 2 ^ 64
  pub kept : t'.kernel_frame_template ≡ frame
  pub scheduled :
      t.scheduling_enabled ≡ true
      → (t'.scheduler ≡ (schedule t.scheduler frame).0) × (next ≡ (schedule t.scheduler frame).1)
  pub unscheduled : t.scheduling_enabled ≡ false → (t'.scheduler ≡ t.scheduler) × (next ≡ frame)
  pub acknowledged : next.int_no ≡ 32 → writes ≡ (0x20, 0x20) ∷ []
  pub acknowledged_twice : next.int_no ≡ 0 → writes ≡ (0xA0, 0x20) ∷ (0x20, 0x20) ∷ []

irq_eq :
    {S : Type 0} (handlers : Handlers S) (handler : Handler S) (s : S) (frame : Frame)
    → handlers frame.int_no ≡ some handler
    → irq_handler handlers s frame
      ≡ (handler s frame, pic_send_eoi (((handler s frame).1.int_no + 256 - 32) % 256))
unfolding irq_handler
irq_eq handlers handler s frame e = rw (e, call_if_set) refl

registered :
    {S : Type 0} (handlers : Handlers S) (vector : ℕ) (handler : Handler S) (v : ℕ)
    → v ≡ vector
    → register_interrupt_handler handlers vector handler v ≡ some handler
unfolding register_interrupt_handler
registered handlers vector handler v e =
    let same : (v == vector) ≡ true = ground arith in rw same refl

eoi-timer :
    (next : Frame)
    → next.int_no ≡ 32
    → pic_send_eoi ((next.int_no + 256 - 32) % 256) ≡ (0x20, 0x20) ∷ []
unfolding pic_send_eoi
eoi-timer next e = rw e refl

eoi-zero :
    (next : Frame)
    → next.int_no ≡ 0
    → pic_send_eoi ((next.int_no + 256 - 32) % 256) ≡ (0xA0, 0x20) ∷ (0x20, 0x20) ∷ []
unfolding pic_send_eoi
eoi-zero next e = rw e refl

pit_handler-on :
    (t : Timer) (frame : Frame)
    → t.scheduling_enabled ≡ true
    → ((pit_handler t frame).0.scheduler ≡ (schedule t.scheduler frame).0)
      × ((pit_handler t frame).1 ≡ (schedule t.scheduler frame).1)
unfolding pit_handler
pit_handler-on t frame e = simp e (refl, refl)

pit_handler-off :
    (t : Timer) (frame : Frame)
    → t.scheduling_enabled ≡ false
    → ((pit_handler t frame).0.scheduler ≡ t.scheduler) × ((pit_handler t frame).1 ≡ frame)
unfolding pit_handler
pit_handler-off t frame e = simp e (refl, refl)

pit_handler-kept :
    (t : Timer) (frame : Frame)
    → ((pit_handler t frame).0.ticks ≡ (t.ticks + 1) % 2 ^ 64)
      × ((pit_handler t frame).0.kernel_frame_template ≡ frame)
unfolding pit_handler
pit_handler-kept t frame = elim (Bool-cases t.scheduling_enabled) [
  | inl e ↦ simp e (refl, refl)
  | inr e ↦ simp e (refl, refl)
]

-- The timer interrupt from the stub to the scheduler. Once `timer_init` has registered its handler,
-- vector 32 counts a tick, wrapping at 2 ^ 64, and keeps the interrupted frame as the template of
-- new tasks. Where scheduling is enabled the frame that the scheduler loads is resumed, else the same
-- frame. Which controllers are acknowledged is read off the frame that is resumed: a frame that the timer
-- interrupted is acknowledged at the first one only, and the frame of a new task, whose vector is
-- 0, at both.
pub timer_interrupt :
    (t t0 : Timer) (handlers : Handlers Timer) (frequency : ℕ) (frame : Frame)
    → frame.int_no ≡ 32
    → let r = irq_handler (timer_init t0 handlers frequency).1 t frame in
      IsTicked t frame r.0.0 r.0.1 r.1
unfolding timer_init
timer_interrupt t t0 handlers frequency frame e =
    rw
      (irq_eq (register_interrupt_handler handlers 32 pit_handler) pit_handler t frame
        (registered handlers 32 pit_handler frame.int_no e))
      (record {
        counted = (pit_handler-kept t frame).0;
        kept = (pit_handler-kept t frame).1;
        scheduled = pit_handler-on t frame;
        unscheduled = pit_handler-off t frame;
        acknowledged = eoi-timer (pit_handler t frame).1;
        acknowledged_twice = eoi-zero (pit_handler t frame).1;
      })
