-- ===== src/Interrupt.antt =====
-- kernel/interrupts/isr.c and `pic_send_eoi` of kernel/interrupts/pic.c: the table of handlers and the
-- two entry points that the assembly stubs call. The state that the handlers change is a parameter;
-- writes to ports are a list of ports and bytes, in order.
pub mod Timer
pub mod Tick
pub mod Dispatch
pub mod Pic
pub mod Masks
mod Tests
use doomkernel.Prelude.{
  ℕ, ◌+◌, ◌-◌, ◌%◌, Option, none, some, List, [], ◌∷◌, ◌++◌, leb, ◌==◌, if◌then◌else◌,
}
use doomkernel.Frame.{Frame}

-- a handler gets a pointer to the frame and may change it
abbrev pub Handler : Type 0 → Type 0
Handler S = S → Frame → S × Frame

-- `interrupt_handlers`; a null pointer is `none`
abbrev pub Handlers : Type 0 → Type 0
Handlers S = ℕ → Option (Handler S)

unfoldable pub register_interrupt_handler : {S : Type 0} → Handlers S → ℕ → Handler S → Handlers S
register_interrupt_handler handlers vector handler =
    λ v. if v == vector then some handler else handlers v

-- the messages of `PANIC`
pub data Fatal : Type 0 where
  double_fault general_protection page_fault unhandled : Fatal

-- `PANIC` does not return
pub data Outcome (S : Type 0) : Type 0 where
  returned : S → Frame → Outcome S
  panicked : Fatal → Frame → Outcome S

-- a call of the handler of a vector, where there is one
unfoldable pub call_or_panic : {S : Type 0} → Option (Handler S) → Fatal → S → Frame → Outcome S
call_or_panic none fatal s frame = panicked fatal frame
call_or_panic (some handler) fatal s frame = let r = handler s frame in returned r.0 r.1

unfoldable pub isr_handler : {S : Type 0} → Handlers S → S → Frame → Outcome S
unfolding call_or_panic
isr_handler handlers s frame =
    if frame.int_no == 8
    then panicked double_fault frame
    else if frame.int_no == 13
    then panicked general_protection frame
    else if frame.int_no == 14
    then call_or_panic (handlers 14) page_fault s frame
    else call_or_panic (handlers frame.int_no) unhandled s frame

unfoldable pub pic_send_eoi : ℕ → List (ℕ × ℕ)
pic_send_eoi irq = (if leb 8 irq then (0xA0, 0x20) ∷ [] else []) ++ ((0x20, 0x20) ∷ [])

unfoldable pub call_if_set : {S : Type 0} → Option (Handler S) → S → Frame → S × Frame
call_if_set none s frame = (s, frame)
call_if_set (some handler) s frame = handler s frame

-- the state and the frame afterwards, and the writes to the interrupt controllers
unfoldable pub irq_handler : {S : Type 0} → Handlers S → S → Frame → (S × Frame) × List (ℕ × ℕ)
unfolding call_if_set pic_send_eoi
irq_handler handlers s frame =
    let r = call_if_set (handlers frame.int_no) s frame in
    (r, pic_send_eoi ((r.1.int_no + 256 - 32) % 256))
