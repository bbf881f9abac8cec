-- ===== src/User.antt =====
-- kernel/kernel/user_code.c: the program that the kernel runs in user mode. An `int 0x80` is a call of the
-- entry point of the interrupts (`isr_handler`) with the registers of the program.
pub mod Message
pub mod Output
mod Tests
use doomkernel.Prelude.{
  ℕ, zero, suc, ◌+◌, ◌%◌, Option, none, some, List, [], ◌∷◌, ltb, if◌then◌else◌, codes, ◌>>=◌,
}
use doomkernel.Memory.{Memory, store8}
use doomkernel.Frame.{Frame}
use doomkernel.Terminal.{Terminal}
use doomkernel.Interrupt.{Handlers, Outcome, returned, panicked, isr_handler}
use doomkernel.Syscall.{sys_write, sys_exit}

-- the memory and the terminal; `none` is a terminal that a call has not come back to
abbrev pub Machine : Type 0
Machine = Memory × Option Terminal

-- `regs` are the other registers of the program
unfoldable pub system_call : Handlers Machine → Frame → Machine → ℕ → ℕ → ℕ → Outcome Machine
unfolding isr_handler
system_call handlers regs s num a b =
    isr_handler handlers s (record regs { int_no = 0x80; rax = num; rdi = a; rsi = b })

-- the bytes of an array, one after the other
unfoldable pub store_all : Memory → ℕ → List ℕ → Memory
store_all m a [] = m
store_all m a (c ∷ cs) = store_all (store8 m a c) (a + 1) cs

-- {'c', 'o', 'u', 'n', 't', ' ', '0', '\n'}
abbrev pub first_msg : List ℕ
first_msg = codes "count 0\n"

abbrev pub come_back : Outcome Machine → Option Machine
come_back (returned s frame) = some s
come_back (panicked fatal frame) = none

-- while (counter < 5) on fuel
unfoldable pub count_loop : ℕ → Handlers Machine → Frame → ℕ → ℕ → Machine → Option Machine
unfolding system_call
count_loop zero handlers regs msg counter s = none
count_loop (suc fuel) handlers regs msg counter (m, screen) =
    let m' = store8 m (msg + 6) ((b'0' + (counter + 1)) % 256) in
    let rest =
      come_back (system_call handlers regs (m', screen) sys_write msg 8)
      >>= count_loop fuel handlers regs msg (counter + 1) in
    if ltb counter 5 then rest else some (m, screen)

-- `msg` is the address of the array. The endless loop behind the exit is not reached.
unfoldable pub user_test_entry : Handlers Machine → Frame → ℕ → Machine → Option (Outcome Machine)
unfolding count_loop store_all system_call
user_test_entry handlers regs msg (m, screen) =
    count_loop 6 handlers regs msg 0 (store_all m msg first_msg, screen) >>= λ s.
    some (system_call handlers regs s sys_exit 0 0)
