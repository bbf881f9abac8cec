-- ===== src/Syscall.antt =====
-- kernel/arch/x86_64/syscalls/syscall.c: the handler of vector 128. Its calls of `printf` and
-- `terminal_write` are a list of outputs, in order.
pub mod Write
pub mod Screen
mod Tests
use doomkernel.Prelude.{
  ℕ, ◌+◌, ◌-◌, ◌%◌, ◌^◌, Bool, ◌||◌, List, [], ◌∷◌, ltb, leb, ◌==◌, if◌then◌else◌, ◌*◌, codes,
}
use doomkernel.Memory.{sub64}
use doomkernel.Frame.{Frame}
use doomkernel.Printf.{Arg, word}
use doomkernel.Interrupt.{Handlers, Handler, register_interrupt_handler}

abbrev pub user_code_base : ℕ
user_code_base = 0x400000

abbrev pub user_stack_top : ℕ
user_stack_top = 0x800000

abbrev pub sys_write : ℕ
sys_write = 1

abbrev pub sys_exit : ℕ
sys_exit = 60

-- the low 32 bits of `rax`, by which `int syscall_num` is compared with the numbers above
unfoldable pub syscall_num : Frame → ℕ
syscall_num frame = frame.rax % 2 ^ 32

-- the test that refuses a buffer
unfoldable pub is_outside : ℕ → ℕ → Bool
is_outside rdi rsi =
    ltb rdi user_code_base || leb user_stack_top rdi || ltb (sub64 user_stack_top rdi) rsi

-- a call of `printf`, or of `terminal_write` with a buffer and its length
pub data Output : Type 0 where
  message : List ℕ → List Arg → Output
  write : ℕ → ℕ → Output

unfoldable pub write_syscall : Frame → Frame × List Output
unfolding is_outside
write_syscall frame =
    if is_outside frame.rdi frame.rsi then (record frame { rax = 2 ^ 64 - 1 }, []) else (
      record frame { rax = frame.rsi },
      message (codes "[syscall] ") [] ∷ write frame.rdi frame.rsi ∷ [],
    )

-- `resume` is `resume_kernel_func`, `saved` is `saved_kernel_rsp`.
unfoldable pub exit_syscall : ℕ → ℕ → Frame → Frame
exit_syscall resume saved frame = record frame {
  rip = resume;
  cs = 0x08;
  ss = 0x10;
  rsp = saved;
  rflags = 0x202;
}

-- The exit code is passed to `printf` as an `int`, which reads 64 bits: C leaves open what stands in the
-- upper half, here `upper`.
unfoldable pub syscall_handler : ℕ → ℕ → ℕ → Frame → Frame × List Output
unfolding syscall_num write_syscall exit_syscall
syscall_handler upper resume saved frame =
    if syscall_num frame == sys_write
    then write_syscall frame
    else if syscall_num frame == sys_exit
    then (
      exit_syscall resume saved frame,
      message (codes "[syscall] user programm exited with code: %d\n")
            (word (frame.rdi % 2 ^ 32 + 2 ^ 32 * upper) ∷ [])
          ∷ [],
    )
    else (frame, message (codes "[syscall] got a syscall, resuming execution") [] ∷ [])

-- The handler is given to the table of handlers; `resume_kernel_func` is kept in it.
unfoldable pub syscall_init : {S : Type 0} → Handlers S → Handler S → Handlers S
unfolding register_interrupt_handler
syscall_init handlers handler = register_interrupt_handler handlers 128 handler
