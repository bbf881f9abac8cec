-- ===== src/User/Tests.antt =====
-- The user program at a concrete address.
use doomkernel.Prelude.{◌≡◌, none, some, replicate, arith}
use doomkernel.Memory.{Memory}
use doomkernel.Frame.{zero_frame}
use doomkernel.Terminal.{Terminal}
use doomkernel.Printf.Rounds.{shown}
use doomkernel.Interrupt.{Handlers, returned}
use doomkernel.Syscall.{syscall_init}
use doomkernel.Syscall.Write.{IsUserBuffer}
use doomkernel.Syscall.Screen.{serve}
use doomkernel.User.{Machine, user_test_entry}
use doomkernel.User.Output.{transcript, user_test_entry_lem}

abbrev no_handlers : Handlers Machine
no_handlers = λ v. none

abbrev screen : Terminal
screen = record {
  cursor_x = 0;
  cursor_y = 0;
  terminal_color = 15;
  terminal_buffer = replicate 2000 0;
}

on_stack : IsUserBuffer 0x7FFFF0 8
on_stack = record { low = omega arith; start = omega arith; high = omega arith }

user_test_entry_lem_example :
    (m' : Memory) × (user_test_entry
        (syscall_init no_handlers (serve 0 0x1234 0x9000))
        zero_frame
        0x7FFFF0
        ((λ a. 0), some screen)
      ≡ some (
          returned
            (m', some (shown screen (transcript 0)))
            (record zero_frame {
              int_no = 0x80;
              rax = 60;
              rdi = 0;
              rsi = 0;
              rip = 0x1234;
              cs = 8;
              ss = 16;
              rsp = 0x9000;
              rflags = 0x202;
            })))
user_test_entry_lem_example =
    user_test_entry_lem 0 0x1234 0x9000 no_handlers zero_frame 0x7FFFF0 (λ a. 0) screen on_stack
      (omega arith)
