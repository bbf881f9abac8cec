-- ===== src/Panic/Tests.antt =====
-- A page fault of a program in user mode.
use doomkernel.Prelude.{◌+◌, ◌*◌, ◌^◌, ◌≡◌, some, ◌++◌, codes, replicate, arith}
use doomkernel.Terminal.{Terminal}
use doomkernel.Frame.{Frame, zero_frame}
use doomkernel.Printf.Rounds.{shown}
use doomkernel.Panic.{panic}
use doomkernel.Panic.Report.{joined, head_lines, frame_lines, AreWords, panic_lem}

abbrev fault : Frame
fault = record zero_frame { int_no = 14; cs = 0x23; ss = 0x1B; rip = 0x400010; rsp = 0x7FFFF0 }

abbrev screen : Terminal
screen = record {
  cursor_x = 0;
  cursor_y = 0;
  terminal_color = 15;
  terminal_buffer = replicate 2000 0;
}

fault-AreWords : AreWords fault
fault-AreWords = record {
  int_no = omega arith;
  err_code = omega arith;
  rip = omega arith;
  cs = omega arith;
  rflags = omega arith;
  rsp = omega arith;
  ss = omega arith;
}

panic_lem_example :
    panic 0 0xDEAD (codes "Page Fault") (some fault) (codes "isr.c") 38 screen
    ≡ some (
        shown screen (
          joined (head_lines (codes "Page Fault") (codes "isr.c") (38 + 2 ^ 32 * 0))
          ++ joined (frame_lines 0xDEAD (some fault))))
panic_lem_example =
    panic_lem 0 0xDEAD (codes "Page Fault") fault (codes "isr.c") 38 screen (omega arith)
      (omega arith) (omega arith) (omega arith) fault-AreWords
