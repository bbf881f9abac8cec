-- ===== src/Syscall/Tests.antt =====
-- System calls at concrete frames.
use doomkernel.Prelude.{◌-◌, ◌^◌, ◌≡◌, refl, [], arith}
use doomkernel.Frame.{Frame, zero_frame}
use doomkernel.Syscall.{syscall_num, is_outside, write_syscall, syscall_handler}
use doomkernel.Syscall.Write.{Served, syscall_handler_lem}

-- a write whose end would wrap past 64 bits
abbrev wraps : Frame
wraps = record zero_frame { rax = 1; rdi = 0x400000; rsi = 2 ^ 64 - 16 }

wraps_refused :
    ((syscall_handler 0 7 8 wraps).0.rax ≡ 2 ^ 64 - 1) × ((syscall_handler 0 7 8 wraps).1 ≡ [])
unfolding syscall_handler syscall_num write_syscall is_outside
wraps_refused = (refl, refl)

syscall_handler_lem_example :
    Served 0 7 8 wraps (syscall_handler 0 7 8 wraps).0 (syscall_handler 0 7 8 wraps).1
syscall_handler_lem_example = syscall_handler_lem 0 7 8 wraps (omega arith)
