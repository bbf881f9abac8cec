-- ===== src/Kernel/Boot/Tests.antt =====
-- The breakpoint and the step into user mode, on an empty screen.
use doomkernel.Prelude.{ℕ, ◌+◌, ◌≡◌, ◌<◌, inr, none, some, List, ◌++◌, replicate, ◌>>=◌, arith}
use doomkernel.Memory.{Memory, load8}
use doomkernel.Frame.{zero_frame}
use doomkernel.Terminal.{Terminal}
use doomkernel.Printf.Rounds.{shown}
use doomkernel.Gdt.{Tables, null_entry, null_tss, init_gdt}
use doomkernel.Gdt.Descriptor.{selected, segment}
use doomkernel.Gdt.Segments.{code_of, data_of}
use doomkernel.Idt.{Gate, Stub, isr, irq, idt_init}
use doomkernel.Interrupt.{Handlers}
use doomkernel.Interrupt.Pic.{pic_remap}
use doomkernel.Syscall.{user_code_base}
use doomkernel.Syscall.Write.{IsUserBuffer}
use doomkernel.Syscall.Screen.{serve}
use doomkernel.User.{Machine, come_back, user_test_entry}
use doomkernel.User.Output.{transcript}
use doomkernel.Kernel.Boot.{register_breakpoint_handler, interrupt_kernel, Entry, user_mode_kernel}
use doomkernel.Kernel.Boot.Steps.{
  loaded_lines, handler_line, alive_line, user_lines, interrupt_kernel_lem, user_mode_kernel_lem,
}

abbrev no_handlers : Handlers Machine
no_handlers = λ v. none

abbrev memory : Memory
memory = λ a. 0

abbrev screen : Terminal
screen = record {
  cursor_x = 0;
  cursor_y = 0;
  terminal_color = 15;
  terminal_buffer = replicate 2000 0;
}

abbrev address : Stub → ℕ
address (isr n) = 0x100000 + n
address (irq n) = 0x200000 + n

abbrev idt : List Gate
idt = replicate 256 (record {
  offset_1 = 0;
  segment_selector = 0;
  ist = 0;
  type = 0;
  offset_2 = 0;
  offset_3 = 0;
  zero_bits = 0;
})

abbrev tables : Tables
tables = record {
  gdt = λ k. null_entry;
  system_tss = null_tss;
  gdtp = record { limit = 0; base = 0 };
}

interrupt_kernel_lem_example :
    interrupt_kernel address 0x6000 (λ p. 0xFF) zero_frame idt no_handlers memory screen
    ≡ some (record {
      screen = shown screen (loaded_lines ++ (handler_line ++ alive_line));
      idt = (idt_init address 0x6000 idt).0;
      idtr = (idt_init address 0x6000 idt).1;
      writes = pic_remap (λ p. 0xFF) 32 40;
      handlers = register_breakpoint_handler no_handlers;
    })
interrupt_kernel_lem_example =
    interrupt_kernel_lem address 0x6000 (λ p. 0xFF) zero_frame idt no_handlers memory screen

on_stack : IsUserBuffer 0x7FFFF0 8
on_stack = record { low = omega arith; start = omega arith; high = omega arith }

user_mode_kernel_lem_example :
    let table = (init_gdt 0x5000 0x123456 0x9000 tables).0 in
    (e : Entry) × (user_mode_kernel 0x108000 0x108200 0x108040
        (serve 0 0x1234 0x9000)
        no_handlers
        memory
        screen
      ≡ some e)
    × (segment (selected table e.user_cs) ≡ code_of 3)
    × (segment (selected table e.user_ds) ≡ data_of 3)
    × (load8 e.mem e.entry_point ≡ load8 memory 0x108040)
    × ((j : ℕ) → j < 0x200 → load8 e.mem (user_code_base + j) ≡ load8 memory (0x108000 + j))
    × (m' : Memory) × (user_test_entry e.handlers zero_frame 0x7FFFF0 (e.mem, some e.screen)
          >>= come_back
        ≡ some (m', some (shown screen (user_lines ++ transcript 0))))
user_mode_kernel_lem_example =
    user_mode_kernel_lem 0 0x1234 0x9000 0x108000 0x108200 0x108040 0x7FFFF0 zero_frame no_handlers
      memory screen 0x5000 0x123456 0x9000 tables (inr (omega arith)) (omega arith) (omega arith)
      (omega arith) on_stack (omega arith)
