-- ===== src/Kernel/Boot.antt =====
-- kernel/kernel/kernel.c: the steps of the start that set up the terminal, the tables and the interrupts, and
-- the step into user mode. `sti` and the switch to ring 3 are assembly; the switch is recorded with
-- its operands.
pub mod Steps
mod Tests
use doomkernel.Prelude.{ℕ, ◌+◌, ◌-◌, ◌*◌, ◌/◌, ◌%◌, Option, none, some, List, [], ◌∷◌, codes, ◌>>=◌}
use doomkernel.Memory.{Memory}
use doomkernel.Str.{memcpy}
use doomkernel.Frame.{Frame, zero_frame}
use doomkernel.Terminal.{Terminal, terminal_init}
use doomkernel.Gdt.{Tables, Load, init_gdt}
use doomkernel.Idt.{Gate, Idtr, Stub, idt_init}
use doomkernel.Interrupt.{Handler, Handlers, Outcome, register_interrupt_handler, isr_handler}
use doomkernel.Interrupt.Pic.{pic_remap}
use doomkernel.Syscall.{user_code_base, user_stack_top, syscall_init}
use doomkernel.Syscall.Screen.{serve}
use doomkernel.User.{Machine, come_back}
use doomkernel.Kernel.{say}

unfoldable pub terminal_kernel : Terminal → Option Terminal
unfolding say
terminal_kernel t =
    say (terminal_init t)
      (codes "[terminal] cursors and color set, buffer set to VGA and screen cleared\n") []

unfoldable pub gdt_kernel : ℕ → ℕ → ℕ → Tables → Terminal → Option (Terminal × Tables × List Load)
unfolding say
gdt_kernel gdt_address tss_address stack_top_addr tables t =
    say t (codes "******GDT & TSS******\n") [] >>= λ t1.
    let r = init_gdt gdt_address tss_address stack_top_addr tables in
    say t1 (codes "[gdt & tss] GDT and TSS successfully loaded\n") [] >>= λ t2. some (t2, r.0, r.1)

unfoldable pub breakpoint_handler : Handler Machine
unfolding say
breakpoint_handler (m, screen) frame = (
  (m, screen >>= λ t. say t (codes "[handler] breakpoint caught, resuming execution\n") []),
  frame,
)

unfoldable pub register_breakpoint_handler : Handlers Machine → Handlers Machine
unfolding breakpoint_handler
register_breakpoint_handler handlers = register_interrupt_handler handlers 3 breakpoint_handler

-- the screen, the interrupt table with its register, the writes to the interrupt controllers and the handlers
pub record Interrupts : Type 0 where
  pub screen : Terminal
  pub idt : List Gate
  pub idtr : Idtr
  pub writes : List (ℕ × ℕ)
  pub handlers : Handlers Machine

-- `regs` are the registers at the `int3`.
unfoldable pub interrupt_kernel :
    (Stub → ℕ)
    → ℕ
    → (ℕ → ℕ)
    → Frame
    → List Gate
    → Handlers Machine
    → Memory
    → Terminal
    → Option Interrupts
unfolding say register_breakpoint_handler
interrupt_kernel address idt_address inb regs idt handlers m t =
    say t (codes "******INTERRUPTS******\n") [] >>= λ t1.
    let r = idt_init address idt_address idt in
    let writes = pic_remap inb 0x20 0x28 in
    say t1 (codes "[interrupts] IDT loaded, PIC remapped, interrupts enabled\n") [] >>= λ t2.
    let handlers' = register_breakpoint_handler handlers in
    say t2 (codes "[test] triggering breakpoint\n") [] >>= λ t3.
    come_back (isr_handler handlers' (m, some t3) (record regs { int_no = 3 })) >>= λ s.
    s.1 >>= λ t4. say t4 (codes "[test] we are still alive (no kernel panic)\n") [] >>= λ t5.
    some (record { screen = t5; idt = r.0; idtr = r.1; writes = writes; handlers = handlers' })

-- the operands of `enter_user_mode`, with the memory, the handlers and the screen at that time
pub record Entry : Type 0 where
  pub entry_point : ℕ
  pub user_stack : ℕ
  pub user_cs : ℕ
  pub user_ds : ℕ
  pub mem : Memory
  pub handlers : Handlers Machine
  pub screen : Terminal

-- The addresses of the user text and of its entry are the linker's; `handler` is `syscall_handler`.
unfoldable pub user_mode_kernel :
    ℕ → ℕ → ℕ → Handler Machine → Handlers Machine → Memory → Terminal → Option Entry
unfolding say
user_mode_kernel text_start text_end entry handler handlers m t =
    say t (codes "******USER MODE******\n") [] >>= λ t1.
    let mem = memcpy m user_code_base text_start (text_end - text_start) in
    say t1 (codes "[user mode] jumping into user space\n") [] >>= λ t2. some (record {
      entry_point = user_code_base + (entry - text_start);
      user_stack = user_stack_top;
      user_cs = 0x23;
      user_ds = 0x1B;
      mem = mem;
      handlers = syscall_init handlers handler;
      screen = t2;
    })
