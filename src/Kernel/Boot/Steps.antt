-- ===== src/Kernel/Boot/Steps.antt =====
-- What the steps of the start leave, and the program that they start.
use doomkernel.Prelude.{
  ℕ, ◌+◌, ◌-◌, ◌^◌, ◌≤◌, ◌<◌, ◌≡◌, ◌⊎◌, refl, sym, ap, ◌∙◌, Option, some, List, ◌++◌, codes, ◌>>=◌,
  arith,
}
use doomkernel.Memory.{Memory, load8}
use doomkernel.Str.{memcpy}
use doomkernel.Str.Copy.{memcpy_lem}
use doomkernel.Frame.{Frame}
use doomkernel.Terminal.{Terminal}
use doomkernel.Printf.Render.{render}
use doomkernel.Printf.Rounds.{shown, shown-append}
use doomkernel.Gdt.{Tables, init_gdt}
use doomkernel.Gdt.Descriptor.{selected, segment}
use doomkernel.Gdt.Segments.{code_of, data_of, init_gdt-Segments}
use doomkernel.Idt.{Gate, Stub, idt_init}
use doomkernel.Interrupt.{
  Handler, Handlers, Outcome, isr_handler, call_or_panic, register_interrupt_handler,
}
use doomkernel.Interrupt.Pic.{pic_remap}
use doomkernel.Syscall.{user_code_base, syscall_init}
use doomkernel.Syscall.Write.{IsUserBuffer}
use doomkernel.Syscall.Screen.{serve}
use doomkernel.User.{Machine, come_back, user_test_entry}
use doomkernel.User.Output.{transcript, user_test_entry_lem}
use doomkernel.Kernel.Say.{say-plain}
use doomkernel.Kernel.Boot.{
  breakpoint_handler, register_breakpoint_handler, interrupt_kernel, Entry, user_mode_kernel,
}

-- the lines of `interrupt_kernel` up to the breakpoint, that of the handler, and that behind it
abbrev pub loaded_lines : List ℕ
loaded_lines =
    codes "******INTERRUPTS******\n"
    ++ (codes "[interrupts] IDT loaded, PIC remapped, interrupts enabled\n"
        ++ codes "[test] triggering breakpoint\n")

abbrev pub handler_line : List ℕ
handler_line = codes "[handler] breakpoint caught, resuming execution\n"

abbrev pub alive_line : List ℕ
alive_line = codes "[test] we are still alive (no kernel panic)\n"

-- An `int3` reaches the handler just registered, which shows its line and comes back.
breakpoint_lem :
    (handlers : Handlers Machine) (regs : Frame) (m : Memory) (t : Terminal)
    → come_back (
        isr_handler (register_breakpoint_handler handlers) (m, some t) (record regs { int_no = 3 }))
      ≡ some (m, some (shown t handler_line))
unfolding register_breakpoint_handler breakpoint_handler isr_handler call_or_panic
    register_interrupt_handler render
breakpoint_lem handlers regs m t =
    ap (λ (o : Option Terminal). some (m, o)) (say-plain t handler_line refl (omega arith))

-- `interrupt_kernel` comes to its end: the breakpoint that it raises is caught by the handler that it
-- has just registered, whatever the others, and the screen shows its lines, that of the handler between them.
-- The interrupt table is that of `idt_init`, and the controllers are written to as by
-- `pic_remap` for the vectors from 32 on.
pub interrupt_kernel_lem :
    (address : Stub → ℕ) (idt_address : ℕ) (inb : ℕ → ℕ) (regs : Frame) (idt : List Gate)
    (handlers : Handlers Machine) (m : Memory) (t : Terminal)
    → interrupt_kernel address idt_address inb regs idt handlers m t
      ≡ some (record {
        screen = shown t (loaded_lines ++ (handler_line ++ alive_line));
        idt = (idt_init address idt_address idt).0;
        idtr = (idt_init address idt_address idt).1;
        writes = pic_remap inb 32 40;
        handlers = register_breakpoint_handler handlers;
      })
unfolding interrupt_kernel render
interrupt_kernel_lem address idt_address inb regs idt handlers m t =
    let t1 = shown t (codes "******INTERRUPTS******\n") in
    let t2 = shown t1 (codes "[interrupts] IDT loaded, PIC remapped, interrupts enabled\n") in
    let t3 = shown t2 (codes "[test] triggering breakpoint\n") in
    rw
      (
        say-plain t (codes "******INTERRUPTS******\n") refl (omega arith),
        say-plain t1 (codes "[interrupts] IDT loaded, PIC remapped, interrupts enabled\n") refl
            (omega arith),
        say-plain t2 (codes "[test] triggering breakpoint\n") refl (omega arith),
        breakpoint_lem handlers regs m t3,
        say-plain (shown t3 handler_line) alive_line refl (omega arith),
      )
      refl

abbrev pub user_lines : List ℕ
user_lines = codes "******USER MODE******\n" ++ codes "[user mode] jumping into user space\n"

-- where `user_mode_kernel` enters user mode
abbrev pub entered : ℕ → ℕ → ℕ → Handlers Machine → Memory → Terminal → Entry
entered text_start text_end entry handlers m t = record {
  entry_point = user_code_base + (entry - text_start);
  user_stack = 0x800000;
  user_cs = 0x23;
  user_ds = 0x1B;
  mem = memcpy m user_code_base text_start (text_end - text_start);
  handlers = handlers;
  screen = shown t user_lines;
}

user_mode_kernel-entered :
    (text_start text_end entry : ℕ) (handler : Handler Machine) (handlers : Handlers Machine)
    (m : Memory) (t : Terminal)
    → user_mode_kernel text_start text_end entry handler handlers m t
      ≡ some (entered text_start text_end entry (syscall_init handlers handler) m t)
unfolding user_mode_kernel render
user_mode_kernel-entered text_start text_end entry handler handlers m t =
    rw
      (
        say-plain t (codes "******USER MODE******\n") refl (omega arith),
        say-plain (shown t (codes "******USER MODE******\n"))
            (codes "[user mode] jumping into user space\n") refl (omega arith),
      )
      refl

-- `user_mode_kernel` with a user text that lies apart from where it is copied to: the program is entered in
-- ring 3, by the segments that `init_gdt` put under its selectors, at the instruction that stands at its
-- entry in the user text, and every byte of the text stands as far from the start as it did.
-- The program, with its message in the user part of the memory, ends
-- with its counts and its exit on the screen, behind the two lines of the kernel.
pub user_mode_kernel_lem :
    (upper resume saved text_start text_end entry msg : ℕ) (regs : Frame)
    (handlers : Handlers Machine) (m : Memory) (t : Terminal) (gdt_address tss_address top : ℕ)
    (tables : Tables)
    → (user_code_base ≤ text_start) ⊎ (text_start + (text_end - text_start) ≤ user_code_base)
    → text_start ≤ entry
    → entry < text_end
    → tss_address < 2 ^ 64
    → IsUserBuffer msg 8
    → upper < 2 ^ 31
    → let table = (init_gdt gdt_address tss_address top tables).0 in
      (e : Entry) × (user_mode_kernel text_start text_end entry
          (serve upper resume saved)
          handlers
          m
          t
        ≡ some e)
      × (segment (selected table e.user_cs) ≡ code_of 3)
      × (segment (selected table e.user_ds) ≡ data_of 3)
      × (load8 e.mem e.entry_point ≡ load8 m entry)
      × ((j : ℕ)
          → j < text_end - text_start
          → load8 e.mem (user_code_base + j) ≡ load8 m (text_start + j))
      × (m' : Memory) × (user_test_entry e.handlers regs msg (e.mem, some e.screen) >>= come_back
          ≡ some (m', some (shown t (user_lines ++ transcript upper))))
user_mode_kernel_lem upper resume saved text_start text_end entry msg regs handlers m t gdt_address
      tss_address top tables apart low high w inside u =
    let (null, code0, data0, data3, code3, task, limit, type, stack, end, loads) =
      init_gdt-Segments gdt_address tss_address top tables w in
    let e =
      entered text_start text_end entry (syscall_init handlers (serve upper resume saved)) m t in
    let (m', run) =
      user_test_entry_lem upper resume saved handlers regs msg e.mem e.screen inside u in
    (
      e,
      user_mode_kernel-entered text_start text_end entry (serve upper resume saved) handlers m t,
      code3,
      data3,
      memcpy_lem m user_code_base text_start (text_end - text_start) (entry - text_start) apart
            (omega (arith, low, high))
          ∙ ap (load8 m) (omega (arith, low)),
      (λ j h. memcpy_lem m user_code_base text_start (text_end - text_start) j apart h),
      m',
      ap (λ (o : Option (Outcome Machine)). o >>= come_back) run
          ∙ ap (λ (t' : Terminal). some (m', some t'))
              (sym (shown-append t user_lines (transcript upper))),
    )
