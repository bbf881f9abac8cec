-- ===== src/Lib.antt =====
-- Doomkernel: the parts of the kernel whose behaviour is pure state and memory, modelled from the C
-- code, with the theorems that make them correct.
--
-- The parts and how they interact. The C library of the kernel gives the memory functions
-- (libc/string) and the heap (libc/stdlib). The heap lies in the flat memory and is placed by
-- `memory_init` from the memory map of the boot loader. The scheduler (kernel/task/task.c) takes the
-- stacks of its tasks from the heap and is driven by the timer interrupt, which hands it the frame
-- that was interrupted (kernel/include/interrupts/isr.h) through the dispatch of kernel/interrupts/isr.c
-- and the handler of kernel/timer/pit.c. The keyboard driver (kernel/drivers/keyboard.c) is driven by
-- its own interrupt and read by the kernel. The file system (kernel/fs/fs.c) reads the image that
-- tools/pack_initrd.c makes, and the system calls serve a program in user mode. All parts print with
-- `printf` (libc/stdio) on the terminal (kernel/arch/x86_64/tty.c). The segment table (kernel/gdt/gdt.c)
-- and the interrupt table (kernel/interrupts/idt.c) tell the processor where the code, the stack of
-- the kernel and the interrupt stubs are.
--
-- Files:
--   * Prelude and its children: the shared names, tests on numbers, lists by index, signed values.
--   * Memory: the memory, a function from addresses to bytes, with little-endian loads and stores;
--     Memory/Laws has what a store leaves alone. `uint64_t` sums and differences wrap at 2 ^ 64.
--   * Str: libc/string/memset.c, memcpy.c, memmove.c, memcmp.c and strlen.c. A function of the C code
--     has its name here. Children: one for each kind of property.
--   * Alloc: libc/stdlib/malloc.c, calloc.c, free.c and realloc.c. The record `Heap` holds the globals
--     heap_beginning, heap_end, last_alloc and memory_used and the memory. `walk` is the loop of
--     `malloc` and `calloc`, `reuse` and `extend` its two ends, `find_loop` the loop of `find_before`.
--     Alloc/Block is the abstract heap, a list of blocks; Alloc/Header and Alloc/Invariant relate the
--     memory to it. Alloc/Mmap is `memory_init`.
--   * Keyboard: kernel/drivers/keyboard.c. The record `Keyboard` holds its static variables; the byte
--     that the handler reads from port 0x60 is an argument.
--   * Terminal: kernel/arch/x86_64/tty.c and vga.h. The record `Terminal` holds the globals, the video memory
--     is a list of 2000 cells. Terminal/Sheet is the endless sheet that the screen is a window of.
--   * Printf: libc/stdio/printf.c, putchar.c and puts.c. A round of the loop is a `Step`; Printf/Number has
--     the texts of numbers, Printf/Hex and Printf/Decimal read them back. Printf/Render describes
--     the printed text one character of the format at a time, Printf/Equivalence relates the two.
--   * Snprintf: libc/stdio/snprintf.c over the memory, with Snprintf/Safety and Snprintf/Equivalence.
--     Its count of characters is an `int` that wraps.
--   * Gdt: kernel/gdt/gdt.c. Gdt/Descriptor is how the processor reads an entry.
--   * Idt: kernel/interrupts/idt.c. The addresses of the stubs are a parameter.
--   * Frame: `interrupt_frame_t`.
--   * Interrupt: kernel/interrupts/isr.c and `pic_send_eoi`; Interrupt/Pic has the rest of
--     kernel/interrupts/pic.c, and Interrupt/Timer is kernel/timer/pit.c. The state of the handlers is a parameter of the table of handlers.
--   * Fs: kernel/fs/fs.c over the memory and tools/pack_initrd.c over lists of bytes; Fs/Pack joins them.
--   * Syscall: kernel/arch/x86_64/syscalls/syscall.c; Syscall/Screen does its outputs on the terminal.
--   * User: kernel/kernel/user_code.c. User/Output follows a system call from the program through the
--     dispatch and the handler to the screen.
--   * Kernel: kernel/kernel/kernel.c. The file listing, the keyboard echo, the wait for the timer and
--     `tasks_kernel` are in Kernel itself, Kernel/Heap is `memory_kernel` with the messages of
--     `memory_init`, and Kernel/Boot the set-up of the terminal, the tables and the interrupts, and
--     the step into user mode.
--   * Panic: libc/panic.c. The calls of `printf` are lists of formats with their arguments.
--   * Task: kernel/task/task.c. The record `Scheduler` holds the table, the current task, the count, the
--     flag of the scheduler and the heap. Task/Next and Task/Schedule are about the round robin,
--     Task/Create about `task_create`, and Task/Roster, Task/Release, Task/Current, Task/Removal,
--     Task/Stacks and Task/Reap about `task_reap`. Task/Steps puts all operations together as a step relation.
--
-- Fuel. A walk over the heap has as many rounds as there are addresses up to `last_alloc`, and one
-- more: each block that it passes has at least a header, so a walk over a heap ends before. `task_reap`
-- has one round more than there are tasks: each round passes a task or removes one. `strlen`, which
-- has no bound in the code, takes its fuel as an argument. `printf` and `snprintf` have one round more
-- than the format has characters: each round uses up one at least. The digit loop has 20 rounds, which
-- the largest 64-bit number does not need. The loop of the user program has six rounds, the keyboard echo
-- more rounds than characters are typed before the escape. `keyboard_get_key` waits for interrupts; the
-- scancodes that arrive are a list, and `none` means that it waits still. A result `none` of a walk
-- means that it did not end, never an error of the code: errors of the heap are null pointers. Only
-- `task_get_next_id` and `pack` have `none` for -1 and for the exit status 1.
--
-- Bounds. The heap ends below 2 ^ 62, so that no sum of an address and a size wraps; the code maps
-- 1 GiB. Sizes accepted are at most INT_MAX - 15. The ring holds 255 of its 256 bytes.
-- The buffer of `snprintf` has at most 2^31 bytes, as an `int` counts them, and ends in the address space.
--
-- Not modelled: the boot loader and the assembly stubs, the message of a full table of tasks, the interrupt
-- flag, the endless loops of the idle tasks, the demo tasks, which are never created, `kernel_main`
-- with the order of its steps, and the switch to user mode and back.
pub mod Prelude
pub mod Memory
pub mod Str
pub mod Alloc
pub mod Keyboard
pub mod Frame
pub mod Terminal
pub mod Printf
pub mod Snprintf
pub mod Gdt
pub mod Idt
pub mod User
pub mod Kernel
pub mod Panic
pub mod Task
pub mod Fs
pub mod Syscall
pub mod Interrupt
