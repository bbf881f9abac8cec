-- ===== src/Kernel.antt =====
-- kernel/kernel/kernel.c: the steps of the start of the kernel that print, wait and read files.
pub mod Say
pub mod Strings
pub mod Files
pub mod Unmounted
pub mod Echo
pub mod Wait
pub mod Boot
pub mod Heap
mod Tests
use doomkernel.Prelude.{
  ℕ, zero, suc, ◌+◌, ◌*◌, ◌%◌, ◌^◌, ltb, Option, none, some, List, [], ◌∷◌, ◌++◌, ◌==◌,
  if◌then◌else◌, codes, replicate, ◌>>=◌,
}
use doomkernel.Memory.{Memory, load8, sub64}
use doomkernel.Terminal.{Terminal, terminal_put_char}
use doomkernel.Printf.{Arg, word, text, printf}
use doomkernel.Keyboard.{Keyboard, keyboard_init, keyboard_get_key}
use doomkernel.Frame.{Frame}
use doomkernel.Interrupt.{Handlers, irq_handler}
use doomkernel.Interrupt.Timer.{Timer, timer_init, scheduler_enable}
use doomkernel.Str.{memcmp}
use doomkernel.Fs.{Fs, is_zero, size, fs_init, fs_read, fs_get_data}
use doomkernel.Syscall.Screen.{on_screen}
use doomkernel.User.{store_all}

-- a call of `printf` whose result is not used
unfoldable pub say : Terminal → List ℕ → List Arg → Option Terminal
say t format args = on_screen (printf t format args)

-- the C string at an address, which ends within `n` bytes
unfoldable pub c_string : ℕ → Memory → ℕ → Option (List ℕ)
c_string zero m a = none
c_string (suc n) m a =
    let rest = c_string n m (a + 1) in
    if load8 m a == 0 then some [] else rest >>= λ s. some (load8 m a ∷ s)

-- char query[32] = "doom.txt"
abbrev pub doom_query : List ℕ
doom_query = codes "doom.txt" ++ replicate 24 0

-- for (i = 0; i < entry->size; i++) terminal_put_char(data[i])
unfoldable pub data_loop : ℕ → Memory → ℕ → Terminal → Terminal
data_loop zero m data_address t = t
data_loop (suc n) m data_address t =
    data_loop n m (data_address + 1) (terminal_put_char t (load8 m data_address))

-- The size is passed as a `uint32_t` to a directive that reads 64 bits: `upper` stands in the others.
unfoldable pub show_entry : ℕ → Fs → Memory → ℕ → Terminal → Option Terminal
unfolding say c_string data_loop
show_entry upper fs m entry t = c_string 32 m entry >>= λ name.
    say t (codes "[fs] %s with size = %x\n") (text name ∷ word (size m entry + 2 ^ 32 * upper) ∷ [])
    >>= λ t'. say (data_loop (size m entry) m (fs_get_data fs m entry) t') (codes "\n") []

unfoldable pub not_found : Memory → ℕ → Terminal → Option Terminal
unfolding say c_string
not_found m query t =
    c_string 32 m query >>= λ name. say t (codes "[fs] %s file not found\n") (text name ∷ [])

-- what `fs_init` prints
unfoldable pub mount_message : Memory → ℕ → ℕ → Terminal → Option Terminal
unfolding say
mount_message m dfs1 initrd_addr t =
    if is_zero (memcmp m initrd_addr dfs1 4)
    then some t
    else say t (codes "[fs] invalid magic for initrd so the fs isnt going to be mounted\n") []

-- `dfs1` and `query` are the addresses of the literal "DFS1" and of the array on the stack.
unfoldable pub filesystem_kernel :
    ℕ → ℕ → ℕ → ℕ → Fs → Memory → Terminal → Option (Fs × Memory × Terminal)
unfolding say store_all mount_message show_entry not_found
filesystem_kernel upper dfs1 query initrd_addr fs m t =
    let fs' = fs_init fs m dfs1 initrd_addr in
    let m' = store_all m query doom_query in
    let entry = fs_read fs' m' query in
    say t (codes "******FILESYSTEM******\n") [] >>= λ t1.
    mount_message m dfs1 initrd_addr t1 >>= λ t2.
    (if entry == 0 then not_found m' query t2 else show_entry upper fs' m' entry t2) >>= λ t3.
    some (fs', m', t3)

-- do { ... } while (typed != 27) on fuel; `none` also means that the keyboard is waited for still
unfoldable pub echo_loop : ℕ → List ℕ → Keyboard → Terminal → Option (Terminal × Keyboard × List ℕ)
echo_loop zero arriving k t = none
echo_loop (suc fuel) arriving k t = keyboard_get_key arriving k >>= λ r.
    let typed = r.0 % 256 in
    let t' = terminal_put_char t typed in
    let rest = echo_loop fuel r.2 r.1 t' in if typed == 27 then some (t', r.1, r.2) else rest

-- `arriving` are the scancodes that arrive while the keyboard is waited for.
unfoldable pub keyboard_kernel :
    ℕ → List ℕ → Keyboard → Terminal → Option (Terminal × Keyboard × List ℕ)
unfolding say echo_loop
keyboard_kernel fuel arriving k t = say t (codes "******KEYBOARD******\n") [] >>= λ t1.
    say t1 (codes "[keyboard] irq1 registered\n") [] >>= λ t2.
    say t2 (codes "[test] type something and press escape to stop\n") [] >>= λ t3.
    echo_loop fuel arriving (keyboard_init k) t3 >>= λ r.
    say r.0 (codes "\n") [] >>= λ t4. some (t4, r.1, r.2)

-- while (ticks - start < 300) hlt, where each interrupt that wakes the processor is the timer's, with
-- the frame that it interrupts; `none` means that it waits still
unfoldable pub wait_loop : ℕ → Handlers Timer → List Frame → Timer → Option (Timer × List Frame)
unfolding irq_handler
wait_loop start handlers [] timer =
    if ltb (sub64 timer.ticks start) 300 then none else some (timer, [])
wait_loop start handlers (frame ∷ frames) timer =
    let r = irq_handler handlers timer (record frame { int_no = 32 }) in
    let rest = wait_loop start handlers frames r.0.0 in
    if ltb (sub64 timer.ticks start) 300 then rest else some (timer, frame ∷ frames)

-- the timer and the screen after the wait, the writes of `timer_init`, and the interrupts that come later
unfoldable pub timer_kernel :
    List Frame
    → Handlers Timer
    → Timer
    → Terminal
    → Option (Timer × Terminal × List (ℕ × ℕ) × List Frame)
unfolding say wait_loop
timer_kernel frames handlers timer t = say t (codes "******TIMER******\n") [] >>= λ t1.
    let r = timer_init timer handlers 100 in
    say t1 (codes "[timer] timer pit initialized with 100hz\n") [] >>= λ t2.
    wait_loop r.0.ticks r.1 frames r.0 >>= λ s.
    say t2 (codes "[timer] 300 ticks passed (3 seconds) so the timer is alive!\n") [] >>= λ t3.
    some (s.0, t3, r.2, s.1)

unfoldable pub tasks_kernel : Timer → Terminal → Option (Timer × Terminal)
unfolding say
tasks_kernel timer t = say t (codes "******TASKS******\n") [] >>= λ t1.
    say t1 (codes "[tasks] created two test tasks which print A and B\n") [] >>= λ t2.
    some (scheduler_enable timer, t2)
