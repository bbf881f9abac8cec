-- ===== src/User/Output.antt =====
-- What the user program shows on the terminal, through the interrupt, the handler and `printf`.
use doomkernel.Prelude.{
  ℕ, zero, suc, ◌+◌, ◌*◌, ◌%◌, ◌^◌, ◌<◌, ◌≡◌, refl, sym, ap, ◌∙◌, true, false, Option, some, List,
  [], ◌∷◌, ◌++◌, ltb, codes, ◌>>=◌, arith,
}
use doomkernel.Memory.{Memory, store8}
use doomkernel.Frame.{Frame}
use doomkernel.Terminal.{Terminal}
use doomkernel.Fs.Image.{Held}
use doomkernel.Printf.Rounds.{shown, shown-append}
use doomkernel.Interrupt.{
  Handler, Handlers, returned, isr_handler, call_or_panic, register_interrupt_handler,
}
use doomkernel.Syscall.{syscall_init, syscall_num}
use doomkernel.Syscall.Write.{IsUserBuffer}
use doomkernel.Syscall.Screen.{serve, serve-write, serve-exit, exit_report}
use doomkernel.User.{
  Machine, system_call, store_all, first_msg, come_back, count_loop, user_test_entry,
}
use doomkernel.User.Message.{bytes_at-Held, Held-set, Held-store_all}

-- the message with a digit, and the line that the kernel makes of it
abbrev pub message_with : ℕ → List ℕ
message_with c = codes "count " ++ (c ∷ codes "\n")

abbrev pub line : ℕ → List ℕ
line counter = codes "[syscall] " ++ message_with (b'0' + counter)

-- the next `n` lines
abbrev pub lines : ℕ → ℕ → List ℕ
lines zero counter = []
lines (suc n) counter = line (counter + 1) ++ lines n (counter + 1)

-- An `int 0x80` reaches the handler that was registered.
system_call_lem :
    (others : Handlers Machine) (handler : Handler Machine) (regs : Frame) (s : Machine)
    (num a b : ℕ)
    → let r = handler s (record regs { int_no = 0x80; rax = num; rdi = a; rsi = b }) in
      system_call (syscall_init others handler) regs s num a b ≡ returned r.0 r.1
unfolding system_call isr_handler call_or_panic syscall_init register_interrupt_handler
system_call_lem others handler regs s num a b = refl

module _ (upper resume saved : ℕ) (others : Handlers Machine) (regs : Frame) (msg : ℕ)
    (inside : IsUserBuffer msg 8) where
  abbrev handlers : Handlers Machine
  handlers = syscall_init others (serve upper resume saved)

  write_call :
      (m : Memory) (t : Terminal) (c : ℕ)
      → Held m msg (message_with c)
      → come_back (system_call handlers regs (m, some t) 1 msg 8)
        ≡ some (m, some (shown t (codes "[syscall] " ++ message_with c)))
  unfolding syscall_num
  write_call m t c h =
      let f : Frame = record regs { int_no = 0x80; rax = 1; rdi = msg; rsi = 8 } in
      let served = serve-write upper resume saved m t f (omega (arith, inside.start)) refl inside in
      ap come_back (system_call_lem others (serve upper resume saved) regs (m, some t) 1 msg 8)
      ∙ ap (λ (r : Machine × Frame). some r.0) served
      ∙ ap (λ (bytes : List ℕ). some (m, some (shown t (codes "[syscall] " ++ bytes))))
          (bytes_at-Held m msg (message_with c) h)

  count_loop-goes :
      (fuel counter : ℕ) (s : Machine)
      → ltb counter 5 ≡ true
      → count_loop (suc fuel) handlers regs msg counter s ≡ (
          come_back (
            system_call handlers regs
              (store8 s.0 (msg + 6) ((b'0' + (counter + 1)) % 256), s.1)
              1
              msg
              8)
          >>= count_loop fuel handlers regs msg (counter + 1))
  unfolding count_loop
  count_loop-goes fuel counter (m, screen) goes = rw goes refl

  count_loop-ends :
      (fuel counter : ℕ) (s : Machine)
      → ltb counter 5 ≡ false
      → count_loop (suc fuel) handlers regs msg counter s ≡ some s
  unfolding count_loop
  count_loop-ends fuel counter (m, screen) ends = rw ends refl

  count_loop_lem :
      (n counter c : ℕ) (m : Memory) (t : Terminal)
      → counter + n ≡ 5
      → Held m msg (message_with c)
      → (m' : Memory) × (count_loop (suc n) handlers regs msg counter (m, some t)
          ≡ some (m', some (shown t (lines n counter))))
  count_loop_lem zero counter c m t e h =
      (m, count_loop-ends 0 counter (m, some t) (ground (arith, e)))
  count_loop_lem (suc n) counter c m t e h =
      let d = (b'0' + (counter + 1)) % 256 in
      let digit : d ≡ b'0' + (counter + 1) = omega (arith, e) in
      let m1 = store8 m (msg + 6) d in
      let held : Held m1 msg (message_with d) =
        Held-set m msg 6 d (message_with c) (omega arith) (omega arith) h in
      let t1 = shown t (codes "[syscall] " ++ message_with d) in
      let (m', rest) = count_loop_lem n (counter + 1) d m1 t1 (omega (arith, e)) held in
      (
        m',
        count_loop-goes (suc n) counter (m, some t) (ground (arith, e))
            ∙ ap (λ (o : Option Machine). o >>= count_loop (suc n) handlers regs msg (counter + 1))
                (write_call m1 t d held)
            ∙ rest
            ∙ ap (λ (t' : Terminal). some (m', some t'))
                (sym
                  (shown-append t (codes "[syscall] " ++ message_with d) (lines n (counter + 1))))
            ∙ ap
                (λ (k : ℕ). some (
                  m',
                  some (shown t ((codes "[syscall] " ++ message_with k) ++ lines n (counter + 1))),
                ))
                digit,
      )

  exit_call :
      (m : Memory) (t : Terminal)
      → upper < 2 ^ 31
      → system_call handlers regs (m, some t) 60 0 0
        ≡ returned
            (m, some (shown t (exit_report (2 ^ 32 * upper))))
            (record regs {
              int_no = 0x80;
              rax = 60;
              rdi = 0;
              rsi = 0;
              rip = resume;
              cs = 8;
              ss = 16;
              rsp = saved;
              rflags = 0x202;
            })
  unfolding syscall_num
  exit_call m t u =
      let f : Frame = record regs { int_no = 0x80; rax = 60; rdi = 0; rsi = 0 } in
      let whole : 0 % 2 ^ 32 + 2 ^ 32 * upper ≡ 2 ^ 32 * upper = omega arith in
      system_call_lem others (serve upper resume saved) regs (m, some t) 60 0 0
      ∙ ap (λ (r : Machine × Frame). returned r.0 r.1)
          (serve-exit upper resume saved m t f (omega arith) u refl)
      ∙ ap
          (λ (code : ℕ).
            returned (m, some (shown t (exit_report code)))
              (record f { rip = resume; cs = 8; ss = 16; rsp = saved; rflags = 0x202 }))
          whole

-- what the program shows: five lines and the report of its exit
abbrev pub transcript : ℕ → List ℕ
transcript upper =
    codes
      "[syscall] count 1\n[syscall] count 2\n[syscall] count 3\n[syscall] count 4\n[syscall] count 5\n"
    ++ exit_report (2 ^ 32 * upper)

-- The program in user mode, with its message on its own memory, once `syscall_init` has registered the
-- handler: whatever the other handlers, the memory, the registers and the terminal, its loop ends
-- within its fuel, the five counts and the report of the exit are shown in order, and the exit comes
-- back to the kernel, at `resume`, on the segments and the stack of the kernel.
pub user_test_entry_lem :
    (upper resume saved : ℕ) (others : Handlers Machine) (regs : Frame) (msg : ℕ) (m : Memory)
    (t : Terminal)
    → IsUserBuffer msg 8
    → upper < 2 ^ 31
    → (m' : Memory) × (user_test_entry
          (syscall_init others (serve upper resume saved))
          regs
          msg
          (m, some t)
        ≡ some (
            returned
              (m', some (shown t (transcript upper)))
              (record regs {
                int_no = 0x80;
                rax = 60;
                rdi = 0;
                rsi = 0;
                rip = resume;
                cs = 8;
                ss = 16;
                rsp = saved;
                rflags = 0x202;
              })))
unfolding user_test_entry
user_test_entry_lem upper resume saved others regs msg m t inside u =
    let first = Held-store_all m msg first_msg (
      omega arith,
      (
        omega arith,
        (
          omega arith,
          (omega arith, (omega arith, (omega arith, (omega arith, (omega arith, tt))))),
        ),
      ),
    ) in
    let (m', counted) =
      count_loop_lem upper resume saved others regs msg inside 5 0 b'0' (store_all m msg first_msg)
        t (omega arith) first in
    (
      m',
      ap
            (λ (o : Option Machine). o >>= λ s.
              some (system_call (syscall_init others (serve upper resume saved)) regs s 60 0 0))
            counted
          ∙ ap some (exit_call upper resume saved others regs msg inside m' (shown t (lines 5 0)) u)
          ∙ ap
              (λ (t' : Terminal). some (
                returned (m', some t')
                  (record regs {
                    int_no = 0x80;
                    rax = 60;
                    rdi = 0;
                    rsi = 0;
                    rip = resume;
                    cs = 8;
                    ss = 16;
                    rsp = saved;
                    rflags = 0x202;
                  })))
              (sym (shown-append t (lines 5 0) (exit_report (2 ^ 32 * upper)))),
    )
