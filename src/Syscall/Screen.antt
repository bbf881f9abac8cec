-- ===== src/Syscall/Screen.antt =====
-- What the system calls show on the terminal.
use doomkernel.Prelude.{
  ℕ, zero, suc, ◌+◌, ◌%◌, ◌^◌, ◌≤◌, ◌<◌, ◌≡◌, refl, sym, ap, ◌∙◌, false, Option, none, some, List,
  [], ◌∷◌, ◌++◌, map, length, length-append, ◌*◌, codes, ◌>>=◌, arith,
}
use doomkernel.Memory.{Memory, load8}
use doomkernel.Frame.{Frame}
use doomkernel.Terminal.{Terminal, terminal_write}
use doomkernel.Printf.{Arg, word, Result, returned, panicked, undefined, printf}
use doomkernel.Printf.Number.{decimal_text}
use doomkernel.Printf.Render.{printf_convert, render}
use doomkernel.Printf.Rounds.{shown, shown-append, shown-write}
use doomkernel.Printf.Decimal.{read-decimal_text}
use doomkernel.Printf.Equivalence.{printf-render}
use doomkernel.Interrupt.{Handler}
use doomkernel.Syscall.{Output, message, write, syscall_num, syscall_handler}
use doomkernel.Syscall.Write.{IsUserBuffer, syscall_handler_lem}

-- the `n` bytes at `a`, which `terminal_write` reads
unfoldable pub bytes_at : ℕ → Memory → ℕ → List ℕ
bytes_at zero m a = []
bytes_at (suc n) m a = load8 m a ∷ bytes_at n m (a + 1)

-- `none` for a call that does not come back
abbrev pub on_screen : Option Result → Option Terminal
on_screen none = none
on_screen (some (returned t n)) = some t
on_screen (some (panicked t)) = none
on_screen (some undefined) = none

-- the outputs of a system call, done in their order
unfoldable pub perform : Memory → Terminal → List Output → Option Terminal
unfolding bytes_at
perform m t [] = some t
perform m t (message format args ∷ outputs) =
    on_screen (printf t format args) >>= λ t'. perform m t' outputs
perform m t (write buf len ∷ outputs) = perform m (terminal_write t (bytes_at len m buf)) outputs

-- the handler on a state of the memory and of the terminal
unfoldable pub serve : ℕ → ℕ → ℕ → Handler (Memory × Option Terminal)
unfolding perform
serve upper resume saved (m, screen) frame =
    let r = syscall_handler upper resume saved frame in ((m, screen >>= λ t. perform m t r.1), r.0)

map-bytes_at : (n : ℕ) (m : Memory) (a : ℕ) → map (λ c. c % 256) (bytes_at n m a) ≡ bytes_at n m a
unfolding bytes_at load8
map-bytes_at zero m a = refl
map-bytes_at (suc n) m a =
    let byte : m a % 256 % 256 ≡ m a % 256 = omega arith in
    rw byte (ap (λ (xs : List ℕ). m a % 256 ∷ xs) (map-bytes_at n m (a + 1)))

shown-bytes_at :
    (t : Terminal) (n : ℕ) (m : Memory) (a : ℕ)
    → terminal_write t (bytes_at n m a) ≡ shown t (bytes_at n m a)
shown-bytes_at t n m a =
    ap (terminal_write t) (sym (map-bytes_at n m a)) ∙ sym (shown-write t (bytes_at n m a))

prefix-render :
    (args : List Arg)
    → render printf_convert false (codes "[syscall] ") args ≡ some (codes "[syscall] ")
unfolding render
prefix-render args = refl

perform_lem :
    (m : Memory) (t : Terminal) (buf len : ℕ)
    → perform m t (message (codes "[syscall] ") [] ∷ write buf len ∷ [])
      ≡ some (shown t (codes "[syscall] " ++ bytes_at len m buf))
unfolding perform
perform_lem m t buf len =
    ap (λ (o : Option Result). on_screen o >>= λ t'. perform m t' (write buf len ∷ []))
      (printf-render t (codes "[syscall] ") [] (codes "[syscall] ") (prefix-render [])
        (omega arith))
    ∙ ap some (
        shown-bytes_at (shown t (codes "[syscall] ")) len m buf
        ∙ sym (shown-append t (codes "[syscall] ") (bytes_at len m buf)))

-- A write of a buffer of the program shows its bytes behind "[syscall] ".
pub serve-write :
    (upper resume saved : ℕ) (m : Memory) (t : Terminal) (f : Frame)
    → f.rdi < 2 ^ 64
    → syscall_num f ≡ 1
    → IsUserBuffer f.rdi f.rsi
    → serve upper resume saved (m, some t) f ≡ (
      (m, some (shown t (codes "[syscall] " ++ bytes_at f.rsi m f.rdi))),
      record f { rax = f.rsi },
    )
unfolding serve
serve-write upper resume saved m t f w n b =
    let (outputs, frame) = (syscall_handler_lem upper resume saved f w).write_inside n b in
    rw (outputs, frame)
      (ap (λ (o : Option Terminal). ((m, o), record f { rax = f.rsi }))
        (perform_lem m t f.rdi f.rsi))

-- the report of an exit
abbrev pub exit_report : ℕ → List ℕ
exit_report code =
    codes "[syscall] user programm exited with code: " ++ (decimal_text code ++ codes "\n")

report-render :
    (code : ℕ)
    → render printf_convert false
        (codes "[syscall] user programm exited with code: %d\n")
        (word code ∷ [])
      ≡ some (exit_report code)
unfolding render
report-render code = refl

length-exit_report : (code : ℕ) → code < 2 ^ 63 → length (exit_report code) ≤ 64
length-exit_report code h =
    let (value, short) = read-decimal_text code (omega arith) (λ e. absurd (omega (arith, h, e))) in
    omega (arith, length-append (decimal_text code) (codes "\n"), short)

-- An exit shows its report, and resumes the kernel.
pub serve-exit :
    (upper resume saved : ℕ) (m : Memory) (t : Terminal) (f : Frame)
    → f.rdi < 2 ^ 64
    → upper < 2 ^ 31
    → syscall_num f ≡ 60
    → serve upper resume saved (m, some t) f ≡ (
      (m, some (shown t (exit_report (f.rdi % 2 ^ 32 + 2 ^ 32 * upper)))),
      record f { rip = resume; cs = 8; ss = 16; rsp = saved; rflags = 0x202 },
    )
unfolding serve perform
serve-exit upper resume saved m t f w u n =
    let code = f.rdi % 2 ^ 32 + 2 ^ 32 * upper in
    let (outputs, frame) = (syscall_handler_lem upper resume saved f w).exit n in
    let printed =
      printf-render t (codes "[syscall] user programm exited with code: %d\n") (word code ∷ [])
        (exit_report code) (report-render code)
        (omega (arith, length-exit_report code (omega arith))) in
    rw (outputs, frame)
      (ap
        (λ (o : Option Result). (
          (m, on_screen o >>= λ t'. perform m t' []),
          record f { rip = resume; cs = 8; ss = 16; rsp = saved; rflags = 0x202 },
        ))
        printed)
