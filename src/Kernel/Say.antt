-- ===== src/Kernel/Say.antt =====
-- Printing a described text.
use doomkernel.Prelude.{
  ℕ, ◌+◌, ◌%◌, ◌≤◌, ◌≡◌, refl, sym, ap, ◌∙◌, false, some, List, [], ◌∷◌, length, arith,
}
use doomkernel.Memory.{Memory, load8}
use doomkernel.Terminal.{Terminal, terminal_put_char}
use doomkernel.Printf.{Arg, int_max}
use doomkernel.Printf.Render.{printf_convert, render}
use doomkernel.Printf.Rounds.{shown}
use doomkernel.Printf.Equivalence.{printf-render}
use doomkernel.Syscall.Screen.{on_screen}
use doomkernel.Fs.Image.{Held}
use doomkernel.Kernel.{say, data_loop}

pub say_lem :
    (t : Terminal) (format : List ℕ) (args : List Arg) (out : List ℕ)
    → render printf_convert false format args ≡ some out
    → length out ≤ int_max
    → say t format args ≡ some (shown t out)
unfolding say
say_lem t format args out e h = ap on_screen (printf-render t format args out e h)

-- A short text with no directive is shown as it is.
pub say-plain :
    (t : Terminal) (s : List ℕ)
    → render printf_convert false s [] ≡ some s
    → length s ≤ 100
    → say t s [] ≡ some (shown t s)
say-plain t s e h = say_lem t s [] s e (omega (arith, h))

byte_of : (m : Memory) (a : ℕ) → load8 m a % 256 ≡ load8 m a
unfolding load8
byte_of m a = omega arith

-- The loop shows the bytes that stand at the address.
pub data_loop_lem :
    (m : Memory) (a : ℕ) (xs : List ℕ) (t : Terminal)
    → Held m a xs
    → data_loop (length xs) m a t ≡ shown t xs
unfolding data_loop
data_loop_lem m a [] t h = refl
data_loop_lem m a (x ∷ xs) t (e, h) =
    data_loop_lem m (a + 1) xs (terminal_put_char t (load8 m a)) h
    ∙ ap (λ (c : ℕ). shown (terminal_put_char t c) xs)
        (sym (byte_of m a) ∙ ap (λ (c : ℕ). c % 256) e)
