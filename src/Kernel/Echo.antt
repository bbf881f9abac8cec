-- ===== src/Kernel/Echo.antt =====
-- `keyboard_kernel` shows what is typed, up to the escape key.
use doomkernel.Prelude.{
  ℕ, zero, suc, ◌%◌, ◌<◌, ◌≡◌, refl, sym, ap, ◌∙◌, true, false, Option, some, List, [], ◌∷◌, ◌++◌,
  ◌==◌, length, codes, arith,
}
use doomkernel.Terminal.{Terminal, terminal_put_char}
use doomkernel.Printf.Render.{printf_convert, render}
use doomkernel.Printf.Rounds.{shown, shown-append}
use doomkernel.Keyboard.{Keyboard, keyboard_init}
use doomkernel.Keyboard.Ring.{IsValid}
use doomkernel.Keyboard.Queue.{init-IsValid}
use doomkernel.Keyboard.Typed.{Mode, typed}
use doomkernel.Keyboard.Next.{pending, Reads, reads_lem}
use doomkernel.Kernel.{echo_loop, keyboard_kernel}
use doomkernel.Kernel.Say.{say_lem}

abbrev pub NoEscape : List ℕ → Type 0
NoEscape [] = Unit
NoEscape (c ∷ cs) = ((c % 256 == 27) ≡ false) × NoEscape cs

-- the loop has shown `out`, and `post` is still to be read
pub record Echoed (o : Option (Terminal × Keyboard × List ℕ)) (t : Terminal) (out post : List ℕ)
    : Type 0 where
  pub next : Keyboard
  pub left : List ℕ
  pub ends : o ≡ some (shown t out, next, left)
  pub valid : IsValid next
  pub then_pending : pending next left ≡ post

module _ (fuel : ℕ) (arriving : List ℕ) (k : Keyboard) (t : Terminal) (c : ℕ) (rest : List ℕ)
    (r : Reads k arriving c rest) where
  echo-stop :
      (c % 256 == 27) ≡ true
      → echo_loop (suc fuel) arriving k t ≡ some (terminal_put_char t (c % 256), r.next, r.left)
  unfolding echo_loop
  echo-stop e = rw (r.reads, e) refl

  echo-on :
      (c % 256 == 27) ≡ false
      → echo_loop (suc fuel) arriving k t
        ≡ echo_loop fuel r.left r.next (terminal_put_char t (c % 256))
  unfolding echo_loop
  echo-on e = rw (r.reads, e) refl

echo_loop_lem :
    (pre post : List ℕ) (fuel : ℕ) (arriving : List ℕ) (k : Keyboard) (t : Terminal)
    → length pre < fuel
    → IsValid k
    → NoEscape pre
    → pending k arriving ≡ pre ++ 27 ∷ post
    → Echoed (echo_loop fuel arriving k t) t (pre ++ 27 ∷ []) post
echo_loop_lem pre post zero arriving k t enough v plain e = absurd (omega arith)
echo_loop_lem [] post (suc fuel) arriving k t enough v plain e =
    let r = reads_lem arriving 27 post v e in
    record {
      next = r.next;
      left = r.left;
      ends = echo-stop fuel arriving k t 27 post r refl;
      valid = r.valid;
      then_pending = r.then_pending;
    }
echo_loop_lem (c ∷ pre) post (suc fuel) arriving k t enough v (ne, plain) e =
    let r = reads_lem arriving c (pre ++ 27 ∷ post) v e in
    let w =
      echo_loop_lem pre post fuel r.left r.next (terminal_put_char t (c % 256)) (omega arith)
        r.valid plain r.then_pending in
    record {
      next = w.next;
      left = w.left;
      ends = echo-on fuel arriving k t c (pre ++ 27 ∷ post) r ne ∙ w.ends;
      valid = w.valid;
      then_pending = w.then_pending;
    }

abbrev first_line : List ℕ
first_line = codes "******KEYBOARD******\n"

abbrev second_line : List ℕ
second_line = codes "[keyboard] irq1 registered\n"

abbrev third_line : List ℕ
third_line = codes "[test] type something and press escape to stop\n"

abbrev pub keyboard_heading : List ℕ
keyboard_heading = first_line ++ (second_line ++ third_line)

first-render : render printf_convert false first_line [] ≡ some first_line
unfolding render
first-render = refl

second-render : render printf_convert false second_line [] ≡ some second_line
unfolding render
second-render = refl

third-render : render printf_convert false third_line [] ≡ some third_line
unfolding render
third-render = refl

newline-render : render printf_convert false (codes "\n") [] ≡ some (codes "\n")
unfolding render
newline-render = refl

-- `keyboard_kernel`, with the array of the ring in its size: where the scancodes that arrive type some
-- characters and then escape, more rounds than characters are enough for it to end, it shows its
-- three lines, the characters, the escape and a new line, and what is typed behind the escape is
-- still to be read.
pub keyboard_kernel_lem :
    (pre post : List ℕ) (fuel : ℕ) (arriving : List ℕ) (k : Keyboard) (t : Terminal)
    → length k.keycache ≡ 256
    → length pre < fuel
    → NoEscape pre
    → typed (record { shift = false; caps = false }) arriving ≡ pre ++ 27 ∷ post
    → Echoed
        (keyboard_kernel fuel arriving k t)
        t
        (keyboard_heading ++ ((pre ++ 27 ∷ []) ++ codes "\n"))
        post
unfolding keyboard_kernel keyboard_init
keyboard_kernel_lem pre post fuel arriving k t size enough plain e =
    let (v, empty) = init-IsValid k size in
    let fresh : Mode = record { shift = false; caps = false } in
    let t1 = shown t first_line in
    let t2 = shown t1 second_line in
    let t3 = shown t2 third_line in
    let keys = pre ++ 27 ∷ [] in
    let w =
      echo_loop_lem pre post fuel arriving (keyboard_init k) t3 enough v plain
        (ap (λ (l : List ℕ). l ++ typed fresh arriving) empty ∙ e) in
    let whole : shown t (keyboard_heading ++ (keys ++ codes "\n"))
        ≡ shown (shown t3 keys) (codes "\n") =
      shown-append t keyboard_heading (keys ++ codes "\n")
      ∙ ap (λ (s : Terminal). shown s (keys ++ codes "\n"))
          (shown-append t first_line (second_line ++ third_line)
            ∙ shown-append t1 second_line third_line)
      ∙ shown-append t3 keys (codes "\n") in
    record {
      next = w.next;
      left = w.left;
      ends =
          rw
            (
              say_lem t first_line [] first_line first-render (omega arith),
              say_lem t1 second_line [] second_line second-render (omega arith),
              say_lem t2 third_line [] third_line third-render (omega arith),
              w.ends,
              say_lem (shown t3 keys) (codes "\n") [] (codes "\n") newline-render (omega arith),
            )
            (ap (λ (s : Terminal). some (s, w.next, w.left)) (sym whole));
      valid = w.valid;
      then_pending = w.then_pending;
    }
