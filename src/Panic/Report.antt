-- ===== src/Panic/Report.antt =====
-- The report that a panic leaves on the screen.
use doomkernel.Prelude.{
  ℕ, ◌+◌, ◌*◌, ◌%◌, ◌^◌, ◌≤◌, ◌<◌, ◌≡◌, refl, sym, ap, ◌∙◌, false, Bool-cases, inl, inr, Option,
  none, some, List, [], ◌∷◌, ◌++◌, ◌==◌, if◌then◌else◌, length, length-append, codes, arith,
}
use doomkernel.Terminal.{Terminal}
use doomkernel.Frame.{Frame}
use doomkernel.Printf.{int_max}
use doomkernel.Printf.Number.{hex_text, decimal_text}
use doomkernel.Printf.Hex.{read-hex_text}
use doomkernel.Printf.Decimal.{read-decimal_text}
use doomkernel.Printf.Render.{printf_convert, render}
use doomkernel.Printf.Rounds.{shown, shown-append}
use doomkernel.Kernel.Say.{say_lem}
use doomkernel.Panic.{Call, say_all, head_calls, register_calls, page_calls, frame_calls, panic}

abbrev pub joined : List (List ℕ) → List ℕ
joined [] = []
joined (out ∷ outs) = out ++ joined outs

-- each call describes its text, which an `int` can count
abbrev pub AllRender : List Call → List (List ℕ) → Type 0
AllRender [] [] = Unit
AllRender [] (out ∷ outs) = ⊥
AllRender ((format, args) ∷ calls) [] = ⊥
AllRender ((format, args) ∷ calls) (out ∷ outs) =
    (render printf_convert false format args ≡ some out)
    × (length out ≤ int_max)
    × AllRender calls outs

pub say_all_lem :
    (t : Terminal) (calls : List Call) (outs : List (List ℕ))
    → AllRender calls outs
    → say_all t calls ≡ some (shown t (joined outs))
unfolding say_all
say_all_lem t [] [] h = refl
say_all_lem t [] (out ∷ outs) h = absurd h
say_all_lem t ((format, args) ∷ calls) [] h = absurd h
say_all_lem t ((format, args) ∷ calls) (out ∷ outs) (e, short, h) =
    rw (say_lem t format args out e short)
      (say_all_lem (shown t out) calls outs h ∙ ap some (sym (shown-append t out (joined outs))))

abbrev pub hex_line : List ℕ → ℕ → List ℕ
hex_line label n = label ++ (hex_text n ++ codes "\n")

abbrev pub decimal_line : List ℕ → ℕ → List ℕ
decimal_line label n = label ++ (decimal_text n ++ codes "\n")

abbrev pub head_lines : List ℕ → List ℕ → ℕ → List (List ℕ)
head_lines msg file line =
    codes "*******************KERNEL PANIC*******************\n"
    ∷ (codes "Error: " ++ (msg ++ codes "\n"))
    ∷ (codes "File: " ++ (file ++ (codes " (Line: " ++ (decimal_text line ++ codes ")\n"))))
    ∷ []

abbrev pub register_lines : Frame → List (List ℕ)
register_lines frame =
    codes "****CPU****\n"
    ∷ decimal_line (codes "INT NO: ") frame.int_no
    ∷ hex_line (codes "ERR CCODE: ") frame.err_code
    ∷ hex_line (codes "RIP: ") frame.rip
    ∷ hex_line (codes "CS: ") frame.cs
    ∷ decimal_line (codes "RING: ") (frame.cs % 4)
    ∷ hex_line (codes "RFLAGS: ") frame.rflags
    ∷ hex_line (codes "RSP: ") frame.rsp
    ∷ hex_line (codes "SS: ") frame.ss
    ∷ []

pub length-hex_line :
    (label : List ℕ) (n : ℕ) → length label ≤ 100 → n < 2 ^ 64 → length (hex_line label n) ≤ int_max
length-hex_line label n l h =
    let (value, short) = read-hex_text n h in
    omega (
      arith,
      length-append label (hex_text n ++ codes "\n"),
      length-append (hex_text n) (codes "\n"),
      short,
    )

pub length-decimal_line :
    (label : List ℕ) (n : ℕ)
    → length label ≤ 100
    → n < 2 ^ 63
    → length (decimal_line label n) ≤ int_max
length-decimal_line label n l h =
    let (value, short) = read-decimal_text n (omega arith) (λ e. absurd (omega (arith, h, e))) in
    omega (
      arith,
      length-append label (decimal_text n ++ codes "\n"),
      length-append (decimal_text n) (codes "\n"),
      short,
    )

pub AllRender-append :
    (calls more : List Call) (outs others : List (List ℕ))
    → AllRender calls outs
    → AllRender more others
    → AllRender (calls ++ more) (outs ++ others)
AllRender-append [] more [] others h k = k
AllRender-append [] more (out ∷ outs) others h k = absurd h
AllRender-append ((format, args) ∷ calls) more [] others h k = absurd h
AllRender-append ((format, args) ∷ calls) more (out ∷ outs) others (e, short, h) k =
    (e, short, AllRender-append calls more outs others h k)

-- the registers are words, and the number of the interrupt is not a negative one
pub record AreWords (frame : Frame) : Type 0 where
  pub int_no : frame.int_no < 2 ^ 63
  pub err_code : frame.err_code < 2 ^ 64
  pub rip : frame.rip < 2 ^ 64
  pub cs : frame.cs < 2 ^ 64
  pub rflags : frame.rflags < 2 ^ 64
  pub rsp : frame.rsp < 2 ^ 64
  pub ss : frame.ss < 2 ^ 64

register-AllRender :
    (frame : Frame) → AreWords frame → AllRender (register_calls frame) (register_lines frame)
unfolding render
register-AllRender frame w = (
  refl,
  omega arith,
  (
    refl,
    length-decimal_line (codes "INT NO: ") frame.int_no (omega arith) w.int_no,
    (
      refl,
      length-hex_line (codes "ERR CCODE: ") frame.err_code (omega arith) w.err_code,
      (
        refl,
        length-hex_line (codes "RIP: ") frame.rip (omega arith) w.rip,
        (
          refl,
          length-hex_line (codes "CS: ") frame.cs (omega arith) w.cs,
          (
            refl,
            length-decimal_line (codes "RING: ") (frame.cs % 4) (omega arith) (omega arith),
            (
              refl,
              length-hex_line (codes "RFLAGS: ") frame.rflags (omega arith) w.rflags,
              (
                refl,
                length-hex_line (codes "RSP: ") frame.rsp (omega arith) w.rsp,
                (refl, length-hex_line (codes "SS: ") frame.ss (omega arith) w.ss, tt),
              ),
            ),
          ),
        ),
      ),
    ),
  ),
)

page-AllRender :
    (cr2 : ℕ) → cr2 < 2 ^ 64 → AllRender (page_calls cr2) (hex_line (codes "CR2: ") cr2 ∷ [])
unfolding render
page-AllRender cr2 h = (refl, length-hex_line (codes "CR2: ") cr2 (omega arith) h, tt)

head-AllRender :
    (upper : ℕ) (msg file : List ℕ) (line : ℕ)
    → length msg ≤ 2 ^ 30
    → length file ≤ 2 ^ 30
    → line + 2 ^ 32 * upper < 2 ^ 63
    → AllRender (head_calls upper msg file line) (head_lines msg file (line + 2 ^ 32 * upper))
unfolding render
head-AllRender upper msg file line m f l =
    let n = line + 2 ^ 32 * upper in
    let (value, short) = read-decimal_text n (omega arith) (λ e. absurd (omega (arith, l, e))) in
    (
      refl,
      omega arith,
      (
        refl,
        omega (arith, length-append msg (codes "\n"), m),
        (
          refl,
          omega (
            arith,
            f,
            short,
            length-append (decimal_text n) (codes ")\n"),
            length-append file (codes " (Line: " ++ (decimal_text n ++ codes ")\n")),
          ),
          tt,
        ),
      ),
    )

-- the lines of the frame: the registers, and the address of a page fault
abbrev pub frame_lines : ℕ → Option Frame → List (List ℕ)
frame_lines cr2 none = []
frame_lines cr2 (some frame) =
    register_lines frame ++ (if frame.int_no == 14 then hex_line (codes "CR2: ") cr2 ∷ [] else [])

frame-AllRender :
    (cr2 : ℕ) (frame : Frame)
    → cr2 < 2 ^ 64
    → AreWords frame
    → AllRender (frame_calls cr2 (some frame)) (frame_lines cr2 (some frame))
unfolding frame_calls
frame-AllRender cr2 frame h w = elim (Bool-cases (frame.int_no == 14)) [
  | inl e ↦ rw e (
      AllRender-append (register_calls frame) (page_calls cr2) (register_lines frame)
        (hex_line (codes "CR2: ") cr2 ∷ []) (register-AllRender frame w) (page-AllRender cr2 h))
  | inr e ↦ rw e (
      AllRender-append (register_calls frame) [] (register_lines frame) []
        (register-AllRender frame w) tt)
]

-- A panic with a frame of words halts on a screen that shows its message, the place in the source (with what
-- stands in the upper half of the line), and the registers of the frame, the ring among them, with
-- the address of a page fault just for one, each number as its text.
pub panic_lem :
    (upper cr2 : ℕ) (msg : List ℕ) (frame : Frame) (file : List ℕ) (line : ℕ) (t : Terminal)
    → length msg ≤ 2 ^ 30
    → length file ≤ 2 ^ 30
    → line + 2 ^ 32 * upper < 2 ^ 63
    → cr2 < 2 ^ 64
    → AreWords frame
    → panic upper cr2 msg (some frame) file line t
      ≡ some (
          shown t (
            joined (head_lines msg file (line + 2 ^ 32 * upper))
            ++ joined (frame_lines cr2 (some frame))))
unfolding panic
panic_lem upper cr2 msg frame file line t m f l h w =
    let n = line + 2 ^ 32 * upper in
    let head = joined (head_lines msg file n) in
    rw
      (say_all_lem t (head_calls upper msg file line) (head_lines msg file n)
        (head-AllRender upper msg file line m f l))
      (say_all_lem (shown t head) (frame_calls cr2 (some frame)) (frame_lines cr2 (some frame))
          (frame-AllRender cr2 frame h w)
        ∙ ap some (sym (shown-append t head (joined (frame_lines cr2 (some frame))))))
