-- ===== src/Printf.antt =====
-- libc/stdio/printf.c, putchar.c and puts.c. A C string is the list of its bytes before the NUL. The
-- text goes to the terminal. A variable argument is a word or a C string; one that is missing or of
-- the other kind is undefined behaviour. Each round of the loop of `printf` is a step. The count of
-- characters does not wrap: a sum past INT_MAX, which only numbers could make, is undefined in C.
pub mod Number
pub mod Hex
pub mod Decimal
pub mod Render
pub mod Rendered
pub mod Rounds
pub mod Equivalence
mod Tests
use doomkernel.Prelude.{
  ℕ, zero, suc, ◌+◌, ◌-◌, ◌%◌, ◌^◌, Bool, true, false, not, ◌||◌, Option, none, some, List, [], ◌∷◌,
  ltb, ◌==◌, if◌then◌else◌, length, take, drop, get_or,
}
use doomkernel.Prelude.Int.{ℤ, pos, negsuc}
use doomkernel.Terminal.{Terminal, terminal_write}
use doomkernel.Printf.Number.{hex_text, decimal_text}

-- `EOF`, -1, as an `int` is stored
abbrev pub eof : ℕ
eof = 2 ^ 32 - 1

abbrev pub int_max : ℕ
int_max = 2 ^ 31 - 1

unfoldable pub putchar : Terminal → ℕ → Terminal × ℕ
putchar t int_char = (terminal_write t (int_char % 256 ∷ []), int_char)

-- for (i = 0; i < length; i++) with the early return
unfoldable pub print : Terminal → List ℕ → Terminal × Bool
unfolding putchar
print t [] = (t, true)
print t (c ∷ text) =
    let r = putchar t (c % 256) in
    let rest = print r.0 text in if r.1 == eof then (r.0, false) else rest

-- the number of characters, or -1
unfoldable pub print_text : Terminal → List ℕ → Terminal × ℤ
unfolding print
print_text t buffer = let r = print t buffer in (r.0, if r.1 then pos (length buffer) else negsuc 0)

unfoldable pub print_hex : Terminal → ℕ → Terminal × ℤ
unfolding print_text
print_hex t hex = print_text t (hex_text hex)

unfoldable pub print_decimal : Terminal → ℕ → Terminal × ℤ
unfolding print_text
print_decimal t dec = print_text t (decimal_text dec)

pub data Arg : Type 0 where
  word : ℕ → Arg
  text : List ℕ → Arg

pub data Result : Type 0 where
  returned : Terminal → ℤ → Result
  panicked : Terminal → Result
  undefined : Result

-- a round ends the call, or goes on with the state of the loop: what is written, and what is left
-- of the format and of the arguments
pub data Step : Type 0 where
  stop : Result → Step
  next : Terminal → ℕ → List ℕ → List Arg → Step

abbrev pub next_char : List ℕ → ℕ
next_char format = get_or format 0 0

-- while (format[amount] && format[amount] != '%') amount++;
unfoldable pub run : List ℕ → ℕ
run [] = 0
run (c ∷ format) = if c == b'%' then 0 else suc (run format)

-- after a call of `print`: -1 where it failed
unfoldable pub printed : Terminal × Bool → ℕ → List ℕ → List Arg → Step
printed r written format args =
    if r.1 then next r.0 written format args else stop (returned r.0 (negsuc 0))

unfoldable pub print_plain : Terminal → ℕ → List ℕ → List Arg → Step
unfolding print run printed
print_plain t written format args =
    let amount = suc (run (drop 1 format)) in
    if ltb (int_max - written) amount
    then stop (panicked t)
    else printed (print t (take amount format)) (written + amount) (drop amount format) args

unfoldable pub print_char : Terminal → ℕ → List ℕ → List Arg → Step
unfolding print printed
print_char t written format [] = stop undefined
print_char t written format (text s ∷ args) = stop undefined
print_char t written format (word w ∷ args) =
    if int_max - written == 0
    then stop (panicked t)
    else printed (print t (w % 256 ∷ [])) (written + 1) format args

unfoldable pub print_string : Terminal → ℕ → List ℕ → List Arg → Step
unfolding print printed
print_string t written format [] = stop undefined
print_string t written format (word w ∷ args) = stop undefined
print_string t written format (text s ∷ args) =
    if ltb (int_max - written) (length s)
    then stop (returned t (negsuc 0))
    else printed (print t s) (written + length s) format args

-- the result of `print_hex` or `print_decimal` is added, or -1 is returned
unfoldable pub print_number : Terminal × ℤ → ℕ → List ℕ → List Arg → Step
print_number (t, pos len) written format args = next t (written + len) format args
print_number (t, negsuc n) written format args = stop (returned t (negsuc 0))

unfoldable pub print_word : (Terminal → ℕ → Terminal × ℤ) → Terminal → ℕ → List ℕ → List Arg → Step
unfolding print_number
print_word f t written format [] = stop undefined
print_word f t written format (text s ∷ args) = stop undefined
print_word f t written format (word w ∷ args) = print_number (f t w) written format args

-- an unknown directive: all that is left of the format
unfoldable pub print_rest : Terminal → ℕ → List ℕ → List Arg → Step
unfolding print printed
print_rest t written format args =
    if ltb (int_max - written) (length format)
    then stop (returned t (negsuc 0))
    else printed (print t format) (written + length format) [] args

-- the text behind a '%' that is not doubled
unfoldable pub directive : Terminal → ℕ → List ℕ → List Arg → Step
unfolding print_char print_string print_word print_rest print_hex print_decimal
directive t written format args =
    if next_char format == b'c'
    then print_char t written (drop 1 format) args
    else if next_char format == b's'
    then print_string t written (drop 1 format) args
    else if next_char format == b'x'
    then print_word print_hex t written (drop 1 format) args
    else if next_char format == b'd'
    then print_word print_decimal t written (drop 1 format) args
    else print_rest t written (b'%' ∷ format) args

unfoldable pub printf_step : Terminal → ℕ → List ℕ → List Arg → Step
unfolding print_plain directive
printf_step t written [] args = stop (returned t (pos written))
printf_step t written (c ∷ format) args =
    if not (c == b'%')
    then print_plain t written (c ∷ format) args
    else if next_char format == b'%'
    then print_plain t written format args
    else directive t written format args

-- on fuel; `none` means that it ran out
unfoldable pub printf_loop : ℕ → Terminal → ℕ → List ℕ → List Arg → Option Result
unfolding printf_step
printf_loop zero t written format args = none
printf_loop (suc fuel) t written format args = elim (printf_step t written format args) [
  | stop r ↦ some r
  | next t' written' format' args' ↦ printf_loop fuel t' written' format' args'
]

-- Each round uses up a part of the format.
unfoldable pub printf : Terminal → List ℕ → List Arg → Option Result
unfolding printf_loop
printf t format args = printf_loop (suc (length format)) t 0 format args

unfoldable pub puts : Terminal → List ℕ → Option Result
unfolding printf
puts t string = printf t (b'%' ∷ b's' ∷ b'\n' ∷ []) (text string ∷ [])
