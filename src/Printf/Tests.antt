-- ===== src/Printf/Tests.antt =====
-- Printing at concrete inputs.
use doomkernel.Prelude.{
  ℕ, ◌+◌, ◌-◌, ◌%◌, ◌^◌, ◌≤◌, ◌≡◌, refl, false, some, List, [], ◌∷◌, map, length, replicate,
  length-replicate, arith,
}
use doomkernel.Prelude.Int.{pos}
use doomkernel.Terminal.{Terminal, terminal_init}
use doomkernel.Terminal.Sheet.{blank_sheet, type_text, Shows, terminal_init_lem}
use doomkernel.Printf.Number.{hex_loop, hex_text, digit_loop, magnitude, decimal_text}
use doomkernel.Printf.Hex.{read_hex, read-hex_text}
use doomkernel.Printf.Decimal.{signed, read_decimal, read-decimal_text}
use doomkernel.Printf.Render.{printf_convert, render}
use doomkernel.Printf.Equivalence.{printf-Shows}
use doomkernel.Printf.{Arg, word, returned, printf}

abbrev fresh : Terminal
fresh = record {
  cursor_x = 0;
  cursor_y = 0;
  terminal_color = 0;
  terminal_buffer = replicate 2000 0;
}

-- "n=%d %%%x"
abbrev format : List ℕ
format = b'n' ∷ b'=' ∷ b'%' ∷ b'd' ∷ b' ' ∷ b'%' ∷ b'%' ∷ b'%' ∷ b'x' ∷ []

abbrev args : List Arg
args = word (2 ^ 64 - 42) ∷ word 0xB05 ∷ []

-- "n=-42 %0xB05"
abbrev out : List ℕ
out = b'n' ∷ b'=' ∷ b'-' ∷ b'4' ∷ b'2' ∷ b' ' ∷ b'%' ∷ b'0' ∷ b'x' ∷ b'B' ∷ b'0' ∷ b'5' ∷ []

rendered : render printf_convert false format args ≡ some out
unfolding render hex_text hex_loop decimal_text digit_loop magnitude
rendered = refl

-- The lowest 64-bit number is its own negation, so that no digit is printed.
lowest : decimal_text (2 ^ 63) ≡ b'-' ∷ []
unfolding decimal_text digit_loop magnitude
lowest = refl

zero_text : decimal_text 0 ≡ b'0' ∷ []
unfolding decimal_text digit_loop magnitude
zero_text = refl

printf-Shows_example :
    (t' : Terminal) × (printf (terminal_init fresh) format args ≡ some (returned t' (pos 12)))
    × Shows t'
        (type_text (terminal_init fresh).terminal_color (blank_sheet 15) (map (λ c. c % 256) out))
printf-Shows_example =
    printf-Shows format args out (terminal_init_lem fresh (length-replicate {A = ℕ} 2000 0)).0
      rendered (omega arith)

read-hex_text_example : (read_hex (hex_text 0xB05) ≡ 0xB05) × (length (hex_text 0xB05) + 1 ≤ 19)
read-hex_text_example = read-hex_text 0xB05 (omega arith)

read-decimal_text_example :
    (read_decimal (decimal_text (2 ^ 64 - 42)) ≡ signed (2 ^ 64 - 42))
    × (length (decimal_text (2 ^ 64 - 42)) + 1 ≤ 21)
read-decimal_text_example =
    read-decimal_text (2 ^ 64 - 42) (omega arith) (λ e. absurd (omega (arith, e)))
