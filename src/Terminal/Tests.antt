-- ===== src/Terminal/Tests.antt =====
-- The terminal at concrete texts.
use doomkernel.Prelude.{ℕ, ◌≡◌, refl, List, [], ◌∷◌, replicate, length-replicate}
use doomkernel.Terminal.{Terminal, terminal_init, terminal_write, vga_char}
use doomkernel.Terminal.Sheet.{
  blank_sheet, type_text, Shows, terminal_write_refines, terminal_init_lem,
}

abbrev fresh : Terminal
fresh = record {
  cursor_x = 7;
  cursor_y = 30;
  terminal_color = 0;
  terminal_buffer = replicate 2000 0;
}

-- "A", a new line, "B"
abbrev text : List ℕ
text = b'A' ∷ b'\n' ∷ b'B' ∷ []

typed :
    ((type_text 15 (blank_sheet 15) text).row ≡ 1)
    × ((type_text 15 (blank_sheet 15) text).cells 80 ≡ 0x0F42)
unfolding vga_char
typed = (refl, refl)

cleared-Shows :
    Shows (terminal_init fresh) (blank_sheet 15) × ((terminal_init fresh).terminal_color ≡ 15)
cleared-Shows = terminal_init_lem fresh (length-replicate {A = ℕ} 2000 0)

terminal_write_refines_example :
    Shows
      (terminal_write (terminal_init fresh) text)
      (type_text (terminal_init fresh).terminal_color (blank_sheet 15) text)
    × ((terminal_write (terminal_init fresh) text).terminal_color
        ≡ (terminal_init fresh).terminal_color)
terminal_write_refines_example = terminal_write_refines text cleared-Shows.0
