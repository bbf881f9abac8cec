-- ===== src/Terminal.antt =====
-- kernel/arch/x86_64/tty.c and vga.h: the text screen of 25 rows of 80 cells, a cell being the code of
-- a character and its colour above it. The video memory is a list of 2000 cells, row by row.
pub mod Scroll
pub mod Sheet
mod Tests
use doomkernel.Prelude.{
  ℕ, zero, suc, ◌+◌, ◌-◌, ◌*◌, ◌%◌, ◌^◌, List, [], ◌∷◌, ltb, leb, ◌==◌, if◌then◌else◌, get_or, set,
}

abbrev pub vga_width : ℕ
vga_width = 80

abbrev pub vga_height : ℕ
vga_height = 25

-- `enum vga_color`, the two colours that the terminal uses
abbrev pub vga_black : ℕ
vga_black = 0

abbrev pub vga_white : ℕ
vga_white = 15

-- The bits of a colour are below the ones that the shift leaves, so that `|` is a sum.
unfoldable pub vga_entry : ℕ → ℕ → ℕ
vga_entry foreground background = (foreground + background * 16) % 256

unfoldable pub vga_char : ℕ → ℕ → ℕ
vga_char character color = character % 256 + color % 256 * 256

pub record Terminal : Type 0 where
  pub cursor_x : ℕ
  pub cursor_y : ℕ
  pub terminal_color : ℕ
  pub terminal_buffer : List ℕ

-- for (i = ...; i < ...; i++) terminal_buffer[i] = blank, by the rounds left
unfoldable pub fill_loop : ℕ → ℕ → ℕ → List ℕ → List ℕ
fill_loop zero i blank buffer = buffer
fill_loop (suc n) i blank buffer = fill_loop n (i + 1) blank (set buffer i blank)

unfoldable pub clear_screen : Terminal → Terminal
clear_screen t = record t {
  terminal_buffer =
      fill_loop (vga_width * vga_height) 0 (vga_char b' ' t.terminal_color) t.terminal_buffer;
}

unfoldable pub terminal_init : Terminal → Terminal
terminal_init t =
    clear_screen
      (record t { cursor_x = 0; cursor_y = 0; terminal_color = vga_entry vga_white vga_black })

-- the inner loop of `clear_last_line`, which copies `row` to the row above it
unfoldable pub copy_row : ℕ → ℕ → ℕ → List ℕ → List ℕ
copy_row zero col row buffer = buffer
copy_row (suc n) col row buffer =
    copy_row n (col + 1) row
      (set buffer ((row - 1) * vga_width + col) (get_or buffer (row * vga_width + col) 0))

-- its outer loop
unfoldable pub copy_rows : ℕ → ℕ → List ℕ → List ℕ
copy_rows zero row buffer = buffer
copy_rows (suc n) row buffer = copy_rows n (row + 1) (copy_row vga_width 0 row buffer)

unfoldable pub clear_last_line : Terminal → Terminal
clear_last_line t = record t {
  terminal_buffer =
      fill_loop vga_width ((vga_height - 1) * vga_width) (vga_char b' ' t.terminal_color)
        (copy_rows (vga_height - 1) 1 t.terminal_buffer);
  cursor_y = vga_height - 1;
}

-- a character that is shown, and the step of the cursor past it
unfoldable pub show_char : Terminal → ℕ → Terminal
show_char t c =
    let t' = record t {
      terminal_buffer =
          set t.terminal_buffer (t.cursor_y * vga_width + t.cursor_x) (vga_char c t.terminal_color);
      cursor_x = t.cursor_x + 1;
    } in
    if leb vga_width (t.cursor_x + 1)
    then record t' { cursor_x = 0; cursor_y = t.cursor_y + 1 }
    else t'

-- the three branches of `terminal_put_char`
unfoldable pub place_char : Terminal → ℕ → Terminal
place_char t c =
    if c == b'\n'
    then record t { cursor_x = 0; cursor_y = t.cursor_y + 1 }
    else if c == b'\r'
    then record t { cursor_x = 0 }
    else show_char t c

unfoldable pub scroll_if_below : Terminal → Terminal
scroll_if_below t =
    if leb vga_height t.cursor_y then record (clear_last_line t) { cursor_x = 0 } else t

unfoldable pub terminal_put_char : Terminal → ℕ → Terminal
unfolding place_char scroll_if_below
terminal_put_char t c = scroll_if_below (place_char t c)

unfoldable pub terminal_write : Terminal → List ℕ → Terminal
terminal_write t [] = t
terminal_write t (c ∷ text) = terminal_write (terminal_put_char t c) text
