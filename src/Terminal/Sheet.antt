-- ===== src/Terminal/Sheet.antt =====
-- The terminal as a window on an endless sheet of rows of 80 cells: it shows the last 25 rows that
-- have been reached.
use mathlib.Core.Path.{subst}
use doomkernel.Prelude.{
  ℕ, ◌+◌, ◌-◌, ◌*◌, ◌≤◌, ◌<◌, ◌≡◌, ◌⊎◌, inl, inr, refl, sym, ap, ◌∙◌, true, false, Bool-cases, List,
  [], ◌∷◌, leb, ◌==◌, if◌then◌else◌, get_or, set, length, length-set, get_or-set_self,
  get_or-set_ne, arith, ℕ_discrete, dec_lt,
}
use doomkernel.Terminal.{
  Terminal, vga_char, vga_entry, show_char, place_char, scroll_if_below, terminal_put_char,
  terminal_write, clear_screen, clear_last_line, terminal_init,
}
use doomkernel.Terminal.Scroll.{
  length-fill_loop, fill_loop-inside, length-clear_last_line, clear_last_line-above,
  clear_last_line-last,
}

-- the next character goes to column `col` of row `row`; cell `k` is in row `k / 80`
pub record Sheet : Type 0 where
  pub row : ℕ
  pub col : ℕ
  pub cells : ℕ → ℕ

abbrev pub blank_sheet : ℕ → Sheet
blank_sheet color = record { row = 0; col = 0; cells = λ k. vga_char b' ' color }

-- a character on the sheet, in a colour
abbrev pub type_char : ℕ → Sheet → ℕ → Sheet
type_char color s c =
    if c == b'\n'
    then record s { row = s.row + 1; col = 0 }
    else if c == b'\r'
    then record s { col = 0 }
    else record {
      row = if s.col == 79 then s.row + 1 else s.row;
      col = if s.col == 79 then 0 else s.col + 1;
      cells = λ k. if k == s.row * 80 + s.col then vga_char c color else s.cells k;
    }

abbrev pub type_text : ℕ → Sheet → List ℕ → Sheet
type_text color s [] = s
type_text color s (c ∷ text) = type_text color (type_char color s c) text

-- the screen shows the 25 rows of the sheet from row `top` on
pub record Window (top : ℕ) (t : Terminal) (s : Sheet) : Type 0 where
  pub whole : length t.terminal_buffer ≡ 2000
  pub column : t.cursor_x ≡ s.col
  pub in_row : s.col < 80
  pub row : t.cursor_y + top ≡ s.row
  pub cells : (j : ℕ) → j < 2000 → get_or t.terminal_buffer j 0 ≡ s.cells (top * 80 + j)
  pub below : (k : ℕ) → (top + 25) * 80 ≤ k → s.cells k ≡ vga_char b' ' t.terminal_color

-- the screen shows the rows of the sheet up to the current one, 25 at least
pub record Shows (t : Terminal) (s : Sheet) : Type 0 where
  pub window : Window (s.row - 24) t s
  pub on_screen : t.cursor_y < 25

-- the cursor is on the screen, or at the left end of the row below it
abbrev AtMostBelow : Terminal → Type 0
AtMostBelow t = (t.cursor_y < 25) ⊎ ((t.cursor_y ≡ 25) × (t.cursor_x ≡ 0))

place_char-color : (t : Terminal) (c : ℕ) → (place_char t c).terminal_color ≡ t.terminal_color
unfolding place_char show_char
place_char-color t c = ground arith

place_char-below : (t : Terminal) (c : ℕ) → t.cursor_y < 25 → AtMostBelow (place_char t c)
unfolding place_char show_char
place_char-below t c h = ground arith

show_char-buffer :
    (t : Terminal) (c : ℕ)
    → (show_char t c).terminal_buffer
      ≡ set t.terminal_buffer (t.cursor_y * 80 + t.cursor_x) (vga_char c t.terminal_color)
unfolding show_char
show_char-buffer t c = ground arith

-- the character as it is shown on the sheet
abbrev shown : ℕ → Sheet → ℕ → Sheet
shown color s c = record {
  row = if s.col == 79 then s.row + 1 else s.row;
  col = if s.col == 79 then 0 else s.col + 1;
  cells = λ k. if k == s.row * 80 + s.col then vga_char c color else s.cells k;
}

module _ (top : ℕ) (t : Terminal) (s : Sheet) (c : ℕ) (w : Window top t s)
    (h : t.cursor_y < 25) where
  show_char-cells :
      (j : ℕ)
      → j < 2000
      → get_or (show_char t c).terminal_buffer j 0
        ≡ (shown t.terminal_color s c).cells (top * 80 + j)
  show_char-cells j p =
      let at = t.cursor_y * 80 + t.cursor_x in
      let v = vga_char c t.terminal_color in
      ap (λ (b : List ℕ). get_or b j 0) (show_char-buffer t c) ∙ (elim (ℕ_discrete at j) [
        | yes e ↦
            let here : (top * 80 + j == s.row * 80 + s.col) ≡ true =
              ground (arith, e, w.row, w.column) in
            rw here (
              ap (λ (k : ℕ). get_or (set t.terminal_buffer at v) k 0) (sym e)
              ∙ get_or-set_self t.terminal_buffer at v 0
                  (omega (arith, w.whole, w.column, w.in_row)))
        | no ne ↦
            let other : (top * 80 + j == s.row * 80 + s.col) ≡ false =
              ground (arith, ne, w.row, w.column) in
            rw other (get_or-set_ne t.terminal_buffer at j v 0 ne ∙ w.cells j p)
      ])

  show_char-Window : Window top (show_char t c) (shown t.terminal_color s c)
  unfolding show_char
  show_char-Window = record {
    whole =
        ap length (show_char-buffer t c)
        ∙ length-set t.terminal_buffer (t.cursor_y * 80 + t.cursor_x) (vga_char c t.terminal_color)
        ∙ w.whole;
    column = ground (arith, w.column, w.in_row);
    in_row = ground (arith, w.in_row);
    row = ground (arith, w.row, w.column, w.in_row);
    cells = show_char-cells;
    below = λ k p. ground (arith, w.below k p, w.row, w.in_row);
  }

module _ (top : ℕ) (t : Terminal) (s : Sheet) (c : ℕ) (w : Window top t s)
    (h : t.cursor_y < 25) where
  place_char-Window : Window top (place_char t c) (type_char t.terminal_color s c)
  unfolding place_char
  place_char-Window = elim (Bool-cases (c == b'\n')) [
    | inl e ↦ simp e (record {
      whole = w.whole;
      column = refl;
      in_row = omega arith;
      row = omega (arith, w.row);
      cells = w.cells;
      below = w.below;
    })
    | inr e ↦ elim (Bool-cases (c == b'\r')) [
      | inl f ↦
          simp (e, f)
            (record {
              whole = w.whole;
              column = refl;
              in_row = omega arith;
              row = w.row;
              cells = w.cells;
              below = w.below;
            })
      | inr f ↦ simp (e, f) (show_char-Window top t s c w h)
    ]
  ]

clear_last_line-color : (t : Terminal) → (clear_last_line t).terminal_color ≡ t.terminal_color
unfolding clear_last_line
clear_last_line-color t = refl

clear_last_line-y : (t : Terminal) → (clear_last_line t).cursor_y ≡ 24
unfolding clear_last_line
clear_last_line-y t = refl

-- A cursor below the screen moves the window down by a row.
scrolled :
    (top : ℕ) (t : Terminal) (s : Sheet)
    → Window top t s
    → t.cursor_y ≡ 25
    → t.cursor_x ≡ 0
    → Window (top + 1) (record (clear_last_line t) { cursor_x = 0 }) s
scrolled top t s w y x = record {
  whole = length-clear_last_line t w.whole;
  column = sym x ∙ w.column;
  in_row = w.in_row;
  row = omega (arith, clear_last_line-y t, y, w.row);
  cells = cells;
  below = λ k p. w.below k (omega arith) ∙ ap (vga_char b' ') (sym (clear_last_line-color t));
}
  where
    cells :
        (j : ℕ)
        → j < 2000
        → get_or (clear_last_line t).terminal_buffer j 0 ≡ s.cells ((top + 1) * 80 + j)
    cells j p = elim (dec_lt j 1920) [
      | yes above ↦
          clear_last_line-above t w.whole j above
          ∙ w.cells (j + 80) (omega arith)
          ∙ ap s.cells (omega arith)
      | no last ↦
          clear_last_line-last t w.whole j (omega arith) p
          ∙ sym (w.below ((top + 1) * 80 + j) (omega arith))
    ]

scroll-on : (t : Terminal) → t.cursor_y < 25 → scroll_if_below t ≡ t
unfolding scroll_if_below
scroll-on t h = let e : leb 25 t.cursor_y ≡ false = ground arith in simp e

scroll-below :
    (t : Terminal)
    → 25 ≤ t.cursor_y
    → scroll_if_below t ≡ record (clear_last_line t) { cursor_x = 0 }
unfolding scroll_if_below
scroll-below t h = let e : leb 25 t.cursor_y ≡ true = ground arith in simp e

scroll-color : (t : Terminal) → (scroll_if_below t).terminal_color ≡ t.terminal_color
unfolding scroll_if_below
scroll-color t = ground (arith, clear_last_line-color t)

pub put_char-color :
    (t : Terminal) (c : ℕ) → (terminal_put_char t c).terminal_color ≡ t.terminal_color
unfolding terminal_put_char
put_char-color t c = scroll-color (place_char t c) ∙ place_char-color t c

type_char-row :
    (color : ℕ) (s : Sheet) (c : ℕ)
    → (s.row ≤ (type_char color s c).row) × ((type_char color s c).row ≤ s.row + 1)
type_char-row color s c = ground arith

-- A character on the terminal is the character on the sheet.
pub put_char-Shows :
    {t : Terminal} {s : Sheet} (c : ℕ)
    → Shows t s
    → Shows (terminal_put_char t c) (type_char t.terminal_color s c)
unfolding terminal_put_char
put_char-Shows {t} {s} c v =
    let p = place_char t c in
    let s' = type_char t.terminal_color s c in
    let w = place_char-Window (s.row - 24) t s c v.window v.on_screen in
    let r = type_char-row t.terminal_color s c in
    elim (place_char-below t c v.on_screen) [
      | inl on ↦
          let top : s.row - 24 ≡ s'.row - 24 = omega (arith, w.row, r, v.window.row) in
          rw (scroll-on p on)
            (record { window = subst (λ (k : ℕ). Window k p s') top w; on_screen = on })
      | inr (y, x) ↦
          let top : s.row - 24 + 1 ≡ s'.row - 24 =
            omega (arith, w.row, r, v.window.row, v.on_screen, y) in
          rw (scroll-below p (omega arith)) (record {
            window =
                subst (λ (k : ℕ). Window k (record (clear_last_line p) { cursor_x = 0 }) s') top
                  (scrolled (s.row - 24) p s' w y x);
            on_screen = omega (arith, clear_last_line-y p);
          })
    ]

-- What is written on a terminal that shows a sheet is typed on the sheet: whatever the text, with its
-- new lines, returns, full rows and any number of scrolls, the screen shows the rows of the sheet
-- up to the current one, 25 at least, the cursor stands where the next character goes, on the
-- screen, and the colour is the same.
pub terminal_write_refines :
    (text : List ℕ) {t : Terminal} {s : Sheet}
    → Shows t s
    → Shows (terminal_write t text) (type_text t.terminal_color s text)
      × ((terminal_write t text).terminal_color ≡ t.terminal_color)
unfolding terminal_write
terminal_write_refines [] v = (v, refl)
terminal_write_refines (c ∷ text) {t} {s} v =
    let (w, e) = terminal_write_refines text (put_char-Shows c v) in
    let same = put_char-color t c in
    (
      subst
          (λ (k : ℕ).
            Shows (terminal_write (terminal_put_char t c) text)
              (type_text k (type_char t.terminal_color s c) text))
          same w,
      e ∙ same,
    )

-- `terminal_init` clears the screen, whatever the video memory held: white on black, at the top left.
pub terminal_init_lem :
    (t : Terminal)
    → length t.terminal_buffer ≡ 2000
    → Shows (terminal_init t) (blank_sheet 15) × ((terminal_init t).terminal_color ≡ 15)
unfolding terminal_init clear_screen vga_entry
terminal_init_lem t l =
    let blank = vga_char b' ' 15 in
    (
      record {
        window = record {
          whole = length-fill_loop 2000 0 blank t.terminal_buffer ∙ l;
          column = refl;
          in_row = omega arith;
          row = refl;
          cells = λ j p.
              fill_loop-inside 2000 0 blank t.terminal_buffer j (omega arith) (omega arith)
                (omega arith);
          below = λ k p. refl;
        };
        on_screen = omega arith;
      },
      refl,
    )
