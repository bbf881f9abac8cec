-- ===== src/Terminal/Scroll.antt =====
-- The loops over the screen, cell by cell.
use doomkernel.Prelude.{
  ℕ, zero, suc, ◌+◌, ◌-◌, ◌*◌, ◌≤◌, ◌<◌, ◌≡◌, ◌⊎◌, inl, refl, ap, ◌∙◌, List, get_or, set, length,
  length-set, get_or-set_self, get_or-set_ne, arith, ℕ_discrete, dec_lt,
}
use doomkernel.Terminal.{Terminal, fill_loop, copy_row, copy_rows, clear_last_line, vga_char}

pub length-fill_loop : (n i v : ℕ) (b : List ℕ) → length (fill_loop n i v b) ≡ length b
unfolding fill_loop
length-fill_loop zero i v b = refl
length-fill_loop (suc n) i v b = length-fill_loop n (i + 1) v (set b i v) ∙ length-set b i v

pub fill_loop-outside :
    (n i v : ℕ) (b : List ℕ) (j : ℕ)
    → (j < i) ⊎ (i + n ≤ j)
    → get_or (fill_loop n i v b) j 0 ≡ get_or b j 0
unfolding fill_loop
fill_loop-outside zero i v b j o = refl
fill_loop-outside (suc n) i v b j o =
    fill_loop-outside n (i + 1) v (set b i v) j (omega arith)
    ∙ get_or-set_ne b i j v 0 (λ e. absurd (omega (arith, e)))

pub fill_loop-inside :
    (n i v : ℕ) (b : List ℕ) (j : ℕ)
    → i + n ≤ length b
    → i ≤ j
    → j < i + n
    → get_or (fill_loop n i v b) j 0 ≡ v
unfolding fill_loop
fill_loop-inside zero i v b j l p q = absurd (omega arith)
fill_loop-inside (suc n) i v b j l p q = elim (ℕ_discrete j i) [
  | yes e ↦
      fill_loop-outside n (i + 1) v (set b i v) j (omega arith)
      ∙ ap (λ (k : ℕ). get_or (set b i v) k 0) e
      ∙ get_or-set_self b i v 0 (omega arith)
  | no ne ↦
      fill_loop-inside n (i + 1) v (set b i v) j (omega (arith, length-set b i v)) (omega arith)
        (omega arith)
]

pub length-copy_row : (n col row : ℕ) (b : List ℕ) → length (copy_row n col row b) ≡ length b
unfolding copy_row
length-copy_row zero col row b = refl
length-copy_row (suc n) col row b =
    length-copy_row n (col + 1) row _
    ∙ length-set b ((row - 1) * 80 + col) (get_or b (row * 80 + col) 0)

copy_row-outside :
    (n col row : ℕ) (b : List ℕ) (j : ℕ)
    → (j < (row - 1) * 80 + col) ⊎ ((row - 1) * 80 + col + n ≤ j)
    → get_or (copy_row n col row b) j 0 ≡ get_or b j 0
unfolding copy_row
copy_row-outside zero col row b j o = refl
copy_row-outside (suc n) col row b j o =
    copy_row-outside n (col + 1) row _ j (omega arith)
    ∙ get_or-set_ne b ((row - 1) * 80 + col) j (get_or b (row * 80 + col) 0) 0
        (λ e. absurd (omega (arith, e)))

copy_row-inside :
    (n col row : ℕ) (b : List ℕ) (j : ℕ)
    → 0 < row
    → col + n ≤ 80
    → row * 80 ≤ length b
    → (row - 1) * 80 + col ≤ j
    → j < (row - 1) * 80 + col + n
    → get_or (copy_row n col row b) j 0 ≡ get_or b (j + 80) 0
unfolding copy_row
copy_row-inside zero col row b j r c l p q = absurd (omega arith)
copy_row-inside (suc n) col row b j r c l p q =
    let at = (row - 1) * 80 + col in
    let v = get_or b (row * 80 + col) 0 in
    elim (ℕ_discrete j at) [
      | yes e ↦
          copy_row-outside n (col + 1) row (set b at v) j (omega arith)
          ∙ ap (λ (k : ℕ). get_or (set b at v) k 0) e
          ∙ get_or-set_self b at v 0 (omega arith)
          ∙ ap (λ (k : ℕ). get_or b k 0) (omega arith)
      | no ne ↦
          copy_row-inside n (col + 1) row (set b at v) j r (omega arith)
            (omega (arith, length-set b at v)) (omega arith) (omega arith)
          ∙ get_or-set_ne b at (j + 80) v 0 (λ e. absurd (omega (arith, e)))
    ]

pub length-copy_rows : (n row : ℕ) (b : List ℕ) → length (copy_rows n row b) ≡ length b
unfolding copy_rows
length-copy_rows zero row b = refl
length-copy_rows (suc n) row b =
    length-copy_rows n (row + 1) (copy_row 80 0 row b) ∙ length-copy_row 80 0 row b

copy_rows-outside :
    (n row : ℕ) (b : List ℕ) (j : ℕ)
    → (j < (row - 1) * 80) ⊎ ((row - 1 + n) * 80 ≤ j)
    → 0 < row
    → get_or (copy_rows n row b) j 0 ≡ get_or b j 0
unfolding copy_rows
copy_rows-outside zero row b j o r = refl
copy_rows-outside (suc n) row b j o r =
    copy_rows-outside n (row + 1) (copy_row 80 0 row b) j (omega arith) (omega arith)
    ∙ copy_row-outside 80 0 row b j (omega arith)

-- The rows from `row` on move up by one.
pub copy_rows-inside :
    (n row : ℕ) (b : List ℕ) (j : ℕ)
    → 0 < row
    → (row + n) * 80 ≤ length b
    → (row - 1) * 80 ≤ j
    → j < (row - 1 + n) * 80
    → get_or (copy_rows n row b) j 0 ≡ get_or b (j + 80) 0
unfolding copy_rows
copy_rows-inside zero row b j r l p q = absurd (omega arith)
copy_rows-inside (suc n) row b j r l p q = elim (dec_lt j (row * 80)) [
  | yes first ↦
      copy_rows-outside n (row + 1) (copy_row 80 0 row b) j (omega arith) (omega arith)
      ∙ copy_row-inside 80 0 row b j r (omega arith) (omega arith) (omega arith) (omega arith)
  | no later ↦
      copy_rows-inside n (row + 1) (copy_row 80 0 row b) j (omega arith)
        (omega (arith, length-copy_row 80 0 row b)) (omega arith) (omega arith)
      ∙ copy_row-outside 80 0 row b (j + 80) (omega arith)
]

module _ (t : Terminal) (l : length t.terminal_buffer ≡ 2000) where
  pub length-clear_last_line : length (clear_last_line t).terminal_buffer ≡ 2000
  unfolding clear_last_line
  length-clear_last_line =
      length-fill_loop 80 1920 (vga_char b' ' t.terminal_color) (copy_rows 24 1 t.terminal_buffer)
      ∙ length-copy_rows 24 1 t.terminal_buffer
      ∙ l

  -- All cells move up by a row, ...
  pub clear_last_line-above :
      (j : ℕ)
      → j < 1920
      → get_or (clear_last_line t).terminal_buffer j 0 ≡ get_or t.terminal_buffer (j + 80) 0
  unfolding clear_last_line
  clear_last_line-above j h =
      fill_loop-outside 80 1920 (vga_char b' ' t.terminal_color) (copy_rows 24 1 t.terminal_buffer)
        j (inl h)
      ∙ copy_rows-inside 24 1 t.terminal_buffer j (omega arith) (omega (arith, l)) (omega arith)
          (omega arith)

  -- ... and the last row is blank.
  pub clear_last_line-last :
      (j : ℕ)
      → 1920 ≤ j
      → j < 2000
      → get_or (clear_last_line t).terminal_buffer j 0 ≡ vga_char b' ' t.terminal_color
  unfolding clear_last_line
  clear_last_line-last j p q =
      fill_loop-inside 80 1920 (vga_char b' ' t.terminal_color) (copy_rows 24 1 t.terminal_buffer) j
        (omega (arith, length-copy_rows 24 1 t.terminal_buffer, l)) p q
