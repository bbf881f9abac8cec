-- ===== src/Snprintf/Equivalence.antt =====
-- `snprintf` writes what its format describes, where the buffer has room.
use mathlib.Core.List.{append-nil}
use doomkernel.Prelude.{
  ℕ, zero, suc, ◌+◌, ◌-◌, ◌^◌, ◌≤◌, ◌<◌, ◌≡◌, inl, inr, refl, sym, ap, ◌∙◌, true, false, Bool-cases,
  ==_iff, some, List, [], ◌∷◌, ltb, ◌==◌, length, take, drop, length-take, length-drop,
  length-append, arith,
}
use doomkernel.Prelude.Int.{pos}
use doomkernel.Memory.{Memory, add64, store8}
use doomkernel.Fs.Image.{Held}
use doomkernel.Printf.{Arg, run}
use doomkernel.Printf.Render.{Conversion, known, missing, unknown, snprintf_convert, render}
use doomkernel.Printf.Rendered.{
  after-some, render-take, render-nil, render-percent, render-open, render-other, render-directive,
  converted, length-take-run,
}
use doomkernel.Snprintf.{
  write_to_buffer, answer, Round, ended, bounded_run, put_text, put_plain, put_directive,
  finish_text, snprintf_step, snprintf_loop, snprintf,
}
use doomkernel.Snprintf.Text.{
  bounded_run-run, filled, filled-append, put_text_lem, Expected, put_directive_lem,
}
use doomkernel.Snprintf.Rounds.{narrow_lem, as_int_lem, Within}
use doomkernel.Snprintf.Stored.{string_of, write_to_buffer-Held, write_to_buffer-Within}
use doomkernel.Snprintf.Safety.{InRange, continued, loop-continued}

abbrev Fills : ℕ → ℕ → ℕ → Type 0
Fills fuel buffer limit =
    (m : Memory) (written : ℕ) (format : List ℕ) (args : List Arg) (out : List ℕ)
    → length format < fuel
    → render snprintf_convert false format args ≡ some out
    → written + length out ≤ limit
    → snprintf_loop buffer limit fuel m written format args ≡ some (filled buffer m written out)

finish_text_lem :
    (buffer limit : ℕ) (m : Memory) (written : ℕ) (out : List ℕ)
    → InRange buffer limit
    → written ≤ limit
    → length out ≡ 0
    → finish_text buffer limit m written ≡ ended (filled buffer m written out)
unfolding finish_text write_to_buffer
finish_text_lem buffer limit m written [] range le e =
    let here : add64 buffer written ≡ buffer + written = omega (arith, le, range) in
    rw (here, as_int_lem written (omega (arith, le, range)))
      (ap (λ (k : ℕ). ended (answer (store8 m (buffer + k) 0) (pos k))) (omega arith))
finish_text_lem buffer limit m written (c ∷ out) range le e = absurd (omega (arith, e))

module _ (fuel buffer limit : ℕ) (range : InRange buffer limit) (ih : Fills fuel buffer limit)
    (m : Memory) (written c : ℕ) (format : List ℕ) where
  plain_round :
      (args : List Arg) (out : List ℕ)
      → length format < fuel
      → render snprintf_convert false format args ≡ some out
      → written + suc (length out) ≤ limit
      → continued buffer limit fuel (put_plain buffer limit m written (c ∷ format) args)
        ≡ some (filled buffer m written (c ∷ out))
  unfolding put_plain
  plain_round args out enough e h =
      let (k, amount, before) = bounded_run-run limit 1 format in
      let is : bounded_run limit 1 format ≡ suc k = omega (arith, amount) in
      let whole = length-take (run format) format in
      let len : length (take k format) ≡ k =
        omega (arith, length-take k format, before, whole, length-take-run format) in
      let (ys, rest, parts) =
        after-some (take k format) (render snprintf_convert false (drop k format) args) out
          (sym (render-take snprintf_convert k format args before) ∙ e) in
      let total : length out ≡ k + length ys =
        ap length parts ∙ length-append (take k format) ys ∙ ap (λ (j : ℕ). j + length ys) len in
      let fits : ltb (limit - written) (suc k) ≡ false = ground (arith, total, h) in
      let here : add64 buffer written ≡ buffer + written = omega (arith, h, range) in
      rw (is, fits, here, narrow_lem (written + suc k) (omega (arith, total, h, range)))
        (ih (write_to_buffer m (buffer + written) (c ∷ take k format)) (written + suc k)
            (drop k format) args ys (omega (arith, length-drop k format)) rest
            (omega (arith, total))
          ∙ ap some (
              filled-append buffer m written (suc k) (c ∷ take k format) ys (c ∷ out) (ap suc len)
                (ap (λ (s : List ℕ). c ∷ s) parts)))

  rest_round :
      (s : List ℕ) (args : List Arg)
      → 0 < fuel
      → written + length s ≤ limit
      → continued buffer limit fuel (put_text buffer limit m written s [] args)
        ≡ some (filled buffer m written s)
  rest_round s args enough h =
      ap (continued buffer limit fuel) (put_text_lem buffer limit range m written s [] args h)
      ∙ ih (write_to_buffer m (buffer + written) s) (written + length s) [] args [] enough
          (render-nil snprintf_convert args) (omega arith)
      ∙ ap some (filled-append buffer m written (length s) s [] s refl (sym (append-nil s)))

  directive_round :
      (args : List Arg) (r : Round) (v : Conversion) (out : List ℕ)
      → length format < fuel
      → Expected buffer limit range m written c format args r v
      → converted snprintf_convert c format v ≡ some out
      → written + length out ≤ limit
      → continued buffer limit fuel r ≡ some (filled buffer m written out)
  directive_round args r (known first rest) out enough step e h =
      let (ys, behind, parts) =
        after-some first (render snprintf_convert false format rest) out e in
      let total : length out ≡ length first + length ys =
        ap length parts ∙ length-append first ys in
      ap (continued buffer limit fuel) (step (omega (arith, total)))
      ∙ ih (write_to_buffer m (buffer + written) first) (written + length first) format rest ys
          enough behind (omega (arith, total))
      ∙ ap some (filled-append buffer m written (length first) first ys out refl parts)
  directive_round args r missing out enough step e h = absurd (ground (arith, e))
  directive_round args r unknown out enough step e h =
      let same : out ≡ b'%' ∷ c ∷ format = ground (arith, e) in
      ap (continued buffer limit fuel) step
      ∙ rest_round (b'%' ∷ c ∷ format) args (omega arith) (omega (arith, h, ap length same))
      ∙ ap (λ (s : List ℕ). some (filled buffer m written s)) (sym same)

-- The rounds of a '%', by the next character.
percent_round :
    (fuel buffer limit : ℕ)
    → InRange buffer limit
    → Fills fuel buffer limit
    → (m : Memory) (written : ℕ) (format : List ℕ) (args : List Arg) (out : List ℕ)
    → length format < fuel
    → ltb written limit ≡ true
    → render snprintf_convert true format args ≡ some out
    → written + length out ≤ limit
    → continued buffer limit fuel (snprintf_step buffer limit m written (b'%' ∷ format) args)
      ≡ some (filled buffer m written out)
unfolding snprintf_step put_directive
percent_round fuel buffer limit range ih m written [] args out enough room e h =
    let same : out ≡ b'%' ∷ [] = ground (arith, e, render-percent snprintf_convert args) in
    rw room (
      rest_round fuel buffer limit range ih m written b'%' [] (b'%' ∷ []) args enough
        (omega (arith, h, ap length same))
      ∙ ap (λ (s : List ℕ). some (filled buffer m written s)) (sym same))
percent_round fuel buffer limit range ih m written (c ∷ format) args out enough room e h =
    elim (Bool-cases (c == b'%')) [
      | inl twice ↦
          let is : c ≡ b'%' = (==_iff c b'%').0 twice in
          let kept : snprintf_convert c args ≡ known (b'%' ∷ []) args = rw twice refl in
          let (ys, behind, parts) =
            after-some (b'%' ∷ []) (render snprintf_convert false format args) out (
              sym (ap (converted snprintf_convert c format) kept)
              ∙ sym (render-directive snprintf_convert c format args)
              ∙ e) in
          rw (room, twice)
            (plain_round fuel buffer limit range ih m written c format args ys (omega arith) behind
                (omega (arith, h, ap length parts))
              ∙ ap (λ (d : ℕ). some (filled buffer m written (d ∷ ys))) is
              ∙ ap (λ (s : List ℕ). some (filled buffer m written s)) (sym parts))
      | inr once ↦
          rw (room, once)
            (directive_round fuel buffer limit range ih m written c format args
              (put_directive buffer limit m written (c ∷ format) args) (snprintf_convert c args) out
              (omega arith) (put_directive_lem buffer limit range m written c format args once)
              (sym (render-directive snprintf_convert c format args) ∙ e) h)
    ]

round :
    (fuel buffer limit : ℕ)
    → InRange buffer limit
    → Fills fuel buffer limit
    → (m : Memory) (written : ℕ) (format : List ℕ) (args : List Arg) (out : List ℕ)
    → length format < suc fuel
    → render snprintf_convert false format args ≡ some out
    → written + length out ≤ limit
    → continued buffer limit fuel (snprintf_step buffer limit m written format args)
      ≡ some (filled buffer m written out)
unfolding snprintf_step
round fuel buffer limit range ih m written [] args out enough e h =
    let same : out ≡ [] = ground (arith, e, render-nil snprintf_convert args) in
    ap (continued buffer limit fuel)
      (finish_text_lem buffer limit m written out range (omega (arith, h)) (ap length same))
round fuel buffer limit range ih m written (c ∷ format) args out enough e h =
    elim (Bool-cases (ltb written limit)) [
      | inr full ↦ rw full (
          ap (continued buffer limit fuel) (
            finish_text_lem buffer limit m written out range (omega (arith, h))
              (ground (arith, full, h))))
      | inl room ↦ elim (Bool-cases (c == b'%')) [
        | inl opens ↦
            let is : c ≡ b'%' = (==_iff c b'%').0 opens in
            ap
              (λ (d : ℕ).
                continued buffer limit fuel
                  (snprintf_step buffer limit m written (d ∷ format) args))
              is
            ∙ percent_round fuel buffer limit range ih m written format args out (omega arith) room
                (sym (render-open snprintf_convert c format args opens) ∙ e) h
        | inr other ↦
            let (ys, behind, parts) =
              after-some (c ∷ []) (render snprintf_convert false format args) out
                (sym (render-other snprintf_convert c format args other) ∙ e) in
            rw (room, other)
              (plain_round fuel buffer limit range ih m written c format args ys (omega arith)
                  behind (omega (arith, h, ap length parts))
                ∙ ap (λ (s : List ℕ). some (filled buffer m written s)) (sym parts))
      ]
    ]

loop-Fills : (fuel buffer limit : ℕ) → InRange buffer limit → Fills fuel buffer limit
loop-Fills zero buffer limit range = λ m written format args out enough e h. absurd (omega arith)
loop-Fills (suc fuel) buffer limit range = λ m written format args out enough e h.
    sym (loop-continued fuel buffer limit m written format args)
    ∙ round fuel buffer limit range (loop-Fills fuel buffer limit range) m written format args out
        enough e h

filled-snprintf :
    (m : Memory) (buffer value : ℕ) (format : List ℕ) (args : List Arg) (out : List ℕ)
    → render snprintf_convert false format args ≡ some out
    → length out < value
    → InRange buffer (value - 1)
    → snprintf m buffer value format args ≡ some (filled buffer m 0 out)
unfolding snprintf
filled-snprintf m buffer value format args out e h range =
    let some_room : (value == 0) ≡ false = ground arith in
    rw some_room (
      loop-Fills (suc (length format)) buffer (value - 1) range m 0 format args out (omega arith) e
        (omega arith))

-- Where the format and its arguments describe a text that with its NUL fits the buffer, of 2^31 bytes at most and
-- below the end of the address space, `snprintf` ends within its fuel and returns the length of
-- the text; the bytes of the text, the low ones of its characters, stand at the start of the buffer, a NUL
-- behind them, and no other byte of the memory has changed.
pub snprintf-render :
    (m : Memory) (buffer value : ℕ) (format : List ℕ) (args : List Arg) (out : List ℕ)
    → render snprintf_convert false format args ≡ some out
    → length out < value
    → value ≤ 2 ^ 31
    → buffer + value ≤ 2 ^ 64
    → (m' : Memory) × (snprintf m buffer value format args ≡ some (answer m' (pos (length out))))
      × Held m' buffer (string_of out)
      × Within buffer (length out + 1) m m'
snprintf-render m buffer value format args out e h top end =
    let start : buffer + 0 ≡ buffer = omega arith in
    let whole = filled-snprintf m buffer value format args out e h (omega arith, omega arith) in
    (
      store8 (write_to_buffer m buffer out) (buffer + length out) 0,
      whole
          ∙ ap
              (λ (a : ℕ). some (
                answer (store8 (write_to_buffer m a out) (buffer + (0 + length out)) 0)
                  (pos (0 + length out))))
              start
          ∙ ap
              (λ (k : ℕ).
                some (answer (store8 (write_to_buffer m buffer out) (buffer + k) 0) (pos k)))
              (omega arith),
      write_to_buffer-Held m buffer out,
      write_to_buffer-Within m buffer out,
    )
