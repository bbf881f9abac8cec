-- ===== src/Snprintf/Text.antt =====
-- The rounds of `snprintf` where the buffer has room.
use doomkernel.Prelude.{
  ℕ, ◌+◌, ◌-◌, ◌%◌, ◌≤◌, ◌≡◌, inl, inr, refl, sym, ap, ◌∙◌, false, not, ◌&&◌, Bool-cases, List, [],
  ◌∷◌, ◌++◌, ltb, ◌==◌, length, length-append, arith,
}
use doomkernel.Prelude.Int.{pos}
use doomkernel.Memory.{Memory, add64, store8}
use doomkernel.Printf.{Arg, word, text, run}
use doomkernel.Printf.Render.{
  Conversion, known, missing, unknown, of_word, of_text, snprintf_convert,
}
use doomkernel.Snprintf.Rounds.{narrow_lem}
use doomkernel.Snprintf.Safety.{InRange}
use doomkernel.Snprintf.{
  write_to_buffer, Answer, answer, Round, goes_on, bounded_run, put_text, put_char, put_string,
  put_directive,
}

write_to_buffer-append :
    (m : Memory) (a : ℕ) (xs ys : List ℕ)
    → write_to_buffer m a (xs ++ ys) ≡ write_to_buffer (write_to_buffer m a xs) (a + length xs) ys
unfolding write_to_buffer
write_to_buffer-append m a [] ys = ap (λ (b : ℕ). write_to_buffer m b ys) (omega arith)
write_to_buffer-append m a (x ∷ xs) ys =
    write_to_buffer-append (store8 m a x) (a + 1) xs ys
    ∙ ap (λ (b : ℕ). write_to_buffer (write_to_buffer (store8 m a x) (a + 1) xs) b ys) (omega arith)

-- the run is cut short by the limit only
pub bounded_run-run :
    (limit amount : ℕ) (format : List ℕ)
    → (k : ℕ) × (bounded_run limit amount format ≡ amount + k) × (k ≤ run format)
unfolding bounded_run run
bounded_run-run limit amount [] = (0, omega arith, omega arith)
bounded_run-run limit amount (c ∷ format) =
    let (k, e, h) = bounded_run-run limit (amount + 1) format in
    elim (Bool-cases (not (c == b'%') && ltb amount limit)) [
      | inl more ↦
          let plain : (c == b'%') ≡ false = ground (arith, more) in
          rw (more, plain) (k + 1, omega (arith, e), omega (arith, h))
      | inr ends ↦ rw ends (0, omega arith, omega arith)
    ]

-- the memory and the result when `out` is put behind the `written` characters before
abbrev pub filled : ℕ → Memory → ℕ → List ℕ → Answer
filled buffer m written out =
    answer (store8 (write_to_buffer m (buffer + written) out) (buffer + (written + length out)) 0)
      (pos (written + length out))

pub filled-append :
    (buffer : ℕ) (m : Memory) (written n : ℕ) (xs ys out : List ℕ)
    → length xs ≡ n
    → out ≡ xs ++ ys
    → filled buffer (write_to_buffer m (buffer + written) xs) (written + n) ys
      ≡ filled buffer m written out
filled-append buffer m written n xs ys out len e =
    let total : written + n + length ys ≡ written + length out =
      omega (arith, len, ap length e, length-append xs ys) in
    let at : buffer + (written + n) ≡ buffer + written + length xs = omega (arith, len) in
    ap
      (λ (k : ℕ).
        answer
          (store8
            (write_to_buffer (write_to_buffer m (buffer + written) xs) (buffer + (written + n)) ys)
            (buffer + k) 0)
          (pos k))
      total
    ∙ ap
        (λ (b : ℕ).
          answer
            (store8 (write_to_buffer (write_to_buffer m (buffer + written) xs) b ys)
              (buffer + (written + length out)) 0)
            (pos (written + length out)))
        at
    ∙ ap
        (λ (g : Memory).
          answer (store8 g (buffer + (written + length out)) 0) (pos (written + length out)))
        (sym (write_to_buffer-append m (buffer + written) xs ys)
          ∙ ap (write_to_buffer m (buffer + written)) (sym e))

module _ (buffer limit : ℕ) (range : InRange buffer limit) (m : Memory) (written : ℕ) where
  pub put_text_lem :
      (bytes format : List ℕ) (args : List Arg)
      → written + length bytes ≤ limit
      → put_text buffer limit m written bytes format args
        ≡ goes_on (write_to_buffer m (buffer + written) bytes) (written + length bytes) format args
  unfolding put_text
  put_text_lem bytes format args h =
      let fits : ltb (limit - written) (length bytes) ≡ false = ground arith in
      let here : add64 buffer written ≡ buffer + written = omega (arith, h, range) in
      rw (fits, here, narrow_lem (written + length bytes) (omega (arith, h, range))) refl

  -- what the round of a directive is by its conversion
  abbrev pub Expected : ℕ → List ℕ → List Arg → Round → Conversion → Type 0
  Expected c format args r (known out rest) =
      written + length out ≤ limit
      → r ≡ goes_on (write_to_buffer m (buffer + written) out) (written + length out) format rest
  Expected c format args r missing = Unit
  Expected c format args r unknown = r ≡ put_text buffer limit m written (b'%' ∷ c ∷ format) [] args

  put_char_lem :
      (c : ℕ) (format : List ℕ) (args : List Arg)
      → Expected c format args
          (put_char buffer limit m written format args)
          (of_word (λ w. w % 256 ∷ []) args)
  unfolding put_char
  put_char_lem c format [] = tt
  put_char_lem c format (text s ∷ args) = tt
  put_char_lem c format (word w ∷ args) = λ h.
      let room : (limit - written == 0) ≡ false = ground arith in
      let here : add64 buffer written ≡ buffer + written = omega (arith, h, range) in
      rw (room, here, narrow_lem (written + 1) (omega (arith, h, range))) refl

  put_string_lem :
      (c : ℕ) (format : List ℕ) (args : List Arg)
      → Expected c format args (put_string buffer limit m written format args) (of_text args)
  unfolding put_string
  put_string_lem c format [] = tt
  put_string_lem c format (word w ∷ args) = tt
  put_string_lem c format (text s ∷ args) = put_text_lem s format args

  pub put_directive_lem :
      (c : ℕ) (format : List ℕ) (args : List Arg)
      → (c == b'%') ≡ false
      → Expected c format args
          (put_directive buffer limit m written (c ∷ format) args)
          (snprintf_convert c args)
  unfolding put_directive
  put_directive_lem c format args ne = elim (Bool-cases (c == b'c')) [
    | inl e ↦ rw (ne, e) (put_char_lem c format args)
    | inr e1 ↦ elim (Bool-cases (c == b's')) [
      | inl e ↦ rw (ne, e1, e) (put_string_lem c format args)
      | inr e2 ↦ rw (ne, e1, e2) refl
    ]
  ]
