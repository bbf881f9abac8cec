-- ===== src/Printf/Rounds.antt =====
-- The rounds of `printf`, by what its format describes.
use doomkernel.Prelude.{
  ℕ, suc, ◌+◌, ◌-◌, ◌%◌, ◌≤◌, ◌≡◌, inl, inr, refl, true, false, Bool-cases, List, [], ◌∷◌, ◌++◌,
  map, ltb, ◌==◌, take, drop, length, arith,
}
use doomkernel.Prelude.Int.{pos}
use doomkernel.Terminal.{Terminal, terminal_put_char, terminal_write}
use doomkernel.Printf.Number.{hex_text, decimal_text}
use doomkernel.Printf.Render.{Conversion, known, missing, unknown, of_word, of_text, printf_convert}
use doomkernel.Printf.{
  eof, int_max, putchar, print, print_text, print_hex, print_decimal, Arg, word, text, Step, next,
  run, printed, print_plain, print_char, print_string, print_number, print_word, print_rest,
  directive,
}

-- the terminal when the characters have been written, each as a byte
abbrev pub shown : Terminal → List ℕ → Terminal
shown t [] = t
shown t (c ∷ out) = shown (terminal_put_char t (c % 256)) out

pub shown-append : (t : Terminal) (xs ys : List ℕ) → shown t (xs ++ ys) ≡ shown (shown t xs) ys
shown-append t [] ys = refl
shown-append t (x ∷ xs) ys = shown-append (terminal_put_char t (x % 256)) xs ys

pub shown-write :
    (t : Terminal) (out : List ℕ) → shown t out ≡ terminal_write t (map (λ c. c % 256) out)
unfolding terminal_write
shown-write t [] = refl
shown-write t (c ∷ out) = shown-write (terminal_put_char t (c % 256)) out

print_lem : (t : Terminal) (s : List ℕ) → print t s ≡ (shown t s, true)
unfolding print putchar terminal_write
print_lem t [] = refl
print_lem t (c ∷ s) =
    let e : (c % 256 == eof) ≡ false = ground arith in
    let twice : c % 256 % 256 ≡ c % 256 = omega arith in
    rw (e, twice) (print_lem (terminal_put_char t (c % 256)) s)

print_text_lem : (t : Terminal) (s : List ℕ) → print_text t s ≡ (shown t s, pos (length s))
unfolding print_text
print_text_lem t s = rw (print_lem t s) refl

pub printed_lem :
    (t : Terminal) (s : List ℕ) (written : ℕ) (format : List ℕ) (args : List Arg)
    → printed (print t s) written format args ≡ next (shown t s) written format args
unfolding printed
printed_lem t s written format args = rw (print_lem t s) refl

-- the round of the text up to the next '%', which its first character does not end
pub print_plain_lem :
    (t : Terminal) (written c : ℕ) (format : List ℕ) (args : List Arg)
    → written + suc (run format) ≤ int_max
    → print_plain t written (c ∷ format) args
      ≡ next
          (shown t (c ∷ take (run format) format))
          (written + suc (run format))
          (drop (run format) format)
          args
unfolding print_plain
print_plain_lem t written c format args h =
    let fits : ltb (int_max - written) (suc (run format)) ≡ false = ground arith in
    rw fits (printed_lem t (c ∷ take (run format) format) _ _ _)

print_number_lem :
    (t : Terminal) (s : List ℕ) (written : ℕ) (format : List ℕ) (args : List Arg)
    → print_number (print_text t s) written format args
      ≡ next (shown t s) (written + length s) format args
unfolding print_number
print_number_lem t s written format args = rw (print_text_lem t s) refl

-- what the round of a directive is by its conversion
abbrev pub Expected : Terminal → ℕ → ℕ → List ℕ → List Arg → Step → Conversion → Type 0
Expected t written c format args s (known out rest) =
    written + length out ≤ int_max → s ≡ next (shown t out) (written + length out) format rest
Expected t written c format args s missing = Unit
Expected t written c format args s unknown = s ≡ print_rest t written (b'%' ∷ c ∷ format) args

module _ (t : Terminal) (written c : ℕ) (format : List ℕ) where
  print_char_lem :
      (args : List Arg)
      → Expected t written c format args
          (print_char t written format args)
          (of_word (λ w. w % 256 ∷ []) args)
  unfolding print_char
  print_char_lem [] = tt
  print_char_lem (text s ∷ args) = tt
  print_char_lem (word w ∷ args) = λ h.
      let fits : (int_max - written == 0) ≡ false = ground arith in
      rw fits (printed_lem t (w % 256 ∷ []) _ _ _)

  print_string_lem :
      (args : List Arg)
      → Expected t written c format args (print_string t written format args) (of_text args)
  unfolding print_string
  print_string_lem [] = tt
  print_string_lem (word w ∷ args) = tt
  print_string_lem (text s ∷ args) = λ h.
      let fits : ltb (int_max - written) (length s) ≡ false = ground arith in
      rw fits (printed_lem t s _ _ _)

  print_hex_lem :
      (args : List Arg)
      → Expected t written c format args
          (print_word print_hex t written format args)
          (of_word hex_text args)
  unfolding print_word print_hex
  print_hex_lem [] = tt
  print_hex_lem (text s ∷ args) = tt
  print_hex_lem (word w ∷ args) = λ h. print_number_lem t (hex_text w) written format args

  print_decimal_lem :
      (args : List Arg)
      → Expected t written c format args
          (print_word print_decimal t written format args)
          (of_word decimal_text args)
  unfolding print_word print_decimal
  print_decimal_lem [] = tt
  print_decimal_lem (text s ∷ args) = tt
  print_decimal_lem (word w ∷ args) = λ h. print_number_lem t (decimal_text w) written format args

  pub directive_lem :
      (args : List Arg)
      → (c == b'%') ≡ false
      → Expected t written c format args
          (directive t written (c ∷ format) args)
          (printf_convert c args)
  unfolding directive
  directive_lem args ne = elim (Bool-cases (c == b'c')) [
    | inl e ↦ rw (ne, e) (print_char_lem args)
    | inr e1 ↦ elim (Bool-cases (c == b's')) [
      | inl e ↦ rw (ne, e1, e) (print_string_lem args)
      | inr e2 ↦ elim (Bool-cases (c == b'x')) [
        | inl e ↦ rw (ne, e1, e2, e) (print_hex_lem args)
        | inr e3 ↦ elim (Bool-cases (c == b'd')) [
          | inl e ↦ rw (ne, e1, e2, e3, e) (print_decimal_lem args)
          | inr e4 ↦ rw (ne, e1, e2, e3, e4) refl
        ]
      ]
    ]
  ]
