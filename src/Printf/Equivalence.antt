-- ===== src/Printf/Equivalence.antt =====
-- `printf` prints what its format describes.
use mathlib.Core.List.{append-nil}
use doomkernel.Prelude.{
  ℕ, zero, suc, ◌+◌, ◌-◌, ◌%◌, ◌≤◌, ◌<◌, ◌≡◌, inl, inr, refl, sym, ap, ◌∙◌, true, false, Bool-cases,
  ==_iff, Option, some, List, [], ◌∷◌, ◌++◌, map, ltb, ◌==◌, take, drop, length, length-append,
  length-drop, arith,
}
use doomkernel.Prelude.Int.{pos}
use doomkernel.Terminal.{Terminal}
use doomkernel.Printf.Render.{Conversion, known, missing, unknown, printf_convert, render}
use doomkernel.Printf.Rendered.{
  after-some, render-run, render-nil, render-percent, render-open, render-other, render-directive,
  converted, length-take-run,
}
use doomkernel.Printf.Rounds.{
  shown, shown-append, shown-write, printed_lem, print_plain_lem, Expected, directive_lem,
}
use doomkernel.Terminal.{terminal_write}
use doomkernel.Terminal.Sheet.{Sheet, Shows, type_text, terminal_write_refines}
use doomkernel.Printf.{
  int_max, Arg, text, Result, returned, Step, stop, next, run, print_plain, print_rest, directive,
  printf_step, printf_loop, printf, puts,
}

-- the loop behind a round
abbrev continued : ℕ → Step → Option Result
continued fuel (stop r) = some r
continued fuel (next t written format args) = printf_loop fuel t written format args

loop-continued :
    (fuel : ℕ) (t : Terminal) (written : ℕ) (format : List ℕ) (args : List Arg)
    → printf_loop (suc fuel) t written format args
      ≡ continued fuel (printf_step t written format args)
unfolding printf_loop
loop-continued fuel t written format args =
    elim (printf_step t written format args)
      as (λ s.
        elim s as (λ x. Option Result) [
          | stop r ↦ some r
          | next t' written' format' args' ↦ printf_loop fuel t' written' format' args'
        ]
        ≡ continued fuel s) [ stop r ↦ refl | next t' written' format' args' ↦ refl ]

-- the result of a call that prints `out` behind the `written` characters before
abbrev prints : Terminal → ℕ → List ℕ → Option Result
prints t written out = some (returned (shown t out) (pos (written + length out)))

-- What is printed in two parts.
prints-append :
    (t : Terminal) (written : ℕ) {n : ℕ} (xs ys : List ℕ) {out : List ℕ}
    → length xs ≡ n
    → out ≡ xs ++ ys
    → prints (shown t xs) (written + n) ys ≡ prints t written out
prints-append t written {n} xs ys len e =
    rw (e, shown-append t xs ys, length-append xs ys)
      (ap (λ (k : ℕ). some (returned (shown (shown t xs) ys) (pos k))) (omega (arith, len)))

abbrev Prints : ℕ → Type 0
Prints fuel =
    (t : Terminal) (written : ℕ) (format : List ℕ) (args : List Arg) (out : List ℕ)
    → length format < fuel
    → render printf_convert false format args ≡ some out
    → written + length out ≤ int_max
    → printf_loop fuel t written format args ≡ prints t written out

print_rest_lem :
    (t : Terminal) (written : ℕ) (format : List ℕ) (args : List Arg)
    → written + length format ≤ int_max
    → print_rest t written format args ≡ next (shown t format) (written + length format) [] args
unfolding print_rest
print_rest_lem t written format args h =
    let fits : ltb (int_max - written) (length format) ≡ false = ground arith in
    rw fits (printed_lem t format _ _ _)

module _ (fuel : ℕ) (ih : Prints fuel) (t : Terminal) (written c : ℕ) (format : List ℕ) where
  plain_round :
      (args : List Arg) (out : List ℕ)
      → length format < fuel
      → render printf_convert false format args ≡ some out
      → written + suc (length out) ≤ int_max
      → continued fuel (print_plain t written (c ∷ format) args) ≡ prints t written (c ∷ out)
  plain_round args out enough e h =
      let amount = run format in
      let len = length-take-run format in
      let (ys, rest, parts) =
        after-some (take amount format) _ out (sym (render-run printf_convert format args) ∙ e) in
      let total : length out ≡ amount + length ys =
        ap length parts
        ∙ length-append (take amount format) ys
        ∙ ap (λ (k : ℕ). k + length ys) len in
      ap (continued fuel) (print_plain_lem t written c format args (omega (arith, total)))
      ∙ ih (shown t (c ∷ take amount format)) (written + suc amount) (drop amount format) args ys
          (omega (arith, length-drop amount format)) rest (omega (arith, total))
      ∙ prints-append t written (c ∷ take amount format) ys (ap suc len)
          (ap (λ (s : List ℕ). c ∷ s) parts)

  rest_round :
      (s : List ℕ) (args : List Arg)
      → 0 < fuel
      → written + length s ≤ int_max
      → continued fuel (print_rest t written s args) ≡ prints t written s
  rest_round s args enough h =
      ap (continued fuel) (print_rest_lem t written s args h)
      ∙ ih (shown t s) (written + length s) [] args [] enough (render-nil printf_convert args)
          (omega arith)
      ∙ prints-append t written s [] refl (sym (append-nil s))

  directive_round :
      (args : List Arg) (s : Step) (v : Conversion) (out : List ℕ)
      → length format < fuel
      → Expected t written c format args s v
      → converted printf_convert c format v ≡ some out
      → written + length out ≤ int_max
      → continued fuel s ≡ prints t written out
  directive_round args s (known first rest) out enough step e h =
      let (ys, behind, parts) = after-some first _ out e in
      let total : length out ≡ length first + length ys =
        ap length parts ∙ length-append first ys in
      ap (continued fuel) (step (omega (arith, total)))
      ∙ ih (shown t first) (written + length first) format rest ys enough behind
          (omega (arith, total))
      ∙ prints-append t written first ys refl parts
  directive_round args s missing out enough step e h = absurd (ground (arith, e))
  directive_round args s unknown out enough step e h =
      let same : out ≡ b'%' ∷ c ∷ format = ground (arith, e) in
      ap (continued fuel) step
      ∙ rest_round (b'%' ∷ c ∷ format) args (omega arith) (omega (arith, h, ap length same))
      ∙ ap (prints t written) (sym same)

-- The rounds by the first character, and behind a '%' by the next one.
percent_round :
    (fuel : ℕ)
    → Prints fuel
    → (t : Terminal) (written : ℕ) (format : List ℕ) (args : List Arg) (out : List ℕ)
    → length format < fuel
    → render printf_convert true format args ≡ some out
    → written + length out ≤ int_max
    → continued fuel (printf_step t written (b'%' ∷ format) args) ≡ prints t written out
unfolding printf_step directive
percent_round fuel ih t written [] args out enough e h =
    let same : out ≡ b'%' ∷ [] = ground (arith, e, render-percent printf_convert args) in
    rest_round fuel ih t written b'%' [] (b'%' ∷ []) args enough (omega (arith, h, ap length same))
    ∙ ap (prints t written) (sym same)
percent_round fuel ih t written (c ∷ format) args out enough e h = elim (Bool-cases (c == b'%')) [
  | inl twice ↦
      let is : c ≡ b'%' = (==_iff c b'%').0 twice in
      let kept : printf_convert c args ≡ known (b'%' ∷ []) args = rw twice refl in
      let (ys, behind, parts) =
        after-some (b'%' ∷ []) (render printf_convert false format args) out (
          sym (ap (converted printf_convert c format) kept)
          ∙ sym (render-directive printf_convert c format args)
          ∙ e) in
      rw twice (
        plain_round fuel ih t written c format args ys (omega arith) behind
          (omega (arith, h, ap length parts))
        ∙ ap (λ (d : ℕ). prints t written (d ∷ ys)) is
        ∙ ap (prints t written) (sym parts))
  | inr once ↦ rw once (
      directive_round fuel ih t written c format args (directive t written (c ∷ format) args)
        (printf_convert c args) out (omega arith) (directive_lem t written c format args once)
        (sym (render-directive printf_convert c format args) ∙ e) h)
]

round :
    (fuel : ℕ)
    → Prints fuel
    → (t : Terminal) (written : ℕ) (format : List ℕ) (args : List Arg) (out : List ℕ)
    → length format < suc fuel
    → render printf_convert false format args ≡ some out
    → written + length out ≤ int_max
    → continued fuel (printf_step t written format args) ≡ prints t written out
unfolding printf_step
round fuel ih t written [] args out enough e h =
    let same : out ≡ [] = ground (arith, e, render-nil printf_convert args) in
    ap (λ (k : ℕ). some (returned t (pos k))) (omega arith) ∙ ap (prints t written) (sym same)
round fuel ih t written (c ∷ format) args out enough e h = elim (Bool-cases (c == b'%')) [
  | inl opens ↦
      let is : c ≡ b'%' = (==_iff c b'%').0 opens in
      ap (λ (d : ℕ). continued fuel (printf_step t written (d ∷ format) args)) is
      ∙ percent_round fuel ih t written format args out (omega arith)
          (sym (render-open printf_convert c format args opens) ∙ e) h
  | inr other ↦
      let (ys, behind, parts) =
        after-some (c ∷ []) (render printf_convert false format args) out
          (sym (render-other printf_convert c format args other) ∙ e) in
      rw other (
        plain_round fuel ih t written c format args ys (omega arith) behind
          (omega (arith, h, ap length parts))
        ∙ ap (prints t written) (sym parts))
]

loop-Prints : (fuel : ℕ) → Prints fuel
loop-Prints zero = λ t written format args out enough e h. absurd (omega arith)
loop-Prints (suc fuel) = λ t written format args out enough e h.
    loop-continued fuel t written format args
    ∙ round fuel (loop-Prints fuel) t written format args out enough e h

-- Where the format and its arguments describe a text that is not longer than an `int` counts, `printf`
-- ends within its fuel, writes just that text on the terminal, and returns its length.
pub printf-render :
    (t : Terminal) (format : List ℕ) (args : List Arg) (out : List ℕ)
    → render printf_convert false format args ≡ some out
    → length out ≤ int_max
    → printf t format args ≡ some (returned (shown t out) (pos (length out)))
unfolding printf
printf-render t format args out e h =
    loop-Prints (suc (length format)) t 0 format args out (omega arith) e (omega arith)
    ∙ ap (λ (k : ℕ). some (returned (shown t out) (pos k))) (omega arith)

-- On a terminal that shows a sheet, `printf` types the described text on the sheet, each character as
-- a byte, where that text is not longer than an `int` counts: it returns a terminal that shows the
-- sheet with the text, and the length of the text.
pub printf-Shows :
    {t : Terminal} {s : Sheet} (format : List ℕ) (args : List Arg) (out : List ℕ)
    → Shows t s
    → render printf_convert false format args ≡ some out
    → length out ≤ int_max
    → (t' : Terminal) × (printf t format args ≡ some (returned t' (pos (length out))))
      × Shows t' (type_text t.terminal_color s (map (λ c. c % 256) out))
printf-Shows {t} {s} format args out v e h =
    let bytes = map (λ c. c % 256) out in
    (
      terminal_write t bytes,
      printf-render t format args out e h
          ∙ ap (λ (t' : Terminal). some (returned t' (pos (length out)))) (shown-write t out),
      (terminal_write_refines bytes v).0,
    )

-- `puts` writes a string and a new line.
pub puts_lem :
    (t : Terminal) (string : List ℕ)
    → length string + 1 ≤ int_max
    → puts t string ≡ some (returned (shown t (string ++ b'\n' ∷ [])) (pos (length string + 1)))
unfolding puts render
puts_lem t string h =
    let len = length-append string (b'\n' ∷ []) in
    printf-render t (b'%' ∷ b's' ∷ b'\n' ∷ []) (text string ∷ []) (string ++ b'\n' ∷ []) refl
      (omega (arith, len))
    ∙ ap (λ (k : ℕ). some (returned (shown t (string ++ b'\n' ∷ [])) (pos k))) len
