-- ===== src/Printf/Render.antt =====
-- What `printf` is to print: a description that reads the format one character at a time.
use doomkernel.Prelude.{
  ℕ, ◌%◌, Bool, true, false, Option, none, some, List, [], ◌∷◌, ◌++◌, ◌==◌, if◌then◌else◌,
}
use doomkernel.Printf.Number.{hex_text, decimal_text}
use doomkernel.Printf.{Arg, word, text}

-- what a directive stands for: a text, with the arguments that are left
pub data Conversion : Type 0 where
  known : List ℕ → List Arg → Conversion
  missing : Conversion
  unknown : Conversion

abbrev pub of_word : (ℕ → List ℕ) → List Arg → Conversion
of_word f [] = missing
of_word f (word w ∷ args) = known (f w) args
of_word f (text s ∷ args) = missing

abbrev pub of_text : List Arg → Conversion
of_text [] = missing
of_text (word w ∷ args) = missing
of_text (text s ∷ args) = known s args

-- the directive of the character behind '%' in `printf`
abbrev pub printf_convert : ℕ → List Arg → Conversion
printf_convert c args =
    if c == b'%'
    then known (b'%' ∷ []) args
    else if c == b'c'
    then of_word (λ w. w % 256 ∷ []) args
    else if c == b's'
    then of_text args
    else if c == b'x'
    then of_word hex_text args
    else if c == b'd'
    then of_word decimal_text args
    else unknown

-- the directives of `snprintf`
abbrev pub snprintf_convert : ℕ → List Arg → Conversion
snprintf_convert c args =
    if c == b'%'
    then known (b'%' ∷ []) args
    else if c == b'c'
    then of_word (λ w. w % 256 ∷ []) args
    else if c == b's'
    then of_text args
    else unknown

abbrev pub after : List ℕ → Option (List ℕ) → Option (List ℕ)
after xs none = none
after xs (some ys) = some (xs ++ ys)

-- By what the directives stand for. The flag tells that the last character was a '%' that opens a directive. An unknown directive ends
-- the formatting: it and all behind it are kept. `none` means a missing argument or one of the
-- other kind.
unfoldable pub render : (ℕ → List Arg → Conversion) → Bool → List ℕ → List Arg → Option (List ℕ)
render convert false [] args = some []
render convert true [] args = some (b'%' ∷ [])
render convert false (c ∷ format) args = elim (c == b'%') [
  | true ↦ render convert true format args
  | false ↦ after (c ∷ []) (render convert false format args)
]
render convert true (c ∷ format) args = elim (convert c args) [
  | known out rest ↦ after out (render convert false format rest)
  | missing ↦ none
  | unknown ↦ some (b'%' ∷ c ∷ format)
]
