-- ===== src/Printf/Rendered.antt =====
-- The description of the printed text, by the parts of the format.
use mathlib.Core.List.{append_assoc}
use doomkernel.Prelude.{
  ℕ, zero, suc, ◌≤◌, ◌≡◌, inl, inr, refl, sym, ap, ◌∙◌, Bool, true, false, Bool-cases, Option, none,
  some, List, [], ◌∷◌, ◌++◌, ◌==◌, take, drop, length, arith,
}
use doomkernel.Printf.Render.{Conversion, known, missing, unknown, after, render}
use doomkernel.Printf.{Arg, run}

pub after-some :
    (xs : List ℕ) (o : Option (List ℕ)) (out : List ℕ)
    → after xs o ≡ some out
    → (ys : List ℕ) × (o ≡ some ys) × (out ≡ xs ++ ys)
after-some xs none out e = absurd (ground (arith, e))
after-some xs (some ys) out e = (ys, refl, ground (arith, e))

after-nil : (o : Option (List ℕ)) → after [] o ≡ o
after-nil none = refl
after-nil (some ys) = refl

after-after : (xs ys : List ℕ) (o : Option (List ℕ)) → after xs (after ys o) ≡ after (xs ++ ys) o
after-after xs ys none = refl
after-after xs ys (some zs) = ap some (sym (append_assoc xs ys zs))

module _ (convert : ℕ → List Arg → Conversion) where
  pub render-nil : (args : List Arg) → render convert false [] args ≡ some []
  unfolding render
  render-nil args = refl

  pub render-percent : (args : List Arg) → render convert true [] args ≡ some (b'%' ∷ [])
  unfolding render
  render-percent args = refl

  pub render-open :
      (c : ℕ) (format : List ℕ) (args : List Arg)
      → (c == b'%') ≡ true
      → render convert false (c ∷ format) args ≡ render convert true format args
  unfolding render
  render-open c format args e =
      ap
        (λ (b : Bool). elim b [
          | true ↦ render convert true format args
          | false ↦ after (c ∷ []) (render convert false format args)
        ])
        e

  pub render-other :
      (c : ℕ) (format : List ℕ) (args : List Arg)
      → (c == b'%') ≡ false
      → render convert false (c ∷ format) args ≡ after (c ∷ []) (render convert false format args)
  unfolding render
  render-other c format args e =
      ap
        (λ (b : Bool). elim b [
          | true ↦ render convert true format args
          | false ↦ after (c ∷ []) (render convert false format args)
        ])
        e

  -- the meaning of a conversion
  abbrev pub converted : ℕ → List ℕ → Conversion → Option (List ℕ)
  converted c format (known out rest) = after out (render convert false format rest)
  converted c format missing = none
  converted c format unknown = some (b'%' ∷ c ∷ format)

  pub render-directive :
      (c : ℕ) (format : List ℕ) (args : List Arg)
      → render convert true (c ∷ format) args ≡ converted c format (convert c args)
  unfolding render
  render-directive c format args =
      elim (convert c args)
        as (λ v.
          elim v as (λ x. Option (List ℕ)) [
            | known out rest ↦ after out (render convert false format rest)
            | missing ↦ none
            | unknown ↦ some (b'%' ∷ c ∷ format)
          ]
          ≡ converted c format v) [ known out rest ↦ refl | missing ↦ refl | unknown ↦ refl ]

  -- the characters before the next '%' stand for themselves
  pub render-take :
      (n : ℕ) (format : List ℕ) (args : List Arg)
      → n ≤ run format
      → render convert false format args
        ≡ after (take n format) (render convert false (drop n format) args)
  unfolding run
  render-take zero format args h = sym (after-nil (render convert false format args))
  render-take (suc n) [] args h = absurd (omega (arith, h))
  render-take (suc n) (c ∷ format) args h = elim (Bool-cases (c == b'%')) [
    | inl e ↦ absurd (ground (arith, e, h))
    | inr e ↦
        render-other c format args e
        ∙ ap (after (c ∷ [])) (render-take n format args (ground (arith, e, h)))
        ∙ after-after (c ∷ []) (take n format) (render convert false (drop n format) args)
  ]

  pub render-run :
      (format : List ℕ) (args : List Arg)
      → render convert false format args
        ≡ after (take (run format) format) (render convert false (drop (run format) format) args)
  render-run format args = render-take (run format) format args (omega arith)

pub length-take-run : (format : List ℕ) → length (take (run format) format) ≡ run format
unfolding run
length-take-run [] = refl
length-take-run (c ∷ format) = elim (Bool-cases (c == b'%')) [
  | inl e ↦ rw e refl
  | inr e ↦ rw e (ap suc (length-take-run format))
]
