-- ===== src/Snprintf/Rounds.antt =====
-- A round of `snprintf` writes in its buffer only.
use doomkernel.Prelude.{
  ℕ, ◌+◌, ◌-◌, ◌%◌, ◌^◌, ◌≤◌, ◌<◌, ◌≡◌, ◌⊎◌, inl, inr, refl, ◌∙◌, true, not, ◌&&◌, Bool-cases, List,
  [], ◌∷◌, ltb, ◌==◌, length, take, drop, length-take, length-drop, arith,
}
use doomkernel.Prelude.Int.{pos, negsuc}
use doomkernel.Memory.{Memory, add64, store8}
use doomkernel.Memory.Laws.{store8_self, store8_ne}
use doomkernel.Printf.{Arg, word, text, next_char}
use doomkernel.Snprintf.{
  narrow, as_int, write_to_buffer, Answer, answer, unspecified, Round, ended, goes_on, bounded_run,
  give_up, put_text, put_plain, put_char, put_string, put_directive, finish_text, snprintf_step,
}

pub narrow_lem : (n : ℕ) → n < 2 ^ 31 → narrow n ≡ n
unfolding narrow
narrow_lem n h = ground arith

pub as_int_lem : (n : ℕ) → n < 2 ^ 31 → as_int n ≡ pos n
unfolding as_int
as_int_lem n h = let low : ltb n (2 ^ 63) ≡ true = ground arith in rw low refl

-- `m'` differs from `m` at most in the `n` bytes from `a` on
abbrev pub Within : ℕ → ℕ → Memory → Memory → Type 0
Within a n m m' = (b : ℕ) → (b < a) ⊎ (a + n ≤ b) → m' b ≡ m b

pub Within-trans : (a n : ℕ) (m g k : Memory) → Within a n m g → Within a n g k → Within a n m k
Within-trans a n m g k s t = λ b h. t b h ∙ s b h

store8-Within : (a n : ℕ) (m : Memory) (i v : ℕ) → i < n → Within a n m (store8 m (a + i) v)
store8-Within a n m i v h = λ b out. store8_ne m (a + i) v b (λ e. absurd (omega (arith, e, out)))

pub write_to_buffer_outside :
    (m : Memory) (a : ℕ) (bytes : List ℕ) → Within a (length bytes) m (write_to_buffer m a bytes)
unfolding write_to_buffer
write_to_buffer_outside m a [] = λ b out. refl
write_to_buffer_outside m a (c ∷ bytes) = λ b out.
    write_to_buffer_outside (store8 m a c) (a + 1) bytes b (omega arith)
    ∙ store8_ne m a c b (λ e. absurd (omega (arith, e, out)))

write_to_buffer-Within :
    (a n : ℕ) (m : Memory) (i : ℕ) (bytes : List ℕ)
    → i + length bytes ≤ n
    → Within a n m (write_to_buffer m (a + i) bytes)
write_to_buffer-Within a n m i bytes h =
    λ b out. write_to_buffer_outside m (a + i) bytes b (omega arith)

-- an answer that has changed the `value` bytes of the buffer at most, with a NUL in it: behind the
-- text that is counted, or at some place when -1 is returned
abbrev pub Safe : ℕ → ℕ → Memory → Answer → Type 0
Safe buffer value m (answer m' (pos n)) =
    Within buffer value m m' × (n < value) × (m' (buffer + n) ≡ 0)
Safe buffer value m (answer m' (negsuc k)) =
    Within buffer value m m' × (n : ℕ) × (n < value) × (m' (buffer + n) ≡ 0)
Safe buffer value m unspecified = Unit

module _ (buffer limit : ℕ) where
  -- a round ends safely, or it goes on in the buffer with less of the format
  abbrev pub SafeRound : Memory → List ℕ → Round → Type 0
  SafeRound m format (ended a) = Safe buffer (limit + 1) m a
  SafeRound m format (goes_on m' written' format' args') =
      Within buffer (limit + 1) m m' × (written' ≤ limit) × (length format' < length format)

module _ (buffer limit : ℕ) (range : buffer + limit < 2 ^ 64) (small : limit < 2 ^ 31) (m : Memory)
    (written : ℕ) (h : written ≤ limit) (whole : List ℕ) where
  at_written : add64 buffer written ≡ buffer + written
  at_written = omega arith

  give_up-SafeRound : SafeRound buffer limit m whole (give_up buffer limit m written)
  unfolding give_up
  give_up-SafeRound = rw at_written (
    store8-Within buffer (limit + 1) m written 0 (omega arith),
    written,
    omega arith,
    store8_self m (buffer + written) 0,
  )

  finish_text-SafeRound : SafeRound buffer limit m whole (finish_text buffer limit m written)
  unfolding finish_text
  finish_text-SafeRound =
      rw (at_written, as_int_lem written (omega arith))
        (
          store8-Within buffer (limit + 1) m written 0 (omega arith),
          omega arith,
          store8_self m (buffer + written) 0,
        )

  put_text-SafeRound :
      (bytes format : List ℕ) (args : List Arg)
      → length format < length whole
      → SafeRound buffer limit m whole (put_text buffer limit m written bytes format args)
  unfolding put_text
  put_text-SafeRound bytes format args less =
      elim (Bool-cases (ltb (limit - written) (length bytes))) [
        | inl e ↦ rw e give_up-SafeRound
        | inr e ↦
            let fits : written + length bytes ≤ limit = ground (arith, e) in
            rw (e, at_written, narrow_lem (written + length bytes) (omega arith))
              (write_to_buffer-Within buffer (limit + 1) m written bytes (omega arith), fits, less)
      ]

bounded_run-least : (limit amount : ℕ) (format : List ℕ) → amount ≤ bounded_run limit amount format
unfolding bounded_run
bounded_run-least limit amount [] = omega arith
bounded_run-least limit amount (c ∷ format) =
    elim (Bool-cases (not (c == b'%') && ltb amount limit)) [
      | inl e ↦ rw e (omega (arith, bounded_run-least limit (amount + 1) format))
      | inr e ↦ rw e (omega arith)
    ]

module _ (buffer limit : ℕ) (range : buffer + limit < 2 ^ 64) (small : limit < 2 ^ 31) (m : Memory)
    (written : ℕ) (h : written ≤ limit) where
  abbrev Keeps : List ℕ → Round → Type 0
  Keeps whole r = SafeRound buffer limit m whole r

  put_plain-SafeRound :
      (whole : List ℕ) (c : ℕ) (format : List ℕ) (args : List Arg)
      → length (c ∷ format) ≤ length whole
      → Keeps whole (put_plain buffer limit m written (c ∷ format) args)
  unfolding put_plain
  put_plain-SafeRound whole c format args less =
      let amount = bounded_run limit 1 format in
      let least = bounded_run-least limit 1 format in
      elim (Bool-cases (ltb (limit - written) amount)) [
        | inl e ↦ rw e (give_up-SafeRound buffer limit range small m written h whole)
        | inr e ↦
            let fits : written + amount ≤ limit = ground (arith, e) in
            let here = at_written buffer limit range small m written h whole in
            rw (e, here, narrow_lem (written + amount) (omega arith))
              (
                write_to_buffer-Within buffer (limit + 1) m written (take amount (c ∷ format))
                    (omega (arith, fits, length-take amount (c ∷ format))),
                fits,
                omega (arith, length-drop amount (c ∷ format), least, less),
              )
      ]

  put_char-SafeRound :
      (whole format : List ℕ) (args : List Arg)
      → length format < length whole
      → Keeps whole (put_char buffer limit m written format args)
  unfolding put_char
  put_char-SafeRound whole format [] less = tt
  put_char-SafeRound whole format (text s ∷ args) less = tt
  put_char-SafeRound whole format (word w ∷ args) less = elim (Bool-cases (limit - written == 0)) [
    | inl e ↦ rw e (give_up-SafeRound buffer limit range small m written h whole)
    | inr e ↦
        let fits : written + 1 ≤ limit = ground (arith, e) in
        let here = at_written buffer limit range small m written h whole in
        rw (e, here, narrow_lem (written + 1) (omega arith))
          (
            write_to_buffer-Within buffer (limit + 1) m written (w % 256 ∷ []) (omega arith),
            fits,
            less,
          )
  ]

  put_string-SafeRound :
      (whole format : List ℕ) (args : List Arg)
      → length format < length whole
      → Keeps whole (put_string buffer limit m written format args)
  unfolding put_string
  put_string-SafeRound whole format [] less = tt
  put_string-SafeRound whole format (word w ∷ args) less = tt
  put_string-SafeRound whole format (text s ∷ args) less =
      put_text-SafeRound buffer limit range small m written h whole s format args less

  put_directive-SafeRound :
      (c : ℕ) (format : List ℕ) (args : List Arg)
      → Keeps (c ∷ format) (put_directive buffer limit m written format args)
  unfolding put_directive
  put_directive-SafeRound c format args =
      let less : length (drop 1 format) < length (c ∷ format) =
        omega (arith, length-drop 1 format) in
      elim (Bool-cases (next_char format == b'c')) [
        | inl e ↦ rw e (put_char-SafeRound (c ∷ format) (drop 1 format) args less)
        | inr e ↦ elim (Bool-cases (next_char format == b's')) [
          | inl f ↦ rw (e, f) (put_string-SafeRound (c ∷ format) (drop 1 format) args less)
          | inr f ↦
              rw (e, f)
                (put_text-SafeRound buffer limit range small m written h (c ∷ format)
                  (b'%' ∷ format) [] args (omega arith))
        ]
      ]

  percent-SafeRound :
      (c : ℕ) (format : List ℕ) (args : List Arg)
      → (next_char format == b'%') ≡ true
      → Keeps (c ∷ format) (put_plain buffer limit m written format args)
  percent-SafeRound c [] args e = absurd (ground (arith, e))
  percent-SafeRound c (d ∷ format) args e =
      put_plain-SafeRound (c ∷ d ∷ format) d format args (omega arith)

  pub snprintf_step-SafeRound :
      (format : List ℕ) (args : List Arg)
      → Keeps format (snprintf_step buffer limit m written format args)
  unfolding snprintf_step
  snprintf_step-SafeRound [] args = finish_text-SafeRound buffer limit range small m written h []
  snprintf_step-SafeRound (c ∷ format) args = elim (Bool-cases (ltb written limit)) [
    | inr e ↦ rw e (finish_text-SafeRound buffer limit range small m written h (c ∷ format))
    | inl e ↦ elim (Bool-cases (c == b'%')) [
      | inr f ↦ rw (e, f) (put_plain-SafeRound (c ∷ format) c format args (omega arith))
      | inl f ↦ elim (Bool-cases (next_char format == b'%')) [
        | inl g ↦ rw (e, f, g) (percent-SafeRound c format args g)
        | inr g ↦ rw (e, f, g) (put_directive-SafeRound c format args)
      ]
    ]
  ]
