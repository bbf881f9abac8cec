-- ===== src/Snprintf/Stored.antt =====
-- The memory behind a text and its NUL.
use mathlib.Core.Path.{subst}
use doomkernel.Prelude.{ℕ, suc, ◌+◌, ◌%◌, ◌≡◌, ap, ◌∙◌, List, [], ◌∷◌, length, arith}
use doomkernel.Memory.{Memory, load8, store8}
use doomkernel.Memory.Laws.{load8_same, load8-store8, store8_ne}
use doomkernel.Fs.Image.{Held}
use doomkernel.Snprintf.{write_to_buffer}
use doomkernel.Snprintf.Rounds.{Within, write_to_buffer_outside}

-- the bytes of a text, and the NUL behind it
abbrev pub string_of : List ℕ → List ℕ
string_of [] = 0 ∷ []
string_of (c ∷ out) = c % 256 ∷ string_of out

pub write_to_buffer-Held :
    (m : Memory) (a : ℕ) (out : List ℕ)
    → Held (store8 (write_to_buffer m a out) (a + length out) 0) a (string_of out)
unfolding write_to_buffer
write_to_buffer-Held m a [] =
    (ap (load8 (store8 m (a + 0) 0)) (omega arith) ∙ load8-store8 m (a + 0) 0, tt)
write_to_buffer-Held m a (c ∷ out) =
    let m' = store8 m a c in
    let last = store8 (write_to_buffer m' (a + 1) out) (a + 1 + length out) 0 in
    let at : a + 1 + length out ≡ a + suc (length out) = omega arith in
    let kept : last a ≡ m' a =
      store8_ne (write_to_buffer m' (a + 1) out) (a + 1 + length out) 0 a
        (λ e. absurd (omega (arith, e)))
      ∙ write_to_buffer_outside m' (a + 1) out a (omega arith) in
    subst
      (λ (k : ℕ). Held (store8 (write_to_buffer m' (a + 1) out) k 0) a (c % 256 ∷ string_of out)) at
      (load8_same m' last a kept ∙ load8-store8 m a c, write_to_buffer-Held m' (a + 1) out)

pub write_to_buffer-Within :
    (m : Memory) (a : ℕ) (out : List ℕ)
    → Within a (length out + 1) m (store8 (write_to_buffer m a out) (a + length out) 0)
write_to_buffer-Within m a out = λ b far.
    store8_ne (write_to_buffer m a out) (a + length out) 0 b (λ e. absurd (omega (arith, e, far)))
    ∙ write_to_buffer_outside m a out b (omega (arith, far))
