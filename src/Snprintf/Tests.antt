-- ===== src/Snprintf/Tests.antt =====
-- Formatting into a buffer at concrete inputs.
use doomkernel.Prelude.{ℕ, ◌-◌, ◌^◌, ◌≡◌, refl, false, Option, none, some, List, [], ◌∷◌, arith}
use doomkernel.Prelude.Int.{ℤ, pos, negsuc}
use doomkernel.Memory.{Memory}
use doomkernel.Fs.Image.{Held}
use doomkernel.Printf.{Arg, word, text}
use doomkernel.Printf.Render.{snprintf_convert, render}
use doomkernel.Snprintf.Rounds.{Safe, Within}
use doomkernel.Snprintf.Safety.{snprintf-Safe}
use doomkernel.Snprintf.Equivalence.{snprintf-render}
use doomkernel.Snprintf.{narrow, as_int, Answer, answer, snprintf}

abbrev blank : Memory
blank = λ b. 7

-- "<%s>%c"
abbrev format : List ℕ
format = b'<' ∷ b'%' ∷ b's' ∷ b'>' ∷ b'%' ∷ b'c' ∷ []

abbrev args : List Arg
args = text (b'a' ∷ b'b' ∷ []) ∷ word b'!' ∷ []

-- "<ab>!"
abbrev out : List ℕ
out = b'<' ∷ b'a' ∷ b'b' ∷ b'>' ∷ b'!' ∷ []

rendered : render snprintf_convert false format args ≡ some out
unfolding render
rendered = refl

abbrev counted : Option Answer → Option ℤ
counted none = none
counted (some (answer m n)) = some n
counted (some other) = none

-- A string that does not fit makes the call fail, and a format that fills the buffer is cut off.
too_long : counted (snprintf blank 100 3 format args) ≡ some (negsuc 0)
unfolding snprintf
too_long = refl

cut_off : counted (snprintf blank 100 3 (b'a' ∷ b'b' ∷ b'c' ∷ []) []) ≡ some (pos 2)
unfolding snprintf
cut_off = refl

snprintf-Safe_example :
    (a : Answer) × (snprintf blank 100 3 format args ≡ some a) × Safe 100 3 blank a
snprintf-Safe_example =
    snprintf-Safe blank 100 3 format args (omega arith) (omega arith) (omega arith)

snprintf-render_example :
    (m' : Memory) × (snprintf blank 100 6 format args ≡ some (answer m' (pos 5)))
    × Held m' 100 (b'<' ∷ b'a' ∷ b'b' ∷ b'>' ∷ b'!' ∷ 0 ∷ [])
    × Within 100 6 blank m'
snprintf-render_example =
    snprintf-render blank 100 6 format args out rendered (omega arith) (omega arith) (omega arith)

-- The count of a text of 2^31 bytes is negative as an `int`.
wraps : as_int (narrow (2 ^ 31)) ≡ negsuc (2 ^ 31 - 1)
unfolding narrow as_int
wraps = refl
