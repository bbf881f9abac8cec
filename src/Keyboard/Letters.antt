-- ===== src/Keyboard/Letters.antt =====
-- The two tables and caps lock: which case a letter key types.
use doomkernel.Prelude.{
  all_below, all_below_lem, ℕ, ◌-◌, ◌≤◌, ◌<◌, ◌≡◌, refl, Bool, true, false, ◌&&◌, arith, leb, ◌==◌,
  ==_iff, if◌then◌else◌, length,
}
use mathlib.Core.Bool.{xor}
use doomkernel.Keyboard.{scancode_ascii, look_up, apply_caps}
use doomkernel.Keyboard.Typed.{Mode, character}

abbrev lower : ℕ → Bool
lower c = leb b'a' c && leb c b'z'

abbrev cased : Mode → ℕ → ℕ
cased m c = if xor m.shift m.caps then c - 32 else c

abbrev check : Mode → ℕ → Bool
check m s = if lower (look_up false s) then character m s == cased m (look_up false s) else true

table : (shift caps : Bool) → all_below 58 (check (record { shift = shift; caps = caps })) ≡ true
unfolding look_up apply_caps xor
table false false = refl
table false true = refl
table true false = refl
table true true = refl

-- A key that is a lower case letter in the unshifted table types that letter, and the upper case
-- letter when exactly one of shift and caps lock is on.
pub letter_case :
    (m : Mode) (s : ℕ)
    → s < length scancode_ascii
    → b'a' ≤ look_up false s
    → look_up false s ≤ b'z'
    → character m s ≡ (if xor m.shift m.caps then look_up false s - 32 else look_up false s)
letter_case m s h lo hi =
    let e = all_below_lem 58 (check m) s (table m.shift m.caps) h in
    let low : lower (look_up false s) ≡ true = ground arith in
    (==_iff (character m s) (cased m (look_up false s))).0 (rw low at e)
