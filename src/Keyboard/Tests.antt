-- ===== src/Keyboard/Tests.antt =====
-- Runs of the keyboard driver, and the theorems at small inputs.
use doomkernel.Prelude.{
  ℕ, ◌-◌, ◌≡◌, refl, true, false, List, [], ◌∷◌, arith, replicate, set, if◌then◌else◌,
}
use mathlib.Core.Bool.{xor}
use doomkernel.Keyboard.{Keyboard, look_up, apply_caps}
use doomkernel.Keyboard.Ring.{contents, IsValid}
use doomkernel.Keyboard.Queue.{latest}
use doomkernel.Keyboard.Typed.{Mode, character, typed, mode, handle_all, typed_refines}
use doomkernel.Keyboard.Letters.{letter_case}

-- One character waits, in the last byte of the array.
abbrev waiting : Keyboard
waiting = record {
  keycache = set (replicate 256 0) 255 b'x';
  kbd_head = 0;
  kbd_tail = 255;
  kbd_shift = false;
  kbd_caps = true;
  kbd_enabled = true;
}

waiting-IsValid : IsValid waiting
waiting-IsValid = record { cache = refl; head_in = omega arith; tail_in = omega arith }

-- Shift down, a, shift up, a, with caps lock on: the first comes out in lower case.
abbrev keys : List ℕ
keys = 0x2A ∷ 30 ∷ 0xAA ∷ 30 ∷ []

types_keys : typed (mode waiting) keys ≡ b'a' ∷ b'A' ∷ []
unfolding look_up apply_caps
types_keys = refl

typed_refines_example :
    (contents (handle_all waiting keys) ≡ latest (b'x' ∷ typed (mode waiting) keys))
    × IsValid (handle_all waiting keys)
typed_refines_example = typed_refines keys waiting-IsValid

letter_case_example :
    let m : Mode = record { shift = true; caps = true } in
    character m 30 ≡ (if xor m.shift m.caps then look_up false 30 - 32 else look_up false 30)
unfolding look_up
letter_case_example =
    letter_case (record { shift = true; caps = true }) 30 (omega arith) (omega arith) (omega arith)
