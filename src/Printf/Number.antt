-- ===== src/Printf/Number.antt =====
-- The buffers of `print_hex` and `print_decimal`, without their NUL.
use doomkernel.Prelude.{
  ℕ, zero, suc, ◌+◌, ◌-◌, ◌/◌, ◌%◌, ◌^◌, Bool, false, not, ◌&&◌, ◌||◌, List, [], ◌∷◌, ltb, leb,
  ◌==◌, if◌then◌else◌, get_or,
}

-- "0123456789ABCDEF"
abbrev pub hex_digits : List ℕ
hex_digits =
    b'0' ∷ b'1' ∷ b'2' ∷ b'3' ∷ b'4' ∷ b'5' ∷ b'6' ∷ b'7' ∷ b'8' ∷ b'9' ∷ b'A' ∷ b'B' ∷ b'C' ∷ b'D'
    ∷ b'E' ∷ b'F' ∷ []

-- The loop over the nibbles from the highest down, by the nibbles left: `i` is four times the `n`
-- below, so that `hex >> i` is the quotient by 16 to the `n`.
unfoldable pub hex_loop : ℕ → Bool → ℕ → List ℕ
hex_loop zero started hex = []
hex_loop (suc n) started hex =
    let nibble = hex / 16 ^ n % 16 in
    let shows = not (nibble == 0) || started || n == 0 in
    let rest = hex_loop n shows hex in if shows then get_or hex_digits nibble 0 ∷ rest else rest

unfoldable pub hex_text : ℕ → List ℕ
unfolding hex_loop
hex_text hex = b'0' ∷ b'x' ∷ hex_loop 16 false hex

-- while (dec > 0) on fuel. `temp` is read from its end, so that its last digit is the first of the list.
-- A word with the sign bit is not above 0.
unfoldable pub digit_loop : ℕ → ℕ → List ℕ → List ℕ
digit_loop zero dec temp = temp
digit_loop (suc fuel) dec temp =
    let rest = digit_loop fuel (dec / 10) ((b'0' + dec % 10) ∷ temp) in
    if ltb 0 dec && ltb dec (2 ^ 63) then rest else temp

-- `dec` when a negative one has been negated, which wraps
unfoldable pub magnitude : ℕ → ℕ
magnitude dec = if leb (2 ^ 63) dec then (2 ^ 64 - dec) % 2 ^ 64 else dec

-- `temp` has 20 bytes.
unfoldable pub decimal_text : ℕ → List ℕ
unfolding digit_loop magnitude
decimal_text dec =
    let digits = if magnitude dec == 0 then b'0' ∷ [] else digit_loop 20 (magnitude dec) [] in
    if leb (2 ^ 63) dec then b'-' ∷ digits else digits
