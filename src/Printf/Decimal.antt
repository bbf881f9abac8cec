-- ===== src/Printf/Decimal.antt =====
-- The decimal digits of printf.c, read back.
use doomkernel.Prelude.{
  ℕ, zero, suc, ◌+◌, ◌-◌, ◌*◌, ◌/◌, ◌%◌, ◌^◌, ◌≤◌, ◌<◌, ◌≡◌, ◌≢◌, inl, inr, refl, ap, ◌∙◌, true,
  false, ◌&&◌, Bool-cases, List, [], ◌∷◌, ltb, leb, ◌==◌, if◌then◌else◌, get_or, drop, length,
  arith, ℕ_discrete,
}
use doomkernel.Prelude.Int.{ℤ, pos, negsuc}
use doomkernel.Printf.Number.{digit_loop, magnitude, decimal_text}
use doomkernel.Printf.Hex.{digit_value, read_digits}

-- a 64-bit word as a signed number
abbrev pub signed : ℕ → ℤ
signed w = if leb (2 ^ 63) w then negsuc (2 ^ 64 - 1 - w) else pos w

abbrev negated : ℕ → ℤ
negated zero = pos 0
negated (suc n) = negsuc n

-- a number with a sign or without
abbrev pub read_decimal : List ℕ → ℤ
read_decimal text =
    if get_or text 0 b'0' == b'-'
    then negated (read_digits 10 0 (drop 1 text))
    else pos (read_digits 10 0 text)

-- The loop ends in `fuel` rounds, and puts the digits of the number before those it has.
read-digit_loop :
    (fuel dec : ℕ) (temp : List ℕ)
    → dec < 10 ^ fuel
    → dec < 2 ^ 63
    → read_digits 10 0 (digit_loop fuel dec temp) ≡ read_digits 10 dec temp
unfolding digit_loop
read-digit_loop zero dec temp h w = ap (λ (acc : ℕ). read_digits 10 acc temp) (omega arith)
read-digit_loop (suc fuel) dec temp h w = elim (ℕ_discrete dec 0) [
  | yes e ↦ rw e refl
  | no ne ↦
      let goes : ltb 0 dec && ltb dec (2 ^ 63) ≡ true = ground arith in
      let value : dec / 10 * 10 + digit_value (b'0' + dec % 10) ≡ dec = ground arith in
      rw goes (
        read-digit_loop fuel (dec / 10) ((b'0' + dec % 10) ∷ temp) (omega arith) (omega arith)
        ∙ ap (λ (acc : ℕ). read_digits 10 acc temp) value)
]

length-digit_loop :
    (fuel n dec : ℕ) (temp : List ℕ)
    → dec < 10 ^ n
    → length (digit_loop fuel dec temp) ≤ n + length temp
unfolding digit_loop
length-digit_loop zero n dec temp h = omega arith
length-digit_loop (suc fuel) zero dec temp h =
    let ends : ltb 0 dec && ltb dec (2 ^ 63) ≡ false = ground arith in rw ends (omega arith)
length-digit_loop (suc fuel) (suc n) dec temp h =
    let longer = (b'0' + dec % 10) ∷ temp in
    elim (Bool-cases (ltb 0 dec && ltb dec (2 ^ 63))) [
      | inl e ↦ rw e (omega (arith, length-digit_loop fuel n (dec / 10) longer (omega arith)))
      | inr e ↦ rw e (omega arith)
    ]

first-digit_loop :
    (fuel dec : ℕ) (temp : List ℕ)
    → b'0' ≤ get_or temp 0 b'0'
    → b'0' ≤ get_or (digit_loop fuel dec temp) 0 b'0'
unfolding digit_loop
first-digit_loop zero dec temp h = h
first-digit_loop (suc fuel) dec temp h = elim (Bool-cases (ltb 0 dec && ltb dec (2 ^ 63))) [
  | inr e ↦ rw e h
  | inl e ↦ rw e (first-digit_loop fuel (dec / 10) ((b'0' + dec % 10) ∷ temp) (omega arith))
]

-- The digits of a number that is not negative.
abbrev digits : ℕ → List ℕ
digits dec = if dec == 0 then b'0' ∷ [] else digit_loop 20 dec []

digits_lem :
    (dec : ℕ)
    → dec < 2 ^ 63
    → (read_digits 10 0 (digits dec) ≡ dec)
      × (b'0' ≤ get_or (digits dec) 0 b'0')
      × (length (digits dec) ≤ 19)
digits_lem dec h = elim (ℕ_discrete dec 0) [
  | yes e ↦ rw e (refl, omega arith, omega arith)
  | no ne ↦
      let other : (dec == 0) ≡ false = ground arith in
      rw other (
        read-digit_loop 20 dec [] (omega arith) h,
        first-digit_loop 20 dec [] (omega arith),
        omega (arith, length-digit_loop 20 19 dec [] (omega arith)),
      )
]

-- The text of a 64-bit word other than 2^63, read back as a signed decimal number, is the number that
-- the word stands for: the 20 rounds are enough. With its NUL the text fits the buffer of 21 bytes.
pub read-decimal_text :
    (dec : ℕ)
    → dec < 2 ^ 64
    → dec ≢ 2 ^ 63
    → (read_decimal (decimal_text dec) ≡ signed dec) × (length (decimal_text dec) + 1 ≤ 21)
unfolding decimal_text magnitude
read-decimal_text dec h ne = elim (Bool-cases (leb (2 ^ 63) dec)) [
  | inl e ↦
      let m = (2 ^ 64 - dec) % 2 ^ 64 in
      let m-is : m ≡ suc (2 ^ 64 - 1 - dec) = ground (arith, e) in
      let (value, first, short) = digits_lem m (ground (arith, e, ne)) in
      rw e (ap negated (value ∙ m-is), omega (arith, short))
  | inr e ↦
      let (value, first, short) = digits_lem dec (ground (arith, e)) in
      let plus : (get_or (digits dec) 0 b'0' == b'-') ≡ false = ground (arith, first) in
      rw (e, plus) (ap pos value, omega (arith, short))
]
