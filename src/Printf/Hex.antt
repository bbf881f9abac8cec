-- ===== src/Printf/Hex.antt =====
-- The hexadecimal digits of printf.c, read back.
use native.Mathlib.Nat.{div-div-eq-div-mul, pow-suc}
use doomkernel.Prelude.{
  ℕ, zero, suc, ◌+◌, ◌-◌, ◌*◌, ◌/◌, ◌%◌, ◌^◌, ◌≤◌, ◌<◌, ◌≡◌, inl, inr, refl, sym, ap, ◌∙◌, Bool,
  true, false, not, ◌||◌, Bool-cases, List, [], ◌∷◌, ltb, ◌==◌, if◌then◌else◌, ==_iff, all_below,
  all_below_lem, get_or, drop, length, arith,
}
use doomkernel.Printf.Number.{hex_digits, hex_loop, hex_text}

-- the value of a digit: '0' to '9', then 'A' to 'F'
abbrev pub digit_value : ℕ → ℕ
digit_value c = if ltb c b'A' then c - b'0' else c - b'A' + 10

-- Horner's rule, on from the value `acc` of the digits before
abbrev pub read_digits : ℕ → ℕ → List ℕ → ℕ
read_digits base acc [] = acc
read_digits base acc (c ∷ text) = read_digits base (acc * base + digit_value c) text

-- a number behind "0x"
abbrev pub read_hex : List ℕ → ℕ
read_hex text = read_digits 16 0 (drop 2 text)

digit_table : all_below 16 (λ d. digit_value (get_or hex_digits d 0) == d) ≡ true
digit_table = refl

digit_value-hex_digits : (d : ℕ) → d < 16 → digit_value (get_or hex_digits d 0) ≡ d
digit_value-hex_digits d h =
    (==_iff _ d).0
      (all_below_lem 16 (λ x. digit_value (get_or hex_digits x 0) == x) d digit_table h)

quotient_step : (n hex : ℕ) → hex / 16 ^ suc n * 16 + hex / 16 ^ n % 16 ≡ hex / 16 ^ n
quotient_step n hex =
    let q : hex / 16 ^ n / 16 ≡ hex / 16 ^ suc n =
      div-div-eq-div-mul hex (16 ^ n) 16 ∙ ap (λ (p : ℕ). hex / p) (sym (pow-suc 16 n)) in
    omega (arith, q)

-- The digits from the highest on, behind the value of those before.
read-hex_loop :
    (n : ℕ) (started : Bool) (hex : ℕ)
    → (started ≡ false → hex / 16 ^ n ≡ 0)
    → read_digits 16 (hex / 16 ^ n) (hex_loop n started hex) ≡ hex
unfolding hex_loop
read-hex_loop zero started hex h = omega arith
read-hex_loop (suc n) started hex h =
    let nibble = hex / 16 ^ n % 16 in
    let step = quotient_step n hex in
    elim (Bool-cases (not (nibble == 0) || started || n == 0)) [
      | inl shows ↦
          let value : hex / 16 ^ suc n * 16 + digit_value (get_or hex_digits nibble 0)
              ≡ hex / 16 ^ n =
            omega (arith, digit_value-hex_digits nibble (omega arith), step) in
          rw shows (
            ap (λ (acc : ℕ). read_digits 16 acc (hex_loop n true hex)) value
            ∙ read-hex_loop n true hex (λ e. absurd (ground (arith, e))))
      | inr skips ↦
          let none_yet : hex / 16 ^ suc n ≡ 0 = h (ground (arith, skips)) in
          let zero_here : hex / 16 ^ n ≡ 0 = ground (arith, step, none_yet, skips) in
          rw (skips, none_yet, sym zero_here) (read-hex_loop n false hex (λ e. zero_here))
    ]

length-hex_loop : (n : ℕ) (started : Bool) (hex : ℕ) → length (hex_loop n started hex) ≤ n
unfolding hex_loop
length-hex_loop zero started hex = omega arith
length-hex_loop (suc n) started hex =
    let shows = not (hex / 16 ^ n % 16 == 0) || started || n == 0 in
    elim (Bool-cases shows) [
      | inl e ↦ rw e (omega (arith, length-hex_loop n true hex))
      | inr e ↦ rw e (omega (arith, length-hex_loop n false hex))
    ]

-- The text of a 64-bit word read back as a hexadecimal number is the word, and with its NUL the text
-- fits the buffer of 19 bytes.
pub read-hex_text :
    (hex : ℕ) → hex < 2 ^ 64 → (read_hex (hex_text hex) ≡ hex) × (length (hex_text hex) + 1 ≤ 19)
unfolding hex_text
read-hex_text hex h =
    let start : hex / 16 ^ 16 ≡ 0 = omega arith in
    (
      ap (λ (acc : ℕ). read_digits 16 acc (hex_loop 16 false hex)) (sym start)
          ∙ read-hex_loop 16 false hex (λ e. start),
      omega (arith, length-hex_loop 16 false hex),
    )
