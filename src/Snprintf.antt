-- ===== src/Snprintf.antt =====
-- libc/stdio/snprintf.c. The buffer is in memory; the format and the strings among the arguments are
-- lists of the bytes before the NUL, apart from the buffer. `written`, an `int`, is held as the
-- `size_t` that it is converted to. A round of the loop is a value of `Round`.
pub mod Rounds
pub mod Safety
pub mod Text
pub mod Stored
pub mod Equivalence
mod Tests
use doomkernel.Prelude.{
  ℕ, zero, suc, ◌+◌, ◌-◌, ◌%◌, ◌^◌, Bool, true, false, not, ◌&&◌, ◌||◌, Option, none, some, List,
  [], ◌∷◌, ltb, ◌==◌, if◌then◌else◌, length, take, drop,
}
use doomkernel.Prelude.Int.{ℤ, pos, negsuc}
use doomkernel.Memory.{Memory, add64, store8}
use doomkernel.Printf.{Arg, word, text, next_char}

-- the loop over `i`, from the address of `buffer[written]`; its result is always `true`
unfoldable pub write_to_buffer : Memory → ℕ → List ℕ → Memory
write_to_buffer m a [] = m
write_to_buffer m a (c ∷ bytes) = write_to_buffer (store8 m a c) (a + 1) bytes

pub data Answer : Type 0 where
  answer : Memory → ℤ → Answer
  unspecified : Answer

-- a round ends the call, or goes on with the state of the loop
pub data Round : Type 0 where
  ended : Answer → Round
  goes_on : Memory → ℕ → List ℕ → List Arg → Round

-- while (format[amount] && format[amount] != '%' && amount < limit) amount++;
unfoldable pub bounded_run : ℕ → ℕ → List ℕ → ℕ
bounded_run limit amount [] = amount
bounded_run limit amount (c ∷ format) =
    let more = bounded_run limit (amount + 1) format in
    if not (c == b'%') && ltb amount limit then more else amount

-- An assignment to `written` keeps the low 32 bits, and the sign of the `int` fills the upper half of the
-- `size_t`.
unfoldable pub narrow : ℕ → ℕ
narrow n = let low = n % 2 ^ 32 in if ltb low (2 ^ 31) then low else low + (2 ^ 64 - 2 ^ 32)

-- the `int` that is returned
unfoldable pub as_int : ℕ → ℤ
as_int n = if ltb n (2 ^ 63) then pos n else negsuc (2 ^ 64 - 1 - n)

module _ (buffer limit : ℕ) where
  -- &buffer[written]
  abbrev pub place : ℕ → ℕ
  place written = add64 buffer written

  -- buffer[written] = '\0'; return -1;
  unfoldable pub give_up : Memory → ℕ → Round
  give_up m written = ended (answer (store8 m (place written) 0) (negsuc 0))

  -- the text is written unless it is longer than `maxrem`
  unfoldable pub put_text : Memory → ℕ → List ℕ → List ℕ → List Arg → Round
  unfolding give_up write_to_buffer narrow
  put_text m written bytes format args =
      if ltb (limit - written) (length bytes)
      then give_up m written
      else goes_on (write_to_buffer m (place written) bytes) (narrow (written + length bytes))
          format args

  unfoldable pub put_plain : Memory → ℕ → List ℕ → List Arg → Round
  unfolding give_up write_to_buffer bounded_run narrow
  put_plain m written format args =
      let amount = bounded_run limit 1 (drop 1 format) in
      if ltb (limit - written) amount
      then give_up m written
      else goes_on (write_to_buffer m (place written) (take amount format))
          (narrow (written + amount)) (drop amount format) args

  unfoldable pub put_char : Memory → ℕ → List ℕ → List Arg → Round
  unfolding give_up write_to_buffer narrow
  put_char m written format [] = ended unspecified
  put_char m written format (text s ∷ args) = ended unspecified
  put_char m written format (word w ∷ args) =
      if limit - written == 0
      then give_up m written
      else goes_on (write_to_buffer m (place written) (w % 256 ∷ [])) (narrow (written + 1)) format
          args

  unfoldable pub put_string : Memory → ℕ → List ℕ → List Arg → Round
  unfolding put_text
  put_string m written format [] = ended unspecified
  put_string m written format (word w ∷ args) = ended unspecified
  put_string m written format (text s ∷ args) = put_text m written s format args

  -- the text behind a '%' that is not doubled; there is no "%x" and no "%d"
  unfoldable pub put_directive : Memory → ℕ → List ℕ → List Arg → Round
  unfolding put_char put_string put_text
  put_directive m written format args =
      if next_char format == b'c'
      then put_char m written (drop 1 format) args
      else if next_char format == b's'
      then put_string m written (drop 1 format) args
      else put_text m written (b'%' ∷ format) [] args

  unfoldable pub finish_text : Memory → ℕ → Round
  unfolding as_int
  finish_text m written = ended (answer (store8 m (place written) 0) (as_int written))

  unfoldable pub snprintf_step : Memory → ℕ → List ℕ → List Arg → Round
  unfolding put_plain put_directive finish_text
  snprintf_step m written [] args = finish_text m written
  snprintf_step m written (c ∷ format) args =
      if not (ltb written limit)
      then finish_text m written
      else if not (c == b'%')
      then put_plain m written (c ∷ format) args
      else if next_char format == b'%'
      then put_plain m written format args
      else put_directive m written format args

  -- on fuel; `none` means that it ran out
  unfoldable pub snprintf_loop : ℕ → Memory → ℕ → List ℕ → List Arg → Option Answer
  unfolding snprintf_step
  snprintf_loop zero m written format args = none
  snprintf_loop (suc fuel) m written format args = elim (snprintf_step m written format args) [
    | ended a ↦ some a
    | goes_on m' written' format' args' ↦ snprintf_loop fuel m' written' format' args'
  ]

-- Each round uses up a part of the format.
unfoldable pub snprintf : Memory → ℕ → ℕ → List ℕ → List Arg → Option Answer
unfolding snprintf_loop
snprintf m buffer value format args =
    if value == 0
    then some (answer m (pos 0))
    else snprintf_loop buffer (value - 1) (suc (length format)) m 0 format args
