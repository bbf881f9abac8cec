-- ===== src/Snprintf/Safety.antt =====
-- What `snprintf` writes stays in its buffer, with a NUL.
use mathlib.Core.Path.{subst}
use doomkernel.Prelude.{
  ℕ, zero, suc, ◌+◌, ◌-◌, ◌^◌, ◌≤◌, ◌<◌, ◌≡◌, refl, false, Option, some, List, ◌==◌, length, arith,
}
use doomkernel.Prelude.Int.{pos, negsuc}
use doomkernel.Memory.{Memory}
use doomkernel.Printf.{Arg}
use doomkernel.Snprintf.Rounds.{Within, Within-trans, Safe, SafeRound, snprintf_step-SafeRound}
use doomkernel.Snprintf.{
  Answer, answer, unspecified, Round, ended, goes_on, snprintf_step, snprintf_loop, snprintf,
}

Safe-trans :
    (buffer value : ℕ) (m g : Memory) (a : Answer)
    → Within buffer value m g
    → Safe buffer value g a
    → Safe buffer value m a
Safe-trans buffer value m g (answer m' (pos n)) s (t, below, at) =
    (Within-trans buffer value m g m' s t, below, at)
Safe-trans buffer value m g (answer m' (negsuc k)) s (t, n, below, at) =
    (Within-trans buffer value m g m' s t, n, below, at)
Safe-trans buffer value m g unspecified s t = tt

-- a buffer that lies in the address space, and is counted by an `int`
abbrev pub InRange : ℕ → ℕ → Type 0
InRange buffer limit = (buffer + limit < 2 ^ 64) × (limit < 2 ^ 31)

-- a run of the loop ends with a safe answer
abbrev EndsSafe : ℕ → ℕ → Memory → Option Answer → Type 0
EndsSafe buffer limit m o = (a : Answer) × (o ≡ some a) × Safe buffer (limit + 1) m a

-- the loop behind a round
abbrev pub continued : ℕ → ℕ → ℕ → Round → Option Answer
continued buffer limit fuel (ended a) = some a
continued buffer limit fuel (goes_on m written format args) =
    snprintf_loop buffer limit fuel m written format args

pub loop-continued :
    (fuel buffer limit : ℕ) (m : Memory) (written : ℕ) (format : List ℕ) (args : List Arg)
    → continued buffer limit fuel (snprintf_step buffer limit m written format args)
      ≡ snprintf_loop buffer limit (suc fuel) m written format args
unfolding snprintf_loop
loop-continued fuel buffer limit m written format args =
    elim (snprintf_step buffer limit m written format args)
      as (λ s. continued buffer limit fuel s ≡ elim s as (λ x. Option Answer) [
        | ended a ↦ some a
        | goes_on m' written' format' args' ↦
            snprintf_loop buffer limit fuel m' written' format' args'
      ]) [ ended a ↦ refl | goes_on m' written' format' args' ↦ refl ]

abbrev AllSafe : ℕ → ℕ → ℕ → Type 0
AllSafe fuel buffer limit =
    (m : Memory) (written : ℕ) (format : List ℕ) (args : List Arg)
    → written ≤ limit
    → length format < fuel
    → EndsSafe buffer limit m (snprintf_loop buffer limit fuel m written format args)

continued-EndsSafe :
    (fuel buffer limit : ℕ)
    → AllSafe fuel buffer limit
    → (m : Memory) (format : List ℕ) (r : Round) → length format < suc fuel
    → SafeRound buffer limit m format r
    → EndsSafe buffer limit m (continued buffer limit fuel r)
continued-EndsSafe fuel buffer limit ih m format (ended a) enough s = (a, refl, s)
continued-EndsSafe fuel buffer limit ih m format (goes_on m' written' format' args') enough
      (inside, below, less) =
    let (a, e, s) = ih m' written' format' args' below (omega arith) in
    (a, e, Safe-trans buffer (limit + 1) m m' a inside s)

snprintf_loop-Safe : (fuel buffer limit : ℕ) → InRange buffer limit → AllSafe fuel buffer limit
snprintf_loop-Safe zero buffer limit range = λ m written format args h enough. absurd (omega arith)
snprintf_loop-Safe (suc fuel) buffer limit range = λ m written format args h enough.
    subst (EndsSafe buffer limit m) (loop-continued fuel buffer limit m written format args) (
      continued-EndsSafe fuel buffer limit (snprintf_loop-Safe fuel buffer limit range) m format
        (snprintf_step buffer limit m written format args) enough
        (snprintf_step-SafeRound buffer limit range.0 range.1 m written h format args))

-- `snprintf` with a buffer of `value` bytes, one at least and 2^31 at most, which lies below the end of the
-- address space, ends whatever the format and the arguments.
-- Unless an argument is missing or of the other kind, it has changed no byte outside the buffer, and
-- has put a NUL into it: behind the text whose length it returns, which is below `value`, or
-- at some place when it returns -1.
pub snprintf-Safe :
    (m : Memory) (buffer value : ℕ) (format : List ℕ) (args : List Arg)
    → 0 < value
    → value ≤ 2 ^ 31
    → buffer + value ≤ 2 ^ 64
    → (a : Answer) × (snprintf m buffer value format args ≡ some a) × Safe buffer value m a
unfolding snprintf
snprintf-Safe m buffer value format args h top end =
    let some_room : (value == 0) ≡ false = ground arith in
    let whole : value - 1 + 1 ≡ value = omega arith in
    rw some_room (
      subst
        (λ (n : ℕ).
          (a : Answer) × (snprintf_loop buffer (value - 1) (suc (length format)) m 0 format args
            ≡ some a)
          × Safe buffer n m a)
        whole
        (snprintf_loop-Safe (suc (length format)) buffer (value - 1) (omega arith, omega arith) m 0
          format args (omega arith) (omega arith)))
