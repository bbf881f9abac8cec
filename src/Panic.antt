-- ===== src/Panic.antt =====
-- libc/panic.c: what is printed before the processor halts for good; the result is the terminal then.
-- `line` is passed as an `int` to a directive that reads 64 bits: `upper` stands in the others.
pub mod Report
mod Tests
use doomkernel.Prelude.{
  ℕ, ◌+◌, ◌*◌, ◌%◌, ◌^◌, Option, none, some, List, [], ◌∷◌, ◌++◌, ◌==◌, if◌then◌else◌, codes, ◌>>=◌,
}
use doomkernel.Terminal.{Terminal}
use doomkernel.Frame.{Frame}
use doomkernel.Printf.{Arg, word, text}
use doomkernel.Kernel.{say}

-- a format with its arguments
abbrev pub Call : Type 0
Call = List ℕ × List Arg

unfoldable pub say_all : Terminal → List Call → Option Terminal
say_all t [] = some t
say_all t ((format, args) ∷ calls) = say t format args >>= λ t'. say_all t' calls

abbrev pub head_calls : ℕ → List ℕ → List ℕ → ℕ → List Call
head_calls upper msg file line =
    (codes "*******************KERNEL PANIC*******************\n", [])
    ∷ (codes "Error: %s\n", text msg ∷ [])
    ∷ (codes "File: %s (Line: %d)\n", text file ∷ word (line + 2 ^ 32 * upper) ∷ [])
    ∷ []

-- `frame->cs & 3` are the low two bits.
abbrev pub register_calls : Frame → List Call
register_calls frame =
    (codes "****CPU****\n", [])
    ∷ (codes "INT NO: %d\n", word frame.int_no ∷ [])
    ∷ (codes "ERR CCODE: %x\n", word frame.err_code ∷ [])
    ∷ (codes "RIP: %x\n", word frame.rip ∷ [])
    ∷ (codes "CS: %x\n", word frame.cs ∷ [])
    ∷ (codes "RING: %d\n", word (frame.cs % 4) ∷ [])
    ∷ (codes "RFLAGS: %x\n", word frame.rflags ∷ [])
    ∷ (codes "RSP: %x\n", word frame.rsp ∷ [])
    ∷ (codes "SS: %x\n", word frame.ss ∷ [])
    ∷ []

abbrev pub page_calls : ℕ → List Call
page_calls cr2 = (codes "CR2: %x\n", word cr2 ∷ []) ∷ []

-- a null pointer is `none`
unfoldable pub frame_calls : ℕ → Option Frame → List Call
frame_calls cr2 none = []
frame_calls cr2 (some frame) =
    register_calls frame ++ (if frame.int_no == 14 then page_calls cr2 else [])

unfoldable pub panic : ℕ → ℕ → List ℕ → Option Frame → List ℕ → ℕ → Terminal → Option Terminal
unfolding say_all frame_calls
panic upper cr2 msg frame file line t =
    say_all t (head_calls upper msg file line) >>= λ t'. say_all t' (frame_calls cr2 frame)

unfoldable pub panic_msg : ℕ → List ℕ → List ℕ → ℕ → Terminal → Option Terminal
unfolding say_all
panic_msg upper msg file line t = say_all t (head_calls upper msg file line)
