-- ===== src/Syscall/Write.antt =====
-- What a program in user mode can make the kernel do.
use doomkernel.Prelude.{
  ℕ, ◌+◌, ◌-◌, ◌^◌, ◌≤◌, ◌<◌, ◌≡◌, ◌≢◌, ◌⊎◌, inl, inr, refl, true, false, List, [], ◌∷◌, ◌==◌,
  arith, codes, ◌%◌, ◌*◌, dec_le, dec_lt, ap, ◌∙◌,
}
use doomkernel.Frame.{Frame}
use doomkernel.Syscall.{
  syscall_num, is_outside, write_syscall, exit_syscall, syscall_handler, Output, message, write,
}
use doomkernel.Printf.{word}

-- the buffer lies in the memory of the program, as a whole
pub record IsUserBuffer (buf len : ℕ) : Type 0 where
  pub low : 0x400000 ≤ buf
  pub start : buf < 0x800000
  pub high : buf + len ≤ 0x800000

is_outside_lem :
    (rdi rsi : ℕ)
    → rdi < 2 ^ 64
    → (IsUserBuffer rdi rsi × (is_outside rdi rsi ≡ false))
      ⊎ ((IsUserBuffer rdi rsi → ⊥) × (is_outside rdi rsi ≡ true))
unfolding is_outside
is_outside_lem rdi rsi w = elim (dec_lt rdi 0x400000) [
  | yes low ↦ inr ((λ b. omega (arith, b.low)), ground arith)
  | no l ↦ elim (dec_le 0x800000 rdi) [
    | yes high ↦ inr ((λ b. omega (arith, b.start)), ground arith)
    | no h ↦ elim (dec_le (rdi + rsi) 0x800000) [
      | yes fits ↦
          inl (record { low = omega arith; start = omega arith; high = fits }, ground arith)
      | no over ↦ inr ((λ b. omega (arith, b.high)), ground arith)
    ]
  ]
]

-- a system call and what the kernel does for it
pub record Served (upper resume saved : ℕ) (f : Frame) (g : Frame) (writes : List Output)
    : Type 0 where
  pub write_inside :
      syscall_num f ≡ 1
      → IsUserBuffer f.rdi f.rsi
      → (writes ≡ message (codes "[syscall] ") [] ∷ write f.rdi f.rsi ∷ [])
        × (g ≡ record f { rax = f.rsi })
  pub write_outside :
      syscall_num f ≡ 1
      → (IsUserBuffer f.rdi f.rsi → ⊥)
      → (writes ≡ []) × (g ≡ record f { rax = 2 ^ 64 - 1 })
  pub exit :
      syscall_num f ≡ 60
      → (writes
          ≡ message
              (codes "[syscall] user programm exited with code: %d\n")
              (word (f.rdi % 2 ^ 32 + 2 ^ 32 * upper) ∷ [])
            ∷ [])
        × (g ≡ record f { rip = resume; cs = 8; ss = 16; rsp = saved; rflags = 0x202 })
  pub other :
      syscall_num f ≢ 1
      → syscall_num f ≢ 60
      → (writes ≡ message (codes "[syscall] got a syscall, resuming execution") [] ∷ []) × (g ≡ f)

handler-write :
    (upper resume saved : ℕ) (f : Frame)
    → syscall_num f ≡ 1
    → syscall_handler upper resume saved f ≡ write_syscall f
unfolding syscall_handler
handler-write upper resume saved f e = rw e refl

handler-exit :
    (upper resume saved : ℕ) (f : Frame)
    → syscall_num f ≡ 60
    → syscall_handler upper resume saved f ≡ (
      exit_syscall resume saved f,
      message
            (codes "[syscall] user programm exited with code: %d\n")
            (word (f.rdi % 2 ^ 32 + 2 ^ 32 * upper) ∷ [])
          ∷ [],
    )
unfolding syscall_handler
handler-exit upper resume saved f e = rw e refl

handler-other :
    (upper resume saved : ℕ) (f : Frame)
    → syscall_num f ≢ 1
    → syscall_num f ≢ 60
    → syscall_handler upper resume saved f
      ≡ (f, message (codes "[syscall] got a syscall, resuming execution") [] ∷ [])
unfolding syscall_handler
handler-other upper resume saved f a b =
    let x : (syscall_num f == 1) ≡ false = ground arith in
    let y : (syscall_num f == 60) ≡ false = ground arith in simp (x, y)

accepted :
    (f : Frame)
    → is_outside f.rdi f.rsi ≡ false
    → write_syscall f
      ≡ (record f { rax = f.rsi }, message (codes "[syscall] ") [] ∷ write f.rdi f.rsi ∷ [])
unfolding write_syscall
accepted f e = simp e

rejected :
    (f : Frame)
    → is_outside f.rdi f.rsi ≡ true
    → write_syscall f ≡ (record f { rax = 2 ^ 64 - 1 }, [])
unfolding write_syscall
rejected f e = simp e

-- What the handler does, for every frame whose `rdi` is a word. A write (the low half of `rax` is 1) of a
-- buffer that lies in the memory of the program from its first byte to its last is done once, behind a
-- message, and returns its length; of any other buffer, also where its end wraps, it is refused
-- with -1 and nothing is written. An exit (60) resumes the kernel on its own segments and stack and
-- reports the exit code. Any other number changes no register and is reported.
pub syscall_handler_lem :
    (upper resume saved : ℕ) (f : Frame)
    → f.rdi < 2 ^ 64
    → Served upper resume saved f
        (syscall_handler upper resume saved f).0
        (syscall_handler upper resume saved f).1
unfolding exit_syscall
syscall_handler_lem upper resume saved f w = record {
  write_inside = λ n b. elim (is_outside_lem f.rdi f.rsi w) [
    | inl (c, e) ↦ both (handler-write upper resume saved f n ∙ accepted f e)
    | inr (c, e) ↦ absurd (c b)
  ];
  write_outside = λ n b. elim (is_outside_lem f.rdi f.rsi w) [
    | inl (c, e) ↦ absurd (b c)
    | inr (c, e) ↦ both (handler-write upper resume saved f n ∙ rejected f e)
  ];
  exit = λ n. both (handler-exit upper resume saved f n);
  other = λ a b. both (handler-other upper resume saved f a b);
}
  where
    both :
        {r : Frame × List Output} {g : Frame} {writes : List Output}
        → r ≡ (g, writes)
        → (r.1 ≡ writes) × (r.0 ≡ g)
    both e = (ap (λ (x : Frame × List Output). x.1) e, ap (λ (x : Frame × List Output). x.0) e)
