-- ===== src/Alloc/Joined.antt =====
-- `free` on the list of blocks: the block becomes free and is joined with a free block behind it
-- and with a free block before it.
use mathlib.Core.List.{Perm, perm_middle}
use doomkernel.Prelude.{
  ℕ, ◌+◌, ◌≤◌, ◌≡◌, refl, ap, inl, inr, true, false, Bool-cases, List, [], ◌∷◌, ◌++◌, arith,
  if◌then◌else◌,
}
use doomkernel.Alloc.Block.{
  Block, block, total, used_bytes, used_spans, total-append, used_bytes-append,
}
use doomkernel.Alloc.Invariant.{used_spans-append}

-- the block with a free one behind it, and what stands behind the two
abbrev pub joined_size : ℕ → List Block → ℕ
joined_size n [] = n
joined_size n (c ∷ cs) = if c.used then n else n + 16 + c.size

abbrev pub joined_rest : List Block → List Block
joined_rest [] = []
joined_rest (c ∷ cs) = if c.used then c ∷ cs else cs

-- `pre` with a free block of `n` bytes behind it: the last block of `pre` takes it in if it is free
abbrev pub absorb : List Block → ℕ → List Block → List Block
absorb [] n js = block false n ∷ js
absorb (x ∷ []) n js = if x.used then x ∷ block false n ∷ js else block false (x.size + 16 + n) ∷ js
absorb (x ∷ y ∷ xs) n js = x ∷ absorb (y ∷ xs) n js

-- the list when the block `b` between `pre` and `post` has been freed
abbrev pub freed : List Block → Block → List Block → List Block
freed pre b post = absorb pre (joined_size b.size post) (joined_rest post)

-- the address of the last block of a list that starts at `a`; 0 if there is none
abbrev pub before_at : ℕ → List Block → ℕ
before_at a [] = 0
before_at a (x ∷ []) = a
before_at a (x ∷ y ∷ xs) = before_at (a + 16 + x.size) (y ∷ xs)

pub total-joined :
    (n : ℕ) (post : List Block) → joined_size n post + total (joined_rest post) ≡ n + total post
total-joined n [] = refl
total-joined n (c ∷ cs) = ground arith

pub joined-le : (n : ℕ) (post : List Block) → n ≤ joined_size n post
joined-le n [] = omega arith
joined-le n (c ∷ cs) = ground arith

used_bytes-joined : (post : List Block) → used_bytes (joined_rest post) ≡ used_bytes post
used_bytes-joined [] = refl
used_bytes-joined (c ∷ cs) = ground arith

used_spans-joined :
    (a n : ℕ) (post : List Block)
    → used_spans (a + 16 + joined_size n post) (joined_rest post) ≡ used_spans (a + 16 + n) post
used_spans-joined a n [] = refl
used_spans-joined a n (c ∷ cs) =
    let e : a + 16 + (n + 16 + c.size) ≡ a + 16 + n + 16 + c.size = omega arith in
    elim (Bool-cases c.used) [ inl u ↦ rw u | inr u ↦ rw (u, e) ]

total-absorb :
    (pre : List Block) (n : ℕ) (js : List Block)
    → total (absorb pre n js) ≡ total pre + 16 + n + total js
total-absorb [] n js = omega arith
total-absorb (x ∷ []) n js = ground arith
total-absorb (x ∷ y ∷ xs) n js = omega (arith, total-absorb (y ∷ xs) n js)

used_bytes-absorb :
    (pre : List Block) (n : ℕ) (js : List Block)
    → used_bytes (absorb pre n js) ≡ used_bytes pre + used_bytes js
used_bytes-absorb [] n js = omega arith
used_bytes-absorb (x ∷ []) n js = ground arith
used_bytes-absorb (x ∷ y ∷ xs) n js = omega (arith, used_bytes-absorb (y ∷ xs) n js)

used_spans-absorb :
    (a : ℕ) (pre : List Block) (n : ℕ) (js : List Block)
    → used_spans a (absorb pre n js) ≡ used_spans a pre ++ used_spans (a + total pre + 16 + n) js
used_spans-absorb a [] n js = ap (λ (t : ℕ). used_spans (t + 16 + n) js) (omega arith)
used_spans-absorb a (x ∷ []) n js =
    let e : a + (16 + x.size + 0) + 16 + n ≡ a + 16 + x.size + 16 + n = omega arith in
    let f : a + 16 + (x.size + 16 + n) ≡ a + 16 + x.size + 16 + n = omega arith in
    elim (Bool-cases x.used) [ inl u ↦ rw (u, e) | inr u ↦ rw (u, e, f) ]
used_spans-absorb a (x ∷ y ∷ xs) n js =
    let e : a + 16 + x.size + total (y ∷ xs) + 16 + n
        ≡ a + (16 + x.size + total (y ∷ xs)) + 16 + n =
      omega arith in
    let ih = used_spans-absorb (a + 16 + x.size) (y ∷ xs) n js in
    elim (Bool-cases x.used) [ inl u ↦ rw (u, ih, e) | inr u ↦ rw (u, ih, e) ]

-- Freeing keeps the extent of the list, ...
pub total-freed :
    (pre : List Block) (b : Block) (post : List Block)
    → total (freed pre b post) ≡ total (pre ++ b ∷ post)
total-freed pre b post = omega (
  arith,
  total-absorb pre (joined_size b.size post) (joined_rest post),
  total-joined b.size post,
  total-append pre (b ∷ post),
)

-- ... takes the block out of the bytes in use, ...
pub used_bytes-freed :
    (pre : List Block) (b : Block) (post : List Block)
    → b.used ≡ true
    → used_bytes (freed pre b post) + 16 + b.size ≡ used_bytes (pre ++ b ∷ post)
used_bytes-freed pre b post u = ground (
  arith,
  used_bytes-absorb pre (joined_size b.size post) (joined_rest post),
  used_bytes-joined post,
  used_bytes-append pre (b ∷ post),
)

-- ... and its payload, and no other, out of the payloads in use.
pub used_spans-freed :
    (a : ℕ) (pre : List Block) (b : Block) (post : List Block)
    → b.used ≡ true
    → Perm
        (used_spans a (pre ++ b ∷ post))
        ((a + total pre + 16, b.size) ∷ used_spans a (freed pre b post))
used_spans-freed a pre b post u =
    rw
      (
        used_spans-append a pre (b ∷ post),
        used_spans-absorb a pre (joined_size b.size post) (joined_rest post),
        used_spans-joined (a + total pre) b.size post,
        u,
      )
      (perm_middle (used_spans a pre) (used_spans (a + total pre + 16 + b.size) post))
