-- ===== src/Alloc/Take.antt =====
-- Taking a free block: the split, the header that is written, and what stays as it was.
use doomkernel.Prelude.{
  ℕ, ◌+◌, ◌-◌, ◌%◌, ◌^◌, ◌≤◌, ◌<◌, ◌≡◌, ◌⊎◌, ◌∙◌, inl, inr, true, false, Bool-cases, arith, ltb,
}
use doomkernel.Memory.{Memory, add64, sub64}
use doomkernel.Memory.Laws.{load_le_same}
use doomkernel.Alloc.{size, set_status, set_size, split, mark}
use doomkernel.Alloc.Block.{Block, block, total, carve, total-carve}
use doomkernel.Alloc.Header.{
  Header, Chain, Header-same, status-set_status, size-set_status, status-set_size, size-set_size,
  set_status_outside, set_size_outside,
}

-- `size` reads only the header.
size-set_status_far : (m : Memory) (r v a : ℕ) → a + 16 ≤ r → size (set_status m r v) a ≡ size m a
unfolding size
size-set_status_far m r v a h =
    load_le_same 8 (a + 8) (λ b p q. set_status_outside m r v b (omega arith))

module _ (m : Memory) (a n : ℕ) {b : Block} (h : Header m a b) (fit : n ≤ b.size)
    (small : a + 16 + b.size < 2 ^ 64) where
  pub split_large :
      16 < b.size - n
      → split m a n
        ≡ set_size (set_size (set_status m (a + 16 + n) 0) (a + 16 + n) (b.size - n - 16)) a n
  unfolding split
  split_large large =
      let place : add64 (add64 a 16) n ≡ a + 16 + n = omega arith in
      let test : ltb 16 (sub64 b.size n) ≡ true = ground arith in
      let rest : sub64 (sub64 b.size n) 16 ≡ b.size - n - 16 = omega arith in
      let same = size-set_status_far m (a + 16 + n) 0 a (omega arith) in
      rw (h.size_is, test, place, same, h.size_is, rest)

  pub split_small : ltb 16 (b.size - n) ≡ false → split m a n ≡ m
  unfolding split
  split_small few =
      let test : ltb 16 (sub64 b.size n) ≡ false = ground arith in rw (h.size_is, test)

  pub mark_outside : (x : ℕ) → (x < a) ⊎ (a + 16 + b.size ≤ x) → mark m a n x ≡ m x
  unfolding mark
  mark_outside x o = elim (Bool-cases (ltb 16 (b.size - n))) [
    | inl large ↦
        let r = a + 16 + n in
        let m1 = set_status m r 0 in
        let m2 = set_size m1 r (b.size - n - 16) in
        rw (split_large (ground arith)) (
          set_status_outside (set_size m2 a n) a 1 x (omega arith)
          ∙ set_size_outside m2 a n x (omega arith)
          ∙ set_size_outside m1 r (b.size - n - 16) x (ground arith)
          ∙ set_status_outside m r 0 x (ground arith))
    | inr few ↦ rw (split_small few) (set_status_outside m a 1 x (omega arith))
  ]

  -- The header of the part that is taken, ...
  taken-Header :
      (g : Memory)
      → 0 < n
      → n % 16 ≡ 0
      → n < 2 ^ 64
      → Header (set_status (set_size g a n) a 1) a (block true n)
  taken-Header g pos al lt = record {
    status_is = status-set_status (set_size g a n) a 1 (omega arith);
    size_is = size-set_status (set_size g a n) a 1 ∙ size-set_size g a n lt;
    size_pos = pos;
    size_aligned = al;
  }

  -- ... and that of the rest.
  pub rest-Header :
      16 < b.size - n
      → n % 16 ≡ 0
      → Header
          (set_size (set_status m (a + 16 + n) 0) (a + 16 + n) (b.size - n - 16))
          (a + 16 + n)
          (block false (b.size - n - 16))
  rest-Header large al = record {
    status_is =
        status-set_size (set_status m (a + 16 + n) 0) (a + 16 + n) (b.size - n - 16)
        ∙ status-set_status m (a + 16 + n) 0 (omega arith);
    size_is =
        size-set_size (set_status m (a + 16 + n) 0) (a + 16 + n) (b.size - n - 16) (omega arith);
    size_pos = omega arith;
    size_aligned = omega (arith, h.size_aligned);
  }

  -- A free block that is taken becomes the blocks of `carve`.
  pub mark-carve : 0 < n → n % 16 ≡ 0 → Chain (mark m a n) a (carve n b)
  unfolding mark
  mark-carve pos al = elim (Bool-cases (ltb 16 (b.size - n))) [
    | inl large ↦
        let r = a + 16 + n in
        let m1 = set_status m r 0 in
        let m2 = set_size m1 r (b.size - n - 16) in
        rw (large, split_large (ground arith))
          (
            taken-Header m2 pos al (omega arith),
            (
              Header-same
                  (λ x p q.
                    set_status_outside (set_size m2 a n) a 1 x (omega arith)
                    ∙ set_size_outside m2 a n x (omega arith))
                  (rest-Header (ground arith) al),
              tt,
            ),
          )
    | inr few ↦
        rw (few, split_small few)
          (
            record {
              status_is = status-set_status m a 1 (omega arith);
              size_is = size-set_status m a 1 ∙ h.size_is;
              size_pos = h.size_pos;
              size_aligned = h.size_aligned;
            },
            tt,
          )
  ]

  -- A block that is taken lies where the free block was.
  pub total_taken : a + total (carve n b) ≡ a + 16 + b.size
  total_taken = omega (arith, total-carve n b fit)
