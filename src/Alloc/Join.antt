-- ===== src/Alloc/Join.antt =====
-- The stores of `free` in the memory: the walk to the block before, the two joins and the clearing.
use mathlib.Core.Path.{subst}
use doomkernel.Prelude.{
  ℕ, zero, suc, ◌+◌, ◌%◌, ◌^◌, ◌≤◌, ◌<◌, ◌≡◌, ◌⊎◌, sym, ◌∙◌, ap, inl, inr, true, false, Bool-cases,
  some, List, [], ◌∷◌, ◌++◌, arith, ltb, ◌==◌, if◌then◌else◌,
}
use doomkernel.Memory.{Memory, add64}
use doomkernel.Str.{memset}
use doomkernel.Str.Fill.{memset_outside, memset_inside}
use doomkernel.Alloc.{
  status, size, set_size, find_loop, find_before, join_next, joins_before, join_before, clear,
}
use doomkernel.Alloc.Block.{Block, block, total}
use doomkernel.Alloc.Header.{
  flag, Header, Chain, Header-same, Chain-same, status-set_size, size-set_size, set_size_outside,
}
use doomkernel.Alloc.Joined.{joined_size, joined_rest, before_at}

-- The two parts of a chain.
pub Chain-split :
    (m : Memory) (a : ℕ) (xs ys : List Block)
    → Chain m a (xs ++ ys)
    → Chain m a xs × Chain m (a + total xs) ys
Chain-split m a [] ys c = let e : a + 0 ≡ a = omega arith in (tt, rw e c)
Chain-split m a (x ∷ xs) ys (h, c) =
    let (d, e) = Chain-split m (a + 16 + x.size) xs ys c in
    let f : a + (16 + x.size + total xs) ≡ a + 16 + x.size + total xs = omega arith in
    ((h, d), rw f e)

-- The walk reaches the last block of the list, whose end is `alloc`.
find_loop_lem :
    (fuel : ℕ) (m : Memory) (cur : ℕ) (x : Block) (xs : List Block) (alloc : ℕ)
    → Chain m cur (x ∷ xs)
    → alloc ≡ cur + total (x ∷ xs)
    → alloc < 2 ^ 62
    → alloc < fuel + cur
    → find_loop fuel m cur alloc ≡ some (before_at cur (x ∷ xs))
unfolding find_loop
find_loop_lem zero m cur x xs alloc c e p q = absurd (omega arith)
find_loop_lem (suc fuel) m cur x [] alloc (h, c) e p q = ground (arith, h.size_is)
find_loop_lem (suc fuel) m cur x (y ∷ ys) alloc (h, c) e p q =
    let next : add64 (add64 cur 16) (size m cur) ≡ cur + 16 + x.size = omega (arith, h.size_is) in
    let more : (cur + 16 + x.size == alloc) ≡ false = ground arith in
    rw (next, more)
      (find_loop_lem fuel m (cur + 16 + x.size) y ys alloc c (omega arith) p (omega arith))

pub find_before_lem :
    (fuel : ℕ) (m : Memory) (a : ℕ) (pre : List Block) (alloc : ℕ)
    → Chain m a pre
    → alloc ≡ a + total pre
    → alloc < 2 ^ 62
    → alloc < fuel
    → find_before fuel m a alloc ≡ some (before_at a pre)
unfolding find_before
find_before_lem fuel m a [] alloc c e p q = ground arith
find_before_lem fuel m a (x ∷ xs) alloc c e p q =
    ground (arith, find_loop_lem fuel m a x xs alloc c e p (omega arith))

-- One block made of a block and the free one behind it.
pub Header-set_size :
    (m : Memory) (a n : ℕ) {x : Block}
    → Header m a x
    → 0 < n
    → n % 16 ≡ 0
    → n < 2 ^ 64
    → Header (set_size m a n) a (block x.used n)
Header-set_size m a n h pos al small = record {
  status_is = status-set_size m a n ∙ h.status_is;
  size_is = size-set_size m a n small;
  size_pos = pos;
  size_aligned = al;
}

-- the first join: the freed block at `a` and what stands behind it
module _ (m : Memory) (a n last : ℕ) (h : Header m a (block false n)) where
  pub joined_size_facts :
      (post : List Block)
      → Chain m (a + 16 + n) post
      → (0 < joined_size n post) × (joined_size n post % 16 ≡ 0) × (n ≤ joined_size n post)
  joined_size_facts [] c = omega (arith, h.size_pos, h.size_aligned)
  joined_size_facts (x ∷ xs) (g, c) = ground (arith, h.size_pos, h.size_aligned, g.size_aligned)

  pub join_next_outside : (x : ℕ) → (x < a) ⊎ (a + 16 ≤ x) → join_next m last a (a + 16 + n) x ≡ m x
  unfolding join_next
  join_next_outside x o =
      ground (arith, set_size_outside m a (add64 (size m a) (add64 16 (size m (a + 16 + n)))) x o)

  join_next-end : last ≡ a + 16 + n → join_next m last a (a + 16 + n) ≡ m
  unfolding join_next
  join_next-end e = let test : ltb (a + 16 + n) last ≡ false = ground arith in rw test

  join_next-used : status m (a + 16 + n) ≡ 1 → join_next m last a (a + 16 + n) ≡ m
  unfolding join_next
  join_next-used e = ground arith

  join_next-free :
      (x : Block)
      → Header m (a + 16 + n) x
      → x.used ≡ false
      → a + 16 + n + 16 + x.size ≤ last
      → last < 2 ^ 62
      → join_next m last a (a + 16 + n) ≡ set_size m a (n + 16 + x.size)
  unfolding join_next
  join_next-free x g u le small =
      let test : ltb (a + 16 + n) last ≡ true = ground arith in
      let sum : add64 n (add64 16 x.size) ≡ n + 16 + x.size = omega arith in
      rw (test, g.status_is, u, h.size_is, g.size_is, sum)

  pub join_next-Chain :
      (post : List Block)
      → Chain m (a + 16 + n) post
      → last ≡ a + 16 + n + total post
      → last < 2 ^ 62
      → Chain
          (join_next m last a (a + 16 + n))
          a
          (block false (joined_size n post) ∷ joined_rest post)
  join_next-Chain [] c e small = rw (join_next-end (omega arith)) (h, tt)
  join_next-Chain (x ∷ xs) (g, c) e small =
      let place : a + 16 + (n + 16 + x.size) ≡ a + 16 + n + 16 + x.size = omega arith in
      elim (Bool-cases x.used) [
        | inl u ↦
            let same = join_next-used (g.status_is ∙ ap flag u) in
            subst
              (λ (k : Memory).
                Chain k a (block false (joined_size n (x ∷ xs)) ∷ joined_rest (x ∷ xs)))
              (sym same) (simp u (h, (g, c)))
        | inr u ↦
            let same = join_next-free x g u (omega arith) small in
            subst
              (λ (k : Memory).
                Chain k a (block false (joined_size n (x ∷ xs)) ∷ joined_rest (x ∷ xs)))
              (sym same)
              (simp u (
                Header-set_size m a (n + 16 + x.size) h (omega arith)
                    (omega (arith, h.size_aligned, g.size_aligned)) (omega arith),
                Chain-same (a + 16 + (n + 16 + x.size)) xs
                    (λ y p q. set_size_outside m a (n + 16 + x.size) y (omega arith)) (rw place c),
              ))
      ]

-- the second join and the clearing: `j` is the freed block at `alloc`, joined with what was behind it
abbrev pub target : Memory → ℕ → ℕ → ℕ
target m alloc before = if joins_before m before then before else alloc

abbrev pub finish : Memory → ℕ → ℕ → Memory
finish m alloc before = clear (join_before m alloc before) (target m alloc before)

module _ (m : Memory) (a n : ℕ) (h : Header m a (block false n)) (small : a + 16 + n < 2 ^ 64) where
  clear_lem : clear m a ≡ memset m (a + 16) 0 n
  unfolding clear
  clear_lem = let place : add64 a 16 ≡ a + 16 = omega arith in rw (place, h.size_is)

  pub clear_outside : (x : ℕ) → (x < a + 16) ⊎ (a + 16 + n ≤ x) → clear m a x ≡ m x
  clear_outside x o = rw clear_lem (memset_outside m (a + 16) 0 n x o)

  pub clear_inside : (x : ℕ) → a + 16 ≤ x → x < a + 16 + n → clear m a x ≡ 0
  clear_inside x p q = rw clear_lem (memset_inside m (a + 16) 0 n x p q)

  pub clear-Chain :
      (js : List Block) → Chain m (a + 16 + n) js → Chain (clear m a) a (block false n ∷ js)
  clear-Chain js c = (
    Header-same (λ x p q. clear_outside x (omega arith)) h,
    Chain-same (a + 16 + n) js (λ x p q. clear_outside x (omega arith)) c,
  )
