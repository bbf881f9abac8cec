-- ===== src/Alloc/Finish.antt =====
-- The last stores of `free`: the join with the block before and the clearing.
use mathlib.Core.Path.{subst}
use doomkernel.Prelude.{
  ℕ, ◌+◌, ◌^◌, ◌≤◌, ◌<◌, ◌≡◌, ◌⊎◌, refl, sym, ◌∙◌, ap, inl, inr, Bool, true, false, Bool-cases,
  List, [], ◌∷◌, arith, ◌==◌,
}
use doomkernel.Memory.{Memory, add64}
use doomkernel.Alloc.{status, size, set_size, joins_before, join_before, clear}
use doomkernel.Alloc.Block.{Block, block, total}
use doomkernel.Alloc.Header.{flag, Header, Chain, Header-same, Chain-same, set_size_outside}
use doomkernel.Alloc.Reserve.{UsedSame, UsedSame-same}
use doomkernel.Alloc.Joined.{absorb, before_at}
use doomkernel.Alloc.Join.{finish, clear-Chain, clear_outside, clear_inside, Header-set_size}

-- What the second join and the clearing do to the chain of `pre`, a free block of `n` bytes at
-- `alloc` and `js`; `o` is the memory that `free` was given.
pub record Finished (o g : Memory) (a alloc n : ℕ) (pre js : List Block) : Type 0 where
  pub chain : Chain g a (absorb pre n js)
  pub kept : UsedSame a (absorb pre n js) o g
  pub below : (x : ℕ) → x < a → g x ≡ o x
  pub cleared : (x : ℕ) → alloc + 16 ≤ x → x < alloc + 16 + n → g x ≡ 0

module _ (o m : Memory) (alloc n : ℕ) (js : List Block)
    (same : (x : ℕ) → (x < alloc) ⊎ (alloc + 16 ≤ x) → m x ≡ o x)
    (hj : Header m alloc (block false n)) (cj : Chain m (alloc + 16 + n) js)
    (small : alloc + 16 + n < 2 ^ 62) (pos : 0 < alloc) where
  -- no free block before: only the freed block is cleared
  cleared_outside : (x : ℕ) → (x < alloc) ⊎ (alloc + 16 + n ≤ x) → clear m alloc x ≡ o x
  cleared_outside x p =
      clear_outside m alloc n hj (omega arith) x (omega arith) ∙ same x (omega arith)

  Finished-alone : Finished o (clear m alloc) alloc alloc n [] js
  Finished-alone = record {
    chain = clear-Chain m alloc n hj (omega arith) js cj;
    kept = (λ u. cc, UsedSame-same (alloc + 16 + n) js (λ x p q. cleared_outside x (inr p)));
    below = λ x p. cleared_outside x (inl p);
    cleared = clear_inside m alloc n hj (omega arith);
  }

  -- A used block before: it stays, and only the freed block is cleared.
  finish-used : (before : ℕ) → status m before ≡ 1 → finish m alloc before ≡ clear m alloc
  unfolding join_before joins_before
  finish-used before e = ground (arith, e)

  finish-none : finish m alloc 0 ≡ clear m alloc
  unfolding join_before joins_before
  finish-none = refl

  -- A free block before takes the freed one in, and is cleared.
  finish-free :
      (before : ℕ) (x : ℕ)
      → 0 < before
      → status m before ≡ 0
      → size m before ≡ x
      → x + 16 + n < 2 ^ 64
      → finish m alloc before ≡ clear (set_size m before (x + 16 + n)) before
  unfolding join_before joins_before
  finish-free before x q e f lt =
      let test : (before == 0) ≡ false = ground arith in
      let sum : add64 x (add64 16 n) ≡ x + 16 + n = omega arith in rw (test, e, f, hj.size_is, sum)

  Finished-first : Finished o (finish m alloc 0) alloc alloc n [] js
  Finished-first = rw finish-none Finished-alone

  module _ (a : ℕ) (x : Block) (hx : Header m a x) (place : alloc ≡ a + 16 + x.size)
      (a_pos : 0 < a) where
    Finished-used : x.used ≡ true → Finished o (finish m alloc a) a alloc n (x ∷ []) js
    Finished-used u =
        let e = finish-used a (hx.status_is ∙ ap flag u) in
        let f = Finished-alone in
        subst (λ (g : Memory). Finished o g a alloc n (x ∷ []) js) (sym e)
          (record {
            chain = simp u (
              Header-same (λ y p q. clear_outside m alloc n hj (omega arith) y (omega arith)) hx,
              subst (λ (t : ℕ). Chain (clear m alloc) t (block false n ∷ js)) place f.chain,
            );
            kept = simp u (
              λ w y p q. cleared_outside y (omega arith),
              subst (λ (t : ℕ). UsedSame t (block false n ∷ js) o (clear m alloc)) place f.kept,
            );
            below = λ y p. f.below y (omega arith);
            cleared = f.cleared;
          })

    Finished-free : x.used ≡ false → Finished o (finish m alloc a) a alloc n (x ∷ []) js
    Finished-free u =
        let k = x.size + 16 + n in
        let g = set_size m a k in
        let lt : k < 2 ^ 64 = omega arith in
        let hg : Header g a (block false k) =
          subst (λ (w : Bool). Header g a (block w k)) u
            (Header-set_size m a k hx (omega arith)
              (omega (arith, hx.size_aligned, hj.size_aligned)) lt) in
        let e = finish-free a x.size a_pos (hx.status_is ∙ ap flag u) hx.size_is lt in
        let far : (y : ℕ) → (y < a) ⊎ (a + 16 + k ≤ y) → clear g a y ≡ o y = λ y p.
          clear_outside g a k hg (omega arith) y (omega arith)
          ∙ set_size_outside m a k y (omega arith)
          ∙ same y (omega arith) in
        let cg : Chain g (a + 16 + k) js =
          Chain-same (a + 16 + k) js (λ y p q. set_size_outside m a k y (omega arith))
            (subst (λ (t : ℕ). Chain m t js) (omega arith) cj) in
        subst (λ (r : Memory). Finished o r a alloc n (x ∷ []) js) (sym e)
          (record {
            chain = simp u (clear-Chain g a k hg (omega arith) js cg);
            kept = simp u (λ w. cc, UsedSame-same (a + 16 + k) js (λ y p q. far y (inr p)));
            below = λ y p. far y (inl p);
            cleared = λ y p q. clear_inside g a k hg (omega arith) y (omega arith) (omega arith);
          })

  -- The joins and the clearing, whatever stands before the freed block.
  pub Finished_lem :
      (a : ℕ) (pre : List Block)
      → Chain m a pre
      → alloc ≡ a + total pre
      → 0 < a
      → Finished o (finish m alloc (before_at a pre)) a alloc n pre js
  Finished_lem a [] c e a_pos =
      subst (λ (t : ℕ). Finished o (finish m alloc 0) t alloc n [] js) (omega arith) Finished-first
  Finished_lem a (x ∷ []) (h, c) e a_pos = elim (Bool-cases x.used) [
    | inl u ↦ Finished-used a x h (omega arith) a_pos u
    | inr u ↦ Finished-free a x h (omega arith) a_pos u
  ]
  Finished_lem a (x ∷ y ∷ xs) (h, c) e a_pos =
      let f = Finished_lem (a + 16 + x.size) (y ∷ xs) c (omega arith) (omega arith) in
      record {
        chain = (
          Header-same (λ z p q. f.below z (omega arith) ∙ sym (same z (inl (omega arith)))) h,
          f.chain,
        );
        kept = (λ u z p q. f.below z q, f.kept);
        below = λ z p. f.below z (omega arith);
        cleared = f.cleared;
      }
