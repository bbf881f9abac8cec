-- ===== src/Alloc/Realloc.antt =====
-- `realloc`: growing a block moves its payload, shrinking keeps its place.
use mathlib.Core.Path.{subst}
use doomkernel.Prelude.{
  ℕ, ◌+◌, ◌-◌, ◌^◌, ◌≤◌, ◌<◌, ◌≡◌, ◌≢◌, ◌⊎◌, refl, sym, ◌∙◌, inl, inr, false, some, List, [], ◌∷◌,
  arith, ◌==◌,
}
use doomkernel.Memory.{Memory, sub64, load8}
use doomkernel.Memory.Laws.{SameOn, load8_same}
use doomkernel.Str.{memcpy}
use doomkernel.Str.Copy.{memcpy_lem, memcpy_outside}
use doomkernel.Alloc.{Heap, size, align_up, int_max, move, realloc}
use doomkernel.Alloc.Block.{Block, total}
use doomkernel.Alloc.Header.{Chain}
use doomkernel.Alloc.InUse.{InUse, InUse-bounds, Chain-payload}
use doomkernel.Alloc.Reserve.{UsedSame-InUse}
use doomkernel.Alloc.Invariant.{IsHeap, align_up_lem}
use doomkernel.Alloc.Malloc.{Granted}
use doomkernel.Alloc.Contract.{malloc_contract}
use doomkernel.Alloc.Free.{Returned, free_contract}

-- The header before a payload in use tells its size.
size-InUse :
    (m : Memory) (p n a : ℕ) (bs : List Block)
    → Chain m a bs
    → InUse p n a bs
    → a + total bs < 2 ^ 62
    → size m (sub64 p 16) ≡ n
size-InUse m p n a [] c i small = absurd i
size-InUse m p n a (b ∷ bs) (h, c) (inl (u, e, f)) small =
    let place : sub64 p 16 ≡ a = omega (arith, e) in rw (place, h.size_is, f)
size-InUse m p n a (b ∷ bs) (h, c) (inr there) small =
    size-InUse m p n (a + 16 + b.size) bs c there (omega arith)

-- What a heap is after the payload of `old` bytes at `p` has moved to one of at least `n` at `q`.
pub record Moved (h : Heap) (bs : List Block) (p old n q : ℕ) (f : Heap) : Type 0 where
  pub blocks : List Block
  pub valid : IsHeap f blocks
  pub size : ℕ
  pub enough : n ≤ size
  pub new : InUse q size h.heap_beginning blocks
  pub gone : (k : ℕ) → ¬ InUse p k h.heap_beginning blocks
  pub copied : (j : ℕ) → j < old → load8 f.mem (q + j) ≡ load8 h.mem (p + j)
  pub others :
      (x k : ℕ)
      → InUse x k h.heap_beginning bs
      → x ≢ p
      → InUse x k h.heap_beginning blocks × SameOn x (x + k) h.mem f.mem

-- the step between `malloc` and `free`
abbrev copied : Heap → ℕ → ℕ → ℕ → Heap
copied g q p n = record g { mem = memcpy g.mem q p n }

-- Copying into a payload in use keeps the heap.
copied-IsHeap :
    {g : Heap} {cs : List Block} (q p n k : ℕ)
    → IsHeap g cs
    → InUse q k g.heap_beginning cs
    → n ≤ k
    → IsHeap (copied g q p n) cs
copied-IsHeap {g} {cs} q p n k v i le = record {
  chain =
      Chain-payload q k g.heap_beginning cs i (λ x o. memcpy_outside g.mem q p n x (omega arith))
        v.chain;
  end = v.end;
  start_pos = v.start_pos;
  start_aligned = v.start_aligned;
  small = v.small;
  limit_small = v.limit_small;
  inside = v.inside;
  used = v.used;
}

module _ {h g : Heap} {bs cs : List Block} (p old c n q : ℕ) (v : IsHeap h bs)
    (i : InUse p old h.heap_beginning bs) (r : Granted h bs c q g cs) (more : n ≤ r.size)
    (grows : old ≤ r.size) where
  away : q ≢ p
  away = omega (arith, r.apart p old i)

  to_g : (x k : ℕ) (l : List Block) → InUse x k h.heap_beginning l → InUse x k g.heap_beginning l
  to_g x k l j = subst (λ (t : ℕ). InUse x k t l) (sym r.same_beginning) j

  to_h : (x k : ℕ) (l : List Block) → InUse x k g.heap_beginning l → InUse x k h.heap_beginning l
  to_h x k l j = subst (λ (t : ℕ). InUse x k t l) r.same_beginning j

  granted-Moved : (f : Heap) → Returned (copied g q p old) cs p old f → Moved h bs p old n q f
  granted-Moved f t =
      let (still, same) = t.others q r.size (to_g q r.size cs r.new) away in
      record {
        blocks = t.blocks;
        valid = t.valid;
        size = r.size;
        enough = more;
        new = to_h q r.size t.blocks still;
        gone = λ k j. (t.older p k (to_g p k t.blocks j)).1 refl;
        copied = λ j lt.
            load8_same (memcpy g.mem q p old) f.mem (q + j)
              (same (q + j) (omega arith) (omega arith))
            ∙ memcpy_lem g.mem q p old j (omega (arith, r.apart p old i)) lt
            ∙ load8_same h.mem g.mem (p + j) (
                UsedSame-InUse h.mem g.mem p old h.heap_beginning bs i r.kept (p + j) (omega arith)
                  (omega arith));
        others = λ x k j ne.
            let (u, w) = t.others x k (to_g x k cs (r.still x k j)) ne in
            (
              to_h x k t.blocks u,
              λ y lo hi.
                  w y lo hi
                  ∙ memcpy_outside g.mem q p old y (omega (arith, r.apart x k j))
                  ∙ UsedSame-InUse h.mem g.mem x k h.heap_beginning bs j r.kept y lo hi,
            );
      }

  size-copied : size g.mem (sub64 p 16) ≡ old
  size-copied =
      size-InUse g.mem p old g.heap_beginning cs r.valid.chain (to_g p old cs (r.still p old i))
        (omega (arith, r.valid.end, r.valid.small))

  move-Moved : (f : Heap) × (move p (q, g) ≡ some (q, f)) × Moved h bs p old n q f
  unfolding move
  move-Moved =
      let w = copied-IsHeap q p old r.size r.valid (to_g q r.size cs r.new) (omega arith) in
      let (f, ok, t) = free_contract p old w (to_g p old cs (r.still p old i)) in
      let nonnull : (q == 0) ≡ false = ground (arith, r.from, r.valid.start_pos) in
      (f, rw (nonnull, size-copied, ok), granted-Moved f t)

move-null : (p : ℕ) (g : Heap) → move p (0, g) ≡ some (0, g)
unfolding move
move-null p g = refl

-- Rounding up does not leave the range of sizes that are accepted.
align_up_accepted :
    (n : ℕ) → 0 < n → n ≤ int_max - 15 → (n ≤ align_up n) × (align_up n ≤ int_max - 15)
align_up_accepted n pos fits = omega (arith, align_up_lem n (omega arith))

-- `realloc` of a payload in use to a size that it does not hold, within the sizes accepted, ends. Either it returns
-- the null pointer and leaves the heap as it was, the old payload with it; or the new payload is at
-- least as large as asked and starts with the bytes of the old one, which is no longer in use, and
-- all other payloads in use hold the bytes that they held.
pub realloc_grows :
    {h : Heap} {bs : List Block} (p old n : ℕ)
    → IsHeap h bs
    → InUse p old h.heap_beginning bs
    → 0 < n
    → n ≤ int_max - 15
    → old < align_up n
    → (q : ℕ) × (f : Heap) × (realloc h p n ≡ some (q, f))
      × (((q ≡ 0) × (f ≡ h)) ⊎ Moved h bs p old n q f)
unfolding realloc
realloc_grows {h} {bs} p old n v i pos fits grows =
    let a = align_up n in
    let (q, g, e, answer) = malloc_contract v a in
    let b = InUse-bounds p old h.heap_beginning bs i in
    let is = size-InUse h.mem p old h.heap_beginning bs v.chain i (omega (arith, v.end, v.small)) in
    elim answer [
      | inl (null, same) ↦
          (0, h, ground (arith, is, b, e, null, same, move-null p h), inl (refl, refl))
      | inr (cs, c, r, more, all) ↦
          let le = align_up_accepted n pos fits in
          let (f, ok, m) = move-Moved p old c n q v i r (omega arith) (omega arith) in
          (q, f, ground (arith, is, b, e, ok), inr m)
    ]
