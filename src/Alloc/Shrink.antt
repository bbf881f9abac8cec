-- ===== src/Alloc/Shrink.antt =====
-- `realloc` to a size that the block holds: the block is cut in place.
use mathlib.Core.Path.{subst}
use doomkernel.Prelude.{
  ℕ, ◌+◌, ◌-◌, ◌%◌, ◌^◌, ◌≤◌, ◌<◌, ◌≡◌, ◌⊎◌, refl, sym, ◌∙◌, inl, inr, Bool, true, false,
  Bool-cases, some, List, [], ◌∷◌, ◌++◌, arith, ltb, leb, ◌==◌,
}
use doomkernel.Memory.{Memory, add64, sub64}
use doomkernel.Memory.Laws.{SameOn}
use doomkernel.Alloc.{Heap, set_status, set_size, split, align_up, int_max, shrink, realloc}
use doomkernel.Alloc.Block.{Block, block, total, carve, total-append, used_bytes-append}
use doomkernel.Alloc.Header.{
  Header, Chain, Header-same, Chain-same, Chain-append, set_status_outside, set_size_outside,
}
use doomkernel.Alloc.Take.{split_large, rest-Header}
use doomkernel.Alloc.Free.{not_nil}
use doomkernel.Alloc.Join.{Chain-split, Header-set_size}
use doomkernel.Alloc.Invariant.{IsHeap, align_up_lem, used_bytes-le}

-- A block at `a` of more than 16 bytes beyond the `n` to keep.
module _ (m : Memory) (a n : ℕ) (b : Block) (h : Header m a b) (large : 16 < b.size - n)
    (small : a + 16 + b.size < 2 ^ 62) (pos : 0 < n) (al : n % 16 ≡ 0) where
  abbrev rest : Memory
  rest = set_size (set_status m (a + 16 + n) 0) (a + 16 + n) (b.size - n - 16)

  split_lem : split m a n ≡ set_size rest a n
  split_lem = split_large m a n h (omega arith) (omega arith) large

  split_outside : (x : ℕ) → (x < a) ⊎ (a + 16 + b.size ≤ x) → split m a n x ≡ m x
  split_outside x o = rw split_lem (
      set_size_outside rest a n x (omega arith)
      ∙ set_size_outside (set_status m (a + 16 + n) 0) (a + 16 + n) (b.size - n - 16) x
          (omega arith)
      ∙ set_status_outside m (a + 16 + n) 0 x (omega arith))

  split_kept : SameOn (a + 16) (a + 16 + n) m (split m a n)
  split_kept = λ x p q. rw split_lem (
      set_size_outside rest a n x (omega arith)
      ∙ set_size_outside (set_status m (a + 16 + n) 0) (a + 16 + n) (b.size - n - 16) x
          (omega arith)
      ∙ set_status_outside m (a + 16 + n) 0 x (omega arith))

  split-Chain : Chain (split m a n) a (block b.used n ∷ block false (b.size - n - 16) ∷ [])
  split-Chain = rw split_lem (
    Header-set_size rest a n
        (Header-same
          (λ x p q.
            set_size_outside (set_status m (a + 16 + n) 0) (a + 16 + n) (b.size - n - 16) x
              (omega arith)
            ∙ set_status_outside m (a + 16 + n) 0 x (omega arith))
          h)
        pos al (omega arith),
    (
      Header-same (λ x p q. set_size_outside rest a n x (omega arith))
          (rest-Header m a n h (omega arith) (omega arith) large al),
      tt,
    ),
  )

-- A used block `b` of a heap, between `pre` and `post`, cut to `n` bytes.
module _ {h : Heap} (pre : List Block) (b : Block) (post : List Block)
    (v : IsHeap h (pre ++ b ∷ post)) (u : b.used ≡ true) (n : ℕ) (pos : 0 < n) (al : n % 16 ≡ 0)
    (le : n ≤ b.size) where
  abbrev at : ℕ
  at = h.heap_beginning + total pre

  parts : Chain h.mem h.heap_beginning pre × Header h.mem at b × Chain h.mem (at + 16 + b.size) post
  parts = let (c, (d, e)) = Chain-split h.mem h.heap_beginning pre (b ∷ post) v.chain in (c, d, e)

  extent : h.last_alloc ≡ at + 16 + b.size + total post
  extent = omega (arith, v.end, total-append pre (b ∷ post))

  used_small : (16 + b.size ≤ h.memory_used) × (h.memory_used < 2 ^ 62)
  used_small = ground (
    arith,
    u,
    v.used,
    used_bytes-append pre (b ∷ post),
    used_bytes-le (pre ++ b ∷ post),
    v.end,
    v.small,
  )

  abbrev cut : Heap
  cut = record h { mem = split h.mem at n; memory_used = h.memory_used - (b.size - n) }

  shrink-cut : 16 < b.size - n → shrink h at n ≡ cut
  unfolding shrink
  shrink-cut large =
      let test : ltb 16 (sub64 b.size n) ≡ true = ground (arith, extent, v.small) in
      let place : add64 (add64 at 16) n ≡ at + 16 + n = omega (arith, extent, v.small) in
      let bound : at + 16 + b.size < 2 ^ 62 = omega (arith, extent, v.small) in
      let rest = (split-Chain h.mem at n b parts.1 large bound pos al).1.0.size_is in
      let less : sub64 h.memory_used (add64 (b.size - n - 16) 16) ≡ h.memory_used - (b.size - n) =
        omega (arith, extent, v.small, used_small) in
      rw (parts.1.size_is, test, place, rest, less)

  shrink-same : ltb 16 (b.size - n) ≡ false → shrink h at n ≡ h
  unfolding shrink
  shrink-same few =
      let test : ltb 16 (sub64 b.size n) ≡ false = ground (arith, extent, v.small) in
      rw (parts.1.size_is, test)

  abbrev after : List Block
  after = pre ++ (carve n b ++ post)

  cut-IsHeap :
      16 < b.size - n
      → IsHeap cut (pre ++ ((block true n ∷ block false (b.size - n - 16) ∷ []) ++ post))
  cut-IsHeap large =
      let bound : at + 16 + b.size < 2 ^ 62 = omega (arith, extent, v.small) in
      let out = split_outside h.mem at n b parts.1 large bound pos al in
      let two : List Block = block true n ∷ block false (b.size - n - 16) ∷ [] in
      let e : at + total two ≡ at + 16 + b.size = omega arith in
      record {
        chain =
            Chain-append (split h.mem at n) h.heap_beginning pre (two ++ post)
              (Chain-same h.heap_beginning pre (λ x p q. out x (inl q)) parts.0)
              (Chain-append (split h.mem at n) at two post
                (subst
                  (λ (w : Bool).
                    Chain (split h.mem at n) at (block w n ∷ block false (b.size - n - 16) ∷ []))
                  u (split-Chain h.mem at n b parts.1 large bound pos al))
                (subst (λ (t : ℕ). Chain (split h.mem at n) t post) (sym e)
                  (Chain-same (at + 16 + b.size) post (λ x p q. out x (inr p)) parts.2)));
        end = omega (
          arith,
          v.end,
          total-append pre (b ∷ post),
          total-append pre (two ++ post),
          total-append two post,
        );
        start_pos = v.start_pos;
        start_aligned = v.start_aligned;
        small = v.small;
        limit_small = v.limit_small;
        inside = inr (ground (arith, v.inside, not_nil pre b post));
        used = ground (
          arith,
          u,
          v.used,
          used_small,
          used_bytes-append pre (b ∷ post),
          used_bytes-append pre (two ++ post),
          used_bytes-append two post,
        );
      }

  -- A block that is not worth cutting stays as it is.
  uncut : ltb 16 (b.size - n) ≡ false → after ≡ pre ++ b ∷ post
  uncut few = simp (few, ← u)

  shrink_lem :
      (g : Heap) × (shrink h at n ≡ g)
      × IsHeap g after
      × SameOn (at + 16) (at + 16 + n) h.mem g.mem
      × ((x : ℕ) → (x < at) ⊎ (at + 16 + b.size ≤ x) → g.mem x ≡ h.mem x)
  shrink_lem = elim (Bool-cases (ltb 16 (b.size - n))) [
    | inl large ↦
        let bound : at + 16 + b.size < 2 ^ 62 = omega (arith, extent, v.small) in
        let more : 16 < b.size - n = ground arith in
        (
          cut,
          shrink-cut more,
          simp large (cut-IsHeap more),
          split_kept h.mem at n b parts.1 more bound pos al,
          split_outside h.mem at n b parts.1 more bound pos al,
        )
    | inr few ↦ (
      h,
      shrink-same few,
      subst (λ (l : List Block). IsHeap h l) (sym (uncut few)) v,
      (λ x p q. refl),
      (λ x o. refl),
    )
  ]

-- `realloc` of the payload of a used block `b` to a size that it holds returns the same pointer. The
-- block is cut if what is over holds a header and a byte, and then the rest is a free block; the
-- bytes that are kept, and everything outside the old block, are as they were.
pub realloc_shrinks :
    {h : Heap} (pre : List Block) (b : Block) (post : List Block) (n : ℕ)
    → IsHeap h (pre ++ b ∷ post)
    → b.used ≡ true
    → 0 < n
    → n ≤ int_max - 15
    → align_up n ≤ b.size
    → let p = h.heap_beginning + total pre + 16 in
      (g : Heap) × (realloc h p n ≡ some (p, g))
      × IsHeap g (pre ++ (carve (align_up n) b ++ post))
      × SameOn p (p + align_up n) h.mem g.mem
      × ((x : ℕ) → (x + 16 < p) ⊎ (p + b.size ≤ x) → g.mem x ≡ h.mem x)
unfolding realloc
realloc_shrinks {h} pre b post n v u pos fits le =
    let a = align_up n in
    let s = align_up_lem n (omega arith) in
    let (g, e, w, k, o) = shrink_lem pre b post v u a (omega (arith, s)) s.0 le in
    let at = h.heap_beginning + total pre in
    let header : sub64 (at + 16) 16 ≡ at =
      omega (arith, extent pre b post v u a (omega (arith, s)) s.0 le, v.small) in
    let is = (parts pre b post v u a (omega (arith, s)) s.0 le).1.size_is in
    let test : leb a b.size ≡ true = ground (arith, le) in
    let nonzero : (n == 0) ≡ false = ground arith in
    let nonnull : (at + 16 == 0) ≡ false = ground arith in
    let accepted : ltb (int_max - 15) n ≡ false = ground arith in
    (g, rw (header, nonnull, nonzero, accepted, is, test, e), w, k, λ x c. o x (omega arith))
