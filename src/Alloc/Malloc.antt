-- ===== src/Alloc/Malloc.antt =====
-- `malloc` and `calloc` against the list of blocks: which pointer they return, which list they
-- leave, and what a caller may rely on.
use mathlib.Core.List.{Perm}
use doomkernel.Prelude.{
  ℕ, ◌+◌, ◌%◌, ◌^◌, ◌≤◌, ◌<◌, ◌≡◌, ◌≢◌, ◌⊎◌, refl, ◌∙◌, inl, inr, true, some, List, [], ◌∷◌, ◌++◌,
  arith,
}
use doomkernel.Memory.{Memory, add64}
use doomkernel.Memory.Laws.{SameOn}
use doomkernel.Str.{memset}
use doomkernel.Str.Fill.{memset_outside, memset_inside}
use doomkernel.Alloc.{Heap, size, mark, fresh_header, set_status}
use doomkernel.Alloc.Block.{
  Block, block, total, used_spans, first_fit, reserve, total-append, total-reserve,
  used_bytes-append, first_fit_bounds,
}
use doomkernel.Alloc.Header.{
  Header, Header-same, Chain-same, Chain-append, status-set_status, status-set_size, size-set_size,
  set_status_outside, set_size_outside,
}
use doomkernel.Alloc.Reserve.{UsedSame, UsedSame-same, Reserved, first_fit-Reserved}
use doomkernel.Alloc.InUse.{
  InUse, InUse-bounds, InUse-reserve, InUse-append_left, InUse-append_right,
}
use doomkernel.Alloc.Invariant.{
  IsHeap, total-aligned, first_fit-aligned, used_spans-appended, used_bytes-le,
}

-- A block at `p`, the first `k` bytes of its payload cleared, has been added to the used payloads
-- of the heap; no other payload in use has changed.
pub record Granted (h : Heap) (bs : List Block) (k p : ℕ) (g : Heap) (cs : List Block)
    : Type 0 where
  pub valid : IsHeap g cs
  pub size : ℕ
  pub aligned : p % 16 ≡ 0
  pub from : g.heap_beginning + 16 ≤ p
  pub upto : p + size ≤ g.last_alloc
  pub spans : Perm (used_spans h.heap_beginning cs) ((p, size) ∷ used_spans h.heap_beginning bs)
  pub new : InUse p size h.heap_beginning cs
  pub still : (q l : ℕ) → InUse q l h.heap_beginning bs → InUse q l h.heap_beginning cs
  pub apart : (q l : ℕ) → InUse q l h.heap_beginning bs → (q + l + 16 ≤ p) ⊎ (p + size + 16 ≤ q)
  pub cleared : (x : ℕ) → p ≤ x → x < p + k → g.mem x ≡ 0
  pub kept : UsedSame h.heap_beginning bs h.mem g.mem
  pub same_beginning : g.heap_beginning ≡ h.heap_beginning
  pub same_end : g.heap_end ≡ h.heap_end

-- a block taken again, with `k` bytes cleared
abbrev pub reused : ℕ → Heap → ℕ → ℕ → Heap
reused k h a n = record h {
  mem = memset (mark h.mem a n) (a + 16) 0 k;
  memory_used = add64 h.memory_used (add64 (size (mark h.mem a n) a) 16);
}

module _ {h : Heap} {bs : List Block} (v : IsHeap h bs) (n : ℕ) (pos : 0 < n)
    (al : n % 16 ≡ 0) where
  first_fit-IsHeap :
      {loc k : ℕ}
      → Reserved h.mem n k h.heap_beginning loc bs
      → bs ≢ []
      → IsHeap (reused k h loc n) (reserve n bs)
  first_fit-IsHeap {loc} {k} r ne = record {
    chain = r.chain;
    end = omega (arith, v.end, total-reserve n bs);
    start_pos = v.start_pos;
    start_aligned = v.start_aligned;
    small = v.small;
    limit_small = v.limit_small;
    inside = ground (arith, v.inside, ne);
    used = omega (arith, v.used, r.bytes, r.within, v.end, v.small, used_bytes-le bs);
  }

first_fit-ne-nil : (n a loc : ℕ) (bs : List Block) → first_fit n a bs ≡ some loc → bs ≢ []
first_fit-ne-nil n a loc [] e = cc
first_fit-ne-nil n a loc (b ∷ bs) e = λ q. cc

-- Taking the first block that fits, `k` of its bytes cleared.
pub reused-Granted :
    {h : Heap} {bs : List Block}
    → IsHeap h bs
    → (n k loc : ℕ) → 0 < n
    → n % 16 ≡ 0
    → first_fit n h.heap_beginning bs ≡ some loc
    → k ≤ size (mark h.mem loc n) loc
    → (r : Granted h bs k (loc + 16) (reused k h loc n) (reserve n bs)) × (n ≤ r.size)
      × (r.size ≡ size (mark h.mem loc n) loc)
reused-Granted {h} {bs} v n k loc pos al e le =
    let r =
      first_fit-Reserved h.mem n k h.heap_beginning loc bs v.chain (omega (arith, v.end, v.small))
        pos al e le in
    (
      record {
        valid = first_fit-IsHeap v n pos al r (first_fit-ne-nil n h.heap_beginning loc bs e);
        size = size (mark h.mem loc n) loc;
        aligned =
            omega
              (arith, first_fit-aligned h.mem n h.heap_beginning loc bs v.chain v.start_aligned e);
        from = omega (arith, first_fit_bounds n h.heap_beginning bs loc e);
        upto = omega (arith, r.within, v.end);
        spans = r.spans;
        new = r.new;
        still = λ q l i. InUse-reserve q l n h.heap_beginning bs i;
        apart = r.apart;
        cleared = λ x p q. memset_inside (mark h.mem loc n) (loc + 16) 0 k x p q;
        kept = r.kept;
        same_beginning = refl;
        same_end = refl;
      },
      r.enough,
      refl,
    )

-- a new block at the end, all of it cleared
abbrev pub extended : Heap → ℕ → Heap
extended h n = record h {
  mem = memset (fresh_header h.mem h.last_alloc n) (h.last_alloc + 16) 0 n;
  last_alloc = h.last_alloc + 16 + n;
  memory_used = h.memory_used + 16 + n;
}

module _ (m : Memory) (a n : ℕ) (pos : 0 < n) (al : n % 16 ≡ 0) (small : n < 2 ^ 64) where
  fresh_outside :
      (x : ℕ) → (x < a) ⊎ (a + 16 + n ≤ x) → memset (fresh_header m a n) (a + 16) 0 n x ≡ m x
  unfolding fresh_header
  fresh_outside x o =
      memset_outside (fresh_header m a n) (a + 16) 0 n x (omega arith)
      ∙ set_size_outside (set_status m a 1) a n x (omega arith)
      ∙ set_status_outside m a 1 x (omega arith)

  fresh-Header : Header (memset (fresh_header m a n) (a + 16) 0 n) a (block true n)
  unfolding fresh_header
  fresh-Header =
      Header-same (λ x p q. memset_outside (fresh_header m a n) (a + 16) 0 n x (omega arith))
        (record {
          status_is =
              status-set_size (set_status m a 1) a n ∙ status-set_status m a 1 (omega arith);
          size_is = size-set_size (set_status m a 1) a n small;
          size_pos = pos;
          size_aligned = al;
        })

pub extended-Granted :
    {h : Heap} {bs : List Block}
    → IsHeap h bs
    → (n : ℕ) → 0 < n
    → n % 16 ≡ 0
    → h.last_alloc + n + 16 < h.heap_end
    → (r : Granted h bs n (h.last_alloc + 16) (extended h n) (bs ++ block true n ∷ [])) × (r.size
        ≡ n)
extended-Granted {h} {bs} v n pos al room =
    let g = memset (fresh_header h.mem h.last_alloc n) (h.last_alloc + 16) 0 n in
    let small : n < 2 ^ 64 = omega (arith, v.limit_small) in
    let below : SameOn h.heap_beginning (h.heap_beginning + total bs) h.mem g =
      λ x p q. fresh_outside h.mem h.last_alloc n pos al small x (omega (arith, v.end)) in
    (
      record {
        valid = record {
          chain =
              Chain-append g h.heap_beginning bs (block true n ∷ [])
                (Chain-same h.heap_beginning bs below v.chain)
                (rw (← v.end) (fresh-Header h.mem h.last_alloc n pos al small, tt));
          end = omega (arith, v.end, total-append bs (block true n ∷ []));
          start_pos = v.start_pos;
          start_aligned = v.start_aligned;
          small = omega (arith, v.limit_small);
          limit_small = v.limit_small;
          inside = inr (omega arith);
          used = omega (arith, v.used, used_bytes-append bs (block true n ∷ []));
        };
        size = n;
        aligned =
            omega (arith, v.end, v.start_aligned, total-aligned h.mem h.heap_beginning bs v.chain);
        from = omega (arith, v.end);
        upto = omega arith;
        spans = rw v.end (used_spans-appended h.heap_beginning n bs);
        new =
            InUse-append_right (h.last_alloc + 16) n h.heap_beginning bs (block true n ∷ [])
              (inl (refl, omega (arith, v.end), refl));
        still = λ q l i. InUse-append_left q l h.heap_beginning bs (block true n ∷ []) i;
        apart = λ q l i. inl (omega (arith, InUse-bounds q l h.heap_beginning bs i, v.end));
        cleared = λ x p q.
            memset_inside (fresh_header h.mem h.last_alloc n) (h.last_alloc + 16) 0 n x p q;
        kept = UsedSame-same h.heap_beginning bs below;
        same_beginning = refl;
        same_end = refl;
      },
      refl,
    )
