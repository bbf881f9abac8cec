-- ===== src/Alloc/Free.antt =====
-- `free`: the heap that it leaves, against the list of blocks.
use mathlib.Core.Path.{subst}
use mathlib.Core.List.{Perm}
use doomkernel.Prelude.{
  ℕ, suc, ◌+◌, ◌-◌, ◌^◌, ◌≤◌, ◌<◌, ◌≡◌, ◌≢◌, ◌⊎◌, refl, sym, ◌∙◌, ap, inl, inr, true, false, some,
  List, [], ◌∷◌, ◌++◌, arith,
}
use doomkernel.Memory.{Memory, add64, sub64}
use doomkernel.Memory.Laws.{SameOn}
use doomkernel.Alloc.{Heap, status, set_status, find_before, join_next, release, free}
use doomkernel.Alloc.Block.{Block, block, total, used_spans, total-append}
use doomkernel.Alloc.Header.{
  flag, Header, Chain, Chain-same, status-set_status, size-set_status, set_status_outside,
}
use doomkernel.Alloc.InUse.{InUse, InUse-split, InUse-freed, InUse-freed_back}
use doomkernel.Alloc.Reserve.{UsedSame, UsedSame-InUse}
use doomkernel.Alloc.Invariant.{IsHeap, used_bytes-le}
use doomkernel.Alloc.Joined.{
  joined-le, total-joined, joined_size, joined_rest, freed, before_at, total-freed,
  used_bytes-freed, used_spans-freed,
}
use doomkernel.Alloc.Join.{Chain-split, find_before_lem, join_next_outside, join_next-Chain, finish}
use doomkernel.Alloc.Finish.{Finished_lem, Finished}

-- `free` of a used block, the block before it being known
free-release :
    (h : Heap) {p alloc before : ℕ}
    → sub64 p 16 ≡ alloc
    → p ≢ 0
    → status h.mem alloc ≡ 1
    → find_before (suc h.last_alloc) (set_status h.mem alloc 0) h.heap_beginning alloc ≡ some before
    → free h p ≡ some (release h p alloc before)
free-release h {p} {before} e =
    subst
      (λ (a : ℕ).
        p ≢ 0
        → status h.mem a ≡ 1
        → find_before (suc h.last_alloc) (set_status h.mem a 0) h.heap_beginning a ≡ some before
        → free h p ≡ some (release h p a before))
      e (λ q s f. unfold free in ground (arith, f))

pub not_nil : (pre : List Block) (b : Block) (post : List Block) → pre ++ b ∷ post ≢ []
not_nil [] b post = λ e. cc
not_nil (x ∷ xs) b post = λ e. cc

-- A used block `b` of a heap, at `alloc`, with its neighbours.
module _ {h : Heap} (pre : List Block) (b : Block) (post : List Block)
    (v : IsHeap h (pre ++ b ∷ post)) (u : b.used ≡ true) where
  abbrev at : ℕ
  at = h.heap_beginning + total pre

  abbrev opened : Memory
  opened = set_status h.mem at 0

  abbrev finished : Memory
  finished =
      finish (join_next opened h.last_alloc at (at + 16 + b.size)) at
        (before_at h.heap_beginning pre)

  parts : Chain h.mem h.heap_beginning pre × Header h.mem at b × Chain h.mem (at + 16 + b.size) post
  parts = let (c, (d, e)) = Chain-split h.mem h.heap_beginning pre (b ∷ post) v.chain in (c, d, e)

  extent : h.last_alloc ≡ at + 16 + b.size + total post
  extent = omega (arith, v.end, total-append pre (b ∷ post))

  opened_outside : (x : ℕ) → (x < at) ⊎ (at + 16 ≤ x) → opened x ≡ h.mem x
  opened_outside x o = set_status_outside h.mem at 0 x o

  opened-Header : Header opened at (block false b.size)
  opened-Header = record {
    status_is = status-set_status h.mem at 0 (omega arith);
    size_is = size-set_status h.mem at 0 ∙ parts.1.size_is;
    size_pos = parts.1.size_pos;
    size_aligned = parts.1.size_aligned;
  }

  opened-pre : Chain opened h.heap_beginning pre
  opened-pre = Chain-same h.heap_beginning pre (λ x p q. opened_outside x (inl q)) parts.0

  opened-post : Chain opened (at + 16 + b.size) post
  opened-post = Chain-same (at + 16 + b.size) post (λ x p q. opened_outside x (omega arith)) parts.2

  free-Finished :
      Finished h.mem finished h.heap_beginning at (joined_size b.size post) pre (joined_rest post)
  free-Finished =
      let m2 = join_next opened h.last_alloc at (at + 16 + b.size) in
      let same = join_next_outside opened at b.size h.last_alloc opened-Header in
      let (hj, cj) =
        join_next-Chain opened at b.size h.last_alloc opened-Header post opened-post extent
          v.small in
      Finished_lem h.mem m2 at (joined_size b.size post) (joined_rest post)
        (λ x o. same x o ∙ opened_outside x o) hj cj
        (omega (arith, total-joined b.size post, extent, v.small)) (omega (arith, v.start_pos))
        h.heap_beginning pre (Chain-same h.heap_beginning pre (λ x p q. same x (inl q)) opened-pre)
        refl v.start_pos

  abbrev released : Heap
  released = record h { mem = finished; memory_used = h.memory_used - (16 + b.size) }

  used_enough : 16 + b.size ≤ h.memory_used
  used_enough = omega (arith, v.used, used_bytes-freed pre b post u)

  release-released : release h (at + 16) at (before_at h.heap_beginning pre) ≡ released
  unfolding release
  release-released =
      let next : add64 (at + 16) b.size ≡ at + 16 + b.size = omega (arith, extent, v.small) in
      let less : sub64 h.memory_used (add64 16 b.size) ≡ h.memory_used - (16 + b.size) =
        omega (arith, extent, v.small, used_enough, used_small) in
      rw (opened-Header.size_is, next, less)
    where
      used_small : h.memory_used < 2 ^ 62
      used_small = omega (arith, v.used, used_bytes-le (pre ++ b ∷ post), v.end, v.small)

  free-released : free h (at + 16) ≡ some released
  free-released =
      let header : sub64 (at + 16) 16 ≡ at = omega (arith, extent, v.small) in
      let found =
        find_before_lem (suc h.last_alloc) opened h.heap_beginning pre at opened-pre refl
          (omega (arith, extent, v.small)) (omega (arith, extent)) in
      free-release h header (omega arith) (parts.1.status_is ∙ ap flag u) found
      ∙ ap some release-released

  released-IsHeap : IsHeap released (freed pre b post)
  released-IsHeap = record {
    chain = free-Finished.chain;
    end = omega (arith, v.end, total-freed pre b post);
    start_pos = v.start_pos;
    start_aligned = v.start_aligned;
    small = v.small;
    limit_small = v.limit_small;
    inside = inr (ground (arith, v.inside, not_nil pre b post));
    used = omega (arith, v.used, used_bytes-freed pre b post u);
  }

-- `free` of the payload of a used block `b`, which stands behind the blocks `pre` and before `post`:
-- it ends, and leaves the heap whose blocks are the same but that `b` is free and joined with a free
-- block behind it and with a free block before it. Of the payloads in use exactly that one is gone,
-- and it is cleared; the payloads still in use hold what they held.
pub free_refines :
    {h : Heap} (pre : List Block) (b : Block) (post : List Block)
    → IsHeap h (pre ++ b ∷ post)
    → b.used ≡ true
    → let p = h.heap_beginning + total pre + 16 in
      let cs = freed pre b post in
      (g : Heap) × (free h p ≡ some g)
      × IsHeap g cs
      × Perm
          (used_spans h.heap_beginning (pre ++ b ∷ post))
          ((p, b.size) ∷ used_spans h.heap_beginning cs)
      × ((x : ℕ) → p ≤ x → x < p + b.size → g.mem x ≡ 0)
      × UsedSame h.heap_beginning cs h.mem g.mem
      × (g.heap_beginning ≡ h.heap_beginning)
free_refines {h} pre b post v u =
    let f = free-Finished pre b post v u in
    (
      released pre b post v u,
      free-released pre b post v u,
      released-IsHeap pre b post v u,
      used_spans-freed h.heap_beginning pre b post u,
      λ x p q. f.cleared x p (omega (arith, q, joined-le b.size post)),
      f.kept,
      refl,
    )

-- What a heap is after the payload of `n` bytes at `p` has been given back.
pub record Returned (h : Heap) (bs : List Block) (p n : ℕ) (g : Heap) : Type 0 where
  pub blocks : List Block
  pub valid : IsHeap g blocks
  pub spans : Perm (used_spans h.heap_beginning bs) ((p, n) ∷ used_spans h.heap_beginning blocks)
  pub others :
      (q k : ℕ)
      → InUse q k h.heap_beginning bs
      → q ≢ p
      → InUse q k h.heap_beginning blocks × SameOn q (q + k) h.mem g.mem
  pub older :
      (q k : ℕ) → InUse q k h.heap_beginning blocks → InUse q k h.heap_beginning bs × (q ≢ p)
  pub cleared : (x : ℕ) → p ≤ x → x < p + n → g.mem x ≡ 0
  pub same_beginning : g.heap_beginning ≡ h.heap_beginning

free-split :
    {h : Heap} (pre : List Block) (b : Block) (post : List Block) {p n : ℕ}
    → IsHeap h (pre ++ b ∷ post)
    → b.used ≡ true
    → p ≡ h.heap_beginning + total pre + 16
    → n ≡ b.size
    → (g : Heap) × (free h p ≡ some g) × Returned h (pre ++ b ∷ post) p n g
free-split {h} pre b post v u ep en =
    let (g, e, w, sp, z, k, s) = free_refines pre b post v u in
    rw (ep, en)
      (
        g,
        e,
        record {
          blocks = freed pre b post;
          valid = w;
          spans = sp;
          others = λ q l i ne.
              let j = InUse-freed q l h.heap_beginning pre b post i ne in
              (j, UsedSame-InUse h.mem g.mem q l h.heap_beginning (freed pre b post) j k);
          older = λ q l i. InUse-freed_back q l h.heap_beginning pre b post i;
          cleared = z;
          same_beginning = s;
        },
      )

-- `free` of any payload in use ends. Afterwards exactly that payload is no longer in use, and it is
-- cleared; every other payload in use is in use still and holds the bytes that it held.
pub free_contract :
    {h : Heap} {bs : List Block} (p n : ℕ)
    → IsHeap h bs
    → InUse p n h.heap_beginning bs
    → (g : Heap) × (free h p ≡ some g) × Returned h bs p n g
free_contract {h} {bs} p n v i =
    let (pre, b, post, e, u, ep, en) = InUse-split p n h.heap_beginning bs i in
    subst (λ (l : List Block). (g : Heap) × (free h p ≡ some g) × Returned h l p n g) (sym e)
      (free-split pre b post (subst (λ (l : List Block). IsHeap h l) e v) u ep en)

-- The null pointer, and a block that is not in use, are left alone.
pub free-null : (h : Heap) → free h 0 ≡ some h
unfolding free
free-null h = refl

pub free-unused : {h : Heap} (p : ℕ) → status h.mem (sub64 p 16) ≡ 0 → free h p ≡ some h
unfolding free
free-unused p e = ground (arith, e)
