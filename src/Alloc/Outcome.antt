-- ===== src/Alloc/Outcome.antt =====
-- What `malloc` and `calloc` return on every path, and the heap that they leave.
use doomkernel.Prelude.{
  ℕ, suc, ◌+◌, ◌%◌, ◌^◌, ◌≤◌, ◌<◌, ◌≡◌, refl, ◌∙◌, inl, inr, true, false, Bool-cases, Option-cases,
  some, List, [], ◌∷◌, ◌++◌, arith, ltb, leb,
}
use doomkernel.Memory.{add64}
use doomkernel.Alloc.{Heap, size, mark, extend, reuse, reuse_calloc, resume, search_and_take}
use doomkernel.Alloc.Block.{
  Block, block, total, first_fit, reserve, Allocation, again, appended, refused, decide_allocation,
  pointer, first_fit_bounds,
}
use doomkernel.Alloc.Malloc.{Granted, reused, reused-Granted, extended, extended-Granted}
use doomkernel.Alloc.Walk.{stop_at, walk_lem}
use doomkernel.Alloc.Invariant.{IsHeap, used_bytes-le}

-- the calls with the sums written without wrap-around
pub reuse_lem :
    (h : Heap) (a n : ℕ)
    → a + 16 < 2 ^ 64
    → reuse h a n ≡ (a + 16, reused (size (mark h.mem a n) a) h a n)
unfolding reuse
reuse_lem h a n small = let e : add64 a 16 ≡ a + 16 = omega arith in rw e

pub reuse_calloc_lem :
    (h : Heap) (a n : ℕ) → a + 16 < 2 ^ 64 → reuse_calloc h a n ≡ (a + 16, reused n h a n)
unfolding reuse_calloc
reuse_calloc_lem h a n small = let e : add64 a 16 ≡ a + 16 = omega arith in rw e

module _ (take : Heap → ℕ → ℕ → ℕ × Heap) {h : Heap} {bs : List Block} (v : IsHeap h bs)
    (n : ℕ) where
  search_lem :
      search_and_take take h n
      ≡ some (resume take h n (stop_at h.last_alloc (first_fit n h.heap_beginning bs)))
  unfolding search_and_take
  search_lem =
      let e =
        walk_lem (suc h.last_alloc) h.mem n h.heap_beginning h.last_alloc bs v.chain v.end
          (omega (arith, v.small)) (omega arith) in
      rw (e, search_and_take)

extend_refused :
    (h : Heap) (n : ℕ)
    → h.heap_end ≤ h.last_alloc + n + 16
    → h.last_alloc + n + 16 < 2 ^ 64
    → extend h h.last_alloc n ≡ (0, h)
unfolding extend
extend_refused h n full small =
    let test : leb h.heap_end (add64 (add64 h.last_alloc n) 16) ≡ true = ground arith in rw test

extend-extended :
    (h : Heap) (n : ℕ)
    → h.last_alloc + n + 16 < h.heap_end
    → h.heap_end < 2 ^ 62
    → h.memory_used < 2 ^ 62
    → extend h h.last_alloc n ≡ (h.last_alloc + 16, extended h n)
unfolding extend
extend-extended h n room small less =
    let test : leb h.heap_end (add64 (add64 h.last_alloc n) 16) ≡ false = ground arith in
    let payload : add64 h.last_alloc 16 ≡ h.last_alloc + 16 = omega arith in
    let end : add64 h.last_alloc (add64 n 16) ≡ h.last_alloc + 16 + n = omega arith in
    let used : add64 h.memory_used (add64 n 16) ≡ h.memory_used + 16 + n = omega arith in
    rw (test, payload, end, used)

-- The heap `g` after the allocation `d` of `n` bytes; `k` says how many bytes of a block that is
-- taken again are cleared.
abbrev pub After : (ℕ → ℕ) → Heap → List Block → ℕ → Heap → Allocation → Type 0
After k h bs n g (again loc) =
    (r : Granted h bs (k loc) (loc + 16) g (reserve n bs)) × (n ≤ r.size)
    × (r.size ≡ size (mark h.mem loc n) loc)
After k h bs n g appended =
    (r : Granted h bs n (h.heap_beginning + total bs + 16) g (bs ++ block true n ∷ [])) × (r.size
      ≡ n)
After k h bs n g refused = g ≡ h

module _ {h : Heap} {bs : List Block} (v : IsHeap h bs) (n : ℕ) (pos : 0 < n) (al : n % 16 ≡ 0)
    (fits_word : n < 2 ^ 62) (take : Heap → ℕ → ℕ → ℕ × Heap) (k : ℕ → ℕ)
    (same : (loc : ℕ) → loc + 16 < 2 ^ 64 → take h loc n ≡ (loc + 16, reused (k loc) h loc n))
    (le : (loc : ℕ)
      → first_fit n h.heap_beginning bs ≡ some loc
      → k loc ≤ size (mark h.mem loc n) loc) where
  after_first_fit :
      (loc : ℕ)
      → first_fit n h.heap_beginning bs ≡ some loc
      → search_and_take take h n ≡ some (loc + 16, reused (k loc) h loc n)
  unfolding resume
  after_first_fit loc e =
      let place =
        same loc (omega (arith, first_fit_bounds n h.heap_beginning bs loc e, v.end, v.small)) in
      search_lem take v n ∙ rw (e, place)

  place : h.heap_beginning + total bs + 16 ≡ h.last_alloc + 16
  place = omega (arith, v.end)

  used_small : h.memory_used < 2 ^ 62
  used_small = omega (arith, v.used, used_bytes-le bs, v.end, v.small)

  -- The search ends, returns the pointer of the specification, and leaves what that says.
  pub search-After :
      let d = decide_allocation h.heap_end n h.heap_beginning bs in
      (g : Heap) × (search_and_take take h n ≡ some (pointer h.heap_beginning bs d, g))
      × After k h bs n g d
  unfolding resume
  search-After = elim (Option-cases (first_fit n h.heap_beginning bs)) [
    | inr (loc, e) ↦ rw e (
      reused (k loc) h loc n,
      after_first_fit loc e,
      reused-Granted v n (k loc) loc pos al e (le loc e),
    )
    | inl e ↦ elim (Bool-cases (ltb (h.heap_beginning + total bs + n + 16) h.heap_end)) [
      | inl room ↦
          rw (e, room, place)
            (
              extended h n,
              search_lem take v n
                  ∙ rw (e, extend-extended h n (ground (arith, v.end)) v.limit_small used_small),
              extended-Granted v n pos al (ground (arith, v.end)),
            )
      | inr full ↦
          rw (e, full)
            (
              h,
              search_lem take v n
                  ∙ rw (e, extend_refused h n (ground (arith, v.end)) (omega (arith, v.small))),
              refl,
            )
    ]
  ]
