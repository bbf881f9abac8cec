-- ===== src/Alloc/Init.antt =====
-- `memory_init` of libc/stdlib/malloc.c: where it places the heap.
use Prim.Native.Nat.{min, max}
use mathlib.Core.Path.{subst}
use doomkernel.Prelude.{
  ℕ, zero, suc, ◌+◌, ◌-◌, ◌%◌, ◌^◌, ◌≤◌, ◌<◌, ◌≡◌, ◌≢◌, ◌⊎◌, refl, ap, ◌∙◌, inl, inr, false,
  Bool-cases, [], arith, ltb, ◌==◌, if◌then◌else◌, ℕ_discrete,
}
use doomkernel.Memory.{Memory, add64}
use doomkernel.Alloc.{Heap, align_up}
use doomkernel.Alloc.Invariant.{IsHeap, align_up_lem}
use doomkernel.Alloc.Mmap.{
  mapped_limit, heap_min, MmapEntry, entry_at, Best, consider, clip, init_step, init_loop,
  first_beginning, place_heap, memory_init,
}

-- how much of an entry serves as a heap: the usable part above `first` and below the limit
abbrev pub gain : ℕ → MmapEntry → ℕ
gain first e =
    if e.type == 1 then min (e.base_addr + e.length) mapped_limit - max e.base_addr first else 0

init_step_lem :
    (first : ℕ) (best : Best) (e : MmapEntry)
    → e.base_addr + e.length < 2 ^ 64
    → init_step first best e ≡ (
        if ltb best.len (gain first e)
        then record { base = max e.base_addr first; len = gain first e }
        else best)
unfolding init_step clip consider
init_step_lem first best e word = ground arith

-- What the loop knows after the entries below `k`: the best region is the usable part of one of
-- them, or there is none yet, and no entry offers more.
pub record IsBest (m : Memory) (mmap first k : ℕ) (best : Best) : Type 0 where
  pub from :
      (best.len ≡ 0)
      ⊎ ((i : ℕ) × (i < k)
          × ((entry_at m mmap i).type ≡ 1)
          × (best.base ≡ max (entry_at m mmap i).base_addr first)
          × (best.len ≡ gain first (entry_at m mmap i)))
  pub largest : (i : ℕ) → i < k → gain first (entry_at m mmap i) ≤ best.len

module _ (m : Memory) (mmap first : ℕ) where
  abbrev now : ℕ → Best
  now k = record {
    base = max (entry_at m mmap k).base_addr first;
    len = gain first (entry_at m mmap k);
  }

  IsBest-better :
      (k : ℕ) (best : Best)
      → best.len < gain first (entry_at m mmap k)
      → IsBest m mmap first k best
      → IsBest m mmap first (k + 1) (now k)
  IsBest-better k best more b = record {
    from = inr (k, omega arith, ground arith, refl, refl);
    largest = λ i lt. elim (ℕ_discrete i k) [
      | yes e ↦ rw e (omega arith)
      | no ne ↦ omega (arith, b.largest i (omega arith))
    ];
  }

  IsBest-same :
      (k : ℕ) (best : Best)
      → gain first (entry_at m mmap k) ≤ best.len
      → IsBest m mmap first k best
      → IsBest m mmap first (k + 1) best
  IsBest-same k best less b = record {
    from = elim b.from [
      | inl none_yet ↦ inl none_yet
      | inr (i, lt, t, p, q) ↦ inr (i, omega arith, t, p, q)
    ];
    largest =
        λ i lt. elim (ℕ_discrete i k) [ yes e ↦ rw e less | no ne ↦ b.largest i (omega arith) ];
  }

  init_step-IsBest :
      (k : ℕ) (best : Best)
      → (entry_at m mmap k).base_addr + (entry_at m mmap k).length < 2 ^ 64
      → IsBest m mmap first k best
      → IsBest m mmap first (k + 1) (init_step first best (entry_at m mmap k))
  init_step-IsBest k best word b =
      elim (Bool-cases (ltb best.len (gain first (entry_at m mmap k)))) [
        | inl more ↦
            rw (init_step_lem first best (entry_at m mmap k) word, more)
              (IsBest-better k best (ground arith) b)
        | inr less ↦
            rw (init_step_lem first best (entry_at m mmap k) word, less)
              (IsBest-same k best (ground arith) b)
      ]

  init_loop-IsBest :
      (n k : ℕ) (best : Best)
      → ((i : ℕ) → i < k + n → (entry_at m mmap i).base_addr + (entry_at m mmap i).length < 2 ^ 64)
      → IsBest m mmap first k best
      → IsBest m mmap first (k + n) (init_loop n k m mmap first best)
  unfolding init_loop
  init_loop-IsBest zero k best words b =
      subst (λ (t : ℕ). IsBest m mmap first t best) (omega arith) b
  init_loop-IsBest (suc n) k best words b =
      subst (λ (t : ℕ). IsBest m mmap first t (init_loop (suc n) k m mmap first best)) (omega arith)
        (init_loop-IsBest n (k + 1) (init_step first best (entry_at m mmap k))
          (λ i lt. words i (omega arith)) (init_step-IsBest k best (words k (omega arith)) b))

-- Where the heap lies: above the kernel, below the limit, and in the usable part of an entry of the
-- map, no other entry offering more, from its aligned start up to its end; or, if none offers
-- anything, in the 1 MiB above the kernel.
pub record IsPlaced (m : Memory) (kernel_end mmap count : ℕ) (h : Heap) : Type 0 where
  pub above_kernel : (kernel_end + 0x1000 ≤ h.heap_beginning) × (heap_min ≤ h.heap_beginning)
  pub below_limit : h.heap_end ≤ mapped_limit
  pub region :
      ((h.heap_beginning ≡ first_beginning kernel_end)
        × (h.heap_end ≡ h.heap_beginning + 0x100000)
        × ((i : ℕ) → i < count → gain (first_beginning kernel_end) (entry_at m mmap i) ≡ 0))
      ⊎ ((i : ℕ) × (i < count)
          × ((entry_at m mmap i).type ≡ 1)
          × ((entry_at m mmap i).base_addr ≤ h.heap_beginning)
          × (h.heap_beginning
              ≡ align_up (max (entry_at m mmap i).base_addr (first_beginning kernel_end)))
          × (h.heap_end
              ≡ min ((entry_at m mmap i).base_addr + (entry_at m mmap i).length) mapped_limit)
          × (gain (first_beginning kernel_end) (entry_at m mmap i) ≢ 0)
          × ((j : ℕ)
              → j < count
              → gain (first_beginning kernel_end) (entry_at m mmap j)
                ≤ gain (first_beginning kernel_end) (entry_at m mmap i)))

first_beginning_lem :
    (kernel_end : ℕ)
    → kernel_end + 0x102000 < mapped_limit
    → (kernel_end + 0x1000 ≤ first_beginning kernel_end)
      × (heap_min ≤ first_beginning kernel_end)
      × (first_beginning kernel_end % 16 ≡ 0)
      × (first_beginning kernel_end + 0x100000 < mapped_limit)
unfolding first_beginning align_up
first_beginning_lem k h = ground arith

module _ (m : Memory) (kernel_end mmap count : ℕ)
    (fits : kernel_end + 0x102000 < mapped_limit) where
  abbrev start : ℕ
  start = first_beginning kernel_end

  IsPlaced-none :
      (best : Best)
      → IsBest m mmap start count best
      → best.len ≡ 0
      → IsHeap (place_heap m start best) []
        × IsPlaced m kernel_end mmap count (place_heap m start best)
  unfolding place_heap
  IsPlaced-none best b e =
      let f = first_beginning_lem kernel_end fits in
      let test : ltb mapped_limit (start + 0x100000) ≡ false = ground (arith, f) in
      let sum : add64 start 0x100000 ≡ start + 0x100000 = omega (arith, f) in
      rw (e, sum, test)
        (
          record {
            chain = tt;
            end = omega arith;
            start_pos = omega (arith, f);
            start_aligned = f.2;
            small = omega (arith, f);
            limit_small = omega (arith, f);
            inside = inl refl;
            used = refl;
          },
          record {
            above_kernel = (f.0, f.1);
            below_limit = omega (arith, f);
            region = inl (refl, refl, λ i lt. omega (arith, b.largest i lt, e));
          },
        )

  IsPlaced-some :
      (best : Best) (i : ℕ)
      → IsBest m mmap start count best
      → best.len ≢ 0
      → i < count
      → (entry_at m mmap i).type ≡ 1
      → best.base ≡ max (entry_at m mmap i).base_addr start
      → best.len ≡ gain start (entry_at m mmap i)
      → IsHeap (place_heap m start best) []
        × IsPlaced m kernel_end mmap count (place_heap m start best)
  unfolding place_heap
  IsPlaced-some best i b ne lt t p q =
      let f = first_beginning_lem kernel_end fits in
      let test : (best.len == 0) ≡ false = ground arith in
      let room : (best.base + best.len ≤ mapped_limit)
          × (best.base + best.len ≤ (entry_at m mmap i).base_addr + (entry_at m mmap i).length) =
        ground (arith, t, p, q, ne) in
      let sum : add64 best.base best.len ≡ best.base + best.len = omega (arith, room) in
      let below : ltb mapped_limit (best.base + best.len) ≡ false = ground (arith, room) in
      let al = align_up_lem best.base (omega (arith, room)) in
      rw (test, sum, below)
        (
          record {
            chain = tt;
            end = omega arith;
            start_pos = omega (arith, f, al, p);
            start_aligned = al.0;
            small = omega (arith, al, room);
            limit_small = omega (arith, room);
            inside = inl refl;
            used = refl;
          },
          record {
            above_kernel = omega (arith, f, al, p);
            below_limit = room.0;
            region = inr (
              i,
              lt,
              t,
              omega (arith, al, p),
              ap align_up p,
              ground (arith, t, p, q, ne),
              (λ nothing. ne (q ∙ nothing)),
              λ j ltj. omega (arith, b.largest j ltj, q),
            );
          },
        )

-- `memory_init`, for a kernel that ends at least 0x102000 bytes below the mapped limit and a map none of whose
-- entries wraps past 64 bits: it leaves a heap with no block, which starts above the
-- kernel with its buffer and not below HEAP_MIN, and ends at the mapped limit or below. It
-- fills the usable part of an entry of the map that offers something, and as much as any, from its aligned start
-- up to its end; or, if none offers anything, it is the 1 MiB above the kernel.
pub memory_init_lem :
    (m : Memory) (kernel_end mmap count : ℕ)
    → kernel_end + 0x102000 < mapped_limit
    → count < 2 ^ 16
    → ((i : ℕ) → i < count → (entry_at m mmap i).base_addr + (entry_at m mmap i).length < 2 ^ 64)
    → IsHeap (memory_init m kernel_end mmap count) []
      × IsPlaced m kernel_end mmap count (memory_init m kernel_end mmap count)
unfolding memory_init
memory_init_lem m kernel_end mmap count fits word entries =
    let first = first_beginning kernel_end in
    let same : count % 2 ^ 16 ≡ count = omega arith in
    let best = init_loop count 0 m mmap first (record { base = 0; len = 0 }) in
    let b : IsBest m mmap first count best =
      subst (λ (t : ℕ). IsBest m mmap first t best) (omega arith)
        (init_loop-IsBest m mmap first count 0 (record { base = 0; len = 0 })
          (λ i lt. entries i (omega arith))
          (record { from = inl refl; largest = λ i lt. absurd (omega arith) })) in
    rw same (elim (ℕ_discrete best.len 0) [
      | yes e ↦ IsPlaced-none m kernel_end mmap count fits best b e
      | no ne ↦ elim b.from [
        | inl e ↦ absurd (ne e)
        | inr (i, lt, t, p, q) ↦ IsPlaced-some m kernel_end mmap count fits best i b ne lt t p q
      ]
    ])
