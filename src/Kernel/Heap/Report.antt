-- ===== src/Kernel/Heap/Report.antt =====
-- The report of `memory_kernel`, and the heap that it is about.
use doomkernel.Prelude.{
  ℕ, zero, suc, ◌+◌, ◌%◌, ◌^◌, ◌<◌, ◌≡◌, ◌≢◌, refl, sym, ap, Bool-cases, inl, inr, some, List, [],
  ◌∷◌, ◌++◌, ltb, leb, ◌==◌, if◌then◌else◌, length-append, codes, ◌>>=◌, arith,
}
use doomkernel.Memory.{Memory, add64}
use doomkernel.Terminal.{Terminal}
use doomkernel.Printf.{word}
use doomkernel.Printf.Number.{hex_text, decimal_text}
use doomkernel.Printf.Hex.{read-hex_text}
use doomkernel.Printf.Decimal.{read-decimal_text}
use doomkernel.Printf.Render.{render}
use doomkernel.Printf.Rounds.{shown, shown-append}
use doomkernel.Alloc.{Heap}
use doomkernel.Alloc.Mmap.{
  MmapEntry, mapped_limit, entry_at, init_loop, first_beginning, place_heap, memory_init,
}
use doomkernel.Panic.{Call, say_all}
use doomkernel.Panic.Report.{
  AllRender, AllRender-append, joined, hex_line, length-hex_line, say_all_lem,
}
use doomkernel.Kernel.Heap.Region.{
  largest, start_of, Placed, first_beginning-word, init_loop-len, place_heap-largest, region_lem,
}
use doomkernel.Kernel.Heap.{
  found, found_lengths, found_calls, first_calls, last_calls, init_calls, memory_kernel,
}

abbrev pub found_lines : List ℕ → List (List ℕ)
found_lines [] = []
found_lines (n ∷ ns) =
    hex_line (codes "[memory] found usable region with length ") n ∷ found_lines ns

abbrev pub first_lines : ℕ → ℕ → List (List ℕ)
first_lines kernel_end first =
    hex_line (codes "[memory] kernel end at ") kernel_end
    ∷ hex_line (codes "[memory] heap beginning padded to ") first
    ∷ []

abbrev pub last_lines : Heap → List (List ℕ)
last_lines h =
    (codes "[memory] heap set to beginning="
      ++ (hex_text h.heap_beginning ++ (codes " and end=" ++ (hex_text h.heap_end ++ codes "\n"))))
    ∷ []

abbrev pub count_lines : ℕ → List (List ℕ)
count_lines count =
    codes "******MEMORY******\n"
    ∷ (codes "[memory] BIOS reported "
        ++ (decimal_text count ++ codes " usable memory map entries\n"))
    ∷ []

abbrev pub done_line : List ℕ
done_line = codes "[memory] heap beginning and end was set\n"

-- all lines before the last, for the lengths of the regions found
abbrev pub report : ℕ → ℕ → List ℕ → Heap → List (List ℕ)
report kernel_end count lengths h =
    count_lines count
    ++ (first_lines kernel_end (first_beginning kernel_end)
        ++ (found_lines lengths ++ last_lines h))

abbrev AllWords : List ℕ → Type 0
AllWords [] = Unit
AllWords (n ∷ ns) = (n < 2 ^ 64) × AllWords ns

AllWords-append : (xs ys : List ℕ) → AllWords xs → AllWords ys → AllWords (xs ++ ys)
AllWords-append [] ys h k = k
AllWords-append (x ∷ xs) ys (here, h) k = (here, AllWords-append xs ys h k)

found-AllWords : (first : ℕ) (entry : MmapEntry) → AllWords (found first entry)
unfolding found
found-AllWords first entry =
    let entry_end = add64 entry.base_addr entry.length in
    let end = if ltb mapped_limit entry_end then mapped_limit else entry_end in
    elim (Bool-cases (entry.type == 1)) [
      | inr other ↦ rw other tt
      | inl usable ↦ elim (Bool-cases (leb mapped_limit entry.base_addr)) [
        | inl above ↦ rw (usable, above) tt
        | inr below ↦ elim (Bool-cases (leb end first)) [
          | inl low ↦ rw (usable, below, low) tt
          | inr high ↦ rw (usable, below, high) (omega arith, tt)
        ]
      ]
    ]

found_lengths-AllWords :
    (n i : ℕ) (m : Memory) (mmap first : ℕ) → AllWords (found_lengths n i m mmap first)
unfolding found_lengths
found_lengths-AllWords zero i m mmap first = tt
found_lengths-AllWords (suc n) i m mmap first =
    AllWords-append (found first (entry_at m mmap i)) (found_lengths n (i + 1) m mmap first)
      (found-AllWords first (entry_at m mmap i)) (found_lengths-AllWords n (i + 1) m mmap first)

found-AllRender : (ns : List ℕ) → AllWords ns → AllRender (found_calls ns) (found_lines ns)
unfolding render
found-AllRender [] h = tt
found-AllRender (n ∷ ns) (here, h) = (
  refl,
  length-hex_line (codes "[memory] found usable region with length ") n (omega arith) here,
  found-AllRender ns h,
)

first-AllRender :
    (kernel_end first : ℕ)
    → kernel_end < 2 ^ 64
    → first < 2 ^ 64
    → AllRender (first_calls kernel_end first) (first_lines kernel_end first)
unfolding render
first-AllRender kernel_end first h k = (
  refl,
  length-hex_line (codes "[memory] kernel end at ") kernel_end (omega arith) h,
  (refl, length-hex_line (codes "[memory] heap beginning padded to ") first (omega arith) k, tt),
)

last-AllRender :
    (h : Heap)
    → h.heap_beginning < 2 ^ 64
    → h.heap_end < 2 ^ 64
    → AllRender (last_calls h) (last_lines h)
unfolding render
last-AllRender h b e =
    let (value, short) = read-hex_text h.heap_beginning b in
    let (value', short') = read-hex_text h.heap_end e in
    let inner = codes " and end=" ++ (hex_text h.heap_end ++ codes "\n") in
    (
      refl,
      omega (
        arith,
        short,
        short',
        length-append (hex_text h.heap_beginning) inner,
        length-append (hex_text h.heap_end) (codes "\n"),
      ),
      tt,
    )

count-AllRender :
    (count : ℕ)
    → count < 2 ^ 16
    → AllRender
        ((codes "******MEMORY******\n", [])
          ∷ (codes "[memory] BIOS reported %d usable memory map entries\n", word count ∷ [])
          ∷ [])
        (count_lines count)
unfolding render
count-AllRender count h =
    let (value, short) =
      read-decimal_text count (omega arith) (λ e. absurd (omega (arith, h, e))) in
    let rest = codes " usable memory map entries\n" in
    (refl, omega arith, (refl, omega (arith, short, length-append (decimal_text count) rest), tt))

reported_lem :
    (t : Terminal) (calls : List Call) (outs : List (List ℕ)) (h : Heap)
    → AllRender calls outs
    → (say_all t calls >>= λ t1.
        say_all t1 ((codes "[memory] heap beginning and end was set\n", []) ∷ []) >>= λ t2.
        let r : Heap × Terminal = (h, t2) in some r)
      ≡ some (h, shown t (joined outs ++ done_line))
unfolding render
reported_lem t calls outs h all =
    rw
      (
        say_all_lem t calls outs all,
        say_all_lem (shown t (joined outs)) ((done_line, []) ∷ []) (done_line ∷ [])
            (refl, omega arith, tt),
      )
      (ap (λ (t' : Terminal). some (h, t')) (sym (shown-append t (joined outs) done_line)))

-- `memory_kernel` shows its lines, among them the length of each usable region of the map that it finds above the
-- kernel and below the mapped limit, and where it sets the heap. The heap is that of
-- `memory_init`: if the largest length shown is not 0 it starts at the aligned start of a region of
-- an entry that is reported with that length, and ends that far on, or at the mapped limit.
pub memory_kernel_lem :
    (m : Memory) (kernel_end mmap count : ℕ) (t : Terminal)
    → kernel_end < 2 ^ 64
    → count < 2 ^ 16
    → let lengths = found_lengths count 0 m mmap (first_beginning kernel_end) in
      let h = memory_init m kernel_end mmap count in
      let n = largest 0 lengths in
      (memory_kernel m kernel_end mmap count t
        ≡ some (h, shown t (joined (report kernel_end count lengths h) ++ done_line)))
      × (n ≢ 0
          → (j : ℕ) × (j < count)
            × (found (first_beginning kernel_end) (entry_at m mmap j) ≡ n ∷ [])
            × Placed (start_of (first_beginning kernel_end) (entry_at m mmap j)) n h)
unfolding memory_kernel init_calls memory_init
memory_kernel_lem m kernel_end mmap count t w c =
    let same : count % 2 ^ 16 ≡ count = omega arith in
    let first = first_beginning kernel_end in
    let best = init_loop count 0 m mmap first (record { base = 0; len = 0 }) in
    let lengths = found_lengths count 0 m mmap first in
    let h = place_heap m first best in
    let (start, end, placed) =
      place_heap-largest m first (largest 0 lengths) best
        (init_loop-len count 0 m mmap first (record { base = 0; len = 0 }))
        (first_beginning-word kernel_end) in
    let inner =
      AllRender-append (first_calls kernel_end first) (found_calls lengths ++ last_calls h)
        (first_lines kernel_end first) (found_lines lengths ++ last_lines h)
        (first-AllRender kernel_end first w (first_beginning-word kernel_end))
        (AllRender-append (found_calls lengths) (last_calls h) (found_lines lengths) (last_lines h)
          (found-AllRender lengths (found_lengths-AllWords count 0 m mmap first))
          (last-AllRender h start (omega (arith, end)))) in
    let all =
      AllRender-append
        ((codes "******MEMORY******\n", [])
          ∷ (codes "[memory] BIOS reported %d usable memory map entries\n", word count ∷ [])
          ∷ [])
        (first_calls kernel_end first ++ (found_calls lengths ++ last_calls h)) (count_lines count)
        (first_lines kernel_end first ++ (found_lines lengths ++ last_lines h))
        (count-AllRender count c) inner in
    rw same (
      reported_lem t
          ((codes "******MEMORY******\n", [])
            ∷ (codes "[memory] BIOS reported %d usable memory map entries\n", word count ∷ [])
            ∷ (first_calls kernel_end first ++ (found_calls lengths ++ last_calls h)))
          (report kernel_end count lengths h) h all,
      (λ ne.
          region_lem m mmap first count (largest 0 lengths) h
            (init_loop-len count 0 m mmap first (record { base = 0; len = 0 })) ne placed),
    )
