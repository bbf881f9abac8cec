-- ===== src/Alloc.antt =====
-- libc/stdlib: the kernel heap, a chain of blocks in the flat memory. A block is the 16-byte header
-- `alloc_t` (status at offset 0, size at offset 8) and its payload. The globals `heap_beginning`,
-- `heap_end`, `last_alloc` and `memory_used` and the memory are the state. The walks take fuel, one
-- round for each address below `last_alloc`; `none` means that the walk did not end in it.
pub mod Block
pub mod Header
pub mod Walk
pub mod Take
pub mod InUse
pub mod Reserve
pub mod Invariant
pub mod Malloc
mod Outcome
pub mod Contract
pub mod Calloc
pub mod Joined
pub mod Join
pub mod Finish
pub mod Free
pub mod Realloc
pub mod Shrink
pub mod Mmap
pub mod Init
mod Tests
use doomkernel.Prelude.{
  ℕ, zero, suc, ◌+◌, ◌-◌, ◌*◌, ◌/◌, ◌%◌, ◌^◌, Bool, ◌&&◌, ◌||◌, not, Option, none, some, ltb, leb,
  ◌==◌, if◌then◌else◌,
}
use doomkernel.Memory.{Memory, add64, sub64, load8, store8, load_le, store_le}
use doomkernel.Str.{memset, memcpy}

abbrev pub sizeof_alloc : ℕ
sizeof_alloc = 16

abbrev pub alloc_align : ℕ
alloc_align = 16

abbrev pub int_max : ℕ
int_max = 2 ^ 31 - 1

abbrev pub size_max : ℕ
size_max = 2 ^ 64 - 1

-- ALIGN_UP on a `uint64_t`: the mask clears the lowest four bits of the wrapped sum.
unfoldable pub align_up : ℕ → ℕ
align_up x = add64 x (alloc_align - 1) / alloc_align * alloc_align

pub record Heap : Type 0 where
  pub mem : Memory
  pub heap_beginning : ℕ
  pub heap_end : ℕ
  pub last_alloc : ℕ
  pub memory_used : ℕ

-- the fields of the `alloc_t` at an address
unfoldable pub status : Memory → ℕ → ℕ
status m a = load8 m a

unfoldable pub size : Memory → ℕ → ℕ
size m a = load_le 8 m (a + 8)

unfoldable pub set_status : Memory → ℕ → ℕ → Memory
set_status m a v = store8 m a v

unfoldable pub set_size : Memory → ℕ → ℕ → Memory
set_size m a v = store_le 8 m (a + 8) v

-- the block behind the one at `a`
unfoldable pub next_block : Memory → ℕ → ℕ
next_block m a = add64 (add64 a (size m a)) sizeof_alloc

-- Where the walk of `malloc` and `calloc` stops: at a free block that is large enough, or at
-- `new_alloc`, with the value of `memory_loc` there.
pub data Stop : Type 0 where
  found : ℕ → Stop
  new_alloc : ℕ → Stop

unfoldable pub walk : ℕ → Memory → ℕ → ℕ → ℕ → Option Stop
walk zero m last_alloc n memory_loc = none
walk (suc fuel) m last_alloc n memory_loc =
    let rest = walk fuel m last_alloc n (next_block m memory_loc) in
    if ltb memory_loc last_alloc
    then (if size m memory_loc == 0
        then some (new_alloc memory_loc)
        else if status m memory_loc == 1
        then rest
        else if leb n (size m memory_loc)
        then some (found memory_loc)
        else rest)
    else some (new_alloc memory_loc)

-- Cuts the block at `a` down to `n` bytes if what is left over holds a header and a byte.
unfoldable pub split : Memory → ℕ → ℕ → Memory
split m a n =
    if ltb sizeof_alloc (sub64 (size m a) n)
    then (let remainder = add64 (add64 a sizeof_alloc) n in
        let m1 = set_status m remainder 0 in
        let m2 = set_size m1 remainder (sub64 (sub64 (size m1 a) n) sizeof_alloc) in
        set_size m2 a n)
    else m

-- the memory when a free block has been taken for `n` bytes, its payload not yet cleared
unfoldable pub mark : Memory → ℕ → ℕ → Memory
unfolding split
mark m a n = set_status (split m a n) a 1

unfoldable pub fresh_header : Memory → ℕ → ℕ → Memory
fresh_header m a n = set_size (set_status m a 1) a n

-- The tail of `calloc` and `malloc` from the label on. Out of memory gives the null pointer.
unfoldable pub extend : Heap → ℕ → ℕ → ℕ × Heap
extend h a n = if leb h.heap_end (add64 (add64 h.last_alloc n) sizeof_alloc) then (0, h) else (
  add64 a sizeof_alloc,
  record h {
    mem = memset (fresh_header h.mem a n) (add64 a sizeof_alloc) 0 n;
    last_alloc = add64 h.last_alloc (add64 n sizeof_alloc);
    memory_used = add64 h.memory_used (add64 n sizeof_alloc);
  },
)

-- `malloc` clears the whole payload of a block that it takes again, ...
unfoldable pub reuse : Heap → ℕ → ℕ → ℕ × Heap
reuse h a n =
    let m = mark h.mem a n in
    (
      add64 a sizeof_alloc,
      record h {
        mem = memset m (add64 a sizeof_alloc) 0 (size m a);
        memory_used = add64 h.memory_used (add64 (size m a) sizeof_alloc);
      },
    )

-- ... and `calloc` only the bytes asked for.
unfoldable pub reuse_calloc : Heap → ℕ → ℕ → ℕ × Heap
reuse_calloc h a n =
    let m = mark h.mem a n in
    (
      add64 a sizeof_alloc,
      record h {
        mem = memset m (add64 a sizeof_alloc) 0 n;
        memory_used = add64 h.memory_used (add64 (size m a) sizeof_alloc);
      },
    )

unfoldable pub resume : (Heap → ℕ → ℕ → ℕ × Heap) → Heap → ℕ → Stop → ℕ × Heap
resume take h n (found a) = take h a n
resume take h n (new_alloc a) = extend h a n

unfoldable pub search_and_take : (Heap → ℕ → ℕ → ℕ × Heap) → Heap → ℕ → Option (ℕ × Heap)
search_and_take take h n = elim (walk (suc h.last_alloc) h.mem h.last_alloc n h.heap_beginning) [
  | none ↦ none
  | some stop ↦ some (resume take h n stop)
]

unfoldable pub malloc : Heap → ℕ → Option (ℕ × Heap)
malloc h n =
    if n == 0
    then some (0, h)
    else if h.heap_beginning == 0
    then some (0, h)
    else if ltb (int_max - (alloc_align - 1)) n
    then some (0, h)
    else search_and_take reuse h (align_up n)

unfoldable pub calloc : Heap → ℕ → ℕ → Option (ℕ × Heap)
calloc h amount n =
    if n == 0
    then some (0, h)
    else if amount == 0
    then some (0, h)
    else if not (amount == 0) && ltb (size_max / amount) n
    then some (0, h)
    else if ltb (int_max - (alloc_align - 1)) (amount * n % 2 ^ 64)
    then some (0, h)
    else if h.heap_beginning == 0
    then some (0, h)
    else search_and_take reuse_calloc h (align_up (amount * n % 2 ^ 64))

-- `find_before`: the block before the one at `alloc`, 0 if that is the first.
unfoldable pub find_loop : ℕ → Memory → ℕ → ℕ → Option ℕ
find_loop zero m cur alloc = none
find_loop (suc fuel) m cur alloc =
    let next = add64 (add64 cur sizeof_alloc) (size m cur) in
    let rest = find_loop fuel m next alloc in if next == alloc then some cur else rest

unfoldable pub find_before : ℕ → Memory → ℕ → ℕ → Option ℕ
unfolding find_loop
find_before fuel m heap_beginning alloc =
    if heap_beginning == alloc then some 0 else find_loop fuel m heap_beginning alloc

-- `free` joins the block at `a` with the one behind it, ...
unfoldable pub join_next : Memory → ℕ → ℕ → ℕ → Memory
join_next m last_alloc a next =
    if ltb next last_alloc && status m next == 0
    then set_size m a (add64 (size m a) (add64 sizeof_alloc (size m next)))
    else m

-- ... and then with the one before it, which is where the joined block starts.
unfoldable pub joins_before : Memory → ℕ → Bool
joins_before m before = not (before == 0) && status m before == 0

unfoldable pub join_before : Memory → ℕ → ℕ → Memory
join_before m a before =
    if joins_before m before
    then set_size m before (add64 (size m before) (add64 sizeof_alloc (size m a)))
    else m

unfoldable pub clear : Memory → ℕ → Memory
clear m a = memset m (add64 a sizeof_alloc) 0 (size m a)

unfoldable pub release : Heap → ℕ → ℕ → ℕ → Heap
release h ptr alloc before =
    let m1 = set_status h.mem alloc 0 in
    let m2 = join_next m1 h.last_alloc alloc (add64 ptr (size m1 alloc)) in
    let m3 = join_before m2 alloc before in
    record h {
      mem = clear m3 (if joins_before m2 before then before else alloc);
      memory_used = sub64 h.memory_used (add64 sizeof_alloc (size m1 alloc));
    }

unfoldable pub free : Heap → ℕ → Option Heap
free h ptr =
    let alloc = sub64 ptr sizeof_alloc in
    if ptr == 0
    then some h
    else if status h.mem alloc == 0
    then some h
    else elim (find_before (suc h.last_alloc) (set_status h.mem alloc 0) h.heap_beginning alloc) [
      | none ↦ none
      | some before ↦ some (release h ptr alloc before)
    ]

-- `realloc`. A shrunk block keeps its place and gives the rest back if that holds a header and a byte.
unfoldable pub shrink : Heap → ℕ → ℕ → Heap
shrink h alloc_cur n =
    if ltb sizeof_alloc (sub64 (size h.mem alloc_cur) n)
    then (let m = split h.mem alloc_cur n in
        let remainder = add64 (add64 alloc_cur sizeof_alloc) n in
        record h {
          mem = m;
          memory_used = sub64 h.memory_used (add64 (size m remainder) sizeof_alloc);
        })
    else h

-- the steps after `malloc(size)`: copy the old payload, free the old block
unfoldable pub move : ℕ → ℕ × Heap → Option (ℕ × Heap)
move ptr (new, h) =
    let copied = memcpy h.mem new ptr (size h.mem (sub64 ptr sizeof_alloc)) in
    if new == 0
    then some (0, h)
    else elim (free (record h { mem = copied }) ptr) [ none ↦ none | some h' ↦ some (new, h') ]

unfoldable pub realloc : Heap → ℕ → ℕ → Option (ℕ × Heap)
realloc h ptr n =
    let alloc_cur = sub64 ptr sizeof_alloc in
    if ptr == 0
    then some (0, h)
    else if n == 0
    then elim (free h ptr) [ none ↦ none | some h' ↦ some (0, h') ]
    else if ltb (int_max - (alloc_align - 1)) n
    then some (0, h)
    else if leb (align_up n) (size h.mem alloc_cur)
    then some (ptr, shrink h alloc_cur (align_up n))
    else elim (malloc h (align_up n)) [ none ↦ none | some r ↦ move ptr r ]
