-- ===== src/Task/Stacks.antt =====
-- The stacks of the tasks as payloads of the kernel heap.
use doomkernel.Prelude.{
  ℕ, ◌+◌, ◌≤◌, ◌≡◌, ◌≢◌, refl, sym, ◌∙◌, inl, inr, Bool-cases, true, some, List, [], ◌∷◌, arith,
}
use mathlib.Core.Path.{subst}
use doomkernel.Memory.Laws.{SameOn, SameOn-refl, SameOn-trans}
use doomkernel.Alloc.{Heap}
use doomkernel.Alloc.Block.{Block}
use doomkernel.Alloc.InUse.{InUse}
use doomkernel.Alloc.Invariant.{IsHeap}
use doomkernel.Alloc.Free.{Returned, free_contract}
use doomkernel.Task.{Task, is_done}
use doomkernel.Task.Roster.{alive}
use doomkernel.Task.Release.{free_all}

-- the address is not that of the stack of one of the tasks
abbrev pub Apart : ℕ → List Task → Type 0
Apart q [] = Unit
Apart q (t ∷ ts) = (q ≢ t.stack_start) × Apart q ts

-- a payload of at least 4096 bytes is in use at `p`
abbrev pub StackAt : ℕ → ℕ → List Block → Type 0
StackAt p a bs = (n : ℕ) × (4096 ≤ n) × InUse p n a bs

-- each task has a stack of its own in use in the heap
abbrev pub HaveStacks : ℕ → List Block → List Task → Type 0
HaveStacks a bs [] = Unit
HaveStacks a bs (t ∷ ts) = StackAt t.stack_start a bs × Apart t.stack_start ts × HaveStacks a bs ts

-- the address is that of no payload in use
abbrev pub IsFree : ℕ → ℕ → List Block → Type 0
IsFree p a bs = (n : ℕ) → ¬ InUse p n a bs

-- none of the tasks that are done has its stack in use
abbrev pub DeadFree : ℕ → List Block → List Task → Type 0
DeadFree a bs [] = Unit
DeadFree a bs (t ∷ ts) = (is_done t.state ≡ true → IsFree t.stack_start a bs) × DeadFree a bs ts

-- the heap after the stacks of the tasks that are done have been freed
pub record Released (h : Heap) (bs : List Block) (ts : List Task) (g : Heap) : Type 0 where
  pub blocks : List Block
  pub valid : IsHeap g blocks
  pub same_beginning : g.heap_beginning ≡ h.heap_beginning
  pub others :
      (q n : ℕ)
      → InUse q n h.heap_beginning bs
      → Apart q ts
      → InUse q n g.heap_beginning blocks × SameOn q (q + n) h.mem g.mem
  pub older : (q n : ℕ) → InUse q n g.heap_beginning blocks → InUse q n h.heap_beginning bs
  pub dead : DeadFree g.heap_beginning blocks ts
  pub stacks : HaveStacks g.heap_beginning blocks (alive ts)

Apart-alive : (q : ℕ) (ts : List Task) → Apart q ts → Apart q (alive ts)
Apart-alive q [] a = tt
Apart-alive q (t ∷ ts) (ne, a) = elim (Bool-cases (is_done t.state)) [
  | inl d ↦ rw d (Apart-alive q ts a)
  | inr d ↦ rw d (ne, Apart-alive q ts a)
]

module _ {h : Heap} {bs : List Block} {p k : ℕ} {f : Heap} (r : Returned h bs p k f) where
  -- a payload in use other than the one that `free` got
  kept :
      (q n : ℕ)
      → InUse q n h.heap_beginning bs
      → q ≢ p
      → InUse q n f.heap_beginning r.blocks × SameOn q (q + n) h.mem f.mem
  kept q n i ne =
      let (j, same) = r.others q n i ne in
      (subst (λ (a : ℕ). InUse q n a r.blocks) (sym r.same_beginning) j, same)

  -- one in use afterwards
  returned :
      (q n : ℕ) → InUse q n f.heap_beginning r.blocks → InUse q n h.heap_beginning bs × (q ≢ p)
  returned q n i = r.older q n (subst (λ (a : ℕ). InUse q n a r.blocks) r.same_beginning i)

  HaveStacks-free :
      (ts : List Task)
      → Apart p ts
      → HaveStacks h.heap_beginning bs ts
      → HaveStacks f.heap_beginning r.blocks ts
  HaveStacks-free [] a s = tt
  HaveStacks-free (t ∷ ts) (ne, a) ((n, le, i), b, s) =
      ((n, le, (kept t.stack_start n i (λ e. ne (sym e))).0), b, HaveStacks-free ts a s)

-- Every task has a stack of its own in use: freeing the stacks of those that are done ends. All
-- other payloads in use stay in use and hold the bytes that they held, the stacks of the tasks that
-- are alive among them.
pub free_all_lem :
    (ts : List Task) {h : Heap} {bs : List Block}
    → IsHeap h bs
    → HaveStacks h.heap_beginning bs ts
    → (g : Heap) × (free_all h ts ≡ some g) × Released h bs ts g
free_all_lem [] {h} {bs} v s = (
  h,
  refl,
  record {
    blocks = bs;
    valid = v;
    same_beginning = refl;
    others = λ q n i a. (i, SameOn-refl q (q + n) h.mem);
    older = λ q n i. i;
    dead = tt;
    stacks = tt;
  },
)
free_all_lem (t ∷ ts) {h} {bs} v ((n, le, i), a, s) = elim (Bool-cases (is_done t.state)) [
  | inl d ↦
      let (f, e, r) = free_contract t.stack_start n v i in
      let (g, k, z) = free_all_lem ts r.valid (HaveStacks-free r ts a s) in
      (
        g,
        rw (d, e) k,
        record {
          blocks = z.blocks;
          valid = z.valid;
          same_beginning = z.same_beginning ∙ r.same_beginning;
          others = λ q l j (ne, b).
              let (x, same) = kept r q l j ne in
              let (y, same') = z.others q l x b in (y, SameOn-trans {m = h.mem} same same');
          older = λ q l j. (returned r q l (z.older q l j)).0;
          dead = (
            (λ yes_done l j. (returned r t.stack_start l (z.older t.stack_start l j)).1 refl),
            z.dead,
          );
          stacks = rw d z.stacks;
        },
      )
  | inr d ↦
      let (g, k, z) = free_all_lem ts v s in
      (
        g,
        rw d k,
        record {
          blocks = z.blocks;
          valid = z.valid;
          same_beginning = z.same_beginning;
          others = λ q l j (ne, b). z.others q l j b;
          older = z.older;
          dead = ((λ yes_done. absurd (ground (arith, d, yes_done))), z.dead);
          stacks =
              rw d (
                (n, le, (z.others t.stack_start n i a).0),
                Apart-alive t.stack_start ts a,
                z.stacks,
              );
        },
      )
]
