-- ===== src/Task/Create.antt =====
-- `task_create`: the task that is added, and the stack that the heap gives it.
use mathlib.Core.Path.{subst}
use doomkernel.Prelude.{
  ℕ, zero, suc, ◌+◌, ◌≤◌, ◌<◌, ◌≡◌, ◌≢◌, ◌⊎◌, refl, sym, ap, ◌∙◌, inl, inr, none, some, List, [],
  ◌∷◌, ◌++◌, arith, length, length-set, set, take, get_or-set_self, get_or-set_ne, dec_le,
  ℕ_discrete,
}
use doomkernel.Memory.Laws.{SameOn}
use doomkernel.Frame.{Frame}
use doomkernel.Alloc.{Heap, malloc}
use doomkernel.Alloc.Block.{Block}
use doomkernel.Alloc.InUse.{InUse}
use doomkernel.Alloc.Invariant.{IsHeap}
use doomkernel.Alloc.Malloc.{Granted}
use doomkernel.Alloc.Reserve.{UsedSame-InUse}
use doomkernel.Alloc.Contract.{malloc_contract}
use doomkernel.Task.{
  Task, Scheduler, slot, blank_task, new_task, add_task, task_get_next_id, task_create,
}
use doomkernel.Task.Table.{IsValid, live}
use doomkernel.Task.Stacks.{Apart, HaveStacks}

-- the scheduler `s` with the task `t` in the next slot
pub record Added (s : Scheduler) (t : Task) (s' : Scheduler) : Type 0 where
  pub tasks : live s' ≡ live s ++ t ∷ []
  pub valid : IsValid s'

take-set :
    (n : ℕ) (l : List Task) (t : Task)
    → n < length l
    → take (suc n) (set l n t) ≡ take n l ++ t ∷ []
take-set n [] t h = absurd (omega arith)
take-set zero (x ∷ l) t h = refl
take-set (suc n) (x ∷ l) t h = ap (λ (r : List Task). x ∷ r) (take-set n l t (omega arith))

add_task_lem :
    {s : Scheduler} (t : Task) (g : Heap)
    → IsValid s
    → s.task_count < 10
    → t.id ≡ s.task_count
    → Added s t (add_task s s.task_count t g)
unfolding add_task
add_task_lem {s} t g v room own = record {
  tasks =
      ap (λ (k : ℕ). take k (set s.task_list s.task_count t)) {y = suc s.task_count} (omega arith)
      ∙ take-set s.task_count s.task_list t (omega (arith, v.table));
  valid = record {
    table = length-set s.task_list s.task_count t ∙ v.table;
    count_le = omega arith;
    current_in = omega (arith, v.current_in);
    ids = λ i p. elim (ℕ_discrete s.task_count i) [
      | yes e ↦
          ap (λ (k : ℕ). (slot (set s.task_list s.task_count t) k).id) (sym e)
          ∙ ap (λ (x : Task). x.id)
              (get_or-set_self s.task_list s.task_count t blank_task (omega (arith, v.table)))
          ∙ own
          ∙ e
      | no ne ↦
          ap (λ (x : Task). x.id) (get_or-set_ne s.task_list s.task_count i t blank_task ne)
          ∙ v.ids i (omega arith)
    ];
  };
}

Apart-snoc :
    (q : ℕ) (ts : List Task) (t : Task) → Apart q ts → q ≢ t.stack_start → Apart q (ts ++ t ∷ [])
Apart-snoc q [] t a ne = (ne, tt)
Apart-snoc q (x ∷ ts) t (d, a) ne = (d, Apart-snoc q ts t a ne)

module _ {h : Heap} {bs : List Block} {k p : ℕ} {g : Heap} {cs : List Block}
    (r : Granted h bs k p g cs) where
  granted_apart : (q n : ℕ) → InUse q n h.heap_beginning bs → q ≢ p
  granted_apart q n i e = absurd (omega (arith, r.apart q n i, e))

  HaveStacks-granted :
      (ts : List Task) (t : Task)
      → 4096 ≤ r.size
      → t.stack_start ≡ p
      → HaveStacks h.heap_beginning bs ts
      → HaveStacks g.heap_beginning cs (ts ++ t ∷ [])
  HaveStacks-granted [] t le e s = ((r.size, le, here), tt, tt)
    where
      here : InUse t.stack_start r.size g.heap_beginning cs
      here = rw (e, r.same_beginning) r.new
  HaveStacks-granted (x ∷ ts) t le e ((n, more, i), a, s) = (
    (
      n,
      more,
      subst (λ (b : ℕ). InUse x.stack_start n b cs) (sym r.same_beginning)
          (r.still x.stack_start n i),
    ),
    Apart-snoc x.stack_start ts t a (λ f. granted_apart x.stack_start n i (f ∙ e)),
    HaveStacks-granted ts t le e s,
  )

id-full : (s : Scheduler) → 10 ≤ s.task_count → task_get_next_id s ≡ none
unfolding task_get_next_id
id-full s h = ground arith

id-room : (s : Scheduler) → s.task_count < 10 → task_get_next_id s ≡ some s.task_count
unfolding task_get_next_id
id-room s h = ground arith

pub task_create-full :
    (s : Scheduler) (template : Frame) (entry : ℕ)
    → 10 ≤ s.task_count
    → task_create s template entry ≡ some s
unfolding task_create
task_create-full s template entry h = simp (task_create, id-full s h)

pub task_create-room :
    (s : Scheduler) (template : Frame) (entry : ℕ) {p : ℕ} {g : Heap}
    → s.task_count < 10
    → malloc s.heap 4096 ≡ some (p, g)
    → task_create s template entry
      ≡ some (add_task s s.task_count (new_task template entry s.task_count p) g)
unfolding task_create
task_create-room s template entry h m = simp (task_create, id-room s h, m)

-- the new task `t` of `s'` has a stack of its own, all of it zero, and starts at its top; the stacks
-- of the others and all payloads that were in use are as they were
pub record Created (s : Scheduler) (bs : List Block) (t : Task) (s' : Scheduler) : Type 0 where
  pub added : Added s t s'
  pub blocks : List Block
  pub heap_valid : IsHeap s'.heap blocks
  pub stacks : HaveStacks s'.heap.heap_beginning blocks (live s')
  pub top : t.frame.rsp ≡ t.stack_start + 4096
  pub zeros : (x : ℕ) → t.stack_start ≤ x → x < t.stack_start + 4096 → s'.heap.mem x ≡ 0
  pub kept :
      (q n : ℕ)
      → InUse q n s.heap.heap_beginning bs
      → InUse q n s'.heap.heap_beginning blocks × SameOn q (q + n) s.heap.mem s'.heap.mem

add_task-heap : (s : Scheduler) (id : ℕ) (t : Task) (g : Heap) → (add_task s id t g).heap ≡ g
unfolding add_task
add_task-heap s id t g = refl

new_task-id : (template : Frame) (entry id p : ℕ) → (new_task template entry id p).id ≡ id
unfolding new_task
new_task-id template entry id p = refl

pub Granted-Created :
    {s : Scheduler} {bs : List Block} (template : Frame) (entry : ℕ) {c p : ℕ} {g : Heap}
    {cs : List Block}
    → IsValid s
    → HaveStacks s.heap.heap_beginning bs (live s)
    → s.task_count < 10
    → (r : Granted s.heap bs c p g cs) → 4096 ≤ r.size
    → c ≡ r.size
    → let t = new_task template entry s.task_count p in Created s bs t (add_task s s.task_count t g)
unfolding add_task new_task
Granted-Created {s} {bs} template entry {p = p} {g = g} {cs = cs} v have room r le e =
    let t = new_task template entry s.task_count p in
    let a : Added s t (add_task s s.task_count t g) = add_task_lem t g v room refl in
    record {
      added = a;
      blocks = cs;
      heap_valid = r.valid;
      stacks =
          subst (HaveStacks g.heap_beginning cs) (sym a.tasks)
            (HaveStacks-granted r (live s) t le refl have);
      top = omega (arith, r.upto, r.valid.small);
      zeros = λ x f l. r.cleared x f (omega arith);
      kept = λ q n i. (
        subst (λ (b : ℕ). InUse q n b cs) (sym r.same_beginning) (r.still q n i),
        UsedSame-InUse s.heap.mem g.mem q n s.heap.heap_beginning bs i r.kept,
      );
    }

-- `task_create` on a valid table whose tasks have stacks of their own ends. A full table stays as it
-- is. Else the new task is added behind the others, with the number of tasks as its id, `entry` as
-- its instruction pointer and the segments and flags of `template`. Its stack is a payload of its own of
-- the heap; but if the heap refuses it, the task is added all the same, on the null pointer.
pub task_create_lem :
    {s : Scheduler} {bs : List Block} (template : Frame) (entry : ℕ)
    → IsValid s
    → IsHeap s.heap bs
    → HaveStacks s.heap.heap_beginning bs (live s)
    → (s' : Scheduler) × (task_create s template entry ≡ some s')
      × (((s.task_count ≡ 10) × (s' ≡ s))
          ⊎ ((p : ℕ) × let t = new_task template entry s.task_count p in
                Created s bs t s' ⊎ ((p ≡ 0) × (s'.heap ≡ s.heap) × Added s t s')))
task_create_lem {s} {bs} template entry v w have = elim (dec_le 10 s.task_count) [
  | yes full ↦ (s, task_create-full s template entry full, inl (omega (arith, v.count_le), refl))
  | no free ↦
      let (p, g, m, answer) = malloc_contract w 4096 in
      let t = new_task template entry s.task_count p in
      (
        add_task s s.task_count t g,
        task_create-room s template entry (omega arith) m,
        inr (
          p,
          elim answer [
            | inl (e, f) ↦ inr (
              e,
              add_task-heap s s.task_count t g ∙ f,
              add_task_lem t g v (omega arith) (new_task-id template entry s.task_count p),
            )
            | inr (cs, c, r, le, e) ↦
                inl (Granted-Created template entry v have (omega arith) r le e)
          ],
        ),
      )
]
