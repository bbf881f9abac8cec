-- ===== src/Task/Steps.antt =====
-- The scheduler as a transition system: the timer interrupts and the calls of the tasks, in any order.
use mathlib.Core.Path.{subst}
use doomkernel.Prelude.{
  ℕ, ◌<◌, ◌≡◌, ◌≤◌, ◌⊎◌, ◌≢◌, refl, sym, ap, ◌∙◌, inl, inr, true, Bool-cases, some, List, arith,
  ◌==◌, length-set, set, get_or-set_self, get_or-set_ne, ℕ_discrete, dec_le,
}
use doomkernel.Frame.{Frame}
use doomkernel.Alloc.{Heap, malloc}
use doomkernel.Alloc.Block.{Block}
use doomkernel.Alloc.Invariant.{IsHeap}
use doomkernel.Alloc.Contract.{malloc_contract}
use doomkernel.Task.{
  Task, done, Scheduler, slot, save_frame, switch, schedule, task_exit, new_task, add_task,
  task_create, task_reap,
}
use doomkernel.Task.Next.{get_next_task-lt}
use doomkernel.Task.Table.{IsValid, live}
use doomkernel.Task.Roster.{alive}
use doomkernel.Task.Schedule.{schedule-started}
use doomkernel.Task.Stacks.{HaveStacks}
use doomkernel.Task.Create.{Granted-Created, task_create-room, task_create-full}
use doomkernel.Task.Reap.{task_reap_lem}
use doomkernel.Task.Starts.{starts, HaveStacks-same, starts-renumber, starts-set}

-- one operation on the scheduler; a task is created in a full table, or when the heap does not refuse the
-- stack for it
pub data Step : Scheduler → Scheduler → Type 0 where
  tick : (s : Scheduler) (frame : Frame) → Step s (schedule s frame).0
  exit : (s : Scheduler) → Step s (task_exit s)
  create :
      (s s' : Scheduler) (template : Frame) (entry stack : ℕ) (heap : Heap)
      → malloc s.heap 4096 ≡ some (stack, heap)
      → (10 ≤ s.task_count) ⊎ (stack ≢ 0)
      → task_create s template entry ≡ some s'
      → Step s s'
  reap_pass : (s s' : Scheduler) → task_reap s ≡ some s' → Step s s'

pub data Steps : Scheduler → Scheduler → Type 0 where
  here : (s : Scheduler) → Steps s s
  more : (s s' s'' : Scheduler) → Step s s' → Steps s' s'' → Steps s s''

-- a valid table and a valid heap, in which each task of the table has a stack of its own
pub record IsSound (s : Scheduler) : Type 0 where
  pub valid : IsValid s
  pub blocks : List Block
  pub heap_valid : IsHeap s.heap blocks
  pub stacks : HaveStacks s.heap.heap_beginning blocks (live s)

-- A change of the slot of the running task but not of its stack or id.
slot-IsSound :
    (s : Scheduler) (t : Task)
    → t.stack_start ≡ (slot s.task_list s.current_task).stack_start
    → t.id ≡ (slot s.task_list s.current_task).id
    → IsSound s
    → IsSound (record s { task_list = set s.task_list s.current_task t })
slot-IsSound s t at name v = record {
  valid = record {
    table = length-set s.task_list s.current_task t ∙ v.valid.table;
    count_le = v.valid.count_le;
    current_in = v.valid.current_in;
    ids = λ i p. ids i ∙ v.valid.ids i p;
  };
  blocks = v.blocks;
  heap_valid = v.heap_valid;
  stacks =
      HaveStacks-same s.heap.heap_beginning v.blocks (live s)
        (live (record s { task_list = set s.task_list s.current_task t }))
        (starts-set s.task_count s.task_list s.current_task t at) v.stacks;
}
  where
    ids : (i : ℕ) → (slot (set s.task_list s.current_task t) i).id ≡ (slot s.task_list i).id
    ids i = elim (ℕ_discrete s.current_task i) [
      | no ne ↦ ap (λ (x : Task). x.id) (get_or-set_ne s.task_list s.current_task i t _ ne)
      | yes e ↦
          subst
            (λ (k : ℕ). (slot (set s.task_list s.current_task t) k).id ≡ (slot s.task_list k).id) e
            (ap (λ (x : Task). x.id)
                (get_or-set_self s.task_list s.current_task t _
                  (omega (arith, v.valid.current_in, v.valid.count_le, v.valid.table)))
              ∙ name)
    ]

task_exit-IsSound : (s : Scheduler) → IsSound s → IsSound (task_exit s)
unfolding task_exit
task_exit-IsSound s v =
    slot-IsSound s (record (slot s.task_list s.current_task) { state = done }) refl refl v

save_frame-IsSound : (s : Scheduler) (f : Frame) → IsSound s → IsSound (save_frame s f)
unfolding save_frame
save_frame-IsSound s f v =
    slot-IsSound s (record (slot s.task_list s.current_task) { frame = f }) refl refl v

switch-IsSound : (s : Scheduler) → 0 < s.task_count → IsSound s → IsSound (switch s)
unfolding switch
switch-IsSound s some_task v = record {
  valid = record {
    table = v.valid.table;
    count_le = v.valid.count_le;
    current_in = omega (arith, get_next_task-lt s (omega (arith, v.valid.current_in, some_task)));
    ids = v.valid.ids;
  };
  blocks = v.blocks;
  heap_valid = v.heap_valid;
  stacks = v.stacks;
}

started-IsSound : (s : Scheduler) → IsSound s → IsSound (record s { scheduler_started = true })
started-IsSound s v = record {
  valid = record {
    table = v.valid.table;
    count_le = v.valid.count_le;
    current_in = v.valid.current_in;
    ids = v.valid.ids;
  };
  blocks = v.blocks;
  heap_valid = v.heap_valid;
  stacks = v.stacks;
}

save_frame-count : (s : Scheduler) (f : Frame) → (save_frame s f).task_count ≡ s.task_count
unfolding save_frame
save_frame-count s f = refl

schedule-IsSound : (s : Scheduler) (f : Frame) → IsSound s → IsSound (schedule s f).0
unfolding schedule
schedule-IsSound s f v = elim (Bool-cases (s.task_count == 0)) [
  | inl none_yet ↦ rw none_yet v
  | inr some_yet ↦ elim (Bool-cases s.scheduler_started) [
    | inr e ↦ rw (some_yet, e) (started-IsSound s v)
    | inl e ↦
        let some_task : 0 < s.task_count = ground (arith, some_yet) in
        let after_switch =
          switch-IsSound (save_frame s f) (omega (arith, save_frame-count s f, some_task))
            (save_frame-IsSound s f v) in
        subst IsSound (sym (ap (λ (x : Scheduler × Frame). x.0) (schedule-started s f e some_task)))
          after_switch
  ]
]

task_reap-IsSound : (s s' : Scheduler) → task_reap s ≡ some s' → IsSound s → IsSound s'
task_reap-IsSound s s' e v =
    let (s1, found, r, g) = task_reap_lem v.valid v.heap_valid v.stacks in
    let same : s1 ≡ s' = ground (arith, e, found) in
    subst IsSound same (record {
      valid = r.valid;
      blocks = g.blocks;
      heap_valid = g.valid;
      stacks =
          HaveStacks-same s1.heap.heap_beginning g.blocks (alive (live s)) (live s1)
            (sym (starts-renumber 0 (alive (live s))) ∙ ap starts (sym r.tasks)) g.stacks;
    })

task_create-IsSound :
    (s s' : Scheduler) (template : Frame) (entry stack : ℕ) (heap : Heap)
    → malloc s.heap 4096 ≡ some (stack, heap)
    → (10 ≤ s.task_count) ⊎ (stack ≢ 0)
    → task_create s template entry ≡ some s'
    → IsSound s
    → IsSound s'
task_create-IsSound s s' template entry stack heap m room e v = elim (dec_le 10 s.task_count) [
  | yes full ↦
      let same : s ≡ s' = ground (arith, e, task_create-full s template entry full) in
      subst IsSound same v
  | no free ↦
      let (p, g, found, answer) = malloc_contract v.heap_valid 4096 in
      let is : p ≡ stack = ground (arith, m, found) in
      elim answer [
        | inl (null, kept) ↦ elim room [
          | inl full ↦ absurd (free full)
          | inr ne ↦ absurd (ne (sym is ∙ null))
        ]
        | inr (cs, c, r, le, size) ↦
            let t = new_task template entry s.task_count p in
            let made = Granted-Created template entry v.valid v.stacks (omega arith) r le size in
            let same : add_task s s.task_count t g ≡ s' =
              ground (arith, e, task_create-room s template entry (omega arith) found) in
            subst IsSound same (record {
              valid = made.added.valid;
              blocks = made.blocks;
              heap_valid = made.heap_valid;
              stacks = made.stacks;
            })
      ]
]

Step-IsSound : {s s' : Scheduler} → Step s s' → IsSound s → IsSound s'
Step-IsSound (tick s frame) v = schedule-IsSound s frame v
Step-IsSound (exit s) v = task_exit-IsSound s v
Step-IsSound (create s s' template entry stack heap m room e) v =
    task_create-IsSound s s' template entry stack heap m room e v
Step-IsSound (reap_pass s s' e) v = task_reap-IsSound s s' e v

-- Timer interrupts, ends of tasks, creations of tasks where the table is full or the heap does not refuse the
-- stack, and passes of the reaper, in any number and order, keep the scheduler sound: the table is valid, with the ids by
-- position and the current task in range, the heap is valid, and each task of the table has a
-- stack of its own in use in it.
pub Steps-IsSound : {s s' : Scheduler} → Steps s s' → IsSound s → IsSound s'
Steps-IsSound (here s) v = v
Steps-IsSound (more s s' s'' step rest) v = Steps-IsSound rest (Step-IsSound step v)
