-- ===== src/Task/Tests.antt =====
-- Runs of the scheduler on small tables, and the theorems at them.
use doomkernel.Prelude.{
  ℕ, zero, suc, ◌+◌, ◌≤◌, ◌<◌, ◌≡◌, ◌⊎◌, refl, inl, inr, true, some, List, [], ◌∷◌, arith,
  replicate,
}
use doomkernel.Memory.{Memory, load8, load_le, store8, store_le}
use doomkernel.Frame.{Frame, zero_frame}
use doomkernel.Alloc.{Heap, status, size, set_status, set_size}
use doomkernel.Alloc.Block.{Block, block}
use doomkernel.Alloc.Invariant.{IsHeap}
use doomkernel.Task.{
  Task, TaskState, ready, running, done, Scheduler, blank_task, slot, is_done, next_loop,
  get_next_task, save_frame, switch, schedule, new_task, task_create, task_reap, task_exit,
}
use doomkernel.Task.Next.{IsNext, get_next_task_lem}
use doomkernel.Task.Table.{IsValid, live}
use doomkernel.Task.Schedule.{IsRunning, ticks, after, schedule_resumes, schedule_reaches}
use doomkernel.Task.Stacks.{HaveStacks, Released}
use doomkernel.Task.Create.{Added, Created, task_create_lem}
use doomkernel.Task.Reap.{Reaped, task_reap_lem}
use doomkernel.Task.Steps.{Steps, tick, exit, here, more, IsSound, Steps-IsSound}

-- two used blocks of 4096 bytes
abbrev stacks : List Block
stacks = block true 4096 ∷ block true 4096 ∷ []

abbrev header : Memory → ℕ → Memory
header m a = set_size (set_status m a 1) a 4096

abbrev memory : Heap
memory = record {
  mem = header (header (λ x. 0) 0x800000) 0x801010;
  heap_beginning = 0x800000;
  heap_end = 0x900000;
  last_alloc = 0x802020;
  memory_used = 8224;
}

memory-IsHeap : IsHeap memory stacks
unfolding status size set_status set_size load8 store8 load_le store_le
memory-IsHeap = record {
  chain = (
    record { status_is = refl; size_is = refl; size_pos = omega arith; size_aligned = omega arith },
    (
      record {
        status_is = refl;
        size_is = refl;
        size_pos = omega arith;
        size_aligned = omega arith;
      },
      tt,
    ),
  );
  end = omega arith;
  start_pos = omega arith;
  start_aligned = omega arith;
  small = omega arith;
  limit_small = omega arith;
  inside = inr (omega arith);
  used = omega arith;
}

abbrev task : ℕ → TaskState → ℕ → Task
task id state stack = record {
  frame = record zero_frame { rip = 0x100000 + id };
  stack_start = stack;
  stack_top = stack + 4096;
  state = state;
  id = id;
}

-- Task 0 has ended, task 1 runs.
abbrev pair : Scheduler
pair = record {
  task_list = task 0 done 0x800010 ∷ task 1 running 0x801020 ∷ replicate 8 blank_task;
  current_task = 1;
  task_count = 2;
  scheduler_started = true;
  heap = memory;
}

ids_of :
    (a b : Task) (l : List Task)
    → a.id ≡ 0
    → b.id ≡ 1
    → (i : ℕ) → i < 2
    → (slot (a ∷ b ∷ l) i).id ≡ i
ids_of a b l e f zero p = e
ids_of a b l e f (suc zero) p = f
ids_of a b l e f (suc (suc i)) p = absurd (omega arith)

pair-IsValid : IsValid pair
pair-IsValid = record {
  table = refl;
  count_le = omega arith;
  current_in = omega arith;
  ids = ids_of (task 0 done 0x800010) (task 1 running 0x801020) (replicate 8 blank_task) refl refl;
}

pair-HaveStacks : HaveStacks 0x800000 stacks (live pair)
pair-HaveStacks = (
  (4096, omega arith, inl (refl, refl, refl)),
  ((λ e. absurd (omega (arith, e))), tt),
  ((4096, omega arith, inr (inl (refl, refl, refl))), tt, tt),
)

-- two tasks that are alive, the second one running
abbrev both : Scheduler
both = record pair {
  task_list = task 0 ready 0x800010 ∷ task 1 running 0x801020 ∷ replicate 8 blank_task;
}

both-IsRunning : IsRunning both
both-IsRunning = record {
  started = refl;
  some_task = omega arith;
  valid = record {
    table = refl;
    count_le = omega arith;
    current_in = omega arith;
    ids =
        ids_of (task 0 ready 0x800010) (task 1 running 0x801020) (replicate 8 blank_task) refl refl;
  };
}

abbrev at : ℕ → Frame
at address = record zero_frame { rip = address }

-- The round robin goes to task 0 and loads its frame.
schedule_runs :
    ((schedule both (at 7)).0.current_task ≡ 0) × ((schedule both (at 7)).1.rip ≡ 0x100000)
unfolding schedule save_frame switch get_next_task next_loop
schedule_runs = (refl, refl)

get_next_task_lem_example :
    IsNext both.task_list 2 1 2 (get_next_task both)
    ⊎ ((get_next_task both ≡ 1) × ((j : ℕ) → j < 2 → is_done (slot both.task_list j).state ≡ true))
get_next_task_lem_example = get_next_task_lem both (omega arith)

schedule_resumes_example : (ticks both (at 7) (at 8 ∷ [])).1 ≡ at 7
unfolding schedule save_frame switch get_next_task next_loop
schedule_resumes_example =
    schedule_resumes (at 7) (at 8 ∷ []) both-IsRunning ((λ e. absurd (omega (arith, e))), tt) refl

schedule_reaches_example :
    (n : ℕ) × (0 < n) × (n ≤ 2) × ((after n both (λ i. at i)).current_task ≡ 0)
schedule_reaches_example = schedule_reaches 0 (λ i. at i) both-IsRunning (omega arith) refl

task_create_lem_example :
    (s' : Scheduler) × (task_create pair zero_frame 0x200000 ≡ some s')
    × (((pair.task_count ≡ 10) × (s' ≡ pair))
        ⊎ ((p : ℕ) × let t = new_task zero_frame 0x200000 2 p in
              Created pair stacks t s' ⊎ ((p ≡ 0) × (s'.heap ≡ memory) × Added pair t s')))
task_create_lem_example =
    task_create_lem zero_frame 0x200000 pair-IsValid memory-IsHeap pair-HaveStacks

task_reap_lem_example :
    (s' : Scheduler) × (task_reap pair ≡ some s')
    × Reaped pair (live pair) s'
    × Released memory stacks (live pair) s'.heap
task_reap_lem_example = task_reap_lem pair-IsValid memory-IsHeap pair-HaveStacks

pair-IsSound : IsSound pair
pair-IsSound = record {
  valid = pair-IsValid;
  blocks = stacks;
  heap_valid = memory-IsHeap;
  stacks = pair-HaveStacks;
}

-- An interrupt, the end of the task that it resumes, and another interrupt.
abbrev history : Steps pair (schedule (task_exit (schedule pair (at 7)).0) (at 8)).0
history = more _ _ _ (tick pair (at 7)) (more _ _ _ (exit _) (more _ _ _ (tick _ (at 8)) (here _)))

Steps-IsSound_example : IsSound (schedule (task_exit (schedule pair (at 7)).0) (at 8)).0
Steps-IsSound_example = Steps-IsSound history pair-IsSound
