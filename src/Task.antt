-- ===== src/Task.antt =====
-- kernel/task/task.c: the task table and the round-robin scheduler. `schedule` runs in the timer
-- interrupt and exchanges the interrupted frame. Stacks come from the kernel heap (`Alloc`), which is
-- a part of the state; `none` means that a walk of the heap did not end. Messages are left out.
pub mod Next
pub mod Schedule
pub mod Table
pub mod Reap
pub mod Roster
pub mod Release
pub mod Current
pub mod Stacks
pub mod Create
pub mod Removal
pub mod Starts
pub mod Steps
mod Tests
use doomkernel.Prelude.{
  ℕ, zero, suc, ◌+◌, ◌-◌, ◌%◌, ◌^◌, Bool, true, false, not, Option, none, some, List, [], ◌∷◌, ltb,
  leb, ◌==◌, if◌then◌else◌, get_or, set,
}
use doomkernel.Memory.{add64}
use doomkernel.Frame.{Frame, zero_frame}
use doomkernel.Alloc.{Heap, malloc, free}

abbrev pub stack_size_task : ℕ
stack_size_task = 4096

abbrev pub max_tasks : ℕ
max_tasks = 10

pub data TaskState : Type 0 where
  ready running blocked done : TaskState

pub record Task : Type 0 where
  pub frame : Frame
  pub stack_start : ℕ
  pub stack_top : ℕ
  pub state : TaskState
  pub id : ℕ

-- a slot of `task_list` before it is first used
abbrev pub blank_task : Task
blank_task = record { frame = zero_frame; stack_start = 0; stack_top = 0; state = ready; id = 0 }

pub record Scheduler : Type 0 where
  pub task_list : List Task
  pub current_task : ℕ
  pub task_count : ℕ
  pub scheduler_started : Bool
  pub heap : Heap

abbrev pub slot : List Task → ℕ → Task
slot l i = get_or l i blank_task

abbrev pub is_done : TaskState → Bool
is_done done = true
is_done ready = false
is_done running = false
is_done blocked = false

-- the loop of `get_next_task`, by the rounds left
unfoldable pub next_loop : ℕ → List Task → ℕ → ℕ → ℕ → ℕ
next_loop zero l task_count current task = current
next_loop (suc n) l task_count current task =
    let next = (task + 1) % task_count in
    let rest = next_loop n l task_count current next in
    if not (is_done (slot l next).state) then next else rest

unfoldable pub get_next_task : Scheduler → ℕ
unfolding next_loop
get_next_task s = next_loop s.task_count s.task_list s.task_count s.current_task s.current_task

unfoldable pub save_frame : Scheduler → Frame → Scheduler
save_frame s frame = record s {
  task_list =
      set s.task_list s.current_task (record (slot s.task_list s.current_task) { frame = frame });
}

-- `current_task = get_next_task()` once the frame has been saved
unfoldable pub switch : Scheduler → Scheduler
switch s = record s { current_task = get_next_task s }

unfoldable pub schedule : Scheduler → Frame → Scheduler × Frame
unfolding save_frame switch
schedule s frame =
    let s' =
      if s.scheduler_started
      then switch (save_frame s frame)
      else record s { scheduler_started = true } in
    if s.task_count == 0 then (s, frame) else (s', (slot s'.task_list s'.current_task).frame)

-- Marks the running task; after it the processor halts until the next interrupt.
unfoldable pub task_exit : Scheduler → Scheduler
task_exit s = record s {
  task_list =
      set s.task_list s.current_task (record (slot s.task_list s.current_task) { state = done });
}

-- -1, for a full table, is `none`.
unfoldable pub task_get_next_id : Scheduler → Option ℕ
task_get_next_id s = if leb max_tasks s.task_count then none else some s.task_count

-- `template` is `kernel_frame_template`, `entry` the address of the task's function.
unfoldable pub new_task : Frame → ℕ → ℕ → ℕ → Task
new_task template entry id stack = record {
  frame = record zero_frame {
    rip = entry;
    rsp = add64 stack stack_size_task;
    cs = template.cs;
    ss = template.ss;
    rflags = template.rflags;
  };
  stack_start = stack;
  stack_top = add64 stack stack_size_task;
  state = ready;
  id = id;
}

unfoldable pub add_task : Scheduler → ℕ → Task → Heap → Scheduler
add_task s id task heap = record s {
  task_list = set s.task_list id task;
  task_count = s.task_count + 1;
  heap = heap;
}

unfoldable pub task_create : Scheduler → Frame → ℕ → Option Scheduler
task_create s template entry = elim (task_get_next_id s) [
  | none ↦ some s
  | some id ↦ elim (malloc s.heap stack_size_task) [
    | none ↦ none
    | some (stack, heap) ↦ some (add_task s id (new_task template entry id stack) heap)
  ]
]

-- for (i = start; i < task_count - 1; i++), by the rounds left
unfoldable pub shift_loop : ℕ → ℕ → List Task → List Task
shift_loop zero current l = l
shift_loop (suc n) current l =
    shift_loop n (current + 1) (set l current (record (slot l (current + 1)) { id = current }))

unfoldable pub shift_task_list_down : Scheduler → ℕ → Scheduler
unfolding shift_loop
shift_task_list_down s start = record s {
  task_list = shift_loop (s.task_count - 1 - start) start s.task_list;
}

-- `current_task` when the task at `task` is gone and `task_count` has been lowered
unfoldable pub moved_current : ℕ → ℕ → ℕ → ℕ
moved_current current task task_count =
    if ltb task current then current - 1 else if leb task_count current then 0 else current

unfoldable pub remove_task : Scheduler → ℕ → Heap → Scheduler
remove_task s task heap =
    let s' = shift_task_list_down s task in
    record s' {
      task_count = s.task_count - 1;
      current_task = moved_current s.current_task task (s.task_count - 1);
      heap = heap;
    }

unfoldable pub reap : Scheduler → ℕ → Option Scheduler
reap s task = elim (free s.heap (slot s.task_list task).stack_start) [
  | none ↦ none
  | some heap ↦ some (remove_task s task heap)
]

-- the loop of `task_reap` on fuel; `none` also means that the fuel ran out
unfoldable pub reap_loop : ℕ → ℕ → Scheduler → Option Scheduler
reap_loop zero i s = none
reap_loop (suc fuel) i s =
    let pass = reap_loop fuel (i + 1) s in
    let removed : Option Scheduler = elim (reap s i) [
      | none ↦ none
      | some s' ↦ reap_loop fuel i s'
    ] in
    if ltb i s.task_count
    then (if is_done (slot s.task_list i).state then removed else pass)
    else some s

unfoldable pub task_reap : Scheduler → Option Scheduler
task_reap s = reap_loop (suc s.task_count) 0 s
