-- ===== src/Task/Table.antt =====
-- The task table: its invariant, and slots after a write.
use doomkernel.Prelude.{
  ℕ, ◌-◌, ◌≤◌, ◌<◌, ◌≡◌, ◌≢◌, sym, ap, List, length, take, get_or-set_self, get_or-set_ne,
  ℕ_discrete,
}
use doomkernel.Frame.{Frame}
use doomkernel.Task.{Task, Scheduler, slot, blank_task, save_frame}

-- the table has its ten slots, the count and the current task are within it, and each task has its
-- slot as its id
pub record IsValid (s : Scheduler) : Type 0 where
  pub table : length s.task_list ≡ 10
  pub count_le : s.task_count ≤ 10
  pub current_in : s.current_task ≤ s.task_count - 1
  pub ids : (i : ℕ) → i < s.task_count → (slot s.task_list i).id ≡ i

-- the tasks that the table holds
abbrev pub live : Scheduler → List Task
live s = take s.task_count s.task_list

pub slot-save_self :
    (s : Scheduler) (f : Frame)
    → s.current_task < length s.task_list
    → slot (save_frame s f).task_list s.current_task
      ≡ record (slot s.task_list s.current_task) { frame = f }
unfolding save_frame
slot-save_self s f h =
    get_or-set_self s.task_list s.current_task
      (record (slot s.task_list s.current_task) { frame = f }) blank_task h

pub slot-save_other :
    (s : Scheduler) (f : Frame) (j : ℕ)
    → s.current_task ≢ j
    → slot (save_frame s f).task_list j ≡ slot s.task_list j
unfolding save_frame
slot-save_other s f j ne =
    get_or-set_ne s.task_list s.current_task j
      (record (slot s.task_list s.current_task) { frame = f }) blank_task ne

module _ (s : Scheduler) (f : Frame) (h : s.current_task < length s.task_list) where
  pub state-save : (j : ℕ) → (slot (save_frame s f).task_list j).state ≡ (slot s.task_list j).state
  state-save j = elim (ℕ_discrete s.current_task j) [
    | yes e ↦ rw (sym e) (ap (λ (t : Task). t.state) (slot-save_self s f h))
    | no ne ↦ ap (λ (t : Task). t.state) (slot-save_other s f j ne)
  ]

  pub id-save : (j : ℕ) → (slot (save_frame s f).task_list j).id ≡ (slot s.task_list j).id
  id-save j = elim (ℕ_discrete s.current_task j) [
    | yes e ↦ rw (sym e) (ap (λ (t : Task). t.id) (slot-save_self s f h))
    | no ne ↦ ap (λ (t : Task). t.id) (slot-save_other s f j ne)
  ]
