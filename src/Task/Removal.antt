-- ===== src/Task/Removal.antt =====
-- One step of the loop of `task_reap`: a task is passed or removed.
use mathlib.Core.List.{append_assoc}
use doomkernel.Prelude.{
  ℕ, suc, ◌+◌, ◌-◌, ◌≤◌, ◌<◌, ◌≡◌, refl, sym, ap, ◌∙◌, true, false, some, List, [], ◌∷◌, ◌++◌,
  arith, length, length-append, ltb,
}
use doomkernel.Alloc.{Heap, free}
use doomkernel.Task.{
  Task, Scheduler, slot, is_done, shift_task_list_down, moved_current, remove_task, reap, reap_loop,
}
use doomkernel.Task.Roster.{
  numbered, renumber, alive, rank, AllAlive, last_of, shift_loop_lem, length-renumber,
  renumber-alive, length-alive_renumber,
}
use doomkernel.Task.Current.{clip, moved_current_lem, moved_current_in}
use doomkernel.Task.Release.{free_all, free_all-renumber}

-- what the loop at `length pre` makes of the tasks `mid` that are left
pub record Ended (pre mid : List Task) (s : Scheduler) (g : Heap) (s' : Scheduler) : Type 0 where
  pub rest : List Task
  pub list : s'.task_list ≡ pre ++ (renumber (length pre) (alive mid) ++ rest)
  pub count : s'.task_count ≡ length pre + length (alive mid)
  pub table : length s'.task_list ≡ length s.task_list
  pub current :
      s'.current_task ≡ clip (rank s.current_task (pre ++ mid)) (length pre + length (alive mid))
  pub heap : s'.heap ≡ g
  pub started : s'.scheduler_started ≡ s.scheduler_started

pub reap_loop-end :
    (fuel i : ℕ) (s : Scheduler) → s.task_count ≤ i → reap_loop (suc fuel) i s ≡ some s
unfolding reap_loop
reap_loop-end fuel i s h = let e : ltb i s.task_count ≡ false = ground arith in simp e

pub reap_loop-pass :
    (fuel i : ℕ) (s : Scheduler) {t : Task}
    → i < s.task_count
    → slot s.task_list i ≡ t
    → is_done t.state ≡ false
    → reap_loop (suc fuel) i s ≡ reap_loop fuel (i + 1) s
unfolding reap_loop
reap_loop-pass fuel i s h e d = let p : ltb i s.task_count ≡ true = ground arith in simp (p, e, d)

reap_eq :
    (s : Scheduler) (i : ℕ) {t : Task} {g : Heap}
    → slot s.task_list i ≡ t
    → free s.heap t.stack_start ≡ some g
    → reap s i ≡ some (remove_task s i g)
unfolding reap
reap_eq s i e f = simp (reap, e, f)

pub reap_loop-remove :
    (fuel i : ℕ) (s : Scheduler) {t : Task} {g : Heap}
    → i < s.task_count
    → slot s.task_list i ≡ t
    → is_done t.state ≡ true
    → free s.heap t.stack_start ≡ some g
    → reap_loop (suc fuel) i s ≡ reap_loop fuel i (remove_task s i g)
unfolding reap_loop
reap_loop-remove fuel i s h e d f =
    let p : ltb i s.task_count ≡ true = ground arith in simp (p, e, d, reap_eq s i e f)

pub remove_list :
    (pre : List Task) (x : Task) (ms rest : List Task) (s : Scheduler) (g : Heap)
    → s.task_list ≡ pre ++ x ∷ (ms ++ rest)
    → s.task_count ≡ length pre + suc (length ms)
    → (remove_task s (length pre) g).task_list
      ≡ pre ++ (renumber (length pre) ms ++ last_of x ms ∷ rest)
unfolding remove_task shift_task_list_down
remove_list pre x ms rest s g e n =
    let k : s.task_count - 1 - length pre ≡ length ms = omega arith in
    rw (k, e) (shift_loop_lem ms pre x rest)

pub Ended-pass :
    (pre : List Task) (t : Task) (ms : List Task) {s s' : Scheduler} {g : Heap}
    → is_done t.state ≡ false
    → t ≡ numbered (length pre) t
    → Ended (pre ++ t ∷ []) ms s g s'
    → Ended pre (t ∷ ms) s g s'
Ended-pass pre t ms {s} d own z =
    let size : length (pre ++ t ∷ []) ≡ suc (length pre) =
      omega (arith, length-append pre (t ∷ [])) in
    let total : length (pre ++ t ∷ []) + length (alive ms) ≡ length pre + length (alive (t ∷ ms)) =
      rw d (omega arith) in
    record {
      rest = z.rest;
      list =
          z.list
          ∙ ap (λ (k : ℕ). (pre ++ t ∷ []) ++ (renumber k (alive ms) ++ z.rest)) size
          ∙ append_assoc pre (t ∷ []) (renumber (suc (length pre)) (alive ms) ++ z.rest)
          ∙ ap (λ (x : Task). pre ++ (x ∷ (renumber (suc (length pre)) (alive ms) ++ z.rest))) own
          ∙ rw d refl;
      count = z.count ∙ total;
      table = z.table;
      current =
          z.current
          ∙ ap (clip (rank s.current_task ((pre ++ t ∷ []) ++ ms))) total
          ∙ ap
              (λ (l : List Task).
                clip (rank s.current_task l) (length pre + length (alive (t ∷ ms))))
              (append_assoc pre (t ∷ []) ms);
      heap = z.heap;
      started = z.started;
    }

pub removed_count :
    (s : Scheduler) (i : ℕ) (x : Heap) → (remove_task s i x).task_count ≡ s.task_count - 1
unfolding remove_task
removed_count s i x = refl

removed_started :
    (s : Scheduler) (i : ℕ) (x : Heap) → (remove_task s i x).scheduler_started ≡ s.scheduler_started
unfolding remove_task shift_task_list_down
removed_started s i x = refl

pub removed_current_in :
    (s : Scheduler) (i : ℕ) (x : Heap)
    → i < s.task_count
    → s.current_task ≤ s.task_count - 1
    → (remove_task s i x).current_task ≤ (remove_task s i x).task_count - 1
unfolding remove_task
removed_current_in s i x p h = moved_current_in s.current_task i s.task_count p h

pub removed_free :
    (s : Scheduler) (x : Heap) (ms : List Task) (i : ℕ) {g : Heap}
    → free_all x ms ≡ some g
    → free_all (remove_task s i x).heap (renumber i ms) ≡ some g
unfolding remove_task
removed_free s x ms i w = free_all-renumber ms x i ∙ w

removed_table :
    (pre : List Task) (t : Task) (ms rest : List Task)
    → length (pre ++ (renumber (length pre) ms ++ last_of t ms ∷ rest))
      ≡ length (pre ++ t ∷ (ms ++ rest))
removed_table pre t ms rest = omega (
  arith,
  length-append pre (renumber (length pre) ms ++ last_of t ms ∷ rest),
  length-append (renumber (length pre) ms) (last_of t ms ∷ rest),
  length-renumber (length pre) ms,
  length-append pre (t ∷ (ms ++ rest)),
  length-append ms rest,
)

module _ (pre : List Task) (t : Task) (ms : List Task) (s : Scheduler) (x : Heap)
    (n : s.task_count ≡ length pre + suc (length ms)) (d : is_done t.state ≡ true) where
  removed_current :
      s.current_task ≤ s.task_count - 1
      → AllAlive pre
      → clip
          (rank (remove_task s (length pre) x).current_task (pre ++ renumber (length pre) ms))
          (length pre + length (alive (renumber (length pre) ms)))
        ≡ clip (rank s.current_task (pre ++ t ∷ ms)) (length pre + length (alive (t ∷ ms)))
  unfolding remove_task
  removed_current c a =
      ap
        (λ (k : ℕ).
          clip
            (rank (moved_current s.current_task (length pre) (k - 1))
              (pre ++ renumber (length pre) ms))
            (length pre + length (alive (renumber (length pre) ms))))
        n
      ∙ moved_current_lem pre t ms (length pre) s.current_task
          (length pre + length (alive (renumber (length pre) ms))) a d (omega arith)
          (ap (λ (k : ℕ). length pre + k) (length-alive_renumber (length pre) ms))
      ∙ ap (clip (rank s.current_task (pre ++ t ∷ ms))) total
    where
      total :
          length pre + length (alive (renumber (length pre) ms))
          ≡ length pre + length (alive (t ∷ ms))
      total = rw d (ap (λ (k : ℕ). length pre + k) (length-alive_renumber (length pre) ms))

  pub Ended-removed :
      (rest : List Task) {s' : Scheduler} {g : Heap}
      → s.task_list ≡ pre ++ t ∷ (ms ++ rest)
      → s.current_task ≤ s.task_count - 1
      → AllAlive pre
      → Ended pre (renumber (length pre) ms) (remove_task s (length pre) x) g s'
      → Ended pre (t ∷ ms) s g s'
  Ended-removed rest {s'} e c a z = record {
    rest = z.rest;
    list =
        z.list
        ∙ ap (λ (l : List Task). pre ++ (l ++ z.rest)) (renumber-alive (length pre) (length pre) ms)
        ∙ rw d refl;
    count =
        z.count
        ∙ ap (λ (k : ℕ). length pre + k) (length-alive_renumber (length pre) ms)
        ∙ rw d refl;
    table =
        z.table
        ∙ ap length (remove_list pre t ms rest s x e n)
        ∙ removed_table pre t ms rest
        ∙ ap length (sym e);
    current = z.current ∙ removed_current c a;
    heap = z.heap;
    started = z.started ∙ removed_started s (length pre) x;
  }
