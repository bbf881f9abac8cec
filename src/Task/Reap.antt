-- ===== src/Task/Reap.antt =====
-- `task_reap`: the tasks that are done are removed and their stacks are freed; the others stay in
-- their order and are renumbered.
use mathlib.Core.Path.{ap₂, subst}
use mathlib.Core.List.{append_assoc}
use doomkernel.Prelude.{
  ℕ, zero, suc, ◌+◌, ◌-◌, ◌≤◌, ◌<◌, ◌≡◌, refl, sym, ap, ◌∙◌, inl, inr, Bool-cases, some, List, [],
  ◌∷◌, ◌++◌, arith, length, length-append, take, drop, take-append-drop, length-take,
}
use doomkernel.Alloc.{Heap}
use doomkernel.Task.{Task, Scheduler, slot, is_done, remove_task, reap_loop, task_reap}
use doomkernel.Task.Roster.{
  renumber, alive, rank, AllAlive, AllAlive-snoc, last_of, slot-append, length-renumber,
  renumber-renumber, rank-front,
}
use doomkernel.Alloc.Block.{Block}
use doomkernel.Alloc.Invariant.{IsHeap}
use doomkernel.Task.Table.{IsValid, live}
use doomkernel.Task.Stacks.{HaveStacks, Released, free_all_lem}
use doomkernel.Task.Current.{clip, clip-within, clip-in_range, length-alive}
use doomkernel.Task.Release.{free_all, free_all-done}
use doomkernel.Task.Removal.{
  Ended, reap_loop-end, reap_loop-pass, reap_loop-remove, remove_list, Ended-pass, removed_count,
  removed_current_in, removed_free, Ended-removed,
}

abbrev tail : List Task → List Task
tail [] = []
tail (t ∷ ts) = ts

abbrev head : List Task → Task → Task
head [] d = d
head (t ∷ ts) d = t

reap_loop_lem :
    (fuel : ℕ) (pre mid rest : List Task) {s : Scheduler} {g : Heap}
    → s.task_list ≡ pre ++ (mid ++ rest)
    → s.task_count ≡ length pre + length mid
    → s.current_task ≤ s.task_count - 1
    → AllAlive pre
    → mid ≡ renumber (length pre) mid
    → length mid < fuel
    → free_all s.heap mid ≡ some g
    → (s' : Scheduler) × (reap_loop fuel (length pre) s ≡ some s') × Ended pre mid s g s'
reap_loop_lem zero pre mid rest e n c a m h f = absurd (omega arith)
reap_loop_lem (suc fuel) pre [] rest {s} e n c a m h f = (
  s,
  reap_loop-end fuel (length pre) s (omega arith),
  record {
    rest = rest;
    list = e;
    count = n;
    table = refl;
    current =
        clip-within s.current_task (length pre + 0) (omega arith)
        ∙ ap (λ (r : ℕ). clip r (length pre + 0))
            (sym (rank-front s.current_task pre [] a (omega arith)));
    heap = cc;
    started = refl;
  },
)
reap_loop_lem (suc fuel) pre (t ∷ ms) rest {s} {g} e n c a m h f =
    elim (Bool-cases (is_done t.state)) [
      | inl d ↦
          let (x, q, w) = free_all-done s.heap t ms d f in
          let (s', r, z) =
            reap_loop_lem fuel pre (renumber (length pre) ms) (last_of t ms ∷ rest)
              {s = remove_task s (length pre) x} {g = g} (remove_list pre t ms rest s x e n)
              (removed_count s (length pre) x ∙ omega (arith, length-renumber (length pre) ms))
              (removed_current_in s (length pre) x (omega arith) c) a
              (sym (renumber-renumber (length pre) (length pre) ms))
              (omega (arith, length-renumber (length pre) ms))
              (removed_free s x ms (length pre) w) in
          (
            s',
            reap_loop-remove fuel (length pre) s (omega arith)
                  (ap (λ (l : List Task). slot l (length pre)) e ∙ slot-append pre t (ms ++ rest)) d
                  q
                ∙ r,
            Ended-removed pre t ms s x n d rest e c a z,
          )
      | inr d ↦
          let pre' = pre ++ t ∷ [] in
          let size : length pre' ≡ length pre + 1 = length-append pre (t ∷ []) in
          let size' : length pre' ≡ suc (length pre) = omega arith in
          let (s', r, z) =
            reap_loop_lem fuel pre' ms rest {s = s} {g = g}
              (e ∙ sym (append_assoc pre (t ∷ []) (ms ++ rest))) (omega arith) c
              (AllAlive-snoc pre t a d) (ap tail m ∙ ap (λ (k : ℕ). renumber k ms) (sym size'))
              (omega arith) (rw d at f) in
          (
            s',
            reap_loop-pass fuel (length pre) s (omega arith)
                  (ap (λ (l : List Task). slot l (length pre)) e ∙ slot-append pre t (ms ++ rest)) d
                ∙ ap (λ (i : ℕ). reap_loop fuel i s) (sym size)
                ∙ r,
            Ended-pass pre t ms d (ap (λ (l : List Task). head l t) m) z,
          )
    ]

-- what is left of the table `s` of the tasks `ts` when its dead are removed
pub record Reaped (s : Scheduler) (ts : List Task) (s' : Scheduler) : Type 0 where
  pub tasks : live s' ≡ renumber 0 (alive ts)
  pub count : s'.task_count ≡ length (alive ts)
  pub valid : IsValid s'
  pub current : s'.current_task ≡ clip (rank s.current_task ts) (length (alive ts))
  pub started : s'.scheduler_started ≡ s.scheduler_started

renumbered :
    (ts rest : List Task) (i : ℕ)
    → ((j : ℕ) → j < length ts → (slot (ts ++ rest) j).id ≡ i + j)
    → ts ≡ renumber i ts
renumbered [] rest i h = refl
renumbered (t ∷ ts) rest i h =
    let own : t.id ≡ i = h 0 (omega arith) ∙ omega arith in
    ap₂ ◌∷◌ (ap (λ (k : ℕ). record t { id = k }) own)
      (renumbered ts rest (suc i) (λ j p. h (suc j) (omega arith) ∙ omega arith))

ids-renumber :
    (ts rest : List Task) (i j : ℕ) → j < length ts → (slot (renumber i ts ++ rest) j).id ≡ i + j
ids-renumber [] rest i j p = absurd (omega arith)
ids-renumber (t ∷ ts) rest i zero p = omega arith
ids-renumber (t ∷ ts) rest i (suc j) p = omega (arith, ids-renumber ts rest (suc i) j (omega arith))

take-front : (ts rest : List Task) → take (length ts) (ts ++ rest) ≡ ts
take-front [] rest = refl
take-front (t ∷ ts) rest = ap (λ (l : List Task). t ∷ l) (take-front ts rest)

reaped :
    {s s' : Scheduler} {g : Heap}
    → IsValid s
    → length (live s) ≡ s.task_count
    → Ended [] (live s) s g s'
    → Reaped s (live s) s'
reaped {s} {s'} v size z =
    let ts = renumber 0 (alive (live s)) in
    let n : s'.task_count ≡ length (alive (live s)) = z.count ∙ omega arith in
    let m : s'.task_count ≡ length ts = n ∙ sym (length-renumber 0 (alive (live s))) in
    let z0 : 0 + length (alive (live s)) ≡ length (alive (live s)) = omega arith in
    record {
      tasks = ap₂ take m z.list ∙ take-front ts z.rest;
      count = n;
      valid = record {
        table = z.table ∙ v.table;
        count_le = omega (arith, length-alive (live s), v.count_le);
        current_in = omega (
          arith,
          z.current,
          clip-in_range (rank s.current_task (live s)) (0 + length (alive (live s))),
        );
        ids = λ i p.
            ap (λ (l : List Task). (slot l i).id) z.list
            ∙ ids-renumber (alive (live s)) z.rest 0 i (omega arith)
            ∙ omega arith;
      };
      current = z.current ∙ ap (clip (rank s.current_task (live s))) z0;
      started = z.started;
    }

-- `task_reap` on a valid table whose tasks have stacks of their own ends. The tasks that are left are
-- those that are not done, in their order and with their slots as ids, and the table is valid again.
-- The current index is the number of tasks left of those before the current one, or 0 where this is
-- past the end. Exactly the stacks of the tasks removed are freed: none of them is in use any more, and
-- no payload is that was not before; the payloads in use besides those of the table stay in use and
-- hold what they held, and each task left has its stack.
pub task_reap_lem :
    {s : Scheduler} {bs : List Block}
    → IsValid s
    → IsHeap s.heap bs
    → HaveStacks s.heap.heap_beginning bs (live s)
    → (s' : Scheduler) × (task_reap s ≡ some s')
      × Reaped s (live s) s'
      × Released s.heap bs (live s) s'.heap
unfolding task_reap
task_reap_lem {s} {bs} v w have =
    let (g, f, released) = free_all_lem (live s) w have in
    let size : length (live s) ≡ s.task_count =
      omega (arith, length-take s.task_count s.task_list, v.table, v.count_le) in
    let split = sym (take-append-drop s.task_count s.task_list) in
    let (s', e, z) =
      reap_loop_lem (suc s.task_count) [] (live s) (drop s.task_count s.task_list) {s = s} {g = g}
        split (sym size ∙ omega arith) v.current_in tt
        (renumbered (live s) (drop s.task_count s.task_list) 0 (λ j p.
          ap (λ (l : List Task). (slot l j).id) (sym split) ∙ v.ids j (omega arith) ∙ omega arith))
        (omega arith) f in
    (s', e, reaped v size z, subst (Released s.heap bs (live s)) (sym z.heap) released)
