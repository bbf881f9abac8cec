-- ===== src/Task/Schedule.antt =====
-- `schedule`, called by timer interrupts one after the other: each task goes on as it was
-- interrupted, and each task that is not done has its turn.
use native.Mathlib.Nat.{mod-add-mod, mod-lt}
use doomkernel.Prelude.{
  ℕ, zero, suc, ◌+◌, ◌-◌, ◌%◌, ◌≤◌, ◌<◌, ◌≡◌, ◌≢◌, refl, sym, ap, ◌∙◌, inl, inr, Bool, true, false,
  List, [], ◌∷◌, arith, ◌==◌, length, length-set, ℕ_discrete, dec_le,
}
use doomkernel.Frame.{Frame}
use doomkernel.Task.{Task, Scheduler, slot, is_done, save_frame, switch, schedule}
use doomkernel.Task.Next.{round, get_next_task_lem, get_next_task-lt, steps_to}
use doomkernel.Task.Table.{IsValid, slot-save_self, slot-save_other, state-save, id-save}

pub schedule-started :
    (s : Scheduler) (f : Frame)
    → s.scheduler_started ≡ true
    → 0 < s.task_count
    → let s' = switch (save_frame s f) in
      schedule s f ≡ (s', (slot s'.task_list s'.current_task).frame)
unfolding schedule
schedule-started s f e p = elim (ℕ_discrete s.task_count 0) [
  | yes z ↦ absurd (omega arith)
  | no ne ↦ let z : (s.task_count == 0) ≡ false = ground arith in simp (z, e)
]

-- a running scheduler with a task
pub record IsRunning (s : Scheduler) : Type 0 where
  pub started : s.scheduler_started ≡ true
  pub some_task : 0 < s.task_count
  pub valid : IsValid s

-- the state after an interrupt of a running scheduler
abbrev pub ticked : Scheduler → Frame → Scheduler
ticked s f = (schedule s f).0

ticked_eq : {s : Scheduler} (f : Frame) → IsRunning s → ticked s f ≡ switch (save_frame s f)
ticked_eq {s} f r = ap (λ (x : Scheduler × Frame). x.0) (schedule-started s f r.started r.some_task)

in_table : {s : Scheduler} → IsRunning s → s.current_task < length s.task_list
in_table r = omega (arith, r.some_task, r.valid.current_in, r.valid.table, r.valid.count_le)

in_count : {s : Scheduler} → IsRunning s → s.current_task < s.task_count
in_count r = omega (arith, r.some_task, r.valid.current_in)

pub switch-IsRunning :
    {s : Scheduler} (f : Frame) → IsRunning s → IsRunning (switch (save_frame s f))
unfolding switch save_frame
switch-IsRunning {s} f r = record {
  started = r.started;
  some_task = r.some_task;
  valid = record {
    table = length-set s.task_list s.current_task _ ∙ r.valid.table;
    count_le = r.valid.count_le;
    current_in = omega (arith, get_next_task-lt (save_frame s f) (in_count r));
    ids = λ i p. id-save s f (in_table r) i ∙ r.valid.ids i p;
  };
}

pub ticked-IsRunning : {s : Scheduler} (f : Frame) → IsRunning s → IsRunning (ticked s f)
ticked-IsRunning f r = rw (ticked_eq f r) (switch-IsRunning f r)

ticked-other :
    {s : Scheduler} (f : Frame) (j : ℕ)
    → IsRunning s
    → s.current_task ≢ j
    → slot (ticked s f).task_list j ≡ slot s.task_list j
unfolding switch
ticked-other {s} f j r ne = rw (ticked_eq f r) (slot-save_other s f j ne)

ticked-saved :
    {s : Scheduler} (f : Frame)
    → IsRunning s
    → (slot (ticked s f).task_list s.current_task).frame ≡ f
unfolding switch
ticked-saved {s} f r =
    rw (ticked_eq f r) (ap (λ (t : Task). t.frame) (slot-save_self s f (in_table r)))

ticked-frame :
    {s : Scheduler} (f : Frame)
    → IsRunning s
    → (schedule s f).1 ≡ (slot (ticked s f).task_list (ticked s f).current_task).frame
ticked-frame {s} f r =
    ap (λ (x : Scheduler × Frame). x.1) (schedule-started s f r.started r.some_task)
    ∙ ap (λ (x : Scheduler). (slot x.task_list x.current_task).frame) (sym (ticked_eq f r))

-- interrupts at the frames `f` and then `gs`: the state, and the frame that the last one loads
abbrev pub ticks : Scheduler → Frame → List Frame → Scheduler × Frame
ticks s f [] = schedule s f
ticks s f (g ∷ gs) = ticks (ticked s f) g gs

-- Task `j` is not the running one when the interrupts at `gs` come.
abbrev pub Away : ℕ → Scheduler → List Frame → Type 0
Away j s [] = Unit
Away j s (g ∷ gs) = (s.current_task ≢ j) × Away j (ticked s g) gs

keeps_frame :
    (gs : List Frame) {s : Scheduler} (g : Frame) (j : ℕ)
    → IsRunning s
    → Away j s (g ∷ gs)
    → (ticks s g gs).0.current_task ≡ j
    → (ticks s g gs).1 ≡ (slot s.task_list j).frame
keeps_frame [] {s} g j r (ne, away) e =
    ticked-frame g r
    ∙ ap (λ (i : ℕ). (slot (ticked s g).task_list i).frame) e
    ∙ ap (λ (t : Task). t.frame) (ticked-other g j r ne)
keeps_frame (h ∷ gs) {s} g j r (ne, away) e =
    keeps_frame gs h j (ticked-IsRunning g r) away e
    ∙ ap (λ (t : Task). t.frame) (ticked-other g j r ne)

-- A task of a running scheduler that is interrupted at the frame `f` goes on at `f`: whatever interrupts come while other
-- tasks run, the one that makes the task the current one again loads `f`.
pub schedule_resumes :
    {s : Scheduler} (f : Frame) (gs : List Frame)
    → IsRunning s
    → Away s.current_task (ticked s f) gs
    → (ticks s f gs).0.current_task ≡ s.current_task
    → (ticks s f gs).1 ≡ f
schedule_resumes {s} f [] r away e =
    ticked-frame f r ∙ ap (λ (i : ℕ). (slot (ticked s f).task_list i).frame) e ∙ ticked-saved f r
schedule_resumes {s} f (g ∷ gs) r away e =
    keeps_frame gs g s.current_task (ticked-IsRunning f r) away e ∙ ticked-saved f r

ticked-count : {s : Scheduler} (f : Frame) → IsRunning s → (ticked s f).task_count ≡ s.task_count
unfolding switch save_frame
ticked-count f r = rw (ticked_eq f r) refl

ticked-state :
    {s : Scheduler} (f : Frame) (j : ℕ)
    → IsRunning s
    → (slot (ticked s f).task_list j).state ≡ (slot s.task_list j).state
unfolding switch
ticked-state {s} f j r = rw (ticked_eq f r) (state-save s f (in_table r) j)

-- the state after `n` interrupts at the frames `frames 0`, `frames 1` and so on
abbrev pub after : ℕ → Scheduler → (ℕ → Frame) → Scheduler
after zero s frames = s
after (suc n) s frames = after n (ticked s (frames 0)) (λ i. frames (i + 1))

-- the next task is not behind one that is alive
ticked-next :
    {s : Scheduler} (f : Frame) (k : ℕ)
    → IsRunning s
    → 0 < k
    → k ≤ s.task_count
    → is_done (slot s.task_list (round s.task_count s.current_task k)).state ≡ false
    → (i : ℕ) × (0 < i)
      × (i ≤ k)
      × ((ticked s f).current_task ≡ round s.task_count s.current_task i)
unfolding switch save_frame
ticked-next {s} f k r p b alive =
    rw (ticked_eq f r) (elim (get_next_task_lem (save_frame s f) (in_count r)) [
      | inl i ↦ elim (dec_le i.steps k) [
        | yes le ↦ (i.steps, i.forward, le, i.reached)
        | no gt ↦ absurd (
            contradiction (i.passed k p (omega arith))
              (ap is_done (state-save s f (in_table r) _) ∙ alive))
      ]
      | inr (e, d) ↦ absurd (
          contradiction (d (round s.task_count s.current_task k) (mod-lt _ r.some_task))
            (ap is_done (state-save s f (in_table r) _) ∙ alive))
    ])
  where
    contradiction : {b : Bool} → b ≡ true → b ≡ false → ⊥
    contradiction t e = cc

round_rest :
    (count current i k : ℕ) {count' current' : ℕ}
    → i ≤ k
    → count' ≡ count
    → current' ≡ round count current i
    → round count' current' (k - i) ≡ round count current k
round_rest count current i k h e n =
    rw e (rw n (mod-add-mod (current + i) count (k - i) ∙ ap (λ (t : ℕ). t % count) (omega arith)))

reaches :
    (fuel : ℕ) {s : Scheduler} (k j : ℕ) (frames : ℕ → Frame)
    → IsRunning s
    → k ≤ fuel
    → 0 < k
    → k ≤ s.task_count
    → round s.task_count s.current_task k ≡ j
    → is_done (slot s.task_list j).state ≡ false
    → (n : ℕ) × (0 < n) × (n ≤ k) × ((after n s frames).current_task ≡ j)
reaches zero k j frames r le p b e alive = absurd (omega arith)
reaches (suc fuel) {s} k j frames r le p b e alive =
    let f = frames 0 in
    let (i, q, c, next) =
      ticked-next f k r p b (ap (λ (t : ℕ). is_done (slot s.task_list t).state) e ∙ alive) in
    elim (ℕ_discrete i k) [
      | yes same ↦
          (1, omega arith, omega arith, next ∙ ap (round s.task_count s.current_task) same ∙ e)
      | no ne ↦
          let (n, m, o, here) =
            reaches fuel (k - i) j (λ t. frames (t + 1)) (ticked-IsRunning f r) (omega arith)
              (omega arith) (omega (arith, ticked-count f r))
              (round_rest s.task_count s.current_task i k c (ticked-count f r) next ∙ e)
              (ap is_done (ticked-state f j r) ∙ alive) in
          (suc n, omega arith, omega arith, here)
    ]

-- Every task of a running scheduler that is not done becomes the current one within as many timer
-- interrupts as there are tasks, whatever frames they interrupt.
pub schedule_reaches :
    {s : Scheduler} (j : ℕ) (frames : ℕ → Frame)
    → IsRunning s
    → j < s.task_count
    → is_done (slot s.task_list j).state ≡ false
    → (n : ℕ) × (0 < n) × (n ≤ s.task_count) × ((after n s frames).current_task ≡ j)
schedule_reaches {s} j frames r p alive =
    let (k, q, b, e) = steps_to s.task_count s.current_task j (in_count r) p in
    let (n, m, o, here) = reaches k k j frames r (omega arith) q b e alive in
    (n, m, omega arith, here)
