-- ===== src/Task/Next.antt =====
-- `get_next_task`: the next task that is not done, in cyclic order.
use native.Mathlib.Nat.{mod-add-mod, mod-eq_of_lt, mod-lt, add-mod_right}
use doomkernel.Prelude.{
  ℕ, zero, suc, ◌+◌, ◌-◌, ◌%◌, ◌≤◌, ◌<◌, ◌≡◌, ◌⊎◌, refl, sym, ap, ◌∙◌, inl, inr, true, false,
  Bool-cases, List, arith, dec_le,
}
use doomkernel.Task.{Task, Scheduler, slot, is_done, next_loop, get_next_task}

-- the slot `k` steps round from `task`
abbrev pub round : ℕ → ℕ → ℕ → ℕ
round count task k = (task + k) % count

-- the slot `r` is the first behind `task`, at most `n` steps round, whose task is not done
pub record IsNext (l : List Task) (count task n r : ℕ) : Type 0 where
  pub steps : ℕ
  pub forward : 0 < steps
  pub bounded : steps ≤ n
  pub reached : r ≡ round count task steps
  pub alive : is_done (slot l r).state ≡ false
  pub passed : (k : ℕ) → 0 < k → k < steps → is_done (slot l (round count task k)).state ≡ true

abbrev pub AllDone : List Task → ℕ → ℕ → ℕ → Type 0
AllDone l count task n =
    (k : ℕ) → 0 < k → k ≤ n → is_done (slot l (round count task k)).state ≡ true

round_next : (count task k : ℕ) → round count ((task + 1) % count) k ≡ round count task (suc k)
round_next count task k = mod-add-mod (task + 1) count k ∙ ap (λ (t : ℕ). t % count) (omega arith)

-- what is known of the first slot, and of those behind it
from_first :
    (l : List Task) (count task : ℕ) (P : ℕ → Type 0)
    → is_done (slot l (round count task 1)).state ≡ true
    → ((k : ℕ) → 0 < k → P k → is_done (slot l (round count (round count task 1) k)).state ≡ true)
    → (k : ℕ) → 0 < k
    → ((j : ℕ) → k ≡ suc j → 0 < j → P j)
    → is_done (slot l (round count task k)).state ≡ true
from_first l count task P first rest zero p c = absurd (omega arith)
from_first l count task P first rest (suc zero) p c = first
from_first l count task P first rest (suc (suc j)) p c =
    ap (λ (t : ℕ). is_done (slot l t).state) (sym (round_next count task (suc j)))
    ∙ rest (suc j) (omega arith) (c (suc j) refl (omega arith))

next_loop_lem :
    (n : ℕ) (l : List Task) (count current task : ℕ)
    → IsNext l count task n (next_loop n l count current task)
      ⊎ ((next_loop n l count current task ≡ current) × AllDone l count task n)
unfolding next_loop
next_loop_lem zero l count current task = inr (refl, λ k p q. absurd (omega arith))
next_loop_lem (suc n) l count current task =
    elim (Bool-cases (is_done (slot l ((task + 1) % count)).state)) [
      | inr e ↦ rw e (
          inl (record {
            steps = 1;
            forward = omega arith;
            bounded = omega arith;
            reached = refl;
            alive = e;
            passed = λ k p q. absurd (omega arith);
          }))
      | inl e ↦ rw e (elim (next_loop_lem n l count current ((task + 1) % count)) [
        | inl i ↦ inl (record {
          steps = suc i.steps;
          forward = omega arith;
          bounded = omega (arith, i.bounded);
          reached = i.reached ∙ round_next count task i.steps;
          alive = i.alive;
          passed = λ k p q.
              from_first l count task (λ j. j < i.steps) e i.passed k p (λ j f g. omega arith);
        })
        | inr (r, d) ↦
            inr (r, λ k p q. from_first l count task (λ j. j ≤ n) e d k p (λ j f g. omega arith))
      ])
    ]

-- each slot of the table is at most `count` steps round
pub steps_to :
    (count current j : ℕ)
    → current < count
    → j < count
    → (k : ℕ) × (0 < k) × (k ≤ count) × (round count current k ≡ j)
steps_to count current j c p = elim (dec_le j current) [
  | yes back ↦ (j + count - current, omega arith, omega arith, around (omega arith))
  | no front ↦ (j - current, omega arith, omega arith, straight (omega arith))
]
  where
    straight : current + (j - current) ≡ j → (current + (j - current)) % count ≡ j
    straight e = rw e (mod-eq_of_lt p)

    around :
        current + (j + count - current) ≡ j + count → (current + (j + count - current)) % count ≡ j
    around e = rw e (add-mod_right j count ∙ mod-eq_of_lt p)

-- `get_next_task` on a table with a current task gives the first task in cyclic order behind the
-- current one, itself the last, that is not done; if all tasks are done, it gives the current one.
pub get_next_task_lem :
    (s : Scheduler)
    → s.current_task < s.task_count
    → IsNext s.task_list s.task_count s.current_task s.task_count (get_next_task s)
      ⊎ ((get_next_task s ≡ s.current_task)
          × ((j : ℕ) → j < s.task_count → is_done (slot s.task_list j).state ≡ true))
unfolding get_next_task
get_next_task_lem s c =
    elim (next_loop_lem s.task_count s.task_list s.task_count s.current_task s.current_task) [
      | inl i ↦ inl i
      | inr (r, d) ↦ inr (
        r,
        λ j p.
            let (k, f, b, e) = steps_to s.task_count s.current_task j c p in
            ap (λ (t : ℕ). is_done (slot s.task_list t).state) (sym e) ∙ d k f b,
      )
    ]

pub get_next_task-lt :
    (s : Scheduler) → s.current_task < s.task_count → get_next_task s < s.task_count
get_next_task-lt s c = elim (get_next_task_lem s c) [
  | inl i ↦ omega (arith, i.reached, mod-lt (s.current_task + i.steps) (zero_lt c))
  | inr (r, d) ↦ omega arith
]
  where
    zero_lt : {a b : ℕ} → a < b → 0 < b
    zero_lt h = omega arith
