-- ===== src/Task/Roster.antt =====
-- Lists of tasks: who is left when those that are done are removed, with which numbers, and what
-- `shift_task_list_down` does to such a list.
use mathlib.Core.List.{append_assoc}
use doomkernel.Prelude.{
  ℕ, zero, suc, ◌+◌, ◌≤◌, ◌≡◌, refl, sym, ap, ◌∙◌, false, Bool-cases, List, [], ◌∷◌, ◌++◌, arith,
  length, inl, inr, length-append, set, if◌then◌else◌,
}
use doomkernel.Task.{Task, slot, is_done, shift_loop}

abbrev pub numbered : ℕ → Task → Task
numbered i t = record t { id = i }

abbrev pub renumber : ℕ → List Task → List Task
renumber i [] = []
renumber i (t ∷ ts) = numbered i t ∷ renumber (suc i) ts

abbrev pub alive : List Task → List Task
alive [] = []
alive (t ∷ ts) = if is_done t.state then alive ts else t ∷ alive ts

-- how many of the first `c` tasks are alive
abbrev pub rank : ℕ → List Task → ℕ
rank zero ts = 0
rank (suc c) [] = 0
rank (suc c) (t ∷ ts) = if is_done t.state then rank c ts else suc (rank c ts)

pub length-renumber : (i : ℕ) (ts : List Task) → length (renumber i ts) ≡ length ts
length-renumber i [] = refl
length-renumber i (t ∷ ts) = ap suc (length-renumber (suc i) ts)

pub renumber-renumber : (i j : ℕ) (ts : List Task) → renumber i (renumber j ts) ≡ renumber i ts
renumber-renumber i j [] = refl
renumber-renumber i j (t ∷ ts) =
    ap (λ (l : List Task). numbered i t ∷ l) (renumber-renumber (suc i) (suc j) ts)

pub renumber-alive :
    (i j : ℕ) (ts : List Task) → renumber i (alive (renumber j ts)) ≡ renumber i (alive ts)
renumber-alive i j [] = refl
renumber-alive i j (t ∷ ts) = elim (Bool-cases (is_done t.state)) [
  | inl e ↦ rw e (renumber-alive i (suc j) ts)
  | inr e ↦ rw e (ap (λ (l : List Task). numbered i t ∷ l) (renumber-alive (suc i) (suc j) ts))
]

pub length-alive_renumber :
    (i : ℕ) (ts : List Task) → length (alive (renumber i ts)) ≡ length (alive ts)
length-alive_renumber i ts =
    sym (length-renumber 0 (alive (renumber i ts)))
    ∙ ap length (renumber-alive 0 i ts)
    ∙ length-renumber 0 (alive ts)

pub rank-renumber : (c i : ℕ) (ts : List Task) → rank c (renumber i ts) ≡ rank c ts
rank-renumber zero i ts = refl
rank-renumber (suc c) i [] = refl
rank-renumber (suc c) i (t ∷ ts) = elim (Bool-cases (is_done t.state)) [
  | inl e ↦ rw e (rank-renumber c (suc i) ts)
  | inr e ↦ rw e (ap suc (rank-renumber c (suc i) ts))
]

-- no task of the list is done
abbrev pub AllAlive : List Task → Type 0
AllAlive [] = Unit
AllAlive (t ∷ ts) = (is_done t.state ≡ false) × AllAlive ts

pub AllAlive-snoc :
    (ts : List Task) (t : Task) → AllAlive ts → is_done t.state ≡ false → AllAlive (ts ++ t ∷ [])
AllAlive-snoc [] t a e = (e, tt)
AllAlive-snoc (x ∷ ts) t (d, a) e = (d, AllAlive-snoc ts t a e)

pub rank-front :
    (c : ℕ) (pre ts : List Task) → AllAlive pre → c ≤ length pre → rank c (pre ++ ts) ≡ c
rank-front zero pre ts a h = refl
rank-front (suc c) [] ts a h = absurd (omega arith)
rank-front (suc c) (x ∷ pre) ts (d, a) h = rw d (ap suc (rank-front c pre ts a (omega arith)))

pub rank-back :
    (k : ℕ) (pre ts : List Task)
    → AllAlive pre
    → rank (length pre + k) (pre ++ ts) ≡ length pre + rank k ts
rank-back k [] ts a =
    let z : 0 + k ≡ k = omega arith in
    let w : 0 + rank k ts ≡ rank k ts = omega arith in rw (z, w) refl
rank-back k (x ∷ pre) ts (d, a) =
    let n : length (x ∷ pre) + k ≡ suc (length pre + k) = omega arith in
    rw n (rw d (omega (arith, rank-back k pre ts a)))

-- the last of a list, or `x`
abbrev pub last_of : Task → List Task → Task
last_of x [] = x
last_of x (y ∷ ys) = last_of y ys

pub slot-append :
    (pre : List Task) (x : Task) (ts : List Task) → slot (pre ++ x ∷ ts) (length pre) ≡ x
slot-append [] x ts = refl
slot-append (p ∷ pre) x ts = slot-append pre x ts

slot-append_next :
    (pre : List Task) (x y : Task) (ts : List Task)
    → slot (pre ++ x ∷ y ∷ ts) (suc (length pre)) ≡ y
slot-append_next [] x y ts = refl
slot-append_next (p ∷ pre) x y ts = slot-append_next pre x y ts

set-append :
    (pre : List Task) (x y : Task) (ts : List Task)
    → set (pre ++ x ∷ ts) (length pre) y ≡ pre ++ y ∷ ts
set-append [] x y ts = refl
set-append (p ∷ pre) x y ts = ap (λ (l : List Task). p ∷ l) (set-append pre x y ts)

shift_step :
    (n current : ℕ) (l : List Task) {next : ℕ} {t : Task} {l' : List Task}
    → current + 1 ≡ next
    → slot l next ≡ t
    → set l current (numbered current t) ≡ l'
    → shift_loop (suc n) current l ≡ shift_loop n next l'
unfolding shift_loop
shift_step n current l e f g = rw (e, f, g) refl

-- `shift_task_list_down` closes the gap: those behind move down by one with new ids; the last slot
-- keeps what it held.
pub shift_loop_lem :
    (post pre : List Task) (x : Task) (rest : List Task)
    → shift_loop (length post) (length pre) (pre ++ x ∷ (post ++ rest))
      ≡ pre ++ (renumber (length pre) post ++ last_of x post ∷ rest)
unfolding shift_loop
shift_loop_lem [] pre x rest = refl
shift_loop_lem (y ∷ post) pre x rest =
    let y' = numbered (length pre) y in
    let n : length pre + 1 ≡ suc (length pre) = omega arith in
    let size : length (pre ++ y' ∷ []) ≡ suc (length pre) =
      omega (arith, length-append pre (y' ∷ [])) in
    let back = last_of y post ∷ rest in
    shift_step (length post) (length pre) (pre ++ x ∷ y ∷ (post ++ rest)) n
      (slot-append_next pre x y (post ++ rest)) (set-append pre x y' (y ∷ (post ++ rest)))
    ∙ (ap (shift_loop (length post) (suc (length pre)))
          (sym (append_assoc pre (y' ∷ []) (y ∷ (post ++ rest))))
        ∙ ap (λ (k : ℕ). shift_loop (length post) k ((pre ++ y' ∷ []) ++ y ∷ (post ++ rest)))
            (sym size)
        ∙ shift_loop_lem post (pre ++ y' ∷ []) y rest
        ∙ ap (λ (k : ℕ). (pre ++ y' ∷ []) ++ (renumber k post ++ back)) size
        ∙ append_assoc pre (y' ∷ []) (renumber (suc (length pre)) post ++ back))
