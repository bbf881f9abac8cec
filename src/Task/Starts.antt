-- ===== src/Task/Starts.antt =====
-- The stacks of a list of tasks by their addresses alone, which no operation on a task changes.
use mathlib.Core.Path.{subst}
use doomkernel.Prelude.{ℕ, zero, suc, ◌≡◌, ◌≢◌, refl, sym, ap, List, [], ◌∷◌, map, take, set}
use doomkernel.Alloc.Block.{Block}
use doomkernel.Task.{Task, slot}
use doomkernel.Task.Roster.{renumber}
use doomkernel.Task.Stacks.{Apart, StackAt, HaveStacks}

abbrev pub starts : List Task → List ℕ
starts ts = map (λ t. t.stack_start) ts

abbrev pub NotIn : ℕ → List ℕ → Type 0
NotIn q [] = Unit
NotIn q (p ∷ ps) = (q ≢ p) × NotIn q ps

abbrev pub StacksAt : ℕ → List Block → List ℕ → Type 0
StacksAt a bs [] = Unit
StacksAt a bs (p ∷ ps) = StackAt p a bs × NotIn p ps × StacksAt a bs ps

NotIn-starts : (q : ℕ) (ts : List Task) → Apart q ts → NotIn q (starts ts)
NotIn-starts q [] h = tt
NotIn-starts q (t ∷ ts) (ne, h) = (ne, NotIn-starts q ts h)

Apart-starts : (q : ℕ) (ts : List Task) → NotIn q (starts ts) → Apart q ts
Apart-starts q [] h = tt
Apart-starts q (t ∷ ts) (ne, h) = (ne, Apart-starts q ts h)

StacksAt-starts :
    (a : ℕ) (bs : List Block) (ts : List Task) → HaveStacks a bs ts → StacksAt a bs (starts ts)
StacksAt-starts a bs [] h = tt
StacksAt-starts a bs (t ∷ ts) (at, apart, h) =
    (at, NotIn-starts t.stack_start ts apart, StacksAt-starts a bs ts h)

HaveStacks-starts :
    (a : ℕ) (bs : List Block) (ts : List Task) → StacksAt a bs (starts ts) → HaveStacks a bs ts
HaveStacks-starts a bs [] h = tt
HaveStacks-starts a bs (t ∷ ts) (at, apart, h) =
    (at, Apart-starts t.stack_start ts apart, HaveStacks-starts a bs ts h)

-- Tasks at the same addresses have the same stacks.
pub HaveStacks-same :
    (a : ℕ) (bs : List Block) (ts us : List Task)
    → starts ts ≡ starts us
    → HaveStacks a bs ts
    → HaveStacks a bs us
HaveStacks-same a bs ts us e h =
    HaveStacks-starts a bs us (subst (StacksAt a bs) e (StacksAt-starts a bs ts h))

pub starts-renumber : (i : ℕ) (ts : List Task) → starts (renumber i ts) ≡ starts ts
starts-renumber i [] = refl
starts-renumber i (t ∷ ts) = ap (λ (ps : List ℕ). t.stack_start ∷ ps) (starts-renumber (suc i) ts)

pub starts-set :
    (n : ℕ) (l : List Task) (i : ℕ) (t : Task)
    → t.stack_start ≡ (slot l i).stack_start
    → starts (take n l) ≡ starts (take n (set l i t))
starts-set n [] i t e = refl
starts-set zero (x ∷ l) i t e = refl
starts-set (suc n) (x ∷ l) zero t e = ap (λ (p : ℕ). p ∷ starts (take n l)) (sym e)
starts-set (suc n) (x ∷ l) (suc i) t e =
    ap (λ (ps : List ℕ). x.stack_start ∷ ps) (starts-set n l i t e)
