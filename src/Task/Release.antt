-- ===== src/Task/Release.antt =====
-- The stacks of the tasks that are done go back to the heap.
use doomkernel.Prelude.{
  ℕ, suc, ◌≡◌, refl, inl, inr, true, Bool-cases, Option, none, some, List, [], ◌∷◌, if◌then◌else◌,
}
use doomkernel.Alloc.{Heap, free}
use doomkernel.Task.{Task, is_done}
use doomkernel.Task.Roster.{renumber}

-- the stacks of the tasks that are done, freed in the order of the table
abbrev pub free_all : Heap → List Task → Option Heap
free_all h [] = some h
free_all h (t ∷ ts) =
    let freed : Option Heap = elim (free h t.stack_start) [
      | none ↦ none
      | some g ↦ free_all g ts
    ] in
    if is_done t.state then freed else free_all h ts

pub free_all-done :
    (h : Heap) (t : Task) (ts : List Task) {g : Heap}
    → is_done t.state ≡ true
    → free_all h (t ∷ ts) ≡ some g
    → (f : Heap) × (free h t.stack_start ≡ some f) × (free_all f ts ≡ some g)
free_all-done h t ts {g} d e = go (free h t.stack_start) refl (simp d at e)
  where
    go :
        (o : Option Heap)
        → free h t.stack_start ≡ o
        → (elim o [ none ↦ none | some f ↦ free_all f ts ]) ≡ some g
        → (f : Heap) × (free h t.stack_start ≡ some f) × (free_all f ts ≡ some g)
    go none q r = absurd (cc)
    go (some f) q r = (f, q, r)

pub free_all-renumber :
    (ts : List Task) (h : Heap) (i : ℕ) → free_all h (renumber i ts) ≡ free_all h ts
free_all-renumber [] h i = refl
free_all-renumber (t ∷ ts) h i = elim (Bool-cases (is_done t.state)) [
  | inl d ↦ rw d (go (λ g. free_all-renumber ts g (suc i)) (free h t.stack_start))
  | inr d ↦ rw d (free_all-renumber ts h (suc i))
]
  where
    go :
        ((g : Heap) → free_all g (renumber (suc i) ts) ≡ free_all g ts)
        → (o : Option Heap)
        → (elim o [ none ↦ none | some g ↦ free_all g (renumber (suc i) ts) ])
          ≡ (elim o [ none ↦ none | some g ↦ free_all g ts ])
    go rec none = refl
    go rec (some g) = rec g
