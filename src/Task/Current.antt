-- ===== src/Task/Current.antt =====
-- `current_task` when tasks before it or it itself are removed.
use doomkernel.Prelude.{
  ℕ, suc, ◌+◌, ◌-◌, ◌≤◌, ◌<◌, ◌≡◌, refl, sym, ap, ◌∙◌, inl, inr, true, false, Bool-cases, List, [],
  ◌∷◌, ◌++◌, arith, length, if◌then◌else◌, ltb, leb, dec_lt, dec_le,
}
use doomkernel.Task.{Task, is_done, moved_current}
use doomkernel.Task.Roster.{renumber, alive, rank, AllAlive, rank-renumber, rank-front, rank-back}

-- 0 for an index past the end
abbrev pub clip : ℕ → ℕ → ℕ
clip i n = if ltb i n then i else 0

clip-in : (i n : ℕ) → i < n → clip i n ≡ i
clip-in i n h = ground arith

clip-out : (i n : ℕ) → n ≤ i → clip i n ≡ 0
clip-out i n h = ground arith

clip-zero : (n : ℕ) → clip 0 n ≡ 0
clip-zero n = ground arith

pub clip-within : (c n : ℕ) → c ≤ n - 1 → c ≡ clip c n
clip-within c n h = ground arith

pub clip-in_range : (i n : ℕ) → clip i n ≤ n - 1
clip-in_range i n = ground arith

pub length-alive : (ts : List Task) → length (alive ts) ≤ length ts
length-alive [] = omega arith
length-alive (t ∷ ts) = elim (Bool-cases (is_done t.state)) [
  | inl d ↦ rw d (omega (arith, length-alive ts))
  | inr d ↦ rw d (omega (arith, length-alive ts))
]

-- where the running task is after the one at `length pre` is gone
pub moved_current_lem :
    (pre : List Task) (x : Task) (ms : List Task) (i c n : ℕ)
    → AllAlive pre
    → is_done x.state ≡ true
    → c ≤ length pre + suc (length ms) - 1
    → n ≡ length pre + length (alive ms)
    → clip
        (rank
          (moved_current c (length pre) (length pre + suc (length ms) - 1))
          (pre ++ renumber i ms))
        n
      ≡ clip (rank c (pre ++ x ∷ ms)) n
unfolding moved_current
moved_current_lem pre x ms i c n a d h e = elim (dec_lt (length pre) c) [
  | yes behind ↦
      let k = c - 1 - length pre in
      let t : ltb (length pre) c ≡ true = ground arith in
      let c1 : c ≡ length pre + suc k = omega arith in
      let c2 : c - 1 ≡ length pre + k = omega arith in
      ap (λ (r : ℕ). clip r n)
        (simp t (
          ap (λ (j : ℕ). rank j (pre ++ renumber i ms)) c2
          ∙ rank-back k pre (renumber i ms) a
          ∙ ap (λ (r : ℕ). length pre + r) (rank-renumber k i ms ∙ sym (removed k))
          ∙ sym (rank-back (suc k) pre (x ∷ ms) a)
          ∙ ap (λ (j : ℕ). rank j (pre ++ x ∷ ms)) (sym c1)))
  | no before ↦
      let t : ltb (length pre) c ≡ false = ground arith in
      elim (dec_le (length pre + suc (length ms) - 1) c) [
        | yes last ↦
            let u : leb (length pre + suc (length ms) - 1) c ≡ true = ground arith in
            let all : length pre ≡ c = omega arith in
            let none_left : n ≡ c = omega (arith, length-alive ms) in
            simp (t, u) (clip-zero n)
            ∙ sym (clip-out c n (omega arith))
            ∙ ap (λ (r : ℕ). clip r n) (sym (rank-front c pre (x ∷ ms) a (omega arith)))
        | no inner ↦
            let u : leb (length pre + suc (length ms) - 1) c ≡ false = ground arith in
            ap (λ (r : ℕ). clip r n)
              (simp (t, u)
                (rank-front c pre (renumber i ms) a (omega arith)
                  ∙ sym (rank-front c pre (x ∷ ms) a (omega arith))))
      ]
]
  where
    removed : (k : ℕ) → rank (suc k) (x ∷ ms) ≡ rank k ms
    removed k = rw d refl

pub moved_current_in : (c i n : ℕ) → i < n → c ≤ n - 1 → moved_current c i (n - 1) ≤ n - 1 - 1
unfolding moved_current
moved_current_in c i n p h = ground arith
