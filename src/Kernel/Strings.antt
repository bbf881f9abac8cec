-- ===== src/Kernel/Strings.antt =====
-- C strings and arrays in memory.
use doomkernel.Prelude.{
  ℕ, zero, suc, ◌+◌, ◌≤◌, ◌<◌, ◌≡◌, ◌≢◌, ◌⊎◌, refl, ap, ◌∙◌, true, false, Bool, not, ◌&&◌, Option,
  some, List, [], ◌∷◌, ◌++◌, ◌==◌, length, ◌>>=◌, arith,
}
use doomkernel.Memory.{Memory, load8, store8}
use doomkernel.Memory.Laws.{store8_ne, load8_same}
use doomkernel.Fs.Image.{Held}
use doomkernel.User.{store_all}
use doomkernel.Kernel.{c_string}

abbrev pub NonZero : List ℕ → Type 0
NonZero [] = Unit
NonZero (x ∷ xs) = (x ≢ 0) × NonZero xs

-- the same as a test, which a literal passes by evaluation
abbrev pub non_zero : List ℕ → Bool
non_zero [] = true
non_zero (x ∷ xs) = not (x == 0) && non_zero xs

pub non_zero-NonZero : (xs : List ℕ) → non_zero xs ≡ true → NonZero xs
non_zero-NonZero [] e = tt
non_zero-NonZero (x ∷ xs) e = (ground (arith, e), non_zero-NonZero xs (ground (arith, e)))

-- A string with its NUL is read back.
pub c_string-Held :
    (n : ℕ) (m : Memory) (a : ℕ) (xs rest : List ℕ)
    → length xs < n
    → NonZero xs
    → Held m a (xs ++ 0 ∷ rest)
    → c_string n m a ≡ some xs
unfolding c_string
c_string-Held zero m a xs rest l nz h = absurd (omega arith)
c_string-Held (suc n) m a [] rest l nz (e, h) =
    let ends : (load8 m a == 0) ≡ true = ground (arith, e) in rw ends refl
c_string-Held (suc n) m a (x ∷ xs) rest l (ne, nz) (e, h) =
    let goes : (load8 m a == 0) ≡ false = ground (arith, e, ne) in
    rw goes (
      ap (λ (o : Option (List ℕ)). o >>= λ s. some (load8 m a ∷ s))
        (c_string-Held n m (a + 1) xs rest (omega arith) nz h)
      ∙ ap (λ (c : ℕ). some (c ∷ xs)) e)

pub store_all-other :
    (m : Memory) (a : ℕ) (xs : List ℕ) (b : ℕ)
    → (b < a) ⊎ (a + length xs ≤ b)
    → store_all m a xs b ≡ m b
unfolding store_all
store_all-other m a [] b out = refl
store_all-other m a (x ∷ xs) b out =
    store_all-other (store8 m a x) (a + 1) xs b (omega arith)
    ∙ store8_ne m a x b (λ q. absurd (omega (arith, out, q)))

-- Bytes apart from an array stay when the array is set.
pub Held-apart :
    (m : Memory) (a : ℕ) (xs ys : List ℕ) (b : ℕ)
    → (b + length ys ≤ a) ⊎ (a + length xs ≤ b)
    → Held m b ys
    → Held (store_all m a xs) b ys
Held-apart m a xs [] b out h = tt
Held-apart m a xs (y ∷ ys) b out (e, h) = (
  load8_same m (store_all m a xs) b (store_all-other m a xs b (omega arith)) ∙ e,
  Held-apart m a xs ys (b + 1) (omega arith) h,
)
