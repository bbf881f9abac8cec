-- ===== src/Fs/Image.antt =====
-- Bytes of the image in memory.
use mathlib.Core.Path.{ap₂, subst}
use doomkernel.Prelude.{
  ℕ, zero, suc, ◌+◌, ◌-◌, ◌*◌, ◌/◌, ◌%◌, ◌^◌, ◌≤◌, ◌<◌, ◌≡◌, refl, ap, ◌∙◌, List, [], ◌∷◌, ◌++◌,
  arith, length, length-append, get_or, take, replicate, length-take, length-replicate, Bool, true,
  ◌==◌, ◌&&◌,
}
use doomkernel.Memory.{Memory, load8, load_le}
use doomkernel.Fs.{File, bytes_le, name_field, base_name, write_entry, write_entries}

-- the bytes `xs` stand at `a`
abbrev pub Held : Memory → ℕ → List ℕ → Type 0
Held m a [] = Unit
Held m a (x ∷ xs) = (load8 m a ≡ x) × Held m (a + 1) xs

-- the same as a test, which a memory that is given passes by evaluation
abbrev pub holds : Memory → ℕ → List ℕ → Bool
holds m a [] = true
holds m a (x ∷ xs) = (load8 m a == x) && holds m (a + 1) xs

pub holds→Held : (m : Memory) (a : ℕ) (xs : List ℕ) → holds m a xs ≡ true → Held m a xs
holds→Held m a [] h = tt
holds→Held m a (x ∷ xs) h = (ground (arith, h), holds→Held m (a + 1) xs (ground (arith, h)))

pub Held-append :
    (m : Memory) (a : ℕ) (xs ys : List ℕ)
    → Held m a (xs ++ ys)
    → Held m a xs × Held m (a + length xs) ys
Held-append m a [] ys h = (tt, subst (λ (t : ℕ). Held m t ys) (omega arith) h)
Held-append m a (x ∷ xs) ys (e, h) =
    let (f, g) = Held-append m (a + 1) xs ys h in
    ((e, f), subst (λ (t : ℕ). Held m t ys) (omega arith) g)

pub Held-get :
    (m : Memory) (a : ℕ) (xs : List ℕ) (j : ℕ)
    → Held m a xs
    → j < length xs
    → load8 m (a + j) ≡ get_or xs j 0
Held-get m a [] j h p = absurd (omega arith)
Held-get m a (x ∷ xs) zero (e, h) p = ap (load8 m) (omega arith) ∙ e
Held-get m a (x ∷ xs) (suc j) (e, h) p =
    ap (load8 m) (omega arith) ∙ Held-get m (a + 1) xs j h (omega arith)

pub same_lists :
    (xs ys : List ℕ)
    → length xs ≡ length ys
    → ((j : ℕ) → j < length xs → get_or xs j 0 ≡ get_or ys j 0)
    → xs ≡ ys
same_lists [] [] n h = refl
same_lists [] (y ∷ ys) n h = absurd (omega arith)
same_lists (x ∷ xs) [] n h = absurd (omega arith)
same_lists (x ∷ xs) (y ∷ ys) n h =
    ap₂ ◌∷◌ (h 0 (omega arith)) (same_lists xs ys (omega arith) (λ j p. h (suc j) (omega arith)))

pub length-bytes_le : (n v : ℕ) → length (bytes_le n v) ≡ n
unfolding bytes_le
length-bytes_le zero v = refl
length-bytes_le (suc n) v = ap suc (length-bytes_le n (v / 256))

-- the least number that does not fit `n` bytes
abbrev pub limit : ℕ → ℕ
limit zero = 1
limit (suc n) = 256 * limit n

-- A number that was written is read again.
pub load-bytes_le :
    (n : ℕ) (m : Memory) (a v : ℕ) → v < limit n → Held m a (bytes_le n v) → load_le n m a ≡ v
unfolding bytes_le load_le
load-bytes_le zero m a v l h = omega arith
load-bytes_le (suc n) m a v l (e, h) =
    omega (arith, e, load-bytes_le n m (a + 1) (v / 256) (omega arith) h)

pub length-name_field : (path : List ℕ) → length (name_field path) ≡ 32
unfolding name_field
length-name_field path =
    filled (take 31 (base_name path)) (omega (arith, length-take 31 (base_name path)))
  where
    filled : (xs : List ℕ) → length xs ≤ 32 → length (xs ++ replicate (32 - length xs) 0) ≡ 32
    filled xs h = omega (
      arith,
      length-append xs (replicate (32 - length xs) 0),
      length-replicate {A = ℕ} (32 - length xs) 0,
    )

pub length-write_entry : (o : ℕ) (f : File) → length (write_entry o f) ≡ 40
unfolding write_entry
length-write_entry o f = omega (
  arith,
  length-append (name_field f.path) (bytes_le 4 o ++ bytes_le 4 (length f.content % 2 ^ 32)),
  length-append (bytes_le 4 o) (bytes_le 4 (length f.content % 2 ^ 32)),
  length-name_field f.path,
  length-bytes_le 4 o,
  length-bytes_le 4 (length f.content % 2 ^ 32),
)

pub length-write_entries : (o : ℕ) (fs : List File) → length (write_entries o fs) ≡ length fs * 40
unfolding write_entries
length-write_entries o [] = refl
length-write_entries o (f ∷ fs) =
    let o' = (o + length f.content % 2 ^ 32) % 2 ^ 32 in
    omega (
      arith,
      length-append (write_entry o f) (write_entries o' fs),
      length-write_entry o f,
      length-write_entries o' fs,
    )
