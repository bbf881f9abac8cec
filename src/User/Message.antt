-- ===== src/User/Message.antt =====
-- The message of the user program in memory.
use mathlib.Core.Path.{subst}
use doomkernel.Prelude.{
  ℕ, zero, suc, ◌+◌, ◌<◌, ◌≡◌, refl, ap, ◌∙◌, List, [], ◌∷◌, length, set, arith, Bool, true, ◌&&◌,
  ltb,
}
use doomkernel.Memory.{Memory, store8}
use doomkernel.Memory.Laws.{store8_ne, load8_same, load8-store8}
use doomkernel.Fs.Image.{Held}
use doomkernel.Syscall.Screen.{bytes_at}
use doomkernel.User.{store_all}

pub bytes_at-Held : (m : Memory) (a : ℕ) (xs : List ℕ) → Held m a xs → bytes_at (length xs) m a ≡ xs
unfolding bytes_at
bytes_at-Held m a [] h = refl
bytes_at-Held m a (x ∷ xs) (e, h) =
    ap (λ (c : ℕ). c ∷ bytes_at (length xs) m (a + 1)) e
    ∙ ap (λ (cs : List ℕ). x ∷ cs) (bytes_at-Held m (a + 1) xs h)

-- A store below the bytes leaves them.
Held-below : (m : Memory) (a b v : ℕ) (xs : List ℕ) → b < a → Held m a xs → Held (store8 m b v) a xs
Held-below m a b v [] p h = tt
Held-below m a b v (x ∷ xs) p (e, h) = (
  load8_same m (store8 m b v) a (store8_ne m b v a (λ q. absurd (omega (arith, p, q)))) ∙ e,
  Held-below m (a + 1) b v xs (omega arith) h,
)

-- A store of one of the bytes.
pub Held-set :
    (m : Memory) (a i v : ℕ) (xs : List ℕ)
    → i < length xs
    → v < 256
    → Held m a xs
    → Held (store8 m (a + i) v) a (set xs i v)
Held-set m a i v [] p w h = absurd (omega arith)
Held-set m a zero v (x ∷ xs) p w (e, h) =
    let at : a ≡ a + 0 = omega arith in
    subst (λ (b : ℕ). Held (store8 m b v) a (v ∷ xs)) at
      (load8-store8 m a v ∙ omega arith, Held-below m (a + 1) a v xs (omega arith) h)
Held-set m a (suc i) v (x ∷ xs) p w (e, h) =
    let at : a + 1 + i ≡ a + suc i = omega arith in
    (
      load8_same m (store8 m (a + suc i) v) a
            (store8_ne m (a + suc i) v a (λ q. absurd (omega (arith, q))))
          ∙ e,
      subst (λ (b : ℕ). Held (store8 m b v) (a + 1) (set xs i v)) at
          (Held-set m (a + 1) i v xs (omega arith) w h),
    )

abbrev pub AllBytes : List ℕ → Type 0
AllBytes [] = Unit
AllBytes (x ∷ xs) = (x < 256) × AllBytes xs

-- the same as a test, which a literal passes by evaluation
abbrev pub all_bytes : List ℕ → Bool
all_bytes [] = true
all_bytes (x ∷ xs) = ltb x 256 && all_bytes xs

pub all_bytes-AllBytes : (xs : List ℕ) → all_bytes xs ≡ true → AllBytes xs
all_bytes-AllBytes [] e = tt
all_bytes-AllBytes (x ∷ xs) e = (ground (arith, e), all_bytes-AllBytes xs (ground (arith, e)))

store_all-below : (m : Memory) (a : ℕ) (xs : List ℕ) (b : ℕ) → b < a → store_all m a xs b ≡ m b
unfolding store_all
store_all-below m a [] b p = refl
store_all-below m a (x ∷ xs) b p =
    store_all-below (store8 m a x) (a + 1) xs b (omega arith)
    ∙ store8_ne m a x b (λ q. absurd (omega (arith, p, q)))

pub Held-store_all : (m : Memory) (a : ℕ) (xs : List ℕ) → AllBytes xs → Held (store_all m a xs) a xs
unfolding store_all
Held-store_all m a [] h = tt
Held-store_all m a (x ∷ xs) (w, h) = (
  load8_same (store8 m a x) (store_all (store8 m a x) (a + 1) xs) a
        (store_all-below (store8 m a x) (a + 1) xs a (omega arith))
      ∙ load8-store8 m a x
      ∙ omega arith,
  Held-store_all (store8 m a x) (a + 1) xs h,
)
