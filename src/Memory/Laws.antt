-- ===== src/Memory/Laws.antt =====
-- Loads after stores, and what a store leaves alone.
use doomkernel.Prelude.{
  ℕ, zero, suc, ◌+◌, ◌*◌, ◌/◌, ◌%◌, ◌^◌, ◌≤◌, ◌<◌, ◌≡◌, ◌≢◌, ◌⊎◌, inl, refl, ap, ◌∙◌, arith,
}
use native.Mathlib.Nat.{mod_def, div-div-eq-div-mul, div-add-mod, pow-succ'}
use doomkernel.Memory.{Memory, load8, store8, load_le, store_le}

-- `g` agrees with `m` on the addresses from `lo` up to `hi`
abbrev pub SameOn : ℕ → ℕ → Memory → Memory → Type 0
SameOn lo hi m g = (b : ℕ) → lo ≤ b → b < hi → g b ≡ m b

pub SameOn-refl : (lo hi : ℕ) (m : Memory) → SameOn lo hi m m
SameOn-refl lo hi m = λ b p q. refl

pub SameOn-trans :
    {lo hi : ℕ} {m g k : Memory} → SameOn lo hi m g → SameOn lo hi g k → SameOn lo hi m k
SameOn-trans s t = λ b p q. t b p q ∙ s b p q

pub store8_self : (m : Memory) (a v : ℕ) → store8 m a v a ≡ v % 256
unfolding store8
store8_self m a v = ground arith

pub store8_ne : (m : Memory) (a v b : ℕ) → b ≢ a → store8 m a v b ≡ m b
unfolding store8
store8_ne m a v b h = ground arith

pub load8_same : (m g : Memory) (a : ℕ) → g a ≡ m a → load8 g a ≡ load8 m a
unfolding load8
load8_same m g a e = ap (λ (t : ℕ). t % 256) e

pub load8-lt : (m : Memory) (a : ℕ) → load8 m a < 256
unfolding load8
load8-lt m a = omega arith

pub load8-store8 : (m : Memory) (a v : ℕ) → load8 (store8 m a v) a ≡ v % 256
unfolding load8
load8-store8 m a v = omega (arith, store8_self m a v)

pub store_le_outside :
    (n : ℕ) (m : Memory) (a v b : ℕ) → (b < a) ⊎ (a + n ≤ b) → store_le n m a v b ≡ m b
unfolding store_le
store_le_outside zero m a v b h = refl
store_le_outside (suc n) m a v b h =
    store_le_outside n (store8 m a v) (a + 1) (v / 256) b (omega arith)
    ∙ store8_ne m a v b (omega arith)

pub load_le_same :
    (n : ℕ) {m g : Memory} (a : ℕ) → SameOn a (a + n) m g → load_le n g a ≡ load_le n m a
unfolding load_le
load_le_same zero a s = refl
load_le_same (suc n) {m} {g} a s = omega (
  arith,
  load8_same m g a (s a (omega arith) (omega arith)),
  load_le_same n (a + 1) (λ b p q. s b (omega arith) (omega arith)),
)

-- The digits of a number to base 256: the lowest, and those above it.
mod-base : (p v : ℕ) → v % (256 * p) ≡ v % 256 + 256 * (v / 256 % p)
mod-base p v = omega (
  arith,
  mod_def v (256 * p),
  ap (λ (t : ℕ). p * t) (div-div-eq-div-mul v 256 p),
  div-add-mod (v / 256) p,
)

pub load_le-store_le : (n : ℕ) (m : Memory) (a v : ℕ) → load_le n (store_le n m a v) a ≡ v % 256 ^ n
unfolding load_le store_le
load_le-store_le zero m a v = omega arith
load_le-store_le (suc n) m a v =
    let low = store_le_outside n (store8 m a v) (a + 1) (v / 256) a (inl (omega arith)) in
    let high = load_le-store_le n (store8 m a v) (a + 1) (v / 256) in
    let byte = load8_same (store8 m a v) (store_le n (store8 m a v) (a + 1) (v / 256)) a low in
    rw (byte, high, load8-store8, pow-succ', mod-base)

pub load_le-lt : (n : ℕ) (m : Memory) (a : ℕ) → load_le n m a < 256 ^ n
unfolding load_le
load_le-lt zero m a = omega arith
load_le-lt (suc n) m a = rw pow-succ' (omega (arith, load8-lt m a, load_le-lt n m (a + 1)))
