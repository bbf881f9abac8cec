-- ===== src/Alloc/Header.antt =====
-- Headers and chains of blocks in the memory, and the stores that keep them.
use doomkernel.Prelude.{
  ℕ, ◌+◌, ◌%◌, ◌^◌, ◌≤◌, ◌<◌, ◌≡◌, ◌⊎◌, ◌∙◌, Bool, true, false, List, [], ◌∷◌, ◌++◌, arith,
}
use native.Mathlib.Nat.{mod-eq_of_lt}
use doomkernel.Memory.{Memory, store_le}
use doomkernel.Memory.Laws.{
  SameOn, load8_same, load8-store8, store8_ne, store_le_outside, load_le_same, load_le-store_le,
}
use doomkernel.Alloc.{status, size, set_status, set_size}
use doomkernel.Alloc.Block.{Block, total}

abbrev pub flag : Bool → ℕ
flag true = 1
flag false = 0

-- The memory holds the header of `b` at `a`; sizes are positive multiples of 16.
pub record Header (m : Memory) (a : ℕ) (b : Block) : Type 0 where
  pub status_is : status m a ≡ flag b.used
  pub size_is : size m a ≡ b.size
  pub size_pos : 0 < b.size
  pub size_aligned : b.size % 16 ≡ 0

-- From `a` on the memory holds the blocks of the list, one behind the other.
abbrev pub Chain : Memory → ℕ → List Block → Type 0
Chain m a [] = Unit {0}
Chain m a (b ∷ bs) = Header m a b × Chain m (a + 16 + b.size) bs

pub Header-same :
    {m g : Memory} {a : ℕ} {b : Block} → SameOn a (a + 16) m g → Header m a b → Header g a b
unfolding status size
Header-same {m} {g} {a} s h = record {
  status_is = load8_same m g a (s a (omega arith) (omega arith)) ∙ h.status_is;
  size_is = load_le_same 8 (a + 8) (λ b p q. s b (omega arith) (omega arith)) ∙ h.size_is;
  size_pos = h.size_pos;
  size_aligned = h.size_aligned;
}

-- A chain survives any change above it and below it.
pub Chain-same :
    (a : ℕ) (bs : List Block) {m g : Memory}
    → SameOn a (a + total bs) m g
    → Chain m a bs
    → Chain g a bs
Chain-same a [] s c = tt
Chain-same a (b ∷ bs) s (h, c) = (
  Header-same (λ x p q. s x (omega arith) (omega arith)) h,
  Chain-same (a + 16 + b.size) bs (λ x p q. s x (omega arith) (omega arith)) c,
)

pub Chain-append :
    (m : Memory) (a : ℕ) (xs ys : List Block)
    → Chain m a xs
    → Chain m (a + total xs) ys
    → Chain m a (xs ++ ys)
Chain-append m a [] ys c d = let e : a + 0 ≡ a = omega arith in rw e at d
Chain-append m a (x ∷ xs) ys (h, c) d =
    let e : a + (16 + x.size + total xs) ≡ a + 16 + x.size + total xs = omega arith in
    (h, Chain-append m (a + 16 + x.size) xs ys c (rw e at d))

-- what the two header stores write, read back, and leave alone
module _ (m : Memory) (a v : ℕ) where
  pub status-set_status : v < 256 → status (set_status m a v) a ≡ v
  unfolding status set_status
  status-set_status h = load8-store8 m a v ∙ mod-eq_of_lt h

  pub size-set_status : size (set_status m a v) a ≡ size m a
  unfolding size set_status
  size-set_status = load_le_same 8 (a + 8) (λ b p q. store8_ne m a v b (omega arith))

  pub status-set_size : status (set_size m a v) a ≡ status m a
  unfolding status set_size
  status-set_size =
      load8_same m (store_le 8 m (a + 8) v) a (store_le_outside 8 m (a + 8) v a (omega arith))

  pub size-set_size : v < 2 ^ 64 → size (set_size m a v) a ≡ v
  unfolding size set_size
  size-set_size h = load_le-store_le 8 m (a + 8) v ∙ mod-eq_of_lt (omega arith)

  pub set_status_outside : (b : ℕ) → (b < a) ⊎ (a + 16 ≤ b) → set_status m a v b ≡ m b
  unfolding set_status
  set_status_outside b h = store8_ne m a v b (omega arith)

  pub set_size_outside : (b : ℕ) → (b < a) ⊎ (a + 16 ≤ b) → set_size m a v b ≡ m b
  unfolding set_size
  set_size_outside b h = store_le_outside 8 m (a + 8) v b (omega arith)

-- Both fields written at `a` make a header there.
pub Header-write :
    {m : Memory} {a : ℕ} {b : Block}
    → status m a ≡ flag b.used
    → size m a ≡ b.size
    → 0 < b.size
    → b.size % 16 ≡ 0
    → Header m a b
Header-write p q r s = record { status_is = p; size_is = q; size_pos = r; size_aligned = s }
