-- ===== src/Alloc/Walk.antt =====
-- The walk of `malloc` and `calloc` over a chain finds the first block that fits, and ends.
use doomkernel.Prelude.{ℕ, zero, suc, ◌+◌, ◌^◌, ◌<◌, ◌≡◌, Option, none, some, List, [], ◌∷◌, arith}
use doomkernel.Memory.{Memory}
use doomkernel.Alloc.{next_block, Stop, found, new_alloc, walk}
use doomkernel.Alloc.Block.{Block, total, first_fit}
use doomkernel.Alloc.Header.{Header, Chain}

abbrev pub stop_at : ℕ → Option ℕ → Stop
stop_at last none = new_alloc last
stop_at last (some a) = found a

next_block_lem :
    (m : Memory) {a : ℕ} {b : Block}
    → Header m a b
    → a + 16 + b.size < 2 ^ 64
    → next_block m a ≡ a + 16 + b.size
unfolding next_block
next_block_lem m h p = omega (arith, h.size_is)

pub walk_lem :
    (fuel : ℕ) (m : Memory) (n a last : ℕ) (bs : List Block)
    → Chain m a bs
    → last ≡ a + total bs
    → last < 2 ^ 64
    → last < fuel + a
    → walk fuel m last n a ≡ some (stop_at last (first_fit n a bs))
unfolding walk
walk_lem zero m n a last bs c e p q = absurd (omega arith)
walk_lem (suc fuel) m n a last [] c e p q = ground arith
walk_lem (suc fuel) m n a last (b ∷ bs) (h, c) e p q = ground (
  arith,
  h.status_is,
  h.size_is,
  h.size_pos,
  next_block_lem m h (omega arith),
  walk_lem fuel m n (a + 16 + b.size) last bs c (omega arith) p (omega arith),
)
