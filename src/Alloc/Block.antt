-- ===== src/Alloc/Block.antt =====
-- The abstract heap: a list of blocks, each used or free. What `malloc` and `free` of libc/stdlib
-- promise is stated on it.
use doomkernel.Prelude.{
  ℕ, ◌+◌, ◌-◌, ◌≤◌, ◌≡◌, refl, Bool, true, false, ◌&&◌, not, Option, none, some, List, [], ◌∷◌,
  ◌++◌, arith, ltb, leb, if◌then◌else◌,
}

pub record Block : Type 0 where
  pub used : Bool
  pub size : ℕ

abbrev pub block : Bool → ℕ → Block
block u n = record { used = u; size = n }

-- what a list of blocks takes up, headers included
abbrev pub total : List Block → ℕ
total [] = 0
total (b ∷ bs) = 16 + b.size + total bs

-- what the used blocks take up, which `memory_used` counts
abbrev pub used_bytes : List Block → ℕ
used_bytes [] = 0
used_bytes (b ∷ bs) = (if b.used then 16 + b.size else 0) + used_bytes bs

abbrev pub fits : ℕ → Block → Bool
fits n b = not b.used && leb n b.size

-- the address of the first free block of at least `n` bytes, for a list that starts at `a`
abbrev pub first_fit : ℕ → ℕ → List Block → Option ℕ
first_fit n a [] = none
first_fit n a (b ∷ bs) = if fits n b then some a else first_fit n (a + 16 + b.size) bs

-- a free block taken for `n` bytes: the rest is a block again if it holds a header and a byte
abbrev pub taken_size : ℕ → Block → ℕ
taken_size n b = if ltb 16 (b.size - n) then n else b.size

abbrev pub leftover : ℕ → Block → List Block
leftover n b = if ltb 16 (b.size - n) then block false (b.size - n - 16) ∷ [] else []

abbrev pub carve : ℕ → Block → List Block
carve n b = block true (taken_size n b) ∷ leftover n b

-- the list when the first block that fits has been taken
abbrev pub reserve : ℕ → List Block → List Block
reserve n [] = []
reserve n (b ∷ bs) = if fits n b then carve n b ++ bs else b ∷ reserve n bs

pub total-append : (xs ys : List Block) → total (xs ++ ys) ≡ total xs + total ys
total-append [] ys = omega arith
total-append (x ∷ xs) ys = omega (arith, total-append xs ys)

pub used_bytes-append : (xs ys : List Block) → used_bytes (xs ++ ys) ≡ used_bytes xs + used_bytes ys
used_bytes-append [] ys = omega arith
used_bytes-append (x ∷ xs) ys = omega (arith, used_bytes-append xs ys)

-- the payloads in use, by address and size, of a list that starts at `a`
abbrev pub used_spans : ℕ → List Block → List (ℕ × ℕ)
used_spans a [] = []
used_spans a (b ∷ bs) =
    if b.used
    then (a + 16, b.size) ∷ used_spans (a + 16 + b.size) bs
    else used_spans (a + 16 + b.size) bs

-- What a successful allocation leaves: a block taken from the list, or one more at its end. A
-- null pointer says that neither was possible below `limit`.
pub data Allocation : Type 0 where
  again : ℕ → Allocation
  appended : Allocation
  refused : Allocation

abbrev pub choose : Bool → Option ℕ → Allocation
choose room (some loc) = again loc
choose true none = appended
choose false none = refused

-- the first block that fits, else a new one if the end of the heap stays behind it
abbrev pub decide_allocation : ℕ → ℕ → ℕ → List Block → Allocation
decide_allocation limit n a bs = choose (ltb (a + total bs + n + 16) limit) (first_fit n a bs)

-- the pointer and the list of blocks that `malloc` of `n` aligned bytes gives
abbrev pub pointer : ℕ → List Block → Allocation → ℕ
pointer a bs (again loc) = loc + 16
pointer a bs appended = a + total bs + 16
pointer a bs refused = 0

abbrev pub blocks_after : ℕ → List Block → Allocation → List Block
blocks_after n bs (again loc) = reserve n bs
blocks_after n bs appended = bs ++ block true n ∷ []
blocks_after n bs refused = bs

pub total-carve : (n : ℕ) (b : Block) → n ≤ b.size → total (carve n b) ≡ 16 + b.size
total-carve n b h = ground arith

pub total-reserve : (n : ℕ) (bs : List Block) → total (reserve n bs) ≡ total bs
total-reserve n [] = refl
total-reserve n (b ∷ bs) =
    ground (arith, total-append (carve n b) bs, total-carve n b, total-reserve n bs)

-- An address that `first_fit` gives is that of a block of the list with its header.
pub first_fit_bounds :
    (n a : ℕ) (bs : List Block) (loc : ℕ)
    → first_fit n a bs ≡ some loc
    → (a ≤ loc) × (loc + 16 ≤ a + total bs)
first_fit_bounds n a [] loc e = cc
first_fit_bounds n a (b ∷ bs) loc e = ground (arith, first_fit_bounds n (a + 16 + b.size) bs loc)
