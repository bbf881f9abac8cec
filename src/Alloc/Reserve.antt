-- ===== src/Alloc/Reserve.antt =====
-- The block that `malloc` or `calloc` takes again, in the whole chain: what the heap is afterwards,
-- and what the payloads of the other blocks are.
use mathlib.Core.List.{Perm}
use mathlib.Core.List.Perm
use mathlib.Core.Path.{subst}
use doomkernel.Prelude.{
  ℕ, ◌+◌, ◌-◌, ◌%◌, ◌^◌, ◌≤◌, ◌<◌, ◌≡◌, ◌⊎◌, refl, ◌∙◌, inl, inr, true, false, Bool-cases, some,
  List, [], ◌∷◌, ◌++◌, arith, ltb,
}
use doomkernel.Memory.{Memory}
use doomkernel.Memory.Laws.{SameOn}
use doomkernel.Str.{memset}
use doomkernel.Str.Fill.{memset_outside}
use doomkernel.Alloc.{size, mark}
use doomkernel.Alloc.Block.{
  Block, block, total, used_bytes, fits, first_fit, taken_size, leftover, carve, reserve,
  used_spans, first_fit_bounds,
}
use doomkernel.Alloc.Header.{Header, Chain, Header-same, Chain-same, Chain-append}
use doomkernel.Alloc.InUse.{InUse, InUse-bounds}
use doomkernel.Alloc.Take.{mark_outside, mark-carve, total_taken}

-- The payloads of the used blocks of a list that starts at `a` are the same in `g` as in `m`.
abbrev pub UsedSame : ℕ → List Block → Memory → Memory → Type 0
UsedSame a [] m g = Unit {0}
UsedSame a (b ∷ bs) m g =
    (b.used ≡ true → SameOn (a + 16) (a + 16 + b.size) m g) × UsedSame (a + 16 + b.size) bs m g

pub UsedSame-same :
    (a : ℕ) (bs : List Block) {m g : Memory} → SameOn a (a + total bs) m g → UsedSame a bs m g
UsedSame-same a [] s = tt
UsedSame-same a (b ∷ bs) s = (
  λ u x p q. s x (omega arith) (omega arith),
  UsedSame-same (a + 16 + b.size) bs (λ x p q. s x (omega arith) (omega arith)),
)

-- The bytes of a payload in use are among those.
pub UsedSame-InUse :
    (m g : Memory) (p n a : ℕ) (bs : List Block)
    → InUse p n a bs
    → UsedSame a bs m g
    → SameOn p (p + n) m g
UsedSame-InUse m g p n a [] i s = absurd i
UsedSame-InUse m g p n a (b ∷ bs) (inl (u, e, f)) (s, t) =
    λ x q r. s u x (omega (arith, e)) (omega (arith, e, f))
UsedSame-InUse m g p n a (b ∷ bs) (inr there) (s, t) =
    UsedSame-InUse m g p n (a + 16 + b.size) bs there t

-- the memory when the block at `loc` is taken and the first `k` bytes of its payload are cleared
abbrev pub taken : Memory → ℕ → ℕ → ℕ → Memory
taken m n loc k = memset (mark m loc n) (loc + 16) 0 k

-- Clearing bytes of the first payload keeps a chain.
Chain-memset :
    (m : Memory) (a k : ℕ) (b : Block) (bs : List Block)
    → k ≤ b.size
    → Chain m a (b ∷ bs)
    → Chain (memset m (a + 16) 0 k) a (b ∷ bs)
Chain-memset m a k b bs p (h, c) = (
  Header-same (λ x q r. memset_outside m (a + 16) 0 k x (omega arith)) h,
  Chain-same (a + 16 + b.size) bs (λ x q r. memset_outside m (a + 16) 0 k x (omega arith)) c,
)

-- What is so when the block at `loc` of the chain `bs` at `a` has been taken for `n` bytes.
pub record Reserved (m : Memory) (n k a loc : ℕ) (bs : List Block) : Type 0 where
  pub chain : Chain (taken m n loc k) a (reserve n bs)
  pub bytes : used_bytes (reserve n bs) ≡ used_bytes bs + 16 + size (mark m loc n) loc
  pub enough : n ≤ size (mark m loc n) loc
  pub within : loc + 16 + size (mark m loc n) loc ≤ a + total bs
  pub spans :
      Perm (used_spans a (reserve n bs)) ((loc + 16, size (mark m loc n) loc) ∷ used_spans a bs)
  pub kept : UsedSame a bs m (taken m n loc k)
  pub new : InUse (loc + 16) (size (mark m loc n) loc) a (reserve n bs)
  pub apart :
      (q l : ℕ)
      → InUse q l a bs
      → (q + l + 16 ≤ loc + 16) ⊎ (loc + 16 + size (mark m loc n) loc + 16 ≤ q)
  pub below : (x : ℕ) → x < loc → taken m n loc k x ≡ m x

-- The rest that `carve` leaves is free: it adds no span and no used byte.
used_spans-leftover :
    (n a : ℕ) (b : Block) (bs : List Block)
    → n ≤ b.size
    → used_spans (a + 16 + taken_size n b) (leftover n b ++ bs) ≡ used_spans (a + 16 + b.size) bs
used_spans-leftover n a b bs p = elim (Bool-cases (ltb 16 (b.size - n))) [
  | inl large ↦
      let e : a + 16 + n + 16 + (b.size - n - 16) ≡ a + 16 + b.size = ground arith in rw (large, e)
  | inr few ↦ rw few
]

used_bytes-leftover :
    (n : ℕ) (b : Block) (bs : List Block) → used_bytes (leftover n b ++ bs) ≡ used_bytes bs
used_bytes-leftover n b bs = elim (Bool-cases (ltb 16 (b.size - n))) [
  | inl large ↦ rw large (omega arith)
  | inr few ↦ rw few
]

module _ (m : Memory) (n a : ℕ) (b : Block) (bs : List Block) (h : Header m a b)
    (c : Chain m (a + 16 + b.size) bs) (fit : fits n b ≡ true) (small : a + 16 + b.size < 2 ^ 64)
    (pos : 0 < n) (al : n % 16 ≡ 0) where
  le_size : n ≤ b.size
  le_size = ground arith

  marked : Chain (mark m a n) a (carve n b ++ bs)
  marked = Chain-append (mark m a n) a (carve n b) bs (mark-carve m a n h le_size small pos al) (
      rw (total_taken m a n h le_size small)
        (Chain-same (a + 16 + b.size) bs (λ x p q. mark_outside m a n h le_size small x (inr p)) c))

  size_marked : size (mark m a n) a ≡ taken_size n b
  size_marked = marked.0.size_is

  taken_size-le : (n ≤ taken_size n b) × (taken_size n b ≤ b.size)
  taken_size-le = ground (arith, le_size)

  is_free : b.used ≡ false
  is_free = ground arith

  -- the first block of the list fits
  Reserved-here : (k : ℕ) → k ≤ size (mark m a n) a → Reserved m n k a a (b ∷ bs)
  Reserved-here k le = record {
    chain = rw fit (
        Chain-memset (mark m a n) a k (block true (taken_size n b)) (leftover n b ++ bs)
          (omega (arith, size_marked)) marked);
    bytes = rw (fit, is_free) (omega (arith, size_marked, used_bytes-leftover n b bs));
    enough = omega (arith, size_marked, taken_size-le);
    within = omega (arith, size_marked, taken_size-le);
    spans = rw (fit, is_free, size_marked, used_spans-leftover n a b bs le_size) (Perm.refl _);
    kept = (
      λ u. cc,
      UsedSame-same (a + 16 + b.size) bs (λ x p q.
          memset_outside (mark m a n) (a + 16) 0 k x
            (inr (omega (arith, size_marked, taken_size-le)))
          ∙ mark_outside m a n h le_size small x (inr p)),
    );
    new = rw fit (inl (refl, refl, size_marked));
    apart = λ q l i. elim i [
      | inl here ↦ absurd (ground (arith, here.0))
      | inr there ↦
          inr
            (omega (arith, InUse-bounds q l (a + 16 + b.size) bs there, size_marked, taken_size-le))
    ];
    below = λ x p.
        memset_outside (mark m a n) (a + 16) 0 k x (omega arith)
        ∙ mark_outside m a n h le_size small x (inl p);
  }

-- A block that does not fit is passed by.
Reserved-there :
    (m : Memory) (n k a loc : ℕ) (b : Block) (bs : List Block)
    → Header m a b
    → fits n b ≡ false
    → a + 16 + b.size ≤ loc
    → Reserved m n k (a + 16 + b.size) loc bs
    → Reserved m n k a loc (b ∷ bs)
Reserved-there m n k a loc b bs h unfit le r = record {
  chain = rw unfit (Header-same (λ x p q. r.below x (omega arith)) h, r.chain);
  bytes = rw unfit (omega (arith, r.bytes));
  enough = r.enough;
  within = omega (arith, r.within);
  spans = rw unfit (elim (Bool-cases b.used) [
    | inl u ↦ rw u (Perm.trans (Perm.cons (a + 16, b.size) r.spans) (Perm.swap _ _ _))
    | inr u ↦ rw u r.spans
  ]);
  kept = (λ u x p q. r.below x (omega arith), r.kept);
  new = rw unfit (inr r.new);
  apart = λ q l i. elim i [
    | inl here ↦ inl (omega (arith, here.1, here.2))
    | inr there ↦ r.apart q l there
  ];
  below = r.below;
}

-- Taking the first block that fits, for `n` bytes of which `k` are cleared.
pub first_fit-Reserved :
    (m : Memory) (n k a loc : ℕ) (bs : List Block)
    → Chain m a bs
    → a + total bs < 2 ^ 64
    → 0 < n
    → n % 16 ≡ 0
    → first_fit n a bs ≡ some loc
    → k ≤ size (mark m loc n) loc
    → Reserved m n k a loc bs
first_fit-Reserved m n k a loc [] c small pos al e le = cc
first_fit-Reserved m n k a loc (b ∷ bs) (h, c) small pos al e le = elim (Bool-cases (fits n b)) [
  | inl fit ↦
      let here : a ≡ loc = ground arith in
      let le' : k ≤ size (mark m a n) a = rw here le in
      subst (λ (l : ℕ). Reserved m n k a l (b ∷ bs)) here
        (Reserved-here m n a b bs h c fit (omega arith) pos al k le')
  | inr unfit ↦
      let later : first_fit n (a + 16 + b.size) bs ≡ some loc = ground arith in
      Reserved-there m n k a loc b bs h unfit (first_fit_bounds n (a + 16 + b.size) bs loc later).0
        (first_fit-Reserved m n k (a + 16 + b.size) loc bs c (omega arith) pos al later le)
]
