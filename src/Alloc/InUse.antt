-- ===== src/Alloc/InUse.antt =====
-- Payloads in use, by address and size, as a relation that can be taken apart.
use doomkernel.Prelude.{
  ℕ, ◌+◌, ◌-◌, ◌≤◌, ◌<◌, ◌≡◌, ◌≢◌, ◌⊎◌, refl, ap, inl, inr, Bool, true, false, if◌then◌else◌,
  Bool-cases, List, [], ◌∷◌, ◌++◌, arith, ltb,
}
use mathlib.Core.Path.{subst}
use doomkernel.Memory.{Memory}
use doomkernel.Alloc.Block.{Block, block, total, fits, taken_size, leftover, reserve}
use doomkernel.Alloc.Header.{Chain, Header-same, Chain-same}
use doomkernel.Alloc.Joined.{joined_size, joined_rest, absorb, freed}

-- A used block of the list that starts at `a` has its payload, of `n` bytes, at `p`.
abbrev pub InUse : ℕ → ℕ → ℕ → List Block → Type 0
InUse p n a [] = ⊥
InUse p n a (b ∷ bs) =
    ((b.used ≡ true) × (p ≡ a + 16) × (n ≡ b.size)) ⊎ InUse p n (a + 16 + b.size) bs

pub InUse-bounds :
    (p n a : ℕ) (bs : List Block) → InUse p n a bs → (a + 16 ≤ p) × (p + n ≤ a + total bs)
InUse-bounds p n a [] i = absurd i
InUse-bounds p n a (b ∷ bs) (inl here) = omega (arith, here.1, here.2)
InUse-bounds p n a (b ∷ bs) (inr there) = omega (arith, InUse-bounds p n (a + 16 + b.size) bs there)

pub InUse-append_left : (p n a : ℕ) (xs ys : List Block) → InUse p n a xs → InUse p n a (xs ++ ys)
InUse-append_left p n a [] ys i = absurd i
InUse-append_left p n a (x ∷ xs) ys (inl here) = inl here
InUse-append_left p n a (x ∷ xs) ys (inr there) =
    inr (InUse-append_left p n (a + 16 + x.size) xs ys there)

pub InUse-append_right :
    (p n a : ℕ) (xs ys : List Block) → InUse p n (a + total xs) ys → InUse p n a (xs ++ ys)
InUse-append_right p n a [] ys i = subst (λ (t : ℕ). InUse p n t ys) (omega arith) i
InUse-append_right p n a (x ∷ xs) ys i = inr (
    InUse-append_right p n (a + 16 + x.size) xs ys
      (subst (λ (t : ℕ). InUse p n t ys) (omega arith) i))

-- The block whose payload it is, between those before it and those behind it.
pub InUse-split :
    (p n a : ℕ) (bs : List Block)
    → InUse p n a bs
    → (pre : List Block) × (b : Block) × (post : List Block) × (bs ≡ pre ++ b ∷ post)
      × (b.used ≡ true)
      × (p ≡ a + total pre + 16)
      × (n ≡ b.size)
InUse-split p n a [] i = absurd i
InUse-split p n a (b ∷ bs) (inl (u, e, f)) = ([], b, bs, refl, u, omega (arith, e), f)
InUse-split p n a (b ∷ bs) (inr there) =
    let (pre, c, post, e, u, f, g) = InUse-split p n (a + 16 + b.size) bs there in
    (b ∷ pre, c, post, ap (λ (t : List Block). b ∷ t) e, u, omega (arith, f), g)

-- A chain survives any change within a payload that is in use.
pub Chain-payload :
    (p n a : ℕ) (bs : List Block) {m g : Memory}
    → InUse p n a bs
    → ((x : ℕ) → (x < p) ⊎ (p + n ≤ x) → g x ≡ m x)
    → Chain m a bs
    → Chain g a bs
Chain-payload p n a [] i s c = tt
Chain-payload p n a (b ∷ bs) (inl (u, e, f)) s (h, c) = (
  Header-same (λ x q r. s x (omega (arith, e))) h,
  Chain-same (a + 16 + b.size) bs (λ x q r. s x (omega (arith, e, f))) c,
)
Chain-payload p n a (b ∷ bs) (inr there) s (h, c) = (
  Header-same (λ x q r. s x (omega (arith, InUse-bounds p n (a + 16 + b.size) bs there))) h,
  Chain-payload p n (a + 16 + b.size) bs there s c,
)

InUse-leftover :
    (p k n a : ℕ) (b : Block) (bs : List Block)
    → n ≤ b.size
    → InUse p k (a + 16 + b.size) bs
    → InUse p k (a + 16 + taken_size n b) (leftover n b ++ bs)
InUse-leftover p k n a b bs le i = elim (Bool-cases (ltb 16 (b.size - n))) [
  | inl large ↦
      let e : a + 16 + b.size ≡ a + 16 + n + 16 + (b.size - n - 16) = ground arith in
      rw large (inr (subst (λ (t : ℕ). InUse p k t bs) e i))
  | inr few ↦ rw few i
]

-- Taking the first block that fits leaves the payloads in use in use.
pub InUse-reserve : (p k n a : ℕ) (bs : List Block) → InUse p k a bs → InUse p k a (reserve n bs)
InUse-reserve p k n a [] i = absurd i
InUse-reserve p k n a (b ∷ bs) (inl here) =
    let unfit : fits n b ≡ false = ground (arith, here.0) in simp unfit (inl here)
InUse-reserve p k n a (b ∷ bs) (inr there) = elim (Bool-cases (fits n b)) [
  | inr unfit ↦ simp unfit (inr (InUse-reserve p k n (a + 16 + b.size) bs there))
  | inl fit ↦ simp fit (inr (InUse-leftover p k n a b bs (ground arith) there))
]

-- Freeing a block leaves the other payloads in use.
InUse-joined :
    (p k n a : ℕ) (post : List Block)
    → InUse p k (a + 16 + n) post
    → InUse p k (a + 16 + joined_size n post) (joined_rest post)
InUse-joined p k n a [] i = i
InUse-joined p k n a (c ∷ cs) (inl (u, e, f)) = simp u (inl (refl, e, f))
InUse-joined p k n a (c ∷ cs) (inr there) = elim (Bool-cases c.used) [
  | inl u ↦ simp u (inr there)
  | inr u ↦ simp u (subst (λ (t : ℕ). InUse p k t cs) (omega arith) there)
]

-- the payload of a used block, or one further on
pub InUse-absorb :
    (p k a : ℕ) (pre : List Block) (n : ℕ) (js : List Block)
    → InUse p k a pre ⊎ InUse p k (a + total pre + 16 + n) js
    → InUse p k a (absorb pre n js)
InUse-absorb p k a [] n js (inl i) = absurd i
InUse-absorb p k a [] n js (inr i) = inr (subst (λ (t : ℕ). InUse p k t js) (omega arith) i)
InUse-absorb p k a (x ∷ []) n js (inl (inl (u, e, f))) = simp u (inl (refl, e, f))
InUse-absorb p k a (x ∷ []) n js (inl (inr there)) = absurd there
InUse-absorb p k a (x ∷ []) n js (inr i) = elim (Bool-cases x.used) [
  | inl u ↦ simp u (inr (inr (subst (λ (t : ℕ). InUse p k t js) (omega arith) i)))
  | inr u ↦ simp u (inr (subst (λ (t : ℕ). InUse p k t js) (omega arith) i))
]
InUse-absorb p k a (x ∷ y ∷ xs) n js (inl (inl here)) = inl here
InUse-absorb p k a (x ∷ y ∷ xs) n js (inl (inr there)) =
    inr (InUse-absorb p k (a + 16 + x.size) (y ∷ xs) n js (inl there))
InUse-absorb p k a (x ∷ y ∷ xs) n js (inr i) = inr (
    InUse-absorb p k (a + 16 + x.size) (y ∷ xs) n js
      (inr (subst (λ (t : ℕ). InUse p k t js) (omega arith) i)))

-- A payload in use is that of a block of `pre`, that of `b`, or one behind.
InUse-append :
    (p k a : ℕ) (xs ys : List Block)
    → InUse p k a (xs ++ ys)
    → InUse p k a xs ⊎ InUse p k (a + total xs) ys
InUse-append p k a [] ys i = inr (subst (λ (t : ℕ). InUse p k t ys) (omega arith) i)
InUse-append p k a (x ∷ xs) ys (inl here) = inl (inl here)
InUse-append p k a (x ∷ xs) ys (inr there) = elim (InUse-append p k (a + 16 + x.size) xs ys there) [
  | inl i ↦ inl (inr i)
  | inr i ↦ inr (subst (λ (t : ℕ). InUse p k t ys) (omega arith) i)
]

pub InUse-freed :
    (p k a : ℕ) (pre : List Block) (b : Block) (post : List Block)
    → InUse p k a (pre ++ b ∷ post)
    → p ≢ a + total pre + 16
    → InUse p k a (freed pre b post)
InUse-freed p k a pre b post i other =
    InUse-absorb p k a pre (joined_size b.size post) (joined_rest post)
      (elim (InUse-append p k a pre (b ∷ post) i) [
        | inl before ↦ inl before
        | inr (inl (u, e, f)) ↦ absurd (other e)
        | inr (inr behind) ↦ inr (InUse-joined p k b.size (a + total pre) post behind)
      ])

InUse-joined_back :
    (p k n a : ℕ) (post : List Block)
    → InUse p k (a + 16 + joined_size n post) (joined_rest post)
    → InUse p k (a + 16 + n) post
InUse-joined_back p k n a [] i = i
InUse-joined_back p k n a (c ∷ cs) i = elim (Bool-cases c.used) [
  | inl u ↦
      subst
        (λ (b : Bool).
          InUse p k (a + 16 + (if b then n else n + 16 + c.size)) (if b then c ∷ cs else cs))
        u i
  | inr u ↦ inr (subst (λ (t : ℕ). InUse p k t cs) (omega arith) (simp u at i))
]

-- A free block has no payload in use.
InUse-free_block :
    (p k a n : ℕ) (js : List Block) → InUse p k a (block false n ∷ js) → InUse p k (a + 16 + n) js
InUse-free_block p k a n js (inl (u, e, f)) = absurd (ground (arith, u))
InUse-free_block p k a n js (inr there) = there

InUse-absorb_back :
    (p k a : ℕ) (pre : List Block) (n : ℕ) (js : List Block)
    → InUse p k a (absorb pre n js)
    → InUse p k a pre ⊎ InUse p k (a + total pre + 16 + n) js
InUse-absorb_back p k a [] n js i =
    inr (subst (λ (t : ℕ). InUse p k t js) (omega arith) (InUse-free_block p k a n js i))
InUse-absorb_back p k a (x ∷ []) n js i = elim (Bool-cases x.used) [
  | inl u ↦
      let j : InUse p k a (x ∷ block false n ∷ js) =
        subst
          (λ (b : Bool).
            InUse p k a (if b then x ∷ block false n ∷ js else block false (x.size + 16 + n) ∷ js))
          u i in
      elim j [
        | inl here ↦ inl (inl here)
        | inr there ↦ inr (
            subst (λ (t : ℕ). InUse p k t js) (omega arith)
              (InUse-free_block p k (a + 16 + x.size) n js there))
      ]
  | inr u ↦
      let j : InUse p k a (block false (x.size + 16 + n) ∷ js) = simp u at i in
      inr (
        subst (λ (t : ℕ). InUse p k t js) (omega arith)
          (InUse-free_block p k a (x.size + 16 + n) js j))
]
InUse-absorb_back p k a (x ∷ y ∷ xs) n js (inl here) = inl (inl here)
InUse-absorb_back p k a (x ∷ y ∷ xs) n js (inr there) =
    elim (InUse-absorb_back p k (a + 16 + x.size) (y ∷ xs) n js there) [
      | inl i ↦ inl (inr i)
      | inr i ↦ inr (subst (λ (t : ℕ). InUse p k t js) (omega arith) i)
    ]

-- A payload in use when a block has been freed was in use before, and is not that of the block.
pub InUse-freed_back :
    (p k a : ℕ) (pre : List Block) (b : Block) (post : List Block)
    → InUse p k a (freed pre b post)
    → InUse p k a (pre ++ b ∷ post) × (p ≢ a + total pre + 16)
InUse-freed_back p k a pre b post i =
    elim (InUse-absorb_back p k a pre (joined_size b.size post) (joined_rest post) i) [
      | inl before ↦ (
        InUse-append_left p k a pre (b ∷ post) before,
        λ e. absurd (omega (arith, e, InUse-bounds p k a pre before)),
      )
      | inr behind ↦
          let there : InUse p k (a + total pre + 16 + b.size) post =
            InUse-joined_back p k b.size (a + total pre) post behind in
          (
            InUse-append_right p k a pre (b ∷ post) (inr there),
            λ e.
                absurd
                  (omega (arith, e, InUse-bounds p k (a + total pre + 16 + b.size) post there)),
          )
    ]
