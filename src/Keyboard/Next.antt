-- ===== src/Keyboard/Next.antt =====
-- `keyboard_get_key` over what is typed: the characters that wait in the ring come first, then those of
-- the scancodes that arrive.
use mathlib.Core.Path.{subst}
use doomkernel.Prelude.{
  ℕ, ◌≤◌, ◌≡◌, ◌⊎◌, inl, inr, refl, sym, ap, ◌∙◌, true, false, Option, none, some, List, [], ◌∷◌,
  ◌++◌, ◌==◌, length, arith,
}
use doomkernel.Keyboard.{Keyboard, keyboard_handler, keyboard_get_key}
use doomkernel.Keyboard.Ring.{contents, IsValid}
use doomkernel.Keyboard.Queue.{get_key_takes, get_key_now, handler-IsValid, length-contents, latest}
use doomkernel.Keyboard.Typed.{
  Mode, types, typed, mode, mode-handler, latest-short, contents-handler,
}

-- what is still to be read
abbrev pub pending : Keyboard → List ℕ → List ℕ
pending k arriving = contents k ++ typed (mode k) arriving

-- the next character is read, and leaves the others to be read
pub record Reads (k : Keyboard) (arriving : List ℕ) (c : ℕ) (rest : List ℕ) : Type 0 where
  pub next : Keyboard
  pub left : List ℕ
  pub reads : keyboard_get_key arriving k ≡ some (c, next, left)
  pub valid : IsValid next
  pub then_pending : pending next left ≡ rest

mode_of : Mode → Option (ℕ × Keyboard × List ℕ) → Mode
mode_of m none = m
mode_of m (some (c, k, arriving)) = mode k

-- A character that waits is taken at once.
waiting-Reads :
    {k : Keyboard} (arriving : List ℕ) (x : ℕ) (q : List ℕ)
    → IsValid k
    → contents k ≡ x ∷ q
    → Reads k arriving x (q ++ typed (mode k) arriving)
unfolding mode_of
waiting-Reads {k} arriving x q v e =
    let (g, takes, holds, w) = get_key_takes arriving v e in
    let some_key : (k.kbd_head == k.kbd_tail) ≡ false =
      ground (arith, v.head_in, v.tail_in, length-contents k, ap length e) in
    let same : mode g ≡ mode k =
      ap (mode_of (mode k)) (sym takes ∙ get_key_now arriving k some_key) in
    record {
      next = g;
      left = arriving;
      reads = takes;
      valid = w;
      then_pending = rw (holds, same) refl;
    }

get_key-empty :
    (s : ℕ) (arriving : List ℕ) (k : Keyboard)
    → (k.kbd_head == k.kbd_tail) ≡ true
    → keyboard_get_key (s ∷ arriving) k ≡ keyboard_get_key arriving (keyboard_handler k s)
unfolding keyboard_get_key
get_key-empty s arriving k e = rw e refl

length-types : (m : Mode) (s : ℕ) → length (types m s) ≤ 1
length-types m s = ground arith

List-cases : (xs : List ℕ) → (xs ≡ []) ⊎ ((x : ℕ) × (q : List ℕ) × (xs ≡ x ∷ q))
List-cases [] = inl refl
List-cases (x ∷ xs) = inr (x, xs, refl)

first-Reads :
    (arriving : List ℕ) {k : Keyboard} (x : ℕ) (q : List ℕ) (c : ℕ) (rest : List ℕ)
    → IsValid k
    → contents k ≡ x ∷ q
    → pending k arriving ≡ c ∷ rest
    → Reads k arriving c rest
first-Reads arriving {k} x q c rest v w e =
    let whole : x ∷ (q ++ typed (mode k) arriving) ≡ c ∷ rest =
      sym (ap (λ (l : List ℕ). l ++ typed (mode k) arriving) w) ∙ e in
    let head : x ≡ c = cc whole in
    let tail : q ++ typed (mode k) arriving ≡ rest = cc whole in
    subst (λ (a : ℕ). Reads k arriving a rest) head
      (subst (λ (r : List ℕ). Reads k arriving x r) tail (waiting-Reads arriving x q v w))

-- A scancode that the empty ring gets adds what it types.
pending-handler :
    (s : ℕ) (arriving : List ℕ) {k : Keyboard}
    → IsValid k
    → contents k ≡ []
    → pending (keyboard_handler k s) arriving ≡ pending k (s ∷ arriving)
pending-handler s arriving {k} v w =
    let short = latest-short (types (mode k) s) (omega (arith, length-types (mode k) s)) in
    let held : contents (keyboard_handler k s) ≡ types (mode k) s =
      contents-handler s v ∙ ap (λ (l : List ℕ). latest (l ++ types (mode k) s)) w ∙ short in
    rw (held, mode-handler k s, w) refl

-- The next character of all that is to be read is the one that `keyboard_get_key` returns, which waits
-- for scancodes only while none of the ring is left, and the others are to be read then.
pub reads_lem :
    (arriving : List ℕ) {k : Keyboard} (c : ℕ) (rest : List ℕ)
    → IsValid k
    → pending k arriving ≡ c ∷ rest
    → Reads k arriving c rest
reads_lem [] {k} c rest v e = elim (List-cases (contents k)) [
  | inr (x, q, w) ↦ first-Reads [] x q c rest v w e
  | inl w ↦ absurd (nil-cons (sym (ap (λ (l : List ℕ). l ++ []) w) ∙ e))
]
  where
    nil-cons : {x : ℕ} {q : List ℕ} → ◌≡◌ {A = List ℕ} [] (x ∷ q) → ⊥
    nil-cons f = cc
reads_lem (s ∷ arriving) {k} c rest v e = elim (List-cases (contents k)) [
  | inr (x, q, w) ↦ first-Reads (s ∷ arriving) x q c rest v w e
  | inl w ↦
      let empty : (k.kbd_head == k.kbd_tail) ≡ true =
        ground (arith, v.head_in, v.tail_in, length-contents k, ap length w) in
      let r =
        reads_lem arriving c rest (handler-IsValid s v) (pending-handler s arriving v w ∙ e) in
      record {
        next = r.next;
        left = r.left;
        reads = get_key-empty s arriving k empty ∙ r.reads;
        valid = r.valid;
        then_pending = r.then_pending;
      }
]
