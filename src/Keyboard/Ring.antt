-- ===== src/Keyboard/Ring.antt =====
-- The bytes that the ring holds, from `kbd_tail` round to `kbd_head`.
use mathlib.Core.Path.{ap₂}
use doomkernel.Prelude.{
  ℕ, zero, suc, ◌+◌, ◌-◌, ◌%◌, ◌<◌, ◌≡◌, refl, ap, ◌∙◌, List, [], ◌∷◌, ◌++◌, arith, get_or, set,
  length, get_or-set_self, get_or-set_ne,
}
use doomkernel.Keyboard.{Keyboard}

abbrev pub window : List ℕ → ℕ → ℕ → List ℕ
window c t zero = []
window c t (suc n) = get_or c t 0 ∷ window c ((t + 1) % 256) n

abbrev pub size : Keyboard → ℕ
size k = (k.kbd_head + 256 - k.kbd_tail) % 256

abbrev pub contents : Keyboard → List ℕ
contents k = window k.keycache k.kbd_tail (size k)

-- The indices stay in the array.
pub record IsValid (k : Keyboard) : Type 0 where
  pub cache : length k.keycache ≡ 256
  pub head_in : k.kbd_head < 256
  pub tail_in : k.kbd_tail < 256

pub length-window : (c : List ℕ) (t n : ℕ) → length (window c t n) ≡ n
length-window c t zero = refl
length-window c t (suc n) = ap suc (length-window c ((t + 1) % 256) n)

-- A write at the end of a window or beyond it is not seen in it.
window-set :
    (c : List ℕ) (v i t n d : ℕ)
    → t < 256
    → n + d < 256
    → i ≡ (t + n + d) % 256
    → window (set c i v) t n ≡ window c t n
window-set c v i t zero d ht hn e = refl
window-set c v i t (suc n) d ht hn e =
    ap₂ ◌∷◌ (get_or-set_ne c i t v 0 (omega arith))
      (window-set c v i ((t + 1) % 256) n d (omega arith) (omega arith) (omega arith))

window-snoc :
    (c : List ℕ) (t n : ℕ)
    → t < 256
    → window c t (suc n) ≡ window c t n ++ get_or c ((t + n) % 256) 0 ∷ []
window-snoc c t zero h =
    let e : t ≡ (t + 0) % 256 = omega arith in ap (λ (k : ℕ). get_or c k 0 ∷ []) e
window-snoc c t (suc n) h =
    let e : ((t + 1) % 256 + n) % 256 ≡ (t + suc n) % 256 = omega arith in
    ap (λ (l : List ℕ). get_or c t 0 ∷ l)
      (window-snoc c ((t + 1) % 256) n (omega arith)
        ∙ ap (λ (k : ℕ). window c ((t + 1) % 256) n ++ get_or c k 0 ∷ []) e)

-- The byte written at the end of a window is the last of the window that is longer by one.
pub window-push :
    (c : List ℕ) (v t n : ℕ)
    → length c ≡ 256
    → t < 256
    → n < 256
    → window (set c ((t + n) % 256) v) t (suc n) ≡ window c t n ++ v ∷ []
window-push c v t n hc ht hn =
    let i = (t + n) % 256 in
    let last = get_or-set_self c i v 0 (omega arith) in
    let others = window-set c v i t n 0 ht (omega arith) (omega arith) in
    window-snoc (set c i v) t n ht ∙ rw (last, others)
