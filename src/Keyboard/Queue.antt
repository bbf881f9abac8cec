-- ===== src/Keyboard/Queue.antt =====
-- The ring as a queue of at most 255 characters that drops the oldest to make room.
use doomkernel.Prelude.{
  ℕ, zero, suc, ◌+◌, ◌-◌, ◌%◌, ◌≤◌, ◌<◌, ◌≡◌, ◌↔◌, refl, sym, ap, ◌∙◌, some, List, [], ◌∷◌, ◌++◌,
  arith, get_or, set, length, length-set, drop, ◌==◌, true, false, length-append, ℕ_discrete,
}
use doomkernel.Keyboard.{
  Keyboard, kbd_buffer_push, keyboard_init, keyboard_get_key, keyboard_has_key, keyboard_handler,
  apply_caps, look_up, press,
}
use doomkernel.Keyboard.Ring.{window, size, contents, IsValid, length-window, window-push}

abbrev pub capacity : ℕ
capacity = 255

-- the last `capacity` items
abbrev pub latest : List ℕ → List ℕ
latest xs = drop (length xs - capacity) xs

abbrev pub push : List ℕ → ℕ → List ℕ
push q c = latest (q ++ c ∷ [])

pub length-contents : (k : Keyboard) → length (contents k) ≡ size k
length-contents k = length-window k.keycache k.kbd_tail (size k)

-- The ring with room for one more: the character goes behind the others.
push-room :
    {k : Keyboard} (c : ℕ)
    → IsValid k
    → size k < 255
    → contents (kbd_buffer_push k c) ≡ contents k ++ c ∷ []
unfolding kbd_buffer_push
push-room {k} c v room =
    let h = k.kbd_head in
    let t = k.kbd_tail in
    let apart : ((h + 1) % 256 == t) ≡ false = ground (arith, v.head_in, v.tail_in) in
    let count : ((h + 1) % 256 + 256 - t) % 256 ≡ suc (size k) =
      omega (arith, v.head_in, v.tail_in) in
    let place : h ≡ (t + size k) % 256 = omega (arith, v.head_in, v.tail_in) in
    rw (apart, count)
      (ap (λ (i : ℕ). window (set k.keycache i c) t (suc (size k))) place
        ∙ window-push k.keycache c t (size k) v.cache v.tail_in (omega arith))

-- The full ring: the oldest character goes.
push-full :
    {k : Keyboard} (c : ℕ)
    → IsValid k
    → size k ≡ 255
    → contents (kbd_buffer_push k c) ≡ drop 1 (contents k) ++ c ∷ []
unfolding kbd_buffer_push
push-full {k} c v full =
    let h = k.kbd_head in
    let t = k.kbd_tail in
    let meet : ((h + 1) % 256 == t) ≡ true = ground (arith, v.head_in, v.tail_in) in
    let count : ((h + 1) % 256 + 256 - (t + 1) % 256) % 256 ≡ 255 =
      omega (arith, v.head_in, v.tail_in) in
    let place : h ≡ ((t + 1) % 256 + 254) % 256 = omega (arith, v.head_in, v.tail_in) in
    rw (meet, count, full)
      (ap (λ (i : ℕ). window (set k.keycache i c) ((t + 1) % 256) 255) place
        ∙ window-push k.keycache c ((t + 1) % 256) 254 v.cache (omega arith) (omega arith))

pub drop-append : (n : ℕ) (xs ys : List ℕ) → n ≤ length xs → drop n (xs ++ ys) ≡ drop n xs ++ ys
drop-append zero xs ys h = refl
drop-append (suc n) [] ys h = absurd (omega arith)
drop-append (suc n) (x ∷ xs) ys h = drop-append n xs ys (omega arith)

-- On a ring whose indices are in the array, `kbd_buffer_push` is `push` on the characters that it holds:
-- the new one comes last, and of 256 the oldest is dropped.
pub kbd_buffer_push_refines :
    {k : Keyboard} (c : ℕ) → IsValid k → contents (kbd_buffer_push k c) ≡ push (contents k) c
kbd_buffer_push_refines {k} c v = elim (ℕ_discrete (size k) 255) [
  | yes full ↦
      let n : length (contents k ++ c ∷ []) - 255 ≡ 1 =
        omega (arith, length-append (contents k) (c ∷ []), length-contents k, full) in
      push-full c v full
      ∙ rw n (sym (drop-append 1 (contents k) (c ∷ []) (omega (arith, length-contents k, full))))
  | no room ↦
      let less : size k < 255 = omega arith in
      let n : length (contents k ++ c ∷ []) - 255 ≡ 0 =
        omega (arith, length-append (contents k) (c ∷ []), length-contents k, less) in
      push-room c v less ∙ rw n
]

pub push-IsValid : {k : Keyboard} (c : ℕ) → IsValid k → IsValid (kbd_buffer_push k c)
unfolding kbd_buffer_push
push-IsValid {k} c v = ground (arith, length-set k.keycache k.kbd_head c)

-- From any array of 256 bytes, `keyboard_init` gives an empty ring.
pub init-IsValid :
    (k : Keyboard)
    → length k.keycache ≡ 256
    → IsValid (keyboard_init k) × (contents (keyboard_init k) ≡ [])
unfolding keyboard_init
init-IsValid k e = (record { cache = e; head_in = omega arith; tail_in = omega arith }, refl)

press-IsValid : {k : Keyboard} (s : ℕ) → IsValid k → IsValid (press k s)
unfolding press
press-IsValid {k} s v =
    ground (arith, push-IsValid (apply_caps k.kbd_caps (look_up k.kbd_shift s)) v)

-- The handler keeps the indices in the array, whatever byte the controller sends.
pub handler-IsValid : {k : Keyboard} (s : ℕ) → IsValid k → IsValid (keyboard_handler k s)
unfolding keyboard_handler
handler-IsValid {k} s v = ground (arith, press-IsValid s v)

-- `keyboard_has_key` is false exactly when the ring, with its indices in the array, holds no character.
pub has_key_iff : {k : Keyboard} → IsValid k → (keyboard_has_key k ≡ false) ↔ (contents k ≡ [])
unfolding keyboard_has_key
has_key_iff {k} v = (
  λ e. nil_of_zero k.keycache k.kbd_tail (size k) (ground (arith, v.head_in, v.tail_in)),
  λ e. ground (arith, v.head_in, v.tail_in, length-contents k, ap length e),
)
  where
    nil_of_zero : (c : List ℕ) (t n : ℕ) → n ≡ 0 → window c t n ≡ []
    nil_of_zero c t n e = rw e

pub get_key_now :
    (arriving : List ℕ) (k : Keyboard)
    → (k.kbd_head == k.kbd_tail) ≡ false
    → keyboard_get_key arriving k
      ≡ some
          (get_or k.keycache k.kbd_tail 0, record k { kbd_tail = (k.kbd_tail + 1) % 256 }, arriving)
unfolding keyboard_get_key
get_key_now [] k e = rw e
get_key_now (s ∷ l) k e = rw e

-- a window that starts with `x`
window_uncons :
    (c : List ℕ) (t n : ℕ) {x : ℕ} {q : List ℕ}
    → window c t n ≡ x ∷ q
    → (0 < n) × (get_or c t 0 ≡ x) × (window c ((t + 1) % 256) (n - 1) ≡ q)
window_uncons c t zero e = absurd (cc)
window_uncons c t (suc n) e = let m : suc n - 1 ≡ n = omega arith in rw m (omega arith, cc, cc)

-- Where a character waits in a ring with its indices in the array, `keyboard_get_key` takes the oldest at
-- once, no scancode is used up, and the ring holds the others.
pub get_key_takes :
    {k : Keyboard} {x : ℕ} {q : List ℕ} (arriving : List ℕ)
    → IsValid k
    → contents k ≡ x ∷ q
    → (g : Keyboard) × (keyboard_get_key arriving k ≡ some (x, g, arriving))
      × (contents g ≡ q)
      × IsValid g
get_key_takes {k} {x} {q} arriving v e = (
  record k { kbd_tail = (k.kbd_tail + 1) % 256 },
  get_key_now arriving k (ground (arith, w, v.head_in, v.tail_in)) ∙ rw w.1,
  rw count w.2,
  record { cache = v.cache; head_in = v.head_in; tail_in = omega arith },
)
  where
    w :
        (0 < size k)
        × (get_or k.keycache k.kbd_tail 0 ≡ x)
        × (window k.keycache ((k.kbd_tail + 1) % 256) (size k - 1) ≡ q)
    w = window_uncons k.keycache k.kbd_tail (size k) e

    count : (k.kbd_head + 256 - (k.kbd_tail + 1) % 256) % 256 ≡ size k - 1
    count = omega (arith, w.0, v.head_in, v.tail_in)
