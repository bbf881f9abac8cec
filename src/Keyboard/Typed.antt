-- ===== src/Keyboard/Typed.antt =====
-- What a sequence of scancodes types, and that the ring holds the latest of it.
use doomkernel.Prelude.{
  ℕ, zero, suc, ◌+◌, ◌-◌, ◌≤◌, ◌≡◌, refl, sym, ap, ◌∙◌, List, [], ◌∷◌, ◌++◌, arith, length,
  length-append, length-drop, drop, ◌==◌, if◌then◌else◌, Bool, true, false, not, leb,
}
use mathlib.Core.List.{append_assoc, append-nil}
use doomkernel.Keyboard.{
  Keyboard, kbd_buffer_push, keyboard_handler, press, is_shift, look_up, apply_caps,
}
use doomkernel.Keyboard.Ring.{contents, IsValid}
use doomkernel.Keyboard.Queue.{
  latest, push, kbd_buffer_push_refines, handler-IsValid, drop-append, length-contents,
}

-- shift held, caps lock on
pub record Mode : Type 0 where
  pub shift : Bool
  pub caps : Bool

-- The mode after a scancode: caps lock toggles when it goes down, shift holds until it is released.
abbrev pub next_mode : Mode → ℕ → Mode
next_mode m s =
    if s == 0x2A
    then record m { shift = true }
    else if s == 0x36
    then record m { shift = true }
    else if s == 0x3A
    then record m { caps = not m.caps }
    else if s == 0xAA
    then record m { shift = false }
    else if s == 0xB6
    then record m { shift = false }
    else m

-- the character that a key types when it goes down
abbrev pub character : Mode → ℕ → ℕ
character m s = apply_caps m.caps (look_up m.shift s)

-- Only the scancodes of the table type, and of these the ones with an entry; shift types nothing.
abbrev pub types : Mode → ℕ → List ℕ
types m s =
    if leb 58 s
    then []
    else if s == 0x2A
    then []
    else if s == 0x36
    then []
    else if look_up m.shift s == 0
    then []
    else character m s ∷ []

abbrev pub typed : Mode → List ℕ → List ℕ
typed m [] = []
typed m (s ∷ ss) = types m s ++ typed (next_mode m s) ss

abbrev pub mode : Keyboard → Mode
mode k = record { shift = k.kbd_shift; caps = k.kbd_caps }

-- the handler called for one scancode after another
unfoldable pub handle_all : Keyboard → List ℕ → Keyboard
handle_all k [] = k
handle_all k (s ∷ ss) = handle_all (keyboard_handler k s) ss

mode-push : (k : Keyboard) (c : ℕ) → mode (kbd_buffer_push k c) ≡ mode k
unfolding kbd_buffer_push
mode-push k c = refl

mode-press : (k : Keyboard) (s : ℕ) → mode (press k s) ≡ mode k
unfolding press
mode-press k s = ground (arith, mode-push k (apply_caps k.kbd_caps (look_up k.kbd_shift s)))

pub mode-handler : (k : Keyboard) (s : ℕ) → mode (keyboard_handler k s) ≡ next_mode (mode k) s
unfolding keyboard_handler is_shift
mode-handler k s = ground (arith, mode-press k s)

drop-nil : (n : ℕ) → drop {A = ℕ} n [] ≡ []
drop-nil zero = refl
drop-nil (suc n) = refl

drop-drop : (n k : ℕ) (xs : List ℕ) → drop k (drop n xs) ≡ drop (n + k) xs
drop-drop zero k xs = ap (λ (t : ℕ). drop t xs) (omega arith)
drop-drop (suc n) k [] = drop-nil k ∙ sym (drop-nil (suc n + k))
drop-drop (suc n) k (x ∷ xs) =
    let e : suc n + k ≡ suc (n + k) = omega arith in rw e (drop-drop n k xs)

pub latest-short : (xs : List ℕ) → length xs ≤ 255 → latest xs ≡ xs
latest-short xs h = let e : length xs - 255 ≡ 0 = omega arith in rw e

-- Dropping the oldest early changes nothing.
latest-append : (xs ys : List ℕ) → latest (latest xs ++ ys) ≡ latest (xs ++ ys)
latest-append xs ys =
    let n = length xs - 255 in
    let first : drop n xs ++ ys ≡ drop n (xs ++ ys) = sym (drop-append n xs ys (omega arith)) in
    let k : n + (length (drop n xs ++ ys) - 255) ≡ length (xs ++ ys) - 255 =
      omega (arith, length-append (drop n xs) ys, length-append xs ys, length-drop n xs) in
    ap (λ (l : List ℕ). drop (length (drop n xs ++ ys) - 255) l) first
    ∙ drop-drop n (length (drop n xs ++ ys) - 255) (xs ++ ys)
    ∙ ap (λ (t : ℕ). drop t (xs ++ ys)) k

contents-press :
    {k : Keyboard} (s : ℕ)
    → IsValid k
    → contents (press k s) ≡ (
        if leb 58 s
        then contents k
        else if look_up k.kbd_shift s == 0
        then contents k
        else push (contents k) (character (mode k) s))
unfolding press
contents-press {k} s v =
    ground (arith, kbd_buffer_push_refines (apply_caps k.kbd_caps (look_up k.kbd_shift s)) v)

pub contents-handler :
    {k : Keyboard} (s : ℕ)
    → IsValid k
    → contents (keyboard_handler k s) ≡ latest (contents k ++ types (mode k) s)
unfolding keyboard_handler is_shift
contents-handler {k} s v =
    let short = latest-short (contents k) (omega (arith, length-contents k)) in
    ground (arith, contents-press s v, short, append-nil (contents k))

-- Whatever scancodes arrive, the ring holds the last 255 characters of what it held before them and
-- what they type, in order, and its indices stay in the array.
pub typed_refines :
    (ss : List ℕ) {k : Keyboard}
    → IsValid k
    → (contents (handle_all k ss) ≡ latest (contents k ++ typed (mode k) ss))
      × IsValid (handle_all k ss)
unfolding handle_all
typed_refines [] {k} v = (
  sym (
      latest-short (contents k ++ [])
        (omega (arith, length-append (contents k) [], length-contents k))
      ∙ append-nil (contents k)),
  v,
)
typed_refines (s ∷ ss) {k} v =
    let (e, w) = typed_refines ss (handler-IsValid s v) in
    (
      e
          ∙ rw (mode-handler k s, contents-handler s v)
              (latest-append (contents k ++ types (mode k) s) (typed (next_mode (mode k) s) ss)
                ∙ ap latest (
                    append_assoc (contents k) (types (mode k) s)
                      (typed (next_mode (mode k) s) ss))),
      w,
    )
