-- ===== src/Keyboard.antt =====
-- kernel/drivers/keyboard.c: the interrupt handler that turns scancodes into characters, and the ring
-- `keycache` of 256 bytes between it and `keyboard_get_key`. The byte that `inb(0x60)` reads is an
-- argument of the handler.
pub mod Ring
pub mod Queue
pub mod Typed
pub mod Letters
pub mod Next
mod Tests
use doomkernel.Prelude.{
  ℕ, zero, suc, ◌+◌, ◌-◌, ◌%◌, Bool, true, false, ◌&&◌, ◌||◌, not, Option, none, some, List, [],
  ◌∷◌, ltb, leb, ◌==◌, if◌then◌else◌, get_or, set, length,
}

abbrev pub kbd_buffer_size : ℕ
kbd_buffer_size = 256

pub record Keyboard : Type 0 where
  pub keycache : List ℕ
  pub kbd_head : ℕ
  pub kbd_tail : ℕ
  pub kbd_shift : Bool
  pub kbd_caps : Bool
  pub kbd_enabled : Bool

abbrev pub scancode_ascii : List ℕ
scancode_ascii =
    0 ∷ 27 ∷ b'1' ∷ b'2' ∷ b'3' ∷ b'4' ∷ b'5' ∷ b'6' ∷ b'7' ∷ b'8' ∷ b'9' ∷ b'0' ∷ b'-' ∷ b'=' ∷ 8
    ∷ 9 ∷ b'q' ∷ b'w' ∷ b'e' ∷ b'r' ∷ b't' ∷ b'z' ∷ b'u' ∷ b'i' ∷ b'o' ∷ b'p' ∷ b'[' ∷ b']' ∷ 10 ∷ 0
    ∷ b'a' ∷ b's' ∷ b'd' ∷ b'f' ∷ b'g' ∷ b'h' ∷ b'j' ∷ b'k' ∷ b'l' ∷ b';' ∷ 39 ∷ b'`' ∷ 0 ∷ 92
    ∷ b'y' ∷ b'x' ∷ b'c' ∷ b'v' ∷ b'b' ∷ b'n' ∷ b'm' ∷ b',' ∷ b'.' ∷ b'/' ∷ 0 ∷ b'*' ∷ 0 ∷ b' ' ∷ []

abbrev pub scancode_ascii_shift : List ℕ
scancode_ascii_shift =
    0 ∷ 27 ∷ b'!' ∷ b'@' ∷ b'#' ∷ b'$' ∷ b'%' ∷ b'^' ∷ b'&' ∷ b'*' ∷ b'(' ∷ b')' ∷ b'_' ∷ b'+' ∷ 8
    ∷ 9 ∷ b'Q' ∷ b'W' ∷ b'E' ∷ b'R' ∷ b'T' ∷ b'Z' ∷ b'U' ∷ b'I' ∷ b'O' ∷ b'P' ∷ b'{' ∷ b'}' ∷ 10 ∷ 0
    ∷ b'A' ∷ b'S' ∷ b'D' ∷ b'F' ∷ b'G' ∷ b'H' ∷ b'J' ∷ b'K' ∷ b'L' ∷ b':' ∷ 34 ∷ b'~' ∷ 0 ∷ b'|'
    ∷ b'Y' ∷ b'X' ∷ b'C' ∷ b'V' ∷ b'B' ∷ b'N' ∷ b'M' ∷ b'<' ∷ b'>' ∷ b'?' ∷ 0 ∷ b'*' ∷ 0 ∷ b' ' ∷ []

-- x & (KBD_BUFFER_SIZE - 1)
unfoldable pub wrap : ℕ → ℕ
wrap i = i % kbd_buffer_size

unfoldable pub kbd_buffer_push : Keyboard → ℕ → Keyboard
unfolding wrap
kbd_buffer_push k character =
    let head = wrap (k.kbd_head + 1) in
    record k {
      keycache = set k.keycache k.kbd_head character;
      kbd_head = head;
      kbd_tail = if head == k.kbd_tail then wrap (k.kbd_tail + 1) else k.kbd_tail;
    }

-- the letters change case under caps lock
unfoldable pub apply_caps : Bool → ℕ → ℕ
apply_caps caps key =
    if caps
    then (if leb b'a' key && leb key b'z'
        then key - 32
        else if leb b'A' key && leb key b'Z'
        then key + 32
        else key)
    else key

unfoldable pub look_up : Bool → ℕ → ℕ
look_up shift scancode =
    if shift then get_or scancode_ascii_shift scancode 0 else get_or scancode_ascii scancode 0

unfoldable pub is_shift : ℕ → Bool
is_shift scancode = scancode == 0x2A || scancode == 0x36

-- a key goes down that is neither shift nor caps lock
unfoldable pub press : Keyboard → ℕ → Keyboard
press k scancode =
    if leb (length scancode_ascii) scancode
    then k
    else if look_up k.kbd_shift scancode == 0
    then k
    else kbd_buffer_push k (apply_caps k.kbd_caps (look_up k.kbd_shift scancode))

-- The top bit of the scancode says that the key was released.
unfoldable pub keyboard_handler : Keyboard → ℕ → Keyboard
keyboard_handler k scancode =
    if leb 0x80 scancode
    then (if is_shift (scancode - 0x80) then record k { kbd_shift = false } else k)
    else if is_shift scancode
    then record k { kbd_shift = true }
    else if scancode == 0x3A
    then record k { kbd_caps = not k.kbd_caps }
    else press k scancode

-- The array keeps what it held. Registering the handler and clearing the mask are in `Isr` and `Pic`.
unfoldable pub keyboard_init : Keyboard → Keyboard
keyboard_init k = record k {
  kbd_head = 0;
  kbd_tail = 0;
  kbd_caps = false;
  kbd_shift = false;
  kbd_enabled = true;
}

unfoldable pub keyboard_has_key : Keyboard → Bool
keyboard_has_key k = not (k.kbd_tail == k.kbd_head)

-- While the ring is empty the processor halts until a scancode arrives; `none` means that those of
-- the list are used up and it halts still. What is left of the list comes back with the character.
unfoldable pub keyboard_get_key : List ℕ → Keyboard → Option (ℕ × Keyboard × List ℕ)
unfolding wrap
keyboard_get_key [] k =
    if k.kbd_head == k.kbd_tail
    then none
    else some (get_or k.keycache k.kbd_tail 0, record k { kbd_tail = wrap (k.kbd_tail + 1) }, [])
keyboard_get_key (scancode ∷ arriving) k =
    let later = keyboard_get_key arriving (keyboard_handler k scancode) in
    if k.kbd_head == k.kbd_tail
    then later
    else some (
      get_or k.keycache k.kbd_tail 0,
      record k { kbd_tail = wrap (k.kbd_tail + 1) },
      scancode ∷ arriving,
    )
