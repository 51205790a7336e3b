-- ===== src/Drivers/Keyboard.antt =====
-- drivers/keyboard.c: the ring of keys between the interrupt and its readers.
pub mod Queue
use minerva_os.Base.{
  ℕ, ◌+◌, ◌%◌, Bool, List, [], ◌∷◌, ◌++◌, Option, none, some, if◌then◌else◌, not, ◌||◌, ◌==◌, leb,
  get_or, set, replicate, bit_and,
}

-- `kb_buffer`, `kb_head` and `kb_tail`
pub record Keyboard : Type 0 where
  pub buffer : List ℕ
  pub head : ℕ
  pub tail : ℕ

-- The variables as they start.
abbrev pub keyboard_start : Keyboard
keyboard_start = record { buffer = replicate 64 0; head = 0; tail = 0 }

-- `scancode_map`
abbrev pub scancode_map : List ℕ
scancode_map =
    (0 ∷ 27 ∷ b'1' ∷ b'2' ∷ b'3' ∷ b'4' ∷ b'5' ∷ b'6' ∷ b'7' ∷ b'8' ∷ b'9' ∷ b'0' ∷ b'-' ∷ b'=' ∷ 8
      ∷ [])
    ++ (9 ∷ b'q' ∷ b'w' ∷ b'e' ∷ b'r' ∷ b't' ∷ b'y' ∷ b'u' ∷ b'i' ∷ b'o' ∷ b'p' ∷ b'[' ∷ b']' ∷ 10
        ∷ [])
    ++ (0 ∷ b'a' ∷ b's' ∷ b'd' ∷ b'f' ∷ b'g' ∷ b'h' ∷ b'j' ∷ b'k' ∷ b'l' ∷ b';' ∷ 39 ∷ 96 ∷ [])
    ++ (0 ∷ 92 ∷ b'z' ∷ b'x' ∷ b'c' ∷ b'v' ∷ b'b' ∷ b'n' ∷ b'm' ∷ b',' ∷ b'.' ∷ b'/' ∷ 0 ∷ [])
    ++ (b'*' ∷ 0 ∷ b' ' ∷ [])
    ++ replicate 70 0

-- `keyboard_irq_handler` for the scan code that the port gives.
unfoldable pub keyboard_irq_handler : Keyboard → ℕ → Keyboard
keyboard_irq_handler kb scancode =
    let c = get_or scancode_map scancode 0 in
    let next_head = (kb.head + 1) % 64 in
    if not (bit_and scancode 0x80 == 0)
    then kb
    else if leb 128 scancode
    then kb
    else if c == 0
    then kb
    else if next_head == kb.tail
    then kb
    else record kb { buffer = set kb.buffer kb.head c; head = next_head }

-- `keyboard_has_key`
unfoldable pub keyboard_has_key : Keyboard → Bool
keyboard_has_key kb = not (kb.head == kb.tail)

-- `keyboard_read_key`: `none` where it would wait for the next interrupt.
unfoldable pub keyboard_read_key : Keyboard → Option (ℕ × Keyboard)
keyboard_read_key kb =
    if kb.head == kb.tail
    then none
    else some (get_or kb.buffer kb.tail 0, record kb { tail = (kb.tail + 1) % 64 })
