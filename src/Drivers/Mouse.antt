-- ===== src/Drivers/Mouse.antt =====
-- drivers/mouse.c: the packets of the mouse. The cursor that the handler draws is left out.
pub mod Screen
use minerva_os.Base.Int.{ℤ, pos, negsuc, ◌+ℤ◌, neg, is_negative, is_above}
use minerva_os.Base.{
  ℕ, ◌+◌, ◌-◌, ◌%◌, List, [], ◌∷◌, if◌then◌else◌, ◌==◌, leb, ltb, bit_and, bit_or,
}

-- The variables of the file; `mouse_byte[0]` to `[2]` are fields.
pub record Mouse : Type 0 where
  pub x : ℤ
  pub y : ℤ
  pub buttons : ℕ
  pub cycle : ℕ
  pub byte0 : ℕ
  pub byte1 : ℕ
  pub byte2 : ℕ
  pub prev_buttons : ℕ
  pub clicked : ℕ

abbrev pub mouse_start : Mouse
mouse_start = record {
  x = pos 160;
  y = pos 100;
  buttons = 0;
  cycle = 0;
  byte0 = 0;
  byte1 = 0;
  byte2 = 0;
  prev_buttons = 0;
  clicked = 0;
}

-- `(int32_t)(int8_t)byte`
unfoldable pub signed_byte : ℕ → ℤ
signed_byte byte = if ltb byte 128 then pos byte else negsuc (255 - byte)

-- `if (v < 0) v = 0; if (v > last) v = last;`
unfoldable pub clamp : ℕ → ℤ → ℤ
clamp last v =
    let low = if is_negative v then pos 0 else v in if is_above last low then pos last else low

-- The third byte of a packet. The sums stay far inside an `int32_t` while the pointer is on the screen.
unfoldable pub complete : Mouse → ℕ → Mouse
complete m byte =
    let buttons = bit_and m.byte0 0x07 in
    record m {
      byte2 = byte;
      cycle = 0;
      x = clamp 319 (m.x +ℤ signed_byte m.byte1);
      y = clamp 199 (m.y +ℤ neg (signed_byte byte));
      prev_buttons = m.buttons;
      buttons = buttons;
      clicked = bit_or m.clicked (bit_and buttons (0xFF - m.buttons));
    }

-- `mouse_irq_handler` for the bytes that the two ports give.
unfoldable pub mouse_irq_handler : Mouse → ℕ → ℕ → Mouse
mouse_irq_handler m status byte =
    let begun = record m { byte0 = byte } in
    if bit_and status 0x01 == 0
    then m
    else if bit_and status 0x20 == 0
    then m
    else if m.cycle == 0
    then (if bit_and byte 0x08 == 0 then begun else record begun { cycle = 1 })
    else if m.cycle == 1
    then record m { byte1 = byte; cycle = 2 }
    else if m.cycle == 2
    then complete m byte
    else m

-- `mouse_get_clicked`
unfoldable pub mouse_get_clicked : Mouse → ℕ × Mouse
mouse_get_clicked m = (m.clicked, record m { clicked = 0 })
