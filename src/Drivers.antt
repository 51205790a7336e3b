-- ===== src/Drivers.antt =====
-- drivers/keyboard.c and drivers/mouse.c.
pub mod Keyboard
pub mod Mouse
mod Tests
