-- ===== src/Fs.antt =====
-- fs/fat32.c: the FAT32 driver.
pub mod Names
pub mod Bytes
pub mod Fat
mod Tests
