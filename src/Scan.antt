-- ===== src/Scan.antt =====
-- The scanner backend, src/pantum.c.
pub mod Status
pub mod Usb
pub mod Frame
pub mod Window
pub mod Handle
pub mod Image
pub mod Session
pub mod Job
mod Tests
