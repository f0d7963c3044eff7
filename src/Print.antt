-- ===== src/Print.antt =====
-- The print filter, src/rastertopantum.c.
pub mod File
pub mod Chunk
pub mod Paper
pub mod Options
pub mod Halftone
pub mod Buffer
pub mod Layout
pub mod Page
pub mod Render
pub mod Job
mod Tests
