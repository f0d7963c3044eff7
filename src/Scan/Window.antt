-- ===== src/Scan/Window.antt =====
-- The scan window and the frame parameters, source_code to compute_parameters of src/pantum.c.
mod Defs
mod Limits
unfoldable pub use Defs.*
pub use Limits.*
