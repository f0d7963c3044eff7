-- ===== src/Print/Halftone.antt =====
-- ht_level_to_code and halftone_row of src/rastertopantum.c.
pub mod Table
mod Defs
pub mod Dots
mod Pack
pub mod Row
unfoldable pub use Defs.*
