-- ===== src/Print/Page.antt =====
-- emit_page, jbig_compress and finish_page of src/rastertopantum.c.
mod Defs
mod Chunks
mod Emit
pub mod Start
pub mod Reread
unfoldable pub use Defs.*
unfoldable pub use Chunks.*
pub use Emit.*
