-- ===== src/Print/Render.antt =====
-- render_page and render_blank_page of src/rastertopantum.c.
mod Defs
mod Swap
mod Lines
mod Sheet
mod Turn
pub mod Pixels
unfoldable pub use Defs.*
pub use Swap.*
pub use Lines.*
pub use Sheet.*
pub use Turn.*
