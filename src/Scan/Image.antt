-- ===== src/Scan/Image.antt =====
-- The image path of src/pantum.c: out_reserve, convert_row, emit_white_rows and handle_data_block.
mod Queue
mod Rows
mod Blocks
mod Reserve
mod NoMem
mod Overrun
mod Advance
mod Lengths
mod Inside
mod Samples
mod Pixels
mod Progress
mod Contents
mod Stored
mod Arrived
mod Data
unfoldable pub use Queue.*
unfoldable pub use Rows.*
unfoldable pub use Blocks.*
pub use Reserve.*
pub use Advance.*
pub use Lengths.*
pub use Inside.*
pub use Progress.*
pub use Data.*
pub use NoMem.*
pub use Overrun.*
pub use Pixels.*
pub use Samples.*
pub use Contents.*
pub use Stored.*
pub use Arrived.*
