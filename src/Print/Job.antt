-- ===== src/Print/Job.antt =====
-- Manual duplex in src/rastertopantum.c: the page spool and the parts of main around the pages.
mod Spool
mod Replay
mod Copies
mod Order
mod Marks
mod Document
mod Tests
unfoldable pub use Spool.*
unfoldable pub use Replay.*
pub use Copies.*
pub use Order.*
pub use Marks.*
unfoldable pub use Document.*
