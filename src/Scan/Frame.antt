-- ===== src/Scan/Frame.antt =====
-- The frames of the scanner's protocol and the commands made of them: send_frame, recv_frame and
-- command of src/pantum.c.
mod Defs
mod Traffic
mod Replies
mod Commands
mod Sizes
unfoldable pub use Defs.*
pub use Traffic.*
pub use Replies.*
pub use Commands.*
pub use Sizes.*
