-- ===== src/Scan/Session.antt =====
-- Sessions on the device in src/pantum.c: the lock, the feeder query and the set-up of a job.
mod Settings
mod Words
mod Lock
mod Ends
unfoldable pub use Settings.*
unfoldable pub use Lock.*
pub use Ends.*
pub use Words.*
