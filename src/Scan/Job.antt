-- ===== src/Scan/Job.antt =====
-- Jobs in src/pantum.c: pump_frame, the start of a job and the SANE entry points that run it.
mod Tests
mod Pump
mod Start
mod Entry
mod Settled
mod Frames
mod Pages
mod Wait
mod Starts
mod Outcome
mod Resume
mod Begins
mod Statuses
mod Ends
mod Quiet
mod Handed
mod Reads
mod Whole
mod Calls
unfoldable pub use Pump.*
unfoldable pub use Start.*
unfoldable pub use Entry.*
pub use Settled.*
pub use Frames.*
pub use Pages.*
pub use Wait.*
pub use Starts.*
pub use Outcome.*
pub use Begins.*
pub use Statuses.*
pub use Quiet.*
pub use Reads.*
pub use Whole.*
pub use Calls.*
pub use Resume.*
pub use Ends.*
pub use Handed.*
