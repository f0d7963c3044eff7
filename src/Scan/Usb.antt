-- ===== src/Scan/Usb.antt =====
-- usb_write, usb_read and drain_payload of src/pantum.c. libusb and the device behind it are the
-- parameter `device`: the reply to a request, as a function of everything that happened before.
-- sleep_ms only waits, and the debug lines only print; neither is modelled.
mod Defs
mod Transfers
mod Loops
mod Output
unfoldable pub use Defs.*
pub use Transfers.*
pub use Loops.*
pub use Output.*
