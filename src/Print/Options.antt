-- ===== src/Print/Options.antt =====
-- The job options of src/rastertopantum.c: opt_get, opt_bool and options_read. The job's options and
-- the PPD belong to CUPS, so a lookup in either is a parameter.
mod Defs
mod Laws
unfoldable pub use Defs.*
pub use Laws.*
