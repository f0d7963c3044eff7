-- ===== src/Scan/Image/Overrun.antt =====
-- The rows of src/pantum.c against the end of the block that out_reserve answers for.
use pantum_open.Scan.Status.{Status}
