-- ===== src/Scan/Status.antt =====
-- The SANE status codes that src/pantum.c returns, map_status and sane_pantum_strstatus.
use Prim.Native.String.{String}
use pantum_open.Base.{ℕ, zero, suc, Bool, true, false}

pub data Status : Type 0 where
  good unsupported cancelled device_busy inval eof jammed no_docs cover_open io_error no_mem
        access_denied :
      Status

-- A device status word: 0, 2, 5, 6, 7 and 8 have meanings of their own.
unfoldable pub map_status : ℕ → Status
map_status zero = good
map_status (suc (suc zero)) = device_busy
map_status (suc (suc (suc (suc (suc zero))))) = no_docs
map_status (suc (suc (suc (suc (suc (suc zero)))))) = jammed
map_status (suc (suc (suc (suc (suc (suc (suc zero))))))) = jammed
map_status (suc (suc (suc (suc (suc (suc (suc (suc zero)))))))) = cover_open
map_status _ = io_error

-- `f.status ? map_status (f.status) : other`
unfoldable pub status_or : Status → ℕ → Status
status_or other zero = other
status_or other (suc n) = map_status (suc n)

abbrev pub is_good : Status → Bool
is_good good = true
is_good _ = false

unfoldable pub strstatus : Status → String
strstatus good = "everything A-OK"
strstatus unsupported = "operation is not supported"
strstatus cancelled = "operation was cancelled"
strstatus device_busy = "device is busy"
strstatus inval = "invalid argument"
strstatus eof = "no more data available"
strstatus jammed = "document feeder jammed"
strstatus no_docs = "document feeder out of documents"
strstatus cover_open = "scanner cover is open"
strstatus io_error = "error during device I/O"
strstatus no_mem = "out of memory"
strstatus access_denied = "access to resource has been denied"
