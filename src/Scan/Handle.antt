-- ===== src/Scan/Handle.antt =====
-- Pantum_Handle of src/pantum.h, as far as the running of jobs reads and writes it.
use pantum_open.Base.{ℕ, Bool, List}
use pantum_open.Scan.Window.{Settings, Parameters}

-- The queue of converted rows: `out` with out_len, out_pos and out_cap. `bytes` are the first out_len
-- bytes at `out`, so out_len is their number; `block` is the size of the block that `out` points to,
-- which the source does not keep. `overrun` says that a row was once stored behind the end of the
-- block; the source has no such flag, since its stores go through whatever stands there.
pub record OutQueue : Type 0 where
  pub block : ℕ
  pub capacity : ℕ
  pub bytes : List ℕ
  pub pos : ℕ
  pub overrun : Bool

-- `settings` and `threshold_fixed` are option values, the latter in 1/65536 of a percent; the scratch
-- block `raw` holds nothing between two calls, so only its size is kept.
pub record Handle : Type 0 where
  pub settings : Settings
  pub params : Parameters
  pub scanning : Bool
  pub locked : Bool
  pub cancelled : Bool
  pub eof : Bool
  pub non_blocking : Bool
  pub has_adf : Bool
  pub feeding : Bool
  pub next_row : ℕ
  pub threshold_fixed : ℕ
  pub threshold : ℕ
  pub halftone : Bool
  pub white_top : ℕ
  pub white_bottom : ℕ
  pub white_left : ℕ
  pub white_right : ℕ
  pub gamma : List ℕ
  pub out : OutQueue
  pub raw_cap : ℕ
