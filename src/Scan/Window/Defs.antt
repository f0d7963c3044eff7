-- ===== src/Scan/Window/Defs.antt =====
-- source_code, effective_resolution, compute_window and compute_parameters of src/pantum.c. The
-- corners are what mm_to_units makes of the options: hundredths of an inch, never negative. Its
-- floating-point conversion is not modelled.
use pantum_open.Base.{ℕ, ◌+◌, ◌-◌, ◌*◌, ◌/◌, Bool, not, ◌&&◌, ltb, ◌==◌, if◌then◌else◌}

-- The scan modes of mode_list.
pub data Mode : Type 0 where
  lineart halftone gray colour : Mode

-- The names of source_list_adf; any other string, and none, is taken for the flatbed.
pub data Source : Type 0 where
  flatbed adf adf_duplex : Source

abbrev pub source_flatbed : ℕ
source_flatbed = 0x100

abbrev pub source_adf : ℕ
source_adf = 0x200

abbrev pub source_adf_duplex : ℕ
source_adf_duplex = 0x400

abbrev pub pantum_max_x : ℕ
pantum_max_x = 850

abbrev pub pantum_max_y : ℕ
pantum_max_y = 1169

abbrev pub pantum_max_y_adf : ℕ
pantum_max_y_adf = 1400

abbrev pub pantum_min_window : ℕ
pantum_min_window = 15

-- The option values that the window depends on.
pub record Settings : Type 0 where
  pub mode : Mode
  pub source : Source
  pub resolution : ℕ
  pub preview : Bool
  pub tl_x : ℕ
  pub tl_y : ℕ
  pub br_x : ℕ
  pub br_y : ℕ

unfoldable pub source_code : Source → ℕ
source_code adf = source_adf
source_code adf_duplex = source_adf_duplex
source_code flatbed = source_flatbed

unfoldable pub source_is_adf : Settings → Bool
source_is_adf h = not (source_code h.source == source_flatbed)

unfoldable pub effective_resolution : Settings → ℕ
effective_resolution h =
    if h.preview
    then 75
    else (if ltb 600 h.resolution && source_is_adf h then 600 else h.resolution)

-- One axis of compute_window: the swap, the upper limit, the least width and the lower limit. The
-- source moves the near edge below zero and then sets it to zero, as the subtraction here does.
unfoldable pub clamp_axis : ℕ → ℕ → ℕ → ℕ × ℕ
clamp_axis limit near far =
    let (l, r) = if ltb far near then (far, near) else (near, far) in
    let r' = if ltb limit r then limit else r in
    ((if ltb r' (l + pantum_min_window) then r' - pantum_min_window else l), r')

pub record Window : Type 0 where
  pub left : ℕ
  pub top : ℕ
  pub right : ℕ
  pub bottom : ℕ

unfoldable pub compute_window : Settings → Window
compute_window h =
    let max_y = if source_is_adf h then pantum_max_y_adf else pantum_max_y in
    let (l, r) = clamp_axis pantum_max_x h.tl_x h.br_x in
    let (t, b) = clamp_axis max_y h.tl_y h.br_y in
    record { left = l; top = t; right = r; bottom = b }

pub data Format : Type 0 where
  frame_gray frame_rgb : Format

-- SANE_Parameters, but for last_frame, which is always set.
pub record Parameters : Type 0 where
  pub format : Format
  pub depth : ℕ
  pub pixels_per_line : ℕ
  pub bytes_per_line : ℕ
  pub lines : ℕ

unfoldable pub at_least_one : ℕ → ℕ
at_least_one n = if ltb n 1 then 1 else n

-- The format, the depth and the bytes of a line.
unfoldable pub line_format : Mode → ℕ → Format × ℕ × ℕ
line_format colour pixels = (frame_rgb, 8, pixels * 3)
line_format lineart pixels = (frame_gray, 1, (pixels + 7) / 8)
line_format halftone pixels = (frame_gray, 1, (pixels + 7) / 8)
line_format gray pixels = (frame_gray, 8, pixels)

unfoldable pub compute_parameters : Settings → Parameters
compute_parameters h =
    let dpi = effective_resolution h in
    let win = compute_window h in
    let pixels = at_least_one ((win.right - win.left) * dpi / 100) in
    let lines = at_least_one ((win.bottom - win.top) * dpi / 100) in
    let (format, depth, bytes) = line_format h.mode pixels in
    record {
      format = format;
      depth = depth;
      pixels_per_line = pixels;
      bytes_per_line = bytes;
      lines = lines;
    }
