-- ===== src/Scan/Window/Limits.antt =====
-- What the window and the frame parameters are for any option values.
use pantum_open.Base.{ℕ, ◌+◌, ◌*◌, ◌≤◌, ◌<◌, ◌≡◌, true, if◌then◌else◌, arith, max, ap₂}
use pantum_open.Scan.Window.Defs.{
  Mode, lineart, halftone, gray, colour, Settings, source_is_adf, effective_resolution, clamp_axis,
  Window, compute_window, Format, frame_gray, frame_rgb, at_least_one, line_format,
  compute_parameters, pantum_min_window, pantum_max_x, pantum_max_y, pantum_max_y_adf,
}

-- One axis: in order, within the limit, at least 15 wide where the far edge leaves room for it, and
-- exactly what was asked for where that is in order, wide enough and within the limit.
pub record IsClamped (limit near far : ℕ) (e : ℕ × ℕ) : Type 0 where
  pub ordered : e.0 ≤ e.1
  pub within : e.1 ≤ limit
  pub wide : pantum_min_window ≤ e.1 → e.0 + pantum_min_window ≤ e.1
  pub narrow :
      near < pantum_min_window
      → far < pantum_min_window
      → pantum_min_window ≤ limit
      → (e.0 ≡ 0) × (e.1 ≡ max near far)
  pub exact : near + pantum_min_window ≤ far → far ≤ limit → (e.0 ≡ near) × (e.1 ≡ far)

clamp_axis-IsClamped : (limit near far : ℕ) → IsClamped limit near far (clamp_axis limit near far)
unfolding clamp_axis
clamp_axis-IsClamped limit near far = record {
  ordered = ground arith;
  within = ground arith;
  wide = λ h. ground arith;
  narrow = λ h k l. (ground arith, ground arith);
  exact = λ h k. (ground arith, ground arith);
}

clamp_axis_swaps : (limit near far : ℕ) → clamp_axis limit near far ≡ clamp_axis limit far near
unfolding clamp_axis
clamp_axis_swaps limit near far = ap₂ (λ a b. (a, b)) (ground arith) (ground arith)

abbrev max_y_of : Settings → ℕ
max_y_of h = if source_is_adf h then pantum_max_y_adf else pantum_max_y

abbrev window_of : ℕ × ℕ → ℕ × ℕ → Window
window_of x y = record { left = x.0; top = y.0; right = x.1; bottom = y.1 }

-- The same selection with its corners named the other way round.
abbrev pub swapped : Settings → Settings
swapped h = record {
  mode = h.mode;
  source = h.source;
  resolution = h.resolution;
  preview = h.preview;
  tl_x = h.br_x;
  tl_y = h.br_y;
  br_x = h.tl_x;
  br_y = h.tl_y;
}

-- For any corners: each axis of the window is in order and within the limit of the flatbed or the
-- feeder, is at least 15 wide where its far edge leaves room for that, and is exactly the selection
-- where that is in order, at least 15 wide and within the limit. A selection whose two edges are
-- both below 15 gives a window from 0 to the larger of the two, narrower than 15. And naming the two
-- corners the other way round gives the same window.
pub compute_window_lem :
    (h : Settings)
    → let win = compute_window h in
      IsClamped pantum_max_x h.tl_x h.br_x (win.left, win.right)
      × IsClamped
          (if source_is_adf h then pantum_max_y_adf else pantum_max_y)
          h.tl_y
          h.br_y
          (win.top, win.bottom)
      × (compute_window (swapped h) ≡ win)
unfolding compute_window source_is_adf
compute_window_lem h = (
  clamp_axis-IsClamped pantum_max_x h.tl_x h.br_x,
  clamp_axis-IsClamped (max_y_of h) h.tl_y h.br_y,
  λ i.
      window_of (clamp_axis_swaps pantum_max_x h.br_x h.tl_x i)
        (clamp_axis_swaps (max_y_of h) h.br_y h.tl_y i),
)

abbrev pub channels : Format → ℕ
channels frame_gray = 1
channels frame_rgb = 3

-- The bits of a line, in whole bytes, as few as hold them.
abbrev pub HoldsLine : Format × ℕ × ℕ → ℕ → Type 0
HoldsLine f pixels =
    (pixels * f.1 * channels f.0 ≤ f.2 * 8) × (f.2 * 8 < pixels * f.1 * channels f.0 + 8)

line_format-HoldsLine : (mode : Mode) (pixels : ℕ) → HoldsLine (line_format mode pixels) pixels
unfolding line_format
line_format-HoldsLine lineart pixels = omega arith
line_format-HoldsLine halftone pixels = omega arith
line_format-HoldsLine gray pixels = omega arith
line_format-HoldsLine colour pixels = omega arith

-- For any option values the announced page has a pixel and a line at least, its lines take as few
-- whole bytes as hold their pixels in the announced format and depth, and the resolution is 75 for a
-- preview and at most 600 for the feeder.
pub compute_parameters_lem :
    (h : Settings)
    → let p = compute_parameters h in
      (1 ≤ p.pixels_per_line)
      × (1 ≤ p.lines)
      × HoldsLine (p.format, p.depth, p.bytes_per_line) p.pixels_per_line
      × (h.preview ≡ true → effective_resolution h ≡ 75)
      × (source_is_adf h ≡ true → effective_resolution h ≤ 600)
unfolding compute_parameters at_least_one effective_resolution
compute_parameters_lem h = (
  ground arith,
  ground arith,
  line_format-HoldsLine h.mode _,
  λ e. ground arith,
  λ e. ground arith,
)
