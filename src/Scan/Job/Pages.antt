-- ===== src/Scan/Job/Pages.antt =====
-- The page that compute_parameters of src/pantum.c announces, for a resolution on offer.
use native.Mathlib.Nat.{mul-le-mul_right}
use pantum_open.Base.{ℕ, ◌-◌, ◌*◌, ◌/◌, ◌^◌, ◌≤◌, ◌<◌, refl, if◌then◌else◌, arith}
use pantum_open.Scan.Window.{
  Mode, lineart, halftone, gray, colour, Settings, Parameters, effective_resolution, line_format,
  source_is_adf, at_least_one, compute_window, compute_parameters, pantum_max_y, pantum_max_y_adf,
  compute_window_lem,
}
use pantum_open.Scan.Image.{IsPage}

-- A page that is not empty.
pub record IsSheet (p : Parameters) : Type 0 where
  pub page : IsPage p
  pub has_lines : 1 ≤ p.lines
  pub has_bytes : 1 ≤ p.bytes_per_line

-- The highest resolution of resolution_list.
abbrev pub max_resolution : ℕ
max_resolution = 1200

abbrev pub IsOffered : Settings → Type 0
IsOffered h = h.resolution ≤ max_resolution

effective_resolution-le : (h : Settings) → IsOffered h → effective_resolution h ≤ max_resolution
unfolding effective_resolution
effective_resolution-le h k = ground arith

line_format-IsSheet :
    (mode : Mode) (pixels lines : ℕ)
    → 1 ≤ pixels
    → 1 ≤ lines
    → lines < 2 ^ 31
    → let f = line_format mode pixels in
      IsSheet (record {
        format = f.0;
        depth = f.1;
        pixels_per_line = pixels;
        bytes_per_line = f.2;
        lines = lines;
      })
unfolding line_format
line_format-IsSheet lineart pixels lines a b c = record {
  page = record { rgb = λ e. cc; gray = λ e d. cc; bits = λ d. omega arith; lines = c };
  has_lines = b;
  has_bytes = omega arith;
}
line_format-IsSheet halftone pixels lines a b c = record {
  page = record { rgb = λ e. cc; gray = λ e d. cc; bits = λ d. omega arith; lines = c };
  has_lines = b;
  has_bytes = omega arith;
}
line_format-IsSheet gray pixels lines a b c = record {
  page = record { rgb = λ e. cc; gray = λ e d. refl; bits = λ d. cc; lines = c };
  has_lines = b;
  has_bytes = omega arith;
}
line_format-IsSheet colour pixels lines a b c = record {
  page = record { rgb = λ e. refl; gray = λ e d. cc; bits = λ d. cc; lines = c };
  has_lines = b;
  has_bytes = omega arith;
}

lines_small :
    (extent dpi : ℕ) → extent ≤ 1400 → dpi ≤ 1200 → at_least_one (extent * dpi / 100) < 2 ^ 31
unfolding at_least_one
lines_small extent dpi a b =
    let small : extent * dpi ≤ 1400 * 1200 = omega (arith, mul-le-mul_right dpi a) in
    let few : extent * dpi / 100 ≤ 16800 = omega (arith, small) in ground (arith, few)

at_least_one-le : (n : ℕ) → 1 ≤ at_least_one n
unfolding at_least_one
at_least_one-le n = ground arith

extent_small : (h : Settings) → let win = compute_window h in win.bottom - win.top ≤ 1400
extent_small h = omega (arith, (compute_window_lem h).1.within, limit)
  where
    limit : (if source_is_adf h then pantum_max_y_adf else pantum_max_y) ≤ 1400
    limit = ground arith

pub compute_parameters-IsSheet : (h : Settings) → IsOffered h → IsSheet (compute_parameters h)
unfolding compute_parameters
compute_parameters-IsSheet h k =
    line_format-IsSheet h.mode _ _ (at_least_one-le _) (at_least_one-le _)
      (lines_small _ (effective_resolution h) (extent_small h) (effective_resolution-le h k))
