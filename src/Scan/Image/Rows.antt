-- ===== src/Scan/Image/Rows.antt =====
-- convert_row of src/pantum.c. The dither mask, which build_dither_mask computes in floating point,
-- is the parameter `dither_mask`: the threshold at a cell. A row of the output is the list of its
-- bytes_per_line bytes; `dst` stands for what was there before, and may go on behind the row, where a
-- store that goes too far is seen.
use Prim.Native.Nat.{bit_or}
use pantum_open.Base.{
  ℕ, zero, suc, ◌+◌, ◌-◌, ◌*◌, ◌/◌, ◌%◌, ◌^◌, Bool, true, false, not, ◌&&◌, ◌||◌, List, ◌++◌, take,
  drop, get_or, set, replicate, ltb, leb, ◌==◌, if◌then◌else◌,
}
use pantum_open.Scan.Window.{Format, frame_gray, frame_rgb, Parameters}
use pantum_open.Scan.Handle.{Handle}

-- `memset (dst + at, v, n)`
unfoldable pub fill : ℕ → ℕ → ℕ → List ℕ → List ℕ
fill at n v dst = take at dst ++ (replicate n v ++ drop (at + n) dst)

abbrev pub dither_size : ℕ
dither_size = 128

abbrev pub is_rgb : Format → Bool
is_rgb frame_rgb = true
is_rgb frame_gray = false

abbrev pub smaller : ℕ → ℕ → ℕ
smaller a b = if ltb a b then a else b

-- White is 0xff in grey and colour, and a clear bit in lineart and halftone.
unfoldable pub white_byte : Parameters → ℕ
white_byte p = if p.depth == 1 then 0x00 else 0xff

-- `dst[i] = lut[src[i]]` for `left` values of i from i on.
unfoldable pub gray_loop : List ℕ → List ℕ → ℕ → ℕ → List ℕ → List ℕ
gray_loop lut src zero i dst = dst
gray_loop lut src (suc left) i dst =
    gray_loop lut src left (i + 1) (set dst i (get_or lut (get_or src i 0) 0))

-- The three samples of a pixel, blue first in `src`.
unfoldable pub rgb_loop : List ℕ → List ℕ → ℕ → ℕ → List ℕ → List ℕ
rgb_loop lut src zero i dst = dst
rgb_loop lut src (suc left) i dst =
    let a = set dst (3 * i) (get_or lut (get_or src (3 * i + 2) 0) 0) in
    let b = set a (3 * i + 1) (get_or lut (get_or src (3 * i + 1) 0) 0) in
    let c = set b (3 * i + 2) (get_or lut (get_or src (3 * i) 0) 0) in
    rgb_loop lut src left (i + 1) c

-- `if (lut[src[i]] < limit i) dst[i >> 3] |= 0x80 >> (i & 7)`
unfoldable pub bit_loop : (ℕ → ℕ) → List ℕ → List ℕ → ℕ → ℕ → List ℕ → List ℕ
bit_loop limit lut src zero i dst = dst
bit_loop limit lut src (suc left) i dst =
    let marked = set dst (i / 8) (bit_or (get_or dst (i / 8) 0) (2 ^ (7 - i % 8))) in
    bit_loop limit lut src left (i + 1)
      (if ltb (get_or lut (get_or src i 0) 0) (limit i) then marked else dst)

-- The locals of convert_row.
unfoldable pub lead_of : Handle → ℕ
lead_of h = smaller h.white_left h.params.pixels_per_line

unfoldable pub tail_of : Handle → ℕ
tail_of h = h.params.pixels_per_line - smaller h.white_right h.params.pixels_per_line

unfoldable pub is_margin : Handle → ℕ → Bool
is_margin h row =
    ltb row h.white_top || (not (h.white_bottom == 0) && leb h.params.lines (row + h.white_bottom))

unfoldable pub rgb_row : Handle → List ℕ → ℕ → List ℕ → List ℕ
rgb_row h src n dst =
    let pixels = h.params.pixels_per_line in
    fill (3 * tail_of h) ((pixels - tail_of h) * 3) 0xff (
      fill 0 (lead_of h * 3) 0xff
        (fill (3 * n) ((pixels - n) * 3) 0xff (rgb_loop h.gamma src n 0 dst)))

unfoldable pub gray_row : Handle → List ℕ → ℕ → List ℕ → List ℕ
gray_row h src n dst =
    let pixels = h.params.pixels_per_line in
    fill (tail_of h) (pixels - tail_of h) 0xff
      (fill 0 (lead_of h) 0xff (fill n (pixels - n) 0xff (gray_loop h.gamma src n 0 dst)))

-- What a pixel of a bilevel row is compared with.
unfoldable pub limit_at : (ℕ → ℕ) → Handle → ℕ → ℕ → ℕ
limit_at dither_mask h row i =
    if h.halftone
    then dither_mask (row % dither_size * dither_size + i % dither_size)
    else h.threshold

unfoldable pub bilevel_row : (ℕ → ℕ) → Handle → List ℕ → ℕ → ℕ → List ℕ → List ℕ
bilevel_row dither_mask h src n row dst =
    let n' = smaller (tail_of h) n in
    bit_loop (limit_at dither_mask h row) h.gamma src (n' - lead_of h) (lead_of h)
      (fill 0 h.params.bytes_per_line 0 dst)

unfoldable pub convert_row : (ℕ → ℕ) → Handle → List ℕ → ℕ → ℕ → List ℕ → List ℕ
convert_row dither_mask h src avail row dst =
    let n = smaller avail h.params.pixels_per_line in
    if is_margin h row
    then fill 0 h.params.bytes_per_line (white_byte h.params) dst
    else if is_rgb h.params.format
    then rgb_row h src n dst
    else if h.params.depth == 1
    then bilevel_row dither_mask h src n row dst
    else gray_row h src n dst
