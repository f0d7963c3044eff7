-- ===== src/Scan/Image/Lengths.antt =====
-- The length of a row that convert_row of src/pantum.c has made.
use pantum_open.Base.{
  ℕ, zero, suc, ◌+◌, ◌-◌, ◌*◌, ◌/◌, ◌^◌, ◌≤◌, ◌<◌, ◌≡◌, refl, sym, ◌∙◌, true, false, List, ◌++◌,
  length, take, drop, get_or, replicate, length-set, length-append, length-take, length-drop,
  length-replicate, arith, if-cases, ltb, ◌==◌,
}
use pantum_open.Scan.Window.{Parameters}
use pantum_open.Scan.Handle.{Handle}
use pantum_open.Scan.Image.Rows.{
  fill, smaller, is_rgb, white_byte, gray_loop, rgb_loop, bit_loop, lead_of, tail_of, is_margin,
  rgb_row, gray_row, limit_at, bilevel_row, convert_row,
}

-- The bytes of a line against its pixels, as compute_parameters makes them, and lines in an int.
pub record IsPage (p : Parameters) : Type 0 where
  pub rgb : is_rgb p.format ≡ true → p.bytes_per_line ≡ p.pixels_per_line * 3
  pub gray : is_rgb p.format ≡ false → (p.depth == 1) ≡ false → p.bytes_per_line ≡ p.pixels_per_line
  pub bits : (p.depth == 1) ≡ true → p.pixels_per_line ≤ p.bytes_per_line * 8
  pub lines : p.lines < 2 ^ 31

pub length-fill :
    (at n v : ℕ) (dst : List ℕ) → at + n ≤ length dst → length (fill at n v dst) ≡ length dst
unfolding fill
length-fill at n v dst h = omega (
  arith,
  length-append (take at dst) (replicate n v ++ drop (at + n) dst),
  length-append (replicate n v) (drop (at + n) dst),
  length-take at dst,
  length-drop (at + n) dst,
  length-replicate n v,
)

pub length-gray_loop :
    (lut src : List ℕ) (left i : ℕ) (dst : List ℕ)
    → length (gray_loop lut src left i dst) ≡ length dst
unfolding gray_loop
length-gray_loop lut src zero i dst = refl
length-gray_loop lut src (suc left) i dst =
    length-gray_loop lut src left (i + 1) _ ∙ length-set dst i (get_or lut (get_or src i 0) 0)

pub length-rgb_loop :
    (lut src : List ℕ) (left i : ℕ) (dst : List ℕ)
    → length (rgb_loop lut src left i dst) ≡ length dst
unfolding rgb_loop
length-rgb_loop lut src zero i dst = refl
length-rgb_loop lut src (suc left) i dst =
    length-rgb_loop lut src left (i + 1) _
    ∙ length-set _ (3 * i + 2) _
    ∙ length-set _ (3 * i + 1) _
    ∙ length-set dst (3 * i) _

length-bit_loop :
    (limit : ℕ → ℕ) (lut src : List ℕ) (left i : ℕ) (dst : List ℕ)
    → length (bit_loop limit lut src left i dst) ≡ length dst
unfolding bit_loop
length-bit_loop limit lut src zero i dst = refl
length-bit_loop limit lut src (suc left) i dst =
    length-bit_loop limit lut src left (i + 1) _
    ∙ if-cases (λ d. length d ≡ length dst) (ltb (get_or lut (get_or src i 0) 0) (limit i)) _ dst
        (λ e. length-set dst (i / 8) _) (λ e. refl)

pub lead_of-le : (h : Handle) → lead_of h ≤ h.params.pixels_per_line
unfolding lead_of
lead_of-le h = ground arith

pub tail_of-le : (h : Handle) → tail_of h ≤ h.params.pixels_per_line
unfolding tail_of
tail_of-le h = ground arith

-- The pixels that a row has, and the three fills that follow them.
length-rgb_row :
    (h : Handle) (src : List ℕ) (n : ℕ) (dst : List ℕ)
    → n ≤ h.params.pixels_per_line
    → length dst ≡ h.params.pixels_per_line * 3
    → length (rgb_row h src n dst) ≡ h.params.pixels_per_line * 3
unfolding rgb_row
length-rgb_row h src n dst k e =
    let pixels : ℕ = h.params.pixels_per_line in
    let a : List ℕ = rgb_loop h.gamma src n 0 dst in
    let la : length a ≡ pixels * 3 = length-rgb_loop h.gamma src n 0 dst ∙ e in
    let b : List ℕ = fill (3 * n) ((pixels - n) * 3) 0xff a in
    let lb : length b ≡ pixels * 3 =
      length-fill (3 * n) ((pixels - n) * 3) 0xff a (omega arith) ∙ la in
    let c : List ℕ = fill 0 (lead_of h * 3) 0xff b in
    let lc : length c ≡ pixels * 3 =
      length-fill 0 (lead_of h * 3) 0xff b (omega (arith, lead_of-le h)) ∙ lb in
    length-fill (3 * tail_of h) ((pixels - tail_of h) * 3) 0xff c (omega (arith, tail_of-le h)) ∙ lc

length-gray_row :
    (h : Handle) (src : List ℕ) (n : ℕ) (dst : List ℕ)
    → n ≤ h.params.pixels_per_line
    → length dst ≡ h.params.pixels_per_line
    → length (gray_row h src n dst) ≡ h.params.pixels_per_line
unfolding gray_row
length-gray_row h src n dst k e =
    let pixels : ℕ = h.params.pixels_per_line in
    let a : List ℕ = gray_loop h.gamma src n 0 dst in
    let la : length a ≡ pixels = length-gray_loop h.gamma src n 0 dst ∙ e in
    let b : List ℕ = fill n (pixels - n) 0xff a in
    let lb : length b ≡ pixels = length-fill n (pixels - n) 0xff a (omega arith) ∙ la in
    let c : List ℕ = fill 0 (lead_of h) 0xff b in
    let lc : length c ≡ pixels =
      length-fill 0 (lead_of h) 0xff b (omega (arith, lead_of-le h)) ∙ lb in
    length-fill (tail_of h) (pixels - tail_of h) 0xff c (omega (arith, tail_of-le h)) ∙ lc

length-bilevel_row :
    (dither_mask : ℕ → ℕ) (h : Handle) (src : List ℕ) (n row : ℕ) (dst : List ℕ)
    → length dst ≡ h.params.bytes_per_line
    → length (bilevel_row dither_mask h src n row dst) ≡ h.params.bytes_per_line
unfolding bilevel_row
length-bilevel_row dither_mask h src n row dst e =
    length-bit_loop (limit_at dither_mask h row) h.gamma src _ (lead_of h) _
    ∙ length-fill 0 h.params.bytes_per_line 0 dst (omega arith)
    ∙ e

pub smaller-le : (a b : ℕ) → smaller a b ≤ b
smaller-le a b = ground arith

-- Whatever stood in the block, a converted row is a whole line.
pub length-convert_row :
    (dither_mask : ℕ → ℕ) (h : Handle) (src : List ℕ) (avail row : ℕ) (dst : List ℕ)
    → IsPage h.params
    → length dst ≡ h.params.bytes_per_line
    → length (convert_row dither_mask h src avail row dst) ≡ h.params.bytes_per_line
unfolding convert_row
length-convert_row dither_mask h src avail row dst p e =
    if-cases IsLine (is_margin h row) _ _
      (λ m. length-fill 0 h.params.bytes_per_line (white_byte h.params) dst (omega arith) ∙ e)
      (λ m.
        if-cases IsLine (is_rgb h.params.format) _ _
          (λ f.
            length-rgb_row h src n dst (smaller-le avail h.params.pixels_per_line) (e ∙ p.rgb f)
            ∙ sym (p.rgb f))
          (λ f.
            if-cases IsLine (h.params.depth == 1) _ _
              (λ d. length-bilevel_row dither_mask h src n row dst e)
              (λ d.
                length-gray_row h src n dst (smaller-le avail h.params.pixels_per_line)
                  (e ∙ p.gray f d)
                ∙ sym (p.gray f d))))
  where
    IsLine : List ℕ → Type 0
    IsLine xs = length xs ≡ h.params.bytes_per_line

    n : ℕ
    n = smaller avail h.params.pixels_per_line
