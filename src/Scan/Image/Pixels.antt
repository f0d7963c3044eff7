-- ===== src/Scan/Image/Pixels.antt =====
-- What convert_row of src/pantum.c puts into each byte of a grey or colour line.
use mathlib.Core.Path.{subst}
use pantum_open.Base.{
  if_alike, ℕ, ◌+◌, ◌-◌, ◌*◌, ◌≤◌, ◌<◌, ◌≡◌, refl, sym, ap, ◌∙◌, true, false, not, ◌&&◌, ◌||◌, List,
  length, get_or, ltb, leb, ◌==◌, if◌then◌else◌, if-cases, Bool-cases, inl, inr, arith,
}
use pantum_open.Scan.Window.{Format, frame_gray, frame_rgb, Parameters, channels}
use pantum_open.Scan.Handle.{Handle}
use pantum_open.Scan.Image.Rows.{
  fill, smaller, is_rgb, white_byte, gray_loop, rgb_loop, lead_of, tail_of, is_margin, rgb_row,
  gray_row, convert_row,
}
use pantum_open.Scan.Image.Lengths.{
  IsPage, length-fill, length-gray_loop, length-rgb_loop, lead_of-le, tail_of-le, smaller-le,
}
use pantum_open.Scan.Image.Samples.{get_or-fill, get_or-gray_loop, get_or-rgb_loop}

-- What sample `at` of the line of the device gives at pixel `x` of row `row`: white above and below
-- and on the left and on the right of the page's inner part, and where the line has no such pixel.
abbrev pub sample_of : Handle → List ℕ → ℕ → ℕ → ℕ → ℕ → ℕ
sample_of h src avail row x at =
    if ltb row h.white_top
      || (not (h.white_bottom == 0) && leb h.params.lines (row + h.white_bottom))
      || (ltb x h.white_left || (leb h.params.pixels_per_line (x + h.white_right) || leb avail x))
    then 0xff
    else get_or h.gamma (get_or src at 0) 0

-- The same by the locals of convert_row, without the margins above and below.
abbrev shown : Handle → List ℕ → ℕ → ℕ → ℕ → ℕ
shown h src n x at =
    if ltb x (lead_of h) || (leb (tail_of h) x || leb n x)
    then 0xff
    else get_or h.gamma (get_or src at 0) 0

gray_row-shows :
    (h : Handle) (src : List ℕ) (n x : ℕ) (dst : List ℕ)
    → n ≤ h.params.pixels_per_line
    → length dst ≡ h.params.pixels_per_line
    → x < h.params.pixels_per_line
    → get_or (gray_row h src n dst) x 0 ≡ shown h src n x x
unfolding gray_row
gray_row-shows h src n x dst k e l =
    let pixels : ℕ = h.params.pixels_per_line in
    let a : List ℕ = gray_loop h.gamma src n 0 dst in
    let la : length a ≡ pixels = length-gray_loop h.gamma src n 0 dst ∙ e in
    let b : List ℕ = fill n (pixels - n) 0xff a in
    let lb : length b ≡ pixels = length-fill n (pixels - n) 0xff a (omega arith) ∙ la in
    let c : List ℕ = fill 0 (lead_of h) 0xff b in
    let lc : length c ≡ pixels =
      length-fill 0 (lead_of h) 0xff b (omega (arith, lead_of-le h)) ∙ lb in
    let f1 = get_or-gray_loop h.gamma src n 0 x dst (omega arith) in
    let f2 = get_or-fill n (pixels - n) 0xff x a (omega arith) (omega arith) in
    let f3 = get_or-fill 0 (lead_of h) 0xff x b (omega (arith, lead_of-le h)) (omega arith) in
    let f4 =
      get_or-fill (tail_of h) (pixels - tail_of h) 0xff x c (omega (arith, tail_of-le h))
        (omega arith) in
    f4
    ∙ ap (λ z. if leb (tail_of h) x && ltb x (tail_of h + (pixels - tail_of h)) then 0xff else z)
        (f3
          ∙ ap (λ z. if leb 0 x && ltb x (0 + lead_of h) then 0xff else z)
              (f2 ∙ ap (λ z. if leb n x && ltb x (n + (pixels - n)) then 0xff else z) f1))
    ∙ ground (arith, tail_of-le h, lead_of-le h)

rgb_row-shows :
    (h : Handle) (src : List ℕ) (n x c : ℕ) (dst : List ℕ)
    → n ≤ h.params.pixels_per_line
    → length dst ≡ h.params.pixels_per_line * 3
    → x < h.params.pixels_per_line
    → c < 3
    → get_or (rgb_row h src n dst) (3 * x + c) 0 ≡ shown h src n x (3 * x + (2 - c))
unfolding rgb_row
rgb_row-shows h src n x c dst k e l m =
    let pixels : ℕ = h.params.pixels_per_line in
    let a : List ℕ = rgb_loop h.gamma src n 0 dst in
    let la : length a ≡ pixels * 3 = length-rgb_loop h.gamma src n 0 dst ∙ e in
    let b : List ℕ = fill (3 * n) ((pixels - n) * 3) 0xff a in
    let lb : length b ≡ pixels * 3 =
      length-fill (3 * n) ((pixels - n) * 3) 0xff a (omega arith) ∙ la in
    let d : List ℕ = fill 0 (lead_of h * 3) 0xff b in
    let ld : length d ≡ pixels * 3 =
      length-fill 0 (lead_of h * 3) 0xff b (omega (arith, lead_of-le h)) ∙ lb in
    let f1 = get_or-rgb_loop h.gamma src n 0 x c dst m (omega arith) in
    let f2 =
      get_or-fill (3 * n) ((pixels - n) * 3) 0xff (3 * x + c) a (omega arith) (omega arith) in
    let f3 =
      get_or-fill 0 (lead_of h * 3) 0xff (3 * x + c) b (omega (arith, lead_of-le h))
        (omega arith) in
    let f4 =
      get_or-fill (3 * tail_of h) ((pixels - tail_of h) * 3) 0xff (3 * x + c) d
        (omega (arith, tail_of-le h)) (omega arith) in
    f4
    ∙ ap
        (λ z.
          if leb (3 * tail_of h) (3 * x + c)
            && ltb (3 * x + c) (3 * tail_of h + (pixels - tail_of h) * 3)
          then 0xff
          else z)
        (f3
          ∙ ap (λ z. if leb 0 (3 * x + c) && ltb (3 * x + c) (0 + lead_of h * 3) then 0xff else z)
              (f2
                ∙ ap
                    (λ z.
                      if leb (3 * n) (3 * x + c) && ltb (3 * x + c) (3 * n + (pixels - n) * 3)
                      then 0xff
                      else z)
                    f1))
    ∙ ground (arith, tail_of-le h, lead_of-le h)

channels-rgb : (f : Format) → is_rgb f ≡ true → channels f ≡ 3
channels-rgb frame_rgb e = refl
channels-rgb frame_gray e = cc

channels-gray : (f : Format) → is_rgb f ≡ false → channels f ≡ 1
channels-gray frame_gray e = refl
channels-gray frame_rgb e = cc

white_byte-full : (p : Parameters) → (p.depth == 1) ≡ false → white_byte p ≡ 0xff
unfolding white_byte
white_byte-full p e = ground (arith, e)

shown-by_locals :
    (dither_mask : ℕ → ℕ) (h : Handle) (src : List ℕ) (avail row x c : ℕ) (dst : List ℕ)
    → IsPage h.params
    → (h.params.depth == 1) ≡ false
    → length dst ≡ h.params.bytes_per_line
    → x < h.params.pixels_per_line
    → c < channels h.params.format
    → let ch = channels h.params.format in
      get_or (convert_row dither_mask h src avail row dst) (ch * x + c) 0 ≡ (
        if is_margin h row
        then 0xff
        else shown h src (smaller avail h.params.pixels_per_line) x (ch * x + (ch - 1 - c)))
unfolding convert_row
shown-by_locals dither_mask h src avail row x c dst p d e l m =
    if_alike (λ r z. get_or r (channels h.params.format * x + c) 0 ≡ z) (is_margin h row)
      (λ t. margin (elim (Bool-cases (is_rgb h.params.format)) [
        | inl f ↦ omega (
          arith,
          channels-rgb h.params.format f,
          p.rgb f,
          ap (λ k. k * x) (channels-rgb h.params.format f),
        )
        | inr f ↦ omega (
          arith,
          channels-gray h.params.format f,
          p.gray f d,
          ap (λ k. k * x) (channels-gray h.params.format f),
        )
      ]))
      (λ t.
        if-cases Shown (is_rgb h.params.format) _ _
          (λ f.
            subst
              (λ k.
                get_or (rgb_row h src n dst) (k * x + c) 0 ≡ shown h src n x (k * x + (k - 1 - c)))
              (sym (channels-rgb h.params.format f))
              (rgb_row-shows h src n x c dst (smaller-le avail h.params.pixels_per_line)
                (e ∙ p.rgb f) l (omega (arith, channels-rgb h.params.format f))))
          (λ f.
            if-cases Shown (h.params.depth == 1) _ _ (λ y. absurd (true≢false (sym y ∙ d)))
              (λ y.
                subst
                  (λ k.
                    get_or (gray_row h src n dst) (k * x + c) 0
                    ≡ shown h src n x (k * x + (k - 1 - c)))
                  (sym (channels-gray h.params.format f))
                  (in_gray (omega (arith, channels-gray h.params.format f)) (
                    gray_row-shows h src n x dst (smaller-le avail h.params.pixels_per_line)
                      (e ∙ p.gray f d) l)))))
  where
    n : ℕ
    n = smaller avail h.params.pixels_per_line

    Shown : List ℕ → Type 0
    Shown r =
        get_or r (channels h.params.format * x + c) 0
        ≡ shown h src n x (channels h.params.format * x + (channels h.params.format - 1 - c))

    true≢false : ¬ (true ≡ false)
    true≢false y = cc

    margin :
        channels h.params.format * x + c < h.params.bytes_per_line
        → get_or
            (fill 0 h.params.bytes_per_line (white_byte h.params) dst)
            (channels h.params.format * x + c)
            0
          ≡ 0xff
    margin lt =
        get_or-fill 0 h.params.bytes_per_line (white_byte h.params) _ dst (omega (arith, e))
          (omega (arith, e, lt))
        ∙ ground (arith, lt, white_byte-full h.params d)

    in_gray :
        c ≡ 0
        → get_or (gray_row h src n dst) x 0 ≡ shown h src n x x
        → get_or (gray_row h src n dst) (1 * x + c) 0 ≡ shown h src n x (1 * x + (1 - 1 - c))
    in_gray z g =
        let a : 1 * x + c ≡ x = omega (arith, z) in
        let b : x ≡ 1 * x + (1 - 1 - c) = omega (arith, z) in
        ap (λ k. get_or (gray_row h src n dst) k 0) a ∙ g ∙ ap (shown h src n x) b

sample_of-by_locals :
    (h : Handle) (src : List ℕ) (avail row x at : ℕ)
    → x < h.params.pixels_per_line
    → (if is_margin h row then 0xff else shown h src (smaller avail h.params.pixels_per_line) x at)
      ≡ sample_of h src avail row x at
unfolding is_margin lead_of tail_of
sample_of-by_locals h src avail row x at l = ground arith

-- In a grey or a colour line, whatever stood in the block before, sample `c` of each pixel `x` is
-- white in a margin row, in the margins on the left and on the right and where the device sent no such
-- pixel, and else what the tone curve makes of the device's sample, which stands in the reverse order
-- in a colour pixel.
pub convert_row-shows :
    (dither_mask : ℕ → ℕ) (h : Handle) (src : List ℕ) (avail row x c : ℕ) (dst : List ℕ)
    → IsPage h.params
    → (h.params.depth == 1) ≡ false
    → length dst ≡ h.params.bytes_per_line
    → x < h.params.pixels_per_line
    → c < channels h.params.format
    → let ch = channels h.params.format in
      get_or (convert_row dither_mask h src avail row dst) (ch * x + c) 0
      ≡ sample_of h src avail row x (ch * x + (ch - 1 - c))
convert_row-shows dither_mask h src avail row x c dst p d e l m =
    let ch = channels h.params.format in
    shown-by_locals dither_mask h src avail row x c dst p d e l m
    ∙ sample_of-by_locals h src avail row x (ch * x + (ch - 1 - c)) l
