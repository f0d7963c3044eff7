-- ===== src/Scan/Image/Inside.antt =====
-- The stores of convert_row of src/pantum.c against the end of the row.
use pantum_open.Base.{
  Bool, ℕ, zero, suc, ◌+◌, ◌-◌, ◌*◌, ◌/◌, ◌%◌, ◌^◌, ◌≤◌, ◌<◌, ◌≡◌, refl, sym, ap, ◌∙◌, List, [],
  ◌∷◌, ◌++◌, length, take, drop, get_or, get_or-append_lt, set, length-set, replicate,
  take-append_le, drop-append_le, append_assoc, arith, if-cases, if_alike, ltb, ◌==◌, if◌then◌else◌,
}
use Prim.Native.Nat.{bit_or}
use pantum_open.Scan.Handle.{Handle}
use pantum_open.Scan.Image.Rows.{
  fill, smaller, is_rgb, white_byte, gray_loop, rgb_loop, bit_loop, lead_of, tail_of, is_margin,
  rgb_row, gray_row, limit_at, bilevel_row, convert_row,
}
use pantum_open.Scan.Image.Lengths.{
  IsPage, length-fill, length-gray_loop, length-rgb_loop, lead_of-le, tail_of-le, smaller-le,
  length-convert_row,
}

set-append_lt : (xs ys : List ℕ) (i v : ℕ) → i < length xs → set (xs ++ ys) i v ≡ set xs i v ++ ys
set-append_lt [] ys i v l = absurd (omega arith)
set-append_lt (x ∷ xs) ys zero v l = refl
set-append_lt (x ∷ xs) ys (suc i) v l = ap (λ zs. x ∷ zs) (set-append_lt xs ys i v (omega arith))

fill-append :
    (at n v : ℕ) (xs ys : List ℕ)
    → at + n ≤ length xs
    → fill at n v (xs ++ ys) ≡ fill at n v xs ++ ys
unfolding fill
fill-append at n v xs ys l =
    (λ i.
      take-append_le at xs ys (omega arith) i
      ++ (replicate n v ++ drop-append_le (at + n) xs ys l i))
    ∙ ap (λ zs. take at xs ++ zs) (sym (append_assoc (replicate n v) (drop (at + n) xs) ys))
    ∙ sym (append_assoc (take at xs) (replicate n v ++ drop (at + n) xs) ys)

gray_loop-append :
    (lut src : List ℕ) (left i : ℕ) (xs ys : List ℕ)
    → i + left ≤ length xs
    → gray_loop lut src left i (xs ++ ys) ≡ gray_loop lut src left i xs ++ ys
unfolding gray_loop
gray_loop-append lut src zero i xs ys l = refl
gray_loop-append lut src (suc left) i xs ys l =
    let v = get_or lut (get_or src i 0) 0 in
    ap (gray_loop lut src left (i + 1)) (set-append_lt xs ys i v (omega arith))
    ∙ gray_loop-append lut src left (i + 1) (set xs i v) ys (omega (arith, length-set xs i v))

rgb_pixel-append :
    (a b c i : ℕ) (xs ys : List ℕ)
    → 3 * i + 3 ≤ length xs
    → set (set (set (xs ++ ys) (3 * i) a) (3 * i + 1) b) (3 * i + 2) c
      ≡ set (set (set xs (3 * i) a) (3 * i + 1) b) (3 * i + 2) c ++ ys
rgb_pixel-append a b c i xs ys l =
    let s = set xs (3 * i) a in
    let t = set s (3 * i + 1) b in
    ap (λ z. set (set z (3 * i + 1) b) (3 * i + 2) c) (set-append_lt xs ys (3 * i) a (omega arith))
    ∙ ap (λ z. set z (3 * i + 2) c)
        (set-append_lt s ys (3 * i + 1) b (omega (arith, length-set xs (3 * i) a)))
    ∙ set-append_lt t ys (3 * i + 2) c
        (omega (arith, length-set xs (3 * i) a, length-set s (3 * i + 1) b))

rgb_loop-append :
    (lut src : List ℕ) (left i : ℕ) (xs ys : List ℕ)
    → 3 * (i + left) ≤ length xs
    → rgb_loop lut src left i (xs ++ ys) ≡ rgb_loop lut src left i xs ++ ys
unfolding rgb_loop
rgb_loop-append lut src zero i xs ys l = refl
rgb_loop-append lut src (suc left) i xs ys l =
    let a = get_or lut (get_or src (3 * i + 2) 0) 0 in
    let b = get_or lut (get_or src (3 * i + 1) 0) 0 in
    let c = get_or lut (get_or src (3 * i) 0) 0 in
    let s = set xs (3 * i) a in
    let t = set s (3 * i + 1) b in
    let u = set t (3 * i + 2) c in
    let same : length u ≡ length xs =
      length-set t (3 * i + 2) c ∙ length-set s (3 * i + 1) b ∙ length-set xs (3 * i) a in
    ap (rgb_loop lut src left (i + 1)) (rgb_pixel-append a b c i xs ys (omega arith))
    ∙ rgb_loop-append lut src left (i + 1) u ys (omega (arith, same))

bit_loop-append :
    (limit : ℕ → ℕ) (lut src : List ℕ) (left i : ℕ) (xs ys : List ℕ)
    → i + left ≤ length xs * 8
    → bit_loop limit lut src left i (xs ++ ys) ≡ bit_loop limit lut src left i xs ++ ys
unfolding bit_loop
bit_loop-append limit lut src zero i xs ys l = refl
bit_loop-append limit lut src (suc left) i xs ys l =
    ap (bit_loop limit lut src left (i + 1)) dot
    ∙ bit_loop-append limit lut src left (i + 1) next ys (omega (arith, same))
  where
    here : i / 8 < length xs
    here = omega arith

    marked : List ℕ → List ℕ
    marked zs = set zs (i / 8) (bit_or (get_or zs (i / 8) 0) (2 ^ (7 - i % 8)))

    black : Bool
    black = ltb (get_or lut (get_or src i 0) 0) (limit i)

    next : List ℕ
    next = if black then marked xs else xs

    same : length next ≡ length xs
    same =
        if-cases (λ z. length z ≡ length xs) black (marked xs) xs (λ e. length-set xs (i / 8) _)
          (λ e. refl)

    dot : (if black then marked (xs ++ ys) else xs ++ ys) ≡ next ++ ys
    dot =
        if_alike (λ a b. a ≡ b ++ ys) black
          (λ e.
            ap (λ z. set (xs ++ ys) (i / 8) (bit_or z (2 ^ (7 - i % 8))))
              (get_or-append_lt xs ys (i / 8) 0 here)
            ∙ set-append_lt xs ys (i / 8) _ here)
          (λ e. refl)

rgb_row-append :
    (h : Handle) (src : List ℕ) (n : ℕ) (xs ys : List ℕ)
    → n ≤ h.params.pixels_per_line
    → length xs ≡ h.params.pixels_per_line * 3
    → rgb_row h src n (xs ++ ys) ≡ rgb_row h src n xs ++ ys
unfolding rgb_row
rgb_row-append h src n xs ys k e =
    let pixels : ℕ = h.params.pixels_per_line in
    let a : List ℕ = rgb_loop h.gamma src n 0 xs in
    let la : length a ≡ pixels * 3 = length-rgb_loop h.gamma src n 0 xs ∙ e in
    let b : List ℕ = fill (3 * n) ((pixels - n) * 3) 0xff a in
    let lb : length b ≡ pixels * 3 =
      length-fill (3 * n) ((pixels - n) * 3) 0xff a (omega arith) ∙ la in
    let c : List ℕ = fill 0 (lead_of h * 3) 0xff b in
    let lc : length c ≡ pixels * 3 =
      length-fill 0 (lead_of h * 3) 0xff b (omega (arith, lead_of-le h)) ∙ lb in
    ap
      (λ z.
        fill (3 * tail_of h) ((pixels - tail_of h) * 3) 0xff
          (fill 0 (lead_of h * 3) 0xff (fill (3 * n) ((pixels - n) * 3) 0xff z)))
      (rgb_loop-append h.gamma src n 0 xs ys (omega arith))
    ∙ ap (λ z. fill (3 * tail_of h) ((pixels - tail_of h) * 3) 0xff (fill 0 (lead_of h * 3) 0xff z))
        (fill-append (3 * n) ((pixels - n) * 3) 0xff a ys (omega arith))
    ∙ ap (fill (3 * tail_of h) ((pixels - tail_of h) * 3) 0xff)
        (fill-append 0 (lead_of h * 3) 0xff b ys (omega (arith, lead_of-le h)))
    ∙ fill-append (3 * tail_of h) ((pixels - tail_of h) * 3) 0xff c ys (omega (arith, tail_of-le h))

gray_row-append :
    (h : Handle) (src : List ℕ) (n : ℕ) (xs ys : List ℕ)
    → n ≤ h.params.pixels_per_line
    → length xs ≡ h.params.pixels_per_line
    → gray_row h src n (xs ++ ys) ≡ gray_row h src n xs ++ ys
unfolding gray_row
gray_row-append h src n xs ys k e =
    let pixels : ℕ = h.params.pixels_per_line in
    let a : List ℕ = gray_loop h.gamma src n 0 xs in
    let la : length a ≡ pixels = length-gray_loop h.gamma src n 0 xs ∙ e in
    let b : List ℕ = fill n (pixels - n) 0xff a in
    let lb : length b ≡ pixels = length-fill n (pixels - n) 0xff a (omega arith) ∙ la in
    let c : List ℕ = fill 0 (lead_of h) 0xff b in
    let lc : length c ≡ pixels =
      length-fill 0 (lead_of h) 0xff b (omega (arith, lead_of-le h)) ∙ lb in
    ap
      (λ z.
        fill (tail_of h) (pixels - tail_of h) 0xff
          (fill 0 (lead_of h) 0xff (fill n (pixels - n) 0xff z)))
      (gray_loop-append h.gamma src n 0 xs ys (omega arith))
    ∙ ap (λ z. fill (tail_of h) (pixels - tail_of h) 0xff (fill 0 (lead_of h) 0xff z))
        (fill-append n (pixels - n) 0xff a ys (omega arith))
    ∙ ap (fill (tail_of h) (pixels - tail_of h) 0xff)
        (fill-append 0 (lead_of h) 0xff b ys (omega (arith, lead_of-le h)))
    ∙ fill-append (tail_of h) (pixels - tail_of h) 0xff c ys (omega (arith, tail_of-le h))

bilevel_row-append :
    (dither_mask : ℕ → ℕ) (h : Handle) (src : List ℕ) (n row : ℕ) (xs ys : List ℕ)
    → h.params.pixels_per_line ≤ h.params.bytes_per_line * 8
    → length xs ≡ h.params.bytes_per_line
    → bilevel_row dither_mask h src n row (xs ++ ys) ≡ bilevel_row dither_mask h src n row xs ++ ys
unfolding bilevel_row
bilevel_row-append dither_mask h src n row xs ys k e =
    let left : ℕ = smaller (tail_of h) n - lead_of h in
    let blank : List ℕ = fill 0 h.params.bytes_per_line 0 xs in
    let lb : length blank ≡ h.params.bytes_per_line =
      length-fill 0 h.params.bytes_per_line 0 xs (omega arith) ∙ e in
    let inside : lead_of h + left ≤ h.params.pixels_per_line =
      ground (arith, lead_of-le h, tail_of-le h) in
    ap (bit_loop (limit_at dither_mask h row) h.gamma src left (lead_of h))
      (fill-append 0 h.params.bytes_per_line 0 xs ys (omega arith))
    ∙ bit_loop-append (limit_at dither_mask h row) h.gamma src left (lead_of h) blank ys
        (omega (arith, inside, lb, k))

-- Of a row of one line with anything behind it, convert_row leaves what is behind it as it was, and
-- makes of the line what it makes of it alone, which is a whole line.
pub convert_row-inside :
    (dither_mask : ℕ → ℕ) (h : Handle) (src : List ℕ) (avail row : ℕ) (line rest : List ℕ)
    → IsPage h.params
    → length line ≡ h.params.bytes_per_line
    → (convert_row dither_mask h src avail row (line ++ rest)
        ≡ convert_row dither_mask h src avail row line ++ rest)
      × (length (convert_row dither_mask h src avail row line) ≡ h.params.bytes_per_line)
convert_row-inside dither_mask h src avail row line rest p e =
    (inside, length-convert_row dither_mask h src avail row line p e)
  where
    Leaves : List ℕ → List ℕ → Type 0
    Leaves a b = a ≡ b ++ rest

    n-le : smaller avail h.params.pixels_per_line ≤ h.params.pixels_per_line
    n-le = smaller-le avail h.params.pixels_per_line

    inside :
        Leaves
          (convert_row dither_mask h src avail row (line ++ rest))
          (convert_row dither_mask h src avail row line)
    inside =
        unfold convert_row in
        if_alike Leaves (is_margin h row)
          (λ m. fill-append 0 h.params.bytes_per_line (white_byte h.params) line rest (omega arith))
          (λ m.
            if_alike Leaves (is_rgb h.params.format)
              (λ f. rgb_row-append h src _ line rest n-le (e ∙ p.rgb f))
              (λ f.
                if_alike Leaves (h.params.depth == 1)
                  (λ d. bilevel_row-append dither_mask h src _ row line rest (p.bits d) e)
                  (λ d. gray_row-append h src _ line rest n-le (e ∙ p.gray f d))))
