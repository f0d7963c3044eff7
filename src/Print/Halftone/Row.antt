-- ===== src/Print/Halftone/Row.antt =====
-- halftone_row against its meaning: one dot code for each pixel, in order, and no byte more.
use pantum_open.Base.{
  ℕ, zero, suc, ◌+◌, ◌-◌, ◌*◌, ◌/◌, ◌%◌, ◌^◌, ◌<◌, ◌≡◌, refl, ap, ◌∙◌, sym, Bool, List, ◌∷◌, get_or,
  length, arith, ◌⊎◌, inl, inr,
}
use pantum_open.Print.Halftone.Defs.{dot_code, threshold, halftone_loop, halftone_row}
use pantum_open.Print.Halftone.Pack.{dot, dot1-lt, dot2-lt, byte1, byte2, round1, round2}

-- The dot code that a packed row holds for pixel x.
abbrev pub pixel_at : ℕ → List ℕ → ℕ → ℕ
pixel_at depth row x = get_or row (x * depth / 8) 0 / 2 ^ (8 - depth - x * depth % 8) % 2 ^ depth

module _ (negative : Bool) (gray : List ℕ) (y : ℕ) where
  abbrev loop : ℕ → ℕ → ℕ → List ℕ
  loop depth left x = halftone_loop depth negative gray y left x 0 8

  loop1-suc : (m x : ℕ) → loop 1 (suc m * 8) x ≡ byte1 negative gray y x ∷ loop 1 (m * 8) (x + 8)
  loop1-suc m x =
      let e : suc m * 8 ≡ suc (suc (suc (suc (suc (suc (suc (suc (m * 8)))))))) = omega arith in
      ap (λ k. loop 1 k x) e ∙ round1 negative gray y (m * 8) x

  length-loop1 : (m x : ℕ) → length (loop 1 (m * 8) x) ≡ m
  unfolding halftone_loop
  length-loop1 zero x = refl
  length-loop1 (suc m) x = ap length (loop1-suc m x) ∙ ap suc (length-loop1 m (x + 8))

  digit1_0 : (x : ℕ) → byte1 negative gray y x / 128 % 2 ≡ dot negative gray y 1 (x + 0)
  digit1_0 x =
      let e : x ≡ x + 0 = omega arith in
      omega (
        arith,
        dot1-lt negative gray y x,
        dot1-lt negative gray y (x + 1),
        dot1-lt negative gray y (x + 1 + 1),
        dot1-lt negative gray y (x + 1 + 1 + 1),
        dot1-lt negative gray y (x + 1 + 1 + 1 + 1),
        dot1-lt negative gray y (x + 1 + 1 + 1 + 1 + 1),
        dot1-lt negative gray y (x + 1 + 1 + 1 + 1 + 1 + 1),
        dot1-lt negative gray y (x + 1 + 1 + 1 + 1 + 1 + 1 + 1),
        ap (dot negative gray y 1) e,
      )

  digit1_1 : (x : ℕ) → byte1 negative gray y x / 64 % 2 ≡ dot negative gray y 1 (x + 1)
  digit1_1 x =
      let e : x + 1 ≡ x + 1 = omega arith in
      omega (
        arith,
        dot1-lt negative gray y x,
        dot1-lt negative gray y (x + 1),
        dot1-lt negative gray y (x + 1 + 1),
        dot1-lt negative gray y (x + 1 + 1 + 1),
        dot1-lt negative gray y (x + 1 + 1 + 1 + 1),
        dot1-lt negative gray y (x + 1 + 1 + 1 + 1 + 1),
        dot1-lt negative gray y (x + 1 + 1 + 1 + 1 + 1 + 1),
        dot1-lt negative gray y (x + 1 + 1 + 1 + 1 + 1 + 1 + 1),
        ap (dot negative gray y 1) e,
      )

  digit1_2 : (x : ℕ) → byte1 negative gray y x / 32 % 2 ≡ dot negative gray y 1 (x + 2)
  digit1_2 x =
      let e : x + 1 + 1 ≡ x + 2 = omega arith in
      omega (
        arith,
        dot1-lt negative gray y x,
        dot1-lt negative gray y (x + 1),
        dot1-lt negative gray y (x + 1 + 1),
        dot1-lt negative gray y (x + 1 + 1 + 1),
        dot1-lt negative gray y (x + 1 + 1 + 1 + 1),
        dot1-lt negative gray y (x + 1 + 1 + 1 + 1 + 1),
        dot1-lt negative gray y (x + 1 + 1 + 1 + 1 + 1 + 1),
        dot1-lt negative gray y (x + 1 + 1 + 1 + 1 + 1 + 1 + 1),
        ap (dot negative gray y 1) e,
      )

  digit1_3 : (x : ℕ) → byte1 negative gray y x / 16 % 2 ≡ dot negative gray y 1 (x + 3)
  digit1_3 x =
      let e : x + 1 + 1 + 1 ≡ x + 3 = omega arith in
      omega (
        arith,
        dot1-lt negative gray y x,
        dot1-lt negative gray y (x + 1),
        dot1-lt negative gray y (x + 1 + 1),
        dot1-lt negative gray y (x + 1 + 1 + 1),
        dot1-lt negative gray y (x + 1 + 1 + 1 + 1),
        dot1-lt negative gray y (x + 1 + 1 + 1 + 1 + 1),
        dot1-lt negative gray y (x + 1 + 1 + 1 + 1 + 1 + 1),
        dot1-lt negative gray y (x + 1 + 1 + 1 + 1 + 1 + 1 + 1),
        ap (dot negative gray y 1) e,
      )

  digit1_4 : (x : ℕ) → byte1 negative gray y x / 8 % 2 ≡ dot negative gray y 1 (x + 4)
  digit1_4 x =
      let e : x + 1 + 1 + 1 + 1 ≡ x + 4 = omega arith in
      omega (
        arith,
        dot1-lt negative gray y x,
        dot1-lt negative gray y (x + 1),
        dot1-lt negative gray y (x + 1 + 1),
        dot1-lt negative gray y (x + 1 + 1 + 1),
        dot1-lt negative gray y (x + 1 + 1 + 1 + 1),
        dot1-lt negative gray y (x + 1 + 1 + 1 + 1 + 1),
        dot1-lt negative gray y (x + 1 + 1 + 1 + 1 + 1 + 1),
        dot1-lt negative gray y (x + 1 + 1 + 1 + 1 + 1 + 1 + 1),
        ap (dot negative gray y 1) e,
      )

  digit1_5 : (x : ℕ) → byte1 negative gray y x / 4 % 2 ≡ dot negative gray y 1 (x + 5)
  digit1_5 x =
      let e : x + 1 + 1 + 1 + 1 + 1 ≡ x + 5 = omega arith in
      omega (
        arith,
        dot1-lt negative gray y x,
        dot1-lt negative gray y (x + 1),
        dot1-lt negative gray y (x + 1 + 1),
        dot1-lt negative gray y (x + 1 + 1 + 1),
        dot1-lt negative gray y (x + 1 + 1 + 1 + 1),
        dot1-lt negative gray y (x + 1 + 1 + 1 + 1 + 1),
        dot1-lt negative gray y (x + 1 + 1 + 1 + 1 + 1 + 1),
        dot1-lt negative gray y (x + 1 + 1 + 1 + 1 + 1 + 1 + 1),
        ap (dot negative gray y 1) e,
      )

  digit1_6 : (x : ℕ) → byte1 negative gray y x / 2 % 2 ≡ dot negative gray y 1 (x + 6)
  digit1_6 x =
      let e : x + 1 + 1 + 1 + 1 + 1 + 1 ≡ x + 6 = omega arith in
      omega (
        arith,
        dot1-lt negative gray y x,
        dot1-lt negative gray y (x + 1),
        dot1-lt negative gray y (x + 1 + 1),
        dot1-lt negative gray y (x + 1 + 1 + 1),
        dot1-lt negative gray y (x + 1 + 1 + 1 + 1),
        dot1-lt negative gray y (x + 1 + 1 + 1 + 1 + 1),
        dot1-lt negative gray y (x + 1 + 1 + 1 + 1 + 1 + 1),
        dot1-lt negative gray y (x + 1 + 1 + 1 + 1 + 1 + 1 + 1),
        ap (dot negative gray y 1) e,
      )

  digit1_7 : (x : ℕ) → byte1 negative gray y x / 1 % 2 ≡ dot negative gray y 1 (x + 7)
  digit1_7 x =
      let e : x + 1 + 1 + 1 + 1 + 1 + 1 + 1 ≡ x + 7 = omega arith in
      omega (
        arith,
        dot1-lt negative gray y x,
        dot1-lt negative gray y (x + 1),
        dot1-lt negative gray y (x + 1 + 1),
        dot1-lt negative gray y (x + 1 + 1 + 1),
        dot1-lt negative gray y (x + 1 + 1 + 1 + 1),
        dot1-lt negative gray y (x + 1 + 1 + 1 + 1 + 1),
        dot1-lt negative gray y (x + 1 + 1 + 1 + 1 + 1 + 1),
        dot1-lt negative gray y (x + 1 + 1 + 1 + 1 + 1 + 1 + 1),
        ap (dot negative gray y 1) e,
      )

  loop1_pixel :
      (m x k : ℕ) → k < m * 8 → pixel_at 1 (loop 1 (m * 8) x) k ≡ dot negative gray y 1 (x + k)
  loop1_pixel zero x k h = absurd (omega arith)
  loop1_pixel (suc m) x zero h = rw (loop1-suc m x) (digit1_0 x)
  loop1_pixel (suc m) x (suc zero) h = rw (loop1-suc m x) (digit1_1 x)
  loop1_pixel (suc m) x (suc (suc zero)) h = rw (loop1-suc m x) (digit1_2 x)
  loop1_pixel (suc m) x (suc (suc (suc zero))) h = rw (loop1-suc m x) (digit1_3 x)
  loop1_pixel (suc m) x (suc (suc (suc (suc zero)))) h = rw (loop1-suc m x) (digit1_4 x)
  loop1_pixel (suc m) x (suc (suc (suc (suc (suc zero))))) h = rw (loop1-suc m x) (digit1_5 x)
  loop1_pixel (suc m) x (suc (suc (suc (suc (suc (suc zero)))))) h = rw (loop1-suc m x) (digit1_6 x)
  loop1_pixel (suc m) x (suc (suc (suc (suc (suc (suc (suc zero))))))) h =
      rw (loop1-suc m x) (digit1_7 x)
  loop1_pixel (suc m) x (suc (suc (suc (suc (suc (suc (suc (suc k)))))))) h =
      let quot : (suc (suc (suc (suc (suc (suc (suc (suc k)))))))) * 1 / 8 ≡ suc (k * 1 / 8) =
        omega arith in
      let rem : (suc (suc (suc (suc (suc (suc (suc (suc k)))))))) * 1 % 8 ≡ k * 1 % 8 =
        omega arith in
      let e : x + 8 + k ≡ x + (suc (suc (suc (suc (suc (suc (suc (suc k)))))))) = omega arith in
      rw (loop1-suc m x, quot, rem)
        (loop1_pixel m (x + 8) k (omega arith) ∙ ap (dot negative gray y 1) e)

  loop2-suc : (m x : ℕ) → loop 2 (suc m * 4) x ≡ byte2 negative gray y x ∷ loop 2 (m * 4) (x + 4)
  loop2-suc m x =
      let e : suc m * 4 ≡ suc (suc (suc (suc (m * 4)))) = omega arith in
      ap (λ k. loop 2 k x) e ∙ round2 negative gray y (m * 4) x

  length-loop2 : (m x : ℕ) → length (loop 2 (m * 4) x) ≡ m
  unfolding halftone_loop
  length-loop2 zero x = refl
  length-loop2 (suc m) x = ap length (loop2-suc m x) ∙ ap suc (length-loop2 m (x + 4))

  digit2_0 : (x : ℕ) → byte2 negative gray y x / 64 % 4 ≡ dot negative gray y 2 (x + 0)
  digit2_0 x =
      let e : x ≡ x + 0 = omega arith in
      omega (
        arith,
        dot2-lt negative gray y x,
        dot2-lt negative gray y (x + 1),
        dot2-lt negative gray y (x + 1 + 1),
        dot2-lt negative gray y (x + 1 + 1 + 1),
        ap (dot negative gray y 2) e,
      )

  digit2_1 : (x : ℕ) → byte2 negative gray y x / 16 % 4 ≡ dot negative gray y 2 (x + 1)
  digit2_1 x =
      let e : x + 1 ≡ x + 1 = omega arith in
      omega (
        arith,
        dot2-lt negative gray y x,
        dot2-lt negative gray y (x + 1),
        dot2-lt negative gray y (x + 1 + 1),
        dot2-lt negative gray y (x + 1 + 1 + 1),
        ap (dot negative gray y 2) e,
      )

  digit2_2 : (x : ℕ) → byte2 negative gray y x / 4 % 4 ≡ dot negative gray y 2 (x + 2)
  digit2_2 x =
      let e : x + 1 + 1 ≡ x + 2 = omega arith in
      omega (
        arith,
        dot2-lt negative gray y x,
        dot2-lt negative gray y (x + 1),
        dot2-lt negative gray y (x + 1 + 1),
        dot2-lt negative gray y (x + 1 + 1 + 1),
        ap (dot negative gray y 2) e,
      )

  digit2_3 : (x : ℕ) → byte2 negative gray y x / 1 % 4 ≡ dot negative gray y 2 (x + 3)
  digit2_3 x =
      let e : x + 1 + 1 + 1 ≡ x + 3 = omega arith in
      omega (
        arith,
        dot2-lt negative gray y x,
        dot2-lt negative gray y (x + 1),
        dot2-lt negative gray y (x + 1 + 1),
        dot2-lt negative gray y (x + 1 + 1 + 1),
        ap (dot negative gray y 2) e,
      )

  loop2_pixel :
      (m x k : ℕ) → k < m * 4 → pixel_at 2 (loop 2 (m * 4) x) k ≡ dot negative gray y 2 (x + k)
  loop2_pixel zero x k h = absurd (omega arith)
  loop2_pixel (suc m) x zero h = rw (loop2-suc m x) (digit2_0 x)
  loop2_pixel (suc m) x (suc zero) h = rw (loop2-suc m x) (digit2_1 x)
  loop2_pixel (suc m) x (suc (suc zero)) h = rw (loop2-suc m x) (digit2_2 x)
  loop2_pixel (suc m) x (suc (suc (suc zero))) h = rw (loop2-suc m x) (digit2_3 x)
  loop2_pixel (suc m) x (suc (suc (suc (suc k)))) h =
      let quot : (suc (suc (suc (suc k)))) * 2 / 8 ≡ suc (k * 2 / 8) = omega arith in
      let rem : (suc (suc (suc (suc k)))) * 2 % 8 ≡ k * 2 % 8 = omega arith in
      let e : x + 4 + k ≡ x + (suc (suc (suc (suc k)))) = omega arith in
      rw (loop2-suc m x, quot, rem)
        (loop2_pixel m (x + 4) k (omega arith) ∙ ap (dot negative gray y 2) e)

-- At depth 1 or 2, a row whose dots fill whole bytes becomes exactly width * depth / 8 bytes, and
-- the code of each pixel x < width, read back from its place in the row, is the dot code of the
-- gray value there against the threshold of the row and column.
pub halftone_row_pixels :
    (depth width : ℕ) (gray : List ℕ) (y : ℕ) (negative : Bool)
    → (depth ≡ 1) ⊎ (depth ≡ 2)
    → width * depth % 8 ≡ 0
    → (length (halftone_row gray width y depth negative) ≡ width * depth / 8)
      × ((x : ℕ)
          → x < width
          → pixel_at depth (halftone_row gray width y depth negative) x
            ≡ dot_code depth negative (get_or gray x 0) (threshold y x))
unfolding halftone_row
halftone_row_pixels depth width gray y negative (inl e) h =
    let h' : width * 1 % 8 ≡ 0 = ap (λ (d : ℕ). width * d % 8) (sym e) ∙ h in
    let e' : width ≡ width / 8 * 8 = omega arith in
    let q : width / 8 ≡ width * 1 / 8 = omega arith in
    rw e (
      ap (λ w. length (loop negative gray y 1 w 0)) e'
          ∙ length-loop1 negative gray y (width / 8) 0
          ∙ q,
      λ x hx.
          ap (λ w. pixel_at 1 (loop negative gray y 1 w 0) x) e'
          ∙ loop1_pixel negative gray y (width / 8) 0 x (omega arith)
          ∙ (let z : 0 + x ≡ x = omega arith in ap (dot negative gray y 1) z),
    )
halftone_row_pixels depth width gray y negative (inr e) h =
    let h' : width * 2 % 8 ≡ 0 = ap (λ (d : ℕ). width * d % 8) (sym e) ∙ h in
    let e' : width ≡ width / 4 * 4 = omega arith in
    let q : width / 4 ≡ width * 2 / 8 = omega arith in
    rw e (
      ap (λ w. length (loop negative gray y 2 w 0)) e'
          ∙ length-loop2 negative gray y (width / 4) 0
          ∙ q,
      λ x hx.
          ap (λ w. pixel_at 2 (loop negative gray y 2 w 0) x) e'
          ∙ loop2_pixel negative gray y (width / 4) 0 x (omega arith)
          ∙ (let z : 0 + x ≡ x = omega arith in ap (dot negative gray y 2) z),
    )
