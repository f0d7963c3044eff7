-- ===== src/Print/Halftone/Pack.antt =====
-- halftone_row packs one dot code to a pixel, first pixel in the highest bits.
use Prim.Native.Nat.{bit_or}
use pantum_open.Base.{
  ℕ, zero, suc, ◌+◌, ◌*◌, ◌/◌, ◌%◌, ◌<◌, ◌≡◌, refl, ◌∙◌, Bool, true, List, ◌∷◌, get_or, arith, ◌==◌,
  ◌&&◌, ==→eq, inl, inr,
}
use pantum_open.Print.Halftone.Defs.{dot_code, threshold, halftone_loop}
use pantum_open.Print.Halftone.Dots.{dot_code-lt}

-- A test that passes for all bytes below a bound, found by running it.
passes : (ℕ → Bool) → ℕ → Bool
passes test zero = true
passes test (suc last) = passes test last && test last

passes_each :
    (test : ℕ → Bool) (bound byte : ℕ) → byte < bound → passes test bound ≡ true → test byte ≡ true
unfolding passes
passes_each test zero byte small checked = elim small [ ]
passes_each test (suc last) byte small checked = ground (arith, passes_each test last byte)

-- Eight one-bit codes, and four two-bit codes, joined as the loop joins them.
or8 : ℕ → ℕ → ℕ → ℕ → ℕ → ℕ → ℕ → ℕ → ℕ
or8 a b c d e f g h =
    bit_or
      (bit_or
        (bit_or
          (bit_or (bit_or (bit_or (bit_or (bit_or 0 (a * 128)) (b * 64)) (c * 32)) (d * 16))
            (e * 8))
          (f * 4))
        (g * 2))
      (h * 1)

or4 : ℕ → ℕ → ℕ → ℕ → ℕ
or4 a b c d = bit_or (bit_or (bit_or (bit_or 0 (a * 64)) (b * 16)) (c * 4)) (d * 1)

or8_digits : ℕ → Bool
or8_digits i =
    or8 (i / 128) (i / 64 % 2) (i / 32 % 2) (i / 16 % 2) (i / 8 % 2) (i / 4 % 2) (i / 2 % 2) (i % 2)
    == i

or4_digits : ℕ → Bool
or4_digits i = or4 (i / 64) (i / 16 % 4) (i / 4 % 4) (i % 4) == i

or8_table : passes or8_digits 256 ≡ true
unfolding passes or8_digits or8
or8_table = refl

or4_table : passes or4_digits 256 ≡ true
unfolding passes or4_digits or4
or4_table = refl

or8-sum :
    (a b c d e f g h : ℕ)
    → a < 2
    → b < 2
    → c < 2
    → d < 2
    → e < 2
    → f < 2
    → g < 2
    → h < 2
    → or8 a b c d e f g h ≡ a * 128 + b * 64 + c * 32 + d * 16 + e * 8 + f * 4 + g * 2 + h
or8-sum a b c d e f g h ha hb hc hd he hf hg hh =
    let i = a * 128 + b * 64 + c * 32 + d * 16 + e * 8 + f * 4 + g * 2 + h in
    let ea : a ≡ i / 128 = omega arith in
    let eb : b ≡ i / 64 % 2 = omega arith in
    let ec : c ≡ i / 32 % 2 = omega arith in
    let ed : d ≡ i / 16 % 2 = omega arith in
    let ee : e ≡ i / 8 % 2 = omega arith in
    let ef : f ≡ i / 4 % 2 = omega arith in
    let eg : g ≡ i / 2 % 2 = omega arith in
    let eh : h ≡ i % 2 = omega arith in
    (λ j. or8 (ea j) (eb j) (ec j) (ed j) (ee j) (ef j) (eg j) (eh j))
    ∙ unfold or8_digits in ==→eq _ _ (passes_each or8_digits 256 i (omega arith) or8_table)

or4-sum : (a b c d : ℕ) → a < 4 → b < 4 → c < 4 → d < 4 → or4 a b c d ≡ a * 64 + b * 16 + c * 4 + d
or4-sum a b c d ha hb hc hd =
    let i = a * 64 + b * 16 + c * 4 + d in
    let ea : a ≡ i / 64 = omega arith in
    let eb : b ≡ i / 16 % 4 = omega arith in
    let ec : c ≡ i / 4 % 4 = omega arith in
    let ed : d ≡ i % 4 = omega arith in
    (λ j. or4 (ea j) (eb j) (ec j) (ed j))
    ∙ unfold or4_digits in ==→eq _ _ (passes_each or4_digits 256 i (omega arith) or4_table)

-- One round of eight pixels at depth 1, and of four at depth 2.
module _ (negative : Bool) (gray : List ℕ) (y : ℕ) where
  abbrev pub dot : ℕ → ℕ → ℕ
  dot depth x = dot_code depth negative (get_or gray x 0) (threshold y x)

  pub dot1-lt : (x : ℕ) → dot 1 x < 2
  dot1-lt x = dot_code-lt 1 negative (get_or gray x 0) (threshold y x) (inl refl)

  pub dot2-lt : (x : ℕ) → dot 2 x < 4
  dot2-lt x = dot_code-lt 2 negative (get_or gray x 0) (threshold y x) (inr refl)

  abbrev pub byte1 : ℕ → ℕ
  byte1 x =
      dot 1 x * 128
      + dot 1 (x + 1) * 64
      + dot 1 (x + 1 + 1) * 32
      + dot 1 (x + 1 + 1 + 1) * 16
      + dot 1 (x + 1 + 1 + 1 + 1) * 8
      + dot 1 (x + 1 + 1 + 1 + 1 + 1) * 4
      + dot 1 (x + 1 + 1 + 1 + 1 + 1 + 1) * 2
      + dot 1 (x + 1 + 1 + 1 + 1 + 1 + 1 + 1)

  abbrev pub byte2 : ℕ → ℕ
  byte2 x = dot 2 x * 64 + dot 2 (x + 1) * 16 + dot 2 (x + 1 + 1) * 4 + dot 2 (x + 1 + 1 + 1)

  or8-byte1 :
      (x : ℕ)
      → or8
            (dot 1 x)
            (dot 1 (x + 1))
            (dot 1 (x + 1 + 1))
            (dot 1 (x + 1 + 1 + 1))
            (dot 1 (x + 1 + 1 + 1 + 1))
            (dot 1 (x + 1 + 1 + 1 + 1 + 1))
            (dot 1 (x + 1 + 1 + 1 + 1 + 1 + 1))
            (dot 1 (x + 1 + 1 + 1 + 1 + 1 + 1 + 1))
          % 256
        ≡ byte1 x
  or8-byte1 x = omega (
    arith,
    or8-sum (dot 1 x) (dot 1 (x + 1)) (dot 1 (x + 1 + 1)) (dot 1 (x + 1 + 1 + 1))
        (dot 1 (x + 1 + 1 + 1 + 1)) (dot 1 (x + 1 + 1 + 1 + 1 + 1))
        (dot 1 (x + 1 + 1 + 1 + 1 + 1 + 1)) (dot 1 (x + 1 + 1 + 1 + 1 + 1 + 1 + 1)) (dot1-lt x)
        (dot1-lt (x + 1)) (dot1-lt (x + 1 + 1)) (dot1-lt (x + 1 + 1 + 1))
        (dot1-lt (x + 1 + 1 + 1 + 1)) (dot1-lt (x + 1 + 1 + 1 + 1 + 1))
        (dot1-lt (x + 1 + 1 + 1 + 1 + 1 + 1)) (dot1-lt (x + 1 + 1 + 1 + 1 + 1 + 1 + 1)),
    dot1-lt x,
    dot1-lt (x + 1),
    dot1-lt (x + 1 + 1),
    dot1-lt (x + 1 + 1 + 1),
    dot1-lt (x + 1 + 1 + 1 + 1),
    dot1-lt (x + 1 + 1 + 1 + 1 + 1),
    dot1-lt (x + 1 + 1 + 1 + 1 + 1 + 1),
    dot1-lt (x + 1 + 1 + 1 + 1 + 1 + 1 + 1),
  )

  or4-byte2 :
      (x : ℕ)
      → or4 (dot 2 x) (dot 2 (x + 1)) (dot 2 (x + 1 + 1)) (dot 2 (x + 1 + 1 + 1)) % 256 ≡ byte2 x
  or4-byte2 x = omega (
    arith,
    or4-sum (dot 2 x) (dot 2 (x + 1)) (dot 2 (x + 1 + 1)) (dot 2 (x + 1 + 1 + 1)) (dot2-lt x)
        (dot2-lt (x + 1)) (dot2-lt (x + 1 + 1)) (dot2-lt (x + 1 + 1 + 1)),
    dot2-lt x,
    dot2-lt (x + 1),
    dot2-lt (x + 1 + 1),
    dot2-lt (x + 1 + 1 + 1),
  )

  pub round1 :
      (left x : ℕ)
      → halftone_loop 1 negative gray y (suc (suc (suc (suc (suc (suc (suc (suc left)))))))) x 0 8
        ≡ byte1 x ∷ halftone_loop 1 negative gray y left (x + 8) 0 8
  unfolding halftone_loop or8
  round1 left x =
      let e : x + 1 + 1 + 1 + 1 + 1 + 1 + 1 + 1 ≡ x + 8 = omega arith in
      λ j. or8-byte1 x j ∷ halftone_loop 1 negative gray y left (e j) 0 8

  pub round2 :
      (left x : ℕ)
      → halftone_loop 2 negative gray y (suc (suc (suc (suc left)))) x 0 8
        ≡ byte2 x ∷ halftone_loop 2 negative gray y left (x + 4) 0 8
  unfolding halftone_loop or4
  round2 left x =
      let e : x + 1 + 1 + 1 + 1 ≡ x + 4 = omega arith in
      λ j. or4-byte2 x j ∷ halftone_loop 2 negative gray y left (e j) 0 8
