-- ===== src/Print/Halftone/Defs.antt =====
-- ht_level_to_code and halftone_row of src/rastertopantum.c.
use Prim.Native.Nat.{bit_or}
use pantum_open.Base.{
  ℕ, zero, suc, ◌+◌, ◌-◌, ◌*◌, ◌%◌, ◌^◌, Bool, List, [], ◌∷◌, get_or, ltb, leb, ◌==◌, ℤ, pos, sub_ℕ,
  ltb_ℤ, if◌then◌else◌,
}
use pantum_open.Print.Halftone.Table.{ht_table_600}

-- `level <= 0`, `< 24`, `< 64`
unfoldable pub ht_level_to_code : ℤ → ℕ
ht_level_to_code level =
    if ltb_ℤ (pos 0) level
    then (if ltb_ℤ level (pos 24) then 1 else if ltb_ℤ level (pos 64) then 2 else 3)
    else 0

-- thr_row[x & 15] of row y & 15
unfoldable pub threshold : ℕ → ℕ → ℕ
threshold y x = get_or ht_table_600 (y % 16 * 16 + x % 16) 0

-- `gray[x] == 0 ? 0xff : 0xff - gray[x] - thr`
unfoldable pub ink_level : ℕ → ℕ → ℤ
ink_level gray thr = if gray == 0 then pos 0xff else sub_ℕ 0xff (gray + thr)

-- The dot code of one pixel.
unfoldable pub dot_code : ℕ → Bool → ℕ → ℕ → ℕ
unfolding ht_level_to_code ink_level
dot_code depth negative gray thr =
    if depth == 1
    then (if negative then (if leb thr gray then 1 else 0) else if ltb gray thr then 1 else 0)
    else (let code = ht_level_to_code (ink_level gray thr) in if negative then 3 - code else code)

-- The loop from pixel x on, with `left` pixels to go; the result is what it writes through `out`.
unfoldable pub halftone_loop : ℕ → Bool → List ℕ → ℕ → ℕ → ℕ → ℕ → ℕ → List ℕ
halftone_loop depth negative gray y zero x acc shift = []
halftone_loop depth negative gray y (suc left) x acc shift =
    let code = dot_code depth negative (get_or gray x 0) (threshold y x) in
    let shift' = shift - depth in
    let acc' = bit_or acc (code * 2 ^ shift') in
    let full = (acc' % 256) ∷ halftone_loop depth negative gray y left (x + 1) 0 8 in
    let more = halftone_loop depth negative gray y left (x + 1) acc' shift' in
    if shift' == 0 then full else more

unfoldable pub halftone_row : List ℕ → ℕ → ℕ → ℕ → Bool → List ℕ
unfolding halftone_loop
halftone_row gray width y depth negative = halftone_loop depth negative gray y width 0 0 8
