-- ===== src/Wire.antt =====
-- Big-endian numbers as both programs write and read them: put_be16 and put_be32 of
-- src/rastertopantum.c, put_be32 (the same text) and get_be32 of src/pantum.c. A pointer into a
-- buffer is the list of the bytes that stand there.
use pantum_open.Base.{
  ℕ, ◌+◌, ◌*◌, ◌/◌, ◌%◌, ◌^◌, ◌<◌, ◌≡◌, List, [], ◌∷◌, ◌++◌, refl, arith, get_or, All, length, drop,
}

-- A uint8_t, a uint16_t and a uint32_t.
abbrev pub IsByte : ℕ → Type 0
IsByte b = b < 256

abbrev pub IsU16 : ℕ → Type 0
IsU16 v = v < 2 ^ 16

abbrev pub IsU32 : ℕ → Type 0
IsU32 v = v < 2 ^ 32

unfoldable pub put_be16 : ℕ → List ℕ
put_be16 v = (v / 2 ^ 8 % 256) ∷ (v % 256) ∷ []

unfoldable pub put_be32 : ℕ → List ℕ
put_be32 v = (v / 2 ^ 24 % 256) ∷ (v / 2 ^ 16 % 256) ∷ (v / 2 ^ 8 % 256) ∷ (v % 256) ∷ []

-- Four shifted bytes that do not overlap: joining them by `|` is adding them.
unfoldable pub get_be32 : List ℕ → ℕ
get_be32 p = get_or p 0 0 * 2 ^ 24 + get_or p 1 0 * 2 ^ 16 + get_or p 2 0 * 2 ^ 8 + get_or p 3 0

-- The 16-bit number at the front of a list; only the reading side of the tests and proofs needs it.
unfoldable pub get_be16 : List ℕ → ℕ
get_be16 p = get_or p 0 0 * 2 ^ 8 + get_or p 1 0

-- A word that is written is read back, whatever follows it; a wider number is cut to 32 bits.
pub get_be32-put_be32 : (v : ℕ) (rest : List ℕ) → get_be32 (put_be32 v ++ rest) ≡ v % 2 ^ 32
unfolding get_be32 put_be32
get_be32-put_be32 v rest = omega arith

pub get_be16-put_be16 : (v : ℕ) (rest : List ℕ) → get_be16 (put_be16 v ++ rest) ≡ v % 2 ^ 16
unfolding get_be16 put_be16
get_be16-put_be16 v rest = omega arith

pub put_be32-IsByte : (v : ℕ) → All IsByte (put_be32 v)
unfolding put_be32
put_be32-IsByte v = omega arith

pub length-put_be32 : (v : ℕ) → length (put_be32 v) ≡ 4
unfolding put_be32
length-put_be32 v = refl

pub length-put_be16 : (v : ℕ) → length (put_be16 v) ≡ 2
unfolding put_be16
length-put_be16 v = refl

pub drop-put_be32 : (v : ℕ) (rest : List ℕ) → drop 4 (put_be32 v ++ rest) ≡ rest
unfolding put_be32
drop-put_be32 v rest = refl

pub drop-put_be16 : (v : ℕ) (rest : List ℕ) → drop 2 (put_be16 v ++ rest) ≡ rest
unfolding put_be16
drop-put_be16 v rest = refl
