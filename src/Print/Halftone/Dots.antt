-- ===== src/Print/Halftone/Dots.antt =====
-- What the dot code says about toner.
use pantum_open.Base.{
  ℕ, zero, suc, ◌*◌, ◌+◌, ◌-◌, ◌≤◌, ◌<◌, ◌^◌, ◌%◌, ◌≡◌, refl, arith, true, false, Bool, List, [],
  ◌∷◌, get_or, leb, ◌&&◌, length, ◌⊎◌, inl, inr,
}
use pantum_open.Print.Halftone.Table.{ht_table_600}
use pantum_open.Print.Halftone.Defs.{dot_code, threshold}

-- Every threshold lies in 1..255, so that pure black and pure white never dither.
in_range : ℕ → Bool
in_range t = leb 1 t && leb t 255

all_in_range : List ℕ → Bool
all_in_range [] = true
all_in_range (t ∷ ts) = in_range t && all_in_range ts

all_in_range_get :
    (ts : List ℕ) (i : ℕ)
    → all_in_range ts ≡ true
    → i < length ts
    → (1 ≤ get_or ts i 0) × (get_or ts i 0 ≤ 255)
unfolding all_in_range in_range
all_in_range_get [] i e h = absurd (omega arith)
all_in_range_get (t ∷ ts) zero e h = ground arith
all_in_range_get (t ∷ ts) (suc i) e h = all_in_range_get ts i (ground arith) (omega arith)

pub threshold_range : (y x : ℕ) → (1 ≤ threshold y x) × (threshold y x ≤ 255)
unfolding threshold all_in_range in_range
threshold_range y x = all_in_range_get ht_table_600 (y % 16 * 16 + x % 16) refl (omega arith)

pub dot_code-lt :
    (depth : ℕ) (negative : Bool) (gray thr : ℕ)
    → (depth ≡ 1) ⊎ (depth ≡ 2)
    → dot_code depth negative gray thr < 2 ^ depth
unfolding dot_code
dot_code-lt depth negative gray thr (inl e) = rw e (ground arith)
dot_code-lt depth negative gray thr (inr e) = rw e (ground arith)

-- At depth 1 or 2 and on every screen position, pure white paper gets no toner and pure black gets
-- all of it; a negative job inverts every dot code; and a darker pixel never gets a lower code
-- than a lighter one.
pub dot_code_tones :
    (depth y x : ℕ)
    → (depth ≡ 1) ⊎ (depth ≡ 2)
    → (dot_code depth false 255 (threshold y x) ≡ 0)
      × (dot_code depth false 0 (threshold y x) ≡ 2 ^ depth - 1)
      × ((gray : ℕ)
          → dot_code depth true gray (threshold y x) + dot_code depth false gray (threshold y x)
            ≡ 2 ^ depth - 1)
      × ((dark light : ℕ)
          → dark ≤ light
          → dot_code depth false light (threshold y x) ≤ dot_code depth false dark (threshold y x))
unfolding dot_code
dot_code_tones depth y x (inl e) = rw e (
  ground (arith, threshold_range y x),
  ground (arith, threshold_range y x),
  λ gray. ground arith,
  λ dark light h. ground arith,
)
dot_code_tones depth y x (inr e) = rw e (
  ground (arith, threshold_range y x),
  ground (arith, threshold_range y x),
  λ gray. ground arith,
  λ dark light h. ground arith,
)
