-- ===== src/Print/Render/Swap.antt =====
-- The loop that turns a row around in place.
use pantum_open.Base.{
  ℕ, zero, suc, ◌+◌, ◌-◌, ◌≤◌, ◌<◌, ◌≡◌, refl, ap, ◌∙◌, Bool, true, false, List, length, set,
  get_or, get_or-set, length-set, ltb, leb, ◌==◌, ◌&&◌, if◌then◌else◌, arith, Bool-cases, inl, inr,
  ltb→lt, ltb→ge,
}
use pantum_open.Print.Render.Defs.{swap_loop, turn_around}

length-swap_loop : (fuel a b : ℕ) (row : List ℕ) → length (swap_loop fuel a b row) ≡ length row
unfolding swap_loop
length-swap_loop zero a b row = refl
length-swap_loop (suc fuel) a b row =
    let inner = set row a (get_or row b 0) in
    let swapped = set inner b (get_or row a 0) in
    ground (
      arith,
      length-swap_loop fuel (a + 1) (b - 1) swapped,
      length-set inner b (get_or row a 0),
      length-set row a (get_or row b 0),
    )

abbrev swapped : ℕ → ℕ → List ℕ → List ℕ
swapped a b row = set (set row a (get_or row b 0)) b (get_or row a 0)

get_or-swapped :
    (a b : ℕ) (row : List ℕ) (j : ℕ)
    → a < b
    → b < length row
    → get_or (swapped a b row) j 0
      ≡ (if a == j then get_or row b 0 else if b == j then get_or row a 0 else get_or row j 0)
get_or-swapped a b row j ha hb = ground (
  arith,
  length-set row a (get_or row b 0),
  get_or-set (set row a (get_or row b 0)) b j (get_or row a 0) 0,
  get_or-set row a j (get_or row b 0) 0,
)

-- One round of reversing the places a to b of a sequence r, where s is r with a and b exchanged.
reverse_step :
    (r s : ℕ → ℕ) (a b i x : ℕ)
    → a < b
    → ((j : ℕ) → s j ≡ (if a == j then r b else if b == j then r a else r j))
    → x ≡ (if leb (a + 1) i && leb i (b - 1) then s (a + b - i) else s i)
    → x ≡ (if leb a i && leb i b then r (a + b - i) else r i)
reverse_step r s a b i x ha h e = ground (arith, h i, h (a + b - i))

-- With a fuel of the distance the loop reverses the pixels from a to b and keeps the others.
swap_loop-get :
    (fuel a b : ℕ) (row : List ℕ) (i : ℕ)
    → b < length row
    → b ≤ a + fuel
    → get_or (swap_loop fuel a b row) i 0
      ≡ (if leb a i && leb i b then get_or row (a + b - i) 0 else get_or row i 0)
unfolding swap_loop
swap_loop-get zero a b row i hb hf = ground arith
swap_loop-get (suc fuel) a b row i hb hf = elim (Bool-cases (ltb a b)) [
  | inr e ↦ rw e (ground (arith, ltb→ge a b e))
  | inl e ↦
      let lt : a < b = ltb→lt a b e in
      let k : a + 1 + (b - 1) - i ≡ a + b - i = omega arith in
      let ih =
        swap_loop-get fuel (a + 1) (b - 1) (swapped a b row) i
          (omega (
            arith,
            length-set (set row a (get_or row b 0)) b (get_or row a 0),
            length-set row a (get_or row b 0),
          ))
          (omega arith) in
      rw e (
        reverse_step (λ j. get_or row j 0) (λ j. get_or (swapped a b row) j 0) a b i _ lt
          (λ j. get_or-swapped a b row j lt hb)
          (ih
            ∙ ap
                (λ m.
                  if leb (a + 1) i && leb i (b - 1)
                  then get_or (swapped a b row) m 0
                  else get_or (swapped a b row) i 0)
                k))
]

-- For a row of at least src_w pixels, src_w being positive, ImageRotation reads the first src_w
-- pixels from their other end and leaves the rest of the buffer; without it nothing moves.
pub turn_around-get :
    (rotate180 : Bool) (src_w : ℕ) (row : List ℕ) (x : ℕ)
    → 0 < src_w
    → src_w ≤ length row
    → get_or (turn_around rotate180 src_w row) x 0
      ≡ (if rotate180 && ltb x src_w then get_or row (src_w - 1 - x) 0 else get_or row x 0)
unfolding turn_around
turn_around-get false src_w row x hp hl = refl
turn_around-get true src_w row x hp hl =
    let e : 0 + (src_w - 1) - x ≡ src_w - 1 - x = omega arith in
    swap_loop-get src_w 0 (src_w - 1) row x (omega arith) (omega arith)
    ∙ ap (λ k. if leb 0 x && leb x (src_w - 1) then get_or row k 0 else get_or row x 0) e
    ∙ ground arith

pub length-turn_around :
    (rotate180 : Bool) (src_w : ℕ) (row : List ℕ)
    → length (turn_around rotate180 src_w row) ≡ length row
unfolding turn_around
length-turn_around false src_w row = refl
length-turn_around true src_w row = length-swap_loop src_w 0 (src_w - 1) row
