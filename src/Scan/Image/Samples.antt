-- ===== src/Scan/Image/Samples.antt =====
-- What the fills and the loops of convert_row in src/pantum.c put into each byte.

use pantum_open.Base.{
  ℕ, zero, suc, ◌+◌, ◌-◌, ◌*◌, ◌≤◌, ◌<◌, ◌≡◌, refl, ap, ◌∙◌, ◌&&◌, List, ◌++◌, length, take, drop,
  get_or, set, replicate, get_or-set, get_or-append_lt, get_or-append_ge, get_or-take, get_or-drop,
  get_or-replicate, length-set, length-take, length-replicate, ltb, leb, ◌==◌, ltb→lt, ltb→ge,
  ==→eq, if◌then◌else◌, Bool-cases, inl, inr, arith,
}
use pantum_open.Scan.Image.Rows.{fill, gray_loop, rgb_loop}

pub get_or-fill :
    (at n v x : ℕ) (dst : List ℕ)
    → at + n ≤ length dst
    → x < length dst
    → get_or (fill at n v dst) x 0 ≡ (if leb at x && ltb x (at + n) then v else get_or dst x 0)
unfolding fill
get_or-fill at n v x dst h k =
    let lt : length (take at dst) ≡ at = omega (arith, length-take at dst) in
    let lr : length (replicate n v) ≡ n = length-replicate n v in
    let back : at + n ≤ x → at + n + (x - length (take at dst) - length (replicate n v)) ≡ x =
      λ l. omega (arith, l, lt, lr) in
    elim (Bool-cases (ltb x at)) [
      | inl e ↦
          get_or-append_lt (take at dst) (replicate n v ++ drop (at + n) dst) x 0
            (omega (arith, ltb→lt x at e, lt))
          ∙ get_or-take at x dst 0 (ltb→lt x at e)
          ∙ ground (arith, e)
      | inr e ↦
          get_or-append_ge (take at dst) (replicate n v ++ drop (at + n) dst) x 0
            (omega (arith, ltb→ge x at e, lt))
          ∙ elim (Bool-cases (ltb x (at + n))) [
            | inl f ↦
                get_or-append_lt (replicate n v) (drop (at + n) dst) (x - length (take at dst)) 0
                  (omega (arith, ltb→lt x (at + n) f, ltb→ge x at e, lt, lr))
                ∙ get_or-replicate n (x - length (take at dst)) v 0
                    (omega (arith, ltb→lt x (at + n) f, ltb→ge x at e, lt))
                ∙ ground (arith, e, f)
            | inr f ↦
                get_or-append_ge (replicate n v) (drop (at + n) dst) (x - length (take at dst)) 0
                  (omega (arith, ltb→ge x (at + n) f, ltb→ge x at e, lt, lr))
                ∙ get_or-drop (at + n) (x - length (take at dst) - length (replicate n v)) dst 0
                ∙ ap (λ i. get_or dst i 0) (back (ltb→ge x (at + n) f))
                ∙ ground (arith, e, f)
          ]
    ]

pub get_or-gray_loop :
    (lut src : List ℕ) (left i x : ℕ) (dst : List ℕ)
    → i + left ≤ length dst
    → get_or (gray_loop lut src left i dst) x 0
      ≡ (if leb i x && ltb x (i + left) then get_or lut (get_or src x 0) 0 else get_or dst x 0)
unfolding gray_loop
get_or-gray_loop lut src zero i x dst h = ground arith
get_or-gray_loop lut src (suc left) i x dst h =
    let v = get_or lut (get_or src i 0) 0 in
    get_or-gray_loop lut src left (i + 1) x (set dst i v) (omega (arith, length-set dst i v))
    ∙ elim (Bool-cases (i == x)) [
      | inl e ↦
          let here : i ≡ x = ==→eq i x e in
          let same : v ≡ get_or lut (get_or src x 0) 0 =
            ap (λ k. get_or lut (get_or src k 0) 0) here in
          ground (arith, e, same, get_or-set dst i x v 0)
      | inr e ↦ ground (arith, e, get_or-set dst i x v 0)
    ]

-- The sample that goes into sample `c` of pixel `x`.
abbrev pub rgb_sample : List ℕ → List ℕ → ℕ → ℕ → ℕ
rgb_sample lut src x c = get_or lut (get_or src (3 * x + (2 - c)) 0) 0

-- One pixel of the loop.
rgb_pixel :
    (v0 v1 v2 : ℕ) (i x c : ℕ) (dst : List ℕ)
    → c < 3
    → 3 * i + 3 ≤ length dst
    → get_or (set (set (set dst (3 * i) v0) (3 * i + 1) v1) (3 * i + 2) v2) (3 * x + c) 0 ≡ (
        if i == x
        then (if c == 0 then v0 else if c == 1 then v1 else v2)
        else get_or dst (3 * x + c) 0)
rgb_pixel v0 v1 v2 i x c dst k h = ground (
  arith,
  get_or-set (set (set dst (3 * i) v0) (3 * i + 1) v1) (3 * i + 2) (3 * x + c) v2 0,
  get_or-set (set dst (3 * i) v0) (3 * i + 1) (3 * x + c) v1 0,
  get_or-set dst (3 * i) (3 * x + c) v0 0,
  length-set (set dst (3 * i) v0) (3 * i + 1) v1,
  length-set dst (3 * i) v0,
)

rgb_pixel-sample :
    (lut src : List ℕ) (i x c : ℕ) (dst : List ℕ)
    → c < 3
    → 3 * i + 3 ≤ length dst
    → get_or
        (set
          (set (set dst (3 * i) (rgb_sample lut src i 0)) (3 * i + 1) (rgb_sample lut src i 1))
          (3 * i + 2)
          (get_or lut (get_or src (3 * i) 0) 0))
        (3 * x + c)
        0
      ≡ (if i == x then rgb_sample lut src x c else get_or dst (3 * x + c) 0)
rgb_pixel-sample lut src i x c dst k h =
    rgb_pixel _ _ _ i x c dst k h ∙ elim (Bool-cases (i == x)) [
      | inl e ↦
          let here : i ≡ x = ==→eq i x e in
          let last : 3 * i ≡ 3 * i + 0 = omega arith in
          let picks : (if c == 0
                then rgb_sample lut src i 0
                else if c == 1
                then rgb_sample lut src i 1
                else get_or lut (get_or src (3 * i) 0) 0)
              ≡ rgb_sample lut src i c =
            pick c k last in
          ground (arith, e, picks, ap (λ j. rgb_sample lut src j c) here)
      | inr e ↦ ground (arith, e)
    ]
  where
    pick :
        (c : ℕ)
        → c < 3
        → 3 * i ≡ 3 * i + 0
        → (if c == 0
            then rgb_sample lut src i 0
            else if c == 1
            then rgb_sample lut src i 1
            else get_or lut (get_or src (3 * i) 0) 0)
          ≡ rgb_sample lut src i c
    pick zero l e = refl
    pick (suc zero) l e = refl
    pick (suc (suc zero)) l e = ap (λ n. get_or lut (get_or src n 0) 0) e
    pick (suc (suc (suc c))) l e = absurd (omega arith)

pub get_or-rgb_loop :
    (lut src : List ℕ) (left i x c : ℕ) (dst : List ℕ)
    → c < 3
    → 3 * (i + left) ≤ length dst
    → get_or (rgb_loop lut src left i dst) (3 * x + c) 0
      ≡ (if leb i x && ltb x (i + left) then rgb_sample lut src x c else get_or dst (3 * x + c) 0)
unfolding rgb_loop
get_or-rgb_loop lut src zero i x c dst k h = ground arith
get_or-rgb_loop lut src (suc left) i x c dst k h =
    get_or-rgb_loop lut src left (i + 1) x c _ k (
      omega (
        arith,
        length-set _ (3 * i + 2) (get_or lut (get_or src (3 * i) 0) 0),
        length-set (set dst (3 * i) (rgb_sample lut src i 0)) (3 * i + 1) (rgb_sample lut src i 1),
        length-set dst (3 * i) (rgb_sample lut src i 0),
      ))
    ∙ ap (λ z. if leb (i + 1) x && ltb x (i + 1 + left) then rgb_sample lut src x c else z)
        (rgb_pixel-sample lut src i x c dst k (omega arith))
    ∙ ground arith
