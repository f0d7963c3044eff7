-- ===== src/Base/Slices.antt =====
-- Slices of lists: what `take` and `drop` give on joined lists.
use Prim.Native.Nat.{ℕ, zero, suc, ◌+◌, ◌-◌, ◌≤◌, ◌<◌, min}
use mathlib.Core.Path.{◌≡◌, refl, ap, ◌∙◌, sym}
use mathlib.Core.List.{List, [], ◌∷◌, ◌++◌}
use native.Mathlib.Omega.{arith}
use mathlib.Core.Logic.{inl, inr, ◌≢◌}
use mathlib.Core.Bool.{◌&&◌}
use pantum_open.Base.Tests.{◌==◌, ltb, if◌then◌else◌, Bool-cases, ltb→lt, ltb→ge}
use pantum_open.Base.Lists.{length-take, length, take, drop, get_or, set, replicate}

module _ {ℓ} {A : Type ℓ} where
  pub take-append_le : (n : ℕ) (xs ys : List A) → n ≤ length xs → take n (xs ++ ys) ≡ take n xs
  take-append_le zero xs ys h = refl
  take-append_le (suc n) [] ys h = elim h [ ]
  take-append_le (suc n) (x ∷ xs) ys h = ap (λ zs. x ∷ zs) (take-append_le n xs ys (omega arith))

  pub take-append_ge :
      (n : ℕ) (xs ys : List A) → length xs ≤ n → take n (xs ++ ys) ≡ xs ++ take (n - length xs) ys
  take-append_ge n [] ys h = let e : n ≡ n - 0 = omega arith in ap (λ k. take k ys) e
  take-append_ge zero (x ∷ xs) ys h = elim h [ ]
  take-append_ge (suc n) (x ∷ xs) ys h =
      let e : n - length xs ≡ suc n - suc (length xs) = omega arith in
      ap (λ zs. x ∷ zs) (take-append_ge n xs ys (omega arith) ∙ ap (λ k. xs ++ take k ys) e)

  pub drop-append_le :
      (n : ℕ) (xs ys : List A) → n ≤ length xs → drop n (xs ++ ys) ≡ drop n xs ++ ys
  drop-append_le zero xs ys h = refl
  drop-append_le (suc n) [] ys h = elim h [ ]
  drop-append_le (suc n) (x ∷ xs) ys h = drop-append_le n xs ys (omega arith)

  pub drop-drop : (m n : ℕ) (xs : List A) → drop n (drop m xs) ≡ drop (m + n) xs
  drop-drop zero n xs = let e : n ≡ 0 + n = omega arith in ap (λ k. drop k xs) e
  drop-drop (suc m) n [] = drop_nil n ∙ sym (drop_nil (suc m + n))
    where
      drop_nil : (k : ℕ) → drop {A = A} k [] ≡ []
      drop_nil zero = refl
      drop_nil (suc k) = refl
  drop-drop (suc m) n (x ∷ xs) =
      let e : suc (m + n) ≡ suc m + n = omega arith in
      drop-drop m n xs ∙ ap (λ k. drop k (x ∷ xs)) e

  pub get_or-append_lt :
      (xs ys : List A) (i : ℕ) (d : A) → i < length xs → get_or (xs ++ ys) i d ≡ get_or xs i d
  get_or-append_lt [] ys i d h = absurd (omega arith)
  get_or-append_lt (x ∷ xs) ys zero d h = refl
  get_or-append_lt (x ∷ xs) ys (suc i) d h = get_or-append_lt xs ys i d (omega arith)

  pub get_or-append_ge :
      (xs ys : List A) (i : ℕ) (d : A)
      → length xs ≤ i
      → get_or (xs ++ ys) i d ≡ get_or ys (i - length xs) d
  get_or-append_ge [] ys i d h = let e : i ≡ i - 0 = omega arith in ap (λ k. get_or ys k d) e
  get_or-append_ge (x ∷ xs) ys zero d h = elim h [ ]
  get_or-append_ge (x ∷ xs) ys (suc i) d h =
      let e : i - length xs ≡ suc i - suc (length xs) = omega arith in
      get_or-append_ge xs ys i d (omega arith) ∙ ap (λ k. get_or ys k d) e

  pub get_or-replicate : (n i : ℕ) (a d : A) → i < n → get_or (replicate n a) i d ≡ a
  get_or-replicate zero i a d h = elim h [ ]
  get_or-replicate (suc n) zero a d h = refl
  get_or-replicate (suc n) (suc i) a d h = get_or-replicate n i a d (omega arith)

  pub get_or-drop : (n i : ℕ) (xs : List A) (d : A) → get_or (drop n xs) i d ≡ get_or xs (n + i) d
  get_or-drop zero i xs d = let e : i ≡ 0 + i = omega arith in ap (λ k. get_or xs k d) e
  get_or-drop (suc n) i [] d = refl
  get_or-drop (suc n) i (x ∷ xs) d =
      let e : suc (n + i) ≡ suc n + i = omega arith in
      get_or-drop n i xs d ∙ ap (λ k. get_or (x ∷ xs) k d) e

  pub take-min-append : (n : ℕ) (xs ys : List A) → take n xs ≡ take (min n (length xs)) (xs ++ ys)
  take-min-append zero xs ys =
      let e : 0 ≡ min 0 (length xs) = omega arith in ap (λ k. take k (xs ++ ys)) e
  take-min-append (suc n) [] ys = let e : 0 ≡ min (suc n) 0 = omega arith in ap (λ k. take k ys) e
  take-min-append (suc n) (x ∷ xs) ys =
      let e : suc (min n (length xs)) ≡ min (suc n) (suc (length xs)) = omega arith in
      ap (λ zs. x ∷ zs) (take-min-append n xs ys) ∙ ap (λ k. take k (x ∷ (xs ++ ys))) e

  pub take-add-append : (n : ℕ) (xs ys : List A) → xs ++ take n ys ≡ take (length xs + n) (xs ++ ys)
  take-add-append n [] ys = let e : n ≡ 0 + n = omega arith in ap (λ k. take k ys) e
  take-add-append n (x ∷ xs) ys =
      let e : suc (length xs + n) ≡ suc (length xs) + n = omega arith in
      ap (λ zs. x ∷ zs) (take-add-append n xs ys) ∙ ap (λ k. take k (x ∷ (xs ++ ys))) e

  -- A write in range is read back; every other place keeps its value.
  pub get_or-set :
      (xs : List A) (i j : ℕ) (v d : A)
      → get_or (set xs i v) j d ≡ (if i == j && ltb i (length xs) then v else get_or xs j d)
  get_or-set [] i j v d = ground arith
  get_or-set (x ∷ xs) zero zero v d = ground arith
  get_or-set (x ∷ xs) zero (suc j) v d = ground arith
  get_or-set (x ∷ xs) (suc i) zero v d = ground arith
  get_or-set (x ∷ xs) (suc i) (suc j) v d = ground (arith, get_or-set xs i j v d)

  pub get_or-take : (n i : ℕ) (xs : List A) (d : A) → i < n → get_or (take n xs) i d ≡ get_or xs i d
  get_or-take zero i xs d h = elim h [ ]
  get_or-take (suc n) i [] d h = refl
  get_or-take (suc n) zero (x ∷ xs) d h = refl
  get_or-take (suc n) (suc i) (x ∷ xs) d h = get_or-take n i xs d (omega arith)

  -- The first n elements, and k copies of v behind them.
  pub get_or-padded :
      (n k x : ℕ) (xs : List A) (v d : A)
      → n ≤ length xs
      → x < n + k
      → get_or (take n xs ++ replicate k v) x d ≡ (if ltb x n then get_or xs x d else v)
  get_or-padded n k x xs v d hn hx = elim (Bool-cases (ltb x n)) [
    | inl e ↦
        let lt : x < n = ltb→lt x n e in
        rw e (
          get_or-append_lt (take n xs) (replicate k v) x d (omega (arith, length-take n xs))
          ∙ get_or-take n x xs d lt)
    | inr e ↦
        let ge : n ≤ x = ltb→ge x n e in
        rw e (
          get_or-append_ge (take n xs) (replicate k v) x d (omega (arith, length-take n xs))
          ∙ get_or-replicate k (x - length (take n xs)) v d (omega (arith, length-take n xs)))
  ]

  pub get_or-set_self :
      (xs : List A) (i : ℕ) (v d : A) → i < length xs → get_or (set xs i v) i d ≡ v
  get_or-set_self xs i v d h = ground (arith, get_or-set xs i i v d)

  pub get_or-set_ne :
      (xs : List A) (i j : ℕ) (v d : A) → i ≢ j → get_or (set xs i v) j d ≡ get_or xs j d
  get_or-set_ne xs i j v d h = ground (arith, get_or-set xs i j v d)
