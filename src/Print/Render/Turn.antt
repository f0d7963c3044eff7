-- ===== src/Print/Render/Turn.antt =====
-- The quarter turn of a sheet that is fed sideways.
use pantum_open.Base.{
  ℕ, zero, suc, ◌+◌, ◌-◌, ◌≤◌, ◌<◌, ◌≡◌, refl, ap, ◌∙◌, List, [], length, set, get_or, arith,
  length-set, get_or-set_self, get_or-set_ne, dec_lt,
}
use pantum_open.Print.Options.{JobOptions}
use pantum_open.Print.Layout.{PageLayout}
use pantum_open.Print.Halftone.{halftone_row}
use pantum_open.Print.Render.Defs.{Geometry, turned_row, quarter_turn}

-- Pixel k of a turned row is column y of the gray page, from the bottom line up.
pub turned_row-get :
    (gray : List (List ℕ)) (src_h y left x k : ℕ)
    → k < left
    → get_or (turned_row gray src_h y left x) k 0
      ≡ get_or (get_or gray (src_h - 1 - (x + k)) []) y 0
unfolding turned_row
turned_row-get gray src_h y zero x k h = elim h [ ]
turned_row-get gray src_h y (suc left) x zero h =
    let e : x ≡ x + 0 = omega arith in ap (λ j. get_or (get_or gray (src_h - 1 - j) []) y 0) e
turned_row-get gray src_h y (suc left) x (suc k) h =
    let e : x + 1 + k ≡ x + suc k = omega arith in
    turned_row-get gray src_h y left (x + 1) k (omega arith)
    ∙ ap (λ j. get_or (get_or gray (src_h - 1 - j) []) y 0) e

module _ (lay : PageLayout) (opt : JobOptions) (g : Geometry) (gray : List (List ℕ)) where
  abbrev pub turned_dots : ℕ → List ℕ
  turned_dots y =
      halftone_row (turned_row gray g.src_h y lay.video_x 0) lay.video_x y lay.depth opt.negative

  pub record Turned (left y : ℕ) (rows rows' : List (List ℕ)) : Type 0 where
    pub count : length rows' ≡ length rows
    pub made : (d : ℕ) → y ≤ d → d < y + left → get_or rows' d [] ≡ turned_dots d
    pub kept : (d : ℕ) → d < y → get_or rows' d [] ≡ get_or rows d []

  pub quarter_turn-Turned :
      (left y : ℕ) (rows : List (List ℕ))
      → y + left ≤ length rows
      → Turned left y rows (quarter_turn lay opt g gray left y rows)
  quarter_turn-Turned zero y rows h =
      unfold quarter_turn in
      record { count = refl; made = λ d p q. absurd (omega arith); kept = λ d p. refl }
  quarter_turn-Turned (suc left) y rows h =
      step left y rows
        (quarter_turn-Turned left (y + 1) (set rows y (turned_dots y))
          (omega (arith, length-set rows y (turned_dots y))))
        h
    where
      step :
          (left y : ℕ) (rows : List (List ℕ))
          → Turned left
              (y + 1)
              (set rows y (turned_dots y))
              (quarter_turn lay opt g gray left (y + 1) (set rows y (turned_dots y)))
          → y + suc left ≤ length rows
          → Turned (suc left) y rows (quarter_turn lay opt g gray (suc left) y rows)
      step left y rows ih h =
          unfold quarter_turn in
          record {
            count = ih.count ∙ length-set rows y (turned_dots y);
            made = λ d p q. elim (dec_lt y d) [
              | yes lt ↦ ih.made d (omega arith) (omega arith)
              | no ge ↦
                  let e : y ≡ d = omega arith in
                  rw (← e) (
                    ih.kept y (omega arith)
                    ∙ get_or-set_self rows y (turned_dots y) [] (omega arith))
            ];
            kept = λ d p.
                ih.kept d (omega arith) ∙ get_or-set_ne rows y d (turned_dots y) [] (omega arith);
          }
