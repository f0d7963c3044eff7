-- ===== src/Print/Paper/Lookup.antt =====
-- paper_find against the table.
use pantum_open.Base.{ℕ, ◌≡◌, refl, some, List, [], ◌∷◌, All, arith}
use pantum_open.Print.Paper.{PaperEntry, paper_table, search_from, paper_find}

search_from-size :
    (ps : List PaperEntry) (w h : ℕ) (p : PaperEntry)
    → search_from ps w h ≡ some p
    → (p.width_pt ≡ w) × (p.height_pt ≡ h)
unfolding search_from
search_from-size [] w h p e = cc
search_from-size (q ∷ ps) w h p e = ground (arith, search_from-size ps w h p)

-- What is found has the size that was asked for, and every row of the table is found by its own
-- size, so that no row hides another.
pub paper_find_lem :
    ((w h : ℕ) (p : PaperEntry) → paper_find w h ≡ some p → (p.width_pt ≡ w) × (p.height_pt ≡ h))
    × All (λ (p : PaperEntry). paper_find p.width_pt p.height_pt ≡ some p) paper_table
unfolding paper_find
paper_find_lem = (
  λ w h p e. search_from-size paper_table w h p e,
  (
    refl,
    (
      refl,
      (
        refl,
        (
          refl,
          (
            refl,
            (
              refl,
              (
                refl,
                (
                  refl,
                  (
                    refl,
                    (
                      refl,
                      (
                        refl,
                        (
                          refl,
                          (
                            refl,
                            (
                              refl,
                              (
                                refl,
                                (refl, (refl, (refl, (refl, (refl, (refl, (refl, (refl, tt)))))))),
                              ),
                            ),
                          ),
                        ),
                      ),
                    ),
                  ),
                ),
              ),
            ),
          ),
        ),
      ),
    ),
  ),
)
