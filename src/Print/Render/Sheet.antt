-- ===== src/Print/Render/Sheet.antt =====
-- The loop of render_page over the lines of the sheet.
use pantum_open.Base.{
  dec_lt, ℕ, zero, suc, ◌+◌, ◌-◌, ◌≤◌, ◌<◌, ◌≡◌, ◌≢◌, refl, ◌∙◌, Bool, some, List, [], length, set,
  get_or, ltb, ◌&&◌, if◌then◌else◌, arith, Bool-cases, inl, inr, length-set, get_or-set_self,
  get_or-set_ne, min, lt→ltb,
}
use pantum_open.Print.Options.{JobOptions}
use pantum_open.Print.Layout.{PageHeader, PageLayout}
use pantum_open.Print.Render.Defs.{
  ReadResult, Geometry, load_row, turn_around, dest_row, make_row, render_rows,
}
use pantum_open.Print.Render.Swap.{turn_around-get, length-turn_around}
use pantum_open.Print.Render.Lines.{
  IsWide, after_reads, Delivers, gray_at, RowReady, RowLoaded, load_row-RowLoaded,
}

-- The column of the sheet line that stands at column x of a row.
abbrev pub source_column : Bool → ℕ → ℕ → ℕ
source_column rotate180 src_w x = if rotate180 then src_w - 1 - x else x

dest_row-lt : (r : Bool) (h y : ℕ) → y < h → dest_row r h y < h
unfolding dest_row
dest_row-lt r h y p = ground arith

dest_row-ne : (r : Bool) (h y z : ℕ) → y < h → z < h → y ≢ z → dest_row r h y ≢ dest_row r h z
unfolding dest_row
dest_row-ne r h y z p q ne = ground arith

module _ {R : Type 0} (read_pixels : ℕ → R → ReadResult R) (hdr : PageHeader) (lay : PageLayout)
    (opt : JobOptions) (g : Geometry) (ras : R) where
  -- A full row buffer that shows line y, turned around where the job asks for it.
  pub record Shown (y : ℕ) (row : List ℕ) : Type 0 where
    pub full : length row ≡ g.rowlen
    pub shows :
        (x : ℕ)
        → x < g.src_w
        → get_or row x 0 ≡ gray_at read_pixels hdr ras y (source_column opt.rotate180 g.src_w x)

  turned-Shown :
      (y : ℕ) (row : List ℕ)
      → IsWide hdr g
      → RowLoaded read_pixels hdr g ras y row
      → Shown y (turn_around opt.rotate180 g.src_w row)
        × RowReady read_pixels hdr g (y + 1) (turn_around opt.rotate180 g.src_w row)
  turned-Shown y row w l = (
    record {
      full = length-turn_around opt.rotate180 g.src_w row ∙ l.full;
      shows = λ x hx. at x ∙ shown x hx;
    },
    record {
      full = length-turn_around opt.rotate180 g.src_w row ∙ l.full;
      blank = λ h x hx.
          at x
          ∙ ground (
            arith,
            w.wide,
            w.some_width,
            l.blank (omega arith) x,
            l.blank (omega arith) (g.src_w - 1 - x),
          );
    },
  )
    where
      at :
          (x : ℕ)
          → get_or (turn_around opt.rotate180 g.src_w row) x 0 ≡ (
              if opt.rotate180 && ltb x g.src_w
              then get_or row (g.src_w - 1 - x) 0
              else get_or row x 0)
      at x =
          turn_around-get opt.rotate180 g.src_w row x w.some_width (omega (arith, l.full, w.wide))

      shown :
          (x : ℕ)
          → x < g.src_w
          → (if opt.rotate180 && ltb x g.src_w
              then get_or row (g.src_w - 1 - x) 0
              else get_or row x 0)
            ≡ gray_at read_pixels hdr ras y (source_column opt.rotate180 g.src_w x)
      shown x hx = elim (Bool-cases opt.rotate180) [
        | inl e ↦ rw (e, lt→ltb x g.src_w hx) (l.shows (g.src_w - 1 - x) (omega arith))
        | inr e ↦ rw e (l.shows x hx)
      ]

  render_rows_step :
      (left y : ℕ) (s s' : R) (row loaded : List ℕ) (rows : List (List ℕ))
      → load_row read_pixels hdr g y s row ≡ some (s', loaded)
      → render_rows read_pixels hdr lay opt g (suc left) y s row rows
        ≡ render_rows read_pixels hdr lay opt g left
            (y + 1)
            s'
            (turn_around opt.rotate180 g.src_w loaded)
            (set rows (dest_row opt.rotate180 g.src_h y) (
              make_row lay opt g
                (dest_row opt.rotate180 g.src_h y)
                (turn_around opt.rotate180 g.src_w loaded)))
  unfolding render_rows
  render_rows_step left y s s' row loaded rows e = rw (e, render_rows)

  abbrev pub dest : ℕ → ℕ
  dest y = dest_row opt.rotate180 g.src_h y

  -- What lines y to src_h - 1 leave in the page buffer.
  pub record Rendered (y : ℕ) (rows rows' : List (List ℕ)) : Type 0 where
    pub count : length rows' ≡ length rows
    pub made :
        (z : ℕ)
        → y ≤ z
        → z < g.src_h
        → (row : List ℕ) × Shown z row
          × (get_or rows' (dest z) [] ≡ make_row lay opt g (dest z) row)
    pub kept :
        (d : ℕ)
        → ((z : ℕ) → y ≤ z → z < g.src_h → dest z ≢ d)
        → get_or rows' d [] ≡ get_or rows d []

  Rendered-suc :
      (y : ℕ) (rows rows' : List (List ℕ)) (row : List ℕ)
      → y < g.src_h
      → g.src_h ≤ length rows
      → Shown y row
      → Rendered (y + 1) (set rows (dest y) (make_row lay opt g (dest y) row)) rows'
      → Rendered y rows rows'
  Rendered-suc y rows rows' row hy hl s ih = record {
    count = ih.count ∙ length-set rows (dest y) (make_row lay opt g (dest y) row);
    made = λ z hz lt. elim (dec_lt y z) [
      | yes p ↦ ih.made z (omega arith) lt
      | no p ↦ let e : y ≡ z = omega arith in here z e
    ];
    kept = λ d out.
        ih.kept d (λ z hz lt. out z (omega arith) lt)
        ∙ get_or-set_ne rows (dest y) d (make_row lay opt g (dest y) row) []
            (out y (omega arith) hy);
  }
    where
      first : get_or rows' (dest y) [] ≡ make_row lay opt g (dest y) row
      first =
          ih.kept (dest y) (λ z hz lt. dest_row-ne opt.rotate180 g.src_h z y lt hy (omega arith))
          ∙ get_or-set_self rows (dest y) (make_row lay opt g (dest y) row) []
              (omega (arith, dest_row-lt opt.rotate180 g.src_h y hy))

      here :
          (z : ℕ)
          → y ≡ z
          → (r : List ℕ) × Shown z r × (get_or rows' (dest z) [] ≡ make_row lay opt g (dest z) r)
      here z e = rw (← e) (row, s, first)

  -- The loop from line y on.
  pub render_rows-Rendered :
      (left y : ℕ) (row : List ℕ) (rows : List (List ℕ))
      → IsWide hdr g
      → Delivers read_pixels hdr ras (min hdr.cups_height g.src_h)
      → y + left ≡ g.src_h
      → g.src_h ≤ length rows
      → RowReady read_pixels hdr g y row
      → (rows' : List (List ℕ)) × (render_rows read_pixels hdr lay opt g left y
            (after_reads read_pixels hdr ras (min y hdr.cups_height))
            row
            rows
          ≡ some (after_reads read_pixels hdr ras (min g.src_h hdr.cups_height), rows'))
        × Rendered y rows rows'
  render_rows-Rendered zero y row rows w d e hl r =
      let e' : y ≡ g.src_h = omega arith in
      (
        rows,
        unfold render_rows in rw e',
        record { count = refl; made = λ z hz lt. absurd (omega arith); kept = λ k out. refl },
      )
  render_rows-Rendered (suc left) y row rows w d e hl r =
      let (loaded, le, l) =
        load_row-RowLoaded read_pixels hdr g ras y row w (λ h. d y (omega arith)) r in
      let (shown, ready) = turned-Shown y loaded w l in
      let row' = turn_around opt.rotate180 g.src_w loaded in
      let rows1 = set rows (dest y) (make_row lay opt g (dest y) row') in
      let (rows', re, ih) =
        render_rows-Rendered left (y + 1) row' rows1 w d (omega arith)
          (omega (arith, length-set rows (dest y) (make_row lay opt g (dest y) row'))) ready in
      (
        rows',
        render_rows_step left y _ _ row loaded rows le ∙ re,
        Rendered-suc y rows rows' row' (omega arith) hl shown ih,
      )
