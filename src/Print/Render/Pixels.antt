-- ===== src/Print/Render/Pixels.antt =====
-- The page bitmap, dot by dot.
use pantum_open.Base.{
  ℕ, ◌+◌, ◌-◌, ◌*◌, ◌%◌, ◌≤◌, ◌<◌, ◌≡◌, refl, sym, ap, ◌∙◌, Bool, true, false, some, List, [], take,
  length, get_or, get_or-take, length-replicate, get_or-replicate, min, if◌then◌else◌, arith, ◌⊎◌,
  inl, inr, Bool-cases,
}
use pantum_open.Print.Options.{JobOptions}
use pantum_open.Print.Layout.{PageHeader, PageLayout, page_layout, depth_of}
use pantum_open.Print.Layout.Geometry.{IsPadded, IsAdmitted, page_layout-IsUsable}
use pantum_open.Print.Halftone.{halftone_row, dot_code, threshold}
use pantum_open.Print.Halftone.Row.{pixel_at, halftone_row_pixels}
use pantum_open.Print.Render.Defs.{
  ReadResult, Geometry, geometry, white, dest_row, make_row, render_rows, page_bitmap, drain_lines,
  bytes_per_row, turned_row, quarter_turn,
}
use pantum_open.Print.Render.Lines.{geometry-IsWide, after_reads, Delivers, gray_at, RowReady}
use pantum_open.Print.Render.Sheet.{source_column, Shown, Rendered, render_rows-Rendered}
use pantum_open.Print.Render.Turn.{Turned, quarter_turn-Turned, turned_row-get}

-- Line and column of the raster behind the dot at row y and column x of the sheet: a turned sheet
-- shows the raster a quarter turn clockwise, and a half turn counts both from their other end.
abbrev pub source_line_of : PageLayout → JobOptions → ℕ → ℕ → ℕ
source_line_of lay opt y x =
    if lay.rotate90
    then (if opt.rotate180 then x else lay.video_x - 1 - x)
    else (if opt.rotate180 then lay.video_y - 1 - y else y)

abbrev pub source_column_of : PageLayout → JobOptions → ℕ → ℕ → ℕ
source_column_of lay opt y x =
    if lay.rotate90
    then (if opt.rotate180 then lay.video_y - 1 - y else y)
    else (if opt.rotate180 then lay.video_x - 1 - x else x)

dest_row-dest_row : (r : Bool) (h y : ℕ) → y < h → dest_row r h (dest_row r h y) ≡ y
unfolding dest_row
dest_row-dest_row r h y p = ground arith

dest_row-lt : (r : Bool) (h y : ℕ) → y < h → dest_row r h y < h
unfolding dest_row
dest_row-lt r h y p = ground arith

-- The geometry of the two kinds of sheet.
upright_geometry :
    (hdr : PageHeader) (lay : PageLayout)
    → lay.rotate90 ≡ false
    → ((geometry hdr lay).src_h ≡ lay.video_y) × ((geometry hdr lay).src_w ≡ lay.video_x)
unfolding geometry
upright_geometry hdr lay e = ground arith

turned_geometry :
    (hdr : PageHeader) (lay : PageLayout)
    → lay.rotate90 ≡ true
    → ((geometry hdr lay).src_h ≡ lay.video_x) × ((geometry hdr lay).src_w ≡ lay.video_y)
unfolding geometry
turned_geometry hdr lay e = ground arith

make_row_upright :
    (lay : PageLayout) (opt : JobOptions) (g : Geometry) (y : ℕ) (row : List ℕ)
    → lay.rotate90 ≡ false
    → make_row lay opt g y row ≡ halftone_row row lay.video_x y lay.depth opt.negative
unfolding make_row
make_row_upright lay opt g y row e = ground arith

make_row_turned :
    (lay : PageLayout) (opt : JobOptions) (g : Geometry) (y : ℕ) (row : List ℕ)
    → lay.rotate90 ≡ true
    → make_row lay opt g y row ≡ take g.src_w row
unfolding make_row
make_row_turned lay opt g y row e = ground arith

module _ {R : Type 0} (read_pixels : ℕ → R → ReadResult R) (hdr : PageHeader) (lay : PageLayout)
    (opt : JobOptions) (ras : R) where
  abbrev dot_at : ℕ → ℕ → ℕ
  dot_at y x =
      dot_code lay.depth opt.negative
        (gray_at read_pixels hdr ras (source_line_of lay opt y x) (source_column_of lay opt y x))
        (threshold y x)

  -- Every dot of the page bitmap is the dither of the raster pixel behind it.
  pub record ShowsRaster (rows : List (List ℕ)) : Type 0 where
    pub lines : length rows ≡ lay.video_y
    pub dots :
        (y x : ℕ)
        → y < lay.video_y
        → x < lay.video_x
        → pixel_at lay.depth (get_or rows y []) x ≡ dot_at y x

  module _ (hd : (lay.depth ≡ 1) ⊎ (lay.depth ≡ 2)) (hp : IsPadded lay.video_x lay.video_y) where
    whole_bytes : lay.video_x * lay.depth % 8 ≡ 0
    whole_bytes = elim hd [
      | inl e ↦ rw e (omega (arith, hp.width_words))
      | inr e ↦ rw e (omega (arith, hp.width_words))
    ]

    abbrev g : Geometry
    g = geometry hdr lay

    abbrev Done : List (List ℕ) → List (List ℕ) → Type 0
    Done buffer rows = Rendered read_pixels hdr lay opt g ras 0 buffer rows

    -- Row d of the buffer shows the line that the loop put there.
    row_at :
        (buffer rows : List (List ℕ)) (d : ℕ)
        → Done buffer rows
        → d < g.src_h
        → (row : List ℕ) × Shown read_pixels hdr lay opt g ras
            (dest_row opt.rotate180 g.src_h d)
            row
          × (get_or rows d [] ≡ make_row lay opt g d row)
    row_at buffer rows d r h =
        let z = dest_row opt.rotate180 g.src_h d in
        let (row, shown, e) = r.made z (omega arith) (dest_row-lt opt.rotate180 g.src_h d h) in
        let back : dest_row opt.rotate180 g.src_h z ≡ d =
          dest_row-dest_row opt.rotate180 g.src_h d h in
        (
          row,
          shown,
          ap (λ k. get_or rows k []) (sym back) ∙ e ∙ ap (λ k. make_row lay opt g k row) back,
        )

    upright :
        (buffer rows : List (List ℕ))
        → lay.rotate90 ≡ false
        → length buffer ≡ lay.video_y
        → Done buffer rows
        → ShowsRaster rows
    unfolding dest_row
    upright buffer rows e hb r = record {
      lines = r.count ∙ hb;
      dots = λ y x hy hx.
          let geo = upright_geometry hdr lay e in
          let (row, shown, er) = row_at buffer rows y r (omega (arith, geo)) in
          let line : dest_row opt.rotate180 g.src_h y ≡ source_line_of lay opt y x =
            ap (λ h. dest_row opt.rotate180 h y) geo.0 ∙ ground arith in
          let column : source_column opt.rotate180 g.src_w x ≡ source_column_of lay opt y x =
            ap (λ w. source_column opt.rotate180 w x) geo.1 ∙ ground arith in
          ap (λ o. pixel_at lay.depth o x) (er ∙ make_row_upright lay opt g y row e)
          ∙ (halftone_row_pixels lay.depth lay.video_x row y opt.negative hd whole_bytes).1 x hx
          ∙ ap (λ v. dot_code lay.depth opt.negative v (threshold y x))
              (shown.shows x (omega (arith, geo)))
          ∙ (λ i.
              dot_code lay.depth opt.negative (gray_at read_pixels hdr ras (line i) (column i))
                (threshold y x));
    }

    turned :
        (buffer gray bitmap rows : List (List ℕ))
        → lay.rotate90 ≡ true
        → length bitmap ≡ lay.video_y
        → Done buffer gray
        → Turned lay opt g gray lay.video_y 0 bitmap rows
        → ShowsRaster rows
    unfolding dest_row
    turned buffer gray bitmap rows e hb r t = record {
      lines = t.count ∙ hb;
      dots = λ y x hy hx.
          let geo = turned_geometry hdr lay e in
          let d : ℕ = g.src_h - 1 - (0 + x) in
          let (row, shown, er) = row_at buffer gray d r (omega (arith, geo)) in
          let d' : d ≡ lay.video_x - 1 - x = omega (arith, geo) in
          let line : dest_row opt.rotate180 g.src_h d ≡ source_line_of lay opt y x =
            (λ i. dest_row opt.rotate180 (geo.0 i) (d' i)) ∙ ground (arith, hx) in
          let column : source_column opt.rotate180 g.src_w y ≡ source_column_of lay opt y x =
            ap (λ w. source_column opt.rotate180 w y) geo.1 ∙ ground arith in
          let tr = turned_row gray g.src_h y lay.video_x 0 in
          ap (λ o. pixel_at lay.depth o x) (t.made y (omega arith) (omega arith))
          ∙ (halftone_row_pixels lay.depth lay.video_x tr y opt.negative hd whole_bytes).1 x hx
          ∙ ap (λ v. dot_code lay.depth opt.negative v (threshold y x))
              (turned_row-get gray g.src_h y lay.video_x 0 x hx
                ∙ ap (λ o. get_or o y 0) (er ∙ make_row_turned lay opt g d row e)
                ∙ get_or-take g.src_w y row 0 (omega (arith, geo))
                ∙ shown.shows y (omega (arith, geo)))
          ∙ (λ i.
              dot_code lay.depth opt.negative (gray_at read_pixels hdr ras (line i) (column i))
                (threshold y x));
    }

    module _ (garbage : ℕ → ℕ → List (List ℕ)) where
      abbrev bitmap : List (List ℕ)
      bitmap = garbage lay.video_y (bytes_per_row lay)

      abbrev buffer_for : Bool → List (List ℕ)
      buffer_for b = if b then garbage g.src_h g.src_w else bitmap

      finished :
          (b : Bool) (rows : List (List ℕ))
          → lay.rotate90 ≡ b
          → ((n w : ℕ) → length (garbage n w) ≡ n)
          → Done (buffer_for b) rows
          → ShowsRaster (if b then quarter_turn lay opt g rows lay.video_y 0 bitmap else rows)
      finished false rows e hg r = upright bitmap rows e (hg lay.video_y (bytes_per_row lay)) r
      finished true rows e hg r =
          turned (garbage g.src_h g.src_w) rows bitmap _ e (hg lay.video_y (bytes_per_row lay)) r (
            quarter_turn-Turned lay opt g rows lay.video_y 0 bitmap
              (omega (arith, hg lay.video_y (bytes_per_row lay))))

      buffer-count :
          (b : Bool)
          → lay.rotate90 ≡ b
          → ((n w : ℕ) → length (garbage n w) ≡ n)
          → g.src_h ≤ length (buffer_for b)
      buffer-count false e hg =
          omega (arith, upright_geometry hdr lay e, hg lay.video_y (bytes_per_row lay))
      buffer-count true e hg = omega (arith, hg g.src_h g.src_w)

      -- Provided that reads of as many lines as the sheet shows succeed, the bitmap is made.
      pub page_bitmap-ShowsRaster :
          hdr.cups_width ≤ hdr.cups_bytes_per_line
          → ((n w : ℕ) → length (garbage n w) ≡ n)
          → Delivers read_pixels hdr ras (min hdr.cups_height g.src_h)
          → (ras' : R) × (rows : List (List ℕ)) × (page_bitmap read_pixels garbage hdr lay opt ras
              ≡ some (ras', rows))
            × ShowsRaster rows
      unfolding page_bitmap
      page_bitmap-ShowsRaster hw hg d =
          let wide = geometry-IsWide hdr lay hp.width_some hp.height_some hw in
          let ready : RowReady read_pixels hdr g 0 (white g.rowlen) = record {
            full = length-replicate g.rowlen 0xff;
            blank = λ h x hx. get_or-replicate g.rowlen x 0xff 0 hx;
          } in
          let (rows, e, r) =
            render_rows-Rendered read_pixels hdr lay opt g ras g.src_h 0 (white g.rowlen)
              (buffer_for lay.rotate90) wide d (omega arith) (buffer-count lay.rotate90 refl hg)
              ready in
          let start : ras ≡ after_reads read_pixels hdr ras (min 0 hdr.cups_height) =
            (let z : 0 ≡ min 0 hdr.cups_height = omega arith in
              ap (after_reads read_pixels hdr ras) z) in
          let e' =
            ap
              (λ s.
                render_rows read_pixels hdr lay opt g g.src_h 0 s (white g.rowlen)
                  (buffer_for lay.rotate90))
              start
            ∙ e in
          (
            drain_lines read_pixels hdr.cups_bytes_per_line (hdr.cups_height - g.src_h)
                (after_reads read_pixels hdr ras (min g.src_h hdr.cups_height)),
            (if lay.rotate90 then quarter_turn lay opt g rows lay.video_y 0 bitmap else rows),
            rw (e', page_bitmap),
            finished lay.rotate90 rows refl hg r,
          )

depth_cases : (opt : JobOptions) {d : ℕ} → d ≡ depth_of opt → (d ≡ 1) ⊎ (d ≡ 2)
depth_cases opt e = elim (Bool-cases opt.dpi1200) [
  | inl t ↦ inr (rw (e, t))
  | inr f ↦ inl (rw (e, f))
]

-- For a page that main admits, whose raster delivers a full line at each of the reads for the lines
-- that the sheet shows, and whatever malloc left in the buffers: the bitmap has video_y rows, and
-- the dot at each row y and column x is the dot code, against the threshold of that row and column,
-- of the raster pixel that the turns of the job and of the sheet bring there, or of paper white
-- where the raster does not reach.
pub page_layout-ShowsRaster :
    {R : Type 0} (read_pixels : ℕ → R → ReadResult R) (garbage : ℕ → ℕ → List (List ℕ))
    (hdr : PageHeader) (opt : JobOptions) (ras : R)
    → IsAdmitted hdr
    → hdr.cups_width ≤ hdr.cups_bytes_per_line
    → ((n w : ℕ) → length (garbage n w) ≡ n)
    → Delivers read_pixels hdr ras (min hdr.cups_height (geometry hdr (page_layout hdr opt)).src_h)
    → (ras' : R) × (rows : List (List ℕ)) × (page_bitmap read_pixels garbage hdr
          (page_layout hdr opt)
          opt
          ras
        ≡ some (ras', rows))
      × ShowsRaster read_pixels hdr (page_layout hdr opt) opt ras rows
page_layout-ShowsRaster read_pixels garbage hdr opt ras ha hw hg d =
    let u = page_layout-IsUsable hdr opt ha in
    page_bitmap-ShowsRaster read_pixels hdr (page_layout hdr opt) opt ras (depth_cases opt u.depth)
      u.padded garbage hw hg d
