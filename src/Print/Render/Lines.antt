-- ===== src/Print/Render/Lines.antt =====
-- The row buffer of render_page shows the line of the sheet that the loop has reached.
use pantum_open.Base.{
  ℕ, zero, suc, ◌+◌, ◌-◌, ◌≤◌, ◌<◌, ◌≡◌, ◌∙◌, true, some, List, length, get_or, take, drop, ltb,
  ◌==◌, ◌&&◌, if◌then◌else◌, arith, Bool-cases, inl, inr, ltb→lt, ltb→ge, length-append,
  length-take, length-drop, length-replicate, get_or-append_lt, get_or-padded, get_or-replicate,
  min,
}
use pantum_open.Print.Layout.{PageHeader, PageLayout}
use pantum_open.Print.Render.Defs.{
  ReadResult, Geometry, white, overlay, rewhiten, geometry, load_row,
}

-- What the header and the geometry have to satisfy.
pub record IsWide (hdr : PageHeader) (g : Geometry) : Type 0 where
  pub some_width : 0 < g.src_w
  pub wide : g.src_w ≤ g.rowlen
  pub line_fits : hdr.cups_bytes_per_line ≤ g.rowlen
  pub line_full : hdr.cups_width ≤ hdr.cups_bytes_per_line
  pub copy : g.copy_w ≡ (if ltb hdr.cups_width g.src_w then hdr.cups_width else g.src_w)

pub geometry-IsWide :
    (hdr : PageHeader) (lay : PageLayout)
    → 0 < lay.video_x
    → 0 < lay.video_y
    → hdr.cups_width ≤ hdr.cups_bytes_per_line
    → IsWide hdr (geometry hdr lay)
unfolding geometry
geometry-IsWide hdr lay hx hy h = ground arith

module _ {R : Type 0} (read_pixels : ℕ → R → ReadResult R) (hdr : PageHeader) where
  -- The stream after k reads, and the line that read k delivers.
  abbrev pub after_reads : R → ℕ → R
  after_reads ras zero = ras
  after_reads ras (suc k) = (read_pixels hdr.cups_bytes_per_line (after_reads ras k)).next

  abbrev pub line_of : R → ℕ → ReadResult R
  line_of ras k = read_pixels hdr.cups_bytes_per_line (after_reads ras k)

  -- Reads 0 to n - 1 succeed, and each fills a raster line.
  abbrev pub Delivers : R → ℕ → Type 0
  Delivers ras n =
      (k : ℕ)
      → k < n
      → ((line_of ras k).good ≡ true) × (length (line_of ras k).pixels ≡ hdr.cups_bytes_per_line)

  -- The gray value of the sheet at line y and column x: the raster's, and paper white beyond it.
  abbrev pub gray_at : R → ℕ → ℕ → ℕ
  gray_at ras y x =
      if ltb y hdr.cups_height && ltb x hdr.cups_width
      then get_or (line_of ras y).pixels x 0
      else 0xff

  -- The row buffer before line y.
  pub record RowReady (g : Geometry) (y : ℕ) (row : List ℕ) : Type 0 where
    pub full : length row ≡ g.rowlen
    pub blank : hdr.cups_height < y → (x : ℕ) → x < g.rowlen → get_or row x 0 ≡ 0xff

  -- The row buffer with line y in it.
  pub record RowLoaded (g : Geometry) (ras : R) (y : ℕ) (row : List ℕ) : Type 0 where
    pub full : length row ≡ g.rowlen
    pub shows : (x : ℕ) → x < g.src_w → get_or row x 0 ≡ gray_at ras y x
    pub blank : hdr.cups_height ≤ y → (x : ℕ) → x < g.rowlen → get_or row x 0 ≡ 0xff

  length-rewhiten :
      (g : Geometry) (row : List ℕ) → length row ≡ g.rowlen → length (rewhiten g row) ≡ g.rowlen
  unfolding rewhiten
  length-rewhiten g row h = ground (
    arith,
    length-append (take g.copy_w row) (white (g.rowlen - g.copy_w)),
    length-take g.copy_w row,
    length-replicate {A = ℕ} (g.rowlen - g.copy_w) 0xff,
  )

  length-overlay : (px row : List ℕ) → length px ≤ length row → length (overlay px row) ≡ length row
  length-overlay px row h =
      omega (arith, length-append px (drop (length px) row), length-drop (length px) row)

  rewhiten-get :
      (g : Geometry) (px row : List ℕ) (x : ℕ)
      → IsWide hdr g
      → length px ≡ hdr.cups_bytes_per_line
      → x < g.src_w
      → get_or (rewhiten g (overlay px row)) x 0
        ≡ (if ltb x hdr.cups_width then get_or px x 0 else 0xff)
  unfolding rewhiten
  rewhiten-get g px row x w h hx = ground (
    arith,
    get_or-padded g.copy_w (g.rowlen - g.copy_w) x (overlay px row) 0xff 0,
    length-append px (drop (length px) row),
    get_or-append_lt px (drop (length px) row) x 0,
  )

  -- Behind the last raster line the buffer is white, and stays so.
  blank_after :
      (g : Geometry) (y : ℕ) (row : List ℕ)
      → hdr.cups_height ≤ y
      → RowReady g y row
      → (length (if y == hdr.cups_height then white g.rowlen else row) ≡ g.rowlen)
        × ((x : ℕ)
            → x < g.rowlen
            → get_or (if y == hdr.cups_height then white g.rowlen else row) x 0 ≡ 0xff)
  blank_after g y row h r = elim (Bool-cases (y == hdr.cups_height)) [
    | inl e ↦ rw e (length-replicate g.rowlen 0xff, λ x hx. get_or-replicate g.rowlen x 0xff 0 hx)
    | inr e ↦ rw e (r.full, r.blank (ground arith))
  ]

  -- Line y is loaded into a buffer that is ready for it, and the stream moves on by the lines read.
  pub load_row-RowLoaded :
      (g : Geometry) (ras : R) (y : ℕ) (row : List ℕ)
      → IsWide hdr g
      → (y < hdr.cups_height
          → ((line_of ras y).good ≡ true)
            × (length (line_of ras y).pixels ≡ hdr.cups_bytes_per_line))
      → RowReady g y row
      → (row' : List ℕ) × (load_row read_pixels hdr g y
            (after_reads ras (min y hdr.cups_height))
            row
          ≡ some (after_reads ras (min (y + 1) hdr.cups_height), row'))
        × RowLoaded g ras y row'
  unfolding load_row
  load_row-RowLoaded g ras y row w d r = elim (Bool-cases (ltb y hdr.cups_height)) [
    | inl e ↦
        let lt : y < hdr.cups_height = ltb→lt y hdr.cups_height e in
        let now : min y hdr.cups_height ≡ y = omega arith in
        let then_ : min (y + 1) hdr.cups_height ≡ suc y = omega arith in
        (
          rewhiten g (overlay (line_of ras y).pixels row),
          rw (now, then_, e, (d lt).0),
          record {
            full = length-rewhiten g (overlay (line_of ras y).pixels row) (
                omega (
                  arith,
                  length-overlay (line_of ras y).pixels row,
                  r.full,
                  (d lt).1,
                  w.line_fits,
                ));
            shows = λ x hx. rewhiten-get g (line_of ras y).pixels row x w (d lt).1 hx ∙ rw e;
            blank = λ h. absurd (omega arith);
          },
        )
    | inr e ↦
        let ge : hdr.cups_height ≤ y = ltb→ge y hdr.cups_height e in
        let same : min (y + 1) hdr.cups_height ≡ min y hdr.cups_height = omega arith in
        let after = blank_after g y row ge r in
        (
          if y == hdr.cups_height then white g.rowlen else row,
          rw (same, e),
          record {
            full = after.0;
            shows = λ x hx. rw e (after.1 x (omega (arith, w.wide)));
            blank = λ h. after.1;
          },
        )
  ]
