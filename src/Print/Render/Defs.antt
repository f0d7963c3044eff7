-- ===== src/Print/Render/Defs.antt =====
-- render_page and render_blank_page of src/rastertopantum.c. The raster stream belongs to CUPS and
-- memory to the C library: cupsRasterReadPixels is the parameter `read_pixels` on stream states R,
-- whether a block can be had is `can_alloc`, and what malloc leaves in a page buffer is `garbage`.
-- A page buffer, a flat array in the source, is the list of its rows here: row d is the part at
-- offset d * bpl (d * src_w for the gray page).
use pantum_open.Base.{
  ℕ, zero, suc, ◌+◌, ◌-◌, ◌*◌, ◌/◌, Bool, false, Option, none, some, List, [], ◌∷◌, ◌++◌, length,
  take, drop, set, get_or, replicate, concat, ltb, ◌==◌, ◌&&◌, ◌||◌, not, if◌then◌else◌,
}
use pantum_open.Print.File.{Accepts, Writer, File}
use pantum_open.Print.Options.{JobOptions}
use pantum_open.Print.Layout.{PageHeader, PageLayout, page_layout}
use pantum_open.Print.Halftone.{halftone_row}
use pantum_open.Print.Page.{finish_page}

-- One call of cupsRasterReadPixels: whether it succeeded, what it stored, and the stream after it.
pub record ReadResult (R : Type 0) : Type 0 where
  pub good : Bool
  pub pixels : List ℕ
  pub next : R

abbrev pub paper_white : ℕ
paper_white = 0xff

-- `memset (p, 0xff, n)`
abbrev pub white : ℕ → List ℕ
white n = replicate n paper_white

-- The locals of render_page that follow from the header and the layout.
pub record Geometry : Type 0 where
  pub src_w : ℕ
  pub src_h : ℕ
  pub rowlen : ℕ
  pub copy_w : ℕ

unfoldable pub geometry : PageHeader → PageLayout → Geometry
geometry hdr lay =
    let src_w = if lay.rotate90 then lay.video_y else lay.video_x in
    let wide = if ltb src_w lay.video_x then lay.video_x else src_w in
    record {
      src_w = src_w;
      src_h = if lay.rotate90 then lay.video_x else lay.video_y;
      rowlen = if ltb wide hdr.cups_bytes_per_line then hdr.cups_bytes_per_line else wide;
      copy_w = if ltb hdr.cups_width src_w then hdr.cups_width else src_w;
    }

-- What a read of `px` leaves of the row buffer.
abbrev pub overlay : List ℕ → List ℕ → List ℕ
overlay px row = px ++ drop (length px) row

-- Whiten whatever the raster does not cover.
unfoldable pub rewhiten : Geometry → List ℕ → List ℕ
rewhiten g row =
    if ltb g.copy_w g.rowlen then take g.copy_w row ++ white (g.rowlen - g.copy_w) else row

-- `for (a = 0, b = src_w - 1; a < b; a++, b--)` with its three assignments, by at most `fuel` rounds.
unfoldable pub swap_loop : ℕ → ℕ → ℕ → List ℕ → List ℕ
swap_loop zero a b row = row
swap_loop (suc fuel) a b row =
    let swapped = set (set row a (get_or row b 0)) b (get_or row a 0) in
    let rest = swap_loop fuel (a + 1) (b - 1) swapped in if ltb a b then rest else row

unfoldable pub turn_around : Bool → ℕ → List ℕ → List ℕ
turn_around rotate180 src_w row = if rotate180 then swap_loop src_w 0 (src_w - 1) row else row

-- `rotate180 ? src_h - 1 - y : y`
unfoldable pub dest_row : Bool → ℕ → ℕ → ℕ
dest_row rotate180 src_h y = if rotate180 then src_h - 1 - y else y

-- What goes into the row of the page buffer: gray pixels before a quarter turn, or dots.
unfoldable pub make_row : PageLayout → JobOptions → Geometry → ℕ → List ℕ → List ℕ
make_row lay opt g dst row =
    if lay.rotate90
    then take g.src_w row
    else halftone_row row lay.video_x dst lay.depth opt.negative

-- `row[x] = gray[(src_h - 1 - x) * src_w + y]` for `left` values of x from x on.
unfoldable pub turned_row : List (List ℕ) → ℕ → ℕ → ℕ → ℕ → List ℕ
turned_row gray src_h y zero x = []
turned_row gray src_h y (suc left) x =
    get_or (get_or gray (src_h - 1 - x) []) y 0 ∷ turned_row gray src_h y left (x + 1)

-- The quarter turn, for `left` rows of the sheet from y on.
unfoldable pub quarter_turn :
    PageLayout → JobOptions → Geometry → List (List ℕ) → ℕ → ℕ → List (List ℕ) → List (List ℕ)
quarter_turn lay opt g gray zero y rows = rows
quarter_turn lay opt g gray (suc left) y rows = quarter_turn lay opt g gray left (y + 1) (
    set rows y
      (halftone_row (turned_row gray g.src_h y lay.video_x 0) lay.video_x y lay.depth opt.negative))

-- bpl
abbrev pub bytes_per_row : PageLayout → ℕ
bytes_per_row lay = lay.video_x * lay.depth / 8

-- The three mallocs; the gray page is only wanted for the quarter turn.
unfoldable pub buffers_fit : (ℕ → Bool) → PageHeader → PageLayout → Bool
buffers_fit can_alloc hdr lay =
    let g = geometry hdr lay in
    can_alloc (bytes_per_row lay * lay.video_y)
    && can_alloc g.rowlen
    && (not lay.rotate90 || can_alloc (g.src_w * g.src_h))

module _ {R : Type 0} (read_pixels : ℕ → R → ReadResult R) where
  -- The row buffer for line y: a raster line, white, or what stood there.
  unfoldable pub load_row : PageHeader → Geometry → ℕ → R → List ℕ → Option (R × List ℕ)
  load_row hdr g y ras row =
      let r = read_pixels hdr.cups_bytes_per_line ras in
      if ltb y hdr.cups_height
      then (if r.good then some (r.next, rewhiten g (overlay r.pixels row)) else none)
      else some (ras, if y == hdr.cups_height then white g.rowlen else row)

  -- `for (y = 0; y < src_h; y++)`, with `left` lines to go; `none` is the short read.
  unfoldable pub render_rows :
      PageHeader
      → PageLayout
      → JobOptions
      → Geometry
      → ℕ
      → ℕ
      → R
      → List ℕ
      → List (List ℕ)
      → Option (R × List (List ℕ))
  render_rows hdr lay opt g zero y ras row rows = some (ras, rows)
  render_rows hdr lay opt g (suc left) y ras row rows = elim (load_row hdr g y ras row) [
    | none ↦ none
    | some (ras', loaded) ↦
        let row' = turn_around opt.rotate180 g.src_w loaded in
        let dst = dest_row opt.rotate180 g.src_h y in
        render_rows hdr lay opt g left (y + 1) ras' row'
          (set rows dst (make_row lay opt g dst row'))
  ]

  -- Lines that do not fit the page buffer are read and dropped, up to the first short read.
  unfoldable pub drain_lines : ℕ → ℕ → R → R
  drain_lines bytes_per_line zero ras = ras
  drain_lines bytes_per_line (suc left) ras =
      let r = read_pixels bytes_per_line ras in
      let rest = drain_lines bytes_per_line left r.next in if r.good then rest else r.next

  module _ (garbage : ℕ → ℕ → List (List ℕ)) where
    -- The page bitmap of a page that could be read, and the stream behind it.
    unfoldable pub page_bitmap :
        PageHeader → PageLayout → JobOptions → R → Option (R × List (List ℕ))
    page_bitmap hdr lay opt ras =
        let g = geometry hdr lay in
        let bitmap = garbage lay.video_y (bytes_per_row lay) in
        let buffer = if lay.rotate90 then garbage g.src_h g.src_w else bitmap in
        elim (render_rows hdr lay opt g g.src_h 0 ras (white g.rowlen) buffer) [
          | none ↦ none
          | some (ras', rows) ↦ some (
            drain_lines hdr.cups_bytes_per_line (hdr.cups_height - g.src_h) ras',
            if lay.rotate90 then quarter_turn lay opt g rows lay.video_y 0 bitmap else rows,
          )
        ]

    module _ (can_alloc : ℕ → Bool) (accepts : Accepts)
        (encode : ℕ → ℕ → List ℕ → List (List ℕ)) where
      -- The stream is lost where the page fails: the caller reads no more of it.
      unfoldable pub render_page : PageHeader → JobOptions → R → File → Option R × File
      render_page hdr opt ras f =
          let lay = page_layout hdr opt in
          if buffers_fit can_alloc hdr lay
          then elim (page_bitmap hdr lay opt ras) [
            | none ↦ (none, f)
            | some (ras', rows) ↦
                let (good, f') =
                  finish_page accepts can_alloc encode hdr lay opt (concat rows) lay.video_x
                    lay.video_y f in
                (if good then some ras' else none, f')
          ]
          else (none, f)

module _ (can_alloc : ℕ → Bool) (accepts : Accepts) (encode : ℕ → ℕ → List ℕ → List (List ℕ)) where
  -- calloc gives zeroes; on a turned sheet the bitmap has the size before the turn.
  unfoldable pub render_blank_page : PageHeader → JobOptions → Writer
  render_blank_page hdr opt f =
      let lay = page_layout hdr opt in
      let bmp_w = if lay.rotate90 then lay.video_y else lay.video_x in
      let bmp_h = if lay.rotate90 then lay.video_x else lay.video_y in
      let size = bmp_w * lay.depth / 8 * bmp_h in
      let blank : List ℕ = replicate size 0 in
      if can_alloc size
      then finish_page accepts can_alloc encode hdr lay opt blank bmp_w bmp_h f
      else (false, f)
