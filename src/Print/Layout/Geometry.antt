-- ===== src/Print/Layout/Geometry.antt =====
-- The geometry that page_layout hands to the rest of the filter.
use pantum_open.Base.{
  ℕ, ◌+◌, ◌%◌, ◌≤◌, ◌<◌, ◌≡◌, refl, Bool, true, false, some, List, [], ◌∷◌, ◌==◌, ◌&&◌, leb, arith,
  Option-cases, inl, inr, Bool-cases,
}
use pantum_open.Print.Paper.{PaperEntry, paper_table, paper_find, search_from}
use pantum_open.Print.Options.{JobOptions}
use pantum_open.Print.Layout.{
  PageHeader, PageLayout, page_layout, table_layout, custom_layout, depth_of, is_a5_rotated,
}

-- What the row buffers and the packing of dots need of a page size.
pub record IsPadded (x y : ℕ) : Type 0 where
  pub width_words : x % 32 ≡ 0
  pub height_bytes : y % 8 ≡ 0
  pub width_some : 0 < x
  pub height_some : 0 < y
  pub width_max : x ≤ 32768
  pub height_max : y ≤ 32768

-- Both ways round, since A5 may be turned.
good_entry : PaperEntry → Bool
good_entry p =
    p.video_x % 32 == 0
    && p.video_y % 32 == 0
    && leb 1 p.video_x
    && leb 1 p.video_y
    && leb p.video_x 32768
    && leb p.video_y 32768
    && leb 1 p.dmpaper

all_good : List PaperEntry → Bool
all_good [] = true
all_good (p ∷ ps) = good_entry p && all_good ps

search_from-good :
    (ps : List PaperEntry) (w h : ℕ) {p : PaperEntry}
    → all_good ps ≡ true
    → search_from ps w h ≡ some p
    → good_entry p ≡ true
unfolding search_from all_good
search_from-good [] w h g e = cc
search_from-good (q ∷ ps) w h {p} g e = ground (arith, search_from-good ps w h {p = p})

paper_find-good : (w h : ℕ) {p : PaperEntry} → paper_find w h ≡ some p → good_entry p ≡ true
unfolding paper_find all_good good_entry
paper_find-good w h e = search_from-good paper_table w h refl e

-- cupsWidth and cupsHeight as main admits them.
abbrev pub IsAdmitted : PageHeader → Type 0
IsAdmitted hdr =
    (0 < hdr.cups_width)
    × (0 < hdr.cups_height)
    × (hdr.cups_width ≤ 32768)
    × (hdr.cups_height ≤ 32768)

-- A layout comes from a row of the table, upright or turned, or is the padded raster.
data Origin (hdr : PageHeader) (opt : JobOptions) (lay : PageLayout) : Type 0 where
  sheet :
      (p : PaperEntry) (r : Bool)
      → good_entry p ≡ true
      → lay ≡ table_layout p r (depth_of opt)
      → Origin hdr opt lay
  custom : lay ≡ custom_layout hdr (depth_of opt) → Origin hdr opt lay

layout-Origin : (hdr : PageHeader) (opt : JobOptions) → Origin hdr opt (page_layout hdr opt)
unfolding page_layout
layout-Origin hdr opt = elim (Option-cases (paper_find hdr.page_width_pt hdr.page_height_pt)) [
  | inr (p, e) ↦
      sheet p false (paper_find-good hdr.page_width_pt hdr.page_height_pt e) (ground arith)
  | inl e ↦ elim (Bool-cases (is_a5_rotated hdr)) [
    | inr f ↦ custom (ground arith)
    | inl f ↦ elim (Option-cases (paper_find 420 595)) [
      | inr (p, g) ↦ sheet p true (paper_find-good 420 595 g) (ground arith)
      | inl g ↦ custom (ground arith)
    ]
  ]
]

-- What the rest of the filter may rely on.
pub record IsUsable (hdr : PageHeader) (opt : JobOptions) (lay : PageLayout) : Type 0 where
  pub padded : IsPadded lay.video_x lay.video_y
  pub depth : lay.depth ≡ depth_of opt
  pub custom_width :
      lay.dmpaper ≡ 0 → (hdr.cups_width ≤ lay.video_x) × (lay.video_x < hdr.cups_width + 32)
  pub custom_height :
      lay.dmpaper ≡ 0 → (hdr.cups_height ≤ lay.video_y) × (lay.video_y < hdr.cups_height + 8)

table-IsUsable :
    (hdr : PageHeader) (opt : JobOptions) (p : PaperEntry) (r : Bool)
    → good_entry p ≡ true
    → IsUsable hdr opt (table_layout p r (depth_of opt))
unfolding table_layout good_entry
table-IsUsable hdr opt p r g = ground arith

custom-IsUsable :
    (hdr : PageHeader) (opt : JobOptions)
    → IsAdmitted hdr
    → IsUsable hdr opt (custom_layout hdr (depth_of opt))
unfolding custom_layout
custom-IsUsable hdr opt h = omega arith

Origin-IsUsable :
    (hdr : PageHeader) (opt : JobOptions) {lay : PageLayout}
    → IsAdmitted hdr
    → Origin hdr opt lay
    → IsUsable hdr opt lay
Origin-IsUsable hdr opt h (sheet p r g e) = rw e (table-IsUsable hdr opt p r g)
Origin-IsUsable hdr opt h (custom e) = rw e (custom-IsUsable hdr opt h)

-- For a raster that main admits, the page buffer is some whole number of 32-dot words wide and of
-- 8-line bands high, neither empty nor over 32768 dots; its depth follows DPI1200; and a size that
-- is announced as custom is the raster's own, padded by less than 32 dots and less than 8 lines.
pub page_layout-IsUsable :
    (hdr : PageHeader) (opt : JobOptions) → IsAdmitted hdr → IsUsable hdr opt (page_layout hdr opt)
page_layout-IsUsable hdr opt h = Origin-IsUsable hdr opt h (layout-Origin hdr opt)
