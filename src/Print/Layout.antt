-- ===== src/Print/Layout.antt =====
-- cups_page_header2_t as far as src/rastertopantum.c reads it, page_layout_t and page_layout.
pub mod Geometry
use pantum_open.Base.{
  ℕ, ◌+◌, ◌*◌, ◌/◌, ◌%◌, ◌^◌, Bool, true, false, Option, none, some, ◌==◌, ◌&&◌, if◌then◌else◌,
}
use pantum_open.Print.Paper.{
  PaperEntry, paper_find, a5_rot_width_pt, a5_rot_height_pt, a5_width_pt, a5_height_pt,
  dmpaper_a5_rotated,
}
use pantum_open.Print.Options.{JobOptions}

-- The fields of the raster page header that the filter uses; CUPS declares the rest.
pub record PageHeader : Type 0 where
  pub cups_bits_per_pixel : ℕ
  pub cups_width : ℕ
  pub cups_height : ℕ
  pub cups_bytes_per_line : ℕ
  pub cups_color_space : ℕ
  pub cups_media_type : ℕ
  pub num_copies : ℕ
  pub page_width_pt : ℕ
  pub page_height_pt : ℕ
  pub resolution_x : ℕ
  pub resolution_y : ℕ

pub record PageLayout : Type 0 where
  pub dmpaper : ℕ
  pub video_x : ℕ
  pub video_y : ℕ
  pub depth : ℕ
  pub rotate90 : Bool

abbrev pub depth_of : JobOptions → ℕ
depth_of opt = if opt.dpi1200 then 2 else 1

-- A sheet of the table, and the A5 sheet that is fed sideways.
unfoldable pub table_layout : PaperEntry → Bool → ℕ → PageLayout
table_layout paper rotate90 depth = record {
  dmpaper = if rotate90 then dmpaper_a5_rotated else paper.dmpaper;
  video_x = if rotate90 then paper.video_y else paper.video_x;
  video_y = if rotate90 then paper.video_x else paper.video_y;
  depth = depth;
  rotate90 = rotate90;
}

-- `(cupsWidth + 31u) & ~31u` and `(cupsHeight + 7u) & ~7u`, in 32 bits
unfoldable pub custom_layout : PageHeader → ℕ → PageLayout
custom_layout hdr depth = record {
  dmpaper = 0;
  video_x = (hdr.cups_width + 31) % 2 ^ 32 / 32 * 32;
  video_y = (hdr.cups_height + 7) % 2 ^ 32 / 8 * 8;
  depth = depth;
  rotate90 = false;
}

abbrev pub is_a5_rotated : PageHeader → Bool
is_a5_rotated hdr = hdr.page_width_pt == a5_rot_width_pt && hdr.page_height_pt == a5_rot_height_pt

unfoldable pub page_layout : PageHeader → JobOptions → PageLayout
page_layout hdr opt = elim (paper_find hdr.page_width_pt hdr.page_height_pt) [
  | some paper ↦ table_layout paper false (depth_of opt)
  | none ↦
      if is_a5_rotated hdr
      then elim (paper_find a5_width_pt a5_height_pt) [
        | some paper ↦ table_layout paper true (depth_of opt)
        | none ↦ custom_layout hdr (depth_of opt)
      ]
      else custom_layout hdr (depth_of opt)
]
