-- ===== src/Print/Page/Start.antt =====
-- What a printer finds in the START_PAGE items that emit_page of src/rastertopantum.c writes.
use pantum_open.Base.{
  ℕ, ◌*◌, ◌/◌, ◌%◌, ◌^◌, ◌≤◌, ◌≡◌, refl, ap, Option, none, some, List, [], ◌∷◌, length, ltb, ◌==◌,
  if◌then◌else◌, Bool-cases, inl, inr, arith,
}
use pantum_open.Print.Chunk.{Item}
use pantum_open.Print.Options.{JobOptions}
use pantum_open.Print.Layout.{PageHeader, PageLayout}
use pantum_open.Print.Page.Defs.{page_items, custom_items, media_of, tray_of, copies_of}

-- The value of the first item of type `t`.
unfoldable pub setting : ℕ → List Item → Option ℕ
setting t [] = none
setting t (i ∷ is) = let rest = setting t is in if i.type == t then some i.value else rest

-- The settings of a page, by the type numbers of the format: the sheet and, where it is a custom one,
-- its size in 1/600 inch; the copies, the tray and the medium, where anything but plain paper, which
-- is medium 1 and is meant where none is named, comes from tray 1; one bitmap, its resolutions, no
-- edge enhancement, its bits and lines, and its depth and dots; and the density.
pub record IsStart (hdr : PageHeader) (lay : PageLayout) (opt : JobOptions) (items : List Item)
    : Type 0 where
  pub room : length items ≤ 17
  pub paper : setting 0x03 items ≡ some lay.dmpaper
  pub unit : setting 0x1a items ≡ (if lay.dmpaper == 0 then some 0 else none)
  pub width :
      setting 0x18 items
      ≡ (if lay.dmpaper == 0 then some (hdr.page_width_pt * 600 / 72 % 2 ^ 32) else none)
  pub height :
      setting 0x19 items
      ≡ (if lay.dmpaper == 0 then some (hdr.page_height_pt * 600 / 72 % 2 ^ 32) else none)
  pub copies : setting 0x04 items ≡ some (if hdr.num_copies == 0 then 1 else hdr.num_copies)
  pub tray : setting 0x05 items ≡ some (if ltb 1 hdr.cups_media_type then 1 else opt.tray)
  pub medium :
      setting 0x06 items ≡ some (if hdr.cups_media_type == 0 then 1 else hdr.cups_media_type)
  pub bitmaps : setting 0x07 items ≡ some 1
  pub across : setting 0x08 items ≡ some hdr.resolution_x
  pub down : setting 0x09 items ≡ some hdr.resolution_y
  pub edges : setting 0x16 items ≡ some 0
  pub bits : setting 0x0c items ≡ some (lay.video_x * lay.depth % 2 ^ 32)
  pub lines : setting 0x0d items ≡ some lay.video_y
  pub depth : setting 0x10 items ≡ some lay.depth
  pub dots : setting 0x11 items ≡ some lay.video_x
  pub rows : setting 0x12 items ≡ some lay.video_y
  pub density : setting 0xff00 items ≡ some opt.density

tray_of-rule :
    (hdr : PageHeader) (opt : JobOptions)
    → tray_of hdr opt ≡ (if ltb 1 hdr.cups_media_type then 1 else opt.tray)
unfolding tray_of media_of
tray_of-rule hdr opt = ground arith

pub page_items-IsStart :
    (hdr : PageHeader) (lay : PageLayout) (opt : JobOptions)
    → IsStart hdr lay opt (page_items hdr lay opt)
unfolding page_items custom_items setting media_of copies_of
page_items-IsStart hdr lay opt = elim (Bool-cases (lay.dmpaper == 0)) [
  | inl e ↦ record {
    room = rw e (omega arith);
    paper = refl;
    unit = rw e refl;
    width = rw e refl;
    height = rw e refl;
    copies = rw e refl;
    tray = rw e (ap some (tray_of-rule hdr opt));
    medium = rw e refl;
    bitmaps = rw e refl;
    across = rw e refl;
    down = rw e refl;
    edges = rw e refl;
    bits = rw e refl;
    lines = rw e refl;
    depth = rw e refl;
    dots = rw e refl;
    rows = rw e refl;
    density = rw e refl;
  }
  | inr e ↦ record {
    room = rw e (omega arith);
    paper = refl;
    unit = rw e refl;
    width = rw e refl;
    height = rw e refl;
    copies = rw e refl;
    tray = rw e (ap some (tray_of-rule hdr opt));
    medium = rw e refl;
    bitmaps = rw e refl;
    across = rw e refl;
    down = rw e refl;
    edges = rw e refl;
    bits = rw e refl;
    lines = rw e refl;
    depth = rw e refl;
    dots = rw e refl;
    rows = rw e refl;
    density = rw e refl;
  }
]
