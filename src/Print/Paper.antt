-- ===== src/Print/Paper.antt =====
-- paper_entry_t, paper_table and paper_find of src/rastertopantum.c.
pub mod Lookup
use Prim.Native.String.{String}
use pantum_open.Base.{ℕ, Option, none, some, List, [], ◌∷◌, ◌==◌, ◌&&◌, if◌then◌else◌}

pub record PaperEntry : Type 0 where
  pub width_pt : ℕ
  pub height_pt : ℕ
  pub video_x : ℕ
  pub video_y : ℕ
  pub dmpaper : ℕ
  pub name : String

abbrev entry : ℕ → ℕ → ℕ → ℕ → ℕ → String → PaperEntry
entry w h x y d n = record {
  width_pt = w;
  height_pt = h;
  video_x = x;
  video_y = y;
  dmpaper = d;
  name = n;
}

abbrev pub paper_table : List PaperEntry
paper_table =
    entry 420 595 3264 4736 11 "A5"
    ∷ entry 595 842 4736 6784 9 "A4"
    ∷ entry 612 792 4864 6368 1 "Letter"
    ∷ entry 612 1008 4864 8192 5 "Legal"
    ∷ entry 516 729 4064 5856 13 "B5"
    ∷ entry 279 540 2112 4288 37 "EnvMonarch"
    ∷ entry 312 624 2368 4992 27 "EnvDL"
    ∷ entry 459 649 3616 5184 28 "EnvC5"
    ∷ entry 297 684 2240 5472 20 "Com10Envelope"
    ∷ entry 283 420 2144 3264 43 "Postcard"
    ∷ entry 524 737 4160 5920 263 "16K"
    ∷ entry 553 765 4384 6144 264 "Big16K"
    ∷ entry 369 524 2848 4160 266 "32K"
    ∷ entry 383 553 2976 4384 260 "Big32K"
    ∷ entry 298 420 2272 3264 70 "A6"
    ∷ entry 499 709 3936 5696 34 "ISOB5"
    ∷ entry 522 756 4128 6080 7 "Executive"
    ∷ entry 612 936 4864 7584 14 "Folio"
    ∷ entry 612 972 4864 7872 269 "Oficio"
    ∷ entry 396 612 3072 4864 6 "Statement"
    ∷ entry 323 459 2464 3616 31 "EnvC6"
    ∷ entry 340 652 2624 5216 270 "ZL"
    ∷ entry 354 499 2720 3936 271 "B6"
    ∷ []

-- A 421x595 pt sheet is A5 on its side.
abbrev pub a5_rot_width_pt : ℕ
a5_rot_width_pt = 421

abbrev pub a5_rot_height_pt : ℕ
a5_rot_height_pt = 595

abbrev pub a5_width_pt : ℕ
a5_width_pt = 420

abbrev pub a5_height_pt : ℕ
a5_height_pt = 595

abbrev pub dmpaper_a5_rotated : ℕ
dmpaper_a5_rotated = 61

-- The search loop, over the entries that are still to be looked at.
unfoldable pub search_from : List PaperEntry → ℕ → ℕ → Option PaperEntry
search_from [] w h = none
search_from (p ∷ ps) w h =
    if p.width_pt == w && p.height_pt == h then some p else search_from ps w h

unfoldable pub paper_find : ℕ → ℕ → Option PaperEntry
unfolding search_from
paper_find w h = search_from paper_table w h
