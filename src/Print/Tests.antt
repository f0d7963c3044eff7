-- ===== src/Print/Tests.antt =====
-- The theorems on the print filter at concrete pages, options and streams.
use pantum_open.Base.{
  ℕ, ◌+◌, ◌*◌, ◌≤◌, ◌<◌, ◌≡◌, refl, Bool, true, false, none, some, List, [], ◌∷◌, length, get_or,
  replicate, length-replicate, ltb, arith, inl, inr,
}
use pantum_open.Print.File.{fwrite, File, Accepts, Wrote}
use pantum_open.Print.Chunk.{
  Chunk, Fits, stream_bytes, chunk_bytes, write_chunk, write_chunk-Writes,
  parse_stream-stream_bytes,
}
use pantum_open.Print.Chunk.Parse.{parse_stream}
use pantum_open.Print.Options.{
  JobOptions, Text, Cups, options_read, options_read_bounds, options_read_job_wins, opt_bool,
}
use pantum_open.Print.Halftone.{halftone_row, dot_code, threshold}
use pantum_open.Print.Halftone.Dots.{dot_code_tones}
use pantum_open.Print.Halftone.Row.{pixel_at, halftone_row_pixels}
use pantum_open.Print.Buffer.{empty_buf, buf_append}
use pantum_open.Print.Buffer.Growth.{Appended, buf_append-Appended}
use pantum_open.Print.Layout.{PageHeader, PageLayout, page_layout}
use pantum_open.Print.Layout.Geometry.{IsUsable, page_layout-IsUsable}
use pantum_open.Print.Page.{
  page_chunks, bid_chunks, jbig_bih_len, page_items, emit_page, emit_page-Writes,
}
use pantum_open.Print.Page.Reread.{ReadsBack, page_reread}
use pantum_open.Print.Render.{ReadResult, page_bitmap, turn_around, turn_around-get}
use pantum_open.Print.Render.Pixels.{ShowsRaster, page_layout-ShowsRaster}

abbrev tiny : PageHeader
tiny = record {
  cups_bits_per_pixel = 8;
  cups_width = 3;
  cups_height = 2;
  cups_bytes_per_line = 3;
  cups_color_space = 18;
  cups_media_type = 0;
  num_copies = 2;
  page_width_pt = 7;
  page_height_pt = 5;
  resolution_x = 600;
  resolution_y = 600;
}

abbrev plain : JobOptions
plain = record {
  density = 2;
  dpi1200 = false;
  negative = false;
  rotate180 = true;
  manual_duplex = false;
  tray = 0;
}

-- A raster that yields three gray pixels at each read and counts them.
abbrev gray_stripes : ℕ → ℕ → ReadResult ℕ
gray_stripes n s = record { good = true; pixels = replicate n (s * 100); next = s + 1 }

abbrev blocks : ℕ → ℕ → List (List ℕ)
blocks n w = replicate n []

page_layout-ShowsRaster_example :
    (ras' : ℕ) × (rows : List (List ℕ)) × (page_bitmap gray_stripes blocks tiny
        (page_layout tiny plain)
        plain
        0
      ≡ some (ras', rows))
    × ShowsRaster gray_stripes tiny (page_layout tiny plain) plain 0 rows
page_layout-ShowsRaster_example =
    page_layout-ShowsRaster gray_stripes blocks tiny plain 0 (omega arith) (omega arith)
      (λ n w. length-replicate n _) (λ k h. (refl, refl))

abbrev lay : PageLayout
lay = record { dmpaper = 0; video_x = 32; video_y = 8; depth = 1; rotate90 = false }

tiny_layout : page_layout tiny plain ≡ lay
unfolding page_layout pantum_open.Print.Paper.paper_find pantum_open.Print.Layout.custom_layout
tiny_layout = refl

abbrev entity : List ℕ
entity = replicate 25 9

abbrev takes_all : Accepts
takes_all f xs = length xs

abbrev stdout : File
stdout = record { id = 1; bytes = [] }

tiny_written : (emit_page takes_all tiny lay plain entity stdout).0 ≡ true
unfolding emit_page fwrite write_chunk pantum_open.Print.Chunk.header_bytes
    pantum_open.Wire.put_be32 pantum_open.Wire.put_be16 pantum_open.Print.Chunk.write_items
    pantum_open.Print.Page.write_bids page_items pantum_open.Print.Page.custom_items
    pantum_open.Print.Page.media_of pantum_open.Print.Page.tray_of pantum_open.Print.Page.copies_of
    pantum_open.Print.Chunk.item_bytes
tiny_written = refl

page_reread_example :
    (bytes : List ℕ) × ((emit_page takes_all tiny lay plain entity stdout).1.bytes ≡ bytes)
    × ReadsBack tiny lay plain entity bytes
page_reread_example =
    page_reread tiny lay plain entity takes_all stdout
      (record {
        media = omega arith;
        copies = omega arith;
        res_x = omega arith;
        res_y = omega arith;
        dmpaper = omega arith;
        video_x = omega arith;
        video_y = omega arith;
        depth = omega arith;
        density = omega arith;
        tray = omega arith;
      })
      tiny_written

emit_page-Writes_example :
    Wrote takes_all
      (stream_bytes (page_chunks tiny lay plain 26 entity))
      stdout
      (emit_page takes_all tiny lay plain entity stdout)
emit_page-Writes_example = emit_page-Writes takes_all tiny lay plain entity stdout

abbrev small_chunk : Chunk
small_chunk = record { type = 7; items = record { type = 3; value = 70000 } ∷ []; raw = 1 ∷ 2 ∷ [] }

write_chunk-Writes_example :
    Wrote takes_all
      (chunk_bytes small_chunk)
      stdout
      (write_chunk takes_all 7 (record { type = 3; value = 70000 } ∷ []) (1 ∷ 2 ∷ []) stdout)
write_chunk-Writes_example = write_chunk-Writes takes_all small_chunk stdout

parse_stream-stream_bytes_example :
    parse_stream 2 (stream_bytes (small_chunk ∷ small_chunk ∷ []))
    ≡ some (small_chunk ∷ small_chunk ∷ [])
parse_stream-stream_bytes_example =
    parse_stream-stream_bytes (small_chunk ∷ small_chunk ∷ []) (fits, (fits, tt))
  where
    fits : Fits small_chunk
    fits = record {
      type = omega arith;
      count = omega arith;
      size = omega arith;
      items = omega arith;
    }

abbrev shades : List ℕ
shades = 0 ∷ 255 ∷ 128 ∷ 17 ∷ 200 ∷ 90 ∷ 3 ∷ 250 ∷ []

halftone_row_pixels_example :
    (length (halftone_row shades 8 5 2 false) ≡ 2)
    × ((x : ℕ)
        → x < 8
        → pixel_at 2 (halftone_row shades 8 5 2 false) x
          ≡ dot_code 2 false (get_or shades x 0) (threshold 5 x))
halftone_row_pixels_example = halftone_row_pixels 2 8 shades 5 false (inr refl) refl

dot_code_tones_example :
    (dot_code 1 false 255 (threshold 3 4) ≡ 0)
    × (dot_code 1 false 0 (threshold 3 4) ≡ 1)
    × ((gray : ℕ)
        → dot_code 1 true gray (threshold 3 4) + dot_code 1 false gray (threshold 3 4) ≡ 1)
    × ((dark light : ℕ)
        → dark ≤ light
        → dot_code 1 false light (threshold 3 4) ≤ dot_code 1 false dark (threshold 3 4))
dot_code_tones_example = dot_code_tones 1 3 4 (inl refl)

page_layout-IsUsable_example : IsUsable tiny plain (page_layout tiny plain)
page_layout-IsUsable_example = page_layout-IsUsable tiny plain (omega arith)

abbrev plenty : ℕ → Bool
plenty n = ltb n 1000000

buf_append-Appended_example :
    Appended empty_buf (1 ∷ 2 ∷ 3 ∷ []) (buf_append plenty empty_buf (1 ∷ 2 ∷ 3 ∷ []))
buf_append-Appended_example =
    buf_append-Appended plenty empty_buf (1 ∷ 2 ∷ 3 ∷ [])
      (record { fits = omega arith; start = inl refl }) (omega arith)

abbrev word_on : Text
word_on = b'o' ∷ b'n' ∷ []

abbrev word_false : Text
word_false = b'f' ∷ b'a' ∷ b'l' ∷ b's' ∷ b'e' ∷ []

abbrev on_everywhere : Cups
on_everywhere = record { job = λ k. some word_on; ppd = none }

options_read_bounds_example :
    ((options_read on_everywhere).density ≤ 4)
    × ((options_read on_everywhere).tray ≤ 2)
    × (opt_bool on_everywhere "TonerMode" ≡ true → (options_read on_everywhere).density ≡ 0)
options_read_bounds_example = options_read_bounds on_everywhere

options_read_job_wins_example :
    options_read on_everywhere
    ≡ options_read (record { job = λ k. some word_on; ppd = some (λ k. some word_false) })
options_read_job_wins_example =
    options_read_job_wins (λ k. some word_on) none (some (λ k. some word_false))
      (λ k. (word_on, refl))

turn_around-get_example : get_or (turn_around true 3 (1 ∷ 2 ∷ 3 ∷ 4 ∷ [])) 0 0 ≡ 3
turn_around-get_example = turn_around-get true 3 (1 ∷ 2 ∷ 3 ∷ 4 ∷ []) 0 (omega arith) (omega arith)

-- The dots themselves: a 1-bit row of black and white, and the four levels of 2 bits.
packs_black_and_white :
    halftone_row (0 ∷ 255 ∷ 0 ∷ 255 ∷ 255 ∷ 255 ∷ 255 ∷ 0 ∷ []) 8 0 1 false ≡ (0xa1 ∷ [])
unfolding halftone_row dot_code threshold
packs_black_and_white = refl
