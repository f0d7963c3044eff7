-- ===== src/Print/Job/Document.antt =====
-- main of src/rastertopantum.c around the pages: the test that a raster header has to pass, what is
-- written before the first page and behind the last one.
use pantum_open.Base.{ℕ, Bool, List, [], ◌∷◌, ◌++◌, ltb, ◌==◌, ◌&&◌, ◌||◌, not}
use pantum_open.Print.File.{Accepts, Writer, fwrite, then_write, Writes, Writes-fwrite, Writes-then}
use pantum_open.Print.Chunk.{Item, chunk_bytes, write_chunk, write_chunk-Writes}
use pantum_open.Print.Chunk.Zjt
use pantum_open.Print.Chunk.Zji
use pantum_open.Print.Layout.{PageHeader}

-- PT_MAX_DOTS
abbrev pub max_dots : ℕ
max_dots = 32768

-- The two tests of the raster header; the colour spaces CUPS_CSPACE_W and CUPS_CSPACE_SW are numbers
-- of the CUPS headers.
module _ (cspace_w cspace_sw : ℕ) where
  unfoldable pub admits : PageHeader → Bool
  admits hdr =
      not (
        not (hdr.cups_bits_per_pixel == 8)
        || hdr.cups_width == 0
        || hdr.cups_height == 0
        || ltb max_dots hdr.cups_width
        || ltb max_dots hdr.cups_height
        || ltb hdr.cups_bytes_per_line hdr.cups_width
        || ltb max_dots hdr.cups_bytes_per_line)
      && not (not (hdr.cups_color_space == cspace_w) && not (hdr.cups_color_space == cspace_sw))

-- `"\033%-12345X"`, and the four letters of ZJ_MAGIC
abbrev pub uel : List ℕ
uel = 0x1b ∷ b'%' ∷ b'-' ∷ b'1' ∷ b'2' ∷ b'3' ∷ b'4' ∷ b'5' ∷ b'X' ∷ []

abbrev pub zj_magic : List ℕ
zj_magic = b'J' ∷ b'Z' ∷ b'J' ∷ b'Z' ∷ []

abbrev pub dmduplex_simplex : ℕ
dmduplex_simplex = 1

abbrev pub doc_items : List Item
doc_items =
    record { type = Zji.pagecount; value = 0 }
    ∷ record { type = Zji.dmcollate; value = 0 }
    ∷ record { type = Zji.dmduplex; value = dmduplex_simplex }
    ∷ []

abbrev pub param_blob : List ℕ
param_blob =
    0x00 ∷ 0x00 ∷ 0x00 ∷ 0x51 ∷ 0x00 ∷ 0x73 ∷ 0x00 ∷ 0x6e ∷ 0x00 ∷ 0x96 ∷ 0x00 ∷ 0x7a ∷ 0x00 ∷ 0x64
    ∷ 0x00 ∷ 0x96 ∷ 0x00 ∷ 0xc8 ∷ 0x00 ∷ 0x64 ∷ 0x00 ∷ 0x51 ∷ 0x00 ∷ 0x64 ∷ 0x00 ∷ 0x64 ∷ 0x00
    ∷ 0x64 ∷ 0x00 ∷ 0x64 ∷ 0x00 ∷ 0x64 ∷ 0x00 ∷ 0x64 ∷ 0x00 ∷ 0x64 ∷ 0x00 ∷ 0x64 ∷ 0x00 ∷ 0x64
    ∷ 0x00 ∷ 0x64 ∷ 0x00 ∷ 0x64 ∷ 0x00 ∷ 0x64 ∷ 0x00 ∷ 0x64 ∷ 0x00 ∷ 0x78 ∷ 0x00 ∷ 0x87 ∷ 0x00
    ∷ 0x96 ∷ 0x00 ∷ 0xb4 ∷ 0x00 ∷ 0xc8 ∷ 0x00 ∷ 0x78 ∷ 0x00 ∷ 0x96 ∷ 0x00 ∷ 0xbe ∷ 0x01 ∷ 0x5e
    ∷ 0x01 ∷ 0x90 ∷ 0x00 ∷ 0x64 ∷ 0x00 ∷ 0x64 ∷ []

module _ (accepts : Accepts) where
  unfoldable pub write_start : Writer
  write_start = then_write (fwrite accepts (uel ++ zj_magic)) (
      then_write (write_chunk accepts Zjt.pantum_param [] param_blob)
        (write_chunk accepts Zjt.start_doc doc_items []))

  unfoldable pub write_end : Writer
  write_end = then_write (write_chunk accepts Zjt.end_doc [] []) (fwrite accepts uel)

  -- The document opens with the exit sequence, the magic, the printer's parameters and START_DOC, and
  -- closes with END_DOC and the exit sequence; where either of the two fails, it has written a part of
  -- that and some fwrite was short.
  pub document-Writes :
      Writes accepts write_start (
        (uel ++ zj_magic)
        ++ (chunk_bytes (record { type = Zjt.pantum_param; items = []; raw = param_blob })
            ++ chunk_bytes (record { type = Zjt.start_doc; items = doc_items; raw = [] })))
      × Writes accepts write_end
          (chunk_bytes (record { type = Zjt.end_doc; items = []; raw = [] }) ++ uel)
  unfolding write_start write_end
  document-Writes = (
    Writes-then accepts (Writes-fwrite accepts (uel ++ zj_magic)) (
        Writes-then accepts
          (write_chunk-Writes accepts
            (record { type = Zjt.pantum_param; items = []; raw = param_blob }))
          (write_chunk-Writes accepts
            (record { type = Zjt.start_doc; items = doc_items; raw = [] }))),
    Writes-then accepts
        (write_chunk-Writes accepts (record { type = Zjt.end_doc; items = []; raw = [] }))
        (Writes-fwrite accepts uel),
  )
