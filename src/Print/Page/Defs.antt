-- ===== src/Print/Page/Defs.antt =====
-- emit_page, jbig_compress and finish_page of src/rastertopantum.c. The encoder of jbig-kit is the
-- parameter `encode`: the pieces that jbg_enc_out hands to jbig_collect for a bitmap of a width and
-- a height, one after the other, under the options that jbig_compress sets.
use pantum_open.Base.{
  ℕ, zero, suc, ◌+◌, ◌-◌, ◌*◌, ◌/◌, ◌%◌, ◌^◌, Bool, false, Option, none, some, List, [], ◌∷◌, ◌++◌,
  length, take, drop, ltb, ◌==◌, ◌||◌, if◌then◌else◌,
}
use pantum_open.Print.File.{Accepts, Writer, done, then_write}
use pantum_open.Print.Chunk.{Item, write_chunk}
use pantum_open.Print.Chunk.Zjt
use pantum_open.Print.Chunk.Zji
use pantum_open.Print.Buffer.{Buf, empty_buf, buf_append}
use pantum_open.Print.Options.{JobOptions}
use pantum_open.Print.Layout.{PageHeader, PageLayout}

abbrev pub zj_bid_max : ℕ
zj_bid_max = 0x10000

abbrev pub jbig_bih_len : ℕ
jbig_bih_len = 20

abbrev pub item : ℕ → ℕ → Item
item t v = record { type = t; value = v }

-- `cupsMediaType ? cupsMediaType : 1`
unfoldable pub media_of : PageHeader → ℕ
media_of hdr = if hdr.cups_media_type == 0 then 1 else hdr.cups_media_type

-- Anything but plain paper forces the manual tray.
unfoldable pub tray_of : PageHeader → JobOptions → ℕ
tray_of hdr opt = if media_of hdr == 1 then opt.tray else 1

unfoldable pub copies_of : PageHeader → ℕ
copies_of hdr = if hdr.num_copies == 0 then 1 else hdr.num_copies

-- The three items of a custom page: its size in 1/600 inch.
unfoldable pub custom_items : PageHeader → PageLayout → List Item
custom_items hdr lay =
    if lay.dmpaper == 0
    then item Zji.custom_unit 0
      ∷ item Zji.custom_width (hdr.page_width_pt * 600 / 72 % 2 ^ 32)
      ∷ item Zji.custom_height (hdr.page_height_pt * 600 / 72 % 2 ^ 32)
      ∷ []
    else []

unfoldable pub page_items : PageHeader → PageLayout → JobOptions → List Item
page_items hdr lay opt =
    item Zji.dmpaper lay.dmpaper
    ∷ (custom_items hdr lay
        ++ (item Zji.dmcopies (copies_of hdr)
            ∷ item Zji.dmdefaultsource (tray_of hdr opt)
            ∷ item Zji.dmmediatype (media_of hdr)
            ∷ item Zji.nbie 1
            ∷ item Zji.resolution_x hdr.resolution_x
            ∷ item Zji.resolution_y hdr.resolution_y
            ∷ item Zji.ret 0
            ∷ item Zji.raster_x (lay.video_x * lay.depth % 2 ^ 32)
            ∷ item Zji.raster_y lay.video_y
            ∷ item Zji.video_bpp lay.depth
            ∷ item Zji.video_x lay.video_x
            ∷ item Zji.video_y lay.video_y
            ∷ item Zji.pantum_density opt.density
            ∷ []))

-- jbig_collect through every piece of the encoder's output.
unfoldable pub collect : (ℕ → Bool) → Buf → List (List ℕ) → Buf
collect can_alloc b [] = b
collect can_alloc b (p ∷ ps) = collect can_alloc (buf_append can_alloc b p) ps

-- `none` is the -1 of an encoder that ran out of memory or gave less than a BIH.
unfoldable pub jbig_compress :
    (ℕ → Bool) → (ℕ → ℕ → List ℕ → List (List ℕ)) → List ℕ → ℕ → ℕ → Option (List ℕ)
jbig_compress can_alloc encode bitmap width height =
    let bie = collect can_alloc empty_buf (encode width height bitmap) in
    if bie.failed || ltb (length bie.bytes) jbig_bih_len then none else some bie.bytes

abbrev out_of_fuel : Writer
out_of_fuel f = (false, f)

module _ (accepts : Accepts) where
  -- `for (off = JBIG_BIH_LEN; off < bie->len; off += ZJ_BID_MAX)`, by at most `fuel` rounds; without
  -- fuel it stops as if a write had failed, which Emit shows never to happen.
  unfoldable pub write_bids : ℕ → List ℕ → ℕ → Writer
  write_bids zero bie off = out_of_fuel
  write_bids (suc fuel) bie off =
      let n = length bie - off in
      let n_bytes = if ltb zj_bid_max n then zj_bid_max else n in
      let rest =
        then_write (write_chunk accepts Zjt.jbig_bid [] (take n_bytes (drop off bie)))
          (write_bids fuel bie (off + zj_bid_max)) in
      if ltb off (length bie) then rest else done

  unfoldable pub emit_page : PageHeader → PageLayout → JobOptions → List ℕ → Writer
  emit_page hdr lay opt bie =
      then_write (write_chunk accepts Zjt.start_page (page_items hdr lay opt) []) (
        then_write (write_chunk accepts Zjt.jbig_bih [] (take jbig_bih_len bie)) (
          then_write (write_bids (suc (length bie)) bie jbig_bih_len) (
            then_write (write_chunk accepts Zjt.end_jbig [] [])
              (write_chunk accepts Zjt.end_page [] []))))

  module _ (can_alloc : ℕ → Bool) (encode : ℕ → ℕ → List ℕ → List (List ℕ)) where
    -- `bmp_w * lay->depth` in 32 bits; on -1 from jbig_compress nothing is written.
    unfoldable pub finish_page : PageHeader → PageLayout → JobOptions → List ℕ → ℕ → ℕ → Writer
    finish_page hdr lay opt bitmap bmp_w bmp_h f =
        elim (jbig_compress can_alloc encode bitmap (bmp_w * lay.depth % 2 ^ 32) bmp_h) [
          | none ↦ (false, f)
          | some bie ↦ emit_page hdr lay opt bie f
        ]
