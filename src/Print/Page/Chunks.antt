-- ===== src/Print/Page/Chunks.antt =====
-- The chunks of one page, as a list: what emit_page means to write.
use pantum_open.Base.{ℕ, zero, suc, List, [], ◌∷◌, ◌++◌, take, drop}
use pantum_open.Print.Chunk.{Chunk}
use pantum_open.Print.Chunk.Zjt
use pantum_open.Print.Options.{JobOptions}
use pantum_open.Print.Layout.{PageHeader, PageLayout}
use pantum_open.Print.Page.Defs.{page_items, zj_bid_max, jbig_bih_len}

abbrev pub raw_chunk : ℕ → List ℕ → Chunk
raw_chunk t raw = record { type = t; items = []; raw = raw }

-- A list cut into pieces of zj_bid_max bytes, the last one shorter.
unfoldable pub bid_chunks : ℕ → List ℕ → List Chunk
bid_chunks fuel [] = []
bid_chunks zero (b ∷ bs) = []
bid_chunks (suc fuel) (b ∷ bs) =
    raw_chunk Zjt.jbig_bid (take zj_bid_max (b ∷ bs)) ∷ bid_chunks fuel (drop zj_bid_max (b ∷ bs))

unfoldable pub page_chunks : PageHeader → PageLayout → JobOptions → ℕ → List ℕ → List Chunk
page_chunks hdr lay opt fuel bie =
    record { type = Zjt.start_page; items = page_items hdr lay opt; raw = [] }
    ∷ raw_chunk Zjt.jbig_bih (take jbig_bih_len bie)
    ∷ (bid_chunks fuel (drop jbig_bih_len bie)
        ++ (raw_chunk Zjt.end_jbig [] ∷ raw_chunk Zjt.end_page [] ∷ []))
