-- ===== src/Print/Page/Reread.antt =====
-- What a printer reads back from the bytes of a page.
use pantum_open.Base.{
  true, ℕ, zero, suc, ◌≤◌, ◌<◌, ◌≡◌, refl, sym, ap, ◌∙◌, some, List, [], ◌∷◌, ◌++◌, length, take,
  drop, ◌==◌, ◌||◌, if◌then◌else◌, All, arith, take-append-drop, length-take, length-drop,
  Bool-cases, inl, inr, append_assoc, append-nil,
}
use pantum_open.Wire.{IsU32, IsU16}
use pantum_open.Print.Chunk.{Item, Chunk, Fits, stream_bytes, parse_stream-stream_bytes}
use pantum_open.Print.Chunk.Parse.{parse_stream}
use pantum_open.Print.Options.{JobOptions}
use pantum_open.Print.Layout.{PageHeader, PageLayout}
use pantum_open.Print.Page.Defs.{
  emit_page, page_items, custom_items, media_of, tray_of, copies_of, zj_bid_max, jbig_bih_len,
}
use pantum_open.Print.File.{File, Accepts}
use pantum_open.Print.Page.Chunks.{bid_chunks, page_chunks}
use pantum_open.Print.Page.Emit.{emit_page-Writes}
use pantum_open.Print.Page.Start.{IsStart, page_items-IsStart}

-- The fields of the raster header, the layout and the options as 32-bit numbers.
pub record AreWords (hdr : PageHeader) (lay : PageLayout) (opt : JobOptions) : Type 0 where
  pub media : IsU32 hdr.cups_media_type
  pub copies : IsU32 hdr.num_copies
  pub res_x : IsU32 hdr.resolution_x
  pub res_y : IsU32 hdr.resolution_y
  pub dmpaper : IsU32 lay.dmpaper
  pub video_x : IsU32 lay.video_x
  pub video_y : IsU32 lay.video_y
  pub depth : IsU32 lay.depth
  pub density : IsU32 opt.density
  pub tray : IsU32 opt.tray

abbrev FitsItem : Item → Type 0
FitsItem i = IsU16 i.type × IsU32 i.value

All-append {ℓ κ} :
    {A : Type ℓ} (P : A → Type κ) (xs ys : List A) → All P xs → All P ys → All P (xs ++ ys)
All-append P [] ys h k = k
All-append P (x ∷ xs) ys (hx, hxs) k = (hx, All-append P xs ys hxs k)

custom_items-Fits : (hdr : PageHeader) (lay : PageLayout) → All FitsItem (custom_items hdr lay)
unfolding custom_items
custom_items-Fits hdr lay = elim (Bool-cases (lay.dmpaper == 0)) [
  | inl e ↦ rw e (omega arith)
  | inr e ↦ rw e tt
]

page_items-Fits :
    (hdr : PageHeader) (lay : PageLayout) (opt : JobOptions)
    → AreWords hdr lay opt
    → All FitsItem (page_items hdr lay opt)
unfolding page_items
page_items-Fits hdr lay opt w = (
  omega arith,
  All-append FitsItem (custom_items hdr lay) _ (custom_items-Fits hdr lay)
      (unfold media_of tray_of copies_of in ground arith),
)

-- The pieces of the JBIG data, chunks of type 5: none empty, none over 64 KiB.
abbrev pub IsPiece : Chunk → Type 0
IsPiece c = c.type ≡ 5 → (0 < length c.raw) × (length c.raw ≤ 65536)

bid_chunks-Fits : (fuel : ℕ) (xs : List ℕ) → All Fits (bid_chunks fuel xs)
unfolding bid_chunks
bid_chunks-Fits zero [] = tt
bid_chunks-Fits zero (x ∷ xs) = tt
bid_chunks-Fits (suc fuel) [] = tt
bid_chunks-Fits (suc fuel) (x ∷ xs) = (
  omega (arith, length-take zj_bid_max (x ∷ xs)),
  bid_chunks-Fits fuel (drop zj_bid_max (x ∷ xs)),
)

bid_chunks-IsPiece : (fuel : ℕ) (xs : List ℕ) → All IsPiece (bid_chunks fuel xs)
unfolding bid_chunks
bid_chunks-IsPiece zero [] = tt
bid_chunks-IsPiece zero (x ∷ xs) = tt
bid_chunks-IsPiece (suc fuel) [] = tt
bid_chunks-IsPiece (suc fuel) (x ∷ xs) = (
  λ e. omega (arith, length-take zj_bid_max (x ∷ xs)),
  bid_chunks-IsPiece fuel (drop zj_bid_max (x ∷ xs)),
)

-- The JBIG entity as a printer puts it together from a list of chunks: its header is in a chunk of
-- type 4 and its data in chunks of type 5.
unfoldable pub jbig_data : List Chunk → List ℕ
jbig_data [] = []
jbig_data (c ∷ cs) = (if c.type == 4 || c.type == 5 then c.raw else []) ++ jbig_data cs

jbig_data-bids :
    (fuel : ℕ) (xs : List ℕ) (cs : List Chunk)
    → length xs ≤ fuel
    → jbig_data (bid_chunks fuel xs ++ cs) ≡ xs ++ jbig_data cs
unfolding bid_chunks jbig_data
jbig_data-bids zero [] cs h = refl
jbig_data-bids zero (x ∷ xs) cs h = elim h [ ]
jbig_data-bids (suc fuel) [] cs h = refl
jbig_data-bids (suc fuel) (x ∷ xs) cs h =
    ap (λ ys. take zj_bid_max (x ∷ xs) ++ ys)
      (jbig_data-bids fuel (drop zj_bid_max (x ∷ xs)) cs
        (omega (arith, length-drop zj_bid_max (x ∷ xs))))
    ∙ sym (append_assoc (take zj_bid_max (x ∷ xs)) (drop zj_bid_max (x ∷ xs)) (jbig_data cs))
    ∙ ap (λ ys. ys ++ jbig_data cs) (take-append-drop zj_bid_max (x ∷ xs))

unfoldable pub start_items : List Chunk → List Item
start_items [] = []
start_items (c ∷ cs) = if c.type == 2 then c.items else []

module _ (hdr : PageHeader) (lay : PageLayout) (opt : JobOptions) (bie : List ℕ) where
  abbrev pub chunks : List Chunk
  chunks = page_chunks hdr lay opt (suc (length bie)) bie

  page_chunks-Fits : AreWords hdr lay opt → All Fits chunks
  unfolding page_chunks
  page_chunks-Fits w = (
    record {
      type = omega arith;
      count = omega (arith, (page_items-IsStart hdr lay opt).room);
      size = omega (arith, (page_items-IsStart hdr lay opt).room);
      items = page_items-Fits hdr lay opt w;
    },
    (
      omega (arith, length-take jbig_bih_len bie),
      All-append Fits (bid_chunks (suc (length bie)) (drop jbig_bih_len bie)) _
          (bid_chunks-Fits (suc (length bie)) (drop jbig_bih_len bie)) (omega arith),
    ),
  )

  jbig_data-chunks : jbig_data chunks ≡ bie
  unfolding page_chunks jbig_data
  jbig_data-chunks =
      ap (λ ys. take jbig_bih_len bie ++ ys)
        (jbig_data-bids (suc (length bie)) (drop jbig_bih_len bie) _
            (omega (arith, length-drop jbig_bih_len bie))
          ∙ append-nil (drop jbig_bih_len bie))
      ∙ take-append-drop jbig_bih_len bie

  page_chunks-IsPiece : All IsPiece chunks
  unfolding page_chunks
  page_chunks-IsPiece = (
    λ e. absurd (omega (arith, e)),
    (
      λ e. absurd (omega (arith, e)),
      All-append IsPiece (bid_chunks (suc (length bie)) (drop jbig_bih_len bie)) _
          (bid_chunks-IsPiece (suc (length bie)) (drop jbig_bih_len bie))
          (λ e. absurd (omega (arith, e)), (λ e. absurd (omega (arith, e)), tt)),
    ),
  )

  page_chunks-starts : IsStart hdr lay opt (start_items chunks)
  unfolding page_chunks start_items
  page_chunks-starts = page_items-IsStart hdr lay opt

  -- What a reader of the format gets from the bytes of a page: the settings in the first chunk, the
  -- whole JBIG entity, and no piece of it that is empty or over 64 KiB.
  pub record ReadsBack (bytes : List ℕ) : Type 0 where
    pub found : List Chunk
    pub parsed : parse_stream (length found) bytes ≡ some found
    pub starts : IsStart hdr lay opt (start_items found)
    pub entity : jbig_data found ≡ bie
    pub pieces : All IsPiece found

  -- Where the fields of the header, the layout and the options are 32-bit numbers and emit_page
  -- succeeds, it has written bytes behind the file from which a reader of the format gets back: the
  -- settings that the header, the layout and the options ask for, in at most the 17 items that the
  -- source makes room for, the whole JBIG entity, and chunks of JBIG data between 1 byte and 64 KiB.
  pub page_reread :
      (accepts : Accepts) (f : File)
      → AreWords hdr lay opt
      → (emit_page accepts hdr lay opt bie f).0 ≡ true
      → (bytes : List ℕ) × ((emit_page accepts hdr lay opt bie f).1.bytes ≡ f.bytes ++ bytes)
        × ReadsBack bytes
  page_reread accepts f w e = (
    stream_bytes chunks,
    (emit_page-Writes accepts hdr lay opt bie f).complete e,
    record {
      found = chunks;
      parsed = parse_stream-stream_bytes chunks (page_chunks-Fits w);
      starts = page_chunks-starts;
      entity = jbig_data-chunks;
      pieces = page_chunks-IsPiece;
    },
  )
