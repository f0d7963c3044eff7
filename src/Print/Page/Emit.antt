-- ===== src/Print/Page/Emit.antt =====
-- emit_page writes the chunks of the page, in order.
use pantum_open.Base.{
  ℕ, true, false, zero, suc, ◌+◌, ◌-◌, ◌<◌, ◌≡◌, refl, sym, ap, ◌∙◌, List, [], ◌∷◌, ◌++◌, length,
  take, drop, ltb, if◌then◌else◌, Bool-cases, inl, inr, take-all, length-drop, drop-drop, ltb→lt,
  ltb→ge, arith, append-nil,
}
use pantum_open.Print.File.{Accepts, Writes, Writes-then, Writes-done, done, then_write}
use pantum_open.Print.Chunk.{
  write_chunk, write_chunk-Writes, stream_bytes, chunk_bytes, stream_bytes-append,
}
use pantum_open.Print.Chunk.Zjt
use pantum_open.Print.Options.{JobOptions}
use pantum_open.Print.Layout.{PageHeader, PageLayout}
use pantum_open.Print.Page.Defs.{page_items, emit_page, write_bids, zj_bid_max, jbig_bih_len}
use pantum_open.Print.Page.Chunks.{bid_chunks, page_chunks, raw_chunk}

bid_chunks_step :
    (fuel : ℕ) (xs : List ℕ)
    → 0 < length xs
    → bid_chunks (suc fuel) xs
      ≡ raw_chunk Zjt.jbig_bid (take zj_bid_max xs) ∷ bid_chunks fuel (drop zj_bid_max xs)
unfolding bid_chunks
bid_chunks_step fuel [] h = elim h [ ]
bid_chunks_step fuel (x ∷ xs) h = refl

bid_chunks_end : (fuel : ℕ) (xs : List ℕ) → length xs ≡ 0 → bid_chunks fuel xs ≡ []
unfolding bid_chunks
bid_chunks_end zero [] h = refl
bid_chunks_end (suc fuel) [] h = refl
bid_chunks_end fuel (x ∷ xs) h = absurd (omega arith)

-- The length that the loop computes takes the same bytes as the full piece would.
take-min_piece :
    (xs : List ℕ) (n : ℕ)
    → n ≡ length xs
    → take (if ltb zj_bid_max n then zj_bid_max else n) xs ≡ take zj_bid_max xs
take-min_piece xs n e = elim (Bool-cases (ltb zj_bid_max n)) [
  | inl h ↦ rw h
  | inr h ↦ rw h (
      take-all n xs (omega arith)
      ∙ sym (take-all zj_bid_max xs (omega (arith, ltb→ge zj_bid_max n h))))
]

module _ (accepts : Accepts) where
  write_bids_end :
      (fuel : ℕ) (bie : List ℕ) (off : ℕ)
      → ltb off (length bie) ≡ false
      → write_bids accepts (suc fuel) bie off ≡ done
  unfolding write_bids
  write_bids_end fuel bie off e = rw e

  write_bids_more :
      (fuel : ℕ) (bie : List ℕ) (off : ℕ)
      → ltb off (length bie) ≡ true
      → write_bids accepts (suc fuel) bie off
        ≡ then_write
            (write_chunk accepts Zjt.jbig_bid [] (take zj_bid_max (drop off bie)))
            (write_bids accepts fuel bie (off + zj_bid_max))
  unfolding write_bids
  write_bids_more fuel bie off e =
      rw (e, take-min_piece (drop off bie) (length bie - off) (sym (length-drop off bie)))

  write_bids-Writes :
      (fuel : ℕ) (bie : List ℕ) (off : ℕ)
      → length bie < off + fuel
      → 0 < fuel
      → Writes accepts
          (write_bids accepts fuel bie off)
          (stream_bytes (bid_chunks fuel (drop off bie)))
  unfolding stream_bytes
  write_bids-Writes zero bie off h p = elim p [ ]
  write_bids-Writes (suc fuel) bie off h p = elim (Bool-cases (ltb off (length bie))) [
    | inr e ↦
        let none_left =
          bid_chunks_end (suc fuel) (drop off bie)
            (omega (arith, length-drop off bie, ltb→ge off (length bie) e)) in
        rw (none_left, write_bids_end fuel bie off e) (Writes-done accepts)
    | inl e ↦
        let lt : off < length bie = ltb→lt off (length bie) e in
        let some_left = bid_chunks_step fuel (drop off bie) (omega (arith, length-drop off bie)) in
        let later : Writes accepts (write_bids accepts fuel bie (off + zj_bid_max))
            (stream_bytes (bid_chunks fuel (drop zj_bid_max (drop off bie)))) =
          rw (drop-drop off zj_bid_max bie)
            (write_bids-Writes fuel bie (off + zj_bid_max) (omega arith) (omega arith)) in
        rw (some_left, write_bids_more fuel bie off e)
          (Writes-then accepts
            (write_chunk-Writes accepts (raw_chunk Zjt.jbig_bid (take zj_bid_max (drop off bie))))
            later)
  ]

  -- emit_page writes START_PAGE, the JBIG header, the JBIG data cut into pieces, END_JBIG and
  -- END_PAGE: all of it where it succeeds, a part of it where it fails, and it fails only on a
  -- short write.
  pub emit_page-Writes :
      (hdr : PageHeader) (lay : PageLayout) (opt : JobOptions) (bie : List ℕ)
      → Writes accepts
          (emit_page accepts hdr lay opt bie)
          (stream_bytes (page_chunks hdr lay opt (suc (length bie)) bie))
  unfolding stream_bytes
  emit_page-Writes hdr lay opt bie =
      let len : ℕ = length bie in
      let bids = bid_chunks (suc len) (drop jbig_bih_len bie) in
      let tail : stream_bytes (bids ++ (raw_chunk Zjt.end_jbig [] ∷ raw_chunk Zjt.end_page [] ∷ []))
          ≡ stream_bytes bids
            ++ (chunk_bytes (raw_chunk Zjt.end_jbig [])
                ++ chunk_bytes (raw_chunk Zjt.end_page [])) =
        stream_bytes-append bids _
        ∙ ap (λ ys. stream_bytes bids ++ (chunk_bytes (raw_chunk Zjt.end_jbig []) ++ ys))
            (append-nil (chunk_bytes (raw_chunk Zjt.end_page []))) in
      unfold emit_page page_chunks in
      rw tail (
        Writes-then accepts
          (write_chunk-Writes accepts
            (record { type = Zjt.start_page; items = page_items hdr lay opt; raw = [] }))
          (Writes-then accepts
            (write_chunk-Writes accepts (raw_chunk Zjt.jbig_bih (take jbig_bih_len bie)))
            (Writes-then accepts
              (write_bids-Writes (suc len) bie jbig_bih_len (omega arith) (omega arith))
              (Writes-then accepts (write_chunk-Writes accepts (raw_chunk Zjt.end_jbig []))
                (write_chunk-Writes accepts (raw_chunk Zjt.end_page []))))))
