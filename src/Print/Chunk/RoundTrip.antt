-- ===== src/Print/Chunk/RoundTrip.antt =====
-- Reading back what write_chunk wrote.
use pantum_open.Base.{
  ℕ, suc, ◌+◌, ◌-◌, ◌*◌, ◌^◌, ◌≤◌, ◌<◌, ◌≡◌, refl, sym, ap, ◌∙◌, some, List, [], ◌∷◌, ◌++◌, map,
  concat, arith, length, take, drop, All, true, length-append, append_assoc, take-append_self,
  drop-append_self, drop-drop,
}
use pantum_open.Wire.{put_be16, put_be32, get_be16, get_be32, IsU16, IsU32}
use pantum_open.Print.Chunk.Shape.{
  Item, Chunk, Fits, item_bytes, header_bytes, chunk_bytes, stream_bytes, length-chunk_bytes,
  length-items,
}
use pantum_open.Print.Chunk.Parse.{parse_item, parse_items, header_good, parse_chunk, parse_stream}

abbrev FitsItem : Item → Type 0
FitsItem i = IsU16 i.type × IsU32 i.value

parse_item-item_bytes :
    (i : Item) (rest : List ℕ) → FitsItem i → parse_item (item_bytes i ++ rest) ≡ some i
unfolding parse_item item_bytes put_be16 put_be32 get_be16 get_be32
parse_item-item_bytes i rest h = ground arith

drop-item_bytes : (i : Item) (rest : List ℕ) → drop 12 (item_bytes i ++ rest) ≡ rest
unfolding item_bytes put_be16 put_be32
drop-item_bytes i rest = refl

parse_items_step :
    (n : ℕ) (xs : List ℕ) {i : Item} {is : List Item}
    → parse_item xs ≡ some i
    → parse_items n (drop 12 xs) ≡ some is
    → parse_items (suc n) xs ≡ some (i ∷ is)
unfolding parse_items
parse_items_step n xs e f = ground arith

parse_items-items :
    (is : List Item) (rest : List ℕ)
    → All FitsItem is
    → parse_items (length is) (concat (map item_bytes is) ++ rest) ≡ some is
parse_items-items [] rest h = unfold parse_items in refl
parse_items-items (i ∷ is) rest (hi, his) =
    let tail = concat (map item_bytes is) ++ rest in
    rw (append_assoc (item_bytes i) (concat (map item_bytes is)) rest) (
      parse_items_step (length is) (item_bytes i ++ tail) (parse_item-item_bytes i tail hi)
        (rw (drop-item_bytes i tail) (parse_items-items is rest his)))

-- The header fields as the reader finds them.
module _ (type n rawlen : ℕ) (tail : List ℕ) (ht : IsU32 type) (hn : n * 12 < 2 ^ 16)
    (hs : 16 + n * 12 + rawlen < 2 ^ 32) (hl : n * 12 + rawlen ≤ length tail) where
  abbrev front : List ℕ
  front = header_bytes type n rawlen ++ tail

  size_read : get_be32 front ≡ 16 + n * 12 + rawlen
  unfolding header_bytes put_be16 put_be32 get_be32
  size_read = omega arith

  type_read : get_be32 (drop 4 front) ≡ type
  unfolding header_bytes put_be16 put_be32 get_be32
  type_read = omega arith

  count_read : get_be32 (drop 8 front) ≡ n
  unfolding header_bytes put_be16 put_be32 get_be32
  count_read = omega arith

  items_size_read : get_be16 (drop 12 front) ≡ n * 12
  unfolding header_bytes put_be16 put_be32 get_be16
  items_size_read = omega arith

  signature_read : get_be16 (drop 14 front) ≡ 0x5a5a
  unfolding header_bytes put_be16 put_be32 get_be16
  signature_read = refl

  length-front : length front ≡ 16 + length tail
  unfolding header_bytes put_be16 put_be32
  length-front = omega arith

  drop-front : (k : ℕ) → drop (16 + k) front ≡ drop k tail
  unfolding header_bytes put_be16 put_be32
  drop-front k =
      let e : 16 + k
          ≡ suc (
              suc (
                suc (
                  suc (suc (suc (suc (suc (suc (suc (suc (suc (suc (suc (suc (suc k))))))))))))))) =
        omega arith in
      ap (λ j. drop j front) e

  header_good-front : header_good front ≡ true
  unfolding header_good
  header_good-front =
      ground (arith, size_read, count_read, items_size_read, signature_read, length-front)

-- One chunk off the front of a stream, with the parts that its bytes are read from.
parse_chunk_step :
    (xs : List ℕ) (n size : ℕ) {is : List Item}
    → header_good xs ≡ true
    → get_be32 (drop 8 xs) ≡ n
    → get_be32 xs ≡ size
    → parse_items n (drop 16 xs) ≡ some is
    → parse_chunk xs
      ≡ some (
        record {
          type = get_be32 (drop 4 xs);
          items = is;
          raw = take (size - (16 + n * 12)) (drop (16 + n * 12) xs);
        },
        drop size xs,
      )
unfolding parse_chunk
parse_chunk_step xs n size g en es e = ground arith

parse_stream_step :
    (fuel : ℕ) (xs : List ℕ) {c : Chunk} {rest : List ℕ} {cs : List Chunk}
    → 0 < length xs
    → parse_chunk xs ≡ some (c, rest)
    → parse_stream fuel rest ≡ some cs
    → parse_stream (suc fuel) xs ≡ some (c ∷ cs)
unfolding parse_stream
parse_stream_step fuel [] h e f = elim h [ ]
parse_stream_step fuel (x ∷ xs) h e f = ground arith

module _ (c : Chunk) (rest : List ℕ) (h : Fits c) where
  abbrev items_part : List ℕ
  items_part = concat (map item_bytes c.items)

  abbrev n_items : ℕ
  n_items = length c.items

  abbrev after : List ℕ
  after = items_part ++ (c.raw ++ rest)

  abbrev whole : List ℕ
  whole = header_bytes c.type n_items (length c.raw) ++ after

  regroup : chunk_bytes c ++ rest ≡ whole
  unfolding chunk_bytes
  regroup =
      append_assoc (header_bytes c.type n_items (length c.raw)) (items_part ++ c.raw) rest
      ∙ ap (λ ys. header_bytes c.type n_items (length c.raw) ++ ys)
          (append_assoc items_part c.raw rest)

  enough : n_items * 12 + length c.raw ≤ length after
  enough = omega (
    arith,
    length-append items_part (c.raw ++ rest),
    length-append c.raw rest,
    length-items c.items,
  )

  drop-items : drop (n_items * 12) after ≡ c.raw ++ rest
  drop-items =
      ap (λ k. drop k after) (sym (length-items c.items))
      ∙ drop-append_self items_part (c.raw ++ rest)

  raw_found :
      take (16 + n_items * 12 + length c.raw - (16 + n_items * 12)) (drop (16 + n_items * 12) whole)
      ≡ c.raw
  raw_found =
      let e : 16 + n_items * 12 + length c.raw - (16 + n_items * 12) ≡ length c.raw = omega arith in
      rw
        (
          drop-front c.type n_items (length c.raw) after h.type h.count h.size enough
              (n_items * 12),
          drop-items,
          e,
        )
        (take-append_self c.raw rest)

  rest_found : drop (16 + n_items * 12 + length c.raw) whole ≡ rest
  rest_found =
      let e : 16 + n_items * 12 + length c.raw ≡ 16 + (n_items * 12 + length c.raw) = omega arith in
      rw
        (
          e,
          drop-front c.type n_items (length c.raw) after h.type h.count h.size enough
              (n_items * 12 + length c.raw),
          ← drop-drop (n_items * 12) (length c.raw) after,
          drop-items,
        )
        (drop-append_self c.raw rest)

  -- A chunk that fits its fields is read back from its bytes, whatever follows them.
  pub parse_chunk-chunk_bytes : parse_chunk (chunk_bytes c ++ rest) ≡ some (c, rest)
  parse_chunk-chunk_bytes = rw regroup (
      parse_chunk_step whole n_items (16 + n_items * 12 + length c.raw)
        (header_good-front c.type n_items (length c.raw) after h.type h.count h.size enough)
        (count_read c.type n_items (length c.raw) after h.type h.count h.size enough)
        (size_read c.type n_items (length c.raw) after h.type h.count h.size enough)
        (rw (drop-front c.type n_items (length c.raw) after h.type h.count h.size enough 0)
          (parse_items-items c.items (c.raw ++ rest) h.items))
      ∙ (λ i. some (
        record {
          type = type_read c.type n_items (length c.raw) after h.type h.count h.size enough i;
          items = c.items;
          raw = raw_found i;
        },
        rest_found i,
      )))

-- A stream of chunks that fit is read back, by as many rounds as it has chunks.
pub parse_stream-stream_bytes :
    (cs : List Chunk) → All Fits cs → parse_stream (length cs) (stream_bytes cs) ≡ some cs
unfolding parse_stream stream_bytes
parse_stream-stream_bytes [] h = refl
parse_stream-stream_bytes (c ∷ cs) (hc, hcs) =
    parse_stream_step (length cs) (chunk_bytes c ++ stream_bytes cs)
      (omega (arith, length-chunk_bytes c, length-append (chunk_bytes c) (stream_bytes cs)))
      (parse_chunk-chunk_bytes c (stream_bytes cs) hc) (parse_stream-stream_bytes cs hcs)
