-- ===== src/Print/Chunk/Shape.antt =====
-- zj_item_t, write_chunk and the constants of src/rastertopantum.c.
use pantum_open.Base.{
  ℕ, ◌+◌, ◌*◌, ◌%◌, ◌^◌, ◌≡◌, refl, ap, ◌∙◌, List, [], ◌∷◌, ◌++◌, map, concat, arith, length, ◌==◌,
  ◌<◌, if◌then◌else◌, suc-eq-zero, All, append_assoc, length-append, sym,
}
use pantum_open.Wire.{put_be16, put_be32, IsU16, IsU32}
use pantum_open.Print.File.{
  Accepts, Writer, done, then_write, fwrite, Writes, Writes-done, Writes-fwrite, Writes-then,
}

abbrev pub zj_signature : ℕ
zj_signature = 0x5a5a

-- zj_item_t
pub record Item : Type 0 where
  pub type : ℕ
  pub value : ℕ

-- The bytes of one item: its size 12, its type, the param byte 1, the reserved byte 0, its value.
unfoldable pub item_bytes : Item → List ℕ
item_bytes i = put_be32 12 ++ (put_be16 i.type ++ (1 ∷ 0 ∷ put_be32 i.value))

-- `(uint32_t)(16 + nitems * 12 + rawlen)`, type, nitems, `(uint16_t)(nitems * 12)`, signature.
unfoldable pub header_bytes : ℕ → ℕ → ℕ → List ℕ
header_bytes type nitems rawlen =
    put_be32 ((16 + nitems * 12 + rawlen) % 2 ^ 32)
    ++ (put_be32 type
        ++ (put_be32 nitems ++ (put_be16 (nitems * 12 % 2 ^ 16) ++ put_be16 zj_signature)))

-- A chunk as a value, and its bytes.
pub record Chunk : Type 0 where
  pub type : ℕ
  pub items : List Item
  pub raw : List ℕ

unfoldable pub chunk_bytes : Chunk → List ℕ
chunk_bytes c =
    header_bytes c.type (length c.items) (length c.raw)
    ++ (concat (map item_bytes c.items) ++ c.raw)

unfoldable pub stream_bytes : List Chunk → List ℕ
stream_bytes cs = concat (map chunk_bytes cs)

-- What fits the fields of the header and of the items.
pub record Fits (c : Chunk) : Type 0 where
  pub type : IsU32 c.type
  pub count : length c.items * 12 < 2 ^ 16
  pub size : 16 + length c.items * 12 + length c.raw < 2 ^ 32
  pub items : All (λ (i : Item). IsU16 i.type × IsU32 i.value) c.items

module _ (accepts : Accepts) where
  unfoldable pub write_items : List Item → Writer
  write_items [] = done
  write_items (i ∷ is) = then_write (fwrite accepts (item_bytes i)) (write_items is)

  -- `nitems` and `rawlen` are the lengths of `items` and `raw` in every call of the source.
  unfoldable pub write_chunk : ℕ → List Item → List ℕ → Writer
  write_chunk type items raw =
      then_write (fwrite accepts (header_bytes type (length items) (length raw)))
        (then_write (write_items items) (if length raw == 0 then done else fwrite accepts raw))

  Writes-items : (is : List Item) → Writes accepts (write_items is) (concat (map item_bytes is))
  unfolding write_items
  Writes-items [] = Writes-done accepts
  Writes-items (i ∷ is) =
      Writes-then accepts (Writes-fwrite accepts (item_bytes i)) (Writes-items is)

  Writes-raw :
      (raw : List ℕ) → Writes accepts (if length raw == 0 then done else fwrite accepts raw) raw
  Writes-raw [] = Writes-done accepts
  Writes-raw (b ∷ bs) = rw (suc-eq-zero (length bs)) (Writes-fwrite accepts (b ∷ bs))

  -- write_chunk writes the bytes of the chunk, or stops at a short fwrite.
  pub write_chunk-Writes :
      (c : Chunk) → Writes accepts (write_chunk c.type c.items c.raw) (chunk_bytes c)
  unfolding write_chunk chunk_bytes
  write_chunk-Writes c =
      Writes-then accepts (Writes-fwrite accepts _)
        (Writes-then accepts (Writes-items c.items) (Writes-raw c.raw))

pub length-items : (is : List Item) → length (concat (map item_bytes is)) ≡ length is * 12
unfolding item_bytes put_be32 put_be16
length-items [] = refl
length-items (i ∷ is) =
    omega (arith, length-append (item_bytes i) (concat (map item_bytes is)), length-items is)

-- The size field counts the chunk to the byte.
pub length-chunk_bytes :
    (c : Chunk) → length (chunk_bytes c) ≡ 16 + length c.items * 12 + length c.raw
unfolding chunk_bytes header_bytes put_be32 put_be16
length-chunk_bytes c =
    omega (arith, length-append (concat (map item_bytes c.items)) c.raw, length-items c.items)

pub stream_bytes-cons :
    (c : Chunk) (cs : List Chunk) → stream_bytes (c ∷ cs) ≡ chunk_bytes c ++ stream_bytes cs
unfolding stream_bytes
stream_bytes-cons c cs = refl

pub stream_bytes-append :
    (cs ds : List Chunk) → stream_bytes (cs ++ ds) ≡ stream_bytes cs ++ stream_bytes ds
unfolding stream_bytes
stream_bytes-append [] ds = refl
stream_bytes-append (c ∷ cs) ds =
    ap (λ ys. chunk_bytes c ++ ys) (stream_bytes-append cs ds)
    ∙ sym (append_assoc (chunk_bytes c) (stream_bytes cs) (stream_bytes ds))
