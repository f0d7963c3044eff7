-- ===== src/Print/Chunk/Parse.antt =====
-- A reader of ZjStream chunks, written from the format in notes/print-protocol.md and not from the
-- writer: what a printer has to make of the bytes.
use pantum_open.Base.{
  ℕ, zero, suc, ◌+◌, ◌-◌, ◌*◌, Option, none, some, List, [], ◌∷◌, length, take, drop, get_or, leb,
  ◌==◌, ◌&&◌, if◌then◌else◌, Bool,
}
use pantum_open.Wire.{get_be16, get_be32}
use pantum_open.Print.Chunk.Shape.{Item, Chunk}

unfoldable pub parse_item : List ℕ → Option Item
parse_item xs =
    if leb 12 (length xs) && get_be32 xs == 12 && get_or xs 6 0 == 1 && get_or xs 7 0 == 0
    then some (record { type = get_be16 (drop 4 xs); value = get_be32 (drop 8 xs) })
    else none

unfoldable pub parse_items : ℕ → List ℕ → Option (List Item)
parse_items zero xs = some []
parse_items (suc n) xs = elim (parse_item xs) [
  | none ↦ none
  | some i ↦ elim (parse_items n (drop 12 xs)) [ none ↦ none | some is ↦ some (i ∷ is) ]
]

-- The header: total size, type, number of items, bytes of the items, signature.
unfoldable pub header_good : List ℕ → Bool
header_good xs =
    leb 16 (length xs)
    && get_be16 (drop 14 xs) == 0x5a5a
    && get_be16 (drop 12 xs) == get_be32 (drop 8 xs) * 12
    && leb (16 + get_be32 (drop 8 xs) * 12) (get_be32 xs)
    && leb (get_be32 xs) (length xs)

unfoldable pub parse_chunk : List ℕ → Option (Chunk × List ℕ)
parse_chunk xs =
    let n = get_be32 (drop 8 xs) in
    let size = get_be32 xs in
    if header_good xs
    then elim (parse_items n (drop 16 xs)) [
      | none ↦ none
      | some is ↦ some (
        record {
          type = get_be32 (drop 4 xs);
          items = is;
          raw = take (size - (16 + n * 12)) (drop (16 + n * 12) xs);
        },
        drop size xs,
      )
    ]
    else none

-- A whole stream, by at most `fuel` chunks.
unfoldable pub parse_stream : ℕ → List ℕ → Option (List Chunk)
parse_stream fuel [] = some []
parse_stream zero (x ∷ xs) = none
parse_stream (suc fuel) (x ∷ xs) = elim (parse_chunk (x ∷ xs)) [
  | none ↦ none
  | some (c, rest) ↦ elim (parse_stream fuel rest) [ none ↦ none | some cs ↦ some (c ∷ cs) ]
]
