-- ===== src/Scan/Image/Blocks.antt =====
-- emit_white_rows and handle_data_block of src/pantum.c. What the block of the queue holds behind
-- its last row is the parameter `garbage`.
use pantum_open.Base.{
  ℕ, zero, suc, ◌+◌, ◌-◌, ◌*◌, ◌/◌, ◌%◌, ◌^◌, Bool, not, ◌&&◌, ◌||◌, List, ◌++◌, length, drop, ltb,
  leb, ◌==◌, if◌then◌else◌,
}
use pantum_open.Wire.{get_be32}
use pantum_open.Scan.Status.{Status, good, unsupported, io_error, no_mem}
use pantum_open.Scan.Usb.{Device, Wire, usb_read, drain_payload, timeout_read}
use pantum_open.Scan.Frame.{if_good}
use pantum_open.Scan.Handle.{OutQueue, Handle}
use pantum_open.Scan.Image.Queue.{out_reserve}
use pantum_open.Scan.Image.Rows.{fill, white_byte, is_rgb, smaller, convert_row}

abbrev pub data_header_len : ℕ
data_header_len = 24

abbrev pub data_jpeg : ℕ
data_jpeg = 0x0f

-- A row behind the bytes of the queue, also where the block ends before it.
abbrev pub push_row : List ℕ → OutQueue → OutQueue
push_row row q = record q {
  bytes = q.bytes ++ row;
  overrun = q.overrun || ltb q.block (length q.bytes + length row);
}

module _ (can_alloc : ℕ → Bool) (garbage : OutQueue → ℕ → List ℕ) (dither_mask : ℕ → ℕ) where
  -- One round of the loop of emit_white_rows.
  unfoldable pub white_row : Handle → Status × Handle
  white_row h =
      let bpl = h.params.bytes_per_line in
      let (st, q) = out_reserve can_alloc bpl h.out in
      if_good st
        (
          good,
          record h {
            out = push_row (fill 0 bpl (white_byte h.params) (garbage q bpl)) q;
            next_row = h.next_row + 1;
          },
        )
        (λ other. (other, record h { out = q }))

  -- `while (h->next_row < upto && h->next_row < h->params.lines)`, by at most `fuel` rounds.
  unfoldable pub white_rows : ℕ → ℕ → Handle → Status × Handle
  white_rows zero upto h = (good, h)
  white_rows (suc fuel) upto h =
      let (st, h') = white_row h in
      let more = if_good st (white_rows fuel upto h') (λ other. (other, h')) in
      if ltb h.next_row upto && ltb h.next_row h.params.lines then more else (good, h)

  unfoldable pub emit_white_rows : ℕ → Handle → Status × Handle
  emit_white_rows upto h = white_rows upto upto h

  -- A row that the device numbers `row`: dropped where the number wrapped, was there before or lies
  -- beyond the page.
  unfoldable pub place_row : ℕ → List ℕ → ℕ → ℕ → Handle → Status × Handle
  place_row first src avail row h =
      let bpl = h.params.bytes_per_line in
      let (st, q) = out_reserve can_alloc bpl h.out in
      let placed =
        if_good st
          (
            good,
            record h {
              out = push_row (convert_row dither_mask h src avail row (garbage q bpl)) q;
              next_row = row + 1;
            },
          )
          (λ other. (other, record h { out = q })) in
      if ltb row first || ltb row h.next_row || leb h.params.lines row then (good, h) else placed

  -- `for (i = 0; i < rows; i++)`, with `left` rows to go.
  unfoldable pub place_rows : ℕ → ℕ → ℕ → List ℕ → ℕ → ℕ → Handle → Status × Handle
  place_rows zero first stride raw avail i h = (good, h)
  place_rows (suc left) first stride raw avail i h =
      let (st, h') = place_row first (drop (i * stride) raw) avail ((first + i) % 2 ^ 32) h in
      if_good st (place_rows left first stride raw avail (i + 1) h') (λ other. (other, h'))

  -- What happens to a block whose pixels are in `raw`.
  unfoldable pub store_rows : ℕ → ℕ → ℕ → List ℕ → ℕ → Handle → Status × Handle
  store_rows first rows stride raw avail h =
      let (st, h') =
        emit_white_rows (if ltb first h.params.lines then first else h.params.lines) h in
      if_good st (place_rows rows first stride raw avail 0 h') (λ other. (other, h'))

  module _ (device : Device) where
    abbrev pub drained : ℕ → Status → Handle → Wire → Status × Handle × Wire
    drained n st h w = (st, h, (drain_payload device n timeout_read w).1)

    -- The scratch block, and then the pixels.
    unfoldable pub read_rows : ℕ → ℕ → ℕ → ℕ → Handle → Wire → Status × Handle × Wire
    read_rows first rows avail body h w =
        let h' = if ltb h.raw_cap body then record h { raw_cap = body } else h in
        let (st, raw, w') = usb_read device body timeout_read w in
        let (st', h'') = store_rows first rows (body / rows) raw avail h' in
        if ltb h.raw_cap body && not (can_alloc body)
        then drained body no_mem h w
        else if_good st (st', h'', w') (λ other. (other, h', w'))

    -- The sub-header, and the checks on it.
    unfoldable pub check_block : List ℕ → ℕ → Handle → Wire → Status × Handle × Wire
    check_block head body h w =
        let type = get_be32 head in
        let first = get_be32 (drop 4 head) in
        let rows = get_be32 (drop 8 head) in
        let planes = get_be32 (drop 12 head) in
        let pixels = get_be32 (drop 16 head) in
        let want_planes = if is_rgb h.params.format then 3 else 1 in
        if type == data_jpeg
        then drained body unsupported h w
        else if rows == 0 || planes == 0 || ltb (body / rows) planes
        then drained body io_error h w
        else if not (planes == want_planes)
        then drained body io_error h w
        else read_rows first rows (smaller pixels (body / rows / planes)) body h w

    unfoldable pub handle_data_block : ℕ → Handle → Wire → Status × Handle × Wire
    handle_data_block plen h w =
        let (st, head, w') = usb_read device data_header_len timeout_read w in
        if ltb plen data_header_len
        then drained plen io_error h w
        else if_good st (check_block head (plen - data_header_len) h w') (λ other. (other, h, w'))
