-- ===== src/Scan/Image/Data.antt =====
-- What handle_data_block of src/pantum.c does to a handle.
use pantum_open.Base.{
  ℕ, zero, suc, ◌+◌, ◌-◌, ◌*◌, ◌/◌, ◌^◌, ◌≤◌, ◌<◌, ◌≡◌, refl, Bool, false, not, ◌&&◌, ◌||◌, List,
  length, drop, ltb, ◌==◌, arith, if◌then◌else◌, if-cases,
}
use native.Mathlib.Nat.{div-mul-le_self}
use pantum_open.Wire.{get_be32}
use pantum_open.Scan.Status.{Status, unsupported, io_error, no_mem}
use pantum_open.Scan.Usb.{Device, Wire, usb_read, drain_payload, timeout_read}
use pantum_open.Scan.Frame.{if_good-cases, max_payload}
use pantum_open.Scan.Handle.{OutQueue, Handle}
use pantum_open.Scan.Image.Rows.{is_rgb, smaller}
use pantum_open.Scan.Image.Blocks.{
  data_header_len, data_jpeg, read_rows, check_block, handle_data_block,
}
use pantum_open.Scan.Image.Advance.{Advances, Advances-trans, Advances-quiet}
use pantum_open.Scan.Image.Progress.{IsReady, Advances-IsReady, store_rows-Steps}

le_of_times : (q r b : ℕ) → 0 < q → q * r ≤ b → r ≤ b
le_of_times zero r b p h = elim p [ ]
le_of_times (suc q) r b p h = let m : suc q * r ≡ r + q * r = omega arith in omega (arith, m)

pub rows-le :
    (rows planes body : ℕ)
    → (rows == 0 || planes == 0 || ltb (body / rows) planes) ≡ false
    → rows ≤ body
rows-le rows planes body e =
    le_of_times (body / rows) rows body (ground arith) (div-mul-le_self body rows)

module _ (can_alloc : ℕ → Bool) (garbage : OutQueue → ℕ → List ℕ) (dither_mask : ℕ → ℕ)
    (hg : (q : OutQueue) (n : ℕ) → length (garbage q n) ≡ n) (device : Device) where
  abbrev Moves : Handle → Status × Handle × Wire → Type 0
  Moves h r = Advances h r.1

  abbrev after_drain : ℕ → Wire → Wire
  after_drain n w = (drain_payload device n timeout_read w).1

  unmoved : (h : Handle) (st : Status) (w : Wire) → IsReady h → Moves h (st, h, w)
  unmoved h st w i = Advances-quiet h h refl refl refl i.queue

  read_rows-Moves :
      (first rows avail body : ℕ) (h : Handle) (w : Wire)
      → IsReady h
      → rows ≤ 2 ^ 32
      → Moves h (read_rows can_alloc garbage dither_mask device first rows avail body h w)
  unfolding read_rows
  read_rows-Moves first rows avail body h w i small =
      if-cases (Moves h) (ltb h.raw_cap body && not (can_alloc body)) _ _
        (λ t. unmoved h no_mem (after_drain body w) i)
        (λ t.
          if_good-cases (Moves h) r.0 _ (λ other. (other, h', r.2))
            (λ g.
              Advances-trans h h' _ scratch
                (store_rows-Steps can_alloc garbage dither_mask hg first rows (body / rows) r.1
                  avail h' (Advances-IsReady h h' i scratch) small).advances)
            (λ n. scratch))
    where
      h' : Handle
      h' = if ltb h.raw_cap body then record h { raw_cap = body } else h

      r : Status × List ℕ × Wire
      r = usb_read device body timeout_read w

      scratch : Advances h h'
      scratch =
          if-cases (Advances h) (ltb h.raw_cap body) (record h { raw_cap = body }) h
            (λ t. Advances-quiet h (record h { raw_cap = body }) refl refl refl i.queue)
            (λ t. Advances-quiet h h refl refl refl i.queue)

  check_block-Moves :
      (head : List ℕ) (body : ℕ) (h : Handle) (w : Wire)
      → IsReady h
      → body ≤ max_payload
      → Moves h (check_block can_alloc garbage dither_mask device head body h w)
  unfolding check_block
  check_block-Moves head body h w i small =
      if-cases (Moves h) (get_be32 head == data_jpeg) _ _
        (λ t. unmoved h unsupported (after_drain body w) i)
        (λ t.
          if-cases (Moves h) (rows == 0 || planes == 0 || ltb (body / rows) planes) _ _
            (λ t'. unmoved h io_error (after_drain body w) i)
            (λ t'.
              if-cases (Moves h) (not (planes == (if is_rgb h.params.format then 3 else 1))) _ _
                (λ t''. unmoved h io_error (after_drain body w) i)
                (λ t''.
                  read_rows-Moves (get_be32 (drop 4 head)) rows
                    (smaller (get_be32 (drop 16 head)) (body / rows / planes)) body h w i
                    (omega (arith, rows-le rows planes body t')))))
    where
      rows : ℕ
      rows = get_be32 (drop 8 head)

      planes : ℕ
      planes = get_be32 (drop 12 head)

  -- Over any device, and whatever the block holds behind its rows, a data block of a payload that
  -- recv_frame lets through appends whole rows, one for each row number and none beyond the page, and
  -- changes nothing else of the handle but the queue and the scratch block.
  pub handle_data_block-Advances :
      (plen : ℕ) (h : Handle) (w : Wire)
      → IsReady h
      → plen ≤ max_payload
      → Advances h (handle_data_block can_alloc garbage dither_mask device plen h w).1
  unfolding handle_data_block
  handle_data_block-Advances plen h w i small =
      if-cases (Moves h) (ltb plen data_header_len) _ _
        (λ t. unmoved h io_error (after_drain plen w) i)
        (λ t.
          if_good-cases (Moves h) r.0 _ (λ other. (other, h, r.2))
            (λ g. check_block-Moves r.1 (plen - data_header_len) h r.2 i (omega arith))
            (λ n. unmoved h r.0 r.2 i))
    where
      r : Status × List ℕ × Wire
      r = usb_read device data_header_len timeout_read w
