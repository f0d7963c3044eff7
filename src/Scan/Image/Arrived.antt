-- ===== src/Scan/Image/Arrived.antt =====
-- A data block that handle_data_block of src/pantum.c answers with good.
use mathlib.Core.Path.{subst}
use pantum_open.Base.{
  Bool, ℕ, ◌+◌, ◌-◌, ◌/◌, ◌^◌, ◌≤◌, ◌<◌, ◌≡◌, refl, sym, ap, ◌∙◌, false, not, ◌&&◌, ◌||◌, List, [],
  ◌++◌, length, drop, min, ltb, ◌==◌, arith, if◌then◌else◌, if-cases, append_assoc,
}
use pantum_open.Wire.{get_be32}
use pantum_open.Scan.Status.{Status, good}
use pantum_open.Scan.Usb.{
  Device, Wire, IsLibusb, ReadDone, received, usb_read, usb_read-ReadDone, timeout_read,
}
use pantum_open.Scan.Frame.{if_good-cases, max_payload}
use pantum_open.Scan.Window.{Format, frame_gray, frame_rgb, channels}
use pantum_open.Scan.Handle.{OutQueue, Handle}
use pantum_open.Scan.Image.Rows.{is_rgb, smaller}
use pantum_open.Scan.Image.Blocks.{
  data_header_len, data_jpeg, read_rows, check_block, store_rows, handle_data_block,
}
use pantum_open.Scan.Image.Advance.{Advances, Advances-quiet}
use pantum_open.Scan.Image.Progress.{IsReady, Advances-IsReady, Filled, store_rows-Steps}
use pantum_open.Scan.Image.Contents.{Holds, Holds-trans, Holds-still, IsLine}
use pantum_open.Scan.Image.Stored.{store_rows-Holds}
use pantum_open.Scan.Image.Data.{rows-le, handle_data_block-Advances}

-- The words of the 24 bytes before the pixels: the kind of the block, its first row, its rows, the
-- planes of a line and the pixels of a plane.
abbrev pub kind_of : List ℕ → ℕ
kind_of head = get_be32 head

abbrev pub first_of : List ℕ → ℕ
first_of head = get_be32 (drop 4 head)

abbrev pub rows_of : List ℕ → ℕ
rows_of head = get_be32 (drop 8 head)

abbrev pub planes_of : List ℕ → ℕ
planes_of head = get_be32 (drop 12 head)

abbrev pub pixels_of : List ℕ → ℕ
pixels_of head = get_be32 (drop 16 head)

module _ (dither_mask : ℕ → ℕ) where
  -- The pixels `raw` were read and stand in the queue.
  pub record PixelsStored (first rows avail body : ℕ) (h : Handle) (w : Wire)
      (r : Status × Handle × Wire) : Type 0 where
    pub raw : List ℕ
    pub whole : length raw ≡ body
    pub came : received r.2 ≡ received w ++ raw
    pub filled : Filled (first + rows) r.1
    pub lines : Holds (IsLine dither_mask h first (body / rows) raw avail) h r.1

  -- The block was read whole, behind its 24 bytes of header, and no more; it is not compressed, has
  -- rows and has the planes of the page; the rows below its last one are taken care of, as far as the
  -- page goes, and each row that was appended is white before the block and else its own line.
  pub record BlockStored (plen : ℕ) (h : Handle) (w : Wire) (r : Status × Handle × Wire)
      : Type 0 where
    pub head : List ℕ
    pub raw : List ℕ
    pub header : length head ≡ 24
    pub size : 24 + length raw ≡ plen
    pub came : received r.2 ≡ received w ++ (head ++ raw)
    pub plain : ¬ (kind_of head ≡ 0x0f)
    pub some_rows : 0 < rows_of head
    pub planes : planes_of head ≡ channels h.params.format
    pub filled : Filled (first_of head + rows_of head) r.1
    pub lines :
        Holds
          (IsLine dither_mask h
            (first_of head)
            (length raw / rows_of head)
            raw
            (min (pixels_of head) (length raw / rows_of head / planes_of head)))
          h
          r.1

smaller-min : (a b : ℕ) → smaller a b ≡ min a b
smaller-min a b = ground arith

channels-planes : (f : Format) → channels f ≡ (if is_rgb f then 3 else 1)
channels-planes frame_rgb = refl
channels-planes frame_gray = refl

module _ (can_alloc : ℕ → Bool) (garbage : OutQueue → ℕ → List ℕ) (dither_mask : ℕ → ℕ)
    (hg : (q : OutQueue) (n : ℕ) → length (garbage q n) ≡ n) (device : Device)
    (lib : IsLibusb device) where
  read_rows-Stored :
      (first rows avail body : ℕ) (h : Handle) (w : Wire)
      → IsReady h
      → rows ≤ 2 ^ 32
      → let r = read_rows can_alloc garbage dither_mask device first rows avail body h w in
        r.0 ≡ good → PixelsStored dither_mask first rows avail body h w r
  unfolding read_rows
  read_rows-Stored first rows avail body h w i small =
      if-cases Stores (ltb h.raw_cap body && not (can_alloc body)) _ _ (λ t g. cc)
        (λ t.
          if_good-cases Stores r.0 _ (λ other. (other, h', r.2)) (λ g g'. stored g' (d.full g))
            (λ n g. absurd (n g)))
    where
      Stores : Status × Handle × Wire → Type 0
      Stores z = z.0 ≡ good → PixelsStored dither_mask first rows avail body h w z

      h' : Handle
      h' = if ltb h.raw_cap body then record h { raw_cap = body } else h

      r : Status × List ℕ × Wire
      r = usb_read device body timeout_read w

      d : ReadDone body [] w r
      d = usb_read-ReadDone device lib body timeout_read w

      scratch : Advances h h'
      scratch =
          if-cases (Advances h) (ltb h.raw_cap body) (record h { raw_cap = body }) h
            (λ t. Advances-quiet h (record h { raw_cap = body }) refl refl refl i.queue)
            (λ t. Advances-quiet h h refl refl refl i.queue)

      still : (P : ℕ → List ℕ → Type 0) → Holds P h h'
      still P =
          if-cases (Holds P h) (ltb h.raw_cap body) (record h { raw_cap = body }) h
            (λ t. Holds-still P h (record h { raw_cap = body }) refl refl)
            (λ t. Holds-still P h h refl refl)

      ready : IsReady h'
      ready = Advances-IsReady h h' i scratch

      z : Status × Handle
      z = store_rows can_alloc garbage dither_mask first rows (body / rows) r.1 avail h'

      stored :
          z.0 ≡ good
          → (xs : List ℕ) × (length xs ≡ body) × (r.1 ≡ xs) × (received r.2 ≡ received w ++ xs)
          → PixelsStored dither_mask first rows avail body h w (z.0, z.1, r.2)
      stored g (xs, l, e, c) = record {
        raw = r.1;
        whole = ap length e ∙ l;
        came = c ∙ ap (λ ys. received w ++ ys) (sym e);
        filled =
            (store_rows-Steps can_alloc garbage dither_mask hg first rows (body / rows) r.1 avail h'
                ready small).filled
              g;
        lines = Holds-trans _ h h' z.1 (still _) (
            store_rows-Holds can_alloc garbage dither_mask hg h first (body / rows) r.1 avail rows
              h' scratch.same ready small);
      }

  check_block-Stored :
      (plen : ℕ) (head : List ℕ) (h : Handle) (w w' : Wire)
      → IsReady h
      → plen ≤ max_payload
      → 24 ≤ plen
      → length head ≡ 24
      → received w' ≡ received w ++ head
      → let r = check_block can_alloc garbage dither_mask device head (plen - 24) h w' in
        r.0 ≡ good → BlockStored dither_mask plen h w r
  unfolding check_block
  check_block-Stored plen head h w w' i small enough size came =
      if-cases Stores (get_be32 head == data_jpeg) _ _ (λ t g. cc)
        (λ t.
          if-cases Stores (rows == 0 || planes == 0 || ltb (body / rows) planes) _ _ (λ t' g. cc)
            (λ t'.
              if-cases Stores (not (planes == (if is_rgb h.params.format then 3 else 1))) _ _
                (λ t'' g. cc)
                (λ t'' g. stored t t' t'' (
                  read_rows-Stored (first_of head) rows (smaller pixels (body / rows / planes)) body
                    h w' i (omega (arith, rows-le rows planes body t')) g))))
    where
      body : ℕ
      body = plen - 24

      rows : ℕ
      rows = rows_of head

      planes : ℕ
      planes = planes_of head

      pixels : ℕ
      pixels = pixels_of head

      Stores : Status × Handle × Wire → Type 0
      Stores z = z.0 ≡ good → BlockStored dither_mask plen h w z

      r : Status × Handle × Wire
      r =
          read_rows can_alloc garbage dither_mask device (first_of head) rows
            (smaller pixels (body / rows / planes)) body h w'

      stored :
          (get_be32 head == data_jpeg) ≡ false
          → (rows == 0 || planes == 0 || ltb (body / rows) planes) ≡ false
          → not (planes == (if is_rgb h.params.format then 3 else 1)) ≡ false
          → PixelsStored dither_mask
              (first_of head)
              rows
              (smaller pixels (body / rows / planes))
              body
              h
              w'
              r
          → BlockStored dither_mask plen h w r
      stored t t' t'' p = record {
        head = head;
        raw = p.raw;
        header = size;
        size = omega (arith, p.whole);
        came = p.came ∙ ap (λ z. z ++ p.raw) came ∙ append_assoc (received w) head p.raw;
        plain = λ e. ground (arith, t, e);
        some_rows = ground (arith, t');
        planes = ground (arith, t'', channels-planes h.params.format);
        filled = p.filled;
        lines =
            subst
              (λ n.
                Holds
                  (IsLine dither_mask h (first_of head) (n / rows) p.raw
                    (min pixels (n / rows / planes)))
                  h r.1)
              (sym p.whole)
              (subst (λ m. Holds (IsLine dither_mask h (first_of head) (body / rows) p.raw m) h r.1)
                (smaller-min pixels (body / rows / planes)) p.lines);
      }

  -- Over a libusb that never moves more than a buffer holds, and whatever the block of the queue holds
  -- behind its rows, a data block of a payload that recv_frame lets through appends whole rows, one
  -- for each row number and none beyond the page, and changes nothing else of the handle but the
  -- queue and the scratch block. Where it is answered with good, its header and all its pixels were read and no
  -- more, it is plain, has rows and as many planes as the page's format, its rows are taken care of as
  -- far as the page goes, and each row that was appended is a line of white before the block's first
  -- row and from there on what convert_row makes of the line that the device sent for it.
  pub handle_data_block-Stored :
      (plen : ℕ) (h : Handle) (w : Wire)
      → IsReady h
      → plen ≤ max_payload
      → let r = handle_data_block can_alloc garbage dither_mask device plen h w in
        Advances h r.1 × (r.0 ≡ good → BlockStored dither_mask plen h w r)
  unfolding handle_data_block
  handle_data_block-Stored plen h w i small = (
    handle_data_block-Advances can_alloc garbage dither_mask hg device plen h w i small,
    if-cases Stores (ltb plen data_header_len) _ _ (λ t g. cc)
        (λ t.
          if_good-cases Stores r.0 _ (λ other. (other, h, r.2)) (λ g. goes t (d.full g))
            (λ n g. absurd (n g))),
  )
    where
      Stores : Status × Handle × Wire → Type 0
      Stores z = z.0 ≡ good → BlockStored dither_mask plen h w z

      r : Status × List ℕ × Wire
      r = usb_read device data_header_len timeout_read w

      d : ReadDone data_header_len [] w r
      d = usb_read-ReadDone device lib data_header_len timeout_read w

      goes :
          ltb plen data_header_len ≡ false
          → (xs : List ℕ) × (length xs ≡ 24) × (r.1 ≡ xs) × (received r.2 ≡ received w ++ xs)
          → Stores (check_block can_alloc garbage dither_mask device r.1 (plen - 24) h r.2)
      goes t (xs, l, e, c) =
          check_block-Stored plen r.1 h w r.2 i small (ground (arith, t)) (ap length e ∙ l)
            (c ∙ ap (λ ys. received w ++ ys) (sym e))
