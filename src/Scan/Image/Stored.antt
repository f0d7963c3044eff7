-- ===== src/Scan/Image/Stored.antt =====
-- The lines that emit_white_rows and the rows of a data block of src/pantum.c put into the queue.
use pantum_open.Base.{
  Bool, false, ℕ, zero, suc, ◌+◌, ◌-◌, ◌*◌, ◌%◌, ◌^◌, ◌≤◌, ◌<◌, ◌≡◌, refl, ap, ◌∙◌, ◌&&◌, ◌||◌,
  List, [], ◌++◌, length, drop, replicate, ltb, leb, arith, if◌then◌else◌, if-cases, append-nil,
  drop-all, inl, inr,
}
use pantum_open.Scan.Status.{Status, good}
use pantum_open.Scan.Frame.{if_good-cases}
use pantum_open.Scan.Window.{Parameters}
use pantum_open.Scan.Handle.{OutQueue, Handle}
use pantum_open.Scan.Image.Rows.{
  fill, white_byte, lead_of, tail_of, is_margin, rgb_row, gray_row, limit_at, bilevel_row,
  convert_row,
}
use pantum_open.Scan.Image.Blocks.{
  white_row, white_rows, emit_white_rows, place_row, place_rows, store_rows,
}
use pantum_open.Scan.Image.Advance.{Kept, kept, params_of}
use pantum_open.Scan.Image.Progress.{
  IsReady, Advances-IsReady, Filled, lines_of, Steps, white_row-Steps, emit_white_rows-Steps,
  place_row-Steps,
}
use pantum_open.Scan.Image.Contents.{
  Holds, Holds-trans, Holds-still, Holds-reserved, white_line, IsLine,
}

-- A handle with what the image path leaves alone, and nothing else.
abbrev of_kept : Kept → Handle
of_kept k = record {
  settings = k.0;
  params = k.1;
  scanning = k.2;
  locked = k.3;
  cancelled = k.4;
  eof = k.5;
  non_blocking = k.6;
  feeding = k.7;
  has_adf = k.8;
  threshold_fixed = k.9;
  threshold = k.10;
  halftone = k.11;
  white_top = k.12;
  white_bottom = k.13;
  white_left = k.14;
  white_right = k.15;
  gamma = k.16;
  next_row = 0;
  raw_cap = 0;
  out = record { block = 0; capacity = 0; bytes = []; pos = 0; overrun = false };
}

-- What convert_row makes of a line does not depend on the queue, the row number or the scratch block.
convert_row-kept :
    (dither_mask : ℕ → ℕ) (h h' : Handle) (src : List ℕ) (avail row : ℕ) (dst : List ℕ)
    → kept h' ≡ kept h
    → convert_row dither_mask h' src avail row dst ≡ convert_row dither_mask h src avail row dst
unfolding convert_row is_margin rgb_row gray_row bilevel_row lead_of tail_of limit_at white_byte
convert_row-kept dither_mask h h' src avail row dst e =
    ap (λ k. convert_row dither_mask (of_kept k) src avail row dst) e

fill-white_line :
    (p : Parameters) (dst : List ℕ)
    → length dst ≡ p.bytes_per_line
    → fill 0 p.bytes_per_line (white_byte p) dst ≡ white_line p
unfolding fill white_byte
fill-white_line p dst e =
    ap (λ z. replicate p.bytes_per_line (white_byte p) ++ z)
      (drop-all (0 + p.bytes_per_line) dst (omega (arith, e)))
    ∙ append-nil (replicate p.bytes_per_line (white_byte p))

module _ (can_alloc : ℕ → Bool) (garbage : OutQueue → ℕ → List ℕ) (dither_mask : ℕ → ℕ)
    (hg : (q : OutQueue) (n : ℕ) → length (garbage q n) ≡ n) (base : Handle) (first stride : ℕ)
    (raw : List ℕ) (avail : ℕ) where
  abbrev Line : ℕ → List ℕ → Type 0
  Line = IsLine dither_mask base first stride raw avail

  white_row-Holds :
      (h : Handle)
      → kept h ≡ kept base
      → IsReady h
      → h.next_row < first
      → Holds Line h (white_row can_alloc garbage dither_mask h).1
  unfolding white_row
  white_row-Holds h e i l =
      Holds-reserved Line can_alloc h
        (λ q.
          fill 0 h.params.bytes_per_line (white_byte h.params) (garbage q h.params.bytes_per_line))
        (h.next_row + 1) i.queue refl
        (λ q. inl (
          l,
          fill-white_line h.params (garbage q h.params.bytes_per_line)
                (hg q h.params.bytes_per_line)
              ∙ ap white_line (params_of base h e),
        ))

  white_rows-Holds :
      (fuel upto : ℕ) (h : Handle)
      → kept h ≡ kept base
      → IsReady h
      → upto ≤ first
      → Holds Line h (white_rows can_alloc garbage dither_mask fuel upto h).1
  white_rows-Holds zero upto h e i b = unfold white_rows in Holds-still Line h h refl refl
  white_rows-Holds (suc fuel) upto h e i b =
      step (white_rows-Holds fuel upto (white_row can_alloc garbage dither_mask h).1)
    where
      r : Status × Handle
      r = white_row can_alloc garbage dither_mask h

      step :
          (kept r.1 ≡ kept base
            → IsReady r.1
            → upto ≤ first
            → Holds Line r.1 (white_rows can_alloc garbage dither_mask fuel upto r.1).1)
          → Holds Line h (white_rows can_alloc garbage dither_mask (suc fuel) upto h).1
      step ih =
          unfold white_rows in
          if-cases {A = Status × Handle} (λ z. Holds Line h z.1)
            (ltb h.next_row upto && ltb h.next_row h.params.lines) _ (good, h)
            (λ t.
              let l : h.next_row < h.params.lines = ground arith in
              let a = (white_row-Steps can_alloc garbage dither_mask hg h i l).advances in
              let own = white_row-Holds h e i (ground arith) in
              if_good-cases {A = Status × Handle} (λ z. Holds Line h z.1) r.0
                (white_rows can_alloc garbage dither_mask fuel upto r.1) (λ other. (other, r.1))
                (λ g. Holds-trans Line h r.1 _ own (ih (a.same ∙ e) (Advances-IsReady h r.1 i a) b))
                (λ n. own))
            (λ t. Holds-still Line h h refl refl)

  place_row-Holds :
      (i : ℕ) (h : Handle)
      → kept h ≡ kept base
      → IsReady h
      → i < 2 ^ 32
      → Filled (first + i) h
      → Holds Line h
          (place_row can_alloc garbage dither_mask first
            (drop (i * stride) raw)
            avail
            ((first + i) % 2 ^ 32)
            h).1
  unfolding place_row
  place_row-Holds i h e ready small f =
      if-cases {A = Status × Handle} (λ z. Holds Line h z.1)
        (ltb row first || ltb row h.next_row || leb h.params.lines row) (good, h) _
        (λ t. Holds-still Line h h refl refl)
        (λ t.
          let here : row ≡ h.next_row = ground arith in
          let back : i ≡ h.next_row - first = ground arith in
          let after : first ≤ h.next_row = ground arith in
          Holds-reserved Line can_alloc h
            (λ q.
              convert_row dither_mask h (drop (i * stride) raw) avail row
                (garbage q h.params.bytes_per_line))
            (row + 1) ready.queue (ap (λ n. n + 1) here)
            (λ q. inr (
              after,
              (
                garbage q h.params.bytes_per_line,
                hg q h.params.bytes_per_line
                    ∙ ap (λ (p : Parameters). p.bytes_per_line) (params_of base h e),
                convert_row-kept dither_mask base h _ avail row _ e ∙ (λ j.
                    convert_row dither_mask base (drop (back j * stride) raw) avail (here j)
                      (garbage q h.params.bytes_per_line)),
              ),
            )))
    where
      row : ℕ
      row = (first + i) % 2 ^ 32

  place_rows-Holds :
      (left i : ℕ) (h : Handle)
      → kept h ≡ kept base
      → IsReady h
      → i + left ≤ 2 ^ 32
      → Filled (first + i) h
      → Holds Line h (place_rows can_alloc garbage dither_mask left first stride raw avail i h).1
  place_rows-Holds zero i h e ready small f = unfold place_rows in Holds-still Line h h refl refl
  place_rows-Holds (suc left) i h e ready small f = step (place_rows-Holds left (i + 1) r.1)
    where
      r : Status × Handle
      r =
          place_row can_alloc garbage dither_mask first (drop (i * stride) raw) avail
            ((first + i) % 2 ^ 32) h

      s : Steps (first + i + 1) h r
      s =
          place_row-Steps can_alloc garbage dither_mask hg first (drop (i * stride) raw) avail i h
            ready (omega arith) f

      own : Holds Line h r.1
      own = place_row-Holds i h e ready (omega arith) f

      step :
          (kept r.1 ≡ kept base
            → IsReady r.1
            → i + 1 + left ≤ 2 ^ 32
            → Filled (first + (i + 1)) r.1
            → Holds Line r.1
                (place_rows can_alloc garbage dither_mask left first stride raw avail
                  (i + 1)
                  r.1).1)
          → Holds Line h
              (place_rows can_alloc garbage dither_mask (suc left) first stride raw avail i h).1
      step ih =
          unfold place_rows in
          if_good-cases {A = Status × Handle} (λ z. Holds Line h z.1) r.0 _ (λ other. (other, r.1))
            (λ g.
              let reached : Filled (first + (i + 1)) r.1 = ground (arith, s.filled g) in
              Holds-trans Line h r.1 _ own (
                ih (s.advances.same ∙ e) (Advances-IsReady h r.1 ready s.advances) (omega arith)
                  reached))
            (λ n. own)

  -- Whatever rows are appended for a block, each is white before the block and else its own line.
  pub store_rows-Holds :
      (rows : ℕ) (h : Handle)
      → kept h ≡ kept base
      → IsReady h
      → rows ≤ 2 ^ 32
      → Holds Line h (store_rows can_alloc garbage dither_mask first rows stride raw avail h).1
  unfolding store_rows emit_white_rows
  store_rows-Holds rows h e ready small =
      if_good-cases {A = Status × Handle} (λ z. Holds Line h z.1) r.0 _ (λ other. (other, r.1))
        (λ g. Holds-trans Line h r.1 _ white (
          place_rows-Holds rows 0 r.1 (s.advances.same ∙ e)
            (Advances-IsReady h r.1 ready s.advances) (omega arith) (reached g)))
        (λ n. white)
    where
      upto : ℕ
      upto = if ltb first h.params.lines then first else h.params.lines

      r : Status × Handle
      r = emit_white_rows can_alloc garbage dither_mask upto h

      white : Holds Line h r.1
      white = white_rows-Holds upto upto h e ready (ground arith)

      s : Steps upto h r
      s = emit_white_rows-Steps can_alloc garbage dither_mask hg upto h ready

      reached : r.0 ≡ good → Filled (first + 0) r.1
      reached g = ground (arith, s.filled g, lines_of h r.1 s.advances)
