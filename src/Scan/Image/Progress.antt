-- ===== src/Scan/Image/Progress.antt =====
-- emit_white_rows and the rows of a data block append whole rows, one for each row number.
use mathlib.Core.Path.{subst}
use pantum_open.Base.{
  ℕ, zero, suc, ◌+◌, ◌*◌, ◌%◌, ◌^◌, ◌≤◌, ◌<◌, ◌≡◌, refl, sym, ap, ◌∙◌, Bool, ◌&&◌, ◌||◌, List,
  length, drop, ltb, leb, arith, if◌then◌else◌, if-cases, inl, inr, ◌⊎◌,
}
use pantum_open.Scan.Status.{Status, good}
use pantum_open.Scan.Frame.{if_good, if_good-cases}
use pantum_open.Scan.Window.{Parameters}
use pantum_open.Scan.Handle.{OutQueue, Handle}
use pantum_open.Scan.Image.Queue.{out_reserve}
use pantum_open.Scan.Image.Rows.{fill, white_byte, convert_row}
use pantum_open.Scan.Image.Blocks.{
  push_row, white_row, white_rows, emit_white_rows, place_row, place_rows, store_rows,
}
use pantum_open.Scan.Image.Reserve.{IsQueue, Reserved, out_reserve-Reserved}
use pantum_open.Scan.Image.Advance.{
  params_of, Advances, Advances-trans, Advances-still, Advances-row,
}
use pantum_open.Scan.Image.Lengths.{IsPage, length-fill, length-convert_row}

-- A handle that the image path may work on.
pub record IsReady (h : Handle) : Type 0 where
  pub page : IsPage h.params
  pub queue : IsQueue h.out

pub Advances-IsReady : (h h' : Handle) → IsReady h → Advances h h' → IsReady h'
Advances-IsReady h h' r a = record {
  page = subst IsPage (sym (params_of h h' a.same)) r.page;
  queue = a.queue;
}

pub lines_of : (h h' : Handle) → Advances h h' → h'.params.lines ≡ h.params.lines
lines_of h h' a = ap (λ (p : Parameters). p.lines) (params_of h h' a.same)

-- Row numbers below `upto` are taken care of, or the page is full.
abbrev pub Filled : ℕ → Handle → Type 0
Filled upto h = (upto ≤ h.next_row) ⊎ (h.params.lines ≤ h.next_row)

-- A step of the image path: it advances the handle, and where it succeeds fills the rows below `upto`.
pub record Steps (upto : ℕ) (h : Handle) (r : Status × Handle) : Type 0 where
  pub advances : Advances h r.1
  pub filled : r.0 ≡ good → Filled upto r.1

pub Steps-then :
    (upto : ℕ) (h h' : Handle) (r : Status × Handle)
    → Advances h h'
    → Steps upto h' r
    → Steps upto h r
Steps-then upto h h' r a s = record {
  advances = Advances-trans h h' r.1 a s.advances;
  filled = s.filled;
}

Steps-at : {a b : ℕ} {h : Handle} {r : Status × Handle} → a ≡ b → Steps a h r → Steps b h r
Steps-at {a} {b} {h} {r} e s = subst (λ n. Steps n h r) e s

module _ (can_alloc : ℕ → Bool) (garbage : OutQueue → ℕ → List ℕ) (dither_mask : ℕ → ℕ)
    (hg : (q : OutQueue) (n : ℕ) → length (garbage q n) ≡ n) where
  -- A row of the right length behind a successful reservation.
  appends :
      (h : Handle) (row : OutQueue → List ℕ) (next : ℕ)
      → IsReady h
      → ((q : OutQueue) → length (row q) ≡ h.params.bytes_per_line)
      → next ≡ h.next_row + 1
      → h.next_row < h.params.lines
      → let (st, q) = out_reserve can_alloc h.params.bytes_per_line h.out in
        Steps next h (
          if_good st
            (good, record h { out = push_row (row q) q; next_row = next })
            (λ other. (other, record h { out = q })))
  appends h row next i n e l =
      if_good-cases (Steps next h) r.0
        (good, record h { out = push_row (row r.1) r.1; next_row = next })
        (λ other. (other, record h { out = r.1 }))
        (λ s. record {
          advances = Advances-row h r.1 (row r.1) next d.queue d.unread (n r.1) e l;
          filled = λ g. inl (omega arith);
        })
        (λ s. record {
          advances = Advances-still h r.1 d.queue d.unread;
          filled = λ g. absurd (s g);
        })
    where
      r : Status × OutQueue
      r = out_reserve can_alloc h.params.bytes_per_line h.out

      d : Reserved h.params.bytes_per_line h.out r
      d = out_reserve-Reserved can_alloc h.params.bytes_per_line h.out i.queue

  pub white_row-Steps :
      (h : Handle)
      → IsReady h
      → h.next_row < h.params.lines
      → Steps (h.next_row + 1) h (white_row can_alloc garbage dither_mask h)
  unfolding white_row
  white_row-Steps h i l =
      appends h
        (λ q.
          fill 0 h.params.bytes_per_line (white_byte h.params) (garbage q h.params.bytes_per_line))
        (h.next_row + 1) i
        (λ q.
          length-fill 0 h.params.bytes_per_line (white_byte h.params)
            (garbage q h.params.bytes_per_line) (omega (arith, hg q h.params.bytes_per_line))
          ∙ hg q h.params.bytes_per_line)
        refl l

  stays : (upto : ℕ) (h : Handle) → IsReady h → Filled upto h → Steps upto h (good, h)
  stays upto h i f = record { advances = Advances-still h h.out i.queue refl; filled = λ g. f }

  white_rows-Steps :
      (fuel upto : ℕ) (h : Handle)
      → IsReady h
      → upto ≤ h.next_row + fuel
      → Steps upto h (white_rows can_alloc garbage dither_mask fuel upto h)
  white_rows-Steps zero upto h i e = unfold white_rows in stays upto h i (inl (omega arith))
  white_rows-Steps (suc fuel) upto h i e =
      step (white_rows-Steps fuel upto (white_row can_alloc garbage dither_mask h).1)
    where
      r : Status × Handle
      r = white_row can_alloc garbage dither_mask h

      further : h.next_row < h.params.lines → r.0 ≡ good → upto ≤ r.1.next_row + fuel
      further l g = elim ((white_row-Steps h i l).filled g) [
        | inl n ↦ omega arith
        | inr n ↦ omega (arith, lines_of h r.1 (white_row-Steps h i l).advances)
      ]

      step :
          (IsReady r.1
            → upto ≤ r.1.next_row + fuel
            → Steps upto r.1 (white_rows can_alloc garbage dither_mask fuel upto r.1))
          → Steps upto h (white_rows can_alloc garbage dither_mask (suc fuel) upto h)
      step ih =
          unfold white_rows in
          if-cases (Steps upto h) (ltb h.next_row upto && ltb h.next_row h.params.lines) _ (good, h)
            (λ t.
              let l : h.next_row < h.params.lines = ground arith in
              let a = (white_row-Steps h i l).advances in
              if_good-cases (Steps upto h) r.0
                (white_rows can_alloc garbage dither_mask fuel upto r.1) (λ other. (other, r.1))
                (λ g. Steps-then upto h r.1 _ a (ih (Advances-IsReady h r.1 i a) (further l g)))
                (λ n. record { advances = a; filled = λ g. absurd (n g) }))
            (λ t. stays upto h i (ground arith))

  -- emit_white_rows appends whole rows, and where it succeeds it has filled the page up to `upto`.
  pub emit_white_rows-Steps :
      (upto : ℕ) (h : Handle)
      → IsReady h
      → Steps upto h (emit_white_rows can_alloc garbage dither_mask upto h)
  unfolding emit_white_rows
  emit_white_rows-Steps upto h i = white_rows-Steps upto upto h i (omega arith)

  -- A row of a block, where the rows before it are taken care of.
  pub place_row-Steps :
      (first : ℕ) (src : List ℕ) (avail i : ℕ) (h : Handle)
      → IsReady h
      → i < 2 ^ 32
      → Filled (first + i) h
      → Steps
          (first + i + 1)
          h
          (place_row can_alloc garbage dither_mask first src avail ((first + i) % 2 ^ 32) h)
  unfolding place_row
  place_row-Steps first src avail i h ready small f =
      if-cases (Steps (first + i + 1) h)
        (ltb row first || ltb row h.next_row || leb h.params.lines row) (good, h) _
        (λ t. stays (first + i + 1) h ready (ground (arith, ready.page.lines)))
        (λ t.
          let e : row ≡ h.next_row = ground arith in
          let l : h.next_row < h.params.lines = ground arith in
          let same : row + 1 ≡ first + i + 1 = ground arith in
          Steps-at same (
            appends h
              (λ q. convert_row dither_mask h src avail row (garbage q h.params.bytes_per_line))
              (row + 1) ready
              (λ q.
                length-convert_row dither_mask h src avail row (garbage q h.params.bytes_per_line)
                  ready.page (hg q h.params.bytes_per_line))
              (ap (λ n. n + 1) e) l))
    where
      row : ℕ
      row = (first + i) % 2 ^ 32

  place_rows-Steps :
      (left first stride : ℕ) (raw : List ℕ) (avail i : ℕ) (h : Handle)
      → IsReady h
      → i + left ≤ 2 ^ 32
      → Filled (first + i) h
      → Steps
          (first + i + left)
          h
          (place_rows can_alloc garbage dither_mask left first stride raw avail i h)
  place_rows-Steps zero first stride raw avail i h ready small f =
      unfold place_rows in
      Steps-at (let e : first + i ≡ first + i + 0 = omega arith in e) (stays (first + i) h ready f)
  place_rows-Steps (suc left) first stride raw avail i h ready small f =
      step (place_rows-Steps left first stride raw avail (i + 1) r.1)
    where
      r : Status × Handle
      r =
          place_row can_alloc garbage dither_mask first (drop (i * stride) raw) avail
            ((first + i) % 2 ^ 32) h

      s : Steps (first + i + 1) h r
      s = place_row-Steps first (drop (i * stride) raw) avail i h ready (omega arith) f

      step :
          (IsReady r.1
            → i + 1 + left ≤ 2 ^ 32
            → Filled (first + (i + 1)) r.1
            → Steps
                (first + (i + 1) + left)
                r.1
                (place_rows can_alloc garbage dither_mask left first stride raw avail (i + 1) r.1))
          → Steps
              (first + i + suc left)
              h
              (place_rows can_alloc garbage dither_mask (suc left) first stride raw avail i h)
      step ih =
          unfold place_rows in
          if_good-cases (Steps (first + i + suc left) h) r.0 _ (λ other. (other, r.1))
            (λ g.
              let same : first + (i + 1) + left ≡ first + i + suc left = omega arith in
              let reached : Filled (first + (i + 1)) r.1 = ground (arith, s.filled g) in
              Steps-then (first + i + suc left) h r.1 _ s.advances (
                Steps-at same (ih (Advances-IsReady h r.1 ready s.advances) (omega arith) reached)))
            (λ n. record { advances = s.advances; filled = λ g. absurd (n g) })

  -- The rows of a block: gaps before them are filled with white.
  pub store_rows-Steps :
      (first rows stride : ℕ) (raw : List ℕ) (avail : ℕ) (h : Handle)
      → IsReady h
      → rows ≤ 2 ^ 32
      → Steps
          (first + rows)
          h
          (store_rows can_alloc garbage dither_mask first rows stride raw avail h)
  unfolding store_rows
  store_rows-Steps first rows stride raw avail h ready small =
      if_good-cases (Steps (first + rows) h) r.0 _ (λ other. (other, r.1))
        (λ g.
          let same : first + 0 + rows ≡ first + rows = omega arith in
          Steps-then (first + rows) h r.1 _ s.advances (
            Steps-at same (
              place_rows-Steps rows first stride raw avail 0 r.1
                (Advances-IsReady h r.1 ready s.advances) (omega arith) (reached g))))
        (λ n. record { advances = s.advances; filled = λ g. absurd (n g) })
    where
      upto : ℕ
      upto = if ltb first h.params.lines then first else h.params.lines

      r : Status × Handle
      r = emit_white_rows can_alloc garbage dither_mask upto h

      s : Steps upto h r
      s = emit_white_rows-Steps upto h ready

      reached : r.0 ≡ good → Filled (first + 0) r.1
      reached g = ground (arith, s.filled g, lines_of h r.1 s.advances)
