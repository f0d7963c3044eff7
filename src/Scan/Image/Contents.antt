-- ===== src/Scan/Image/Contents.antt =====
-- What stands in the rows that emit_white_rows and the rows of a data block append.
use mathlib.Core.Path.{subst}
use pantum_open.Base.{
  Bool, ℕ, ◌+◌, ◌-◌, ◌*◌, ◌≤◌, ◌<◌, ◌≡◌, refl, sym, ap, ◌∙◌, List, [], ◌∷◌, ◌++◌, length, drop,
  concat, replicate, ◌==◌, arith, if◌then◌else◌, append-nil, append_assoc, length-append,
  drop-append_le, ◌⊎◌,
}
use pantum_open.Scan.Status.{Status, good}
use pantum_open.Scan.Frame.{if_good, if_good-cases}
use pantum_open.Scan.Window.{Parameters}
use pantum_open.Scan.Handle.{OutQueue, Handle}
use pantum_open.Scan.Image.Queue.{out_reserve}
use pantum_open.Scan.Image.Rows.{convert_row}
use pantum_open.Scan.Image.Blocks.{push_row}
use pantum_open.Scan.Image.Reserve.{unread, IsQueue, Reserved, out_reserve-Reserved}
use pantum_open.Scan.Image.Advance.{concat-both}

-- Rows numbered from `n` on, each of them as `P` asks for at its number.
abbrev pub AllFrom : (ℕ → List ℕ → Type 0) → ℕ → List (List ℕ) → Type 0
AllFrom P n [] = Unit
AllFrom P n (r ∷ rs) = P n r × AllFrom P (n + 1) rs

-- The rows that were appended between two handles are as `P` asks for at their numbers.
pub record Holds (P : ℕ → List ℕ → Type 0) (h h' : Handle) : Type 0 where
  pub rows : List (List ℕ)
  pub count : h'.next_row ≡ h.next_row + length rows
  pub bytes : unread h'.out ≡ unread h.out ++ concat rows
  pub each : AllFrom P h.next_row rows

-- A line of white, in the depth of the page.
abbrev pub white_line : Parameters → List ℕ
white_line p = replicate p.bytes_per_line (if p.depth == 1 then 0 else 255)

-- Row `k` of a page where a data block of lines of `stride` bytes from row `first` on arrives: white
-- before the block, and in the block the device's own line, converted.
abbrev pub IsLine : (ℕ → ℕ) → Handle → ℕ → ℕ → List ℕ → ℕ → ℕ → List ℕ → Type 0
IsLine dither_mask h first stride raw avail k row =
    ((k < first) × (row ≡ white_line h.params))
    ⊎ ((first ≤ k)
        × ((dst : List ℕ) × (length dst ≡ h.params.bytes_per_line)
            × (row ≡ convert_row dither_mask h (drop ((k - first) * stride) raw) avail k dst)))

module _ (P : ℕ → List ℕ → Type 0) where
  AllFrom-both :
      (n m : ℕ) (xs ys : List (List ℕ))
      → m ≡ n + length xs
      → AllFrom P n xs
      → AllFrom P m ys
      → AllFrom P n (xs ++ ys)
  AllFrom-both n m [] ys e h k =
      (let z : m ≡ n = omega (arith, e) in subst (λ j. AllFrom P j ys) z k)
  AllFrom-both n m (x ∷ xs) ys e h k = (h.0, AllFrom-both (n + 1) m xs ys (omega (arith, e)) h.1 k)

  pub Holds-trans : (h h' h'' : Handle) → Holds P h h' → Holds P h' h'' → Holds P h h''
  Holds-trans h h' h'' a b = record {
    rows = a.rows ++ b.rows;
    count = omega (arith, a.count, b.count, length-append a.rows b.rows);
    bytes =
        b.bytes
        ∙ ap (λ zs. zs ++ concat b.rows) a.bytes
        ∙ append_assoc (unread h.out) (concat a.rows) (concat b.rows)
        ∙ ap (λ zs. unread h.out ++ zs) (sym (concat-both a.rows b.rows));
    each = AllFrom-both h.next_row h'.next_row a.rows b.rows a.count a.each b.each;
  }

  pub Holds-still :
      (h h' : Handle) → unread h'.out ≡ unread h.out → h'.next_row ≡ h.next_row → Holds P h h'
  Holds-still h h' u n = record {
    rows = [];
    count = omega (arith, n);
    bytes = u ∙ sym (append-nil (unread h.out));
    each = tt;
  }

  -- A row behind a reservation, or the reservation alone.
  pub Holds-reserved :
      (can_alloc : ℕ → Bool) (h : Handle) (row : OutQueue → List ℕ) (next : ℕ)
      → IsQueue h.out
      → next ≡ h.next_row + 1
      → ((q : OutQueue) → P h.next_row (row q))
      → let (st, q) = out_reserve can_alloc h.params.bytes_per_line h.out in
        Holds P h
          (if_good {A = Status × Handle} st
            (good, record h { out = push_row (row q) q; next_row = next })
            (λ other. (other, record h { out = q }))).1
  Holds-reserved can_alloc h row next i e p =
      if_good-cases {A = Status × Handle} (λ z. Holds P h z.1) r.0
        (good, record h { out = push_row (row r.1) r.1; next_row = next })
        (λ other. (other, record h { out = r.1 }))
        (λ s. record {
          rows = row r.1 ∷ [];
          count = e;
          bytes =
              drop-append_le r.1.pos r.1.bytes (row r.1) d.queue
              ∙ (λ j. d.unread j ++ sym (append-nil (row r.1)) j);
          each = (p r.1, tt);
        })
        (λ s. Holds-still h (record h { out = r.1 }) d.unread refl)
    where
      r : Status × OutQueue
      r = out_reserve can_alloc h.params.bytes_per_line h.out

      d : Reserved h.params.bytes_per_line h.out r
      d = out_reserve-Reserved can_alloc h.params.bytes_per_line h.out i
