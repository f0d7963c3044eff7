-- ===== src/Scan/Image/Advance.antt =====
-- How the image path moves a handle on: rows are appended, one for each row number, in order.
use mathlib.Core.Path.{subst}
use pantum_open.Base.{
  ℕ, ◌+◌, ◌≤◌, ◌<◌, ◌≡◌, refl, sym, ap, ◌∙◌, Bool, List, [], ◌∷◌, ◌++◌, length, All, concat,
  append-nil, append_assoc, length-append, drop-append_le, arith,
}
use pantum_open.Scan.Window.{Settings, Parameters}
use pantum_open.Scan.Handle.{OutQueue, Handle}
use pantum_open.Scan.Image.Blocks.{push_row}
use pantum_open.Scan.Image.Reserve.{unread, IsQueue}

-- What the image path leaves alone: all of a handle but the queue, the row number and the scratch
-- block.
abbrev pub Kept : Type 0
Kept =
    Settings
    × Parameters
    × Bool
    × Bool
    × Bool
    × Bool
    × Bool
    × Bool
    × Bool
    × ℕ
    × ℕ
    × Bool
    × ℕ
    × ℕ
    × ℕ
    × ℕ
    × List ℕ

abbrev pub kept : Handle → Kept
kept h = (
  h.settings, h.params, h.scanning, h.locked, h.cancelled, h.eof, h.non_blocking, h.feeding,
  h.has_adf, h.threshold_fixed, h.threshold, h.halftone, h.white_top, h.white_bottom, h.white_left,
  h.white_right, h.gamma,
)

-- The rows that were appended between two handles.
pub record Appended (h h' : Handle) : Type 0 where
  pub rows : List (List ℕ)
  pub count : h'.next_row ≡ h.next_row + length rows
  pub full : All (λ (r : List ℕ). length r ≡ h.params.bytes_per_line) rows
  pub bytes : unread h'.out ≡ unread h.out ++ concat rows

pub record Advances (h h' : Handle) : Type 0 where
  pub same : kept h' ≡ kept h
  pub queue : IsQueue h'.out
  pub within : h.next_row ≤ h.params.lines → h'.next_row ≤ h.params.lines
  pub appended : Appended h h'

All-both {ℓ κ} :
    {A : Type ℓ} (P : A → Type κ) (xs ys : List A) → All P xs → All P ys → All P (xs ++ ys)
All-both P [] ys h k = k
All-both P (x ∷ xs) ys h k = (h.0, All-both P xs ys h.1 k)

pub concat-both : (xs ys : List (List ℕ)) → concat (xs ++ ys) ≡ concat xs ++ concat ys
concat-both [] ys = refl
concat-both (x ∷ xs) ys =
    ap (λ zs. x ++ zs) (concat-both xs ys) ∙ sym (append_assoc x (concat xs) (concat ys))

pub params_of : (h h' : Handle) → kept h' ≡ kept h → h'.params ≡ h.params
params_of h h' e = ap (λ (k : Kept). k.1) e

pub Appended-trans :
    (h h' h'' : Handle) → h'.params ≡ h.params → Appended h h' → Appended h' h'' → Appended h h''
Appended-trans h h' h'' e a b = record {
  rows = a.rows ++ b.rows;
  count = omega (arith, a.count, b.count, length-append a.rows b.rows);
  full =
      All-both (λ r. length r ≡ h.params.bytes_per_line) a.rows b.rows a.full
        (subst (λ n. All (λ (r : List ℕ). length r ≡ n) b.rows) (ap (λ p. p.bytes_per_line) e)
          b.full);
  bytes =
      b.bytes
      ∙ ap (λ zs. zs ++ concat b.rows) a.bytes
      ∙ append_assoc (unread h.out) (concat a.rows) (concat b.rows)
      ∙ ap (λ zs. unread h.out ++ zs) (sym (concat-both a.rows b.rows));
}

pub Advances-trans : (h h' h'' : Handle) → Advances h h' → Advances h' h'' → Advances h h''
Advances-trans h h' h'' a b = record {
  same = b.same ∙ a.same;
  queue = b.queue;
  within = λ k.
      let e : h'.params.lines ≡ h.params.lines = ap (λ p. p.lines) (params_of h h' a.same) in
      omega (arith, b.within (omega (arith, a.within k)));
  appended = Appended-trans h h' h'' (params_of h h' a.same) a.appended b.appended;
}

-- The queue may be moved, and the scratch block grown, where no row is appended.
pub Advances-still :
    (h : Handle) (q : OutQueue)
    → IsQueue q
    → unread q ≡ unread h.out
    → Advances h (record h { out = q })
Advances-still h q i u = record {
  same = refl;
  queue = i;
  within = λ k. k;
  appended = record {
    rows = [];
    count = omega arith;
    full = tt;
    bytes = u ∙ sym (append-nil (unread h.out));
  };
}

-- One row, of the full length.
pub Advances-row :
    (h : Handle) (q : OutQueue) (row : List ℕ) (next : ℕ)
    → IsQueue q
    → unread q ≡ unread h.out
    → length row ≡ h.params.bytes_per_line
    → next ≡ h.next_row + 1
    → h.next_row < h.params.lines
    → Advances h (record h { out = push_row row q; next_row = next })
Advances-row h q row next i u n e l = record {
  same = refl;
  queue = omega (arith, length-append q.bytes row);
  within = λ k. omega arith;
  appended = record {
    rows = row ∷ [];
    count = e;
    full = (n, tt);
    bytes = drop-append_le q.pos q.bytes row i ∙ (λ j. u j ++ sym (append-nil row) j);
  };
}

-- Nothing that a row depends on has changed.
pub Advances-quiet :
    (h h' : Handle)
    → kept h' ≡ kept h
    → h'.out ≡ h.out
    → h'.next_row ≡ h.next_row
    → IsQueue h.out
    → Advances h h'
Advances-quiet h h' e o n i = record {
  same = e;
  queue = subst IsQueue (sym o) i;
  within = λ k. omega (arith, ap (λ (p : Parameters). p.lines) (params_of h h' e));
  appended = record {
    rows = [];
    count = omega (arith, n);
    full = tt;
    bytes = ap unread o ∙ sym (append-nil (unread h.out));
  };
}
