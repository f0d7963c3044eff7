-- ===== src/Scan/Job/Handed.antt =====
-- What a call of sane_pantum_read in src/pantum.c does to a page, and the part of it behind the loop.
use mathlib.Core.Path.{subst}
use pantum_open.Base.{
  ℕ, ◌+◌, ◌-◌, ◌*◌, ◌≤◌, ◌≡◌, refl, sym, ap, ◌∙◌, Bool, true, false, not, ◌&&◌, Option, none, some,
  List, [], ◌++◌, append-nil, length, take, drop, length-take, length-drop, take-append-drop,
  drop-drop, ◌==◌, ==→eq, eq→==, if-cases, arith, inl, inr, ◌⊎◌,
}
use pantum_open.Scan.Status.{Status, good, eof}
use pantum_open.Scan.Usb.{Wire}
use pantum_open.Scan.Window.{Parameters}
use pantum_open.Scan.Handle.{Handle}
use pantum_open.Scan.Image.{unread, Appended, Appended-trans}
use pantum_open.Scan.Job.Entry.{Reading, smaller_len, deliver, wants_rows}
use pantum_open.Scan.Job.Settled.{Fixed, fixed}
use pantum_open.Scan.Job.Wait.{IsIdle, IsReading}

-- The handle with the bytes that were handed out back in front of its queue.
abbrev pub put_back : List ℕ → Handle → Handle
put_back read h = record h { out = record h.out { bytes = read ++ unread h.out; pos = 0 } }

-- What a call of sane_pantum_read does to a page of which `given` bytes have been handed out.
pub record ReadDone (given max_length : ℕ) (h : Handle) (r : Reading) : Type 0 where
  pub same : fixed r.2 ≡ fixed h
  pub most : length r.1 ≤ max_length
  pub order : Appended h (put_back r.1 r.2)
  pub going : (r.0 ≡ none) ⊎ (r.0 ≡ some good) → IsReading (given + length r.1) r.2
  pub blocks : r.0 ≡ some good → h.non_blocking ≡ false → 1 ≤ length r.1
  pub over : r.0 ≡ some eof → (r.1 ≡ []) × (given ≡ h.params.lines * h.params.bytes_per_line)
  pub failed :
      (st : Status) → ¬ (st ≡ good) → ¬ (st ≡ eof) → r.0 ≡ some st → (r.1 ≡ []) × IsIdle r.2

pub some_status : (s t : Status) → some s ≡ some t → s ≡ t
some_status s t e = ap (λ o. elim o [ none ↦ s | some x ↦ x ]) e

eof_of : (b c : Bool) → b ≡ true → (b && not c) ≡ false → c ≡ true
eof_of true true e k = refl
eof_of true false e k = cc
eof_of false c e k = cc

pub nothing_read : (h : Handle) → Appended h (put_back [] h)
nothing_read h = record {
  rows = [];
  count = omega arith;
  full = tt;
  bytes = sym (append-nil (unread h.out));
}

pub no_row : (h : Handle) → Appended h h
no_row h = record {
  rows = [];
  count = omega arith;
  full = tt;
  bytes = sym (append-nil (unread h.out));
}

-- The end of a page that has been handed out.
page_over :
    (given max_length : ℕ) (h : Handle) (w : Wire)
    → IsReading given h
    → wants_rows h ≡ false
    → length h.out.bytes - h.out.pos ≡ 0
    → ReadDone given max_length h (some eof, [], h, w)
page_over given max_length h w i no_rows e = record {
  same = refl;
  most = omega arith;
  order = nothing_read h;
  going = λ o. absurd (wrong o);
  blocks = λ g n. cc;
  over = λ g. (refl, total (eof_of _ h.eof (eq→== _ _ (omega (arith, e, i.queue))) no_rows));
  failed = λ st a b g. absurd (b (sym (some_status eof st g)));
}
  where
    wrong : ¬ ((some eof ≡ none) ⊎ (some eof ≡ some good))
    wrong (inl e) = cc
    wrong (inr e) = cc

    total : h.eof ≡ true → given ≡ h.params.lines * h.params.bytes_per_line
    total f =
        let full : h.next_row ≡ h.params.lines = omega (arith, i.within, i.over f) in
        omega (
          arith,
          i.count,
          e,
          length-drop h.out.pos h.out.bytes,
          ap (λ n. n * h.params.bytes_per_line) full,
        )

-- Bytes that are handed out.
hands_out :
    (given max_length n : ℕ) (h : Handle) (w : Wire)
    → IsReading given h
    → n ≤ length h.out.bytes - h.out.pos
    → n ≤ max_length
    → 1 ≤ n
    → ReadDone given max_length h (
      some good,
      take n (drop h.out.pos h.out.bytes),
      record h { out = record h.out { pos = h.out.pos + n } },
      w,
    )
hands_out given max_length n h w i k m z =
    let l : length (take n (drop h.out.pos h.out.bytes)) ≡ n =
      omega
        (arith, length-take n (drop h.out.pos h.out.bytes), length-drop h.out.pos h.out.bytes) in
    record {
      same = refl;
      most = omega (arith, l);
      order = record {
        rows = [];
        count = omega arith;
        full = tt;
        bytes =
            ap (λ zs. take n (unread h.out) ++ zs) (sym (drop-drop h.out.pos n h.out.bytes))
            ∙ take-append-drop n (unread h.out)
            ∙ sym (append-nil (unread h.out));
      };
      going = λ o. record {
        sheet = i.sheet;
        queue = omega (arith, i.queue);
        settled = record { lock = i.settled.lock; feeds = i.settled.feeds };
        within = i.within;
        running = i.running;
        over = i.over;
        count = omega (
          arith,
          l,
          i.count,
          length-drop (h.out.pos + n) h.out.bytes,
          length-drop h.out.pos h.out.bytes,
        );
      };
      blocks = λ g b. omega (arith, l);
      over = λ g. cc;
      failed = λ st a b g. absurd (a (sym (some_status good st g)));
    }

pub deliver-ReadDone :
    (given max_length : ℕ) (h : Handle) (w : Wire)
    → IsReading given h
    → wants_rows h ≡ false
    → 1 ≤ max_length
    → ReadDone given max_length h (deliver max_length h w)
unfolding deliver
deliver-ReadDone given max_length h w i no_rows z =
    if-cases (ReadDone given max_length h) (length h.out.bytes - h.out.pos == 0) _ _
      (λ e. page_over given max_length h w i no_rows (==→eq _ _ e))
      (λ e.
        hands_out given max_length (smaller_len (length h.out.bytes - h.out.pos) max_length) h w i
          (ground arith) (ground arith) (ground arith))

-- The call is not through: it still waits, or nothing has come in.
pub nothing_yet :
    (given max_length : ℕ) (o : Option Status) (h h' : Handle) (w : Wire)
    → (o ≡ none) ⊎ ((o ≡ some good) × (h.non_blocking ≡ true))
    → fixed h' ≡ fixed h
    → Appended h h'
    → IsReading given h'
    → ReadDone given max_length h (o, [], h', w)
nothing_yet given max_length o h h' w c e a i = record {
  same = e;
  most = omega arith;
  order = record { rows = a.rows; count = a.count; full = a.full; bytes = a.bytes };
  going = λ g. subst (λ n. IsReading n h') (omega arith) i;
  blocks = λ g b. absurd (no_block c g b);
  over = λ g. absurd (no_eof c g);
  failed = λ st n m g. absurd (no_fail c st n g);
}
  where
    no_block :
        (o ≡ none) ⊎ ((o ≡ some good) × (h.non_blocking ≡ true))
        → o ≡ some good
        → h.non_blocking ≡ false
        → ⊥
    no_block (inl e) g b = cc
    no_block (inr (e, t)) g b = cc

    no_eof : (o ≡ none) ⊎ ((o ≡ some good) × (h.non_blocking ≡ true)) → ¬ (o ≡ some eof)
    no_eof (inl e) g = cc
    no_eof (inr (e, t)) g = cc

    no_fail :
        (o ≡ none) ⊎ ((o ≡ some good) × (h.non_blocking ≡ true))
        → (st : Status) → ¬ (st ≡ good)
        → ¬ (o ≡ some st)
    no_fail (inl e) st n g = cc
    no_fail (inr (e, t)) st n g = n (some_status st good (sym g ∙ e))

-- Behind a frame that went well.
pub later :
    (given max_length : ℕ) (h h' : Handle) (r : Reading)
    → fixed h' ≡ fixed h
    → Appended h h'
    → ReadDone given max_length h' r
    → ReadDone given max_length h r
later given max_length h h' r e a d =
    let p : h'.params ≡ h.params = ap (λ (f : Fixed). f.1) e in
    record {
      same = d.same ∙ e;
      most = d.most;
      order = Appended-trans h h' (put_back r.1 r.2) p a d.order;
      going = d.going;
      blocks = λ g b. d.blocks g (ap (λ (f : Fixed). f.3) e ∙ b);
      over =
          λ g. ((d.over g).0, (d.over g).1 ∙ ap (λ (k : Parameters). k.lines * k.bytes_per_line) p);
      failed = d.failed;
    }
