-- ===== src/Scan/Job/Reads.antt =====
-- sane_pantum_read of src/pantum.c while a page is being read.
use mathlib.Core.Path.{subst}
use pantum_open.Base.{
  ℕ, zero, suc, ◌≤◌, ◌≡◌, refl, sym, ap, ◌∙◌, Bool, true, false, not, ◌&&◌, none, some, [], length,
  ◌==◌, ==→eq, if◌then◌else◌, if-cases, Bool-cases, arith, inl, inr, ◌⊎◌,
}
use pantum_open.Scan.Status.{Status, good, eof}
use pantum_open.Scan.Usb.{Wire}
use pantum_open.Scan.Frame.{if_good-cases}
use pantum_open.Scan.Handle.{Handle}
use pantum_open.Scan.Image.{Appended}
use pantum_open.Scan.Session.{unlock_device-handle}
use pantum_open.Scan.Job.Pump.{Env, pump_frame}
use pantum_open.Scan.Job.Start.{torn_down}
use pantum_open.Scan.Job.Entry.{deliver, wants_rows, read_loop_frames, sane_read}
use pantum_open.Scan.Job.Settled.{fixed}
use pantum_open.Scan.Job.Frames.{IsEnv, pump_frame-PumpDone}
use pantum_open.Scan.Job.Wait.{IsReading, IsReading-IsReady, goes_on, torn-IsIdle, and_true}
use pantum_open.Scan.Job.Statuses.{NotEof}
use pantum_open.Scan.Job.Ends.{pump_frame-NotEof}
use pantum_open.Scan.Job.Quiet.{pump_frame-quiet, pump_frame-busy}
use pantum_open.Scan.Job.Handed.{
  ReadDone, some_status, no_row, deliver-ReadDone, nothing_yet, later,
}

true≢false : ¬ (true ≡ false)
true≢false e = cc

module _ (env : Env) (he : IsEnv env) where
  torn-ReadDone :
      (given max_length : ℕ) (st : Status) (h h' : Handle) (w : Wire)
      → ¬ (st ≡ good)
      → NotEof st
      → fixed h' ≡ fixed h
      → Appended h h'
      → let (h'', w'') = torn_down env h' w in ReadDone given max_length h (some st, [], h'', w'')
  torn-ReadDone given max_length st h h' w n m e a =
      subst (λ x. ReadDone given max_length h (some st, [], x, (torn_down env h' w).1))
        (sym (unlock_device-handle env.device _ w))
        (record {
          same = e;
          most = omega arith;
          order = record { rows = a.rows; count = a.count; full = a.full; bytes = a.bytes };
          going = λ o. absurd (not_going o);
          blocks = λ g b. absurd (n (some_status st good g));
          over = λ g. absurd (m (some_status st eof g));
          failed = λ s k l g. (refl, torn-IsIdle h');
        })
    where
      not_going : ¬ ((some st ≡ none) ⊎ (some st ≡ some good))
      not_going (inl x) = cc
      not_going (inr x) = n (some_status st good x)

  -- Where the loop stops by itself.
  stops_by_itself :
      (given max_length : ℕ) (h : Handle) (w : Wire)
      → IsReading given h
      → 1 ≤ max_length
      → (wants_rows h && h.scanning) ≡ false
      → ReadDone given max_length h
          (deliver max_length (if wants_rows h then record h { eof = true } else h) w)
  stops_by_itself given max_length h w i z e =
      if-cases (λ k. ReadDone given max_length h (deliver max_length k w)) (wants_rows h) _ _
        (λ t. absurd (elim i.running [ inl s ↦ both t s | inr f ↦ at_eof t f ]))
        (λ t. deliver-ReadDone given max_length h w i t z)
    where
      both : wants_rows h ≡ true → ¬ (h.scanning ≡ true)
      both t s = cc

      at_eof : wants_rows h ≡ true → ¬ (h.eof ≡ true)
      at_eof t f = clash h.eof (and_true (h.out.pos == length h.out.bytes) (not h.eof) t).1 f
        where
          clash : (b : Bool) → not b ≡ true → ¬ (b ≡ true)
          clash true x y = cc
          clash false x y = cc

  read_loop_frames-ReadDone :
      (frames given max_length : ℕ) (h : Handle) (w : Wire)
      → IsReading given h
      → 1 ≤ max_length
      → ReadDone given max_length h (read_loop_frames env frames max_length h w)
  unfolding read_loop_frames
  read_loop_frames-ReadDone zero given max_length h w i z =
      if-cases (ReadDone given max_length h) (wants_rows h && h.scanning) _ _
        (λ e. nothing_yet given max_length none h h w (inl refl) refl (no_row h) i)
        (λ e. stops_by_itself given max_length h w i z e)
  read_loop_frames-ReadDone (suc frames) given max_length h w i z =
      let r = pump_frame env h.non_blocking false h w in
      let d = pump_frame-PumpDone env he h.non_blocking false h w (IsReading-IsReady given h i) in
      let a : Appended h r.1 = d.goes.appended in
      if-cases (ReadDone given max_length h) (wants_rows h && h.scanning) _ _
        (λ e.
          if_good-cases (ReadDone given max_length h) r.0.status _ _
            (λ g.
              let next =
                goes_on given h r i (and_true _ _ e).1 d g
                  (pump_frame-quiet env h.non_blocking h w) in
              if-cases (ReadDone given max_length h) r.0.idle _ _
                (λ x.
                  nothing_yet given max_length (some good) h r.1 r.2 (inr (refl, polls h w x))
                    d.goes.same a next)
                (λ x.
                  later given max_length h r.1 _ d.goes.same a
                    (read_loop_frames-ReadDone frames given max_length r.1 r.2 next z)))
            (λ n.
              torn-ReadDone given max_length r.0.status h r.1 r.2 n
                (pump_frame-NotEof env h.non_blocking false h w) d.goes.same a))
        (λ e. stops_by_itself given max_length h w i z e)
    where
      polls :
          (h : Handle) (w : Wire)
          → (pump_frame env h.non_blocking false h w).0.idle ≡ true
          → h.non_blocking ≡ true
      polls h w x = elim (Bool-cases h.non_blocking) [
        | inl t ↦ t
        | inr f ↦ cc (x, ap (λ b. (pump_frame env b false h w).0.idle) f, pump_frame-busy env h w)
      ]

  -- While a page is being read of which `given` bytes have been handed out, and not cancelled, a call of
  -- sane_read for a positive length, whatever the device answers: hands out no more than was asked for,
  -- and exactly the next bytes, so that what it hands out and what stays queued are together what was
  -- queued and whole new rows, one for each row number in order; with a result of good, or while it
  -- waits, the page is still being read with that much more handed out; in blocking mode good means a
  -- byte at least; the end of the page is answered only where all of its lines have been handed out;
  -- any other failure hands out nothing and leaves no job and the device unlocked.
  pub sane_read-ReadDone :
      (frames given max_length : ℕ) (h : Handle) (w : Wire)
      → IsReading given h
      → h.cancelled ≡ false
      → 1 ≤ max_length
      → ReadDone given max_length h (sane_read env frames max_length h w)
  unfolding sane_read
  sane_read-ReadDone frames given max_length h w i c z =
      if-cases (ReadDone given max_length h) (max_length == 0) _ _
        (λ e. absurd (omega (arith, ==→eq max_length 0 e)))
        (λ e.
          if-cases (ReadDone given max_length h) h.cancelled _ _
            (λ k. absurd (true≢false (sym k ∙ c)))
            (λ k. read_loop_frames-ReadDone frames given max_length h w i z))
