-- ===== src/Scan/Job/Frames.antt =====
-- What one call of pump_frame does to a running job.
use mathlib.Core.Path.{subst}
use pantum_open.Base.{
  ℕ, ◌≤◌, ◌≡◌, refl, sym, ap, ◌∙◌, Bool, true, false, none, some, length, ◌==◌, if-cases, arith,
  inl, inr, ◌⊎◌,
}
use pantum_open.Scan.Status.{Status, good, io_error, status_or}
use pantum_open.Scan.Usb.{Wire, timeout_read}
use pantum_open.Scan.Frame.{
  Frame, Got, ended, idle, arrived, recv_frame, recv_frame-plen, max_payload, io_error≢good,
}
use pantum_open.Scan.Window.{source_is_adf}
use pantum_open.Scan.Handle.{OutQueue, Handle}
use pantum_open.Scan.Image.{
  IsReady, Advances, Advances-quiet, lines_of, Kept, emit_white_rows, emit_white_rows-Steps, Steps,
  handle_data_block-Advances,
}
use pantum_open.Scan.Session.{unlock_device, unlock_device-handle, evt_aborted, evt_job_end}
use pantum_open.Scan.Job.Pump.{
  Env, Pumped, Pumping, pumped, evt_data, evt_settings, evt_page_end, on_aborted, on_job_end,
  on_page_end, on_data, on_settings, on_other, dispatch, pump_frame,
}
use pantum_open.Scan.Job.Settled.{IsSettled, Goes, Goes-Advances, Goes-flags, status_or-good}

-- What the block behind the rows of a queue holds is as long as it is asked for.
abbrev pub IsEnv : Env → Type 0
IsEnv env = (q : OutQueue) (n : ℕ) → length (env.garbage q n) ≡ n

-- From a handle whose job runs: the page goes on, the session stays settled; and where all went well
-- and no abort is reported, the job still runs or the page is over, and a page that is over is full.
-- An abort that is reported has ended the job.
pub record PumpDone (h : Handle) (r : Pumping) : Type 0 where
  pub goes : Goes h r.1
  pub settled : h.scanning ≡ true → IsSettled h → IsSettled r.1
  pub over : r.0.status ≡ good → r.1.eof ≡ true → (h.eof ≡ true) ⊎ (h.params.lines ≤ r.1.next_row)
  pub alive :
      r.0.status ≡ good
      → r.0.aborted ≡ none
      → h.scanning ≡ true
      → (r.1.scanning ≡ true) ⊎ (r.1.eof ≡ true)
  pub gone : (n : ℕ) → r.0.aborted ≡ some n → r.1.scanning ≡ false

-- Only the image path has been at work.
by_Advances :
    (h h' : Handle) (p : Pumped) (w : Wire)
    → p.aborted ≡ none
    → Advances h h'
    → PumpDone h (p, h', w)
by_Advances h h' p w quiet a = record {
  goes = Goes-Advances h h' a;
  settled = λ s d. record {
    lock = ap (λ (k : Kept). k.3) a.same ∙ d.lock ∙ sym (ap (λ (k : Kept). k.2) a.same);
    feeds = λ f. ap (λ (k : Kept). k.2) a.same ∙ d.feeds (sym (ap (λ (k : Kept). k.7) a.same) ∙ f);
  };
  over = λ g e. inl (sym (ap (λ (k : Kept). k.5) a.same) ∙ e);
  alive = λ g n s. inl (ap (λ (k : Kept). k.2) a.same ∙ s);
  gone = λ n e. cc;
}

module _ (env : Env) (he : IsEnv env) where
  on_data-PumpDone :
      (f : Frame) (h : Handle) (w : Wire)
      → IsReady h
      → f.plen ≤ max_payload
      → PumpDone h (on_data env f h w)
  unfolding on_data
  on_data-PumpDone f h w i small = by_Advances h _ _ _ refl (
      handle_data_block-Advances env.can_alloc env.garbage env.dither_mask he env.device f.plen h w
        i small)

  still : (h : Handle) → IsReady h → Advances h h
  still h i = Advances-quiet h h refl refl refl i.queue

  on_settings-PumpDone :
      (f : Frame) (h : Handle) (w : Wire) → IsReady h → PumpDone h (on_settings env f h w)
  unfolding on_settings
  on_settings-PumpDone f h w i = by_Advances h h _ _ refl (still h i)

  on_other-PumpDone :
      (f : Frame) (h : Handle) (w : Wire) → IsReady h → PumpDone h (on_other env f h w)
  unfolding on_other
  on_other-PumpDone f h w i = by_Advances h h _ _ refl (still h i)

  -- The session is over, on whatever page the job was.
  closed :
      (h h' : Handle) (p : Pumped) (w : Wire) (eof : Bool)
      → Advances h h'
      → (p.status ≡ good → eof ≡ true → (h.eof ≡ true) ⊎ (h.params.lines ≤ h'.next_row))
      → (p.status ≡ good → p.aborted ≡ none → eof ≡ true)
      → PumpDone h
          (p, record h' { eof = eof; scanning = false; feeding = false; locked = false }, w)
  closed h h' p w eof a o l = record {
    goes = Goes-flags h h' false false false eof (Goes-Advances h h' a);
    settled = λ s d. record { lock = refl; feeds = λ f. cc };
    over = o;
    alive = λ g n s. inr (l g n);
    gone = λ n e. refl;
  }

  -- The page is full where emit_white_rows has succeeded.
  page_full :
      (h : Handle)
      → (r : Status × Handle) → Steps h.params.lines h r
      → r.0 ≡ good
      → h.params.lines ≤ r.1.next_row
  page_full h r s g = elim (s.filled g) [
    | inl k ↦ k
    | inr k ↦ omega (arith, lines_of h r.1 s.advances)
  ]

  unlocks :
      (h h' : Handle) (p : Pumped) (w w' : Wire)
      → PumpDone h (p, record h' { feeding = false; locked = false }, w')
      → PumpDone h (p, (unlock_device env.device h' w).0, w')
  unlocks h h' p w w' d =
      subst (λ x. PumpDone h (p, x, w')) (sym (unlock_device-handle env.device h' w)) d

  on_aborted-PumpDone :
      (reports : Bool) (f : Frame) (h : Handle) (w : Wire)
      → IsReady h
      → PumpDone h (on_aborted env reports f h w)
  unfolding on_aborted
  on_aborted-PumpDone reports f h w i =
      if-cases (PumpDone h) reports _ _
        (λ t. unlocks h _ _ _ _ (
          closed h h (record { status = good; idle = false; aborted = some f.status }) _ h.eof
            (still h i) (λ g e. inl e) (λ g n. cc)))
        (λ t. unlocks h _ _ _ _ (
          closed h h (pumped (status_or io_error f.status)) _ h.eof (still h i) (λ g e. inl e)
            (λ g n. absurd (io_error≢good (status_or-good io_error f.status g)))))

  on_job_end-PumpDone :
      (f : Frame) (h : Handle) (w : Wire) → IsReady h → PumpDone h (on_job_end env f h w)
  unfolding on_job_end
  on_job_end-PumpDone f h w i =
      unlocks h _ _ _ _
        (closed h r.1 (pumped r.0) _ true s.advances (λ g e. inr (page_full h r s g)) (λ g n. refl))
    where
      r : Status × Handle
      r = emit_white_rows env.can_alloc env.garbage env.dither_mask h.params.lines h

      s : Steps h.params.lines h r
      s = emit_white_rows-Steps env.can_alloc env.garbage env.dither_mask he h.params.lines h i

  on_page_end-PumpDone :
      (f : Frame) (h : Handle) (w : Wire) → IsReady h → PumpDone h (on_page_end env f h w)
  unfolding on_page_end
  on_page_end-PumpDone f h w i =
      if-cases (PumpDone h) (source_is_adf h.settings) _ _
        (λ t. record {
          goes = Goes-flags h r.1 r.1.scanning r.1.locked true true (Goes-Advances h r.1 a);
          settled = λ k d. record {
            lock = ap (λ (k : Kept). k.3) a.same ∙ d.lock ∙ sym (ap (λ (k : Kept). k.2) a.same);
            feeds = λ f. ap (λ (k : Kept). k.2) a.same ∙ k;
          };
          over = λ g e. inr (page_full h r s g);
          alive = λ g n k. inr refl;
          gone = λ n e. cc;
        })
        (λ t. by_Advances h h _ _ refl (still h i))
    where
      r : Status × Handle
      r = emit_white_rows env.can_alloc env.garbage env.dither_mask h.params.lines h

      s : Steps h.params.lines h r
      s = emit_white_rows-Steps env.can_alloc env.garbage env.dither_mask he h.params.lines h i

      a : Advances h r.1
      a = s.advances

  dispatch-PumpDone :
      (reports : Bool) (f : Frame) (h : Handle) (w : Wire)
      → IsReady h
      → f.plen ≤ max_payload
      → PumpDone h (dispatch env reports f h w)
  unfolding dispatch
  dispatch-PumpDone reports f h w i small =
      if-cases (PumpDone h) (f.cmd == evt_data) _ _ (λ e. on_data-PumpDone f h w i small)
        (λ e.
          if-cases (PumpDone h) (f.cmd == evt_aborted) _ _
            (λ e. on_aborted-PumpDone reports f h w i)
            (λ e.
              if-cases (PumpDone h) (f.cmd == evt_job_end) _ _ (λ e. on_job_end-PumpDone f h w i)
                (λ e.
                  if-cases (PumpDone h) (f.cmd == evt_page_end) _ _
                    (λ e. on_page_end-PumpDone f h w i)
                    (λ e.
                      if-cases (PumpDone h) (f.cmd == evt_settings) _ _
                        (λ e. on_settings-PumpDone f h w i) (λ e. on_other-PumpDone f h w i)))))

  pub pump_frame-PumpDone :
      (probe reports : Bool) (h : Handle) (w : Wire)
      → IsReady h
      → PumpDone h (pump_frame env probe reports h w)
  unfolding pump_frame
  pump_frame-PumpDone probe reports h w i =
      step (recv_frame env.device timeout_read probe w).0
        (recv_frame-plen env.device timeout_read probe w)
    where
      w' : Wire
      w' = (recv_frame env.device timeout_read probe w).1

      step :
          (g : Got)
          → ((f : Frame) → g ≡ arrived f → f.plen ≤ max_payload)
          → PumpDone h (elim g [
            | ended st ↦ (pumped st, h, w')
            | idle ↦ (record { status = good; idle = true; aborted = none }, h, w')
            | arrived f ↦ dispatch env reports f h w'
          ])
      step (ended st) small = by_Advances h h _ _ refl (still h i)
      step idle small = by_Advances h h _ _ refl (still h i)
      step (arrived f) small = dispatch-PumpDone reports f h w' i (small f refl)
