-- ===== src/Scan/Job/Begins.antt =====
-- sane_pantum_start of src/pantum.c, on each way it ends.
use mathlib.Core.Path.{subst}
use pantum_open.Base.{
  ℕ, ◌≡◌, refl, sym, ap, ◌∙◌, Bool, true, false, not, ◌&&◌, Option, some, List, if-cases, inl, inr,
  ◌⊎◌,
}
use pantum_open.Scan.Status.{Status, good, device_busy, is_good}
use pantum_open.Scan.Usb.{Wire}
use pantum_open.Scan.Window.{source_is_adf}
use pantum_open.Scan.Handle.{Handle}
use pantum_open.Scan.Image.{is_rgb}
use pantum_open.Scan.Session.{end_scan, end_scan-handle}
use pantum_open.Scan.Job.Pump.{Env}
use pantum_open.Scan.Job.Start.{prepare, with_margins, start_job, next_start, sane_start}
use pantum_open.Scan.Job.Frames.{IsEnv}
use pantum_open.Scan.Job.Pages.{compute_parameters-IsSheet}
use pantum_open.Scan.Job.Wait.{and_true, IsSettled-IsIdle}
use pantum_open.Scan.Job.Outcome.{
  IsOpen, Started, IsPrepared, ends_idle, from_Started, IsBusy, ended_scan, over_idle,
}
use pantum_open.Scan.Job.Resume.{true≢false, usable_of, attempt_job-Started, resume_job-Started}

module _ (env : Env) (he : IsEnv env) where
  prepare_keeps : (h : Handle) → (prepare h).settings ≡ h.settings
  unfolding prepare
  prepare_keeps h = refl

  prepare-IsPrepared : (h : Handle) → IsOpen h → h.scanning ≡ false → IsPrepared (prepare h)
  unfolding prepare
  prepare-IsPrepared h i s =
      let d = IsSettled-IsIdle h i.settled s in
      record {
        idle = record { scanning = d.scanning; locked = d.locked; feeding = d.feeding };
        queue = i.queue;
        sheet = compute_parameters-IsSheet h.settings i.offered;
        offered = i.offered;
        live = refl;
      }

  with_gamma :
      (h : Handle) (gamma : List ℕ) → IsPrepared h → IsPrepared (record h { gamma = gamma })
  with_gamma h gamma i = record {
    idle = record { scanning = i.idle.scanning; locked = i.idle.locked; feeding = i.idle.feeding };
    queue = i.queue;
    sheet = i.sheet;
    offered = i.offered;
    live = i.live;
  }

  margins_set :
      (h : Handle) (t b l r : ℕ)
      → IsPrepared h
      → IsPrepared (record h { white_top = t; white_bottom = b; white_left = l; white_right = r })
  margins_set h t b l r i = record {
    idle = record { scanning = i.idle.scanning; locked = i.idle.locked; feeding = i.idle.feeding };
    queue = i.queue;
    sheet = i.sheet;
    offered = i.offered;
    live = i.live;
  }

  with_margins-IsPrepared : (h : Handle) → IsPrepared h → IsPrepared (with_margins h)
  unfolding with_margins
  with_margins-IsPrepared h i =
      if-cases IsPrepared (source_is_adf h.settings) _ _ (λ e. margins_set h _ _ _ _ i)
        (λ e. margins_set h _ _ _ _ i)

  with_margins-settings : (h : Handle) → (with_margins h).settings ≡ h.settings
  unfolding with_margins
  with_margins-settings h =
      if-cases (λ (k : Handle). k.settings ≡ h.settings) (source_is_adf h.settings) _ _ (λ e. refl)
        (λ e. refl)

  mask_failed : (b : Bool) (st : Status) → (b && not (is_good st)) ≡ true → ¬ (st ≡ good)
  mask_failed b st e g = true≢false (sym (and_true b _ e).1 ∙ ap (λ x. not (is_good x)) g)

  start_job-Started :
      (frames : ℕ) (h : Handle) (w : Wire)
      → IsOpen h
      → h.scanning ≡ false
      → Started h (start_job env frames h w)
  unfolding start_job
  start_job-Started frames h w i s =
      let h1 : Handle = prepare h in
      let h2 : Handle = record h1 { gamma = env.gamma_of (is_rgb h1.params.format) } in
      let p = prepare-IsPrepared h i s in
      if-cases (Started h) _ _ _
        (λ e.
          ends_idle h h1 env.mask_status w (mask_failed h1.halftone env.mask_status e)
            (prepare_keeps h) (usable_of h1 p) p.idle)
        (λ e. from_Started h (with_margins h2) _ (with_margins-settings h2 ∙ prepare_keeps h) (
          attempt_job-Started env he 4 frames (with_margins h2) w
            (with_margins-IsPrepared h2 (with_gamma h1 _ p))))

  abbrev Outcome : Handle → Wire → Option Status × Handle × Wire → Type 0
  Outcome h w r = (IsBusy h × (r ≡ (some device_busy, h, w))) ⊎ Started h r

  over_start :
      (frames : ℕ) (h : Handle) (w : Wire)
      → IsOpen h
      → Started h (next_start env frames (ended_scan h) w)
  unfolding next_start
  over_start frames h w i =
      from_Started h (ended_scan h) _ refl (start_job-Started frames _ w (over_idle h i) refl)

  live_start :
      (frames : ℕ) (h : Handle) (w : Wire)
      → IsOpen h
      → h.cancelled ≡ false
      → Outcome h w (next_start env frames h w)
  unfolding next_start
  live_start frames h w i c =
      if-cases (Outcome h w) h.feeding _ _ (λ f. inr (resume_job-Started env he frames h w i f c))
        (λ f.
          if-cases (Outcome h w) h.scanning _ _ (λ s. inl ((c, f, s), refl))
            (λ s. inr (start_job-Started frames h w i s)))

  -- For an open handle, any options on offer and whatever the device answers: where a job runs that is
  -- neither cancelled nor between two pages, sane_start answers that the device is busy and does
  -- nothing; otherwise the handle stays open with its options, a result of good means that a page has
  -- begun of which nothing has been handed out, and with any other result no job runs, the device is
  -- unlocked and no page is to follow. The tone curve, the dither mask and the memory are arbitrary,
  -- and so is the number of frames that the wait is held to.
  pub sane_start-Started :
      (frames : ℕ) (h : Handle) (w : Wire)
      → IsOpen h
      → (IsBusy h × (sane_start env frames h w ≡ (some device_busy, h, w)))
        ⊎ Started h (sane_start env frames h w)
  unfolding sane_start
  sane_start-Started frames h w i =
      if-cases (λ (k : Handle × Wire). Outcome h w (next_start env frames k.0 k.1)) h.cancelled _ _
        (λ c. inr (
          subst (λ x. Started h (next_start env frames x (end_scan env.device h w).1))
            (sym (end_scan-handle env.device h w))
            (over_start frames h (end_scan env.device h w).1 i)))
        (λ c. live_start frames h w i c)
