-- ===== src/Scan/Job/Start.antt =====
-- await_first_rows, run_job, resume_job and sane_pantum_start of src/pantum.c. A device that never
-- ends its job can keep the wait for rows going for ever, so it takes a number of frames to wait for;
-- a first result of `none` says that it still waits behind so many.
use pantum_open.Base.{
  ℕ, zero, suc, ◌*◌, ◌/◌, Bool, true, false, not, ◌&&◌, ◌||◌, Option, none, some, [], length, ltb,
  ◌==◌, if◌then◌else◌,
}
use pantum_open.Scan.Status.{
  Status, good, unsupported, device_busy, no_docs, map_status, status_or, is_good,
}
use pantum_open.Scan.Usb.{Wire}
use pantum_open.Scan.Frame.{if_good}
use pantum_open.Scan.Window.{
  Mode, lineart, halftone, gray, colour, source_is_adf, effective_resolution, compute_window,
  compute_parameters,
}
use pantum_open.Scan.Handle.{OutQueue, Handle}
use pantum_open.Scan.Image.{is_rgb}
use pantum_open.Scan.Session.{unlock_device, lock_device, check_adf, setup_job, end_scan}
use pantum_open.Scan.Job.Pump.{Env, pump_frame}

abbrev pub empty_queue : OutQueue → OutQueue
empty_queue q = record q { bytes = []; pos = 0 }

abbrev pub is_none : Option ℕ → Bool
is_none none = true
is_none (some n) = false

-- The result so far, the abort status that was reported, the handle and the wire.
abbrev pub Running : Type 0
Running = Option Status × Option ℕ × Handle × Wire

-- `h->scanning && !h->out_len && !*aborted && !h->eof`
abbrev pub awaits : Option ℕ → Handle → Bool
awaits aborted h = h.scanning && (length h.out.bytes == 0 && (is_none aborted && not h.eof))

unfoldable pub is_halftone : Mode → Bool
is_halftone halftone = true
is_halftone lineart = false
is_halftone gray = false
is_halftone colour = false

-- `(int)(x * 255.0 / 100.0)` of a percentage in 1/65536, held to 0..255
unfoldable pub threshold_of : ℕ → ℕ
threshold_of fixed = let t = fixed * 255 / 6553600 in if ltb 255 t then 255 else t

-- The white margins: 1.5, 2 and 2.5 mm at 25.4 mm to the inch. None of the resolutions on offer makes
-- a whole number of these, so the conversion to int that the source makes gives the same.
unfoldable pub with_margins : Handle → Handle
with_margins h =
    let dpi = effective_resolution h.settings in
    let win = compute_window h.settings in
    let edge = dpi * 15 / 254 in
    if source_is_adf h.settings
    then record h {
      white_top = dpi * 25 / 254;
      white_bottom = edge;
      white_left = edge;
      white_right = edge;
    }
    else record h {
      white_top = if win.top == 0 then dpi * 20 / 254 else 0;
      white_bottom = 0;
      white_left = if win.left == 0 then edge else 0;
      white_right = 0;
    }

-- `h->next_row = 0; h->out_len = h->out_pos = 0; h->eof = SANE_FALSE;`
abbrev pub new_page : Handle → Handle
new_page h = record h { next_row = 0; out = empty_queue h.out; eof = false }

-- `aborted` and an empty queue both mean that there is no further page.
unfoldable pub page_status : Option ℕ → Handle → Status
page_status (some s) h = status_or no_docs s
page_status none h = if length h.out.bytes == 0 then no_docs else good

-- Behind the wait of resume_job.
unfoldable pub next_page : Option Status → Option ℕ → Handle → Wire → Option Status × Handle × Wire
next_page none aborted h w = (none, h, w)
next_page (some st) aborted h w = (some (if_good st (page_status aborted h) (λ other. other)), h, w)

-- What sane_pantum_start works out from the options, but for the tone curve and the margins.
unfoldable pub prepare : Handle → Handle
prepare h = record h {
  cancelled = false;
  eof = false;
  params = compute_parameters h.settings;
  threshold = threshold_of h.threshold_fixed;
  halftone = is_halftone h.settings.mode;
}

-- Behind an attempt at a job; `again` is what the next one comes to.
unfoldable pub attempted :
    Option Status
    → Option ℕ
    → Handle
    → Wire
    → Option Status × Handle × Wire
    → Option Status × Handle × Wire
attempted none aborted h w again = (none, h, w)
attempted (some st) none h w again = if_good st (some good, h, w) (λ other. (some other, h, w))
attempted (some st) (some s) h w again =
    if_good st (if not (s == 0) && not (s == 2) then (some (map_status s), h, w) else again)
      (λ other. (some other, h, w))

module _ (env : Env) where
  -- What a failing frame does to the job.
  abbrev pub torn_down : Handle → Wire → Handle × Wire
  torn_down h w = unlock_device env.device (record h { scanning = false }) w

  unfoldable pub await_first_rows : ℕ → Option ℕ → Handle → Wire → Running
  await_first_rows zero aborted h w = (if awaits aborted h then none else some good, aborted, h, w)
  await_first_rows (suc frames) aborted h w =
      let (p, h', w') = pump_frame env false true h w in
      let more = await_first_rows frames p.aborted h' w' in
      let (h'', w'') = torn_down h' w' in
      if awaits aborted h
      then if_good p.status more (λ other. (some other, p.aborted, h'', w''))
      else (some good, aborted, h, w)

  abbrev pub gives_up : Status → Handle → Wire → Running
  gives_up st h w = let (h', w') = unlock_device env.device h w in (some st, none, h', w')

  -- The set-up of the job and the wait for its first rows.
  unfoldable pub launch : ℕ → Handle → Wire → Running
  launch frames h w =
      let (st, w') = setup_job env.device h w in
      if_good st (await_first_rows frames none (record h { scanning = true }) w')
        (λ other. gives_up other h w')

  -- Behind the lock: the feeder check where the page comes from the feeder.
  unfoldable pub behind_lock : ℕ → Handle → Wire → Running
  behind_lock frames h w =
      let (st, feeder, w') = check_adf env.device w in
      if source_is_adf h.settings
      then if_good st
          (if not feeder.present || not feeder.loaded
            then gives_up (if feeder.present then no_docs else unsupported) h w'
            else launch frames h w')
          (λ other. gives_up other h w')
      else launch frames h w

  unfoldable pub run_job : ℕ → Handle → Wire → Running
  run_job frames h0 w0 =
      let (st, h, w) = lock_device env.device (new_page h0) w0 in
      if_good st (behind_lock frames h w) (λ other. (some other, none, h, w))

  unfoldable pub resume_job : ℕ → Handle → Wire → Option Status × Handle × Wire
  resume_job frames h w =
      let (r, aborted, h', w') =
        await_first_rows frames none (record (new_page h) { feeding = false }) w in
      next_page r aborted h' w'

  -- `for (attempt = 0; attempt < 4; attempt++)`, with `left` to go.
  unfoldable pub attempt_job : ℕ → ℕ → Handle → Wire → Option Status × Handle × Wire
  attempt_job zero frames h w = (some device_busy, h, w)
  attempt_job (suc left) frames h w =
      let (r, aborted, h', w') = run_job frames h w in
      let again = attempt_job left frames h' w' in attempted r aborted h' w' again

  unfoldable pub start_job : ℕ → Handle → Wire → Option Status × Handle × Wire
  start_job frames h w =
      let h1 = prepare h in
      let h2 = with_margins (record h1 { gamma = env.gamma_of (is_rgb h1.params.format) }) in
      if h1.halftone && not (is_good env.mask_status)
      then (some env.mask_status, h1, w)
      else attempt_job 4 frames h2 w

  -- Behind the check for a cancelled job.
  unfoldable pub next_start : ℕ → Handle → Wire → Option Status × Handle × Wire
  next_start frames h w =
      if h.feeding
      then resume_job frames h w
      else if h.scanning
      then (some device_busy, h, w)
      else start_job frames h w

  unfoldable pub sane_start : ℕ → Handle → Wire → Option Status × Handle × Wire
  sane_start frames h w =
      let (h', w') = if h.cancelled then end_scan env.device h w else (h, w) in
      next_start frames h' w'
