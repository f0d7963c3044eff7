-- ===== src/Scan/Job/Calls.antt =====
-- Any sequence of the calls of src/pantum.c that a frontend makes on an open handle.
use mathlib.Core.Path.{subst}
use pantum_open.Base.{
  ℕ, zero, suc, ◌-◌, ◌≤◌, ◌≡◌, sym, ap, Bool, true, false, not, ◌&&◌, some, [], length, ◌==◌,
  if◌then◌else◌, if-cases, arith, inl, inr,
}
use pantum_open.Scan.Status.{Status}
use pantum_open.Scan.Usb.{Wire, flush_input}
use pantum_open.Scan.Frame.{if_good-cases}
use pantum_open.Scan.Window.{Settings, Parameters, compute_parameters}
use pantum_open.Scan.Handle.{Handle}
use pantum_open.Scan.Session.{end_scan, end_scan-handle, unlock_device-handle, probe_adf-handle}
use pantum_open.Scan.Job.Pump.{Env, Pumping, pump_frame}
use pantum_open.Scan.Job.Start.{sane_start, empty_queue, torn_down}
use pantum_open.Scan.Job.Entry.{
  Reading, deliver, wants_rows, read_loop_frames, sane_read, sane_cancel, sane_set_io_mode,
  sane_get_parameters, sane_open, sane_close,
}
use pantum_open.Scan.Job.Settled.{Fixed}
use pantum_open.Scan.Job.Frames.{IsEnv, PumpDone, pump_frame-PumpDone}
use pantum_open.Scan.Job.Pages.{IsSheet, IsOffered, compute_parameters-IsSheet}
use pantum_open.Scan.Job.Wait.{and_true}
use pantum_open.Scan.Job.Outcome.{IsOpen, over_idle}
use pantum_open.Scan.Job.Begins.{sane_start-Started}

-- The calls: one that has returned, or a change of the options while no job runs, which is when
-- sane_control_option allows it.
pub data Call (env : Env) : Handle → Wire → Handle → Wire → Type 0 where
  start :
      (frames : ℕ) (h : Handle) (w : Wire)
      → Call env h w (sane_start env frames h w).1 (sane_start env frames h w).2
  read :
      (frames max_length : ℕ) (h : Handle) (w : Wire)
      → Call env h w (sane_read env frames max_length h w).2 (sane_read env frames max_length h w).3
  cancel : (h : Handle) (w : Wire) → Call env h w (sane_cancel env h) w
  set_io_mode :
      (non_blocking : Bool) (h : Handle) (w : Wire)
      → Call env h w (sane_set_io_mode env non_blocking h) w
  get_parameters : (h : Handle) (w : Wire) → Call env h w (sane_get_parameters env h).1 w
  choose :
      (settings : Settings) (threshold_fixed : ℕ) (h : Handle) (w : Wire)
      → h.scanning ≡ false
      → IsOffered settings
      → Call env h w (record h { settings = settings; threshold_fixed = threshold_fixed }) w

pub data CallRun (env : Env) (h : Handle) (w : Wire) : Handle → Wire → Type 0 where
  none_yet : CallRun env h w h w
  then_one :
      (h' : Handle) (w' : Wire) (h'' : Handle) (w'' : Wire)
      → CallRun env h w h' w'
      → Call env h' w' h'' w''
      → CallRun env h w h'' w''

-- What calloc and init_options make: nothing runs, nothing is queued, and the resolution is on offer.
pub record IsNew (h : Handle) : Type 0 where
  pub scanning : h.scanning ≡ false
  pub locked : h.locked ≡ false
  pub feeding : h.feeding ≡ false
  pub pos : h.out.pos ≡ 0
  pub offered : IsOffered h.settings

-- Another position in the queue, or another mark of the end of the page.
moved :
    (h : Handle) (pos : ℕ)
    → IsOpen h
    → pos ≤ length h.out.bytes
    → IsOpen (record h { out = record h.out { pos = pos } })
moved h pos i k = record {
  settled = record { lock = i.settled.lock; feeds = i.settled.feeds };
  queue = k;
  sheet = i.sheet;
  offered = i.offered;
}

ended_page : (h : Handle) → IsOpen h → IsOpen (record h { eof = true })
ended_page h i = record {
  settled = record { lock = i.settled.lock; feeds = i.settled.feeds };
  queue = i.queue;
  sheet = i.sheet;
  offered = i.offered;
}

record OpenAt (r : Reading) : Type 0 where
  usable : IsOpen r.2

deliver-OpenAt :
    (max_length : ℕ) (h : Handle) (w : Wire) → IsOpen h → OpenAt (deliver max_length h w)
unfolding deliver
deliver-OpenAt max_length h w i =
    if-cases OpenAt (length h.out.bytes - h.out.pos == 0) _ _ (λ e. record { usable = i })
      (λ e. record { usable = moved h _ i (ground (arith, i.queue)) })

pumped-IsOpen :
    (h : Handle) (r : Pumping) → IsOpen h → h.scanning ≡ true → PumpDone h r → IsOpen r.1
pumped-IsOpen h r i s d = record {
  settled = d.settled s i.settled;
  queue = d.goes.queue;
  sheet = subst IsSheet (sym (ap (λ (f : Fixed). f.1) d.goes.same)) i.sheet;
  offered = subst IsOffered (sym (ap (λ (f : Fixed). f.0) d.goes.same)) i.offered;
}

record Fine (r : Parameters × Handle) : Type 0 where
  usable : IsOpen r.1

module _ (env : Env) (he : IsEnv env) where
  rest-OpenAt :
      (max_length : ℕ) (h : Handle) (w : Wire)
      → IsOpen h
      → OpenAt (deliver max_length (if wants_rows h then record h { eof = true } else h) w)
  rest-OpenAt max_length h w i =
      if-cases (λ k. OpenAt (deliver max_length k w)) (wants_rows h) _ _
        (λ t. deliver-OpenAt max_length _ w (ended_page h i)) (λ t. deliver-OpenAt max_length h w i)

  torn-OpenAt :
      (st : Status) (h : Handle) (w : Wire)
      → IsOpen h
      → let (h'', w'') = torn_down env h w in OpenAt (some st, [], h'', w'')
  torn-OpenAt st h w i =
      subst (λ x. OpenAt (some st, [], x, (torn_down env h w).1))
        (sym (unlock_device-handle env.device _ w)) (record { usable = over_idle h i })

  read_loop_frames-OpenAt :
      (frames max_length : ℕ) (h : Handle) (w : Wire)
      → IsOpen h
      → OpenAt (read_loop_frames env frames max_length h w)
  unfolding read_loop_frames
  read_loop_frames-OpenAt zero max_length h w i =
      if-cases OpenAt (wants_rows h && h.scanning) _ _ (λ e. record { usable = i })
        (λ e. rest-OpenAt max_length h w i)
  read_loop_frames-OpenAt (suc frames) max_length h w i =
      let r = pump_frame env h.non_blocking false h w in
      let d =
        pump_frame-PumpDone env he h.non_blocking false h w
          (record { page = i.sheet.page; queue = i.queue }) in
      if-cases OpenAt (wants_rows h && h.scanning) _ _
        (λ e.
          let next = pumped-IsOpen h r i (and_true _ _ e).1 d in
          if_good-cases OpenAt r.0.status _ _
            (λ g.
              if-cases OpenAt r.0.idle _ _ (λ x. record { usable = next })
                (λ x. read_loop_frames-OpenAt frames max_length r.1 r.2 next))
            (λ n. torn-OpenAt r.0.status r.1 r.2 next))
        (λ e. rest-OpenAt max_length h w i)

  end_scan-IsOpen : (h : Handle) (w : Wire) → IsOpen h → IsOpen (end_scan env.device h w).0
  end_scan-IsOpen h w i = subst IsOpen (sym (end_scan-handle env.device h w)) (over_idle h i)

  emptied : (h : Handle) → IsOpen h → IsOpen (record h { out = empty_queue h.out; eof = true })
  emptied h i = record {
    settled = record { lock = i.settled.lock; feeds = i.settled.feeds };
    queue = omega arith;
    sheet = i.sheet;
    offered = i.offered;
  }

  sane_read-OpenAt :
      (frames max_length : ℕ) (h : Handle) (w : Wire)
      → IsOpen h
      → OpenAt (sane_read env frames max_length h w)
  unfolding sane_read
  sane_read-OpenAt frames max_length h w i =
      if-cases OpenAt (max_length == 0) _ _ (λ e. record { usable = i })
        (λ e.
          if-cases OpenAt h.cancelled _ _
            (λ c. record { usable = emptied _ (end_scan-IsOpen h w i) })
            (λ c. read_loop_frames-OpenAt frames max_length h w i))

  sane_start-IsOpen :
      (frames : ℕ) (h : Handle) (w : Wire) → IsOpen h → IsOpen (sane_start env frames h w).1
  sane_start-IsOpen frames h w i = elim (sane_start-Started env he frames h w i) [
    | inl (b, e) ↦ subst IsOpen (sym (ap (λ r. r.1) e)) i
    | inr s ↦ s.usable
  ]

  sane_get_parameters-IsOpen : (h : Handle) → IsOpen h → IsOpen (sane_get_parameters env h).1
  unfolding sane_get_parameters
  sane_get_parameters-IsOpen h i =
      (if-cases Fine (not h.scanning && h.out.pos == length h.out.bytes) _ _
        (λ e. record {
          usable = record {
            settled = record { lock = i.settled.lock; feeds = i.settled.feeds };
            queue = i.queue;
            sheet = compute_parameters-IsSheet h.settings i.offered;
            offered = i.offered;
          };
        })
        (λ e. record { usable = i })).usable

  Call-IsOpen :
      (h : Handle) (w : Wire) (h' : Handle) (w' : Wire) → Call env h w h' w' → IsOpen h → IsOpen h'
  unfolding sane_cancel sane_set_io_mode
  Call-IsOpen h w h' w' (start frames h1 w1) i = sane_start-IsOpen frames h w i
  Call-IsOpen h w h' w' (read frames max_length h1 w1) i =
      (sane_read-OpenAt frames max_length h w i).usable
  Call-IsOpen h w h' w' (cancel h1 w1) i = record {
    settled = record { lock = i.settled.lock; feeds = i.settled.feeds };
    queue = i.queue;
    sheet = i.sheet;
    offered = i.offered;
  }
  Call-IsOpen h w h' w' (set_io_mode b h1 w1) i = record {
    settled = record { lock = i.settled.lock; feeds = i.settled.feeds };
    queue = i.queue;
    sheet = i.sheet;
    offered = i.offered;
  }
  Call-IsOpen h w h' w' (get_parameters h1 w1) i = sane_get_parameters-IsOpen h i
  Call-IsOpen h w h' w' (choose settings t h1 w1 s k) i = record {
    settled = record { lock = i.settled.lock; feeds = i.settled.feeds };
    queue = i.queue;
    sheet = i.sheet;
    offered = k;
  }

  sane_open-IsOpen : (h : Handle) (w : Wire) → IsNew h → IsOpen (sane_open env h w).0
  unfolding sane_open
  sane_open-IsOpen h w n =
      let (has_adf, e) = probe_adf-handle env.device h (flush_input env.device w) in
      subst (λ x. IsOpen (record x { params = compute_parameters x.settings })) (sym e)
        (record {
          settled = record { lock = sym n.scanning; feeds = λ f. cc };
          queue = omega (arith, n.pos);
          sheet = compute_parameters-IsSheet h.settings n.offered;
          offered = n.offered;
        })

  -- From what sane_open makes of a new handle whose resolution is on offer, and after any sequence of calls of sane_start, sane_read,
  -- sane_cancel, sane_set_io_mode and sane_get_parameters and of option changes while no job runs,
  -- whatever the device answers: the device is locked exactly where a job runs, a page that is to
  -- follow means that one does, the read position of the queue lies inside it, and the announced page
  -- is not empty.
  pub sane_open-stays_open :
      (h0 : Handle) (w0 : Wire) (h : Handle) (w : Wire)
      → IsNew h0
      → CallRun env (sane_open env h0 w0).0 (sane_open env h0 w0).1 h w
      → IsOpen h
  sane_open-stays_open h0 w0 h w n none_yet = sane_open-IsOpen h0 w0 n
  sane_open-stays_open h0 w0 h w n (then_one h1 w1 h2 w2 s c) =
      Call-IsOpen h1 w1 h w c (sane_open-stays_open h0 w0 h1 w1 n s)

  -- sane_close leaves the handle with no job, the device unlocked and no page to follow, and changes
  -- nothing else in it, in whatever state the handle is and whatever the device answers.
  pub sane_close-handle :
      (h : Handle) (w : Wire)
      → (sane_close env h w).0 ≡ record h { scanning = false; feeding = false; locked = false }
  unfolding sane_close
  sane_close-handle h w = end_scan-handle env.device h w
