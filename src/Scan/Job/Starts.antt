-- ===== src/Scan/Job/Starts.antt =====
-- The start of a job and of a further page: a page that begins, or a session that is over.
use mathlib.Core.Path.{subst}
use pantum_open.Base.{
  ℕ, ◌*◌, ◌≡◌, refl, sym, ap, Bool, true, false, not, ◌||◌, none, some, [], length, if◌then◌else◌,
  if-cases, arith, inl, inr,
}
use pantum_open.Scan.Status.{Status, good, no_docs, unsupported}
use pantum_open.Scan.Usb.{Wire}
use pantum_open.Scan.Frame.{if_good-cases}
use pantum_open.Scan.Window.{source_is_adf}
use pantum_open.Scan.Handle.{Handle}
use pantum_open.Scan.Image.{IsQueue, unread}
use pantum_open.Scan.Session.{
  closed_session, unlock_device, unlock_device-handle, lock_device, lock_device-Locked, check_adf,
  setup_job,
}
use pantum_open.Scan.Job.Pump.{Env}
use pantum_open.Scan.Job.Start.{new_page, gives_up, launch, behind_lock, run_job}
use pantum_open.Scan.Job.Settled.{IsSettled}
use pantum_open.Scan.Job.Frames.{IsEnv}
use pantum_open.Scan.Job.Pages.{IsSheet}
use pantum_open.Scan.Job.Wait.{Awaited, Waits, ended_early, from_Awaited, await_first_rows-Awaited}

-- A handle that holds the lock and no row yet.
record IsFresh (h : Handle) : Type 0 where
  sheet : IsSheet h.params
  scanning : h.scanning ≡ false
  locked : h.locked ≡ true
  next_row : h.next_row ≡ 0
  eof : h.eof ≡ false
  bytes : unread h.out ≡ []
  queue : IsQueue h.out

first_page : (h : Handle) → IsFresh h → Waits none (record h { scanning = true })
first_page h i = record {
  settled = settled;
  queue = i.queue;
  reading = λ e. record {
    sheet = i.sheet;
    queue = i.queue;
    settled = settled;
    within = omega (arith, i.next_row);
    running = inl refl;
    over = λ e. cc;
    count = omega (arith, ap length i.bytes, ap (λ n. n * h.params.bytes_per_line) i.next_row);
  };
  idle = λ n e. cc;
}
  where
    settled : IsSettled (record h { scanning = true })
    settled = record { lock = i.locked; feeds = λ f. refl }

module _ (env : Env) (he : IsEnv env) where
  gives_up-Awaited :
      (st : Status) (h : Handle) (w : Wire)
      → ¬ (st ≡ good)
      → h.scanning ≡ false
      → IsQueue h.out
      → Awaited h (gives_up env st h w)
  gives_up-Awaited st h w bad s q =
      subst (λ x. Awaited h (some st, none, x, (unlock_device env.device h w).1))
        (sym (unlock_device-handle env.device h w))
        (ended_early env he st none h (closed_session h) _ bad refl q
          (record { scanning = s; locked = refl; feeding = refl }))

  launch-Awaited :
      (frames : ℕ) (h : Handle) (w : Wire) → IsFresh h → Awaited h (launch env frames h w)
  unfolding launch
  launch-Awaited frames h w i =
      let (st, w') = setup_job env.device h w in
      if_good-cases (Awaited h) st _ _
        (λ g.
          from_Awaited env he h (record h { scanning = true }) _ refl
            (await_first_rows-Awaited env he frames none (record h { scanning = true }) w'
              (first_page h i)))
        (λ n. gives_up-Awaited st h w' n i.scanning i.queue)

  behind_lock-Awaited :
      (frames : ℕ) (h : Handle) (w : Wire) → IsFresh h → Awaited h (behind_lock env frames h w)
  unfolding behind_lock
  behind_lock-Awaited frames h w i =
      let (st, feeder, w') = check_adf env.device w in
      if-cases (Awaited h) (source_is_adf h.settings) _ _
        (λ a.
          if_good-cases (Awaited h) st _ _
            (λ g.
              if-cases (Awaited h) (not feeder.present || not feeder.loaded) _ _
                (λ p. gives_up-Awaited _ h w' (no_feed feeder.present) i.scanning i.queue)
                (λ p. launch-Awaited frames h w' i))
            (λ n. gives_up-Awaited st h w' n i.scanning i.queue))
        (λ a. launch-Awaited frames h w i)
    where
      no_feed : (b : Bool) → ¬ ((if b then no_docs else unsupported) ≡ good)
      no_feed true e = cc
      no_feed false e = cc

  pub run_job-Awaited :
      (frames : ℕ) (h : Handle) (w : Wire)
      → IsSheet h.params
      → h.scanning ≡ false
      → Awaited h (run_job env frames h w)
  unfolding run_job
  run_job-Awaited frames h w p s =
      let r = lock_device env.device (new_page h) w in
      let l = lock_device-Locked env.device (new_page h) w in
      if_good-cases (Awaited h) r.0 _ _
        (λ g. elim l [
          | inl (o, e) ↦
              subst (λ x. Awaited h (behind_lock env frames x r.2)) (sym e)
                (from_Awaited env he h (record (new_page h) { locked = true }) _ refl
                  (behind_lock-Awaited frames (record (new_page h) { locked = true }) r.2 fresh))
          | inr (n, e) ↦ absurd (n g)
        ])
        (λ n. elim l [
          | inl (o, e) ↦ absurd (n o)
          | inr (k, e) ↦
              subst (λ x. Awaited h (some r.0, none, x, r.2)) (sym e)
                (ended_early env he r.0 none h (closed_session (new_page h)) r.2 n refl
                  (omega arith) (record { scanning = s; locked = refl; feeding = refl }))
        ])
    where
      fresh : IsFresh (record (new_page h) { locked = true })
      fresh = record {
        sheet = p;
        scanning = s;
        locked = refl;
        next_row = refl;
        eof = refl;
        bytes = refl;
        queue = omega arith;
      }
