-- ===== src/Scan/Job/Wait.antt =====
-- The wait for the first rows: what a page that has begun is like, and what is left of a failed job.
use mathlib.Core.Path.{subst}
use pantum_open.Base.{
  ℕ, zero, suc, ◌+◌, ◌*◌, ◌≤◌, ◌≡◌, refl, sym, ap, ap₂, ◌∙◌, Bool, true, false, ◌&&◌, Option, none,
  some, List, [], ◌∷◌, length, concat, All, length-append, if-cases, arith, inl, inr, ◌⊎◌,
}
use pantum_open.Scan.Status.{Status, good}
use pantum_open.Scan.Usb.{Wire}
use pantum_open.Scan.Frame.{if_good-cases}
use pantum_open.Scan.Window.{Parameters}
use pantum_open.Scan.Handle.{Handle}
use pantum_open.Scan.Image.{IsQueue, IsReady, unread}
use pantum_open.Scan.Session.{unlock_device-handle}
use pantum_open.Scan.Job.Pump.{Env, Pumping, pump_frame}
use pantum_open.Scan.Job.Start.{Running, awaits, is_none, torn_down, await_first_rows}
use pantum_open.Scan.Job.Settled.{IsSettled, Fixed, fixed}
use pantum_open.Scan.Job.Frames.{IsEnv, PumpDone, pump_frame-PumpDone}
use pantum_open.Scan.Job.Pages.{IsSheet}

-- No job runs, the device is unlocked, and no page is to follow.
pub record IsIdle (h : Handle) : Type 0 where
  pub scanning : h.scanning ≡ false
  pub locked : h.locked ≡ false
  pub feeding : h.feeding ≡ false

-- A page is being read, and `given` bytes of it have been handed out.
pub record IsReading (given : ℕ) (h : Handle) : Type 0 where
  pub sheet : IsSheet h.params
  pub queue : IsQueue h.out
  pub settled : IsSettled h
  pub within : h.next_row ≤ h.params.lines
  pub running : (h.scanning ≡ true) ⊎ (h.eof ≡ true)
  pub over : h.eof ≡ true → h.params.lines ≤ h.next_row
  pub count : given + length (unread h.out) ≡ h.next_row * h.params.bytes_per_line

pub IsReading-IsReady : (given : ℕ) (h : Handle) → IsReading given h → IsReady h
IsReading-IsReady given h i = record { page = i.sheet.page; queue = i.queue }

length-concat :
    (n : ℕ) (rows : List (List ℕ))
    → All (λ (r : List ℕ). length r ≡ n) rows
    → length (concat rows) ≡ length rows * n
length-concat n [] a = omega arith
length-concat n (row ∷ rows) a =
    omega (arith, length-append row (concat rows), length-concat n rows a.1, a.0)

-- A frame that went well keeps the page going.
pub goes_on :
    (given : ℕ) (h : Handle) (r : Pumping)
    → IsReading given h
    → h.scanning ≡ true
    → PumpDone h r
    → r.0.status ≡ good
    → r.0.aborted ≡ none
    → IsReading given r.1
goes_on given h r i s d g n =
    let p : r.1.params ≡ h.params = ap (λ (k : Fixed). k.1) d.goes.same in
    let pl : r.1.params.lines ≡ h.params.lines = ap (λ (k : Parameters). k.lines) p in
    let pb : r.1.params.bytes_per_line ≡ h.params.bytes_per_line =
      ap (λ (k : Parameters). k.bytes_per_line) p in
    let a = d.goes.appended in
    let c : length (unread r.1.out)
        ≡ length (unread h.out) + length a.rows * h.params.bytes_per_line =
      ap length a.bytes
      ∙ length-append (unread h.out) (concat a.rows)
      ∙ ap (λ n. length (unread h.out) + n) (length-concat h.params.bytes_per_line a.rows a.full) in
    record {
      sheet = subst IsSheet (sym p) i.sheet;
      queue = d.goes.queue;
      settled = d.settled s i.settled;
      within = omega (arith, d.goes.within i.within, pl);
      running = d.alive g n s;
      over = λ e. elim (d.over g e) [
        | inl k ↦ omega (arith, i.over k, a.count, pl)
        | inr k ↦ omega (arith, k, pl)
      ];
      count = omega (arith, c, i.count, ap₂ (λ x y. x * y) a.count pb);
    }

-- Where a job that began as one that runs has got to.
pub record Awaited (h : Handle) (r : Running) : Type 0 where
  pub same : fixed r.2 ≡ fixed h
  pub queue : IsQueue r.2.out
  pub settled : IsSettled r.2
  pub begun : r.0 ≡ some good → r.1 ≡ none → IsReading 0 r.2
  pub aborted : (n : ℕ) → r.0 ≡ some good → r.1 ≡ some n → IsIdle r.2
  pub arrived : r.0 ≡ some good → awaits r.1 r.2 ≡ false
  pub failed : (st : Status) → ¬ (st ≡ good) → r.0 ≡ some st → IsIdle r.2

true≢false : ¬ (true ≡ false)
true≢false e = cc

pub IsSettled-IsIdle : (h : Handle) → IsSettled h → h.scanning ≡ false → IsIdle h
IsSettled-IsIdle h d s = record {
  scanning = s;
  locked = d.lock ∙ s;
  feeding = not_true h.feeding (λ f. true≢false (sym (d.feeds f) ∙ s));
}
  where
    not_true : (b : Bool) → ¬ (b ≡ true) → b ≡ false
    not_true true n = absurd (n refl)
    not_true false n = refl

-- Before a frame: the job runs on a page, or an abort has been reported and has ended it.
pub record Waits (aborted : Option ℕ) (h : Handle) : Type 0 where
  pub settled : IsSettled h
  pub queue : IsQueue h.out
  pub reading : aborted ≡ none → IsReading 0 h
  pub idle : (n : ℕ) → aborted ≡ some n → IsIdle h

stops :
    (aborted : Option ℕ) (h : Handle) (w : Wire)
    → Waits aborted h
    → awaits aborted h ≡ false
    → Awaited h (some good, aborted, h, w)
stops aborted h w i quiet = record {
  same = refl;
  queue = i.queue;
  settled = i.settled;
  begun = λ e n. i.reading n;
  aborted = λ n e k. i.idle n k;
  arrived = λ e. quiet;
  failed = λ st n e. absurd (n (sym (ap (λ o. elim o [ none ↦ good | some x ↦ x ]) e)));
}

not_yet :
    (aborted : Option ℕ) (h : Handle) (w : Wire) → Waits aborted h → Awaited h (none, aborted, h, w)
not_yet aborted h w i = record {
  same = refl;
  queue = i.queue;
  settled = i.settled;
  begun = λ e n. cc;
  aborted = λ n e k. cc;
  arrived = λ e. cc;
  failed = λ st n e. cc;
}

pub and_true : (a b : Bool) → (a && b) ≡ true → (a ≡ true) × (b ≡ true)
and_true true b e = (refl, e)
and_true false b e = cc

is_none-eq : (o : Option ℕ) → is_none o ≡ true → o ≡ none
is_none-eq none e = refl
is_none-eq (some n) e = cc

pub torn-IsIdle :
    (h : Handle) → IsIdle (record h { scanning = false; feeding = false; locked = false })
torn-IsIdle h = record { scanning = refl; locked = refl; feeding = refl }

pub IsIdle-IsSettled : (h : Handle) → IsIdle h → IsSettled h
IsIdle-IsSettled h i = record { lock = i.locked ∙ sym i.scanning; feeds = λ f. cc }

module _ (env : Env) (he : IsEnv env) where
  pub ended_early :
      (st : Status) (aborted : Option ℕ) (h h' : Handle) (w' : Wire)
      → ¬ (st ≡ good)
      → fixed h' ≡ fixed h
      → IsQueue h'.out
      → IsIdle h'
      → Awaited h (some st, aborted, h', w')
  ended_early st aborted h h' w' bad e q i = record {
    same = e;
    queue = q;
    settled = IsIdle-IsSettled h' i;
    begun = λ g n. absurd (bad (ap (λ o. elim o [ none ↦ good | some x ↦ x ]) g));
    aborted = λ n g k. absurd (bad (ap (λ o. elim o [ none ↦ good | some x ↦ x ]) g));
    arrived = λ g. absurd (bad (ap (λ o. elim o [ none ↦ good | some x ↦ x ]) g));
    failed = λ s n g. i;
  }

  torn-Awaited :
      (st : Status) (aborted : Option ℕ) (h h' : Handle) (w' : Wire)
      → ¬ (st ≡ good)
      → fixed h' ≡ fixed h
      → IsQueue h'.out
      → let (h'', w'') = torn_down env h' w' in Awaited h (some st, aborted, h'', w'')
  torn-Awaited st aborted h h' w' bad e q =
      subst (λ x. Awaited h (some st, aborted, x, (torn_down env h' w').1))
        (sym (unlock_device-handle env.device _ w'))
        (ended_early st aborted h _ _ bad e q (torn-IsIdle h'))

  pub from_Awaited : (h h' : Handle) (r : Running) → fixed h' ≡ fixed h → Awaited h' r → Awaited h r
  from_Awaited h h' r e a = record {
    same = a.same ∙ e;
    queue = a.queue;
    settled = a.settled;
    begun = a.begun;
    aborted = a.aborted;
    arrived = a.arrived;
    failed = a.failed;
  }

  next_Waits :
      (h : Handle) (r : Pumping)
      → IsReading 0 h
      → h.scanning ≡ true
      → PumpDone h r
      → r.0.status ≡ good
      → Waits r.0.aborted r.1
  next_Waits h r i s d g = record {
    settled = d.settled s i.settled;
    queue = d.goes.queue;
    reading = λ n. goes_on 0 h r i s d g n;
    idle = λ n e. IsSettled-IsIdle r.1 (d.settled s i.settled) (d.gone n e);
  }

  pub await_first_rows-Awaited :
      (frames : ℕ) (aborted : Option ℕ) (h : Handle) (w : Wire)
      → Waits aborted h
      → Awaited h (await_first_rows env frames aborted h w)
  unfolding await_first_rows
  await_first_rows-Awaited zero aborted h w i =
      if-cases (λ (o : Option Status). Awaited h (o, aborted, h, w)) (awaits aborted h) _ _
        (λ e. not_yet aborted h w i) (λ e. stops aborted h w i e)
  await_first_rows-Awaited (suc frames) aborted h w i =
      let r = pump_frame env false true h w in
      if-cases (Awaited h) (awaits aborted h) _ _
        (λ e.
          let (s, rest) = and_true _ _ e in
          let (quiet, _) = and_true _ _ (and_true _ _ rest).1 in
          let page = i.reading (is_none-eq aborted quiet) in
          let d = pump_frame-PumpDone env he false true h w (IsReading-IsReady 0 h page) in
          if_good-cases (Awaited h) r.0.status _ _
            (λ g.
              from_Awaited h r.1 _ d.goes.same
                (await_first_rows-Awaited frames r.0.aborted r.1 r.2 (next_Waits h r page s d g)))
            (λ n. torn-Awaited r.0.status r.0.aborted h r.1 r.2 n d.goes.same d.goes.queue))
        (λ e. stops aborted h w i e)
