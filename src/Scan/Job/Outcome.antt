-- ===== src/Scan/Job/Outcome.antt =====
-- sane_pantum_start of src/pantum.c: what its result says about the handle.
use mathlib.Core.Path.{subst}
use pantum_open.Base.{
  ℕ, zero, suc, ◌≡◌, refl, sym, ap, ◌∙◌, true, false, not, ◌&&◌, Option, none, some, ◌==◌, if-cases,
}
use pantum_open.Scan.Status.{Status, good, map_status}
use pantum_open.Scan.Usb.{Wire}
use pantum_open.Scan.Frame.{if_good-cases}
use pantum_open.Scan.Handle.{Handle}
use pantum_open.Scan.Image.{IsQueue}
use pantum_open.Scan.Job.Start.{Running, attempted}
use pantum_open.Scan.Job.Settled.{IsSettled, Fixed, map_status-bad}
use pantum_open.Scan.Job.Pages.{IsSheet, IsOffered}
use pantum_open.Scan.Job.Wait.{IsIdle, IsReading, Awaited}

-- What holds of a handle between any two calls.
pub record IsOpen (h : Handle) : Type 0 where
  pub settled : IsSettled h
  pub queue : IsQueue h.out
  pub sheet : IsSheet h.params
  pub offered : IsOffered h.settings

pub record Started (h : Handle) (r : Option Status × Handle × Wire) : Type 0 where
  pub usable : IsOpen r.1
  pub same : r.1.settings ≡ h.settings
  pub begun : r.0 ≡ some good → IsReading 0 r.1 × (r.1.cancelled ≡ false)
  pub failed : (st : Status) → ¬ (st ≡ good) → r.0 ≡ some st → IsIdle r.1

pub some_injective : (s t : Status) → some s ≡ some t → s ≡ t
some_injective s t e = ap (λ o. elim o [ none ↦ s | some x ↦ x ]) e

pub open_of :
    (h : Handle) (r : Running) → IsSheet h.params → IsOffered h.settings → Awaited h r → IsOpen r.2
open_of h r p k a = record {
  settled = a.settled;
  queue = a.queue;
  sheet = subst IsSheet (sym (ap (λ (f : Fixed). f.1) a.same)) p;
  offered = subst IsOffered (sym (ap (λ (f : Fixed). f.0) a.same)) k;
}

-- A job runs and is not between two pages.
abbrev pub IsBusy : Handle → Type 0
IsBusy h = (h.cancelled ≡ false) × (h.feeding ≡ false) × (h.scanning ≡ true)

-- What end_scan leaves.
abbrev pub ended_scan : Handle → Handle
ended_scan h = record h { scanning = false; feeding = false; locked = false }

pub over_idle : (h : Handle) → IsOpen h → IsOpen (ended_scan h)
over_idle h i = record {
  settled = record { lock = refl; feeds = λ f. cc };
  queue = i.queue;
  sheet = i.sheet;
  offered = i.offered;
}

-- A handle that no job runs on, as sane_pantum_start has set it up.
pub record IsPrepared (h : Handle) : Type 0 where
  pub idle : IsIdle h
  pub queue : IsQueue h.out
  pub sheet : IsSheet h.params
  pub offered : IsOffered h.settings
  pub live : h.cancelled ≡ false

-- An end without a job.
pub ends_idle :
    (h h' : Handle) (st : Status) (w : Wire)
    → ¬ (st ≡ good)
    → h'.settings ≡ h.settings
    → IsOpen h'
    → IsIdle h'
    → Started h (some st, h', w)
ends_idle h h' st w bad e o i = record {
  usable = o;
  same = e;
  begun = λ g. absurd (bad (some_injective st good g));
  failed = λ s n g. i;
}

pub begins :
    (h : Handle) (r : Running)
    → IsSheet h.params
    → IsOffered h.settings
    → h.cancelled ≡ false
    → Awaited h r
    → r.0 ≡ some good
    → r.1 ≡ none
    → Started h (some good, r.2, r.3)
begins h r p k c a g n = record {
  usable = open_of h r p k a;
  same = ap (λ (f : Fixed). f.0) a.same;
  begun = λ e. (a.begun g n, ap (λ (f : Fixed). f.2) a.same ∙ c);
  failed = λ st bad e. absurd (bad (sym (some_injective good st e)));
}

pub still_waits :
    (h : Handle) (r : Running)
    → IsSheet h.params
    → IsOffered h.settings
    → Awaited h r
    → Started h (none, r.2, r.3)
still_waits h r p k a = record {
  usable = open_of h r p k a;
  same = ap (λ (f : Fixed). f.0) a.same;
  begun = λ e. cc;
  failed = λ st bad e. cc;
}

pub from_Started :
    (h h' : Handle) (r : Option Status × Handle × Wire)
    → h'.settings ≡ h.settings
    → Started h' r
    → Started h r
from_Started h h' r e s = record {
  usable = s.usable;
  same = s.same ∙ e;
  begun = s.begun;
  failed = s.failed;
}

Awaited-IsPrepared :
    (h : Handle) (r : Running) → IsPrepared h → Awaited h r → IsIdle r.2 → IsPrepared r.2
Awaited-IsPrepared h r i a d =
    let o = open_of h r i.sheet i.offered a in
    record {
      idle = d;
      queue = a.queue;
      sheet = o.sheet;
      offered = o.offered;
      live = ap (λ (f : Fixed). f.2) a.same ∙ i.live;
    }

failed_attempt :
    (h : Handle) (st : Status) (aborted : Option ℕ) (h' : Handle) (w' : Wire)
    → IsPrepared h
    → Awaited h (some st, aborted, h', w')
    → ¬ (st ≡ good)
    → Started h (some st, h', w')
failed_attempt h st aborted h' w' i a n =
    ends_idle h h' st w' n (ap (λ (f : Fixed). f.0) a.same) (open_of h _ i.sheet i.offered a)
      (a.failed st n refl)

refused : (s : ℕ) → (not (s == 0) && not (s == 2)) ≡ true → ¬ (map_status s ≡ good)
refused zero e k = cc
refused (suc n) e k = map_status-bad n k

pub attempt_step :
    (h : Handle) (again : Option Status × Handle × Wire) (o : Option Status) (aborted : Option ℕ)
    (h' : Handle) (w' : Wire)
    → IsPrepared h
    → Awaited h (o, aborted, h', w')
    → (IsPrepared h' → Started h' again)
    → Started h (attempted o aborted h' w' again)
unfolding attempted
attempt_step h again none aborted h' w' i a more = still_waits h _ i.sheet i.offered a
attempt_step h again (some st) none h' w' i a more =
    if_good-cases (Started h) st _ _
      (λ g. begins h _ i.sheet i.offered i.live a (λ j. some (g j)) refl)
      (λ n. failed_attempt h st none h' w' i a n)
attempt_step h again (some st) (some s) h' w' i a more =
    if_good-cases (Started h) st _ _
      (λ g.
        if-cases (Started h) (not (s == 0) && not (s == 2)) _ _
          (λ e.
            ends_idle h h' (map_status s) w' (refused s e) (ap (λ (f : Fixed). f.0) a.same)
              (open_of h _ i.sheet i.offered a) (a.aborted s (λ j. some (g j)) refl))
          (λ e.
            from_Started h h' again (ap (λ (f : Fixed). f.0) a.same)
              (more (Awaited-IsPrepared h _ i a (a.aborted s (λ j. some (g j)) refl)))))
      (λ n. failed_attempt h st (some s) h' w' i a n)
