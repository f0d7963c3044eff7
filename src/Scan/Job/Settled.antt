-- ===== src/Scan/Job/Settled.antt =====
-- Between two calls the device is locked exactly while a job runs.

use pantum_open.Base.{ℕ, suc, zero, ◌≤◌, ◌≡◌, ap, Bool, true}
use pantum_open.Scan.Status.{Status, good, map_status, status_or}
use pantum_open.Scan.Window.{Settings, Parameters}
use pantum_open.Scan.Handle.{Handle}
use pantum_open.Scan.Image.{IsQueue, Appended, Advances, Kept}

pub record IsSettled (h : Handle) : Type 0 where
  pub lock : h.locked ≡ h.scanning
  pub feeds : h.feeding ≡ true → h.scanning ≡ true

-- What a running job never changes.
abbrev pub Fixed : Type 0
Fixed = Settings × Parameters × Bool × Bool

abbrev pub fixed : Handle → Fixed
fixed h = (h.settings, h.params, h.cancelled, h.non_blocking)

-- A page goes on from one handle to the next.
pub record Goes (h h' : Handle) : Type 0 where
  pub same : fixed h' ≡ fixed h
  pub queue : IsQueue h'.out
  pub within : h.next_row ≤ h.params.lines → h'.next_row ≤ h.params.lines
  pub appended : Appended h h'

pub Goes-Advances : (h h' : Handle) → Advances h h' → Goes h h'
Goes-Advances h h' a = record {
  same = ap (λ (k : Kept). (k.0, k.1, k.4, k.6)) a.same;
  queue = a.queue;
  within = a.within;
  appended = a.appended;
}

-- Only the state of the session has changed since.
pub Goes-flags :
    (h h' : Handle) (scanning locked feeding eof : Bool)
    → Goes h h'
    → Goes h (record h' { scanning = scanning; locked = locked; feeding = feeding; eof = eof })
Goes-flags h h' scanning locked feeding eof g = record {
  same = g.same;
  queue = g.queue;
  within = g.within;
  appended = record {
    rows = g.appended.rows;
    count = g.appended.count;
    full = g.appended.full;
    bytes = g.appended.bytes;
  };
}

pub map_status-bad : (n : ℕ) → ¬ (map_status (suc n) ≡ good)
unfolding map_status
map_status-bad zero e = cc
map_status-bad (suc zero) e = cc
map_status-bad (suc (suc zero)) e = cc
map_status-bad (suc (suc (suc zero))) e = cc
map_status-bad (suc (suc (suc (suc zero)))) e = cc
map_status-bad (suc (suc (suc (suc (suc zero))))) e = cc
map_status-bad (suc (suc (suc (suc (suc (suc zero)))))) e = cc
map_status-bad (suc (suc (suc (suc (suc (suc (suc zero))))))) e = cc
map_status-bad (suc (suc (suc (suc (suc (suc (suc (suc n)))))))) e = cc

pub status_or-good : (other : Status) (n : ℕ) → status_or other n ≡ good → other ≡ good
unfolding status_or
status_or-good other zero e = e
status_or-good other (suc n) e = absurd (map_status-bad n e)
