-- ===== src/Scan/Session/Ends.antt =====
-- What the functions of a session leave in the handle, whatever the device answers.

use pantum_open.Base.{
  ℕ, zero, suc, ◌≡◌, refl, ◌∙◌, Bool, true, false, [], ◌⊎◌, inl, inr, if-cases, none,
}
use pantum_open.Scan.Status.{Status, good, device_busy}
use pantum_open.Scan.Usb.{Device, Wire}
use pantum_open.Scan.Frame.{if_good-cases, command}
use pantum_open.Scan.Handle.{Handle}
use pantum_open.Scan.Session.Lock.{
  cmd_lock, says_busy, unlocked, unlock_device, lock_loop, lock_device, check_adf, probe_adf,
  end_scan,
}

-- The session is over; nothing else has changed.
abbrev pub closed_session : Handle → Handle
closed_session h = record h { feeding = false; locked = false }

pub unlock_device-handle :
    (device : Device) (h : Handle) (w : Wire) → (unlock_device device h w).0 ≡ closed_session h
unfolding unlock_device
unlock_device-handle device h w =
    if-cases (λ (r : Handle × Wire). r.0 ≡ closed_session h) h.locked _ _ (λ e. refl)
      (λ e i. record h { feeding = false; locked = e i })

-- Either the lock is held, or the try has ended with an error and the session is over.
abbrev pub Locked : Handle → Status × Handle × Wire → Type 0
Locked h r =
    ((r.0 ≡ good) × (r.1 ≡ record h { locked = true }))
    ⊎ ((¬ (r.0 ≡ good)) × (r.1 ≡ closed_session h))

module _ (device : Device) where
  unlocked-Locked :
      (st : Status) (h : Handle) (w : Wire) → ¬ (st ≡ good) → Locked h (unlocked device st h w)
  unlocked-Locked st h w n = inr (n, unlock_device-handle device h w)

  lock_loop-Locked : (tries : ℕ) (h : Handle) (w : Wire) → Locked h (lock_loop device tries h w)
  unfolding lock_loop
  lock_loop-Locked zero h w = unlocked-Locked device_busy h w (λ e. cc)
  lock_loop-Locked (suc tries) h w =
      let (a, w') = command device cmd_lock [] none w in
      let h' : Handle = record h { locked = true } in
      if_good-cases (Locked h) a.result _ _ (λ e. inl (refl, refl))
        (λ n.
          if-cases (Locked h) (says_busy a.ack) _ _ (λ b. lock_loop-Locked tries h' w')
            (λ b. unlocked-Locked a.result h' w' n))

  pub lock_device-Locked : (h : Handle) (w : Wire) → Locked h (lock_device device h w)
  unfolding lock_device
  lock_device-Locked h w = lock_loop-Locked 5 h w

  pub end_scan-handle :
      (h : Handle) (w : Wire)
      → (end_scan device h w).0 ≡ record h { scanning = false; feeding = false; locked = false }
  unfolding end_scan
  end_scan-handle h w =
      if-cases
        (λ (r : Handle × Wire).
          r.0 ≡ record h { scanning = false; feeding = false; locked = false })
        h.scanning _ _ (λ e. unlock_device-handle device _ _)
        (λ e.
          unlock_device-handle device h w
          ∙ (λ i. record h { scanning = e i; feeding = false; locked = false }))

  pub probe_adf-handle :
      (h : Handle) (w : Wire)
      → (has_adf : Bool) × ((probe_adf device h w).0
          ≡ record h { has_adf = has_adf; feeding = false; locked = false })
  unfolding probe_adf
  probe_adf-handle h w =
      let (a, w1) = command device cmd_lock [] none w in
      let (st, feeder, w2) = check_adf device w1 in
      if_good-cases Probed a.result _ _
        (λ e.
          if_good-cases (λ k. Probed (unlock_device device k w2)) st _ _
            (λ g. (feeder.present, unlock_device-handle device _ w2))
            (λ n. (false, unlock_device-handle device _ w2)))
        (λ n. (false, unlock_device-handle device _ w1))
    where
      Probed : Handle × Wire → Type 0
      Probed r =
          (has_adf : Bool) × (r.0 ≡ record h { has_adf = has_adf; feeding = false; locked = false })
