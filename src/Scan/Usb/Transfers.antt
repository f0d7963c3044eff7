-- ===== src/Scan/Usb/Transfers.antt =====
-- What usb_write, usb_read and drain_payload achieve.
use pantum_open.Base.{
  ℕ, zero, suc, ◌≤◌, ◌≡◌, refl, sym, ap, ◌∙◌, true, false, List, [], ◌++◌, length, take,
  if◌then◌else◌, append-nil,
}
use mathlib.Core.Path.{subst}
use mathlib.Core.Bool.{false≢true}
use pantum_open.Scan.Usb.Defs.{
  Rc, success, timeout, failure, Request, bulk_out, bulk_in, clear_halt, Reply, Wire, Device,
  IsLibusb, is_success, ends_tries, bytes_in, bytes_out, received, accepted, perform, try_bulk,
}

data RcCase (rc : Rc) : Type 0 where
  is_success_case : rc ≡ success → RcCase rc
  is_timeout_case : rc ≡ timeout → RcCase rc
  is_failure_case : (n : ℕ) → rc ≡ failure n → RcCase rc

Rc-cases : (rc : Rc) → RcCase rc
Rc-cases success = is_success_case refl
Rc-cases timeout = is_timeout_case refl
Rc-cases (failure n) = is_failure_case n refl

module _ (device : Device) where
  -- A transfer with its retries: what a successful one moved, and that the other direction is quiet.
  pub record ReadTried (len : ℕ) (w : Wire) (r : Reply) (w' : Wire) : Type 0 where
    pub moved : is_success r.rc ≡ true → received w' ≡ received w ++ r.bytes
    pub bounded : is_success r.rc ≡ true → length r.bytes ≤ len
    pub silent : accepted w' ≡ accepted w

  pub record WriteTried (xs : List ℕ) (w : Wire) (r : Reply) (w' : Wire) : Type 0 where
    pub moved : is_success r.rc ≡ true → accepted w' ≡ accepted w ++ take r.count xs
    pub bounded : is_success r.rc ≡ true → r.count ≤ length xs
    pub silent : received w' ≡ received w

  try_stop :
      (tries : ℕ) (q : Request) (ep : ℕ) (last : Reply) (w : Wire)
      → ends_tries (device w q).rc ≡ true
      → try_bulk device (suc tries) q ep last w ≡ (device w q, perform device q w)
  unfolding try_bulk
  try_stop tries q ep last w e =
      ap
        (λ b.
          if b
          then (device w q, perform device q w)
          else try_bulk device tries q ep (device w q)
              (perform device (clear_halt ep) (perform device q w)))
        e

  try_again :
      (tries : ℕ) (q : Request) (ep : ℕ) (last : Reply) (w : Wire)
      → ends_tries (device w q).rc ≡ false
      → try_bulk device (suc tries) q ep last w
        ≡ try_bulk device tries q ep
            (device w q)
            (perform device (clear_halt ep) (perform device q w))
  unfolding try_bulk
  try_again tries q ep last w e =
      ap
        (λ b.
          if b
          then (device w q, perform device q w)
          else try_bulk device tries q ep (device w q)
              (perform device (clear_halt ep) (perform device q w)))
        e

  halt_received : (ep : ℕ) (w : Wire) → received (perform device (clear_halt ep) w) ≡ received w
  unfolding received bytes_in
  halt_received ep w = append-nil (received w)

  halt_accepted : (ep : ℕ) (w : Wire) → accepted (perform device (clear_halt ep) w) ≡ accepted w
  unfolding accepted bytes_out
  halt_accepted ep w = append-nil (accepted w)

  module _ (len : ℕ) (t : ℕ) (w : Wire) where
    after_in :
        (c : Rc)
        → (device w (bulk_in len t)).rc ≡ c
        → received (perform device (bulk_in len t) w)
          ≡ received w ++ (if is_success c then (device w (bulk_in len t)).bytes else [])
    unfolding received bytes_in
    after_in c e =
        ap
          (λ (c : Rc).
            received w ++ (if is_success c then (device w (bulk_in len t)).bytes else []))
          e

    quiet_in : accepted (perform device (bulk_in len t) w) ≡ accepted w
    unfolding accepted bytes_out
    quiet_in = append-nil (accepted w)

    -- An attempt that failed, and the cleared halt behind it, moved nothing.
    failed_in :
        (ep n : ℕ)
        → (device w (bulk_in len t)).rc ≡ failure n
        → (received (perform device (clear_halt ep) (perform device (bulk_in len t) w))
            ≡ received w)
          × (accepted (perform device (clear_halt ep) (perform device (bulk_in len t) w))
              ≡ accepted w)
    failed_in ep n e = (
      halt_received ep (perform device (bulk_in len t) w)
          ∙ after_in (failure n) e
          ∙ append-nil (received w),
      halt_accepted ep (perform device (bulk_in len t) w) ∙ quiet_in,
    )

  pub try_in :
      (tries : ℕ) (len : ℕ) (t ep : ℕ) (last : Reply) (w : Wire)
      → IsLibusb device
      → is_success last.rc ≡ false
      → ReadTried len w
          (try_bulk device tries (bulk_in len t) ep last w).0
          (try_bulk device tries (bulk_in len t) ep last w).1
  try_in zero len t ep last w lib h =
      unfold try_bulk in record { moved = λ e. cc; bounded = λ e. cc; silent = refl }
  try_in (suc tries) len t ep last w lib h =
      step (Rc-cases now.rc) (λ n e. try_in tries len t ep now retry lib (ap is_success e))
    where
      now : Reply
      now = device w (bulk_in len t)

      retry : Wire
      retry = perform device (clear_halt ep) (perform device (bulk_in len t) w)

      Tried : Reply × Wire → Type 0
      Tried p = ReadTried len w p.0 p.1

      step :
          RcCase now.rc
          → ((n : ℕ)
              → now.rc ≡ failure n
              → ReadTried len retry
                  (try_bulk device tries (bulk_in len t) ep now retry).0
                  (try_bulk device tries (bulk_in len t) ep now retry).1)
          → Tried (try_bulk device (suc tries) (bulk_in len t) ep last w)
      step (is_success_case e) ih =
          subst Tried (sym (try_stop tries (bulk_in len t) ep last w (ap ends_tries e))) (record {
            moved = λ p. after_in len t w success e;
            bounded = λ p. lib.0 w len t;
            silent = quiet_in len t w;
          })
      step (is_timeout_case e) ih =
          subst Tried (sym (try_stop tries (bulk_in len t) ep last w (ap ends_tries e))) (record {
            moved = λ p. absurd (false≢true (sym (ap is_success e) ∙ p));
            bounded = λ p. lib.0 w len t;
            silent = quiet_in len t w;
          })
      step (is_failure_case n e) ih =
          let none_moved = failed_in len t w ep n e in
          subst Tried (sym (try_again tries (bulk_in len t) ep last w (ap ends_tries e))) (record {
            moved = λ p.
                (ih n e).moved p
                ∙ ap (λ ys. ys ++ (try_bulk device tries (bulk_in len t) ep now retry).0.bytes)
                    none_moved.0;
            bounded = (ih n e).bounded;
            silent = (ih n e).silent ∙ none_moved.1;
          })

  module _ (xs : List ℕ) (t : ℕ) (w : Wire) where
    after_out :
        (c : Rc)
        → (device w (bulk_out xs t)).rc ≡ c
        → accepted (perform device (bulk_out xs t) w)
          ≡ accepted w ++ (if is_success c then (take (device w (bulk_out xs t)).count xs) else [])
    unfolding accepted bytes_out
    after_out c e =
        ap
          (λ (c : Rc).
            accepted w ++ (if is_success c then (take (device w (bulk_out xs t)).count xs) else []))
          e

    quiet_out : received (perform device (bulk_out xs t) w) ≡ received w
    unfolding received bytes_in
    quiet_out = append-nil (received w)

    -- An attempt that failed, and the cleared halt behind it, moved nothing.
    failed_out :
        (ep n : ℕ)
        → (device w (bulk_out xs t)).rc ≡ failure n
        → (accepted (perform device (clear_halt ep) (perform device (bulk_out xs t) w))
            ≡ accepted w)
          × (received (perform device (clear_halt ep) (perform device (bulk_out xs t) w))
              ≡ received w)
    failed_out ep n e = (
      halt_accepted ep (perform device (bulk_out xs t) w)
          ∙ after_out (failure n) e
          ∙ append-nil (accepted w),
      halt_received ep (perform device (bulk_out xs t) w) ∙ quiet_out,
    )

  pub try_out :
      (tries : ℕ) (xs : List ℕ) (t ep : ℕ) (last : Reply) (w : Wire)
      → IsLibusb device
      → is_success last.rc ≡ false
      → WriteTried xs w
          (try_bulk device tries (bulk_out xs t) ep last w).0
          (try_bulk device tries (bulk_out xs t) ep last w).1
  try_out zero xs t ep last w lib h =
      unfold try_bulk in record { moved = λ e. cc; bounded = λ e. cc; silent = refl }
  try_out (suc tries) xs t ep last w lib h =
      step (Rc-cases now.rc) (λ n e. try_out tries xs t ep now retry lib (ap is_success e))
    where
      now : Reply
      now = device w (bulk_out xs t)

      retry : Wire
      retry = perform device (clear_halt ep) (perform device (bulk_out xs t) w)

      Tried : Reply × Wire → Type 0
      Tried p = WriteTried xs w p.0 p.1

      step :
          RcCase now.rc
          → ((n : ℕ)
              → now.rc ≡ failure n
              → WriteTried xs retry
                  (try_bulk device tries (bulk_out xs t) ep now retry).0
                  (try_bulk device tries (bulk_out xs t) ep now retry).1)
          → Tried (try_bulk device (suc tries) (bulk_out xs t) ep last w)
      step (is_success_case e) ih =
          subst Tried (sym (try_stop tries (bulk_out xs t) ep last w (ap ends_tries e))) (record {
            moved = λ p. after_out xs t w success e;
            bounded = λ p. lib.1 w xs t;
            silent = quiet_out xs t w;
          })
      step (is_timeout_case e) ih =
          subst Tried (sym (try_stop tries (bulk_out xs t) ep last w (ap ends_tries e))) (record {
            moved = λ p. absurd (false≢true (sym (ap is_success e) ∙ p));
            bounded = λ p. lib.1 w xs t;
            silent = quiet_out xs t w;
          })
      step (is_failure_case n e) ih =
          let none_moved = failed_out xs t w ep n e in
          subst Tried (sym (try_again tries (bulk_out xs t) ep last w (ap ends_tries e))) (record {
            moved = λ p.
                (ih n e).moved p
                ∙ ap
                    (λ ys.
                      ys ++ take (try_bulk device tries (bulk_out xs t) ep now retry).0.count xs)
                    none_moved.0;
            bounded = (ih n e).bounded;
            silent = (ih n e).silent ∙ none_moved.1;
          })
