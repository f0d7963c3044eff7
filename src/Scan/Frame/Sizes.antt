-- ===== src/Scan/Frame/Sizes.antt =====
-- No frame is handed on whose payload is larger than buffers are sized for.

use pantum_open.Base.{
  ℕ, ◌≤◌, ◌≡◌, Bool, true, false, List, [], ◌++◌, length, ltb, ◌==◌, ◌-◌, if-cases,
}
use pantum_open.Scan.Status.{Status, io_error}
use pantum_open.Scan.Usb.{Device, Wire, usb_read, perform, bulk_in, ends_tries, timeout_poll}
use pantum_open.Scan.Frame.Defs.{
  header_len, max_payload, Frame, Got, ended, idle, arrived, unpack, recv_rest, recv_frame,
}
use pantum_open.Scan.Frame.Traffic.{if_good-cases, unpack-arrived, ended≢arrived}

module _ (device : Device) where
  abbrev Small : Got × Wire → Type 0
  Small r = (f : Frame) → r.0 ≡ arrived f → f.plen ≤ max_payload

  unpack-Small : (buf : List ℕ) (w : Wire) → Small (unpack buf, w)
  unpack-Small buf w f e = (unpack-arrived buf f e).2

  ended-Small : (st : Status) (w : Wire) → Small (ended st, w)
  ended-Small st w f e = absurd (ended≢arrived st f e)

  recv_rest-Small : (t : ℕ) (got : List ℕ) (w : Wire) → Small (recv_rest device t got w)
  unfolding recv_rest
  recv_rest-Small t got w =
      if-cases Small (ltb (length got) header_len) _ (unpack got, w)
        (λ c.
          if_good-cases Small r.0 (unpack (got ++ r.1), r.2) (λ other. (ended other, r.2))
            (λ g. unpack-Small (got ++ r.1) r.2) (λ n. ended-Small r.0 r.2))
        (λ c. unpack-Small got w)
    where
      r : Status × List ℕ × Wire
      r = usb_read device (header_len - length got) t w

  -- With a probe or without, a frame that recv_frame hands back announces at most 64 MiB.
  pub recv_frame-plen :
      (t : ℕ) (probe : Bool) (w : Wire) (f : Frame)
      → (recv_frame device t probe w).0 ≡ arrived f
      → f.plen ≤ max_payload
  recv_frame-plen t false w = unfold recv_frame in recv_rest-Small t [] w
  recv_frame-plen t true w =
      unfold recv_frame in
      if-cases Small (ends_tries (device w (bulk_in header_len timeout_poll)).rc) _
        (ended io_error, w')
        (λ c.
          if-cases Small (length (device w (bulk_in header_len timeout_poll)).bytes == 0) (idle, w')
            _ (λ z f e. cc)
            (λ z. recv_rest-Small t (device w (bulk_in header_len timeout_poll)).bytes w'))
        (λ c. ended-Small io_error w')
    where
      w' : Wire
      w' = perform device (bulk_in header_len timeout_poll) w
