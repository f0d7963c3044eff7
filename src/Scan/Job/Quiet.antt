-- ===== src/Scan/Job/Quiet.antt =====
-- A caller of pump_frame that takes no report of an abort, as sane_pantum_read: none is made, and
-- without a probe the call is never idle.
use pantum_open.Base.{ℕ, ◌≡◌, refl, Bool, true, false, none, List, ltb, ◌==◌, if-cases}
use pantum_open.Wire.{get_be32}
use pantum_open.Scan.Status.{Status, good, io_error}
use pantum_open.Scan.Usb.{Device, Wire, usb_read, timeout_read}
use pantum_open.Scan.Frame.{
  Frame, Got, ended, idle, arrived, if_good-cases, header_len, max_payload, pantum_magic, header_of,
  unpack, recv_rest, recv_frame,
}
use pantum_open.Scan.Window.{source_is_adf}
use pantum_open.Scan.Handle.{Handle}
use pantum_open.Scan.Session.{evt_aborted, evt_job_end}
use pantum_open.Scan.Job.Pump.{
  Env, Pumping, pumped, evt_data, evt_settings, evt_page_end, on_aborted, on_job_end, on_page_end,
  on_data, on_settings, on_other, dispatch, pump_frame,
}

pub record IsQuiet (r : Pumping) : Type 0 where
  pub aborted : r.0.aborted ≡ none
  pub busy : r.0.idle ≡ false

quiet : {st : Status} {h : Handle} {w : Wire} → IsQuiet (pumped st, h, w)
quiet = record { aborted = refl; busy = refl }

abbrev Unreported : Pumping → Type 0
Unreported r = r.0.aborted ≡ none

abbrev Unblocked : Pumping → Type 0
Unblocked r = r.0.idle ≡ false

abbrev NotIdle : Got × Wire → Type 0
NotIdle g = ¬ (g.0 ≡ idle)

ended-NotIdle : (st : Status) (w : Wire) → NotIdle (ended st, w)
ended-NotIdle st w e = cc

arrived-NotIdle : (f : Frame) (w : Wire) → NotIdle (arrived f, w)
arrived-NotIdle f w e = cc

unpack-NotIdle : (buf : List ℕ) (w : Wire) → NotIdle (unpack buf, w)
unfolding unpack
unpack-NotIdle buf w =
    if-cases (λ g. NotIdle (g, w)) (get_be32 buf == pantum_magic) _ _
      (λ a.
        if-cases (λ g. NotIdle (g, w)) (ltb max_payload (header_of buf).plen) _ _
          (λ b. ended-NotIdle io_error w) (λ b. arrived-NotIdle (header_of buf) w))
      (λ a. ended-NotIdle io_error w)

recv_frame-NotIdle : (device : Device) (t : ℕ) (w : Wire) → NotIdle (recv_frame device t false w)
unfolding recv_frame recv_rest
recv_frame-NotIdle device t w =
    let r = usb_read device header_len t w in
    if_good-cases NotIdle r.0 _ _ (λ g. unpack-NotIdle _ r.2) (λ n. ended-NotIdle r.0 r.2)

module _ (env : Env) where
  dispatch-IsQuiet : (f : Frame) (h : Handle) (w : Wire) → IsQuiet (dispatch env false f h w)
  unfolding dispatch on_data on_aborted on_job_end on_page_end on_settings on_other
  dispatch-IsQuiet f h w =
      if-cases IsQuiet (f.cmd == evt_data) _ _ (λ a. quiet)
        (λ a.
          if-cases IsQuiet (f.cmd == evt_aborted) _ _ (λ b. quiet)
            (λ b.
              if-cases IsQuiet (f.cmd == evt_job_end) _ _ (λ c. quiet)
                (λ c.
                  if-cases IsQuiet (f.cmd == evt_page_end) _ _
                    (λ d. if-cases IsQuiet (source_is_adf h.settings) _ _ (λ e. quiet) (λ e. quiet))
                    (λ d. if-cases IsQuiet (f.cmd == evt_settings) _ _ (λ e. quiet) (λ e. quiet)))))

  pub pump_frame-quiet :
      (probe : Bool) (h : Handle) (w : Wire) → (pump_frame env probe false h w).0.aborted ≡ none
  unfolding pump_frame
  pump_frame-quiet probe h w = step g.0
    where
      g : Got × Wire
      g = recv_frame env.device timeout_read probe w

      step :
          (got : Got)
          → Unreported (elim got [
            | ended st ↦ (pumped st, h, g.1)
            | idle ↦ (record { status = good; idle = true; aborted = none }, h, g.1)
            | arrived f ↦ dispatch env false f h g.1
          ])
      step (ended st) = refl
      step idle = refl
      step (arrived f) = (dispatch-IsQuiet f h g.1).aborted

  pub pump_frame-busy : (h : Handle) (w : Wire) → (pump_frame env false false h w).0.idle ≡ false
  unfolding pump_frame
  pump_frame-busy h w = step g.0 (recv_frame-NotIdle env.device timeout_read w)
    where
      g : Got × Wire
      g = recv_frame env.device timeout_read false w

      step :
          (got : Got)
          → ¬ (got ≡ idle)
          → Unblocked (elim got [
            | ended st ↦ (pumped st, h, g.1)
            | idle ↦ (record { status = good; idle = true; aborted = none }, h, g.1)
            | arrived f ↦ dispatch env false f h g.1
          ])
      step (ended st) n = refl
      step idle n = absurd (n refl)
      step (arrived f) n = (dispatch-IsQuiet f h g.1).busy
