-- ===== src/Scan/Job/Pump.antt =====
-- log_settings_echo and pump_frame of src/pantum.c. What a run of the backend depends on besides the
-- device is an Env: memory, the dither mask, the tone curves and the debug level.
use pantum_open.Base.{
  ℕ, Bool, true, false, not, ◌||◌, Option, none, some, List, ltb, ◌==◌, if◌then◌else◌,
}
use pantum_open.Scan.Status.{Status, good, io_error, status_or}
use pantum_open.Scan.Usb.{Device, Wire, usb_read, drain_payload, timeout_read}
use pantum_open.Scan.Frame.{Frame, ended, idle, arrived, if_good, settings_len, recv_frame}
use pantum_open.Scan.Window.{source_is_adf}
use pantum_open.Scan.Handle.{OutQueue, Handle}
use pantum_open.Scan.Image.{emit_white_rows, handle_data_block}
use pantum_open.Scan.Session.{unlock_device, evt_aborted, evt_job_end}

abbrev pub evt_data : ℕ
evt_data = 0x05

abbrev pub evt_settings : ℕ
evt_settings = 0x09

abbrev pub evt_page_end : ℕ
evt_page_end = 0x0e

-- build_dither_mask and build_gamma work in floating point: `mask_status` is what the first returns,
-- `gamma_of` the table that the second builds for colour or grey.
pub record Env : Type 0 where
  pub device : Device
  pub can_alloc : ℕ → Bool
  pub garbage : OutQueue → ℕ → List ℕ
  pub dither_mask : ℕ → ℕ
  pub mask_status : Status
  pub gamma_of : Bool → List ℕ
  pub dbg_level : ℕ

-- What pump_frame returns: its status, *idle, and *aborted with *abort_status.
pub record Pumped : Type 0 where
  pub status : Status
  pub idle : Bool
  pub aborted : Option ℕ

abbrev pub pumped : Status → Pumped
pumped st = record { status = st; idle = false; aborted = none }

abbrev pub Pumping : Type 0
Pumping = Pumped × Handle × Wire

module _ (env : Env) where
  unfoldable pub log_settings_echo : ℕ → Wire → Status × Wire
  log_settings_echo plen w =
      let (st, settings, w') = usb_read env.device settings_len timeout_read w in
      if not (plen == settings_len) || ltb env.dbg_level 2
      then drain_payload env.device plen timeout_read w
      else if_good st (good, w') (λ other. (io_error, w'))

  abbrev pub past_payload : Frame → Wire → Wire
  past_payload f w = (drain_payload env.device f.plen timeout_read w).1

  -- EVT_ABORTED; `reports` tells whether the caller asked for *aborted.
  unfoldable pub on_aborted : Bool → Frame → Handle → Wire → Pumping
  on_aborted reports f h w =
      let (h', w') = unlock_device env.device (record h { scanning = false }) (past_payload f w) in
      if reports
      then (record { status = good; idle = false; aborted = some f.status }, h', w')
      else (pumped (status_or io_error f.status), h', w')

  unfoldable pub on_job_end : Frame → Handle → Wire → Pumping
  on_job_end f h w =
      let (st, h1) = emit_white_rows env.can_alloc env.garbage env.dither_mask h.params.lines h in
      let (h2, w') =
        unlock_device env.device (record h1 { eof = true; scanning = false }) (past_payload f w) in
      (pumped st, h2, w')

  unfoldable pub on_page_end : Frame → Handle → Wire → Pumping
  on_page_end f h w =
      let (st, h') = emit_white_rows env.can_alloc env.garbage env.dither_mask h.params.lines h in
      if source_is_adf h.settings
      then (pumped st, record h' { eof = true; feeding = true }, past_payload f w)
      else (pumped good, h, past_payload f w)

  unfoldable pub on_data : Frame → Handle → Wire → Pumping
  on_data f h w =
      let (st, h', w') =
        handle_data_block env.can_alloc env.garbage env.dither_mask env.device f.plen h w in
      (pumped st, h', w')

  unfoldable pub on_settings : Frame → Handle → Wire → Pumping
  on_settings f h w = let (st, w') = log_settings_echo f.plen w in (pumped st, h, w')

  unfoldable pub on_other : Frame → Handle → Wire → Pumping
  on_other f h w =
      let (st, w') = drain_payload env.device f.plen timeout_read w in (pumped st, h, w')

  -- The switch on the command of a frame.
  unfoldable pub dispatch : Bool → Frame → Handle → Wire → Pumping
  dispatch reports f h w =
      if f.cmd == evt_data
      then on_data f h w
      else if f.cmd == evt_aborted
      then on_aborted reports f h w
      else if f.cmd == evt_job_end
      then on_job_end f h w
      else if f.cmd == evt_page_end
      then on_page_end f h w
      else if f.cmd == evt_settings
      then on_settings f h w
      else on_other f h w

  unfoldable pub pump_frame : Bool → Bool → Handle → Wire → Pumping
  pump_frame probe reports h w =
      let (g, w') = recv_frame env.device timeout_read probe w in
      elim g [
        | ended st ↦ (pumped st, h, w')
        | idle ↦ (record { status = good; idle = true; aborted = none }, h, w')
        | arrived f ↦ dispatch reports f h w'
      ]
