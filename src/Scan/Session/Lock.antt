-- ===== src/Scan/Session/Lock.antt =====
-- unlock_device, lock_device, check_adf, probe_adf, setup_job and end_scan of src/pantum.c. Between
-- two tries to lock sleep_ms only waits.
use pantum_open.Base.{
  ℕ, zero, suc, Bool, true, false, ◌&&◌, ◌||◌, Option, none, some, [], ◌==◌, if◌then◌else◌,
}
use pantum_open.Scan.Status.{Status, good, device_busy, io_error}
use pantum_open.Scan.Usb.{Device, Wire, drain_payload, timeout_read, timeout_teardown}
use pantum_open.Scan.Frame.{
  Frame, ended, idle, arrived, if_good, settings_len, send_frame, recv_frame, command,
}
use pantum_open.Scan.Handle.{Handle}
use pantum_open.Scan.Session.Settings.{job_settings}

abbrev pub cmd_lock : ℕ
cmd_lock = 0x00

abbrev pub cmd_unlock : ℕ
cmd_unlock = 0x01

abbrev pub cmd_start : ℕ
cmd_start = 0x02

abbrev pub cmd_abort : ℕ
cmd_abort = 0x03

abbrev pub cmd_get_settings : ℕ
cmd_get_settings = 0x06

abbrev pub cmd_set_settings : ℕ
cmd_set_settings = 0x07

abbrev pub cmd_set_defaults : ℕ
cmd_set_defaults = 0x08

abbrev pub cmd_adf_status : ℕ
cmd_adf_status = 0x0f

abbrev pub evt_aborted : ℕ
evt_aborted = 0x04

abbrev pub evt_job_end : ℕ
evt_job_end = 0x0c

-- `ack.status == 2`, where the frame of a command that failed is all zeros.
abbrev pub says_busy : Option Frame → Bool
says_busy none = false
says_busy (some f) = f.status == 2

-- What check_adf answers.
pub record Feeder : Type 0 where
  pub present : Bool
  pub loaded : Bool

abbrev pub no_feeder : Feeder
no_feeder = record { present = false; loaded = false }

module _ (device : Device) where
  -- A frame that is read and thrown away, errors and all.
  unfoldable pub swallow_frame : Wire → Wire
  swallow_frame w =
      let (g, w') = recv_frame device timeout_teardown false w in
      elim g [
        | ended st ↦ w'
        | idle ↦ w'
        | arrived f ↦ (drain_payload device f.plen timeout_teardown w').1
      ]

  unfoldable pub unlock_device : Handle → Wire → Handle × Wire
  unlock_device h w =
      let (st, w') = send_frame device cmd_unlock [] w in
      if h.locked
      then (
        record h { feeding = false; locked = false },
        if_good st (swallow_frame w') (λ other. w'),
      )
      else (record h { feeding = false }, w)

  -- A result behind an unlock.
  abbrev pub unlocked : Status → Handle → Wire → Status × Handle × Wire
  unlocked st h w = let (h', w') = unlock_device h w in (st, h', w')

  -- `for (tries = 0; tries < 5; tries++)`, with `tries` to go.
  unfoldable pub lock_loop : ℕ → Handle → Wire → Status × Handle × Wire
  lock_loop zero h w = unlocked device_busy h w
  lock_loop (suc tries) h w =
      let h' = record h { locked = true } in
      let (a, w') = command device cmd_lock [] none w in
      let again = lock_loop tries h' w' in
      if_good a.result (good, h', w') (λ st. if says_busy a.ack then again else unlocked st h' w')

  unfoldable pub lock_device : Handle → Wire → Status × Handle × Wire
  lock_device h w = lock_loop 5 h w

  unfoldable pub check_adf : Wire → Status × Feeder × Wire
  check_adf w =
      let (st, w1) = send_frame device cmd_adf_status [] w in
      let (g, w2) = recv_frame device timeout_read false w1 in
      if_good st
        (elim g [
          | ended other ↦ (other, no_feeder, w2)
          | idle ↦ (io_error, no_feeder, w2)
          | arrived f ↦
              let w3 =
                if f.plen == 0 then w2 else (drain_payload device f.plen timeout_read w2).1 in
              if f.cmd == cmd_adf_status
              then (
                good,
                record { present = f.status == 0; loaded = f.status == 0 && f.arg0 == 1 },
                w3,
              )
              else (io_error, no_feeder, w3)
        ])
        (λ other. (other, no_feeder, w1))

  unfoldable pub probe_adf : Handle → Wire → Handle × Wire
  probe_adf h w =
      let h1 = record h { has_adf = false; locked = true } in
      let (a, w1) = command device cmd_lock [] none w in
      let (st, feeder, w2) = check_adf w1 in
      if_good a.result
        (unlock_device (if_good st (record h1 { has_adf = feeder.present }) (λ other. h1)) w2)
        (λ other. unlock_device h1 w1)

  unfoldable pub setup_job : Handle → Wire → Status × Wire
  setup_job h w =
      let (a, w1) = command device cmd_set_defaults [] none w in
      let (b, w2) = command device cmd_get_settings [] (some settings_len) w1 in
      let (c, w3) = command device cmd_set_settings (job_settings h.settings b.reply) none w2 in
      let (d, w4) = command device cmd_start [] none w3 in
      if_good a.result
        (if_good b.result (if_good c.result (d.result, w4) (λ other. (other, w3)))
          (λ other. (other, w2)))
        (λ other. (other, w1))

  abbrev pub ends_job : Frame → Bool
  ends_job f = f.cmd == evt_job_end || f.cmd == evt_aborted

  -- `for (frames = 0; frames < 4096; frames++)`, with `left` to go.
  unfoldable pub swallow_job : ℕ → Wire → Wire
  swallow_job zero w = w
  swallow_job (suc left) w =
      let (g, w') = recv_frame device timeout_teardown false w in
      elim g [
        | ended st ↦ w'
        | idle ↦ w'
        | arrived f ↦
            let (st, w'') = drain_payload device f.plen timeout_teardown w' in
            let more = swallow_job left w'' in
            if_good st (if ends_job f then w'' else more) (λ other. w'')
      ]

  unfoldable pub end_scan : Handle → Wire → Handle × Wire
  end_scan h w =
      let (st, w') = send_frame device cmd_abort [] w in
      if h.scanning
      then unlock_device (record h { scanning = false }) (swallow_job 4096 w')
      else unlock_device h w
