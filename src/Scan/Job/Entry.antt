-- ===== src/Scan/Job/Entry.antt =====
-- sane_pantum_read, sane_pantum_cancel, sane_pantum_get_parameters, sane_pantum_set_io_mode, the part
-- of sane_pantum_open that talks to the device and that of sane_pantum_close, in src/pantum.c. The
-- handle is a valid one and no pointer is null; a max_length below 0 counts as 0.
use pantum_open.Base.{
  ℕ, zero, suc, ◌+◌, ◌-◌, Bool, true, false, not, ◌&&◌, Option, none, some, List, [], length, take,
  drop, ltb, ◌==◌, if◌then◌else◌,
}
use pantum_open.Scan.Status.{Status, good, cancelled, eof, inval}
use pantum_open.Scan.Usb.{Wire, flush_input}
use pantum_open.Scan.Frame.{if_good}
use pantum_open.Scan.Window.{Parameters, compute_parameters}
use pantum_open.Scan.Handle.{Handle}
use pantum_open.Scan.Session.{probe_adf, end_scan}
use pantum_open.Scan.Job.Pump.{Env, pump_frame}
use pantum_open.Scan.Job.Start.{empty_queue, torn_down}

-- The status (none while it still waits), the bytes handed out, the handle and the wire.
abbrev pub Reading : Type 0
Reading = Option Status × List ℕ × Handle × Wire

abbrev pub smaller_len : ℕ → ℕ → ℕ
smaller_len avail max_length = if ltb max_length avail then max_length else avail

-- Behind the loop of sane_pantum_read.
unfoldable pub deliver : ℕ → Handle → Wire → Reading
deliver max_length h w =
    let avail = length h.out.bytes - h.out.pos in
    let n = smaller_len avail max_length in
    if avail == 0 then (some eof, [], h, w) else (
      some good,
      take n (drop h.out.pos h.out.bytes),
      record h { out = record h.out { pos = h.out.pos + n } },
      w,
    )

-- `h->out_pos == h->out_len && !h->eof`
abbrev pub wants_rows : Handle → Bool
wants_rows h = h.out.pos == length h.out.bytes && not h.eof

module _ (env : Env) where
  unfoldable pub read_loop_frames : ℕ → ℕ → Handle → Wire → Reading
  read_loop_frames zero max_length h w =
      if wants_rows h && h.scanning
      then (none, [], h, w)
      else deliver max_length (if wants_rows h then record h { eof = true } else h) w
  read_loop_frames (suc frames) max_length h w =
      let (p, h', w') = pump_frame env h.non_blocking false h w in
      let (h'', w'') = torn_down env h' w' in
      let more = read_loop_frames frames max_length h' w' in
      if wants_rows h && h.scanning
      then if_good p.status (if p.idle then (some good, [], h', w') else more)
          (λ other. (some other, [], h'', w''))
      else deliver max_length (if wants_rows h then record h { eof = true } else h) w

  unfoldable pub sane_read : ℕ → ℕ → Handle → Wire → Reading
  sane_read frames max_length h w =
      let (h', w') = end_scan env.device h w in
      if max_length == 0
      then (some inval, [], h, w)
      else if h.cancelled
      then (some cancelled, [], record h' { out = empty_queue h'.out; eof = true }, w')
      else read_loop_frames frames max_length h w

  unfoldable pub sane_cancel : Handle → Handle
  sane_cancel h = record h { cancelled = true }

  unfoldable pub sane_set_io_mode : Bool → Handle → Handle
  sane_set_io_mode non_blocking h = record h { non_blocking = non_blocking }

  unfoldable pub sane_get_parameters : Handle → Parameters × Handle
  sane_get_parameters h =
      let p = compute_parameters h.settings in
      if not h.scanning && h.out.pos == length h.out.bytes
      then (p, record h { params = p })
      else (h.params, h)

  -- flush_input, probe_adf and compute_parameters on the handle that calloc and init_options made.
  unfoldable pub sane_open : Handle → Wire → Handle × Wire
  sane_open h w =
      let (h', w') = probe_adf env.device h (flush_input env.device w) in
      (record h' { params = compute_parameters h'.settings }, w')

  unfoldable pub sane_close : Handle → Wire → Handle × Wire
  sane_close h w = end_scan env.device h w
