-- ===== src/Scan/Job/Ends.antt =====
-- No frame that pump_frame of src/pantum.c deals with ends with the status EOF.

use pantum_open.Base.{
  ℕ, zero, suc, ◌/◌, ◌+◌, ◌*◌, ◌^◌, ◌%◌, ◌≡◌, refl, Bool, true, not, ◌||◌, ◌&&◌, none, List, drop,
  ltb, leb, ◌==◌, if◌then◌else◌, if-cases,
}
use pantum_open.Wire.{get_be32}
use pantum_open.Scan.Status.{Status, good, io_error}
use pantum_open.Scan.Usb.{Wire, timeout_read}
use pantum_open.Scan.Frame.{
  Frame, Got, ended, idle, arrived, if_good-cases, settings_len, recv_frame,
}
use pantum_open.Scan.Window.{source_is_adf}
use pantum_open.Scan.Handle.{OutQueue, Handle}
use pantum_open.Scan.Image.{
  is_rgb, data_header_len, data_jpeg, rewind, compact, grow_out, out_fuel, need_for, regrow,
  out_reserve, white_row, white_rows, emit_white_rows, place_row, place_rows, store_rows, read_rows,
  check_block, handle_data_block,
}
use pantum_open.Scan.Session.{evt_aborted, evt_job_end}
use pantum_open.Scan.Job.Pump.{
  Env, Pumping, pumped, evt_data, evt_settings, evt_page_end, log_settings_echo, on_aborted,
  on_job_end, on_page_end, on_data, on_settings, on_other, dispatch, pump_frame,
}
use pantum_open.Scan.Job.Statuses.{
  NotEof, good-NotEof, io_error-NotEof, no_mem-NotEof, unsupported-NotEof, status_or-NotEof,
  usb_read-NotEof, drain_payload-NotEof, recv_frame-Proper,
}

record Well {A : Type 0} (r : Status × A) : Type 0 where
  ok : NotEof r.0

record WellWire (r : Status × Handle × Wire) : Type 0 where
  ok : NotEof r.0

well_wire : {st : Status} {h : Handle} {w : Wire} → NotEof st → WellWire (st, h, w)
well_wire n = record { ok = n }

well : {A : Type 0} {st : Status} {a : A} → NotEof st → Well (st, a)
well n = record { ok = n }

module _ (env : Env) where
  regrow-NotEof : (extra : ℕ) (q : OutQueue) → Well (regrow env.can_alloc extra q)
  unfolding regrow
  regrow-NotEof extra q =
      if-cases Well (env.can_alloc (grow_out out_fuel q.capacity (need_for q extra))) _ _
        (λ a. well good-NotEof) (λ a. well no_mem-NotEof)

  out_reserve-Well : (extra : ℕ) (q : OutQueue) → Well (out_reserve env.can_alloc extra q)
  unfolding out_reserve
  out_reserve-Well extra q =
      let q1 : OutQueue = rewind q in
      let q2 : OutQueue = compact q1 in
      if-cases Well (leb (need_for q1 extra) q1.capacity) _ _ (λ a. well good-NotEof)
        (λ a.
          if-cases Well (q1.pos == 0) _ _ (λ b. regrow-NotEof extra _)
            (λ b.
              if-cases Well (leb (need_for q2 extra) q2.capacity) _ _ (λ c. well good-NotEof)
                (λ c. regrow-NotEof extra _)))

  out_reserve-NotEof : (extra : ℕ) (q : OutQueue) → NotEof (out_reserve env.can_alloc extra q).0
  out_reserve-NotEof extra q = (out_reserve-Well extra q).ok

  white_row-NotEof : (h : Handle) → Well (white_row env.can_alloc env.garbage env.dither_mask h)
  unfolding white_row
  white_row-NotEof h =
      if_good-cases Well _ _ _ (λ g. well good-NotEof)
        (λ n. well (out_reserve-NotEof h.params.bytes_per_line h.out))

  white_rows-NotEof :
      (fuel upto : ℕ) (h : Handle)
      → Well (white_rows env.can_alloc env.garbage env.dither_mask fuel upto h)
  unfolding white_rows
  white_rows-NotEof zero upto h = well good-NotEof
  white_rows-NotEof (suc fuel) upto h =
      if-cases Well (ltb h.next_row upto && ltb h.next_row h.params.lines) _ _
        (λ a.
          if_good-cases Well _ _ _ (λ g. white_rows-NotEof fuel upto _)
            (λ n. well (white_row-NotEof h).ok))
        (λ a. well good-NotEof)

  emit_white_rows-NotEof :
      (upto : ℕ) (h : Handle)
      → Well (emit_white_rows env.can_alloc env.garbage env.dither_mask upto h)
  unfolding emit_white_rows
  emit_white_rows-NotEof upto h = white_rows-NotEof upto upto h

  place_row-NotEof :
      (first : ℕ) (src : List ℕ) (avail row : ℕ) (h : Handle)
      → Well (place_row env.can_alloc env.garbage env.dither_mask first src avail row h)
  unfolding place_row
  place_row-NotEof first src avail row h =
      if-cases Well (ltb row first || ltb row h.next_row || leb h.params.lines row) _ _
        (λ a. well good-NotEof)
        (λ a.
          if_good-cases Well _ _ _ (λ g. well good-NotEof)
            (λ n. well (out_reserve-NotEof h.params.bytes_per_line h.out)))

  place_rows-NotEof :
      (left first stride : ℕ) (raw : List ℕ) (avail i : ℕ) (h : Handle)
      → Well (place_rows env.can_alloc env.garbage env.dither_mask left first stride raw avail i h)
  unfolding place_rows
  place_rows-NotEof zero first stride raw avail i h = well good-NotEof
  place_rows-NotEof (suc left) first stride raw avail i h =
      if_good-cases Well _ _ _ (λ g. place_rows-NotEof left first stride raw avail (i + 1) _)
        (λ n.
          well (place_row-NotEof first (drop (i * stride) raw) avail ((first + i) % 2 ^ 32) h).ok)

  store_rows-NotEof :
      (first rows stride : ℕ) (raw : List ℕ) (avail : ℕ) (h : Handle)
      → Well (store_rows env.can_alloc env.garbage env.dither_mask first rows stride raw avail h)
  unfolding store_rows
  store_rows-NotEof first rows stride raw avail h =
      if_good-cases Well _ _ _ (λ g. place_rows-NotEof rows first stride raw avail 0 _)
        (λ n. well (emit_white_rows-NotEof _ h).ok)

  read_rows-NotEof :
      (first rows avail body : ℕ) (h : Handle) (w : Wire)
      → WellWire
          (read_rows env.can_alloc env.garbage env.dither_mask env.device first rows avail body h w)
  unfolding read_rows
  read_rows-NotEof first rows avail body h w =
      if-cases WellWire (ltb h.raw_cap body && not (env.can_alloc body)) _ _
        (λ a. well_wire no_mem-NotEof)
        (λ a.
          if_good-cases WellWire _ _ _
            (λ g. well_wire (store_rows-NotEof first rows (body / rows) _ avail _).ok)
            (λ n. well_wire (usb_read-NotEof env.device body timeout_read w)))

  check_block-NotEof :
      (head : List ℕ) (body : ℕ) (h : Handle) (w : Wire)
      → WellWire (check_block env.can_alloc env.garbage env.dither_mask env.device head body h w)
  unfolding check_block
  check_block-NotEof head body h w =
      let rows : ℕ = get_be32 (drop 8 head) in
      let planes : ℕ = get_be32 (drop 12 head) in
      let want_planes : ℕ = if is_rgb h.params.format then 3 else 1 in
      if-cases WellWire (get_be32 head == data_jpeg) _ _ (λ a. well_wire unsupported-NotEof)
        (λ a.
          if-cases WellWire (rows == 0 || planes == 0 || ltb (body / rows) planes) _ _
            (λ b. well_wire io_error-NotEof)
            (λ b.
              if-cases WellWire (not (planes == want_planes)) _ _ (λ c. well_wire io_error-NotEof)
                (λ c. read_rows-NotEof _ _ _ body h w)))

  handle_data_block-NotEof :
      (plen : ℕ) (h : Handle) (w : Wire)
      → WellWire (handle_data_block env.can_alloc env.garbage env.dither_mask env.device plen h w)
  unfolding handle_data_block
  handle_data_block-NotEof plen h w =
      if-cases WellWire (ltb plen data_header_len) _ _ (λ a. well_wire io_error-NotEof)
        (λ a.
          if_good-cases WellWire _ _ _ (λ g. check_block-NotEof _ _ h _)
            (λ n. well_wire (usb_read-NotEof env.device data_header_len timeout_read w)))

  log_settings_echo-NotEof : (plen : ℕ) (w : Wire) → Well (log_settings_echo env plen w)
  unfolding log_settings_echo
  log_settings_echo-NotEof plen w =
      if-cases Well (not (plen == settings_len) || ltb env.dbg_level 2) _ _
        (λ a. well (drain_payload-NotEof env.device plen timeout_read w))
        (λ a. if_good-cases Well _ _ _ (λ g. well good-NotEof) (λ n. well io_error-NotEof))

  abbrev Plain : Pumping → Type 0
  Plain r = NotEof r.0.status

  dispatch-NotEof :
      (reports : Bool) (f : Frame) (h : Handle) (w : Wire) → Plain (dispatch env reports f h w)
  unfolding dispatch on_data on_aborted on_job_end on_page_end on_settings on_other
  dispatch-NotEof reports f h w =
      if-cases Plain (f.cmd == evt_data) _ _ (λ a. (handle_data_block-NotEof f.plen h w).ok)
        (λ a.
          if-cases Plain (f.cmd == evt_aborted) _ _
            (λ b.
              if-cases Plain reports _ _ (λ c. good-NotEof)
                (λ c. status_or-NotEof io_error f.status io_error-NotEof))
            (λ b.
              if-cases Plain (f.cmd == evt_job_end) _ _
                (λ c. (emit_white_rows-NotEof h.params.lines h).ok)
                (λ c.
                  if-cases Plain (f.cmd == evt_page_end) _ _
                    (λ d.
                      if-cases Plain (source_is_adf h.settings) _ _
                        (λ e. (emit_white_rows-NotEof h.params.lines h).ok) (λ e. good-NotEof))
                    (λ d.
                      if-cases Plain (f.cmd == evt_settings) _ _
                        (λ e. (log_settings_echo-NotEof f.plen w).ok)
                        (λ e. drain_payload-NotEof env.device f.plen timeout_read w)))))

  pub pump_frame-NotEof :
      (probe reports : Bool) (h : Handle) (w : Wire) → Plain (pump_frame env probe reports h w)
  unfolding pump_frame
  pump_frame-NotEof probe reports h w =
      step g.0 (λ st e. recv_frame-Proper env.device timeout_read probe w st e)
    where
      g : Got × Wire
      g = recv_frame env.device timeout_read probe w

      step :
          (got : Got)
          → ((st : Status) → got ≡ ended st → NotEof st)
          → Plain (elim got [
            | ended st ↦ (pumped st, h, g.1)
            | idle ↦ (record { status = good; idle = true; aborted = none }, h, g.1)
            | arrived f ↦ dispatch env reports f h g.1
          ])
      step (ended st) n = n st refl
      step idle n = good-NotEof
      step (arrived f) n = dispatch-NotEof reports f h g.1
