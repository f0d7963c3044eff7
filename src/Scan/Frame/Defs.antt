-- ===== src/Scan/Frame/Defs.antt =====
-- send_frame, recv_frame and command of src/pantum.c, over the transfers of Scan/Usb.
use pantum_open.Base.{
  ℕ, zero, suc, ◌-◌, ◌*◌, Bool, true, false, List, [], ◌++◌, length, drop, replicate, ltb, ◌==◌,
  if◌then◌else◌, Option, none, some,
}
use pantum_open.Wire.{put_be32, get_be32}
use pantum_open.Scan.Status.{Status, good, inval, io_error, status_or}
use pantum_open.Scan.Usb.{
  Device, Wire, bulk_in, ends_tries, perform, usb_write, usb_read, drain_payload, timeout_read,
  timeout_teardown, timeout_poll,
}

abbrev pub header_len : ℕ
header_len = 32

abbrev pub settings_len : ℕ
settings_len = 100

abbrev pub pantum_magic : ℕ
pantum_magic = 0x41535001

abbrev pub max_payload : ℕ
max_payload = 64 * 1024 * 1024

abbrev pub command_max_skip : ℕ
command_max_skip = 4

-- Pantum_Frame.
pub record Frame : Type 0 where
  pub cmd : ℕ
  pub arg0 : ℕ
  pub status : ℕ
  pub plen : ℕ

-- What recv_frame hands back: an error, an empty endpoint (only when it probes) or a frame.
pub data Got : Type 0 where
  ended : Status → Got
  idle : Got
  arrived : Frame → Got

-- `st != SANE_STATUS_GOOD` and its early return.
unfoldable pub if_good {ℓ} : {A : Type ℓ} → Status → A → (Status → A) → A
if_good good next stop = next
if_good st next stop = stop st

-- The buffer that send_frame fills: zeros but for the magic, the command and the length.
unfoldable pub frame_bytes : ℕ → List ℕ → List ℕ
frame_bytes cmd payload =
    put_be32 pantum_magic
    ++ (put_be32 cmd
        ++ (replicate 12 0 ++ (put_be32 (length payload) ++ (replicate 8 0 ++ payload))))

abbrev pub header_of : List ℕ → Frame
header_of buf = record {
  cmd = get_be32 (drop 4 buf);
  arg0 = get_be32 (drop 8 buf);
  status = get_be32 (drop 16 buf);
  plen = get_be32 (drop 20 buf);
}

-- The checks of recv_frame on a header that has arrived.
unfoldable pub unpack : List ℕ → Got
unpack buf =
    if get_be32 buf == pantum_magic
    then (if ltb max_payload (header_of buf).plen then ended io_error else arrived (header_of buf))
    else ended io_error

-- What a command leaves: its status, the reply buffer and `*ack`, which is written only at the end.
pub record Answer : Type 0 where
  pub result : Status
  pub reply : List ℕ
  pub ack : Option Frame

-- An early return, with what is in the reply buffer by then, and the return at the end.
abbrev pub torn : List ℕ → Status → Answer
torn got st = record { result = st; reply = got; ack = none }

abbrev pub acked : List ℕ → Frame → Answer
acked got f = record { result = status_or good f.status; reply = got; ack = some f }

module _ (device : Device) where
  unfoldable pub send_frame : ℕ → List ℕ → Wire → Status × Wire
  send_frame cmd payload w =
      if ltb settings_len (length payload)
      then (inval, w)
      else usb_write device (frame_bytes cmd payload) w

  -- The part behind the first glance: the rest of the header, where `got` is not all of it.
  unfoldable pub recv_rest : ℕ → List ℕ → Wire → Got × Wire
  recv_rest timeout_ms got w =
      let (st, more, w') = usb_read device (header_len - length got) timeout_ms w in
      if ltb (length got) header_len
      then if_good st (unpack (got ++ more), w') (λ other. (ended other, w'))
      else (unpack got, w)

  unfoldable pub recv_frame : ℕ → Bool → Wire → Got × Wire
  recv_frame timeout_ms false w = recv_rest timeout_ms [] w
  recv_frame timeout_ms true w =
      let r = device w (bulk_in header_len timeout_poll) in
      let w' = perform device (bulk_in header_len timeout_poll) w in
      if ends_tries r.rc
      then (if length r.bytes == 0 then (idle, w') else recv_rest timeout_ms r.bytes w')
      else (ended io_error, w')

  -- The loop of command over the frames that come in; the first argument counts the frames that may
  -- still be stepped over, and the whole scan timeout holds for the first one only.
  unfoldable pub await_ack : ℕ → ℕ → ℕ → Wire → Got × Wire
  await_ack zero cmd timeout_ms w = (ended io_error, w)
  await_ack (suc skips) cmd timeout_ms w =
      let (g, w') = recv_frame timeout_ms false w in
      elim g [
        | ended st ↦ (ended st, w')
        | idle ↦ (idle, w')
        | arrived f ↦
            let (st, w'') = drain_payload device f.plen timeout_teardown w' in
            let more = await_ack skips cmd timeout_teardown w'' in
            if f.cmd == cmd then (arrived f, w') else if_good st more (λ other. (ended other, w''))
      ]

  -- The payload of the acknowledgement, and the status that it carries.
  unfoldable pub collect_reply : Option ℕ → Frame → Wire → Answer × Wire
  collect_reply none f w =
      let (st, w') = drain_payload device f.plen timeout_read w in
      if f.plen == 0
      then (acked [] f, w)
      else if_good st (acked [] f, w') (λ other. (torn [] other, w'))
  collect_reply (some reply_len) f w =
      let (st, got, w') = usb_read device reply_len timeout_read w in
      let (_, w'') = drain_payload device f.plen timeout_read w in
      if f.plen == 0
      then (torn [] io_error, w)
      else (if f.plen == reply_len
          then if_good st (acked got f, w') (λ other. (torn got other, w'))
          else (torn [] io_error, w''))

  -- `reply` and `reply_len` of the source are the optional length; without a probe recv_frame is
  -- never idle.
  unfoldable pub command : ℕ → List ℕ → Option ℕ → Wire → Answer × Wire
  command cmd payload want w =
      let (st, w1) = send_frame cmd payload w in
      let (g, w2) = await_ack command_max_skip cmd timeout_read w1 in
      if_good st
        (elim g [
          | ended other ↦ (torn [] other, w2)
          | idle ↦ (torn [] io_error, w2)
          | arrived f ↦ collect_reply want f w2
        ])
        (λ other. (torn [] other, w1))
