-- ===== src/Scan/Usb/Defs.antt =====
-- The bulk transfers of src/pantum.c.
use pantum_open.Base.{
  ℕ, zero, suc, ◌-◌, Bool, true, false, List, [], ◌∷◌, ◌++◌, length, take, drop, ltb, ◌==◌, ◌&&◌,
  ◌≤◌, if◌then◌else◌,
}
use pantum_open.Scan.Status.{Status, good, io_error}

-- libusb's result codes, as far as the backend tells them apart.
pub data Rc : Type 0 where
  success timeout : Rc
  failure : ℕ → Rc

abbrev pub ep_out : ℕ
ep_out = 0x02

abbrev pub ep_in : ℕ
ep_in = 0x82

abbrev pub timeout_write : ℕ
timeout_write = 10000

abbrev pub timeout_read : ℕ
timeout_read = 180000

abbrev pub timeout_teardown : ℕ
timeout_teardown = 5000

abbrev pub timeout_poll : ℕ
timeout_poll = 20

-- `sizeof (scratch)` and the timeout of flush_input
abbrev pub flush_size : ℕ
flush_size = 4096

abbrev pub timeout_flush : ℕ
timeout_flush = 200

-- `sizeof (scratch)` of drain_payload
abbrev pub drain_chunk : ℕ
drain_chunk = 512

-- libusb_bulk_transfer out and in, and libusb_clear_halt.
pub data Request : Type 0 where
  bulk_out : List ℕ → ℕ → Request
  bulk_in : ℕ → ℕ → Request
  clear_halt : ℕ → Request

-- `count` is what a transfer out reports as transferred; a transfer in reports the length of `bytes`.
pub record Reply : Type 0 where
  pub rc : Rc
  pub count : ℕ
  pub bytes : List ℕ

pub record Event : Type 0 where
  pub request : Request
  pub reply : Reply

-- Everything that went over the wire, the last event first.
abbrev pub Wire : Type 0
Wire = List Event

abbrev pub Device : Type 0
Device = Wire → Request → Reply

-- libusb never reports more than the buffer holds.
abbrev pub IsLibusb : Device → Type 0
IsLibusb device =
    ((w : Wire) (n t : ℕ) → length (device w (bulk_in n t)).bytes ≤ n)
    × ((w : Wire) (xs : List ℕ) (t : ℕ) → (device w (bulk_out xs t)).count ≤ length xs)

abbrev pub is_success : Rc → Bool
is_success success = true
is_success timeout = false
is_success (failure n) = false

-- `rc == LIBUSB_SUCCESS || rc == LIBUSB_ERROR_TIMEOUT`
abbrev pub ends_tries : Rc → Bool
ends_tries success = true
ends_tries timeout = true
ends_tries (failure n) = false

-- The bytes that came in by a successful transfer, and those that went out by one, in order.
unfoldable pub bytes_in : Event → List ℕ
bytes_in e = elim e.request [
  | bulk_in n t ↦ if is_success e.reply.rc then e.reply.bytes else []
  | bulk_out xs t ↦ []
  | clear_halt ep ↦ []
]

unfoldable pub bytes_out : Event → List ℕ
bytes_out e = elim e.request [
  | bulk_out xs t ↦ if is_success e.reply.rc then take e.reply.count xs else []
  | bulk_in n t ↦ []
  | clear_halt ep ↦ []
]

unfoldable pub received : Wire → List ℕ
received [] = []
received (e ∷ w) = received w ++ bytes_in e

unfoldable pub accepted : Wire → List ℕ
accepted [] = []
accepted (e ∷ w) = accepted w ++ bytes_out e

module _ (device : Device) where
  abbrev pub perform : Request → Wire → Wire
  perform q w = record { request = q; reply = device w q } ∷ w

  -- `for (tries = 0; tries < 3; tries++)`: a transfer, repeated after a cleared halt where it failed
  -- otherwise than by a timeout. `last` is the reply of the attempt before.
  unfoldable pub try_bulk : ℕ → Request → ℕ → Reply → Wire → Reply × Wire
  try_bulk zero q ep last w = (last, w)
  try_bulk (suc tries) q ep last w =
      let r = device w q in
      let again = try_bulk tries q ep r (perform (clear_halt ep) (perform q w)) in
      if ends_tries r.rc then (r, perform q w) else again

  abbrev pub no_reply : Reply
  no_reply = record { rc = failure 99; count = 0; bytes = [] }

  -- `while (done < len)`: every round that goes on moves a byte at least, so as many rounds as bytes
  -- are enough. The first argument bounds the rounds; the list is what is still to be written.
  unfoldable pub write_loop : ℕ → List ℕ → Wire → Status × Wire
  write_loop zero rest w = (good, w)
  write_loop (suc fuel) [] w = (good, w)
  write_loop (suc fuel) (b ∷ bs) w =
      let (r, w') = try_bulk 3 (bulk_out (b ∷ bs) timeout_write) ep_out no_reply w in
      let more = write_loop fuel (drop r.count (b ∷ bs)) w' in
      if is_success r.rc && ltb 0 r.count then more else (io_error, w')

  unfoldable pub usb_write : List ℕ → Wire → Status × Wire
  usb_write buf w = write_loop (length buf) buf w

  -- The same for a read of `left` bytes; the second result is what has been stored in the buffer.
  unfoldable pub read_loop : ℕ → ℕ → ℕ → List ℕ → Wire → Status × List ℕ × Wire
  read_loop zero left timeout_ms got w = (good, got, w)
  read_loop (suc fuel) left timeout_ms got w =
      let (r, w') = try_bulk 3 (bulk_in left timeout_ms) ep_in no_reply w in
      let more = read_loop fuel (left - length r.bytes) timeout_ms (got ++ r.bytes) w' in
      if ltb 0 left
      then (if is_success r.rc && ltb 0 (length r.bytes) then more else (io_error, got, w'))
      else (good, got, w)

  unfoldable pub usb_read : ℕ → ℕ → Wire → Status × List ℕ × Wire
  usb_read len timeout_ms w = read_loop len len timeout_ms [] w

  -- `while (plen)`: 512 bytes at a time, and the first read that fails ends it.
  unfoldable pub drain_loop : ℕ → ℕ → ℕ → Wire → Status × Wire
  drain_loop zero plen timeout_ms w = (good, w)
  drain_loop (suc fuel) plen timeout_ms w =
      let chunk = if ltb drain_chunk plen then drain_chunk else plen in
      let (st, got, w') = usb_read chunk timeout_ms w in
      let more = drain_loop fuel (plen - chunk) timeout_ms w' in
      if plen == 0 then (good, w) else elim st [ good ↦ more | other ↦ (other, w') ]

  unfoldable pub drain_payload : ℕ → ℕ → Wire → Status × Wire
  drain_payload plen timeout_ms w = drain_loop plen plen timeout_ms w

  -- `for (i = 0; i < 4096; i++)`, with `left` to go: whatever is queued is read and thrown away.
  unfoldable pub flush_loop : ℕ → Wire → Wire
  flush_loop zero w = w
  flush_loop (suc left) w =
      let r = device w (bulk_in flush_size timeout_flush) in
      let w' = perform (bulk_in flush_size timeout_flush) w in
      let more = flush_loop left w' in
      if is_success r.rc && ltb 0 (length r.bytes) then more else w'

  unfoldable pub flush_input : Wire → Wire
  flush_input w = flush_loop 4096 w
