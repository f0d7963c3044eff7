-- ===== src/Scan/Job/Statuses.antt =====
-- No transfer and no frame ends with the status EOF, which sane_pantum_read of src/pantum.c keeps for
-- the end of a page.
use mathlib.Core.Path.{subst}
use pantum_open.Base.{
  ℕ, zero, suc, ◌-◌, ◌≡◌, ap, Bool, true, false, ◌&&◌, List, [], length, ltb, ◌==◌, if◌then◌else◌,
  if-cases,
}
use pantum_open.Wire.{get_be32}
use pantum_open.Scan.Status.{
  Status, good, eof, io_error, no_mem, unsupported, map_status, status_or,
}
use pantum_open.Scan.Usb.{
  Device, Wire, bulk_in, ep_in, is_success, ends_tries, perform, no_reply, try_bulk, read_loop,
  usb_read, drain_chunk, drain_loop, drain_payload, timeout_poll,
}
use pantum_open.Scan.Frame.{
  Got, ended, idle, arrived, if_good-cases, header_len, max_payload, pantum_magic, header_of,
  unpack, recv_rest, recv_frame,
}

abbrev pub NotEof : Status → Type 0
NotEof st = ¬ (st ≡ eof)

pub good-NotEof : NotEof good
good-NotEof e = cc

pub io_error-NotEof : NotEof io_error
io_error-NotEof e = cc

pub no_mem-NotEof : NotEof no_mem
no_mem-NotEof e = cc

pub unsupported-NotEof : NotEof unsupported
unsupported-NotEof e = cc

map_status-NotEof : (n : ℕ) → NotEof (map_status n)
unfolding map_status
map_status-NotEof zero e = cc
map_status-NotEof (suc zero) e = cc
map_status-NotEof (suc (suc zero)) e = cc
map_status-NotEof (suc (suc (suc zero))) e = cc
map_status-NotEof (suc (suc (suc (suc zero)))) e = cc
map_status-NotEof (suc (suc (suc (suc (suc zero))))) e = cc
map_status-NotEof (suc (suc (suc (suc (suc (suc zero)))))) e = cc
map_status-NotEof (suc (suc (suc (suc (suc (suc (suc zero))))))) e = cc
map_status-NotEof (suc (suc (suc (suc (suc (suc (suc (suc zero)))))))) e = cc
map_status-NotEof (suc (suc (suc (suc (suc (suc (suc (suc (suc n))))))))) e = cc

pub status_or-NotEof : (other : Status) (n : ℕ) → NotEof other → NotEof (status_or other n)
unfolding status_or
status_or-NotEof other zero e = e
status_or-NotEof other (suc n) e = map_status-NotEof (suc n)

module _ (device : Device) where
  read_loop-NotEof :
      (fuel left t : ℕ) (got : List ℕ) (w : Wire) → NotEof (read_loop device fuel left t got w).0
  unfolding read_loop
  read_loop-NotEof zero left t got w = good-NotEof
  read_loop-NotEof (suc fuel) left t got w =
      let (r, w') = try_bulk device 3 (bulk_in left t) ep_in (no_reply device) w in
      if-cases (λ (x : Status × List ℕ × Wire). NotEof x.0) (ltb 0 left) _ _
        (λ a.
          if-cases (λ (x : Status × List ℕ × Wire). NotEof x.0)
            (is_success r.rc && ltb 0 (length r.bytes)) _ _ (λ b. read_loop-NotEof fuel _ t _ w')
            (λ b. io_error-NotEof))
        (λ a. good-NotEof)

  pub usb_read-NotEof : (n t : ℕ) (w : Wire) → NotEof (usb_read device n t w).0
  unfolding usb_read
  usb_read-NotEof n t w = read_loop-NotEof n n t [] w

  drain_loop-NotEof : (fuel plen t : ℕ) (w : Wire) → NotEof (drain_loop device fuel plen t w).0
  unfolding drain_loop
  drain_loop-NotEof zero plen t w = good-NotEof
  drain_loop-NotEof (suc fuel) plen t w =
      let chunk = if ltb drain_chunk plen then drain_chunk else plen in
      let r = usb_read device chunk t w in
      if-cases (λ (x : Status × Wire). NotEof x.0) (plen == 0) _ _ (λ a. good-NotEof)
        (λ a. picks r.0 _ r.2 (usb_read-NotEof chunk t w) (drain_loop-NotEof fuel _ t r.2))
    where
      Fine : Status × Wire → Type 0
      Fine x = NotEof x.0

      picks :
          (st : Status) (more : Status × Wire) (w' : Wire)
          → NotEof st
          → NotEof more.0
          → Fine (elim st [ good ↦ more | other ↦ (other, w') ])
      picks good more w' a b = b
      picks unsupported more w' a b = a
      picks _ more w' a b = a

  pub drain_payload-NotEof : (plen t : ℕ) (w : Wire) → NotEof (drain_payload device plen t w).0
  unfolding drain_payload
  drain_payload-NotEof plen t w = drain_loop-NotEof plen plen t w

  -- What recv_frame ends with.
  abbrev pub Proper : Got × Wire → Type 0
  Proper g = (st : Status) → g.0 ≡ ended st → NotEof st

  ended-Proper : (st : Status) (w : Wire) → NotEof st → Proper (ended st, w)
  ended-Proper st w n s e =
      subst NotEof (ap (λ g. elim g [ ended x ↦ x | idle ↦ st | arrived f ↦ st ]) e) n

  unpack-Proper : (buf : List ℕ) (w : Wire) → Proper (unpack buf, w)
  unfolding unpack
  unpack-Proper buf w =
      if-cases (λ g. Proper (g, w)) (get_be32 buf == pantum_magic) _ _
        (λ a.
          if-cases (λ g. Proper (g, w)) (ltb max_payload (header_of buf).plen) _ _
            (λ b. ended-Proper io_error w io_error-NotEof) (λ b st e. cc))
        (λ a. ended-Proper io_error w io_error-NotEof)

  recv_rest-Proper : (t : ℕ) (got : List ℕ) (w : Wire) → Proper (recv_rest device t got w)
  unfolding recv_rest
  recv_rest-Proper t got w =
      let r = usb_read device (header_len - length got) t w in
      if-cases Proper (ltb (length got) header_len) _ _
        (λ a.
          if_good-cases Proper r.0 _ _ (λ g. unpack-Proper _ r.2)
            (λ n. ended-Proper r.0 r.2 (usb_read-NotEof _ t w)))
        (λ a. unpack-Proper got w)

  pub recv_frame-Proper : (t : ℕ) (probe : Bool) (w : Wire) → Proper (recv_frame device t probe w)
  unfolding recv_frame
  recv_frame-Proper t false w = recv_rest-Proper t [] w
  recv_frame-Proper t true w =
      let r = device w (bulk_in header_len timeout_poll) in
      let w' = perform device (bulk_in header_len timeout_poll) w in
      if-cases Proper (ends_tries r.rc) _ _
        (λ a.
          if-cases Proper (length r.bytes == 0) _ _ (λ b st e. cc)
            (λ b. recv_rest-Proper t r.bytes w'))
        (λ a. ended-Proper io_error w' io_error-NotEof)
