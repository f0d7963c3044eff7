-- ===== src/Scan/Usb/Loops.antt =====
-- The loops of usb_read, usb_write and drain_payload move every byte, or report the error.

use pantum_open.Base.{
  ℕ, zero, suc, ◌-◌, ◌≤◌, ◌<◌, ◌≡◌, refl, sym, ap, ◌∙◌, Bool, true, false, List, [], ◌++◌, length,
  ltb, ◌&&◌, if◌then◌else◌, arith, append-nil, append_assoc, length-append, Bool-cases, inl, inr,
  ◌⊎◌, ltb→ge,
}
use pantum_open.Scan.Status.{Status, good, io_error}
use pantum_open.Scan.Usb.Defs.{
  bulk_in, Reply, Wire, Device, IsLibusb, is_success, received, accepted, try_bulk, no_reply, ep_in,
  read_loop, usb_read,
}
use pantum_open.Scan.Usb.Transfers.{ReadTried, try_in}

-- The outcome of reading `left` bytes onto `got`.
pub record ReadDone (left : ℕ) (got : List ℕ) (w : Wire) (r : Status × List ℕ × Wire) : Type 0 where
  pub outcome : (r.0 ≡ good) ⊎ (r.0 ≡ io_error)
  pub full :
      r.0 ≡ good
      → (xs : List ℕ) × (length xs ≡ left) × (r.1 ≡ got ++ xs) × (received r.2 ≡ received w ++ xs)
  pub silent : accepted r.2 ≡ accepted w

pub record WriteDone (xs : List ℕ) (w : Wire) (r : Status × Wire) : Type 0 where
  pub outcome : (r.0 ≡ good) ⊎ (r.0 ≡ io_error)
  pub full : r.0 ≡ good → accepted r.1 ≡ accepted w ++ xs
  pub silent : received r.1 ≡ received w

pub good≢io_error : ¬ (good ≡ io_error)
good≢io_error e = cc

module _ (device : Device) (lib : IsLibusb device) where
  nothing_left :
      (got : List ℕ) (w : Wire) (left : ℕ) → left ≡ 0 → ReadDone left got w (good, got, w)
  nothing_left got w left e = record {
    outcome = inl refl;
    full = λ h. ([], sym e, sym (append-nil got), sym (append-nil (received w)));
    silent = refl;
  }

  module _ (left t : ℕ) (w : Wire) where
    abbrev reply : Reply
    reply = (try_bulk device 3 (bulk_in left t) ep_in (no_reply device) w).0

    abbrev behind : Wire
    behind = (try_bulk device 3 (bulk_in left t) ep_in (no_reply device) w).1

    abbrev moves : Bool
    moves = is_success reply.rc && ltb 0 (length reply.bytes)

    tried_in : ReadTried device left w reply behind
    tried_in = try_in device 3 left t ep_in (no_reply device) w lib refl

    -- One round of the loop, by its two tests.
    read_round :
        (fuel : ℕ) (got : List ℕ) (more_left moved : Bool)
        → ltb 0 left ≡ more_left
        → moves ≡ moved
        → read_loop device (suc fuel) left t got w ≡ (
            if more_left
            then (if moved
                then read_loop device fuel (left - length reply.bytes) t (got ++ reply.bytes) behind
                else (io_error, got, behind))
            else (good, got, w))
    unfolding read_loop
    read_round fuel got more_left moved e f = λ i.
        if e i
        then (if f i
            then read_loop device fuel (left - length reply.bytes) t (got ++ reply.bytes) behind
            else (io_error, got, behind))
        else (good, got, w)

    moves→ : moves ≡ true → (is_success reply.rc ≡ true) × (0 < length reply.bytes)
    moves→ f = ground arith

    read_fails : (got : List ℕ) → ReadDone left got w (io_error, got, behind)
    read_fails got = record {
      outcome = inr refl;
      full = λ h. absurd (good≢io_error (sym h));
      silent = tried_in.silent;
    }

    read_goes_on :
        (got : List ℕ) (r : Status × List ℕ × Wire)
        → moves ≡ true
        → ReadDone (left - length reply.bytes) (got ++ reply.bytes) behind r
        → ReadDone left got w r
    read_goes_on got r f d = record {
      outcome = d.outcome;
      full = λ h.
          let (xs, n, e, k) = d.full h in
          (
            reply.bytes ++ xs,
            omega (arith, length-append reply.bytes xs, n, tried_in.bounded (moves→ f).0),
            e ∙ append_assoc got reply.bytes xs,
            k
                ∙ ap (λ ys. ys ++ xs) (tried_in.moved (moves→ f).0)
                ∙ append_assoc (received w) reply.bytes xs,
          );
      silent = d.silent ∙ tried_in.silent;
    }

  read_loop-ReadDone :
      (fuel left t : ℕ) (got : List ℕ) (w : Wire)
      → left ≤ fuel
      → ReadDone left got w (read_loop device fuel left t got w)
  read_loop-ReadDone zero left t got w h = unfold read_loop in nothing_left got w left (omega arith)
  read_loop-ReadDone (suc fuel) left t got w h =
      step (Bool-cases (ltb 0 left)) (Bool-cases (moves left t w)) (λ p.
        read_loop-ReadDone fuel (left - length (reply left t w).bytes) t
          (got ++ (reply left t w).bytes) (behind left t w) (omega arith))
    where
      step :
          (ltb 0 left ≡ true) ⊎ (ltb 0 left ≡ false)
          → (moves left t w ≡ true) ⊎ (moves left t w ≡ false)
          → (0 < length (reply left t w).bytes
              → ReadDone
                  (left - length (reply left t w).bytes)
                  (got ++ (reply left t w).bytes)
                  (behind left t w)
                  (read_loop device fuel
                    (left - length (reply left t w).bytes)
                    t
                    (got ++ (reply left t w).bytes)
                    (behind left t w)))
          → ReadDone left got w (read_loop device (suc fuel) left t got w)
      step (inr e) (inl f) ih =
          rw (read_round left t w fuel got false true e f)
            (nothing_left got w left (omega (arith, ltb→ge 0 left e)))
      step (inr e) (inr f) ih =
          rw (read_round left t w fuel got false false e f)
            (nothing_left got w left (omega (arith, ltb→ge 0 left e)))
      step (inl e) (inr f) ih =
          rw (read_round left t w fuel got true false e f) (read_fails left t w got)
      step (inl e) (inl f) ih =
          rw (read_round left t w fuel got true true e f)
            (read_goes_on left t w got _ f (ih (moves→ left t w f).1))

  -- Over a libusb that never moves more than a buffer holds, usb_read either fails with an I/O
  -- error, or has stored exactly `len` bytes, which are the next `len` bytes that came in; it
  -- writes nothing to the device in either case.
  pub usb_read-ReadDone : (len t : ℕ) (w : Wire) → ReadDone len [] w (usb_read device len t w)
  unfolding usb_read
  usb_read-ReadDone len t w = read_loop-ReadDone len len t [] w (omega arith)
