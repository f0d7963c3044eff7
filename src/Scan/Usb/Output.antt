-- ===== src/Scan/Usb/Output.antt =====
-- usb_write and drain_payload.
use pantum_open.Base.{
  ℕ, zero, suc, ◌-◌, ◌≤◌, ◌<◌, ◌≡◌, refl, sym, ap, ◌∙◌, Bool, true, false, List, [], ◌∷◌, ◌++◌,
  length, take, drop, ltb, ◌==◌, ◌&&◌, if◌then◌else◌, arith, append-nil, append_assoc,
  length-append, length-drop, take-append-drop, Bool-cases, inl, inr, ◌⊎◌, ==→eq,
}
use pantum_open.Scan.Status.{Status, good, io_error}
use pantum_open.Scan.Usb.Defs.{
  bulk_out, Reply, Wire, Device, IsLibusb, is_success, received, accepted, try_bulk, no_reply,
  ep_out, timeout_write, write_loop, usb_write, usb_read, drain_loop, drain_payload, drain_chunk,
}
use pantum_open.Scan.Usb.Transfers.{WriteTried, try_out}
use pantum_open.Scan.Usb.Loops.{ReadDone, WriteDone, good≢io_error, usb_read-ReadDone}

abbrev chunk_of : ℕ → ℕ
chunk_of plen = if ltb drain_chunk plen then drain_chunk else plen

chunk_of-le : (plen : ℕ) → (chunk_of plen ≤ plen) × (0 < plen → 0 < chunk_of plen)
chunk_of-le plen = ground arith

-- What a drained payload leaves behind.
pub record Drained (plen : ℕ) (w : Wire) (r : Status × Wire) : Type 0 where
  pub outcome : (r.0 ≡ good) ⊎ (r.0 ≡ io_error)
  pub full : r.0 ≡ good → (xs : List ℕ) × (length xs ≡ plen) × (received r.1 ≡ received w ++ xs)
  pub silent : accepted r.1 ≡ accepted w

module _ (device : Device) (lib : IsLibusb device) where
  module _ (xs : List ℕ) (w : Wire) where
    abbrev reply : Reply
    reply = (try_bulk device 3 (bulk_out xs timeout_write) ep_out (no_reply device) w).0

    abbrev behind : Wire
    behind = (try_bulk device 3 (bulk_out xs timeout_write) ep_out (no_reply device) w).1

    abbrev moves : Bool
    moves = is_success reply.rc && ltb 0 reply.count

    tried_out : WriteTried device xs w reply behind
    tried_out = try_out device 3 xs timeout_write ep_out (no_reply device) w lib refl

    moves→ : moves ≡ true → (is_success reply.rc ≡ true) × (0 < reply.count)
    moves→ f = ground arith

    write_fails : WriteDone xs w (io_error, behind)
    write_fails = record {
      outcome = inr refl;
      full = λ h. absurd (good≢io_error (sym h));
      silent = tried_out.silent;
    }

    write_goes_on :
        (r : Status × Wire)
        → moves ≡ true
        → WriteDone (drop reply.count xs) behind r
        → WriteDone xs w r
    write_goes_on r f d = record {
      outcome = d.outcome;
      full = λ h.
          d.full h
          ∙ ap (λ ys. ys ++ drop reply.count xs) (tried_out.moved (moves→ f).0)
          ∙ append_assoc (accepted w) (take reply.count xs) (drop reply.count xs)
          ∙ ap (λ ys. accepted w ++ ys) (take-append-drop reply.count xs);
      silent = d.silent ∙ tried_out.silent;
    }

  nothing_to_write : (w : Wire) → WriteDone [] w (good, w)
  nothing_to_write w = record {
    outcome = inl refl;
    full = λ h. sym (append-nil (accepted w));
    silent = refl;
  }

  write_round :
      (fuel b : ℕ) (bs : List ℕ) (w : Wire) (moved : Bool)
      → moves (b ∷ bs) w ≡ moved
      → write_loop device (suc fuel) (b ∷ bs) w ≡ (
          if moved
          then write_loop device fuel (drop (reply (b ∷ bs) w).count (b ∷ bs)) (behind (b ∷ bs) w)
          else (io_error, behind (b ∷ bs) w))
  unfolding write_loop
  write_round fuel b bs w moved f = λ i.
      if f i
      then write_loop device fuel (drop (reply (b ∷ bs) w).count (b ∷ bs)) (behind (b ∷ bs) w)
      else (io_error, behind (b ∷ bs) w)

  write_loop-WriteDone :
      (fuel : ℕ) (xs : List ℕ) (w : Wire)
      → length xs ≤ fuel
      → WriteDone xs w (write_loop device fuel xs w)
  write_loop-WriteDone zero [] w h = unfold write_loop in nothing_to_write w
  write_loop-WriteDone zero (b ∷ bs) w h = elim h [ ]
  write_loop-WriteDone (suc fuel) [] w h = unfold write_loop in nothing_to_write w
  write_loop-WriteDone (suc fuel) (b ∷ bs) w h = step (Bool-cases (moves (b ∷ bs) w)) (λ p.
      write_loop-WriteDone fuel (drop (reply (b ∷ bs) w).count (b ∷ bs)) (behind (b ∷ bs) w)
        (omega (arith, length-drop (reply (b ∷ bs) w).count (b ∷ bs))))
    where
      step :
          (moves (b ∷ bs) w ≡ true) ⊎ (moves (b ∷ bs) w ≡ false)
          → (0 < (reply (b ∷ bs) w).count
              → WriteDone (drop (reply (b ∷ bs) w).count (b ∷ bs)) (behind (b ∷ bs) w) (
                  write_loop device fuel
                    (drop (reply (b ∷ bs) w).count (b ∷ bs))
                    (behind (b ∷ bs) w)))
          → WriteDone (b ∷ bs) w (write_loop device (suc fuel) (b ∷ bs) w)
      step (inr f) ih = rw (write_round fuel b bs w false f) (write_fails (b ∷ bs) w)
      step (inl f) ih =
          rw (write_round fuel b bs w true f)
            (write_goes_on (b ∷ bs) w _ f (ih (moves→ (b ∷ bs) w f).1))

  -- Over a libusb that never moves more than a buffer holds, usb_write either fails with an I/O
  -- error, or the device has taken every byte of the buffer once and in order; it reads nothing in
  -- either case.
  pub usb_write-WriteDone : (xs : List ℕ) (w : Wire) → WriteDone xs w (usb_write device xs w)
  unfolding usb_write
  usb_write-WriteDone xs w = write_loop-WriteDone (length xs) xs w (omega arith)

  nothing_to_drain : (plen : ℕ) (w : Wire) → plen ≡ 0 → Drained plen w (good, w)
  nothing_to_drain plen w e = record {
    outcome = inl refl;
    full = λ h. ([], sym e, sym (append-nil (received w)));
    silent = refl;
  }

  module _ (fuel plen t : ℕ) (w : Wire) where
    abbrev after : Status × List ℕ × Wire
    after = usb_read device (chunk_of plen) t w

    abbrev rest : Status × Wire
    rest = drain_loop device fuel (plen - chunk_of plen) t after.2

    first : ReadDone (chunk_of plen) [] w after
    first = usb_read-ReadDone device lib (chunk_of plen) t w

    drain_round :
        (empty : Bool) (st : Status)
        → (plen == 0) ≡ empty
        → after.0 ≡ st
        → drain_loop device (suc fuel) plen t w
          ≡ (if empty then (good, w) else elim st [ good ↦ rest | other ↦ (other, after.2) ])
    unfolding drain_loop
    drain_round empty st e f =
        λ i. if e i then (good, w) else elim (f i) [ good ↦ rest | other ↦ (other, after.2) ]

    drain_fails : Drained plen w (io_error, after.2)
    drain_fails = record {
      outcome = inr refl;
      full = λ h. absurd (good≢io_error (sym h));
      silent = first.silent;
    }

    drain_goes_on :
        after.0 ≡ good → Drained (plen - chunk_of plen) after.2 rest → Drained plen w rest
    drain_goes_on f d = record {
      outcome = d.outcome;
      full = λ h.
          let (xs, n, _, k) = first.full f in
          let (ys, m, l) = d.full h in
          (
            xs ++ ys,
            omega (arith, length-append xs ys, n, m, chunk_of-le plen),
            l ∙ ap (λ zs. zs ++ ys) k ∙ append_assoc (received w) xs ys,
          );
      silent = d.silent ∙ first.silent;
    }

  drain_loop-Drained :
      (fuel plen t : ℕ) (w : Wire) → plen ≤ fuel → Drained plen w (drain_loop device fuel plen t w)
  drain_loop-Drained zero plen t w h = unfold drain_loop in nothing_to_drain plen w (omega arith)
  drain_loop-Drained (suc fuel) plen t w h =
      step (Bool-cases (plen == 0)) (first fuel plen t w).outcome (λ p.
        drain_loop-Drained fuel (plen - chunk_of plen) t (after fuel plen t w).2
          (omega (arith, (chunk_of-le plen).1 p)))
    where
      step :
          ((plen == 0) ≡ true) ⊎ ((plen == 0) ≡ false)
          → ((after fuel plen t w).0 ≡ good) ⊎ ((after fuel plen t w).0 ≡ io_error)
          → (0 < plen → Drained (plen - chunk_of plen) (after fuel plen t w).2 (rest fuel plen t w))
          → Drained plen w (drain_loop device (suc fuel) plen t w)
      step (inl e) (inl f) ih =
          rw (drain_round fuel plen t w true good e f) (nothing_to_drain plen w (==→eq plen 0 e))
      step (inl e) (inr f) ih =
          rw (drain_round fuel plen t w true io_error e f)
            (nothing_to_drain plen w (==→eq plen 0 e))
      step (inr e) (inr f) ih =
          rw (drain_round fuel plen t w false io_error e f) (drain_fails fuel plen t w)
      step (inr e) (inl f) ih =
          rw (drain_round fuel plen t w false good e f)
            (drain_goes_on fuel plen t w f (ih (ground arith)))

  -- Over a libusb that never moves more than a buffer holds, drain_payload either fails with an
  -- I/O error, or exactly `plen` bytes have come in; it writes nothing to the device in either
  -- case.
  pub drain_payload-Drained :
      (plen t : ℕ) (w : Wire) → Drained plen w (drain_payload device plen t w)
  unfolding drain_payload
  drain_payload-Drained plen t w = drain_loop-Drained plen plen t w (omega arith)
