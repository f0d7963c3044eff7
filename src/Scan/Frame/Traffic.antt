-- ===== src/Scan/Frame/Traffic.antt =====
-- What send_frame puts on the wire, and what recv_frame and the loop of command take from it.
use mathlib.Core.Path.{subst}
use pantum_open.Base.{
  ℕ, ◌^◌, ◌≤◌, ◌<◌, ◌≡◌, refl, sym, ap, ◌∙◌, Bool, true, false, List, [], ◌++◌, length, drop, ltb,
  ◌==◌, if◌then◌else◌, arith, Bool-cases, inl, inr, ◌⊎◌, ==→eq, ltb→ge,
}
use pantum_open.Wire.{put_be32, get_be32}
use pantum_open.Scan.Status.{Status, good, io_error}
use pantum_open.Scan.Usb.{
  Device, Wire, IsLibusb, received, accepted, usb_read, usb_read-ReadDone, ReadDone,
}
use pantum_open.Scan.Frame.Defs.{
  header_len, settings_len, pantum_magic, max_payload, Frame, Got, ended, idle, arrived, if_good,
  frame_bytes, header_of, unpack, recv_rest, recv_frame,
}

pub if_good-cases {ℓ} :
    {A : Type ℓ} (P : A → Type ℓ) (st : Status) (next : A) (stop : Status → A)
    → (st ≡ good → P next)
    → (¬ (st ≡ good) → P (stop st))
    → P (if_good st next stop)
unfolding if_good
if_good-cases P good next stop f g = f refl
if_good-cases P st next stop f g = g (λ e. cc)

unpack_by :
    (buf : List ℕ) (magic large : Bool)
    → (get_be32 buf == pantum_magic) ≡ magic
    → ltb max_payload (header_of buf).plen ≡ large
    → unpack buf ≡ (
        if magic
        then (if large then ended io_error else arrived (header_of buf))
        else ended io_error)
unfolding unpack
unpack_by buf magic large e f =
    λ i. if e i then (if f i then ended io_error else arrived (header_of buf)) else ended io_error

pub ended≢arrived : (st : Status) (f : Frame) → ¬ (ended st ≡ arrived f)
ended≢arrived st f e = cc

pub ended-injective : (a b : Status) → ended a ≡ ended b → a ≡ b
ended-injective a b e = cc

frame_in : Frame → Got → Frame
frame_in f (ended st) = f
frame_in f idle = f
frame_in f (arrived g) = g

pub arrived-injective : (f g : Frame) → arrived f ≡ arrived g → f ≡ g
unfolding frame_in
arrived-injective f g e = ap (frame_in f) e

-- A header that is let through starts with the magic, and its length is one that buffers are sized by.
pub unpack-arrived :
    (buf : List ℕ) (f : Frame)
    → unpack buf ≡ arrived f
    → (get_be32 buf ≡ pantum_magic) × (f ≡ header_of buf) × (f.plen ≤ max_payload)
unpack-arrived buf f e =
    step (Bool-cases (get_be32 buf == pantum_magic))
      (Bool-cases (ltb max_payload (header_of buf).plen))
  where
    step :
        ((get_be32 buf == pantum_magic) ≡ true) ⊎ ((get_be32 buf == pantum_magic) ≡ false)
        → (ltb max_payload (header_of buf).plen ≡ true)
          ⊎ (ltb max_payload (header_of buf).plen ≡ false)
        → (get_be32 buf ≡ pantum_magic) × (f ≡ header_of buf) × (f.plen ≤ max_payload)
    step (inl m) (inr l) =
        let k =
          sym (arrived-injective (header_of buf) f (sym (unpack_by buf true false m l) ∙ e)) in
        (
          ==→eq (get_be32 buf) pantum_magic m,
          k,
          subst (λ g. g.plen ≤ max_payload) (sym k) (ltb→ge max_payload (header_of buf).plen l),
        )
    step (inl m) (inl l) = absurd (ended≢arrived io_error f (sym (unpack_by buf true true m l) ∙ e))
    step (inr m) (inl l) =
        absurd (ended≢arrived io_error f (sym (unpack_by buf false true m l) ∙ e))
    step (inr m) (inr l) =
        absurd (ended≢arrived io_error f (sym (unpack_by buf false false m l) ∙ e))

by_tests-failed :
    (magic large : Bool) (f : Frame)
    → ¬ (
        (if magic then (if large then ended io_error else arrived f) else ended io_error)
        ≡ ended good)
by_tests-failed true true f e = cc
by_tests-failed true false f e = cc
by_tests-failed false large f e = cc

unpack-failed : (buf : List ℕ) → ¬ (unpack buf ≡ ended good)
unfolding unpack
unpack-failed buf e =
    by_tests-failed (get_be32 buf == pantum_magic) (ltb max_payload (header_of buf).plen)
      (header_of buf) e

-- For a 32-bit command and a payload of at most 100 bytes, what send_frame writes is what
-- recv_frame reads: the command and the length of the payload come back, the other two words are
-- zero, and the header is always let through.
pub unpack-frame_bytes :
    (cmd : ℕ) (payload : List ℕ)
    → cmd < 2 ^ 32
    → length payload ≤ settings_len
    → unpack (frame_bytes cmd payload)
      ≡ arrived (record { cmd = cmd; arg0 = 0; status = 0; plen = length payload })
unfolding frame_bytes put_be32 get_be32
unpack-frame_bytes cmd payload h k =
    unpack_by (frame_bytes cmd payload) true false (ground arith) (ground arith)
    ∙ ap arrived (λ i. record { cmd = c i; arg0 = 0; status = 0; plen = n i })
  where
    c : get_be32 (drop 4 (frame_bytes cmd payload)) ≡ cmd
    c = omega arith

    n : get_be32 (drop 20 (frame_bytes cmd payload)) ≡ length payload
    n = omega arith

-- What recv_frame has done where it does not probe.
pub record Read (w : Wire) (r : Got × Wire) : Type 0 where
  pub frame :
      (f : Frame)
      → r.0 ≡ arrived f
      → (xs : List ℕ) × (length xs ≡ header_len)
        × (received r.1 ≡ received w ++ xs)
        × (unpack xs ≡ arrived f)
  pub failed : ¬ (r.0 ≡ ended good)
  pub silent : accepted r.1 ≡ accepted w

module _ (device : Device) (lib : IsLibusb device) where
  -- Over a libusb that never moves more than a buffer holds, recv_frame without a probe hands back
  -- a frame only where exactly 32 bytes came in that pass its checks, never ends with good and no
  -- frame, and writes nothing to the device.
  pub recv_frame-Read : (t : ℕ) (w : Wire) → Read w (recv_frame device t false w)
  unfolding recv_frame recv_rest
  recv_frame-Read t w =
      if_good-cases (Read w) after.0 (unpack after.1, after.2) (λ other. (ended other, after.2))
        (λ e. whole (first.full e))
        (λ e. record {
          frame = λ f h. absurd (ended≢arrived after.0 f h);
          failed = λ h. e (ended-injective after.0 good h);
          silent = first.silent;
        })
    where
      after : Status × List ℕ × Wire
      after = usb_read device header_len t w

      first : ReadDone header_len [] w after
      first = usb_read-ReadDone device lib header_len t w

      whole :
          (xs : List ℕ) × (length xs ≡ header_len)
            × (after.1 ≡ xs)
            × (received after.2 ≡ received w ++ xs)
          → Read w (unpack after.1, after.2)
      whole (xs, n, e, k) = record {
        frame = λ f h. (xs, n, k, ap unpack (sym e) ∙ h);
        failed = unpack-failed after.1;
        silent = first.silent;
      }
