-- ===== src/Scan/Frame/Commands.antt =====
-- command of src/pantum.c as a whole.

use pantum_open.Base.{
  ℕ, ◌≤◌, ◌<◌, ◌≡◌, refl, sym, ap, ◌∙◌, true, false, List, [], ◌++◌, length, ltb, Bool-cases, inl,
  inr, ◌⊎◌, ltb→ge, ltb→lt, Option, if-cases, append_assoc,
}
use pantum_open.Scan.Status.{Status, good, io_error, inval}
use pantum_open.Scan.Usb.{
  Device, Wire, IsLibusb, received, accepted, usb_write, usb_write-WriteDone, timeout_read,
}
use pantum_open.Scan.Frame.Defs.{
  header_len, unpack, settings_len, command_max_skip, Frame, Got, ended, idle, arrived, frame_bytes,
  Answer, torn, send_frame, await_ack, collect_reply, command,
}
use pantum_open.Scan.Frame.Traffic.{if_good-cases}
use pantum_open.Scan.Frame.Replies.{
  Other, bytes_of_others, Heard, Awaited, await_ack-Awaited, Unanswered, AnsweredBy,
  collect_reply-Collected, Collected, io_error≢good,
}

inval≢good : ¬ (inval ≡ good)
inval≢good e = cc

-- The device has taken the frame of the command and nothing else; some whole frames for other
-- commands came in and then a frame that names this one, header and payload, which is the answer.
pub record Commanded (cmd : ℕ) (payload : List ℕ) (want : Option ℕ) (w : Wire) (r : Answer × Wire)
    : Type 0 where
  pub frame : Frame
  pub named : frame.cmd ≡ cmd
  pub others : List (Other cmd)
  pub head : List ℕ
  pub body : List ℕ
  pub packed : unpack head ≡ arrived frame
  pub whole : length head ≡ header_len
  pub paid : length body ≡ frame.plen
  pub came : received r.1 ≡ received w ++ (bytes_of_others others ++ (head ++ body))
  pub answer : AnsweredBy want frame body r.0
  pub taken : accepted r.1 ≡ accepted w ++ frame_bytes cmd payload

module _ (device : Device) (lib : IsLibusb device) (cmd : ℕ) (payload : List ℕ) where
  abbrev Sent : Wire → Status × Wire → Type 0
  Sent w r =
      (r.0 ≡ good) × (accepted r.1 ≡ accepted w ++ frame_bytes cmd payload) ⊎ (r.0 ≡ io_error)

  -- Over a libusb that never moves more than a buffer holds, send_frame refuses a payload of more
  -- than 100 bytes without a transfer; for any other it either fails with an I/O error or the
  -- device has taken exactly the header and the payload.
  pub send_frame-sends :
      (w : Wire)
      → ((settings_len < length payload) × (send_frame device cmd payload w ≡ (inval, w)))
        ⊎ ((length payload ≤ settings_len) × Sent w (send_frame device cmd payload w))
  unfolding send_frame
  send_frame-sends w = step (Bool-cases (ltb settings_len (length payload)))
    where
      goes :
          ((usb_write device (frame_bytes cmd payload) w).0 ≡ good)
            ⊎ ((usb_write device (frame_bytes cmd payload) w).0 ≡ io_error)
          → Sent w (usb_write device (frame_bytes cmd payload) w)
      goes (inl o) = inl (o, (usb_write-WriteDone device lib (frame_bytes cmd payload) w).full o)
      goes (inr o) = inr o

      step :
          (ltb settings_len (length payload) ≡ true) ⊎ (ltb settings_len (length payload) ≡ false)
          → ((settings_len < length payload) × (send_frame device cmd payload w ≡ (inval, w)))
            ⊎ ((length payload ≤ settings_len) × Sent w (send_frame device cmd payload w))
      step (inl e) = inl (ltb→lt settings_len (length payload) e, rw e refl)
      step (inr e) = inr (
        ltb→ge settings_len (length payload) e,
        rw e (goes (usb_write-WriteDone device lib (frame_bytes cmd payload) w).outcome),
      )

  module _ (want : Option ℕ) (w : Wire) where
    abbrev sent : Status × Wire
    sent = send_frame device cmd payload w

    abbrev heard : Got × Wire
    heard = await_ack device command_max_skip cmd timeout_read sent.1

    abbrev Ended : Answer × Wire → Type 0
    Ended r = Unanswered r.0 ⊎ Commanded cmd payload want w r

    heard-Ended :
        (g : Got)
        → heard.0 ≡ g
        → accepted sent.1 ≡ accepted w ++ frame_bytes cmd payload
        → received sent.1 ≡ received w
        → Ended (elim g [
          | ended other ↦ (torn [] other, heard.1)
          | idle ↦ (torn [] io_error, heard.1)
          | arrived f ↦ collect_reply device want f heard.1
        ])
    heard-Ended (ended other) e k q = inl (
      refl,
      λ h.
          (await_ack-Awaited device lib command_max_skip cmd timeout_read sent.1).failed
            (e ∙ ap ended h),
    )
    heard-Ended idle e k q = inl (refl, io_error≢good)
    heard-Ended (arrived f) e k q = goes (collect_reply-Collected device lib f heard.1 want)
      where
        waited : Awaited cmd sent.1 heard
        waited = await_ack-Awaited device lib command_max_skip cmd timeout_read sent.1

        h : Heard cmd f sent.1 heard.1
        h = waited.heard f e

        goes :
            Collected want f heard.1 (collect_reply device want f heard.1)
            → Ended (collect_reply device want f heard.1)
        goes (inl u, _) = inl u
        goes (inr a, s) = inr (record {
          frame = f;
          named = waited.named f e;
          others = h.others;
          head = h.head;
          body = a.body;
          packed = h.packed;
          whole = h.whole;
          paid = a.paid;
          came =
              a.came
              ∙ ap (λ z. z ++ a.body)
                  (h.came ∙ ap (λ z. z ++ (bytes_of_others h.others ++ h.head)) q)
              ∙ append_assoc (received w) (bytes_of_others h.others ++ h.head) a.body
              ∙ ap (λ z. received w ++ z) (append_assoc (bytes_of_others h.others) h.head a.body);
          answer = a.answer;
          taken = s ∙ waited.silent ∙ k;
        })

    written :
        ((settings_len < length payload) × (sent ≡ (inval, w)))
          ⊎ ((length payload ≤ settings_len) × Sent w sent)
        → sent.0 ≡ good
        → accepted sent.1 ≡ accepted w ++ frame_bytes cmd payload
    written (inl (_, e)) h = absurd (inval≢good (ap (λ r. r.0) (sym e) ∙ h))
    written (inr (_, inl (_, k))) h = k
    written (inr (_, inr o)) h = absurd (io_error≢good (sym o ∙ h))

    unheard : received sent.1 ≡ received w
    unheard =
        unfold send_frame in
        if-cases {A = Status × Wire} (λ r. received r.1 ≡ received w)
          (ltb settings_len (length payload)) _ _ (λ e. refl)
          (λ e. (usb_write-WriteDone device lib (frame_bytes cmd payload) w).silent)

    -- Over a libusb that never moves more than a buffer holds, command ends in one of two ways.
    -- Either no acknowledgement is handed back and the result is not good; or the device has taken
    -- exactly the frame of this command, and what came in is some whole frames that name other
    -- commands and then the header and the whole payload of a frame that names this one, which is
    -- the acknowledgement; the result is the status it carries, and where a reply was asked for, that
    -- is the payload, of the length asked for.
    pub command-Ended :
        Unanswered (command device cmd payload want w).0
        ⊎ Commanded cmd payload want w (command device cmd payload want w)
    unfolding command
    command-Ended =
        if_good-cases Ended sent.0
          (elim heard.0 [
            | ended other ↦ (torn [] other, heard.1)
            | idle ↦ (torn [] io_error, heard.1)
            | arrived f ↦ collect_reply device want f heard.1
          ])
          (λ other. (torn [] other, sent.1))
          (λ h. heard-Ended heard.0 refl (written (send_frame-sends w) h) unheard)
          (λ h. inl (refl, h))
