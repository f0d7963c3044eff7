-- ===== src/Scan/Frame/Replies.antt =====
-- What command promises: the acknowledgement it hands back answers the command it sent.
use mathlib.Core.Path.{subst}
use pantum_open.Base.{
  ℕ, zero, suc, ◌≡◌, refl, sym, ap, ◌∙◌, Bool, true, false, List, [], ◌∷◌, ◌++◌, length, append-nil,
  append_assoc, ◌==◌, if◌then◌else◌, Bool-cases, inl, inr, ◌⊎◌, ==→eq, Option, none, some, arith,
}
use pantum_open.Scan.Status.{Status, good, io_error, status_or}
use pantum_open.Scan.Usb.{
  Device, Wire, IsLibusb, received, accepted, usb_read, usb_read-ReadDone, drain_payload,
  drain_payload-Drained, timeout_read, timeout_teardown, ReadDone,
}
use pantum_open.Scan.Frame.Defs.{
  header_len, unpack, Frame, Got, ended, idle, arrived, if_good, Answer, torn, acked, recv_frame,
  await_ack, collect_reply,
}
use pantum_open.Scan.Frame.Traffic.{
  if_good-cases, recv_frame-Read, ended≢arrived, arrived-injective, ended-injective,
}

-- A whole frame, header and payload, that names another command than `cmd`.
pub record Other (cmd : ℕ) : Type 0 where
  pub frame : Frame
  pub head : List ℕ
  pub body : List ℕ
  pub packed : unpack head ≡ arrived frame
  pub whole : length head ≡ header_len
  pub paid : length body ≡ frame.plen
  pub names : ¬ (frame.cmd ≡ cmd)

abbrev pub bytes_of_others : {cmd : ℕ} → List (Other cmd) → List ℕ
bytes_of_others [] = []
bytes_of_others (o ∷ os) = o.head ++ (o.body ++ bytes_of_others os)

-- Behind `w`, some whole frames for other commands came in and then the header of `f`.
pub record Heard (cmd : ℕ) (f : Frame) (w w' : Wire) : Type 0 where
  pub others : List (Other cmd)
  pub head : List ℕ
  pub packed : unpack head ≡ arrived f
  pub whole : length head ≡ header_len
  pub came : received w' ≡ received w ++ (bytes_of_others others ++ head)

-- What the loop of command ends with.
pub record Awaited (cmd : ℕ) (w : Wire) (r : Got × Wire) : Type 0 where
  pub named : (f : Frame) → r.0 ≡ arrived f → f.cmd ≡ cmd
  pub heard : (f : Frame) → r.0 ≡ arrived f → Heard cmd f w r.1
  pub failed : ¬ (r.0 ≡ ended good)
  pub silent : accepted r.1 ≡ accepted w

pub io_error≢good : ¬ (io_error ≡ good)
io_error≢good e = cc

true≢false : ¬ (true ≡ false)
true≢false e = cc

eq→== : (a b : ℕ) → a ≡ b → (a == b) ≡ true
eq→== a b e = ground (arith, e)

regroup : (a b c d e : List ℕ) → ((a ++ b) ++ c) ++ (d ++ e) ≡ a ++ ((b ++ (c ++ d)) ++ e)
regroup a b c d e =
    append_assoc (a ++ b) c (d ++ e)
    ∙ append_assoc a b (c ++ (d ++ e))
    ∙ ap (λ z. a ++ z)
        (ap (λ z. b ++ z) (sym (append_assoc c d e)) ∙ sym (append_assoc b (c ++ d) e))

module _ (device : Device) (lib : IsLibusb device) where
  module _ (skips cmd t : ℕ) (w : Wire) where
    abbrev head : Got × Wire
    head = recv_frame device t false w

    abbrev spilt : Frame → Status × Wire
    spilt f = drain_payload device f.plen timeout_teardown head.1

    abbrev answer_in : Bool → Frame → Got × Wire
    answer_in own f =
        if own
        then (arrived f, head.1)
        else if_good (spilt f).0 (await_ack device skips cmd timeout_teardown (spilt f).1)
            (λ other. (ended other, (spilt f).1))

    await_ended :
        (st : Status)
        → head.0 ≡ ended st
        → await_ack device (suc skips) cmd t w ≡ (ended st, head.1)
    unfolding await_ack
    await_ended st e = λ i. elim (e i) [
      | ended other ↦ (ended other, head.1)
      | idle ↦ (idle, head.1)
      | arrived f ↦ answer_in (f.cmd == cmd) f
    ]

    await_idle : head.0 ≡ idle → await_ack device (suc skips) cmd t w ≡ (idle, head.1)
    unfolding await_ack
    await_idle e = λ i. elim (e i) [
      | ended other ↦ (ended other, head.1)
      | idle ↦ (idle, head.1)
      | arrived f ↦ answer_in (f.cmd == cmd) f
    ]

    await_arrived :
        (f : Frame) (own : Bool)
        → head.0 ≡ arrived f
        → (f.cmd == cmd) ≡ own
        → await_ack device (suc skips) cmd t w ≡ answer_in own f
    unfolding await_ack
    await_arrived f own e g =
        (λ i. elim (e i) [
          | ended other ↦ (ended other, head.1)
          | idle ↦ (idle, head.1)
          | arrived f ↦ answer_in (f.cmd == cmd) f
        ])
        ∙ ap (λ b. answer_in b f) g

    head_silent : accepted head.1 ≡ accepted w
    head_silent = (recv_frame-Read device lib t w).silent

    stops :
        (st : Status) (w' : Wire)
        → ¬ (st ≡ good)
        → accepted w' ≡ accepted w
        → Awaited cmd w (ended st, w')
    stops st w' n k = record {
      named = λ f e. absurd (ended≢arrived st f e);
      heard = λ f e. absurd (ended≢arrived st f e);
      failed = λ e. n (ended-injective st good e);
      silent = k;
    }

    -- One frame of the loop, by what it was.
    await_round :
        (g : Got)
        → head.0 ≡ g
        → ((w' : Wire) → Awaited cmd w' (await_ack device skips cmd timeout_teardown w'))
        → Awaited cmd w (await_ack device (suc skips) cmd t w)
    await_round (ended st) e ih = rw (await_ended st e) (
        stops st head.1 (λ h. (recv_frame-Read device lib t w).failed (e ∙ ap ended h)) head_silent)
    await_round idle e ih =
        rw (await_idle e)
          (record { named = λ f k. cc; heard = λ f k. cc; failed = λ k. cc; silent = head_silent })
    await_round (arrived f) e ih = own (Bool-cases (f.cmd == cmd))
      where
        spilt_silent : accepted (spilt f).1 ≡ accepted w
        spilt_silent =
            (drain_payload-Drained device lib f.plen timeout_teardown head.1).silent ∙ head_silent

        first :
            (xs : List ℕ) × (length xs ≡ header_len)
            × (received head.1 ≡ received w ++ xs)
            × (unpack xs ≡ arrived f)
        first = (recv_frame-Read device lib t w).frame f e

        here : Heard cmd f w head.1
        here =
            let (xs, l, c, u) = first in
            record { others = []; head = xs; packed = u; whole = l; came = c }

        -- The frame `f` names another command and was drained.
        behind :
            (g : Frame) (w' : Wire)
            → (f.cmd == cmd) ≡ false
            → (spilt f).0 ≡ good
            → Heard cmd g (spilt f).1 w'
            → Heard cmd g w w'
        behind g w' k h r =
            let (xs, l, c, u) = first in
            let (ys, m, d) =
              (drain_payload-Drained device lib f.plen timeout_teardown head.1).full h in
            record {
              others =
                  record {
                    frame = f;
                    head = xs;
                    body = ys;
                    packed = u;
                    whole = l;
                    paid = m;
                    names = λ n. true≢false (sym (eq→== f.cmd cmd n) ∙ k);
                  }
                  ∷ r.others;
              head = r.head;
              packed = r.packed;
              whole = r.whole;
              came =
                  r.came
                  ∙ ap (λ z. z ++ (bytes_of_others r.others ++ r.head)) (d ∙ ap (λ z. z ++ ys) c)
                  ∙ regroup (received w) xs ys (bytes_of_others r.others) r.head;
            }

        own :
            ((f.cmd == cmd) ≡ true) ⊎ ((f.cmd == cmd) ≡ false)
            → Awaited cmd w (await_ack device (suc skips) cmd t w)
        own (inl k) = rw (await_arrived f true e k) (record {
          named = λ f' k'. subst (λ x. x.cmd ≡ cmd) (arrived-injective f f' k') (==→eq f.cmd cmd k);
          heard = λ f' k'. subst (λ x. Heard cmd x w head.1) (arrived-injective f f' k') here;
          failed = λ h. ended≢arrived good f (sym h);
          silent = head_silent;
        })
        own (inr k) = rw (await_arrived f false e k) (
            if_good-cases (Awaited cmd w) (spilt f).0
              (await_ack device skips cmd timeout_teardown (spilt f).1)
              (λ other. (ended other, (spilt f).1))
              (λ h. record {
                named = (ih (spilt f).1).named;
                heard = λ g m. behind g _ k h ((ih (spilt f).1).heard g m);
                failed = (ih (spilt f).1).failed;
                silent = (ih (spilt f).1).silent ∙ spilt_silent;
              })
              (λ h. stops (spilt f).0 (spilt f).1 h spilt_silent))

  pub await_ack-Awaited :
      (skips cmd t : ℕ) (w : Wire) → Awaited cmd w (await_ack device skips cmd t w)
  await_ack-Awaited zero cmd t w =
      unfold await_ack in
      record {
        named = λ f e. absurd (ended≢arrived io_error f e);
        heard = λ f e. absurd (ended≢arrived io_error f e);
        failed = λ e. io_error≢good (ended-injective io_error good e);
        silent = refl;
      }
  await_ack-Awaited (suc skips) cmd t w =
      await_round skips cmd t w (recv_frame device t false w).0 refl
        (λ w'. await_ack-Awaited skips cmd timeout_teardown w')

-- How a command ends: without an acknowledgement and not with "good", or with the frame that answers
-- it, the status that frame carries and, where a reply was asked for, the payload `body` of the frame
-- as the reply, of the length asked for.
abbrev pub Unanswered : Answer → Type 0
Unanswered a = (a.ack ≡ none) × (¬ (a.result ≡ good))

pub record AnsweredBy (want : Option ℕ) (f : Frame) (body : List ℕ) (a : Answer) : Type 0 where
  pub ack : a.ack ≡ some f
  pub result : a.result ≡ status_or good f.status
  pub reply : (n : ℕ) → want ≡ some n → (a.reply ≡ body) × (length body ≡ n)

-- The payload came in, all of it, and is what the answer is made of.
pub record Paid (want : Option ℕ) (f : Frame) (w : Wire) (r : Answer × Wire) : Type 0 where
  pub body : List ℕ
  pub answer : AnsweredBy want f body r.0
  pub paid : length body ≡ f.plen
  pub came : received r.1 ≡ received w ++ body

abbrev pub Collected : Option ℕ → Frame → Wire → Answer × Wire → Type 0
Collected want f w r = (Unanswered r.0 ⊎ Paid want f w r) × (accepted r.1 ≡ accepted w)

module _ (device : Device) (lib : IsLibusb device) (f : Frame) (w : Wire) where
  abbrev drained : Status × Wire
  drained = drain_payload device f.plen timeout_read w

  drained_silent : accepted drained.1 ≡ accepted w
  drained_silent = (drain_payload-Drained device lib f.plen timeout_read w).silent

  collects_none : Collected none f w (collect_reply device none f w)
  unfolding collect_reply
  collects_none = step (Bool-cases (f.plen == 0))
    where
      none≢some_length : (n : ℕ) → ¬ (none ≡ some n)
      none≢some_length n e = cc

      paid_by :
          (body : List ℕ) (w' : Wire)
          → length body ≡ f.plen
          → received w' ≡ received w ++ body
          → Paid none f w (acked [] f, w')
      paid_by body w' l c = record {
        body = body;
        answer = record { ack = refl; result = refl; reply = λ n e. absurd (none≢some_length n e) };
        paid = l;
        came = c;
      }

      drained_by :
          (xs : List ℕ) × (length xs ≡ f.plen) × (received drained.1 ≡ received w ++ xs)
          → Paid none f w (acked [] f, drained.1)
      drained_by (xs, l, c) = paid_by xs drained.1 l c

      step :
          ((f.plen == 0) ≡ true) ⊎ ((f.plen == 0) ≡ false)
          → Collected none f w (
              if f.plen == 0
              then (acked [] f, w)
              else if_good drained.0 (acked [] f, drained.1) (λ other. (torn [] other, drained.1)))
      step (inl e) =
          rw e (inr (paid_by [] w (sym (==→eq f.plen 0 e)) (sym (append-nil (received w)))), refl)
      step (inr e) = rw e (
          if_good-cases (Collected none f w) drained.0 (acked [] f, drained.1)
            (λ other. (torn [] other, drained.1))
            (λ h. (
              inr (drained_by ((drain_payload-Drained device lib f.plen timeout_read w).full h)),
              drained_silent,
            ))
            (λ h. (inl (refl, h), drained_silent)))

  module _ (reply_len : ℕ) where
    abbrev fetched : Status × List ℕ × Wire
    fetched = usb_read device reply_len timeout_read w

    fetched-ReadDone : ReadDone reply_len [] w fetched
    fetched-ReadDone = usb_read-ReadDone device lib reply_len timeout_read w

    abbrev taken : Answer × Wire
    taken =
        if_good fetched.0 (acked fetched.1 f, fetched.2)
          (λ other. (torn fetched.1 other, fetched.2))

    taken-Collected : f.plen ≡ reply_len → Collected (some reply_len) f w taken
    taken-Collected k =
        if_good-cases (Collected (some reply_len) f w) fetched.0 (acked fetched.1 f, fetched.2)
          (λ other. (torn fetched.1 other, fetched.2))
          (λ h. (inr (paid_by (fetched-ReadDone.full h)), fetched-ReadDone.silent))
          (λ h. (inl (refl, h), fetched-ReadDone.silent))
      where
        inside : (a b : ℕ) → some a ≡ some b → a ≡ b
        inside a b e = cc

        paid_by :
            (xs : List ℕ) × (length xs ≡ reply_len)
              × (fetched.1 ≡ xs)
              × (received fetched.2 ≡ received w ++ xs)
            → Paid (some reply_len) f w (acked fetched.1 f, fetched.2)
        paid_by (xs, l, e, c) = record {
          body = xs;
          answer = record {
            ack = refl;
            result = refl;
            reply = λ n m. (e, l ∙ inside reply_len n m);
          };
          paid = l ∙ sym k;
          came = c;
        }

    collects_some : Collected (some reply_len) f w (collect_reply device (some reply_len) f w)
    unfolding collect_reply
    collects_some = step (Bool-cases (f.plen == 0)) (Bool-cases (f.plen == reply_len))
      where
        step :
            ((f.plen == 0) ≡ true) ⊎ ((f.plen == 0) ≡ false)
            → ((f.plen == reply_len) ≡ true) ⊎ ((f.plen == reply_len) ≡ false)
            → Collected (some reply_len) f w (
                if f.plen == 0
                then (torn [] io_error, w)
                else (if f.plen == reply_len then taken else (torn [] io_error, drained.1)))
        step (inl e) k = rw e (inl (refl, io_error≢good), refl)
        step (inr e) (inl k) = rw (e, k) (taken-Collected (==→eq f.plen reply_len k))
        step (inr e) (inr k) = rw (e, k) (inl (refl, io_error≢good), drained_silent)

  pub collect_reply-Collected :
      (want : Option ℕ) → Collected want f w (collect_reply device want f w)
  collect_reply-Collected none = collects_none
  collect_reply-Collected (some n) = collects_some n
