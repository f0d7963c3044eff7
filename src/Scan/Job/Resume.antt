-- ===== src/Scan/Job/Resume.antt =====
-- resume_job of src/pantum.c, and the attempts of sane_pantum_start at a job.

use native.Mathlib.Nat.{mul-le-mul_right}
use pantum_open.Base.{
  ℕ, zero, suc, ◌*◌, ◌≤◌, ◌≡◌, refl, sym, ap, ◌∙◌, true, false, Option, none, some, length,
  length-drop, ◌==◌, ==→eq, if◌then◌else◌, if-cases, Bool-cases, arith, inl, inr,
}
use pantum_open.Scan.Status.{Status, good, no_docs, device_busy, status_or}
use pantum_open.Scan.Usb.{Wire}
use pantum_open.Scan.Frame.{if_good, if_good-cases}
use pantum_open.Scan.Handle.{Handle}
use pantum_open.Scan.Job.Pump.{Env}
use pantum_open.Scan.Job.Start.{
  awaits, new_page, run_job, await_first_rows, page_status, next_page, resume_job, attempt_job,
}
use pantum_open.Scan.Job.Settled.{IsSettled, Fixed, status_or-good}
use pantum_open.Scan.Job.Frames.{IsEnv}
use pantum_open.Scan.Job.Wait.{
  IsReading, Awaited, Waits, IsIdle-IsSettled, await_first_rows-Awaited,
}
use pantum_open.Scan.Job.Starts.{run_job-Awaited}
use pantum_open.Scan.Job.Outcome.{
  some_injective, IsOpen, Started, open_of, IsPrepared, ends_idle, begins, still_waits,
  attempt_step,
}

-- A page that has been waited for has rows, since the end of a job fills it up.
begun-rows :
    (h : Handle) → IsReading 0 h → awaits none h ≡ false → (length h.out.bytes == 0) ≡ false
begun-rows h i a = elim (Bool-cases (length h.out.bytes == 0)) [
  | inr e ↦ e
  | inl e ↦ absurd (elim i.running [
    | inl s ↦ elim (Bool-cases h.eof) [ inl o ↦ full e o | inr o ↦ running e s o a ]
    | inr o ↦ full e o
  ])
]
  where
    full : (length h.out.bytes == 0) ≡ true → h.eof ≡ true → ⊥
    full e o =
        let started : 1 ≤ h.next_row = omega (arith, i.over o, i.sheet.has_lines) in
        let k : 1 * h.params.bytes_per_line ≤ h.next_row * h.params.bytes_per_line =
          mul-le-mul_right h.params.bytes_per_line started in
        omega (arith, ==→eq _ _ e, length-drop h.out.pos h.out.bytes, i.count, k, i.sheet.has_bytes)

    running :
        (length h.out.bytes == 0) ≡ true
        → h.scanning ≡ true
        → h.eof ≡ false
        → awaits none h ≡ false
        → ⊥
    running e s o a = ground arith

pub true≢false : ¬ (true ≡ false)
true≢false e = cc

no_docs≢good : ¬ (no_docs ≡ good)
no_docs≢good e = cc

pub usable_of : (h : Handle) → IsPrepared h → IsOpen h
usable_of h i = record {
  settled = IsIdle-IsSettled h i.idle;
  queue = i.queue;
  sheet = i.sheet;
  offered = i.offered;
}

module _ (env : Env) (he : IsEnv env) where
  pub attempt_job-Started :
      (left frames : ℕ) (h : Handle) (w : Wire)
      → IsPrepared h
      → Started h (attempt_job env left frames h w)
  unfolding attempt_job
  attempt_job-Started zero frames h w i =
      ends_idle h h device_busy w (λ e. cc) refl (usable_of h i) i.idle
  attempt_job-Started (suc left) frames h w i =
      let r = run_job env frames h w in
      attempt_step h (attempt_job env left frames r.2 r.3) r.0 r.1 r.2 r.3 i
        (run_job-Awaited env he frames h w i.sheet i.idle.scanning)
        (λ k. attempt_job-Started left frames r.2 r.3 k)

  resume_step :
      (h : Handle) (o : Option Status) (aborted : Option ℕ) (h' : Handle) (w' : Wire)
      → IsOpen h
      → h.cancelled ≡ false
      → Awaited h (o, aborted, h', w')
      → Started h (next_page o aborted h' w')
  unfolding page_status next_page
  resume_step h none aborted h' w' i c a = still_waits h _ i.sheet i.offered a
  resume_step h (some st) aborted h' w' i c a =
      if_good-cases (λ s. Started h (some s, h', w')) st _ _
        (λ g. on_good aborted (λ j. some (g j)) a)
        (λ n.
          ends_idle h h' st w' n (ap (λ (f : Fixed). f.0) a.same) (open_of h _ i.sheet i.offered a)
            (a.failed st n refl))
    where
      on_good :
          (aborted : Option ℕ)
          → some st ≡ some good
          → Awaited h (some st, aborted, h', w')
          → Started h (some (page_status aborted h'), h', w')
      on_good none g b =
          if-cases (λ s. Started h (some s, h', w')) (length h'.out.bytes == 0) _ _
            (λ e. absurd (true≢false (sym e ∙ begun-rows h' (b.begun g refl) (b.arrived g))))
            (λ e. begins h _ i.sheet i.offered c b g refl)
      on_good (some s) g b =
          ends_idle h h' (status_or no_docs s) w' (λ e. no_docs≢good (status_or-good no_docs s e))
            (ap (λ (f : Fixed). f.0) b.same) (open_of h _ i.sheet i.offered b) (b.aborted s g refl)

  feeding_page :
      (h : Handle)
      → IsOpen h
      → h.feeding ≡ true
      → Waits none (record (new_page h) { feeding = false })
  feeding_page h i f = record {
    settled = settled;
    queue = omega arith;
    reading = λ e. record {
      sheet = i.sheet;
      queue = omega arith;
      settled = settled;
      within = omega arith;
      running = inl (i.settled.feeds f);
      over = λ e. cc;
      count = omega arith;
    };
    idle = λ n e. cc;
  }
    where
      settled : IsSettled (record (new_page h) { feeding = false })
      settled = record { lock = i.settled.lock; feeds = λ e. cc }

  pub resume_job-Started :
      (frames : ℕ) (h : Handle) (w : Wire)
      → IsOpen h
      → h.feeding ≡ true
      → h.cancelled ≡ false
      → Started h (resume_job env frames h w)
  unfolding resume_job
  resume_job-Started frames h w i f c =
      let h' : Handle = record (new_page h) { feeding = false } in
      let r = await_first_rows env frames none h' w in
      let a = await_first_rows-Awaited env he frames none h' w (feeding_page h i f) in
      resume_step h r.0 r.1 r.2 r.3 i c (record {
        same = a.same;
        queue = a.queue;
        settled = a.settled;
        begun = a.begun;
        aborted = a.aborted;
        arrived = a.arrived;
        failed = a.failed;
      })

  never_step :
      (o : Option Status) (aborted : Option ℕ) (h' : Handle) (w' : Wire)
      → o ≡ some good
      → aborted ≡ none
      → (length h'.out.bytes == 0) ≡ false
      → (next_page o aborted h' w').0 ≡ some good
  unfolding page_status next_page if_good
  never_step none aborted h' w' g n e = cc
  never_step (some st) (some s) h' w' g n e = cc
  never_step (some st) none h' w' g n e =
      ap
        (λ x.
          some (if_good x (if length h'.out.bytes == 0 then no_docs else good) (λ other. other)))
        (some_injective st good g)
      ∙ ap (λ b. some (if b then no_docs else good)) e

  -- Where the job of an open handle that is paused between two pages goes on without an error and without an abort, the
  -- start never answers that there are no more documents, though no page may have come: the page that
  -- has no rows yet at the end of the job has been filled up with white ones.
  pub resume_job-never_empty :
      (frames : ℕ) (h : Handle) (w : Wire)
      → IsOpen h
      → h.feeding ≡ true
      → let r = await_first_rows env frames none (record (new_page h) { feeding = false }) w in
        r.0 ≡ some good → r.1 ≡ none → (resume_job env frames h w).0 ≡ some good
  unfolding resume_job
  resume_job-never_empty frames h w i f g n =
      let h' : Handle = record (new_page h) { feeding = false } in
      let r = await_first_rows env frames none h' w in
      let a = await_first_rows-Awaited env he frames none h' w (feeding_page h i f) in
      never_step r.0 r.1 r.2 r.3 g n
        (begun-rows r.2 (a.begun g n) (ap (λ o. awaits o r.2) (sym n) ∙ a.arrived g))
