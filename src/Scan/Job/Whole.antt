-- ===== src/Scan/Job/Whole.antt =====
-- A page from its start to its end: sane_pantum_start and calls of sane_pantum_read in src/pantum.c.

use pantum_open.Base.{
  ℕ, ◌+◌, ◌*◌, ◌≤◌, ◌≡◌, refl, sym, ap, ◌∙◌, false, some, length, arith, inl, inr,
}
use native.Mathlib.Nat.{mul-le-mul_right}
use pantum_open.Scan.Status.{good, eof, device_busy}
use pantum_open.Scan.Usb.{Wire}
use pantum_open.Scan.Window.{Parameters}
use pantum_open.Scan.Handle.{Handle}
use pantum_open.Scan.Job.Pump.{Env}
use pantum_open.Scan.Job.Start.{sane_start}
use pantum_open.Scan.Job.Entry.{sane_read}
use pantum_open.Scan.Job.Settled.{Fixed, fixed}
use pantum_open.Scan.Job.Frames.{IsEnv}
use pantum_open.Scan.Job.Wait.{IsReading}
use pantum_open.Scan.Job.Outcome.{IsOpen}
use pantum_open.Scan.Job.Begins.{sane_start-Started}
use pantum_open.Scan.Job.Reads.{sane_read-ReadDone}

-- Calls of sane_read one after the other, each of which has given good, and how many bytes they handed
-- out in all.
pub data ReadRun (env : Env) (h : Handle) (w : Wire) : ℕ → ℕ → Handle → Wire → Type 0 where
  unread_page : ReadRun env h w 0 0 h w
  one_more :
      (frames max_length calls n : ℕ) (h' : Handle) (w' : Wire)
      → ReadRun env h w calls n h' w'
      → 1 ≤ max_length
      → (sane_read env frames max_length h' w').0 ≡ some good
      → ReadRun env h w
          (calls + 1)
          (n + length (sane_read env frames max_length h' w').1)
          (sane_read env frames max_length h' w').2
          (sane_read env frames max_length h' w').3

-- What the calls so far have made of the page.
pub record Partway (n : ℕ) (h h' : Handle) : Type 0 where
  pub reading : IsReading n h'
  pub same : fixed h' ≡ fixed h

module _ (env : Env) (he : IsEnv env) where
  ReadRun-Partway :
      (h : Handle) (w : Wire) (calls n : ℕ) (h' : Handle) (w' : Wire)
      → IsReading 0 h
      → h.cancelled ≡ false
      → ReadRun env h w calls n h' w'
      → Partway n h h'
  ReadRun-Partway h w calls n h' w' i c unread_page = record { reading = i; same = refl }
  ReadRun-Partway h w calls n h' w' i c (one_more frames max_length k m h1 w1 s z g) =
      let p = ReadRun-Partway h w k m h1 w1 i c s in
      let d =
        sane_read-ReadDone env he frames m max_length h1 w1 p.reading
          (ap (λ (f : Fixed). f.2) p.same ∙ c) z in
      record { reading = d.going (inr g); same = d.same ∙ p.same }

  -- A start that answers good has begun a page.
  pub begun_page :
      (frames : ℕ) (h : Handle) (w : Wire)
      → IsOpen h
      → let s = sane_start env frames h w in
        s.0 ≡ some good → IsReading 0 s.1 × (s.1.cancelled ≡ false)
  begun_page frames h w i g = elim (sane_start-Started env he frames h w i) [
    | inl (b, e) ↦ absurd (not_busy (sym g ∙ ap (λ r. r.0) e))
    | inr d ↦ d.begun g
  ]
    where
      not_busy : ¬ (some good ≡ some device_busy)
      not_busy e = cc

  within_total :
      (n : ℕ) (h h' : Handle) → Partway n h h' → n ≤ h.params.lines * h.params.bytes_per_line
  within_total n h h' p =
      let e : h'.params ≡ h.params = ap (λ (f : Fixed). f.1) p.same in
      let l : h'.params.lines * h'.params.bytes_per_line
          ≡ h.params.lines * h.params.bytes_per_line =
        ap (λ (k : Parameters). k.lines * k.bytes_per_line) e in
      omega (arith, p.reading.count, l, mul-le-mul_right h'.params.bytes_per_line p.reading.within)

  blocking_calls :
      (h : Handle) (w : Wire) (calls n : ℕ) (h' : Handle) (w' : Wire)
      → IsReading 0 h
      → h.cancelled ≡ false
      → h.non_blocking ≡ false
      → ReadRun env h w calls n h' w'
      → calls ≤ n
  blocking_calls h w calls n h' w' i c b unread_page = omega arith
  blocking_calls h w calls n h' w' i c b (one_more frames max_length k m h1 w1 s z g) =
      let p = ReadRun-Partway h w k m h1 w1 i c s in
      let d =
        sane_read-ReadDone env he frames m max_length h1 w1 p.reading
          (ap (λ (f : Fixed). f.2) p.same ∙ c) z in
      omega (
        arith,
        blocking_calls h w k m h1 w1 i c b s,
        d.blocks g (ap (λ (f : Fixed). f.3) p.same ∙ b),
      )

  -- From a start of an open handle that has answered good, and after any number of reads that have: never more bytes have
  -- been handed out than the page has; and where the next read answers that the page is at its end,
  -- exactly as many as it has lines times bytes per line. The device, the memory and the lengths
  -- asked for are arbitrary.
  pub sane_read-whole_page :
      (frames : ℕ) (h : Handle) (w : Wire) (calls n : ℕ) (h' : Handle) (w' : Wire)
      (frames' max_length : ℕ)
      → IsOpen h
      → let s = sane_start env frames h w in
        s.0 ≡ some good
        → ReadRun env s.1 s.2 calls n h' w'
        → 1 ≤ max_length
        → let total = s.1.params.lines * s.1.params.bytes_per_line in
          (n ≤ total) × ((sane_read env frames' max_length h' w').0 ≡ some eof → n ≡ total)
  sane_read-whole_page frames h w calls n h' w' frames' max_length i g reads z =
      let s = sane_start env frames h w in
      let b = begun_page frames h w i g in
      let p = ReadRun-Partway s.1 s.2 calls n h' w' b.0 b.1 reads in
      let d =
        sane_read-ReadDone env he frames' n max_length h' w' p.reading
          (ap (λ (f : Fixed). f.2) p.same ∙ b.1) z in
      (
        within_total n s.1 h' p,
        λ e.
            (d.over e).1
            ∙ ap (λ (k : Parameters). k.lines * k.bytes_per_line) (ap (λ (f : Fixed). f.1) p.same),
      )

  -- Behind a start of an open handle that has answered good, every read that answers good in blocking
  -- mode hands out a byte at least, so that no more than
  -- lines times bytes per line of them can come before the end of the page or a failure.
  pub sane_read-comes_to_an_end :
      (frames : ℕ) (h : Handle) (w : Wire) (calls n : ℕ) (h' : Handle) (w' : Wire)
      → IsOpen h
      → let s = sane_start env frames h w in
        s.0 ≡ some good
        → s.1.non_blocking ≡ false
        → ReadRun env s.1 s.2 calls n h' w'
        → calls ≤ s.1.params.lines * s.1.params.bytes_per_line
  sane_read-comes_to_an_end frames h w calls n h' w' i g quiet reads =
      let s = sane_start env frames h w in
      let b = begun_page frames h w i g in
      let p = ReadRun-Partway s.1 s.2 calls n h' w' b.0 b.1 reads in
      omega
        (arith, within_total n s.1 h' p, blocking_calls s.1 s.2 calls n h' w' b.0 b.1 quiet reads)
