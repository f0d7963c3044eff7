-- ===== src/Scan/Image/NoMem.antt =====
-- out_reserve of src/pantum.c after it has run out of memory.
use mathlib.Core.Path.{subst}
use pantum_open.Base.{
  ℕ, ◌+◌, ◌^◌, ◌≤◌, ◌<◌, ◌≡◌, refl, sym, ap, ◌∙◌, Bool, true, false, length, leb, if◌then◌else◌,
  if-cases, arith,
}
use pantum_open.Scan.Status.{Status, good, no_mem}
use pantum_open.Scan.Handle.{OutQueue}
use pantum_open.Scan.Image.Queue.{rewind, grow_out, out_fuel, need_for, regrow, out_reserve}
use pantum_open.Scan.Image.Reserve.{grow_out-any}

module _ (can_alloc : ℕ → Bool) where
  -- A queue of which nothing has been handed out is neither rewound nor moved.
  out_reserve-front :
      (extra : ℕ) (q : OutQueue)
      → q.pos ≡ 0
      → out_reserve can_alloc extra q
        ≡ (if leb (need_for q extra) q.capacity then (good, q) else regrow can_alloc extra q)
  unfolding out_reserve rewind
  out_reserve-front extra q e =
      subst
        (λ x.
          out_reserve can_alloc extra x
          ≡ (if leb (need_for x extra) x.capacity then (good, x) else regrow can_alloc extra x))
        (λ i. record q { pos = sym e i }) refl

  -- Where out_reserve has answered that there is no memory for a request, on a queue whose capacity is
  -- the size of its block and of which nothing has been handed out, the next call for as much answers
  -- good, with a block that is too small for it.
  pub out_reserve-after_no_mem :
      (extra : ℕ) (q : OutQueue)
      → q.pos ≡ 0
      → q.capacity ≡ q.block
      → length q.bytes + extra ≤ 2 ^ 63
      → (out_reserve can_alloc extra q).0 ≡ no_mem
      → let again = out_reserve can_alloc extra (out_reserve can_alloc extra q).1 in
        (again.0 ≡ good) × (again.1.block < length again.1.bytes + extra)
  unfolding regrow
  out_reserve-after_no_mem extra q e b k n =
      subst P (sym (out_reserve-front extra q e))
        (if-cases P (leb (need_for q extra) q.capacity) _ _ (λ t x. absurd (good≢no_mem x))
          (λ t.
            if-cases P (can_alloc size) _ _ (λ a x. absurd (good≢no_mem x)) (λ a x. too_small t)))
        n
    where
      P : Status × OutQueue → Type 0
      P r =
          r.0 ≡ no_mem
          → let again = out_reserve can_alloc extra r.1 in
            (again.0 ≡ good) × (again.1.block < length again.1.bytes + extra)

      good≢no_mem : ¬ (good ≡ no_mem)
      good≢no_mem x = cc

      size : ℕ
      size = grow_out out_fuel q.capacity (need_for q extra)

      raised : OutQueue
      raised = record q { capacity = size }

      le→leb : (a c : ℕ) → a ≤ c → leb a c ≡ true
      le→leb a c l = ground arith

      fits : leb (need_for q extra) size ≡ true
      fits = le→leb _ _ (grow_out-any 63 q.capacity (need_for q extra) (omega arith) (omega arith))

      too_small :
          leb (need_for q extra) q.capacity ≡ false
          → let again = out_reserve can_alloc extra raised in
            (again.0 ≡ good) × (again.1.block < length again.1.bytes + extra)
      too_small t =
          let small : q.block < length q.bytes + extra = ground arith in
          let front : out_reserve can_alloc extra raised ≡ (good, raised) =
            out_reserve-front extra raised e
            ∙ ap (λ c. if c then (good, raised) else regrow can_alloc extra raised) fits in
          subst (λ r. (r.0 ≡ good) × (r.1.block < length r.1.bytes + extra)) (sym front)
            (refl, small)
