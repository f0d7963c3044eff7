-- ===== src/Scan/Image/Reserve.antt =====
-- What out_reserve does to the queue of rows.
use pantum_open.Base.{
  ℕ, zero, suc, ◌+◌, ◌*◌, ◌%◌, ◌^◌, ◌≤◌, ◌<◌, ◌≡◌, refl, sym, ◌∙◌, Bool, true, false, not, ◌&&◌,
  List, [], length, drop, drop-all, length-drop, ltb, leb, ◌==◌, arith, inl, inr, ◌⊎◌, if-cases,
  ltb→lt, ltb→ge,
}
use native.Mathlib.Nat.{pow-suc}
use pantum_open.Scan.Status.{Status, good, no_mem}
use pantum_open.Scan.Handle.{OutQueue}
use pantum_open.Scan.Image.Queue.{
  rewind, compact, grow_out, out_fuel, need_for, regrow, out_reserve,
}

-- The bytes that sane_read has not handed out yet.
abbrev pub unread : OutQueue → List ℕ
unread q = drop q.pos q.bytes

abbrev pub IsQueue : OutQueue → Type 0
IsQueue q = q.pos ≤ length q.bytes

pub record Reserved (extra : ℕ) (q : OutQueue) (r : Status × OutQueue) : Type 0 where
  pub outcome : (r.0 ≡ good) ⊎ (r.0 ≡ no_mem)
  pub unread : unread r.1 ≡ unread q
  pub queue : IsQueue r.1
  pub room :
      q.capacity ≤ q.block
      → length q.bytes + extra ≤ 2 ^ 63
      → r.0 ≡ good
      → (length r.1.bytes + extra ≤ r.1.capacity) × (r.1.capacity ≤ r.1.block)

rewind-unread : (q : OutQueue) → unread (rewind q) ≡ unread q
unfolding rewind
rewind-unread q =
    if-cases (λ q'. unread q' ≡ unread q) (not (q.pos == 0) && q.pos == length q.bytes)
      (record q { bytes = []; pos = 0 }) q (λ e. sym (drop-all q.pos q.bytes (ground arith)))
      (λ e. refl)

rewind-IsQueue : (q : OutQueue) → IsQueue q → IsQueue (rewind q)
unfolding rewind
rewind-IsQueue q h = ground arith

rewind-capacity :
    (q : OutQueue)
    → ((rewind q).capacity ≡ q.capacity)
      × ((rewind q).block ≡ q.block)
      × (length (rewind q).bytes ≤ length q.bytes)
unfolding rewind
rewind-capacity q = ground arith

-- Up to half the 64-bit range the loop ends with room for `need` bytes.
grow_out-enough :
    (fuel size need : ℕ)
    → 0 < size
    → need ≤ 2 ^ 63
    → need ≤ size * 2 ^ fuel
    → need ≤ grow_out fuel size need
unfolding grow_out
grow_out-enough zero size need p hn h = omega (arith, h)
grow_out-enough (suc fuel) size need p hn h =
    let double : size * (2 ^ fuel * 2) ≡ size * 2 * 2 ^ fuel = omega arith in
    let h' : need ≤ size * 2 * 2 ^ fuel = rw (pow-suc, double) at h in
    if-cases (λ n. need ≤ n) (ltb size need) _ size
      (λ e.
        let lt : size < need = ltb→lt size need e in
        let m : size * 2 % 2 ^ 64 ≡ size * 2 = omega arith in
        let k : (size == 0) ≡ false = ground arith in
        rw (k, m) (grow_out-enough fuel (size * 2) need (omega arith) hn h'))
      (ltb→ge size need)

pub grow_out-any :
    (fuel size need : ℕ) → need ≤ 2 ^ 63 → need ≤ 2 ^ fuel → need ≤ grow_out (suc fuel) size need
grow_out-any fuel zero need hn h =
    unfold grow_out in
    if-cases (λ n. need ≤ n) (ltb 0 need) (grow_out fuel 65536 need) 0
      (λ e. grow_out-enough fuel 65536 need (omega arith) hn (omega (arith, h))) (ltb→ge 0 need)
grow_out-any fuel (suc size) need hn h =
    grow_out-enough (suc fuel) (suc size) need (omega arith) hn (
      let p : 2 ^ suc fuel ≡ 2 ^ fuel * 2 = pow-suc 2 fuel in
      let m : suc size * (2 ^ fuel * 2) ≡ 2 ^ fuel * 2 + size * (2 ^ fuel * 2) = omega arith in
      rw (p, m) (omega (arith, h)))

module _ (can_alloc : ℕ → Bool) where
  regrow-Reserved :
      (extra : ℕ) (q : OutQueue) → IsQueue q → Reserved extra q (regrow can_alloc extra q)
  unfolding regrow
  regrow-Reserved extra q h =
      if-cases (Reserved extra q) (can_alloc size)
        (good, record q { capacity = size; block = size }) (no_mem, record q { capacity = size })
        (λ e. record {
          outcome = inl refl;
          unread = refl;
          queue = h;
          room = λ s b g. (
            omega
                (arith, grow_out-any 63 q.capacity (need_for q extra) (omega arith) (omega arith)),
            omega arith,
          );
        })
        (λ e. record { outcome = inr refl; unread = refl; queue = h; room = λ s b g. cc })
    where
      size : ℕ
      size = grow_out out_fuel q.capacity (need_for q extra)

  after_Reserved :
      (extra : ℕ) (q q' : OutQueue) (r : Status × OutQueue)
      → unread q' ≡ unread q
      → q'.capacity ≡ q.capacity
      → q'.block ≡ q.block
      → length q'.bytes ≤ length q.bytes
      → Reserved extra q' r
      → Reserved extra q r
  after_Reserved extra q q' r u c b l d = record {
    outcome = d.outcome;
    unread = d.unread ∙ u;
    queue = d.queue;
    room = λ s n g. d.room (omega arith) (omega arith) g;
  }

  fits-Reserved :
      (extra : ℕ) (q : OutQueue)
      → IsQueue q
      → leb (need_for q extra) q.capacity ≡ true
      → Reserved extra q (good, q)
  fits-Reserved extra q h e = record {
    outcome = inl refl;
    unread = refl;
    queue = h;
    room = λ s n g. ground arith;
  }

  -- On a queue whose read position is inside it, out_reserve keeps the bytes that were not handed out
  -- yet and the position inside; and where the block has the size that the queue was told and the
  -- request stays within 2 ^ 63 bytes, "good" means that the block has room for the request.
  pub out_reserve-Reserved :
      (extra : ℕ) (q : OutQueue) → IsQueue q → Reserved extra q (out_reserve can_alloc extra q)
  unfolding out_reserve compact
  out_reserve-Reserved extra q h =
      after_Reserved extra q q1 _ (rewind-unread q) (rewind-capacity q).0 (rewind-capacity q).1
        (rewind-capacity q).2
        (if-cases (Reserved extra q1) (leb (need_for q1 extra) q1.capacity) (good, q1) _
          (fits-Reserved extra q1 h1)
          (λ e.
            if-cases (Reserved extra q1) (q1.pos == 0) (regrow can_alloc extra q1) _
              (λ e'. regrow-Reserved extra q1 h1)
              (λ e'.
                after_Reserved extra q1 q2 _ refl refl refl
                  (omega (arith, length-drop q1.pos q1.bytes))
                  (if-cases (Reserved extra q2) (leb (need_for q2 extra) q2.capacity) (good, q2)
                    (regrow can_alloc extra q2) (fits-Reserved extra q2 (omega arith))
                    (λ e''. regrow-Reserved extra q2 (omega arith))))))
    where
      q1 : OutQueue
      q1 = rewind q

      q2 : OutQueue
      q2 = compact q1

      h1 : IsQueue q1
      h1 = rewind-IsQueue q h
