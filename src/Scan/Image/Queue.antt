-- ===== src/Scan/Image/Queue.antt =====
-- out_reserve of src/pantum.c. realloc belongs to the C library: whether it can give a block of a
-- size is the parameter `can_alloc`.
use pantum_open.Base.{
  ℕ, zero, suc, ◌+◌, ◌*◌, ◌%◌, ◌^◌, Bool, not, ◌&&◌, [], length, drop, ltb, leb, ◌==◌,
  if◌then◌else◌,
}
use pantum_open.Scan.Status.{Status, good, no_mem}
use pantum_open.Scan.Handle.{OutQueue}

-- `if (h->out_pos && h->out_pos == h->out_len)`
unfoldable pub rewind : OutQueue → OutQueue
rewind q =
    if not (q.pos == 0) && q.pos == length q.bytes then record q { bytes = []; pos = 0 } else q

-- The memmove to the front.
unfoldable pub compact : OutQueue → OutQueue
compact q = record q { bytes = drop q.pos q.bytes; pos = 0 }

-- `while (h->out_cap < need)`, in 64 bits, by at most `fuel` rounds.
unfoldable pub grow_out : ℕ → ℕ → ℕ → ℕ
grow_out zero size need = size
grow_out (suc fuel) size need =
    let rest = grow_out fuel (if size == 0 then 65536 else size * 2 % 2 ^ 64) need in
    if ltb size need then rest else size

-- From 65536 on 47 doublings reach 2 ^ 63.
abbrev pub out_fuel : ℕ
out_fuel = 64

abbrev pub need_for : OutQueue → ℕ → ℕ
need_for q extra = (length q.bytes + extra) % 2 ^ 64

module _ (can_alloc : ℕ → Bool) where
  -- The loop and realloc: out_cap is raised before it is known whether there is such a block.
  unfoldable pub regrow : ℕ → OutQueue → Status × OutQueue
  regrow extra q =
      let size = grow_out out_fuel q.capacity (need_for q extra) in
      if can_alloc size
      then (good, record q { capacity = size; block = size })
      else (no_mem, record q { capacity = size })

  unfoldable pub out_reserve : ℕ → OutQueue → Status × OutQueue
  out_reserve extra q =
      let q1 = rewind q in
      let q2 = compact q1 in
      if leb (need_for q1 extra) q1.capacity
      then (good, q1)
      else if q1.pos == 0
      then regrow extra q1
      else if leb (need_for q2 extra) q2.capacity
      then (good, q2)
      else regrow extra q2
