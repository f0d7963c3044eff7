-- ===== src/Print/Buffer.antt =====
-- buf_t of src/rastertopantum.c: buf_append with its growth loop. realloc belongs to the C library,
-- so whether it can give a block of a size is the parameter `can_alloc`.
pub mod Growth
use pantum_open.Base.{
  ℕ, zero, suc, ◌+◌, ◌*◌, ◌%◌, ◌^◌, Bool, true, false, List, [], ◌++◌, length, ltb, leb, ◌==◌,
  if◌then◌else◌,
}

-- `bytes` are the first `len` bytes at `data`, so `len` is their number.
pub record Buf : Type 0 where
  pub bytes : List ℕ
  pub cap : ℕ
  pub failed : Bool

abbrev pub empty_buf : Buf
empty_buf = record { bytes = []; cap = 0; failed = false }

abbrev pub first_cap : ℕ
first_cap = 65536

-- `while (cap < need) cap *= 2;` in 64 bits
unfoldable pub grow_cap : ℕ → ℕ → ℕ → ℕ
grow_cap zero cap need = cap
grow_cap (suc fuel) cap need =
    let rest = grow_cap fuel (cap * 2 % 2 ^ 64) need in if ltb cap need then rest else cap

-- From 65536 on, 47 doublings reach 2 ^ 63.
abbrev pub grow_fuel : ℕ
grow_fuel = 64

module _ (can_alloc : ℕ → Bool) where
  unfoldable pub buf_append : Buf → List ℕ → Buf
  buf_append b src =
      let need = (length b.bytes + length src) % 2 ^ 64 in
      let start = if b.cap == 0 then first_cap else b.cap in
      let cap = grow_cap grow_fuel start need in
      if b.failed
      then b
      else if ltb b.cap need
      then (if can_alloc cap
          then record b { bytes = b.bytes ++ src; cap = cap }
          else record b { failed = true })
      else record b { bytes = b.bytes ++ src }
