-- ===== src/Print/Buffer/Growth.antt =====
-- buf_append keeps its bytes inside the block, and loses none.
use pantum_open.Base.{
  ℕ, zero, suc, ◌+◌, ◌*◌, ◌%◌, ◌^◌, ◌≤◌, ◌≡◌, Bool, true, false, List, ◌++◌, length, length-append,
  ltb, ◌==◌, if◌then◌else◌, arith, ◌⊎◌, inl, inr, Bool-cases, ltb→lt, ltb→ge,
}
use native.Mathlib.Nat.{pow-suc}
use pantum_open.Print.Buffer.{Buf, first_cap, grow_cap, grow_fuel, buf_append}

-- The block is large enough for the bytes, and its size is 0 or at least the first size.
pub record IsSound (b : Buf) : Type 0 where
  pub fits : length b.bytes ≤ b.cap
  pub start : (b.cap ≡ 0) ⊎ (first_cap ≤ b.cap)

-- Up to half the 64-bit range no doubling wraps, and the loop ends with room for `need` bytes.
grow_cap-enough :
    (fuel size need : ℕ)
    → need ≤ 2 ^ 63
    → need ≤ size * 2 ^ fuel
    → (need ≤ grow_cap fuel size need) × (size ≤ grow_cap fuel size need)
unfolding grow_cap
grow_cap-enough zero size need hn h = (omega (arith, h), omega arith)
grow_cap-enough (suc fuel) size need hn h =
    let double : size * (2 ^ fuel * 2) ≡ size * 2 * 2 ^ fuel = omega arith in
    let h' : need ≤ size * 2 * 2 ^ fuel = rw (pow-suc, double) at h in
    elim (Bool-cases (ltb size need)) [
      | inr e ↦ rw e (omega (arith, ltb→ge size need e), omega arith)
      | inl e ↦
          let wrap : size * 2 % 2 ^ 64 ≡ size * 2 = omega (arith, ltb→lt size need e) in
          rw (e, wrap)
            (let r = grow_cap-enough fuel (size * 2) need hn h' in (r.0, omega (arith, r.1)))
    ]

-- A call that is not poisoned appends all of `src` or, where realloc fails, nothing at all and
-- poisons the buffer; a poisoned buffer stays as it is.
pub record Appended (b : Buf) (src : List ℕ) (b' : Buf) : Type 0 where
  pub sound : IsSound b'
  pub kept : b'.failed ≡ false → (b.failed ≡ false) × (b'.bytes ≡ b.bytes ++ src)
  pub lost : b'.failed ≡ true → b'.bytes ≡ b.bytes

module _ (can_alloc : ℕ → Bool) where
  -- On a sound buffer that stays within 2 ^ 63 bytes, buf_append leaves a sound buffer, whose block
  -- holds its bytes; unless the result is poisoned the bytes are the old ones and then all of `src`,
  -- and where it is poisoned they are the old ones alone.
  pub buf_append-Appended :
      (b : Buf) (src : List ℕ)
      → IsSound b
      → length b.bytes + length src ≤ 2 ^ 63
      → Appended b src (buf_append can_alloc b src)
  unfolding buf_append
  buf_append-Appended b src v h = ground (
    arith,
    length-append b.bytes src,
    grow_cap-enough grow_fuel (if b.cap == 0 then first_cap else b.cap)
        ((length b.bytes + length src) % 2 ^ 64),
  )
