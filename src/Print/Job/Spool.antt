-- ===== src/Print/Job/Spool.antt =====
-- page_spool_t, spool_open, spool_mark and spool_copy of src/rastertopantum.c. ftell, fseek and
-- fread belong to the C library and are parameters: where a stream stands, whether it can be moved to
-- an offset, and what a read at an offset gives.
use pantum_open.Base.{
  ℕ, zero, suc, ◌+◌, ◌-◌, ◌*◌, ◌%◌, ◌^◌, ◌≡◌, Bool, true, false, Option, none, some, List, [], ◌∷◌,
  ◌++◌, length, take, drop, get_or, ltb, ◌==◌, if◌then◌else◌,
}
use pantum_open.Print.File.{File, Accepts, Writer, done, then_write, fwrite}

-- page_slot_t
pub record PageSlot : Type 0 where
  pub offset : ℕ
  pub length : ℕ

-- page_spool_t; `count` of the source is the number of its slots.
pub record PageSpool : Type 0 where
  pub file : File
  pub slots : List PageSlot
  pub room : ℕ

pub record Stdio : Type 0 where
  pub accepts : Accepts
  pub ftell : File → Option ℕ
  pub fseek : File → ℕ → Bool
  pub fread : File → ℕ → ℕ → List ℕ

-- Every offset inside a stream can be sought, and a read gives the bytes that stand there.
pub record IsStdio (io : Stdio) : Type 0 where
  pub seeks : (f : File) (p : ℕ) → io.fseek f p ≡ true
  pub reads : (f : File) (p n : ℕ) → io.fread f p n ≡ take n (drop p f.bytes)

-- `memset` and tmpfile, where there is a temporary file.
unfoldable pub spool_open : Option File → Option PageSpool
spool_open none = none
spool_open (some f) = some (record { file = f; slots = []; room = 0 })

abbrev pub no_slot : PageSlot
no_slot = record { offset = 0; length = 0 }

-- `sizeof (*p)`
abbrev pub slot_size : ℕ
slot_size = 16

abbrev pub with_slot : PageSpool → ℕ → PageSlot → PageSpool
with_slot sp room s = record { file = sp.file; slots = sp.slots ++ (s ∷ []); room = room }

-- sizeof (chunk)
abbrev pub copy_chunk : ℕ
copy_chunk = 65536

unfoldable pub next_room : ℕ → ℕ
next_room room = if room == 0 then 16 else room * 2 % 2 ^ 32

module _ (io : Stdio) where
  module _ (can_alloc : ℕ → Bool) where
    -- `none` is the -1 of a failed ftell or realloc.
    unfoldable pub spool_mark : PageSpool → ℕ → Option PageSpool
    spool_mark sp start = elim (io.ftell sp.file) [
      | none ↦ none
      | some end ↦
          let s : PageSlot = record { offset = start; length = end - start } in
          if length sp.slots == sp.room
          then (if can_alloc (next_room sp.room * slot_size)
              then some (with_slot sp (next_room sp.room) s)
              else none)
          else some (with_slot sp sp.room s)
    ]

  abbrev pub cannot_copy : Writer
  cannot_copy f = (false, f)

  -- `while (left > 0)`, from the offset `at` on; every round copies a byte at least.
  unfoldable pub copy_loop : ℕ → File → ℕ → ℕ → Writer
  copy_loop zero from left at = done
  copy_loop (suc fuel) from left at =
      let want = if ltb copy_chunk left then copy_chunk else left in
      let got = io.fread from at want in
      let more =
        then_write (fwrite io.accepts got)
          (copy_loop fuel from (left - length got) (at + length got)) in
      if ltb 0 left then (if length got == want then more else cannot_copy) else done

  unfoldable pub spool_copy : PageSpool → ℕ → Writer
  spool_copy sp index =
      let s = get_or sp.slots index no_slot in
      if io.fseek sp.file s.offset
      then copy_loop s.length sp.file s.length s.offset
      else cannot_copy
