-- ===== src/Print/Job/Marks.antt =====
-- The page that spool_mark of src/rastertopantum.c records.

use pantum_open.Base.{
  ℕ, ◌+◌, ◌-◌, ◌*◌, ◌^◌, ◌≤◌, ◌<◌, ◌≡◌, refl, ap, ◌∙◌, Bool, true, false, Option, none, some, List,
  [], ◌∷◌, ◌++◌, length, take, drop, ◌==◌, if◌then◌else◌, arith, length-append, Bool-cases, inl,
  inr, ◌⊎◌, ==→eq, take-all, drop-append_self,
}
use pantum_open.Print.Job.Spool.{
  Stdio, PageSlot, PageSpool, with_slot, next_room, slot_size, spool_mark,
}
use pantum_open.Print.Job.Copies.{page_in, pages}
use pantum_open.Print.Job.Order.{map-snoc}

-- What is to come of a call of spool_mark at the start `start` of the page `xs`: the pages of the
-- spool are the earlier ones and then that page, and the table holds its slots; or the call fails,
-- because ftell did or because the table was full and could not grow.
abbrev pub Marked : Stdio → (ℕ → Bool) → PageSpool → List ℕ → Option PageSpool → Type 0
Marked io can_alloc sp xs r =
    ((sp' : PageSpool) × (r ≡ some sp')
      × (pages sp' ≡ pages sp ++ (xs ∷ []))
      × (length sp'.slots ≤ sp'.room))
    ⊎ ((r ≡ none)
        × ((io.ftell sp.file ≡ none)
            ⊎ ((length sp.slots ≡ sp.room) × (can_alloc (next_room sp.room * slot_size) ≡ false))))

next_room-grows : (room : ℕ) → room < 2 ^ 31 → room < next_room room
unfolding next_room
next_room-grows room l = ground arith

length-with_slot :
    (sp : PageSpool) (room : ℕ) (slot : PageSlot)
    → length (with_slot sp room slot).slots ≡ length sp.slots + 1
length-with_slot sp room slot = length-append sp.slots (slot ∷ [])

module _ (io : Stdio) (can_alloc : ℕ → Bool) (sp : PageSpool) (before xs : List ℕ) where
  abbrev slot : PageSlot
  slot = record { offset = length before; length = length sp.file.bytes - length before }

  abbrev marked : Option ℕ → Bool → Bool → Option PageSpool
  marked told is_full has_room = elim told [
    | none ↦ none
    | some end ↦
        let s : PageSlot = record { offset = length before; length = end - length before } in
        if is_full
        then (if has_room then some (with_slot sp (next_room sp.room) s) else none)
        else some (with_slot sp sp.room s)
  ]

  mark_by :
      (told : Option ℕ) (is_full has_room : Bool)
      → io.ftell sp.file ≡ told
      → (length sp.slots == sp.room) ≡ is_full
      → can_alloc (next_room sp.room * slot_size) ≡ has_room
      → spool_mark io can_alloc sp (length before) ≡ marked told is_full has_room
  unfolding spool_mark
  mark_by told is_full has_room t e f i = marked (t i) (e i) (f i)

  marked-pages :
      (room : ℕ)
      → sp.file.bytes ≡ before ++ xs
      → pages (with_slot sp room slot) ≡ pages sp ++ (xs ∷ [])
  marked-pages room e = map-snoc (page_in sp) sp.slots slot ∙ ap (λ ys. pages sp ++ (ys ∷ [])) page
    where
      page : page_in sp slot ≡ xs
      page =
          (λ i. take (length (e i) - length before) (drop (length before) (e i)))
          ∙ ap (take (length (before ++ xs) - length before)) (drop-append_self before xs)
          ∙ take-all (length (before ++ xs) - length before) xs
              (omega (arith, length-append before xs))

  -- Provided that ftell fails or gives the end of the spool, that the table holds its slots and is
  -- shorter than 2 ^ 31, and that the page `xs` was written behind what the spool held before and its
  -- start is marked: the pages of the spool are the earlier ones and then that page, and the table
  -- holds its slots; or spool_mark fails, and then ftell did or the table was full and could not grow.
  pub spool_mark-pages :
      (io.ftell sp.file ≡ none) ⊎ (io.ftell sp.file ≡ some (length sp.file.bytes))
      → length sp.slots ≤ sp.room
      → sp.room < 2 ^ 31
      → sp.file.bytes ≡ before ++ xs
      → Marked io can_alloc sp xs (spool_mark io can_alloc sp (length before))
  spool_mark-pages (inl t) fits small e =
      inr (mark_by none (length sp.slots == sp.room) _ t refl refl, inl t)
  spool_mark-pages (inr t) fits small e =
      step (Bool-cases (length sp.slots == sp.room))
        (Bool-cases (can_alloc (next_room sp.room * slot_size)))
    where
      end : Option ℕ
      end = some (length sp.file.bytes)

      step :
          ((length sp.slots == sp.room) ≡ true) ⊎ ((length sp.slots == sp.room) ≡ false)
          → (can_alloc (next_room sp.room * slot_size) ≡ true)
            ⊎ (can_alloc (next_room sp.room * slot_size) ≡ false)
          → Marked io can_alloc sp xs (spool_mark io can_alloc sp (length before))
      step (inr f) g = inl (
        with_slot sp sp.room slot,
        mark_by end false _ t f refl,
        marked-pages sp.room e,
        ground (arith, length-with_slot sp sp.room slot, f),
      )
      step (inl f) (inl g) = inl (
        with_slot sp (next_room sp.room) slot,
        mark_by end true true t f g,
        marked-pages (next_room sp.room) e,
        omega (arith, length-with_slot sp (next_room sp.room) slot, next_room-grows sp.room small),
      )
      step (inl f) (inr g) =
          inr (mark_by end true false t f g, inr (==→eq (length sp.slots) sp.room f, g))
