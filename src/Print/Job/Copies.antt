-- ===== src/Print/Job/Copies.antt =====
-- spool_copy copies a page of the spool whole.

use pantum_open.Base.{
  ℕ, zero, suc, ◌+◌, ◌-◌, ◌≤◌, ◌<◌, ◌≡◌, refl, sym, ap, ◌∙◌, Bool, true, false, ◌&&◌, List, [], ◌∷◌,
  ◌++◌, length, take, drop, get_or, ltb, ◌==◌, if◌then◌else◌, arith, append-nil, append_assoc,
  drop-drop, Bool-cases, inl, inr, ◌⊎◌, map, ltb→lt, ltb→ge, ==→eq,
}
use pantum_open.Print.File.{File, Writer, done, then_write, fwrite, Writes-fwrite}
use pantum_open.Print.Job.Spool.{
  Stdio, IsStdio, PageSlot, PageSpool, no_slot, copy_chunk, cannot_copy, copy_loop, spool_copy,
}
use pantum_open.Print.Job.Replay.{also_write}

-- A writer that, where it reports success, has appended exactly these bytes.
abbrev pub Completes : Writer → List ℕ → Type 0
Completes w xs = (f : File) → (w f).0 ≡ true → (w f).1.bytes ≡ f.bytes ++ xs

pub Completes-done : Completes done []
Completes-done f h = sym (append-nil f.bytes)

pub Completes-fails : (xs : List ℕ) → Completes (λ f. (false, f)) xs
Completes-fails xs f h = cc

both_true : (x y : Bool) → (x && y) ≡ true → (x ≡ true) × (y ≡ true)
both_true x y h = ground arith

Completes-then_lem :
    (xs ys : List ℕ) (b : Writer) (f : File) (r : Bool × File)
    → (r.0 ≡ true → r.1.bytes ≡ f.bytes ++ xs)
    → Completes b ys
    → (if r.0 then b r.1 else (false, r.1)).0 ≡ true
    → (if r.0 then b r.1 else (false, r.1)).1.bytes ≡ f.bytes ++ (xs ++ ys)
Completes-then_lem xs ys b f (true, f') a c h =
    c f' h ∙ ap (λ zs. zs ++ ys) (a refl) ∙ append_assoc f.bytes xs ys
Completes-then_lem xs ys b f (false, f') a c h = cc

pub Completes-then :
    (a b : Writer) (xs ys : List ℕ)
    → Completes a xs
    → Completes b ys
    → Completes (then_write a b) (xs ++ ys)
Completes-then a b xs ys ca cb f h = Completes-then_lem xs ys b f (a f) (ca f) cb h

pub Completes-also :
    (a b : Writer) (xs ys : List ℕ)
    → Completes a xs
    → Completes b ys
    → Completes (also_write a b) (xs ++ ys)
Completes-also a b xs ys ca cb f h =
    let (x, y) = both_true (a f).0 (b (a f).1).0 h in
    cb (a f).1 y ∙ ap (λ zs. zs ++ ys) (ca f x) ∙ append_assoc f.bytes xs ys

-- The bytes of a page in a spool.
abbrev pub page_in : PageSpool → PageSlot → List ℕ
page_in sp s = take s.length (drop s.offset sp.file.bytes)

abbrev pub pages : PageSpool → List (List ℕ)
pages sp = map (page_in sp) sp.slots

take_nil : (n : ℕ) → take {A = ℕ} n [] ≡ []
take_nil zero = refl
take_nil (suc n) = refl

take_add : (m n : ℕ) (xs : List ℕ) → take (m + n) xs ≡ take m xs ++ take n (drop m xs)
take_add zero n xs = ap (λ k. take k xs) (omega arith)
take_add (suc m) n [] =
    (let e : suc m + n ≡ suc (m + n) = omega arith in ap (λ k. take k []) e) ∙ sym (take_nil n)
take_add (suc m) n (x ∷ xs) =
    (let e : suc m + n ≡ suc (m + n) = omega arith in ap (λ k. take k (x ∷ xs)) e)
    ∙ ap (λ ys. x ∷ ys) (take_add m n xs)

pub drop-get_or :
    (i : ℕ) (ss : List PageSlot) → i < length ss → drop i ss ≡ get_or ss i no_slot ∷ drop (suc i) ss
drop-get_or i [] h = absurd (omega arith)
drop-get_or zero (s ∷ ss) h = refl
drop-get_or (suc i) (s ∷ ss) h = drop-get_or i ss (omega arith)

pub take-get_or :
    (i : ℕ) (ss : List PageSlot)
    → i < length ss
    → take (suc i) ss ≡ take i ss ++ (get_or ss i no_slot ∷ [])
take-get_or i [] h = absurd (omega arith)
take-get_or zero (s ∷ ss) h = refl
take-get_or (suc i) (s ∷ ss) h = ap (λ xs. s ∷ xs) (take-get_or i ss (omega arith))

module _ (io : Stdio) (std : IsStdio io) where
  module _ (fuel : ℕ) (from : File) (left at : ℕ) where
    abbrev want : ℕ
    want = if ltb copy_chunk left then copy_chunk else left

    abbrev got : List ℕ
    got = io.fread from at want

    abbrev tail : Writer
    tail = copy_loop io fuel from (left - length got) (at + length got)

    abbrev tail_bytes : List ℕ
    tail_bytes = take (left - length got) (drop (at + length got) from.bytes)

    abbrev more : Writer
    more = then_write (fwrite io.accepts got) tail

    copy_round :
        (some_left full : Bool)
        → ltb 0 left ≡ some_left
        → (length got == want) ≡ full
        → copy_loop io (suc fuel) from left at
          ≡ (if some_left then (if full then more else cannot_copy io) else done)
    unfolding copy_loop
    copy_round some_left full e f =
        λ i. if e i then (if f i then more else cannot_copy io) else done

    want-le : (want ≤ left) × (0 < left → 0 < want)
    want-le = ground arith

    got_bytes : got ≡ take want (drop at from.bytes)
    got_bytes = std.reads from at want

    rest_bytes : length got ≡ want → take left (drop at from.bytes) ≡ got ++ tail_bytes
    rest_bytes e =
        (let k : left ≡ want + (left - want) = omega (arith, want-le.0) in
          ap (λ n. take n (drop at from.bytes)) k)
        ∙ take_add want (left - want) (drop at from.bytes)
        ∙ (λ i. sym got_bytes i ++ take (left - sym e i) (drop-drop at (sym e i) from.bytes i))

    nothing_left : ltb 0 left ≡ false → Completes done (take left (drop at from.bytes))
    nothing_left e = rw (let z : left ≡ 0 = omega (arith, ltb→ge 0 left e) in z) Completes-done

    whole_chunk :
        length got ≡ want
        → Completes tail tail_bytes
        → Completes more (take left (drop at from.bytes))
    whole_chunk e c = rw (rest_bytes e) (
        Completes-then (fwrite io.accepts got) tail got tail_bytes
          (λ g. (Writes-fwrite io.accepts got g).complete) c)

    copy_step :
        (ltb 0 left ≡ true) ⊎ (ltb 0 left ≡ false)
        → ((length got == want) ≡ true) ⊎ ((length got == want) ≡ false)
        → (0 < left → length got ≡ want → Completes tail tail_bytes)
        → Completes (copy_loop io (suc fuel) from left at) (take left (drop at from.bytes))
    copy_step (inr e) (inl f) ih = rw (copy_round false true e f) (nothing_left e)
    copy_step (inr e) (inr f) ih = rw (copy_round false false e f) (nothing_left e)
    copy_step (inl e) (inr f) ih =
        rw (copy_round true false e f) (Completes-fails (take left (drop at from.bytes)))
    copy_step (inl e) (inl f) ih =
        let l = ==→eq (length got) want f in
        rw (copy_round true true e f) (whole_chunk l (ih (ltb→lt 0 left e) l))

  copy_loop-Completes :
      (fuel : ℕ) (from : File) (left at : ℕ)
      → left ≤ fuel
      → Completes (copy_loop io fuel from left at) (take left (drop at from.bytes))
  copy_loop-Completes zero from left at h =
      rw (let e : left ≡ 0 = omega arith in e) (unfold copy_loop in Completes-done)
  copy_loop-Completes (suc fuel) from left at h =
      copy_step fuel from left at (Bool-cases (ltb 0 left))
        (Bool-cases (length (got fuel from left at) == want fuel from left at))
        (λ p e.
          copy_loop-Completes fuel from (left - length (got fuel from left at))
            (at + length (got fuel from left at)) (omega (arith, (want-le fuel from left at).1 p)))

  -- A page of the spool is copied whole, or the copy fails.
  pub spool_copy-Completes :
      (sp : PageSpool) (i : ℕ)
      → Completes (spool_copy io sp i) (page_in sp (get_or sp.slots i no_slot))
  unfolding spool_copy
  spool_copy-Completes sp i = rw (std.seeks sp.file (get_or sp.slots i no_slot).offset) (
      copy_loop-Completes (get_or sp.slots i no_slot).length sp.file
        (get_or sp.slots i no_slot).length (get_or sp.slots i no_slot).offset (omega arith))
