-- ===== src/Print/Job/Order.antt =====
-- The order of the pages of a manual duplex job on the output.
use mathlib.Core.Path.{subst}
use mathlib.Core.List.{reverse-append}
use pantum_open.Base.{
  ℕ, zero, suc, ◌+◌, ◌≤◌, ◌≡◌, refl, ap, true, false, List, [], ◌∷◌, ◌++◌, length, take, drop,
  get_or, ltb, if◌then◌else◌, arith, Bool-cases, inl, inr, ◌⊎◌, concat, map, reverse, take-all,
  drop-all,
}
use pantum_open.Print.File.{File, Writer, done, then_write}
use pantum_open.Print.Chunk.{chunk_bytes, write_chunk, write_chunk-Writes}
use pantum_open.Print.Chunk.Zjt
use pantum_open.Print.Page.{raw_chunk}
use pantum_open.Print.Job.Spool.{Stdio, IsStdio, PageSlot, PageSpool, no_slot, spool_copy}
use pantum_open.Print.Job.Replay.{also_write, copy_forward, copy_backward, replay}
use pantum_open.Print.Job.Copies.{
  Completes, Completes-done, Completes-then, Completes-also, page_in, pages, drop-get_or,
  take-get_or, spool_copy-Completes,
}

pub map-snoc :
    (f : PageSlot → List ℕ) (ss : List PageSlot) (s : PageSlot)
    → map f (ss ++ (s ∷ [])) ≡ map f ss ++ (f s ∷ [])
map-snoc f [] s = refl
map-snoc f (t ∷ ss) s = ap (λ xs. f t ∷ xs) (map-snoc f ss s)

module _ (io : Stdio) (std : IsStdio io) where
  copy_forward-Completes :
      (sp : PageSpool) (left i : ℕ)
      → i + left ≡ length sp.slots
      → Completes (copy_forward io sp left i) (concat (map (page_in sp) (drop i sp.slots)))
  unfolding copy_forward
  copy_forward-Completes sp zero i e = rw (drop-all i sp.slots (omega arith)) Completes-done
  copy_forward-Completes sp (suc left) i e = rw (drop-get_or i sp.slots (omega arith)) (
      Completes-then (spool_copy io sp i) (copy_forward io sp left (i + 1))
        (page_in sp (get_or sp.slots i no_slot)) (concat (map (page_in sp) (drop (suc i) sp.slots)))
        (spool_copy-Completes io std sp i)
        (next (copy_forward-Completes sp left (i + 1) (omega arith))))
    where
      next :
          Completes
            (copy_forward io sp left (i + 1))
            (concat (map (page_in sp) (drop (i + 1) sp.slots)))
          → Completes
              (copy_forward io sp left (i + 1))
              (concat (map (page_in sp) (drop (suc i) sp.slots)))
      next c = let k : suc i ≡ i + 1 = omega arith in rw k c

  copy_backward-Completes :
      (sp : PageSpool) (i : ℕ)
      → i ≤ length sp.slots
      → Completes (copy_backward io sp i) (concat (reverse (map (page_in sp) (take i sp.slots))))
  unfolding copy_backward
  copy_backward-Completes sp zero h = Completes-done
  copy_backward-Completes sp (suc i) h =
      rw
        (
          take-get_or i sp.slots (omega arith),
          map-snoc (page_in sp) (take i sp.slots) (get_or sp.slots i no_slot),
          reverse-append (map (page_in sp) (take i sp.slots))
              (page_in sp (get_or sp.slots i no_slot) ∷ []),
        )
        (Completes-then (spool_copy io sp i) (copy_backward io sp i)
          (page_in sp (get_or sp.slots i no_slot))
          (concat (reverse (map (page_in sp) (take i sp.slots)))) (spool_copy-Completes io std sp i)
          (copy_backward-Completes sp i (omega arith)))

  -- Where fseek succeeds, fread gives the bytes of the spool and `blank_bytes` is what the writing
  -- of the blank page appends when it succeeds: a replay that succeeds has put out the pages of
  -- the fronts in order, the pause chunk, the blank page where there are fewer backs than fronts
  -- and nothing there otherwise, and the pages of the backs in reverse order.
  pub replay-order :
      (blank : Writer) (blank_bytes : List ℕ) (fronts backs : PageSpool)
      → Completes blank blank_bytes
      → (f : File) → (replay io blank fronts backs f).0 ≡ true
      → (replay io blank fronts backs f).1.bytes
        ≡ f.bytes
          ++ (concat (pages fronts)
              ++ ((chunk_bytes (raw_chunk Zjt.pause [])
                    ++ (if ltb (length backs.slots) (length fronts.slots) then blank_bytes else []))
                  ++ concat (reverse (pages backs))))
  unfolding replay
  replay-order blank blank_bytes fronts backs c f =
      Completes-then (copy_forward io fronts (length fronts.slots) 0)
        (then_write (also_write (write_chunk io.accepts Zjt.pause [] []) maybe_blank)
          (copy_backward io backs (length backs.slots)))
        (concat (pages fronts))
        ((chunk_bytes (raw_chunk Zjt.pause []) ++ maybe_bytes) ++ concat (reverse (pages backs)))
        (copy_forward-Completes fronts (length fronts.slots) 0 (omega arith))
        (Completes-then (also_write (write_chunk io.accepts Zjt.pause [] []) maybe_blank)
          (copy_backward io backs (length backs.slots))
          (chunk_bytes (raw_chunk Zjt.pause []) ++ maybe_bytes) (concat (reverse (pages backs)))
          (Completes-also (write_chunk io.accepts Zjt.pause [] []) maybe_blank
            (chunk_bytes (raw_chunk Zjt.pause [])) maybe_bytes
            (λ f. (write_chunk-Writes io.accepts (raw_chunk Zjt.pause []) f).complete)
            (choose (Bool-cases (ltb (length backs.slots) (length fronts.slots)))))
          (whole (copy_backward-Completes backs (length backs.slots) (omega arith))))
        f
    where
      maybe_blank : Writer
      maybe_blank = if ltb (length backs.slots) (length fronts.slots) then blank else done

      maybe_bytes : List ℕ
      maybe_bytes = if ltb (length backs.slots) (length fronts.slots) then blank_bytes else []

      choose :
          (ltb (length backs.slots) (length fronts.slots) ≡ true)
            ⊎ (ltb (length backs.slots) (length fronts.slots) ≡ false)
          → Completes maybe_blank maybe_bytes
      choose (inl e) = rw e c
      choose (inr e) = rw e Completes-done

      whole :
          Completes
            (copy_backward io backs (length backs.slots))
            (concat (reverse (map (page_in backs) (take (length backs.slots) backs.slots))))
          → Completes (copy_backward io backs (length backs.slots)) (concat (reverse (pages backs)))
      whole d =
          subst
            (λ ss.
              Completes (copy_backward io backs (length backs.slots))
                (concat (reverse (map (page_in backs) ss))))
            (take-all (length backs.slots) backs.slots (omega arith)) d
