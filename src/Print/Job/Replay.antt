-- ===== src/Print/Job/Replay.antt =====
-- What main of src/rastertopantum.c does behind the last page: the replay of the two spools.
use pantum_open.Base.{ℕ, zero, suc, ◌+◌, ◌&&◌, length, ltb, if◌then◌else◌, []}
use pantum_open.Print.File.{Writer, done, then_write}
use pantum_open.Print.Chunk.{write_chunk}
use pantum_open.Print.Chunk.Zjt
use pantum_open.Print.Job.Spool.{Stdio, PageSpool, spool_copy}

-- Two steps that both run, where the second does not look at the first one's result.
abbrev pub also_write : Writer → Writer → Writer
also_write a b f = let (x, f1) = a f in let (y, f2) = b f1 in (x && y, f2)

module _ (io : Stdio) where
  -- `for (i = 0; i < fronts.count; i++)`, with `left` pages to go.
  unfoldable pub copy_forward : PageSpool → ℕ → ℕ → Writer
  copy_forward sp zero i = done
  copy_forward sp (suc left) i = then_write (spool_copy io sp i) (copy_forward sp left (i + 1))

  -- `for (i = backs.count; !status && i-- > 0;)`
  unfoldable pub copy_backward : PageSpool → ℕ → Writer
  copy_backward sp zero = done
  copy_backward sp (suc i) = then_write (spool_copy io sp i) (copy_backward sp i)

  -- `blank` is the call of render_blank_page. The pause chunk and the blank page are both written
  -- where the fronts have been, and the backs only if both succeed.
  unfoldable pub replay : Writer → PageSpool → PageSpool → Writer
  replay blank fronts backs =
      let blank_back = if ltb (length backs.slots) (length fronts.slots) then blank else done in
      then_write (copy_forward fronts (length fronts.slots) 0) (
        then_write (also_write (write_chunk io.accepts Zjt.pause [] []) blank_back)
          (copy_backward backs (length backs.slots)))
