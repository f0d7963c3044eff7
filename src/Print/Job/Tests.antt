-- ===== src/Print/Job/Tests.antt =====
-- The theorems on manual duplex at a job of three pages.
use pantum_open.Base.{
  ◌≡◌, refl, true, some, [], ◌∷◌, ◌++◌, length, take, drop, ltb, concat, reverse, inr, arith,
}
use pantum_open.Print.File.{File, Writer, fwrite, Writes, Writes-fwrite}
use pantum_open.Print.Chunk.{chunk_bytes}
use pantum_open.Print.Chunk.Zjt
use pantum_open.Print.Page.{raw_chunk}
use pantum_open.Print.Job.Spool.{Stdio, IsStdio, PageSpool, spool_mark}
use pantum_open.Print.Job.Replay.{replay}
use pantum_open.Print.Job.Copies.{Completes, pages}
use pantum_open.Print.Job.Order.{replay-order}
use pantum_open.Print.Job.Document.{
  uel, zj_magic, param_blob, doc_items, write_start, write_end, document-Writes,
}
use pantum_open.Print.Job.Marks.{Marked, spool_mark-pages}

abbrev stdio : Stdio
stdio = record {
  accepts = λ f xs. length xs;
  ftell = λ f. some (length f.bytes);
  fseek = λ f p. true;
  fread = λ f p n. take n (drop p f.bytes);
}

stdio-IsStdio : IsStdio stdio
stdio-IsStdio = record { seeks = λ f p. refl; reads = λ f p n. refl }

abbrev fronts : PageSpool
fronts = record {
  file = record { id = 3; bytes = 10 ∷ 11 ∷ 30 ∷ [] };
  slots = record { offset = 0; length = 2 } ∷ record { offset = 2; length = 1 } ∷ [];
  room = 16;
}

abbrev backs : PageSpool
backs = record {
  file = record { id = 4; bytes = 20 ∷ 21 ∷ [] };
  slots = record { offset = 0; length = 2 } ∷ [];
  room = 16;
}

abbrev stdout : File
stdout = record { id = 1; bytes = [] }

abbrev blank : Writer
blank = fwrite stdio.accepts (7 ∷ [])

blank-Completes : Completes blank (7 ∷ [])
blank-Completes f = (Writes-fwrite stdio.accepts (7 ∷ []) f).complete

replay_succeeds : (replay stdio blank fronts backs stdout).0 ≡ true
unfolding replay pantum_open.Print.Job.Replay.copy_forward pantum_open.Print.Job.Spool.spool_copy
    pantum_open.Print.Job.Spool.copy_loop fwrite pantum_open.Print.Chunk.write_chunk
    pantum_open.Print.Chunk.header_bytes pantum_open.Wire.put_be32 pantum_open.Wire.put_be16
    pantum_open.Print.Chunk.write_items pantum_open.Print.Job.Replay.copy_backward
replay_succeeds = refl

replay-order_example :
    (replay stdio blank fronts backs stdout).1.bytes
    ≡ concat (pages fronts)
      ++ ((chunk_bytes (raw_chunk Zjt.pause []) ++ (7 ∷ [])) ++ concat (reverse (pages backs)))
replay-order_example =
    replay-order stdio stdio-IsStdio blank (7 ∷ []) fronts backs blank-Completes stdout
      replay_succeeds

spool_mark-pages_example :
    Marked stdio (λ n. ltb n 100) backs (21 ∷ []) (spool_mark stdio (λ n. ltb n 100) backs 1)
spool_mark-pages_example =
    spool_mark-pages stdio (λ n. ltb n 100) backs (20 ∷ []) (21 ∷ []) (inr refl) (omega arith)
      (omega arith) refl

document-Writes_example :
    Writes stdio.accepts (write_start stdio.accepts) (
      (uel ++ zj_magic)
      ++ (chunk_bytes (record { type = Zjt.pantum_param; items = []; raw = param_blob })
          ++ chunk_bytes (record { type = Zjt.start_doc; items = doc_items; raw = [] })))
    × Writes stdio.accepts
        (write_end stdio.accepts)
        (chunk_bytes (record { type = Zjt.end_doc; items = []; raw = [] }) ++ uel)
document-Writes_example = document-Writes stdio.accepts
