-- ===== src/Scan/Job/Tests.antt =====
-- The theorems on jobs at a concrete scanner, options and page.
use pantum_open.Base.{
  ℕ, ◌+◌, ◌*◌, ◌≤◌, ◌≡◌, refl, Bool, true, false, Option, none, some, List, [], ◌∷◌, ◌++◌, length,
  take, drop, length-take, replicate, length-replicate, ◌%◌, ◌^◌, ◌<◌, arith, ◌⊎◌, get_or, ◌-◌,
}
use pantum_open.Wire.{put_be32, get_be32}
use pantum_open.Scan.Image.{
  rewind, grow_out, regrow, out_reserve, fill, white_byte, convert_row, white_row, white_rows,
  emit_white_rows, handle_data_block, IsReady, Advances, BlockStored, handle_data_block-Stored,
  convert_row-inside, check_block, read_rows, store_rows, place_rows, place_row, Reserved,
  out_reserve-Reserved, out_reserve-after_no_mem, IsPage, sample_of, convert_row-shows,
}
use pantum_open.Scan.Session.{
  words_of, bytes_of, colour_word, edit_words, job_settings, swallow_frame, unlock_device,
  lock_loop, lock_device, setup_job, wanted_word, job_settings-wanted,
}
use pantum_open.Scan.Status.{Status, good, eof, status_or, device_busy, no_mem}
use pantum_open.Scan.Usb.{
  Device, IsLibusb, success, Request, bulk_out, bulk_in, clear_halt, Reply, Wire, try_bulk,
  write_loop, usb_write, read_loop, usb_read, drain_loop, drain_payload,
}
use pantum_open.Scan.Frame.{
  frame_bytes, if_good, unpack, send_frame, recv_rest, recv_frame, await_ack, collect_reply,
  command,
}
use pantum_open.Scan.Window.{
  gray, flatbed, Settings, compute_parameters, source_code, source_is_adf, effective_resolution,
  clamp_axis, compute_window, at_least_one, line_format, frame_rgb, frame_gray,
}
use pantum_open.Scan.Handle.{OutQueue, Handle}
use pantum_open.Scan.Job.{
  Env, sane_start, on_job_end, dispatch, pump_frame, is_halftone, threshold_of, with_margins,
  prepare, await_first_rows, launch, behind_lock, run_job, resume_job, attempt_job, start_job,
  next_start, deliver, read_loop_frames, sane_read, IsEnv, IsOffered, IsOpen,
  compute_parameters-IsSheet, IsReading, begun_page, IsBusy, Started, sane_start-Started, ReadDone,
  sane_read-ReadDone, Reading, ReadRun, one_more, unread_page, sane_read-whole_page,
  sane_read-comes_to_an_end, sane_open, sane_cancel, CallRun, then_one, none_yet, start, cancel,
  IsNew, sane_open-stays_open, new_page, resume_job-never_empty, attempted,
}

-- The options of a small grey page.
abbrev small : Settings
small = record {
  mode = gray;
  source = flatbed;
  resolution = 75;
  preview = false;
  tl_x = 0;
  tl_y = 0;
  br_x = 15;
  br_y = 15;
}

abbrev no_queue : OutQueue
no_queue = record { block = 0; capacity = 0; bytes = []; pos = 0; overrun = false }

abbrev opened : Handle
opened = record {
  settings = small;
  params = compute_parameters small;
  scanning = false;
  locked = false;
  cancelled = false;
  eof = false;
  non_blocking = false;
  has_adf = false;
  feeding = false;
  next_row = 0;
  threshold_fixed = 3276800;
  threshold = 0;
  halftone = false;
  white_top = 0;
  white_bottom = 0;
  white_left = 0;
  white_right = 0;
  gamma = [];
  out = no_queue;
  raw_cap = 0;
}

-- What the scanner sends in a job that ends before the first row.
abbrev script : List ℕ
script =
    frame_bytes 0x00 []
    ++ (frame_bytes 0x08 []
        ++ (frame_bytes 0x06 (replicate 100 0)
            ++ (frame_bytes 0x07 []
                ++ (frame_bytes 0x02 [] ++ (frame_bytes 0x0c [] ++ frame_bytes 0x01 [])))))

abbrev taken : Wire → ℕ
taken [] = 0
taken (e ∷ w) = length e.reply.bytes + taken w

abbrev reply_of : List ℕ → ℕ → Reply
reply_of xs n = record { rc = success; count = n; bytes = xs }

abbrev answers : ℕ → Request → Reply
answers at (bulk_out xs t) = reply_of [] (length xs)
answers at (bulk_in n t) = reply_of (take n (drop at script)) 0
answers at (clear_halt ep) = reply_of [] 0

abbrev env : Env
env = record {
  device = λ w q. answers (taken w) q;
  can_alloc = λ n. true;
  garbage = λ q n. replicate n 0;
  dither_mask = λ i. 0;
  mask_status = good;
  gamma_of = λ colour. [];
  dbg_level = 0;
}

abbrev began : Option Status × Handle × Wire
began = sane_start env 3 opened []

abbrev handed : Reading
handed = sane_read env 3 1000 began.1 began.2

-- What the run comes to: a page that begins, is handed out in one call and is then at its end.
run_by_hand :
    (began.0 ≡ some good)
    × (began.1.non_blocking ≡ false)
    × (handed.0 ≡ some good)
    × ((sane_read env 3 1000 handed.2 handed.3).0 ≡ some eof)
unfolding put_be32 get_be32 status_or try_bulk write_loop usb_write read_loop usb_read drain_loop
    drain_payload if_good frame_bytes unpack send_frame recv_rest recv_frame await_ack collect_reply
    command source_code source_is_adf effective_resolution clamp_axis compute_window at_least_one
    line_format compute_parameters rewind grow_out regrow out_reserve fill white_byte white_row
    white_rows emit_white_rows words_of bytes_of colour_word edit_words job_settings swallow_frame
    unlock_device lock_loop lock_device setup_job on_job_end dispatch pump_frame is_halftone
    threshold_of with_margins prepare await_first_rows launch behind_lock run_job attempt_job
    start_job next_start sane_start deliver read_loop_frames sane_read attempted
run_by_hand = (refl, refl, refl, refl)

began-good : began.0 ≡ some good
began-good = run_by_hand.0

length-garbage : IsEnv env
length-garbage q n = length-replicate n 0

small-IsOffered : IsOffered small
small-IsOffered = omega arith

opened-IsOpen : IsOpen opened
opened-IsOpen = record {
  settled = record { lock = refl; feeds = λ f. cc };
  queue = omega arith;
  sheet = compute_parameters-IsSheet small small-IsOffered;
  offered = small-IsOffered;
}

began-IsReading : IsReading 0 began.1 × (began.1.cancelled ≡ false)
began-IsReading = begun_page env length-garbage 3 opened [] opened-IsOpen began-good

sane_start-Started_example :
    (IsBusy opened × (began ≡ (some device_busy, opened, []))) ⊎ Started opened began
sane_start-Started_example = sane_start-Started env length-garbage 3 opened [] opened-IsOpen

sane_read-ReadDone_example : ReadDone 0 50 began.1 (sane_read env 3 50 began.1 began.2)
sane_read-ReadDone_example =
    sane_read-ReadDone env length-garbage 3 0 50 began.1 began.2 began-IsReading.0 began-IsReading.1
      (omega arith)

handed-good : handed.0 ≡ some good
handed-good = run_by_hand.2

-- The page is handed out in one call, and the next one finds its end.
whole_page_read : ReadRun env began.1 began.2 1 (0 + length handed.1) handed.2 handed.3
whole_page_read = one_more 3 1000 0 0 began.1 began.2 unread_page (omega arith) handed-good

sane_read-whole_page_example :
    (0 + length handed.1 ≤ began.1.params.lines * began.1.params.bytes_per_line)
    × ((sane_read env 3 1000 handed.2 handed.3).0 ≡ some eof
        → 0 + length handed.1 ≡ began.1.params.lines * began.1.params.bytes_per_line)
sane_read-whole_page_example =
    sane_read-whole_page env length-garbage 3 opened [] 1 (0 + length handed.1) handed.2 handed.3 3
      1000 opened-IsOpen began-good whole_page_read (omega arith)

began-blocking : began.1.non_blocking ≡ false
began-blocking = run_by_hand.1

sane_read-comes_to_an_end_example : 1 ≤ began.1.params.lines * began.1.params.bytes_per_line
sane_read-comes_to_an_end_example =
    sane_read-comes_to_an_end env length-garbage 3 opened [] 1 (0 + length handed.1) handed.2
      handed.3 opened-IsOpen began-good began-blocking whole_page_read

abbrev on_open : Handle × Wire
on_open = sane_open env opened []

abbrev on_start : Option Status × Handle × Wire
on_start = sane_start env 3 on_open.0 on_open.1

-- Opened, started and cancelled.
three_calls : CallRun env on_open.0 on_open.1 (sane_cancel env on_start.1) on_start.2
three_calls =
    then_one on_start.1 on_start.2 (sane_cancel env on_start.1) on_start.2
      (then_one on_open.0 on_open.1 on_start.1 on_start.2 none_yet (start 3 on_open.0 on_open.1))
      (cancel on_start.1 on_start.2)

opened-IsNew : IsNew opened
opened-IsNew = record {
  scanning = refl;
  locked = refl;
  feeding = refl;
  pos = refl;
  offered = small-IsOffered;
}

sane_open-stays_open_example : IsOpen (sane_cancel env on_start.1)
sane_open-stays_open_example =
    sane_open-stays_open env length-garbage opened [] (sane_cancel env on_start.1) on_start.2
      opened-IsNew three_calls

opened-IsReady : IsReady opened
opened-IsReady = record { page = opened-IsOpen.sheet.page; queue = omega arith }

-- A data block of one row of 11 pixels, which begins at row 1.
abbrev one_row : List ℕ
one_row =
    put_be32 0
    ++ (put_be32 1
        ++ (put_be32 1 ++ (put_be32 1 ++ (put_be32 11 ++ (put_be32 0 ++ replicate 11 5)))))

abbrev sends_block : Device
sends_block w (bulk_out xs t) = reply_of [] (length xs)
sends_block w (bulk_in n t) = reply_of (take n (drop (taken w) one_row)) 0
sends_block w (clear_halt ep) = reply_of [] 0

sends_block-IsLibusb : IsLibusb sends_block
sends_block-IsLibusb =
    (λ w n t. omega (arith, length-take n (drop (taken w) one_row)), λ w xs t. omega arith)

abbrev after_block : Status × Handle × Wire
after_block = handle_data_block env.can_alloc env.garbage env.dither_mask sends_block 35 opened []

-- The block is taken and two rows stand in the queue, a white one and its own.
block_by_hand : (after_block.0 ≡ good) × (after_block.1.next_row ≡ 2)
unfolding put_be32 get_be32 try_bulk read_loop usb_read drain_loop drain_payload if_good source_code
    source_is_adf effective_resolution clamp_axis compute_window at_least_one line_format
    compute_parameters rewind grow_out regrow out_reserve fill white_byte white_row white_rows
    emit_white_rows handle_data_block check_block read_rows store_rows place_rows place_row
    status_or
block_by_hand = (refl, refl)

handle_data_block-Stored_example :
    Advances opened after_block.1
    × (after_block.0 ≡ good → BlockStored env.dither_mask 35 opened [] after_block)
handle_data_block-Stored_example =
    handle_data_block-Stored env.can_alloc env.garbage env.dither_mask length-garbage sends_block
      sends_block-IsLibusb 35 opened [] opened-IsReady (omega arith)

job_settings-wanted_example :
    (length (job_settings small (replicate 100 7)) ≡ 100)
    × (get_be32 (drop 12 (job_settings small (replicate 100 7)))
        ≡ wanted_word small 3 (get_be32 (drop 12 (replicate 100 7))) % 2 ^ 32)
job_settings-wanted_example = job_settings-wanted small (replicate 100 7) 3 (omega arith)

-- A pixel of a colour line behind the margin on the left.
abbrev colourful : Handle
colourful = record opened {
  params = record {
    format = frame_rgb;
    depth = 8;
    pixels_per_line = 4;
    bytes_per_line = 12;
    lines = 3;
  };
  white_left = 1;
}

colourful-IsPage : IsPage colourful.params
colourful-IsPage = record { rgb = λ e. refl; gray = λ e d. cc; bits = λ d. cc; lines = omega arith }

-- A bilevel line of ten dots, with three bytes behind its two.
abbrev dotted : Handle
dotted = record opened {
  params = record {
    format = frame_gray;
    depth = 1;
    pixels_per_line = 10;
    bytes_per_line = 2;
    lines = 3;
  };
  threshold = 128;
}

dotted-IsPage : IsPage dotted.params
dotted-IsPage = record {
  rgb = λ e. cc;
  gray = λ e d. cc;
  bits = λ d. omega arith;
  lines = omega arith;
}

convert_row-inside_example :
    (convert_row env.dither_mask dotted (replicate 10 1) 10 1 ((1 ∷ 2 ∷ []) ++ (3 ∷ 4 ∷ 5 ∷ []))
      ≡ convert_row env.dither_mask dotted (replicate 10 1) 10 1 (1 ∷ 2 ∷ []) ++ (3 ∷ 4 ∷ 5 ∷ []))
    × (length (convert_row env.dither_mask dotted (replicate 10 1) 10 1 (1 ∷ 2 ∷ [])) ≡ 2)
convert_row-inside_example =
    convert_row-inside env.dither_mask dotted (replicate 10 1) 10 1 (1 ∷ 2 ∷ []) (3 ∷ 4 ∷ 5 ∷ [])
      dotted-IsPage refl

convert_row-shows_example :
    get_or
      (convert_row env.dither_mask colourful (1 ∷ 2 ∷ 3 ∷ 4 ∷ 5 ∷ 6 ∷ []) 2 1 (replicate 12 0))
      (3 * 1 + 0)
      0
    ≡ sample_of colourful (1 ∷ 2 ∷ 3 ∷ 4 ∷ 5 ∷ 6 ∷ []) 2 1 1 (3 * 1 + (3 - 1 - 0))
convert_row-shows_example =
    convert_row-shows env.dither_mask colourful (1 ∷ 2 ∷ 3 ∷ 4 ∷ 5 ∷ 6 ∷ []) 2 1 1 0
      (replicate 12 0) colourful-IsPage refl refl (omega arith) (omega arith)

out_reserve-Reserved_example : Reserved 11 no_queue (out_reserve env.can_alloc 11 no_queue)
out_reserve-Reserved_example = out_reserve-Reserved env.can_alloc 11 no_queue (omega arith)

abbrev no_memory : ℕ → Bool
no_memory n = false

refused : (out_reserve no_memory 11 no_queue).0 ≡ no_mem
unfolding out_reserve rewind regrow grow_out
refused = refl

out_reserve-after_no_mem_example :
    let again = out_reserve no_memory 11 (out_reserve no_memory 11 no_queue).1 in
    (again.0 ≡ good) × (again.1.block < length again.1.bytes + 11)
out_reserve-after_no_mem_example =
    out_reserve-after_no_mem no_memory 11 no_queue refl refl (omega arith) refused

-- A feeder that has put out a page, in a job that the device is about to end.
abbrev paused : Handle
paused = record opened { scanning = true; locked = true; feeding = true; eof = true }

paused-IsOpen : IsOpen paused
paused-IsOpen = record {
  settled = record { lock = refl; feeds = λ f. refl };
  queue = omega arith;
  sheet = opened-IsOpen.sheet;
  offered = small-IsOffered;
}

abbrev ends_the_job : Env
ends_the_job = record env { device = λ w q. answers (160 + 100 + taken w) q }

waited_by_hand :
    ((await_first_rows ends_the_job 3 none (record (new_page paused) { feeding = false }) []).0
      ≡ some good)
    × ((await_first_rows ends_the_job 3 none (record (new_page paused) { feeding = false }) []).1
        ≡ none)
unfolding put_be32 get_be32 status_or try_bulk write_loop usb_write read_loop usb_read drain_loop
    drain_payload if_good frame_bytes unpack send_frame recv_rest recv_frame await_ack collect_reply
    command source_code source_is_adf effective_resolution clamp_axis compute_window at_least_one
    line_format compute_parameters rewind grow_out regrow out_reserve fill white_byte white_row
    white_rows emit_white_rows words_of bytes_of colour_word edit_words job_settings swallow_frame
    unlock_device lock_loop lock_device setup_job on_job_end dispatch pump_frame is_halftone
    threshold_of with_margins prepare await_first_rows launch behind_lock run_job attempt_job
    start_job next_start sane_start deliver read_loop_frames sane_read attempted
waited_by_hand = (refl, refl)

waited-good :
    (await_first_rows ends_the_job 3 none (record (new_page paused) { feeding = false }) []).0
    ≡ some good
waited-good = waited_by_hand.0

waited-quiet :
    (await_first_rows ends_the_job 3 none (record (new_page paused) { feeding = false }) []).1
    ≡ none
waited-quiet = waited_by_hand.1

resume_job-never_empty_example : (resume_job ends_the_job 3 paused []).0 ≡ some good
resume_job-never_empty_example =
    resume_job-never_empty ends_the_job length-garbage 3 paused [] paused-IsOpen refl waited-good
      waited-quiet
