-- ===== src/Lib.antt =====
-- Pantum M6500: the CUPS print filter (src/rastertopantum.c) and the SANE scanner backend
-- (src/pantum.c, src/pantum.h).
--
-- The two programs share no code but a byte order. The filter reads gray raster lines from CUPS,
-- turns and dithers them into a page bitmap, has jbig-kit compress it and writes the result as
-- ZjStream chunks. The backend speaks the scanner's frame protocol over two bulk endpoints.
--
-- Base       lists, Boolean tests and integers over the native numbers.
-- Wire       put_be16, put_be32, get_be32.
-- Print      src/rastertopantum.c:
--   File       fwrite on a stream, and sequences of writes that stop at a short one;
--   Chunk      the ZJT_ and ZJI_ numbers and write_chunk, and a reader of the chunk format that
--              follows notes/print-protocol.md;
--   Paper      paper_table and paper_find;         Options  opt_get, opt_bool, options_read;
--   Halftone   ht_table_600 and halftone_row;      Buffer   buf_t and buf_append;
--   Layout     page_layout;                        Page     jbig_compress, emit_page, finish_page;
--   Render     render_page and render_blank_page;
--   Job        the page spool, and of main the test of a raster header, the opening and closing of
--              the document and the manual duplex replay.
-- Scan       src/pantum.c:
--   Status     map_status and sane_pantum_strstatus;
--   Usb        usb_write, usb_read, drain_payload; Frame    send_frame, recv_frame, command;
--   Window     effective_resolution, compute_window, compute_parameters;
--   Handle     Pantum_Handle, with the queue of converted rows and a mark of a row stored behind the
--              end of its block, which the source does not keep;
--   Image      out_reserve, convert_row, emit_white_rows, handle_data_block;
--   Session    lock_device, check_adf, probe_adf, setup_job, end_scan;
--   Job        pump_frame, await_first_rows, run_job, resume_job, and the SANE calls open, start,
--              read, cancel, set_io_mode, get_parameters and close on one handle.
--
-- State is passed explicitly: a File holds the bytes written so far, a Wire the transfers so far,
-- the last one first. Code outside the repository is a parameter: fwrite by how many bytes it takes
-- (Accepts), realloc and malloc by which sizes they can give (can_alloc) and by what a new block
-- holds (garbage), cupsRasterReadPixels (read_pixels), the JBIG encoder (encode), the option
-- lookups of CUPS (Cups), the position and the reads of a temporary file (Stdio), and libusb with
-- the device behind it (Device), of which IsLibusb says that a transfer never moves more than its
-- buffer holds. What a job depends on besides the device is an Env: which blocks realloc can give and
-- what they hold, the dither mask, the tone curves and the debug level. The theorems on jobs hold for
-- every device, also for one that breaks the rules of libusb.
--
-- Loops carry a fuel. The transfer loops get one round for each byte, since a round that goes on
-- moves a byte; drain_payload one for each byte of payload; the JBIG data loop one more than the
-- entity has bytes; the swap of a row one for each pixel; the copy of a spooled page one for each
-- byte; the doubling of a buffer 64 rounds, when 47 reach from 65536 to 2 ^ 63. The theorems of
-- these loops hold with that fuel, so it never runs out. The number of stale frames that command
-- steps over is the source's own bound of 4, as are the 5 tries to lock, the 4 attempts at a job and
-- the 4096 frames that end_scan swallows. The wait for rows in await_first_rows and sane_read has no
-- bound in the source, since a device may send frames without rows for ever: it takes the number of
-- frames to look at, and a result of none says that it still waits behind them.
--
-- Numbers of 16 and 32 bits are cut where the source casts them (% 2 ^ w). A page buffer is the list
-- of its rows. Corners of a selection are hundredths of an inch, as mm_to_units gives them.
--
-- Not modelled: the tone curve and the dither mask, which are floating point; the configuration
-- file, the search for devices and the lists of devices and handles; the option descriptors and
-- sane_control_option, so that a change of the options is any change to values on offer while no job
-- runs; job cancellation in the filter; the loop of the filter's main over the pages and its exit
-- status; diagnostics.
pub mod Base
pub mod Wire
pub mod Print
pub mod Scan
