-- ===== src/Scan/Tests.antt =====
-- The theorems on the scanner backend at a concrete device and concrete options.
use pantum_open.Base.{
  ℕ, ◌≤◌, ◌<◌, ◌≡◌, true, false, none, List, [], ◌∷◌, length, take, length-take, if◌then◌else◌,
  arith, ◌⊎◌,
}
use pantum_open.Scan.Status.{good, inval, io_error}
use pantum_open.Scan.Usb.{
  success, Request, bulk_out, bulk_in, clear_halt, Reply, Device, IsLibusb, accepted, usb_read,
  usb_write, drain_payload, ReadDone, WriteDone, Drained, usb_read-ReadDone, usb_write-WriteDone,
  drain_payload-Drained,
}
use pantum_open.Scan.Frame.{
  settings_len, arrived, frame_bytes, unpack, unpack-frame_bytes, Read, recv_frame, recv_frame-Read,
  send_frame, send_frame-sends, Unanswered, Commanded, command, command-Ended,
}
use pantum_open.Scan.Window.{
  lineart, adf, Settings, source_is_adf, effective_resolution, compute_window, compute_parameters,
  pantum_max_x, pantum_max_y, pantum_max_y_adf, IsClamped, swapped, HoldsLine, compute_window_lem,
  compute_parameters_lem,
}

abbrev reply_of : List ℕ → ℕ → Reply
reply_of xs n = record { rc = success; count = n; bytes = xs }

-- A device that takes every byte and answers each read with the acknowledgement of CMD_LOCK.
abbrev answers : Request → Reply
answers (bulk_out xs t) = reply_of [] (length xs)
answers (bulk_in n t) = reply_of (take n (frame_bytes 0 [])) 0
answers (clear_halt ep) = reply_of [] 0

abbrev scanner : Device
scanner w q = answers q

scanner-IsLibusb : IsLibusb scanner
scanner-IsLibusb = (λ w n t. omega (arith, length-take n (frame_bytes 0 [])), λ w xs t. omega arith)

usb_read-ReadDone_example : ReadDone 32 [] [] (usb_read scanner 32 1000 [])
usb_read-ReadDone_example = usb_read-ReadDone scanner scanner-IsLibusb 32 1000 []

usb_write-WriteDone_example : WriteDone (1 ∷ 2 ∷ 3 ∷ []) [] (usb_write scanner (1 ∷ 2 ∷ 3 ∷ []) [])
usb_write-WriteDone_example = usb_write-WriteDone scanner scanner-IsLibusb (1 ∷ 2 ∷ 3 ∷ []) []

drain_payload-Drained_example : Drained 40 [] (drain_payload scanner 40 1000 [])
drain_payload-Drained_example = drain_payload-Drained scanner scanner-IsLibusb 40 1000 []

unpack-frame_bytes_example :
    unpack (frame_bytes 7 (1 ∷ 2 ∷ []))
    ≡ arrived (record { cmd = 7; arg0 = 0; status = 0; plen = 2 })
unpack-frame_bytes_example = unpack-frame_bytes 7 (1 ∷ 2 ∷ []) (omega arith) (omega arith)

recv_frame-Read_example : Read [] (recv_frame scanner 1000 false [])
recv_frame-Read_example = recv_frame-Read scanner scanner-IsLibusb 1000 []

send_frame-sends_example :
    ((settings_len < 2) × (send_frame scanner 7 (1 ∷ 2 ∷ []) [] ≡ (inval, [])))
    ⊎ ((2 ≤ settings_len)
        × (((send_frame scanner 7 (1 ∷ 2 ∷ []) []).0 ≡ good)
              × (accepted (send_frame scanner 7 (1 ∷ 2 ∷ []) []).1 ≡ frame_bytes 7 (1 ∷ 2 ∷ []))
            ⊎ ((send_frame scanner 7 (1 ∷ 2 ∷ []) []).0 ≡ io_error)))
unfolding accepted
send_frame-sends_example = send_frame-sends scanner scanner-IsLibusb 7 (1 ∷ 2 ∷ []) []

command-Ended_example :
    Unanswered (command scanner 0 [] none []).0
    ⊎ Commanded 0 [] none [] (command scanner 0 [] none [])
command-Ended_example = command-Ended scanner scanner-IsLibusb 0 [] none []

abbrev selection : Settings
selection = record {
  mode = lineart;
  source = adf;
  resolution = 1200;
  preview = false;
  tl_x = 700;
  tl_y = 10;
  br_x = 100;
  br_y = 3000;
}

compute_window_lem_example :
    IsClamped pantum_max_x 700 100
      ((compute_window selection).left, (compute_window selection).right)
    × IsClamped
        (if source_is_adf selection then pantum_max_y_adf else pantum_max_y)
        10
        3000
        ((compute_window selection).top, (compute_window selection).bottom)
    × (compute_window (swapped selection) ≡ compute_window selection)
compute_window_lem_example = compute_window_lem selection

compute_parameters_lem_example :
    (1 ≤ (compute_parameters selection).pixels_per_line)
    × (1 ≤ (compute_parameters selection).lines)
    × HoldsLine
        (
          (compute_parameters selection).format,
          (compute_parameters selection).depth,
          (compute_parameters selection).bytes_per_line,
        )
        (compute_parameters selection).pixels_per_line
    × (false ≡ true → effective_resolution selection ≡ 75)
    × (source_is_adf selection ≡ true → effective_resolution selection ≤ 600)
compute_parameters_lem_example = compute_parameters_lem selection
