-- ===== src/Scan/Session/Settings.antt =====
-- The job settings block of setup_job in src/pantum.c.
use pantum_open.Base.{ℕ, zero, suc, List, [], ◌∷◌, ◌++◌, drop, set}
use pantum_open.Wire.{put_be32, get_be32}
use pantum_open.Scan.Window.{
  Mode, lineart, halftone, gray, colour, Settings, source_code, effective_resolution,
  compute_window,
}

abbrev pub set_resolution : ℕ
set_resolution = 3

abbrev pub set_zero : ℕ
set_zero = 13

abbrev pub set_source : ℕ
set_source = 14

abbrev pub set_top : ℕ
set_top = 16

abbrev pub set_left : ℕ
set_left = 17

abbrev pub set_bottom : ℕ
set_bottom = 18

abbrev pub set_right : ℕ
set_right = 19

abbrev pub set_colour : ℕ
set_colour = 24

abbrev pub settings_words : ℕ
settings_words = 25

-- `words[i] = get_be32 (settings + 4 * i)`, for `left` words.
unfoldable pub words_of : ℕ → List ℕ → List ℕ
words_of zero bytes = []
words_of (suc left) bytes = get_be32 bytes ∷ words_of left (drop 4 bytes)

unfoldable pub bytes_of : List ℕ → List ℕ
bytes_of [] = []
bytes_of (word ∷ words) = put_be32 word ++ bytes_of words

-- `mode_is (h, SANE_VALUE_SCAN_MODE_COLOR) ? 1 : 0`
unfoldable pub colour_word : Mode → ℕ
colour_word colour = 1
colour_word lineart = 0
colour_word halftone = 0
colour_word gray = 0

-- The eight words that setup_job writes, in its order.
unfoldable pub edit_words : Settings → List ℕ → List ℕ
edit_words h words =
    let win = compute_window h in
    let a = set words set_resolution (effective_resolution h) in
    let b = set a set_zero 0 in
    let c = set b set_source (source_code h.source) in
    let d = set c set_top win.top in
    let e = set d set_left win.left in
    let f = set e set_bottom win.bottom in
    let g = set f set_right win.right in set g set_colour (colour_word h.mode)

unfoldable pub job_settings : Settings → List ℕ → List ℕ
job_settings h settings = bytes_of (edit_words h (words_of settings_words settings))
