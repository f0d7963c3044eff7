-- ===== src/Scan/Session/Words.antt =====
-- The words of the settings block that setup_job sends, against those that the device offered.
use pantum_open.Base.{
  Bool, true, false, not, ◌&&◌, ltb, ℕ, zero, suc, ◌+◌, ◌*◌, ◌%◌, ◌^◌, ◌<◌, ◌≡◌, refl, sym, ap, ◌∙◌,
  List, [], ◌∷◌, ◌++◌, length, drop, drop-drop, get_or, get_or-set, set, length-set, length-append,
  ◌==◌, if◌then◌else◌, arith,
}
use pantum_open.Wire.{put_be32, get_be32, get_be32-put_be32, drop-put_be32, length-put_be32}
use pantum_open.Scan.Window.{
  Mode, lineart, halftone, gray, colour, Source, flatbed, adf, adf_duplex, Settings, source_code,
  source_is_adf, effective_resolution, compute_window,
}
use pantum_open.Scan.Session.Settings.{
  set_resolution, set_zero, set_source, set_top, set_left, set_bottom, set_right, set_colour,
  settings_words, words_of, bytes_of, colour_word, edit_words, job_settings,
}

-- What the job wants in word `i` of the settings, where the device offered `offer` there, by the
-- numbers of the protocol: the resolution at 3, zero at 13, the source at 14, the edges of the window
-- at 16 to 19 and at 24 whether there is colour.
abbrev pub asked_colour : Mode → ℕ
asked_colour lineart = 0
asked_colour halftone = 0
asked_colour gray = 0
asked_colour colour = 1

abbrev pub asked_source : Source → ℕ
asked_source flatbed = 0x100
asked_source adf = 0x200
asked_source adf_duplex = 0x400

abbrev pub asked_feeder : Source → Bool
asked_feeder flatbed = false
asked_feeder adf = true
asked_feeder adf_duplex = true

abbrev pub asked_resolution : Settings → ℕ
asked_resolution h =
    if h.preview
    then 75
    else if asked_feeder h.source && ltb 600 h.resolution
    then 600
    else h.resolution

abbrev pub wanted_word : Settings → ℕ → ℕ → ℕ
wanted_word h i offer =
    let win = compute_window h in
    if i == 24
    then asked_colour h.mode
    else if i == 19
    then win.right
    else if i == 18
    then win.bottom
    else if i == 17
    then win.left
    else if i == 16
    then win.top
    else if i == 14
    then asked_source h.source
    else if i == 13
    then 0
    else if i == 3
    then asked_resolution h
    else offer

set_word :
    (words : List ℕ) (k i v : ℕ)
    → k < length words
    → get_or (set words k v) i 0 ≡ (if i == k then v else get_or words i 0)
set_word words k i v l = ground (arith, get_or-set words k i v 0)

colour_word-asked : (m : Mode) → colour_word m ≡ asked_colour m
unfolding colour_word
colour_word-asked lineart = refl
colour_word-asked halftone = refl
colour_word-asked gray = refl
colour_word-asked colour = refl

source_code-asked : (s : Source) → source_code s ≡ asked_source s
unfolding source_code
source_code-asked flatbed = refl
source_code-asked adf = refl
source_code-asked adf_duplex = refl

is_feeder-asked : (s : Source) → not (asked_source s == 0x100) ≡ asked_feeder s
is_feeder-asked flatbed = refl
is_feeder-asked adf = refl
is_feeder-asked adf_duplex = refl

effective_resolution-asked : (h : Settings) → effective_resolution h ≡ asked_resolution h
unfolding effective_resolution source_is_adf
effective_resolution-asked h =
    ap
      (λ c.
        if h.preview
        then 75
        else (if ltb 600 h.resolution && not (c == 0x100) then 600 else h.resolution))
      (source_code-asked h.source)
    ∙ ground (arith, is_feeder-asked h.source)

edit_words-wanted :
    (h : Settings) (words : List ℕ) (i : ℕ)
    → length words ≡ settings_words
    → get_or (edit_words h words) i 0 ≡ wanted_word h i (get_or words i 0)
unfolding edit_words
edit_words-wanted h words i l =
    let win = compute_window h in
    let a = set words set_resolution (effective_resolution h) in
    let la : length a ≡ 25 = length-set words set_resolution _ ∙ l in
    let b = set a set_zero 0 in
    let lb : length b ≡ 25 = length-set a set_zero _ ∙ la in
    let c = set b set_source (source_code h.source) in
    let lc : length c ≡ 25 = length-set b set_source _ ∙ lb in
    let d = set c set_top win.top in
    let ld : length d ≡ 25 = length-set c set_top _ ∙ lc in
    let e = set d set_left win.left in
    let le : length e ≡ 25 = length-set d set_left _ ∙ ld in
    let f = set e set_bottom win.bottom in
    let lf : length f ≡ 25 = length-set e set_bottom _ ∙ le in
    let g = set f set_right win.right in
    let lg : length g ≡ 25 = length-set f set_right _ ∙ lf in
    set_word g set_colour i _ (omega (arith, lg))
    ∙ ap (λ x. if i == set_colour then colour_word h.mode else x)
        (set_word f set_right i _ (omega (arith, lf))
          ∙ ap (λ x. if i == set_right then win.right else x)
              (set_word e set_bottom i _ (omega (arith, le))
                ∙ ap (λ x. if i == set_bottom then win.bottom else x)
                    (set_word d set_left i _ (omega (arith, ld))
                      ∙ ap (λ x. if i == set_left then win.left else x)
                          (set_word c set_top i _ (omega (arith, lc))
                            ∙ ap (λ x. if i == set_top then win.top else x)
                                (set_word b set_source i _ (omega (arith, lb))
                                  ∙ ap (λ x. if i == set_source then source_code h.source else x)
                                      (set_word a set_zero i _ (omega (arith, la))
                                        ∙ ap (λ x. if i == set_zero then 0 else x)
                                            (set_word words set_resolution i _
                                              (omega (arith, l)))))))))
    ∙ (λ j.
        if i == 24
        then colour_word-asked h.mode j
        else if i == 19
        then win.right
        else if i == 18
        then win.bottom
        else if i == 17
        then win.left
        else if i == 16
        then win.top
        else if i == 14
        then source_code-asked h.source j
        else if i == 13
        then 0
        else if i == 3
        then effective_resolution-asked h j
        else get_or words i 0)

next_word :
    (i : ℕ) (bytes : List ℕ)
    → get_be32 (drop (4 * suc i) bytes) ≡ get_be32 (drop (4 * i) (drop 4 bytes))
next_word i bytes =
    let e : 4 * suc i ≡ 4 + 4 * i = omega arith in
    ap (λ n. get_be32 (drop n bytes)) e ∙ ap get_be32 (sym (drop-drop 4 (4 * i) bytes))

get_be32-bytes_of :
    (words : List ℕ) (i : ℕ)
    → i < length words
    → get_be32 (drop (4 * i) (bytes_of words)) ≡ get_or words i 0 % 2 ^ 32
unfolding bytes_of
get_be32-bytes_of [] i l = absurd (omega arith)
get_be32-bytes_of (x ∷ words) zero l = get_be32-put_be32 x (bytes_of words)
get_be32-bytes_of (x ∷ words) (suc i) l =
    next_word i (put_be32 x ++ bytes_of words)
    ∙ ap (λ b. get_be32 (drop (4 * i) b)) (drop-put_be32 x (bytes_of words))
    ∙ get_be32-bytes_of words i (omega arith)

get_or-words_of :
    (n i : ℕ) (bytes : List ℕ)
    → i < n
    → get_or (words_of n bytes) i 0 ≡ get_be32 (drop (4 * i) bytes)
unfolding words_of
get_or-words_of zero i bytes l = absurd (omega arith)
get_or-words_of (suc n) zero bytes l = refl
get_or-words_of (suc n) (suc i) bytes l =
    get_or-words_of n i (drop 4 bytes) (omega arith) ∙ sym (next_word i bytes)

length-words_of : (n : ℕ) (bytes : List ℕ) → length (words_of n bytes) ≡ n
unfolding words_of
length-words_of zero bytes = refl
length-words_of (suc n) bytes = omega (arith, length-words_of n (drop 4 bytes))

length-bytes_of : (words : List ℕ) → length (bytes_of words) ≡ 4 * length words
unfolding bytes_of
length-bytes_of [] = refl
length-bytes_of (x ∷ words) =
    omega
      (arith, length-append (put_be32 x) (bytes_of words), length-put_be32 x, length-bytes_of words)

length-edit_words : (h : Settings) (words : List ℕ) → length (edit_words h words) ≡ length words
unfolding edit_words
length-edit_words h words =
    length-set _ set_colour _
    ∙ length-set _ set_right _
    ∙ length-set _ set_bottom _
    ∙ length-set _ set_left _
    ∙ length-set _ set_top _
    ∙ length-set _ set_source _
    ∙ length-set _ set_zero _
    ∙ length-set words set_resolution _

-- Whatever settings block the device has offered: what the job sets is 100 bytes long, and each of its
-- 25 words, in 32 bits, is what the options ask for where it stands for the resolution, the source, an
-- edge of the window of compute_window or the colour, zero in one place, and else the word that the
-- device offered.
pub job_settings-wanted :
    (h : Settings) (offered : List ℕ) (i : ℕ)
    → i < settings_words
    → (length (job_settings h offered) ≡ 100)
      × (get_be32 (drop (4 * i) (job_settings h offered))
          ≡ wanted_word h i (get_be32 (drop (4 * i) offered)) % 2 ^ 32)
unfolding job_settings
job_settings-wanted h offered i k =
    let words = words_of settings_words offered in
    let l : length words ≡ 25 = length-words_of settings_words offered in
    let le : length (edit_words h words) ≡ 25 = length-edit_words h words ∙ l in
    (
      omega (arith, length-bytes_of (edit_words h words), le),
      get_be32-bytes_of (edit_words h words) i (omega (arith, le))
          ∙ ap (λ x. x % 2 ^ 32)
              (edit_words-wanted h words i l
                ∙ ap (wanted_word h i) (get_or-words_of settings_words i offered k)),
    )
