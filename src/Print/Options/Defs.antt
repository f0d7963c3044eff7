-- ===== src/Print/Options/Defs.antt =====
-- job_options_t, opt_get, opt_bool and options_read of src/rastertopantum.c. A C string is the list
-- of its character codes, without the final zero.
use Prim.Native.String.{String}
use Prim.Native.Char.{code}
use pantum_open.Base.{
  ℕ, ◌+◌, ◌-◌, ◌*◌, ◌^◌, Bool, true, false, Option, none, some, List, [], ◌∷◌, ltb, leb, ◌==◌, ◌&&◌,
  ◌||◌, if◌then◌else◌, min,
}

abbrev pub Text : Type 0
Text = List ℕ

abbrev pub codes : String → Text
codes String.[] = []
codes (String.◌∷◌ c s) = code c ∷ codes s

pub record JobOptions : Type 0 where
  pub density : ℕ
  pub dpi1200 : Bool
  pub negative : Bool
  pub rotate180 : Bool
  pub manual_duplex : Bool
  pub tray : ℕ

-- What the filter asks CUPS for: cupsGetOption on the job's options, and, where the PPD could be
-- opened, the default choice that ppdFindOption finds there.
pub record Cups : Type 0 where
  pub job : String → Option Text
  pub ppd : Option (String → Option Text)

-- tolower in the C locale
unfoldable pub to_lower : ℕ → ℕ
to_lower c = if leb b'A' c && leb c b'Z' then c + 32 else c

-- `!strcasecmp (a, b)`
unfoldable pub same_nocase : Text → Text → Bool
same_nocase [] [] = true
same_nocase [] (b ∷ bs) = false
same_nocase (a ∷ as') [] = false
same_nocase (a ∷ as') (b ∷ bs) = to_lower a == to_lower b && same_nocase as' bs

abbrev pub is_digit : ℕ → Bool
is_digit c = leb b'0' c && leb c b'9'

abbrev pub long_max : ℕ
long_max = 2 ^ 63 - 1

-- strtol (v, NULL, 10) on a text that starts with a digit: the digits at the front, saturated.
unfoldable pub strtol_digits : ℕ → Text → ℕ
strtol_digits acc [] = min acc long_max
strtol_digits acc (c ∷ cs) =
    let rest = strtol_digits (acc * 10 + (c - b'0')) cs in
    if is_digit c then rest else min acc long_max

unfoldable pub ppd_default : Option (String → Option Text) → String → Option Text
ppd_default none keyword = none
ppd_default (some find_option) keyword = elim (find_option keyword) [
  | none ↦ none
  | some [] ↦ none
  | some (c ∷ cs) ↦ some (c ∷ cs)
]

unfoldable pub opt_get : Cups → String → Option Text
unfolding ppd_default
opt_get cups keyword = elim (cups.job keyword) [
  | some value ↦ some value
  | none ↦ ppd_default cups.ppd keyword
]

abbrev pub is_yes : Text → Bool
is_yes v =
    same_nocase v (codes "true")
    || same_nocase v (codes "on")
    || same_nocase v (codes "yes")
    || same_nocase v (codes "1")

unfoldable pub bool_value : Option Text → Bool
bool_value none = false
bool_value (some v) = is_yes v

unfoldable pub opt_bool : Cups → String → Bool
opt_bool cups keyword = bool_value (opt_get cups keyword)

-- `v && isdigit (*v)`, then strtol and the cap at 4; the default is 2.
unfoldable pub read_density : Option Text → ℕ
read_density none = 2
read_density (some []) = 2
read_density (some (c ∷ cs)) =
    if is_digit c then (let d = strtol_digits 0 (c ∷ cs) in if ltb 4 d then 4 else d) else 2

unfoldable pub read_tray : Option Text → ℕ
read_tray none = 0
read_tray (some v) =
    if same_nocase v (codes "ManualFeed")
    then 1
    else if same_nocase v (codes "AutoFeed")
    then 2
    else 0

unfoldable pub options_read : Cups → JobOptions
options_read cups = record {
  density = if opt_bool cups "TonerMode" then 0 else read_density (opt_get cups "Density");
  dpi1200 = opt_bool cups "DPI1200";
  negative = opt_bool cups "NegativePrint";
  rotate180 = opt_bool cups "ImageRotation";
  manual_duplex = opt_bool cups "ManualDuplex";
  tray = read_tray (opt_get cups "InputSlot");
}
