-- ===== src/Print/Options/Laws.antt =====
-- What options_read makes of the job's options and the PPD.
use Prim.Native.String.{String}
use pantum_open.Base.{if◌then◌else◌, ◌≤◌, ◌≡◌, Option, none, some, [], ◌∷◌, arith, true}
use pantum_open.Print.Options.Defs.{
  Cups, Text, opt_get, opt_bool, bool_value, read_density, read_tray, options_read,
}

read_density-le : (v : Option Text) → read_density v ≤ 4
unfolding read_density
read_density-le none = omega arith
read_density-le (some []) = omega arith
read_density-le (some (c ∷ cs)) = ground arith

read_tray-le : (v : Option Text) → read_tray v ≤ 2
unfolding read_tray
read_tray-le none = omega arith
read_tray-le (some v) = ground arith

-- Whatever the job and the PPD say, the density that reaches the firmware is at most 4 and the tray
-- code at most 2; a job or PPD that turns TonerMode on gets density 0 whatever Density says.
pub options_read_bounds :
    (cups : Cups)
    → ((options_read cups).density ≤ 4)
      × ((options_read cups).tray ≤ 2)
      × (opt_bool cups "TonerMode" ≡ true → (options_read cups).density ≡ 0)
unfolding options_read
options_read_bounds cups =
    ground
      (arith, read_density-le (opt_get cups "Density"), read_tray-le (opt_get cups "InputSlot"))

-- An option is looked up in the job first.
opt_get_job :
    (job : String → Option Text) (p q : Option (String → Option Text)) (k : String)
    → ((v : Text) × (job k ≡ some v))
    → opt_get (record { job = job; ppd = p }) k ≡ opt_get (record { job = job; ppd = q }) k
unfolding opt_get
opt_get_job job p q k (v, e) = ground arith

-- A job that sets every option is read alike under every PPD, and under none.
pub options_read_job_wins :
    (job : String → Option Text) (p q : Option (String → Option Text))
    → ((k : String) → (v : Text) × (job k ≡ some v))
    → options_read (record { job = job; ppd = p }) ≡ options_read (record { job = job; ppd = q })
unfolding options_read opt_bool
options_read_job_wins job p q all = λ i. record {
  density = if bool_value (same "TonerMode" i) then 0 else read_density (same "Density" i);
  dpi1200 = bool_value (same "DPI1200" i);
  negative = bool_value (same "NegativePrint" i);
  rotate180 = bool_value (same "ImageRotation" i);
  manual_duplex = bool_value (same "ManualDuplex" i);
  tray = read_tray (same "InputSlot" i);
}
  where
    same :
        (k : String)
        → opt_get (record { job = job; ppd = p }) k ≡ opt_get (record { job = job; ppd = q }) k
    same k = opt_get_job job p q k (all k)
