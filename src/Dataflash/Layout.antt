-- ===== src/Dataflash/Layout.antt =====
-- The lengths of the records on disk, against the lengths that their definitions declare.
use boredom_os.Prelude.{
  ℕ, ◌≡◌, refl, List, ◌++◌, arith, codes, length, replicate, length-append, length-take,
  length-replicate,
}
use boredom_os.Dataflash.{
  chars, LogFormat, format_bytes, LogTime, time_bytes, LogSys, sys_bytes, LogPwr, pwr_bytes, LogRst,
  rst_bytes, fmt_format, time_format, sys_format, pwr_format, rst_format,
}

length-chars : (n : ℕ) (text : List ℕ) → length (chars n text) ≡ n
length-chars n text = omega (
  arith,
  length-take n (text ++ replicate n 0),
  length-append text (replicate n 0),
  length-replicate {A = ℕ} n 0,
)

length-format_bytes : (f : LogFormat) → length (format_bytes f) ≡ 89
length-format_bytes f =
    let name = chars 4 (codes f.name) in
    let format = chars 16 (codes f.format) in
    let labels = chars 64 (codes f.labels) in
    omega (
      arith,
      length-append name (format ++ labels),
      length-append format labels,
      length-chars 4 (codes f.name),
      length-chars 16 (codes f.format),
      length-chars 64 (codes f.labels),
    )

-- Each record is as long on disk as its definition declares, whatever its values.
pub declared_lengths :
    (f : LogFormat) (t : LogTime) (s : LogSys) (p : LogPwr) (r : LogRst)
    → (length (format_bytes f) ≡ fmt_format.length)
      × (length (time_bytes t) ≡ time_format.length)
      × (length (sys_bytes s) ≡ sys_format.length)
      × (length (pwr_bytes p) ≡ pwr_format.length)
      × (length (rst_bytes r) ≡ rst_format.length)
declared_lengths f t s p r =
    (length-format_bytes f, refl, refl, refl, omega (arith, length-chars 16 r.task))
