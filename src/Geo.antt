-- ===== src/Geo.antt =====
-- internal/geo: the route of a ride as verified place names. The IEEE operations, those of package
-- math and the formatting of strconv are parameters.
pub mod Polyline
pub mod Samples
pub mod Nominatim
pub mod Client
pub mod PlaceName
pub mod Describe
use titelheld.Prelude.{Bool}
use titelheld.Prelude.Int.{ℤ}
use titelheld.Prelude.Text.{Text}
use titelheld.Classifier.{Float, FloatOps}

-- in degrees
pub record Point : Type 0 where
  pub lat : Float
  pub lon : Float

-- More of the operations on a float64: `of_int` is the conversion of an int, `lt` is <, `same` is ==,
-- `round` is math.Round, `min` is math.Min, `format` is FormatFloat with three decimals, and
-- `degrees_to_radians` is the constant Pi / 180, rounded once.
pub record GeoOps : Type 0 where
  pub float_ops : FloatOps
  pub of_int : ℤ → Float
  pub lt : Float → Float → Bool
  pub same : Float → Float → Bool
  pub round : Float → Float
  pub min : Float → Float → Float
  pub format : Float → Text
  pub degrees_to_radians : Float
