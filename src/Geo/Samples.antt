-- ===== src/Geo/Samples.antt =====
-- internal/geo/geo.go: the points of a track that are worth geocoding.
pub mod Endpoints
use titelheld.Prelude.{
  ℕ, zero, suc, ◌+◌, Bool, not, ◌&&◌, ◌||◌, List, [], ◌∷◌, ◌++◌, if◌then◌else◌, ◌==◌, contains_func,
  select, map, drop,
}
use titelheld.Prelude.Int.{ℤ, pos, negsuc}
use titelheld.Prelude.Text.{Text, codes}
use titelheld.Classifier.{Float}
use titelheld.Geo.{Point, GeoOps}

abbrev pub cache_precision : ℕ
cache_precision = 3

abbrev pub default_sample_count : ℕ
default_sample_count = 6

abbrev pub max_sample_count : ℕ
max_sample_count = 6

pub record CacheCell : Type 0 where
  pub lat : Float
  pub lon : Float

-- the last point of a track that starts at a point
abbrev pub last_of : Point → List Point → Point
last_of first [] = first
last_of first (p ∷ points) = last_of p points

-- the steps that are left of `count`
abbrev pub steps_from : ℕ → ℕ → List ℕ
steps_from step zero = []
steps_from step (suc n) = step ∷ steps_from (suc step) n

module _ (ops : GeoOps) where
  abbrev number : ℕ → Float
  number n = ops.of_int (pos n)

  abbrev minus_180 : Float
  minus_180 = ops.of_int (negsuc 179)

  abbrev scale_of : ℕ → Float
  scale_of zero = number 1
  scale_of (suc n) = ops.float_ops.mul (scale_of n) (number 10)

  unfoldable pub round : Float → Float
  round value =
      let scale = scale_of cache_precision in
      let rounded = ops.float_ops.div (ops.round (ops.float_ops.mul value scale)) scale in
      if ops.same rounded (number 0)
      then number 0
      else if ops.same rounded minus_180
      then number 180
      else rounded

  unfoldable pub cell_of : Point → CacheCell
  unfolding round
  cell_of point = record { lat = round point.lat; lon = round point.lon }

  -- == on cells, and on points
  abbrev pub same_cell : CacheCell → CacheCell → Bool
  same_cell a b = ops.same a.lat b.lat && ops.same a.lon b.lon

  abbrev pub same_point : Point → Point → Bool
  same_point a b = ops.same a.lat b.lat && ops.same a.lon b.lon

  unfoldable pub cache_key : Text → Point → Text
  unfolding cell_of
  cache_key scope point =
      codes "v2_"
      ++ (scope
          ++ (codes "_"
              ++ (ops.format (cell_of point).lat ++ (codes "," ++ ops.format (cell_of point).lon))))

  abbrev earth_radius_meters : Float
  earth_radius_meters = number 6371000

  unfoldable pub distance : Point → Point → Float
  distance from to =
      let f = ops.float_ops in
      let lat1 = f.mul from.lat ops.degrees_to_radians in
      let lat2 = f.mul to.lat ops.degrees_to_radians in
      let delta_lat = f.mul (f.sub to.lat from.lat) ops.degrees_to_radians in
      let delta_lon = f.mul (f.sub to.lon from.lon) ops.degrees_to_radians in
      let sin_lat = f.sin (f.div delta_lat (number 2)) in
      let sin_lon = f.sin (f.div delta_lon (number 2)) in
      let a =
        f.add (f.mul sin_lat sin_lat)
          (f.mul (f.mul (f.mul (f.cos lat1) (f.cos lat2)) sin_lon) sin_lon) in
      f.mul (f.mul (number 2) earth_radius_meters) (f.asin (ops.min (number 1) (f.sqrt a)))

  -- cumulative[index:], behind a point at the arc length `total`, and the total at the end
  arc_lengths_from : Point → Float → List Point → List Float × Float
  unfolding distance
  arc_lengths_from last total [] = ([], total)
  arc_lengths_from last total (p ∷ points) =
      let total' = ops.float_ops.add total (distance last p) in
      let rest = arc_lengths_from p total' points in (total' ∷ rest.0, rest.1)

  -- of a track that starts at a point
  unfoldable pub arc_lengths : Point → List Point → List Float × Float
  unfolding arc_lengths_from
  arc_lengths first points =
      let rest = arc_lengths_from first (number 0) points in (number 0 ∷ rest.0, rest.1)

  unfoldable pub shortest_lon_delta : Float → Float → Float
  shortest_lon_delta from to =
      let delta = ops.float_ops.sub to from in
      if ops.lt (number 180) delta
      then ops.float_ops.sub delta (number 360)
      else if ops.lt delta minus_180
      then ops.float_ops.add delta (number 360)
      else delta

  unfoldable pub wrap_longitude : Float → Float
  wrap_longitude lon =
      if ops.lt (number 180) lon
      then ops.float_ops.sub lon (number 360)
      else if ops.lt lon minus_180
      then ops.float_ops.add lon (number 360)
      else lon

  abbrev interpolated : Point → Point → Float → Point
  interpolated from to fraction =
      let f = ops.float_ops in
      record {
        lat = f.add from.lat (f.mul (f.sub to.lat from.lat) fraction);
        lon = wrap_longitude (f.add from.lon (f.mul (shortest_lon_delta from.lon to.lon) fraction));
      }

  -- the point before and its cumulative distance, and those from the index on
  unfoldable pub point_at_arc : Point → Float → List Point → List Float → Float → Point
  unfolding shortest_lon_delta wrap_longitude
  point_at_arc from before [] cumulative target = from
  point_at_arc from before (to ∷ points) [] target = from
  point_at_arc from before (to ∷ points) (at ∷ cumulative) target =
      let span = ops.float_ops.sub at before in
      let rest = point_at_arc to at points cumulative target in
      if ops.lt at target || ops.float_ops.le span (number 0)
      then rest
      else interpolated from to (ops.float_ops.div (ops.float_ops.sub target before) span)

  farthest_loop : Point → Point → Float → List Point → Point
  unfolding distance
  farthest_loop start farthest far [] = farthest
  farthest_loop start farthest far (p ∷ points) =
      let d = distance start p in
      if ops.lt far d
      then farthest_loop start p d points
      else farthest_loop start farthest far points

  unfoldable pub farthest_from : Point → List Point → Point
  unfolding farthest_loop
  farthest_from start points = farthest_loop start start (number 0) points

  abbrev pub at_endpoint : Point → List Point → Point → Bool
  at_endpoint first points sample =
      same_cell (cell_of sample) (cell_of first)
      || same_cell (cell_of sample) (cell_of (last_of first points))

  -- of a track that starts at a point
  unfoldable pub without_endpoints : Point → List Point → List Point → List Point
  without_endpoints first points samples =
      select (λ sample. not (at_endpoint first points sample)) samples

  dedupe_loop : List Point → List Point → List Point
  dedupe_loop seen [] = []
  dedupe_loop seen (p ∷ points) =
      let rest = dedupe_loop (p ∷ seen) points in
      if contains_func seen (λ q. same_point q p) then dedupe_loop seen points else p ∷ rest

  unfoldable pub dedupe_points : List Point → List Point
  unfolding dedupe_loop
  dedupe_points points = dedupe_loop [] points

  abbrev spread : Point → List Point → ℕ → List Point
  spread first points count =
      let arcs = arc_lengths first points in
      let f = ops.float_ops in
      if ops.lt (number 0) arcs.1
      then map
          (λ step.
            point_at_arc first (number 0) points (drop 1 arcs.0)
              (f.div (f.mul (number step) arcs.1) (number (count + 1))))
          (steps_from 1 count)
      else []

  -- A negative count is as 0.
  unfoldable pub sample_points : List Point → ℕ → List Point
  unfolding arc_lengths point_at_arc farthest_from without_endpoints dedupe_points
  sample_points [] count = []
  sample_points (first ∷ points) count =
      let count' = if count == 0 then default_sample_count else count in
      dedupe_points (
        without_endpoints first points
          (spread first points count' ++ (farthest_from first (first ∷ points) ∷ [])))
