-- ===== src/Geo/Polyline.antt =====
-- internal/geo/polyline.go: Google's encoded polyline format. A Go string is the list of its bytes. A
-- coordinate stays the integer that the code divides by 1e5: the rounded quotient is above 90 for an
-- integer above 9000000 only, so the range is tested on the integer.
pub mod Encoding
pub mod RoundTrip
pub mod Accepted
use titelheld.Prelude.{
  ℕ, zero, suc, ◌+◌, ◌-◌, ◌*◌, ◌/◌, ◌%◌, ◌^◌, Bool, not, ◌&&◌, ◌||◌, List, [], ◌∷◌, ltb, leb, ◌==◌,
  if◌then◌else◌, length, ◌≡◌, arith,
}
use titelheld.Prelude.Int.{ℤ, pos, negsuc, ◌+ℤ◌}
use titelheld.Prelude.Fallible.{Fallible, returned, refused, ◌>>=◌}

abbrev pub Bytes : Type 0
Bytes = List ℕ

-- The texts of ErrBadPolyline. `stuck` is no Go value: the loop of `decode_points` ran out of fuel.
pub data PolylineError : Type 0 where
  too_long truncated outside_alphabet does_not_terminate out_of_range stuck : PolylineError

-- in hundred-thousandths of a degree
pub record Vertex : Type 0 where
  pub lat : ℤ
  pub lon : ℤ

abbrev pub max_encoded_polyline_bytes : ℕ
max_encoded_polyline_bytes = 512 * 2 ^ 10

abbrev pub min_polyline_byte : ℕ
min_polyline_byte = 63

abbrev pub max_polyline_byte : ℕ
max_polyline_byte = 126

abbrev pub max_value_bits : ℕ
max_value_bits = 30

-- result |= uint32(chunk&0x1f) << shift: the bits of the result are below the shift, so + is |
abbrev pub add_chunk : ℕ → ℕ → ℕ → ℕ
add_chunk result chunk shift = (result + chunk % 32 * 2 ^ shift) % 2 ^ 32

-- the low bit is the sign, and ^value is -(value + 1)
abbrev pub signed : ℕ → ℤ
signed result = if result % 2 == 0 then pos (result / 2) else negsuc (result / 2)

abbrev pub alphabet : ℕ → Bool
alphabet b = not (ltb b min_polyline_byte || ltb max_polyline_byte b)

-- the bytes from the index on, and those behind the value
unfoldable pub value_loop : Bytes → ℕ → ℕ → Fallible PolylineError (ℕ × Bytes)
value_loop [] shift result = refused truncated
value_loop (b ∷ bytes) shift result =
    let chunk = b - min_polyline_byte in
    let result' = add_chunk result chunk shift in
    let rest = value_loop bytes (shift + 5) result' in
    if not (alphabet b)
    then refused outside_alphabet
    else if leb max_value_bits shift
    then refused does_not_terminate
    else if ltb chunk 0x20
    then returned (result', bytes)
    else rest

unfoldable pub decode_value : Bytes → Fallible PolylineError (ℤ × Bytes)
unfolding value_loop
decode_value bytes = value_loop bytes 0 0 >>= λ r. returned (signed r.0, r.1)

abbrev pub within : ℕ → ℤ → Bool
within bound (pos n) = leb n bound
within bound (negsuc n) = ltb n bound

-- 90 and 180 degrees
abbrev pub in_range : Vertex → Bool
in_range v = within 9000000 v.lat && within 18000000 v.lon

-- lat += deltaLat, lon += deltaLon
abbrev pub moved : Vertex → ℤ → ℤ → Vertex
moved last delta_lat delta_lon = record { lat = last.lat +ℤ delta_lat; lon = last.lon +ℤ delta_lon }

-- the points behind the one at lat and lon
unfoldable pub decode_points : ℕ → Bytes → Vertex → Fallible PolylineError (List Vertex)
unfolding decode_value
decode_points fuel [] last = returned []
decode_points zero (b ∷ bytes) last = refused stuck
decode_points (suc fuel) (b ∷ bytes) last = decode_value (b ∷ bytes) >>= λ (delta_lat, next).
    decode_value next >>= λ (delta_lon, next).
    let point = moved last delta_lat delta_lon in
    let rest = decode_points fuel next point in
    if in_range point then (rest >>= λ points. returned (point ∷ points)) else refused out_of_range

abbrev pub origin : Vertex
origin = record { lat = pos 0; lon = pos 0 }

unfoldable pub decode_polyline : Bytes → Fallible PolylineError (List Vertex)
unfolding decode_points
decode_polyline encoded =
    if ltb max_encoded_polyline_bytes (length encoded)
    then refused too_long
    else decode_points (length encoded) encoded origin
