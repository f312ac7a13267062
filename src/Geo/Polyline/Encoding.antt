-- ===== src/Geo/Polyline/Encoding.antt =====
-- The encoder of the polyline format, an independent description of what the decoder reads.
use titelheld.Prelude.{ℕ, zero, suc, ◌+◌, ◌*◌, ◌/◌, ◌%◌, List, [], ◌∷◌, ◌++◌, if◌then◌else◌, ltb}
use titelheld.Prelude.Int.{ℤ, pos, negsuc, ◌+ℤ◌, negate}
use titelheld.Geo.Polyline.{Bytes, Vertex, min_polyline_byte, origin}

-- the sign in the low bit
abbrev pub zigzag : ℤ → ℕ
zigzag (pos n) = 2 * n
zigzag (negsuc n) = 2 * n + 1

-- five bits a byte, the lowest first, and 32 on all but the last; at most `more` bytes before it
unfoldable pub chunks : ℕ → ℕ → Bytes
chunks zero v = (min_polyline_byte + v) ∷ []
chunks (suc more) v =
    let rest = chunks more (v / 32) in
    if ltb v 32 then (min_polyline_byte + v) ∷ [] else (min_polyline_byte + (32 + v % 32)) ∷ rest

abbrev pub encode_value : ℤ → Bytes
encode_value z = chunks 5 (zigzag z)

unfoldable pub encode_points : Vertex → List Vertex → Bytes
encode_points last [] = []
encode_points last (v ∷ vs) =
    encode_value (v.lat +ℤ negate last.lat)
    ++ (encode_value (v.lon +ℤ negate last.lon) ++ encode_points v vs)

unfoldable pub encode_polyline : List Vertex → Bytes
unfolding encode_points
encode_polyline = encode_points origin
