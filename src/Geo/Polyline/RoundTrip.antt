-- ===== src/Geo/Polyline/RoundTrip.antt =====
-- Decoding what the encoder wrote.
use native.Mathlib.Nat.{mul-le-mul_right, pow-le-pow_right}
use titelheld.Prelude.{
  ltb→lt, ◌∙◌, and_split, length-append, ap, sym, subst, ◌-◌, ℕ, zero, suc, ◌+◌, ◌*◌, ◌/◌, ◌%◌, ◌^◌,
  ◌≤◌, ◌<◌, ◌≡◌, refl, true, inl, inr, List, [], ◌∷◌, ◌++◌, Bool-cases, ltb, arith, All, length,
}
use titelheld.Prelude.Int.{ℤ, pos, negsuc, ◌+ℤ◌, negate, add-sub}
use titelheld.Prelude.Fallible.{returned, ◌>>=◌}
use titelheld.Geo.Polyline.{
  Bytes, Vertex, value_loop, decode_value, decode_points, decode_polyline, signed, add_chunk,
  within, in_range, moved, origin, max_encoded_polyline_bytes,
}
use titelheld.Geo.Polyline.Encoding.{zigzag, chunks, encode_value, encode_points, encode_polyline}

signed-zigzag : (z : ℤ) → signed (zigzag z) ≡ z
signed-zigzag (pos n) = ground arith
signed-zigzag (negsuc n) = ground arith

shift_bound : (shift : ℕ) → shift ≤ 25 → 2 ^ shift ≤ 2 ^ 25
shift_bound shift h = pow-le-pow_right (omega arith) h

-- no bit of a chunk is lost, and the flag of a byte is none of its value's
add_chunk-fits :
    (d shift result : ℕ)
    → d < 32
    → result < 2 ^ shift
    → shift ≤ 25
    → (add_chunk result d shift ≡ result + d * 2 ^ shift)
      × (add_chunk result (32 + d) shift ≡ result + d * 2 ^ shift)
add_chunk-fits d shift result h hr hs =
    let power = shift_bound shift hs in
    let below : d * 2 ^ shift ≤ 31 * 2 ^ shift = mul-le-mul_right (2 ^ shift) (omega arith) in
    let same : d % 32 ≡ d = omega arith in
    let flagged : (32 + d) % 32 ≡ d = omega arith in
    (rw same (omega (arith, below, power)), rw flagged (omega (arith, below, power)))

power_step : (shift : ℕ) → 2 ^ (shift + 5) ≡ 32 * 2 ^ shift
power_step shift =
    let five : shift + 5 ≡ suc (suc (suc (suc (suc shift)))) = omega arith in rw five (omega arith)

chunk_below :
    (d shift result : ℕ) → d < 32 → result < 2 ^ shift → result + d * 2 ^ shift < 2 ^ (shift + 5)
chunk_below d shift result h hr =
    let below : d * 2 ^ shift ≤ 31 * 2 ^ shift = mul-le-mul_right (2 ^ shift) (omega arith) in
    omega (arith, below, power_step shift)

chunk_split :
    (v shift result : ℕ)
    → result + v % 32 * 2 ^ shift + v / 32 * 2 ^ (shift + 5) ≡ result + v * 2 ^ shift
chunk_split v shift result =
    let parts : v ≡ v / 32 * 32 + v % 32 = omega arith in
    let scaled = ap (λ u. u * 2 ^ shift) parts in rw (power_step shift) (omega (arith, scaled))

value_loop-last :
    (d shift result : ℕ) (rest : Bytes)
    → d < 32
    → shift ≤ 25
    → value_loop ((63 + d) ∷ rest) shift result ≡ returned (add_chunk result d shift, rest)
unfolding value_loop
value_loop-last d shift result rest h hs =
    let less : 63 + d - 63 ≡ d = omega arith in rw less (ground arith)

value_loop-next :
    (d shift result : ℕ) (rest : Bytes)
    → d < 32
    → shift ≤ 25
    → value_loop ((63 + (32 + d)) ∷ rest) shift result
      ≡ value_loop rest (shift + 5) (add_chunk result (32 + d) shift)
unfolding value_loop
value_loop-next d shift result rest h hs =
    let less : 63 + (32 + d) - 63 ≡ 32 + d = omega arith in rw less (ground arith)

value_loop-chunks :
    (more v shift result : ℕ) (rest : Bytes)
    → v < 32 * 32 ^ more
    → shift + 5 * more ≤ 25
    → result < 2 ^ shift
    → value_loop (chunks more v ++ rest) shift result ≡ returned (result + v * 2 ^ shift, rest)
unfolding chunks
value_loop-chunks zero v shift result rest h hs hr =
    value_loop-last v shift result rest (omega arith) (omega arith)
    ∙ ap (λ r. returned (r, rest)) (add_chunk-fits v shift result (omega arith) hr (omega arith)).0
value_loop-chunks (suc more) v shift result rest h hs hr = elim (Bool-cases (ltb v 32)) [
  | inl e ↦ rw e (
      value_loop-last v shift result rest (ltb→lt v 32 e) (omega arith)
      ∙ ap (λ r. returned (r, rest))
          (add_chunk-fits v shift result (ltb→lt v 32 e) hr (omega arith)).0)
  | inr e ↦ rw e (
      value_loop-next (v % 32) shift result (chunks more (v / 32) ++ rest) (omega arith)
        (omega arith)
      ∙ rw ((add_chunk-fits (v % 32) shift result (omega arith) hr (omega arith)).1) (
          value_loop-chunks more (v / 32) (shift + 5) (result + v % 32 * 2 ^ shift) rest
            (omega arith) (omega arith) (chunk_below (v % 32) shift result (omega arith) hr)
          ∙ ap (λ r. returned (r, rest)) (chunk_split v shift result)))
]

chunks-nonempty : (more v : ℕ) → 1 ≤ length (chunks more v)
unfolding chunks
chunks-nonempty zero v = omega arith
chunks-nonempty (suc more) v = ground arith

decode_value-encode_value :
    (z : ℤ) (rest : Bytes)
    → zigzag z < 2 ^ 30
    → decode_value (encode_value z ++ rest) ≡ returned (z, rest)
unfolding decode_value
decode_value-encode_value z rest h =
    let read : value_loop (encode_value z ++ rest) 0 0 ≡ returned (0 + zigzag z * 2 ^ 0, rest) =
      value_loop-chunks 5 (zigzag z) 0 0 rest h (omega arith) (omega arith) in
    let plain : 0 + zigzag z * 2 ^ 0 ≡ zigzag z = omega arith in
    rw (read, plain, signed-zigzag z) refl

-- the difference of two coordinates in range fits a value
delta-fits :
    (bound : ℕ) (a b : ℤ)
    → bound ≤ 18000000
    → within bound a ≡ true
    → within bound b ≡ true
    → zigzag (b +ℤ negate a) < 2 ^ 30
delta-fits bound (pos m) (pos n) h ha hb = ground arith
delta-fits bound (pos m) (negsuc n) h ha hb = ground arith
delta-fits bound (negsuc m) (pos n) h ha hb = ground arith
delta-fits bound (negsuc m) (negsuc n) h ha hb = ground arith

moved-delta :
    (last v : Vertex) → moved last (v.lat +ℤ negate last.lat) (v.lon +ℤ negate last.lon) ≡ v
moved-delta last v = λ i. record { lat = add-sub last.lat v.lat i; lon = add-sub last.lon v.lon i }

decode_points-step :
    (fuel : ℕ) (bytes next next' : Bytes) (last : Vertex) (delta_lat delta_lon : ℤ)
    → decode_value bytes ≡ returned (delta_lat, next)
    → decode_value next ≡ returned (delta_lon, next')
    → in_range (moved last delta_lat delta_lon) ≡ true
    → decode_points (suc fuel) bytes last ≡ (
        decode_points fuel next' (moved last delta_lat delta_lon) >>= λ points.
        returned (moved last delta_lat delta_lon ∷ points))
unfolding decode_points
decode_points-step fuel [] next next' last delta_lat delta_lon h k r = absurd (empty-refused h)
  where
    empty-refused : {x : ℤ × Bytes} → decode_value [] ≡ returned x → ⊥
    empty-refused e = unfold decode_value value_loop in ground arith
decode_points-step fuel (b ∷ bytes) next next' last delta_lat delta_lon h k r = rw (h, k, r) refl

decode_points-encode_points :
    (fuel : ℕ) (last : Vertex) (vs : List Vertex)
    → length vs ≤ fuel
    → in_range last ≡ true
    → All (λ v. in_range v ≡ true) vs
    → decode_points fuel (encode_points last vs) last ≡ returned vs
unfolding encode_points
decode_points-encode_points fuel last [] h hl hv = unfold decode_points in refl
decode_points-encode_points zero last (v ∷ vs) h hl hv = absurd (omega arith)
decode_points-encode_points (suc fuel) last (v ∷ vs) h hl hv =
    let step =
      decode_points-step fuel (encode_points last (v ∷ vs))
        (encode_value (v.lon +ℤ negate last.lon) ++ encode_points v vs) (encode_points v vs) last
        (v.lat +ℤ negate last.lat) (v.lon +ℤ negate last.lon)
        (decode_value-encode_value (v.lat +ℤ negate last.lat) _ (
          delta-fits 9000000 last.lat v.lat (omega arith) (and_split _ _ hl).0
            (and_split _ _ hv.0).0))
        (decode_value-encode_value (v.lon +ℤ negate last.lon) _ (
          delta-fits 18000000 last.lon v.lon (omega arith) (and_split _ _ hl).1
            (and_split _ _ hv.0).1))
        (subst (λ u. in_range u ≡ true) (sym (moved-delta last v)) hv.0) in
    step
    ∙ subst
        (λ u.
          (decode_points fuel (encode_points v vs) u >>= λ points. returned (u ∷ points))
          ≡ returned (v ∷ vs))
        (sym (moved-delta last v))
        (rw (decode_points-encode_points fuel v vs (omega arith) hv.0 hv.1) refl)

length-encode_points :
    (last : Vertex) (vs : List Vertex) → length vs ≤ length (encode_points last vs)
unfolding encode_points
length-encode_points last [] = omega arith
length-encode_points last (v ∷ vs) =
    let first = chunks-nonempty 5 (zigzag (v.lat +ℤ negate last.lat)) in
    let lat = encode_value (v.lat +ℤ negate last.lat) in
    let lon = encode_value (v.lon +ℤ negate last.lon) in
    let rest = encode_points v vs in
    rw (length-append lat (lon ++ rest), length-append lon rest)
      (omega (arith, first, length-encode_points v vs))

-- A track of points within 90 degrees of latitude and 180 of longitude, written by an encoder of
-- differences, is decoded to the same points, if the text is within the limit of 512 KiB.
pub decode_polyline-encode_polyline :
    (vs : List Vertex)
    → All (λ v. in_range v ≡ true) vs
    → length (encode_polyline vs) ≤ max_encoded_polyline_bytes
    → decode_polyline (encode_polyline vs) ≡ returned vs
unfolding decode_polyline encode_polyline
decode_polyline-encode_polyline vs hv h =
    elim (Bool-cases (ltb max_encoded_polyline_bytes (length (encode_points origin vs)))) [
      | inl e ↦ absurd (ground arith)
      | inr e ↦
          rw e (decode_points-encode_points _ origin vs (length-encode_points origin vs) refl hv)
    ]
