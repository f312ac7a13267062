-- ===== src/Geo/Polyline/Accepted.antt =====
-- What the decoder accepts, and what it refuses.
use titelheld.Prelude.{
  leb→le, ltb→lt, ◌-◌, ℕ, zero, suc, ◌+◌, ◌*◌, ◌≤◌, ◌<◌, ◌≡◌, refl, sym, subst, ap, ◌∙◌, true,
  false, inl, inr, List, [], ◌∷◌, ◌++◌, Bool-cases, arith, ltb, leb, length, length-append, All,
  All-append, In, In-append_right, append_assoc, if◌then◌else◌,
}
use titelheld.Prelude.Int.{ℤ}
use titelheld.Prelude.Fallible.{
  Fallible, returned, refused, Outcome, Outcome-bind, Outcome-relax, ◌>>=◌,
}
use titelheld.Geo.Polyline.{
  Bytes, PolylineError, too_long, truncated, outside_alphabet, does_not_terminate, out_of_range,
  stuck, Vertex, alphabet, value_loop, decode_value, decode_points, decode_polyline, in_range,
  moved, origin, max_encoded_polyline_bytes, min_polyline_byte, signed,
}

abbrev InAlphabet : ℕ → Type 0
InAlphabet b = alphabet b ≡ true

-- what an error tells of the text
abbrev pub Cause : Bytes → PolylineError → Type 0
Cause bytes too_long = max_encoded_polyline_bytes < length bytes
Cause bytes truncated = Unit
Cause bytes outside_alphabet = (b : ℕ) × In b bytes × (alphabet b ≡ false)
Cause bytes does_not_terminate = 6 < length bytes
Cause bytes out_of_range = Unit
Cause bytes stuck = ⊥

Cause-append : (front rest : Bytes) (e : PolylineError) → Cause rest e → Cause (front ++ rest) e
Cause-append front rest too_long h = omega (arith, h, length-append front rest)
Cause-append front rest truncated h = tt
Cause-append front rest outside_alphabet (b, m, h) = (b, In-append_right b front rest m, h)
Cause-append front rest does_not_terminate h = omega (arith, h, length-append front rest)
Cause-append front rest out_of_range h = tt
Cause-append front rest stuck h = h

-- the text is a front of the alphabet's bytes, at least so many, and the rest
abbrev Read : ℕ → Bytes → Bytes → Type 0
Read n bytes rest =
    (front : Bytes) × (bytes ≡ front ++ rest) × All InAlphabet front × (n ≤ length front)

Read-trans : (bytes next rest : Bytes) → Read 1 bytes next → Read 1 next rest → Read 2 bytes rest
Read-trans bytes next rest (front, e, all, n) (back, e', all', n') = (
  front ++ back,
  e ∙ ap (λ u. front ++ u) e' ∙ sym (append_assoc front back rest),
  All-append InAlphabet front back all all',
  omega (arith, n, n', length-append front back),
)

Cause-Read :
    (n : ℕ) (bytes rest : Bytes) (e : PolylineError)
    → Read n bytes rest
    → Cause rest e
    → Cause bytes e
Cause-Read n bytes rest e (front, p, all, k) c =
    subst (λ u. Cause u e) (sym p) (Cause-append front rest e c)

-- the cause of an error in a value of which `shift` bits are read
abbrev CauseAt : ℕ → Bytes → PolylineError → Type 0
CauseAt shift bytes does_not_terminate = 35 ≤ shift + 5 * length bytes
CauseAt shift bytes outside_alphabet = Cause bytes outside_alphabet
CauseAt shift bytes truncated = Unit
CauseAt shift bytes _ = ⊥

CauseAt-next :
    (shift b : ℕ) (bytes : Bytes) (e : PolylineError)
    → CauseAt (shift + 5) bytes e
    → CauseAt shift (b ∷ bytes) e
CauseAt-next shift b bytes too_long h = h
CauseAt-next shift b bytes truncated h = tt
CauseAt-next shift b bytes outside_alphabet (c, m, h) = (c, inr m, h)
CauseAt-next shift b bytes does_not_terminate h = omega (arith, h)
CauseAt-next shift b bytes out_of_range h = h
CauseAt-next shift b bytes stuck h = h

Outcome-next :
    (shift b : ℕ) (bytes : Bytes) (x : Fallible PolylineError (ℕ × Bytes))
    → InAlphabet b
    → Outcome (λ r. Read 1 bytes r.1) (CauseAt (shift + 5) bytes) x
    → Outcome (λ r. Read 1 (b ∷ bytes) r.1) (CauseAt shift (b ∷ bytes)) x
Outcome-next shift b bytes (returned r) h (front, e, all, n) =
    (b ∷ front, (λ i. b ∷ e i), (h, all), omega arith)
Outcome-next shift b bytes (refused e) h k = CauseAt-next shift b bytes e k

value_loop_lem :
    (bytes : Bytes) (shift result : ℕ)
    → Outcome (λ r. Read 1 bytes r.1) (CauseAt shift bytes) (value_loop bytes shift result)
unfolding value_loop
value_loop_lem [] shift result = tt
value_loop_lem (b ∷ bytes) shift result = elim (Bool-cases (alphabet b)) [
  | inr e ↦ rw e (b, inl refl, e)
  | inl e ↦ elim (Bool-cases (leb 30 shift)) [
    | inl k ↦ rw (e, k) (omega (arith, leb→le 30 shift k))
    | inr k ↦ elim (Bool-cases (ltb (b - min_polyline_byte) 0x20)) [
      | inl l ↦ rw (e, k, l) (b ∷ [], refl, (e, tt), omega arith)
      | inr l ↦ rw (e, k, l) (Outcome-next shift b bytes _ e (value_loop_lem bytes (shift + 5) _))
    ]
  ]
]

Cause-first_bit : (bytes : Bytes) (e : PolylineError) → CauseAt 0 bytes e → Cause bytes e
Cause-first_bit bytes too_long h = absurd h
Cause-first_bit bytes truncated h = tt
Cause-first_bit bytes outside_alphabet h = h
Cause-first_bit bytes does_not_terminate h = omega (arith, h)
Cause-first_bit bytes out_of_range h = tt
Cause-first_bit bytes stuck h = h

decode_value_lem :
    (bytes : Bytes)
    → Outcome (λ (r : ℤ × Bytes). Read 1 bytes r.1) (Cause bytes) (decode_value bytes)
unfolding decode_value
decode_value_lem bytes =
    Outcome-bind _ _ _ (value_loop bytes 0 0) (λ r. returned (signed r.0, r.1))
      (Outcome-relax (λ r. Read 1 bytes r.1) _ _ (value_loop bytes 0 0) (Cause-first_bit bytes)
        (value_loop_lem bytes 0 0))
      (λ r h. h)

-- what a decoded track is: in range, of a text of the alphabet with two bytes for a point at least
abbrev pub IsTrack : Bytes → List Vertex → Type 0
IsTrack bytes points =
    All (λ v. in_range v ≡ true) points × All InAlphabet bytes × (2 * length points ≤ length bytes)

IsTrack-more :
    (bytes rest : Bytes) (v : Vertex) (points : List Vertex)
    → Read 2 bytes rest
    → in_range v ≡ true
    → IsTrack rest points
    → IsTrack bytes (v ∷ points)
IsTrack-more bytes rest v points (front, p, ha, n) h (ranges, all, count) = (
  (h, ranges),
  subst (All InAlphabet) (sym p) (All-append InAlphabet front rest ha all),
  omega (arith, count, length-append front rest, ap length p),
)

point_lem :
    (bytes rest : Bytes) (point : Vertex) (x : Fallible PolylineError (List Vertex))
    → Read 2 bytes rest
    → Outcome (IsTrack rest) (Cause rest) x
    → Outcome (IsTrack bytes) (Cause bytes) (
        if in_range point
        then (x >>= λ points. returned (point ∷ points))
        else refused out_of_range)
point_lem bytes rest point x r h = elim (Bool-cases (in_range point)) [
  | inr e ↦ rw e tt
  | inl e ↦ rw e (
      Outcome-bind _ _ _ x (λ points. returned (point ∷ points))
        (Outcome-relax _ _ _ x (λ c. Cause-Read 2 bytes rest c r) h)
        (λ points. IsTrack-more bytes rest point points r e))
]

Read-shorter :
    (fuel : ℕ) (bytes rest : Bytes)
    → length bytes ≤ suc fuel
    → Read 2 bytes rest
    → length rest ≤ fuel
Read-shorter fuel bytes rest h (front, p, all, n) =
    omega (arith, h, n, ap length p, length-append front rest)

decode_points_lem :
    (fuel : ℕ) (bytes : Bytes) (last : Vertex)
    → length bytes ≤ fuel
    → Outcome (IsTrack bytes) (Cause bytes) (decode_points fuel bytes last)
unfolding decode_points
decode_points_lem fuel [] last h = (tt, tt, omega arith)
decode_points_lem zero (b ∷ bytes) last h = absurd (omega arith)
decode_points_lem (suc fuel) (b ∷ bytes) last h =
    Outcome-bind _ _ _ (decode_value (b ∷ bytes)) _ (decode_value_lem (b ∷ bytes)) (λ lat read.
      Outcome-bind _ _ _ (decode_value lat.1) _
        (Outcome-relax _ _ _ (decode_value lat.1) (λ e. Cause-Read 1 (b ∷ bytes) lat.1 e read)
          (decode_value_lem lat.1))
        (λ lon read'.
          point_lem (b ∷ bytes) lon.1 (moved last lat.0 lon.0) (decode_points fuel lon.1 _)
            (Read-trans _ _ _ read read')
            (decode_points_lem fuel lon.1 _ (Read-shorter _ _ _ h (Read-trans _ _ _ read read')))))

-- A text is decoded, or refused with an error, and the loop always ends. Where it is decoded, every
-- point is within 90 degrees of latitude and 180 of longitude, every byte is in the alphabet of the
-- format, and there are two bytes for a point at least. The error that names the length means more
-- than 512 KiB, the one that names the alphabet that a byte is outside it, and a value that does not
-- terminate takes more than six bytes.
pub decode_polyline_lem :
    (encoded : Bytes) → Outcome (IsTrack encoded) (Cause encoded) (decode_polyline encoded)
unfolding decode_polyline
decode_polyline_lem encoded = elim (Bool-cases (ltb max_encoded_polyline_bytes (length encoded))) [
  | inl e ↦ rw e (ltb→lt max_encoded_polyline_bytes (length encoded) e)
  | inr e ↦ rw e (decode_points_lem (length encoded) encoded origin (omega arith))
]
