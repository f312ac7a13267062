-- ===== src/Geo/Describe/Privacy.antt =====
-- What a description asks of the geocoder, what it gives to the cache, and what it names.
use titelheld.Prelude.{
  ℕ, suc, ◌+◌, ◌≤◌, ◌≡◌, false, ◌||◌, inl, inr, Option, none, some, List, [], ◌∷◌, map, Bool-cases,
  arith, if◌then◌else◌, contains_func, length, All, ◌==◌,
}
use titelheld.Prelude.Text.{Text, Unicode, text_eq}
use titelheld.Prelude.Fallible.{Fallible, returned, refused}
use titelheld.Prelude.Action.{
  failed, pure, Post, Post-of, Triple, Triple-bind, Triple-pure, Triple-fail, Triple-weaken,
  Triple-relax,
}
use titelheld.Store.{Place}
use titelheld.Geo.{Point, GeoOps}
use titelheld.Geo.Polyline.{Bytes, Vertex, PolylineError, decode_polyline}
use titelheld.Geo.Samples.{
  sample_points, cache_key, same_cell, cell_of, last_of, default_sample_count,
}
use titelheld.Geo.Samples.Endpoints.{AllDistinct, sample_points_lem}
use titelheld.Geo.Client.Privacy.{IsPrivate}
use titelheld.Geo.Describe.{
  Summary, empty_summary, Sources, Journal, allowed_only, ask_cache, ask_reverse, save_to_cache,
  fetch, answer_of, resolve, take_place, describe_loop, describe_track, describe, point_of,
}
use titelheld.Geo.Describe.Names.{
  IsNamed, same_name, Found, allowed_only-IsPrivate, take_place-Found,
}

module _ (P : Point → Type 0) (total : ℕ) where
  -- so many requests may still be sent
  abbrev Budget : ℕ → Journal → Type 0
  Budget n j = All P j.requests × (length j.requests + n ≤ total) × All (λ s. IsPrivate s.1) j.saves

  abbrev Stopped : Journal → Type 0
  Stopped = Budget 0

  module _ (src : Sources) where
    fetch-Budget :
        (n : ℕ) (key : Text) (point : Point)
        → P point
        → Triple
            (Budget (suc n))
            (fetch src key point)
            (λ place j. Budget n j × IsPrivate place)
            Stopped
    unfolding fetch
    fetch-Budget n key point p =
        Triple-bind (ask_reverse src point) _ (λ place. Budget n)
          (record {
            run = λ j h.
                unfold ask_reverse in
                Post-of _ _ (src.reverse j.tick point) _
                  (λ a e. ((p, h.0), omega (arith, h.1), h.2)) ((p, h.0), omega (arith, h.1), h.2);
          })
          (λ place.
            Triple-bind (save_to_cache src key (allowed_only place)) _ (λ u. Budget n)
              (record {
                run = λ j h.
                    unfold save_to_cache in
                    Post-of _ _ (src.save_place j.tick key _) _
                      (λ a e. (h.0, h.1, (allowed_only-IsPrivate place, h.2)))
                      (h.0, omega (arith, h.1), (allowed_only-IsPrivate place, h.2));
              })
              (λ u. Triple-pure _ (λ j h. (h, allowed_only-IsPrivate place))))

    resolve-Budget :
        (n : ℕ) (key : Text) (point : Point)
        → P point
        → Triple
            (Budget (suc n))
            (resolve src key point)
            (λ place j. Budget n j × IsPrivate place)
            Stopped
    unfolding resolve
    resolve-Budget n key point p =
        Triple-bind (ask_cache src key) (answer_of src key point) (λ answer. Budget (suc n))
          (record {
            run = λ j h.
                unfold ask_cache in
                Post-of _ _ (src.cached j.tick key) _ (λ a e. h) (h.0, omega (arith, h.1), h.2);
          })
          (answer_of-Budget n key point p)
      where
        answer_of-Budget :
            (n : ℕ) (key : Text) (point : Point)
            → P point
            → (answer : Option Place)
            → Triple
                (Budget (suc n))
                (answer_of src key point answer)
                (λ place j. Budget n j × IsPrivate place)
                Stopped
        answer_of-Budget n key point p none = fetch-Budget n key point p
        answer_of-Budget n key point p (some place) =
            Triple-pure _ (λ j h. ((h.0, omega (arith, h.1), h.2), allowed_only-IsPrivate place))

    module _ (unicode : Unicode) (ops : GeoOps) (scope : Text) where
      describe_loop-Budget :
          (seen : List Text) (found : Summary × List Text) (points : List Point)
          → Found found
          → All P points
          → Triple
              (Budget (length points))
              (describe_loop unicode ops src scope seen found points)
              (λ r j. Stopped j × Found r)
              Stopped
      unfolding describe_loop
      describe_loop-Budget seen found [] h ps = Triple-pure _ (λ j k. (k, h))
      describe_loop-Budget seen found (point ∷ points) h ps =
          elim (Bool-cases (contains_func seen (λ k. text_eq k (cache_key ops scope point)))) [
            | inl e ↦ rw e (
                Triple-weaken _ _ (λ j k. (k.0, omega (arith, k.1), k.2))
                  (describe_loop-Budget seen found points h ps.1))
            | inr e ↦ rw e (
                Triple-bind (resolve src (cache_key ops scope point) point) _
                  (λ place j. Budget (length points) j × IsPrivate place)
                  (resolve-Budget (length points) (cache_key ops scope point) point ps.0)
                  (λ place. record {
                    run = λ j k.
                        (describe_loop-Budget (cache_key ops scope point ∷ seen)
                            (take_place unicode found place) points
                            (take_place-Found unicode found place h k.1) ps.1).run
                          j k.0;
                  }))
          ]

-- within the track, away from the cells of both its ends; of no track, none is
abbrev pub IsInterior : GeoOps → Fallible PolylineError (List Vertex) → Point → Type 0
IsInterior ops (refused e) p = ⊥
IsInterior ops (returned []) p = ⊥
IsInterior ops (returned (first ∷ track)) p =
    (same_cell ops (cell_of ops p) (cell_of ops (point_of ops first))
      || same_cell ops (cell_of ops p)
          (cell_of ops (last_of (point_of ops first) (map (point_of ops) track))))
    ≡ false

-- what a description asked and saved
abbrev pub Kept : GeoOps → ℕ → Bytes → Journal → Type 0
Kept ops count encoded j =
    All (IsInterior ops (decode_polyline encoded)) j.requests
    × (length j.requests ≤ (if count == 0 then default_sample_count else count) + 1)
    × All (λ s. IsPrivate s.1) j.saves

module _ (unicode : Unicode) (ops : GeoOps) (src : Sources) (scope : Text) (count : ℕ)
    (encoded : Bytes) where
  abbrev most : ℕ
  most = (if count == 0 then default_sample_count else count) + 1

  describe_track-Kept :
      (decoded : Fallible PolylineError (List Vertex))
      → Triple
          (Budget (IsInterior ops decoded) most most)
          (describe_track unicode ops src scope count decoded)
          (λ r j. Stopped (IsInterior ops decoded) most j × Found r)
          (Stopped (IsInterior ops decoded) most)
  describe_track-Kept (refused e) = Triple-fail failed (λ j h. (h.0, omega (arith, h.1), h.2))
  describe_track-Kept (returned []) =
      unfold sample_points describe_loop in
      Triple-pure _ (λ j h. ((h.0, omega (arith, h.1), h.2), (tt, tt, tt)))
  describe_track-Kept (returned (first ∷ track)) =
      let samples = sample_points_lem ops (point_of ops first) (map (point_of ops) track) count in
      Triple-weaken _ _ (λ j h. (h.0, omega (arith, h.1, samples.2), h.2))
        (describe_loop-Budget _ most src unicode ops scope [] (empty_summary, []) _ (tt, tt, tt)
          samples.0)

  -- A description of a route asks the geocoder for no point in the cache cell of the first point of the
  -- track or of the last, nor for any where the polyline is malformed, and sends at most one request
  -- more than its sample count, where 0 stands for six. No name of a kind outside the allow-list is
  -- given to the cache. All this holds where the description fails too, whatever the geocoder and the
  -- cache answer. A summary lists only places that have a name of an allowed kind, each name once.
  pub describe_lem :
      (tick : ℕ)
      → Post
          (λ s j. Kept ops count encoded j × All IsNamed s.along × AllDistinct same_name s.along)
          (Kept ops count encoded)
          (describe unicode ops src scope count encoded
            (record { tick = tick; requests = []; saves = [] }))
  unfolding describe
  describe_lem tick =
      (Triple-bind (describe_track unicode ops src scope count (decode_polyline encoded))
          (λ found. pure found.0) (λ r j. Kept ops count encoded j × Found r)
          (Triple-relax _ _ _ _ _ (λ r j h. (Stopped-Kept j h.0, h.1)) (λ j h. Stopped-Kept j h)
            (describe_track-Kept (decode_polyline encoded)))
          (λ r. Triple-pure r.0 (λ j h. (h.0, h.1.0, h.1.1)))).run
        _ (tt, omega arith, tt)
    where
      Stopped-Kept :
          (j : Journal)
          → Stopped (IsInterior ops (decode_polyline encoded)) most j
          → Kept ops count encoded j
      Stopped-Kept j h = (h.0, omega (arith, h.1), h.2)
