-- ===== src/Geo/Client/Built.antt =====
-- The constructor of the client.
use titelheld.Prelude.{
  ℕ, ◌≤◌, ◌<◌, ◌≡◌, ◌⊎◌, true, ◌||◌, inl, inr, [], Bool-cases, arith, if◌then◌else◌, ltb, ◌==◌,
  is_empty, is_empty_sound, In, ltb→lt,
}
use titelheld.Prelude.Text.{Text, trim_space}
use titelheld.Prelude.Fallible.{Outcome, Outcome-bind, Outcome-relax}
use titelheld.Geo.Nominatim.{
  min_request_interval, min_zoom, max_zoom, default_zoom, order_fields, address_fields,
  AddressField, ConfigError, no_user_agent, bad_zoom, bad_order,
}
use titelheld.Geo.Nominatim.Order.{IsOrder, effective, IsResolved, IsRefused, order_fields_lem}
use titelheld.Geo.Client.{NominatimConfig, Nominatim, new_nominatim}

abbrev zoom_of : NominatimConfig → ℕ
zoom_of cfg = if cfg.zoom == 0 then default_zoom else cfg.zoom

abbrev pub IsClient : NominatimConfig → Nominatim → Type 0
IsClient cfg n =
    (min_request_interval ≤ n.limiter.interval)
    × (min_zoom ≤ n.zoom)
    × (n.zoom ≤ max_zoom)
    × ((f : AddressField) → In f n.place_fields → In f address_fields)

abbrev pub Wrong : NominatimConfig → ConfigError → Type 0
Wrong cfg no_user_agent = trim_space cfg.user_agent ≡ []
Wrong cfg bad_zoom = (zoom_of cfg < min_zoom) ⊎ (max_zoom < zoom_of cfg)
Wrong cfg (bad_order wrong) = IsOrder [] (effective cfg.place_fields) → ⊥

outside :
    (zoom : ℕ)
    → (ltb zoom min_zoom || ltb max_zoom zoom) ≡ true
    → (zoom < min_zoom) ⊎ (max_zoom < zoom)
outside zoom h = elim (Bool-cases (ltb zoom min_zoom)) [
  | inl e ↦ inl (ltb→lt zoom min_zoom e)
  | inr e ↦ inr (ltb→lt max_zoom zoom (rw e at h))
]

refused-Wrong :
    (cfg : NominatimConfig) (e : ConfigError) → IsRefused cfg.place_fields e → Wrong cfg e
refused-Wrong cfg no_user_agent h = absurd h
refused-Wrong cfg bad_zoom h = absurd h
refused-Wrong cfg (bad_order wrong) h = h

-- A client is built, or its configuration is refused for what is wrong with it: an empty user agent, a
-- zoom outside 3 to 18 or an order that is not valid. The client waits a second at least between two
-- requests, its zoom is from 3 to 18, and it reads no address key but those of the allow-list.
pub new_nominatim_lem :
    (hash : Text → Text) (cfg : NominatimConfig)
    → Outcome (IsClient cfg) (Wrong cfg) (new_nominatim hash cfg)
unfolding new_nominatim
new_nominatim_lem hash cfg = elim (Bool-cases (is_empty (trim_space cfg.user_agent))) [
  | inl e ↦ rw e (is_empty_sound _ e)
  | inr e ↦ elim (Bool-cases (ltb (zoom_of cfg) min_zoom || ltb max_zoom (zoom_of cfg))) [
    | inl z ↦ rw (e, z) (outside _ z)
    | inr z ↦
        rw (e, z)
          (Outcome-bind _ _ _ (order_fields cfg.place_fields) _
            (Outcome-relax (IsResolved cfg.place_fields) _ _ (order_fields cfg.place_fields)
              (refused-Wrong cfg) (order_fields_lem cfg.place_fields))
            (λ r k. (ground arith, ground arith, ground arith, λ f. (k.2 f).0)))
  ]
]
