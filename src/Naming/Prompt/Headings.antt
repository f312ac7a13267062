-- ===== src/Naming/Prompt/Headings.antt =====
-- The headings of a whole prompt.
use titelheld.Prelude.{
  ◌≡◌, refl, sym, ap, ◌∙◌, inl, inr, List, [], ◌∷◌, ◌++◌, append-nil, Bool-cases, All,
}
use titelheld.Prelude.Text.{Text, codes}
use titelheld.Classifier.{Float}
use titelheld.Naming.Known.{cap_titles}
use titelheld.Naming.Figures.{is_heading}
use titelheld.Naming.Prompt.{
  Fact, Ride, Example, Context, Formats, write_field, write_int, write_start, write_number,
  write_ride, write_blocks, build_prompt,
}
use titelheld.Naming.Prompt.Lines.{
  IsLine, headings, Adds, Adds-append, headings-trim_breaks, headings-line,
}
use titelheld.Naming.Prompt.Blocks.{
  block_of, values_of, titles_of, is_line-IsLine, silent, Adds-nil, Adds-field, Adds-with_unit,
  Adds-int, Adds-start, Adds-section, Adds-list, Adds-facts, facts-is_empty, region-is_empty,
  Adds-examples, examples-is_empty, Adds-franchise,
}

-- the blocks behind RIDE of a ride and its context, in their order
abbrev blocks_behind : Ride → Context → List Text
blocks_behind ride c =
    block_of (codes "PLACES") ride.places
    ++ (block_of (codes "REGION") (ride.region ∷ ride.country ∷ [])
        ++ (block_of (codes "ACHIEVEMENTS") ride.achievements
            ++ (block_of (codes "NOTES") (values_of ride.facts)
                ++ (block_of (codes "RECENT") (cap_titles c.recent_titles)
                    ++ (block_of (codes "FRANCHISE") (c.franchise_next ∷ [])
                        ++ block_of (codes "EXAMPLES") (titles_of c.examples))))))

abbrev pub blocks_of : Ride → Context → List Text
blocks_of ride c = codes "RIDE" ∷ blocks_behind ride c

module _ (formats : Formats) (decimal : (x : Float) → IsLine (formats.one_decimal x)) where
  Adds-number :
      (label : Text) (value : Float) (unit : Text)
      → IsLine label
      → IsLine unit
      → Adds [] (write_number formats label value unit)
  unfolding write_number
  Adds-number label value unit h k = elim (Bool-cases (formats.is_positive value)) [
    | inl e ↦ rw e (Adds-with_unit label (formats.one_decimal value) unit h (decimal value) k)
    | inr e ↦ rw e Adds-nil
  ]

  Adds-ride : (ride : Ride) → Adds [] (write_ride formats ride)
  unfolding write_ride
  Adds-ride ride =
      silent (write_field (codes "Sport") ride.sport_type) _
        (Adds-field (codes "Sport") ride.sport_type (is_line-IsLine (codes "Sport") refl))
        (silent (write_number formats (codes "Distance") ride.distance_km (codes "km")) _
          (Adds-number (codes "Distance") ride.distance_km (codes "km")
            (is_line-IsLine (codes "Distance") refl) (is_line-IsLine (codes "km") refl))
          (silent (write_int (codes "Moving time") ride.moving_time_minutes (codes "min")) _
            (Adds-int (codes "Moving time") ride.moving_time_minutes (codes "min")
              (is_line-IsLine (codes "Moving time") refl) (is_line-IsLine (codes "min") refl))
            (silent (write_number formats (codes "Climbing") ride.elevation_gain_meters (codes "m"))
              _
              (Adds-number (codes "Climbing") ride.elevation_gain_meters (codes "m")
                (is_line-IsLine (codes "Climbing") refl) (is_line-IsLine (codes "m") refl))
              (silent
                (write_number formats (codes "Average speed") ride.average_speed_kmh (codes "km/h"))
                _
                (Adds-number (codes "Average speed") ride.average_speed_kmh (codes "km/h")
                  (is_line-IsLine (codes "Average speed") refl)
                  (is_line-IsLine (codes "km/h") refl))
                (silent (write_start ride.start_local) _ (Adds-start ride.start_local) (
                  Adds-field (codes "Bike") ride.gear_name
                    (is_line-IsLine (codes "Bike") refl)))))))

  Adds-blocks :
      (ride : Ride) (c : Context)
      → All (λ (fact : Fact). IsLine fact.label) ride.facts
      → All (λ (example : Example). IsLine example.language) c.examples
      → Adds (blocks_behind ride c) (write_blocks formats ride c)
  unfolding is_heading
  Adds-blocks ride c labels languages =
      Adds-append _ _ _ _
        (Adds-list (codes "PLACES") ride.places refl (is_line-IsLine (codes "PLACES") refl))
        (Adds-append _ _ _ _
          (Adds-section (codes "REGION") _ (ride.region ∷ ride.country ∷ []) refl
            (is_line-IsLine (codes "REGION") refl)
            (silent _ _
              (Adds-field (codes "Region") ride.region (is_line-IsLine (codes "Region") refl))
              (Adds-field (codes "Country") ride.country (is_line-IsLine (codes "Country") refl)))
            (region-is_empty ride.region ride.country))
          (Adds-append _ _ _ _
            (Adds-list (codes "ACHIEVEMENTS") ride.achievements refl
              (is_line-IsLine (codes "ACHIEVEMENTS") refl))
            (Adds-append _ _ _ _
              (Adds-section (codes "NOTES") _ (values_of ride.facts) refl
                (is_line-IsLine (codes "NOTES") refl) (Adds-facts ride.facts labels)
                (facts-is_empty ride.facts))
              (Adds-append _ _ _ _
                (Adds-list (codes "RECENT") (cap_titles c.recent_titles) refl
                  (is_line-IsLine (codes "RECENT") refl))
                (Adds-append _ _ _ _ (Adds-franchise c.franchise_next) (
                  Adds-section (codes "EXAMPLES") _ (titles_of c.examples) refl
                    (is_line-IsLine (codes "EXAMPLES") refl) (Adds-examples c.examples languages)
                    (examples-is_empty c.examples)))))))

  -- The headings of a prompt are RIDE and those of its blocks in their order, each of them once and
  -- exactly if one of the block's values is left when it is reduced to a line. So no value of a ride or
  -- its context, whatever it holds, forges a heading. A formatted number, the label of a fact and the
  -- language of an example have no line break.
  pub build_prompt-headings :
      (ride : Ride) (c : Context)
      → All (λ (fact : Fact). IsLine fact.label) ride.facts
      → All (λ (example : Example). IsLine example.language) c.examples
      → headings (build_prompt formats ride c) ≡ blocks_of ride c
  unfolding build_prompt is_heading
  build_prompt-headings ride c labels languages =
      headings-trim_breaks
        (codes "RIDE" ++ (10 ∷ (write_ride formats ride ++ write_blocks formats ride c)))
      ∙ headings-line (codes "RIDE") (write_ride formats ride ++ write_blocks formats ride c)
          (is_line-IsLine (codes "RIDE") refl)
      ∙ ap (λ hs. codes "RIDE" ∷ hs)
          (ap headings (sym (append-nil (write_ride formats ride ++ write_blocks formats ride c)))
            ∙ (Adds-append [] _ _ _ (Adds-ride ride) (Adds-blocks ride c labels languages)).adds []
            ∙ append-nil (blocks_behind ride c))
