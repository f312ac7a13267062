-- ===== src/Processor/Filter.antt =====
-- internal/processor: whose title it is (notAPersonsTitle, notTheAthletesTitle), errandTitle and
-- toClassifierActivity. A reason is reported as true, the empty reason as false.
use titelheld.Prelude.{
  ℕ, suc, ◌%◌, Bool, ◌||◌, Option, none, some, List, [], ◌∷◌, length, contains_func, zero,
}
use titelheld.Prelude.Text.{Text, text_eq, trim_space}
use titelheld.Classifier
use titelheld.Classifier.{Float, Point, Config}
use titelheld.Classifier.Titles.{
  is_default_title, matches, is_tool_title, template_titles, default_errand_titles, is_empty,
}
use titelheld.Processor.{Activity}

unfoldable pub not_a_persons_title : Text → List Text → Bool
not_a_persons_title title templates =
    let t = trim_space title in
    is_tool_title t || contains_func templates (λ template. text_eq (trim_space template) t)

unfoldable pub not_the_athletes_title : Config → Text → Bool
not_the_athletes_title c title =
    let t = trim_space title in
    is_empty t
    || is_default_title t
    || matches c.machine_titles t
    || not_a_persons_title t (template_titles c)

pick : List Text → ℕ → Text
pick [] i = []
pick (t ∷ ts) zero = t
pick (t ∷ ts) (suc i) = pick ts i

unfoldable pub errand_title : Activity → Text
unfolding pick
errand_title a = pick default_errand_titles (a.id % length default_errand_titles)

-- a position is two numbers, or it is none
point_of : List Float → Option Point
point_of (lat ∷ lon ∷ []) = some (record { lat = lat; lon = lon })
point_of _ = none

unfoldable pub to_classifier_activity : Activity → Classifier.Activity
unfolding point_of
to_classifier_activity a = record {
  name = a.name;
  description = a.description;
  sport_type = a.sport_type;
  trainer = a.trainer;
  commute = a.commute;
  distance_meters = a.distance;
  moving_time_seconds = a.moving_time;
  start_point = point_of a.start_latlng;
  end_point = point_of a.end_latlng;
}
