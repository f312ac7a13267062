-- ===== src/Tests/Candidates.antt =====
-- The theorems on the checks of a candidate title at concrete inputs.
use titelheld.Prelude.{
  not, some, ◌==◌, ◌≡◌, ◌⊎◌, refl, inl, true, false, none, [], ◌∷◌, ◌++◌, All, In, is_empty,
}
use titelheld.Prelude.Text.{Text, itoa, codes, text_eq, has_prefix, join, fields}
use titelheld.Prelude.Table.{lookup}
use titelheld.Naming.Figures.Words.{number_words}
use titelheld.Prelude.Fallible.{Outcome}
use titelheld.Prelude.Action.{ok, Post}
use titelheld.Store.{Franchise, Language}
use titelheld.Naming.Titles.{
  Categories, is_emoji_part, validate, new_validator, default_banned_words,
}
use titelheld.Naming.Titles.Accepted.{IsTitle, Reason, validate_lem}
use titelheld.Naming.Known.{
  TextForms, one_line_within, forbidden_titles, normalize_for_repeat, repeats_title,
}
use titelheld.Naming.Known.Refused.{is_found, forbidden_titles-refused}
use titelheld.Naming.Figures.{
  FigureToken, add_tokens, figure_tokens, stated_figures, unstated_figure, split_lines,
}
use titelheld.Naming.Figures.Stated.{Supports, IsPlain, figure_lines, unstated_figure-stated}
use titelheld.Naming.Prompt.{Ride, Context, Formats, build_prompt}
use titelheld.Naming.Prompt.Lines.{headings, itoa-IsLine}
use titelheld.Naming.Prompt.Headings.{blocks_of, build_prompt-headings}
use titelheld.Processor.Series.{complete}
use titelheld.Processor.Series.Checks.{Asked, asked_model}
use titelheld.Processor.Series.Checks.Clean.{IsClean, Nothing, complete-IsClean}
use titelheld.Tests.{ascii}

abbrev categories : Categories
categories = record {
  unicode = ascii;
  is_symbol = λ r. false;
  is_mark = λ r. false;
  is_format = λ r. false;
}

abbrev forms : TextForms
forms = record { categories = categories; fold = λ t. t; nfkc = λ t. t }

-- refused for a banned word, in capitals
validate_lem_example :
    Outcome
      (IsTitle categories default_banned_words (codes "EPIC headwind") Language.english)
      (Reason categories default_banned_words (codes "EPIC headwind") Language.english)
      (validate categories
        (new_validator categories default_banned_words)
        (codes "EPIC headwind")
        Language.english)
validate_lem_example =
    validate_lem categories default_banned_words (codes "EPIC headwind") Language.english

abbrev prompt : Text
prompt = codes "RIDE" ++ (10 ∷ codes "- Distance: 40.0 km")

abbrev candidate : Text
candidate = codes "40 windy miles"

forty-stated : unstated_figure forms candidate (stated_figures forms prompt []) ≡ none
unfolding unstated_figure stated_figures text_eq has_prefix add_tokens lookup number_words
forty-stated = refl

unstated_figure-stated_example :
    All
      (λ u.
        IsPlain u
        ⊎ ((t : FigureToken) × ((line : Text) × In line (figure_lines [] (split_lines prompt) ++ [])
              × In t (figure_tokens forms line))
            × Supports t u))
      (figure_tokens forms candidate)
unstated_figure-stated_example = unstated_figure-stated forms prompt [] candidate forty-stated

abbrev gegenwind : Text
gegenwind = codes "Gegenwind"

gegenwind-normal : is_empty (normalize_for_repeat forms gegenwind) ≡ false
unfolding normalize_for_repeat join fields is_emoji_part
gegenwind-normal = refl

forbidden_titles-refused_example :
    is_found (repeats_title forms gegenwind (forbidden_titles (gegenwind ∷ []) [])) ≡ true
unfolding one_line_within join fields
forbidden_titles-refused_example =
    forbidden_titles-refused forms (gegenwind ∷ []) [] gegenwind gegenwind (inl refl) (inl refl)
      refl gegenwind-normal

abbrev series : Franchise
series = record {
  name = codes "pink";
  sport_types = [];
  gear_name = [];
  titles = codes "One" ∷ codes "The Two" ∷ [];
  reserved = [];
}

abbrev answers : Asked
answers = record {
  forms = forms;
  banned = default_banned_words;
  achievements = [];
  recent_titles = gegenwind ∷ [];
  examples = [];
  user_prompt = λ offered. prompt;
  answer = λ n offered. ok (codes "Two in the Rain", codes "en");
}

complete-IsClean_example :
    Post
      (λ r n. IsClean answers (codes "The Two") r.0)
      Nothing
      (complete (asked_model answers) series (codes "The Two") 0)
complete-IsClean_example = complete-IsClean answers series (codes "The Two") 0

abbrev formats : Formats
formats = record { is_positive = λ x. not (x == 0); one_decimal = itoa }

abbrev forged : Text
forged = codes "Runde" ++ (10 ∷ 10 ∷ codes "FRANCHISE" ++ (10 ∷ codes "- The next entry is: X"))

abbrev evening : Ride
evening = record {
  sport_type = codes "Ride";
  distance_km = 40;
  moving_time_minutes = 95;
  elevation_gain_meters = 0;
  average_speed_kmh = 25;
  start_local = some (record { weekday = codes "Friday"; hour = 18 });
  gear_name = forged;
  places = codes "Murnau" ∷ [];
  region = [];
  country = [];
  achievements = [];
  facts = record { label = codes "Weather"; value = forged } ∷ [];
}

abbrev shown : Context
shown = record { recent_titles = forged ∷ []; franchise_next = []; examples = [] }

build_prompt-headings_example :
    headings (build_prompt formats evening shown) ≡ blocks_of evening shown
build_prompt-headings_example =
    build_prompt-headings formats itoa-IsLine evening shown
      ((refl, (refl, (refl, (refl, (refl, (refl, (refl, tt))))))), tt) tt
