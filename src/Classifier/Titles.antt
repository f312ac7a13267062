-- ===== src/Classifier/Titles.antt =====
-- internal/classifier/defaults.go, machine.go and templates.go: which titles are Strava's defaults, a
-- recognised machine's, a tool's, or this service's own templates.
use titelheld.Prelude.{
  ℕ, Bool, true, false, not, ◌&&◌, ◌||◌, List, [], ◌∷◌, ◌++◌, map, ltb, leb, ◌==◌, if◌then◌else◌,
  length, contains_func,
}
use titelheld.Prelude.Text.{Text, codes, text_eq, trim_space, has_prefix, has_suffix, fields, join}
use titelheld.Classifier.{MachineTitles, Config, Direction, to_work, to_home}

abbrev pub english_dayparts : List Text
english_dayparts =
    codes "Morning" ∷ codes "Lunch" ∷ codes "Afternoon" ∷ codes "Evening" ∷ codes "Night" ∷ []

abbrev pub english_activities : List Text
english_activities =
    codes "Ride"
    ∷ codes "Gravel Ride"
    ∷ codes "Run"
    ∷ codes "Walk"
    ∷ codes "Hike"
    ∷ codes "Swim"
    ∷ codes "Workout"
    ∷ codes "Weight Training"
    ∷ []

abbrev pub german_dayparts : List Text
german_dayparts =
    codes "am Morgen"
    ∷ codes "am Mittag"
    ∷ codes "am Nachmittag"
    ∷ codes "am Abend"
    ∷ codes "in der Nacht"
    ∷ []

abbrev pub german_activities : List Text
german_activities =
    codes "Radfahrt"
    ∷ codes "Gravel-Fahrt"
    ∷ codes "Lauf"
    ∷ codes "Spaziergang"
    ∷ codes "Wanderung"
    ∷ codes "Schwimmen"
    ∷ codes "Workout"
    ∷ codes "Gewichtstraining"
    ∷ []

-- one daypart with every activity, in the order that the language writes them
unfoldable pub english_titles : List Text → List Text → List Text
english_titles [] activities = []
english_titles (d ∷ ds) activities =
    map (λ a. d ++ codes " " ++ a) activities ++ english_titles ds activities

unfoldable pub german_titles : List Text → List Text → List Text
german_titles [] activities = []
german_titles (d ∷ ds) activities =
    map (λ a. a ++ codes " " ++ d) activities ++ german_titles ds activities

-- buildDefaultTitles
unfoldable pub default_titles : List Text
unfolding english_titles german_titles
default_titles =
    english_titles english_dayparts english_activities
    ++ german_titles german_dayparts german_activities

unfoldable pub is_default_title : Text → Bool
unfolding default_titles text_eq trim_space
is_default_title title = contains_func default_titles (λ known. text_eq known (trim_space title))

unfoldable pub is_empty : Text → Bool
is_empty [] = true
is_empty (c ∷ s) = false

-- MachineTitles.Matches
unfoldable pub matches : MachineTitles → Text → Bool
unfolding trim_space is_empty
matches m title =
    let trimmed = trim_space title in
    if is_empty trimmed then false else contains_func m.patterns (λ pattern. pattern trimmed)

unfoldable pub renamable : MachineTitles → Text → Bool
unfolding is_default_title matches
renamable m title = is_default_title title || matches m title

abbrev pub xert_difficulties : List Text
xert_difficulties =
    codes "Easy" ∷ codes "Moderate" ∷ codes "Difficult" ∷ codes "Tough" ∷ codes "Hard" ∷ []

abbrev pub xert_specificities : List Text
xert_specificities = codes "Pure" ∷ codes "Mixed" ∷ codes "Polar" ∷ []

abbrev pub xert_focus_types : List Text
xert_focus_types =
    codes "Power Sprinter"
    ∷ codes "Road Sprinter"
    ∷ codes "Pursuiter"
    ∷ codes "Puncheur"
    ∷ codes "Breakaway Specialist"
    ∷ codes "Rouleur"
    ∷ codes "GC Specialist"
    ∷ codes "Climber"
    ∷ codes "Sprint Time-Triallist"
    ∷ codes "Sprint Time-Trialist"
    ∷ codes "Time-Triallist"
    ∷ codes "Time-Trialist"
    ∷ codes "Century Rider"
    ∷ codes "Triathlete"
    ∷ codes "Endurance"
    ∷ []

-- `\w` and `\b` of a regular expression
word_char : ℕ → Bool
word_char c =
    (leb b'0' c && leb c b'9')
    || (leb b'A' c && leb c b'Z')
    || c == b'_'
    || (leb b'a' c && leb c b'z')

-- no word character stands next
ends_word : Text → Bool
unfolding word_char
ends_word [] = true
ends_word (c ∷ s) = not (word_char c)

-- the word w stands here, and ends here
word_here : Text → Text → Bool
unfolding ends_word
word_here s [] = ends_word s
word_here [] (d ∷ w) = false
word_here (c ∷ s) (d ∷ w) = c == d && word_here s w

-- `\b(?:words)\b` somewhere in the text; `inside` says whether a word character stands before it
has_word : List Text → Bool → Text → Bool
unfolding word_here word_char
has_word words inside [] = false
has_word words inside (c ∷ s) =
    (not inside && contains_func words (λ w. word_here (c ∷ s) w)) || has_word words (word_char c) s

-- `^(?:difficulties) `
unfoldable pub xert_difficulty_prefix : Text → Bool
unfolding has_prefix
xert_difficulty_prefix title =
    contains_func xert_difficulties (λ d. has_prefix title (d ++ codes " "))

unfoldable pub xert_vocabulary_word : Text → Bool
unfolding has_word
xert_vocabulary_word s = has_word (xert_specificities ++ xert_focus_types) false s

abbrev rest_of : List Text → List Text
rest_of [] = []
rest_of (w ∷ ws) = ws

unfoldable pub has_xert_shape : Text → Bool
unfolding has_suffix fields join xert_difficulty_prefix xert_vocabulary_word
has_xert_shape title =
    if not (has_suffix title (codes " Ride"))
    then false
    else if ltb (length (fields title)) 3
    then false
    else (xert_difficulty_prefix title
        || xert_vocabulary_word (join (rest_of (fields title)) (codes " ")))

unfoldable pub is_tool_title : Text → Bool
unfolding trim_space has_prefix has_suffix has_xert_shape
is_tool_title title =
    let t = trim_space title in
    has_prefix t (codes "Zwift - ") || has_suffix t (codes " - Xert") || has_xert_shape t

abbrev pub default_errand_titles : List Text
default_errand_titles = codes "Besorgungen" ∷ codes "In die Stadt" ∷ codes "Stadtrunde" ∷ []

or_default : Text → Text → Text
or_default [] default = default
or_default (c ∷ s) default = c ∷ s

-- Config.CommuteTitle
unfoldable pub commute_title : Config → Direction → Text
unfolding or_default
commute_title c to_home = or_default c.to_home_title (codes "Nach Hause")
commute_title c _ = or_default c.to_work_title (codes "Zur Arbeit")

-- Config.TemplateTitles
unfoldable pub template_titles : Config → List Text
unfolding commute_title
template_titles c = commute_title c to_work ∷ commute_title c to_home ∷ default_errand_titles
