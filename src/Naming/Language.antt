-- ===== src/Naming/Language.antt =====
-- internal/naming/language.go: the guess at the language of a title that somebody else wrote.
use titelheld.Prelude.{
  ℕ, ◌+◌, Bool, not, ◌||◌, List, [], ◌∷◌, map, ltb, ◌==◌, if◌then◌else◌, contains_func,
}
use titelheld.Prelude.Text.{Text, Unicode, codes, text_eq, fields_func}
use titelheld.Store.{Language, german, english}

abbrev german_markers : List Text
german_markers = map codes (
    "der" ∷ "die" ∷ "das" ∷ "den" ∷ "dem" ∷ "des" ∷ "ein" ∷ "eine" ∷ "einen" ∷ "einem" ∷ "einer"
    ∷ "und" ∷ "oder" ∷ "aber" ∷ "nicht" ∷ "kein" ∷ "keine" ∷ "im" ∷ "am" ∷ "um" ∷ "zum" ∷ "zur"
    ∷ "vom" ∷ "beim" ∷ "auf" ∷ "aus" ∷ "bei" ∷ "mit" ∷ "nach" ∷ "von" ∷ "vor" ∷ "über" ∷ "unter"
    ∷ "durch" ∷ "gegen" ∷ "ohne" ∷ "für" ∷ "ist" ∷ "war" ∷ "sind" ∷ "wird" ∷ "hat" ∷ "habe" ∷ "ich"
    ∷ "mein" ∷ "meine" ∷ "sich" ∷ "noch" ∷ "schon" ∷ "heute" ∷ "gestern" ∷ "morgen" ∷ "wieder"
    ∷ "endlich" ∷ "runde" ∷ "fahrt" ∷ "tour" ∷ "berg" ∷ "wald" ∷ "see" ∷ "regen" ∷ "wind" ∷ "sonne"
    ∷ "kalt" ∷ "warm" ∷ "schnell" ∷ "hause" ∷ "arbeit" ∷ "stadt" ∷ "abend" ∷ "nacht" ∷ [])

abbrev english_markers : List Text
english_markers = map codes (
    "the" ∷ "a" ∷ "an" ∷ "and" ∷ "or" ∷ "but" ∷ "not" ∷ "in" ∷ "on" ∷ "at" ∷ "to" ∷ "from" ∷ "with"
    ∷ "without" ∷ "over" ∷ "under" ∷ "through" ∷ "against" ∷ "into" ∷ "for" ∷ "is" ∷ "was" ∷ "are"
    ∷ "were" ∷ "has" ∷ "have" ∷ "had" ∷ "my" ∷ "of" ∷ "this" ∷ "that" ∷ "some" ∷ "every" ∷ "ride"
    ∷ "loop" ∷ "climb" ∷ "hills" ∷ "lap" ∷ "laps" ∷ "tour" ∷ "see" ∷ "rain" ∷ "wind" ∷ "sun"
    ∷ "cold" ∷ "warm" ∷ "fast" ∷ "home" ∷ "work" ∷ "morning" ∷ "evening" ∷ "night" ∷ [])

-- ä ö ü Ä Ö Ü ß
abbrev is_umlaut : ℕ → Bool
is_umlaut c =
    c == 0xe4 || c == 0xf6 || c == 0xfc || c == 0xc4 || c == 0xd6 || c == 0xdc || c == 0xdf

umlaut_score : Text → ℕ
umlaut_score [] = 0
umlaut_score (c ∷ s) = (if is_umlaut c then 2 else 0) + umlaut_score s

marker_score : List Text → List Text → ℕ
marker_score markers [] = 0
marker_score markers (w ∷ ws) =
    (if contains_func markers (text_eq w) then 1 else 0) + marker_score markers ws

module _ (u : Unicode) where
  -- GuessLanguage
  unfoldable pub guess_language : Text → Language
  unfolding umlaut_score marker_score
  guess_language title =
      let words = fields_func (map u.to_lower title) (λ c. not (u.is_letter c)) in
      let german_score = umlaut_score title + marker_score german_markers words in
      let english_score = marker_score english_markers words in
      if ltb german_score english_score then english else german
