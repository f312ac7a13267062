-- ===== src/Processor/Series/Checks.antt =====
-- internal/processor/title.go, ask, with internal/naming/response.go, ParseAndValidate: the tests that an
-- answer of the model passes to become a title. The provider and the decoding of its JSON are outside.
pub mod Clean
use titelheld.Prelude.{ℕ, Bool, List, [], ◌∷◌, map}
use titelheld.Prelude.Text.{Text, codes, trim_space, text_eq}
use titelheld.Prelude.{if◌then◌else◌}
use titelheld.Prelude.Fallible.{Fallible, returned, refused}
use titelheld.Prelude.Action.{Result, ok, err, failed}
use titelheld.Store.{Language}
use titelheld.Naming.Titles.{TitleError, lowered, new_validator, validate}
use titelheld.Naming.Known.{TextForms, forbidden_titles, repeats_title, copies_achievement}
use titelheld.Naming.Known.Refused.{is_found}
use titelheld.Naming.Figures.{unstated_figure, stated_figures}
use titelheld.Processor.Series.{Title, Model}

-- What a ride brings to the calls of the model: the words that the validator is built with, the names
-- and titles that may not be taken, the user prompt that offers an entry, and the decoded answers by
-- their number, the title and the language as the model wrote them.
pub record Asked : Type 0 where
  pub forms : TextForms
  pub banned : List Text
  pub achievements : List Text
  pub recent_titles : List Text
  pub examples : List Text
  pub user_prompt : Text → Text
  pub answer : ℕ → Text → Result (Text × Text)

-- Language(strings.ToLower(strings.TrimSpace(text)))
unfoldable pub language_of : TextForms → Text → Language
language_of f text =
    let name = lowered f.categories (trim_space text) in
    if text_eq name (codes "de")
    then Language.german
    else if text_eq name (codes "en")
    then Language.english
    else Language.other name

-- The text beside the prompt is the entry; the empty one, which states no figure, is as none.
abbrev also_of : Text → List Text
also_of [] = []
also_of (c ∷ offered) = (c ∷ offered) ∷ []

module _ (a : Asked) where
  abbrev pub title_of : Fallible TitleError titelheld.Naming.Titles.Title → Result Title
  title_of (returned t) = ok (record { text = t.text; language = t.language })
  title_of (refused e) = err failed

  abbrev pub validated : Result (Text × Text) → Result Title
  validated (err e) = err e
  validated (ok (candidate, language)) = title_of (
      validate a.forms.categories (new_validator a.forms.categories a.banned) candidate
        (language_of a.forms language))

  abbrev pub copies : Text → Bool
  copies text = is_found (copies_achievement a.forms text a.achievements)

  abbrev pub repeats : Text → Bool
  repeats text = is_found (repeats_title a.forms text (forbidden_titles a.recent_titles a.examples))

  abbrev pub unstated : Text → Text → Bool
  unstated offered text = is_found (
      unstated_figure a.forms text
        (stated_figures a.forms (a.user_prompt offered) (also_of offered)))

  -- the model whose draws are parsed, validated and tested as ask tests them
  abbrev pub asked_model : Model
  asked_model = record {
    unicode = a.forms.categories.unicode;
    draw = λ n offered. validated (a.answer n offered);
    copies = copies;
    repeats = repeats;
    unstated = unstated;
  }
