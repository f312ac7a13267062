-- ===== src/Naming/Figures.antt =====
-- internal/naming/figures.go: the figures that a title carries and those that a prompt states. Case
-- folding and the normal form NFKC of golang.org/x/text are parameters, as are the tables of package
-- unicode. A set is the list of its members.
pub mod Words
pub mod Stated
pub mod Fuel
use titelheld.Prelude.{
  ℕ, zero, suc, ◌+◌, ◌*◌, ◌-◌, ◌^◌, Bool, true, false, not, ◌&&◌, ◌||◌, ◌==◌, ltb, leb, Option,
  none, some, List, [], ◌∷◌, ◌++◌, if◌then◌else◌, is_empty, length, contains_func,
}
use titelheld.Prelude.Text.{Text, Unicode, codes, text_eq, text_key, has_prefix, itoa}
use titelheld.Prelude.Table.{lookup}
use titelheld.Naming.Titles.{Categories}
use titelheld.Naming.Known.{TextForms}
use titelheld.Naming.Figures.Words.{number_words}

pub data TokenKind : Type 0 where
  token_word token_number token_time : TokenKind

pub record FigureToken : Type 0 where
  pub kind : TokenKind
  pub text : Text
  pub folded : Text

pub record Figures : Type 0 where
  pub values : List Text
  pub times : List Text
  pub words : List Text

abbrev pub half_hour : Text
half_hour = codes "halb"

abbrev pub bike_label : Text
bike_label = codes "- Bike: "

-- the front whose characters pass a test, and the rest
abbrev pub span : (ℕ → Bool) → Text → Text × Text
span p [] = ([], [])
span p (r ∷ text) =
    let (front, rest) = span p text in if p r then (r ∷ front, rest) else ([], r ∷ text)

-- strings.Cut at a character: what is before it and what is behind
abbrev pub cut : ℕ → Text → Text × Text
cut sep [] = ([], [])
cut sep (r ∷ text) =
    let (before, after) = cut sep text in if r == sep then ([], text) else (r ∷ before, after)

abbrev pub trim_zeros : Text → Text
trim_zeros [] = []
trim_zeros (r ∷ text) = if r == 48 then trim_zeros text else r ∷ text

-- strings.TrimRight(text, "0")
abbrev pub trim_zeros_right : Text → Text
trim_zeros_right [] = []
trim_zeros_right (r ∷ text) =
    let rest = trim_zeros_right text in if r == 48 && is_empty rest then [] else r ∷ rest

-- a comma is a decimal point
abbrev pub with_points : Text → Text
with_points [] = []
with_points (r ∷ text) = (if r == 44 then 46 else r) ∷ with_points text

abbrev or_zero : Text → Text
or_zero [] = codes "0"
or_zero (r ∷ text) = r ∷ text

unfoldable pub canonical_number : Text → Text
canonical_number text =
    let parts = cut 46 (with_points text) in
    let whole = or_zero (trim_zeros parts.0) in
    let fraction = trim_zeros_right parts.1 in
    if is_empty fraction then whole else whole ++ (46 ∷ fraction)

-- the hour and the minute of a time, in canonical form
unfoldable pub canonical_time : Text → Text
unfolding canonical_number
canonical_time text = let parts = cut 58 text in canonical_number parts.0 ++ (58 ∷ parts.1)

abbrev pub hour_of : Text → Text
hour_of text = canonical_number (cut 58 text).0

-- the value of ASCII digits behind those read
abbrev atoi_loop : ℕ → Text → Option ℕ
atoi_loop n [] = some n
atoi_loop n (r ∷ text) =
    let rest = atoi_loop (10 * n + (r - 48)) text in if leb 48 r && leb r 57 then rest else none

abbrev in_int : Option ℕ → Bool
in_int none = false
in_int (some n) = ltb n (2 ^ 63)

-- strconv.Atoi of a token without a sign: whether it succeeds
unfoldable pub is_atoi : Text → Bool
is_atoi text = not (is_empty text) && in_int (atoi_loop 0 text)

abbrev pub is_number_word : Text → Bool
is_number_word folded = elim (lookup folded number_words) [ none ↦ false | some n ↦ true ]

-- value: whether the token denotes an integer
unfoldable pub has_value : FigureToken → Bool
unfolding is_atoi
has_value t = elim t.kind [
  | token_number ↦ is_atoi t.text
  | token_word ↦ is_number_word t.folded
  | token_time ↦ false
]

abbrev pub word_token : Text → Text → FigureToken
word_token text folded = record { kind = token_word; text = text; folded = folded }

abbrev figure_token : TokenKind → Text → FigureToken
figure_token kind text = record { kind = kind; text = text; folded = [] }

-- the kind of two digit runs that a character joins, or none
abbrev pub joined_kind : ℕ → Option TokenKind
joined_kind sep =
    if sep == 46 || sep == 44
    then some token_number
    else if sep == 58
    then some token_time
    else none

abbrev pub word_values : Text → Option ℕ → List Text → List Text
word_values folded none values = values
word_values folded (some n) values = itoa n ∷ values

-- one token recorded
unfoldable pub add_token : Figures → FigureToken → Figures
unfolding canonical_number canonical_time
add_token s t = elim t.kind [
  | token_number ↦ record s { values = canonical_number t.text ∷ s.values }
  | token_time ↦ record s {
    values = hour_of t.text ∷ s.values;
    times = canonical_time t.text ∷ s.times;
  }
  | token_word ↦ record s {
    words = t.folded ∷ s.words;
    values = word_values t.folded (lookup t.folded number_words) s.values;
  }
]

unfoldable pub add_tokens : Figures → List FigureToken → Figures
unfolding add_token
add_tokens s [] = s
add_tokens s (t ∷ tokens) = add_tokens (add_token s t) tokens

abbrev pub holds : List Text → Text → Bool
holds set text = contains_func set (λ m. text_eq m text)

abbrev pub covers_word : Figures → Text → Option ℕ → Bool
covers_word s folded none = true
covers_word s folded (some n) = holds s.values (itoa n) || holds s.words folded

unfoldable pub covers : Figures → FigureToken → Bool
unfolding canonical_number canonical_time
covers s t = elim t.kind [
  | token_number ↦ holds s.values (canonical_number t.text)
  | token_time ↦ holds s.times (canonical_time t.text)
  | token_word ↦ covers_word s t.folded (lookup t.folded number_words)
]

abbrev pub is_half_hour : FigureToken → List FigureToken → Bool
is_half_hour t [] = false
is_half_hour t (u ∷ tokens) = elim t.kind [
  | token_word ↦ text_eq t.folded half_hour && has_value u
  | _ ↦ false
]

abbrev pub first_text : List FigureToken → Text
first_text [] = []
first_text (u ∷ tokens) = u.text

unfoldable pub unstated_in : Figures → List FigureToken → Option Text
unfolding covers has_value
unstated_in s [] = none
unstated_in s (t ∷ tokens) =
    let rest = unstated_in s tokens in
    if is_half_hour t tokens
    then some (t.text ++ (32 ∷ first_text tokens))
    else if not (covers s t)
    then some t.text
    else rest

-- strings.SplitSeq at line breaks
abbrev pub split_lines : Text → List Text
split_lines [] = [] ∷ []
split_lines (r ∷ text) = elim (split_lines text) [
  | [] ↦ (r ∷ []) ∷ []
  | line ∷ lines ↦ if r == 10 then [] ∷ line ∷ lines else (r ∷ line) ∷ lines
]

abbrev all_upper : Text → Bool
all_upper [] = true
all_upper (r ∷ line) = leb 65 r && leb r 90 && all_upper line

unfoldable pub is_heading : Text → Bool
is_heading line = not (is_empty line) && all_upper line

-- a line under a heading that states figures
abbrev pub states : Text → Text → Bool
states heading line =
    (text_eq heading (codes "RIDE") || text_eq heading (codes "NOTES"))
    && not (text_eq heading (codes "RIDE") && has_prefix line bike_label)

abbrev pub no_figures : Figures
no_figures = record { values = []; times = []; words = [] }

module _ (f : TextForms) where
  abbrev pub is_digit : ℕ → Bool
  is_digit = f.categories.unicode.is_digit

  abbrev pub is_letter : ℕ → Bool
  is_letter = f.categories.unicode.is_letter

  abbrev pub is_word_part : ℕ → Bool
  is_word_part r = is_letter r || f.categories.is_mark r

  abbrev pub joined : Text → ℕ → Text → Option TokenKind → FigureToken × Text
  joined run sep after none = (figure_token token_number run, sep ∷ after)
  joined run sep after (some kind) =
      let second = span is_digit after in (figure_token kind (run ++ (sep ∷ second.0)), second.1)

  -- the token of a digit run, and what follows it
  abbrev pub number_token : Text → Text → FigureToken × Text
  number_token run [] = (figure_token token_number run, [])
  number_token run (sep ∷ []) = (figure_token token_number run, sep ∷ [])
  number_token run (sep ∷ d ∷ after) =
      if is_digit d
      then joined run sep (d ∷ after) (joined_kind sep)
      else (figure_token token_number run, sep ∷ d ∷ after)

  -- Each round takes a character at least, so as many rounds as there are characters are enough.
  unfoldable pub tokens_loop : ℕ → Text → List FigureToken
  tokens_loop fuel [] = []
  tokens_loop zero (r ∷ text) = []
  tokens_loop (suc fuel) (r ∷ text) =
      let digits = span is_digit text in
      let number = number_token (r ∷ digits.0) digits.1 in
      let word = span is_word_part text in
      let after_number = tokens_loop fuel number.1 in
      let after_word = tokens_loop fuel word.1 in
      let rest = tokens_loop fuel text in
      if is_digit r
      then number.0 ∷ after_number
      else if is_letter r
      then word_token (r ∷ word.0) (f.fold (r ∷ word.0)) ∷ after_word
      else rest

  unfoldable pub figure_tokens : Text → List FigureToken
  unfolding tokens_loop
  figure_tokens text = let runes = f.nfkc text in tokens_loop (length runes) runes

  -- Figures.add
  abbrev pub add : Figures → Text → Figures
  add s line = add_tokens s (figure_tokens line)

  unfoldable pub unstated_figure : Text → Figures → Option Text
  unfolding figure_tokens unstated_in
  unstated_figure title s = unstated_in s (figure_tokens title)

  unfoldable pub stated_loop : Figures → Text → List Text → Figures
  unfolding is_heading
  stated_loop s heading [] = s
  stated_loop s heading (line ∷ lines) =
      let under = stated_loop s line lines in
      let skipped = stated_loop s heading lines in
      let added = stated_loop (add s line) heading lines in
      if is_heading line then under else if states heading line then added else skipped

  unfoldable pub add_all : Figures → List Text → Figures
  add_all s [] = s
  add_all s (text ∷ texts) = add_all (add s text) texts

  unfoldable pub stated_figures : Text → List Text → Figures
  unfolding stated_loop add_all
  stated_figures user_prompt also =
      add_all (stated_loop no_figures [] (split_lines user_prompt)) also
