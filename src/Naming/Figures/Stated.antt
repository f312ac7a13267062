-- ===== src/Naming/Figures/Stated.antt =====
-- Where the figures of an accepted title stand in the prompt.
use titelheld.Prelude.{
  ℕ, ◌≡◌, refl, subst, true, ◌⊎◌, inl, inr, Option, none, some, List, [], ◌∷◌, ◌++◌, Bool-cases,
  arith, if◌then◌else◌, All, In, In-append_left, In-append_right, All-of_In,
}
use titelheld.Prelude.Text.{Text, text_eq, text_eq_iff, text_key, itoa}
use titelheld.Prelude.Table.{lookup}
use titelheld.Naming.Known.{TextForms}
use titelheld.Naming.Figures.Words.{number_words}
use titelheld.Naming.Figures.{
  TokenKind, token_word, token_number, token_time, FigureToken, Figures, canonical_number,
  canonical_time, hour_of, figure_tokens, add_token, add_tokens, add, word_values, holds, covers,
  covers_word, unstated_in, unstated_figure, split_lines, is_heading, states, stated_loop, add_all,
  no_figures, stated_figures, is_half_hour, first_text,
}

-- the lines of a prompt that state figures, behind a heading
unfoldable pub figure_lines : Text → List Text → List Text
figure_lines heading [] = []
figure_lines heading (line ∷ lines) =
    let under = figure_lines line lines in
    let rest = figure_lines heading lines in
    if is_heading line then under else if states heading line then line ∷ rest else rest

abbrev ValueOf : TokenKind → Text → Text → Text → Type 0
ValueOf token_number text folded v = canonical_number text ≡ v
ValueOf token_time text folded v = hour_of text ≡ v
ValueOf token_word text folded v = (n : ℕ) × (lookup folded number_words ≡ some n) × (itoa n ≡ v)

-- a token gives a number: it is that, or it is a time and its hour is that, or it is a word for it
abbrev pub Gives : FigureToken → Text → Type 0
Gives t v = ValueOf t.kind t.text t.folded v

abbrev SupportOf : FigureToken → TokenKind → Text → Text → Type 0
SupportOf t token_number text folded = Gives t (canonical_number text)
SupportOf t token_time text folded =
    (t.kind ≡ token_time) × (canonical_time t.text ≡ canonical_time text)
SupportOf t token_word text folded =
    ((n : ℕ) × (lookup folded number_words ≡ some n) × Gives t (itoa n))
    ⊎ ((t.kind ≡ token_word) × (t.folded ≡ folded))

-- the ways in which a stated token supports a token of a title
abbrev pub Supports : FigureToken → FigureToken → Type 0
Supports t u = SupportOf t u.kind u.text u.folded

-- a word that is no number word
abbrev pub IsPlain : FigureToken → Type 0
IsPlain u = (u.kind ≡ token_word) × (lookup u.folded number_words ≡ none)

holds-All :
    (P : Text → Type 0) (set : List Text) (text : Text) → holds set text ≡ true → All P set → P text
holds-All P [] text h all = absurd (ground arith)
holds-All P (m ∷ set) text h all = elim (Bool-cases (text_eq m text)) [
  | inl e ↦ subst P ((text_eq_iff m text).0 e) all.0
  | inr e ↦ holds-All P set text (rw e at h) all.1
]

-- every member of the sets comes from a token that G holds of
module _ (G : FigureToken → Type 0) where
  abbrev Backed : Figures → Type 0
  Backed s =
      All (λ v. (t : FigureToken) × G t × Gives t v) s.values
      × All (λ v. (t : FigureToken) × G t × ((t.kind ≡ token_time) × (canonical_time t.text ≡ v)))
          s.times
      × All (λ v. (t : FigureToken) × G t × ((t.kind ≡ token_word) × (t.folded ≡ v))) s.words

  word_values-All :
      (text folded : Text) (n : Option ℕ) (values : List Text)
      → lookup folded number_words ≡ n
      → G (record { kind = token_word; text = text; folded = folded })
      → All (λ v. (t : FigureToken) × G t × Gives t v) values
      → All (λ v. (t : FigureToken) × G t × Gives t v) (word_values folded n values)
  word_values-All text folded none values e g h = h
  word_values-All text folded (some n) values e g h = ((_, g, (n, e, refl)), h)

  add_token-Backed :
      (s : Figures) (kind : TokenKind) (text folded : Text)
      → G (record { kind = kind; text = text; folded = folded })
      → Backed s
      → Backed (add_token s (record { kind = kind; text = text; folded = folded }))
  unfolding add_token
  add_token-Backed s token_number text folded g h = ((((_, g, refl), h.0)), h.1, h.2)
  add_token-Backed s token_time text folded g h =
      (((_, g, refl), h.0), ((_, g, (refl, refl)), h.1), h.2)
  add_token-Backed s token_word text folded g h = (
    word_values-All text folded (lookup folded number_words) s.values refl g h.0,
    h.1,
    ((_, g, (refl, refl)), h.2),
  )

  add_tokens-Backed :
      (s : Figures) (tokens : List FigureToken)
      → All G tokens
      → Backed s
      → Backed (add_tokens s tokens)
  unfolding add_tokens
  add_tokens-Backed s [] g h = h
  add_tokens-Backed s (t ∷ tokens) g h =
      add_tokens-Backed (add_token s t) tokens g.1 (add_token-Backed s t.kind t.text t.folded g.0 h)

  covers_word-Supports :
      (s : Figures) (text folded : Text) (n : Option ℕ)
      → lookup folded number_words ≡ n
      → covers_word s folded n ≡ true
      → Backed s
      → IsPlain (record { kind = token_word; text = text; folded = folded })
        ⊎ ((t : FigureToken) × G t × SupportOf t token_word text folded)
  covers_word-Supports s text folded none e h b = inl (refl, e)
  covers_word-Supports s text folded (some n) e h b = elim (Bool-cases (holds s.values (itoa n))) [
    | inl k ↦
        let (t, g, gives) = holds-All _ s.values (itoa n) k b.0 in inr (t, g, inl (n, e, gives))
    | inr k ↦ let (t, g, same) = holds-All _ s.words folded (rw k at h) b.2 in inr (t, g, inr same)
  ]

  covers-Supports :
      (s : Figures) (kind : TokenKind) (text folded : Text)
      → covers s (record { kind = kind; text = text; folded = folded }) ≡ true
      → Backed s
      → IsPlain (record { kind = kind; text = text; folded = folded })
        ⊎ ((t : FigureToken) × G t × SupportOf t kind text folded)
  unfolding covers
  covers-Supports s token_number text folded h b = inr (holds-All _ s.values _ h b.0)
  covers-Supports s token_time text folded h b = inr (holds-All _ s.times _ h b.1)
  covers-Supports s token_word text folded h b =
      covers_word-Supports s text folded (lookup folded number_words) refl h b

module _ (f : TextForms) (G : FigureToken → Type 0) where
  add-Backed :
      (s : Figures) (line : Text)
      → ((t : FigureToken) → In t (figure_tokens f line) → G t)
      → Backed G s
      → Backed G (add f s line)
  add-Backed s line g h = add_tokens-Backed G s (figure_tokens f line) (All-of_In G _ g) h

  stated_loop-Backed :
      (s : Figures) (heading : Text) (lines : List Text)
      → ((line : Text)
          → In line (figure_lines heading lines)
          → (t : FigureToken) → In t (figure_tokens f line)
          → G t)
      → Backed G s
      → Backed G (stated_loop f s heading lines)
  unfolding stated_loop figure_lines
  stated_loop-Backed s heading [] g h = h
  stated_loop-Backed s heading (line ∷ lines) g h = elim (Bool-cases (is_heading line)) [
    | inl e ↦ rw e (stated_loop-Backed s line lines (rw e at g) h)
    | inr e ↦ elim (Bool-cases (states heading line)) [
      | inr k ↦ rw (e, k) (stated_loop-Backed s heading lines (rw (e, k) at g) h)
      | inl k ↦
          let g' : (l : Text)
              → (l ≡ line) ⊎ In l (figure_lines heading lines)
              → (t : FigureToken) → In t (figure_tokens f l)
              → G t =
            rw (e, k) at g in
          rw (e, k)
            (stated_loop-Backed (add f s line) heading lines (λ l m. g' l (inr m))
              (add-Backed s line (g' line (inl refl)) h))
    ]
  ]

  add_all-Backed :
      (s : Figures) (texts : List Text)
      → ((text : Text) → In text texts → (t : FigureToken) → In t (figure_tokens f text) → G t)
      → Backed G s
      → Backed G (add_all f s texts)
  unfolding add_all
  add_all-Backed s [] g h = h
  add_all-Backed s (text ∷ texts) g h =
      add_all-Backed (add f s text) texts (λ l m. g l (inr m))
        (add-Backed s text (g text (inl refl)) h)

  unstated_in-All :
      (s : Figures) (tokens : List FigureToken)
      → unstated_in s tokens ≡ none
      → Backed G s
      → All (λ u. IsPlain u ⊎ ((t : FigureToken) × G t × Supports t u)) tokens
  unfolding unstated_in
  unstated_in-All s [] h b = tt
  unstated_in-All s (u ∷ tokens) h b = elim (Bool-cases (is_half_hour u tokens)) [
    | inl e ↦
        absurd
          (let clash : some (u.text ++ (32 ∷ first_text tokens)) ≡ none = rw e at h in ground arith)
    | inr e ↦ elim (Bool-cases (covers s u)) [
      | inr k ↦ absurd (let clash : some u.text ≡ none = rw (e, k) at h in ground arith)
      | inl k ↦ (
        covers-Supports G s u.kind u.text u.folded k b,
        unstated_in-All s tokens (rw (e, k) at h) b,
      )
    ]
  ]

-- Every figure of a title that is not refused stands in the prompt: a token of the title is a word that
-- is no number word, or some token supports it that stands in a line of the blocks RIDE and NOTES, the
-- line of the bike left out, or in a text given beside the prompt.
pub unstated_figure-stated :
    (f : TextForms) (user_prompt : Text) (also : List Text) (title : Text)
    → unstated_figure f title (stated_figures f user_prompt also) ≡ none
    → All
        (λ u.
          IsPlain u
          ⊎ ((t : FigureToken) × ((line : Text) × In line
                  (figure_lines [] (split_lines user_prompt) ++ also)
                × In t (figure_tokens f line))
              × Supports t u))
        (figure_tokens f title)
unfolding unstated_figure stated_figures
unstated_figure-stated f user_prompt also title h =
    let lines = figure_lines [] (split_lines user_prompt) in
    unstated_in-All f _ _ (figure_tokens f title) h (
      add_all-Backed f _ (stated_loop f no_figures [] (split_lines user_prompt)) also
        (λ l m t k. (l, In-append_right l lines also m, k))
        (stated_loop-Backed f _ no_figures [] (split_lines user_prompt)
          (λ l m t k. (l, In-append_left l lines also m, k)) (tt, tt, tt)))
