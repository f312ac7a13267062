-- ===== src/Naming/Prompt/Blocks.antt =====
-- What each part of a prompt adds to its headings.
use titelheld.Prelude.{
  ℕ, and_split, ltb, ◌≡◌, refl, subst, Bool, true, not, ◌&&◌, ◌==◌, inl, inr, Option, none, some,
  List, [], ◌∷◌, ◌++◌, Bool-cases, arith, if◌then◌else◌, is_empty, map, All, All-append,
}
use titelheld.Prelude.Text.{Text, codes, itoa}
use titelheld.Naming.Known.{one_line, one_line_within}
use titelheld.Naming.Figures.{is_heading}
use titelheld.Naming.Prompt.{
  Fact, Start, Example, bullet, write_field, with_unit, write_int, two_digits, write_start, headed,
  bullets, kept_lines, write_list, write_facts, example_line, write_examples, word_for_word,
  ordinary_title, only_wording, franchise_lines, write_franchise, max_situation_runes,
}
use titelheld.Naming.Prompt.Lines.{
  NotBreak, IsLine, Adds, Adds-append, Adds-bullet, Adds-headed, one_line_within-IsLine,
  itoa-IsLine,
}

-- a block of some values is there if one of them is not empty as a line
abbrev pub block_of : Text → List Text → List Text
block_of heading values = if is_empty (kept_lines values) then [] else heading ∷ []

abbrev pub values_of : List Fact → List Text
values_of = map (λ (fact : Fact). fact.value)

abbrev pub titles_of : List Example → List Text
titles_of = map (λ (example : Example). example.title)

pub Adds-nil : Adds [] []
Adds-nil = record { adds = λ rest. refl }

pub Adds-field : (label value : Text) → IsLine label → Adds [] (write_field label value)
unfolding write_field
Adds-field label value h = elim (Bool-cases (is_empty (one_line value))) [
  | inl e ↦ rw e Adds-nil
  | inr e ↦ rw e (
      Adds-bullet (label ++ (codes ": " ++ one_line value))
        (All-append NotBreak label _ h (refl, (refl, one_line_within-IsLine value 60))))
]

pub Adds-with_unit :
    (label number unit : Text)
    → IsLine label
    → IsLine number
    → IsLine unit
    → Adds [] (with_unit label number unit)
Adds-with_unit label number unit h k l =
    Adds-bullet (label ++ (codes ": " ++ (number ++ (32 ∷ unit)))) (
      All-append NotBreak label _ h
        (refl, (refl, All-append NotBreak number (32 ∷ unit) k (refl, l))))

pub Adds-int :
    (label : Text) (value : ℕ) (unit : Text)
    → IsLine label
    → IsLine unit
    → Adds [] (write_int label value unit)
unfolding write_int
Adds-int label value unit h l = elim (Bool-cases (value == 0)) [
  | inl e ↦ rw e Adds-nil
  | inr e ↦ rw e (Adds-with_unit label (itoa value) unit h (itoa-IsLine value) l)
]

pub silent : (a b : Text) → Adds [] a → Adds [] b → Adds [] (a ++ b)
silent a b = Adds-append [] [] a b

-- whether a text is one line, for the texts of the source
abbrev pub is_line : Text → Bool
is_line [] = true
is_line (r ∷ text) = not (r == 10) && is_line text

pub is_line-IsLine : (text : Text) → is_line text ≡ true → IsLine text
is_line-IsLine [] h = tt
is_line-IsLine (r ∷ text) h =
    let (a, b) = and_split (not (r == 10)) (is_line text) h in (ground arith, is_line-IsLine text b)

two_digits-IsLine : (n : ℕ) → IsLine (two_digits n)
two_digits-IsLine n = elim (Bool-cases (ltb n 10)) [
  | inl e ↦ rw e (refl, itoa-IsLine n)
  | inr e ↦ rw e (itoa-IsLine n)
]

pub Adds-start : (start : Option Start) → Adds [] (write_start start)
unfolding write_start
Adds-start none = Adds-nil
Adds-start (some start) =
    silent (write_field (codes "Weekday") start.weekday) _
      (Adds-field (codes "Weekday") start.weekday (is_line-IsLine (codes "Weekday") refl))
      (Adds-field (codes "Start hour") _ (is_line-IsLine (codes "Start hour") refl))

kept-AreLines : (values : List Text) → All IsLine (kept_lines values)
kept-AreLines [] = tt
kept-AreLines (value ∷ values) = elim (Bool-cases (is_empty (one_line value))) [
  | inl e ↦ rw e (kept-AreLines values)
  | inr e ↦ rw e (one_line_within-IsLine value 60, kept-AreLines values)
]

pub Adds-bullets : (items : List Text) → All IsLine items → Adds [] (bullets items)
Adds-bullets [] h = Adds-nil
Adds-bullets (item ∷ items) (h, hs) =
    silent (bullet item) (bullets items) (Adds-bullet item h) (Adds-bullets items hs)

-- a block is there if its body is not empty, which is if one of its values is not
pub Adds-section :
    (heading body : Text) (values : List Text)
    → is_heading heading ≡ true
    → IsLine heading
    → Adds [] body
    → is_empty body ≡ is_empty (kept_lines values)
    → Adds (block_of heading values) (headed heading body)
Adds-section heading body values h l a e =
    subst (λ b. Adds (if b then [] else heading ∷ []) (headed heading body)) e
      (Adds-headed heading body h l a)

pub bullets-is_empty : (items : List Text) → is_empty (bullets items) ≡ is_empty items
bullets-is_empty [] = refl
bullets-is_empty (item ∷ items) = refl

pub Adds-list :
    (heading : Text) (values : List Text)
    → is_heading heading ≡ true
    → IsLine heading
    → Adds (block_of heading values) (write_list heading values)
unfolding write_list
Adds-list heading values h l =
    Adds-section heading (bullets (kept_lines values)) values h l
      (Adds-bullets (kept_lines values) (kept-AreLines values))
      (bullets-is_empty (kept_lines values))

pub Adds-facts :
    (facts : List Fact)
    → All (λ (fact : Fact). IsLine fact.label) facts
    → Adds [] (write_facts facts)
unfolding write_facts
Adds-facts [] h = Adds-nil
Adds-facts (fact ∷ facts) (h, hs) =
    silent (write_field fact.label fact.value) (write_facts facts)
      (Adds-field fact.label fact.value h) (Adds-facts facts hs)

pub facts-is_empty :
    (facts : List Fact) → is_empty (write_facts facts) ≡ is_empty (kept_lines (values_of facts))
unfolding write_facts write_field
facts-is_empty [] = refl
facts-is_empty (fact ∷ facts) = elim (Bool-cases (is_empty (one_line fact.value))) [
  | inl e ↦ rw e (facts-is_empty facts)
  | inr e ↦ rw e refl
]

pub region-is_empty :
    (region country : Text)
    → is_empty (write_field (codes "Region") region ++ write_field (codes "Country") country)
      ≡ is_empty (kept_lines (region ∷ country ∷ []))
unfolding write_field
region-is_empty region country = elim (Bool-cases (is_empty (one_line region))) [
  | inr e ↦ rw e refl
  | inl e ↦ elim (Bool-cases (is_empty (one_line country))) [
    | inl k ↦ rw (e, k) refl
    | inr k ↦ rw (e, k) refl
  ]
]

pub Adds-example :
    (example : Example) (title : Text)
    → IsLine example.language
    → IsLine title
    → Adds [] (example_line example title)
Adds-example example title h k = Adds-bullet _ (
    All-append NotBreak (one_line_within example.situation max_situation_runes) _
      (one_line_within-IsLine example.situation max_situation_runes)
      (
        refl,
        (
          refl,
          (
            refl,
            (
              refl,
              All-append NotBreak title _ k
                  (refl, (refl, All-append NotBreak example.language _ h (refl, tt))),
            ),
          ),
        ),
      ))

pub Adds-examples :
    (examples : List Example)
    → All (λ (example : Example). IsLine example.language) examples
    → Adds [] (write_examples examples)
unfolding write_examples
Adds-examples [] h = Adds-nil
Adds-examples (example ∷ examples) (h, hs) = elim (Bool-cases (is_empty (one_line example.title))) [
  | inl e ↦ rw e (Adds-examples examples hs)
  | inr e ↦ rw e (
      silent (example_line example (one_line example.title)) (write_examples examples)
        (Adds-example example (one_line example.title) h (one_line_within-IsLine example.title 60))
        (Adds-examples examples hs))
]

pub examples-is_empty :
    (examples : List Example)
    → is_empty (write_examples examples) ≡ is_empty (kept_lines (titles_of examples))
unfolding write_examples
examples-is_empty [] = refl
examples-is_empty (example ∷ examples) = elim (Bool-cases (is_empty (one_line example.title))) [
  | inl e ↦ rw e (examples-is_empty examples)
  | inr e ↦ rw e refl
]

series-AreLines : (next : Text) → IsLine next → All IsLine (franchise_lines next)
series-AreLines next h = (
  All-append NotBreak (codes "This ride continues a series. The next entry is: ") next
      (is_line-IsLine (codes "This ride continues a series. The next entry is: ") refl) h,
  (
    is_line-IsLine word_for_word refl,
    (is_line-IsLine ordinary_title refl, (is_line-IsLine only_wording refl, tt)),
  ),
)

pub Adds-series :
    (next : Text)
    → IsLine next
    → Adds (codes "FRANCHISE" ∷ []) (headed (codes "FRANCHISE") (bullets (franchise_lines next)))
unfolding is_heading
Adds-series next h =
    Adds-headed (codes "FRANCHISE") (bullets (franchise_lines next)) refl
      (is_line-IsLine (codes "FRANCHISE") refl)
      (Adds-bullets (franchise_lines next) (series-AreLines next h))

pub Adds-franchise :
    (entry : Text) → Adds (block_of (codes "FRANCHISE") (entry ∷ [])) (write_franchise entry)
unfolding write_franchise
Adds-franchise entry = elim (Bool-cases (is_empty (one_line entry))) [
  | inl e ↦ rw e Adds-nil
  | inr e ↦ rw e (Adds-series (one_line entry) (one_line_within-IsLine entry 60))
]
