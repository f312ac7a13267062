-- ===== src/Naming/Prompt/Lines.antt =====
-- The lines of a prompt, and the headings among them.
use titelheld.Prelude.{
  ℕ, ◌≤◌, ◌≡◌, refl, sym, ap, ◌∙◌, true, false, ◌==◌, inl, inr, List, [], ◌∷◌, ◌++◌, append_assoc,
  Bool-cases, arith, if◌then◌else◌, is_empty, is_empty_sound, select, map, All,
}
use titelheld.Prelude.Text.{Text, fields, itoa}
use titelheld.Prelude.Text.Chars.{fields-All, join-All, take-All, itoa-All}
use titelheld.Naming.Known.{flat_char, one_line_within}
use titelheld.Naming.Figures.{split_lines, is_heading}
use titelheld.Naming.Prompt.{bullet, trim_breaks, headed}

abbrev pub NotBreak : ℕ → Type 0
NotBreak r = (r == 10) ≡ false

-- a text of one line
abbrev pub IsLine : Text → Type 0
IsLine = All NotBreak

abbrev pub headings : Text → List Text
headings text = select is_heading (split_lines text)

-- a text in front adds these headings, whatever follows
pub record Adds (hs : List Text) (text : Text) : Type 0 where
  pub adds : (rest : Text) → headings (text ++ rest) ≡ hs ++ headings rest

pub Adds-append :
    (hs ks : List Text) (a b : Text) → Adds hs a → Adds ks b → Adds (hs ++ ks) (a ++ b)
Adds-append hs ks a b ha hb = record {
  adds = λ rest.
      ap headings (append_assoc a b rest)
      ∙ ha.adds (b ++ rest)
      ∙ ap (λ v. hs ++ v) (hb.adds rest)
      ∙ sym (append_assoc hs ks (headings rest));
}

split-some : (text : Text) → (l : Text) × (ls : List Text) × (split_lines text ≡ l ∷ ls)
split-some [] = ([], [], refl)
split-some (r ∷ text) =
    let (l, ls, e) = split-some text in
    elim (Bool-cases (r == 10)) [
      | inl k ↦ ([], l ∷ ls, rw (e, k) refl)
      | inr k ↦ (r ∷ l, ls, rw (e, k) refl)
    ]

split-line :
    (line rest : Text) → IsLine line → split_lines (line ++ (10 ∷ rest)) ≡ line ∷ split_lines rest
split-line [] rest h = let (l, ls, e) = split-some rest in rw e refl
split-line (r ∷ line) rest (h, hs) = rw (split-line line rest hs, h) refl

pub headings-line :
    (line rest : Text)
    → IsLine line
    → headings (line ++ (10 ∷ rest))
      ≡ (if is_heading line then line ∷ headings rest else headings rest)
headings-line line rest h = ap (select is_heading) (split-line line rest h)

pub Adds-bullet : (text : Text) → IsLine text → Adds [] (bullet text)
unfolding is_heading
Adds-bullet text h = record {
  adds = λ rest.
      ap (λ v. headings (45 ∷ 32 ∷ v)) (append_assoc text (10 ∷ []) rest)
      ∙ headings-line (45 ∷ 32 ∷ text) rest (refl, (refl, h));
}

-- a block whose body adds no heading
pub Adds-headed :
    (heading body : Text)
    → is_heading heading ≡ true
    → IsLine heading
    → Adds [] body
    → Adds (if is_empty body then [] else heading ∷ []) (headed heading body)
unfolding is_heading
Adds-headed heading [] h l a = record { adds = λ rest. refl }
Adds-headed heading (r ∷ body) h l a = record {
  adds = λ rest.
      headings-line [] ((heading ++ (10 ∷ r ∷ body)) ++ rest) tt
      ∙ ap headings (append_assoc heading (10 ∷ r ∷ body) rest)
      ∙ headings-line heading ((r ∷ body) ++ rest) l
      ∙ (rw h refl)
      ∙ ap (λ v. heading ∷ v) (a.adds rest);
}

flat_char-NotBreak : (r : ℕ) → NotBreak (flat_char r)
flat_char-NotBreak r = ground arith

map-flat_char : (value : Text) → IsLine (map flat_char value)
map-flat_char [] = tt
map-flat_char (r ∷ value) = (flat_char-NotBreak r, map-flat_char value)

pub one_line_within-IsLine : (value : Text) (limit : ℕ) → IsLine (one_line_within value limit)
unfolding one_line_within
one_line_within-IsLine value limit = take-All NotBreak limit _ (
    join-All NotBreak (fields (map flat_char value)) (32 ∷ []) (refl, tt)
      (fields-All NotBreak (map flat_char value) (map-flat_char value)))

digits-IsLine : (text : Text) → All (λ r. 48 ≤ r) text → IsLine text
digits-IsLine [] h = tt
digits-IsLine (r ∷ text) (h, hs) = (ground arith, digits-IsLine text hs)

pub itoa-IsLine : (n : ℕ) → IsLine (itoa n)
itoa-IsLine n = digits-IsLine (itoa n) (itoa-All n)

front :
    (l : Text) (ls ks : List Text)
    → select is_heading ls ≡ select is_heading ks
    → select is_heading (l ∷ ls) ≡ select is_heading (l ∷ ks)
front l ls ks p = ap (λ v. if is_heading l then l ∷ v else v) p

-- the line breaks at the end hold no heading
trim_breaks_lem :
    (text : Text)
    → (l : Text) × (ls : List Text) × (ks : List Text) × (split_lines text ≡ l ∷ ls)
      × (split_lines (trim_breaks text) ≡ l ∷ ks)
      × (select is_heading ls ≡ select is_heading ks)
unfolding is_heading
trim_breaks_lem [] = ([], [], [], refl, refl, refl)
trim_breaks_lem (r ∷ text) =
    let (l, ls, ks, e, t, same) = trim_breaks_lem text in
    elim (Bool-cases (r == 10)) [
      | inr k ↦ (r ∷ l, ls, ks, rw (e, k) refl, rw (k, t, k) refl, same)
      | inl k ↦ elim (Bool-cases (is_empty (trim_breaks text))) [
        | inr n ↦ ([], l ∷ ls, l ∷ ks, rw (e, k) refl, rw (k, n, t, k) refl, front l ls ks same)
        | inl n ↦ (
          [],
          l ∷ ls,
          [],
          rw (e, k) refl,
          rw (k, n) refl,
          front l ls ks same
              ∙ sym (ap (select is_heading) t)
              ∙ ap headings (is_empty_sound (trim_breaks text) n),
        )
      ]
    ]

pub headings-trim_breaks : (text : Text) → headings (trim_breaks text) ≡ headings text
headings-trim_breaks text =
    let (l, ls, ks, e, t, same) = trim_breaks_lem text in rw (e, t, same) refl
