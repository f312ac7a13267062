-- ===== src/Naming/Known/Refused.antt =====
-- Which candidates repeat a title that the prompt carries.
use titelheld.Prelude.{
  ◌≡◌, ◌↔◌, ◌⊎◌, refl, sym, subst, ap, ◌∙◌, Bool, true, false, not, ◌&&◌, ◌||◌, inl, inr, Option,
  none, some, List, [], ◌∷◌, ◌++◌, Bool-cases, arith, and_split, is_empty, contains_func, In,
  In-append_left, In-append_right,
}
use titelheld.Prelude.Text.{Text, text_eq, text_eq_iff}
use titelheld.Naming.Known.{
  TextForms, cap_titles, forms_of, forms_loop, flat_map, forbidden_titles, normalize_for_repeat,
  known_as, repeats_title,
}

-- a title that is known, in the forms that are compared
abbrev pub Repeats : TextForms → Text → List Text → Type 0
Repeats f candidate titles =
    (is_empty (normalize_for_repeat f candidate) ≡ false)
    × ((title : Text) × In title titles
        × (normalize_for_repeat f candidate ≡ normalize_for_repeat f title))

-- some title, or none
abbrev pub is_found : Option Text → Bool
is_found none = false
is_found (some t) = true

module _ (f : TextForms) where
  known_as-In :
      (normalized : Text) (titles : List Text)
      → is_found (known_as f normalized titles) ≡ true
      → (title : Text) × In title titles × (normalized ≡ normalize_for_repeat f title)
  unfolding known_as
  known_as-In normalized [] h = absurd (ground arith)
  known_as-In normalized (title ∷ titles) h =
      elim (Bool-cases (
        not (is_empty (normalize_for_repeat f title))
        && text_eq normalized (normalize_for_repeat f title))) [
          | inl e ↦ (title, inl refl, (text_eq_iff _ _).0 (and_split _ _ e).1)
          | inr e ↦ let (t, m, p) = known_as-In normalized titles (rw e at h) in (t, inr m, p)
        ]

  In-known_as :
      (normalized title : Text) (titles : List Text)
      → is_empty normalized ≡ false
      → In title titles
      → normalized ≡ normalize_for_repeat f title
      → is_found (known_as f normalized titles) ≡ true
  unfolding known_as
  In-known_as normalized title [] n m e = elim m [ ]
  In-known_as normalized title (t ∷ titles) n (inl p) e =
      let q = e ∙ ap (normalize_for_repeat f) p in
      let k : not (is_empty (normalize_for_repeat f t)) ≡ true =
        subst (λ v. not (is_empty v) ≡ true) q (ap not n) in
      let l = (text_eq_iff normalized (normalize_for_repeat f t)).1 q in rw (k, l) refl
  In-known_as normalized title (t ∷ titles) n (inr m) e =
      elim (Bool-cases (
        not (is_empty (normalize_for_repeat f t))
        && text_eq normalized (normalize_for_repeat f t))) [
          | inl k ↦ rw k refl
          | inr k ↦ rw k (In-known_as normalized title titles n m e)
        ]

  -- A candidate is refused as a repeat exactly if it has a letter or a digit left after normalization
  -- and has the normal form of one of the titles.
  pub repeats_title_lem :
      (candidate : Text) (titles : List Text)
      → (is_found (repeats_title f candidate titles) ≡ true) ↔ Repeats f candidate titles
  unfolding repeats_title
  repeats_title_lem candidate titles =
      elim (Bool-cases (is_empty (normalize_for_repeat f candidate))) [
        | inl e ↦ rw e (λ h. absurd (ground arith), λ h. absurd (ground arith))
        | inr e ↦
            rw e
              (λ h. (refl, known_as-In _ titles h), λ (n, (t, m, p)). In-known_as _ t titles e m p)
      ]

  forms_loop-In :
      (seen forms : List Text) (form : Text)
      → is_empty form ≡ false
      → In form forms
      → (contains_func seen (λ t. text_eq t form) ≡ true) ⊎ In form (forms_loop seen forms)
  unfolding forms_loop
  forms_loop-In seen [] form n m = elim m [ ]
  forms_loop-In seen (g ∷ forms) form n (inl p) =
      elim (Bool-cases (is_empty g || contains_func seen (λ t. text_eq t g))) [
        | inr e ↦ rw e (inr (inl p))
        | inl e ↦
            let h : (is_empty form || contains_func seen (λ t. text_eq t form)) ≡ true =
              subst (λ v. (is_empty v || contains_func seen (λ t. text_eq t v)) ≡ true) (sym p) e in
            inl (rw n at h)
      ]
  forms_loop-In seen (g ∷ forms) form n (inr m) =
      elim (Bool-cases (is_empty g || contains_func seen (λ t. text_eq t g))) [
        | inl e ↦ rw e (forms_loop-In seen forms form n m)
        | inr e ↦ rw e (elim (forms_loop-In (g ∷ seen) forms form n m) [
          | inr k ↦ inr (inr k)
          | inl k ↦ elim (Bool-cases (text_eq g form)) [
            | inl q ↦ inr (inl (sym ((text_eq_iff g form).0 q)))
            | inr q ↦ inl (rw q at k)
          ]
        ])
      ]

  flat_map-In :
      (form title : Text) (titles : List Text)
      → In title titles
      → In form (forms_of title)
      → In form (flat_map forms_of titles)
  flat_map-In form title [] m k = elim m [ ]
  flat_map-In form title (t ∷ titles) (inl p) k =
      In-append_left form (forms_of t) (flat_map forms_of titles)
        (subst (λ v. In form (forms_of v)) p k)
  flat_map-In form title (t ∷ titles) (inr m) k =
      In-append_right form (forms_of t) (flat_map forms_of titles)
        (flat_map-In form title titles m k)

  -- A candidate that is one of the 25 recent titles of a prompt or the title of an example, as it is
  -- stored or as the prompt shows it, cut to 60 runes, is refused as a repeat, if normalization leaves a
  -- letter or a digit of it.
  pub forbidden_titles-refused :
      (recent_titles examples : List Text) (title form : Text)
      → In title (cap_titles recent_titles ++ examples)
      → In form (forms_of title)
      → is_empty form ≡ false
      → is_empty (normalize_for_repeat f form) ≡ false
      → is_found (repeats_title f form (forbidden_titles recent_titles examples)) ≡ true
  unfolding forbidden_titles
  forbidden_titles-refused recent_titles examples title form m k n h =
      (repeats_title_lem form (forbidden_titles recent_titles examples)).1 (h, (form, listed, refl))
    where
      listed : In form (forbidden_titles recent_titles examples)
      listed =
          elim (forms_loop-In [] (flat_map forms_of (cap_titles recent_titles ++ examples)) form n
            (flat_map-In form title (cap_titles recent_titles ++ examples) m k)) [
              | inl e ↦ absurd (ground arith)
              | inr i ↦ unfold forbidden_titles in i
            ]
