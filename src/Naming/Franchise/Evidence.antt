-- ===== src/Naming/Franchise/Evidence.antt =====
-- internal/naming/franchise.go: theorems on UsesEntry, Offerable and Guard.
use titelheld.Prelude.{
  ◌≡◌, ◌↔◌, refl, sym, ap, subst, ◌∙◌, ◌⊎◌, inl, inr, true, false, not, ◌&&◌, Option, none, some,
  List, [], ◌∷◌, ◌++◌, arith, In, In-select, select-In, Bool-cases, if◌then◌else◌, append_assoc,
  append-nil,
}
use titelheld.Prelude.Text.{
  text_eq_iff, cut_prefix_sound, Text, Unicode, codes, contains, contains-append, cut_prefix, join,
  fields-empty,
}
use titelheld.Store.{Franchise}
use titelheld.Naming.Franchise.{
  is_motif, normalize_for_match, or_self, without_article, entry_core, is_blank, padded, uses_entry,
  offerable, claims, guard, first_claim, claimed,
}

-- what is left of a text that loses an article stands at its end, after a blank
IsCore : Text → Text → Type 0
IsCore text core = (core ≡ text) ⊎ ((before : Text) × (text ≡ before ++ (codes " " ++ core)))

or_self-IsCore :
    (text b rest : Text)
    → IsCore text rest
    → IsCore text (or_self (cut_prefix text (b ++ codes " ")) rest)
unfolding IsCore
or_self-IsCore text b rest h = by_cut (cut_prefix text (b ++ codes " ")) refl
  where
    by_cut : (o : Option Text) → cut_prefix text (b ++ codes " ") ≡ o → IsCore text (or_self o rest)
    by_cut none e = h
    by_cut (some t) e =
        inr (b, cut_prefix_sound text (b ++ codes " ") t e ∙ append_assoc b (codes " ") t)

entry_core-IsCore :
    (u : Unicode) (entry : Text) → IsCore (normalize_for_match u entry) (entry_core u entry)
unfolding entry_core without_article IsCore
entry_core-IsCore u entry =
    let text = normalize_for_match u entry in
    or_self-IsCore text (codes "the") _
      (or_self-IsCore text (codes "a") _ (or_self-IsCore text (codes "an") text (inl refl)))

padded-contains :
    (text core : Text) → IsCore text core → contains (padded text) (padded core) ≡ true
unfolding IsCore
padded-contains text core (inl e) =
    subst (λ t. contains (padded t) (padded core) ≡ true) e
      (ap (λ t. contains t (padded core)) (sym (append-nil (padded core)))
        ∙ contains-append [] (padded core) [])
padded-contains text core (inr (before, e)) =
    ap (λ t. contains t (padded core))
      (ap padded e
        ∙ ap (λ t. 32 ∷ t) (append_assoc before (codes " " ++ core) (codes " "))
        ∙ sym (append-nil ((codes " " ++ before) ++ padded core)))
    ∙ contains-append (codes " " ++ before) (padded core) []

IsCore-not_blank :
    (text core : Text) → IsCore text core → is_blank core ≡ false → is_blank text ≡ false
unfolding IsCore
IsCore-not_blank text core (inl e) h = cc
IsCore-not_blank [] core (inr ([], e)) h = absurd (cc)
IsCore-not_blank [] core (inr (c ∷ before, e)) h = absurd (cc)
IsCore-not_blank (c ∷ text) core (inr x) h = refl

-- Every entry that may be offered can be spent: a title that is the entry itself uses it.
pub offerable-uses_entry :
    (u : Unicode) (entry : Text) → offerable u entry ≡ true → uses_entry u entry entry ≡ true
unfolding offerable uses_entry
offerable-uses_entry u entry h =
    let core = entry_core-IsCore u entry in
    let some_core : is_blank (entry_core u entry) ≡ false = ground arith in
    rw
      (
        some_core,
        IsCore-not_blank (normalize_for_match u entry) (entry_core u entry) core some_core,
        padded-contains (normalize_for_match u entry) (entry_core u entry) core,
      )
      refl

first_claim-none :
    (u : Unicode) (gear title : Text) (entries : List Text)
    → (first_claim u gear title entries ≡ none)
      ↔ ((entry : Text) → In entry entries → claims u gear title entry ≡ false)
unfolding first_claim
first_claim-none u gear title [] = (λ e x m. elim m [ ], λ f. refl)
first_claim-none u gear title (x ∷ xs) = elim (Bool-cases (claims u gear title x)) [
  | inl c ↦ (λ e. absurd (ground (arith, c)), λ f. absurd (ground (arith, c, f x (inl refl))))
  | inr c ↦
      let ih = first_claim-none u gear title xs in
      (
        λ e y m. elim m [
          | inl same ↦ ap (claims u gear title) same ∙ c
          | inr n ↦
              ih.0 (rw⁻¹ (ap (λ b. if b then some x else first_claim u gear title xs) c) e) y n
        ],
        λ f. rw c (ih.1 (λ y m. f y (inr m))),
      )
]

normalize_for_match-empty : (u : Unicode) → normalize_for_match u [] ≡ []
unfolding normalize_for_match join
normalize_for_match-empty u = rw fields-empty refl

pub claims-empty : (u : Unicode) (gear entry : Text) → claims u gear [] entry ≡ false
unfolding claims uses_entry
claims-empty u gear entry = ground (arith, normalize_for_match-empty u)

-- The guard of a ride lets a title through exactly if every entry of the series that the title claims
-- is claimed by the offered entry too; so it lets the offered entry through, and where none is
-- offered, a title that claims no entry.
pub claimed-guard :
    (u : Unicode) (f : Franchise) (offered title : Text)
    → (claimed u (guard u f offered) title ≡ none) ↔ (
        (entry : Text)
        → In entry f.titles
        → claims u f.gear_name title entry ≡ true
        → claims u f.gear_name offered entry ≡ true)
unfolding claimed guard
claimed-guard u f offered title = (
  λ e entry m c. elim (Bool-cases (claims u f.gear_name offered entry)) [
    | inl o ↦ o
    | inr o ↦ absurd (
        ground (
          arith,
          c,
          (first_claim-none u f.gear_name title _).0 e entry
              (select-In _ entry f.titles m (rw o (ground arith))),
        ))
  ],
  λ h. (first_claim-none u f.gear_name title _).1 (λ entry m.
      elim (Bool-cases (claims u f.gear_name title entry)) [
        | inr c ↦ c
        | inl c ↦
            let kept = In-select _ entry f.titles m in
            absurd (unguarded entry offered (h entry kept.0 c) kept.1)
      ]),
)
  where
    unguarded :
        (entry offer : Text)
        → claims u f.gear_name offer entry ≡ true
        → not (not (is_blank offer) && claims u f.gear_name offer entry) ≡ true
        → ⊥
    unguarded entry [] c k = ground (arith, c, claims-empty u f.gear_name entry)
    unguarded entry (x ∷ xs) c k = ground (arith, c)

-- a title that claims an entry uses it
pub claims-uses_entry :
    (u : Unicode) (gear title entry : Text)
    → claims u gear title entry ≡ true
    → uses_entry u title entry ≡ true
unfolding claims is_motif uses_entry
claims-uses_entry u gear title entry h =
    let same = text_eq_iff (normalize_for_match u title) (normalize_for_match u entry) in
    let bare = text_eq_iff (normalize_for_match u title) (entry_core u entry) in
    ground (
      arith,
      same,
      bare,
      text_eq_iff (entry_core u entry) (entry_core u gear),
      padded-contains (normalize_for_match u entry) (entry_core u entry)
          (entry_core-IsCore u entry),
      padded-contains (entry_core u entry) (entry_core u entry) (unfold IsCore in inl refl),
    )

pub uses_entry-empty : (u : Unicode) (title : Text) → uses_entry u title [] ≡ false
unfolding uses_entry entry_core without_article cut_prefix
uses_entry-empty u title = ground (arith, normalize_for_match-empty u)
