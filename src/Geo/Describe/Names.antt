-- ===== src/Geo/Describe/Names.antt =====
-- The names of a description.
use titelheld.Prelude.{
  ◌≡◌, refl, sym, subst, ◌∙◌, Bool, true, false, inl, inr, List, [], ◌∷◌, ◌++◌, Bool-cases, arith,
  is_empty, is_empty_sound, contains_func, All, All-append,
}
use titelheld.Prelude.Text.{Text, Unicode, text_eq, text_eq_iff, text_eq_self}
use titelheld.Store.{Place}
use titelheld.Geo.Samples.Endpoints.{AllDistinct, All-map}
use titelheld.Geo.Nominatim.{is_allowed_kind}
use titelheld.Geo.PlaceName.{normalize_place_name, normalize_loop, space_dots}
use titelheld.Geo.Client.Privacy.{IsPrivate}
use titelheld.Geo.Describe.{
  Summary, allowed_only, normalized, with_containers, is_empty_place, take_place,
}

-- a place on the list: it has a name, of an allowed kind
abbrev pub IsNamed : Place → Type 0
IsNamed place = (is_empty place.name ≡ false) × (is_allowed_kind place.kind ≡ true)

-- the places have different names
abbrev pub same_name : Place → Place → Bool
same_name a b = text_eq a.name b.name

abbrev has_seen : List Text → Text → Bool
has_seen seen name = contains_func seen (λ n. text_eq n name)

-- the summary names places, each once, and the names seen are theirs
abbrev pub Found : Summary × List Text → Type 0
Found (s, seen) =
    All IsNamed s.along
    × AllDistinct same_name s.along
    × All (λ p. has_seen seen p.name ≡ true) s.along

pub allowed_only-IsPrivate : (place : Place) → IsPrivate (allowed_only place)
unfolding allowed_only
allowed_only-IsPrivate place = elim (Bool-cases (is_empty place.name)) [
  | inl e ↦ simp e (inl (is_empty_sound place.name e))
  | inr e ↦ elim (Bool-cases (is_allowed_kind place.kind)) [
    | inl k ↦ simp (e, k) (inr refl)
    | inr k ↦ simp (e, k) (inl refl)
  ]
]

AllDistinct-append :
    {A : Type 0} (same : A → A → Bool) (xs : List A) (y : A)
    → AllDistinct same xs
    → All (λ x. same x y ≡ false) xs
    → AllDistinct same (xs ++ (y ∷ []))
AllDistinct-append same [] y h k = (tt, tt)
AllDistinct-append same (x ∷ xs) y h k = (
  All-append (λ z. same x z ≡ false) xs (y ∷ []) h.0 (k.0, tt),
  AllDistinct-append same xs y h.1 k.1,
)

-- a name that is not seen is none of the names seen
not_seen :
    (seen : List Text) (a b : Text)
    → has_seen seen a ≡ true
    → has_seen seen b ≡ false
    → text_eq a b ≡ false
not_seen seen a b ha hb = elim (Bool-cases (text_eq a b)) [
  | inr e ↦ e
  | inl e ↦
      let same = subst (λ u. has_seen seen u ≡ true) ((text_eq_iff a b).0 e) ha in
      let clash : true ≡ false = sym same ∙ hb in absurd (ground arith)
]

seen_more : (seen : List Text) (n a : Text) → has_seen seen a ≡ true → has_seen (n ∷ seen) a ≡ true
seen_more seen n a h = ground arith

seen_self : (n : Text) (seen : List Text) → has_seen (n ∷ seen) n ≡ true
seen_self n seen = rw (text_eq_self n) refl

Found-append :
    (s : Summary) (seen : List Text) (place : Place) (region country : Text)
    → Found (s, seen)
    → IsNamed place
    → has_seen seen place.name ≡ false
    → Found (
      record { along = s.along ++ (place ∷ []); region = region; country = country },
      place.name ∷ seen,
    )
Found-append s seen place region country (named, distinct, all) h k = (
  All-append IsNamed s.along (place ∷ []) named (h, tt),
  AllDistinct-append same_name s.along place distinct
      (All-map _ _ s.along (λ q hq. not_seen seen q.name place.name hq k) all),
  All-append _ s.along (place ∷ [])
      (All-map _ _ s.along (λ q hq. seen_more seen place.name q.name hq) all)
      (seen_self place.name seen, tt),
)

-- the empty name stays empty, so a name that is left has a kind
named_kind :
    (unicode : Unicode) (place : Place)
    → IsPrivate place
    → is_empty (normalize_place_name unicode place.name) ≡ false
    → is_allowed_kind place.kind ≡ true
named_kind unicode place (inr k) h = k
named_kind unicode place (inl e) h =
    let none : is_empty (normalize_place_name unicode []) ≡ false =
      subst (λ v. is_empty (normalize_place_name unicode v) ≡ false) e h in
    absurd (unfold normalize_place_name normalize_loop space_dots text_eq in ground arith)

module _ (unicode : Unicode) where
  pub take_place-Found :
      (found : Summary × List Text) (place : Place)
      → Found found
      → IsPrivate place
      → Found (take_place unicode found place)
  unfolding take_place
  take_place-Found (s, seen) place h p =
      let name = normalize_place_name unicode place.name in
      elim (Bool-cases (is_empty_place (normalized unicode place))) [
        | inl e ↦ rw e h
        | inr e ↦ elim (Bool-cases (is_empty name)) [
          | inl n ↦ rw (e, n) h
          | inr n ↦ elim (Bool-cases (has_seen seen name)) [
            | inl k ↦ rw (e, n, k) h
            | inr k ↦
                rw (e, n, k)
                  (Found-append s seen (normalized unicode place)
                    (with_containers unicode s (normalized unicode place)).region
                    (with_containers unicode s (normalized unicode place)).country h
                    (n, named_kind unicode place p n) k)
          ]
        ]
      ]
