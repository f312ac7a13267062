-- ===== src/Geo/Client/Privacy.antt =====
-- The names that the client returns.
use titelheld.Prelude.{
  ℕ, ◌≡◌, refl, ◌∙◌, sym, subst, ap, true, false, ◌⊎◌, inl, inr, Option, none, some, List, [], ◌∷◌,
  ◌++◌, map, Bool-cases, Option-cases, arith, contains_func, is_empty, is_empty_sound, ◌==◌, All,
  In, In-append_left, In-append_right,
}
use titelheld.Prelude.Text.{Text, text_eq, text_eq_self, text_key}
use titelheld.Prelude.Table.{lookup, lookup-In}
use titelheld.Prelude.Fallible.{returned, Outcome}
use titelheld.Store.{Place}
use titelheld.Geo.{Point}
use titelheld.Geo.Nominatim.{
  AddressField, address_fields, natural_features, feature_kinds, allowed_kinds, is_allowed_kind,
  ReverseResponse, address_of, name_of, feature_kind, feature_of, feature_named, place_from,
}
use titelheld.Geo.Client.{
  Clock, HttpAnswer, no_answer, answered, NominatimConfig, Nominatim, new_nominatim, read_answer,
  reverse, wait, place_of,
}
use titelheld.Geo.Client.Built.{IsClient, Wrong, new_nominatim_lem}

-- the reply holds nothing under the key of the field
abbrev pub IsMissing : ReverseResponse → AddressField → Type 0
IsMissing payload f = address_of payload f.key ≡ []

-- the name of the first field that is there
abbrev pub FromField : List AddressField → ReverseResponse → Text × Text → Type 0
FromField fields payload (name, kind) =
    (front : List AddressField) × (f : AddressField) × (back : List AddressField) × (fields
      ≡ front ++ (f ∷ back))
    × All (IsMissing payload) front
    × (is_empty name ≡ false)
    × (name ≡ address_of payload f.key)
    × (kind ≡ f.kind)

-- the name of the feature, of a category and a type on the list, where no field is there
abbrev pub FromFeature : List AddressField → ReverseResponse → Text × Text → Type 0
FromFeature fields payload (name, kind) =
    All (IsMissing payload) fields × (feature_kind payload ≡ some kind) × (name ≡ payload.name)

-- where a name and its kind come from
abbrev pub Source : List AddressField → ReverseResponse → Text × Text → Type 0
Source fields payload named =
    (named.0 ≡ []) ⊎ (FromField fields payload named ⊎ FromFeature fields payload named)

name_of_lem :
    (payload : ReverseResponse) (fields : List AddressField)
    → FromField fields payload (name_of payload fields)
      ⊎ (All (IsMissing payload) fields × (name_of payload fields ≡ ([], [])))
unfolding name_of
name_of_lem payload [] = inr (tt, refl)
name_of_lem payload (f ∷ fields) = elim (Bool-cases (is_empty (address_of payload f.key))) [
  | inr e ↦ rw e (inl ([], f, fields, refl, tt, e, refl, refl))
  | inl e ↦ rw e (elim (name_of_lem payload fields) [
    | inl (front, g, back, p, all, m, n, k) ↦
        inl (f ∷ front, g, back, ap (λ u. f ∷ u) p, (is_empty_sound _ e, all), m, n, k)
    | inr (all, p) ↦ inr ((is_empty_sound _ e, all), p)
  ])
]

feature_named_lem :
    (fields : List AddressField) (payload : ReverseResponse) (kind : Option Text)
    → feature_kind payload ≡ kind
    → All (IsMissing payload) fields
    → Source fields payload (feature_named payload.name kind)
feature_named_lem fields payload none h all = inl refl
feature_named_lem fields payload (some kind) h all = elim (Bool-cases (is_empty payload.name)) [
  | inl n ↦ rw n (inl refl)
  | inr n ↦ rw n (inr (inr (all, h, refl)))
]

feature_of_lem :
    (fields : List AddressField) (payload : ReverseResponse)
    → All (IsMissing payload) fields
    → Source fields payload (feature_of payload)
unfolding feature_of
feature_of_lem fields payload all = feature_named_lem fields payload (feature_kind payload) refl all

place_from-Source :
    (fields : List AddressField) (payload : ReverseResponse)
    → Source fields payload ((place_from fields payload).name, (place_from fields payload).kind)
unfolding place_from
place_from-Source fields payload = elim (name_of_lem payload fields) [
  | inl (front, f, back, p, all, m, n, k) ↦
      elim (Bool-cases (is_empty (name_of payload fields).0)) [
        | inl e ↦ absurd (let clash : true ≡ false = sym e ∙ m in ground arith)
        | inr e ↦ rw e (inr (inl (front, f, back, p, all, m, n, k)))
      ]
  | inr (all, p) ↦ rw p (feature_of_lem fields payload all)
]

In-map : {A B : Type 0} (f : A → B) (x : A) (xs : List A) → In x xs → In (f x) (map f xs)
In-map f x [] m = elim m [ ]
In-map f x (y ∷ xs) (inl e) = inl (ap f e)
In-map f x (y ∷ xs) (inr m) = inr (In-map f x xs m)

contains_func-In :
    (k : Text) (ks : List Text) → In k ks → contains_func ks (λ j. text_eq j k) ≡ true
contains_func-In k [] m = elim m [ ]
contains_func-In k (j ∷ ks) (inl e) = rw (subst (λ u. text_eq u k ≡ true) e (text_eq_self k)) refl
contains_func-In k (j ∷ ks) (inr m) = ground (arith, contains_func-In k ks m)

feature_kinds-In :
    (features : List (Text × List (Text × Text))) (category kind : Text)
    (types : List (Text × Text))
    → In (category, types) features
    → ((t : Text) × In (t, kind) types)
    → In kind (feature_kinds features)
feature_kinds-In [] category kind types m n = elim m [ ]
feature_kinds-In ((c, ts) ∷ features) category kind types (inl e) (t, n) =
    In-append_left kind (map (λ u. u.1) ts) (feature_kinds features) (
      In-map (λ (u : Text × Text). u.1) (t, kind) ts
        (subst (λ u. In (t, kind) u) (ap (λ (u : Text × List (Text × Text)). u.1) e) n))
feature_kinds-In ((c, ts) ∷ features) category kind types (inr m) n =
    In-append_right kind (map (λ u. u.1) ts) (feature_kinds features)
      (feature_kinds-In features category kind types m n)

feature_kind-allowed :
    (payload : ReverseResponse) (kind : Text)
    → feature_kind payload ≡ some kind
    → In kind (feature_kinds natural_features)
unfolding feature_kind lookup text_eq
feature_kind-allowed payload kind h =
    elim (Option-cases (lookup payload.category natural_features)) [
      | inl e ↦ absurd (let clash : none ≡ some kind = rw e at h in ground arith)
      | inr (types, e) ↦
          let (category, m) = lookup-In payload.category types natural_features e in
          feature_kinds-In natural_features category kind types m
            (lookup-In payload.type_name kind types (rw e at h))
    ]

Source-allowed :
    (fields : List AddressField) (payload : ReverseResponse) (name kind : Text)
    → ((f : AddressField) → In f fields → In f address_fields)
    → Source fields payload (name, kind)
    → (name ≡ []) ⊎ (is_allowed_kind kind ≡ true)
unfolding is_allowed_kind
Source-allowed fields payload name kind h (inl e) = inl e
Source-allowed fields payload name kind h (inr (inl (front, f, back, p, all, m, n, k))) =
    let known = h f (subst (In f) (sym p) (In-append_right f front (f ∷ back) (inl refl))) in
    let listed =
      In-append_left f.kind (map (λ g. g.kind) address_fields) (feature_kinds natural_features)
        (In-map (λ (g : AddressField). g.kind) f address_fields known) in
    inr (contains_func-In kind allowed_kinds (subst (λ u. In u allowed_kinds) (sym k) listed))
Source-allowed fields payload name kind h (inr (inr (all, k, n))) = inr (
    contains_func-In kind allowed_kinds (
      In-append_right kind (map (λ f. f.kind) address_fields) (feature_kinds natural_features)
        (feature_kind-allowed payload kind k)))

-- what the client may return as a place
abbrev pub IsPrivate : Place → Type 0
IsPrivate place = (place.name ≡ []) ⊎ (is_allowed_kind place.kind ≡ true)

place_of_lem :
    (fields : List AddressField) (payload : Option ReverseResponse)
    → ((f : AddressField) → In f fields → In f address_fields)
    → Outcome IsPrivate (λ e. Unit) (place_of fields payload)
place_of_lem fields none h = tt
place_of_lem fields (some payload) h = elim (Bool-cases payload.error) [
  | inl e ↦ rw e (inl refl)
  | inr e ↦ simp e (Source-allowed fields payload _ _ h (place_from-Source fields payload))
]

read_answer_lem :
    (fields : List AddressField) (answer : HttpAnswer)
    → ((f : AddressField) → In f fields → In f address_fields)
    → Outcome IsPrivate (λ e. Unit) (read_answer fields answer)
unfolding read_answer
read_answer_lem fields no_answer h = tt
read_answer_lem fields (answered status payload) h = elim (Bool-cases (status == 200)) [
  | inl e ↦ rw e (place_of_lem fields payload h)
  | inr e ↦ rw e (ground arith)
]

-- A client that its constructor built returns no place whose name is of a kind outside the list of
-- settlements and natural features, whatever its configuration, the clock and the geocoder's reply.
pub reverse-IsPrivate :
    (hash : Text → Text) (cfg : NominatimConfig) (client : Nominatim) (c : Clock)
    (exchange : ℕ → Point → HttpAnswer) (point : Point)
    → new_nominatim hash cfg ≡ returned client
    → Outcome IsPrivate (λ e. Unit) (reverse c exchange client point).0
unfolding reverse
reverse-IsPrivate hash cfg client c exchange point h =
    let built = subst (Outcome (IsClient cfg) (Wrong cfg)) h (new_nominatim_lem hash cfg) in
    elim (Bool-cases (wait c client.limiter).0) [
      | inl e ↦ rw e (
          read_answer_lem client.place_fields (exchange (wait c client.limiter).1.tick point)
            built.3)
      | inr e ↦ rw e tt
    ]
