-- ===== src/Geo/Nominatim/Order.antt =====
-- The resolution order of the geocoder: which orders are valid, and what is looked up.
use titelheld.Prelude.{
  some_injective, ◌≡◌, refl, sym, subst, ap, ap₂, ◌∙◌, true, false, not, ◌&&◌, ◌↔◌, ◌⊎◌, inl, inr,
  some, List, [], ◌∷◌, ◌++◌, map, Bool-cases, Option-cases, arith, if◌then◌else◌, contains_func,
  select, is_empty, All, In, In-append_left, In-append_right, In-append, In-select, select-In,
  In-All,
}
use titelheld.Prelude.Text.{Text, text_eq, text_eq_iff}
use titelheld.Prelude.Fallible.{Outcome}
use titelheld.Geo.Nominatim.{
  AddressField, address_fields, default_place_fields, has_key, find_field, fields_of, order_fields,
  place_fields_loop, validate_place_fields, ConfigError, bad_order,
}

-- an address key of the allow-list
abbrev pub IsKnown : Text → Type 0
IsKnown key = contains_func address_fields (has_key key) ≡ true

-- a valid order, behind the keys that stand before it
abbrev pub IsOrder : List Text → List Text → Type 0
IsOrder seen [] = Unit
IsOrder seen (key ∷ order) =
    (contains_func seen (λ k. text_eq k key) ≡ false) × IsKnown key × IsOrder (key ∷ seen) order

IsOrder-place_fields_loop :
    (seen order : List Text) → IsOrder seen order → place_fields_loop seen order ≡ ([], [])
unfolding place_fields_loop
IsOrder-place_fields_loop seen [] h = refl
IsOrder-place_fields_loop seen (key ∷ order) h =
    rw (h.0, h.1, IsOrder-place_fields_loop (key ∷ seen) order h.2) refl

place_fields_loop-IsOrder :
    (seen order : List Text)
    → (is_empty (place_fields_loop seen order).0 && is_empty (place_fields_loop seen order).1)
      ≡ true
    → IsOrder seen order
unfolding place_fields_loop
place_fields_loop-IsOrder seen [] h = tt
place_fields_loop-IsOrder seen (key ∷ order) h =
    elim (Bool-cases (contains_func seen (λ k. text_eq k key))) [
      | inl e ↦ absurd (let h' : _ = rw e at h in ground arith)
      | inr e ↦ elim (Bool-cases (contains_func address_fields (has_key key))) [
        | inl k ↦ (e, k, place_fields_loop-IsOrder (key ∷ seen) order (rw (e, k) at h))
        | inr k ↦ absurd (let h' : _ = rw (e, k) at h in ground arith)
      ]
    ]

find_field-In :
    (key : Text) (fields : List AddressField) (f : AddressField)
    → find_field key fields ≡ some f
    → In f fields × (f.key ≡ key)
unfolding find_field
find_field-In key [] f h = absurd (ground arith)
find_field-In key (g ∷ fields) f h = elim (Bool-cases (has_key key g)) [
  | inl e ↦
      let same : some g ≡ some f = rw e at h in
      (
        inl (sym (some_injective same)),
        subst (λ u. u.key ≡ key) (some_injective same) ((text_eq_iff g.key key).0 e),
      )
  | inr e ↦ let r = find_field-In key fields f (rw e at h) in (inr r.0, r.1)
]

find_field-known :
    (key : Text) (fields : List AddressField)
    → contains_func fields (has_key key) ≡ true
    → (f : AddressField) × (find_field key fields ≡ some f)
unfolding find_field
find_field-known key [] h = absurd (ground arith)
find_field-known key (g ∷ fields) h = elim (Bool-cases (has_key key g)) [
  | inl e ↦ (g, rw e refl)
  | inr e ↦ rw e (find_field-known key fields (rw e at h))
]

map-fields_of :
    (seen order : List Text) → IsOrder seen order → map (λ f. f.key) (fields_of order) ≡ order
unfolding fields_of text_eq
map-fields_of seen [] h = refl
map-fields_of seen (key ∷ order) h =
    let (f, e) = find_field-known key address_fields h.1 in
    rw e (ap₂ ◌∷◌ (find_field-In key address_fields f e).1 (map-fields_of (key ∷ seen) order h.2))

fields_of-In : (order : List Text) (f : AddressField) → In f (fields_of order) → In f address_fields
unfolding fields_of text_eq
fields_of-In [] f m = elim m [ ]
fields_of-In (key ∷ order) f m = elim (Option-cases (find_field key address_fields)) [
  | inl e ↦ fields_of-In order f (rw e at m)
  | inr (g, e) ↦
      let n : (f ≡ g) ⊎ In f (fields_of order) = rw e at m in
      elim n [
        | inl p ↦ subst (λ u. In u address_fields) (sym p) (find_field-In key address_fields g e).0
        | inr k ↦ fields_of-In order f k
      ]
]

fields_of-covers :
    (order : List Text) (f : AddressField)
    → contains_func order (λ key. text_eq key f.key) ≡ true
    → find_field f.key address_fields ≡ some f
    → In f (fields_of order)
unfolding fields_of text_eq
fields_of-covers [] f h k = absurd (ground arith)
fields_of-covers (key ∷ order) f h k = elim (Bool-cases (text_eq key f.key)) [
  | inl e ↦
      let same : find_field key address_fields ≡ some f =
        subst (λ u. find_field u address_fields ≡ some f) (sym ((text_eq_iff key f.key).0 e)) k in
      rw same (inl refl)
  | inr e ↦
      let m = fields_of-covers order f (rw e at h) k in
      elim (Option-cases (find_field key address_fields)) [
        | inl n ↦ rw n m
        | inr (g, n) ↦ rw n (inr m)
      ]
]

-- the keys of the allow-list are distinct
own_fields : All (λ f. find_field f.key address_fields ≡ some f) address_fields
unfolding find_field text_eq
own_fields = (refl, (refl, (refl, (refl, (refl, (refl, (refl, (refl, tt))))))))

-- the configured order, or the shipped one where none is
abbrev pub effective : List Text → List Text
effective order = if is_empty order then default_place_fields else order

-- what an accepted order resolves to
abbrev pub IsResolved : List Text → List AddressField × Text → Type 0
IsResolved order (fields, token) =
    IsOrder [] (effective order)
    × ((rest : List AddressField) × (fields ≡ fields_of (effective order) ++ rest)
        × (map (λ f. f.key) (fields_of (effective order)) ≡ effective order))
    × ((f : AddressField) → In f fields ↔ In f address_fields)

abbrev pub IsRefused : List Text → ConfigError → Type 0
IsRefused order (bad_order wrong) = IsOrder [] (effective order) → ⊥
IsRefused order _ = ⊥

-- the keys that the order does not name
abbrev others : List Text → List AddressField
others order = select (λ f. not (contains_func order (λ key. text_eq key f.key))) address_fields

In-resolved :
    (order : List Text) (f : AddressField)
    → In f (fields_of order ++ others order) ↔ In f address_fields
In-resolved order f = (
  λ m. elim (In-append f (fields_of order) (others order) m) [
    | inl k ↦ fields_of-In order f k
    | inr k ↦
        (In-select (λ g. not (contains_func order (λ key. text_eq key g.key))) f address_fields k).0
  ],
  λ m. elim (Bool-cases (contains_func order (λ key. text_eq key f.key))) [
    | inl e ↦ In-append_left f (fields_of order) (others order) (
        fields_of-covers order f e
          (In-All (λ g. find_field g.key address_fields ≡ some g) f address_fields m own_fields))
    | inr e ↦ In-append_right f (fields_of order) (others order) (
        select-In (λ g. not (contains_func order (λ key. text_eq key g.key))) f address_fields m
          (rw e refl))
  ],
)

clash : true ≡ false → ⊥
clash h = ground arith

-- A resolution order, the shipped one where none is configured, is accepted if every key is on the
-- allow-list and none stands twice, and refused otherwise. The sequence that is looked up starts with
-- the fields of the configured keys, in their order, and holds the fields of the allow-list, all of
-- them and no other.
pub order_fields_lem :
    (order : List Text) → Outcome (IsResolved order) (IsRefused order) (order_fields order)
unfolding order_fields validate_place_fields
order_fields_lem order =
    elim (Bool-cases (
      is_empty (place_fields_loop [] (effective order)).0
      && is_empty (place_fields_loop [] (effective order)).1)) [
        | inl e ↦
            let valid = place_fields_loop-IsOrder [] (effective order) e in
            rw e (
              valid,
              (others (effective order), refl, map-fields_of [] (effective order) valid),
              In-resolved (effective order),
            )
        | inr e ↦ rw e (λ valid. clash (
            ap (λ r. is_empty r.0 && is_empty r.1)
              (sym (IsOrder-place_fields_loop [] (effective order) valid))
            ∙ e))
      ]
