-- ===== src/Geo/PlaceName/Rounds.antt =====
-- The rounds of NormalizePlaceName.
use titelheld.Prelude.{
  ℕ, ◌≡◌, refl, ap, ap₂, ◌∙◌, sym, subst, and_split, Bool, true, false, ◌&&◌, ◌||◌, inl, inr, [],
  ◌∷◌, ◌==◌, ==_iff, arith, Bool-cases, if◌then◌else◌,
}
use titelheld.Prelude.Text.{Text, Unicode, text_eq, text_eq_iff, text_eq_self}
use titelheld.Geo.PlaceName.{dotted, space_dots, space_all, normalize_loop, normalize_place_name}

module _ (u : Unicode) where
  -- the first character stays the first
  space_dots-head :
      (before : Bool) (d : ℕ) (s : Text) → (rest : Text) × (space_dots u before (d ∷ s) ≡ d ∷ rest)
  unfolding space_dots
  space_dots-head before d [] = ([], refl)
  space_dots-head before d (e ∷ s) = elim (Bool-cases (dotted u before d e)) [
    | inl h ↦ (32 ∷ e ∷ space_dots u false s, rw h refl)
    | inr h ↦ (space_dots u (u.is_letter d) (e ∷ s), rw h refl)
  ]

  -- what is no period starts no match
  space_dots-cons :
      (before : Bool) (d : ℕ) (s : Text)
      → (d == 46) ≡ false
      → space_dots u before (d ∷ s) ≡ d ∷ space_dots u (u.is_letter d) s
  unfolding space_dots
  space_dots-cons before d [] h = refl
  space_dots-cons true d (e ∷ s) h = rw h refl
  space_dots-cons false d (e ∷ s) h = refl

  space_all-cons :
      (before : Bool) (d : ℕ) (s : Text)
      → (d == 46) ≡ false
      → space_all u before (d ∷ s) ≡ d ∷ space_all u (u.is_letter d) s
  unfolding space_all
  space_all-cons before d [] h = refl
  space_all-cons true d (e ∷ s) h = rw h refl
  space_all-cons false d (e ∷ s) h = refl

  dotted_split :
      (a : Bool) (c d : ℕ) → dotted u a c d ≡ true → (a ≡ true) × (c ≡ 46) × (u.is_letter d ≡ true)
  dotted_split a c d h =
      let p = and_split a (c == 46 && u.is_letter d) h in
      let q = and_split (c == 46) (u.is_letter d) p.1 in (p.0, (==_iff c 46).0 q.0, q.1)

  dotted_or : (a b : Bool) (c d : ℕ) → dotted u (a || b) c d ≡ (dotted u a c d || dotted u b c d)
  dotted_or true true c d = ground arith
  dotted_or true false c d = ground arith
  dotted_or false b c d = refl

  -- a character that starts no match, in front of a text whose first character is known
  space_dots-skip :
      (a : Bool) (c d : ℕ) (t s : Text)
      → t ≡ d ∷ s
      → dotted u a c d ≡ false
      → space_dots u a (c ∷ t) ≡ c ∷ space_dots u (u.is_letter c) t
  unfolding space_dots
  space_dots-skip a c d t s e h =
      subst (λ v. space_dots u a (c ∷ v) ≡ c ∷ space_dots u (u.is_letter c) v) (sym e) (rw h refl)

  or_self : (a : Bool) → (a || a) ≡ a
  or_self true = refl
  or_self false = refl

  module _ (period : u.is_letter 46 ≡ false) (space : u.is_letter 32 ≡ false) where
    letter_not_period : (d : ℕ) → u.is_letter d ≡ true → (d == 46) ≡ false
    letter_not_period d h = elim (Bool-cases (d == 46)) [
      | inr e ↦ e
      | inl e ↦
          let clash : true ≡ false = sym h ∙ ap u.is_letter ((==_iff d 46).0 e) ∙ period in
          absurd (ground arith)
    ]

    unspaced : (a : Bool) → dotted u a 46 32 ≡ false
    unspaced true = space
    unspaced false = refl

    -- a period that is spaced starts no match again
    space_dots-spaced :
        (a : Bool) (d : ℕ) (s : Text)
        → u.is_letter d ≡ true
        → space_dots u a (46 ∷ 32 ∷ d ∷ s) ≡ 46 ∷ 32 ∷ d ∷ space_dots u true s
    space_dots-spaced a d s h =
        space_dots-skip a 46 32 _ _ refl (unspaced a)
        ∙ ap (λ v. 46 ∷ v)
            (space_dots-cons (u.is_letter 46) 32 (d ∷ s) refl
              ∙ ap (λ v. 32 ∷ v)
                  (space_dots-cons (u.is_letter 32) d s (letter_not_period d h)
                    ∙ ap (λ b. d ∷ space_dots u b s) h))

    space_dots-dotted :
        (d : ℕ) (s : Text)
        → u.is_letter d ≡ true
        → space_dots u true (46 ∷ d ∷ s) ≡ 46 ∷ 32 ∷ d ∷ space_dots u false s
    unfolding space_dots
    space_dots-dotted d s h = rw h refl

    space_all-dotted :
        (d : ℕ) (s : Text)
        → u.is_letter d ≡ true
        → space_all u true (46 ∷ d ∷ s) ≡ 46 ∷ 32 ∷ d ∷ space_all u true s
    unfolding space_all
    space_all-dotted d s h = rw h (
        ap (λ v. 46 ∷ 32 ∷ v)
          (space_all-cons (u.is_letter 32) d s (letter_not_period d h)
            ∙ ap (λ b. d ∷ space_all u b s) h))

    space_all-skip :
        (a : Bool) (c d : ℕ) (s : Text)
        → dotted u a c d ≡ false
        → space_all u a (c ∷ d ∷ s) ≡ c ∷ space_all u (u.is_letter c) (d ∷ s)
    unfolding space_all
    space_all-skip a c d s h = rw h refl

    or_true : (a : Bool) → (a || true) ≡ true
    or_true true = refl
    or_true false = refl

    -- a match of the first round, of the second, and none
    first_matched :
        (a : Bool) (d : ℕ) (s : Text)
        → u.is_letter d ≡ true
        → space_dots u true (space_dots u false s) ≡ space_all u true s
        → space_dots u a (space_dots u true (46 ∷ d ∷ s)) ≡ space_all u (a || true) (46 ∷ d ∷ s)
    first_matched a d s h ih =
        ap (space_dots u a) (space_dots-dotted d s h)
        ∙ space_dots-spaced a d (space_dots u false s) h
        ∙ ap (λ v. 46 ∷ 32 ∷ d ∷ v) ih
        ∙ sym (ap (λ b. space_all u b (46 ∷ d ∷ s)) (or_true a) ∙ space_all-dotted d s h)

    second_matched :
        (d : ℕ) (s : Text)
        → u.is_letter d ≡ true
        → space_dots u false (space_dots u true s) ≡ space_all u true s
        → space_dots u true (space_dots u false (46 ∷ d ∷ s)) ≡ space_all u true (46 ∷ d ∷ s)
    second_matched d s h ih =
        let inner : space_dots u false (46 ∷ d ∷ s) ≡ 46 ∷ d ∷ space_dots u true s =
          space_dots-skip false 46 d (d ∷ s) s refl refl
          ∙ ap (λ v. 46 ∷ v)
              (space_dots-cons (u.is_letter 46) d s (letter_not_period d h)
                ∙ ap (λ b. d ∷ space_dots u b s) h) in
        ap (space_dots u true) inner
        ∙ space_dots-dotted d (space_dots u true s) h
        ∙ ap (λ v. 46 ∷ 32 ∷ d ∷ v) ih
        ∙ sym (space_all-dotted d s h)

    unmatched :
        (a b : Bool) (c d : ℕ) (s : Text)
        → dotted u a c d ≡ false
        → dotted u b c d ≡ false
        → space_dots u (u.is_letter c) (space_dots u (u.is_letter c) (d ∷ s))
          ≡ space_all u (u.is_letter c || u.is_letter c) (d ∷ s)
        → space_dots u a (space_dots u b (c ∷ d ∷ s)) ≡ space_all u (a || b) (c ∷ d ∷ s)
    unmatched a b c d s ha hb ih =
        let (rest, head) = space_dots-head (u.is_letter c) d s in
        let neither : dotted u (a || b) c d ≡ false = dotted_or a b c d ∙ ap₂ ◌||◌ ha hb in
        ap (space_dots u a) (space_dots-skip b c d (d ∷ s) s refl hb)
        ∙ space_dots-skip a c d (space_dots u (u.is_letter c) (d ∷ s)) rest head ha
        ∙ ap (λ v. c ∷ v) (ih ∙ ap (λ x. space_all u x (d ∷ s)) (or_self (u.is_letter c)))
        ∙ sym (space_all-skip (a || b) c d s neither)

    unavailable :
        (b : Bool) (c d : ℕ) → dotted u b c d ≡ false → c ≡ 46 → u.is_letter d ≡ true → b ≡ false
    unavailable false c d h p l = refl
    unavailable true c d h p l =
        let clash : u.is_letter d ≡ false = subst (λ v. dotted u true v d ≡ false) p h in
        absurd (ground arith)

    -- two rounds
    space_dots_twice :
        (a b : Bool) (s : Text) → space_dots u a (space_dots u b s) ≡ space_all u (a || b) s
    space_dots_twice a b [] = unfold space_dots space_all in refl
    space_dots_twice a b (c ∷ []) = unfold space_dots space_all in refl
    space_dots_twice a b (c ∷ d ∷ s) = elim (Bool-cases (dotted u b c d)) [
      | inl e ↦
          let (before, period, letter) = dotted_split b c d e in
          rw (before, period) (first_matched a d s letter (space_dots_twice true false s))
      | inr e ↦ elim (Bool-cases (dotted u a c d)) [
        | inl k ↦
            let (before, period, letter) = dotted_split a c d k in
            rw (before, period, unavailable b c d e period letter)
              (second_matched d s letter (space_dots_twice false true s))
        | inr k ↦ unmatched a b c d s k e (space_dots_twice (u.is_letter c) (u.is_letter c) (d ∷ s))
      ]
    ]

    space_all-head :
        (a : Bool) (d : ℕ) (s : Text) → (rest : Text) × (space_all u a (d ∷ s) ≡ d ∷ rest)
    unfolding space_all
    space_all-head a d [] = ([], refl)
    space_all-head a d (e ∷ s) = elim (Bool-cases (dotted u a d e)) [
      | inl h ↦ (32 ∷ space_all u (u.is_letter 32) (e ∷ s), rw h refl)
      | inr h ↦ (space_all u (u.is_letter d) (e ∷ s), rw h refl)
    ]

    -- a third round changes nothing
    space_dots-space_all :
        (a : Bool) (s : Text) → space_dots u a (space_all u a s) ≡ space_all u a s
    space_dots-space_all a [] = unfold space_dots space_all in refl
    space_dots-space_all a (c ∷ []) = unfold space_dots space_all in refl
    space_dots-space_all a (c ∷ d ∷ s) = elim (Bool-cases (dotted u a c d)) [
      | inl e ↦
          let (before, period, letter) = dotted_split a c d e in
          rw (before, period)
            (ap (space_dots u true) (space_all-dotted d s letter)
              ∙ space_dots-spaced true d (space_all u true s) letter
              ∙ ap (λ v. 46 ∷ 32 ∷ d ∷ v) (space_dots-space_all true s)
              ∙ sym (space_all-dotted d s letter))
      | inr e ↦
          let (rest, head) = space_all-head (u.is_letter c) d s in
          ap (space_dots u a) (space_all-skip a c d s e)
          ∙ space_dots-skip a c d (space_all u (u.is_letter c) (d ∷ s)) rest head e
          ∙ ap (λ v. c ∷ v) (space_dots-space_all (u.is_letter c) (d ∷ s))
          ∙ sym (space_all-skip a c d s e)
    ]

    third_round :
        (name : Text)
        → space_dots u false (space_dots u false name) ≡ space_all u false name
        → (if text_eq
              (space_dots u false (space_dots u false (space_dots u false name)))
              (space_dots u false (space_dots u false name))
            then space_dots u false (space_dots u false name)
            else space_dots u false (space_dots u false (space_dots u false name)))
          ≡ space_all u false name
    third_round name twice =
        rw (twice, space_dots-space_all false name, text_eq_self (space_all u false name)) refl

    -- The rounds over a place name end: after at most three the name is the one with a space behind
    -- every period that stood between two letters, and no other change. Neither the period nor the
    -- space is a letter.
    pub normalize_place_name_lem :
        (name : Text) → normalize_place_name u name ≡ space_all u false name
    unfolding normalize_place_name normalize_loop
    normalize_place_name_lem name =
        let twice = space_dots_twice false false name in
        elim (Bool-cases (text_eq (space_dots u false name) name)) [
          | inl e ↦
              let same = (text_eq_iff _ _).0 e in
              rw e (sym same ∙ ap (space_dots u false) (sym same) ∙ twice)
          | inr e ↦
              elim (Bool-cases (
                text_eq (space_dots u false (space_dots u false name)) (space_dots u false name))) [
                  | inl k ↦ rw (e, k) (sym ((text_eq_iff _ _).0 k) ∙ twice)
                  | inr k ↦ rw (e, k) (third_round name twice)
                ]
        ]
