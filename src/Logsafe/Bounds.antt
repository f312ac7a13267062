-- ===== src/Logsafe/Bounds.antt =====
-- What sanitized text holds, and how long it is.
use titelheld.Prelude.{
  ℕ, zero, suc, ◌+◌, ◌≤◌, ◌≡◌, ◌⊎◌, refl, inl, inr, Bool, false, ◌==◌, ltb, [], ◌∷◌, length,
  Bool-cases, arith, All,
}
use titelheld.Prelude.Text.{Text}
use titelheld.Naming.Titles.{is_control}
use titelheld.Logsafe.{
  max_len, max_block_len, is_rune_error, rune_len, is_unsafe, flattened, string_loop, string,
  kept_in_block, block_loop, block,
}

-- the bytes of a text
abbrev pub size_of : Text → ℕ
size_of [] = 0
size_of (r ∷ s) = rune_len r + size_of s

module _ (is_format : ℕ → Bool) where
  -- no control character, no format character and no line or paragraph separator
  abbrev pub IsSafe : ℕ → Type 0
  IsSafe r =
      (32 ≤ r)
      × (is_control r ≡ false)
      × (is_format r ≡ false)
      × (r ≡ 0x2028 → ⊥)
      × (r ≡ 0x2029 → ⊥)

  abbrev pub IsBlockSafe : ℕ → Type 0
  IsBlockSafe r = (r ≡ 10) ⊎ ((r ≡ 9) ⊎ IsSafe r)

  flat-IsSafe : (r : ℕ) → is_unsafe is_format r ≡ false → IsSafe r
  flat-IsSafe r h = (ground arith, ground arith, ground arith, ground arith, ground arith)

  module _ (space : is_format 32 ≡ false) (ellipsis : is_format 0x2026 ≡ false) where
    flattened-IsSafe : (r : ℕ) → IsSafe (flattened is_format r)
    flattened-IsSafe r = elim (Bool-cases (is_unsafe is_format r)) [
      | inl e ↦ rw e (omega arith, refl, space, (λ p. omega arith), (λ p. omega arith))
      | inr e ↦ rw e (flat-IsSafe r e)
    ]

    kept-IsBlockSafe : (r : ℕ) → IsBlockSafe (kept_in_block is_format r)
    kept-IsBlockSafe r = elim (Bool-cases (r == 10)) [
      | inl e ↦ inl (ground arith)
      | inr e ↦ elim (Bool-cases (r == 9)) [
        | inl k ↦ inr (inl (ground arith))
        | inr k ↦ rw (e, k) (inr (inr (flattened-IsSafe r)))
      ]
    ]

    marker-IsSafe : IsSafe 0x2026
    marker-IsSafe = (omega arith, refl, ellipsis, (λ p. omega arith), (λ p. omega arith))

    string_loop-IsSafe : (left : ℕ) (s : Text) → All IsSafe (string_loop is_format left s)
    unfolding string_loop
    string_loop-IsSafe left [] = tt
    string_loop-IsSafe zero (r ∷ s) = (marker-IsSafe, tt)
    string_loop-IsSafe (suc left) (r ∷ s) = elim (Bool-cases (is_rune_error r)) [
      | inl e ↦ rw e (string_loop-IsSafe (suc left) s)
      | inr e ↦ rw e (flattened-IsSafe r, string_loop-IsSafe left s)
    ]

    length-string_loop : (left : ℕ) (s : Text) → length (string_loop is_format left s) ≤ left + 1
    unfolding string_loop
    length-string_loop left [] = omega arith
    length-string_loop zero (r ∷ s) = omega arith
    length-string_loop (suc left) (r ∷ s) = elim (Bool-cases (is_rune_error r)) [
      | inl e ↦ rw e (length-string_loop (suc left) s)
      | inr e ↦ rw e (omega (arith, length-string_loop left s))
    ]

    block_loop-IsBlockSafe : (size : ℕ) (s : Text) → All IsBlockSafe (block_loop is_format size s)
    unfolding block_loop
    block_loop-IsBlockSafe size [] = tt
    block_loop-IsBlockSafe size (r ∷ s) = elim (Bool-cases (is_rune_error r)) [
      | inl e ↦ rw e (block_loop-IsBlockSafe size s)
      | inr e ↦
          elim (Bool-cases (ltb max_block_len (size + rune_len (kept_in_block is_format r)))) [
            | inl k ↦ rw (e, k) (inr (inr marker-IsSafe), tt)
            | inr k ↦
                rw (e, k)
                  (
                    kept-IsBlockSafe r,
                    block_loop-IsBlockSafe (size + rune_len (kept_in_block is_format r)) s,
                  )
          ]
    ]

    size_of-block_loop :
        (size : ℕ) (s : Text)
        → size ≤ max_block_len
        → size + size_of (block_loop is_format size s) ≤ max_block_len + 3
    unfolding block_loop
    size_of-block_loop size [] h = omega arith
    size_of-block_loop size (r ∷ s) h = elim (Bool-cases (is_rune_error r)) [
      | inl e ↦ rw e (size_of-block_loop size s h)
      | inr e ↦
          elim (Bool-cases (ltb max_block_len (size + rune_len (kept_in_block is_format r)))) [
            | inl k ↦ rw (e, k) (omega arith)
            | inr k ↦
                rw (e, k)
                  (omega (
                    arith,
                    size_of-block_loop (size + rune_len (kept_in_block is_format r)) s
                        (ground arith),
                  ))
          ]
    ]

    -- A sanitized value holds no control character, no format character and no separator of lines or
    -- paragraphs, and has at most 256 runes and the marker of a cut. A sanitized block holds none of them
    -- but line breaks and tabs, and takes at most 16 KiB and the three bytes of the marker. The space
    -- and the ellipsis are no format characters.
    pub sanitized_lem :
        (s : Text)
        → (All IsSafe (string is_format s) × (length (string is_format s) ≤ max_len + 1))
          × (All IsBlockSafe (block is_format s)
              × (size_of (block is_format s) ≤ max_block_len + 3))
    unfolding string block
    sanitized_lem s = (
      (string_loop-IsSafe max_len s, length-string_loop max_len s),
      (block_loop-IsBlockSafe 0 s, omega (arith, size_of-block_loop 0 s (omega arith))),
    )
