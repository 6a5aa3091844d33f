-- ===== src/Json/Lexer.antt =====
-- The loops of foundation/json.c over the characters of a string or a number go forward.
use foundation_lib.Prelude.{
  ℕ, zero, suc, ◌+◌, ◌-◌, ◌≤◌, ◌<◌, ◌≡◌, refl, ap, ◌⊎◌, inl, inr, Bool, true, false, not, ◌&&◌,
  some, List, arith, ℕ_discrete, ltb, ◌==◌, if◌then◌else◌, Bool-cases, Option-cases,
}
use foundation_lib.Json.{
  npos, is_whitespace, is_token_delimiter, at, skip_from, skip_whitespace, skip_hex, skip_escape,
  skip_char, ends_string, string_end, parse_string, Number, number_char, number_end, parse_number,
}

not_below : (a b : ℕ) → ltb a b ≡ false → a < b → ⊥
not_below a b e lt = ground arith

-- Refused, or behind a position.
abbrev pub Forward : (pos end : ℕ) → Type 0
Forward pos end = (end ≡ npos) ⊎ (pos ≤ end)

pub later : {pos p end : ℕ} → pos ≤ p → Forward p end → Forward pos end
later le (inl e) = inl e
later le (inr le') = inr (omega arith)

either : (b : Bool) (pos : ℕ) → Forward pos (if b then pos else npos)
either true pos = inr (omega arith)
either false pos = inl refl

module _ (buffer : List ℕ) (size : ℕ) (narrow : size < npos) where
  skip_from-le : (fuel pos : ℕ) → pos ≤ skip_from buffer size fuel pos
  skip_from-le zero pos = omega arith
  skip_from-le (suc fuel) pos = ground (arith, skip_from-le fuel (pos + 1))

  pub skip_whitespace-le : (pos : ℕ) → pos ≤ skip_whitespace buffer size pos
  unfolding skip_whitespace
  skip_whitespace-le pos = skip_from-le (size - pos) pos

  -- A position before the end of the text that the loop stops at is not white space.
  skip_from-stops :
      (fuel pos : ℕ)
      → size ≤ pos + fuel
      → skip_from buffer size fuel pos < size
      → is_whitespace (at buffer size (skip_from buffer size fuel pos)) ≡ false
  skip_from-stops zero pos le lt = absurd (omega arith)
  skip_from-stops (suc fuel) pos le lt = elim (Bool-cases (ltb pos size)) [
    | inr b ↦ absurd (not_below pos size b (rw b at lt))
    | inl b ↦ elim (Bool-cases (is_whitespace (at buffer size pos))) [
      | inl w ↦ rw (b, w) (skip_from-stops fuel (pos + 1) (omega arith) (rw (b, w) at lt))
      | inr w ↦ rw (b, w) w
    ]
  ]

  pub skip_whitespace-stops :
      (pos : ℕ)
      → skip_whitespace buffer size pos < size
      → is_whitespace (at buffer size (skip_whitespace buffer size pos)) ≡ false
  unfolding skip_whitespace
  skip_whitespace-stops pos lt = skip_from-stops (size - pos) pos (omega arith) lt

  -- Nothing is skipped at another character.
  pub skip_whitespace-stays :
      (pos : ℕ) → is_whitespace (at buffer size pos) ≡ false → skip_whitespace buffer size pos ≡ pos
  unfolding skip_whitespace
  skip_whitespace-stays pos w = elim (ℕ_discrete (size - pos) 0) [
    | yes e ↦ rw e refl
    | no ne ↦
        let k = size - pos - 1 in
        let e : size - pos ≡ suc k = omega arith in
        let b : ltb pos size ≡ true = ground arith in rw (e, b, w) refl
  ]

  skip_hex-le : (n pos p : ℕ) → skip_hex buffer size n pos ≡ some p → pos ≤ p
  unfolding skip_hex
  skip_hex-le zero pos p e = ground arith
  skip_hex-le (suc n) pos p e = ground (arith, skip_hex-le n (pos + 1) p)

  skip_escape-le : (pos p : ℕ) → skip_escape buffer size pos ≡ some p → pos < p
  unfolding skip_escape
  skip_escape-le pos p e = ground (arith, skip_hex-le 4 pos)

  skip_char-le : (pos p : ℕ) → skip_char buffer size pos ≡ some p → pos < p
  unfolding skip_char
  skip_char-le pos p e = ground (arith, skip_escape-le (pos + 1) p)

  -- A string, or a number, ends behind where it began, or it is refused.
  string_end-Forward :
      (key simple : Bool) (fuel pos : ℕ) → Forward pos (string_end buffer size key simple fuel pos)
  unfolding string_end
  string_end-Forward key simple zero pos = either simple pos
  string_end-Forward key simple (suc fuel) pos = elim (Bool-cases (ltb pos size)) [
    | inr b ↦ rw b (either simple pos)
    | inl b ↦ elim (Bool-cases (ends_string buffer size key simple (at buffer size pos))) [
      | inl c ↦ rw (b, c) (inr (omega arith))
      | inr c ↦ elim (Option-cases (skip_char buffer size pos)) [
        | inl o ↦ rw (b, c, o) (inl refl)
        | inr (p, o) ↦
            rw (b, c, o)
              (later (omega (arith, skip_char-le pos p o)) (string_end-Forward key simple fuel p))
      ]
    ]
  ]

  -- Beyond its beginning, where the first character does not end it.
  string_end-beyond :
      (key simple : Bool) (fuel pos : ℕ)
      → ltb pos size ≡ true
      → ends_string buffer size key simple (at buffer size pos) ≡ false
      → Forward (pos + 1) (string_end buffer size key simple (suc fuel) pos)
  unfolding string_end
  string_end-beyond key simple fuel pos b c = elim (Option-cases (skip_char buffer size pos)) [
    | inl o ↦ rw (b, c, o) (inl refl)
    | inr (p, o) ↦
        rw (b, c, o)
          (later (omega (arith, skip_char-le pos p o)) (string_end-Forward key simple fuel p))
  ]

  pub parse_string-Forward :
      (pos : ℕ) (key simple : Bool)
      → let n = parse_string buffer size pos key simple in
        (n ≡ npos) ⊎ (pos + n ≡ string_end buffer size key simple (size - pos) pos)
  unfolding parse_string
  parse_string-Forward pos key simple =
      let end = string_end buffer size key simple (size - pos) pos in
      elim (string_end-Forward key simple (size - pos) pos) [
        | inl e ↦ let t : (end == npos) ≡ true = ground arith in rw t (inl refl)
        | inr le ↦ elim (ℕ_discrete end npos) [
          | yes e ↦ let t : (end == npos) ≡ true = ground arith in rw t (inl refl)
          | no ne ↦ let t : (end == npos) ≡ false = ground arith in rw t (inr (omega arith))
        ]
      ]

  -- A string that ends where it begins stands before a character that ends it.
  pub parse_string-empty :
      (pos : ℕ) (key simple : Bool)
      → pos < size
      → let n = parse_string buffer size pos key simple in
        (n ≡ npos) ⊎ (0 < n) ⊎ (ends_string buffer size key simple (at buffer size pos) ≡ true)
  parse_string-empty pos key simple lt = elim (parse_string-Forward pos key simple) [
    | inl e ↦ inl e
    | inr e ↦ elim (Bool-cases (ends_string buffer size key simple (at buffer size pos))) [
      | inl c ↦ inr (inr c)
      | inr c ↦
          let k = size - pos - 1 in
          let f : size - pos ≡ suc k = omega arith in
          let b : ltb pos size ≡ true = ground arith in
          elim (string_end-beyond key simple k pos b c) [
            | inl x ↦ inr (inl (omega (arith, ap (λ f. string_end buffer size key simple f pos) f)))
            | inr le ↦
                inr (inl (omega (arith, ap (λ f. string_end buffer size key simple f pos) f)))
          ]
    ]
  ]

  beyond :
      (pos end : ℕ)
      → pos < size
      → Forward (pos + 1) end
      → let n = if end == npos then npos else end - pos in (n ≡ npos) ⊎ (0 < n)
  beyond pos end lt (inl e) = let t : (end == npos) ≡ true = ground arith in rw t (inl refl)
  beyond pos end lt (inr le) = elim (Bool-cases (end == npos)) [
    | inl t ↦ rw t (inl refl)
    | inr t ↦ rw t (inr (omega arith))
  ]

  number_char-le :
      (start : ℕ) (n m : Number buffer size)
      → number_char buffer size start n ≡ some m
      → n.pos < m.pos
  unfolding number_char
  number_char-le start n m e = ground arith

  number_end-Forward :
      (start fuel : ℕ) (n : Number buffer size)
      → Forward n.pos (number_end buffer size start fuel n)
  unfolding number_end
  number_end-Forward start zero n = either n.has_digit n.pos
  number_end-Forward start (suc fuel) n =
      elim (Bool-cases (ltb n.pos size && not (is_token_delimiter (at buffer size n.pos)))) [
        | inr b ↦ rw b (either n.has_digit n.pos)
        | inl b ↦ elim (Option-cases (number_char buffer size start n)) [
          | inl o ↦ rw (b, o) (inl refl)
          | inr (m, o) ↦
              rw (b, o)
                (later (omega (arith, number_char-le start n m o))
                  (number_end-Forward start fuel m))
        ]
      ]

  -- A number that begins with a character that does not end it is not empty.
  pub parse_number-positive :
      (pos : ℕ)
      → pos < size
      → is_token_delimiter (at buffer size pos) ≡ false
      → let n = parse_number buffer size pos in (n ≡ npos) ⊎ (0 < n)
  unfolding parse_number number_end
  parse_number-positive pos lt d =
      let k = size - pos - 1 in
      let f : size - pos ≡ suc k = omega arith in
      let n : Number buffer size = record {
        pos = pos;
        has_dot = false;
        has_digit = false;
        has_exp = false;
      } in
      let b : ltb pos size ≡ true = ground arith in
      elim (Option-cases (number_char buffer size pos n)) [
        | inl o ↦ rw (f, b, d, o) (inl refl)
        | inr (m, o) ↦
            rw (f, b, d, o)
              (beyond pos (number_end buffer size pos k m) lt
                (later (omega (arith, number_char-le pos n m o)) (number_end-Forward pos k m)))
      ]
