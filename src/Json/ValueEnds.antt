-- ===== src/Json/ValueEnds.antt =====
-- `parse_value` ends.
use mathlib.Core.Bool.{true≢false}
use foundation_lib.Prelude.{
  ℕ, ◌+◌, ◌-◌, ◌*◌, ◌≤◌, ◌<◌, ◌≡◌, refl, sym, ap, ◌∙◌, inl, inr, Bool, true, false, ◌&&◌, ◌||◌,
  Option, List, [], ◌∷◌, arith, ℕ_discrete, ltb, leb, ◌==◌, ltb→lt, ==_iff, Bool-cases, get_or,
}
use foundation_lib.Json.{
  npos, is_whitespace, is_token_delimiter, ends_string, skip_whitespace, at, is_at, is_digit,
  parse_string, parse_number, Parsed, Call, parse_object, parse_array, value_string, value_char,
  value_step,
}
use foundation_lib.Json.Lexer.{
  skip_whitespace-le, skip_whitespace-stops, parse_string-empty, parse_number-positive,
}
use foundation_lib.Json.Ends.{is_closing, Found, found, Ends, need, found_later, found_from}

module _ (buffer : List ℕ) (size : ℕ) (simple : Bool) (narrow : size < npos) (fuel : ℕ)
    (next : Call → Parsed → Option Parsed)
    (total : (call : Call) (s : Parsed)
      → need size call s.pos ≤ fuel
      → Ends buffer call s.pos (next call s)) where
  closing :
      (c : ℕ)
      → is_whitespace c ≡ false
      → ends_string buffer size false true c ≡ true
      → (c == b'"') ≡ false
      → is_closing c ≡ true
  unfolding is_whitespace is_token_delimiter ends_string
  closing c w e q = ground arith

  value_string-Found :
      (s : Parsed)
      → s.pos < size
      → is_whitespace (at buffer size s.pos) ≡ false
      → Found buffer s.pos (value_string buffer size simple next s)
  unfolding value_string
  value_string-Found s lt w =
      let pos = s.pos in
      let c = at buffer size pos in
      elim (Bool-cases (c == b'"')) [
        | inl q ↦
            let string = parse_string buffer size (pos + 1) false false in
            elim (Bool-cases (string == npos)) [
              | inl b ↦ rw (q, b) (found _ (inl refl))
              | inr b ↦ rw (q, b) (found _ (inr (inl (omega arith))))
            ]
        | inr q ↦
            let string = parse_string buffer size pos false true in
            elim (Bool-cases simple) [
              | inr b ↦ rw (q, b) (found _ (inl refl))
              | inl b ↦ elim (Bool-cases (string == npos)) [
                | inl b₁ ↦ rw (q, b, b₁) (found _ (inl refl))
                | inr b₁ ↦
                    elim (Bool-cases
                      (ltb (pos + string) size && at buffer size (pos + string) == b'"')) [
                        | inl b₂ ↦ rw (q, b, b₁, b₂) (found _ (inr (inl (omega arith))))
                        | inr b₂ ↦ elim (parse_string-empty buffer size narrow pos false true lt) [
                          | inl e ↦ absurd (true≢false (sym ((==_iff string npos).1 e) ∙ b₁))
                          | inr (inl more) ↦ rw (q, b, b₁, b₂) (found _ (inr (inl (omega arith))))
                          | inr (inr e) ↦ elim (ℕ_discrete string 0) [
                            | no ne ↦ rw (q, b, b₁, b₂) (found _ (inr (inl (omega arith))))
                            | yes z ↦
                                let here : pos + string ≡ pos = omega arith in
                                rw (q, b, b₁, b₂)
                                  (found _ (
                                    inr (
                                      inr (
                                        omega arith,
                                        ap (λ i. is_closing (get_or buffer i 0)) here
                                            ∙ closing c w e q,
                                      ))))
                          ]
                        ]
                      ]
              ]
            ]
      ]

  number_start :
      (c : ℕ)
      → (c == b'-' || (leb b'0' c && leb c b'9') || c == b'.') ≡ true
      → is_token_delimiter c ≡ false
  unfolding is_token_delimiter is_whitespace
  number_start c e = ground arith

  value_char-Found :
      (s : Parsed)
      → s.pos < size
      → is_whitespace (at buffer size s.pos) ≡ false
      → 3 * (size - s.pos) ≤ fuel
      → Found buffer s.pos (value_char buffer size simple next s)
  unfolding value_char
  value_char-Found s lt w enough_fuel =
      let pos = s.pos in
      let ch = at buffer size pos in
      let string = parse_number buffer size pos in
      elim (Bool-cases (ch == b'{')) [
        | inl b ↦ rw b (found_later (omega arith) (total parse_object _ (omega arith)))
        | inr b ↦ elim (Bool-cases (ch == b'[')) [
          | inl b₁ ↦ rw (b, b₁) (found_later (omega arith) (total parse_array _ (omega arith)))
          | inr b₁ ↦ elim (Bool-cases (ch == b'-' || is_digit buffer size ch || ch == b'.')) [
            | inl b₂ ↦ elim (Bool-cases (string == npos)) [
              | inl b₃ ↦ rw (b, b₁, b₂, b₃) (found _ (inl refl))
              | inr b₃ ↦
                  elim (parse_number-positive buffer size narrow pos lt (number_start ch b₂)) [
                    | inl e ↦ absurd (true≢false (sym ((==_iff string npos).1 e) ∙ b₃))
                    | inr more ↦ rw (b, b₁, b₂, b₃) (found _ (inr (inl (omega arith))))
                  ]
            ]
            | inr b₂ ↦
                elim (Bool-cases (
                  ch == b't'
                  && leb 4 (size - (pos + 1))
                  && is_at buffer size simple next (pos + 1) (b'r' ∷ b'u' ∷ b'e' ∷ [])
                  && is_token_delimiter (at buffer size (pos + 4)))) [
                    | inl b₃ ↦ rw (b, b₁, b₂, b₃) (found _ (inr (inl (omega arith))))
                    | inr b₃ ↦
                        elim (Bool-cases (
                          ch == b'f'
                          && leb 5 (size - (pos + 1))
                          && is_at buffer size simple next (pos + 1)
                              (b'a' ∷ b'l' ∷ b's' ∷ b'e' ∷ [])
                          && is_token_delimiter (at buffer size (pos + 5)))) [
                            | inl b₄ ↦ rw (b, b₁, b₂, b₃, b₄) (found _ (inr (inl (omega arith))))
                            | inr b₄ ↦ rw (b, b₁, b₂, b₃, b₄) (value_string-Found s lt w)
                          ]
                  ]
          ]
        ]
      ]

  pub value_step-Found :
      (s : Parsed)
      → 3 * (size - s.pos) ≤ fuel
      → Found buffer s.pos (value_step buffer size simple next s)
  unfolding value_step
  value_step-Found s enough_fuel =
      let pos' = skip_whitespace buffer size s.pos in
      let le = skip_whitespace-le buffer size narrow s.pos in
      elim (Bool-cases (ltb pos' size)) [
        | inr b ↦ rw b (found _ (inl refl))
        | inl b ↦
            let lt = ltb→lt pos' size b in
            rw b (
              found_from le (
                value_char-Found (record s { pos = pos' }) lt
                  (skip_whitespace-stops buffer size narrow s.pos lt) (omega arith)))
      ]
