-- ===== src/Json/ValueRuns.antt =====
-- Two runs of `parse_value`.
use foundation_lib.Prelude.{
  ℕ, ◌+◌, ◌-◌, ◌<◌, ◌≡◌, refl, inl, inr, Bool, false, not, ◌&&◌, ◌||◌, Option, some, List, [], ◌∷◌,
  ltb, leb, ◌==◌, if◌then◌else◌, Bool-cases, add32,
}
use foundation_lib.Json.{
  JsonType, object_type, array_type, string_type, primitive, JsonToken, npos, is_undefined,
  set_token_primitive, set_token_complex, is_token_delimiter, skip_whitespace, at, is_at, is_digit,
  parse_string, parse_number, Parsed, Call, parse_value, parse_object, parse_array, value_string,
  value_char, value_step,
}
use foundation_lib.Json.Tokens.{set_token_complex-Keeps, set_token_primitive-Keeps}
use foundation_lib.Json.Runs.{state, Outcome, found, Pending, rebase, failed}

module _ (buffer : List ℕ) (size : ℕ) (simple : Bool) (narrow : size < npos)
    (next : Call → Parsed → Option Parsed)
    (agree : (call : Call) (pos : ℕ) (t₁ t₂ : List JsonToken) (c : ℕ)
      → Pending call size pos t₁
      → Pending call size pos t₂
      → Outcome call t₁ t₂ c (next call (state pos t₁ c)) (next call (state pos t₂ c))) where
  value_string-Outcome :
      (pos : ℕ) (t₁ t₂ : List JsonToken) (c : ℕ)
      → Outcome parse_value t₁ t₂ c
          (value_string buffer size simple next (state pos t₁ c))
          (value_string buffer size simple next (state pos t₂ c))
  unfolding value_string
  value_string-Outcome pos t₁ t₂ c =
      let quoted = at buffer size pos == b'"' in
      let start = if quoted then pos + 1 else pos in
      let string = parse_string buffer size start false (not quoted) in
      elim (Bool-cases (not quoted && not simple || string == npos)) [
        | inl b ↦ rw b (failed parse_value c c (λ i v. v) (λ i v. v))
        | inr b ↦
            let (k₁, v₁) = set_token_primitive-Keeps t₁ c string_type start string refl in
            let (k₂, v₂) = set_token_primitive-Keeps t₂ c string_type start string refl in
            rw b (found _ _ k₁ k₂ (λ e ne. (v₁, v₂)))
      ]

  primitive-Outcome :
      (pos n : ℕ) (t₁ t₂ : List JsonToken) (c : ℕ)
      → Outcome parse_value t₁ t₂ c
          (some (state (pos + n) (set_token_primitive t₁ c primitive pos n) (add32 c 1)))
          (some (state (pos + n) (set_token_primitive t₂ c primitive pos n) (add32 c 1)))
  primitive-Outcome pos n t₁ t₂ c =
      let (k₁, v₁) = set_token_primitive-Keeps t₁ c primitive pos n refl in
      let (k₂, v₂) = set_token_primitive-Keeps t₂ c primitive pos n refl in
      found _ _ k₁ k₂ (λ e ne. (v₁, v₂))

  complex-Outcome :
      (inner : Call) (pos : ℕ) (t₁ t₂ : List JsonToken) (c : ℕ) (kind : JsonType)
      → is_undefined kind ≡ false
      → ((tokens : List JsonToken) → Pending inner size (pos + 1) tokens)
      → Outcome parse_value t₁ t₂ c
          (next inner (state (pos + 1) (set_token_complex t₁ c kind) (add32 c 1)))
          (next inner (state (pos + 1) (set_token_complex t₂ c kind) (add32 c 1)))
  complex-Outcome inner pos t₁ t₂ c kind d pending =
      let (k₁, v₁) = set_token_complex-Keeps t₁ c kind d in
      let (k₂, v₂) = set_token_complex-Keeps t₂ c kind d in
      rebase k₁ k₂ (λ e. (v₁, v₂))
        (agree inner (pos + 1) (set_token_complex t₁ c kind) (set_token_complex t₂ c kind)
          (add32 c 1) (pending _) (pending _))

  value_char-Outcome :
      (pos : ℕ) (t₁ t₂ : List JsonToken) (c : ℕ)
      → Outcome parse_value t₁ t₂ c
          (value_char buffer size simple next (state pos t₁ c))
          (value_char buffer size simple next (state pos t₂ c))
  unfolding value_char
  value_char-Outcome pos t₁ t₂ c =
      let ch = at buffer size pos in
      let string = parse_number buffer size pos in
      elim (Bool-cases (ch == b'{')) [
        | inl b ↦ rw b (complex-Outcome parse_object pos t₁ t₂ c object_type refl (λ t. tt))
        | inr b ↦ elim (Bool-cases (ch == b'[')) [
          | inl b₁ ↦ rw (b, b₁) (complex-Outcome parse_array pos t₁ t₂ c array_type refl (λ t. tt))
          | inr b₁ ↦ elim (Bool-cases (ch == b'-' || is_digit buffer size ch || ch == b'.')) [
            | inl b₂ ↦ elim (Bool-cases (string == npos)) [
              | inl b₃ ↦ rw (b, b₁, b₂, b₃) (failed parse_value c c (λ i v. v) (λ i v. v))
              | inr b₃ ↦ rw (b, b₁, b₂, b₃) (primitive-Outcome pos string t₁ t₂ c)
            ]
            | inr b₂ ↦
                elim (Bool-cases (
                  ch == b't'
                  && leb 4 (size - (pos + 1))
                  && is_at buffer size simple next (pos + 1) (b'r' ∷ b'u' ∷ b'e' ∷ [])
                  && is_token_delimiter (at buffer size (pos + 4)))) [
                    | inl b₃ ↦ rw (b, b₁, b₂, b₃) (primitive-Outcome pos 4 t₁ t₂ c)
                    | inr b₃ ↦
                        elim (Bool-cases (
                          ch == b'f'
                          && leb 5 (size - (pos + 1))
                          && is_at buffer size simple next (pos + 1)
                              (b'a' ∷ b'l' ∷ b's' ∷ b'e' ∷ [])
                          && is_token_delimiter (at buffer size (pos + 5)))) [
                            | inl b₄ ↦ rw (b, b₁, b₂, b₃, b₄) (primitive-Outcome pos 5 t₁ t₂ c)
                            | inr b₄ ↦ rw (b, b₁, b₂, b₃, b₄) (value_string-Outcome pos t₁ t₂ c)
                          ]
                  ]
          ]
        ]
      ]

  pub value_step-Outcome :
      (pos : ℕ) (t₁ t₂ : List JsonToken) (c : ℕ)
      → Outcome parse_value t₁ t₂ c
          (value_step buffer size simple next (state pos t₁ c))
          (value_step buffer size simple next (state pos t₂ c))
  unfolding value_step
  value_step-Outcome pos t₁ t₂ c = elim (Bool-cases (ltb (skip_whitespace buffer size pos) size)) [
    | inl b ↦ rw b (value_char-Outcome (skip_whitespace buffer size pos) t₁ t₂ c)
    | inr b ↦ rw b (failed parse_value c c (λ i v. v) (λ i v. v))
  ]
