-- ===== src/Json/ObjectRuns.antt =====
-- Two runs of the loop of `parse_object`.
use mathlib.Core.Bool.{true≢false}
use foundation_lib.Prelude.{
  ℕ, ◌+◌, ◌<◌, ◌≡◌, refl, sym, ◌≢◌, inl, inr, Bool, true, false, not, ◌&&◌, ◌||◌, Option, List,
  arith, ℕ_discrete, ltb, ◌==◌, if◌then◌else◌, ltb→lt, Bool-cases,
}
use foundation_lib.Json.{
  JsonToken, npos, is_valid_token, set_token_id, set_sibling, skip_whitespace, at, parse_string,
  Parsed, Call, parse_value, object_loop, object_more, object_key, object_step,
}
use foundation_lib.Json.Tokens.{Valid, Keeps, set_token_id-Keeps, set_sibling-Keeps}
use foundation_lib.Json.Lexer.{skip_whitespace-le}
use foundation_lib.Json.Runs.{
  state, Outcome, found, Pending, rebase, failed, and_false, then-Outcome,
}

module _ (buffer : List ℕ) (size : ℕ) (simple : Bool) (narrow : size < npos)
    (next : Call → Parsed → Option Parsed)
    (agree : (call : Call) (pos : ℕ) (t₁ t₂ : List JsonToken) (c : ℕ)
      → Pending call size pos t₁
      → Pending call size pos t₂
      → Outcome call t₁ t₂ c (next call (state pos t₁ c)) (next call (state pos t₂ c))) where
  -- What follows a value: a position that is not the end is not `npos`.
  object_more-Outcome :
      (bare : Bool) (last : ℕ) {t₁ t₂ : List JsonToken} (pos current : ℕ) (u₁ u₂ : List JsonToken)
      → (pos ≢ npos → Valid u₁ last × Valid u₂ last)
      → Keeps t₁ u₁
      → Keeps t₂ u₂
      → (c : ℕ)
      → Outcome
          (object_loop 0)
          t₁
          t₂
          c
          (object_more buffer size simple next bare last (state pos u₁ current))
          (object_more buffer size simple next bare last (state pos u₂ current))
  unfolding object_more
  object_more-Outcome bare last pos current u₁ u₂ made k₁ k₂ c =
      let pos' = skip_whitespace buffer size pos in
      let ch = at buffer size pos' in
      let before = skip_whitespace-le buffer size narrow pos in
      elim (Bool-cases (bare && (ltb pos' size && (not (ch == b',') && not (ch == b'}'))))) [
        | inl b ↦ rw b (
            rebase (λ i v. set_sibling-Keeps u₁ last current i (k₁ i v))
              (λ i v. set_sibling-Keeps u₂ last current i (k₂ i v))
              (λ e. absurd (true≢false (sym e)))
              (agree (object_loop 0) pos' (set_sibling u₁ last current)
                (set_sibling u₂ last current) current (λ nz lt. absurd (nz refl))
                (λ nz lt. absurd (nz refl))))
        | inr b ↦ rw b (
            rebase k₁ k₂ (λ e. absurd (true≢false (sym e)))
              (agree (object_loop last) pos' u₁ u₂ current
                (λ nz lt. (made (λ e. absurd (omega arith))).0)
                (λ nz lt. (made (λ e. absurd (omega arith))).1)))
      ]

  object_key-Outcome :
      (pos : ℕ) (t₁ t₂ : List JsonToken) (c : ℕ)
      → Outcome
          (object_loop 0)
          t₁
          t₂
          c
          (object_key buffer size simple next (state pos t₁ c))
          (object_key buffer size simple next (state pos t₂ c))
  unfolding object_key
  object_key-Outcome pos t₁ t₂ c =
      let quoted = at buffer size pos == b'"' in
      let start = if quoted then pos + 1 else pos in
      let string = parse_string buffer size start true (not quoted) in
      let closed =
        not simple || ltb (start + string) size && at buffer size (start + string) == b'"' in
      let pos' =
        skip_whitespace buffer size (if closed then start + string + 1 else start + string) in
      let ch = at buffer size pos' in
      elim (Bool-cases (not quoted && not simple || string == npos)) [
        | inl b ↦ rw b (failed (object_loop 0) c c (λ i v. v) (λ i v. v))
        | inr b ↦ elim (Bool-cases (not (ch == b':') && (not simple || not (ch == b'=')))) [
          | inl b₁ ↦ rw (b, b₁) (failed (object_loop 0) c c (λ i v. v) (λ i v. v))
          | inr b₁ ↦
              rw (b, b₁)
                (then-Outcome (object_more buffer size simple next (not quoted) c)
                  (agree parse_value (pos' + 1) (set_token_id t₁ c start string)
                    (set_token_id t₂ c start string) c tt tt)
                  (λ pos₁ current u₁ u₂ made k₁ k₂.
                    object_more-Outcome (not quoted) c pos₁ current u₁ u₂ made
                      (λ i v. k₁ i (set_token_id-Keeps t₁ c start string i v))
                      (λ i v. k₂ i (set_token_id-Keeps t₂ c start string i v)) c))
        ]
      ]

  pending-Valid :
      (last pos : ℕ) (t : List JsonToken)
      → (last ≢ 0 → pos < size → Valid t last)
      → pos < size
      → (not (last == 0) && not (is_valid_token t last)) ≡ false
  pending-Valid last pos t h lt = elim (ℕ_discrete last 0) [
    | yes e ↦ let z : (last == 0) ≡ true = ground arith in rw z refl
    | no ne ↦ rw (h ne lt) (and_false (not (last == 0)))
  ]

  pub object_step-Outcome :
      (last pos : ℕ) (t₁ t₂ : List JsonToken) (c : ℕ)
      → (last ≢ 0 → pos < size → Valid t₁ last)
      → (last ≢ 0 → pos < size → Valid t₂ last)
      → Outcome
          (object_loop last)
          t₁
          t₂
          c
          (object_step buffer size simple next last (state pos t₁ c))
          (object_step buffer size simple next last (state pos t₂ c))
  unfolding object_step
  object_step-Outcome last pos t₁ t₂ c p₁ p₂ =
      let ch = at buffer size pos in
      let same₁ : Keeps t₁ t₁ = λ i v. v in
      let same₂ : Keeps t₂ t₂ = λ i v. v in
      elim (Bool-cases (ltb pos size)) [
        | inr b ↦ elim (Bool-cases simple) [
          | inl b₁ ↦ rw (b, b₁) (found pos c same₁ same₂ (λ e ne. absurd (true≢false (sym e))))
          | inr b₁ ↦ rw (b, b₁) (failed (object_loop last) c c same₁ same₂)
        ]
        | inl b ↦
            let lt = ltb→lt pos size b in
            elim (Bool-cases (ch == b'}')) [
              | inl b₁ ↦
                  let v₁ = pending-Valid last pos t₁ p₁ lt in
                  let v₂ = pending-Valid last pos t₂ p₂ lt in
                  rw (b, b₁, v₁, v₂)
                    (found (pos + 1) c same₁ same₂ (λ e ne. absurd (true≢false (sym e))))
              | inr b₁ ↦ elim (Bool-cases (ch == b',')) [
                | inl b₂ ↦ elim (ℕ_discrete last 0) [
                  | yes e ↦
                      let z : (last == 0) ≡ true = ground arith in
                      rw (b, b₁, b₂, z) (failed (object_loop last) c c same₁ same₂)
                  | no ne ↦
                      let z : (last == 0) ≡ false = ground arith in
                      rw (b, b₁, b₂, z, p₁ ne lt, p₂ ne lt)
                        (rebase (set_sibling-Keeps t₁ last c) (set_sibling-Keeps t₂ last c)
                          (λ e. absurd (true≢false (sym e)))
                          (agree (object_loop 0) (skip_whitespace buffer size (pos + 1))
                            (set_sibling t₁ last c) (set_sibling t₂ last c) c
                            (λ nz lt. absurd (nz refl)) (λ nz lt. absurd (nz refl))))
                ]
                | inr b₂ ↦ elim (ℕ_discrete last 0) [
                  | no ne ↦
                      let z : (last == 0) ≡ false = ground arith in
                      rw (b, b₁, b₂, z) (failed (object_loop last) c c same₁ same₂)
                  | yes e ↦
                      let z : (last == 0) ≡ true = ground arith in
                      rw (b, b₁, b₂, z)
                        (rebase same₁ same₂ (λ e. absurd (true≢false (sym e)))
                          (object_key-Outcome pos t₁ t₂ c))
                ]
              ]
            ]
      ]
