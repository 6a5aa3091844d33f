-- ===== src/Json/Agreement.antt =====
-- Two runs of the parser of foundation/json.c on one text, with different token arrays.
use mathlib.Core.Bool.{true≢false}
use foundation_lib.Prelude.{
  ℕ, zero, suc, ◌+◌, ◌<◌, ◌≡◌, refl, sym, inl, inr, Bool, true, false, not, ◌&&◌, ◌||◌, Option,
  List, ltb, ◌==◌, if◌then◌else◌, Bool-cases,
}
use foundation_lib.Json.{
  JsonToken, npos, set_token_id, set_sibling, skip_whitespace, at, Parsed, Call, parse_value,
  parse_object, parse_array, object_loop, array_loop, array_more, array_step, array_begin, step,
  parse, count_tokens, enough, json_parse, sjson_parse,
}
use foundation_lib.Json.Tokens.{Valid, Keeps, set_token_id-Keeps, set_sibling-Keeps}
use foundation_lib.Json.Runs.{state, Outcome, neither, found, Pending, rebase, failed, then-Outcome}
use foundation_lib.Json.ValueRuns.{value_step-Outcome}
use foundation_lib.Json.ObjectRuns.{object_step-Outcome}

module _ (buffer : List ℕ) (size : ℕ) (simple : Bool) (narrow : size < npos)
    (next : Call → Parsed → Option Parsed)
    (agree : (call : Call) (pos : ℕ) (t₁ t₂ : List JsonToken) (c : ℕ)
      → Pending call size pos t₁
      → Pending call size pos t₂
      → Outcome call t₁ t₂ c (next call (state pos t₁ c)) (next call (state pos t₂ c))) where
  linked-Keeps :
      (last now : ℕ) (u : List JsonToken)
      → Keeps u (if last == 0 then u else set_sibling u last now)
  linked-Keeps last now u i v = elim (Bool-cases (last == 0)) [
    | inl b ↦ rw b v
    | inr b ↦ rw b (set_sibling-Keeps u last now i v)
  ]

  array_more-Outcome :
      (last now : ℕ) {t₁ t₂ : List JsonToken} (pos current : ℕ) (u₁ u₂ : List JsonToken)
      → Keeps t₁ u₁
      → Keeps t₂ u₂
      → (c : ℕ)
      → Outcome
          (array_loop last)
          t₁
          t₂
          c
          (array_more buffer size simple next last now (state pos u₁ current))
          (array_more buffer size simple next last now (state pos u₂ current))
  unfolding array_more
  array_more-Outcome last now pos current u₁ u₂ k₁ k₂ c =
      let w₁ = if last == 0 then u₁ else set_sibling u₁ last now in
      let w₂ = if last == 0 then u₂ else set_sibling u₂ last now in
      let l₁ = λ (i : ℕ) (v : Valid _ i). linked-Keeps last now u₁ i (k₁ i v) in
      let l₂ = λ (i : ℕ) (v : Valid _ i). linked-Keeps last now u₂ i (k₂ i v) in
      let pos' = skip_whitespace buffer size pos in
      let ch = at buffer size pos' in
      elim (Bool-cases (pos == npos)) [
        | inl b ↦ rw b (failed (array_loop last) c current k₁ k₂)
        | inr b ↦ elim (Bool-cases (ch == b',')) [
          | inl b₁ ↦
              rw (b, b₁)
                (rebase l₁ l₂ (λ e. absurd (true≢false (sym e)))
                  (agree (array_loop now) (pos' + 1) w₁ w₂ current tt tt))
          | inr b₁ ↦ elim (Bool-cases (ch == b']')) [
            | inl b₂ ↦
                rw (b, b₁, b₂)
                  (found (pos' + 1) current l₁ l₂ (λ e ne. absurd (true≢false (sym e))))
            | inr b₂ ↦ elim (Bool-cases (not simple || ch == b'}')) [
              | inl b₃ ↦ rw (b, b₁, b₂, b₃) (failed (array_loop last) c current l₁ l₂)
              | inr b₃ ↦
                  rw (b, b₁, b₂, b₃)
                    (rebase l₁ l₂ (λ e. absurd (true≢false (sym e)))
                      (agree (array_loop now) pos' w₁ w₂ current tt tt))
            ]
          ]
        ]
      ]

  array_step-Outcome :
      (last pos : ℕ) (t₁ t₂ : List JsonToken) (c : ℕ)
      → Outcome
          (array_loop last)
          t₁
          t₂
          c
          (array_step buffer size simple next last (state pos t₁ c))
          (array_step buffer size simple next last (state pos t₂ c))
  unfolding array_step
  array_step-Outcome last pos t₁ t₂ c = elim (Bool-cases (ltb pos size)) [
    | inr b ↦ rw b (failed (array_loop last) c c (λ i v. v) (λ i v. v))
    | inl b ↦ rw b (
        then-Outcome (array_more buffer size simple next last c)
          (agree parse_value pos (set_token_id t₁ c 0 0) (set_token_id t₂ c 0 0) c tt tt)
          (λ pos₁ current u₁ u₂ made k₁ k₂.
            array_more-Outcome last c pos₁ current u₁ u₂
              (λ i v. k₁ i (set_token_id-Keeps t₁ c 0 0 i v))
              (λ i v. k₂ i (set_token_id-Keeps t₂ c 0 0 i v)) c))
  ]

  array_begin-Outcome :
      (pos : ℕ) (t₁ t₂ : List JsonToken) (c : ℕ)
      → Outcome parse_array t₁ t₂ c
          (array_begin buffer size simple next (state pos t₁ c))
          (array_begin buffer size simple next (state pos t₂ c))
  unfolding array_begin
  array_begin-Outcome pos t₁ t₂ c =
      let pos' = skip_whitespace buffer size pos in
      elim (Bool-cases (at buffer size pos' == b']')) [
        | inl b ↦ rw b (found _ c (λ i v. v) (λ i v. v) (λ e ne. absurd (true≢false (sym e))))
        | inr b ↦ rw b (
            rebase (λ i v. v) (λ i v. v) (λ e. absurd (true≢false (sym e)))
              (agree (array_loop 0) pos' t₁ t₂ c tt tt))
      ]

  pub step-Outcome :
      (call : Call) (pos : ℕ) (t₁ t₂ : List JsonToken) (c : ℕ)
      → Pending call size pos t₁
      → Pending call size pos t₂
      → Outcome call t₁ t₂ c
          (step buffer size simple next call (state pos t₁ c))
          (step buffer size simple next call (state pos t₂ c))
  unfolding step
  step-Outcome parse_value pos t₁ t₂ c p₁ p₂ =
      value_step-Outcome buffer size simple narrow next agree pos t₁ t₂ c
  step-Outcome parse_object pos t₁ t₂ c p₁ p₂ =
      rebase (λ i v. v) (λ i v. v) (λ e. absurd (true≢false (sym e)))
        (agree (object_loop 0) (skip_whitespace buffer size pos) t₁ t₂ c (λ nz lt. absurd (nz refl))
          (λ nz lt. absurd (nz refl)))
  step-Outcome parse_array pos t₁ t₂ c p₁ p₂ = array_begin-Outcome pos t₁ t₂ c
  step-Outcome (object_loop last) pos t₁ t₂ c p₁ p₂ =
      object_step-Outcome buffer size simple narrow next agree last pos t₁ t₂ c p₁ p₂
  step-Outcome (array_loop last) pos t₁ t₂ c p₁ p₂ = array_step-Outcome last pos t₁ t₂ c

pub parse-Outcome :
    (buffer : List ℕ) (size : ℕ) (simple : Bool)
    → size < npos
    → (fuel : ℕ) (call : Call) (pos : ℕ) (t₁ t₂ : List JsonToken) (c : ℕ) → Pending call size pos t₁
    → Pending call size pos t₂
    → Outcome call t₁ t₂ c
        (parse buffer size simple fuel call (state pos t₁ c))
        (parse buffer size simple fuel call (state pos t₂ c))
unfolding parse
parse-Outcome buffer size simple narrow zero call pos t₁ t₂ c p₁ p₂ = neither
parse-Outcome buffer size simple narrow (suc fuel) call pos t₁ t₂ c p₁ p₂ =
    step-Outcome buffer size simple narrow (parse buffer size simple fuel)
      (parse-Outcome buffer size simple narrow fuel) call pos t₁ t₂ c p₁ p₂

same_count :
    {call : Call} {t₁ t₂ : List JsonToken} {c : ℕ} {r₁ r₂ : Option Parsed}
    → Outcome call t₁ t₂ c r₁ r₂
    → count_tokens r₁ ≡ count_tokens r₂
same_count neither = refl
same_count (found pos current k₁ k₂ made) = refl

-- The number of tokens that `json_parse` returns does not depend on the token array, its capacity or its
-- contents, so that a call without an array counts the tokens that are needed; the text has fewer than
-- 2 ^ 64 - 1 bytes.
pub json_parse-count :
    (buffer : List ℕ) (size : ℕ) (t₁ t₂ : List JsonToken)
    → size < npos
    → count_tokens (json_parse buffer size t₁) ≡ count_tokens (json_parse buffer size t₂)
unfolding json_parse
json_parse-count buffer size t₁ t₂ narrow =
    same_count (parse-Outcome buffer size false narrow (enough size) parse_value 0 _ _ 0 tt tt)

-- The same of `sjson_parse`, on which `sjson_parse_stream` relies when its array was too small.
pub sjson_parse-count :
    (buffer : List ℕ) (size : ℕ) (t₁ t₂ : List JsonToken)
    → size < npos
    → count_tokens (sjson_parse buffer size t₁) ≡ count_tokens (sjson_parse buffer size t₂)
unfolding sjson_parse
sjson_parse-count buffer size t₁ t₂ narrow =
    let pos = skip_whitespace buffer size 0 in
    elim (Bool-cases (ltb pos size && not (at buffer size pos == b'{'))) [
      | inl b ↦ rw b (
          same_count
            (parse-Outcome buffer size true narrow (enough size) parse_object pos _ _ 1 tt tt))
      | inr b ↦ rw b (
          same_count
            (parse-Outcome buffer size true narrow (enough size) parse_value pos _ _ 0 tt tt))
    ]
