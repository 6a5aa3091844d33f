-- ===== src/Json/Totality.antt =====
-- The functions of foundation/json.c that call each other end.
use mathlib.Core.Bool.{true≢false}
use foundation_lib.Prelude.{
  ℕ, zero, suc, ◌+◌, ◌-◌, ◌*◌, ◌≤◌, ◌<◌, ◌≡◌, refl, sym, ap, ◌∙◌, inl, inr, Bool, true, false, not,
  ◌&&◌, ◌||◌, Option, some, List, arith, ltb, ◌==◌, ltb→lt, ==_iff, Bool-cases, get_or,
}
use foundation_lib.Json.{
  JsonToken, npos, is_whitespace, skip_whitespace, at, Parsed, Call, parse_value, parse_object,
  parse_array, object_loop, array_loop, array_more, array_step, array_begin, step, parse, enough,
  json_parse, sjson_parse,
}
use foundation_lib.Json.Lexer.{skip_whitespace-le, skip_whitespace-stays}
use foundation_lib.Json.Ends.{
  is_closing, Advances, Done, done, Found, found, Ends, need, further, then_value,
}
use foundation_lib.Json.ValueEnds.{value_step-Found}
use foundation_lib.Json.ObjectEnds.{object_step-Done}

module _ (buffer : List ℕ) (size : ℕ) (simple : Bool) (narrow : size < npos) (fuel : ℕ)
    (next : Call → Parsed → Option Parsed)
    (total : (call : Call) (s : Parsed)
      → need size call s.pos ≤ fuel
      → Ends buffer call s.pos (next call s)) where
  closing_not-whitespace : (c : ℕ) → is_closing c ≡ true → is_whitespace c ≡ false
  unfolding is_whitespace
  closing_not-whitespace c e = ground arith

  not_closing :
      (c : ℕ)
      → (c == b',') ≡ false
      → (c == b']') ≡ false
      → (c == b'}') ≡ false
      → is_closing c ≡ false
  not_closing c e e₁ e₂ = rw (e, e₁, e₂) refl

  or_right : (a b : Bool) → (a || b) ≡ false → b ≡ false
  or_right true b e = absurd (true≢false e)
  or_right false b e = e

  array_more-Done :
      (last now : ℕ) (r : Parsed) (pos : ℕ)
      → Advances buffer pos r.pos
      → pos < size
      → 3 * (size - pos) + 1 ≤ fuel
      → Done buffer pos (array_more buffer size simple next last now r)
  unfolding array_more
  array_more-Done last now r pos a lt le =
      let pos' = skip_whitespace buffer size r.pos in
      let ch = at buffer size pos' in
      let ahead = skip_whitespace-le buffer size narrow r.pos in
      elim (Bool-cases (r.pos == npos)) [
        | inl b ↦ rw b (done _ (inl refl))
        | inr b ↦
            let behind : pos ≤ r.pos = elim a [
              | inl e ↦ absurd (true≢false (sym ((==_iff r.pos npos).1 e) ∙ b))
              | inr (inl less) ↦ omega arith
              | inr (inr (le', c)) ↦ le'
            ] in
            elim (Bool-cases (ch == b',')) [
              | inl b₁ ↦ rw (b, b₁) (further (omega arith) (total (array_loop now) _ (omega arith)))
              | inr b₁ ↦ elim (Bool-cases (ch == b']')) [
                | inl b₂ ↦ rw (b, b₁, b₂) (done _ (inr (omega arith)))
                | inr b₂ ↦ elim (Bool-cases (not simple || ch == b'}')) [
                  | inl b₃ ↦ rw (b, b₁, b₂, b₃) (done _ (inl refl))
                  | inr b₃ ↦
                      let more : pos < pos' = elim a [
                        | inl e ↦ absurd (true≢false (sym ((==_iff r.pos npos).1 e) ∙ b))
                        | inr (inl less) ↦ omega arith
                        | inr (inr (le', c)) ↦
                            let stays =
                              skip_whitespace-stays buffer size narrow r.pos
                                (closing_not-whitespace (get_or buffer r.pos 0) c) in
                            absurd (
                              true≢false (
                                sym c
                                ∙ ap (λ i. is_closing (get_or buffer i 0)) (sym stays)
                                ∙ not_closing ch b₁ b₂ (or_right (not simple) (ch == b'}') b₃)))
                      ] in
                      rw (b, b₁, b₂, b₃)
                        (further (omega arith) (total (array_loop now) _ (omega arith)))
                ]
              ]
            ]
      ]

  array_step-Done :
      (last : ℕ) (s : Parsed)
      → 3 * (size - s.pos) + 1 ≤ fuel
      → Done buffer s.pos (array_step buffer size simple next last s)
  unfolding array_step
  array_step-Done last s enough_fuel = elim (Bool-cases (ltb s.pos size)) [
    | inr b ↦ rw b (done _ (inl refl))
    | inl b ↦ rw b (
        then_value (array_more buffer size simple next last s.current)
          (total parse_value _ (omega arith))
          (λ r a. array_more-Done last s.current r s.pos a (ltb→lt s.pos size b) enough_fuel))
  ]

  array_begin-Done :
      (s : Parsed)
      → 3 * (size - s.pos) + 2 ≤ fuel
      → Done buffer s.pos (array_begin buffer size simple next s)
  unfolding array_begin
  array_begin-Done s enough_fuel =
      let pos' = skip_whitespace buffer size s.pos in
      let le = skip_whitespace-le buffer size narrow s.pos in
      elim (Bool-cases (at buffer size pos' == b']')) [
        | inl b ↦
            rw b (done _ (inr (omega (arith, skip_whitespace-le buffer size narrow (pos' + 1)))))
        | inr b ↦ rw b (further le (total (array_loop 0) _ (omega arith)))
      ]

  step-Ends :
      (call : Call) (s : Parsed)
      → need size call s.pos ≤ suc fuel
      → Ends buffer call s.pos (step buffer size simple next call s)
  unfolding step
  step-Ends parse_value s le =
      value_step-Found buffer size simple narrow fuel next total s (omega arith)
  step-Ends parse_object s le =
      let ahead = skip_whitespace-le buffer size narrow s.pos in
      further ahead (total (object_loop 0) _ (omega arith))
  step-Ends parse_array s le = array_begin-Done s (omega arith)
  step-Ends (object_loop last) s le =
      object_step-Done buffer size simple narrow fuel next total last s (omega arith)
  step-Ends (array_loop last) s le = array_step-Done last s (omega arith)

parse-Ends :
    (buffer : List ℕ) (size : ℕ) (simple : Bool)
    → size < npos
    → (fuel : ℕ) (call : Call) (s : Parsed) → need size call s.pos ≤ fuel
    → Ends buffer call s.pos (parse buffer size simple fuel call s)
unfolding parse
parse-Ends buffer size simple narrow zero parse_value s le = absurd (omega arith)
parse-Ends buffer size simple narrow zero parse_object s le = absurd (omega arith)
parse-Ends buffer size simple narrow zero parse_array s le = absurd (omega arith)
parse-Ends buffer size simple narrow zero (object_loop last) s le = absurd (omega arith)
parse-Ends buffer size simple narrow zero (array_loop last) s le = absurd (omega arith)
parse-Ends buffer size simple narrow (suc fuel) call s le =
    step-Ends buffer size simple narrow fuel (parse buffer size simple fuel)
      (parse-Ends buffer size simple narrow fuel) call s le

Found-some :
    {buffer : List ℕ} {pos : ℕ} {o : Option Parsed}
    → Found buffer pos o
    → (r : Parsed) × (o ≡ some r)
Found-some (found r a) = (r, refl)

Done-some :
    {buffer : List ℕ} {pos : ℕ} {o : Option Parsed}
    → Done buffer pos o
    → (r : Parsed) × (o ≡ some r)
Done-some (done r f) = (r, refl)

-- `json_parse` and `sjson_parse` return on every text of fewer than 2 ^ 64 - 1 bytes, within three calls
-- and turns for a byte and three more.
pub parse_total :
    (buffer : List ℕ) (size : ℕ) (tokens : List JsonToken)
    → size < npos
    → ((r : Parsed) × (json_parse buffer size tokens ≡ some r))
      × ((r : Parsed) × (sjson_parse buffer size tokens ≡ some r))
unfolding json_parse sjson_parse
parse_total buffer size tokens narrow =
    let pos = skip_whitespace buffer size 0 in
    (
      Found-some (parse-Ends buffer size false narrow (enough size) parse_value _ (omega arith)),
      elim (Bool-cases (ltb pos size && not (at buffer size pos == b'{'))) [
        | inl b ↦ rw b (
            Done-some
              (parse-Ends buffer size true narrow (enough size) parse_object _ (omega arith)))
        | inr b ↦ rw b (
            Found-some
              (parse-Ends buffer size true narrow (enough size) parse_value _ (omega arith)))
      ],
    )
