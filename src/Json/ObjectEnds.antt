-- ===== src/Json/ObjectEnds.antt =====
-- The loop of `parse_object` ends.
use foundation_lib.Prelude.{
  ℕ, ◌+◌, ◌-◌, ◌*◌, ◌≤◌, ◌<◌, ◌≡◌, refl, ◌⊎◌, inl, inr, Bool, true, not, ◌&&◌, ◌||◌, Option, List,
  arith, ltb, ◌==◌, if◌then◌else◌, ltb→lt, Bool-cases,
}
use foundation_lib.Json.{
  npos, is_valid_token, skip_whitespace, at, parse_string, Parsed, Call, parse_value, object_loop,
  object_more, object_key, object_step,
}
use foundation_lib.Json.Lexer.{skip_whitespace-le}
use foundation_lib.Json.Ends.{Done, done, Ends, need, if-le, further, ahead_of, then_value}

module _ (buffer : List ℕ) (size : ℕ) (simple : Bool) (narrow : size < npos) (fuel : ℕ)
    (next : Call → Parsed → Option Parsed)
    (total : (call : Call) (s : Parsed)
      → need size call s.pos ≤ fuel
      → Ends buffer call s.pos (next call s)) where
  refused :
      {p pos : ℕ} {r : Option Parsed} → Done buffer p r → p ≡ npos → pos < size → Done buffer pos r
  refused (done r (inl e)) e' lt = done r (inl e)
  refused (done r (inr le)) e' lt = done r (inr (omega arith))

  skipped_forward :
      (pos p : ℕ)
      → (p ≡ npos) ⊎ (pos < p)
      → pos < size
      → (skip_whitespace buffer size p ≡ npos) ⊎ (pos < skip_whitespace buffer size p)
  skipped_forward pos p (inl e) lt = inr (omega (arith, skip_whitespace-le buffer size narrow p))
  skipped_forward pos p (inr less) lt = inr (omega (arith, skip_whitespace-le buffer size narrow p))

  -- From a position that is behind the text or not.
  loop-Done :
      (last : ℕ) (s : Parsed) (pos : ℕ)
      → (s.pos ≡ npos) ⊎ (pos < s.pos)
      → pos < size
      → 3 * (size - pos) ≤ fuel
      → Done buffer pos (next (object_loop last) s)
  loop-Done last s pos (inl e) lt le = refused (total (object_loop last) s (omega arith)) e lt
  loop-Done last s pos (inr less) lt le =
      further (omega arith) (total (object_loop last) s (omega arith))

  object_more-Done :
      (bare : Bool) (last : ℕ) (r : Parsed) (pos : ℕ)
      → (r.pos ≡ npos) ⊎ (pos < r.pos)
      → pos < size
      → 3 * (size - pos) ≤ fuel
      → Done buffer pos (object_more buffer size simple next bare last r)
  unfolding object_more
  object_more-Done bare last r pos forward lt le =
      let pos' = skip_whitespace buffer size r.pos in
      let ch = at buffer size pos' in
      let after : (pos' ≡ npos) ⊎ (pos < pos') = skipped_forward pos r.pos forward lt in
      elim (Bool-cases (bare && (ltb pos' size && (not (ch == b',') && not (ch == b'}'))))) [
        | inl b ↦ rw b (loop-Done 0 _ pos after lt le)
        | inr b ↦ rw b (loop-Done last _ pos after lt le)
      ]

  object_key-Done :
      (s : Parsed)
      → s.pos < size
      → 3 * (size - s.pos) ≤ fuel
      → Done buffer s.pos (object_key buffer size simple next s)
  unfolding object_key
  object_key-Done s lt enough_fuel =
      let pos = s.pos in
      let quoted = at buffer size pos == b'"' in
      let start = if quoted then pos + 1 else pos in
      let string = parse_string buffer size start true (not quoted) in
      let closed =
        not simple || ltb (start + string) size && at buffer size (start + string) == b'"' in
      let end = if closed then start + string + 1 else start + string in
      let pos' = skip_whitespace buffer size end in
      let ch = at buffer size pos' in
      let ahead : pos ≤ pos' = omega (
        arith,
        skip_whitespace-le buffer size narrow end,
        if-le closed (start + string + 1) (start + string) start (omega arith) (omega arith),
        if-le quoted (pos + 1) pos pos (omega arith) (omega arith),
      ) in
      elim (Bool-cases (not quoted && not simple || string == npos)) [
        | inl b ↦ rw b (done _ (inl refl))
        | inr b ↦ elim (Bool-cases (not (ch == b':') && (not simple || not (ch == b'=')))) [
          | inl b₁ ↦ rw (b, b₁) (done _ (inl refl))
          | inr b₁ ↦
              rw (b, b₁)
                (then_value (object_more buffer size simple next (not quoted) s.current)
                  (total parse_value _ (omega arith))
                  (λ r a.
                    object_more-Done (not quoted) s.current r pos
                      (ahead_of buffer pos (pos' + 1) r.pos (omega arith) a) lt enough_fuel))
        ]
      ]

  pub object_step-Done :
      (last : ℕ) (s : Parsed)
      → 3 * (size - s.pos) ≤ fuel
      → Done buffer s.pos (object_step buffer size simple next last s)
  unfolding object_step
  object_step-Done last s enough_fuel =
      let pos = s.pos in
      let ch = at buffer size pos in
      elim (Bool-cases (ltb pos size)) [
        | inr b ↦ elim (Bool-cases simple) [
          | inl b₁ ↦ rw (b, b₁) (done _ (inr (omega arith)))
          | inr b₁ ↦ rw (b, b₁) (done _ (inl refl))
        ]
        | inl b ↦
            let lt = ltb→lt pos size b in
            elim (Bool-cases (ch == b'}')) [
              | inl b₁ ↦ elim (Bool-cases (not (last == 0) && not (is_valid_token s.tokens last))) [
                | inl b₂ ↦ rw (b, b₁, b₂) (done _ (inl refl))
                | inr b₂ ↦ rw (b, b₁, b₂) (done _ (inr (omega arith)))
              ]
              | inr b₁ ↦ elim (Bool-cases (ch == b',')) [
                | inl b₂ ↦ elim (Bool-cases (last == 0 || not (is_valid_token s.tokens last))) [
                  | inl b₃ ↦ rw (b, b₁, b₂, b₃) (done _ (inl refl))
                  | inr b₃ ↦
                      rw (b, b₁, b₂, b₃)
                        (loop-Done 0 _ pos
                          (inr (omega (arith, skip_whitespace-le buffer size narrow (pos + 1)))) lt
                          enough_fuel)
                ]
                | inr b₂ ↦ elim (Bool-cases (last == 0)) [
                  | inr b₃ ↦ rw (b, b₁, b₂, b₃) (done _ (inl refl))
                  | inl b₃ ↦ rw (b, b₁, b₂, b₃) (object_key-Done s lt enough_fuel)
                ]
              ]
            ]
      ]
