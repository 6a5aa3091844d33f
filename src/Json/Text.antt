-- ===== src/Json/Text.antt =====
-- foundation/json.c: the characters, strings and numbers of a text. Positions are `size_t`, and `npos` is
-- `STRING_NPOS`. The code reads one byte behind a text's `size`, so a buffer goes on there.
use foundation_lib.Prelude.{
  ℕ, zero, suc, ◌+◌, ◌-◌, ◌^◌, Bool, true, false, not, ◌&&◌, ◌||◌, Option, none, some, List, ltb,
  leb, ◌==◌, if◌then◌else◌, get_or,
}

abbrev pub npos : ℕ
npos = 2 ^ 64 - 1

unfoldable pub is_whitespace : ℕ → Bool
is_whitespace c = c == b' ' || c == b'\t' || c == b'\n' || c == b'\r'

unfoldable pub is_token_delimiter : ℕ → Bool
unfolding is_whitespace
is_token_delimiter c = is_whitespace c || c == b']' || c == b'}' || c == b','

-- The characters that may follow a backslash, less `u`.
unfoldable pub is_escaped : ℕ → Bool
is_escaped c =
    c == b'"'
    || c == b'/'
    || c == b'\\'
    || c == b'b'
    || c == b'f'
    || c == b'r'
    || c == b'n'
    || c == b't'

unfoldable pub is_hex : ℕ → Bool
is_hex c = leb 48 c && leb c 57 || leb 65 c && leb c 70 || leb 97 c && leb c 102

module _ (buffer : List ℕ) (size : ℕ) where
  abbrev pub at : ℕ → ℕ
  at pos = get_or buffer pos 0

  abbrev pub skip_from : (fuel pos : ℕ) → ℕ
  skip_from zero pos = pos
  skip_from (suc fuel) pos =
      let rest = skip_from fuel (pos + 1) in
      if ltb pos size then (if not (is_whitespace (at pos)) then pos else rest) else pos

  -- `skip_whitespace`.
  unfoldable pub skip_whitespace : ℕ → ℕ
  unfolding is_whitespace
  skip_whitespace pos = skip_from (size - pos) pos

  -- The digits behind `\u`, `n` of them at most: where they end.
  unfoldable pub skip_hex : (n pos : ℕ) → Option ℕ
  unfolding is_hex
  skip_hex zero pos = some pos
  skip_hex (suc n) pos =
      let rest = skip_hex n (pos + 1) in
      if ltb pos size then (if not (is_hex (at (pos + 1))) then none else rest) else some pos

  abbrev pub behind_hex : Option ℕ → Option ℕ
  behind_hex none = none
  behind_hex (some p) = some (p + 1)

  -- Behind a backslash at `pos - 1`.
  unfoldable pub skip_escape : ℕ → Option ℕ
  unfolding skip_hex is_escaped
  skip_escape pos =
      if is_escaped (at pos)
      then some (pos + 1)
      else if at pos == b'u'
      then behind_hex (skip_hex 4 pos)
      else none

  -- Whether a string ends at a character.
  unfoldable pub ends_string : (key simple : Bool) → ℕ → Bool
  unfolding is_token_delimiter
  ends_string key simple c =
      simple && (is_token_delimiter c || key && (c == b'=' || c == b':')) || c == b'"'

  -- Where the character at a position ends.
  unfoldable pub skip_char : ℕ → Option ℕ
  unfolding skip_escape
  skip_char pos =
      if at pos == b'\\' && ltb (pos + 1) size then skip_escape (pos + 1) else some (pos + 1)

  -- The loop of `parse_string`: where the string ends.
  unfoldable pub string_end : (key simple : Bool) (fuel pos : ℕ) → ℕ
  unfolding skip_char ends_string
  string_end key simple zero pos = if simple then pos else npos
  string_end key simple (suc fuel) pos =
      let rest : ℕ = elim (skip_char pos) [ none ↦ npos | some p ↦ string_end key simple fuel p ] in
      if ltb pos size
      then (if ends_string key simple (at pos) then pos else rest)
      else if simple
      then pos
      else npos

  -- `parse_string`: the length of the string.
  unfoldable pub parse_string : (pos : ℕ) (key simple : Bool) → ℕ
  unfolding string_end
  parse_string pos key simple =
      let end = string_end key simple (size - pos) pos in if end == npos then npos else end - pos

  -- What `parse_number` has seen.
  pub record Number : Type 0 where
    pub pos : ℕ
    pub has_dot : Bool
    pub has_digit : Bool
    pub has_exp : Bool

  abbrev pub is_digit : ℕ → Bool
  is_digit c = leb b'0' c && leb c b'9'

  -- A character of a number that begins at `start`.
  unfoldable pub number_char : (start : ℕ) → Number → Option Number
  number_char start n =
      let c = at n.pos in
      let further = record n { pos = n.pos + 1 } in
      if c == b'-'
      then (if not (start == n.pos) then none else some further)
      else if c == b'.'
      then (if n.has_dot || n.has_exp then none else some (record further { has_dot = true }))
      else if c == b'e' || c == b'E'
      then (if not n.has_digit || n.has_exp
          then none
          else if ltb (n.pos + 1) size && (at (n.pos + 1) == b'+' || at (n.pos + 1) == b'-')
          then some (record n { pos = n.pos + 2; has_exp = true })
          else some (record further { has_exp = true }))
      else if not (is_digit c)
      then none
      else some (record further { has_digit = true })

  -- The loop of `parse_number`.
  unfoldable pub number_end : (start fuel : ℕ) → Number → ℕ
  unfolding number_char is_token_delimiter
  number_end start zero n = if n.has_digit then n.pos else npos
  number_end start (suc fuel) n =
      let rest : ℕ = elim (number_char start n) [
        | none ↦ npos
        | some m ↦ number_end start fuel m
      ] in
      if ltb n.pos size && not (is_token_delimiter (at n.pos))
      then rest
      else if n.has_digit
      then n.pos
      else npos

  -- `parse_number`: the length of the number.
  unfoldable pub parse_number : ℕ → ℕ
  unfolding number_end
  parse_number pos =
      let n : Number = record { pos = pos; has_dot = false; has_digit = false; has_exp = false } in
      let end = number_end pos (size - pos) n in if end == npos then npos else end - pos
