-- ===== src/Json.antt =====
-- foundation/json.c: the tokenizer. A buffer is a list of bytes that goes on behind its `size`, since the
-- code reads one byte there. Positions are `size_t`, and `npos` is `STRING_NPOS`.
mod Text
pub mod Tokens
pub mod Runs
pub mod ValueRuns
pub mod ObjectRuns
pub mod Agreement
pub mod Lexer
pub mod Ends
pub mod ValueEnds
pub mod ObjectEnds
pub mod Totality
pub mod Escape
mod Tests
unfoldable pub use Text.*
use foundation_lib.Prelude.{
  ℕ, zero, suc, ◌+◌, ◌-◌, ◌*◌, ◌%◌, ◌^◌, Bool, true, false, not, ◌&&◌, ◌||◌, Option, none, some,
  List, [], ◌∷◌, ltb, leb, ◌==◌, if◌then◌else◌, length, add32,
}

-- `json_type_t`.
pub data JsonType : Type 0 where
  undefined object_type array_type string_type primitive : JsonType

-- `json_token_t`.
pub record JsonToken : Type 0 where
  pub type : JsonType
  pub id : ℕ
  pub id_length : ℕ
  pub value : ℕ
  pub value_length : ℕ
  pub child : ℕ
  pub sibling : ℕ

abbrev pub uint : ℕ → ℕ
uint n = n % 2 ^ 32

-- A token of the array is changed, and one behind its capacity is not.
abbrev pub update_token : (JsonToken → JsonToken) → List JsonToken → ℕ → List JsonToken
update_token f [] i = []
update_token f (t ∷ tokens) zero = f t ∷ tokens
update_token f (t ∷ tokens) (suc i) = t ∷ update_token f tokens i

abbrev pub is_undefined : JsonType → Bool
is_undefined undefined = true
is_undefined _ = false

-- `is_valid_token`.
abbrev pub is_valid_token : List JsonToken → ℕ → Bool
is_valid_token [] i = true
is_valid_token (t ∷ tokens) zero = not (is_undefined t.type)
is_valid_token (t ∷ tokens) (suc i) = is_valid_token tokens i

pub set_token_primitive :
    List JsonToken → (current : ℕ) → JsonType → (value value_length : ℕ) → List JsonToken
set_token_primitive tokens current kind v v_length =
    update_token
      (λ t. record t {
        type = kind;
        child = 0;
        sibling = 0;
        value = uint v;
        value_length = uint v_length;
      })
      tokens current

pub set_token_complex : List JsonToken → (current : ℕ) → JsonType → List JsonToken
set_token_complex tokens current kind =
    update_token
      (λ t. record t {
        type = kind;
        child = add32 current 1;
        sibling = 0;
        value = 0;
        value_length = 0;
      })
      tokens current

pub set_token_id : List JsonToken → (current name name_length : ℕ) → List JsonToken
set_token_id tokens current name name_length =
    update_token (λ t. record t { id = uint name; id_length = uint name_length }) tokens current

-- `token->sibling = index`.
pub set_sibling : List JsonToken → (current index : ℕ) → List JsonToken
set_sibling tokens current index = update_token (λ t. record t { sibling = index }) tokens current

-- What a function of the parser returns or goes on with: a position, the tokens and the number of
-- tokens that were found.
pub record Parsed : Type 0 where
  pub pos : ℕ
  pub tokens : List JsonToken
  pub current : ℕ

-- The functions that call each other, and the loops in them with their variable `last`.
pub data Call : Type 0 where
  parse_value parse_object parse_array : Call
  object_loop array_loop : (last : ℕ) → Call

-- `return STRING_NPOS`.
abbrev pub fail : Parsed → Option Parsed
fail s = some (record s { pos = npos })

infixl 5 ◌>>=◌
abbrev pub ◌>>=◌ : Option Parsed → (Parsed → Option Parsed) → Option Parsed
none >>= f = none
some s >>= f = f s

module _ (buffer : List ℕ) (size : ℕ) (simple : Bool) (next : Call → Parsed → Option Parsed) where
  -- `'"'` and `default` of `parse_value`, at the position of the character.
  pub value_string : Parsed → Option Parsed
  unfolding parse_string set_token_primitive
  value_string s =
      let quoted = at buffer size s.pos == b'"' in
      let pos = if quoted then s.pos + 1 else s.pos in
      let string = parse_string buffer size pos false (not quoted) in
      let closed = quoted || ltb (pos + string) size && at buffer size (pos + string) == b'"' in
      if not quoted && not simple || string == npos
      then fail s
      else some (record s {
        pos = if closed then pos + string + 1 else pos + string;
        tokens = set_token_primitive s.tokens s.current string_type pos string;
        current = add32 s.current 1;
      })

  -- The bytes at a position.
  abbrev pub is_at : ℕ → List ℕ → Bool
  is_at pos [] = true
  is_at pos (c ∷ cs) = at buffer size pos == c && is_at (pos + 1) cs

  abbrev pub primitive_token : (pos length : ℕ) → Parsed → Parsed
  primitive_token pos n s = record s {
    pos = pos + n;
    tokens = set_token_primitive s.tokens s.current primitive pos n;
    current = add32 s.current 1;
  }

  abbrev complex_token : JsonType → Parsed → Parsed
  complex_token kind s = record s {
    pos = s.pos + 1;
    tokens = set_token_complex s.tokens s.current kind;
    current = add32 s.current 1;
  }

  -- `parse_value`, at a character.
  pub value_char : Parsed → Option Parsed
  unfolding value_string set_token_primitive set_token_complex parse_number is_token_delimiter
  value_char s =
      let pos = s.pos in
      let c = at buffer size pos in
      let string = parse_number buffer size pos in
      if c == b'{'
      then next parse_object (complex_token object_type s)
      else if c == b'['
      then next parse_array (complex_token array_type s)
      else if c == b'-' || is_digit buffer size c || c == b'.'
      then (if string == npos then fail s else some (primitive_token pos string s))
      else if c == b't'
          && leb 4 (size - (pos + 1))
          && is_at (pos + 1) (b'r' ∷ b'u' ∷ b'e' ∷ [])
          && is_token_delimiter (at buffer size (pos + 4))
      then some (primitive_token pos 4 s)
      else if c == b'f'
          && leb 5 (size - (pos + 1))
          && is_at (pos + 1) (b'a' ∷ b'l' ∷ b's' ∷ b'e' ∷ [])
          && is_token_delimiter (at buffer size (pos + 5))
      then some (primitive_token pos 5 s)
      else value_string s

  abbrev skipped : Parsed → Parsed
  skipped s = record s { pos = skip_whitespace buffer size s.pos }

  pub value_step : Parsed → Option Parsed
  unfolding value_char skip_whitespace
  value_step s = let s' = skipped s in if ltb s'.pos size then value_char s' else fail s'

  -- What follows the value of a key, whose token is `last`.
  pub object_more : (bare : Bool) (last : ℕ) → Parsed → Option Parsed
  unfolding skip_whitespace set_sibling
  object_more bare last r =
      let r' = skipped r in
      let c = at buffer size r'.pos in
      if bare && (ltb r'.pos size && (not (c == b',') && not (c == b'}')))
      then next (object_loop 0) (record r' { tokens = set_sibling r'.tokens last r'.current })
      else next (object_loop last) r'

  -- A key and its value.
  pub object_key : Parsed → Option Parsed
  unfolding parse_string set_token_id skip_whitespace object_more
  object_key s =
      let quoted = at buffer size s.pos == b'"' in
      let pos = if quoted then s.pos + 1 else s.pos in
      let string = parse_string buffer size pos true (not quoted) in
      let closed = not simple || ltb (pos + string) size && at buffer size (pos + string) == b'"' in
      let pos' = skip_whitespace buffer size (if closed then pos + string + 1 else pos + string) in
      let c = at buffer size pos' in
      if not quoted && not simple || string == npos
      then fail s
      else if not (c == b':') && (not simple || not (c == b'='))
      then fail s
      else (next parse_value
            (record s { pos = pos' + 1; tokens = set_token_id s.tokens s.current pos string })
          >>= object_more (not quoted) s.current)

  -- A turn of the loop of `parse_object`.
  pub object_step : (last : ℕ) → Parsed → Option Parsed
  unfolding object_key set_sibling skip_whitespace
  object_step last s =
      let c = at buffer size s.pos in
      let s' = record s { pos = s.pos + 1 } in
      if not (ltb s.pos size)
      then (if simple then some s else fail s)
      else if c == b'}'
      then (if not (last == 0) && not (is_valid_token s.tokens last) then fail s else some s')
      else if c == b','
      then (if last == 0 || not (is_valid_token s.tokens last)
          then fail s
          else next (object_loop 0)
              (skipped (record s' { tokens = set_sibling s.tokens last s.current })))
      else if not (last == 0)
      then fail s
      else object_key s

  -- What follows a value of an array, whose token is `now`.
  pub array_more : (last now : ℕ) → Parsed → Option Parsed
  unfolding skip_whitespace set_sibling
  array_more last now r =
      let linked = record r {
        tokens = if last == 0 then r.tokens else set_sibling r.tokens last now;
      } in
      let r' = skipped linked in
      let c = at buffer size r'.pos in
      if r.pos == npos
      then fail r
      else if c == b','
      then next (array_loop now) (record r' { pos = r'.pos + 1 })
      else if c == b']'
      then some (record r' { pos = r'.pos + 1 })
      else if not simple || c == b'}'
      then fail r'
      else next (array_loop now) r'

  -- A turn of the loop of `parse_array`.
  pub array_step : (last : ℕ) → Parsed → Option Parsed
  unfolding array_more set_token_id
  array_step last s =
      if ltb s.pos size
      then (next parse_value (record s { tokens = set_token_id s.tokens s.current 0 0 })
          >>= array_more last s.current)
      else fail s

  -- `parse_array` before its loop.
  pub array_begin : Parsed → Option Parsed
  unfolding skip_whitespace
  array_begin s =
      let s' = skipped s in
      if at buffer size s'.pos == b']'
      then some (skipped (record s' { pos = s'.pos + 1 }))
      else next (array_loop 0) s'

  pub step : Call → Parsed → Option Parsed
  unfolding value_step object_step array_step array_begin skip_whitespace
  step parse_value s = value_step s
  step parse_object s = next (object_loop 0) (skipped s)
  step parse_array s = array_begin s
  step (object_loop last) s = object_step last s
  step (array_loop last) s = array_step last s

-- The parser. The fuel is the depth of calls and turns.
pub parse : (buffer : List ℕ) (size : ℕ) (simple : Bool) (fuel : ℕ) → Call → Parsed → Option Parsed
unfolding step
parse buffer size simple zero call s = none
parse buffer size simple (suc fuel) call s =
    step buffer size simple (parse buffer size simple fuel) call s

-- The number of tokens: 0 if the text is refused.
abbrev pub count_tokens : Option Parsed → Option ℕ
count_tokens none = none
count_tokens (some s) = some (if s.pos == npos then 0 else s.current)

-- Three calls and turns for a byte are enough.
abbrev pub enough : ℕ → ℕ
enough size = 3 * size + 3

-- `json_parse`: the number of tokens, and the tokens.
pub json_parse : (buffer : List ℕ) (size : ℕ) → List JsonToken → Option Parsed
unfolding parse set_token_id set_token_primitive
json_parse buffer size tokens =
    let tokens' = set_token_primitive (set_token_id tokens 0 0 0) 0 undefined 0 0 in
    parse buffer size false (enough size) parse_value
      (record { pos = 0; tokens = tokens'; current = 0 })

-- `sjson_parse`.
pub sjson_parse : (buffer : List ℕ) (size : ℕ) → List JsonToken → Option Parsed
unfolding parse set_token_id set_token_complex skip_whitespace
sjson_parse buffer size tokens =
    let pos = skip_whitespace buffer size 0 in
    if ltb pos size && not (at buffer size pos == b'{')
    then parse buffer size true (enough size) parse_object (record {
      pos = pos;
      tokens = set_token_complex (set_token_id tokens 0 0 0) 0 object_type;
      current = 1;
    })
    else parse buffer size true (enough size) parse_value
        (record { pos = pos; tokens = tokens; current = 0 })
