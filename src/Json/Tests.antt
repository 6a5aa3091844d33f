-- ===== src/Json/Tests.antt =====
-- Texts that the tokenizer takes apart, and texts that it refuses.
use Prim.Native.Char.{code}
use Prim.Native.String.{String}
use foundation_lib.Prelude.{ℕ, ◌≡◌, refl, some, List, [], ◌∷◌, arith, length, replicate}
use foundation_lib.Json.{
  undefined, JsonToken, set_token_primitive, set_token_complex, set_token_id, set_sibling,
  is_whitespace, is_token_delimiter, is_escaped, is_hex, skip_whitespace, skip_hex, skip_escape,
  skip_char, ends_string, string_end, parse_string, number_char, number_end, parse_number, Parsed,
  value_string, value_char, value_step, object_more, object_key, object_step, array_more,
  array_step, array_begin, step, parse, count_tokens, json_parse, sjson_parse,
}
use foundation_lib.Json.Agreement.{json_parse-count, sjson_parse-count}
use foundation_lib.Json.Totality.{parse_total}

-- Code points; every literal below is ASCII.
abbrev codes : String → List ℕ
codes String.[] = []
codes (String.◌∷◌ c s) = code c ∷ codes s

abbrev text : List ℕ
text = codes "{\"a\":[1,true ,\"x\"]}"

abbrev simple_text : List ℕ
simple_text = codes "a = 1 b = [c d]"

abbrev blank : JsonToken
blank = record {
  type = undefined;
  id = 0;
  id_length = 0;
  value = 0;
  value_length = 0;
  child = 0;
  sibling = 0;
}

count_text : count_tokens (json_parse text (length text) []) ≡ some 5
unfolding set_token_primitive set_token_complex set_token_id set_sibling is_whitespace
    is_token_delimiter is_escaped is_hex skip_whitespace skip_hex skip_escape skip_char ends_string
    string_end parse_string number_char number_end parse_number value_string value_char value_step
    object_more object_key object_step array_more array_step array_begin step parse json_parse
count_text = refl

count_simple_text :
    count_tokens (sjson_parse simple_text (length simple_text) (replicate 2 blank)) ≡ some 5
unfolding set_token_primitive set_token_complex set_token_id set_sibling is_whitespace
    is_token_delimiter is_escaped is_hex skip_whitespace skip_hex skip_escape skip_char ends_string
    string_end parse_string number_char number_end parse_number value_string value_char value_step
    object_more object_key object_step array_more array_step array_begin step parse sjson_parse
count_simple_text = refl

refuse_text : count_tokens (json_parse (codes "{\"a\" 1}") 7 []) ≡ some 0
unfolding set_token_primitive set_token_complex set_token_id set_sibling is_whitespace
    is_token_delimiter is_escaped is_hex skip_whitespace skip_hex skip_escape skip_char ends_string
    string_end parse_string number_char number_end parse_number value_string value_char value_step
    object_more object_key object_step array_more array_step array_begin step parse json_parse
refuse_text = refl

json_parse-count_example :
    count_tokens (json_parse text (length text) [])
    ≡ count_tokens (json_parse text (length text) (replicate 3 blank))
json_parse-count_example = json_parse-count text (length text) [] (replicate 3 blank) (omega arith)

sjson_parse-count_example :
    count_tokens (sjson_parse simple_text (length simple_text) [])
    ≡ count_tokens (sjson_parse simple_text (length simple_text) (replicate 9 blank))
sjson_parse-count_example =
    sjson_parse-count simple_text (length simple_text) [] (replicate 9 blank) (omega arith)

parse_total_example :
    ((r : Parsed) × (json_parse text (length text) [] ≡ some r))
    × ((r : Parsed) × (sjson_parse text (length text) [] ≡ some r))
parse_total_example = parse_total text (length text) [] (omega arith)
