-- ===== src/Json/Escape/Tests.antt =====
-- Escapes with and without room for them, and the theorem at an input.
use foundation_lib.Prelude.{◌≡◌, refl, [], ◌∷◌, arith}
use foundation_lib.Json.Escape.{json_escape, json_unescape}
use foundation_lib.Json.Escape.RoundTrip.{no_bytes, more_bytes, json_unescape-json_escape}
use foundation_lib.Utf8.Convert.{encode_all}
use foundation_lib.Utf8.{encode_utf8}

escape_line :
    json_escape 20 (b'a' ∷ b'\n' ∷ 1 ∷ [])
    ≡ b'a' ∷ b'\\' ∷ b'n' ∷ b'\\' ∷ b'u' ∷ b'0' ∷ b'0' ∷ b'0' ∷ b'1' ∷ []
unfolding json_escape
escape_line = refl

escape_cut : json_escape 2 (b'a' ∷ b'"' ∷ b'b' ∷ []) ≡ b'a' ∷ b'\\' ∷ []
unfolding json_escape
escape_cut = refl

-- Hexadecimal digits that run out, a minus, and an `x`.
unescape_odd :
    (json_unescape 9 (b'\\' ∷ b'u' ∷ b'4' ∷ b'1' ∷ b'g' ∷ b'h' ∷ []) ≡ 0x41 ∷ [])
    × (json_unescape 9 (b'\\' ∷ b'u' ∷ b'0' ∷ b'x' ∷ b'4' ∷ b'1' ∷ b'z' ∷ []) ≡ b'A' ∷ b'z' ∷ [])
unfolding json_unescape
unescape_odd = (refl, refl)

json_unescape-json_escape_example :
    json_unescape 9 (json_escape 30 (b'a' ∷ b'\n' ∷ 0xE9 ∷ b'"' ∷ []))
    ≡ encode_all (b'a' ∷ b'\n' ∷ 0xE9 ∷ b'"' ∷ [])
unfolding encode_utf8
json_unescape-json_escape_example =
    json_unescape-json_escape 9 30 (b'a' ∷ b'\n' ∷ 0xE9 ∷ b'"' ∷ [])
      (more_bytes (omega arith)
        (more_bytes (omega arith) (more_bytes (omega arith) (more_bytes (omega arith) no_bytes))))
      (omega arith) (omega arith)
