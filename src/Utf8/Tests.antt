-- ===== src/Utf8/Tests.antt =====
-- Characters of one to six bytes, and the theorems at inputs.
use foundation_lib.Prelude.{◌≡◌, refl, [], ◌∷◌, arith, length}
use foundation_lib.Utf8.Convert.{encode_all, plain_nil, plain_cons, string_glyph-convert_utf32}
use foundation_lib.Utf8.{
  string_glyph, encode_utf8, read_glyph, string_glyphs, string_convert_utf16, string_convert_utf32,
}

encode_utf8-euro : encode_utf8 0x20AC ≡ 0xE2 ∷ 0x82 ∷ 0xAC ∷ []
unfolding encode_utf8
encode_utf8-euro = refl

read_glyph-euro : read_glyph (0xE2 ∷ 0x82 ∷ 0xAC ∷ 0x41 ∷ []) ≡ (0x20AC, 3)
unfolding read_glyph
read_glyph-euro = refl

-- U+1F600 as a surrogate pair, behind a mark of the other byte order.
convert_utf16-pair :
    string_convert_utf16 9 (0xFFFE ∷ 0x3DD8 ∷ 0x00DE ∷ []) ≡ 0xF0 ∷ 0x9F ∷ 0x98 ∷ 0x80 ∷ []
unfolding string_convert_utf16
convert_utf16-pair = refl

convert_utf32-cut :
    string_convert_utf32 5 (0x41 ∷ 0x20AC ∷ 0x42 ∷ []) ≡ 0x41 ∷ 0xE2 ∷ 0x82 ∷ 0xAC ∷ []
unfolding string_convert_utf32
convert_utf32-cut = refl

glyphs-six : string_glyphs (encode_utf8 0x7FFFFFFF) ≡ 1
unfolding string_glyphs encode_utf8
glyphs-six = refl

string_glyph-convert_utf32_example :
    let str = string_convert_utf32 20 (0x41 ∷ 0x20AC ∷ 0x42 ∷ []) in
    (string_glyphs str ≡ 3)
    × (string_glyph str (length (encode_all (0x41 ∷ []))) ≡ (0x20AC, length (encode_utf8 0x20AC)))
unfolding encode_utf8
string_glyph-convert_utf32_example =
    string_glyph-convert_utf32 20 (0x41 ∷ []) 0x20AC (0x42 ∷ [])
      (plain_cons (omega arith) (omega arith)
        (plain_cons (omega arith) (omega arith) (plain_cons (omega arith) (omega arith) plain_nil)))
      (omega arith)
