-- ===== src/Utf8.antt =====
-- foundation/string.c: UTF-8. A string is the list of its bytes, a glyph a code point of 32 bits. No shift
-- here leaves 32 bits, as a character has five trailing bytes at most.
pub mod Lead
pub mod Glyph
pub mod Convert
mod Tests
use foundation_lib.Prelude.{
  ℕ, zero, suc, ◌+◌, ◌-◌, ◌*◌, ◌/◌, ◌%◌, ◌^◌, Bool, false, not, ◌&&◌, ◌||◌, Option, none, some,
  List, [], ◌∷◌, ◌++◌, ltb, leb, ◌==◌, if◌then◌else◌, length, drop,
}
use Prim.Native.Nat.{bit_and, bit_or}

-- `get_bit_mask`.
abbrev pub get_bit_mask : ℕ → ℕ
get_bit_mask bits = 2 ^ bits - 1

-- The number of bytes of a character, by its first byte.
pub get_num_bytes_utf8 : ℕ → ℕ
get_num_bytes_utf8 lead =
    if bit_and lead 0xFE == 0xFC
    then 6
    else if bit_and lead 0xFC == 0xF8
    then 5
    else if bit_and lead 0xF8 == 0xF0
    then 4
    else if bit_and lead 0xF0 == 0xE0
    then 3
    else if bit_and lead 0xE0 == 0xC0
    then 2
    else 1

-- The number of bytes that a code point takes.
pub get_num_bytes_as_utf8 : ℕ → ℕ
get_num_bytes_as_utf8 val =
    if leb 0x04000000 val
    then 6
    else if leb 0x00200000 val
    then 5
    else if leb 0x00010000 val
    then 4
    else if leb 0x00000800 val
    then 3
    else if leb 0x00000080 val
    then 2
    else 1

-- The first of `num + 1` bytes.
pub lead_byte : (num val : ℕ) → ℕ
lead_byte num val =
    bit_or (bit_or 0x80 (get_bit_mask num * 2 ^ (7 - num))) (val / 2 ^ (6 * num) % 2 ^ (6 - num))
    % 2 ^ 8

-- The `num` bytes behind the first.
pub trail_bytes : (num val : ℕ) → List ℕ
trail_bytes zero val = []
trail_bytes (suc num) val = bit_or 0x80 (val / 2 ^ (6 * num) % 2 ^ 6) ∷ trail_bytes num val

-- `encode_utf8`.
unfoldable pub encode_utf8 : ℕ → List ℕ
unfolding lead_byte trail_bytes get_num_bytes_as_utf8
encode_utf8 val =
    let num = get_num_bytes_as_utf8 val - 1 in
    if ltb val 0x80 then val ∷ [] else lead_byte num val ∷ trail_bytes num val

-- The bytes behind the first, `num` of them at most: the glyph, and how many there were.
pub read_trail : (num glyph : ℕ) → List ℕ → ℕ × ℕ
read_trail zero glyph s = (glyph, 0)
read_trail (suc num) glyph [] = (glyph, 0)
read_trail (suc num) glyph (ext ∷ s) =
    let (all, n) = read_trail num (bit_or glyph (ext % 2 ^ 6 * 2 ^ (6 * num))) s in (all, n + 1)

-- The glyph at the start of a string, and the bytes consumed.
pub read_glyph : List ℕ → ℕ × ℕ
unfolding read_trail get_num_bytes_utf8
read_glyph [] = (0, 0)
read_glyph (c ∷ s) =
    let num = get_num_bytes_utf8 c - 1 in
    let (glyph, n) = read_trail num (c % 2 ^ (6 - num) * 2 ^ (6 * num)) s in
    if bit_and c 0x80 == 0 then (c, 1) else (glyph, n + 1)

-- `string_glyph`.
pub string_glyph : List ℕ → (offset : ℕ) → ℕ × ℕ
unfolding read_glyph
string_glyph str offset = read_glyph (drop offset str)

-- The loop of `string_glyphs`; `skip` bytes belong to the character before.
pub count_glyphs : (skip : ℕ) → List ℕ → ℕ
unfolding get_num_bytes_utf8
count_glyphs skip [] = 0
count_glyphs (suc skip) (c ∷ s) = count_glyphs skip s
count_glyphs zero (c ∷ s) = suc (count_glyphs (get_num_bytes_utf8 c - 1) s)

-- `string_glyphs`.
pub string_glyphs : List ℕ → ℕ
unfolding count_glyphs
string_glyphs str = count_glyphs 0 str

-- A glyph is added if there is room for it and for what ends the string.
pub add_glyph : (capacity glyph : ℕ) → List ℕ → List ℕ
unfolding get_num_bytes_as_utf8 encode_utf8
add_glyph capacity glyph dst =
    if ltb (length dst + get_num_bytes_as_utf8 glyph) capacity
    then dst ++ encode_utf8 glyph
    else dst

-- `byteorder_swap16` and `byteorder_swap32`.
pub byteorder_swap16 : ℕ → ℕ
byteorder_swap16 v = v % 2 ^ 8 * 2 ^ 8 + v / 2 ^ 8

pub byteorder_swap32 : ℕ → ℕ
byteorder_swap32 v =
    v % 2 ^ 8 * 2 ^ 24 + v / 2 ^ 8 % 2 ^ 8 * 2 ^ 16 + v / 2 ^ 16 % 2 ^ 8 * 2 ^ 8 + v / 2 ^ 24

-- The loop of `string_convert_utf32`.
pub convert_utf32_from : (capacity : ℕ) (swap : Bool) → List ℕ → (dst : List ℕ) → List ℕ
unfolding add_glyph byteorder_swap32
convert_utf32_from capacity swap [] dst = dst
convert_utf32_from capacity swap (glyph ∷ src) dst =
    let mark = glyph == 0x0000FEFF || glyph == 0xFFFE0000 in
    let glyph' = if swap then byteorder_swap32 glyph else glyph in
    let rest =
      convert_utf32_from capacity (if mark then not (glyph == 0x0000FEFF) else swap) src
        (if mark then dst else add_glyph capacity glyph' dst) in
    if ltb (length dst) capacity then rest else dst

-- `string_convert_utf32`: the string, without the zero that ends it.
pub string_convert_utf32 : (capacity : ℕ) (src : List ℕ) → List ℕ
unfolding convert_utf32_from
string_convert_utf32 capacity src = convert_utf32_from capacity false src []

-- A surrogate pair.
pub join_surrogates : (glyph lval : ℕ) → ℕ
join_surrogates glyph lval = bit_or (glyph % 2 ^ 10 * 2 ^ 10) (lval % 2 ^ 10) + 0x10000

-- The loop of `string_convert_utf16`; `high` is the first of a surrogate pair.
pub convert_utf16_from :
    (capacity : ℕ) (swap : Bool) (high : Option ℕ) → List ℕ → (dst : List ℕ) → List ℕ
unfolding add_glyph byteorder_swap16 join_surrogates
convert_utf16_from capacity swap high [] dst = dst
convert_utf16_from capacity swap (some glyph) (lval ∷ src) dst =
    let lval' = if swap then byteorder_swap16 lval else lval in
    convert_utf16_from capacity swap none src (add_glyph capacity (join_surrogates glyph lval') dst)
convert_utf16_from capacity swap none (glyph ∷ src) dst =
    let mark = glyph == 0xFFFE || glyph == 0xFEFF in
    let glyph' = if swap then byteorder_swap16 glyph else glyph in
    let surrogate = leb 0xD800 glyph' && leb glyph' 0xDFFF in
    let rest =
      convert_utf16_from capacity (if mark then not (glyph == 0xFEFF) else swap)
        (if mark || not surrogate then none else some glyph') src
        (if mark || surrogate then dst else add_glyph capacity glyph' dst) in
    if ltb (length dst) capacity then rest else dst

-- `string_convert_utf16`: the string, without the zero that ends it.
unfoldable pub string_convert_utf16 : (capacity : ℕ) (src : List ℕ) → List ℕ
unfolding convert_utf16_from
string_convert_utf16 capacity src = convert_utf16_from capacity false none src []
