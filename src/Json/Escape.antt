-- ===== src/Json/Escape.antt =====
-- foundation/json.c: `json_escape` and `json_unescape`, and string_to_uint of foundation/string.c with the
-- `%x` of `sscanf`. A string is the list of its bytes; a byte of 128 and more is a negative `char`.
pub mod RoundTrip
mod Tests
use foundation_lib.Prelude.{
  ℕ, zero, suc, ◌+◌, ◌-◌, ◌*◌, ◌/◌, ◌%◌, ◌^◌, Bool, not, ◌&&◌, ◌||◌, Option, none, some, List, [],
  ◌∷◌, ◌++◌, ltb, leb, ◌==◌, if◌then◌else◌, length, take,
}
use foundation_lib.Utf8.{string_convert_utf16}

-- A byte is written unless the buffer is full.
abbrev pub put : (capacity : ℕ) → List ℕ → (c : ℕ) → List ℕ
put capacity buffer c = if ltb (length buffer) capacity then buffer ++ (c ∷ []) else buffer

pub hex_char : ℕ → ℕ
hex_char val = if ltb val 10 then b'0' + val else if ltb val 16 then b'a' + (val - 10) else b'0'

-- The letter behind the backslash of a character that has one.
pub short_escape : ℕ → Option ℕ
short_escape c =
    if c == b'"' || c == b'\\'
    then some c
    else if c == 8
    then some b'b'
    else if c == 12
    then some b'f'
    else if c == b'\r'
    then some b'r'
    else if c == b'\n'
    then some b'n'
    else if c == b'\t'
    then some b't'
    else none

-- `c < 0x20`, where `c` is signed.
abbrev pub is_control : ℕ → Bool
is_control c = ltb c 0x20 || leb 0x80 c

-- What stands for a character, by the letter that it has.
abbrev pub escaped_by : (letter : Option ℕ) → ℕ → List ℕ
escaped_by (some letter) c = b'\\' ∷ letter ∷ []
escaped_by none c =
    if is_control c
    then b'\\' ∷ b'u' ∷ b'0' ∷ b'0' ∷ hex_char (c / 16 % 16) ∷ hex_char (c % 16) ∷ []
    else c ∷ []

pub escaped : ℕ → List ℕ
unfolding short_escape hex_char
escaped c = escaped_by (short_escape c) c

abbrev pub put_all : (capacity : ℕ) → List ℕ → (cs : List ℕ) → List ℕ
put_all capacity buffer [] = buffer
put_all capacity buffer (c ∷ cs) = put_all capacity (put capacity buffer c) cs

-- The loop of `json_escape`.
pub escape_from : (capacity : ℕ) (string buffer : List ℕ) → List ℕ
unfolding escaped
escape_from capacity [] buffer = buffer
escape_from capacity (c ∷ string) buffer =
    let rest = escape_from capacity string (put_all capacity buffer (escaped c)) in
    if ltb (length buffer) capacity then rest else buffer

pub json_escape : (capacity : ℕ) (string : List ℕ) → List ℕ
unfolding escape_from
json_escape capacity string = escape_from capacity string []

-- `isspace`, which `sscanf` passes over.
abbrev pub is_space : ℕ → Bool
is_space c = leb 9 c && leb c 13 || c == b' '

abbrev pub hex_value : ℕ → Option ℕ
hex_value c =
    if leb b'0' c && leb c b'9'
    then some (c - b'0')
    else if leb b'a' c && leb c b'f'
    then some (c - b'a' + 10)
    else if leb b'A' c && leb c b'F'
    then some (c - b'A' + 10)
    else none

pub scan_digits : List ℕ → (value : ℕ) → ℕ
scan_digits [] value = value
scan_digits (c ∷ s) value = elim (hex_value c) [
  | none ↦ value
  | some d ↦ scan_digits s (value * 16 + d)
]

-- `0x` may come first.
pub scan_prefix : List ℕ → ℕ
unfolding scan_digits
scan_prefix [] = 0
scan_prefix (c ∷ []) = scan_digits (c ∷ []) 0
scan_prefix (c ∷ x ∷ s) =
    if c == b'0' && (x == b'x' || x == b'X') then scan_digits s 0 else scan_digits (c ∷ x ∷ s) 0

-- `sscanf` with `%x`, 0 if there is no number.
pub scan_hex : List ℕ → ℕ
unfolding scan_prefix
scan_hex [] = 0
scan_hex (c ∷ s) =
    let rest = scan_hex s in
    if is_space c
    then rest
    else if c == b'-'
    then (2 ^ 32 - scan_prefix s) % 2 ^ 32
    else if c == b'+'
    then scan_prefix s
    else scan_prefix (c ∷ s)

-- `string_to_uint` of hexadecimal digits.
pub string_to_uint : List ℕ → ℕ
unfolding scan_hex
string_to_uint val = scan_hex (take 15 val)

-- What a character and those behind it stand for in `room` bytes, and how many of those behind it belong
-- to it.
pub unescaped : (room : ℕ) → ℕ → List ℕ → List ℕ × ℕ
unfolding string_convert_utf16 string_to_uint
unescaped room c [] = (c ∷ [], 0)
unescaped room c (d ∷ s) =
    if not (c == b'\\')
    then (c ∷ [], 0)
    else if d == b'"' || d == b'/' || d == b'\\'
    then (d ∷ [], 1)
    else if d == b'b'
    then (8 ∷ [], 1)
    else if d == b'f'
    then (12 ∷ [], 1)
    else if d == b'r'
    then (b'\r' ∷ [], 1)
    else if d == b'n'
    then (b'\n' ∷ [], 1)
    else if d == b't'
    then (b'\t' ∷ [], 1)
    else if d == b'u' && leb 4 (length s)
    then (string_convert_utf16 room (string_to_uint (take 4 s) % 2 ^ 16 ∷ []), 5)
    else ([], 1)

-- The loop of `json_unescape`; `skip` characters belong to the one before.
pub unescape_from : (capacity skip : ℕ) (string buffer : List ℕ) → List ℕ
unfolding unescaped
unescape_from capacity skip [] buffer = buffer
unescape_from capacity (suc skip) (c ∷ string) buffer = unescape_from capacity skip string buffer
unescape_from capacity zero (c ∷ string) buffer =
    let (shown, skip) = unescaped (capacity - length buffer) c string in
    let rest = unescape_from capacity skip string (buffer ++ shown) in
    if ltb (length buffer) capacity then rest else buffer

pub json_unescape : (capacity : ℕ) (string : List ℕ) → List ℕ
unfolding unescape_from
json_unescape capacity string = unescape_from capacity 0 string []
