-- ===== src/Json/Escape/RoundTrip.antt =====
-- `json_unescape` of what `json_escape` writes.
use foundation_lib.Prelude.{
  ℕ, suc, ◌+◌, ◌-◌, ◌*◌, ◌/◌, ◌%◌, ◌^◌, ◌≤◌, ◌<◌, ◌≡◌, refl, sym, ap, ◌∙◌, inl, inr, true, false,
  none, some, List, [], ◌∷◌, ◌++◌, append_assoc, append-nil, arith, ltb, leb, ◌==◌, lt→ltb, ==_iff,
  Bool-cases, Option-cases, length, length-append, if_true, if_false,
}
use foundation_lib.Prelude.Bits.{all_below, all_below-true}
use foundation_lib.Utf8.{encode_utf8}
use foundation_lib.Json.Escape.{
  put_all, short_escape, hex_char, is_control, escaped, escaped_by, escape_from, json_escape,
  string_to_uint, unescaped, unescape_from, json_unescape,
}
use foundation_lib.Utf8.Convert.{encode_all, convert_utf16-one}
use foundation_lib.Utf8.Glyph.{encode_utf8-short}

put_all-room :
    (capacity : ℕ) (buffer cs : List ℕ)
    → length buffer + length cs ≤ capacity
    → put_all capacity buffer cs ≡ buffer ++ cs
put_all-room capacity buffer [] room = sym (append-nil buffer)
put_all-room capacity buffer (c ∷ cs) room =
    let starts : ltb (length buffer) capacity ≡ true =
      lt→ltb (length buffer) capacity (omega arith) in
    rw starts (
      put_all-room capacity (buffer ++ (c ∷ [])) cs (omega (arith, length-append buffer (c ∷ [])))
      ∙ append_assoc buffer (c ∷ []) cs)

escaped-short : (c letter : ℕ) → short_escape c ≡ some letter → escaped c ≡ b'\\' ∷ letter ∷ []
unfolding escaped
escaped-short c letter e = ap (λ o. escaped_by o c) e

escaped-control :
    (c : ℕ)
    → short_escape c ≡ none
    → is_control c ≡ true
    → escaped c ≡ b'\\' ∷ b'u' ∷ b'0' ∷ b'0' ∷ hex_char (c / 16 % 16) ∷ hex_char (c % 16) ∷ []
unfolding escaped
escaped-control c e k = ap (λ o. escaped_by o c) e ∙ if_true (c ∷ []) k

escaped-plain : (c : ℕ) → short_escape c ≡ none → is_control c ≡ false → escaped c ≡ c ∷ []
unfolding escaped
escaped-plain c e k =
    ap (λ o. escaped_by o c) e
    ∙ if_false (b'\\' ∷ b'u' ∷ b'0' ∷ b'0' ∷ hex_char (c / 16 % 16) ∷ hex_char (c % 16) ∷ []) k

length-escaped : (c : ℕ) → (0 < length (escaped c)) × (length (escaped c) ≤ 6)
length-escaped c = elim (Option-cases (short_escape c)) [
  | inl e ↦ elim (Bool-cases (is_control c)) [
    | inl k ↦ rw (escaped-control c e k) (omega arith, omega arith)
    | inr k ↦ rw (escaped-plain c e k) (omega arith, omega arith)
  ]
  | inr (l, e) ↦ rw (escaped-short c l e) (omega arith, omega arith)
]

-- The escapes of a string.
abbrev all_escaped : List ℕ → List ℕ
all_escaped [] = []
all_escaped (c ∷ s) = escaped c ++ all_escaped s

length-all_escaped : (s : List ℕ) → length (all_escaped s) ≤ 6 * length s
length-all_escaped [] = omega arith
length-all_escaped (c ∷ s) =
    omega
      (arith, length-all_escaped s, (length-escaped c).1, length-append (escaped c) (all_escaped s))

escape-all :
    (capacity : ℕ) (s buffer : List ℕ)
    → length buffer + length (all_escaped s) ≤ capacity
    → escape_from capacity s buffer ≡ buffer ++ all_escaped s
unfolding escape_from
escape-all capacity [] buffer room = sym (append-nil buffer)
escape-all capacity (c ∷ s) buffer room =
    let split = length-append (escaped c) (all_escaped s) in
    let starts : ltb (length buffer) capacity ≡ true =
      lt→ltb (length buffer) capacity (omega (arith, split, (length-escaped c).0)) in
    let here = put_all-room capacity buffer (escaped c) (omega (arith, split)) in
    let room' : length (buffer ++ escaped c) + length (all_escaped s) ≤ capacity =
      omega (arith, split, length-append buffer (escaped c)) in
    rw (starts, here)
      (escape-all capacity s (buffer ++ escaped c) room'
        ∙ append_assoc buffer (escaped c) (all_escaped s))

short-unescaped :
    (room c letter : ℕ) (s : List ℕ)
    → short_escape c ≡ some letter
    → (unescaped room b'\\' (letter ∷ s) ≡ (c ∷ [], 1)) × (c < 128)
unfolding short_escape unescaped
short-unescaped room c letter s e = ground arith

hex_table :
    all_below 256 (λ c.
      string_to_uint (b'0' ∷ b'0' ∷ hex_char (c / 16 % 16) ∷ hex_char (c % 16) ∷ []) % 2 ^ 16 == c)
    ≡ true
unfolding all_below string_to_uint hex_char
hex_table = refl

control-unescaped :
    (room c : ℕ) (s : List ℕ)
    → c < 256
    → length (encode_utf8 c) < room
    → unescaped room b'\\' (b'u' ∷ b'0' ∷ b'0' ∷ hex_char (c / 16 % 16) ∷ hex_char (c % 16) ∷ s)
      ≡ (encode_utf8 c, 5)
unfolding unescaped
control-unescaped room c s byte fits =
    let read : string_to_uint (b'0' ∷ b'0' ∷ hex_char (c / 16 % 16) ∷ hex_char (c % 16) ∷ [])
          % 2 ^ 16
        ≡ c =
      (==_iff _ _).0 (all_below-true 256 _ c hex_table byte) in
    let four : leb 4 (suc (suc (suc (suc (length s))))) ≡ true = ground arith in
    rw (four, read, convert_utf16-one room c (omega arith) fits) refl

plain-unescaped :
    (room c : ℕ) (s : List ℕ) → short_escape c ≡ none → unescaped room c s ≡ (c ∷ [], 0)
unfolding short_escape unescaped
plain-unescaped room c [] e = refl
plain-unescaped room c (d ∷ s) e = let other : (c == b'\\') ≡ false = ground arith in rw other refl

-- A character's escape is read as the character's UTF-8.
unescape-escaped :
    (capacity c : ℕ) (s buffer : List ℕ)
    → c < 256
    → length buffer + length (encode_utf8 c) < capacity
    → unescape_from capacity 0 (escaped c ++ s) buffer
      ≡ unescape_from capacity 0 s (buffer ++ encode_utf8 c)
unfolding unescape_from
unescape-escaped capacity c s buffer byte room =
    let starts : ltb (length buffer) capacity ≡ true =
      lt→ltb (length buffer) capacity (omega arith) in
    elim (Option-cases (short_escape c)) [
      | inr (letter, e) ↦
          let (read, ascii) = short-unescaped (capacity - length buffer) c letter s e in
          rw (escaped-short c letter e, starts, read, encode_utf8-short c ascii) refl
      | inl e ↦ elim (Bool-cases (is_control c)) [
        | inl k ↦
            rw
              (
                escaped-control c e k,
                starts,
                control-unescaped (capacity - length buffer) c s byte (omega arith),
              )
              refl
        | inr k ↦
            rw
              (
                escaped-plain c e k,
                starts,
                plain-unescaped (capacity - length buffer) c s e,
                encode_utf8-short c (ground arith),
              )
              refl
      ]
    ]

-- Bytes.
pub data Bytes : List ℕ → Type 0 where
  no_bytes : Bytes []
  more_bytes : {c : ℕ} {s : List ℕ} → c < 256 → Bytes s → Bytes (c ∷ s)

unescape-all :
    (capacity : ℕ) (s buffer : List ℕ)
    → Bytes s
    → length buffer + length (encode_all s) < capacity
    → unescape_from capacity 0 (all_escaped s) buffer ≡ buffer ++ encode_all s
unfolding unescape_from
unescape-all capacity [] buffer b room = sym (append-nil buffer)
unescape-all capacity (c ∷ s) buffer (more_bytes byte b) room =
    let split = length-append (encode_utf8 c) (encode_all s) in
    unescape-escaped capacity c (all_escaped s) buffer byte (omega (arith, split))
    ∙ unescape-all capacity s (buffer ++ encode_utf8 c) b
        (omega (arith, split, length-append buffer (encode_utf8 c)))
    ∙ append_assoc buffer (encode_utf8 c) (encode_all s)

-- `json_unescape` of what `json_escape` makes of a string of bytes is the UTF-8 of the code points that the
-- bytes are, if there is room for six bytes for each byte in the one call, and for the result and a zero in
-- the other.
pub json_unescape-json_escape :
    (capacity room : ℕ) (s : List ℕ)
    → Bytes s
    → 6 * length s ≤ room
    → length (encode_all s) < capacity
    → json_unescape capacity (json_escape room s) ≡ encode_all s
unfolding json_escape json_unescape
json_unescape-json_escape capacity room s b large fits =
    rw (escape-all room s [] (omega (arith, length-all_escaped s)))
      (unescape-all capacity s [] b (omega arith))
