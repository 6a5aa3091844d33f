-- ===== src/Utf8/Convert.antt =====
-- `string_convert_utf32`, and reads of the string that it makes.
use foundation_lib.Prelude.{
  ℕ, suc, ◌+◌, ◌-◌, ◌^◌, ◌<◌, ◌≡◌, refl, sym, ap, ◌∙◌, ◌≢◌, true, false, ◌&&◌, ◌||◌, List, [], ◌∷◌,
  ◌++◌, append_assoc, append-nil, arith, ltb, leb, ◌==◌, lt→ltb, length, length-append, drop,
  drop-append_ge,
}
use foundation_lib.Utf8.{
  encode_utf8, get_num_bytes_as_utf8, add_glyph, convert_utf32_from, string_convert_utf32,
  string_glyph, string_glyphs, count_glyphs, string_convert_utf16,
}
use foundation_lib.Utf8.Glyph.{length-encode_utf8, read_glyph-encode_utf8, count_glyphs-encode_utf8}

-- Code points of 31 bits that are no byte order marks.
pub data Plain : List ℕ → Type 0 where
  plain_nil : Plain []
  plain_cons : {c : ℕ} {cs : List ℕ} → c < 2 ^ 31 → c ≢ 0xFEFF → Plain cs → Plain (c ∷ cs)

-- The characters of code points, one after the other.
abbrev pub encode_all : List ℕ → List ℕ
encode_all [] = []
encode_all (c ∷ cs) = encode_utf8 c ++ encode_all cs

add_glyph-room :
    (capacity c : ℕ) (dst : List ℕ)
    → c < 2 ^ 31
    → length dst + length (encode_utf8 c) < capacity
    → add_glyph capacity c dst ≡ dst ++ encode_utf8 c
unfolding add_glyph
add_glyph-room capacity c dst small room =
    let fits : length dst + get_num_bytes_as_utf8 c < capacity =
      omega (arith, length-encode_utf8 c small) in
    rw (lt→ltb (length dst + get_num_bytes_as_utf8 c) capacity fits) refl

convert-encode :
    (capacity : ℕ) (cs dst : List ℕ)
    → Plain cs
    → length dst + length (encode_all cs) < capacity
    → convert_utf32_from capacity false cs dst ≡ dst ++ encode_all cs
unfolding convert_utf32_from
convert-encode capacity [] dst p room = sym (append-nil dst)
convert-encode capacity (c ∷ cs) dst (plain_cons small unmarked p) room =
    let split = length-append (encode_utf8 c) (encode_all cs) in
    let here : length dst + length (encode_utf8 c) < capacity = omega (arith, split) in
    let added = add_glyph-room capacity c dst small here in
    let room' : length (dst ++ encode_utf8 c) + length (encode_all cs) < capacity =
      omega (arith, split, length-append dst (encode_utf8 c)) in
    let rest = convert-encode capacity cs (dst ++ encode_utf8 c) p room' in
    let none_marks : (c == 0xFEFF || c == 0xFFFE0000) ≡ false = ground arith in
    let starts : ltb (length dst) capacity ≡ true = lt→ltb (length dst) capacity (omega arith) in
    rw (none_marks, starts, added) (rest ∙ append_assoc dst (encode_utf8 c) (encode_all cs))

count-encode_all : (cs : List ℕ) → Plain cs → count_glyphs 0 (encode_all cs) ≡ length cs
unfolding count_glyphs
count-encode_all [] p = refl
count-encode_all (c ∷ cs) (plain_cons small unmarked p) =
    count_glyphs-encode_utf8 c (encode_all cs) small ∙ ap suc (count-encode_all cs p)

encode_all-append : (xs ys : List ℕ) → encode_all (xs ++ ys) ≡ encode_all xs ++ encode_all ys
encode_all-append [] ys = refl
encode_all-append (x ∷ xs) ys =
    ap (λ s. encode_utf8 x ++ s) (encode_all-append xs ys)
    ∙ sym (append_assoc (encode_utf8 x) (encode_all xs) (encode_all ys))

Plain-middle : (xs : List ℕ) (c : ℕ) (ys : List ℕ) → Plain (xs ++ (c ∷ ys)) → c < 2 ^ 31
Plain-middle [] c ys (plain_cons small unmarked p) = small
Plain-middle (x ∷ xs) c ys (plain_cons small unmarked p) = Plain-middle xs c ys p

-- `string_convert_utf32` of code points below 2 ^ 31 without byte order marks, with room for their bytes
-- and a zero, makes a string in which `string_glyphs` counts the code points, and in which `string_glyph`
-- reads each of them, with its number of bytes, at the offset that the bytes of those before it give.
pub string_glyph-convert_utf32 :
    (capacity : ℕ) (before : List ℕ) (c : ℕ) (after : List ℕ)
    → Plain (before ++ (c ∷ after))
    → length (encode_all (before ++ (c ∷ after))) < capacity
    → let str = string_convert_utf32 capacity (before ++ (c ∷ after)) in
      (string_glyphs str ≡ length (before ++ (c ∷ after)))
      × (string_glyph str (length (encode_all before)) ≡ (c, length (encode_utf8 c)))
unfolding string_convert_utf32 string_glyphs string_glyph
string_glyph-convert_utf32 capacity before c after p room =
    let start = encode_all before in
    let small = Plain-middle before c after p in
    let none_left : length start - length start ≡ 0 = omega arith in
    let behind : drop (length start) (encode_all (before ++ (c ∷ after)))
        ≡ encode_utf8 c ++ encode_all after =
      rw
        (
          encode_all-append before (c ∷ after),
          drop-append_ge (length start) start (encode_all (c ∷ after)) (omega arith),
        )
        (ap (λ k. drop k (encode_all (c ∷ after))) none_left) in
    rw (convert-encode capacity (before ++ (c ∷ after)) [] p (omega arith)) (
      count-encode_all (before ++ (c ∷ after)) p,
      rw (behind, length-encode_utf8 c small) (read_glyph-encode_utf8 c (encode_all after) small),
    )

-- `string_convert_utf16` of a unit below the surrogates.
pub convert_utf16-one :
    (capacity c : ℕ)
    → c < 0xD800
    → length (encode_utf8 c) < capacity
    → string_convert_utf16 capacity (c ∷ []) ≡ encode_utf8 c
unfolding string_convert_utf16
convert_utf16-one capacity c small room =
    let starts : ltb 0 capacity ≡ true = lt→ltb 0 capacity (omega arith) in
    let no_mark : (c == 0xFFFE || c == 0xFEFF) ≡ false = ground arith in
    let single : (leb 0xD800 c && leb c 0xDFFF) ≡ false = ground arith in
    rw (starts, no_mark, single) (add_glyph-room capacity c [] (omega arith) (omega arith))
