-- ===== src/Blowfish/Schedule.antt =====
-- The tables that `blowfish_initialize` of foundation/blowfish.c makes.
use foundation_lib.Prelude.{
  ℕ, zero, suc, ◌+◌, ◌≡◌, refl, ap, ◌∙◌, List, [], ◌∷◌, map, leb, if◌then◌else◌, length, length-set,
  get_or, set,
}
use foundation_lib.Blowfish.{
  Blowfish, Pair, encrypt_words, mix_key, put_pair, fill_subkeys, fill_box, fill_boxes, initialize,
}
use foundation_lib.Blowfish.Tables.{parray_init, sbox0_init, sbox1_init, sbox2_init, sbox3_init}

-- The lengths of the tables.
abbrev pub sizes : Blowfish → ℕ × List ℕ
sizes b = (length b.parray, map (length {A = ℕ}) b.sboxes)

length-put_pair : (words : List ℕ) (i : ℕ) (p : Pair) → length (put_pair words i p) ≡ length words
length-put_pair words i (x, y) = length-set (set words i x) (i + 1) y ∙ length-set words i x

length-mix_key :
    (key : List ℕ) (capped_length ikey : ℕ) (ps : List ℕ)
    → length (mix_key key capped_length ikey ps) ≡ length ps
unfolding mix_key
length-mix_key key capped_length ikey [] = refl
length-mix_key key capped_length ikey (p ∷ ps) =
    ap suc (length-mix_key key capped_length (ikey + 4) ps)

fill_subkeys-sizes :
    (n isub : ℕ) (b : Blowfish) (words : Pair) → sizes (fill_subkeys n isub b words).0 ≡ sizes b
unfolding fill_subkeys
fill_subkeys-sizes zero isub b words = refl
fill_subkeys-sizes (suc n) isub b words =
    let words' = encrypt_words b words in
    fill_subkeys-sizes n (isub + 2) (record b { parray = put_pair b.parray isub words' }) words'
    ∙ ap (λ n. (n, map (length {A = ℕ}) b.sboxes)) (length-put_pair b.parray isub words')

map-set :
    (boxes : List (List ℕ)) (i : ℕ) (box : List ℕ)
    → length box ≡ length (get_or boxes i [])
    → map (length {A = ℕ}) (set boxes i box) ≡ map (length {A = ℕ}) boxes
map-set [] i box e = refl
map-set (x ∷ xs) zero box e = ap (λ n. n ∷ map (length {A = ℕ}) xs) e
map-set (x ∷ xs) (suc i) box e = ap (λ l. length x ∷ l) (map-set xs i box e)

fill_box-sizes :
    (n ibox ientry : ℕ) (b : Blowfish) (words : Pair)
    → sizes (fill_box n ibox ientry b words).0 ≡ sizes b
unfolding fill_box
fill_box-sizes zero ibox ientry b words = refl
fill_box-sizes (suc n) ibox ientry b words =
    let words' = encrypt_words b words in
    let box = put_pair (get_or b.sboxes ibox []) ientry words' in
    fill_box-sizes n ibox (ientry + 2) (record b { sboxes = set b.sboxes ibox box }) words'
    ∙ ap (λ l. (length b.parray, l))
        (map-set b.sboxes ibox box (length-put_pair (get_or b.sboxes ibox []) ientry words'))

fill_boxes-sizes :
    (n ibox : ℕ) (b : Blowfish) (words : Pair) → sizes (fill_boxes n ibox b words).0 ≡ sizes b
unfolding fill_boxes
fill_boxes-sizes zero ibox b words = refl
fill_boxes-sizes (suc n) ibox b words =
    let (b', words') = fill_box 128 ibox 0 b words in
    fill_boxes-sizes n (ibox + 1) b' words' ∙ fill_box-sizes 128 ibox 0 b words

-- `blowfish_initialize` makes 18 subkeys and four boxes of 256 entries, whatever the key.
pub initialize-sizes :
    (key : List ℕ) (size : ℕ) → sizes (initialize key size) ≡ (18, 256 ∷ 256 ∷ 256 ∷ 256 ∷ [])
unfolding initialize
initialize-sizes key size =
    let capped_length = if leb size 56 then size else 56 in
    let b : Blowfish = record {
      parray = mix_key key capped_length 0 parray_init;
      sboxes = sbox0_init ∷ sbox1_init ∷ sbox2_init ∷ sbox3_init ∷ [];
    } in
    let (b', words) = fill_subkeys 9 0 b (0, 0) in
    fill_boxes-sizes 4 0 b' words
    ∙ fill_subkeys-sizes 9 0 b (0, 0)
    ∙ ap (λ n. (n, 256 ∷ 256 ∷ 256 ∷ 256 ∷ [])) (length-mix_key key capped_length 0 parray_init)
