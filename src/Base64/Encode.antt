-- ===== src/Base64/Encode.antt =====
-- What `base64_encode` writes.
use foundation_lib.Prelude.{
  ℕ, zero, suc, ◌+◌, ◌-◌, ◌*◌, ◌/◌, ◌≤◌, min, ◌≡◌, refl, ap, ◌∙◌, inl, inr, false, List, [], ◌∷◌,
  arith, ltb, ◌==◌, if◌then◌else◌, ltb→lt, Bool-cases, length, take, length-take,
}
use foundation_lib.Base64.{encode_all, encode}

-- Four characters for every three bytes, the last ones padded, and the zero.
abbrev pub encoded_length : ℕ → ℕ
encoded_length n = (n + 2) / 3 * 4 + 1

pub length-encode_all : (s : List ℕ) → length (encode_all s) ≡ encoded_length (length s)
unfolding encode_all
length-encode_all [] = refl
length-encode_all (a ∷ []) = refl
length-encode_all (a ∷ b ∷ []) = refl
length-encode_all (a ∷ b ∷ c ∷ rest) = omega (arith, length-encode_all rest)

-- An encoding takes four characters for every three bytes begun and one for the zero, of as many bytes
-- as there is room for in groups of three, and so never more than `capacity` characters.
pub length-encode :
    (s : List ℕ) (capacity : ℕ)
    → (length (encode s capacity)
        ≡ (if capacity == 0 then 0 else encoded_length (min (length s) ((capacity - 1) / 4 * 3))))
      × (length (encode s capacity) ≤ capacity)
unfolding encode
length-encode s zero = ground arith
length-encode s (suc room) =
    let most = room / 4 * 3 in
    let pos : (suc room == 0) ≡ false = ground arith in
    let back : suc room - 1 ≡ room = omega arith in
    elim (Bool-cases (ltb most (length s))) [
      | inl cut ↦
          let lt = ltb→lt most (length s) cut in
          let n : min (length s) most ≡ most = omega arith in
          let l = length-encode_all (take most s) in
          let t' : length (take most s) ≡ most = omega (arith, length-take most s) in
          rw (cut, back, n, pos) (l ∙ ap encoded_length t', omega (arith, l, t'))
      | inr whole ↦
          let le : length s ≤ most = ground arith in
          let n : min (length s) most ≡ length s = omega arith in
          let l = length-encode_all s in rw (whole, back, n, pos) (l, omega (arith, l))
    ]
