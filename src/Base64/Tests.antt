-- ===== src/Base64/Tests.antt =====
-- The examples of RFC 4648, and the theorems at inputs.
use foundation_lib.Prelude.{ℕ, ◌≤◌, ◌≡◌, refl, some, List, [], ◌∷◌, ◌++◌, arith, length}
use foundation_lib.Base64.Tables.{codes}
use foundation_lib.Base64.{encode, decode}
use foundation_lib.Base64.Encode.{length-encode}
use foundation_lib.Base64.RoundTrip.{decode-encode}
use foundation_lib.Base64.Decode.{decode_total, decode-valid, valid}

encode_foobar : encode (codes "foobar") 9 ≡ codes "Zm9vYmFy" ++ (0 ∷ [])
unfolding encode
encode_foobar = refl

encode_fo : encode (codes "fo") 5 ≡ codes "Zm8=" ++ (0 ∷ [])
unfolding encode
encode_fo = refl

-- Eight characters hold three bytes and the zero, and no more.
encode_cut : encode (codes "foobar") 8 ≡ codes "Zm9v" ++ (0 ∷ [])
unfolding encode
encode_cut = refl

decode_lines : decode 9 (codes "Zm9v Ym-E=") 20 ≡ some (codes "fooba")
unfolding decode
decode_lines = refl

length-encode_example : (length (encode (codes "fo") 5) ≡ 5) × (length (encode (codes "fo") 5) ≤ 5)
length-encode_example = length-encode (codes "fo") 5

decode-encode_example : decode 7 (encode (codes "foobar") 9) 6 ≡ some (codes "foobar")
decode-encode_example =
    decode-encode (codes "foobar") 9 6 7 (omega arith) (omega arith) (omega arith) (omega arith)
      (omega arith)

decode_total_example :
    (out : List ℕ) × (decode 8 (codes "Zm9vYmFy") 4 ≡ some out) × (length out ≤ 4)
decode_total_example = decode_total 8 4 (codes "Zm9vYmFy") (omega arith)

decode-valid_example : decode 4 (codes "Z=m9") 4 ≡ decode 4 (valid (codes "Z=m9")) 4
decode-valid_example = decode-valid 4 4 (codes "Z=m9") (omega arith)
