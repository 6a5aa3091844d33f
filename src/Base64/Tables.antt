-- ===== src/Base64/Tables.antt =====
-- The two tables of foundation/base64.c.
use Prim.Native.String.{String}
use Prim.Native.Char.{code}
use foundation_lib.Prelude.{ℕ, List, [], ◌∷◌, ◌++◌, replicate}

abbrev pub codes : String → List ℕ
codes String.[] = []
codes (String.◌∷◌ c s) = code c ∷ codes s

-- `_base64_encode`.
abbrev pub encode_table : List ℕ
encode_table = codes "ABCDEFGHIJKLMNOPQRSTUVWXYZabcdefghijklmnopqrstuvwxyz0123456789+/"

-- `_base64_decode`, from the character 43 on.
abbrev pub decode_table : List ℕ
decode_table =
    codes "|"
    ++ (replicate 3 0
        ++ (codes "}rstuvwxyz{"
            ++ (replicate 7 0
                ++ (codes ">?@ABCDEFGHIJKLMNOPQRSTUVW"
                    ++ (replicate 6 0 ++ codes "XYZ[\\]^_`abcdefghijklmnopq")))))
