-- ===== src/Blowfish/Words.antt =====
-- `_blowfish_encrypt_words` and `_blowfish_decrypt_words` of foundation/blowfish.c, one after the other.
use Prim.Native.Nat.{bit_xor}
use foundation_lib.Prelude.{ℕ, ◌≡◌, refl, sym, ap, ap₂, ◌∙◌, List, [], ◌∷◌, ◌++◌}
use foundation_lib.Prelude.Xor.{bit_xor-bit_xor}
use foundation_lib.Blowfish.{
  Blowfish, Pair, xor_pair, subkey, feistel, round, rounds, forward, backward, encrypt_words,
  decrypt_words,
}

swap_pair : Pair → Pair
swap_pair (x, y) = (y, x)

-- The indices in the opposite order.
back : List ℕ → List ℕ
back [] = []
back (i ∷ is) = back is ++ (i ∷ [])

backward_lem : back forward ≡ backward
unfolding back
backward_lem = refl

rounds-append :
    (b : Blowfish) (is js : List ℕ) (words : Pair)
    → rounds b (is ++ js) words ≡ rounds b js (rounds b is words)
unfolding rounds
rounds-append b [] js words = refl
rounds-append b (i ∷ is) js words = rounds-append b is js (round b i words)

round_twice :
    (b : Blowfish) (i : ℕ) (words : Pair)
    → round b i (swap_pair (round b i words)) ≡ swap_pair words
unfolding swap_pair
round_twice b i (l, h) = ap (λ x. (x, l)) (bit_xor-bit_xor h (bit_xor (feistel b l) (subkey b i)))

rounds-back :
    (b : Blowfish) (is : List ℕ) (words : Pair)
    → rounds b (back is) (swap_pair (rounds b is words)) ≡ swap_pair words
unfolding rounds back
rounds-back b [] words = refl
rounds-back b (i ∷ is) words =
    rounds-append b (back is) (i ∷ []) (swap_pair (rounds b is (round b i words)))
    ∙ ap (round b i) (rounds-back b is (round b i words))
    ∙ round_twice b i words

-- Decryption of two words gives back what was encrypted.
pub decrypt_words-encrypt_words :
    (b : Blowfish) (words : Pair) → decrypt_words b (encrypt_words b words) ≡ words
unfolding decrypt_words encrypt_words swap_pair
decrypt_words-encrypt_words b (l, h) =
    let first : Pair = (bit_xor l (subkey b 0), h) in
    let mid : Pair = rounds b forward first in
    let undone : rounds b backward (swap_pair mid) ≡ swap_pair first =
      ap (λ is. rounds b is (swap_pair mid)) (sym backward_lem) ∙ rounds-back b forward first in
    ap (λ x. let (l', h') = rounds b backward (x, mid.0) in (bit_xor h' (subkey b 0), l'))
      (bit_xor-bit_xor mid.1 (subkey b 17))
    ∙ ap (λ p. let (l', h') = p in (bit_xor h' (subkey b 0), l')) undone
    ∙ ap (λ x. (x, h)) (bit_xor-bit_xor l (subkey b 0))

pub xor_pair-xor_pair : (x y : Pair) → xor_pair (xor_pair x y) y ≡ x
xor_pair-xor_pair (x, y) (x', y') =
    ap₂ (λ a b. (a, b)) (bit_xor-bit_xor x x') (bit_xor-bit_xor y y')
