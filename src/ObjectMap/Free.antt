-- ===== src/ObjectMap/Free.antt =====
-- The list of free slots, and the invariant of a map.
use Prim.{tt}
use Prim.Native.Nat.{bit_or}
use native.Mathlib.Nat.{pow-le-pow_right, mod-eq_of_lt, mul-add-mod_self_right}
use foundation_lib.Prelude.{
  ℕ, ◌+◌, ◌-◌, ◌*◌, ◌/◌, ◌%◌, ◌^◌, ◌≤◌, ◌<◌, ◌≡◌, ap, ◌∙◌, ◌≢◌, true, List, [], ◌∷◌, map, arith,
  length, get_or, length-replicate, get_or-set_ne, get_or-replicate, set, Bool, not, ◌&&◌, ◌⊎◌, ltb,
}
use foundation_lib.Prelude.Pow.{two_pow-pos, two_pow-add, or-shift}
use foundation_lib.ObjectMap.{ObjectMap, initialize, index, is_free, slot, tagged}

-- From `start` on, free slots below `autolink` lead through `indices` to `autolink`.
unfoldable pub Links : (map : List ℕ) → (index_bits autolink start : ℕ) → List ℕ → Type 0
Links map bits autolink start [] = start ≡ autolink
Links map bits autolink start (i ∷ is) =
    (start ≡ i)
    × (i < autolink)
    × (is_free (get_or map i 0) ≡ true)
    × Links map bits autolink (get_or map i 0 / 2 % 2 ^ 32 % 2 ^ bits) is

abbrev pub NotIn : ℕ → List ℕ → Type 0
NotIn i [] = Unit
NotIn i (j ∷ js) = (i ≢ j) × NotIn i js

abbrev pub Distinct : List ℕ → Type 0
Distinct [] = Unit
Distinct (i ∷ is) = NotIn i is × Distinct is

abbrev pub IsIn : ℕ → List ℕ → Type 0
IsIn i [] = ⊥
IsIn i (j ∷ js) = (i ≡ j) ⊎ IsIn i js

-- Whether a slot is in use: it was given out, and not freed since.
abbrev pub is_used : ObjectMap → ℕ → Bool
is_used m i = ltb i m.autolink && not (is_free (slot m i))

-- Every index fits the bits for it, the list of free slots holds each slot that was freed, once, and the
-- slots that were never given out are clear.
pub record IsValid (m : ObjectMap) : Type 0 where
  pub bits : m.index_bits ≤ 26
  pub narrow : m.size < 2 ^ m.index_bits
  pub sized : length m.map ≡ m.size
  pub linked : m.autolink ≤ m.size
  pub free_slots : List ℕ
  pub links : Links m.map m.index_bits m.autolink (index m m.free) free_slots
  pub distinct : Distinct free_slots
  pub complete : (i : ℕ) → i < m.autolink → is_free (slot m i) ≡ true → IsIn i free_slots
  pub unused : (i : ℕ) → m.autolink ≤ i → slot m i ≡ 0

-- A slot that is not in the list may change.
pub Links-set :
    (map : List ℕ) (bits autolink start i v : ℕ) (is : List ℕ)
    → NotIn i is
    → Links map bits autolink start is
    → Links (set map i v) bits autolink start is
unfolding Links
Links-set map bits autolink start i v [] n l = l
Links-set map bits autolink start i v (j ∷ js) n l =
    let same = get_or-set_ne map i j v 0 n.0 in
    let rest =
      Links-set map bits autolink (get_or map j 0 / 2 % 2 ^ 32 % 2 ^ bits) i v js n.1 l.3 in
    rw same (l.0, l.1, l.2, rest)

fits : {a b c : ℕ} → a < b → b ≤ c → a < c
fits p q = omega arith

-- The tag stands above the index.
pub tagged-index :
    (m : ObjectMap) (tag x : ℕ)
    → m.index_bits ≤ 32
    → tag < 2 ^ (32 - m.index_bits)
    → x < 2 ^ m.index_bits
    → (tagged m tag x ≡ tag * 2 ^ m.index_bits + x) × (index m (tagged m tag x) ≡ x)
tagged-index m tag x le t h =
    let p = 2 ^ m.index_bits in
    let sum : 32 ≡ 32 - m.index_bits + m.index_bits = omega arith in
    let power : 2 ^ 32 ≡ 2 ^ (32 - m.index_bits) * p =
      ap (λ n. 2 ^ n) sum ∙ two_pow-add (32 - m.index_bits) m.index_bits in
    let pos = two_pow-pos m.index_bits in
    let less : tag * p < 2 ^ (32 - m.index_bits) * p = grind arith in
    let top : 2 ^ (32 - m.index_bits) * p ≤ 2 ^ 32 = omega arith in
    let whole : tag * p % 2 ^ 32 ≡ tag * p = mod-eq_of_lt (fits less top) in
    let e : tagged m tag x ≡ tag * p + x =
      ap (λ t. bit_or t x) whole ∙ or-shift m.index_bits tag x h in
    (e, ap (λ t. t % p) e ∙ mul-add-mod_self_right tag p x ∙ mod-eq_of_lt h)

-- A new map whose size fits the bits of its index, with a bit to spare.
pub map-IsValid : (bits size : ℕ) → bits ≤ 26 → size < 2 ^ bits → IsValid (initialize bits size)
unfolding initialize Links
map-IsValid bits size le lt =
    let top : 2 ^ bits ≤ 2 ^ 26 = pow-le-pow_right (omega arith) le in
    let whole : size % 2 ^ 32 ≡ size = omega arith in
    let nothing : ℕ = 0 in
    let zero_index : 0 % 2 ^ bits ≡ 0 = mod-eq_of_lt (two_pow-pos bits) in
    record {
      bits = le;
      narrow = omega arith;
      sized = omega (arith, length-replicate size nothing);
      linked = omega arith;
      free_slots = [];
      links = zero_index;
      distinct = tt;
      complete = λ i lt free. absurd (omega arith);
      unused = λ i le. get_or-replicate size i 0;
    }
