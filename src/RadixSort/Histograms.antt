-- ===== src/RadixSort/Histograms.antt =====
-- The histograms of foundation/radixsort.c: how often each byte of a pass occurs.
use foundation_lib.Prelude.{
  ℕ, zero, suc, ◌+◌, ◌/◌, ◌^◌, ◌≤◌, ◌<◌, ◌≡◌, refl, sym, ap, ◌∙◌, List, [], ◌∷◌, arith, ℕ_discrete,
  length, length-set, get_or, replicate, length-replicate, get_or-set_self, get_or-set_ne, set,
}
use foundation_lib.RadixSort.{byte, increment, count_value, count_values, indices_from}
use foundation_lib.RadixSort.Buckets.{bucket, bucket-hit, bucket-miss}

pub byte-lt : (p v : ℕ) → byte p v < 256
unfolding byte
byte-lt zero v = omega arith
byte-lt (suc p) v = byte-lt p (v / 256)

-- How many of some values have a byte.
abbrev pub occurs : (p b : ℕ) → List ℕ → ℕ
occurs p b vs = length (bucket (byte p) b vs)

abbrev pub cell : List (List ℕ) → (p b : ℕ) → ℕ
cell hs p b = get_or (get_or hs p []) b 0

-- Histograms of `n` passes.
pub record Sized (n : ℕ) (hs : List (List ℕ)) : Type 0 where
  pub passes : length hs ≡ n
  pub rows : (p : ℕ) → p < n → length (get_or hs p []) ≡ 256

abbrev bump : List ℕ → ℕ → List ℕ
bump h b = set h b (increment (get_or h b 0))

count_value-row :
    (hs : List (List ℕ)) (v p : ℕ)
    → p < length hs
    → get_or (count_value hs v) p [] ≡ bump (get_or hs p []) (byte p v)
unfolding count_value byte
count_value-row [] v p lt = absurd (omega arith)
count_value-row (h ∷ hs) v zero lt = refl
count_value-row (h ∷ hs) v (suc p) lt = count_value-row hs (v / 256) p (omega arith)

length-count_value : (hs : List (List ℕ)) (v : ℕ) → length (count_value hs v) ≡ length hs
unfolding count_value
length-count_value [] v = refl
length-count_value (h ∷ hs) v = ap suc (length-count_value hs (v / 256))

pub count_value-Sized :
    {n : ℕ} {hs : List (List ℕ)} (v : ℕ) → Sized n hs → Sized n (count_value hs v)
count_value-Sized {n} {hs} v s = record {
  passes = length-count_value hs v ∙ s.passes;
  rows = λ p lt.
      ap length (count_value-row hs v p (omega (arith, s.passes)))
      ∙ length-set (get_or hs p []) (byte p v) (increment (get_or (get_or hs p []) (byte p v) 0))
      ∙ s.rows p lt;
}

-- One value more.
pub count_value-cell :
    {n : ℕ} {hs : List (List ℕ)} (v p b : ℕ)
    → Sized n hs
    → p < n
    → b < 256
    → cell hs p b + 1 < 2 ^ 16
    → cell (count_value hs v) p b ≡ cell hs p b + occurs p b (v ∷ [])
count_value-cell {n} {hs} v p b s lt lt' few =
    let row = get_or hs p [] in
    let c = byte p v in
    let e = count_value-row hs v p (omega (arith, s.passes)) in
    elim (ℕ_discrete c b) [
      | yes q ↦
          ap (λ h. get_or h b 0) e
          ∙ ap (λ i. get_or (bump row i) b 0) q
          ∙ get_or-set_self row b (increment (get_or row b 0)) 0 (omega (arith, s.rows p lt))
          ∙ omega (arith, ap length (bucket-hit (byte p) [] q))
      | no nq ↦
          ap (λ h. get_or h b 0) e
          ∙ get_or-set_ne row c b (increment (get_or row c 0)) 0 nq
          ∙ omega (arith, ap length (bucket-miss (byte p) [] nq))
    ]

pub occurs-cons :
    (p b v : ℕ) (vs : List ℕ) → occurs p b (v ∷ vs) ≡ occurs p b (v ∷ []) + occurs p b vs
occurs-cons p b v vs = elim (ℕ_discrete (byte p v) b) [
  | yes q ↦
      omega (arith, ap length (bucket-hit (byte p) vs q), ap length (bucket-hit (byte p) [] q))
  | no nq ↦
      omega (arith, ap length (bucket-miss (byte p) vs nq), ap length (bucket-miss (byte p) [] nq))
]

pub occurs-le : (p b : ℕ) (vs : List ℕ) → occurs p b vs ≤ length vs
occurs-le p b [] = omega arith
occurs-le p b (v ∷ vs) = elim (ℕ_discrete (byte p v) b) [
  | yes q ↦ omega (arith, ap length (bucket-hit (byte p) vs q), occurs-le p b vs)
  | no nq ↦ omega (arith, ap length (bucket-miss (byte p) vs nq), occurs-le p b vs)
]

pub count_values-Sized :
    {n : ℕ} (loop : List ℕ) {hs : List (List ℕ)} → Sized n hs → Sized n (count_values hs loop)
unfolding count_values
count_values-Sized [] s = s
count_values-Sized (v ∷ loop) s = count_values-Sized loop (count_value-Sized v s)

-- The loop without checks counts what is left.
pub count_values-cell :
    {n : ℕ} (p b : ℕ) (loop : List ℕ) {hs : List (List ℕ)}
    → Sized n hs
    → p < n
    → b < 256
    → cell hs p b + length loop < 2 ^ 16
    → cell (count_values hs loop) p b ≡ cell hs p b + occurs p b loop
unfolding count_values
count_values-cell p b [] s lt lt' few = omega arith
count_values-cell p b (v ∷ loop) s lt lt' few =
    let now = count_value-cell v p b s lt lt' (omega arith) in
    omega (
      arith,
      now,
      occurs-cons p b v loop,
      count_values-cell p b loop (count_value-Sized v s) lt lt'
          (omega (arith, now, occurs-le p b (v ∷ []))),
    )

pub get_or-replicate_lt {ℓ} :
    {A : Type ℓ} (n i : ℕ) (v d : A) → i < n → get_or (replicate n v) i d ≡ v
get_or-replicate_lt zero i v d lt = absurd (omega arith)
get_or-replicate_lt (suc n) zero v d lt = refl
get_or-replicate_lt (suc n) (suc i) v d lt = get_or-replicate_lt n i v d (omega arith)

pub no_counts-Sized : (n : ℕ) → Sized n (replicate n (replicate 256 0))
no_counts-Sized n = record {
  passes = length-replicate n (replicate 256 0);
  rows = λ p lt. ap length (get_or-replicate_lt n p (replicate 256 0) [] lt);
}

-- The indices of the items, counted by the byte of their value.
pub indices_from-bucket :
    (f g : ℕ → ℕ) (b i : ℕ) (vs : List ℕ)
    → ((j : ℕ) → j < length vs → f (i + j) ≡ g (get_or vs j 0))
    → length (bucket f b (indices_from i (length vs))) ≡ length (bucket g b vs)
indices_from-bucket f g b i [] h = refl
indices_from-bucket f g b i (v ∷ vs) h =
    let e : f i ≡ g v = ap f (omega arith) ∙ h 0 (omega arith) in
    let rest =
      indices_from-bucket f g b (i + 1) vs (λ j lt.
        let e' : i + 1 + j ≡ i + suc j = omega arith in ap f e' ∙ h (suc j) (omega arith)) in
    let more = indices_from (i + 1) (length vs) in
    elim (ℕ_discrete (g v) b) [
      | yes q ↦
          ap length (bucket-hit f more (e ∙ q)) ∙ ap suc rest ∙ sym (ap length (bucket-hit g vs q))
      | no nq ↦
          ap length (bucket-miss f more (λ q. nq (sym e ∙ q)))
          ∙ rest
          ∙ sym (ap length (bucket-miss g vs nq))
    ]
