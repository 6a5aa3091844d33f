-- ===== src/HashMap/Buckets.antt =====
-- The invariant of a map, what a key maps to, and the change of one bucket.
use mathlib.Core.Path.{subst}
use native.Mathlib.Nat.{mod-lt}
use foundation_lib.Prelude.{
  ℕ, zero, suc, ◌+◌, ◌%◌, ◌^◌, ◌≤◌, ◌<◌, ◌≡◌, refl, sym, ap, ◌∙◌, ◌≢◌, true, false, Option, List,
  [], ◌∷◌, map, arith, ℕ_discrete, ◌==◌, if◌then◌else◌, ==_iff, length, get_or, replicate,
  get_or-set_self, get_or-set_ne, set,
}
use foundation_lib.HashMap.{array_clear, Node, HashMap, bucket_of, get_bucket, with_bucket}
use foundation_lib.HashMap.Arrays.{values}
use foundation_lib.HashMap.Nodes.{first}

-- The number of nodes in all buckets.
unfoldable pub total : List (List Node) → ℕ
total [] = 0
total (nodes ∷ bs) = length nodes + total bs

-- No bucket holds two nodes with one key, and the nodes are counted.
pub record IsValid (m : HashMap) : Type 0 where
  pub some_buckets : 0 < m.num_buckets
  pub sized : length m.bucket ≡ m.num_buckets
  pub unique : (j k : ℕ) → length (values k (get_or m.bucket j [])) ≤ 1
  pub counted : m.num_nodes ≡ total m.bucket
  pub small : m.num_nodes < 2 ^ 64

-- What a key maps to.
abbrev pub look : HashMap → ℕ → Option ℕ
look m key = first (values key (bucket_of m key))

pub total-set :
    (bs : List (List Node)) (i : ℕ) (nodes : List Node)
    → i < length bs
    → total (set bs i nodes) + length (get_or bs i []) ≡ total bs + length nodes
unfolding total
total-set [] i nodes h = absurd (omega arith)
total-set (b ∷ bs) zero nodes h = omega arith
total-set (b ∷ bs) (suc i) nodes h = omega (arith, total-set bs i nodes (omega arith))

pub bucket_le : (bs : List (List Node)) (i : ℕ) → length (get_or bs i []) ≤ total bs
unfolding total
bucket_le [] i = omega arith
bucket_le (b ∷ bs) zero = omega arith
bucket_le (b ∷ bs) (suc i) = omega (arith, bucket_le bs i)

pub home-lt : {m : HashMap} (key : ℕ) → IsValid m → get_bucket m key < length m.bucket
home-lt {m} key v =
    let n = v.sized in
    let h : key % m.num_buckets < m.num_buckets = mod-lt key v.some_buckets in omega arith

-- The nodes of the bucket of a key are exchanged for nodes with the values `vs` under the key and the
-- same values under the others.
pub record Changes (m : HashMap) (key : ℕ) (nodes : List Node) (vs : List ℕ) : Type 0 where
  pub short : length vs ≤ 1
  pub here : values key nodes ≡ vs
  pub others : (k : ℕ) → k ≢ key → values k nodes ≡ values k (bucket_of m key)

pub Changes-look :
    {m : HashMap} {key : ℕ} {nodes : List Node} {vs : List ℕ} (k : ℕ)
    → IsValid m
    → Changes m key nodes vs
    → look (with_bucket m (get_bucket m key) nodes) k ≡ (if k == key then first vs else look m k)
Changes-look {m} {key} {nodes} {vs} k v c = elim (ℕ_discrete (get_bucket m k) (get_bucket m key)) [
  | yes p ↦
      let i = get_bucket m key in
      let now : get_or (set m.bucket i nodes) (get_bucket m k) [] ≡ nodes =
        ap (λ j. get_or (set m.bucket i nodes) j []) p
        ∙ get_or-set_self m.bucket i nodes [] (home-lt key v) in
      ap (λ l. first (values k l)) now ∙ elim (ℕ_discrete k key) [
        | yes e ↦
            let t : (k == key) ≡ true = (==_iff k key).1 e in
            rw t (ap first (ap (λ k. values k nodes) e ∙ c.here))
        | no ne ↦
            let t : (k == key) ≡ false = ground arith in
            rw t (ap first (c.others k ne ∙ ap (λ j. values k (get_or m.bucket j [])) (sym p)))
      ]
  | no np ↦
      let t : (k == key) ≡ false = elim (ℕ_discrete k key) [
        | yes e ↦ absurd (np (ap (get_bucket m) e))
        | no ne ↦ ground arith
      ] in
      rw t (
        ap (λ l. first (values k l))
          (get_or-set_ne m.bucket (get_bucket m key) (get_bucket m k) nodes [] (λ e. np (sym e))))
]

pub Changes-unique :
    {m : HashMap} {key : ℕ} {nodes : List Node} {vs : List ℕ}
    → IsValid m
    → Changes m key nodes vs
    → (j k : ℕ) → length (values k (get_or (set m.bucket (get_bucket m key) nodes) j [])) ≤ 1
Changes-unique {m} {key} {nodes} {vs} v c j k = elim (ℕ_discrete (get_bucket m key) j) [
  | yes p ↦
      let now = get_or-set_self m.bucket (get_bucket m key) nodes [] (home-lt key v) in
      subst (λ j. length (values k (get_or (set m.bucket (get_bucket m key) nodes) j [])) ≤ 1) p
        (subst (λ l. length (values k l) ≤ 1) (sym now)
          (elim (ℕ_discrete k key) [
            | yes e ↦
                let h = c.short in omega (arith, ap length (ap (λ k. values k nodes) e ∙ c.here))
            | no ne ↦
                let h = v.unique (get_bucket m key) k in omega (arith, ap length (c.others k ne))
          ]))
  | no np ↦
      subst (λ l. length (values k l) ≤ 1)
        (sym (get_or-set_ne m.bucket (get_bucket m key) j nodes [] np)) (v.unique j k)
]

-- Empty buckets.
pub get_or-emptied : (bs : List (List Node)) (j : ℕ) → get_or (map array_clear bs) j [] ≡ []
get_or-emptied [] j = refl
get_or-emptied (b ∷ bs) zero = refl
get_or-emptied (b ∷ bs) (suc j) = get_or-emptied bs j

pub total-emptied : (bs : List (List Node)) → total (map array_clear bs) ≡ 0
unfolding total
total-emptied [] = refl
total-emptied (b ∷ bs) = omega (arith, total-emptied bs)

pub total-replicate : (n : ℕ) → total (replicate n []) ≡ 0
unfolding total
total-replicate zero = refl
total-replicate (suc n) = omega (arith, total-replicate n)
