-- ===== src/HashMap/Operations.antt =====
-- The operations of a map against a finite map.
use foundation_lib.Prelude.{
  if_true, if_false, ℕ, ◌+◌, ◌-◌, ◌%◌, ◌^◌, ◌≤◌, ◌<◌, ◌≡◌, refl, sym, ap, ap₂, ◌∙◌, inl, inr, Bool,
  true, false, Option, none, some, List, [], ◌∷◌, ◌++◌, map, append-nil, arith, ℕ_discrete, ltb,
  ◌==◌, if◌then◌else◌, ==_iff, Option-cases, length, length-append, length-set, get_or, drop,
  replicate, length-replicate, length-map, drop_all, get_or-replicate, add64, sub64, set,
}
use foundation_lib.HashMap.{
  array_clear, Node, HashMap, no_node, bucket_of, get_bucket, with_bucket, find_node, array_erase,
  insert, erase, lookup, has_key, size, initialize, clear, allocate, min_buckets,
}
use foundation_lib.HashMap.Arrays.{values, values-append, array_erase-values, length-array_erase}
use foundation_lib.HashMap.Nodes.{first, find_node-none, find_node-some, set-values}
use foundation_lib.HashMap.Buckets.{
  bucket_le, get_or-emptied, total-emptied, total-replicate, IsValid, look, total-set, Changes,
  Changes-look, Changes-unique, home-lt,
}

-- A null pointer for no value.
abbrev pub or_null : Option ℕ → ℕ
or_null none = 0
or_null (some v) = v

abbrev pub is_some : Option ℕ → Bool
is_some none = false
is_some (some v) = true

-- `hashmap_lookup` returns the value of a key, or null, and `hashmap_has_key` tells whether it has one.
pub lookup-look :
    (m : HashMap) (key : ℕ)
    → (lookup m key ≡ or_null (look m key)) × (has_key m key ≡ is_some (look m key))
unfolding lookup has_key
lookup-look m key = elim (Option-cases (find_node (bucket_of m key) key)) [
  | inl e ↦ rw (e, lookup, has_key, find_node-none (bucket_of m key) key e) (refl, refl)
  | inr (i, e) ↦
      let (_, _, head) = find_node-some (bucket_of m key) key i e in
      rw (e, lookup, has_key, head) (refl, refl)
]

node_only :
    (key value k : ℕ)
    → values k (record { key = key; value = value } ∷ []) ≡ (if key == k then value ∷ [] else [])
unfolding values
node_only key value k = refl

-- A new node.
push-Changes :
    {m : HashMap} {key : ℕ} (value : ℕ)
    → find_node (bucket_of m key) key ≡ none
    → Changes m key (bucket_of m key ++ (record { key = key; value = value } ∷ [])) (value ∷ [])
push-Changes {m} {key} value e =
    let old = bucket_of m key in
    let new : Node = record { key = key; value = value } in
    record {
      short = omega arith;
      here =
          values-append key old (new ∷ [])
          ∙ ap₂ ◌++◌ (find_node-none old key e)
              (node_only key value key ∙ if_true [] ((==_iff key key).1 refl));
      others = λ k ne.
          let t : (key == k) ≡ false = ground arith in
          values-append k old (new ∷ [])
          ∙ ap (λ l. values k old ++ l) (node_only key value k ∙ if_false (value ∷ []) t)
          ∙ append-nil (values k old);
    }

-- A new value in a node.
set-Changes :
    {m : HashMap} {key : ℕ} (value i : ℕ)
    → IsValid m
    → find_node (bucket_of m key) key ≡ some i
    → let nodes = bucket_of m key in
      Changes m key (set nodes i (record (get_or nodes i no_node) { value = value })) (value ∷ [])
set-Changes {m} {key} value i v e =
    let old = bucket_of m key in
    let one : drop 1 (values key old) ≡ [] =
      drop_all 1 (values key old) (v.unique (get_bucket m key) key) in
    record {
      short = omega arith;
      here =
          set-values old key value i key e
          ∙ if_true (values key old) ((==_iff key key).1 refl)
          ∙ ap (λ l. value ∷ l) one;
      others = λ k ne.
          let t : (k == key) ≡ false = ground arith in
          set-values old key value i k e ∙ if_false (value ∷ drop 1 (values key old)) t;
    }

erase-Changes :
    {m : HashMap} {key : ℕ} (i : ℕ)
    → IsValid m
    → find_node (bucket_of m key) key ≡ some i
    → Changes m key (array_erase (bucket_of m key) i) []
erase-Changes {m} {key} i v e =
    let old = bucket_of m key in
    let node = get_or old i no_node in
    let left = array_erase old i in
    let (lt, same, _) = find_node-some old key i e in
    let moved = λ (k : ℕ). array_erase-values k old i lt (v.unique (get_bucket m key) k) in
    let split : (k : ℕ) → values k old ≡ values k (node ∷ []) ++ values k left =
      λ k. moved k ∙ values-append k (node ∷ []) left in
    record {
      short = omega arith;
      here =
          let t : (node.key == key) ≡ true = (==_iff node.key key).1 same in
          let both : values key old ≡ node.value ∷ values key left =
            split key
            ∙ ap (λ l. l ++ values key left) (node_only node.key node.value key ∙ if_true [] t) in
          drop_all 0 (values key left)
            (omega (arith, ap length both, v.unique (get_bucket m key) key));
      others = λ k ne.
          let t : (node.key == k) ≡ false = ground arith in
          sym (
            split k
            ∙ ap (λ l. l ++ values k left)
                (node_only node.key node.value k ∙ if_false (node.value ∷ []) t));
    }

-- A change of a bucket, with the count of its nodes kept right.
change-IsValid :
    {m : HashMap} {key : ℕ} {nodes : List Node} {vs : List ℕ} (n : ℕ)
    → IsValid m
    → Changes m key nodes vs
    → n + length (bucket_of m key) ≡ m.num_nodes + length nodes
    → n < 2 ^ 64
    → IsValid (record (with_bucket m (get_bucket m key) nodes) { num_nodes = n })
change-IsValid {m} {key} {nodes} n v c e lt = record {
  some_buckets = v.some_buckets;
  sized = length-set m.bucket (get_bucket m key) nodes ∙ v.sized;
  unique = Changes-unique v c;
  counted = omega (arith, v.counted, total-set m.bucket (get_bucket m key) nodes (home-lt key v));
  small = lt;
}

-- `hashmap_insert` on a valid map gives the key its value, leaves the other keys, and returns the value
-- that was there, or null; it counts a key that is new. The number of nodes stays below 2 ^ 64.
pub insert-look :
    (key value k : ℕ) {m : HashMap}
    → IsValid m
    → m.num_nodes + 1 < 2 ^ 64
    → let (prev, m') = insert m key value in
      IsValid m'
      × (prev ≡ or_null (look m key))
      × (look m' k ≡ (if k == key then some value else look m k))
      × (size m' ≡ (if has_key m key then size m else size m + 1))
unfolding insert has_key size
insert-look key value k {m} v room = elim (Option-cases (find_node (bucket_of m key) key)) [
  | inl e ↦
      let c = push-Changes value e in
      rw (e, insert, has_key, size)
        (
          change-IsValid (add64 m.num_nodes 1) v c
              (omega
                (arith, length-append (bucket_of m key) (record { key = key; value = value } ∷ [])))
              (omega arith),
          ap or_null (sym (ap first (find_node-none (bucket_of m key) key e))),
          Changes-look k v c,
          omega arith,
        )
  | inr (i, e) ↦
      let c = set-Changes value i v e in
      let (_, _, head) = find_node-some (bucket_of m key) key i e in
      rw (e, insert, has_key, size)
        (
          change-IsValid m.num_nodes v c
              (omega (
                arith,
                length-set (bucket_of m key) i
                    (record (get_or (bucket_of m key) i no_node) { value = value }),
              ))
              v.small,
          ap or_null (sym head),
          Changes-look k v c,
          refl,
        )
]

-- `hashmap_erase` on a valid map takes the value of a key away, leaves the other keys, and returns the
-- value that was there, or null; the count goes down by a key that was there.
pub erase-look :
    (key k : ℕ) {m : HashMap}
    → IsValid m
    → let (prev, m') = erase m key in
      IsValid m'
      × (prev ≡ or_null (look m key))
      × (look m' k ≡ (if k == key then none else look m k))
      × (size m' ≡ (if has_key m key then size m - 1 else size m))
unfolding erase has_key size
erase-look key k {m} v = elim (Option-cases (find_node (bucket_of m key) key)) [
  | inl e ↦
      let empty = ap first (find_node-none (bucket_of m key) key e) in
      rw (e, erase, has_key, size)
        (
          v,
          ap or_null (sym empty),
          elim (ℕ_discrete k key) [
            | yes p ↦ let t : (k == key) ≡ true = (==_iff k key).1 p in rw (t, p) empty
            | no np ↦ let t : (k == key) ≡ false = ground arith in rw t refl
          ],
          refl,
        )
  | inr (i, e) ↦
      let c = erase-Changes i v e in
      let (lt, _, head) = find_node-some (bucket_of m key) key i e in
      let some_nodes : 1 ≤ m.num_nodes =
        omega (arith, v.counted, bucket_le m.bucket (get_bucket m key)) in
      let less : sub64 m.num_nodes 1 ≡ m.num_nodes - 1 = omega (arith, v.small) in
      rw (e, erase, has_key, size)
        (
          change-IsValid (sub64 m.num_nodes 1) v c
              (omega (arith, length-array_erase (bucket_of m key) i)) (omega (arith, v.small)),
          ap or_null (sym head),
          Changes-look k v c,
          less,
        )
]

-- `hashmap_clear` of a valid map leaves a valid map where no key has a value, and counts none.
pub clear-look :
    (k : ℕ) {m : HashMap}
    → IsValid m
    → IsValid (clear m) × (look (clear m) k ≡ none) × (size (clear m) ≡ 0)
unfolding clear size values
clear-look k {m} v =
    let here : (j k : ℕ) → values k (get_or (map array_clear m.bucket) j []) ≡ [] =
      λ j k. ap (values k) (get_or-emptied m.bucket j) in
    (
      record {
        some_buckets = v.some_buckets;
        sized = length-map m.bucket array_clear ∙ v.sized;
        unique = λ j k. omega (arith, ap length (here j k));
        counted = sym (total-emptied m.bucket);
        small = omega arith;
      },
      ap first (here (get_bucket m k) k),
      refl,
    )

-- `hashmap_allocate` makes a valid map where no key has a value, whatever the number of buckets that is
-- asked for.
pub allocate-look :
    (buckets k : ℕ) → IsValid (allocate buckets) × (look (allocate buckets) k ≡ none)
unfolding allocate initialize values
allocate-look buckets k =
    let n = if ltb buckets min_buckets then min_buckets else buckets in
    let here : (j k : ℕ) → values k (get_or (replicate n []) j []) ≡ [] =
      λ j k. ap (values k) (get_or-replicate n j (array_clear [])) in
    (
      record {
        some_buckets = ground arith;
        sized = length-replicate n [];
        unique = λ j k. omega (arith, ap length (here j k));
        counted = sym (total-replicate n);
        small = omega arith;
      },
      ap first (here (k % n) k),
    )
