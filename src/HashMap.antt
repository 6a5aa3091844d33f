-- ===== src/HashMap.antt =====
-- foundation/hashmap.c. A bucket is an array of nodes (foundation/array.h), a list here; the growth of
-- an array is not part of it.
pub mod Arrays
pub mod Nodes
pub mod Buckets
pub mod Operations
mod Tests
use foundation_lib.Prelude.{
  ℕ, zero, suc, ◌+◌, ◌-◌, ◌*◌, ◌/◌, ◌%◌, ◌^◌, ◌≤◌, ◌<◌, min, max, ◌≡◌, refl, sym, ap, ap₂, ◌∙◌, ◌≢◌,
  ◌↔◌, ◌⊎◌, inl, inr, Bool, true, false, not, ◌&&◌, ◌||◌, Option, none, some, List, [], ◌∷◌, ◌++◌,
  map, append_assoc, append-nil, arith, dec_lt, ℕ_discrete, ltb, leb, ◌==◌, if◌then◌else◌, ltb→lt,
  lt→ltb, leb→le, ==_iff, tests, Bool-cases, Option-cases, length, get_elem?, length-append,
  length-set, get_elem?-set_self, get_elem?-set_ne, get_or, take, drop, replicate, take-append-drop,
  length-take, length-drop, length-replicate, length-map, slice, overwrite, length-overwrite,
  take-append_le, take-append_ge, drop-append_le, drop-append_ge, take_all, drop_all, drop-nil,
  take-nil, drop-drop, take-take, drop-take, take-add, take-overwrite, drop-overwrite_end,
  drop-overwrite_ge, drop-overwrite_le, slice-overwrite, take-eq_nil, take-overwrite-max,
  overwrite-nil, drop-overwrite_self, get_or-set_self, get_or-set_ne, get_or-replicate,
  take-set_end, add64, sub64, add32, sub32, set,
}

-- `hashmap_node_t`; a value is a pointer, and 0 is null.
pub record Node : Type 0 where
  pub key : ℕ
  pub value : ℕ

abbrev pub no_node : Node
no_node = record { key = 0; value = 0 }

-- `hashmap_t`.
pub record HashMap : Type 0 where
  pub num_buckets : ℕ
  pub num_nodes : ℕ
  pub bucket : List (List Node)

-- `array_erase`: the last element takes the place of the one that goes.
pub array_erase : List Node → ℕ → List Node
array_erase array i =
    take (length array - 1) (set array i (get_or array (length array - 1) no_node))

-- `array_clear`.
abbrev pub array_clear : List Node → List Node
array_clear array = []

-- `hashmap_initialize`.
pub initialize : (buckets : ℕ) → HashMap
initialize buckets = record { num_buckets = buckets; num_nodes = 0; bucket = replicate buckets [] }

-- `HASHMAP_MINBUCKETS`, and the test for it in `hashmap_allocate`.
abbrev pub min_buckets : ℕ
min_buckets = 13

-- `hashmap_allocate`.
pub allocate : (buckets : ℕ) → HashMap
unfolding initialize
allocate buckets = initialize (if ltb buckets min_buckets then min_buckets else buckets)

-- `GET_BUCKET`, and the bucket there.
abbrev pub get_bucket : HashMap → ℕ → ℕ
get_bucket map key = key % map.num_buckets

abbrev pub bucket_of : HashMap → ℕ → List Node
bucket_of map key = get_or map.bucket (get_bucket map key) []

abbrev pub next_node : Option ℕ → Option ℕ
next_node none = none
next_node (some inode) = some (suc inode)

-- The loop over `inode` of the operations: the first node with the key.
pub find_node : List Node → ℕ → Option ℕ
find_node [] key = none
find_node (node ∷ bucket) key =
    let rest = find_node bucket key in if node.key == key then some 0 else next_node rest

-- A bucket is exchanged.
abbrev pub with_bucket : HashMap → ℕ → List Node → HashMap
with_bucket map i nodes = record map { bucket = set map.bucket i nodes }

-- `hashmap_insert`: the value that was there, or null.
pub insert : HashMap → (key value : ℕ) → ℕ × HashMap
insert map key value =
    let i = get_bucket map key in
    let nodes = bucket_of map key in
    elim (find_node nodes key) [
      | none ↦ (
        0,
        record (with_bucket map i (nodes ++ (record { key = key; value = value } ∷ []))) {
          num_nodes = add64 map.num_nodes 1;
        },
      )
      | some inode ↦
          let node = get_or nodes inode no_node in
          (node.value, with_bucket map i (set nodes inode (record node { value = value })))
    ]

-- `hashmap_erase`.
pub erase : HashMap → ℕ → ℕ × HashMap
unfolding array_erase
erase map key =
    let i = get_bucket map key in
    let nodes = bucket_of map key in
    elim (find_node nodes key) [
      | none ↦ (0, map)
      | some inode ↦ (
        (get_or nodes inode no_node).value,
        record (with_bucket map i (array_erase nodes inode)) { num_nodes = sub64 map.num_nodes 1 },
      )
    ]

-- `hashmap_lookup`.
pub lookup : HashMap → ℕ → ℕ
lookup map key =
    let nodes = bucket_of map key in
    elim (find_node nodes key) [ none ↦ 0 | some inode ↦ (get_or nodes inode no_node).value ]

-- `hashmap_has_key`.
pub has_key : HashMap → ℕ → Bool
has_key map key = elim (find_node (bucket_of map key) key) [ none ↦ false | some inode ↦ true ]

-- `hashmap_size`.
pub size : HashMap → ℕ
size map = map.num_nodes

-- `hashmap_clear`.
pub clear : HashMap → HashMap
clear m = record m { bucket = map array_clear m.bucket; num_nodes = 0 }
