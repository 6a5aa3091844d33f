-- ===== src/HashMap/Tests.antt =====
-- Runs of a small map, and the theorems at it.
use foundation_lib.Prelude.{
  ℕ, zero, suc, ◌≤◌, ◌≡◌, refl, true, none, some, List, [], ◌∷◌, arith, length, get_or,
}
use foundation_lib.HashMap.{
  Node, HashMap, find_node, array_erase, insert, erase, lookup, has_key, size, clear, allocate,
}
use foundation_lib.HashMap.Arrays.{values}
use foundation_lib.HashMap.Buckets.{IsValid, look, total}
use foundation_lib.HashMap.Operations.{
  lookup-look, allocate-look, insert-look, erase-look, clear-look,
}

abbrev first_bucket : List Node
first_bucket =
    record { key = 4; value = 40 }
    ∷ record { key = 2; value = 20 }
    ∷ record { key = 8; value = 80 }
    ∷ []

-- Two buckets, and three keys in one of them.
abbrev even_keys : HashMap
even_keys = record { num_buckets = 2; num_nodes = 3; bucket = first_bucket ∷ [] ∷ [] }

once : (k : ℕ) → length (values k first_bucket) ≤ 1
unfolding values
once k = ground arith

even_keys-IsValid : IsValid even_keys
unfolding total values
even_keys-IsValid = record {
  some_buckets = omega arith;
  sized = refl;
  unique = each;
  counted = refl;
  small = omega arith;
}
  where
    each : (j k : ℕ) → length (values k (get_or (first_bucket ∷ [] ∷ []) j [])) ≤ 1
    each zero k = once k
    each (suc zero) k = omega arith
    each (suc (suc j)) k = omega arith

erase_first :
    (erase even_keys 4).1.bucket
    ≡ (record { key = 8; value = 80 } ∷ record { key = 2; value = 20 } ∷ []) ∷ [] ∷ []
unfolding erase find_node array_erase
erase_first = refl

insert-look_example :
    let (prev, m') = insert even_keys 2 21 in
    IsValid m' × (prev ≡ 20) × (look m' 2 ≡ some 21) × (size m' ≡ 3)
unfolding size values has_key find_node
insert-look_example = insert-look 2 21 2 even_keys-IsValid (omega arith)

erase-look_example :
    let (prev, m') = erase even_keys 4 in
    IsValid m' × (prev ≡ 40) × (look m' 8 ≡ some 80) × (size m' ≡ 2)
unfolding size values has_key find_node
erase-look_example = erase-look 4 8 even_keys-IsValid

clear-look_example :
    IsValid (clear even_keys) × (look (clear even_keys) 4 ≡ none) × (size (clear even_keys) ≡ 0)
clear-look_example = clear-look 4 even_keys-IsValid

lookup-look_example : (lookup even_keys 8 ≡ 80) × (has_key even_keys 8 ≡ true)
unfolding values
lookup-look_example = lookup-look even_keys 8

allocate-look_example : IsValid (allocate 0) × (look (allocate 0) 5 ≡ none)
allocate-look_example = allocate-look 0 5
