-- ===== src/HashTable/Tests.antt =====
-- Small tables of both widths, and the theorems at inputs.
use foundation_lib.Prelude.{ℕ, ◌<◌, ◌≡◌, refl, ◌≢◌, ◌⊎◌, true, false, Option, none, some, arith}
use foundation_lib.HashTable.{HashTable, initialize, set, get, size}
use foundation_lib.HashTable.Entries.{find, key_of, Absent}
use foundation_lib.HashTable.Map.{IsValid}
use foundation_lib.HashTable.Operations.{Writes, get-find, set-find, erase-find, initialize-IsValid}
use foundation_lib.HashTable.Widths.{hash32, hash64, set32, get32, erase32}

abbrev blank : HashTable
unfolding initialize
blank = initialize 3

-- Both keys hash to the same slot, 0, of three.
abbrev two_keys : Option ℕ
two_keys = elim (set32 blank 1 10) [
  | none ↦ none
  | some (_, t) ↦ elim (set32 t 2 20) [ none ↦ none | some (_, u) ↦ get32 u 1 ]
]

two_keys_lookup : two_keys ≡ some 10
unfolding initialize set get hash32
two_keys_lookup = refl

hash_values : (hash32 1 ≡ 0x514e28b7) × (hash64 1 ≡ 0xb456bcfc34c2cb2c)
unfolding hash32 hash64
hash_values = (refl, refl)

blank-IsValid : IsValid hash32 (initialize 3)
blank-IsValid = (initialize-IsValid hash32 3 (omega arith)).0

initialize-IsValid_example :
    IsValid hash64 (initialize 2)
    × ((k : ℕ) → find k (initialize 2).entries ≡ 0)
    × (size (initialize 2) ≡ 0)
initialize-IsValid_example = initialize-IsValid hash64 2 (omega arith)

get-find_example : get32 (initialize 3) 7 ≡ some (find 7 (initialize 3).entries)
get-find_example = get-find hash32 blank-IsValid 7 (omega arith)

set-find_example :
    ((t : HashTable) × (set32 (initialize 3) 7 70 ≡ some (true, t))
      × Writes hash32 (initialize 3) 7 70 t)
    ⊎ ((set32 (initialize 3) 7 70 ≡ some (false, initialize 3))
        × Absent (initialize 3).entries 7
        × ((i : ℕ) → i < (initialize 3).capacity → key_of (initialize 3).entries i ≢ 0))
set-find_example = set-find hash32 blank-IsValid 7 (omega arith) 70

erase-find_example :
    (t : HashTable) × (erase32 (initialize 3) 7 ≡ some t) × Writes hash32 (initialize 3) 7 0 t
erase-find_example = erase-find hash32 blank-IsValid 7 (omega arith)
