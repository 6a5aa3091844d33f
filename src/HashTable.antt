-- ===== src/HashTable.antt =====
-- foundation/hashtable.c: a table of fixed size with linear probing, run by one thread. A key of 0
-- marks an empty slot; an erased entry keeps its key and has the value 0, which is also what a key
-- that is not there reads as. The 32 bit and the 64 bit table differ in their hash alone, which is a
-- parameter here; `Widths` has the two.
pub mod Probe
pub mod Entries
pub mod Search
pub mod Loops
pub mod Map
pub mod Operations
pub mod Widths
mod Tests
use foundation_lib.Prelude.{
  ℕ, zero, suc, ◌+◌, ◌%◌, ◌<◌, ◌≡◌, Bool, true, false, not, ◌&&◌, ◌||◌, Option, none, some, List,
  [], ◌∷◌, ◌==◌, if◌then◌else◌, get_or, set as set_elem, replicate,
}

-- `hashtable32_entry_t`, `hashtable64_entry_t`: a key and a value.
abbrev pub Entry : Type 0
Entry = ℕ × ℕ

abbrev pub empty : Entry
empty = (0, 0)

-- `hashtable32_t`, `hashtable64_t`.
pub record HashTable : Type 0 where
  pub capacity : ℕ
  pub entries : List Entry

-- `hashtable32_initialize`: `memset` of all the entries.
pub initialize : ℕ → HashTable
initialize buckets = record { capacity = buckets; entries = replicate buckets empty }

abbrev pub entry : HashTable → ℕ → Entry
entry t ie = get_or t.entries ie empty

abbrev pub store : HashTable → ℕ → ℕ → ℕ → HashTable
store t ie key value = record t { entries = set_elem t.entries ie (key, value) }

-- The loop of `hashtable32_set` from the slot `ie`. With one thread the compare-and-swap of an empty
-- key succeeds. `none`: the fuel, one unit for each round, ran out.
pub set_from : ℕ → HashTable → (ie eend key value : ℕ) → Option (Bool × HashTable)
set_from zero t ie eend key value = none
set_from (suc fuel) t ie eend key value =
    let current_key = (entry t ie).0 in
    let next = (ie + 1) % t.capacity in
    let rest = set_from fuel t next eend key value in
    if current_key == key || current_key == 0
    then some (true, store t ie key value)
    else if next == eend
    then some (false, t)
    else rest

-- The loop of `hashtable32_erase`.
pub erase_from : ℕ → HashTable → (ie eend key : ℕ) → Option HashTable
erase_from zero t ie eend key = none
erase_from (suc fuel) t ie eend key =
    let current_key = (entry t ie).0 in
    let next = (ie + 1) % t.capacity in
    let rest = erase_from fuel t next eend key in
    if current_key == key
    then some (store t ie key 0)
    else if not (current_key == 0) && not (next == eend)
    then rest
    else some t

-- The loop of `hashtable32_get`.
pub get_from : ℕ → HashTable → (ie eend key : ℕ) → Option ℕ
get_from zero t ie eend key = none
get_from (suc fuel) t ie eend key =
    let current_key = (entry t ie).0 in
    let next = (ie + 1) % t.capacity in
    let rest = get_from fuel t next eend key in
    if current_key == key
    then some (entry t ie).1
    else if not (current_key == 0) && not (next == eend)
    then rest
    else some 0

-- `hashtable32_raw`.
pub raw : HashTable → ℕ → ℕ
raw t slot = if (entry t slot).0 == 0 then 0 else (entry t slot).1

abbrev pub is_live : Entry → Bool
is_live e = not (e.0 == 0) && not (e.1 == 0)

-- The loop of `hashtable32_size`.
pub count : List Entry → ℕ
count [] = 0
count (e ∷ es) = if is_live e then suc (count es) else count es

-- `hashtable32_size`.
pub size : HashTable → ℕ
unfolding count
size t = count t.entries

-- `hashtable32_clear`.
pub clear : HashTable → HashTable
clear t = record t { entries = replicate t.capacity empty }

module _ (hash : ℕ → ℕ) where
  abbrev pub home : HashTable → ℕ → ℕ
  home t key = hash key % t.capacity

  -- `hashtable32_set`, `hashtable32_erase` and `hashtable32_get`: a round for each slot at most.
  pub set : HashTable → (key value : ℕ) → Option (Bool × HashTable)
  unfolding set_from
  set t key value = set_from t.capacity t (home t key) (home t key) key value

  pub erase : HashTable → ℕ → Option HashTable
  unfolding erase_from
  erase t key = erase_from t.capacity t (home t key) (home t key) key

  pub get : HashTable → ℕ → Option ℕ
  unfolding get_from
  get t key = get_from t.capacity t (home t key) (home t key) key
