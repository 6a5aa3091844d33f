-- ===== src/HashTable/Widths.antt =====
-- The two tables of foundation/hashtable.c: `hashtable32_t` and `hashtable64_t`, each with its hash.
use Prim.Native.Nat.{bit_xor}
use foundation_lib.Prelude.{ℕ, ◌*◌, ◌/◌, ◌%◌, ◌^◌, Bool, Option}
use foundation_lib.HashTable.{HashTable, set, erase, get}

-- `_hashtable32_hash`, of a `uint32_t`.
unfoldable pub hash32 : ℕ → ℕ
hash32 key =
    let k1 = bit_xor key (key / 2 ^ 16) in
    let k2 = (k1 * 0x85ebca6b) % 2 ^ 32 in
    let k3 = bit_xor k2 (k2 / 2 ^ 13) in
    let k4 = (k3 * 0xc2b2ae35) % 2 ^ 32 in bit_xor k4 (k4 / 2 ^ 16)

-- `_hashtable64_hash`, of a `uint64_t`.
unfoldable pub hash64 : ℕ → ℕ
hash64 key =
    let k1 = bit_xor key (key / 2 ^ 33) in
    let k2 = (k1 * 0xff51afd7ed558ccd) % 2 ^ 64 in
    let k3 = bit_xor k2 (k2 / 2 ^ 33) in
    let k4 = (k3 * 0xc4ceb9fe1a85ec53) % 2 ^ 64 in bit_xor k4 (k4 / 2 ^ 33)

-- `hashtable32_set`, `hashtable32_erase`, `hashtable32_get`.
abbrev pub set32 : HashTable → (key value : ℕ) → Option (Bool × HashTable)
set32 = set hash32

abbrev pub erase32 : HashTable → ℕ → Option HashTable
erase32 = erase hash32

abbrev pub get32 : HashTable → ℕ → Option ℕ
get32 = get hash32

-- `hashtable64_set`, `hashtable64_erase`, `hashtable64_get`.
abbrev pub set64 : HashTable → (key value : ℕ) → Option (Bool × HashTable)
set64 = set hash64

abbrev pub erase64 : HashTable → ℕ → Option HashTable
erase64 = erase hash64

abbrev pub get64 : HashTable → ℕ → Option ℕ
get64 = get hash64
