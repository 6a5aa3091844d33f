-- ===== src/ObjectMap.antt =====
-- foundation/objectmap.c, run by one thread. A slot of `map` holds a pointer, which is even, or the
-- index of the next free slot with its lowest bit set. `x & mask_index` is written `x % 2 ^ index_bits`,
-- `x & id_max` is `x % 2 ^ (32 - index_bits)`, and ids that agree in `mask_id` have one quotient.
pub mod Free
pub mod Reserve
pub mod Release
pub mod Lookup
mod Tests
use Prim.Native.Nat.{bit_or}
use foundation_lib.Prelude.{
  ℕ, zero, suc, ◌+◌, ◌-◌, ◌*◌, ◌/◌, ◌%◌, ◌^◌, ◌≤◌, ◌<◌, min, max, ◌≡◌, refl, sym, ap, ap₂, ◌∙◌, ◌≢◌,
  ◌↔◌, ◌⊎◌, inl, inr, Bool, true, false, not, ◌&&◌, ◌||◌, Option, none, some, List, [], ◌∷◌, ◌++◌,
  map, append_assoc, append-nil, arith, dec_lt, ℕ_discrete, ltb, leb, ◌==◌, if◌then◌else◌, ltb→lt,
  lt→ltb, leb→le, ==_iff, tests, Bool-cases, Option-cases, length, get_elem?, length-append,
  length-set, get_elem?-set_self, get_elem?-set_ne, get_or, take, drop, replicate, take-append-drop,
  length-take, length-drop, length-replicate, length-map, slice, overwrite, length-overwrite,
  take-append_le, take-append_ge, drop-append_le, drop-append_ge, take_all, drop_all, drop-nil,
  take-nil, drop-drop, take-take, drop-take, take-add, take-overwrite, drop-overwrite_end,
  drop-overwrite_ge, drop-overwrite_le, slice-overwrite, take-eq_nil, take-overwrite-max,
  overwrite-nil, drop-overwrite_self, get_or-set_self, get_or-set_ne, get_or-replicate,
  take-set_end, add64, sub64, add32, sub32, set,
}

-- `objectmap_t`.
pub record ObjectMap : Type 0 where
  pub free : ℕ
  pub id : ℕ
  pub size : ℕ
  pub index_bits : ℕ
  pub autolink : ℕ
  pub map : List ℕ

-- `object_base_t`, at the addresses of the objects.
pub record ObjectBase : Type 0 where
  pub id : ℕ
  pub ref : ℕ

abbrev pub Objects : Type 0
Objects = ℕ → ObjectBase

-- `objectmap_initialize`; `bits` is the rounded logarithm of the size.
pub initialize : (bits size : ℕ) → ObjectMap
initialize bits size = record {
  free = 0;
  id = 0;
  size = size % 2 ^ 32;
  index_bits = bits;
  autolink = 0;
  map = replicate size 0;
}

abbrev pub index : ObjectMap → ℕ → ℕ
index m id = id % 2 ^ m.index_bits

abbrev pub slot : ObjectMap → ℕ → ℕ
slot m idx = get_or m.map idx 0

-- The lowest bit of a slot.
abbrev pub is_free : ℕ → Bool
is_free ptr = ptr % 2 == 1

-- `objectmap_raw_lookup`.
pub raw_lookup : ObjectMap → ℕ → ℕ
raw_lookup m idx = if is_free (slot m idx) then 0 else slot m idx

-- `++map->id & map->id_max`, once more if this is 0: the tag, and the counter.
pub next_tag : ObjectMap → ℕ × ℕ
next_tag m =
    let id1 = add32 m.id 1 in
    let id2 = add32 id1 1 in
    let tag = id1 % 2 ^ (32 - m.index_bits) in
    if tag == 0 then (id2 % 2 ^ (32 - m.index_bits), id2) else (tag, id1)

-- `x | (tag << map->index_bits)`.
abbrev pub tagged : ObjectMap → (tag x : ℕ) → ℕ
tagged m tag x = bit_or (tag * 2 ^ m.index_bits % 2 ^ 32) x

-- `objectmap_reserve`; 0 if there is no slot.
pub reserve : ObjectMap → ℕ × ObjectMap
unfolding next_tag
reserve m =
    let (tag, id) = next_tag m in
    let idx = index m m.free in
    let fresh = leb m.autolink idx in
    let autolink = if fresh then add32 m.autolink 1 else m.autolink in
    let next = if fresh then autolink else index m (slot m idx / 2 % 2 ^ 32) in
    if leb m.size idx then (0, record m { id = id }) else (
      tagged m tag idx,
      record m { id = id; free = tagged m tag next; autolink = autolink; map = set m.map idx 0 },
    )

-- The ids agree but for the index.
abbrev pub same_tag : ObjectMap → (id id' : ℕ) → Bool
same_tag m id id' = id / 2 ^ m.index_bits == id' / 2 ^ m.index_bits

-- `objectmap_free`. A slot that was reserved and not set holds null, whose id is that of address 0 here.
pub free : Objects → ObjectMap → ℕ → Bool × ObjectMap
unfolding next_tag
free objects m id =
    let idx = index m id in
    let object = slot m idx in
    let (tag, id') = next_tag m in
    let next = tagged m tag (index m m.free) in
    if is_free object || not (same_tag m (objects object).id id) then (false, m) else (
      true,
      record m {
        id = id';
        map = set m.map idx (bit_or (next * 2 % 2 ^ 32) 1);
        free = tagged m tag idx;
      },
    )

-- `objectmap_set`.
pub set_object : ObjectMap → (id object : ℕ) → Bool × ObjectMap
set_object m id object =
    let idx = index m id in
    if slot m idx == 0 then (true, record m { map = set m.map idx object }) else (false, m)

-- The test of `objectmap_lookup_ref` and `objectmap_lookup_unref`, and the reference count.
abbrev pub found : Objects → ObjectMap → ℕ → Bool
found objects m id =
    let object = slot m (index m id) in
    not (object == 0) && (not (is_free object) && same_tag m (objects object).id id)

abbrev pub with_ref : Objects → (object ref : ℕ) → Objects
with_ref objects object ref address =
    if address == object then record (objects object) { ref = ref } else objects address

-- `objectmap_lookup_ref`: the object, or null. The exchange succeeds, there being one thread. The count is
-- written modulo 2 ^ 32, which differs from `int32_t` only where that overflows.
pub lookup_ref : Objects → ObjectMap → ℕ → ℕ × Objects
lookup_ref objects m id =
    let object = slot m (index m id) in
    let ref = (objects object).ref in
    if found objects m id && not (ref == 0)
    then (object, with_ref objects object (add32 ref 1))
    else (0, objects)

-- `objectmap_lookup_unref`: whether the object lives on, the objects, and what is to be deallocated.
pub lookup_unref : Objects → ObjectMap → ℕ → Bool × Objects × Option ℕ
lookup_unref objects m id =
    let object = slot m (index m id) in
    let ref = (objects object).ref in
    if found objects m id && not (ref == 0)
    then (
      not (ref == 1),
      with_ref objects object (sub32 ref 1),
      if ref == 1 then some object else none,
    )
    else (false, objects, none)
