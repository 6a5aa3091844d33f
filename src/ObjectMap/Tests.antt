-- ===== src/ObjectMap/Tests.antt =====
-- Runs of a small map, and the theorems at it.
use Prim.{tt}
use mathlib.Core.Bool.{true≢false}
use foundation_lib.Prelude.{
  ℕ, zero, suc, ◌≤◌, ◌<◌, sym, inl, false, ◌≡◌, refl, ◌≢◌, true, none, [], ◌∷◌, arith,
}
use foundation_lib.ObjectMap.{
  ObjectMap, Objects, index, slot, is_free, next_tag, reserve, free, raw_lookup, set_object,
  with_ref, lookup_ref, lookup_unref, initialize,
}
use foundation_lib.ObjectMap.Free.{IsValid, IsIn, is_used, Links, map-IsValid}
use foundation_lib.ObjectMap.Reserve.{Reserved, Others, reserve-Reserved, reserve_never_full}
use foundation_lib.ObjectMap.Release.{free-slot}
use foundation_lib.ObjectMap.Lookup.{lookup_ref-set_object, lookup_unref-lookup_ref}

-- Three slots and two bits: an object at 8, a free slot and one that was never used.
abbrev small_map : ObjectMap
small_map = record {
  free = 9;
  id = 2;
  size = 3;
  index_bits = 2;
  autolink = 2;
  map = 8 ∷ 5 ∷ 0 ∷ [];
}

abbrev objects : Objects
objects address = record { id = 4; ref = 1 }

small_map_complete : (i : ℕ) → i < 2 → is_free (slot small_map i) ≡ true → IsIn i (1 ∷ [])
small_map_complete zero lt free = absurd (true≢false (sym free))
small_map_complete (suc zero) lt free = inl refl
small_map_complete (suc (suc i)) lt free = absurd (omega arith)

small_map_unused : (i : ℕ) → 2 ≤ i → slot small_map i ≡ 0
small_map_unused zero le = absurd (omega arith)
small_map_unused (suc zero) le = absurd (omega arith)
small_map_unused (suc (suc zero)) le = refl
small_map_unused (suc (suc (suc i))) le = refl

small_map-IsValid : IsValid small_map
unfolding Links
small_map-IsValid = record {
  bits = omega arith;
  narrow = omega arith;
  sized = refl;
  linked = omega arith;
  free_slots = 1 ∷ [];
  links = (refl, omega arith, refl, refl);
  distinct = (tt, tt);
  complete = small_map_complete;
  unused = small_map_unused;
}

reserve_twice : index small_map (reserve (reserve small_map).1).0 ≡ 2
unfolding reserve next_tag
reserve_twice = refl

-- Four slots and two bits, all of them taken.
abbrev taken_map : ObjectMap
taken_map = record {
  free = 4;
  id = 4;
  size = 4;
  index_bits = 2;
  autolink = 4;
  map = 8 ∷ 16 ∷ 24 ∷ 32 ∷ [];
}

-- The object in the first slot is lost.
reserve_again : (reserve taken_map).1.map ≡ 0 ∷ 16 ∷ 24 ∷ 32 ∷ []
unfolding reserve next_tag
reserve_again = refl

map-IsValid_example : IsValid (initialize 8 129)
map-IsValid_example = map-IsValid 8 129 (omega arith) (omega arith)

reserve-Reserved_example :
    Reserved small_map (reserve small_map).1 (reserve small_map).0 × IsValid (reserve small_map).1
reserve-Reserved_example = reserve-Reserved small_map-IsValid

reserve_never_full_example : (reserve taken_map).0 ≢ 0
reserve_never_full_example = reserve_never_full taken_map refl (omega arith)

free-slot_example :
    let (freed, m') = free objects small_map 4 in
    (freed ≡ true)
    × IsValid m'
    × (is_used m' 0 ≡ false)
    × (raw_lookup m' 0 ≡ 0)
    × Others small_map m' 0
    × (index m' (reserve m').0 ≡ 0)
free-slot_example = free-slot objects 4 small_map-IsValid refl refl

lookup_ref-set_object_example :
    lookup_ref objects (set_object small_map 6 40).1 6 ≡ (40, with_ref objects 40 2)
lookup_ref-set_object_example =
    lookup_ref-set_object objects small_map 6 40 refl (omega arith) (omega arith) refl refl
      (omega arith)

lookup_unref-lookup_ref_example :
    let (alive, objects', dead) = lookup_unref (lookup_ref objects small_map 4).1 small_map 4 in
    (alive ≡ true) × (dead ≡ none) × ((objects' 8).ref ≡ 1)
lookup_unref-lookup_ref_example =
    lookup_unref-lookup_ref objects small_map 4 refl (omega arith) (omega arith)
