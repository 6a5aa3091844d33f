-- ===== src/ObjectMap/Lookup.antt =====
-- Lookups of objects and their reference counts.
use foundation_lib.Prelude.{
  if_true, ℕ, ◌+◌, ◌^◌, ◌<◌, ◌≡◌, refl, ap, ap₂, ◌∙◌, Bool, true, false, not, ◌&&◌, Option, none,
  some, arith, ◌==◌, if◌then◌else◌, ==_iff, length, get_or-set_self, add32, sub32,
}
use foundation_lib.ObjectMap.{
  ObjectMap, ObjectBase, Objects, index, slot, is_free, same_tag, found, with_ref, set_object,
  lookup_ref, lookup_unref,
}

-- An object that is set under a reserved id is found under it, and its reference count goes up.
pub lookup_ref-set_object :
    (objects : Objects) (m : ObjectMap) (id object : ℕ)
    → slot m (index m id) ≡ 0
    → index m id < length m.map
    → 0 < object
    → is_free object ≡ false
    → same_tag m (objects object).id id ≡ true
    → 0 < (objects object).ref
    → lookup_ref objects (set_object m id object).1 id
      ≡ (object, with_ref objects object (add32 (objects object).ref 1))
unfolding lookup_ref set_object
lookup_ref-set_object objects m id object reserved inside some_object even tag live =
    let t : (slot m (index m id) == 0) ≡ true = ground arith in
    let now = get_or-set_self m.map (index m id) object 0 inside in
    let t' : (object == 0) ≡ false = ground arith in
    let t'' : ((objects object).ref == 0) ≡ false = ground arith in
    rw (t, now, t', even, tag, t'') refl

with_ref_self :
    (objects : Objects) (object ref : ℕ)
    → with_ref objects object ref object ≡ record (objects object) { ref = ref }
with_ref_self objects object ref = if_true (objects object) ((==_iff object object).1 refl)

-- The successful branches.
ref_found :
    (objects : Objects) (m : ObjectMap) (id : ℕ)
    → found objects m id ≡ true
    → 0 < (objects (slot m (index m id))).ref
    → let object = slot m (index m id) in
      lookup_ref objects m id ≡ (object, with_ref objects object (add32 (objects object).ref 1))
unfolding lookup_ref
ref_found objects m id f live =
    let t : ((objects (slot m (index m id))).ref == 0) ≡ false = ground arith in
    if_true (0, objects) (ap₂ ◌&&◌ f (ap not t))

unref_alive :
    (objects : Objects) (m : ObjectMap) (id : ℕ)
    → found objects m id ≡ true
    → 1 < (objects (slot m (index m id))).ref
    → let object = slot m (index m id) in
      lookup_unref objects m id
      ≡ (true, with_ref objects object (sub32 (objects object).ref 1), none)
unfolding lookup_unref
unref_alive objects m id f live =
    let object = slot m (index m id) in
    let t : ((objects object).ref == 0) ≡ false = ground arith in
    let t' : ((objects object).ref == 1) ≡ false = ground arith in
    if_true (false, objects, none) (ap₂ ◌&&◌ f (ap not t))
    ∙ ap
        (λ one. (
          not one,
          with_ref objects object (sub32 (objects object).ref 1),
          if one then some object else none,
        ))
        t'

-- A reference that is taken and given back leaves the object alive and its count as it was.
pub lookup_unref-lookup_ref :
    (objects : Objects) (m : ObjectMap) (id : ℕ)
    → found objects m id ≡ true
    → 0 < (objects (slot m (index m id))).ref
    → (objects (slot m (index m id))).ref + 1 < 2 ^ 32
    → let object = slot m (index m id) in
      let (alive, objects', dead) = lookup_unref (lookup_ref objects m id).1 m id in
      (alive ≡ true) × (dead ≡ none) × ((objects' object).ref ≡ (objects object).ref)
lookup_unref-lookup_ref objects m id f live small =
    let object = slot m (index m id) in
    let held = with_ref objects object (add32 (objects object).ref 1) in
    let self = with_ref_self objects object (add32 (objects object).ref 1) in
    let f' : found held m id ≡ true =
      ap (λ (o : ObjectBase). not (object == 0) && (not (is_free object) && same_tag m o.id id))
        self
      ∙ f in
    let count : (held object).ref ≡ add32 (objects object).ref 1 =
      ap (λ (o : ObjectBase). o.ref) self in
    let e = unref_alive held m id f' (omega (arith, count)) in
    let both =
      ap (λ (out : ℕ × Objects). lookup_unref out.1 m id) (ref_found objects m id f live) ∙ e in
    let last = with_ref_self held object (sub32 (held object).ref 1) in
    (
      ap (λ (out : Bool × Objects × Option ℕ). out.0) both,
      ap (λ (out : Bool × Objects × Option ℕ). out.2) both,
      ap (λ (out : Bool × Objects × Option ℕ). (out.1 object).ref) both
          ∙ ap (λ (o : ObjectBase). o.ref) last
          ∙ omega (arith, count),
    )
