-- ===== src/ObjectMap/Release.antt =====
-- What `objectmap_free` does to the slots.
use Prim.Native.Nat.{bit_or, ◌∣◌}
use mathlib.Core.Path.{subst}
use native.Mathlib.Nat.{mod-lt, mod-mod_of_dvd, dvd-mul_right}
use Prim.{tt}
use mathlib.Core.Bool.{true≢false}
use foundation_lib.Prelude.{
  ℕ, ◌+◌, ◌-◌, ◌*◌, ◌/◌, ◌%◌, ◌^◌, ◌≤◌, ◌<◌, ◌≡◌, refl, sym, ap, ◌∙◌, true, false, List, [], ◌∷◌,
  map, arith, length, length-set, get_or, get_or-set_self, get_or-set_ne, set, ltb, not, ◌&&◌,
  ℕ_discrete, inl, inr,
}
use foundation_lib.Prelude.Pow.{two_pow-pos, two_pow-add, or-shift}
use foundation_lib.ObjectMap.{
  ObjectMap, Objects, index, slot, is_free, tagged, next_tag, same_tag, free, raw_lookup, reserve,
}
use foundation_lib.ObjectMap.Free.{IsValid, is_used, Links, NotIn, Links-set, tagged-index}
use foundation_lib.ObjectMap.Reserve.{next_tag-lt, Others, reserve-head}

-- A slot with an object is not in the list.
Links-NotIn :
    (map : List ℕ) (bits autolink start i : ℕ) (is : List ℕ)
    → is_free (get_or map i 0) ≡ false
    → Links map bits autolink start is
    → NotIn i is
unfolding Links
Links-NotIn map bits autolink start i [] f l = tt
Links-NotIn map bits autolink start i (j ∷ js) f l = (
  λ e. true≢false (sym l.2 ∙ ap (λ k. is_free (get_or map k 0)) (sym e) ∙ f),
  Links-NotIn map bits autolink (get_or map j 0 / 2 % 2 ^ 32 % 2 ^ bits) i js f l.3,
)

used_parts :
    (m : ObjectMap) (i : ℕ) → is_used m i ≡ true → (i < m.autolink) × (is_free (slot m i) ≡ false)
used_parts m i used = ground arith

-- The word of a free slot.
abbrev link : ℕ → ℕ
link next = bit_or (next * 2 % 2 ^ 32) 1

link_word : (next : ℕ) → link next ≡ next % 2 ^ 31 * 2 + 1
link_word next =
    let e : next * 2 % 2 ^ 32 ≡ next % 2 ^ 31 * 2 ^ 1 = omega arith in
    ap (λ t. bit_or t 1) e ∙ or-shift 1 (next % 2 ^ 31) 1 (omega arith)

link-index :
    (bits next : ℕ)
    → bits ≤ 26
    → (is_free (link next) ≡ true) × (link next / 2 % 2 ^ 32 % 2 ^ bits ≡ next % 2 ^ bits)
link-index bits next le =
    let w = link_word next in
    let sum : 31 ≡ bits + (31 - bits) = omega arith in
    let divides : (2 ^ bits) ∣ (2 ^ 31) =
      subst (λ n. (2 ^ bits) ∣ n) (sym (ap (λ n. 2 ^ n) sum ∙ two_pow-add bits (31 - bits)))
        (dvd-mul_right (2 ^ bits) (2 ^ (31 - bits))) in
    let half : link next / 2 % 2 ^ 32 ≡ next % 2 ^ 31 = omega arith in
    (ground arith, ap (λ n. n % 2 ^ bits) half ∙ mod-mod_of_dvd (2 ^ bits) next divides)

-- Freeing an object in a valid map, by an id with its tag and the index of a slot that is in use, succeeds.
-- The slot is not in use then and a lookup finds nothing there, the other slots stay, the map is valid
-- again, and the next reservation gets that slot.
pub free-slot :
    (objects : Objects) (id : ℕ) {m : ObjectMap}
    → IsValid m
    → is_used m (index m id) ≡ true
    → same_tag m (objects (slot m (index m id))).id id ≡ true
    → let (freed, m') = free objects m id in
      (freed ≡ true)
      × IsValid m'
      × (is_used m' (index m id) ≡ false)
      × (raw_lookup m' (index m id) ≡ 0)
      × Others m m' (index m id)
      × (index m' (reserve m').0 ≡ index m id)
unfolding free Links raw_lookup
free-slot objects id {m} v in_use same =
    let (lt, used) = used_parts m (index m id) in_use in
    let idx = index m id in
    let tag = (next_tag m).0 in
    let next = tagged m tag (index m m.free) in
    let pos = two_pow-pos m.index_bits in
    let bits : m.index_bits ≤ 32 = omega (arith, v.bits) in
    let (_, here) = tagged-index m tag idx bits (next_tag-lt m) (mod-lt id pos) in
    let (_, ahead) = tagged-index m tag (index m m.free) bits (next_tag-lt m) (mod-lt m.free pos) in
    let (marked, follows) = link-index m.index_bits next v.bits in
    let inside : idx < length m.map = omega (arith, lt, v.linked, v.sized) in
    let now : get_or (set m.map idx (link next)) idx 0 ≡ link next =
      get_or-set_self m.map idx (link next) 0 inside in
    let apart =
      Links-NotIn m.map m.index_bits m.autolink (index m m.free) idx v.free_slots used v.links in
    let others =
      Links-set m.map m.index_bits m.autolink (index m m.free) idx (link next) v.free_slots apart
        v.links in
    let marked' : is_free (get_or (set m.map idx (link next)) idx 0) ≡ true =
      ap is_free now ∙ marked in
    let below : ltb idx m.autolink ≡ true = ground arith in
    let m' : ObjectMap = record m {
      id = (next_tag m).1;
      map = set m.map idx (link next);
      free = tagged m tag idx;
    } in
    let head : index m' m'.free ≡ idx = here in
    let reserved = reserve-head m' v.bits (omega (arith, head, lt)) v.linked ∙ head in
    rw (used, same)
      (
        refl,
        record {
          bits = v.bits;
          narrow = v.narrow;
          sized = length-set m.map idx (link next) ∙ v.sized;
          linked = v.linked;
          free_slots = idx ∷ v.free_slots;
          links = (
            here,
            lt,
            marked',
            subst (λ n. Links (set m.map idx (link next)) m.index_bits m.autolink n v.free_slots)
                (sym (ap (λ w. w / 2 % 2 ^ 32 % 2 ^ m.index_bits) now ∙ follows ∙ ahead)) others,
          );
          distinct = (apart, v.distinct);
          complete = λ i lt' free_here. elim (ℕ_discrete idx i) [
            | yes same_slot ↦ inl (sym same_slot)
            | no ne ↦ inr (
                v.complete i lt'
                  (ap is_free (sym (get_or-set_ne m.map idx i (link next) 0 ne)) ∙ free_here))
          ];
          unused = λ i le.
              get_or-set_ne m.map idx i (link next) 0 (λ same_slot. omega arith) ∙ v.unused i le;
        },
        rw (below, marked') refl,
        rw marked' refl,
        λ j ne.
            let kept = get_or-set_ne m.map idx j (link next) 0 ne in
            (ap (λ w. ltb j m.autolink && not (is_free w)) kept, kept),
        reserved,
      )
