-- ===== src/ObjectMap/Reserve.antt =====
-- What `objectmap_reserve` and `objectmap_free` do to the slots.
use Prim.{tt}
use mathlib.Core.Bool.{true≢false}
use mathlib.Core.Path.{subst}
use native.Mathlib.Nat.{
  mod-lt, pow-le-pow_right, mod-mod_of_dvd, mod-add-mod, mod-eq_of_lt, dvd-mul_right,
}
use foundation_lib.Prelude.{
  ℕ, ◌+◌, ◌-◌, ◌*◌, ◌/◌, ◌%◌, ◌^◌, ◌≤◌, ◌<◌, ◌≡◌, refl, sym, ap, ap₂, ◌∙◌, ◌≢◌, inl, inr, true,
  false, List, [], ◌∷◌, arith, dec_lt, ℕ_discrete, leb, ltb, not, ◌&&◌, ◌==◌, Bool-cases,
  length-set, add32, get_or, get_or-set_self, get_or-set_ne, set,
}
use Prim.Native.Nat.{◌∣◌}
use foundation_lib.Prelude.Pow.{two_pow-pos, two_pow-add}
use foundation_lib.ObjectMap.{ObjectMap, index, slot, is_free, tagged, next_tag, reserve}
use foundation_lib.ObjectMap.Free.{
  IsValid, IsIn, is_used, Links, NotIn, Distinct, Links-set, tagged-index,
}

pub next_tag-lt : (m : ObjectMap) → (next_tag m).0 < 2 ^ (32 - m.index_bits)
unfolding next_tag
next_tag-lt m =
    let pos = two_pow-pos (32 - m.index_bits) in
    let id1 = add32 m.id 1 in
    elim (Bool-cases (id1 % 2 ^ (32 - m.index_bits) == 0)) [
      | inl t ↦ rw t (mod-lt (add32 id1 1) pos)
      | inr f ↦ rw f (mod-lt id1 pos)
    ]

next_tag-pos : (m : ObjectMap) → m.index_bits ≤ 26 → 0 < (next_tag m).0
unfolding next_tag
next_tag-pos m le =
    let p = 2 ^ (32 - m.index_bits) in
    let id1 = add32 m.id 1 in
    let sum : 32 ≡ 32 - m.index_bits + m.index_bits = omega arith in
    let power : 2 ^ 32 ≡ p * 2 ^ m.index_bits =
      ap (λ n. 2 ^ n) sum ∙ two_pow-add (32 - m.index_bits) m.index_bits in
    let divides : p ∣ 2 ^ 32 =
      subst (λ n. p ∣ n) (sym power) (dvd-mul_right p (2 ^ m.index_bits)) in
    let least : 1 ≤ 32 - m.index_bits = omega arith in
    let big : 2 ^ 1 ≤ p = pow-le-pow_right (omega arith) least in
    elim (ℕ_discrete (id1 % p) 0) [
      | yes z ↦
          let t : (id1 % p == 0) ≡ true = ground arith in
          let second : add32 id1 1 % p ≡ 1 =
            mod-mod_of_dvd p (id1 + 1) divides
            ∙ sym (mod-add-mod id1 p 1)
            ∙ ap (λ n. (n + 1) % p) z
            ∙ mod-eq_of_lt (omega arith) in
          rw (t, second) (omega arith)
      | no nz ↦ let t : (id1 % p == 0) ≡ false = ground arith in rw t (omega arith)
    ]

-- An id with a tag is not 0.
tagged-pos :
    (m : ObjectMap) (x : ℕ)
    → m.index_bits ≤ 26
    → x < 2 ^ m.index_bits
    → 0 < tagged m (next_tag m).0 x
tagged-pos m x le lt =
    let tag = (next_tag m).0 in
    let (sum, _) = tagged-index m tag x (omega arith) (next_tag-lt m) lt in
    let pos = next_tag-pos m le in
    let power = two_pow-pos m.index_bits in
    let least : 2 ^ m.index_bits ≤ tag * 2 ^ m.index_bits = grind arith in omega arith

-- The other slots are what they were.
abbrev pub Others : (m m' : ObjectMap) (i : ℕ) → Type 0
Others m m' i = (j : ℕ) → i ≢ j → (is_used m' j ≡ is_used m j) × (slot m' j ≡ slot m j)

-- What a reservation returns: 0, if every slot is in use; or the id of a slot that was not in use, which
-- is in use now and clear. The other slots stay.
pub data Reserved (m m' : ObjectMap) : ℕ → Type 0 where
  full :
      ((i : ℕ) → i < m.size → is_used m i ≡ true)
      → ((i : ℕ) → is_used m' i ≡ is_used m i)
      → m'.map ≡ m.map
      → Reserved m m' 0
  taken :
      (id : ℕ)
      → 0 < id
      → index m id < m.size
      → is_used m (index m id) ≡ false
      → is_used m' (index m id) ≡ true
      → slot m' (index m id) ≡ 0
      → Others m m' (index m id)
      → Reserved m m' id

-- The branches of `objectmap_reserve`.
reserve_full :
    (m : ObjectMap) → m.size ≤ index m m.free → reserve m ≡ (0, record m { id = (next_tag m).1 })
unfolding reserve
reserve_full m h = let t : leb m.size (index m m.free) ≡ true = ground arith in rw t refl

abbrev given : ObjectMap → (idx next autolink : ℕ) → ObjectMap
given m idx next autolink = record m {
  id = (next_tag m).1;
  free = tagged m (next_tag m).0 next;
  autolink = autolink;
  map = set m.map idx 0;
}

reserve_fresh :
    (m : ObjectMap)
    → index m m.free ≡ m.autolink
    → m.autolink < m.size
    → m.size < 2 ^ 32
    → reserve m
      ≡ (tagged m (next_tag m).0 m.autolink, given m m.autolink (m.autolink + 1) (m.autolink + 1))
unfolding reserve
reserve_fresh m e lt small =
    let t : leb m.autolink m.autolink ≡ true = ground arith in
    let t' : leb m.size m.autolink ≡ false = ground arith in
    let whole : add32 m.autolink 1 ≡ m.autolink + 1 = omega arith in rw (e, t, t', whole) refl

reserve_linked :
    (m : ObjectMap)
    → index m m.free < m.autolink
    → m.autolink ≤ m.size
    → let idx = index m m.free in
      reserve m
      ≡ (tagged m (next_tag m).0 idx, given m idx (index m (slot m idx / 2 % 2 ^ 32)) m.autolink)
unfolding reserve
reserve_linked m lt le =
    let t : leb m.autolink (index m m.free) ≡ false = ground arith in
    let t' : leb m.size (index m m.free) ≡ false = ground arith in rw (t, t') refl

-- A slot that was given out and is clear.
clear_used : (m : ObjectMap) (i : ℕ) → i < m.autolink → slot m i ≡ 0 → is_used m i ≡ true
clear_used m i lt e = let t : ltb i m.autolink ≡ true = ground arith in rw (t, e) refl

-- What a reservation with the slot `idx` returns.
found_slot :
    {m : ObjectMap} (idx next autolink : ℕ)
    → IsValid m
    → idx < m.size
    → idx < autolink
    → is_used m idx ≡ false
    → ((j : ℕ) → idx ≢ j → ltb j autolink ≡ ltb j m.autolink)
    → Reserved m (given m idx next autolink) (tagged m (next_tag m).0 idx)
found_slot {m} idx next autolink v inside below unused same =
    let m' = given m idx next autolink in
    let id = tagged m (next_tag m).0 idx in
    let small : idx < 2 ^ m.index_bits = omega (arith, v.narrow) in
    let (_, here) =
      tagged-index m (next_tag m).0 idx (omega (arith, v.bits)) (next_tag-lt m) small in
    let now : slot m' idx ≡ 0 = get_or-set_self m.map idx 0 0 (omega (arith, v.sized)) in
    let others : Others m m' idx = λ j ne.
      let kept : slot m' j ≡ slot m j = get_or-set_ne m.map idx j 0 0 ne in
      (ap₂ (λ t w. t && not (is_free w)) (same j ne) kept, kept) in
    taken id (tagged-pos m idx v.bits small) (omega (arith, here)) (ap (is_used m) here ∙ unused)
      (ap (is_used m') here ∙ clear_used m' idx below now) (ap (slot m') here ∙ now)
      (subst (Others m m') (sym here) others)

-- The first slot that was never used.
fresh-Reserved :
    {m : ObjectMap}
    → IsValid m
    → index m m.free ≡ m.autolink
    → ((i : ℕ) → i < m.autolink → is_free (slot m i) ≡ false)
    → Reserved m (reserve m).1 (reserve m).0 × IsValid (reserve m).1
unfolding Links
fresh-Reserved {m} v e none_free =
    let le = v.linked in
    let top : 2 ^ m.index_bits ≤ 2 ^ 26 = pow-le-pow_right (omega arith) v.bits in
    let narrow = v.narrow in
    let bits : m.index_bits ≤ 32 = omega (arith, v.bits) in
    elim (dec_lt m.autolink m.size) [
      | no np ↦
          let h : m.size ≤ index m m.free = omega arith in
          let all_used : (i : ℕ) → i < m.size → is_used m i ≡ true = λ i lt.
            let t : ltb i m.autolink ≡ true = ground arith in
            rw (t, none_free i (omega arith)) refl in
          rw (reserve_full m h) (
            full all_used (λ i. refl) refl,
            record {
              bits = v.bits;
              narrow = v.narrow;
              sized = v.sized;
              linked = v.linked;
              free_slots = v.free_slots;
              links = v.links;
              distinct = v.distinct;
              complete = v.complete;
              unused = v.unused;
            },
          )
      | yes p ↦
          let a = m.autolink in
          let tag = (next_tag m).0 in
          let (_, next) = tagged-index m tag (a + 1) bits (next_tag-lt m) (omega arith) in
          let now : get_or (set m.map a 0) a 0 ≡ 0 =
            get_or-set_self m.map a 0 0 (omega (arith, v.sized)) in
          rw (reserve_fresh m e p (omega arith)) (
            found_slot a (a + 1) (a + 1) v p (omega arith) (ground arith) (λ j ne. ground arith),
            record {
              bits = v.bits;
              narrow = v.narrow;
              sized = length-set m.map a 0 ∙ v.sized;
              linked = omega arith;
              free_slots = [];
              links = next;
              distinct = tt;
              complete = λ i lt free. elim (ℕ_discrete a i) [
                | yes here ↦
                    true≢false (
                      sym free ∙ ap is_free (ap (λ k. get_or (set m.map a 0) k 0) (sym here) ∙ now))
                | no ne ↦ true≢false (
                    sym free
                    ∙ ap is_free (get_or-set_ne m.map a i 0 0 ne)
                    ∙ none_free i (omega arith))
              ];
              unused = λ i le'.
                  get_or-set_ne m.map a i 0 0 (λ same. omega arith) ∙ v.unused i (omega arith);
            },
          )
    ]

-- A slot of the list.
linked-Reserved :
    {m : ObjectMap} (i : ℕ) (is : List ℕ)
    → IsValid m
    → Links m.map m.index_bits m.autolink (index m m.free) (i ∷ is)
    → Distinct (i ∷ is)
    → ((j : ℕ) → j < m.autolink → is_free (slot m j) ≡ true → IsIn j (i ∷ is))
    → Reserved m (reserve m).1 (reserve m).0 × IsValid (reserve m).1
unfolding Links
linked-Reserved {m} i is v l d listed =
    let idx = index m m.free in
    let e : idx ≡ i = l.0 in
    let lt : idx < m.autolink = omega (arith, l.1) in
    let le = v.linked in
    let bits : m.index_bits ≤ 32 = omega (arith, v.bits) in
    let tag = (next_tag m).0 in
    let next = index m (slot m idx / 2 % 2 ^ 32) in
    let (_, ahead) =
      tagged-index m tag next bits (next_tag-lt m)
        (mod-lt (slot m idx / 2 % 2 ^ 32) (two_pow-pos m.index_bits)) in
    let marked : is_free (slot m idx) ≡ true = ap (λ j. is_free (slot m j)) e ∙ l.2 in
    let below : ltb idx m.autolink ≡ true = ground arith in
    let now : get_or (set m.map idx 0) idx 0 ≡ 0 =
      get_or-set_self m.map idx 0 0 (omega (arith, v.sized)) in
    let from_next : Links m.map m.index_bits m.autolink (index m (tagged m tag next)) is =
      subst (λ n. Links m.map m.index_bits m.autolink n is)
        (sym (ahead ∙ ap (λ j. index m (slot m j / 2 % 2 ^ 32)) e)) l.3 in
    rw (reserve_linked m lt le) (
      found_slot idx next m.autolink v (omega arith) lt (rw (below, marked) refl) (λ j ne. refl),
      record {
        bits = v.bits;
        narrow = v.narrow;
        sized = length-set m.map idx 0 ∙ v.sized;
        linked = v.linked;
        free_slots = is;
        links =
            Links-set m.map m.index_bits m.autolink (index m (tagged m tag next)) idx 0 is
              (subst (λ j. NotIn j is) (sym e) d.0) from_next;
        distinct = d.1;
        complete = λ j lt' free. elim (ℕ_discrete idx j) [
          | yes here ↦ absurd (
              true≢false
                (sym free ∙ ap is_free (ap (λ k. get_or (set m.map idx 0) k 0) (sym here) ∙ now)))
          | no ne ↦
              elim (listed j lt' (ap is_free (sym (get_or-set_ne m.map idx j 0 0 ne)) ∙ free)) [
                | inl same ↦ absurd (ne (e ∙ sym same))
                | inr later ↦ later
              ]
        ];
        unused = λ j le'. get_or-set_ne m.map idx j 0 0 (λ same. omega arith) ∙ v.unused j le';
      },
    )

-- A reservation in a valid map returns an id that is not 0, of a slot that was not in use; the slot is in
-- use now and clear, and the other slots stay. It returns 0 only if every slot is in use, and then all
-- slots stay. The map is valid again.
pub reserve-Reserved :
    {m : ObjectMap} → IsValid m → Reserved m (reserve m).1 (reserve m).0 × IsValid (reserve m).1
unfolding Links
reserve-Reserved {m} v = by_slots v.free_slots v.links v.distinct v.complete
  where
    by_slots :
        (is : List ℕ)
        → Links m.map m.index_bits m.autolink (index m m.free) is
        → Distinct is
        → ((j : ℕ) → j < m.autolink → is_free (slot m j) ≡ true → IsIn j is)
        → Reserved m (reserve m).1 (reserve m).0 × IsValid (reserve m).1
    by_slots [] l d listed = fresh-Reserved v l (λ i lt. elim (Bool-cases (is_free (slot m i))) [
      | inl free ↦ absurd (listed i lt free)
      | inr used ↦ used
    ])
    by_slots (i ∷ is) l d listed = linked-Reserved i is v l d listed

-- The next reservation gets the slot at the head of the list.
pub reserve-head :
    (m : ObjectMap)
    → m.index_bits ≤ 26
    → index m m.free < m.autolink
    → m.autolink ≤ m.size
    → index m (reserve m).0 ≡ index m m.free
reserve-head m bits lt le =
    rw (reserve_linked m lt le)
      (tagged-index m (next_tag m).0 (index m m.free) (omega arith) (next_tag-lt m)
        (mod-lt m.free (two_pow-pos m.index_bits))).1

-- `objectmap_reserve` never reports that a map is full if its size is a power of two, since the index
-- behind its last slot is masked to 0: it returns an id even when all the slots are taken.
pub reserve_never_full :
    (m : ObjectMap) → m.size ≡ 2 ^ m.index_bits → m.index_bits ≤ 26 → (reserve m).0 ≢ 0
unfolding reserve
reserve_never_full m e le =
    let idx = index m m.free in
    let tag = (next_tag m).0 in
    let pos = two_pow-pos m.index_bits in
    let lt : idx < 2 ^ m.index_bits = mod-lt m.free pos in
    let t : leb m.size idx ≡ false = ground arith in
    let (sum, _) = tagged-index m tag idx (omega arith) (next_tag-lt m) lt in
    let tag_pos = next_tag-pos m le in
    let least : 2 ^ m.index_bits ≤ tag * 2 ^ m.index_bits = grind arith in
    let some_id : 0 < tagged m tag idx = omega arith in
    let e' : (reserve m).0 ≡ tagged m tag idx = rw t refl in λ z. omega (arith, some_id, e', z)
