-- ===== src/HashTable/Map.antt =====
-- A table is a map: what the three operations do to the values of all keys.
use foundation_lib.Prelude.{
  ℕ, ◌<◌, ◌≡◌, refl, sym, ap, ◌∙◌, ◌≢◌, inl, inr, arith, ℕ_discrete, ◌==◌, if◌then◌else◌, length,
  length-set,
}
use mathlib.Core.Path.{subst, subst₂}
use foundation_lib.HashTable.{HashTable, entry, store, home}
use foundation_lib.HashTable.Probe.{probe, probe-onto}
use foundation_lib.HashTable.Entries.{
  find, key_of, Elsewhere, Absent, find-Absent, find-at, find-set, key_of-set,
}
use foundation_lib.HashTable.Search.{First, Never, Misses, key_at, First-unique}

module _ (hash : ℕ → ℕ) where
  abbrev pub start : HashTable → ℕ → ℕ
  start t k = home hash t k

  -- A search for `k` ends in the slot `i`.
  abbrev pub Finds : HashTable → ℕ → ℕ → Type 0
  Finds t k i = (d : ℕ) × First t (start t k) k d × (probe t.capacity (start t k) d ≡ i)

  pub record IsValid (t : HashTable) : Type 0 where
    pub storage : length t.entries ≡ t.capacity
    pub room : 0 < t.capacity
    -- A search for the key of a slot ends in that slot.
    pub found : (k i : ℕ) → i < t.capacity → key_of t.entries i ≡ k → k ≢ 0 → Finds t k i

  module _ {t : HashTable} (v : IsValid t) (k : ℕ) (nz : k ≢ 0) where
    -- A key stands in the slot where the search for it ends, or nowhere.
    pub First-Elsewhere :
        {d : ℕ} → First t (start t k) k d → Elsewhere t.entries (probe t.capacity (start t k) d) k
    First-Elsewhere {d} f i lt ne e =
        let (d', f', at) = v.found k i (omega (arith, v.storage)) e nz in
        ne (sym at ∙ ap (probe t.capacity (start t k)) (First-unique t (start t k) k f' f))

    pub Never-Absent : Never t (start t k) k → Absent t.entries k
    Never-Absent n i lt e =
        let (d, f, at) = v.found k i (omega (arith, v.storage)) e nz in
        absurd (elim f.hit [ inl h ↦ (n d f.bound).0 h | inr h ↦ (n d f.bound).1 h ])

    -- A search that ends at an empty slot is for a key that is not there.
    pub First-Absent :
        {d : ℕ} → First t (start t k) k d → key_at t (start t k) d ≢ k → Absent t.entries k
    First-Absent {d} f ne i lt e = elim (ℕ_discrete i (probe t.capacity (start t k) d)) [
      | yes same ↦ ne (subst (λ s. key_of t.entries s ≡ k) same e)
      | no other ↦ First-Elsewhere f i lt other e
    ]

    -- Every slot has a key, and none has this one.
    pub Never-IsFull : Never t (start t k) k → (i : ℕ) → i < t.capacity → key_of t.entries i ≢ 0
    Never-IsFull n i lt =
        let (d, small, at) = probe-onto t.capacity (start t k) i (omega (arith, v.room)) lt in
        subst (λ s. key_of t.entries s ≢ 0) at (n d small).1

    -- Writes at the slot where the search ends.
    module _ (d x : ℕ) (f : First t (start t k) k d) where
      abbrev pub p : ℕ
      p = probe t.capacity (start t k) d

      pub p-lt : p < length t.entries
      p-lt = omega (arith, v.storage, v.room)

      abbrev pub written : HashTable
      written = store t p k x

      -- A slot that is passed by is not written.
      passes : (k' e : ℕ) → Misses t (start t k') k' e → k ≢ k' → Misses written (start t k') k' e
      passes k' e h ne =
          ground (arith, key_of-set t.entries p (probe t.capacity (start t k') e) k x p-lt)

      before_same : (e : ℕ) → Misses t (start t k) k e → Misses written (start t k) k e
      before_same e h =
          ground (arith, f.hit, key_of-set t.entries p (probe t.capacity (start t k) e) k x p-lt)

      found_first : Finds written k p
      found_first = (
        d,
        record {
          bound = f.bound;
          hit = inl (ground (arith, key_of-set t.entries p p k x p-lt));
          before = λ e lt. before_same e (f.before e lt);
        },
        refl,
      )

      found_other :
          (k' i : ℕ)
          → i < t.capacity
          → i ≢ p
          → key_of t.entries i ≡ k'
          → k' ≢ 0
          → Finds written k' i
      found_other k' i lt ne e nz' =
          let (d', f', at) = v.found k' i lt e nz' in
          let differ : k ≢ k' =
            λ same. First-Elsewhere f i (omega (arith, v.storage)) ne (e ∙ sym same) in
          let kept : key_at written (start t k') d' ≡ k' =
            ground (arith, key_of-set t.entries p (probe t.capacity (start t k') d') k x p-lt) in
          (
            d',
            record {
              bound = f'.bound;
              hit = inl kept;
              before = λ j small. passes k' j (f'.before j small) differ;
            },
            at,
          )

      pub written-IsValid : IsValid written
      written-IsValid = record {
        storage = length-set t.entries p (k, x) ∙ v.storage;
        room = v.room;
        found = λ k' i lt e nz'. elim (ℕ_discrete i p) [
          | yes same ↦
              let key : k ≡ k' = ground (arith, key_of-set t.entries p i k x p-lt) in
              subst₂ (Finds written) key (sym same) found_first
          | no other ↦
              found_other k' i lt other (ground (arith, key_of-set t.entries p i k x p-lt)) nz'
        ];
      }

      pub found_at : find k t.entries ≡ (if key_at t (start t k) d == k then (entry t p).1 else 0)
      found_at = elim (ℕ_discrete (key_at t (start t k) d) k) [
        | yes e ↦ find-at k p t.entries p-lt e (First-Elsewhere f) ∙ ground arith
        | no ne ↦ find-Absent k t.entries (First-Absent f ne) ∙ ground arith
      ]

      pub find-written :
          (j : ℕ) → j ≢ 0 → find j written.entries ≡ (if k == j then x else find j t.entries)
      find-written j = find-set k x p j t.entries p-lt f.hit (First-Elsewhere f)
