-- ===== src/HashTable/Operations.antt =====
-- What the table's operations do to the map of its entries.
use foundation_lib.Prelude.{
  ℕ, ◌+◌, ◌<◌, ◌≡◌, refl, sym, ap, ◌∙◌, ◌≢◌, ◌⊎◌, inl, inr, true, false, some, arith, ℕ_discrete,
  ◌==◌, if◌then◌else◌, length-replicate, get_or-replicate,
}
use mathlib.Core.Path.{subst}
use foundation_lib.HashTable.{
  HashTable, Entry, empty, store, set, erase, get, size, clear, initialize,
}
use foundation_lib.HashTable.Probe.{probe}
use foundation_lib.HashTable.Entries.{
  find, key_of, Absent, find-Absent, live, count-set, find-replicate, count-replicate,
}
use foundation_lib.HashTable.Search.{First, key_at, search}
use foundation_lib.HashTable.Loops.{
  set-First, set-Never, erase-First, erase-Never, get-First, get-Never,
}
use foundation_lib.HashTable.Map.{
  IsValid, start, Never-Absent, First-Absent, Never-IsFull, written-IsValid, found_at, find-written,
  p-lt,
}

module _ (hash : ℕ → ℕ) where
  -- `t'` is `t` with the value `x` under the key `k`.
  pub record Writes (t : HashTable) (k x : ℕ) (t' : HashTable) : Type 0 where
    pub valid : IsValid hash t'
    pub values : (j : ℕ) → j ≢ 0 → find j t'.entries ≡ (if k == j then x else find j t.entries)
    pub size : size t' + live (k, find k t.entries) ≡ size t + live (k, x)
    pub capacity : t'.capacity ≡ t.capacity

  module _ {t : HashTable} (v : IsValid hash t) (k : ℕ) (nz : k ≢ 0) where
    store-Writes :
        (d x : ℕ) (f : First t (start hash t k) k d)
        → Writes t k x (store t (probe t.capacity (start hash t k) d) k x)
    unfolding size
    store-Writes d x f = record {
      valid = written-IsValid hash v k nz d x f;
      values = find-written hash v k nz d x f;
      size =
          let p = probe t.capacity (start hash t k) d in
          ground (
            arith,
            f.hit,
            found_at hash v k nz d x f,
            count-set p (k, x) t.entries (p-lt hash v k nz d x f),
          );
      capacity = refl;
    }

    -- A lookup returns the value under the key, 0 if there is none, after no more rounds than there
    -- are slots.
    pub get-find : get hash t k ≡ some (find k t.entries)
    get-find = elim (search t (start hash t k) k) [
      | inl (d, f) ↦ get-First hash t k v.room f ∙ ap some (sym (found_at hash v k nz d 0 f))
      | inr n ↦
          get-Never hash t k v.room n
          ∙ ap some (sym (find-Absent k t.entries (Never-Absent hash v k nz n)))
    ]

    -- Setting a key returns true and the table with this value under this key, no other key's value
    -- changed and the size counting live keys; or it returns false and leaves the table alone, and then
    -- the key is not there and no slot is free.
    pub set-find :
        (x : ℕ)
        → ((t' : HashTable) × (set hash t k x ≡ some (true, t')) × Writes t k x t')
          ⊎ ((set hash t k x ≡ some (false, t))
              × Absent t.entries k
              × ((i : ℕ) → i < t.capacity → key_of t.entries i ≢ 0))
    set-find x = elim (search t (start hash t k) k) [
      | inl (d, f) ↦ inl (
        store t (probe t.capacity (start hash t k) d) k x,
        set-First hash t k v.room x f,
        store-Writes d x f,
      )
      | inr n ↦
          inr
            (set-Never hash t k v.room x n, Never-Absent hash v k nz n, Never-IsFull hash v k nz n)
    ]

    unwritten : find k t.entries ≡ 0 → Writes t k 0 t
    unwritten e = record {
      valid = v;
      values = λ j _. elim (ℕ_discrete k j) [
        | yes s ↦
            let e' : find j t.entries ≡ 0 = subst (λ i. find i t.entries ≡ 0) s e in ground arith
        | no ne ↦ ground arith
      ];
      size = ground arith;
      capacity = refl;
    }

    -- Erasing a key always ends, and returns the table with the value 0 under this key, every other
    -- key's value unchanged.
    pub erase-find : (t' : HashTable) × (erase hash t k ≡ some t') × Writes t k 0 t'
    erase-find = elim (search t (start hash t k) k) [
      | inr n ↦ (
        t,
        erase-Never hash t k v.room n,
        unwritten (find-Absent k t.entries (Never-Absent hash v k nz n)),
      )
      | inl (d, f) ↦ elim (ℕ_discrete (key_at t (start hash t k) d) k) [
        | yes e ↦ (
          store t (probe t.capacity (start hash t k) d) k 0,
          erase-First hash t k v.room f ∙ ground arith,
          store-Writes d 0 f,
        )
        | no ne ↦ (
          t,
          erase-First hash t k v.room f ∙ ground arith,
          unwritten (find-Absent k t.entries (First-Absent hash v k nz f ne)),
        )
      ]
    ]

  -- A new table is valid and has no key, and so has one that was cleared.
  pub initialize-IsValid :
      (n : ℕ)
      → 0 < n
      → IsValid hash (initialize n)
        × ((k : ℕ) → find k (initialize n).entries ≡ 0)
        × (size (initialize n) ≡ 0)
  unfolding initialize size
  initialize-IsValid n pos = (
    record {
      storage = length-replicate n empty;
      room = pos;
      found =
          λ k i lt e nz. absurd (nz (sym e ∙ ap (λ (x : Entry). x.0) (get_or-replicate n i empty)));
    },
    λ k. find-replicate k n,
    count-replicate n,
  )

  clear-eq-initialize : (t : HashTable) → clear t ≡ initialize t.capacity
  unfolding clear initialize
  clear-eq-initialize t = refl
