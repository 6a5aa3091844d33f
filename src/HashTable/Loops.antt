-- ===== src/HashTable/Loops.antt =====
-- The loops of the three operations end where the search ends, within a round for each slot.
use foundation_lib.Prelude.{
  ℕ, zero, suc, ◌+◌, ◌%◌, ◌≤◌, ◌<◌, ◌≡◌, ap, ◌∙◌, inl, inr, true, false, some, arith, ℕ_discrete,
  ◌==◌, if◌then◌else◌,
}
use mathlib.Core.Path.{subst}
use foundation_lib.HashTable.{
  home, set, erase, get, HashTable, entry, store, set_from, erase_from, get_from,
}
use foundation_lib.HashTable.Probe.{probe, probe-zero, probe-suc, probe-ne-start, probe_back}
use foundation_lib.HashTable.Search.{First, Never, key_at}

module _ (t : HashTable) (start key : ℕ) (inside : start < t.capacity) where
  abbrev slot : ℕ → ℕ
  slot d = probe t.capacity start d

  round_trip : (j : ℕ) → j + 1 ≡ t.capacity → (slot j + 1) % t.capacity ≡ start
  round_trip j last =
      probe-suc t.capacity start j
      ∙ ap (probe t.capacity start) last
      ∙ probe_back t.capacity start inside

  set_from-First :
      (fuel j v : ℕ) {d : ℕ}
      → First t start key d
      → j ≤ d
      → d < fuel + j
      → set_from fuel t (slot j) start key v ≡ some (true, store t (slot d) key v)
  unfolding set_from
  set_from-First zero j v f le lt = absurd (omega arith)
  set_from-First (suc fuel) j v {d} f le lt = elim (ℕ_discrete j d) [
    | yes e ↦ rw e (elim f.hit [ inl h ↦ ground arith | inr h ↦ ground arith ])
    | no ne ↦
        let bound = f.bound in
        ground (
          arith,
          f.before j (omega arith),
          probe-suc t.capacity start j,
          probe-ne-start t.capacity start (j + 1) inside (omega arith) (omega arith),
          set_from-First fuel (j + 1) v f (omega arith) (omega arith),
        )
  ]

  set_from-Never :
      (fuel j v : ℕ)
      → Never t start key
      → j < t.capacity
      → fuel + j ≡ t.capacity
      → set_from fuel t (slot j) start key v ≡ some (false, t)
  unfolding set_from
  set_from-Never zero j v f lt e = absurd (omega arith)
  set_from-Never (suc fuel) j v f lt e = elim (ℕ_discrete (j + 1) t.capacity) [
    | yes last ↦
        let back : (slot j + 1) % t.capacity ≡ start = round_trip j last in ground (arith, f j lt)
    | no ne ↦ ground (
      arith,
      f j lt,
      probe-suc t.capacity start j,
      probe-ne-start t.capacity start (j + 1) inside (omega arith) (omega arith),
      set_from-Never fuel (j + 1) v f (omega arith) (omega arith),
    )
  ]

  erase_from-First :
      (fuel j : ℕ) {d : ℕ}
      → First t start key d
      → j ≤ d
      → d < fuel + j
      → erase_from fuel t (slot j) start key
        ≡ some (if key_at t start d == key then store t (slot d) key 0 else t)
  unfolding erase_from
  erase_from-First zero j f le lt = absurd (omega arith)
  erase_from-First (suc fuel) j {d} f le lt = elim (ℕ_discrete j d) [
    | yes e ↦ rw e (elim f.hit [ inl h ↦ ground arith | inr h ↦ ground arith ])
    | no ne ↦
        let bound = f.bound in
        ground (
          arith,
          f.before j (omega arith),
          probe-suc t.capacity start j,
          probe-ne-start t.capacity start (j + 1) inside (omega arith) (omega arith),
          erase_from-First fuel (j + 1) f (omega arith) (omega arith),
        )
  ]

  erase_from-Never :
      (fuel j : ℕ)
      → Never t start key
      → j < t.capacity
      → fuel + j ≡ t.capacity
      → erase_from fuel t (slot j) start key ≡ some t
  unfolding erase_from
  erase_from-Never zero j f lt e = absurd (omega arith)
  erase_from-Never (suc fuel) j f lt e = elim (ℕ_discrete (j + 1) t.capacity) [
    | yes last ↦
        let back : (slot j + 1) % t.capacity ≡ start = round_trip j last in ground (arith, f j lt)
    | no ne ↦ ground (
      arith,
      f j lt,
      probe-suc t.capacity start j,
      probe-ne-start t.capacity start (j + 1) inside (omega arith) (omega arith),
      erase_from-Never fuel (j + 1) f (omega arith) (omega arith),
    )
  ]

  get_from-First :
      (fuel j : ℕ) {d : ℕ}
      → First t start key d
      → j ≤ d
      → d < fuel + j
      → get_from fuel t (slot j) start key
        ≡ some (if key_at t start d == key then (entry t (slot d)).1 else 0)
  unfolding get_from
  get_from-First zero j f le lt = absurd (omega arith)
  get_from-First (suc fuel) j {d} f le lt = elim (ℕ_discrete j d) [
    | yes e ↦ rw e (elim f.hit [ inl h ↦ ground arith | inr h ↦ ground arith ])
    | no ne ↦
        let bound = f.bound in
        ground (
          arith,
          f.before j (omega arith),
          probe-suc t.capacity start j,
          probe-ne-start t.capacity start (j + 1) inside (omega arith) (omega arith),
          get_from-First fuel (j + 1) f (omega arith) (omega arith),
        )
  ]

  get_from-Never :
      (fuel j : ℕ)
      → Never t start key
      → j < t.capacity
      → fuel + j ≡ t.capacity
      → get_from fuel t (slot j) start key ≡ some 0
  unfolding get_from
  get_from-Never zero j f lt e = absurd (omega arith)
  get_from-Never (suc fuel) j f lt e = elim (ℕ_discrete (j + 1) t.capacity) [
    | yes last ↦
        let back : (slot j + 1) % t.capacity ≡ start = round_trip j last in ground (arith, f j lt)
    | no ne ↦ ground (
      arith,
      f j lt,
      probe-suc t.capacity start j,
      probe-ne-start t.capacity start (j + 1) inside (omega arith) (omega arith),
      get_from-Never fuel (j + 1) f (omega arith) (omega arith),
    )
  ]

-- The operations search from the key's home, through the whole table if need be.
module _ (hash : ℕ → ℕ) (t : HashTable) (key : ℕ) (pos : 0 < t.capacity) where
  abbrev start : ℕ
  start = home hash t key

  start-lt : start < t.capacity
  start-lt = omega arith

  at_home : probe t.capacity start 0 ≡ start
  at_home = probe-zero t.capacity start start-lt

  pub set-First :
      (v : ℕ) {d : ℕ}
      → First t start key d
      → set hash t key v ≡ some (true, store t (probe t.capacity start d) key v)
  unfolding set
  set-First v {d} f =
      subst
        (λ ie.
          set_from t.capacity t ie start key v
          ≡ some (true, store t (probe t.capacity start d) key v))
        at_home
        (set_from-First t start key start-lt t.capacity 0 v f (omega arith)
          (omega (arith, f.bound)))

  pub set-Never : (v : ℕ) → Never t start key → set hash t key v ≡ some (false, t)
  unfolding set
  set-Never v f =
      subst (λ ie. set_from t.capacity t ie start key v ≡ some (false, t)) at_home
        (set_from-Never t start key start-lt t.capacity 0 v f pos (omega arith))

  pub erase-First :
      {d : ℕ}
      → First t start key d
      → erase hash t key
        ≡ some (if key_at t start d == key then store t (probe t.capacity start d) key 0 else t)
  unfolding erase
  erase-First {d} f =
      subst
        (λ ie.
          erase_from t.capacity t ie start key
          ≡ some (if key_at t start d == key then store t (probe t.capacity start d) key 0 else t))
        at_home
        (erase_from-First t start key start-lt t.capacity 0 f (omega arith)
          (omega (arith, f.bound)))

  pub erase-Never : Never t start key → erase hash t key ≡ some t
  unfolding erase
  erase-Never f =
      subst (λ ie. erase_from t.capacity t ie start key ≡ some t) at_home
        (erase_from-Never t start key start-lt t.capacity 0 f pos (omega arith))

  pub get-First :
      {d : ℕ}
      → First t start key d
      → get hash t key
        ≡ some (if key_at t start d == key then (entry t (probe t.capacity start d)).1 else 0)
  unfolding get
  get-First {d} f =
      subst
        (λ ie.
          get_from t.capacity t ie start key
          ≡ some (if key_at t start d == key then (entry t (probe t.capacity start d)).1 else 0))
        at_home
        (get_from-First t start key start-lt t.capacity 0 f (omega arith) (omega (arith, f.bound)))

  pub get-Never : Never t start key → get hash t key ≡ some 0
  unfolding get
  get-Never f =
      subst (λ ie. get_from t.capacity t ie start key ≡ some 0) at_home
        (get_from-Never t start key start-lt t.capacity 0 f pos (omega arith))
