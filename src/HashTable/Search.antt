-- ===== src/HashTable/Search.antt =====
-- The slot where a search for a key ends: the first that has this key or none.
use foundation_lib.Prelude.{
  ℕ, zero, suc, ◌≤◌, ◌<◌, ◌≡◌, ◌≢◌, ◌⊎◌, inl, inr, arith, dec_lt, ℕ_discrete,
}
use foundation_lib.HashTable.{HashTable, entry}
use foundation_lib.HashTable.Probe.{probe}

-- The key in the slot that is visited after `d` steps.
abbrev pub key_at : HashTable → ℕ → ℕ → ℕ
key_at t start d = (entry t (probe t.capacity start d)).0

abbrev pub Misses : HashTable → ℕ → ℕ → ℕ → Type 0
Misses t start key d = (key_at t start d ≢ key) × (key_at t start d ≢ 0)

pub record First (t : HashTable) (start key d : ℕ) : Type 0 where
  pub bound : d < t.capacity
  pub hit : (key_at t start d ≡ key) ⊎ (key_at t start d ≡ 0)
  pub before : (e : ℕ) → e < d → Misses t start key e

-- No slot has the key, or is empty.
abbrev pub Never : HashTable → ℕ → ℕ → Type 0
Never t start key = (e : ℕ) → e < t.capacity → Misses t start key e

module _ (t : HashTable) (start key : ℕ) where
  search_below :
      (n : ℕ)
      → n ≤ t.capacity
      → ((d : ℕ) × First t start key d) ⊎ ((e : ℕ) → e < n → Misses t start key e)
  search_below zero h = inr (λ e lt. absurd (omega arith))
  search_below (suc n) h = elim (search_below n (omega arith)) [
    | inl found ↦ inl found
    | inr none_yet ↦ elim (ℕ_discrete (key_at t start n) key) [
      | yes e ↦ inl (n, record { bound = h; hit = inl e; before = none_yet })
      | no ne ↦ elim (ℕ_discrete (key_at t start n) 0) [
        | yes e ↦ inl (n, record { bound = h; hit = inr e; before = none_yet })
        | no nz ↦ inr (λ e lt. elim (ℕ_discrete e n) [
          | yes same ↦ rw same (ne, nz)
          | no other ↦ none_yet e (omega arith)
        ])
      ]
    ]
  ]

  pub search : ((d : ℕ) × First t start key d) ⊎ Never t start key
  search = search_below t.capacity (omega arith)

  -- A search ends in one slot.
  pub First-unique : {d e : ℕ} → First t start key d → First t start key e → d ≡ e
  First-unique {d} {e} f g = elim (dec_lt d e) [
    | yes p ↦ absurd (elim f.hit [ inl h ↦ (g.before d p).0 h | inr h ↦ (g.before d p).1 h ])
    | no p ↦ elim (dec_lt e d) [
      | yes q ↦ absurd (elim g.hit [ inl h ↦ (f.before e q).0 h | inr h ↦ (f.before e q).1 h ])
      | no q ↦ omega arith
    ]
  ]
