-- ===== src/HashTable/Probe.antt =====
-- The slots that a search visits: `(start + d) % capacity` after `d` steps.
use foundation_lib.Prelude.{ℕ, ◌+◌, ◌-◌, ◌%◌, ◌<◌, ◌≡◌, ap, ◌∙◌, ◌≢◌, arith, dec_lt}
use native.Mathlib.Nat.{mod-add-mod, mod-eq_of_lt, mod-eq-sub-mod}

abbrev pub probe : ℕ → ℕ → ℕ → ℕ
probe n start d = (start + d) % n

pub probe-zero : (n start : ℕ) → start < n → probe n start 0 ≡ start
probe-zero n start h = mod-eq_of_lt (omega arith) ∙ omega arith

pub probe-suc : (n start d : ℕ) → (probe n start d + 1) % n ≡ probe n start (d + 1)
probe-suc n start d = rw mod-add-mod (ap (λ k. k % n) (omega arith))

-- A search comes back to its start after `capacity` steps and not before.
pub probe-ne-start : (n start d : ℕ) → start < n → 0 < d → d < n → probe n start d ≢ start
probe-ne-start n start d h pos lt = elim (dec_lt (start + d) n) [
  | yes p ↦ omega (arith, mod-eq_of_lt p)
  | no p ↦
      let small : start + d - n < n = omega arith in
      omega (arith, mod-eq-sub-mod {n = start + d} {m = n} (omega arith), mod-eq_of_lt small)
]

pub probe_back : (n start : ℕ) → start < n → probe n start n ≡ start
probe_back n start h =
    let small : start + n - n < n = omega arith in
    omega (arith, mod-eq-sub-mod {n = start + n} {m = n} (omega arith), mod-eq_of_lt small)

pub probe-lt : (n start d : ℕ) → 0 < n → probe n start d < n
probe-lt n start d h = omega arith

-- It comes by every slot.
pub probe-onto : (n start i : ℕ) → start < n → i < n → (d : ℕ) × (d < n) × (probe n start d ≡ i)
probe-onto n start i h lt = elim (dec_lt i start) [
  | no p ↦ (i - start, omega arith, ap (λ k. k % n) (omega arith) ∙ mod-eq_of_lt lt)
  | yes p ↦
      let e : start + (i + n - start) - n ≡ i = omega arith in
      (
        i + n - start,
        omega arith,
        mod-eq-sub-mod {n = start + (i + n - start)} {m = n} (omega arith)
            ∙ ap (λ k. k % n) e
            ∙ mod-eq_of_lt lt,
      )
]
