-- ===== src/HashTable/Entries.antt =====
-- The entries of a table as a map from keys to values, with no regard to hashes and probing.
use foundation_lib.Prelude.{
  ℕ, zero, suc, ◌+◌, ◌<◌, ◌≡◌, refl, sym, ◌≢◌, ◌⊎◌, List, [], ◌∷◌, arith, ℕ_discrete, ◌==◌,
  if◌then◌else◌, length, get_or, replicate, get_or-set_self, get_or-set_ne, set,
}
use foundation_lib.HashTable.{Entry, empty, is_live, count}

-- The value of the first entry under a key; 0 if there is none.
abbrev pub find : ℕ → List Entry → ℕ
find k [] = 0
find k (e ∷ es) = if e.0 == k then e.1 else find k es

abbrev pub key_of : List Entry → ℕ → ℕ
key_of es i = (get_or es i empty).0

-- A key stands in no slot but `p`, if at all.
abbrev pub Elsewhere : List Entry → ℕ → ℕ → Type 0
Elsewhere es p k = (i : ℕ) → i < length es → i ≢ p → key_of es i ≢ k

abbrev pub Absent : List Entry → ℕ → Type 0
Absent es k = (i : ℕ) → i < length es → key_of es i ≢ k

pub find-Absent : (k : ℕ) (es : List Entry) → Absent es k → find k es ≡ 0
find-Absent k [] h = refl
find-Absent k (e ∷ es) h = ground (arith, h 0, find-Absent k es (λ i lt. h (suc i) (omega arith)))

pub find-at :
    (k p : ℕ) (es : List Entry)
    → p < length es
    → key_of es p ≡ k
    → Elsewhere es p k
    → find k es ≡ (get_or es p empty).1
find-at k p [] lt e h = absurd (omega arith)
find-at k zero (x ∷ es) lt e h = ground arith
find-at k (suc p) (x ∷ es) lt e h =
    ground
      (arith, h 0, find-at k p es (omega arith) e (λ i l n. h (suc i) (omega arith) (omega arith)))

-- A write of `k` over an entry that has this key or none.
pub find-set :
    (k v p j : ℕ) (es : List Entry)
    → p < length es
    → (key_of es p ≡ k) ⊎ (key_of es p ≡ 0)
    → Elsewhere es p k
    → j ≢ 0
    → find j (set es p (k, v)) ≡ (if k == j then v else find j es)
find-set k v p j [] lt e h nz = absurd (omega arith)
find-set k v zero j (x ∷ es) lt e h nz =
    ground (arith, find-Absent k es (λ i l. h (suc i) (omega arith) (omega arith)))
find-set k v (suc p) j (x ∷ es) lt e h nz = ground (
  arith,
  h 0,
  find-set k v p j es (omega arith) e (λ i l n. h (suc i) (omega arith) (omega arith)) nz,
)

abbrev pub live : Entry → ℕ
live e = if is_live e then 1 else 0

pub count-set :
    (p : ℕ) (e : Entry) (es : List Entry)
    → p < length es
    → count (set es p e) + live (get_or es p empty) ≡ count es + live e
unfolding count
count-set p e [] lt = absurd (omega arith)
count-set zero e (x ∷ es) lt = ground arith
count-set (suc p) e (x ∷ es) lt = ground (arith, count-set p e es)

pub find-replicate : (k n : ℕ) → find k (replicate n empty) ≡ 0
find-replicate k zero = refl
find-replicate k (suc n) = ground (arith, find-replicate k n)

pub count-replicate : (n : ℕ) → count (replicate n empty) ≡ 0
unfolding count
count-replicate zero = refl
count-replicate (suc n) = count-replicate n

pub key_of-set :
    (es : List Entry) (p i k v : ℕ)
    → p < length es
    → key_of (set es p (k, v)) i ≡ (if i == p then k else key_of es i)
key_of-set es p i k v lt = elim (ℕ_discrete i p) [
  | yes e ↦ rw e (ground (arith, get_or-set_self es p (k, v) empty))
  | no ne ↦
      let e : get_or (set es p (k, v)) i empty ≡ get_or es i empty =
        get_or-set_ne es p i (k, v) empty (λ q. ne (sym q)) in
      rw (e, key_of) (ground arith)
]
