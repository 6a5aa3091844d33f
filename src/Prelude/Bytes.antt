-- ===== src/Prelude/Bytes.antt =====
-- Lists of bytes.
use Prim.{tt}
use Prim.Native.Nat.{ℕ, zero, suc, ◌<◌}
use mathlib.Core.List.{List, [], ◌∷◌, ◌++◌}
use native.Mathlib.Omega.{arith}
use foundation_lib.Prelude.Lists.{take, drop, replicate}

abbrev pub Bytes : List ℕ → Type 0
Bytes [] = Unit
Bytes (b ∷ bs) = (b < 256) × Bytes bs

pub take-Bytes : (n : ℕ) (bytes : List ℕ) → Bytes bytes → Bytes (take n bytes)
take-Bytes zero bytes b = tt
take-Bytes (suc n) [] b = tt
take-Bytes (suc n) (x ∷ bytes) b = (b.0, take-Bytes n bytes b.1)

pub drop-Bytes : (n : ℕ) (bytes : List ℕ) → Bytes bytes → Bytes (drop n bytes)
drop-Bytes zero bytes b = b
drop-Bytes (suc n) [] b = tt
drop-Bytes (suc n) (x ∷ bytes) b = drop-Bytes n bytes b.1

pub append-Bytes : (xs ys : List ℕ) → Bytes xs → Bytes ys → Bytes (xs ++ ys)
append-Bytes [] ys b c = c
append-Bytes (x ∷ xs) ys b c = (b.0, append-Bytes xs ys b.1 c)

pub replicate-Bytes : (n : ℕ) → Bytes (replicate n 0)
replicate-Bytes zero = tt
replicate-Bytes (suc n) = (omega arith, replicate-Bytes n)
