-- ===== src/Json/Runs.antt =====
-- What two runs of the parser of foundation/json.c with different token arrays come to.
use foundation_lib.Prelude.{
  ℕ, ◌<◌, ◌≡◌, refl, ◌≢◌, Bool, true, false, ◌&&◌, Option, none, some, List,
}
use foundation_lib.Json.{JsonToken, npos, Parsed, Call, parse_value, object_loop, ◌>>=◌}
use foundation_lib.Json.Tokens.{Valid, Keeps}

abbrev is_value : Call → Bool
is_value parse_value = true
is_value _ = false

abbrev pub state : ℕ → List JsonToken → ℕ → Parsed
state pos tokens current = record { pos = pos; tokens = tokens; current = current }

-- Both runs end at one position with one number of tokens, no token of either array became undefined,
-- and a value that was found has a token.
pub data Outcome (call : Call) (t₁ t₂ : List JsonToken) (c : ℕ)
    : Option Parsed → Option Parsed → Type 0 where
  neither : Outcome call t₁ t₂ c none none
  found :
      (pos current : ℕ) {u₁ u₂ : List JsonToken}
      → Keeps t₁ u₁
      → Keeps t₂ u₂
      → (is_value call ≡ true → pos ≢ npos → Valid u₁ c × Valid u₂ c)
      → Outcome call t₁ t₂ c (some (state pos u₁ current)) (some (state pos u₂ current))

-- The loop over an object holds the index of a token that was set, or 0.
abbrev pub Pending : Call → (size pos : ℕ) → List JsonToken → Type 0
Pending (object_loop last) size pos tokens = last ≢ 0 → pos < size → Valid tokens last
Pending _ size pos tokens = Unit

-- A later call takes the place of an earlier one.
pub rebase :
    {call later : Call} {t₁ t₂ u₁ u₂ : List JsonToken} {c d : ℕ} {r₁ r₂ : Option Parsed}
    → Keeps t₁ u₁
    → Keeps t₂ u₂
    → (is_value call ≡ true → Valid u₁ c × Valid u₂ c)
    → Outcome later u₁ u₂ d r₁ r₂
    → Outcome call t₁ t₂ c r₁ r₂
rebase k₁ k₂ made neither = neither
rebase {c = c} k₁ k₂ made (found pos current l₁ l₂ made') =
    found pos current (λ i v. l₁ i (k₁ i v)) (λ i v. l₂ i (k₂ i v))
      (λ e ne. (l₁ c (made e).0, l₂ c (made e).1))

-- A failure.
pub failed :
    (call : Call) {t₁ t₂ u₁ u₂ : List JsonToken} (c current : ℕ)
    → Keeps t₁ u₁
    → Keeps t₂ u₂
    → Outcome call t₁ t₂ c (some (state npos u₁ current)) (some (state npos u₂ current))
failed call c current k₁ k₂ = found npos current k₁ k₂ (λ e ne. absurd (ne refl))

pub and_false : (b : Bool) → (b && false) ≡ false
and_false true = refl
and_false false = refl

-- What goes on with a value.
pub then-Outcome :
    {call : Call} {t₁ t₂ s₁ s₂ : List JsonToken} {c d : ℕ} {r₁ r₂ : Option Parsed}
    (f : Parsed → Option Parsed)
    → Outcome parse_value s₁ s₂ d r₁ r₂
    → ((pos current : ℕ) (u₁ u₂ : List JsonToken)
        → (pos ≢ npos → Valid u₁ d × Valid u₂ d)
        → Keeps s₁ u₁
        → Keeps s₂ u₂
        → Outcome call t₁ t₂ c (f (state pos u₁ current)) (f (state pos u₂ current)))
    → Outcome call t₁ t₂ c (r₁ >>= f) (r₂ >>= f)
then-Outcome f neither h = neither
then-Outcome f (found pos current k₁ k₂ made) h = h pos current _ _ (made refl) k₁ k₂
