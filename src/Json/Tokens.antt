-- ===== src/Json/Tokens.antt =====
-- The token array of foundation/json.c: what a change of a token keeps.
use mathlib.Core.Bool.{true≢false}
use foundation_lib.Prelude.{ℕ, zero, suc, ◌≡◌, refl, sym, ap, Bool, true, false, not, List, [], ◌∷◌}
use foundation_lib.Json.{
  JsonType, JsonToken, update_token, is_undefined, is_valid_token, set_token_primitive,
  set_token_complex, set_token_id, set_sibling,
}

abbrev pub Valid : List JsonToken → ℕ → Type 0
Valid tokens i = is_valid_token tokens i ≡ true

-- No token becomes undefined.
abbrev pub Keeps : List JsonToken → List JsonToken → Type 0
Keeps tokens later = (i : ℕ) → Valid tokens i → Valid later i

defined : (b : Bool) → not b ≡ true → b ≡ false
defined true e = absurd (true≢false (sym e))
defined false e = refl

update-Keeps :
    (f : JsonToken → JsonToken)
    → ((t : JsonToken) → is_undefined t.type ≡ false → is_undefined (f t).type ≡ false)
    → (tokens : List JsonToken) (i : ℕ) → Keeps tokens (update_token f tokens i)
update-Keeps f h [] i j v = refl
update-Keeps f h (t ∷ tokens) zero zero v = ap not (h t (defined (is_undefined t.type) v))
update-Keeps f h (t ∷ tokens) zero (suc j) v = v
update-Keeps f h (t ∷ tokens) (suc i) zero v = v
update-Keeps f h (t ∷ tokens) (suc i) (suc j) v = update-Keeps f h tokens i j v

update-Valid :
    (f : JsonToken → JsonToken)
    → ((t : JsonToken) → is_undefined (f t).type ≡ false)
    → (tokens : List JsonToken) (i : ℕ) → Valid (update_token f tokens i) i
update-Valid f h [] i = refl
update-Valid f h (t ∷ tokens) zero = ap not (h t)
update-Valid f h (t ∷ tokens) (suc i) = update-Valid f h tokens i

pub set_token_id-Keeps :
    (tokens : List JsonToken) (i n k : ℕ) → Keeps tokens (set_token_id tokens i n k)
unfolding set_token_id
set_token_id-Keeps tokens i n k = update-Keeps _ (λ t e. e) tokens i

pub set_sibling-Keeps : (tokens : List JsonToken) (i n : ℕ) → Keeps tokens (set_sibling tokens i n)
unfolding set_sibling
set_sibling-Keeps tokens i n = update-Keeps _ (λ t e. e) tokens i

pub set_token_complex-Keeps :
    (tokens : List JsonToken) (i : ℕ) (kind : JsonType)
    → is_undefined kind ≡ false
    → Keeps tokens (set_token_complex tokens i kind) × Valid (set_token_complex tokens i kind) i
unfolding set_token_complex
set_token_complex-Keeps tokens i kind d =
    (update-Keeps _ (λ t e. d) tokens i, update-Valid _ (λ t. d) tokens i)

pub set_token_primitive-Keeps :
    (tokens : List JsonToken) (i : ℕ) (kind : JsonType) (n k : ℕ)
    → is_undefined kind ≡ false
    → Keeps tokens (set_token_primitive tokens i kind n k)
      × Valid (set_token_primitive tokens i kind n k) i
unfolding set_token_primitive
set_token_primitive-Keeps tokens i kind n k d =
    (update-Keeps _ (λ t e. d) tokens i, update-Valid _ (λ t. d) tokens i)
