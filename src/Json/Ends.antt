-- ===== src/Json/Ends.antt =====
-- Where a call or a turn of the parser of foundation/json.c ends.
use foundation_lib.Prelude.{
  ℕ, ◌+◌, ◌-◌, ◌*◌, ◌≤◌, ◌<◌, ◌≡◌, ◌⊎◌, inl, inr, Bool, true, false, ◌||◌, Option, some, List,
  arith, ◌==◌, if◌then◌else◌, get_or,
}
use foundation_lib.Json.{
  npos, Parsed, Call, parse_value, parse_object, parse_array, object_loop, array_loop, ◌>>=◌,
}
use foundation_lib.Json.Lexer.{Forward, later}

abbrev pub is_closing : ℕ → Bool
is_closing c = c == b']' || c == b'}' || c == b','

-- How far a value takes the parser: beyond its position, or to a character that ends it.
abbrev pub Advances : List ℕ → (pos end : ℕ) → Type 0
Advances buffer pos end =
    (end ≡ npos) ⊎ (pos < end) ⊎ ((pos ≤ end) × (is_closing (get_or buffer end 0) ≡ true))

-- A result that goes forward.
pub data Done (buffer : List ℕ) (pos : ℕ) : Option Parsed → Type 0 where
  done : (r : Parsed) → Forward pos r.pos → Done buffer pos (some r)

pub data Found (buffer : List ℕ) (pos : ℕ) : Option Parsed → Type 0 where
  found : (r : Parsed) → Advances buffer pos r.pos → Found buffer pos (some r)

-- What is known of the result of a call.
abbrev pub Ends : List ℕ → Call → ℕ → Option Parsed → Type 0
Ends buffer parse_value pos r = Found buffer pos r
Ends buffer _ pos r = Done buffer pos r

-- The fuel of a call at a position.
abbrev pub need : (size : ℕ) → Call → (pos : ℕ) → ℕ
need size parse_value pos = 3 * (size - pos) + 1
need size parse_object pos = 3 * (size - pos) + 2
need size parse_array pos = 3 * (size - pos) + 3
need size (object_loop last) pos = 3 * (size - pos) + 1
need size (array_loop last) pos = 3 * (size - pos) + 2

pub if-le : (b : Bool) (x y n : ℕ) → n ≤ x → n ≤ y → n ≤ (if b then x else y)
if-le true x y n le le' = le
if-le false x y n le le' = le'

pub ahead_of :
    (buffer : List ℕ) (pos p end : ℕ) → pos < p → Advances buffer p end → (end ≡ npos) ⊎ (pos < end)
ahead_of bs pos p end lt (inl e) = inl e
ahead_of bs pos p end lt (inr (inl less)) = inr (omega arith)
ahead_of bs pos p end lt (inr (inr (le, c))) = inr (omega arith)

module _ {buffer : List ℕ} where
  -- A later result.
  pub further : {pos p : ℕ} {r : Option Parsed} → pos ≤ p → Done buffer p r → Done buffer pos r
  further le (done r f) = done r (later le f)

  pub found_later : {pos p : ℕ} {r : Option Parsed} → pos < p → Done buffer p r → Found buffer pos r
  found_later lt (done r (inl e)) = found r (inl e)
  found_later lt (done r (inr le)) = found r (inr (inl (omega arith)))

  pub found_from : {pos p : ℕ} {r : Option Parsed} → pos ≤ p → Found buffer p r → Found buffer pos r
  found_from le (found r (inl e)) = found r (inl e)
  found_from le (found r (inr (inl lt))) = found r (inr (inl (omega arith)))
  found_from le (found r (inr (inr (le', c)))) = found r (inr (inr (omega arith, c)))

  -- What goes on with a value that was found behind a position.
  pub then_value :
      {pos p : ℕ} {r : Option Parsed} (f : Parsed → Option Parsed)
      → Found buffer p r
      → ((r : Parsed) → Advances buffer p r.pos → Done buffer pos (f r))
      → Done buffer pos (r >>= f)
  then_value f (found r a) h = h r a
