-- ===== src/HashMap/Arrays.antt =====
-- `array_erase` of foundation/array.h on the nodes of a bucket.
use mathlib.Core.Path.{subst}
use foundation_lib.Prelude.{
  ℕ, zero, suc, ◌+◌, ◌-◌, ◌≤◌, ◌<◌, ◌≡◌, refl, sym, ap, ◌∙◌, inl, inr, List, [], ◌∷◌, ◌++◌,
  append-nil, arith, ◌==◌, if◌then◌else◌, Bool-cases, length, length-append, length-set, get_or,
  take, drop, take-append-drop, length-take, drop_all, set,
}
use foundation_lib.HashMap.{Node, no_node, array_erase}

-- The values of the nodes with a key.
unfoldable pub values : ℕ → List Node → List ℕ
values key [] = []
values key (node ∷ nodes) =
    let rest = values key nodes in if node.key == key then node.value ∷ rest else rest

pub values-append :
    (key : ℕ) (xs ys : List Node) → values key (xs ++ ys) ≡ values key xs ++ values key ys
unfolding values
values-append key [] ys = refl
values-append key (x ∷ xs) ys =
    let rest = values-append key xs ys in
    elim (Bool-cases (x.key == key)) [
      | inl t ↦ rw t (ap (λ l. x.value ∷ l) rest)
      | inr t ↦ rw t rest
    ]

-- Two lists with one element at most between them commute.
append_comm-short : (xs ys : List ℕ) → length (xs ++ ys) ≤ 1 → xs ++ ys ≡ ys ++ xs
append_comm-short [] ys h = sym (append-nil ys)
append_comm-short (x ∷ xs) [] h = append-nil (x ∷ xs)
append_comm-short (x ∷ xs) (y ∷ ys) h = absurd (omega (arith, length-append xs (y ∷ ys)))

drop-get_or :
    (i : ℕ) (xs : List Node) → i < length xs → drop i xs ≡ get_or xs i no_node ∷ drop (i + 1) xs
drop-get_or i [] h = absurd (omega arith)
drop-get_or zero (x ∷ xs) h = refl
drop-get_or (suc i) (x ∷ xs) h =
    let e : suc i + 1 ≡ suc (i + 1) = omega arith in rw e (drop-get_or i xs (omega arith))

-- The last element in front.
rotate : (n : ℕ) (xs : List Node) → length xs ≡ suc n → xs ≡ take n xs ++ (get_or xs n no_node ∷ [])
rotate n xs h =
    let last : drop n xs ≡ get_or xs n no_node ∷ [] =
      drop-get_or n xs (omega arith)
      ∙ ap (λ l. get_or xs n no_node ∷ l) (drop_all (n + 1) xs (omega arith)) in
    sym (take-append-drop n xs) ∙ ap (λ l. take n xs ++ l) last

values_swap :
    (key : ℕ) (xs ys : List Node)
    → length (values key (xs ++ ys)) ≤ 1
    → values key (xs ++ ys) ≡ values key (ys ++ xs)
values_swap key xs ys h =
    values-append key xs ys
    ∙ append_comm-short (values key xs) (values key ys)
        (omega (arith, ap length (values-append key xs ys)))
    ∙ sym (values-append key ys xs)

tail_le :
    (key : ℕ) (x : Node) (xs : List Node)
    → length (values key (x ∷ xs)) ≤ 1
    → length (values key xs) ≤ 1
tail_le key x xs u = omega (
  arith,
  u,
  ap length (values-append key (x ∷ []) xs),
  length-append (values key (x ∷ [])) (values key xs),
)

pub length-array_erase :
    (nodes : List Node) (i : ℕ) → length (array_erase nodes i) ≡ length nodes - 1
unfolding array_erase
length-array_erase nodes i =
    let last = get_or nodes (length nodes - 1) no_node in
    omega (arith, length-take (length nodes - 1) (set nodes i last), length-set nodes i last)

array_erase-suc :
    (x : Node) (xs : List Node) (i : ℕ)
    → i < length xs
    → array_erase (x ∷ xs) (suc i) ≡ x ∷ array_erase xs i
unfolding array_erase
array_erase-suc x xs i h =
    let e : suc (length xs) - 1 ≡ suc (length xs - 1) = omega arith in rw e refl

-- The element that goes, and what stays, up to order.
pub array_erase-values :
    (key : ℕ) (nodes : List Node) (i : ℕ)
    → i < length nodes
    → length (values key nodes) ≤ 1
    → values key nodes ≡ values key (get_or nodes i no_node ∷ array_erase nodes i)
unfolding array_erase values
array_erase-values key [] i h u = absurd (omega arith)
array_erase-values key (x ∷ []) zero h u = refl
array_erase-values key (x ∷ y ∷ ys) zero h u =
    let n = length ys in
    let tail = y ∷ ys in
    let last = get_or tail n no_node in
    let e : suc (suc n) - 1 ≡ suc n = omega arith in
    let erased : array_erase (x ∷ tail) 0 ≡ last ∷ take n tail = rw e refl in
    let halves = rotate n tail refl in
    let few : length (values key (take n tail ++ (last ∷ []))) ≤ 1 =
      subst (λ l. length (values key l) ≤ 1) halves (tail_le key x tail u) in
    values-append key (x ∷ []) tail
    ∙ ap (λ l. values key (x ∷ []) ++ l)
        (ap (values key) halves ∙ values_swap key (take n tail) (last ∷ []) few)
    ∙ sym (values-append key (x ∷ []) (last ∷ take n tail))
    ∙ ap (λ l. values key (x ∷ l)) (sym erased)
array_erase-values key (x ∷ xs) (suc i) h u =
    let g = get_or xs i no_node in
    let left = array_erase xs i in
    let h' : i < length xs = omega arith in
    let same : values key (x ∷ xs) ≡ values key ((x ∷ g ∷ []) ++ left) =
      values-append key (x ∷ []) xs
      ∙ ap (λ l. values key (x ∷ []) ++ l) (array_erase-values key xs i h' (tail_le key x xs u))
      ∙ sym (values-append key (x ∷ []) (g ∷ left)) in
    let few : length (values key ((x ∷ []) ++ (g ∷ []))) ≤ 1 = omega (
      arith,
      u,
      ap length same,
      ap length (values-append key (x ∷ g ∷ []) left),
      length-append (values key (x ∷ g ∷ [])) (values key left),
    ) in
    same
    ∙ values-append key (x ∷ g ∷ []) left
    ∙ ap (λ l. l ++ values key left) (values_swap key (x ∷ []) (g ∷ []) few)
    ∙ sym (values-append key (g ∷ x ∷ []) left)
    ∙ ap (λ l. values key (g ∷ l)) (sym (array_erase-suc x xs i h'))
