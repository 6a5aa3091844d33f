-- ===== src/HashMap/Nodes.antt =====
-- The node that the loops find in a bucket.
use mathlib.Core.Path.{subst}
use foundation_lib.Prelude.{
  if_true, if_false, ℕ, suc, ◌<◌, ◌≡◌, refl, sym, ◌∙◌, inl, inr, true, false, Option, none, some,
  List, [], ◌∷◌, arith, ℕ_discrete, ◌==◌, if◌then◌else◌, ==_iff, Bool-cases, length, get_or, drop,
  set,
}
use foundation_lib.HashMap.{Node, no_node, next_node, find_node}
use foundation_lib.HashMap.Arrays.{values}

-- The first value, if there is one.
abbrev pub first : List ℕ → Option ℕ
first [] = none
first (v ∷ vs) = some v

some-ne_none : {A : Type 0} {x : A} → some x ≡ none → ⊥
some-ne_none e = cc

some-injective : {A : Type 0} {x y : A} → some x ≡ some y → x ≡ y
some-injective e = cc

next_node-some :
    (o : Option ℕ) (i : ℕ) → next_node o ≡ some i → (j : ℕ) × (o ≡ some j) × (i ≡ suc j)
next_node-some none i e = absurd (cc)
next_node-some (some j) i e = (j, refl, cc)

next_node-none : (o : Option ℕ) → next_node o ≡ none → o ≡ none
next_node-none none e = refl
next_node-none (some j) e = absurd (cc)

-- No node has the key.
pub find_node-none :
    (nodes : List Node) (key : ℕ) → find_node nodes key ≡ none → values key nodes ≡ []
unfolding find_node values
find_node-none [] key e = refl
find_node-none (x ∷ xs) key e = elim (Bool-cases (x.key == key)) [
  | inl t ↦ absurd (some-ne_none (sym (if_true (next_node (find_node xs key)) t) ∙ e))
  | inr f ↦
      rw f
        (find_node-none xs key (next_node-none (find_node xs key) (sym (if_false (some 0) f) ∙ e)))
]

-- The node at the index that is found has the key, and its value comes first.
pub find_node-some :
    (nodes : List Node) (key i : ℕ)
    → find_node nodes key ≡ some i
    → (i < length nodes)
      × ((get_or nodes i no_node).key ≡ key)
      × (first (values key nodes) ≡ some (get_or nodes i no_node).value)
unfolding find_node values
find_node-some [] key i e = absurd (cc)
find_node-some (x ∷ xs) key i e = elim (Bool-cases (x.key == key)) [
  | inl t ↦
      let here : 0 ≡ i = some-injective (sym (if_true (next_node (find_node xs key)) t) ∙ e) in
      rw (sym here, t) (omega arith, (==_iff x.key key).0 t, refl)
  | inr f ↦
      let (j, e', i_suc) = next_node-some (find_node xs key) i (sym (if_false (some 0) f) ∙ e) in
      let (lt, same, head) = find_node-some xs key j e' in rw (i_suc, f) (omega arith, same, head)
]

renamed :
    (xs : List Node) (x_key key k value : ℕ) (other : List ℕ)
    → x_key ≡ key
    → (if x_key == k then value ∷ values k xs else values k xs)
      ≡ (if k == key then value ∷ values key xs else if x_key == k then other else values k xs)
renamed xs x_key key k value other e = elim (ℕ_discrete k key) [
  | yes p ↦ let same : (key == key) ≡ true = (==_iff key key).1 refl in rw (e, p, same) refl
  | no np ↦
      let t : (x_key == k) ≡ false = ground arith in
      let t' : (k == key) ≡ false = ground arith in rw (t, t') refl
]

kept :
    (xs ys : List Node) (x : Node) (key k value : ℕ)
    → (x.key == key) ≡ false
    → values k ys ≡ (if k == key then value ∷ drop 1 (values key xs) else values k xs)
    → (if x.key == k then x.value ∷ values k ys else values k ys) ≡ (
        if k == key
        then value ∷ drop 1 (values key xs)
        else if x.key == k
        then x.value ∷ values k xs
        else values k xs)
kept xs ys x key k value f e = elim (ℕ_discrete k key) [
  | yes p ↦
      let same : (key == key) ≡ true = (==_iff key key).1 refl in
      let e' : values key ys ≡ value ∷ drop 1 (values key xs) =
        subst
          (λ n. values n ys ≡ (if n == key then value ∷ drop 1 (values key xs) else values n xs)) p
          e
        ∙ if_true (values key xs) same in
      rw (p, f, same) e'
  | no np ↦
      let t : (k == key) ≡ false = ground arith in
      let e' : values k ys ≡ values k xs = e ∙ if_false (value ∷ drop 1 (values key xs)) t in
      rw (t, e') refl
]

-- The value of the node that is found is changed.
pub set-values :
    (nodes : List Node) (key value i k : ℕ)
    → find_node nodes key ≡ some i
    → values k (set nodes i (record (get_or nodes i no_node) { value = value }))
      ≡ (if k == key then value ∷ drop 1 (values key nodes) else values k nodes)
unfolding find_node values
set-values [] key value i k e = absurd (cc)
set-values (x ∷ xs) key value i k e = elim (Bool-cases (x.key == key)) [
  | inl t ↦
      let here : 0 ≡ i = some-injective (sym (if_true (next_node (find_node xs key)) t) ∙ e) in
      rw (sym here, t)
        (renamed xs x.key key k value (x.value ∷ values k xs) ((==_iff x.key key).0 t))
  | inr f ↦
      let (j, e', i_suc) = next_node-some (find_node xs key) i (sym (if_false (some 0) f) ∙ e) in
      let later = set-values xs key value j k e' in
      rw (i_suc, f)
        (kept xs (set xs j (record (get_or xs j no_node) { value = value })) x key k value f later)
]
