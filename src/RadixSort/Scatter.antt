-- ===== src/RadixSort/Scatter.antt =====
-- The loop of a pass of foundation/radixsort.c over the indices, and where it puts them.
use mathlib.Core.Path.{subst}
use mathlib.Core.List.{reverse, reverse-append}
use foundation_lib.Prelude.{
  ℕ, suc, ◌+◌, ◌-◌, ◌%◌, ◌^◌, ◌≤◌, ◌<◌, ◌≡◌, refl, sym, ap, ◌∙◌, ◌≢◌, ◌⊎◌, inl, inr, Bool, true,
  false, List, [], ◌∷◌, ◌++◌, append_assoc, append-nil, arith, ℕ_discrete, if◌then◌else◌,
  Bool-cases, length, length-append, length-set, get_or, slice, get_or-set_self, get_or-set_ne, set,
  if_true, if_false,
}
use foundation_lib.Prelude.Updates.{slice-set_outside, slice-set_end, slice-set_front}
use foundation_lib.RadixSort.{increment, scatter}
use foundation_lib.RadixSort.Buckets.{bucket, bucket-hit, bucket-miss, bucket-append}

-- Each byte has a region of the table of `n` indices, and no two regions overlap.
pub record Regions (start count : ℕ → ℕ) (n : ℕ) : Type 0 where
  pub apart :
      (b c : ℕ)
      → b < 256
      → c < 256
      → b ≢ c
      → (start b + count b ≤ start c) ⊎ (start c + count c ≤ start b)
  pub inside : (b : ℕ) → b < 256 → start b + count b ≤ n
  pub narrow : n < 2 ^ 16

module _ (down : ℕ → Bool) (radix start count : ℕ → ℕ) (n : ℕ) where
  -- What a region holds of the indices `ys`.
  abbrev pub block : ℕ → List ℕ → List ℕ
  block b ys = if down b then reverse (bucket radix b ys) else bucket radix b ys

  abbrev pub stored : ℕ → List ℕ → ℕ
  stored b ys = length (bucket radix b ys)

  -- Where it begins, and the offset of the byte.
  abbrev pub first : ℕ → List ℕ → ℕ
  first b ys = if down b then start b + count b - stored b ys else start b

  abbrev pub next_offset : ℕ → List ℕ → ℕ
  next_offset b ys = if down b then start b + count b - stored b ys else start b + stored b ys

  -- The indices `ys` are in their places.
  pub record Placed (ys offset next : List ℕ) : Type 0 where
    pub bytes : length offset ≡ 256
    pub room : n ≤ length next
    pub offset_of : (b : ℕ) → b < 256 → get_or offset b 0 ≡ next_offset b ys
    pub placed : (b : ℕ) → b < 256 → slice (first b ys) (stored b ys) next ≡ block b ys

  stored-append :
      (b id : ℕ) (ys : List ℕ)
      → (radix id ≡ b)
          × (stored b (ys ++ (id ∷ [])) ≡ stored b ys + 1)
          × (bucket radix b (ys ++ (id ∷ [])) ≡ bucket radix b ys ++ (id ∷ []))
        ⊎ (radix id ≢ b) × (bucket radix b (ys ++ (id ∷ [])) ≡ bucket radix b ys)
  stored-append b id ys = elim (ℕ_discrete (radix id) b) [
    | yes p ↦
        let e =
          bucket-append radix b ys (id ∷ [])
          ∙ ap (λ l. bucket radix b ys ++ l) (bucket-hit radix [] p) in
        inl (p, ap length e ∙ length-append (bucket radix b ys) (id ∷ []), e)
    | no np ↦ inr (
      np,
      bucket-append radix b ys (id ∷ [])
          ∙ ap (λ l. bucket radix b ys ++ l) (bucket-miss radix [] np)
          ∙ append-nil (bucket radix b ys),
    )
  ]

  -- The region of another byte does not change.
  other :
      {ys offset next : List ℕ} (id b place o' : ℕ)
      → Regions start count n
      → Placed ys offset next
      → b < 256
      → radix id < 256
      → radix id ≢ b
      → start (radix id) ≤ place
      → place < start (radix id) + count (radix id)
      → stored b ys ≤ count b
      → bucket radix b (ys ++ (id ∷ [])) ≡ bucket radix b ys
      → (get_or (set offset (radix id) o') b 0 ≡ next_offset b (ys ++ (id ∷ [])))
        × (slice (first b (ys ++ (id ∷ []))) (stored b (ys ++ (id ∷ []))) (set next place id)
            ≡ block b (ys ++ (id ∷ [])))
  other {ys} {offset} {next} id b place o' regions held lt lt' ne le below few same =
      let apart = regions.apart (radix id) b lt' lt ne in
      let outside : (place < first b ys) ⊎ (first b ys + stored b ys ≤ place) =
        elim (Bool-cases (down b)) [ inl t ↦ rw t (ground arith) | inr t ↦ rw t (ground arith) ] in
      rw same (
        get_or-set_ne offset (radix id) b o' 0 ne ∙ held.offset_of b lt,
        slice-set_outside next place (first b ys) (stored b ys) id outside ∙ held.placed b lt,
      )

  -- The byte's own region, filled from its beginning or from its end.
  own_up :
      {ys offset next : List ℕ} (id : ℕ)
      → let b = radix id in
        let o = get_or offset b 0 in
        down b ≡ false
        → Regions start count n
        → Placed ys offset next
        → b < 256
        → stored b ys < count b
        → stored b (ys ++ (id ∷ [])) ≡ stored b ys + 1
        → bucket radix b (ys ++ (id ∷ [])) ≡ bucket radix b ys ++ (id ∷ [])
        → (get_or (set offset b (increment o)) b 0 ≡ next_offset b (ys ++ (id ∷ [])))
          × (slice (first b (ys ++ (id ∷ []))) (stored b (ys ++ (id ∷ []))) (set next o id)
              ≡ block b (ys ++ (id ∷ [])))
  own_up {ys} {offset} {next} id t regions held lt few more e =
      let b = radix id in
      let o : get_or offset b 0 ≡ start b + stored b ys = held.offset_of b lt ∙ rw t refl in
      let here : slice (start b) (stored b ys) next ≡ bucket radix b ys =
        rw t at (held.placed b lt) in
      let top = regions.inside b lt in
      rw (t, o, more, e)
        (
          get_or-set_self offset b (increment (start b + stored b ys)) 0 (omega (arith, held.bytes))
              ∙ omega (arith, regions.narrow),
          slice-set_end next (start b) (stored b ys) id (omega (arith, held.room))
              ∙ ap (λ l. l ++ (id ∷ [])) here,
        )

  own_down :
      {ys offset next : List ℕ} (id : ℕ)
      → let b = radix id in
        let o' = (get_or offset b 0 + 2 ^ 16 - 1) % 2 ^ 16 in
        down b ≡ true
        → Regions start count n
        → Placed ys offset next
        → b < 256
        → stored b ys < count b
        → stored b (ys ++ (id ∷ [])) ≡ stored b ys + 1
        → bucket radix b (ys ++ (id ∷ [])) ≡ bucket radix b ys ++ (id ∷ [])
        → (get_or (set offset b o') b 0 ≡ next_offset b (ys ++ (id ∷ [])))
          × (slice (first b (ys ++ (id ∷ []))) (stored b (ys ++ (id ∷ []))) (set next o' id)
              ≡ block b (ys ++ (id ∷ [])))
  own_down {ys} {offset} {next} id t regions held lt few more e =
      let b = radix id in
      let k = stored b ys in
      let o' = (get_or offset b 0 + 2 ^ 16 - 1) % 2 ^ 16 in
      let o : get_or offset b 0 ≡ start b + count b - k = held.offset_of b lt ∙ rw t refl in
      let top = regions.inside b lt in
      let place : o' ≡ start b + count b - (k + 1) = omega (arith, regions.narrow) in
      let after : start b + count b - (k + 1) + 1 ≡ start b + count b - k = omega arith in
      let suc_k : k + 1 ≡ suc k = omega arith in
      let here : slice (start b + count b - k) k next ≡ reverse (bucket radix b ys) =
        rw t at (held.placed b lt) in
      rw (t, more, e)
        (
          get_or-set_self offset b o' 0 (omega (arith, held.bytes)) ∙ place,
          ap (λ i. slice (start b + count b - (k + 1)) (k + 1) (set next i id)) place
              ∙ ap
                  (λ j.
                    slice (start b + count b - (k + 1)) j
                      (set next (start b + count b - (k + 1)) id))
                  suc_k
              ∙ slice-set_front next (start b + count b - (k + 1)) k id (omega (arith, held.room))
              ∙ ap (λ i. id ∷ slice i k next) after
              ∙ ap (λ l. id ∷ l) here
              ∙ sym (reverse-append (bucket radix b ys) (id ∷ [])),
        )

  -- Where an index is stored, and the offset behind it.
  abbrev new_offset : List ℕ → ℕ → ℕ
  new_offset offset b =
      if down b then (get_or offset b 0 + 2 ^ 16 - 1) % 2 ^ 16 else increment (get_or offset b 0)

  abbrev new_place : List ℕ → ℕ → ℕ
  new_place offset b = if down b then new_offset offset b else get_or offset b 0

  own :
      {ys offset next : List ℕ} (id : ℕ)
      → Regions start count n
      → Placed ys offset next
      → radix id < 256
      → stored (radix id) ys < count (radix id)
      → stored (radix id) (ys ++ (id ∷ [])) ≡ stored (radix id) ys + 1
      → bucket radix (radix id) (ys ++ (id ∷ [])) ≡ bucket radix (radix id) ys ++ (id ∷ [])
      → let b = radix id in
        (get_or (set offset b (new_offset offset b)) b 0 ≡ next_offset b (ys ++ (id ∷ [])))
        × (slice
              (first b (ys ++ (id ∷ [])))
              (stored b (ys ++ (id ∷ [])))
              (set next (new_place offset b) id)
            ≡ block b (ys ++ (id ∷ [])))
  own {ys} {offset} {next} id regions held lt few more e =
      let goal = λ (o p : ℕ).
        (get_or (set offset (radix id) o) (radix id) 0 ≡ next_offset (radix id) (ys ++ (id ∷ [])))
        × (slice (first (radix id) (ys ++ (id ∷ []))) (stored (radix id) (ys ++ (id ∷ [])))
              (set next p id)
            ≡ block (radix id) (ys ++ (id ∷ []))) in
      elim (Bool-cases (down (radix id))) [
        | inl t ↦
            let o =
              if_true {x = (get_or offset (radix id) 0 + 2 ^ 16 - 1) % 2 ^ 16}
                (increment (get_or offset (radix id) 0)) t in
            let p = if_true {x = new_offset offset (radix id)} (get_or offset (radix id) 0) t ∙ o in
            subst (λ x. goal x (new_place offset (radix id))) (sym o)
              (subst (goal _) (sym p) (own_down id t regions held lt few more e))
        | inr t ↦
            let o =
              if_false {y = increment (get_or offset (radix id) 0)}
                ((get_or offset (radix id) 0 + 2 ^ 16 - 1) % 2 ^ 16) t in
            let p = if_false {y = get_or offset (radix id) 0} (new_offset offset (radix id)) t in
            subst (λ x. goal x (new_place offset (radix id))) (sym o)
              (subst (goal _) (sym p) (own_up id t regions held lt few more e))
      ]

  place-bounds :
      {ys offset next : List ℕ} (b : ℕ)
      → Regions start count n
      → Placed ys offset next
      → b < 256
      → stored b ys < count b
      → (start b ≤ new_place offset b) × (new_place offset b < start b + count b)
  place-bounds {ys} {offset} {next} b regions held lt few =
      let o = held.offset_of b lt in
      let top = regions.inside b lt in
      let small = regions.narrow in
      elim (Bool-cases (down b)) [
        | inl t ↦
            let o' : get_or offset b 0 ≡ start b + count b - stored b ys = o ∙ rw t refl in
            rw t (omega arith)
        | inr t ↦
            let o' : get_or offset b 0 ≡ start b + stored b ys = o ∙ rw t refl in rw t (omega arith)
      ]

  step :
      {ys offset next : List ℕ} (id : ℕ)
      → ((i : ℕ) → radix i < 256)
      → Regions start count n
      → Placed ys offset next
      → ((b : ℕ) → b < 256 → stored b (ys ++ (id ∷ [])) ≤ count b)
      → Placed
          (ys ++ (id ∷ []))
          (set offset (radix id) (new_offset offset (radix id)))
          (set next (new_place offset (radix id)) id)
  step {ys} {offset} {next} id small regions held enough =
      let c = radix id in
      let grown : stored c (ys ++ (id ∷ [])) ≡ stored c ys + 1 = elim (stored-append c id ys) [
        | inl h ↦ h.1
        | inr h ↦ absurd (h.0 refl)
      ] in
      let few : stored c ys < count c = omega (arith, enough c (small id)) in
      let within = place-bounds c regions held (small id) few in
      let cell : (b : ℕ)
          → b < 256
          → (get_or (set offset c (new_offset offset c)) b 0 ≡ next_offset b (ys ++ (id ∷ [])))
            × (slice (first b (ys ++ (id ∷ []))) (stored b (ys ++ (id ∷ [])))
                  (set next (new_place offset c) id)
                ≡ block b (ys ++ (id ∷ []))) =
        λ b lt. elim (stored-append b id ys) [
          | inl h ↦
              subst
                (λ b.
                  (get_or (set offset c (new_offset offset c)) b 0
                    ≡ next_offset b (ys ++ (id ∷ [])))
                  × (slice (first b (ys ++ (id ∷ []))) (stored b (ys ++ (id ∷ [])))
                        (set next (new_place offset c) id)
                      ≡ block b (ys ++ (id ∷ []))))
                h.0
                (own id regions held (small id) few grown (
                  subst (λ b. bucket radix b (ys ++ (id ∷ [])) ≡ bucket radix b ys ++ (id ∷ []))
                    (sym h.0) h.2))
          | inr h ↦
              other id b (new_place offset c) (new_offset offset c) regions held lt (small id) h.0
                within.0 within.1 (omega (arith, enough b lt, ap length h.1)) h.1
        ] in
      record {
        bytes = length-set offset c (new_offset offset c) ∙ held.bytes;
        room = omega (arith, length-set next (new_place offset c) id, held.room);
        offset_of = λ b lt. (cell b lt).0;
        placed = λ b lt. (cell b lt).1;
      }

  -- All the indices are placed.
  pub scatter-Placed :
      (ids : List ℕ) {ys offset next : List ℕ}
      → ((i : ℕ) → radix i < 256)
      → Regions start count n
      → Placed ys offset next
      → ((b : ℕ) → b < 256 → stored b (ys ++ ids) ≤ count b)
      → let (offset', next') = scatter down radix offset next ids in
        Placed (ys ++ ids) offset' next'
  unfolding scatter
  scatter-Placed [] {ys} {offset} {next} small regions held enough =
      subst (λ l. Placed l offset next) (sym (append-nil ys)) held
  scatter-Placed (id ∷ ids) {ys} {offset} {next} small regions held enough =
      let e = append_assoc ys (id ∷ []) ids in
      let now : (b : ℕ) → b < 256 → stored b (ys ++ (id ∷ [])) ≤ count b = λ b lt. omega (
        arith,
        enough b lt,
        ap (stored b) e,
        ap length (bucket-append radix b (ys ++ (id ∷ [])) ids),
        length-append (bucket radix b (ys ++ (id ∷ []))) (bucket radix b ids),
      ) in
      let done =
        scatter down radix (set offset (radix id) (new_offset offset (radix id)))
          (set next (new_place offset (radix id)) id) ids in
      subst (λ l. Placed l done.0 done.1) e
        (scatter-Placed ids small regions (step id small regions held now)
          (λ b lt. omega (arith, enough b lt, ap (stored b) e)))
