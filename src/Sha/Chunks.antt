-- ===== src/Sha/Chunks.antt =====
-- A digest that took in a message in chunks, after `sha256_digest` and `sha512_digest`.
use mathlib.Core.Path.{subst}
use foundation_lib.Prelude.{
  ℕ, zero, suc, ◌+◌, ◌-◌, ◌*◌, ◌%◌, ◌^◌, ◌≤◌, ◌<◌, min, ◌≡◌, refl, sym, ap, ap₂, ◌∙◌, ◌≢◌, true,
  false, List, [], ◌∷◌, ◌++◌, append_assoc, append-nil, arith, dec_lt, ℕ_discrete, leb, ◌==◌,
  length, length-append, take, drop, take-append-drop, length-take, length-drop, overwrite,
  length-overwrite, take_all, drop_all, take-overwrite, add64, if_true, if_false,
}
use foundation_lib.Sha.{
  Hash, Sha, initialize, compressed, complete, whole_blocks, keep, absorb, digest,
}

abbrev pub concat : List (List ℕ) → List ℕ
concat [] = []
concat (chunk ∷ chunks) = chunk ++ concat chunks

pub concat-append : (xs : List (List ℕ)) (y : List ℕ) → concat (xs ++ (y ∷ [])) ≡ concat xs ++ y
concat-append [] y = append-nil y
concat-append (x ∷ xs) y =
    ap (λ l. x ++ l) (concat-append xs y) ∙ sym (append_assoc x (concat xs) y)

-- Lists of `n` bytes each.
pub data AreBlocks (n : ℕ) : List (List ℕ) → Type 0 where
  nil : AreBlocks n []
  cons : {b : List ℕ} {bs : List (List ℕ)} → length b ≡ n → AreBlocks n bs → AreBlocks n (b ∷ bs)

pub append-AreBlocks :
    {n : ℕ} {bs : List (List ℕ)} (b : List ℕ)
    → AreBlocks n bs
    → length b ≡ n
    → AreBlocks n (bs ++ (b ∷ []))
append-AreBlocks b nil e = cons e nil
append-AreBlocks b (cons p ps) e = cons p (append-AreBlocks b ps e)

module _ (h : Hash) where
  open h use {block_size, limit, place, initial, compress, limit-le, limit-pos, place_end}

  -- The state after some blocks.
  abbrev pub folded : List (List ℕ) → List ℕ → List ℕ
  folded [] s = s
  folded (b ∷ bs) s = folded bs (compress s b)

  pub folded-append :
      (bs : List (List ℕ)) (b s : List ℕ) → folded (bs ++ (b ∷ [])) s ≡ compress (folded bs s) b
  folded-append [] b s = refl
  folded-append (x ∷ bs) b s = folded-append bs b (compress s x)

  -- The digest has taken in `bytes`: the whole blocks are in its state and its count, the rest is in
  -- its buffer.
  pub record Holds (m : Sha) (bytes : List ℕ) : Type 0 where
    pub ready : m.init ≡ false
    pub blocks : List (List ℕ)
    pub whole : AreBlocks block_size blocks
    pub joined : concat blocks ++ take m.current m.buffer ≡ bytes
    pub short : m.current < block_size
    pub size : length m.buffer ≡ block_size
    pub folded_state : m.state ≡ folded blocks initial
    pub counted : m.bits ≡ 8 * length (concat blocks) % 2 ^ 64

  pub initialize-Holds : (m : Sha) → length m.buffer ≡ block_size → Holds (initialize h m) []
  unfolding initialize
  initialize-Holds m e = record {
    ready = refl;
    blocks = [];
    whole = nil;
    joined = refl;
    short = omega (arith, limit-le, limit-pos, place_end);
    size = e;
    folded_state = refl;
    counted = omega arith;
  }

  count_block :
      (bits len : ℕ)
      → bits ≡ 8 * len % 2 ^ 64
      → add64 bits (block_size * 8) ≡ 8 * (len + block_size) % 2 ^ 64
  count_block bits len e = omega (arith, e)

  -- A block that begins with what the buffer holds.
  add_block :
      {m : Sha} {bytes : List ℕ} (block buffer more : List ℕ)
      → Holds m bytes
      → length block ≡ block_size
      → length buffer ≡ block_size
      → take m.current m.buffer ++ more ≡ block
      → Holds (record (compressed h block m) { buffer = buffer; current = 0 }) (bytes ++ more)
  add_block {m} {bytes} block buffer more held e size' parts =
      let pending = take m.current m.buffer in
      let grown = concat-append held.blocks block in
      record {
        ready = held.ready;
        blocks = held.blocks ++ (block ∷ []);
        whole = append-AreBlocks block held.whole e;
        joined =
            append-nil (concat (held.blocks ++ (block ∷ [])))
            ∙ grown
            ∙ ap (λ l. concat held.blocks ++ l) (sym parts)
            ∙ sym (append_assoc (concat held.blocks) pending more)
            ∙ ap (λ l. l ++ more) held.joined;
        short = omega (arith, held.short);
        size = size';
        folded_state =
            ap (λ s. compress s block) held.folded_state
            ∙ sym (folded-append held.blocks block initial);
        counted =
            count_block m.bits (length (concat held.blocks)) held.counted
            ∙ ap (λ n. 8 * n % 2 ^ 64)
                (ap (λ n. length (concat held.blocks) + n) (sym e)
                  ∙ sym (length-append (concat held.blocks) block)
                  ∙ ap length (sym grown));
      }

  -- A whole block, when the buffer is empty.
  compressed-Holds :
      {m : Sha} {bytes : List ℕ} (block : List ℕ)
      → Holds m bytes
      → m.current ≡ 0
      → length block ≡ block_size
      → Holds (compressed h block m) (bytes ++ block)
  compressed-Holds {m} {bytes} block held z e =
      subst (λ c. Holds (record (compressed h block m) { current = c }) (bytes ++ block)) (sym z)
        (add_block block m.buffer block held e held.size (ap (λ c. take c m.buffer ++ block) z))

  -- After the loop over whole blocks: some bytes were taken in, and less than a block is left.
  record Looped (m : Sha) (bytes more rest : List ℕ) : Type 0 where
    taken : List ℕ
    held : Holds m (bytes ++ taken)
    parts : taken ++ rest ≡ more
    left : length rest < block_size
    empty : m.current ≡ 0

  stop :
      {m : Sha} {bytes : List ℕ} (more : List ℕ)
      → Holds m bytes
      → m.current ≡ 0
      → length more < block_size
      → Looped m bytes more more
  stop {m} {bytes} more held z lt = record {
    taken = [];
    held = subst (Holds m) (sym (append-nil bytes)) held;
    parts = refl;
    left = lt;
    empty = z;
  }

  step_loop :
      {m' : Sha} {bytes : List ℕ} (more rest : List ℕ)
      → Looped m' (bytes ++ take block_size more) (drop block_size more) rest
      → Looped m' bytes more rest
  step_loop {m'} {bytes} more rest l = record {
    taken = take block_size more ++ l.taken;
    held = subst (Holds m') (append_assoc bytes (take block_size more) l.taken) l.held;
    parts =
        append_assoc (take block_size more) l.taken rest
        ∙ ap (λ t. take block_size more ++ t) l.parts
        ∙ take-append-drop block_size more;
    left = l.left;
    empty = l.empty;
  }

  loop :
      (fuel : ℕ) {m : Sha} {bytes : List ℕ} (more : List ℕ)
      → Holds m bytes
      → m.current ≡ 0
      → length more ≤ fuel
      → let (m', rest) = whole_blocks h fuel m more in Looped m' bytes more rest
  unfolding whole_blocks
  loop zero more held z le = stop more held z (omega (arith, held.short))
  loop (suc fuel) {m} {bytes} more held z le = elim (dec_lt (length more) block_size) [
    | yes p ↦
        let t : leb block_size (length more) ≡ false = ground arith in rw t (stop more held z p)
    | no np ↦
        let t : leb block_size (length more) ≡ true = ground arith in
        let e : length (take block_size more) ≡ block_size =
          omega (arith, length-take block_size more) in
        let some : 0 < block_size = omega (arith, limit-le, limit-pos, place_end) in
        rw t (
          step_loop more _ (
            loop fuel (drop block_size more) (compressed-Holds (take block_size more) held z e) z
              (omega (arith, length-drop block_size more))))
  ]

  keep-Holds :
      {m : Sha} {bytes : List ℕ} (more : List ℕ)
      → Holds m bytes
      → m.current ≡ 0
      → length more < block_size
      → Holds (keep h m more) (bytes ++ more)
  unfolding keep
  keep-Holds {m} {bytes} [] held z lt = subst (Holds m) (sym (append-nil bytes)) held
  keep-Holds {m} {bytes} (b ∷ more) held z lt =
      let all = b ∷ more in
      let stored : take (m.current + length all) (overwrite m.buffer 0 all) ≡ all =
        ap (λ c. take (c + length all) (overwrite m.buffer 0 all)) z
        ∙ take-overwrite m.buffer 0 all (omega (arith, held.size)) in
      let before : concat held.blocks ≡ bytes =
        sym (append-nil (concat held.blocks))
        ∙ ap (λ c. concat held.blocks ++ take c m.buffer) (sym z)
        ∙ held.joined in
      let t : (length all == 0) ≡ false = ground arith in
      rw t (record {
        ready = held.ready;
        blocks = held.blocks;
        whole = held.whole;
        joined = ap₂ (λ a b. a ++ b) before stored;
        short = omega arith;
        size = length-overwrite m.buffer 0 all (omega (arith, held.size)) ∙ held.size;
        folded_state = held.folded_state;
        counted = held.counted;
      })

  -- The chunk does not complete the block in the buffer.
  complete_short :
      {m : Sha} {bytes : List ℕ} (more : List ℕ)
      → Holds m bytes
      → m.current + length more < block_size
      → Holds
          (record m {
            buffer = overwrite m.buffer m.current more;
            current = m.current + length more;
          })
          (bytes ++ more)
  complete_short {m} {bytes} more held lt = record {
    ready = held.ready;
    blocks = held.blocks;
    whole = held.whole;
    joined =
        ap (λ l. concat held.blocks ++ l)
          (take-overwrite m.buffer m.current more (omega (arith, held.size)))
        ∙ sym (append_assoc (concat held.blocks) (take m.current m.buffer) more)
        ∙ ap (λ l. l ++ more) held.joined;
    short = lt;
    size = length-overwrite m.buffer m.current more (omega (arith, held.size)) ∙ held.size;
    folded_state = held.folded_state;
    counted = held.counted;
  }

  -- It does, and what is left of it is for the loop.
  complete_full :
      {m : Sha} {bytes : List ℕ} (first : List ℕ)
      → Holds m bytes
      → m.current + length first ≡ block_size
      → let buffer = overwrite m.buffer m.current first in
        Holds
          (record (compressed h buffer
            (record m { buffer = buffer; current = m.current + length first })) { current = 0 })
          (bytes ++ first)
  complete_full {m} {bytes} first held e =
      let buffer = overwrite m.buffer m.current first in
      let long : length buffer ≡ block_size =
        length-overwrite m.buffer m.current first (omega (arith, held.size)) ∙ held.size in
      add_block buffer buffer first held long long (
        sym (take-overwrite m.buffer m.current first (omega (arith, held.size)))
        ∙ take_all (m.current + length first) buffer (omega arith))

  finish :
      {m : Sha} {bytes : List ℕ} (more : List ℕ)
      → Holds m bytes
      → m.current ≡ 0
      → let (m', rest) = whole_blocks h (length more) m more in
        Holds (keep h m' rest) (bytes ++ more)
  finish {m} {bytes} more held z =
      let l = loop (length more) more held z (omega arith) in
      subst (Holds _) (append_assoc bytes l.taken _ ∙ ap (λ t. bytes ++ t) l.parts)
        (keep-Holds _ l.held l.empty l.left)

  -- Nothing is left after a chunk that does not complete the block.
  absorb_short :
      (m : Sha) (more : List ℕ)
      → m.current ≢ 0
      → m.current + length more < block_size
      → absorb h m more
        ≡ record m { buffer = overwrite m.buffer m.current more; current = m.current + length more }
  unfolding absorb complete whole_blocks keep
  absorb_short m more nz lt =
      let t : (m.current == 0) ≡ false = ground arith in
      let n : min (length more) (block_size - m.current) ≡ length more = omega arith in
      let t' : (m.current + length more == block_size) ≡ false = ground arith in
      rw
        (
          t,
          n,
          take_all (length more) more (omega arith),
          t',
          drop_all (length more) more (omega arith),
        )
        refl

  absorb_full :
      (m : Sha) (more : List ℕ)
      → m.current ≢ 0
      → m.current < block_size
      → block_size ≤ m.current + length more
      → let n = block_size - m.current in
        let buffer = overwrite m.buffer m.current (take n more) in
        let (m', rest) =
          whole_blocks h
            (length (drop n more))
            (record (compressed h buffer (record m { buffer = buffer; current = m.current + n })) {
              current = 0;
            })
            (drop n more) in
        absorb h m more ≡ keep h m' rest
  unfolding absorb complete
  absorb_full m more nz lt le =
      let t : (m.current == 0) ≡ false = ground arith in
      let n : min (length more) (block_size - m.current) ≡ block_size - m.current = omega arith in
      let t' : (m.current + (block_size - m.current) == block_size) ≡ true = ground arith in
      rw (t, n, t') refl

  absorb_empty :
      (m : Sha) (more : List ℕ)
      → m.current ≡ 0
      → let (m', rest) = whole_blocks h (length more) m more in absorb h m more ≡ keep h m' rest
  unfolding absorb
  absorb_empty m more z = let t : (m.current == 0) ≡ true = ground arith in rw t refl

  absorb-Holds :
      {m : Sha} {bytes : List ℕ} (more : List ℕ)
      → Holds m bytes
      → Holds (absorb h m more) (bytes ++ more)
  absorb-Holds {m} {bytes} more held = elim (ℕ_discrete m.current 0) [
    | yes z ↦
        subst (λ d. Holds d (bytes ++ more)) (sym (absorb_empty m more z)) (finish more held z)
    | no nz ↦ elim (dec_lt (m.current + length more) block_size) [
      | yes lt ↦
          subst (λ d. Holds d (bytes ++ more)) (sym (absorb_short m more nz lt))
            (complete_short more held lt)
      | no nlt ↦
          let n = block_size - m.current in
          let e : length (take n more) ≡ n = omega (arith, length-take n more, held.short) in
          let full = complete_full (take n more) held (omega (arith, e, held.short)) in
          let held' =
            subst
              (λ k.
                Holds
                  (record (compressed h (overwrite m.buffer m.current (take n more)) (record m {
                    buffer = overwrite m.buffer m.current (take n more);
                    current = m.current + k;
                  })) { current = 0 })
                  (bytes ++ take n more))
              e full in
          subst (λ d. Holds d (bytes ++ more))
            (sym (absorb_full m more nz held.short (omega arith)))
            (subst (Holds _)
              (append_assoc bytes (take n more) (drop n more)
                ∙ ap (λ t. bytes ++ t) (take-append-drop n more))
              (finish (drop n more) held' refl))
    ]
  ]

  pub digest-Holds :
      {m : Sha} {bytes : List ℕ} (more : List ℕ)
      → Holds m bytes
      → Holds (digest h m more) (bytes ++ more)
  unfolding digest
  digest-Holds {m} {bytes} more held =
      subst (λ d. Holds (absorb h d more) (bytes ++ more))
        (sym (if_false (initialize h m) held.ready)) (absorb-Holds more held)

  -- A digest that is fresh, or finished.
  pub digest-restart :
      (m : Sha) (more : List ℕ)
      → m.init ≡ true
      → length m.buffer ≡ block_size
      → Holds (digest h m more) more
  unfolding digest
  digest-restart m more t e =
      subst (λ d. Holds (absorb h d more) more) (sym (if_true m t))
        (absorb-Holds more (initialize-Holds m e))
