-- ===== src/Sha/Finalize.antt =====
-- `sha256_digest_finalize` and `sha512_digest_finalize`: the blocks that they fill up.
use mathlib.Core.Path.{subst}
use native.Mathlib.Nat.{mod-eq_of_lt}
use foundation_lib.Prelude.{
  ℕ, ◌+◌, ◌-◌, ◌*◌, ◌%◌, ◌^◌, ◌≤◌, ◌<◌, ◌≡◌, refl, sym, ap, ap₂, ◌∙◌, true, false, List, [], ◌∷◌,
  ◌++◌, append_assoc, append-nil, arith, dec_lt, ltb, leb, if◌then◌else◌, length, length-append,
  take, replicate, length-take, length-replicate, overwrite, length-overwrite, take-overwrite,
  add64,
}
use foundation_lib.Sha.{Hash, Sha, initialize, digest, spill, store64, digest_finalize}
use foundation_lib.Sha.Chunks.{
  concat, concat-append, AreBlocks, append-AreBlocks, folded, folded-append, Holds,
  initialize-Holds, digest-Holds, digest-restart,
}
use foundation_lib.Sha.Filling.{replicate-add, left_over, zeroed, zeroed-take, overwrite-end}

module _ (h : Hash) where
  open h use {block_size, limit, place, initial, compress, place_end, limit-le, limit-pos}

  -- The number of zeros behind a message that ends with `r` bytes of a block.
  abbrev pub zeros_behind : ℕ → ℕ
  zeros_behind r = if leb (r + 1) limit then place - (r + 1) else block_size - (r + 1) + place

  -- The message, a one bit and zeros, and the number of bits of the message in 64 bits.
  unfoldable pub filled_up : List ℕ → List ℕ
  filled_up bytes =
      (bytes ++ (0x80 ∷ replicate (zeros_behind (length bytes % block_size)) 0))
      ++ store64 (8 * length bytes % 2 ^ 64)

  -- A digest that was finalized: its state is that after the blocks of the message filled up, and it is
  -- ready to start again.
  pub record Hashed (m : Sha) (bytes : List ℕ) : Type 0 where
    pub blocks : List (List ℕ)
    pub whole : AreBlocks block_size blocks
    pub joined : concat blocks ≡ filled_up bytes
    pub folded_state : m.state ≡ folded h blocks initial
    pub size : length m.buffer ≡ block_size
    pub again : m.init ≡ true

  -- What the digest counts is the message's number of bits.
  bits-count :
      {m : Sha} {bytes : List ℕ}
      → Holds h m bytes
      → (add64 m.bits (m.current * 8) ≡ 8 * length bytes % 2 ^ 64)
        × (length bytes % block_size ≡ m.current)
  bits-count {m} {bytes} held =
      let pending = take m.current m.buffer in
      let n : length pending ≡ m.current =
        omega (arith, length-take m.current m.buffer, held.short, held.size) in
      let all = ap length (sym held.joined) ∙ length-append (concat held.blocks) pending in
      (
        omega (arith, held.counted),
        ap (λ l. length l % block_size) (sym held.joined)
            ∙ left_over pending held.whole
            ∙ ap (λ k. k % block_size) n
            ∙ mod-eq_of_lt held.short,
      )

  -- The last block: what stands before `place`, and the length of the message.
  last_block :
      (current : ℕ) (buffer : List ℕ) (n : ℕ)
      → current ≤ place
      → length buffer ≡ block_size
      → (overwrite (zeroed current place buffer) place (store64 n)
          ≡ (take current buffer ++ replicate (place - current) 0) ++ store64 n)
        × (length (overwrite (zeroed current place buffer) place (store64 n)) ≡ block_size)
  unfolding store64
  last_block current buffer n le e =
      let z = zeroed-take current place buffer le (omega (arith, place_end)) in
      (
        overwrite-end (zeroed current place buffer) (store64 n) place
              (omega (arith, place_end, z.1))
            ∙ ap (λ l. l ++ store64 n) z.0,
        length-overwrite (zeroed current place buffer) place (store64 n)
              (omega (arith, place_end, z.1))
            ∙ z.1
            ∙ e,
      )

  -- The padding fits in the block.
  fitting :
      {m : Sha} {bytes : List ℕ}
      → Holds h m bytes
      → m.current + 1 ≤ limit
      → Hashed (digest_finalize h m) bytes
  unfolding digest_finalize spill filled_up
  fitting {m} {bytes} held le =
      let r = m.current in
      let t : ltb limit (r + 1) ≡ false = ground arith in
      let t' : leb (r + 1) limit ≡ true = ground arith in
      let (n, left) = bits-count held in
      let one : List ℕ = 0x80 ∷ [] in
      let buffer = overwrite m.buffer r one in
      let pending = take r m.buffer in
      let filled : List ℕ = replicate (place - (r + 1)) 0 in
      let (contents, size) =
        last_block (r + 1) buffer (add64 m.bits (r * 8)) (omega (arith, limit-le))
          (length-overwrite m.buffer r one (omega (arith, held.short, held.size)) ∙ held.size) in
      let before : take (r + 1) buffer ≡ pending ++ one =
        take-overwrite m.buffer r one (omega (arith, held.short, held.size)) in
      let block = overwrite (zeroed (r + 1) place buffer) place (store64 (add64 m.bits (r * 8))) in
      let count : zeros_behind (length bytes % block_size) ≡ place - (r + 1) = rw (left, t') refl in
      let message : concat (held.blocks ++ (block ∷ [])) ≡ filled_up bytes =
        concat-append held.blocks block
        ∙ ap (λ l. concat held.blocks ++ l) contents
        ∙ sym (
            append_assoc (concat held.blocks) (take (r + 1) buffer ++ filled)
              (store64 (add64 m.bits (r * 8))))
        ∙ ap₂ (λ a b. a ++ store64 b)
            (ap (λ l. concat held.blocks ++ (l ++ filled)) before
              ∙ ap (λ l. concat held.blocks ++ l) (append_assoc pending one filled)
              ∙ sym (append_assoc (concat held.blocks) pending (0x80 ∷ filled))
              ∙ ap₂ (λ a k. a ++ (0x80 ∷ replicate k 0)) held.joined (sym count))
            n in
      rw t (record {
        blocks = held.blocks ++ (block ∷ []);
        whole = append-AreBlocks block held.whole size;
        joined = message;
        folded_state =
            ap (λ s. compress s block) held.folded_state
            ∙ sym (folded-append h held.blocks block initial);
        size = size;
        again = refl;
      })

  -- It does not, and a block of zeros follows.
  spilling :
      {m : Sha} {bytes : List ℕ}
      → Holds h m bytes
      → limit < m.current + 1
      → Hashed (digest_finalize h m) bytes
  unfolding digest_finalize spill filled_up
  spilling {m} {bytes} held lt =
      let r = m.current in
      let t : ltb limit (r + 1) ≡ true = ground arith in
      let t' : leb (r + 1) limit ≡ false = ground arith in
      let (n, left) = bits-count held in
      let one : List ℕ = 0x80 ∷ [] in
      let buffer = overwrite m.buffer r one in
      let pending = take r m.buffer in
      let k = block_size - (r + 1) in
      let filled : List ℕ = replicate k 0 in
      let bits = store64 (add64 m.bits (r * 8)) in
      let long : length buffer ≡ block_size =
        length-overwrite m.buffer r one (omega (arith, held.short, held.size)) ∙ held.size in
      let nk = length-replicate {A = ℕ} k 0 in
      let first = overwrite buffer (r + 1) filled in
      let first_long : length first ≡ block_size =
        length-overwrite buffer (r + 1) filled (omega (arith, nk, long, held.short)) ∙ long in
      let first_contents : first ≡ (pending ++ one) ++ filled =
        overwrite-end buffer filled (r + 1) (omega (arith, nk, long, held.short))
        ∙ ap (λ l. l ++ filled)
            (take-overwrite m.buffer r one (omega (arith, held.short, held.size))) in
      let (contents, size) = last_block 0 first (add64 m.bits (r * 8)) (omega arith) first_long in
      let block = overwrite (zeroed 0 place first) place bits in
      let blocks = held.blocks ++ (first ∷ []) in
      let count : zeros_behind (length bytes % block_size) ≡ k + place = rw (left, t') refl in
      let padding : first ++ replicate place 0 ≡ pending ++ (0x80 ∷ replicate (k + place) 0) =
        ap (λ l. l ++ replicate place 0) (first_contents ∙ append_assoc pending one filled)
        ∙ append_assoc pending (0x80 ∷ filled) (replicate place 0)
        ∙ ap (λ l. pending ++ (0x80 ∷ l)) (sym (replicate-add k place)) in
      let message : concat (blocks ++ (block ∷ [])) ≡ filled_up bytes =
        concat-append blocks block
        ∙ ap₂ (λ a b. a ++ b) (concat-append held.blocks first)
            (contents ∙ ap (λ k. replicate {A = ℕ} k 0 ++ bits) (omega arith))
        ∙ sym (append_assoc (concat held.blocks ++ first) (replicate place 0) bits)
        ∙ ap₂ (λ a b. a ++ store64 b)
            (append_assoc (concat held.blocks) first (replicate place 0)
              ∙ ap (λ l. concat held.blocks ++ l) padding
              ∙ sym (append_assoc (concat held.blocks) pending (0x80 ∷ replicate (k + place) 0))
              ∙ ap₂ (λ a k. a ++ (0x80 ∷ replicate k 0)) held.joined (sym count))
            n in
      rw t (record {
        blocks = blocks ++ (block ∷ []);
        whole = append-AreBlocks block (append-AreBlocks first held.whole first_long) size;
        joined = message;
        folded_state =
            ap (λ s. compress (compress s first) block) held.folded_state
            ∙ ap (λ s. compress s block) (sym (folded-append h held.blocks first initial))
            ∙ sym (folded-append h blocks block initial);
        size = size;
        again = refl;
      })

  pub finalize-Hashed :
      {m : Sha} {bytes : List ℕ} → Holds h m bytes → Hashed (digest_finalize h m) bytes
  finalize-Hashed {m} held = elim (dec_lt limit (m.current + 1)) [
    | yes lt ↦ spilling held lt
    | no nlt ↦ fitting held (omega arith)
  ]

  abbrev pub digest_all : List (List ℕ) → Sha → Sha
  digest_all [] m = m
  digest_all (chunk ∷ chunks) m = digest_all chunks (digest h m chunk)

  digest_all-Holds :
      (chunks : List (List ℕ)) {m : Sha} {bytes : List ℕ}
      → Holds h m bytes
      → Holds h (digest_all chunks m) (bytes ++ concat chunks)
  digest_all-Holds [] {m} {bytes} held = subst (Holds h m) (sym (append-nil bytes)) held
  digest_all-Holds (chunk ∷ chunks) {m} {bytes} held =
      subst (Holds h (digest_all chunks (digest h m chunk)))
        (append_assoc bytes chunk (concat chunks))
        (digest_all-Holds chunks (digest-Holds h chunk held))

  pub digest_all-Hashed :
      (m : Sha) (chunks : List (List ℕ))
      → length m.buffer ≡ block_size
      → Hashed (digest_finalize h (digest_all chunks (initialize h m))) (concat chunks)
  digest_all-Hashed m chunks e = finalize-Hashed (digest_all-Holds chunks (initialize-Holds h m e))

  pub restart-Hashed :
      {m : Sha} {bytes : List ℕ} (chunk : List ℕ) (chunks : List (List ℕ))
      → Hashed m bytes
      → Hashed (digest_finalize h (digest_all (chunk ∷ chunks) m)) (chunk ++ concat chunks)
  restart-Hashed {m} chunk chunks hashed =
      finalize-Hashed (digest_all-Holds chunks (digest-restart h m chunk hashed.again hashed.size))
