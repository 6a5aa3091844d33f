-- ===== src/Md5/Reference.antt =====
-- `md5_digest_finalize` of foundation/md5.c, and the digest of a message as RFC 1321 defines it.
use mathlib.Core.Path.{subst}
use foundation_lib.Prelude.{
  ℕ, zero, suc, ◌+◌, ◌-◌, ◌*◌, ◌/◌, ◌%◌, ◌^◌, ◌≤◌, ◌<◌, ◌≡◌, refl, sym, ap, ap₂, ◌∙◌, true, List,
  [], ◌∷◌, ◌++◌, append_assoc, append-nil, arith, ltb, if◌then◌else◌, length, length-append, take,
  replicate, length-replicate,
}
use foundation_lib.Md5.{
  State, Md5, initial, initialize, blocks, digest, digest_finalize, encode, padding,
}
use foundation_lib.Md5.Rfc.{low_bytes, zeros, padded, rfc_blocks, rfc_digest, start}
use foundation_lib.Md5.Transform.{blocks-rfc_blocks, initial-start, start-Narrow}
use foundation_lib.Prelude.Bytes.{Bytes, append-Bytes, replicate-Bytes}
use Prim.{tt}
use foundation_lib.Md5.Chunks.{Holds, initialize-Holds, digest-Holds, digest-restart}

abbrev pad : ℕ → List ℕ
pad len = 0x80 ∷ replicate (zeros len) 0

abbrev state_bytes : State → List ℕ
state_bytes q = encode (q.a ∷ q.b ∷ q.c ∷ q.d ∷ [])

-- The code's digest of the blocks of a message.
abbrev blocks_digest : List ℕ → List ℕ
blocks_digest bytes = state_bytes (blocks (length bytes / 64) initial bytes)

take-replicate : (k n x : ℕ) → k ≤ n → take k (replicate n x) ≡ replicate k x
take-replicate zero n x h = refl
take-replicate (suc k) zero x h = absurd (omega arith)
take-replicate (suc k) (suc n) x h = ap (λ l. x ∷ l) (take-replicate k n x (omega arith))

take-padding : (k : ℕ) → k < 64 → take (suc k) padding ≡ 0x80 ∷ replicate k 0
take-padding k h = ap (λ l. 0x80 ∷ l) (take-replicate k 63 0 (omega arith))

encode_count :
    (c d : ℕ) → c < 2 ^ 32 → d < 2 ^ 32 → encode (c ∷ d ∷ []) ≡ low_bytes 8 (c + 2 ^ 32 * d)
unfolding encode low_bytes
encode_count c d p q = ap₂ ◌∷◌ (omega arith) (
    ap₂ ◌∷◌ (omega arith) (
      ap₂ ◌∷◌ (omega arith) (
        ap₂ ◌∷◌ (omega arith) (
          ap₂ ◌∷◌ (omega arith)
            (ap₂ ◌∷◌ (omega arith) (ap₂ ◌∷◌ (omega arith) (ap₂ ◌∷◌ (omega arith) refl)))))))

-- The number of bytes that `md5_digest_finalize` takes from its array.
size_pad-zeros :
    {m : Md5} {bytes : List ℕ}
    → Holds m bytes
    → let idx = m.count0 / 2 ^ 3 % 64 in
      (if ltb idx 56 then 56 - idx else 120 - idx) ≡ suc (zeros (length bytes))
size_pad-zeros {m} {bytes} h = let c = h.counted in let l = h.low in let k = h.high in ground arith

low-Bytes : (n w : ℕ) → Bytes (low_bytes n w)
unfolding low_bytes
low-Bytes zero w = tt
low-Bytes (suc n) w = (omega arith, low-Bytes n (w / 256))

padded-Bytes : (bytes : List ℕ) → Bytes bytes → Bytes (padded bytes)
unfolding padded
padded-Bytes bytes b =
    append-Bytes (bytes ++ pad (length bytes)) (low_bytes 8 (8 * length bytes % 2 ^ 64))
      (append-Bytes bytes (pad (length bytes)) b
        (omega arith, replicate-Bytes (zeros (length bytes))))
      (low-Bytes 8 (8 * length bytes % 2 ^ 64))

encode_word : (w : ℕ) (ws : List ℕ) → encode (w ∷ ws) ≡ low_bytes 4 w ++ encode ws
unfolding encode low_bytes
encode_word w ws =
    ap₂ ◌∷◌ (omega arith)
      (ap₂ ◌∷◌ (omega arith) (ap₂ ◌∷◌ (omega arith) (ap₂ ◌∷◌ (omega arith) refl)))

encode_words :
    (q : State)
    → state_bytes q ≡ low_bytes 4 q.a ++ (low_bytes 4 q.b ++ (low_bytes 4 q.c ++ low_bytes 4 q.d))
unfolding encode
encode_words q =
    encode_word q.a (q.b ∷ q.c ∷ q.d ∷ [])
    ∙ ap (λ l. low_bytes 4 q.a ++ l)
        (encode_word q.b (q.c ∷ q.d ∷ [])
          ∙ ap (λ l. low_bytes 4 q.b ++ l)
              (encode_word q.c (q.d ∷ [])
                ∙ ap (λ l. low_bytes 4 q.c ++ l)
                    (encode_word q.d [] ∙ append-nil (low_bytes 4 q.d))))

digest-rfc_digest : (bytes : List ℕ) → Bytes bytes → blocks_digest (padded bytes) ≡ rfc_digest bytes
unfolding rfc_digest
digest-rfc_digest bytes b =
    let n = length (padded bytes) / 64 in
    ap (λ q. state_bytes (blocks n q (padded bytes))) initial-start
    ∙ ap state_bytes (blocks-rfc_blocks n start (padded bytes) start-Narrow (padded-Bytes bytes b))
    ∙ encode_words (rfc_blocks n start (padded bytes))

-- Finalizing a digest gives the digest of the message that it has taken in.
pub finalize-rfc_digest :
    {m : Md5} {bytes : List ℕ}
    → Holds m bytes
    → Bytes bytes
    → (digest_finalize m).digest ≡ rfc_digest bytes
unfolding digest_finalize padded
finalize-rfc_digest {m} {bytes} h b =
    let idx = m.count0 / 2 ^ 3 % 64 in
    let added = take (if ltb idx 56 then 56 - idx else 120 - idx) padding in
    let bits = encode (m.count0 ∷ m.count1 ∷ []) in
    let done = digest-Holds bits (digest-Holds added h) in
    let added_pad : added ≡ pad (length bytes) =
      ap (λ k. take k padding) (size_pad-zeros h)
      ∙ take-padding (zeros (length bytes)) (omega arith) in
    let bits_count : bits ≡ low_bytes 8 (8 * length bytes % 2 ^ 64) =
      encode_count m.count0 m.count1 h.low h.high ∙ ap (low_bytes 8) h.counted in
    let message : (bytes ++ added) ++ bits ≡ padded bytes =
      ap₂ (λ a b. (bytes ++ a) ++ b) added_pad bits_count in
    ap state_bytes done.absorbed ∙ ap blocks_digest message ∙ digest-rfc_digest bytes b

-- It leaves the digest to be initialized again.
finalize-init : (m : Md5) → (digest_finalize m).init ≡ true
unfolding digest_finalize
finalize-init m = refl

-- The padding completes the last block, so that every byte of the padded message is digested.
pub length-padded : (bytes : List ℕ) → length (padded bytes) % 64 ≡ 0
unfolding padded low_bytes
length-padded bytes =
    let p = pad (length bytes) in
    let nothing : ℕ = 0 in
    let count = low_bytes 8 (8 * length bytes % 2 ^ 64) in
    omega (
      arith,
      length-append (bytes ++ p) count,
      length-append bytes p,
      length-replicate (zeros (length bytes)) nothing,
    )

abbrev pub digest_all : List (List ℕ) → Md5 → Md5
digest_all [] m = m
digest_all (chunk ∷ chunks) m = digest_all chunks (digest m chunk)

abbrev pub concat : List (List ℕ) → List ℕ
concat [] = []
concat (chunk ∷ chunks) = chunk ++ concat chunks

digest_all-Holds :
    (chunks : List (List ℕ)) {m : Md5} {bytes : List ℕ}
    → Holds m bytes
    → Holds (digest_all chunks m) (bytes ++ concat chunks)
digest_all-Holds [] {m} {bytes} h = subst (Holds m) (sym (append-nil bytes)) h
digest_all-Holds (chunk ∷ chunks) {m} {bytes} h =
    subst (Holds (digest_all chunks (digest m chunk))) (append_assoc bytes chunk (concat chunks))
      (digest_all-Holds chunks (digest-Holds chunk h))

-- An initialized digest that takes in a message of bytes in chunks of any lengths and is finalized holds the
-- MD5 digest of the message, whose padding, words, functions, constants and shifts are those of RFC 1321.
pub digest_all-rfc_digest :
    (m : Md5) (chunks : List (List ℕ))
    → Bytes (concat chunks)
    → (digest_finalize (digest_all chunks (initialize m))).digest ≡ rfc_digest (concat chunks)
digest_all-rfc_digest m chunks b =
    finalize-rfc_digest (digest_all-Holds chunks (initialize-Holds m)) b

-- A digest that was finalized, whatever it has taken in before, can be used again without another
-- initialization: it takes in a message of bytes in chunks of any lengths, one at least, and is finalized
-- to the MD5 digest of this message alone.
pub digest_again-rfc_digest :
    (m : Md5) (chunk : List ℕ) (chunks : List (List ℕ))
    → Bytes (chunk ++ concat chunks)
    → (digest_finalize (digest_all (chunk ∷ chunks) (digest_finalize m))).digest
      ≡ rfc_digest (chunk ++ concat chunks)
digest_again-rfc_digest m chunk chunks b =
    let again = digest_finalize m in
    finalize-rfc_digest (digest_all-Holds chunks (digest-restart again chunk (finalize-init m))) b
