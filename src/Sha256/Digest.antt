-- ===== src/Sha256/Digest.antt =====
-- The digest of packages/rtc/src/streaming-sha256.ts against SHA-256 as FIPS 180-4 describes it: the
-- message is padded as a whole, then cut into blocks.
use mathlib.Core.List.{append_assoc}
use risk_p2p.Prelude.{
  ℕ, zero, suc, ◌+◌, ◌-◌, ◌*◌, ◌/◌, ◌%◌, ◌^◌, ◌≤◌, ◌<◌, ◌≡◌, refl, sym, ap, ◌∙◌, List, [], ◌∷◌,
  ◌++◌, arith, ltb, ltb→lt, length, take, drop, Bool-cases, inl, inr, length-append, length-take,
  length-drop, take-drop, map,
}
use risk_p2p.Sha256.{
  Hasher, new_hasher, update, update_all, zeros, pad_to, length_bytes, finish, word_bytes, digest,
  digest_hex, sha256_blob_hex, hex_text,
}
use risk_p2p.Sha256.Compress.{Words, compress, initial}
use risk_p2p.Frames.Bytes.{u32}
use risk_p2p.Sha256.Stream.{
  absorb, absorbed, absorb_full, absorb_fill, absorb-append, length-absorb, update-absorb,
}

abbrev pub concat : List (List ℕ) → List ℕ
concat [] = []
concat (part ∷ parts) = part ++ concat parts

-- The last `k` digits of `n` to the base 256, the most significant one first.
abbrev pub big_endian : ℕ → ℕ → List ℕ
big_endian zero n = []
big_endian (suc k) n = n / 256 ^ k % 256 ∷ big_endian k n

-- What stands behind a message of `n` bytes: the bit 1, zeros, and the number of bits in 8 bytes.
abbrev pub padding : ℕ → List ℕ
padding n = 128 ∷ (zeros ((119 - n % 64) % 64) ++ big_endian 8 (n * 8))

abbrev pub padded : List ℕ → List ℕ
padded m = m ++ padding (length m)

-- The first blocks of a message, compressed in their order.
unfoldable pub hash_blocks : ℕ → Words → List ℕ → Words
hash_blocks zero s m = s
hash_blocks (suc n) s m = hash_blocks n (compress s (take 64 m)) (drop 64 m)

-- The eight words, each in 4 bytes.
abbrev pub state_bytes : Words → List ℕ
state_bytes s = concat (map (big_endian 4) (s.a ∷ s.b ∷ s.c ∷ s.d ∷ s.e ∷ s.f ∷ s.g ∷ s.h ∷ []))

-- SHA-256 of a message.
unfoldable pub reference_digest : List ℕ → List ℕ
reference_digest m = state_bytes (hash_blocks (length (padded m) / 64) initial (padded m))

-- Two updates are one.
update-append :
    (h : Hasher) (xs ys : List ℕ)
    → length h.block < 64
    → update (update h xs) ys ≡ update h (xs ++ ys)
unfolding absorbed
update-append h xs ys lt =
    let left = length-absorb h.state h.block xs lt in
    let sum = length-append xs ys in
    let counted : h.bytes_hashed + length (xs ++ ys) ≡ h.bytes_hashed + length xs + length ys =
      omega arith in
    ap (λ g. update g ys) (update-absorb h xs lt)
    ∙ update-absorb (absorbed h xs) ys (omega arith)
    ∙ (rw (absorb-append h.state h.block xs ys, counted) refl)
    ∙ sym (update-absorb h (xs ++ ys) lt)

length-zeros : (n : ℕ) → length (zeros n) ≡ n
length-zeros zero = refl
length-zeros (suc n) = ap suc (length-zeros n)

zeros-add : (m n : ℕ) → zeros (m + n) ≡ zeros m ++ zeros n
zeros-add zero n = ap zeros (omega arith)
zeros-add (suc m) n = ap zeros {y = suc (m + n)} (omega arith) ∙ ap (◌∷◌ 0) (zeros-add m n)

-- The two integers that the code writes are the number of bits.
length_bytes-big_endian : (n : ℕ) → length_bytes n ≡ big_endian 8 (n * 8)
unfolding length_bytes
length_bytes-big_endian n = ground arith

word_bytes-state_bytes : (s : Words) → word_bytes s ≡ state_bytes s
unfolding word_bytes u32
word_bytes-state_bytes s = ground arith

length-length_bytes : (n : ℕ) → length (length_bytes n) ≡ 8
unfolding length_bytes
length-length_bytes n = refl

-- The mark and the zeros behind a block.
pad_to_mark :
    (n k : ℕ) (block : List ℕ)
    → n ≡ length block + 1 + k
    → pad_to n (block ++ 128 ∷ []) ≡ block ++ 128 ∷ zeros k
pad_to_mark n k block h =
    let m = length-append block (128 ∷ []) in
    append_assoc block (128 ∷ []) (zeros (n - length (block ++ 128 ∷ [])))
    ∙ ap (λ t. block ++ 128 ∷ zeros t) (omega arith)

-- Whole blocks leave nothing over.
absorb-hash_blocks :
    (n : ℕ) (s : Words) (m : List ℕ) → length m ≡ n * 64 → absorb s [] m ≡ (hash_blocks n s m, [])
unfolding hash_blocks absorb
absorb-hash_blocks zero s [] h = refl
absorb-hash_blocks zero s (b ∷ m) h = absurd (omega arith)
absorb-hash_blocks (suc n) s m h =
    let taken = length-take 64 m in
    let left = length-drop 64 m in
    ap (absorb s []) (sym (take-drop 64 m))
    ∙ absorb-append s [] (take 64 m) (drop 64 m)
    ∙ ap (λ t. absorb t.0 t.1 (drop 64 m))
        (absorb_fill s [] (take 64 m) (omega arith) (omega arith))
    ∙ absorb-hash_blocks n (compress s (take 64 m)) (drop 64 m) (omega arith)

finish_two :
    (s : Words) (block last : List ℕ)
    → 56 ≤ length block
    → length block < 64
    → length last ≡ 8
    → absorb s block (128 ∷ (zeros (119 - length block) ++ last))
      ≡ (compress (compress s (pad_to 64 (block ++ 128 ∷ []))) (pad_to 56 [] ++ last), [])
finish_two s block last h lt eight =
    let rest = zeros (63 - length block) in
    let m = length-zeros (63 - length block) in
    let behind = length-append (zeros 56) last in
    let zs : zeros (119 - length block) ≡ rest ++ zeros 56 =
      ap zeros (omega arith) ∙ zeros-add (63 - length block) 56 in
    ap (λ t. absorb s block (128 ∷ (t ++ last))) zs
    ∙ ap (λ t. absorb s block (128 ∷ t)) (append_assoc rest (zeros 56) last)
    ∙ absorb_full s block (128 ∷ rest) (zeros 56 ++ last) (omega arith) (omega arith)
    ∙ absorb_fill (compress s (block ++ 128 ∷ rest)) [] (zeros 56 ++ last) (omega arith)
        (omega arith)
    ∙ ap (λ t. (compress (compress s t) (zeros 56 ++ last), []))
        (sym (pad_to_mark 64 (63 - length block) block (omega arith)))

finish_one :
    (s : Words) (block last : List ℕ)
    → length block < 56
    → length last ≡ 8
    → absorb s block (128 ∷ (zeros (55 - length block) ++ last))
      ≡ (compress s (pad_to 56 (block ++ 128 ∷ []) ++ last), [])
finish_one s block last h eight =
    let rest = zeros (55 - length block) in
    let m = length-zeros (55 - length block) in
    let behind = length-append rest last in
    absorb_fill s block (128 ∷ (rest ++ last)) (omega arith) (omega arith)
    ∙ ap (λ t. (compress s t, []))
        (sym (
          ap (λ t. t ++ last) (pad_to_mark 56 (55 - length block) block (omega arith))
          ∙ append_assoc block (128 ∷ rest) last))

-- `finish` compresses what the padding fills: one block, or two.
finish-absorb :
    (h : Hasher)
    → length h.block < 64
    → length h.block ≡ h.bytes_hashed % 64
    → absorb h.state h.block (padding h.bytes_hashed) ≡ (finish h, [])
unfolding finish
finish-absorb h lt eq =
    let last = length_bytes h.bytes_hashed in
    let eight = length-length_bytes h.bytes_hashed in
    let n = length-append h.block (128 ∷ []) in
    let pad : (k : ℕ)
        → (119 - h.bytes_hashed % 64) % 64 ≡ k
        → absorb h.state h.block (padding h.bytes_hashed)
          ≡ absorb h.state h.block (128 ∷ (zeros k ++ last)) =
      λ k e.
        ap (λ t. absorb h.state h.block (128 ∷ (zeros ((119 - h.bytes_hashed % 64) % 64) ++ t)))
          (sym (length_bytes-big_endian h.bytes_hashed))
        ∙ ap (λ t. absorb h.state h.block (128 ∷ (zeros t ++ last))) e in
    elim (Bool-cases (ltb 56 (length (h.block ++ 128 ∷ [])))) [
      | inl two ↦
          let more = ltb→lt 56 (length (h.block ++ 128 ∷ [])) two in
          rw two (
            pad (119 - length h.block) (omega arith)
            ∙ finish_two h.state h.block last (omega arith) lt eight)
      | inr one ↦
          let fits : length h.block < 56 = ground arith in
          rw one
            (pad (55 - length h.block) (omega arith) ∙ finish_one h.state h.block last fits eight)
    ]

whole_blocks : (n : ℕ) → n + (9 + (119 - n % 64) % 64) ≡ (n + (9 + (119 - n % 64) % 64)) / 64 * 64
whole_blocks n = omega arith

length-padded : (m : List ℕ) → length (padded m) ≡ length (padded m) / 64 * 64
length-padded m =
    let whole = length-append m (padding (length m)) in
    let filled = zeros ((119 - length m % 64) % 64) in
    let behind = length-append filled (big_endian 8 (length m * 8)) in
    let n = length-zeros ((119 - length m % 64) % 64) in
    let total : length (padded m) ≡ length m + (9 + (119 - length m % 64) % 64) = omega arith in
    total ∙ whole_blocks (length m) ∙ ap (λ t. t / 64 * 64) (sym total)

finish-update :
    (m : List ℕ)
    → finish (update new_hasher m) ≡ hash_blocks (length (padded m) / 64) initial (padded m)
unfolding absorbed
finish-update m =
    let left = length-absorb initial [] m (omega arith) in
    let n = length (padded m) / 64 in
    ap finish (update-absorb new_hasher m (omega arith))
    ∙ ap (λ t. t.0)
        (sym (finish-absorb (absorbed new_hasher m) (omega arith) (omega arith))
          ∙ ap (λ k. absorb (absorb initial [] m).0 (absorb initial [] m).1 (padding k))
              {x = 0 + length m} (omega arith)
          ∙ sym (absorb-append initial [] m (padding (length m)))
          ∙ absorb-hash_blocks n initial (padded m) (length-padded m))

-- An update leaves less than a block.
length-update :
    (h : Hasher) (bytes : List ℕ) → length h.block < 64 → length (update h bytes).block < 64
unfolding absorbed
length-update h bytes lt =
    let left = length-absorb h.state h.block bytes lt in rw (update-absorb h bytes lt) (omega arith)

-- A hasher whose block is not full, as every update leaves it, takes a stream of parts as if they
-- came in one update: the state, the unprocessed bytes and the count do not depend on the cuts.
pub update_all-concat :
    (h : Hasher) (parts : List (List ℕ))
    → length h.block < 64
    → update_all h parts ≡ update h (concat parts)
unfolding update_all absorbed absorb
update_all-concat h [] lt = sym (
    update-absorb h [] lt
    ∙ ap (λ k. record { state = h.state; block = h.block; bytes_hashed = k })
        {x = h.bytes_hashed + 0} (omega arith))
update_all-concat h (part ∷ parts) lt =
    update_all-concat (update h part) parts (length-update h part lt)
    ∙ update-append h part (concat parts) lt

-- The digest of a blob, computed part by part in a block of 64 bytes, is the hexadecimal text of what
-- FIPS 180-4 computes of the whole message with the compression function and the first words of the
-- code: the message, the bit 1, zeros up to 8 bytes below a multiple of 64, and the number of its bits
-- in 8 bytes are cut into blocks, these are compressed in turn, and the words that come out are
-- written in 4 bytes each, the most significant one first.
pub sha256_blob_hex-reference_digest :
    (parts : List (List ℕ)) → sha256_blob_hex parts ≡ hex_text (reference_digest (concat parts))
unfolding sha256_blob_hex digest_hex digest reference_digest
sha256_blob_hex-reference_digest parts =
    ap (λ h. hex_text (word_bytes (finish h))) (update_all-concat new_hasher parts (omega arith))
    ∙ ap (λ s. hex_text (word_bytes s)) (finish-update (concat parts))
    ∙ ap hex_text (word_bytes-state_bytes _)
