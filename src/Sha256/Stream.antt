-- ===== src/Sha256/Stream.antt =====
-- How packages/rtc/src/streaming-sha256.ts takes its input: byte by byte, as a reference, and in parts.
use mathlib.Core.List.{append_assoc, append-nil}
use risk_p2p.Prelude.{
  ℕ, zero, suc, ◌+◌, ◌-◌, ◌%◌, ◌≤◌, ◌<◌, min, ◌≡◌, refl, sym, ap, ◌∙◌, true, false, List, [], ◌∷◌,
  ◌++◌, arith, ◌==◌, length, take, drop, ==_iff, if◌then◌else◌, Bool-cases, inl, inr, length-append,
  length-take, length-drop, take-drop,
}
use risk_p2p.Sha256.{Hasher, feed, update}
use risk_p2p.Sha256.Compress.{Words, compress}

-- The input one byte at a time.
unfoldable pub absorb : Words → List ℕ → List ℕ → Words × List ℕ
absorb s block [] = (s, block)
absorb s block (b ∷ bytes) =
    let filled = block ++ b ∷ [] in
    let full = absorb (compress s filled) [] bytes in
    let part = absorb s filled bytes in if length filled == 64 then full else part

pub absorb-append :
    (s : Words) (block xs ys : List ℕ)
    → absorb s block (xs ++ ys) ≡ absorb (absorb s block xs).0 (absorb s block xs).1 ys
unfolding absorb
absorb-append s block [] ys = refl
absorb-append s block (b ∷ xs) ys = elim (Bool-cases (length (block ++ b ∷ []) == 64)) [
  | inl full ↦ rw full (absorb-append (compress s (block ++ b ∷ [])) [] xs ys)
  | inr part ↦ rw part (absorb-append s (block ++ b ∷ []) xs ys)
]

-- One byte more.
filled_length : (block : List ℕ) (b : ℕ) → length (block ++ b ∷ []) ≡ length block + 1
filled_length block b = omega (arith, length-append {0} block (b ∷ []))

not_full : (block : List ℕ) → length block < 64 → (length block == 64) ≡ false
not_full block h = ground arith

-- A part that does not fill the block is appended to it.
pub absorb_short :
    (s : Words) (block xs : List ℕ)
    → length block + length xs < 64
    → absorb s block xs ≡ (s, block ++ xs)
unfolding absorb
absorb_short s block [] h = ap (λ t. (s, t)) (sym (append-nil block))
absorb_short s block (b ∷ xs) h =
    let n = filled_length block b in
    rw (not_full (block ++ b ∷ []) (omega arith)) (
      absorb_short s (block ++ b ∷ []) xs (omega arith)
      ∙ ap (λ t. (s, t)) (append_assoc block (b ∷ []) xs))

-- A part that just fills the block is compressed with it.
pub absorb_fill :
    (s : Words) (block xs : List ℕ)
    → 0 < length xs
    → length block + length xs ≡ 64
    → absorb s block xs ≡ (compress s (block ++ xs), [])
unfolding absorb
absorb_fill s block [] pos h = absurd (omega arith)
absorb_fill s block (b ∷ []) pos h =
    let n = filled_length block b in
    let full : (length (block ++ b ∷ []) == 64) ≡ true = (==_iff _ _).1 (omega arith) in rw full
absorb_fill s block (b ∷ c ∷ xs) pos h =
    let n = filled_length block b in
    rw (not_full (block ++ b ∷ []) (omega arith)) (
      absorb_fill s (block ++ b ∷ []) (c ∷ xs) (omega arith) (omega arith)
      ∙ ap (λ t. (compress s t, [])) (append_assoc block (b ∷ []) (c ∷ xs)))

-- A part that just fills the block, and what comes behind it.
pub absorb_full :
    (s : Words) (block piece rest : List ℕ)
    → 0 < length piece
    → length block + length piece ≡ 64
    → absorb s block (piece ++ rest) ≡ absorb (compress s (block ++ piece)) [] rest
absorb_full s block piece rest pos h =
    absorb-append s block piece rest
    ∙ ap (λ t. absorb t.0 t.1 rest) (absorb_fill s block piece pos h)

-- A part of what is missing, and what comes behind it.
absorb_piece :
    (s : Words) (block piece rest : List ℕ)
    → 0 < length piece
    → length block + length piece ≤ 64
    → absorb s block (piece ++ rest) ≡ (
        if length (block ++ piece) == 64
        then absorb (compress s (block ++ piece)) [] rest
        else absorb s (block ++ piece) rest)
absorb_piece s block piece rest pos h =
    let n = length-append {0} block piece in
    elim (Bool-cases (length (block ++ piece) == 64)) [
      | inl full ↦
          let eq = (==_iff _ _).0 full in rw full (absorb_full s block piece rest pos (omega arith))
      | inr part ↦
          let lt : length block + length piece < 64 = ground arith in
          rw part (
            absorb-append s block piece rest
            ∙ ap (λ t. absorb t.0 t.1 rest) (absorb_short s block piece lt))
    ]

-- The loop of `update` takes the input as if byte by byte, if it has a round for each byte.
pub feed-absorb :
    (rounds : ℕ) (s : Words) (block bytes : List ℕ)
    → length bytes ≤ rounds
    → length block < 64
    → feed rounds s block bytes ≡ absorb s block bytes
unfolding feed absorb
feed-absorb zero s block [] h lt = refl
feed-absorb zero s block (b ∷ bytes) h lt = absurd (omega arith)
feed-absorb (suc rounds) s block [] h lt = refl
feed-absorb (suc rounds) s block (b ∷ bytes) h lt =
    let input = b ∷ bytes in
    let k = min (64 - length block) (length input) in
    let piece = take k input in
    let taken : length piece ≡ k = length-take k input ∙ omega arith in
    let left = length-drop k input in
    let n = length-append {0} block piece in
    sym (
      ap (absorb s block) (sym (take-drop k input))
      ∙ absorb_piece s block piece (drop k input) (omega arith) (omega arith)
      ∙ elim (Bool-cases (length (block ++ piece) == 64)) [
        | inl full ↦ rw full (
            sym (
              feed-absorb rounds (compress s (block ++ piece)) [] (drop k input) (omega arith)
                (omega arith)))
        | inr part ↦ rw part (
            sym (feed-absorb rounds s (block ++ piece) (drop k input) (omega arith) (ground arith)))
      ])

-- The bytes that the blocks leave over.
pub length-absorb :
    (s : Words) (block bytes : List ℕ)
    → length block < 64
    → length (absorb s block bytes).1 ≡ (length block + length bytes) % 64
unfolding absorb
length-absorb s block [] lt = omega arith
length-absorb s block (b ∷ bytes) lt =
    let n = filled_length block b in
    elim (Bool-cases (length (block ++ b ∷ []) == 64)) [
      | inl full ↦
          let eq = (==_iff _ _).0 full in
          rw full
            (length-absorb (compress s (block ++ b ∷ [])) [] bytes (omega arith) ∙ omega arith)
      | inr part ↦
          let more : length (block ++ b ∷ []) < 64 = ground arith in
          rw part (length-absorb s (block ++ b ∷ []) bytes more ∙ omega arith)
    ]

-- What `update` leaves, in the reference's words.
unfoldable pub absorbed : Hasher → List ℕ → Hasher
absorbed h bytes =
    let fed = absorb h.state h.block bytes in
    record { state = fed.0; block = fed.1; bytes_hashed = h.bytes_hashed + length bytes }

pub update-absorb :
    (h : Hasher) (bytes : List ℕ) → length h.block < 64 → update h bytes ≡ absorbed h bytes
unfolding update absorbed
update-absorb h bytes lt =
    ap
      (λ fed. record { state = fed.0; block = fed.1; bytes_hashed = h.bytes_hashed + length bytes })
      (feed-absorb (length bytes) h.state h.block bytes (omega arith) lt)
