-- ===== src/Sha256.antt =====
-- packages/rtc/src/streaming-sha256.ts: SHA-256 of a stream of bytes. A 32-bit integer is the natural
-- number of its bits: what JavaScript reads as a negative number below `>>> 0` has the same bits.
-- apps/web/src/services/attachments/streaming-sha256.ts is the same algorithm, laid out otherwise.
pub mod Compress
pub mod Stream
pub mod Digest
use Prim.Native.Nat.{bit_xor, bit_and, bit_or}
use risk_p2p.Prelude.{
  ℕ, zero, suc, ◌+◌, ◌-◌, ◌*◌, ◌/◌, ◌%◌, ◌^◌, min, Bool, true, false, Option, none, some, List, [],
  ◌∷◌, ◌++◌, ltb, ◌==◌, length, take, drop, map, if◌then◌else◌,
}
use risk_p2p.Prelude.Text.{Text, codes}
use risk_p2p.Frames.Bytes.{u32}
use Compress.{Words, compress, initial}

-- The hasher. `block` holds the bytes before `blockLength`; those behind it are written before they
-- are read. `finish` gives the state of a finished hasher, which takes no more bytes, so `finished` is
-- no field.
pub record Hasher : Type 0 where
  pub state : Words
  pub block : List ℕ
  pub bytes_hashed : ℕ

abbrev pub new_hasher : Hasher
new_hasher = record { state = initial; block = []; bytes_hashed = 0 }

-- The loop of `update`, with the rounds that are left.
unfoldable pub feed : ℕ → Words → List ℕ → List ℕ → Words × List ℕ
feed zero state block bytes = (state, block)
feed (suc rounds) state block [] = (state, block)
feed (suc rounds) state block (b ∷ bytes) =
    let input = b ∷ bytes in
    let taken = min (64 - length block) (length input) in
    let filled = block ++ take taken input in
    let full = feed rounds (compress state filled) [] (drop taken input) in
    let part = feed rounds state filled (drop taken input) in
    if length filled == 64 then full else part

-- Each round takes a byte at least, so that their number is enough.
unfoldable pub update : Hasher → List ℕ → Hasher
update h bytes =
    let fed = feed (length bytes) h.state h.block bytes in
    record { state = fed.0; block = fed.1; bytes_hashed = h.bytes_hashed + length bytes }

abbrev pub zeros : ℕ → List ℕ
zeros zero = []
zeros (suc n) = 0 ∷ zeros n

-- `block.fill(0, blockLength)` up to `n`
abbrev pub pad_to : ℕ → List ℕ → List ℕ
pad_to n block = block ++ zeros (n - length block)

-- The length in bits, in two 32-bit integers
unfoldable pub length_bytes : ℕ → List ℕ
unfolding u32
length_bytes n = u32 (n * 8 / 2 ^ 32) ++ u32 (n * 8 % 2 ^ 32)

unfoldable pub finish : Hasher → Words
finish h =
    let marked = h.block ++ 128 ∷ [] in
    let last = length_bytes h.bytes_hashed in
    if ltb 56 (length marked)
    then compress (compress h.state (pad_to 64 marked)) (pad_to 56 [] ++ last)
    else compress h.state (pad_to 56 marked ++ last)

unfoldable pub word_bytes : Words → List ℕ
unfolding u32
word_bytes s =
    u32 s.a ++ (u32 s.b ++ (u32 s.c ++ (u32 s.d ++ (u32 s.e ++ (u32 s.f ++ (u32 s.g ++ u32 s.h))))))

unfoldable pub digest : Hasher → List ℕ
unfolding finish word_bytes
digest h = word_bytes (finish h)

hex_digit : ℕ → ℕ
hex_digit n = if ltb n 10 then n + 48 else n + 87

-- `value.toString(16).padStart(2, "0")`
unfoldable pub hex_text : List ℕ → Text
unfolding hex_digit
hex_text [] = []
hex_text (b ∷ bytes) = hex_digit (b / 16) ∷ hex_digit (b % 16) ∷ hex_text bytes

unfoldable pub digest_hex : Hasher → Text
unfolding digest hex_text
digest_hex h = hex_text (digest h)

-- The parts that the reader of a stream gives, one after the other
unfoldable pub update_all : Hasher → List (List ℕ) → Hasher
update_all h [] = h
update_all h (part ∷ parts) = update_all (update h part) parts

unfoldable pub sha256_blob_hex : List (List ℕ) → Text
unfolding update_all digest_hex
sha256_blob_hex parts = digest_hex (update_all new_hasher parts)
