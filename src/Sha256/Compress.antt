-- ===== src/Sha256/Compress.antt =====
-- packages/rtc/src/streaming-sha256.ts: `compress`, its constants and `rotr`.
use Prim.Native.Nat.{bit_xor, bit_and, bit_or}
use risk_p2p.Prelude.{
  ℕ, zero, suc, ◌+◌, ◌-◌, ◌*◌, ◌/◌, ◌%◌, ◌^◌, none, some, List, [], ◌∷◌, get_elem?,
}
use risk_p2p.Frames.Bytes.{get_u32}

pub record Words : Type 0 where
  pub a : ℕ
  pub b : ℕ
  pub c : ℕ
  pub d : ℕ
  pub e : ℕ
  pub f : ℕ
  pub g : ℕ
  pub h : ℕ

abbrev pub initial : Words
initial = record {
  a = 0x6a09e667;
  b = 0xbb67ae85;
  c = 0x3c6ef372;
  d = 0xa54ff53a;
  e = 0x510e527f;
  f = 0x9b05688c;
  g = 0x1f83d9ab;
  h = 0x5be0cd19;
}

abbrev pub round_constants : List ℕ
round_constants =
    0x428a2f98 ∷ 0x71374491 ∷ 0xb5c0fbcf ∷ 0xe9b5dba5 ∷ 0x3956c25b ∷ 0x59f111f1 ∷ 0x923f82a4
    ∷ 0xab1c5ed5 ∷ 0xd807aa98 ∷ 0x12835b01 ∷ 0x243185be ∷ 0x550c7dc3 ∷ 0x72be5d74 ∷ 0x80deb1fe
    ∷ 0x9bdc06a7 ∷ 0xc19bf174 ∷ 0xe49b69c1 ∷ 0xefbe4786 ∷ 0x0fc19dc6 ∷ 0x240ca1cc ∷ 0x2de92c6f
    ∷ 0x4a7484aa ∷ 0x5cb0a9dc ∷ 0x76f988da ∷ 0x983e5152 ∷ 0xa831c66d ∷ 0xb00327c8 ∷ 0xbf597fc7
    ∷ 0xc6e00bf3 ∷ 0xd5a79147 ∷ 0x06ca6351 ∷ 0x14292967 ∷ 0x27b70a85 ∷ 0x2e1b2138 ∷ 0x4d2c6dfc
    ∷ 0x53380d13 ∷ 0x650a7354 ∷ 0x766a0abb ∷ 0x81c2c92e ∷ 0x92722c85 ∷ 0xa2bfe8a1 ∷ 0xa81a664b
    ∷ 0xc24b8b70 ∷ 0xc76c51a3 ∷ 0xd192e819 ∷ 0xd6990624 ∷ 0xf40e3585 ∷ 0x106aa070 ∷ 0x19a4c116
    ∷ 0x1e376c08 ∷ 0x2748774c ∷ 0x34b0bcb5 ∷ 0x391c0cb3 ∷ 0x4ed8aa4a ∷ 0x5b9cca4f ∷ 0x682e6ff3
    ∷ 0x748f82ee ∷ 0x78a5636f ∷ 0x84c87814 ∷ 0x8cc70208 ∷ 0x90befffa ∷ 0xa4506ceb ∷ 0xbef9a3f7
    ∷ 0xc67178f2 ∷ []

-- `(value >>> bits) | (value << (32 - bits))`
unfoldable pub rotr : ℕ → ℕ → ℕ
rotr value bits = bit_or (value / 2 ^ bits) (value * 2 ^ (32 - bits) % 2 ^ 32)

-- `x ^ y ^ z`
xor3 : ℕ → ℕ → ℕ → ℕ
xor3 x y z = bit_xor (bit_xor x y) z

-- `~x`
complement : ℕ → ℕ
complement x = 0xffffffff - x

-- The word `i` places back, of a list with the newest first.
back : ℕ → List ℕ → ℕ
back i words = elim (get_elem? words (i - 1)) [ none ↦ 0 | some w ↦ w ]

next_word : List ℕ → ℕ
unfolding xor3 rotr back
next_word words =
    let x = back 15 words in
    let y = back 2 words in
    (back 16 words
      + xor3 (rotr x 7) (rotr x 18) (x / 2 ^ 3)
      + back 7 words
      + xor3 (rotr y 17) (rotr y 19) (y / 2 ^ 10))
    % 2 ^ 32

-- The words of the schedule, the newest first: those of the block, and `n` more.
block_words : ℕ → List ℕ → List ℕ
unfolding get_u32
block_words zero block = []
block_words (suc n) block = get_u32 (4 * n) block ∷ block_words n block

extend : ℕ → List ℕ → List ℕ
unfolding next_word
extend zero words = words
extend (suc n) words = extend n (next_word words ∷ words)

unfoldable pub schedule : List ℕ → List ℕ
unfolding block_words extend
schedule block = extend 48 (block_words 16 block)

-- One round of the second loop.
unfoldable pub round : Words → ℕ → ℕ → Words
unfolding xor3 rotr complement
round s k w =
    let t1 =
      (s.h
        + xor3 (rotr s.e 6) (rotr s.e 11) (rotr s.e 25)
        + bit_xor (bit_and s.e s.f) (bit_and (complement s.e) s.g)
        + k
        + w)
      % 2 ^ 32 in
    let t2 =
      (xor3 (rotr s.a 2) (rotr s.a 13) (rotr s.a 22)
        + xor3 (bit_and s.a s.b) (bit_and s.a s.c) (bit_and s.b s.c))
      % 2 ^ 32 in
    record {
      a = (t1 + t2) % 2 ^ 32;
      b = s.a;
      c = s.b;
      d = s.c;
      e = (s.d + t1) % 2 ^ 32;
      f = s.e;
      g = s.f;
      h = s.g;
    }

-- The rounds, whose words come with the newest first.
run_rounds : Words → List ℕ → List ℕ → Words
unfolding round
run_rounds s (k ∷ ks) (w ∷ words) = run_rounds (round s k w) ks words
run_rounds s _ _ = s

reverse_onto : List ℕ → List ℕ → List ℕ
reverse_onto done [] = done
reverse_onto done (w ∷ words) = reverse_onto (w ∷ done) words

unfoldable pub compress : Words → List ℕ → Words
unfolding schedule run_rounds reverse_onto
compress s block =
    let r = run_rounds s round_constants (reverse_onto [] (schedule block)) in
    record {
      a = (s.a + r.a) % 2 ^ 32;
      b = (s.b + r.b) % 2 ^ 32;
      c = (s.c + r.c) % 2 ^ 32;
      d = (s.d + r.d) % 2 ^ 32;
      e = (s.e + r.e) % 2 ^ 32;
      f = (s.f + r.f) % 2 ^ 32;
      g = (s.g + r.g) % 2 ^ 32;
      h = (s.h + r.h) % 2 ^ 32;
    }
