-- ===== src/Frames/Bytes.antt =====
-- The `DataView` accessors that packages/rtc/src/file-chunk-codec.ts uses, all big-endian.
use risk_p2p.Prelude.{ℕ, ◌+◌, ◌*◌, ◌/◌, ◌%◌, ◌<◌, ◌≡◌, none, some, List, [], ◌∷◌, arith, get_elem?}

-- `getUint8`. The source reads inside the buffer only, so the 0 is never used.
unfoldable pub byte_at : ℕ → List ℕ → ℕ
byte_at i bytes = elim (get_elem? bytes i) [ none ↦ 0 | some b ↦ b ]

-- `getUint16(i, false)` and `getUint32(i, false)`
unfoldable pub get_u16 : ℕ → List ℕ → ℕ
unfolding byte_at
get_u16 i bytes = byte_at i bytes * 256 + byte_at (i + 1) bytes

unfoldable pub get_u32 : ℕ → List ℕ → ℕ
unfolding get_u16
get_u32 i bytes = get_u16 i bytes * 65536 + get_u16 (i + 2) bytes

-- `setUint16` and `setUint32`, which keep the value modulo the width
unfoldable pub u16 : ℕ → List ℕ
u16 n = n / 256 % 256 ∷ n % 256 ∷ []

unfoldable pub u32 : ℕ → List ℕ
u32 n = n / 16777216 % 256 ∷ n / 65536 % 256 ∷ n / 256 % 256 ∷ n % 256 ∷ []

pub u32_join :
    (n : ℕ)
    → n < 4294967296
    → (n / 16777216 % 256 * 256 + n / 65536 % 256) * 65536 + (n / 256 % 256 * 256 + n % 256) ≡ n
u32_join n h = omega arith
