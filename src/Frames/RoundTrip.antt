-- ===== src/Frames/RoundTrip.antt =====
-- A frame that the encoder accepts is what the decoder gives back.
use risk_p2p.Prelude.{
  ℕ, ◌+◌, ◌≤◌, ◌<◌, ◌≡◌, refl, true, not, none, some, List, ◌==◌, ◌++◌, arith, length, take, drop,
  length-append, take-append, drop-append, take_all, if◌then◌else◌, ◌∙◌,
}
use risk_p2p.Frames.Bytes.{get_u32, get_u16, byte_at, u32_join}
use risk_p2p.Prelude.Js.{equals}
use risk_p2p.Frames.{
  Frame, MetadataCodec, Result, ok, err, header, validate_frame, encode_attachment_chunk_frame,
  decode_attachment_chunk_frame, finish_frame, max_metadata_bytes, max_payload_bytes, magic,
  fixed_header_bytes, bad_length,
}

pub length-header : (m p : ℕ) → length (header m p) ≡ 16
unfolding header
length-header m p = refl

pub header_fields :
    (m p : ℕ) (rest : List ℕ)
    → m < 4294967296
    → p < 4294967296
    → (get_u32 0 (header m p ++ rest) ≡ magic)
      × (byte_at 4 (header m p ++ rest) ≡ 1)
      × (get_u16 6 (header m p ++ rest) ≡ 16)
      × (get_u32 8 (header m p ++ rest) ≡ m)
      × (get_u32 12 (header m p ++ rest) ≡ p)
unfolding header get_u32 get_u16 byte_at
header_fields m p rest hm hp = (refl, refl, refl, u32_join m hm, u32_join p hp)

module _ (json : MetadataCodec) where
  -- What an accepted frame encodes to, and what the encoder checked.
  pub record Encoded (f : Frame) (bytes : List ℕ) : Type 0 where
    pub valid : validate_frame f ≡ none
    pub metadata_fits : length (json.serialize f.metadata) ≤ max_metadata_bytes
    pub payload_fits : length f.payload ≤ max_payload_bytes
    pub layout :
        bytes
        ≡ header (length (json.serialize f.metadata)) (length f.payload)
          ++ (json.serialize f.metadata ++ f.payload)

  pub encode-Encoded :
      (f : Frame) (bytes : List ℕ)
      → encode_attachment_chunk_frame json f ≡ ok bytes
      → Encoded f bytes
  unfolding encode_attachment_chunk_frame
  encode-Encoded f bytes h = ground arith

  size_of_valid : (f : Frame) → validate_frame f ≡ none → equals f.size (length f.payload) ≡ true
  unfolding validate_frame
  size_of_valid f h = ground arith

  finish_valid :
      (f : Frame)
      → validate_frame f ≡ none
      → finish_frame json (length f.payload) f.payload (some f.metadata) ≡ ok f
  unfolding finish_frame
  finish_valid f h = ground (arith, size_of_valid f h)

  -- The decoder behind its header tests.
  decode_body : ℕ → ℕ → List ℕ → Result Frame
  decode_body m p buffer =
      if not (fixed_header_bytes + m + p == length buffer)
      then err bad_length
      else finish_frame json p (take p (drop m (drop fixed_header_bytes buffer)))
          (json.parse (take m (drop fixed_header_bytes buffer)))

  decode_guards :
      (buffer : List ℕ) (m p : ℕ)
      → fixed_header_bytes ≤ length buffer
      → (get_u32 0 buffer ≡ magic)
        × (byte_at 4 buffer ≡ 1)
        × (get_u16 6 buffer ≡ 16)
        × (get_u32 8 buffer ≡ m)
        × (get_u32 12 buffer ≡ p)
      → m ≤ max_metadata_bytes
      → p ≤ max_payload_bytes
      → decode_attachment_chunk_frame json buffer ≡ decode_body m p buffer
  unfolding decode_attachment_chunk_frame decode_body
  decode_guards buffer m p long fields hm hp = ground arith

  -- Behind a header that announces lengths within the limits the decoder only looks at the rest.
  pub decode-header :
      (m p : ℕ) (rest : List ℕ)
      → m ≤ max_metadata_bytes
      → p ≤ max_payload_bytes
      → decode_attachment_chunk_frame json (header m p ++ rest) ≡ (
          if not (m + p == length rest)
          then err bad_length
          else finish_frame json p (take p (drop m rest)) (json.parse (take m rest)))
  decode-header m p rest hm hp =
      decode_guards (header m p ++ rest) m p
        (omega (arith, length-append {0} (header m p) rest, length-header m p))
        (header_fields m p rest (omega arith) (omega arith)) hm hp
      ∙ unfold decode_body header in
        (ground (arith, length-append (header m p) rest, length-header m p))

  -- The rest of an encoded frame is split where the encoder joined it.
  split_body :
      (f : Frame)
      → json.parse (json.serialize f.metadata) ≡ some f.metadata
      → validate_frame f ≡ none
      → let metadata = json.serialize f.metadata in
        let rest = metadata ++ f.payload in
        (if not (length metadata + length f.payload == length rest)
          then err bad_length
          else finish_frame json
              (length f.payload)
              (take (length f.payload) (drop (length metadata) rest))
              (json.parse (take (length metadata) rest)))
        ≡ ok f
  split_body f parsed valid =
      let metadata = json.serialize f.metadata in
      rw
        (
          drop-append metadata f.payload,
          take-append metadata f.payload,
          take_all (length f.payload) f.payload (omega arith),
          parsed,
          finish_valid f valid,
        )
        (ground (arith, length-append metadata f.payload))

  -- What the encoder makes of a frame the decoder turns back into that frame, where the JSON text of
  -- its metadata parses back to the metadata.
  pub decode-encode :
      (f : Frame) (bytes : List ℕ)
      → json.parse (json.serialize f.metadata) ≡ some f.metadata
      → encode_attachment_chunk_frame json f ≡ ok bytes
      → decode_attachment_chunk_frame json bytes ≡ ok f
  decode-encode f bytes parsed h =
      let e = encode-Encoded f bytes h in
      rw e.layout (
        decode-header _ _ (json.serialize f.metadata ++ f.payload) e.metadata_fits e.payload_fits
        ∙ split_body f parsed e.valid)
