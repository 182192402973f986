-- ===== src/Frames.antt =====
-- packages/rtc/src/file-chunk-codec.ts: the binary frame of one attachment chunk. Bytes are numbers
-- below 256. `JSON.stringify` with `TextEncoder`, and `TextDecoder` with `JSON.parse`, are the two
-- functions of the parameter `MetadataCodec`; the parser has the type that the source casts it to.
pub mod Bytes
pub mod RoundTrip
pub mod Rejects
use risk_p2p.Prelude.{
  ℕ, ◌+◌, Bool, true, false, not, ◌&&◌, ◌||◌, Option, none, some, List, [], ◌∷◌, ◌++◌, ltb, ◌==◌,
  if◌then◌else◌, length, take, drop, all,
}
use risk_p2p.Prelude.Text.{Text, is_sha256}
use risk_p2p.Prelude.Js.{Number, is_safe, below, equals}
use Bytes.{byte_at, get_u16, get_u32, u16, u32}

abbrev pub magic : ℕ
magic = 0x5249534b

abbrev pub version : ℕ
version = 1

abbrev pub fixed_header_bytes : ℕ
fixed_header_bytes = 16

abbrev pub max_metadata_bytes : ℕ
max_metadata_bytes = 16384

abbrev pub max_payload_bytes : ℕ
max_payload_bytes = 262144

pub record Metadata : Type 0 where
  pub transfer_id : Text
  pub attachment_id : Text
  pub index : Number
  pub offset : Number
  pub size : Number
  pub hash : Text

pub record Frame : Type 0 where
  pub metadata : Metadata
  pub open metadata use *
  pub payload : List ℕ

pub record MetadataCodec : Type 0 where
  pub serialize : Metadata → List ℕ
  pub parse : List ℕ → Option Metadata

-- The errors that the two functions throw, by their messages.
pub data FrameError : Type 0 where
  bad_transfer_id bad_attachment_id bad_index bad_offset bad_size bad_hash : FrameError
  metadata_too_long payload_too_long : FrameError
  truncated bad_magic bad_version bad_header over_limits bad_length bad_json size_mismatch :
      FrameError

pub data Result {ℓ} (A : Type ℓ) : Type ℓ where
  ok : A → Result A
  err : FrameError → Result A

-- `!s || s.length > 128`
abbrev pub bad_identifier : Text → Bool
bad_identifier s = length s == 0 || ltb 128 (length s)

-- `!Number.isSafeInteger(x) || x < 0`
abbrev pub bad_natural : Number → Bool
bad_natural x = not (is_safe x) || below x 0

-- `none` is a frame that passes.
unfoldable pub validate_frame : Frame → Option FrameError
validate_frame f =
    if bad_identifier f.transfer_id
    then some bad_transfer_id
    else if bad_identifier f.attachment_id
    then some bad_attachment_id
    else if bad_natural f.index
    then some bad_index
    else if bad_natural f.offset
    then some bad_offset
    else if bad_natural f.size || not (equals f.size (length f.payload))
    then some bad_size
    else if not (is_sha256 f.hash)
    then some bad_hash
    else none

unfoldable pub header : ℕ → ℕ → List ℕ
unfolding u16 u32
header metadata_length payload_length =
    u32 magic
    ++ (version ∷ 0 ∷ u16 fixed_header_bytes ++ (u32 metadata_length ++ u32 payload_length))

module _ (json : MetadataCodec) where
  unfoldable pub encode_attachment_chunk_frame : Frame → Result (List ℕ)
  encode_attachment_chunk_frame frame = elim (validate_frame frame) [
    | some e ↦ err e
    | none ↦
        let metadata_bytes = json.serialize frame.metadata in
        if ltb max_metadata_bytes (length metadata_bytes)
        then err metadata_too_long
        else if ltb max_payload_bytes (length frame.payload)
        then err payload_too_long
        else ok (
            header (length metadata_bytes) (length frame.payload)
            ++ (metadata_bytes ++ frame.payload))
  ]

  -- What follows the parse: the frame is put together and validated.
  unfoldable pub finish_frame : ℕ → List ℕ → Option Metadata → Result Frame
  finish_frame payload_length payload none = err bad_json
  finish_frame payload_length payload (some metadata) =
      let frame : Frame = record { metadata = metadata; payload = payload } in
      elim (validate_frame frame) [
        | some e ↦ err e
        | none ↦ if equals metadata.size payload_length then ok frame else err size_mismatch
      ]

  unfoldable pub decode_attachment_chunk_frame : List ℕ → Result Frame
  decode_attachment_chunk_frame buffer =
      if ltb (length buffer) fixed_header_bytes
      then err truncated
      else if not (get_u32 0 buffer == magic)
      then err bad_magic
      else if not (byte_at 4 buffer == version)
      then err bad_version
      else if not (get_u16 6 buffer == fixed_header_bytes)
      then err bad_header
      else let metadata_length = get_u32 8 buffer in
        let payload_length = get_u32 12 buffer in
        if ltb max_metadata_bytes metadata_length || ltb max_payload_bytes payload_length
        then err over_limits
        else if not (fixed_header_bytes + metadata_length + payload_length == length buffer)
        then err bad_length
        else let body = drop fixed_header_bytes buffer in
          finish_frame payload_length (take payload_length (drop metadata_length body))
            (json.parse (take metadata_length body))

unfoldable pub is_attachment_chunk_frame : List ℕ → Bool
is_attachment_chunk_frame buffer =
    not (ltb (length buffer) fixed_header_bytes) && get_u32 0 buffer == magic
