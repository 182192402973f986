-- ===== src/Tests/Transfers.antt =====
-- Frames, manifests and chunks at concrete inputs.
use risk_p2p.Prelude.{
  ℕ, ◌≡◌, ◌≤◌, ◌<◌, ◌+◌, ◌*◌, refl, ap, true, none, some, List, [], ◌∷◌, arith, length, take, drop,
  keep, inr, ltb,
}
use risk_p2p.Prelude.Text.{Text, text_eq, codes, is_sha256}
use risk_p2p.Prelude.Js.{nat, num, str, obj, Fields, end, field, get, is_safe, below, equals}
use risk_p2p.Frames.Bytes.{get_u32}
use risk_p2p.Frames.{
  Metadata, Frame, MetadataCodec, ok, err, bad_length, encode_attachment_chunk_frame,
  decode_attachment_chunk_frame, is_attachment_chunk_frame, validate_frame, header,
  max_payload_bytes,
}
use risk_p2p.Frames.RoundTrip.{decode-encode}
use risk_p2p.Frames.Rejects.{decode-take, decode-IsFrame}
use risk_p2p.Attachments.Checks.{
  Host, string_that, absent_or, safe_integer, value_below, value_above, value_equals, natural,
  ceil_div, valid_wire_identifier, is_attachment_kind, max_attachment_chunk_size,
  max_attachment_chunks,
}
use risk_p2p.Attachments.Manifest.{
  report, differ, bad_layout, bad_chunk_hashes, manifest_checks, validate_attachment_manifest,
}
use risk_p2p.Attachments.WellFormed.{validate-layout, validate-hashes, HashesFit}
use risk_p2p.Chunks.{AttachmentManifest, other, iterate_attachment_chunks, hash_chunks}
use risk_p2p.Sha256.{hex_text}
use risk_p2p.Sha256.Digest.{concat, reference_digest}
use risk_p2p.Chunks.Cover.{joined, joined-iterate}
use risk_p2p.Chunks.Selection.{
  index_passes, AllFrames, FramePasses, Describes, iterate-keep, iterate-FramePasses,
}

abbrev digest : Text
digest = codes "aaaaaaaaaaaaaaaabbbbbbbbbbbbbbbbccccccccccccccccDDDDDDDDDDDDDDDD"

abbrev sample_metadata : Metadata
sample_metadata = record {
  transfer_id = codes "t1";
  attachment_id = codes "a1";
  index = nat 2;
  offset = nat 6;
  size = nat 3;
  hash = digest;
}

abbrev sample_frame : Frame
sample_frame = record { metadata = sample_metadata; payload = 7 ∷ 8 ∷ 9 ∷ [] }

-- A codec that knows one text.
abbrev sample_codec : MetadataCodec
sample_codec = record { serialize = λ m. 123 ∷ 125 ∷ []; parse = λ b. some sample_metadata }

abbrev sample_bytes : List ℕ
sample_bytes =
    82 ∷ 73 ∷ 83 ∷ 75 ∷ 1 ∷ 0 ∷ 0 ∷ 16 ∷ 0 ∷ 0 ∷ 0 ∷ 2 ∷ 0 ∷ 0 ∷ 0 ∷ 3 ∷ 123 ∷ 125 ∷ 7 ∷ 8 ∷ 9 ∷ []

sample_encoded : encode_attachment_chunk_frame sample_codec sample_frame ≡ ok sample_bytes
unfolding encode_attachment_chunk_frame validate_frame header is_safe below equals is_sha256
sample_encoded = refl

decode-encode_example : decode_attachment_chunk_frame sample_codec sample_bytes ≡ ok sample_frame
decode-encode_example = decode-encode sample_codec sample_frame sample_bytes refl sample_encoded

decode-take_example :
    decode_attachment_chunk_frame sample_codec (take 20 sample_bytes) ≡ err bad_length
decode-take_example =
    decode-take sample_codec sample_frame sample_bytes 20 sample_encoded (omega arith)

decode-IsFrame_example :
    (validate_frame sample_frame ≡ none)
    × (length sample_frame.payload ≤ max_payload_bytes)
    × (equals sample_frame.size (length sample_frame.payload) ≡ true)
    × (length sample_frame.payload ≡ get_u32 12 sample_bytes)
    × (length sample_bytes ≡ 16 + get_u32 8 sample_bytes + length sample_frame.payload)
    × (sample_frame.payload ≡ drop (16 + get_u32 8 sample_bytes) sample_bytes)
decode-IsFrame_example =
    decode-IsFrame sample_codec sample_bytes sample_frame
      (decode-encode sample_codec sample_frame sample_bytes refl sample_encoded)

sample_is_frame : is_attachment_chunk_frame sample_bytes ≡ true
unfolding is_attachment_chunk_frame get_u32
sample_is_frame = refl

abbrev host : Host
host = record { lower = λ s. s; is_date = λ s. true }

abbrev manifest_fields : Fields
manifest_fields = field (codes "protocolVersion") (num (nat 1)) (
    field (codes "id") (str digest) (
      field (codes "senderPeerId") (str (codes "peer-0001")) (
        field (codes "filename") (str (codes "a.txt")) (
          field (codes "mimeType") (str (codes "text/plain")) (
            field (codes "kind") (str (codes "document")) (
              field (codes "size") (num (nat 700000)) (
                field (codes "chunkSize") (num (nat 262144)) (
                  field (codes "chunkCount") (num (nat 3)) (
                    field (codes "contentHash") (str digest)
                      (field (codes "createdAt") (str (codes "2026-01-01")) end))))))))))

manifest_accepted : validate_attachment_manifest host (obj manifest_fields) ≡ []
unfolding validate_attachment_manifest report manifest_checks get value_equals string_that
    safe_integer value_below value_above natural ceil_div valid_wire_identifier is_attachment_kind
    absent_or differ bad_layout bad_chunk_hashes is_sha256 text_eq
manifest_accepted = refl

validate-layout_example :
    (size chunk_size chunk_count : ℕ) × (get (codes "size") manifest_fields ≡ num (nat size))
    × (get (codes "chunkSize") manifest_fields ≡ num (nat chunk_size))
    × (get (codes "chunkCount") manifest_fields ≡ num (nat chunk_count))
    × (0 < chunk_size)
    × (chunk_size ≤ max_attachment_chunk_size)
    × (chunk_count ≤ max_attachment_chunks)
    × (size ≤ chunk_count * chunk_size)
    × (chunk_count * chunk_size < size + chunk_size)
validate-layout_example = validate-layout host manifest_fields manifest_accepted

validate-hashes_example :
    (id content_hash : Text) × (get (codes "id") manifest_fields ≡ str id)
    × (get (codes "contentHash") manifest_fields ≡ str content_hash)
    × (is_sha256 id ≡ true)
    × (is_sha256 content_hash ≡ true)
    × (id ≡ content_hash)
    × HashesFit
        (natural (get (codes "chunkCount") manifest_fields))
        (get (codes "chunkHashes") manifest_fields)
validate-hashes_example = validate-hashes host manifest_fields manifest_accepted

-- A digest that is the number of bytes.
abbrev toy_hash : List ℕ → Text
toy_hash bytes = length bytes ∷ []

abbrev file : List ℕ
file = 1 ∷ 2 ∷ 3 ∷ 4 ∷ 5 ∷ 6 ∷ 7 ∷ []

abbrev manifest : AttachmentManifest
manifest = record {
  id = codes "a1";
  message_id = none;
  channel_id = none;
  sender_peer_id = codes "peer-0001";
  filename = codes "a.txt";
  mime_type = codes "text/plain";
  extension = none;
  kind = other;
  size = 7;
  content_hash = digest;
  chunk_size = 3;
  chunk_count = 3;
  chunk_hashes = none;
  created_at = codes "2026-01-01";
}

count_lem : 3 ≡ ceil_div (length file) 3
unfolding ceil_div
count_lem = refl

joined-iterate_example : joined (iterate_attachment_chunks toy_hash file manifest none) ≡ file
joined-iterate_example = joined-iterate toy_hash file manifest (omega arith) count_lem

iterate-keep_example :
    iterate_attachment_chunks toy_hash file manifest (some (λ i. ltb 0 i))
    ≡ keep (index_passes (λ i. ltb 0 i)) (iterate_attachment_chunks toy_hash file manifest none)
iterate-keep_example = iterate-keep toy_hash file manifest (λ i. ltb 0 i)

-- SHA-256 in the place of `crypto.subtle`, and a manifest with the hashes of the chunks.
abbrev subtle : List ℕ → Text
subtle m = hex_text (reference_digest m)

-- A stream that gives one byte after the other.
abbrev bytewise : List ℕ → List (List ℕ)
bytewise [] = []
bytewise (b ∷ m) = (b ∷ []) ∷ bytewise m

bytewise_whole : (m : List ℕ) → concat (bytewise m) ≡ m
bytewise_whole [] = refl
bytewise_whole (b ∷ m) = ap (◌∷◌ b) (bytewise_whole m)

abbrev hashed : AttachmentManifest
hashed = record manifest { chunk_hashes = some (hash_chunks bytewise file 3 0 3) }

hashed-Describes : Describes subtle file hashed bytewise
hashed-Describes = record {
  positive = omega arith;
  counted = count_lem;
  safe = omega arith;
  hashes = inr refl;
}

iterate-FramePasses_example :
    AllFrames
      (FramePasses subtle file hashed (λ s. s))
      (iterate_attachment_chunks subtle file hashed none)
iterate-FramePasses_example =
    iterate-FramePasses subtle file hashed bytewise (λ s. s) none (λ m. refl) bytewise_whole
      hashed-Describes
