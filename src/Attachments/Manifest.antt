-- ===== src/Attachments/Manifest.antt =====
-- packages/protocol/src/attachments.ts: `validateAttachmentManifest`.
use risk_p2p.Prelude.{
  Bool, true, false, not, ◌&&◌, ◌||◌, leb, ◌==◌, length, if◌then◌else◌, List, [], ◌∷◌,
}
use risk_p2p.Prelude.Text.{Text, text_eq, codes, is_sha256}
use risk_p2p.Prelude.Js.{Value, undefined, str, arr, obj, Fields, get, count_items, all_items}
use risk_p2p.Attachments.Checks.{
  Host, protocol_version, max_attachment_chunk_size, max_attachment_filename_length,
  max_attachment_mime_length, max_attachment_chunks, ceil_div, string_that, absent_or, safe_integer,
  value_below, value_above, value_equals, natural, valid_wire_identifier, valid_attachment_metadata,
  is_attachment_kind,
}

pub data ManifestError : Type 0 where
  invalid_manifest unsupported_protocol_version missing_attachment_id : ManifestError
  missing_sender_peer_id invalid_filename invalid_mime_type invalid_kind : ManifestError
  invalid_size invalid_chunk_size invalid_chunk_count invalid_content_hash : ManifestError
  attachment_id_hash_mismatch invalid_chunk_layout invalid_chunk_hash_count : ManifestError
  invalid_created_at invalid_channel_id invalid_message_id invalid_extension : ManifestError
  invalid_metadata : ManifestError

-- `if (failed) errors.push(error)` in a row
unfoldable pub report : List (Bool × ManifestError) → List ManifestError
report [] = []
report ((failed, e) ∷ checks) = let rest = report checks in if failed then e ∷ rest else rest

-- Two strings that differ after `toLowerCase`; false where one is no string.
unfoldable pub differ : (Text → Text) → Value → Value → Bool
differ lower (str a) (str b) = not (text_eq (lower a) (lower b))
differ lower _ _ = false

unfoldable pub bad_layout : Value → Value → Value → Bool
bad_layout size chunk_size chunk_count =
    safe_integer size
    && not (value_below size 0)
    && safe_integer chunk_size
    && value_above chunk_size 0
    && safe_integer chunk_count
    && not (value_equals chunk_count (ceil_div (natural size) (natural chunk_size)))

unfoldable pub bad_chunk_hashes : Value → Value → Bool
bad_chunk_hashes undefined chunk_count = false
bad_chunk_hashes (arr hashes) chunk_count =
    not (value_equals chunk_count (count_items hashes))
    || not (all_items (string_that is_sha256) hashes)
bad_chunk_hashes _ chunk_count = true

module _ (host : Host) where
  unfoldable pub manifest_checks : Fields → List (Bool × ManifestError)
  manifest_checks fs =
      let field = λ (k : Text). get k fs in
      let id = field (codes "id") in
      let filename =
        λ (s : Text). not (length s == 0) && leb (length s) max_attachment_filename_length in
      let size = field (codes "size") in
      let chunk_size = field (codes "chunkSize") in
      let chunk_count = field (codes "chunkCount") in
      let content_hash = field (codes "contentHash") in
      (
        not (value_equals (field (codes "protocolVersion")) protocol_version),
        unsupported_protocol_version,
      )
      ∷ (not (string_that is_sha256 id), missing_attachment_id)
      ∷ (
        not (string_that valid_wire_identifier (field (codes "senderPeerId"))),
        missing_sender_peer_id,
      )
      ∷ (not (string_that filename (field (codes "filename"))), invalid_filename)
      ∷ (
        not (
            string_that (λ s. leb (length s) max_attachment_mime_length)
              (field (codes "mimeType"))),
        invalid_mime_type,
      )
      ∷ (not (string_that is_attachment_kind (field (codes "kind"))), invalid_kind)
      ∷ (not (safe_integer size) || value_below size 0, invalid_size)
      ∷ (
        not (safe_integer chunk_size)
            || not (value_above chunk_size 0)
            || value_above chunk_size max_attachment_chunk_size,
        invalid_chunk_size,
      )
      ∷ (
        not (safe_integer chunk_count)
            || value_below chunk_count 0
            || value_above chunk_count max_attachment_chunks,
        invalid_chunk_count,
      )
      ∷ (not (string_that is_sha256 content_hash), invalid_content_hash)
      ∷ (differ host.lower id content_hash, attachment_id_hash_mismatch)
      ∷ (bad_layout size chunk_size chunk_count, invalid_chunk_layout)
      ∷ (bad_chunk_hashes (field (codes "chunkHashes")) chunk_count, invalid_chunk_hash_count)
      ∷ (
        not (string_that (λ s. leb (length s) 64 && host.is_date s) (field (codes "createdAt"))),
        invalid_created_at,
      )
      ∷ (
        not (absent_or (string_that valid_wire_identifier) (field (codes "channelId"))),
        invalid_channel_id,
      )
      ∷ (
        not (absent_or (string_that valid_wire_identifier) (field (codes "messageId"))),
        invalid_message_id,
      )
      ∷ (
        not (absent_or (string_that (λ s. leb (length s) 32)) (field (codes "extension"))),
        invalid_extension,
      )
      ∷ (not (absent_or valid_attachment_metadata (field (codes "metadata"))), invalid_metadata)
      ∷ []

  unfoldable pub validate_attachment_manifest : Value → List ManifestError
  validate_attachment_manifest (obj fs) = report (manifest_checks fs)
  validate_attachment_manifest _ = invalid_manifest ∷ []
