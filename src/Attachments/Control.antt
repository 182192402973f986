-- ===== src/Attachments/Control.antt =====
-- packages/protocol/src/attachments.ts: `isFileControlMessage`.
use risk_p2p.Prelude.{
  ℕ, Bool, true, false, not, ◌&&◌, ◌||◌, leb, length, all, if◌then◌else◌, List, [], ◌∷◌,
}
use risk_p2p.Prelude.Text.{Text, text_eq, codes, is_sha256, is_word_dash}
use risk_p2p.Prelude.Js.{Value, arr, obj, Fields, get, count_items, all_items}
use risk_p2p.Attachments.Checks.{
  Host, protocol_version, max_attachment_chunks, string_that, absent_or, safe_integer, value_below,
  value_above, value_equals, natural, valid_transfer_identifier, valid_chunk_list,
  is_risk_capability, is_bool,
}
use risk_p2p.Attachments.Manifest.{validate_attachment_manifest}

unfoldable pub is_nil {ℓ} : {A : Type ℓ} → List A → Bool
is_nil [] = true
is_nil (x ∷ xs) = false

unfoldable pub valid_capabilities : Value → Bool
valid_capabilities (arr vs) =
    leb (count_items vs) 4 && all_items (string_that is_risk_capability) vs
valid_capabilities _ = false

-- `v.every((index) => index < k)` for an array
unfoldable pub every_below : ℕ → Value → Bool
every_below k (arr vs) = all_items (λ v. value_below v k) vs
every_below k _ = false

-- /^[a-z0-9_-]{1,64}$/i
unfoldable pub is_error_code : Text → Bool
is_error_code s = leb 1 (length s) && leb (length s) 64 && all is_word_dash s

unfoldable pub valid_transfer : Fields → Bool
valid_transfer fs = string_that valid_transfer_identifier (get (codes "transferId") fs)

unfoldable pub valid_optional_reason : Fields → Bool
valid_optional_reason fs =
    absent_or (string_that (λ s. leb (length s) 500)) (get (codes "reason") fs)

unfoldable pub valid_availability : Host → Fields → Bool
valid_availability host fs =
    let chunk_count = get (codes "chunkCount") fs in
    let available = get (codes "availableChunks") fs in
    string_that is_sha256 (get (codes "attachmentId") fs)
    && safe_integer chunk_count
    && not (value_below chunk_count 0)
    && not (value_above chunk_count max_attachment_chunks)
    && valid_chunk_list available
    && every_below (natural chunk_count) available
    && string_that (λ s. leb (length s) 64 && host.is_date s) (get (codes "expiresAt") fs)

unfoldable pub valid_error : Fields → Bool
valid_error fs =
    valid_transfer fs
    && string_that is_error_code (get (codes "code") fs)
    && string_that (λ s. leb (length s) 1000) (get (codes "message") fs)
    && is_bool (get (codes "retryable") fs)

module _ (host : Host) where
  -- The `switch` on `message.type`.
  unfoldable pub valid_message_of : Text → Fields → Bool
  valid_message_of kind fs =
      if text_eq kind (codes "peer.capabilities")
      then value_equals (get (codes "protocolVersion") fs) protocol_version
        && valid_capabilities (get (codes "capabilities") fs)
      else if text_eq kind (codes "file.offer") || text_eq kind (codes "file.manifest")
      then valid_transfer fs
        && is_nil (validate_attachment_manifest host (get (codes "manifest") fs))
      else if text_eq kind (codes "file.request")
      then string_that is_sha256 (get (codes "attachmentId") fs)
      else if text_eq kind (codes "file.accept") || text_eq kind (codes "file.pause")
      then valid_transfer fs
      else if text_eq kind (codes "file.reject") || text_eq kind (codes "file.cancel")
      then valid_transfer fs && valid_optional_reason fs
      else if text_eq kind (codes "file.need")
      then valid_transfer fs && valid_chunk_list (get (codes "missingChunks") fs)
      else if text_eq kind (codes "file.resume")
      then valid_transfer fs && absent_or valid_chunk_list (get (codes "missingChunks") fs)
      else if text_eq kind (codes "file.complete")
      then valid_transfer fs && string_that is_sha256 (get (codes "contentHash") fs)
      else if text_eq kind (codes "file.error")
      then valid_error fs
      else if text_eq kind (codes "file.availability")
      then valid_availability host fs
      else false

  unfoldable pub is_file_control_message : Value → Bool
  is_file_control_message (obj fs) =
      string_that (λ kind. valid_message_of kind fs) (get (codes "type") fs)
  is_file_control_message _ = false
