-- ===== src/Chunks.antt =====
-- packages/rtc/src/file-transfer.ts: how a file is described by a manifest, cut into chunk frames
-- and checked chunk by chunk. A `Blob` is the list of its bytes. `sha256Hex` hashes a `Blob` by
-- `sha256BlobHex`; of the bytes of a frame it takes the digest of `crypto.subtle`, in hex the
-- parameter `sha256`.
pub mod Cover
pub mod Selection
use risk_p2p.Prelude.{
  ℕ, zero, suc, ◌+◌, ◌-◌, ◌*◌, min, Bool, true, false, not, ◌&&◌, ◌||◌, Option, none, some, List,
  [], ◌∷◌, ltb, leb, ◌==◌, if◌then◌else◌, length, take, drop, get_elem?,
}
use risk_p2p.Prelude.Text.{Text, text_eq}
use risk_p2p.Prelude.Js.{Number, nat, equals}
use risk_p2p.Attachments.Checks.{ceil_div}
use risk_p2p.Frames.{Frame, Metadata, bad_natural}
use risk_p2p.Sha256.{sha256_blob_hex}

pub data AttachmentKind : Type 0 where
  image video audio document archive executable other : AttachmentKind

pub record AttachmentManifest : Type 0 where
  pub id : Text
  pub message_id : Option Text
  pub channel_id : Option Text
  pub sender_peer_id : Text
  pub filename : Text
  pub mime_type : Text
  pub extension : Option Text
  pub kind : AttachmentKind
  pub size : ℕ
  pub content_hash : Text
  pub chunk_size : ℕ
  pub chunk_count : ℕ
  pub chunk_hashes : Option (List Text)
  pub created_at : Text

-- `source.slice(from, to)`; `slice` stops at the end of the source by itself.
unfoldable pub slice : ℕ → ℕ → List ℕ → List ℕ
slice from to source = take (to - from) (drop from source)

-- `source.slice(offset, Math.min(source.size, offset + chunkSize))` at chunk `index`
unfoldable pub chunk_at : List ℕ → ℕ → ℕ → List ℕ
unfolding slice
chunk_at source chunk_size index =
    let offset = index * chunk_size in
    slice offset (min (length source) (offset + chunk_size)) source

-- `onlyChunks && !onlyChunks.has(index)`
unfoldable pub skipped : Option (ℕ → Bool) → ℕ → Bool
skipped none index = false
skipped (some has) index = not (has index)

-- `chunkHashes?.[index]`
unfoldable pub announced_hash : Option (List Text) → ℕ → Option Text
announced_hash none index = none
announced_hash (some hashes) index = get_elem? hashes index

abbrev pub or_else {ℓ} : {A : Type ℓ} → Option A → A → A
or_else none a = a
or_else (some b) a = b

-- The loop of `hashChunks`; `parts` are the parts in which the stream of a blob gives its bytes.
unfoldable pub hash_chunks : (List ℕ → List (List ℕ)) → List ℕ → ℕ → ℕ → ℕ → List Text
unfolding chunk_at
hash_chunks parts source chunk_size index zero = []
hash_chunks parts source chunk_size index (suc rounds) =
    sha256_blob_hex (parts (chunk_at source chunk_size index))
    ∷ hash_chunks parts source chunk_size (index + 1) rounds

module _ (sha256 : List ℕ → Text) where
  unfoldable pub frame_at : List ℕ → AttachmentManifest → ℕ → Frame
  unfolding chunk_at
  frame_at source manifest index =
      let payload = chunk_at source manifest.chunk_size index in
      record {
        metadata = record {
          transfer_id = [];
          attachment_id = manifest.id;
          index = nat index;
          offset = nat (index * manifest.chunk_size);
          size = nat (length payload);
          hash = or_else (announced_hash manifest.chunk_hashes index) (sha256 payload);
        };
        payload = payload;
      }

  -- The loop of `iterateAttachmentChunks` from `index`, with the rounds that are left.
  unfoldable pub iterate_from : List ℕ → AttachmentManifest → Option (ℕ → Bool) → ℕ → ℕ → List Frame
  iterate_from source manifest only index zero = []
  iterate_from source manifest only index (suc rounds) =
      let rest = iterate_from source manifest only (index + 1) rounds in
      if skipped only index then rest else frame_at source manifest index ∷ rest

  unfoldable pub iterate_attachment_chunks :
      List ℕ → AttachmentManifest → Option (ℕ → Bool) → List Frame
  iterate_attachment_chunks source manifest only =
      iterate_from source manifest only 0 manifest.chunk_count

  -- `lower` is `toLowerCase`.
  unfoldable pub verify_attachment_chunk : (Text → Text) → Frame → Bool
  verify_attachment_chunk lower frame =
      if bad_natural frame.index
      then false
      else if bad_natural frame.offset
      then false
      else if not (equals frame.size (length frame.payload))
      then false
      else text_eq (lower (sha256 frame.payload)) (lower frame.hash)
